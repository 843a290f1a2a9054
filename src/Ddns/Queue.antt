-- ===== src/Ddns/Queue.antt =====
-- The queue of changes in internal/ddns/ddns.go: a channel of 64 places, whose oldest change comes first.
-- `Submit` tries to send, takes the oldest, and tries again, under a lock that other calls of it wait
-- for; `Run` may receive at any time between, `k` changes before the one and `j` before the other step.
use splitdns.Prelude.{
  ℕ, suc, ◌+◌, ◌-◌, ◌≤◌, ◌<◌, ◌≡◌, refl, sym, ap, ◌∙◌, true, List, [], ◌∷◌, ◌++◌, if◌then◌else◌,
  ltb, length, length-append, drop, length-drop, drop-drop, drop-append, arith, Bool-cases, inl,
  inr,
}
use mathlib.Core.List.{append_assoc, append-nil}

-- `chanCap`
abbrev pub chan_cap : ℕ
chan_cap = 64

module _ {A : Type 0} where
  -- `case w.ch <- c`, or the default
  unfoldable pub try_send : List A → A → List A
  try_send q c = if ltb (length q) chan_cap then q ++ c ∷ [] else q

  -- `Submit`
  unfoldable pub submit : ℕ → ℕ → List A → A → List A
  unfolding try_send
  submit k j q c =
      if ltb (length q) chan_cap then q ++ c ∷ [] else try_send (drop j (drop 1 (drop k q))) c

  -- calls of `Submit` while nothing is received
  unfoldable pub submit_all : List A → List A → List A
  unfolding submit
  submit_all q [] = q
  submit_all q (c ∷ cs) = submit_all (submit 0 0 q c) cs

  -- A submitted change is the last in the queue, whatever is received meanwhile; the others keep their
  -- order, only oldest ones are gone, and the channel's capacity is kept to.
  pub submit_lem :
      (k j : ℕ) (q : List A) (c : A)
      → length q ≤ chan_cap
      → (length (submit k j q c) ≤ chan_cap)
        × ((n : ℕ) × (n ≤ k + 1 + j) × (submit k j q c ≡ drop n q ++ c ∷ []))
  unfolding submit
  submit_lem k j q c fits = elim (Bool-cases (ltb (length q) chan_cap)) [
    | inl b ↦
        let sum = length-append q (c ∷ []) in rw b (ground (arith, sum), (0, omega arith, refl))
    | inr b ↦
        let r = drop j (drop 1 (drop k q)) in
        let same : r ≡ drop (k + 1 + j) q = ap (drop j) (drop-drop k 1 q) ∙ drop-drop (k + 1) j q in
        let size = length-drop (k + 1 + j) q in
        let less : length r < chan_cap = rw same (omega arith) in
        let room : ltb (length r) chan_cap ≡ true = ground arith in
        let sum = length-append r (c ∷ []) in
        rw (b, room) (omega arith, (k + 1 + j, omega arith, ap (λ x. x ++ c ∷ []) same))
  ]

  submit_all-from :
      (q cs : List A)
      → length q ≤ chan_cap
      → submit_all q cs ≡ drop (length q + length cs - chan_cap) (q ++ cs)
  unfolding submit_all
  submit_all-from q [] fits =
      let e : length q + 0 - chan_cap ≡ 0 = omega arith in
      sym (ap (λ n. drop n (q ++ [])) e ∙ append-nil q)
  submit_all-from q (c ∷ cs) fits = elim (Bool-cases (ltb (length q) chan_cap)) [
    | inl b ↦
        let q1 = q ++ c ∷ [] in
        let size = length-append q (c ∷ []) in
        let fits1 : length q1 ≤ chan_cap = ground (arith, size) in
        let same : submit 0 0 q c ≡ q1 = unfold submit in rw b refl in
        let count : length q1 + length cs - chan_cap ≡ length q + suc (length cs) - chan_cap =
          omega (arith, size) in
        ap (λ x. submit_all x cs) same
        ∙ submit_all-from q1 cs fits1
        ∙ ap (λ n. drop n (q1 ++ cs)) count
        ∙ ap (drop (length q + suc (length cs) - chan_cap)) (append_assoc q (c ∷ []) cs)
    | inr b ↦
        let full : length q ≡ chan_cap = ground arith in
        let r = drop 1 q in
        let q1 = r ++ c ∷ [] in
        let left = length-drop 1 q in
        let room : ltb (length r) chan_cap ≡ true = ground arith in
        let size = length-append r (c ∷ []) in
        let fits1 : length q1 ≤ chan_cap = omega (arith, size, left) in
        let same : submit 0 0 q c ≡ q1 = unfold submit in unfold try_send in rw b (rw room refl) in
        let count : length q1 + length cs - chan_cap ≡ length cs = omega (arith, size, left) in
        let total : length q + suc (length cs) - chan_cap ≡ 1 + length cs = omega arith in
        let front : drop 1 (q ++ c ∷ cs) ≡ r ++ c ∷ cs = drop-append 1 q (c ∷ cs) (omega arith) in
        ap (λ x. submit_all x cs) same
        ∙ submit_all-from q1 cs fits1
        ∙ ap (λ n. drop n (q1 ++ cs)) count
        ∙ ap (drop (length cs)) (append_assoc r (c ∷ []) cs ∙ sym front)
        ∙ drop-drop 1 (length cs) (q ++ c ∷ cs)
        ∙ sym (ap (λ n. drop n (q ++ c ∷ cs)) total)
  ]

-- Of the changes that are submitted while nothing is received, the newest 64 are kept, in order.
pub submit_all-newest :
    {A : Type 0} → (cs : List A) → submit_all [] cs ≡ drop (length cs - chan_cap) cs
submit_all-newest cs =
    let e : 0 + length cs - chan_cap ≡ length cs - chan_cap = omega arith in
    submit_all-from [] cs (omega arith) ∙ ap (λ n. drop n cs) e
