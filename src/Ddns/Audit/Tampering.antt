-- ===== src/Ddns/Audit/Tampering.antt =====
-- What the chain of internal/ddns/audit.go shows of a log that was changed, and what it does not.
use splitdns.Prelude.{
  ℕ, ◌+◌, ◌≡◌, ◌≢◌, refl, sym, ap, ◌∙◌, true, not, none, some, List, [], ◌∷◌, ◌++◌, if◌then◌else◌,
  ◌==◌, map, length, All, arith,
}
use mathlib.Core.List.{append_assoc}
use mathlib.Core.Path.{subst}
use splitdns.Dns.{Name, name_eq, name_eq_iff}
use splitdns.Ddns.Audit.{
  Format, AuditEntry, bar, payload, chain_hash, verify_from, verify_chain, verify_from-Links,
}

abbrev pub NonZero : Name → Type 0
NonZero s = All (λ c. c ≢ 0) s

-- SHA-256 in hexadecimal has no zero bytes, and no two inputs that occur have the same hash.
pub record IsHash (f : Format) : Type 0 where
  pub text : (x : Name) → NonZero (f.sha x)
  pub collision_free : (x y : Name) → f.sha x ≡ f.sha y → x ≡ y

-- the last hash of a chain that starts from `prev`
abbrev pub last_hash : Name → List AuditEntry → Name
last_hash prev [] = prev
last_hash prev (e ∷ es) = last_hash e.hash es

append-injective :
    (a b c d : Name) → NonZero a → NonZero b → a ++ (0 ∷ c) ≡ b ++ (0 ∷ d) → (a ≡ b) × (c ≡ d)
append-injective [] [] c d n m h = (refl, cc h)
append-injective [] (k ∷ b) c d n m h = let z : k ≡ 0 = cc h in absurd (m.0 z)
append-injective (j ∷ a) [] c d n m h = let z : j ≡ 0 = cc h in absurd (n.0 z)
append-injective (j ∷ a) (k ∷ b) c d n m h =
    let (p, q) = append-injective a b c d n.1 m.1 (cc h) in
    let head : j ≡ k = cc h in (λ i. head i ∷ p i, q)

same_from :
    (f : Format)
    → IsHash f
    → (i : ℕ) (prev prev2 : Name) (es fs : List AuditEntry) → verify_from f i prev es ≡ none
    → verify_from f i prev2 fs ≡ none
    → length es ≡ length fs
    → NonZero prev
    → NonZero prev2
    → last_hash prev es ≡ last_hash prev2 fs
    → (prev ≡ prev2) × (map (payload f) es ≡ map (payload f) fs)
unfolding chain_hash
same_from f law i prev prev2 [] [] h g n a b last = (last, refl)
same_from f law i prev prev2 [] (e ∷ fs) h g n a b last = absurd (omega arith)
same_from f law i prev prev2 (d ∷ es) [] h g n a b last = absurd (omega arith)
same_from f law i prev prev2 (d ∷ es) (e ∷ fs) h g n a b last =
    let l = verify_from-Links f i prev d es h in
    let r = verify_from-Links f i prev2 e fs g in
    let (hashes, tail) =
      same_from f law (i + 1) d.hash e.hash es fs l.rest r.rest (omega arith)
        (subst NonZero l.hashed (law.text _)) (subst NonZero r.hashed (law.text _)) last in
    let inputs = law.collision_free _ _ (l.hashed ∙ hashes ∙ sym r.hashed) in
    let (p, q) = append-injective prev prev2 (payload f d) (payload f e) a b inputs in
    (p, λ j. q j ∷ tail j)

-- Two logs of the same length that both verify and end in the same hash have the same payloads, entry
-- by entry, if no two inputs have the same hash: a change of any payload shows in a hash that was kept elsewhere.
pub same_payloads :
    (f : Format)
    → IsHash f
    → (es fs : List AuditEntry) → verify_chain f es ≡ none
    → verify_chain f fs ≡ none
    → length es ≡ length fs
    → last_hash [] es ≡ last_hash [] fs
    → map (payload f) es ≡ map (payload f) fs
unfolding verify_chain
same_payloads f law es fs h g n last = (same_from f law 0 [] [] es fs h g n tt tt last).1

truncated_from :
    (f : Format) (i : ℕ) (prev : Name) (es fs : List AuditEntry)
    → verify_from f i prev (es ++ fs) ≡ none
    → verify_from f i prev es ≡ none
unfolding verify_from
truncated_from f i prev [] fs h = refl
truncated_from f i prev (e ∷ es) fs h =
    let a = verify_from-Links f i prev e (es ++ fs) h in
    let rest = truncated_from f (i + 1) e.hash es fs a.rest in
    let seq : (e.seq == i) ≡ true = let s = a.seq in ground arith in
    let prev_eq : name_eq e.prev prev ≡ true = (name_eq_iff e.prev prev).1 a.before in
    let hashed : name_eq (chain_hash f prev e) e.hash ≡ true =
      (name_eq_iff (chain_hash f prev e) e.hash).1 a.hashed in
    rw (seq, prev_eq, hashed) rest

-- A log that is cut off at its end still verifies: the check alone does not show that entries are missing.
pub truncation_verifies :
    (f : Format) (es fs : List AuditEntry)
    → verify_chain f (es ++ fs) ≡ none
    → verify_chain f es ≡ none
unfolding verify_chain
truncation_verifies f es fs h = truncated_from f 0 [] es fs h

-- `e` with host and change as given
abbrev pub with_host : AuditEntry → Name → Name → AuditEntry
with_host e h c = record e { host = h; change = c }

moved_payload :
    (f : Format) (e : AuditEntry) (h x c : Name)
    → payload f (with_host e (h ++ (bar ∷ x)) c) ≡ payload f (with_host e h (x ++ (bar ∷ c)))
unfolding payload
moved_payload f e h x c =
    let after : Name = bar ∷ (e.result ++ (bar ∷ e.detail)) in
    let q : (h ++ (bar ∷ x)) ++ (bar ∷ (c ++ after)) ≡ h ++ (bar ∷ ((x ++ (bar ∷ c)) ++ after)) =
      append_assoc h (bar ∷ x) (bar ∷ (c ++ after))
      ∙ ap (λ t. h ++ (bar ∷ t)) (sym (append_assoc x (bar ∷ c) after)) in
    ap
      (λ t.
        f.digits e.seq ++ (bar ∷ (e.prev ++ (bar ∷ (e.time ++ (bar ∷ (e.token_id ++ (bar ∷ t))))))))
      q

moved_from :
    (f : Format) (i : ℕ) (prev : Name) (before : List AuditEntry) (e : AuditEntry) (h x c : Name)
    (after : List AuditEntry)
    → verify_from f i prev (before ++ with_host e (h ++ (bar ∷ x)) c ∷ after)
      ≡ verify_from f i prev (before ++ with_host e h (x ++ (bar ∷ c)) ∷ after)
unfolding verify_from chain_hash
moved_from f i prev [] e h x c after =
    ap
      (λ t.
        if not (e.seq == i)
        then some i
        else if not (name_eq e.prev prev)
        then some i
        else if not (name_eq (f.sha (prev ++ (0 ∷ t))) e.hash)
        then some i
        else verify_from f (i + 1) e.hash after)
      (moved_payload f e h x c)
moved_from f i prev (d ∷ before) e h x c after =
    rw (moved_from f (i + 1) d.hash before e h x c after) refl

-- A rewrite that moves a separator from within the host of an entry to within its change, or back, goes
-- unnoticed: the check answers the same.
pub moved_separator :
    (f : Format) (before : List AuditEntry) (e : AuditEntry) (h x c : Name)
    (after : List AuditEntry)
    → verify_chain f (before ++ with_host e (h ++ (bar ∷ x)) c ∷ after)
      ≡ verify_chain f (before ++ with_host e h (x ++ (bar ∷ c)) ∷ after)
unfolding verify_chain
moved_separator f before e h x c after = moved_from f 0 [] before e h x c after
