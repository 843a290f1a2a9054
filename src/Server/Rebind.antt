-- ===== src/Server/Rebind.antt =====
-- The rebind filter of internal/server/server.go on every answer of the forward path.
use splitdns.Prelude.{
  ℕ, zero, suc, ◌≡◌, ◌⊎◌, ◌↔◌, inl, inr, sym, ap, ◌∙◌, Bool, true, false, not, Option, none, some,
  List, [], ◌∷◌, ◌++◌, filter, take, All, arith, Bool-cases,
}
use mathlib.Core.Path.{subst}
use splitdns.Dns.{
  Name, Body, Rr, Msg, name_eq, name_eq_iff, to_lower, has_suffix, has_suffix-append,
  has_suffix→append,
}
use splitdns.AnsCache.Ttl.{dot}
use splitdns.Server.{
  Wire, IsWire, under_allow, blocked, exempt, apply_rebind_filter, stamp, respond, refuse,
  serve_forwarded, udp_size,
}

-- the name is the suffix, or ends in a dot and the suffix, which is in lower case
abbrev pub Under : Name → Name → Type 0
Under name sfx = (name ≡ to_lower sfx) ⊎ ((p : Name) × (name ≡ p ++ (dot ∷ to_lower sfx)))

abbrev pub UnderAny : Name → List Name → Type 0
UnderAny name [] = ⊥
UnderAny name (sfx ∷ sfxs) = Under name sfx ⊎ UnderAny name sfxs

-- A name is exempt exactly when it is one of the suffixes, in lower case, or has one at the boundary of
-- a label: a dot stands before it.
pub under_allow_iff :
    (name : Name) (allow : List Name) → (under_allow name allow ≡ true) ↔ UnderAny name allow
unfolding under_allow
under_allow_iff name [] = (λ h. absurd (ground arith), λ h. absurd h)
under_allow_iff name (sfx ∷ sfxs) =
    let s = to_lower sfx in
    let rest = under_allow_iff name sfxs in
    (
      λ h. elim (Bool-cases (name_eq name s)) [
        | inl e ↦ inl (inl ((name_eq_iff name s).0 e))
        | inr e ↦ elim (Bool-cases (has_suffix name (dot ∷ s))) [
          | inl f ↦ inl (inr (has_suffix→append name (dot ∷ s) f))
          | inr f ↦ inr (rest.0 (ground arith))
        ]
      ],
      λ h. elim h [
        | inl (inl e) ↦ let f = (name_eq_iff name s).1 e in ground arith
        | inl (inr (p, e)) ↦
            let f : has_suffix name (dot ∷ s) ≡ true =
              ap (λ n. has_suffix n (dot ∷ s)) e ∙ has_suffix-append p (dot ∷ s) in
            ground arith
        | inr u ↦ let f = rest.1 u in ground arith
      ],
    )

abbrev pub Passes : Rr → Type 0
Passes rr = blocked rr.body ≡ false

All-filter_self :
    (f : Body → Bool) (l : List Rr)
    → All (λ (rr : Rr). f rr.body ≡ false) (filter (λ (rr : Rr). not (f rr.body)) l)
All-filter_self f [] = tt
All-filter_self f (rr ∷ rrs) = elim (Bool-cases (f rr.body)) [
  | inl e ↦ rw e (All-filter_self f rrs)
  | inr e ↦ rw e (e, All-filter_self f rrs)
]

All-take :
    (f : Body → Bool) (n : ℕ) (l : List Rr)
    → All (λ (rr : Rr). f rr.body ≡ false) l
    → All (λ (rr : Rr). f rr.body ≡ false) (take n l)
All-take f zero l h = tt
All-take f (suc n) [] h = tt
All-take f (suc n) (rr ∷ rrs) h = (h.0, All-take f n rrs h.1)

-- No blocked address is in the answer, unless the name of the message's question is exempt.
abbrev pub Unblocked : List Name → Msg → Type 0
Unblocked allow m = (exempt allow m.question ≡ true) ⊎ All Passes m.answer

filter-Unblocked : (allow : List Name) (m : Msg) → Unblocked allow (apply_rebind_filter allow m)
unfolding apply_rebind_filter
filter-Unblocked allow m = elim (Bool-cases (exempt allow m.question)) [
  | inl e ↦ rw e (inl e)
  | inr e ↦ rw e (inr (All-filter_self blocked m.answer))
]

stamp-Unblocked :
    (w : Wire)
    → IsWire w
    → (o : Option (Bool × ℕ)) (allow : List Name) (m : Msg) → Unblocked allow m
    → Unblocked allow (stamp w o m)
unfolding stamp
stamp-Unblocked w l none allow m h = h
stamp-Unblocked w l (some (d, cs)) allow m h = rw (l.question_set_edns0, l.answer_set_edns0) h

respond-Unblocked :
    (w : Wire)
    → IsWire w
    → (tcp : Bool) (allow : List Name) (req m : Msg) → Unblocked allow m
    → Unblocked allow (respond w tcp req m)
unfolding respond
respond-Unblocked w l true allow req m h = stamp-Unblocked w l _ allow m h
respond-Unblocked w l false allow req m h =
    let s = stamp w (w.edns req) m in
    let n = udp_size (w.edns req) in
    let (k, e) = l.answer_truncate n s in
    elim (stamp-Unblocked w l (w.edns req) allow m h) [
      | inl x ↦ inl (ap (exempt allow) (l.question_truncate n s) ∙ x)
      | inr x ↦ inr (subst (All Passes) (sym e) (All-take blocked k s.answer x))
    ]

pub serve_forwarded-Unblocked :
    (w : Wire)
    → IsWire w
    → (tcp : Bool) (allow : List Name) (req m : Msg)
    → Unblocked allow (serve_forwarded w tcp allow req m)
unfolding serve_forwarded
serve_forwarded-Unblocked w l tcp allow req m =
    respond-Unblocked w l tcp allow req (apply_rebind_filter allow (record m { id = req.id }))
      (filter-Unblocked allow (record m { id = req.id }))

pub refuse-Unblocked :
    (w : Wire)
    → IsWire w
    → (tcp : Bool) (allow : List Name) (req : Msg) (rcode : ℕ)
    → Unblocked allow (refuse w tcp req rcode)
unfolding refuse
refuse-Unblocked w l tcp allow req rcode =
    respond-Unblocked w l tcp allow req (w.set_rcode req rcode)
      (inr (subst (All Passes) (sym (l.answer_set_rcode req rcode)) tt))
