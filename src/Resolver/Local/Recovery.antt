-- ===== src/Resolver/Local/Recovery.antt =====
-- Which label `recoverLocalHost` of internal/resolver/resolver.go takes for the host.
use splitdns.Prelude.{
  ℕ, zero, suc, ◌≡◌, ◌≢◌, refl, sym, ap, ◌∙◌, Bool, true, false, ◌||◌, Option, none, some,
  some-injective, [], ◌∷◌, ◌++◌, if◌then◌else◌, arith, Bool-cases, Option-cases, inl, inr,
}
use mathlib.Core.List.{append_assoc, append-nil}
use splitdns.Dns.{
  Name, name_eq, name_eq_iff, before_suffix, before_suffix-append, before_suffix-none_iff,
  trim_suffix,
}
use splitdns.Model.{Snapshot}
use splitdns.Resolver.Helpers.{is_empty, dots, longest_zone_suffix}
use splitdns.Resolver.Local.{
  strip_member, dotted, local_text, strip_one, strip_all, underscored, is_host_label,
  recover_local_host,
}

abbrev dot : Name
dot = b'.' ∷ []

-- What is taken off is at the end, and what is left ends in a dot.
abbrev IsStripped : Name → Name → Type 0
IsStripped cur h = (p : Name) × (m : Name) × (h ≡ p ++ dot) × (cur ≡ h ++ m)

strip_member-append : (fqdn m h : Name) → strip_member fqdn m ≡ some h → IsStripped fqdn h
unfolding strip_member
strip_member-append fqdn m h e = elim (Option-cases (before_suffix fqdn (b'.' ∷ m))) [
  | inl n ↦ absurd (cc (rw (n, strip_member) at e))
  | inr (p, n) ↦
      let same : p ++ dot ≡ h = some-injective (p ++ dot) h (rw (n, strip_member) at e) in
      (
        p,
        m,
        sym same,
        before_suffix-append fqdn (b'.' ∷ m) p n
            ∙ (sym (append_assoc p dot m) ∙ ap (λ x. x ++ m) same),
      )
]

guarded_some :
    (b : Bool) (o : Option Name) (x : Name) → (if b then none else o) ≡ some x → o ≡ some x
guarded_some true o x h = absurd (cc h)
guarded_some false o x h = h

first_of :
    {x y : Name} {a b : Bool} → ◌≡◌ {A = Option (Name × Bool)} (some (x, a)) (some (y, b)) → x ≡ y
first_of {x} {y} {a} {b} h = ap (λ z. z.0) (some-injective (x, a) (y, b) h)

strip_one-append :
    (snap : Snapshot) (cur h : Name) (local : Bool)
    → strip_one snap cur ≡ some (h, local)
    → IsStripped cur h
unfolding strip_one
strip_one-append snap cur h local e =
    let zone = longest_zone_suffix cur snap.zones in
    let domain = strip_member cur (dotted snap.local_domain) in
    let apex = strip_member cur (dotted (trim_suffix zone dot)) in
    elim (Option-cases (strip_member cur (dotted local_text))) [
      | inr (h1, n1) ↦
          strip_member-append cur _ h (n1 ∙ ap some (first_of (rw (n1, strip_one) at e)))
      | inl n1 ↦ elim (Option-cases (if is_empty snap.local_domain then none else domain)) [
        | inr (h2, n2) ↦ strip_member-append cur _ h (
            guarded_some (is_empty snap.local_domain) domain h2 n2
            ∙ ap some (first_of (rw (n1, n2, strip_one) at e)))
        | inl n2 ↦ elim (Option-cases (if is_empty zone then none else apex)) [
          | inr (h3, n3) ↦ strip_member-append cur _ h (
              guarded_some (is_empty zone) apex h3 n3
              ∙ ap some (first_of (rw (n1, n2, n3, strip_one) at e)))
          | inl n3 ↦ absurd (cc (rw (n1, n2, n3, strip_one) at e))
        ]
      ]
    ]

-- What is left of a name is its beginning, and ends in a dot once anything was taken off.
abbrev IsLeft : Name → Name × Bool × Bool → Type 0
IsLeft name (cur, _, stripped) =
    ((m : Name) × (name ≡ cur ++ m)) × (stripped ≡ true → (p : Name) × (cur ≡ p ++ dot))

strip_all-IsLeft :
    (snap : Snapshot) (passes : ℕ) (name cur : Name) (tainted stripped : Bool)
    → IsLeft name (cur, tainted, stripped)
    → IsLeft name (strip_all snap passes cur tainted stripped)
unfolding strip_all
strip_all-IsLeft snap zero name cur tainted stripped l = l
strip_all-IsLeft snap (suc passes) name cur tainted stripped ((m, e), l) =
    elim (Option-cases (strip_one snap cur)) [
      | inl n ↦ rw (n, strip_all) ((m, e), l)
      | inr ((h, local), n) ↦
          let (p, m', ends, from) = strip_one-append snap cur h local n in
          rw (n, strip_all)
            (strip_all-IsLeft snap passes name h (tainted || local) true
              ((m' ++ m, e ∙ (ap (λ x. x ++ m) from ∙ append_assoc h m' m)), λ _. (p, ends)))
    ]

nil_ne_dotted : (q : Name) → [] ≡ q ++ dot → ⊥
nil_ne_dotted [] h = cc h
nil_ne_dotted (c ∷ q) h = cc h

dotted_injective : (p q : Name) → p ++ dot ≡ q ++ dot → p ≡ q
dotted_injective [] [] h = refl
dotted_injective [] (d ∷ q) h = absurd (nil_ne_dotted q (cc h))
dotted_injective (c ∷ p) [] h = absurd (nil_ne_dotted p (cc h))
dotted_injective (c ∷ p) (d ∷ q) h = let rest = dotted_injective p q (cc h) in cc (rest, h)

trim_suffix-dotted : (p : Name) → trim_suffix (p ++ dot) dot ≡ p
unfolding trim_suffix
trim_suffix-dotted p = elim (Option-cases (before_suffix (p ++ dot) dot)) [
  | inl n ↦ absurd ((before_suffix-none_iff (p ++ dot) dot).0 n p refl)
  | inr (q, n) ↦
      rw (n, trim_suffix) (sym (dotted_injective p q (before_suffix-append (p ++ dot) dot q n)))
]

-- A label that can be a host's: one label, not empty, with no underscore before it, and none of the
-- local suffixes.
abbrev pub IsHost : Snapshot → Name → Type 0
IsHost snap host =
    (host ≢ [])
    × (dots host ≡ 0)
    × (underscored host ≡ false)
    × (name_eq host local_text ≡ false)
    × ((host ≡ snap.local_domain) → ⊥)

is_host_label-IsHost :
    (snap : Snapshot) (host : Name) → is_host_label snap host ≡ true → IsHost snap host
unfolding is_host_label
is_host_label-IsHost snap [] h = absurd (cc h)
is_host_label-IsHost snap (c ∷ cs) h = (
  cc,
  ground arith,
  ground arith,
  ground arith,
  λ same.
      let eq = (name_eq_iff (c ∷ cs) snap.local_domain).1 same in
      let full : is_empty snap.local_domain ≡ false = ap is_empty (sym same) in
      absurd (ground (arith, h, eq, full)),
)

-- A host that is recovered from a name is the first label of the name, and is not empty, has no
-- underscore before it and is neither local nor the local domain.
pub recover_local_host-IsHost :
    (snap : Snapshot) (name host : Name)
    → (recover_local_host snap name).0 ≡ some host
    → ((rest : Name) × (name ≡ host ++ (b'.' ∷ rest))) × IsHost snap host
unfolding recover_local_host
recover_local_host-IsHost snap name host h =
    let all = strip_all snap 8 name false false in
    let label = trim_suffix all.0 dot in
    let ((m, e), ends) =
      strip_all-IsLeft snap 8 name name false false
        (([], sym (append-nil name)), λ f. absurd (cc f)) in
    elim (Bool-cases all.2) [
      | inr s ↦ absurd (cc (rw (s, recover_local_host) at h))
      | inl s ↦ elim (Bool-cases (is_host_label snap label)) [
        | inr n ↦ absurd (cc (rw (s, n, recover_local_host) at h))
        | inl n ↦
            let same : label ≡ host =
              some-injective label host (rw (s, n, recover_local_host) at h) in
            let (p, q) = ends s in
            let trimmed : label ≡ p = ap (λ x. trim_suffix x dot) q ∙ trim_suffix-dotted p in
            (
              (
                m,
                e
                    ∙ (ap (λ x. x ++ m) (q ∙ ap (λ x. x ++ dot) (sym trimmed ∙ same))
                        ∙ append_assoc host dot m),
              ),
              rw same at (is_host_label-IsHost snap label n),
            )
      ]
    ]
