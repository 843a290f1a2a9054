-- ===== src/Dns.antt =====
-- The part of the DNS library's messages that the repository reads: `Msg`, its questions and its
-- resource records. A name is the list of the bytes of its presentation form, which is ASCII.
-- The library (vendor/github.com/miekg/dns) is not modelled; these are its plain data.
use splitdns.Prelude.{
  ℕ, ◌+◌, ◌≡◌, ◌↔◌, ◌≢◌, refl, ap, Bool, true, false, ◌&&◌, Option, none, some, some-injective, ◌∙◌,
  Option-cases, List, [], ◌∷◌, ◌++◌, map, if◌then◌else◌, leb, ◌==◌, arith, Bool-cases, inl, inr,
}
use splitdns.Netmatch.{Addr}

abbrev pub Name : Type 0
Name = List ℕ

pub record Header : Type 0 where
  pub name : Name
  pub rrtype : ℕ
  pub ttl : ℕ

-- The parameters of an SVCB record that are written.
pub data SvcbParam : Type 0 where
  alpn : List Name → SvcbParam
  port : ℕ → SvcbParam
  ipv4_hint : List Addr → SvcbParam
  ipv6_hint : List Addr → SvcbParam
  doh_path : Name → SvcbParam

-- The dynamic type of a record, with the fields that are read; `other` carries its data. The address
-- of an A or AAAA record is what `netip.AddrFromSlice` makes of its bytes.
pub data Body : Type 0 where
  host4 : Option Addr → Body
  host6 : Option Addr → Body
  soa : ℕ → Body
  opt : Body
  ptr : Name → Body
  srv : ℕ → Name → Body
  txt : List Name → Body
  hinfo : Name → Body
  svcb : ℕ → Name → List SvcbParam → Body
  other : List ℕ → Body

pub record Rr : Type 0 where
  pub hdr : Header
  pub body : Body

pub record Question : Type 0 where
  pub name : Name
  pub qtype : ℕ
  pub qclass : ℕ

pub record Msg : Type 0 where
  pub id : ℕ
  pub truncated : Bool
  pub authoritative : Bool
  pub recursion_available : Bool
  pub rcode : ℕ
  pub question : List Question
  pub answer : List Rr
  pub ns : List Rr
  pub extra : List Rr

abbrev pub type_any : ℕ
type_any = 255

abbrev pub class_inet : ℕ
class_inet = 1

abbrev pub rcode_success : ℕ
rcode_success = 0

abbrev pub rcode_server_failure : ℕ
rcode_server_failure = 2

abbrev pub rcode_name_error : ℕ
rcode_name_error = 3

-- Equality of names, as Go's `==` on strings.
unfoldable pub name_eq : Name → Name → Bool
name_eq [] [] = true
name_eq [] (d ∷ ds) = false
name_eq (c ∷ cs) [] = false
name_eq (c ∷ cs) (d ∷ ds) = c == d && name_eq cs ds

pub name_eq_iff : (a b : Name) → (name_eq a b ≡ true) ↔ (a ≡ b)
unfolding name_eq
name_eq_iff [] [] = ground arith
name_eq_iff [] (d ∷ ds) = ground arith
name_eq_iff (c ∷ cs) [] = ground arith
name_eq_iff (c ∷ cs) (d ∷ ds) = ground (arith, name_eq_iff cs ds)

-- `strings.ToLower` on ASCII
abbrev pub lower_byte : ℕ → ℕ
lower_byte c = if leb b'A' c && leb c b'Z' then c + 32 else c

unfoldable pub to_lower : Name → Name
to_lower = map lower_byte

-- `strings.HasSuffix`
unfoldable pub has_suffix : Name → Name → Bool
unfolding name_eq
has_suffix [] t = name_eq [] t
has_suffix (c ∷ cs) t = if name_eq (c ∷ cs) t then true else has_suffix cs t

-- A name has a suffix exactly when it is some prefix followed by it.
pub has_suffix-append : (p t : Name) → has_suffix (p ++ t) t ≡ true
unfolding has_suffix
has_suffix-append [] [] = ground arith
has_suffix-append [] (d ∷ ds) = ground (arith, name_eq_iff (d ∷ ds) (d ∷ ds))
has_suffix-append (c ∷ cs) t = ground (arith, has_suffix-append cs t)

pub has_suffix→append : (s t : Name) → has_suffix s t ≡ true → (p : Name) × (s ≡ p ++ t)
unfolding has_suffix
has_suffix→append [] [] h = ([], refl)
has_suffix→append [] (d ∷ ds) h = ([], cc)
has_suffix→append (c ∷ cs) t h = elim (Bool-cases (name_eq (c ∷ cs) t)) [
  | inl e ↦ ([], (name_eq_iff (c ∷ cs) t).0 e)
  | inr e ↦
      let rest : has_suffix cs t ≡ true = ground arith in
      let (p, q) = has_suffix→append cs t rest in (c ∷ p, ap (◌∷◌ c) q)
]

-- what stands before a suffix, if there is one
unfoldable pub before_suffix : Name → Name → Option Name
unfolding name_eq
before_suffix [] t = if name_eq [] t then some [] else none
before_suffix (c ∷ cs) t =
    let rest = before_suffix cs t in
    if name_eq (c ∷ cs) t then some [] else elim rest [ none ↦ none | some p ↦ some (c ∷ p) ]

-- `strings.TrimSuffix`
unfoldable pub trim_suffix : Name → Name → Name
unfolding before_suffix
trim_suffix s t = elim (before_suffix s t) [ none ↦ s | some p ↦ p ]

-- What stands before a suffix is the rest of the name.
pub before_suffix-append : (s t p : Name) → before_suffix s t ≡ some p → s ≡ p ++ t
unfolding before_suffix
before_suffix-append [] [] p h = cc
before_suffix-append [] (d ∷ ds) p h = absurd (ground (arith, h))
before_suffix-append (c ∷ cs) t p h = elim (Bool-cases (name_eq (c ∷ cs) t)) [
  | inl e ↦
      let same : some [] ≡ some p = rw e at h in
      (name_eq_iff (c ∷ cs) t).0 e ∙ ap (λ x. x ++ t) (some-injective [] p same)
  | inr e ↦ elim (Option-cases (before_suffix cs t)) [
    | inl n ↦ absurd (cc (rw (e, n) at h))
    | inr (r, n) ↦
        let same : some (c ∷ r) ≡ some p = rw (e, n) at h in
        ap (◌∷◌ c) (before_suffix-append cs t r n)
        ∙ ap (λ x. x ++ t) (some-injective (c ∷ r) p same)
  ]
]

before_suffix-none : (s t : Name) → before_suffix s t ≡ none → has_suffix s t ≡ false
unfolding before_suffix has_suffix
before_suffix-none [] t h = elim (Bool-cases (name_eq [] t)) [
  | inl e ↦ absurd (cc (rw e at h))
  | inr e ↦ e
]
before_suffix-none (c ∷ cs) t h = elim (Bool-cases (name_eq (c ∷ cs) t)) [
  | inl e ↦ absurd (cc (rw e at h))
  | inr e ↦ elim (Option-cases (before_suffix cs t)) [
    | inl n ↦ rw (e, before_suffix-none cs t n) refl
    | inr (r, n) ↦ absurd (cc (rw (e, n) at h))
  ]
]

-- There is nothing before a suffix exactly when the name is no prefix followed by it.
pub before_suffix-none_iff : (s t : Name) → (before_suffix s t ≡ none) ↔ ((p : Name) → s ≢ p ++ t)
before_suffix-none_iff s t = (
  λ h p e.
      let has : has_suffix s t ≡ true = ap (λ x. has_suffix x t) e ∙ has_suffix-append p t in
      absurd (cc (has, before_suffix-none s t h)),
  λ no. elim (Option-cases (before_suffix s t)) [
    | inl n ↦ n
    | inr (p, n) ↦ absurd (no p (before_suffix-append s t p n))
  ],
)
