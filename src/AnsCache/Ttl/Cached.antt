-- ===== src/AnsCache/Ttl/Cached.antt =====
-- What internal/anscache/anscache.go caches, and for how long.
use splitdns.Prelude.{
  ◌≤◌, min, ◌≡◌, ◌≢◌, ◌⊎◌, inl, inr, refl, true, false, some, List, [], ◌∷◌, ◌++◌, ◌==◌, ◌≤ℤ◌,
  Duration, seconds, arith, All, Bool-cases, Option-cases, some-injective,
}
use splitdns.Dns.{
  Name, Rr, Question, Msg, type_any, rcode_success, rcode_name_error, name_eq, name_eq_iff,
  to_lower, has_suffix→append,
}
use splitdns.AnsCache.Entry.{Config, Kind, kind_positive, kind_negative}
use splitdns.AnsCache.Ttl.{
  clamp, min_from, min_ttl, Soa, as_soa, soa_ttl, dot, in_bailiwick, find_soa, answers_type,
  cacheable_question, cacheable, negative,
}
use splitdns.AnsCache.Ttl.Bounds.{IsSane, clamp_bounds, min_from-le, All-mono, clamp-le}

negative-shape :
    (cfg : Config) (resp : Msg) (q : Question) (ttl : Duration) (knd : Kind)
    → negative cfg resp q ≡ some (ttl, knd)
    → (s : Soa) × (find_soa resp.ns q.name ≡ some s)
      × (ttl ≡ clamp (soa_ttl s) cfg.neg_min_ttl cfg.neg_max_ttl)
      × (knd ≡ kind_negative)
unfolding negative
negative-shape cfg resp q ttl knd h = elim (Option-cases (find_soa resp.ns q.name)) [
  | inl e ↦ absurd (ground arith)
  | inr (s, e) ↦ (s, e, ground arith, ground arith)
]

-- What a cached answer was: its shape, and what its time comes from.
pub record Positive (cfg : Config) (resp : Msg) (q : Question) (ttl : Duration) : Type 0 where
  pub success : resp.rcode ≡ rcode_success
  pub answers : answers_type resp.answer q.qtype ≡ true
  pub time : ttl ≡ clamp (min_ttl resp.answer) cfg.min_ttl cfg.max_ttl

pub record Negative (cfg : Config) (resp : Msg) (q : Question) (ttl : Duration) : Type 0 where
  pub no_data :
      (resp.rcode ≡ rcode_success) × (answers_type resp.answer q.qtype ≡ false)
      ⊎ (resp.rcode ≡ rcode_name_error)
  pub soa : Soa
  pub found : find_soa resp.ns q.name ≡ some soa
  pub time : ttl ≡ clamp (soa_ttl soa) cfg.neg_min_ttl cfg.neg_max_ttl

abbrev pub Source : Config → Msg → Question → Duration → Kind → Type 0
Source cfg resp q ttl knd =
    (knd ≡ kind_positive) × Positive cfg resp q ttl
    ⊎ (knd ≡ kind_negative) × Negative cfg resp q ttl

question-Source :
    (cfg : Config) (resp : Msg) (q : Question) (ttl : Duration) (knd : Kind)
    → cacheable_question cfg resp (q ∷ []) ≡ some (ttl, knd)
    → (q.qtype ≢ type_any) × Source cfg resp q ttl knd
unfolding cacheable_question
question-Source cfg resp q ttl knd h = elim (Bool-cases (q.qtype == type_any)) [
  | inl a ↦ absurd (ground arith)
  | inr a ↦ elim (Bool-cases (resp.rcode == rcode_success)) [
    | inl b ↦ elim (Bool-cases (answers_type resp.answer q.qtype)) [
      | inl d ↦ (
        ground arith,
        inl (ground arith, record { success = ground arith; answers = d; time = ground arith }),
      )
      | inr d ↦
          let n : negative cfg resp q ≡ some (ttl, knd) = rw (a, b, d, cacheable_question) at h in
          let (s, e, t, k) = negative-shape cfg resp q ttl knd n in
          (
            ground arith,
            inr (k, record { no_data = inl (ground arith, d); soa = s; found = e; time = t }),
          )
    ]
    | inr b ↦ elim (Bool-cases (resp.rcode == rcode_name_error)) [
      | inl d ↦
          let n : negative cfg resp q ≡ some (ttl, knd) = rw (a, b, d, cacheable_question) at h in
          let (s, e, t, k) = negative-shape cfg resp q ttl knd n in
          (
            ground arith,
            inr (k, record { no_data = inr (ground arith); soa = s; found = e; time = t }),
          )
      | inr d ↦ absurd (ground arith)
    ]
  ]
]

-- The response behind an answer that is cached.
pub record CachedAs (cfg : Config) (resp : Msg) (ttl : Duration) (knd : Kind) : Type 0 where
  pub whole : resp.truncated ≡ false
  pub question : Question
  pub asks : resp.question ≡ question ∷ []
  pub not_any : question.qtype ≢ type_any
  pub source : Source cfg resp question ttl knd

questions-CachedAs :
    (cfg : Config) (resp : Msg) (ttl : Duration) (knd : Kind) (qs : List Question)
    → resp.truncated ≡ false
    → resp.question ≡ qs
    → cacheable_question cfg resp qs ≡ some (ttl, knd)
    → CachedAs cfg resp ttl knd
questions-CachedAs cfg resp ttl knd [] t e h = absurd (unfold cacheable_question in ground arith)
questions-CachedAs cfg resp ttl knd (q ∷ []) t e h =
    let (n, s) = question-Source cfg resp q ttl knd h in
    record { whole = t; question = q; asks = e; not_any = n; source = s }
questions-CachedAs cfg resp ttl knd (q ∷ r ∷ qs) t e h =
    absurd (unfold cacheable_question in ground arith)

-- A response is cached only if it is not truncated and asks one question that is not for ANY; as a
-- positive answer only if its code is success and it has a record of the type that was asked for, as a
-- negative one only if it has none or the name does not exist, and an SOA record was found.
pub cacheable-CachedAs :
    (cfg : Config) (resp : Msg) (ttl : Duration) (knd : Kind)
    → cacheable cfg (some resp) ≡ some (ttl, knd)
    → CachedAs cfg resp ttl knd
unfolding cacheable
cacheable-CachedAs cfg resp ttl knd h = elim (Bool-cases resp.truncated) [
  | inl t ↦ absurd (ground arith)
  | inr t ↦ questions-CachedAs cfg resp ttl knd resp.question t refl (rw (t, cacheable) at h)
]

-- A positive answer is kept for a time within the configured range, and for no longer than any of its
-- records says, but for the configured minimum. The configured ranges are not empty.
pub positive_bounds :
    (cfg : Config) (resp : Msg) (ttl : Duration)
    → IsSane cfg
    → cacheable cfg (some resp) ≡ some (ttl, kind_positive)
    → (cfg.min_ttl ≤ℤ ttl)
      × (ttl ≤ℤ cfg.max_ttl)
      × All (λ (rr : Rr). (ttl ≤ℤ seconds rr.hdr.ttl) ⊎ (ttl ≡ cfg.min_ttl)) resp.answer
positive_bounds cfg resp ttl sane h =
    elim ((cacheable-CachedAs cfg resp ttl kind_positive h).source) [
      | inr (k, n) ↦ absurd (cc)
      | inl (k, p) ↦
          let d = min_ttl resp.answer in
          let (a, b) = clamp_bounds d cfg.min_ttl cfg.max_ttl sane.positive in
          (rw p.time a, rw p.time b, rw p.time (each d))
    ]
  where
    each :
        (d : Duration)
        → All
            (λ (rr : Rr).
              (clamp (min_ttl resp.answer) cfg.min_ttl cfg.max_ttl ≤ℤ seconds rr.hdr.ttl)
              ⊎ (clamp (min_ttl resp.answer) cfg.min_ttl cfg.max_ttl ≡ cfg.min_ttl))
            resp.answer
    each d =
        All-mono (λ (rr : Rr). min_from 4294967295 resp.answer ≤ rr.hdr.ttl) _ resp.answer
          (λ rr l.
            clamp-le (min_ttl resp.answer) cfg.min_ttl cfg.max_ttl (seconds rr.hdr.ttl)
              (unfold min_ttl in omega (arith, l)) sane.positive)
          (min_from-le 4294967295 resp.answer).1

-- The owner of a zone is the root, the name itself or a parent of it, in lower case.
abbrev pub Covers : Name → Name → Type 0
Covers owner qname =
    (to_lower owner ≡ dot ∷ [])
    ⊎ ((to_lower qname ≡ to_lower owner)
        ⊎ ((p : Name) × (to_lower qname ≡ p ++ (dot ∷ to_lower owner))))

in_bailiwick-Covers : (owner qname : Name) → in_bailiwick owner qname ≡ true → Covers owner qname
unfolding in_bailiwick
in_bailiwick-Covers owner qname h = elim (Bool-cases (name_eq (to_lower owner) (dot ∷ []))) [
  | inl a ↦ inl ((name_eq_iff _ _).0 a)
  | inr a ↦ elim (Bool-cases (name_eq (to_lower qname) (to_lower owner))) [
    | inl b ↦ inr (inl ((name_eq_iff _ _).0 b))
    | inr b ↦ inr (
        inr (
          has_suffix→append (to_lower qname) (dot ∷ to_lower owner) (rw (a, b, in_bailiwick) at h)))
  ]
]

-- An SOA record that is found belongs to a zone that covers the queried name.
find_soa-Covers :
    (rrs : List Rr) (qname : Name) (s : Soa) → find_soa rrs qname ≡ some s → Covers s.name qname
unfolding find_soa
find_soa-Covers [] qname s h = absurd (ground arith)
find_soa-Covers (rr ∷ rrs) qname s h = elim (Option-cases (as_soa rr.hdr rr.body)) [
  | inl e ↦ find_soa-Covers rrs qname s (rw (e, find_soa) at h)
  | inr (t, e) ↦ elim (Bool-cases (in_bailiwick t.name qname)) [
    | inl b ↦
        let q : some t ≡ some s = rw (e, b, find_soa) at h in
        in_bailiwick-Covers s.name qname (rw (← some-injective _ _ q) b)
    | inr b ↦ find_soa-Covers rrs qname s (rw (b) at (rw (e, find_soa) at h))
  ]
]

-- A negative answer is kept for a time within the configured range, and for no longer than the SOA
-- record and its minimum say, but for the configured minimum; the record is in the authority section,
-- and its owner is the root, the queried name or a parent of it, in lower case. The configured ranges
-- are not empty.
pub negative_bounds :
    (cfg : Config) (resp : Msg) (ttl : Duration)
    → IsSane cfg
    → cacheable cfg (some resp) ≡ some (ttl, kind_negative)
    → (cfg.neg_min_ttl ≤ℤ ttl)
      × (ttl ≤ℤ cfg.neg_max_ttl)
      × (q : Question) × (s : Soa) × (resp.question ≡ q ∷ [])
      × (find_soa resp.ns q.name ≡ some s)
      × Covers s.name q.name
      × ((ttl ≤ℤ seconds s.ttl) × (ttl ≤ℤ seconds s.minttl) ⊎ (ttl ≡ cfg.neg_min_ttl))
negative_bounds cfg resp ttl sane h =
    let c = cacheable-CachedAs cfg resp ttl kind_negative h in
    elim c.source [
      | inl (k, p) ↦ absurd (cc)
      | inr (k, n) ↦
          let (a, b) = clamp_bounds (soa_ttl n.soa) cfg.neg_min_ttl cfg.neg_max_ttl sane.negative in
          (
            rw n.time a,
            rw n.time b,
            c.question,
            n.soa,
            c.asks,
            n.found,
            find_soa-Covers resp.ns c.question.name n.soa n.found,
            rw n.time (within n.soa),
          )
    ]
  where
    within :
        (s : Soa)
        → (clamp (soa_ttl s) cfg.neg_min_ttl cfg.neg_max_ttl ≤ℤ seconds s.ttl)
            × (clamp (soa_ttl s) cfg.neg_min_ttl cfg.neg_max_ttl ≤ℤ seconds s.minttl)
          ⊎ (clamp (soa_ttl s) cfg.neg_min_ttl cfg.neg_max_ttl ≡ cfg.neg_min_ttl)
    within s =
        elim (clamp-le (soa_ttl s) cfg.neg_min_ttl cfg.neg_max_ttl (seconds (min s.ttl s.minttl))
          (unfold soa_ttl in ground arith) sane.negative) [
            | inl l ↦ inl (omega arith, omega arith)
            | inr e ↦ inr e
          ]
