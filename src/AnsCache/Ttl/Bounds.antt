-- ===== src/AnsCache/Ttl/Bounds.antt =====
-- Bounds on the times of internal/anscache/anscache.go: the clamp, the
-- configuration and the least TTL.
use splitdns.Prelude.{
  ℕ, ◌≤◌, ◌≡◌, ◌⊎◌, inl, inr, List, [], ◌∷◌, if◌then◌else◌, ltb, pos, ltb_ℤ, ◌≤ℤ◌, ◌<ℤ◌, Duration,
  seconds, arith, All, Bool-cases,
}
use splitdns.Dns.{Rr}
use splitdns.AnsCache.Entry.{Config, normalize}
use splitdns.AnsCache.Ttl.{clamp, min_from}

-- A clamped duration lies in the range.
pub clamp_bounds : (d lo hi : Duration) → lo ≤ℤ hi → (lo ≤ℤ clamp d lo hi) × (clamp d lo hi ≤ℤ hi)
unfolding clamp
clamp_bounds d lo hi h = ground arith

-- A configuration whose ranges are not empty.
pub record IsSane (cfg : Config) : Type 0 where
  pub positive : cfg.min_ttl ≤ℤ cfg.max_ttl
  pub negative : cfg.neg_min_ttl ≤ℤ cfg.neg_max_ttl

-- The configuration that a cache keeps has a positive capacity and positive times, and caches a failure
-- for five minutes at most (RFC 9520), whatever it was made from.
pub normalize_bounds :
    (c : Config)
    → (1 ≤ (normalize c).max_entries)
      × (pos 0 <ℤ (normalize c).min_ttl)
      × (pos 0 <ℤ (normalize c).max_ttl)
      × (pos 0 <ℤ (normalize c).neg_min_ttl)
      × (pos 0 <ℤ (normalize c).neg_max_ttl)
      × (pos 0 <ℤ (normalize c).fail_ttl)
      × ((normalize c).fail_ttl ≤ℤ seconds 300)
      × (pos 0 <ℤ (normalize c).stale_ttl)
      × (pos 0 <ℤ (normalize c).stale_max_age)
unfolding normalize
normalize_bounds c = (
  ground arith,
  ground arith,
  ground arith,
  ground arith,
  ground arith,
  ground arith,
  ground arith,
  ground arith,
  ground arith,
)

pub min_from-le :
    (m : ℕ) (rrs : List Rr) → (min_from m rrs ≤ m) × All (λ rr. min_from m rrs ≤ rr.hdr.ttl) rrs
unfolding min_from
min_from-le m [] = (omega arith, tt)
min_from-le m (rr ∷ rrs) =
    let n = if ltb rr.hdr.ttl m then rr.hdr.ttl else m in
    let h : (n ≤ m) × (n ≤ rr.hdr.ttl) = (ground arith, ground arith) in
    let (l, a) = min_from-le n rrs in (omega (arith, h.0, l), (omega (arith, h.1, l), a))

pub All-mono {ℓ κ μ} :
    {A : Type ℓ} (P : A → Type κ) (Q : A → Type μ) (xs : List A)
    → ((x : A) → P x → Q x)
    → All P xs
    → All Q xs
All-mono P Q [] f h = tt
All-mono P Q (x ∷ xs) f h = (f x h.0, All-mono P Q xs f h.1)

pub clamp-le :
    (d lo hi e : Duration) → d ≤ℤ e → lo ≤ℤ hi → (clamp d lo hi ≤ℤ e) ⊎ (clamp d lo hi ≡ lo)
unfolding clamp
clamp-le d lo hi e h k = elim (Bool-cases (ltb_ℤ d lo)) [
  | inl a ↦ inr (rw (a, clamp))
  | inr a ↦ elim (Bool-cases (ltb_ℤ hi d)) [
    | inl b ↦ inl (rw (a, b, clamp) (ground arith))
    | inr b ↦ inl (rw (a, b, clamp) h)
  ]
]
