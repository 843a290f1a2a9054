-- ===== src/Ddns/Writer/Tokens.antt =====
-- What the token bucket of internal/ddns/ddns.go grants.
use splitdns.Prelude.{
  ℕ, ◌+◌, ◌-◌, ◌*◌, ◌≤◌, ◌<◌, ◌≡◌, false, List, [], ◌∷◌, if◌then◌else◌, ◌==◌, leb, Instant, arith,
  Bool-cases, inl, inr,
}
use splitdns.Ddns.Writer.{TokenBucket, gain, bucket_allow}

-- The times do not run backwards, from `last` to `end`.
abbrev pub Ordered : Instant → Instant → List Instant → Type 0
Ordered last end [] = last ≤ end
Ordered last end (t ∷ ts) = (last ≤ t) × Ordered t end ts

-- how many of the requests at the times the bucket grants
unfoldable pub grants : TokenBucket → List Instant → ℕ
unfolding bucket_allow
grants b [] = 0
grants b (t ∷ ts) =
    let r = bucket_allow b t in let rest = grants r.0 ts in if r.1 then 1 + rest else rest

end_of-Ordered : (last end : Instant) (ts : List Instant) → Ordered last end ts → last ≤ end
end_of-Ordered last end [] h = h
end_of-Ordered last end (t ∷ ts) h = let rest = end_of-Ordered t end ts h.1 in omega arith

grant_cost : (n r : ℕ) → (1 + n) * r ≡ r + n * r
grant_cost n r = omega arith

-- A bucket grants no more requests than its tokens and the time that passes pay for: a token is worth
-- the refill interval.
pub grants_bounded :
    (b : TokenBucket) (end : Instant) (ts : List Instant)
    → 0 < b.refill_per
    → Ordered b.last end ts
    → grants b ts * b.refill_per ≤ b.tokens + (end - b.last)
unfolding grants bucket_allow
grants_bounded b end [] some_refill h = omega arith
grants_bounded b end (t ∷ ts) some_refill h =
    let positive : (b.refill_per == 0) ≡ false = ground arith in
    let enough = end_of-Ordered t end ts h.1 in
    let gained : gain b t ≤ b.tokens + (t - b.last) = ground arith in
    elim (Bool-cases (leb b.refill_per (gain b t))) [
      | inl g ↦
          let rest =
            grants_bounded (record b { tokens = gain b t - b.refill_per; last = t }) end ts
              some_refill h.1 in
          let cost =
            grant_cost (grants (record b { tokens = gain b t - b.refill_per; last = t }) ts)
              b.refill_per in
          rw (positive, g) (ground (arith, rest, cost, gained))
      | inr g ↦
          let rest =
            grants_bounded (record b { tokens = gain b t; last = t }) end ts some_refill h.1 in
          rw (positive, g) (ground (arith, rest, gained))
    ]
