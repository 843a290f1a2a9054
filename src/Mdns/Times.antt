-- ===== src/Mdns/Times.antt =====
-- How long the answers of the view of internal/mdns/cache.go are kept by those who asked.
use splitdns.Prelude.{
  ℕ, ◌+◌, ◌*◌, ◌/◌, ◌%◌, ◌^◌, ◌≤◌, ◌<◌, ◌≡◌, ◌⊎◌, refl, ltb, Instant, second, seconds, since, ltb_ℤ,
  pos_part, arith, Bool-cases, inl, inr, if_elim,
}
use splitdns.Mdns.{HostEntry}
use splitdns.Mdns.View.{stale_serve_ttl, ttl_until, served_ttl}

-- over by a time, or of a second
abbrev pub IsOver : Instant → Instant → ℕ → Type 0
IsOver expiry now ttl = (ttl ≡ 1) ⊎ (now + ttl * second ≤ expiry)

whole_seconds : (d : ℕ) → ((d / second) % 2 ^ 32) * second ≤ d
whole_seconds d = omega arith

ttl_until-IsOver : (expiry now : Instant) → IsOver expiry now (ttl_until expiry now)
unfolding ttl_until
ttl_until-IsOver expiry now =
    if_elim (IsOver expiry now) (ltb_ℤ (since expiry now) (seconds 1)) (λ _. inl refl)
      (λ long. inr (ground (arith, long, whole_seconds (pos_part (since expiry now)))))

-- An address that a host announced itself is not kept by a client beyond the time that its entry is
-- removed, but where the TTL is the least one, of a second; and once its announced TTL is over, while
-- it is served stale, it is handed out for at most 30 seconds. The entry is not removed before its
-- announced TTL is over.
pub served_ttl-IsOver :
    (e : HostEntry) (now : Instant)
    → e.fresh_until ≤ e.expiry
    → IsOver e.expiry now (served_ttl e now)
      × (e.fresh_until < now → served_ttl e now ≤ stale_serve_ttl)
unfolding served_ttl
served_ttl-IsOver e now later =
    let end = ttl_until-IsOver e.expiry now in
    let fresh = ttl_until-IsOver e.fresh_until now in
    elim (Bool-cases (ltb e.fresh_until now)) [
      | inr f ↦
          rw (f, served_ttl)
            (
              elim fresh [ inl o ↦ inl o | inr le ↦ inr (omega (arith, le, later)) ],
              λ stale. absurd (ground (arith, f, stale)),
            )
      | inl s ↦ elim (Bool-cases (ltb (ttl_until e.expiry now) stale_serve_ttl)) [
        | inl short ↦ rw (s, short, served_ttl) (end, λ _. ground (arith, short))
        | inr long ↦
            rw (s, long, served_ttl)
              (
                elim end [
                  | inl o ↦ absurd (ground (arith, o, long))
                  | inr le ↦ inr (ground (arith, le, long))
                ],
                λ _. omega arith,
              )
      ]
    ]
