-- ===== src/Supervisor/Keepalive.antt =====
-- The watchdog of internal/supervisor/supervisor.go: when the builder is restarted and the keepalive sent.
use splitdns.Prelude.{
  ◌≡◌, ◌≢◌, ◌↔◌, ◌⊎◌, refl, Bool, true, false, not, ◌&&◌, Option, none, some, Instant, Duration,
  pos, since, ltb_ℤ, ◌<ℤ◌, ◌≤ℤ◌, arith,
}
use splitdns.Supervisor.{Options, Watchdog, forces, is_alive, age_of, watchdog_tick}

is_alive_iff : (live : Option Bool) → (is_alive live ≡ true) ↔ (live ≢ some false)
is_alive_iff none = (λ h e. absurd (cc e), λ h. refl)
is_alive_iff (some true) = (λ h e. absurd (cc e), λ h. refl)
is_alive_iff (some false) = (λ h e. absurd (cc h), λ h. absurd (h refl))

-- the tests of the second stage
ping_iff :
    (alive notify : Bool) (ceiling age : Duration)
    → ((alive && (not (ltb_ℤ (pos 0) ceiling && ltb_ℤ ceiling age) && notify)) ≡ true)
      ↔ ((notify ≡ true) × (alive ≡ true) × ((ceiling ≤ℤ pos 0) ⊎ (age ≤ℤ ceiling)))
ping_iff alive notify ceiling age = (λ h. ground arith, λ h. ground arith)

-- The keepalive is sent exactly when there is something to send it with, the liveness probe does not fail and
-- the snapshot's age is not past a positive trip ceiling; a snapshot whose age is not known is new.
pub watchdog_tick-ping :
    (o : Options) (w : Watchdog) (age : Option Duration) (live : Option Bool) (now : Instant)
    → ((watchdog_tick o w age live now).2 ≡ true) ↔ (
        (o.has_notify ≡ true)
        × (live ≢ some false)
        × ((o.trip_ceiling ≤ℤ pos 0) ⊎ (age_of age ≤ℤ o.trip_ceiling)))
unfolding watchdog_tick
watchdog_tick-ping o w age live now =
    let tests = ping_iff (is_alive live) o.has_notify o.trip_ceiling (age_of age) in
    let alive = is_alive_iff live in
    (λ h. let (n, a, t) = tests.0 h in (n, alive.0 a, t), λ h. tests.1 (h.0, alive.1 h.1, h.2))

-- Once the builder was asked to restart, a tick asks again only when more than the hard ceiling has passed
-- since; and it asks only for a snapshot older than that.
pub forced_apart :
    (o : Options) (w : Watchdog) (age later : Option Duration) (live alive : Option Bool)
    (t now : Instant)
    → (watchdog_tick o w age live t).1 ≡ true
    → (o.hard_ceiling <ℤ age_of age)
      × ((watchdog_tick o (watchdog_tick o w age live t).0 later alive now).1 ≡ true
          → o.hard_ceiling <ℤ since now t)
unfolding watchdog_tick forces
forced_apart o w age later live alive t now h = (ground arith, rw h (λ g. ground arith))
