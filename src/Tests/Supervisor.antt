-- ===== src/Tests/Supervisor.antt =====
-- internal/supervisor on concrete runs.
use splitdns.Prelude.{
  ◌*◌, ◌≡◌, ◌≢◌, ◌⊎◌, ◌↔◌, refl, Bool, true, false, Option, some, [], ◌∷◌, pos, ◌≤ℤ◌, second,
  seconds,
}
use splitdns.Supervisor.{
  out_returned, WorkerState, start, Run, turns, Options, Watchdog, forces, age_of, watchdog_tick,
}
use splitdns.Supervisor.Keepalive.{watchdog_tick-ping}

abbrev worker : WorkerState
worker = start (pos 0)

abbrev crash : Run
crash = record {
  outcome = out_returned;
  panicked = true;
  elapsed = seconds 2;
  cancelled = false;
  cancelled_asleep = false;
}

-- seven crashes: 1, 2, 4, 8, 16, 32 and then at most 60 seconds
capped :
    (turns worker (crash ∷ crash ∷ crash ∷ crash ∷ crash ∷ crash ∷ crash ∷ [])).backoff
    ≡ 60 * second
unfolding turns start
capped = refl

abbrev options : Options
options = record {
  hard_ceiling = seconds 100;
  trip_ceiling = seconds 200;
  builder_name = b'b' ∷ [];
  has_notify = true;
}

abbrev quiet : Watchdog
quiet = record { last_force = 0; force_pending = false }

watchdog_tick-ping_example :
    ((watchdog_tick options quiet (some (seconds 150)) (some true) (500 * second)).2 ≡ true) ↔ (
      (options.has_notify ≡ true)
      × (◌≢◌ {A = Option Bool} (some true) (some false))
      × ((options.trip_ceiling ≤ℤ pos 0) ⊎ (age_of (some (seconds 150)) ≤ℤ options.trip_ceiling)))
watchdog_tick-ping_example =
    watchdog_tick-ping options quiet (some (seconds 150)) (some true) (500 * second)

forced : (watchdog_tick options quiet (some (seconds 150)) (some true) (500 * second)).1 ≡ true
unfolding watchdog_tick forces
forced = refl
