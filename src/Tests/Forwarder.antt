-- ===== src/Tests/Forwarder.antt =====
-- internal/forwarder on concrete inputs.
use splitdns.Prelude.{◌≤◌, ◌≡◌, ◌≢◌, refl, true, false, some, List, [], ◌∷◌, pos, Instant, arith}
use splitdns.Forwarder.Breaker.{
  cb_closed, cb_open, cb_half_open, default_policy, Breaker, new_breaker, make, allow,
  record_outcome, advance_locked, settle, fail_in, count_fail, record_ok, modify,
  should_trip_locked, oks, fails, trip, close_locked, empty_bucket, roll, advance_loop,
}
use splitdns.Forwarder.Breaker.Validity.{IsValid, record_outcome-IsValid}
use splitdns.Forwarder.Breaker.Trips.{
  allow_all, record_all, allow_all_bounded, consecutive_failures_trip,
}

program : Unit {0}
unfolding new_breaker make allow record_outcome advance_locked settle fail_in count_fail record_ok
    modify should_trip_locked oks fails trip close_locked roll advance_loop allow_all record_all
program = tt

abbrev fresh_breaker : Breaker
fresh_breaker = new_breaker default_policy

-- the breaker after five failures at one second
abbrev tripped : Breaker
tripped = record {
  pol = default_policy;
  state = cb_open;
  consec = 5;
  opened_at = 1_000_000_000;
  half_open = 0;
  buckets =
      record { ok = 0; fail = 5 }
      ∷ empty_bucket
      ∷ empty_bucket
      ∷ empty_bucket
      ∷ empty_bucket
      ∷ empty_bucket
      ∷ [];
  bucket_dur = pos 5_000_000_000;
  head_start = 1_000_000_000;
  head_idx = 0;
}

abbrev half_open : Breaker
half_open = record tripped { state = cb_half_open; half_open = 1 }

abbrev five : List Instant
five = 1_000_000_000 ∷ 1_000_000_000 ∷ 1_000_000_000 ∷ 1_000_000_000 ∷ 1_000_000_000 ∷ []

five_failures : record_all fresh_breaker false five ≡ some tripped
unfolding program
five_failures = refl

-- the window rolls: a second success six seconds later is counted in the next bucket
rolls :
    (b : Breaker) × (record_all fresh_breaker true (1_000_000_000 ∷ 7_000_000_000 ∷ []) ≡ some b)
    × (b.head_idx ≡ 1)
    × (oks b.buckets ≡ 2)
unfolding program
rolls = (_, refl, refl, refl)

tripped-IsValid : IsValid tripped
tripped-IsValid = ground arith

half_open-IsValid : IsValid half_open
half_open-IsValid = ground arith

allow_all_bounded_example :
    ((allow_all tripped (9_000_000_000 ∷ 9_000_000_001 ∷ [])).1 ≤ 1)
    × ((allow_all tripped (9_000_000_000 ∷ 9_000_000_001 ∷ [])).0.state ≢ cb_closed)
allow_all_bounded_example =
    allow_all_bounded tripped (9_000_000_000 ∷ 9_000_000_001 ∷ []) tripped-IsValid (λ e. cc)

record_outcome-IsValid_example :
    (c : Breaker) × (record_outcome half_open false 9_000_000_000 ≡ some c)
    × IsValid c
    × (c.pol ≡ default_policy)
    × (c.bucket_dur ≡ pos 5_000_000_000)
record_outcome-IsValid_example =
    record_outcome-IsValid half_open false 9_000_000_000 (omega arith) half_open-IsValid

consecutive_failures_trip_example :
    (c : Breaker) × (record_all fresh_breaker false five ≡ some c) × (c.state ≢ cb_closed)
unfolding program
consecutive_failures_trip_example =
    consecutive_failures_trip fresh_breaker 1_000_000_000
      (1_000_000_000 ∷ 1_000_000_000 ∷ 1_000_000_000 ∷ 1_000_000_000 ∷ []) (omega arith)
      (omega arith) (omega arith)
