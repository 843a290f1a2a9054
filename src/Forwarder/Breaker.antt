-- ===== src/Forwarder/Breaker.antt =====
-- The per-upstream circuit breaker, internal/forwarder/breaker.go. The reading of `b.now()` is the
-- argument `t`. A count is a Go `int`, written as a number: each setting that may be negative is
-- only compared, and does at a negative value what it does at 0. The failure ratio
-- `float64(fail)/float64(total) >= FailRatio` is taken of a ratio `ratio_num / ratio_den`, and is
-- false at `total = 0`, where the quotient is NaN. The loop of `advanceLocked` takes fuel, and
-- `none` says that it is still running.
pub mod Validity
pub mod Trips
use splitdns.Prelude.{
  ℕ, zero, suc, ◌+◌, ◌-◌, ◌*◌, ◌/◌, ◌%◌, Bool, true, false, ◌&&◌, ◌||◌, Option, none, some, List,
  [], ◌∷◌, map, if◌then◌else◌, ltb, leb, ◌==◌, ℤ, pos, negsuc, pos_part, neg_part, sub_ℕ, leb_ℤ,
  ltb_ℤ, Instant, Duration, since, add, length, seconds,
}

-- `cbState`
pub data CbState : Type 0 where
  cb_closed cb_open cb_half_open : CbState

-- `Policy`
pub record Policy : Type 0 where
  pub window : Duration
  pub buckets : ℕ
  pub min_samples : ℕ
  pub ratio_num : ℕ
  pub ratio_den : ℕ
  pub consec_fail : ℕ
  pub cooldown : Duration
  pub half_open_max : ℕ

-- `DefaultPolicy`
abbrev pub default_policy : Policy
default_policy = record {
  window = seconds 30;
  buckets = 6;
  min_samples = 10;
  ratio_num = 1;
  ratio_den = 2;
  consec_fail = 5;
  cooldown = seconds 5;
  half_open_max = 1;
}

-- `cbBucket`
pub record CbBucket : Type 0 where
  pub ok : ℕ
  pub fail : ℕ

abbrev pub empty_bucket : CbBucket
empty_bucket = record { ok = 0; fail = 0 }

-- `breaker`, without its clock and its lock
pub record Breaker : Type 0 where
  pub pol : Policy
  pub state : CbState
  pub consec : ℕ
  pub opened_at : Instant
  pub half_open : ℕ
  pub buckets : List CbBucket
  pub bucket_dur : Duration
  pub head_start : Instant
  pub head_idx : ℕ

-- `d / time.Duration(n)`, which rounds towards 0
abbrev pub div : Duration → ℕ → Duration
div (pos d) n = pos (d / n)
div (negsuc d) n = sub_ℕ 0 (suc d / n)

unfoldable pub make : ℕ → List CbBucket
make zero = []
make (suc n) = empty_bucket ∷ make n

-- `newBreaker`
unfoldable pub new_breaker : Policy → Breaker
unfolding make
new_breaker p =
    let n = if ltb p.buckets 1 then 1 else p.buckets in
    record {
      pol = record p {
        buckets = n;
        half_open_max = if ltb p.half_open_max 1 then 1 else p.half_open_max;
      };
      state = cb_closed;
      consec = 0;
      opened_at = 0;
      half_open = 0;
      buckets = make n;
      bucket_dur = div p.window n;
      head_start = 0;
      head_idx = 0;
    }

allow_in : CbState → Breaker → Instant → Breaker × Bool
allow_in cb_open b t =
    if leb_ℤ b.pol.cooldown (since t b.opened_at)
    then (record b { state = cb_half_open; half_open = 1 }, true)
    else (b, false)
allow_in cb_half_open b t =
    if ltb b.half_open b.pol.half_open_max
    then (record b { half_open = b.half_open + 1 }, true)
    else (b, false)
allow_in cb_closed b t = (b, true)

-- `allow`
unfoldable pub allow : Breaker → Instant → Breaker × Bool
unfolding allow_in
allow b t = allow_in b.state b t

-- `bs[i] = g(bs[i])`; the index is in range (`IsValid`)
unfoldable pub modify : (CbBucket → CbBucket) → ℕ → List CbBucket → List CbBucket
modify g i [] = []
modify g zero (x ∷ xs) = g x ∷ xs
modify g (suc i) (x ∷ xs) = x ∷ modify g i xs

abbrev pub clear : List CbBucket → List CbBucket
clear = map (λ _. empty_bucket)

-- the body of the loop of `advanceLocked`
unfoldable pub roll : Breaker → Breaker
unfolding modify
roll b =
    let i = (b.head_idx + 1) % length b.buckets in
    record b {
      head_idx = i;
      buckets = modify (λ _. empty_bucket) i b.buckets;
      head_start = add b.head_start b.bucket_dur;
    }

-- `elapsed - b.bucketDur`
abbrev pub minus : Duration → Duration → Duration
minus a b = sub_ℕ (pos_part a + neg_part b) (neg_part a + pos_part b)

unfoldable pub advance_loop : ℕ → Duration → Breaker → Option Breaker
advance_loop zero elapsed b = none
advance_loop (suc fuel) elapsed b = elim (leb_ℤ b.bucket_dur elapsed) [
  | true ↦ advance_loop fuel (minus elapsed b.bucket_dur) (roll b)
  | false ↦ some b
]

-- `advanceLocked`; a round takes at least a nanosecond off `elapsed`
unfoldable pub advance_locked : Breaker → Instant → Option Breaker
advance_locked b t =
    let elapsed = since t b.head_start in
    if b.head_start == 0
    then some (record b { head_start = t })
    else if leb_ℤ b.pol.window elapsed
    then some (record b { buckets = clear b.buckets; head_start = t; head_idx = 0 })
    else advance_loop (suc (pos_part elapsed)) elapsed b

unfoldable pub oks : List CbBucket → ℕ
oks [] = 0
oks (x ∷ xs) = x.ok + oks xs

unfoldable pub fails : List CbBucket → ℕ
fails [] = 0
fails (x ∷ xs) = x.fail + fails xs

-- `shouldTripLocked`
unfoldable pub should_trip_locked : Breaker → Bool
unfolding oks fails
should_trip_locked b =
    let fail = fails b.buckets in
    let total = oks b.buckets + fail in
    if ltb 0 b.pol.consec_fail && leb b.pol.consec_fail b.consec
    then true
    else leb b.pol.min_samples total
      && (ltb 0 total && leb (b.pol.ratio_num * total) (fail * b.pol.ratio_den))

-- `trip`
unfoldable pub trip : Breaker → Instant → Breaker
trip b t = record b { state = cb_open; opened_at = t; half_open = 0 }

-- `closeLocked`
unfoldable pub close_locked : Breaker → Breaker
close_locked b = record b {
  state = cb_closed;
  half_open = 0;
  buckets = clear b.buckets;
  head_start = 0;
}

-- `record(true)` behind `advanceLocked`
unfoldable pub record_ok : CbState → Breaker → Breaker
unfolding close_locked
record_ok cb_closed b = record b {
  buckets = modify (λ x. record x { ok = x.ok + 1 }) b.head_idx b.buckets;
  consec = 0;
}
record_ok _ b = close_locked (record b {
  buckets = modify (λ x. record x { ok = x.ok + 1 }) b.head_idx b.buckets;
  consec = 0;
})

-- `record(false)` behind `advanceLocked`
unfoldable pub count_fail : Breaker → Breaker
count_fail b = record b {
  buckets = modify (λ x. record x { fail = x.fail + 1 }) b.head_idx b.buckets;
  consec = b.consec + 1;
}

unfoldable pub fail_in : CbState → Breaker → Instant → Breaker
unfolding trip
fail_in cb_half_open b t = trip b t
fail_in cb_closed b t = if should_trip_locked b then trip b t else b
fail_in cb_open b t = b

-- `record` behind `advanceLocked`
unfoldable pub settle : Breaker → Bool → Instant → Breaker
settle b ok t = if ok then record_ok b.state b else fail_in b.state (count_fail b) t

-- `record`
unfoldable pub record_outcome : Breaker → Bool → Instant → Option Breaker
record_outcome b ok t = elim (advance_locked b t) [ none ↦ none | some b' ↦ some (settle b' ok t) ]

-- what `status` returns; the ratio is `fail / total`, and 0 where `total` is 0
pub record Status : Type 0 where
  pub state : CbState
  pub consec : ℕ
  pub fail : ℕ
  pub total : ℕ
  pub open_for : Duration
  pub cooldown_left : Duration

status_in : CbState → Breaker → Instant → Status → Status
status_in cb_open b t s =
    let open_for = since t b.opened_at in
    let rem = minus b.pol.cooldown open_for in
    record s { open_for = open_for; cooldown_left = if ltb_ℤ (pos 0) rem then rem else pos 0 }
status_in cb_half_open b t s = record s { open_for = since t b.opened_at }
status_in cb_closed b t s = s

-- `status`
unfoldable pub status : Breaker → Instant → Status
unfolding oks fails status_in
status b t = status_in b.state b t (record {
  state = b.state;
  consec = b.consec;
  fail = fails b.buckets;
  total = oks b.buckets + fails b.buckets;
  open_for = pos 0;
  cooldown_left = pos 0;
})
