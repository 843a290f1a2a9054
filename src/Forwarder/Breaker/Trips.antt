-- ===== src/Forwarder/Breaker/Trips.antt =====
-- The transitions of the breaker of internal/forwarder/breaker.go: what opens it, what it lets
-- through while open or half-open, and what closes it.
use splitdns.Prelude.{
  ℕ, zero, suc, ◌+◌, ◌≤◌, ◌<◌, ◌≡◌, ◌≢◌, refl, ◌∙◌, sym, ap, Bool, true, false, Option, none, some,
  List, [], ◌∷◌, if◌then◌else◌, pos, ◌<ℤ◌, Instant, since, length, arith,
}
use splitdns.Forwarder.Breaker.{
  CbState, cb_closed, cb_open, cb_half_open, Policy, CbBucket, Breaker, allow, modify, clear,
  advance_locked, should_trip_locked, trip, close_locked, record_ok, count_fail, fail_in, settle,
  record_outcome, oks, fails,
}
use splitdns.Forwarder.Breaker.Validity.{IsValid, advance_locked-Kept, advance_locked_total}

-- The number of requests that `allow` lets through at the times of a list, with no outcome
-- reported in between.
unfoldable pub allow_all : Breaker → List Instant → Breaker × ℕ
allow_all b [] = (b, 0)
allow_all b (t ∷ ts) =
    let (b', yes_) = allow b t in let (c, n) = allow_all b' ts in (c, if yes_ then n + 1 else n)

-- The outcomes of a list are reported at their times; `none` as in `record_outcome`.
unfoldable pub record_all : Breaker → Bool → List Instant → Option Breaker
record_all b ok [] = some b
record_all b ok (t ∷ ts) = elim (record_outcome b ok t) [
  | none ↦ none
  | some c ↦ record_all c ok ts
]

-- Until an outcome is reported, a half-open breaker lets through what is left of its probes.
half_open_rest :
    (b : Breaker) (ts : List Instant)
    → b.state ≡ cb_half_open
    → b.half_open ≤ b.pol.half_open_max
    → ((allow_all b ts).1 + b.half_open ≤ b.pol.half_open_max)
      × ((allow_all b ts).0.state ≡ cb_half_open)
unfolding allow_all allow
half_open_rest b [] e h = ground arith
half_open_rest b (t ∷ ts) e h =
    ground
      (arith, half_open_rest b ts, half_open_rest (record b { half_open = b.half_open + 1 }) ts)

-- While no outcome is reported, a tripped breaker lets at most `HalfOpenMax` requests through,
-- whatever the times of the requests, and does not close by itself.
pub allow_all_bounded :
    (b : Breaker) (ts : List Instant)
    → IsValid b
    → b.state ≢ cb_closed
    → ((allow_all b ts).1 ≤ b.pol.half_open_max) × ((allow_all b ts).0.state ≢ cb_closed)
unfolding allow_all allow
allow_all_bounded b [] v o = ground arith
allow_all_bounded b (t ∷ ts) v o = ground (
  arith,
  allow_all_bounded b ts v o,
  half_open_rest b (t ∷ ts),
  half_open_rest (record b { state = cb_half_open; half_open = 1 }) ts,
)

oks-clear : (xs : List CbBucket) → oks (clear xs) + fails (clear xs) ≡ 0
unfolding oks fails
oks-clear [] = refl
oks-clear (x ∷ xs) = omega (arith, oks-clear xs)

fails-modify :
    (i : ℕ) (xs : List CbBucket)
    → i < length xs
    → fails (modify (λ x. record x { fail = x.fail + 1 }) i xs) ≡ fails xs + 1
unfolding fails modify
fails-modify i [] h = absurd (omega arith)
fails-modify zero (x ∷ xs) h = omega arith
fails-modify (suc i) (x ∷ xs) h = omega (arith, fails-modify i xs)

oks-modify :
    (i : ℕ) (xs : List CbBucket) → oks (modify (λ x. record x { fail = x.fail + 1 }) i xs) ≡ oks xs
unfolding oks modify
oks-modify i [] = refl
oks-modify zero (x ∷ xs) = refl
oks-modify (suc i) (x ∷ xs) = omega (arith, oks-modify i xs)

record_ok_closes :
    (s : CbState) (b : Breaker)
    → b.state ≡ s
    → ((record_ok s b).state ≡ cb_closed)
      × ((record_ok s b).consec ≡ 0)
      × (s ≢ cb_closed → oks (record_ok s b).buckets + fails (record_ok s b).buckets ≡ 0)
unfolding record_ok close_locked
record_ok_closes cb_closed b e = (e, refl, λ n. absurd (n refl))
record_ok_closes _ b e = (refl, refl, λ n. oks-clear _)

-- A reported success closes the breaker from every state and ends the run of failures; a breaker
-- that was open or half-open starts again with an empty window. A bucket lasts a nanosecond or more.
pub success_closes :
    (b : Breaker) (t : Instant)
    → pos 0 <ℤ b.bucket_dur
    → (c : Breaker) × (record_outcome b true t ≡ some c)
      × (c.state ≡ cb_closed)
      × (c.consec ≡ 0)
      × (b.state ≢ cb_closed → oks c.buckets + fails c.buckets ≡ 0)
unfolding record_outcome settle
success_closes b t d =
    let (b', e) = advance_locked_total b t d in
    let k = advance_locked-Kept b t e in
    let (x, y, z) = record_ok_closes b'.state b' refl in
    (record_ok b'.state b', rw (e, record_outcome), x, y, λ n. z (λ q. n (sym k.state ∙ q)))

fail_in_opens :
    (s : CbState) (b : Breaker) (t : Instant)
    → b.state ≡ s
    → ((fail_in s b t).state ≡ cb_closed → (s ≡ cb_closed) × (should_trip_locked b ≡ false))
      × (s ≡ cb_half_open → ((fail_in s b t).state ≡ cb_open) × ((fail_in s b t).opened_at ≡ t))
      × ((fail_in s b t).consec ≡ b.consec)
      × ((fail_in s b t).buckets ≡ b.buckets)
      × ((fail_in s b t).pol ≡ b.pol)
      × ((fail_in s b t).bucket_dur ≡ b.bucket_dur)
unfolding fail_in trip
fail_in_opens cb_closed b t e = ground arith
fail_in_opens _ b t e = ground arith

-- What `record(false)` makes of a breaker.
record Failed (b c : Breaker) (t : Instant) : Type 0 where
  pol : c.pol ≡ b.pol
  bucket_dur : c.bucket_dur ≡ b.bucket_dur
  consec : c.consec ≡ b.consec + 1
  still_closed :
      c.state ≡ cb_closed
      → (b.state ≡ cb_closed) × (0 < b.pol.consec_fail → c.consec < b.pol.consec_fail)
  reopened : b.state ≡ cb_half_open → (c.state ≡ cb_open) × (c.opened_at ≡ t)

no_trip_consec :
    (b : Breaker)
    → should_trip_locked b ≡ false
    → 0 < b.pol.consec_fail
    → b.consec < b.pol.consec_fail
unfolding should_trip_locked
no_trip_consec b h p = ground arith

fail-Failed :
    (b : Breaker) (t : Instant)
    → pos 0 <ℤ b.bucket_dur
    → (c : Breaker) × (record_outcome b false t ≡ some c) × Failed b c t
unfolding record_outcome settle
fail-Failed b t d =
    let (b', e) = advance_locked_total b t d in
    let k = advance_locked-Kept b t e in
    let n = count_fail b' in
    let c = fail_in b'.state n t in
    let f = fail_in_opens b'.state n t (unfold count_fail in refl) in
    (
      c,
      rw (e, record_outcome),
      record {
        pol = f.4 ∙ (unfold count_fail in k.pol);
        bucket_dur = f.5 ∙ (unfold count_fail in k.bucket_dur);
        consec = f.2 ∙ (unfold count_fail in ap (λ m. m + 1) k.consec);
        still_closed = λ x. (
          sym k.state ∙ (f.0 x).0,
          λ p.
              let q : n.pol.consec_fail ≡ b.pol.consec_fail =
                unfold count_fail in ap (λ (r : Policy). r.consec_fail) k.pol in
              omega (arith, q, f.2, no_trip_consec n (f.0 x).1 (omega (arith, q, p))),
        );
        reopened = λ x. f.1 (k.state ∙ x);
      },
    )

-- While a breaker is open and its cooldown has not passed, `allow` refuses and changes nothing.
pub fast_fail :
    (b : Breaker) (t : Instant)
    → b.state ≡ cb_open
    → since t b.opened_at <ℤ b.pol.cooldown
    → allow b t ≡ (b, false)
unfolding allow
fast_fail b t o h = ground arith

-- A reported failure in the half-open state opens the breaker anew, for a whole cooldown from `t`:
-- until then `allow` refuses. A bucket lasts a nanosecond or more.
pub failed_probe_reopens :
    (b : Breaker) (t : Instant)
    → pos 0 <ℤ b.bucket_dur
    → b.state ≡ cb_half_open
    → (c : Breaker) × (record_outcome b false t ≡ some c)
      × (c.state ≡ cb_open)
      × ((t' : Instant) → since t' t <ℤ b.pol.cooldown → allow c t' ≡ (c, false))
failed_probe_reopens b t d h =
    let (c, e, f) = fail-Failed b t d in
    let (o, a) = f.reopened h in (c, e, o, λ t' l. fast_fail c t' o (rw (a, f.pol) l))

-- Failures in a row: a breaker that has counted `consec` of them and is told of more, one at each
-- time of a list that is not empty, is not closed at the end if their number reaches a positive
-- `ConsecFail`. A bucket lasts a nanosecond or more.
pub consecutive_failures_trip :
    (b : Breaker) (t : Instant) (ts : List Instant)
    → pos 0 <ℤ b.bucket_dur
    → 0 < b.pol.consec_fail
    → b.pol.consec_fail ≤ b.consec + length (t ∷ ts)
    → (c : Breaker) × (record_all b false (t ∷ ts) ≡ some c) × (c.state ≢ cb_closed)
unfolding record_all
consecutive_failures_trip b t [] d p h =
    let (c, e, f) = fail-Failed b t d in
    (c, rw (e, record_all), λ x. absurd (omega (arith, (f.still_closed x).1 p, f.consec)))
consecutive_failures_trip b t (t' ∷ ts) d p h =
    let (c, e, f) = fail-Failed b t d in
    let q : c.pol.consec_fail ≡ b.pol.consec_fail = ap (λ (x : Policy). x.consec_fail) f.pol in
    rw (e, record_all)
      (consecutive_failures_trip c t' ts (rw f.bucket_dur d) (omega (arith, q))
        (omega (arith, q, f.consec)))

-- A failure is counted in the window in every state of the breaker, half-open and open included: the
-- window of the result holds one failure more than the window that was rolled forward to `t`.
pub failure_counted :
    (b b' : Breaker) (t : Instant)
    → IsValid b
    → advance_locked b t ≡ some b'
    → (c : Breaker) × (record_outcome b false t ≡ some c)
      × (fails c.buckets ≡ fails b'.buckets + 1)
      × (oks c.buckets ≡ oks b'.buckets)
unfolding record_outcome settle
failure_counted b b' t v e =
    let k = advance_locked-Kept b t e in
    let f = fail_in_opens b'.state (count_fail b') t (unfold count_fail in refl) in
    let g = λ (x : CbBucket). record x { fail = x.fail + 1 } in
    let h : b'.head_idx < length b'.buckets = k.head_in (omega (arith, v.sized, v.head_in)) in
    (
      fail_in b'.state (count_fail b') t,
      rw (e, record_outcome),
      rw f.3 (unfold count_fail in fails-modify b'.head_idx b'.buckets h),
      rw f.3 (unfold count_fail in oks-modify b'.head_idx b'.buckets),
    )
