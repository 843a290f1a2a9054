-- ===== src/Forwarder/Breaker/Validity.antt =====
-- The invariant of the breaker of internal/forwarder/breaker.go, and that `record` returns.
use splitdns.Prelude.{
  ℕ, zero, suc, ◌+◌, ◌%◌, ◌≤◌, ◌<◌, ◌≡◌, ◌≢◌, refl, Bool, true, false, some, List, [], ◌∷◌, ◌==◌,
  pos, pos_part, leb_ℤ, ◌<ℤ◌, Instant, Duration, since, length, arith, ◌∙◌, sym, Bool-cases,
  some-injective, inl, inr, ap,
}
use splitdns.Forwarder.Breaker.{
  CbState, cb_closed, cb_half_open, Policy, CbBucket, Breaker, make, new_breaker, allow, modify,
  clear, roll, minus, advance_loop, advance_locked, record_ok, count_fail, fail_in, settle,
  record_outcome, empty_bucket,
}

-- What holds of a breaker between two calls.
pub record IsValid (b : Breaker) : Type 0 where
  pub some_bucket : 1 ≤ b.pol.buckets
  pub sized : length b.buckets ≡ b.pol.buckets
  pub head_in : b.head_idx < b.pol.buckets
  pub probe_max : 1 ≤ b.pol.half_open_max
  pub probes : b.half_open ≤ b.pol.half_open_max
  pub idle : b.state ≢ cb_half_open → b.half_open ≡ 0
  pub probing : b.state ≡ cb_half_open → 1 ≤ b.half_open

-- What `advanceLocked` leaves alone.
pub record Kept (b c : Breaker) : Type 0 where
  pub pol : c.pol ≡ b.pol
  pub state : c.state ≡ b.state
  pub consec : c.consec ≡ b.consec
  pub opened_at : c.opened_at ≡ b.opened_at
  pub half_open : c.half_open ≡ b.half_open
  pub bucket_dur : c.bucket_dur ≡ b.bucket_dur
  pub sized : length c.buckets ≡ length b.buckets
  pub head_in : b.head_idx < length b.buckets → c.head_idx < length c.buckets

pub length-modify :
    (g : CbBucket → CbBucket) (i : ℕ) (xs : List CbBucket) → length (modify g i xs) ≡ length xs
unfolding modify
length-modify g i [] = refl
length-modify g zero (x ∷ xs) = refl
length-modify g (suc i) (x ∷ xs) = ap suc (length-modify g i xs)

pub length-clear : (xs : List CbBucket) → length (clear xs) ≡ length xs
length-clear [] = refl
length-clear (x ∷ xs) = ap suc (length-clear xs)

length-make : (n : ℕ) → length (make n) ≡ n
unfolding make
length-make zero = refl
length-make (suc n) = ap suc (length-make n)

mod-lt_len : (i n j : ℕ) → j < n → (i + 1) % n < n
mod-lt_len i n j h = grind arith

roll-Kept : (b : Breaker) → Kept b (roll b)
unfolding roll
roll-Kept b =
    let i = (b.head_idx + 1) % length b.buckets in
    record {
      pol = refl;
      state = refl;
      consec = refl;
      opened_at = refl;
      half_open = refl;
      bucket_dur = refl;
      sized = length-modify (λ _. empty_bucket) i b.buckets;
      head_in = λ h. omega (
        arith,
        length-modify (λ _. empty_bucket) i b.buckets,
        mod-lt_len b.head_idx (length b.buckets) b.head_idx h,
      );
    }

Kept-trans : {a b c : Breaker} → Kept a b → Kept b c → Kept a c
Kept-trans h k = record {
  pol = cc;
  state = cc;
  consec = cc;
  opened_at = cc;
  half_open = cc;
  bucket_dur = cc;
  sized = cc;
  head_in = λ x. k.head_in (h.head_in x);
}

Kept-refl : (b : Breaker) → Kept b b
Kept-refl b = record {
  pol = refl;
  state = refl;
  consec = refl;
  opened_at = refl;
  half_open = refl;
  bucket_dur = refl;
  sized = refl;
  head_in = λ x. x;
}

advance_loop-Kept :
    (fuel : ℕ) (e : Duration) (b : Breaker) {c : Breaker}
    → advance_loop fuel e b ≡ some c
    → Kept b c
unfolding advance_loop
advance_loop-Kept zero e b h = cc
advance_loop-Kept (suc fuel) e b {c} h = elim (Bool-cases (leb_ℤ b.bucket_dur e)) [
  | inl more ↦
      Kept-trans (roll-Kept b)
        (advance_loop-Kept fuel (minus e b.bucket_dur) (roll b) (rw (more, advance_loop) at h))
  | inr done ↦
      let q : some b ≡ some c = rw (done, advance_loop) at h in
      rw (← some-injective _ _ q) (Kept-refl b)
]

pub advance_locked-Kept :
    (b : Breaker) (t : Instant) {c : Breaker} → advance_locked b t ≡ some c → Kept b c
unfolding advance_locked
advance_locked-Kept b t {c} h = elim (Bool-cases (b.head_start == 0)) [
  | inl seed ↦
      let q : some (record b { head_start = t }) ≡ some c = rw seed at h in
      rw (← some-injective _ _ q) (record {
        pol = refl;
        state = refl;
        consec = refl;
        opened_at = refl;
        half_open = refl;
        bucket_dur = refl;
        sized = refl;
        head_in = λ x. x;
      })
  | inr later ↦ elim (Bool-cases (leb_ℤ b.pol.window (since t b.head_start))) [
    | inl old ↦
        let q : some (record b { buckets = clear b.buckets; head_start = t; head_idx = 0 })
            ≡ some c =
          rw (later, old) at h in
        rw (← some-injective _ _ q) (record {
          pol = refl;
          state = refl;
          consec = refl;
          opened_at = refl;
          half_open = refl;
          bucket_dur = refl;
          sized = length-clear b.buckets;
          head_in = λ x. omega (arith, length-clear b.buckets);
        })
    | inr within ↦
        advance_loop-Kept (suc (pos_part (since t b.head_start))) (since t b.head_start) b
          (rw (later, within) at h)
  ]
]

roll-bucket_dur : (b : Breaker) → (roll b).bucket_dur ≡ b.bucket_dur
unfolding roll
roll-bucket_dur b = refl

-- The loop ends: each round takes the length of a bucket, at least a nanosecond, off `elapsed`.
advance_loop_total :
    (fuel : ℕ) (e : Duration) (b : Breaker)
    → pos 0 <ℤ b.bucket_dur
    → pos_part e < fuel
    → (c : Breaker) × (advance_loop fuel e b ≡ some c)
unfolding advance_loop
advance_loop_total zero e b d h = absurd (omega arith)
advance_loop_total (suc fuel) e b d h = elim (Bool-cases (leb_ℤ b.bucket_dur e)) [
  | inl more ↦
      rw (more, advance_loop)
        (advance_loop_total fuel (minus e b.bucket_dur) (roll b) (rw (roll-bucket_dur b) d)
          (ground arith))
  | inr done ↦ (b, rw (done, advance_loop))
]

pub advance_locked_total :
    (b : Breaker) (t : Instant)
    → pos 0 <ℤ b.bucket_dur
    → (c : Breaker) × (advance_locked b t ≡ some c)
unfolding advance_locked
advance_locked_total b t d = elim (Bool-cases (b.head_start == 0)) [
  | inl seed ↦ (record b { head_start = t }, rw seed)
  | inr later ↦ elim (Bool-cases (leb_ℤ b.pol.window (since t b.head_start))) [
    | inl old ↦
        (record b { buckets = clear b.buckets; head_start = t; head_idx = 0 }, rw (later, old))
    | inr within ↦
        rw (later, within)
          (advance_loop_total (suc (pos_part (since t b.head_start))) (since t b.head_start) b d
            (omega arith))
  ]
]

-- A new breaker satisfies the invariant, whatever the policy.
pub new_breaker-IsValid : (p : Policy) → IsValid (new_breaker p)
unfolding new_breaker
new_breaker-IsValid p = ground (arith, length-make p.buckets, length-make 1)

-- `allow` keeps the invariant.
pub allow-IsValid : (b : Breaker) (t : Instant) → IsValid b → IsValid (allow b t).0
unfolding allow
allow-IsValid b t v = ground arith

Kept-IsValid : {b c : Breaker} → Kept b c → IsValid b → IsValid c
Kept-IsValid {b} {c} k v = record {
  some_bucket = rw (k.pol) v.some_bucket;
  sized = omega (arith, k.sized, v.sized, ap (λ (p : Policy). p.buckets) k.pol);
  head_in = omega (
    arith,
    k.sized,
    v.sized,
    ap (λ (p : Policy). p.buckets) k.pol,
    k.head_in (omega (arith, v.sized, v.head_in)),
  );
  probe_max = rw k.pol v.probe_max;
  probes = rw (k.pol, k.half_open) v.probes;
  idle = λ n. k.half_open ∙ v.idle (λ e. n (k.state ∙ e));
  probing = λ e. rw k.half_open (v.probing (sym k.state ∙ e));
}

fail_in-IsValid :
    (s : CbState) (b : Breaker) (t : Instant) → b.state ≡ s → IsValid b → IsValid (fail_in s b t)
unfolding fail_in
fail_in-IsValid cb_closed b t e v = ground arith
fail_in-IsValid _ b t e v = ground arith

record_ok-IsValid : (s : CbState) (b : Breaker) → b.state ≡ s → IsValid b → IsValid (record_ok s b)
unfolding record_ok
record_ok-IsValid cb_closed b e v =
    ground (arith, length-modify (λ x. record x { ok = x.ok + 1 }) b.head_idx b.buckets)
record_ok-IsValid _ b e v = ground (
  arith,
  length-modify (λ x. record x { ok = x.ok + 1 }) b.head_idx b.buckets,
  length-clear (modify (λ x. record x { ok = x.ok + 1 }) b.head_idx b.buckets),
)

count_fail-IsValid : (b : Breaker) → IsValid b → IsValid (count_fail b)
unfolding count_fail
count_fail-IsValid b v =
    ground (arith, length-modify (λ x. record x { fail = x.fail + 1 }) b.head_idx b.buckets)

-- What `record` makes of the rest of the breaker.
record Settled (b : Breaker) (c : Breaker) : Type 0 where
  valid : IsValid c
  pol : c.pol ≡ b.pol
  bucket_dur : c.bucket_dur ≡ b.bucket_dur

ok-Settled : (s : CbState) (b : Breaker) → b.state ≡ s → IsValid b → Settled b (record_ok s b)
ok-Settled s b e v = record { valid = record_ok-IsValid s b e v; pol = p s; bucket_dur = d s }
  where
    p : (s : CbState) → (record_ok s b).pol ≡ b.pol
    p cb_closed = unfold record_ok in refl
    p _ = unfold record_ok in refl

    d : (s : CbState) → (record_ok s b).bucket_dur ≡ b.bucket_dur
    d cb_closed = unfold record_ok in refl
    d _ = unfold record_ok in refl

fail-Settled :
    (s : CbState) (b : Breaker) (t : Instant)
    → b.state ≡ s
    → IsValid b
    → Settled b (fail_in s (count_fail b) t)
fail-Settled s b t e v = record {
  valid = fail_in-IsValid s (count_fail b) t (unfold count_fail in e) (count_fail-IsValid b v);
  pol = p s;
  bucket_dur = d s;
}
  where
    p : (s : CbState) → (fail_in s (count_fail b) t).pol ≡ b.pol
    p cb_closed = unfold fail_in count_fail in ground arith
    p _ = unfold fail_in count_fail in refl

    d : (s : CbState) → (fail_in s (count_fail b) t).bucket_dur ≡ b.bucket_dur
    d cb_closed = unfold fail_in count_fail in ground arith
    d _ = unfold fail_in count_fail in refl

settle-Settled : (b : Breaker) (ok : Bool) (t : Instant) → IsValid b → Settled b (settle b ok t)
unfolding settle
settle-Settled b true t v = ok-Settled b.state b refl v
settle-Settled b false t v = fail-Settled b.state b t refl v

-- Where a bucket lasts at least a nanosecond, `record` returns whatever the outcome and the time,
-- and keeps the invariant, the policy and the length of a bucket.
pub record_outcome-IsValid :
    (b : Breaker) (ok : Bool) (t : Instant)
    → pos 0 <ℤ b.bucket_dur
    → IsValid b
    → (c : Breaker) × (record_outcome b ok t ≡ some c)
      × IsValid c
      × (c.pol ≡ b.pol)
      × (c.bucket_dur ≡ b.bucket_dur)
unfolding record_outcome
record_outcome-IsValid b ok t d v =
    let (b', e) = advance_locked_total b t d in
    let k = advance_locked-Kept b t e in
    let s = settle-Settled b' ok t (Kept-IsValid k v) in
    (settle b' ok t, rw (e, record_outcome), s.valid, s.pol ∙ k.pol, s.bucket_dur ∙ k.bucket_dur)
