-- ===== src/Supervisor/Restarts.antt =====
-- The restarts of internal/supervisor/supervisor.go: the backoff and the stall detector.
use splitdns.Prelude.{
  ℕ, zero, suc, ◌+◌, ◌*◌, ◌^◌, ◌≤◌, ◌≡◌, inl, inr, refl, sym, ap, ◌∙◌, true, false, none, some,
  List, [], ◌∷◌, ◌++◌, ltb, min, length, All, Duration, pos, ltb_ℤ, ◌<ℤ◌, ◌≤ℤ◌, second, arith,
  Bool-cases,
}
use mathlib.Core.List.{append-nil}
use splitdns.Supervisor.{
  out_returned, out_stalled, out_force, out_shutdown, WorkerState, Run, is_shutdown, pause, doubled,
  turn, turns, healthy_run, default_backoff, max_backoff, Ready, done, context_done, force, tick,
  monitor,
}

-- A run that ends in a restart, too short to reset the backoff.
abbrev pub IsShort : Run → Type 0
IsShort r =
    (is_shutdown r.outcome ≡ false)
    × (r.cancelled ≡ false)
    × (r.cancelled_asleep ≡ false)
    × (r.elapsed ≤ℤ healthy_run)

turn-short :
    (w : WorkerState) (r : Run)
    → IsShort r
    → ((turn w r).0.backoff ≡ doubled w.backoff)
      × ((turn w r).0.restarts ≡ w.restarts + 1)
      × ((turn w r).1 ≡ true)
unfolding turn
turn-short w r s =
    let short : ltb_ℤ healthy_run r.elapsed ≡ false = let e = s.3 in ground arith in
    rw (s.0, s.1, s.2, short) (refl, refl, refl)

product-ge : (x p : ℕ) → 1 ≤ p → x ≤ x * p
product-ge x zero h = absurd (omega arith)
product-ge x (suc k) h = omega arith

power_pos : (n : ℕ) → 1 ≤ 2 ^ n
power_pos zero = omega arith
power_pos (suc n) = let rest = power_pos n in omega arith

product_shift : (b p : ℕ) → b * (2 * p) ≡ b * 2 * p
product_shift b p = grind arith

doubled-power : (b n : ℕ) → min (doubled b * 2 ^ n) max_backoff ≡ min (b * 2 ^ suc n) max_backoff
doubled-power b n =
    let positive = power_pos n in
    let power : 2 ^ suc n ≡ 2 * 2 ^ n = omega arith in
    let shift : b * 2 ^ suc n ≡ b * 2 * 2 ^ n = ap (◌*◌ b) power ∙ product_shift b (2 ^ n) in
    elim (Bool-cases (ltb max_backoff (b * 2))) [
      | inl h ↦
          let more = product-ge (b * 2) (2 ^ n) positive in
          let most = product-ge max_backoff (2 ^ n) positive in
          rw h (ground (arith, shift, more, most))
      | inr h ↦ rw h (ground (arith, shift))
    ]

doubled-fits : (b : ℕ) → doubled b ≤ max_backoff
doubled-fits b = ground arith

-- After a number of short runs in a row the backoff is the first one, doubled as often but never above
-- a minute, and each run was followed by a restart; the first one is at most a minute.
pub turns-doubled :
    (w : WorkerState) (rs : List Run)
    → w.backoff ≤ max_backoff
    → All IsShort rs
    → ((turns w rs).backoff ≡ min (w.backoff * 2 ^ length rs) max_backoff)
      × ((turns w rs).restarts ≡ w.restarts + length rs)
unfolding turns
turns-doubled w [] fits s = (omega arith, omega arith)
turns-doubled w (r ∷ rs) fits s =
    let w1 = (turn w r).0 in
    let (b, n, on) = turn-short w r s.0 in
    let fits1 : w1.backoff ≤ max_backoff = rw b (doubled-fits w.backoff) in
    let (bs, ns) = turns-doubled w1 rs fits1 s.1 in
    let count : w1.restarts + length rs ≡ w.restarts + suc (length rs) = omega (arith, n) in
    let next : min (w1.backoff * 2 ^ length rs) max_backoff
        ≡ min (w.backoff * 2 ^ suc (length rs)) max_backoff =
      ap (λ x. min (x * 2 ^ length rs) max_backoff) b ∙ doubled-power w.backoff (length rs) in
    rw on (bs ∙ next, ns ∙ count)

-- After a run of more than half a minute a worker that is restarted pauses for a second, whatever its
-- configured backoff is, and the next backoff is two seconds.
pub turn-reset :
    (w : WorkerState) (r : Run)
    → is_shutdown r.outcome ≡ false
    → r.cancelled ≡ false
    → r.cancelled_asleep ≡ false
    → healthy_run <ℤ r.elapsed
    → (pause w.backoff r.elapsed ≡ default_backoff) × ((turn w r).0.backoff ≡ 2 * second)
unfolding turn
turn-reset w r a b c long =
    let e : ltb_ℤ healthy_run r.elapsed ≡ true = ground arith in (rw e refl, rw (a, b, c, e) refl)

-- Only ticks become ready, and each comes while the worker's last progress is within the ceiling.
abbrev pub IsHealthy : Duration → Ready → Type 0
IsHealthy ceiling (tick age) = age ≤ℤ ceiling
IsHealthy ceiling done = ⊥
IsHealthy ceiling context_done = ⊥
IsHealthy ceiling force = ⊥

module _ (ceiling : Duration) where
  healthy_waits :
      (rs more : List Ready)
      → All (IsHealthy ceiling) rs
      → monitor ceiling (rs ++ more) ≡ monitor ceiling more
  unfolding monitor
  healthy_waits [] more h = refl
  healthy_waits (tick age ∷ rs) more h =
      let fine : ltb_ℤ ceiling age ≡ false = let a = h.0 in ground arith in
      let rest = healthy_waits rs more h.1 in ground (arith, fine, rest)
  healthy_waits (done ∷ rs) more h = absurd h.0
  healthy_waits (context_done ∷ rs) more h = absurd h.0
  healthy_waits (force ∷ rs) more h = absurd h.0

  -- A worker that makes progress within its ceiling is waited for, and then whatever comes first ends the
  -- wait as itself: its return, a shutdown, a forced restart; and a tick with an older progress as a
  -- stall, if there is a ceiling. Without a ceiling no tick ends it.
  pub monitor_lem :
      (rs more : List Ready) (age : Duration)
      → All (IsHealthy ceiling) rs
      → (monitor ceiling rs ≡ none)
        × (monitor ceiling (rs ++ done ∷ more) ≡ some out_returned)
        × (monitor ceiling (rs ++ context_done ∷ more) ≡ some out_shutdown)
        × (monitor ceiling (rs ++ force ∷ more) ≡ some out_force)
        × (pos 0 <ℤ ceiling
            → ceiling <ℤ age
            → monitor ceiling (rs ++ tick age ∷ more) ≡ some out_stalled)
        × (ceiling ≤ℤ pos 0 → monitor ceiling (rs ++ tick age ∷ more) ≡ monitor ceiling more)
  unfolding monitor
  monitor_lem rs more age h = (
    ap (monitor ceiling) (sym (append-nil rs)) ∙ healthy_waits rs [] h,
    healthy_waits rs (done ∷ more) h,
    healthy_waits rs (context_done ∷ more) h,
    healthy_waits rs (force ∷ more) h,
    λ on late. healthy_waits rs (tick age ∷ more) h ∙ ground arith,
    λ off. healthy_waits rs (tick age ∷ more) h ∙ ground arith,
  )
