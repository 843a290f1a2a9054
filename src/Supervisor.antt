-- ===== src/Supervisor.antt =====
-- The supervisor of internal/supervisor/supervisor.go: the restarts of a worker, the stall detector and
-- the watchdog. What a run of a worker, a `select` or the clock brings is an argument.
pub mod Restarts
pub mod Keepalive
use splitdns.Prelude.{
  ℕ, zero, suc, ◌+◌, ◌*◌, Bool, true, false, not, ◌&&◌, ◌||◌, Option, none, some, List, [], ◌∷◌,
  if◌then◌else◌, ltb, leb, Instant, Duration, pos, pos_part, since, ltb_ℤ, leb_ℤ, second, seconds,
}
use splitdns.Dns.{Name}

-- `defaultBackoff`, `maxBackoff` and `healthyRun`
abbrev pub default_backoff : ℕ
default_backoff = 1 * second

abbrev pub max_backoff : ℕ
max_backoff = 60 * second

abbrev pub healthy_run : Duration
healthy_run = seconds 30

-- `outcome`
pub data Outcome : Type 0 where
  out_returned out_stalled out_force out_shutdown : Outcome

-- `workerState`: its counters, and the variable `backoff` of `superviseWorker`
pub record WorkerState : Type 0 where
  pub backoff : ℕ
  pub panics : ℕ
  pub stalls : ℕ
  pub restarts : ℕ

-- `superviseWorker` before its loop, for the worker's `Backoff`
unfoldable pub start : Duration → WorkerState
start base = record {
  backoff = (if leb_ℤ base (pos 0) then default_backoff else pos_part base);
  panics = 0;
  stalls = 0;
  restarts = 0;
}

-- A run of a worker: how `monitor` ended, whether it panicked, how long it took until the backoff, and whether the
-- context was cancelled before the backoff, or during it.
pub record Run : Type 0 where
  pub outcome : Outcome
  pub panicked : Bool
  pub elapsed : Duration
  pub cancelled : Bool
  pub cancelled_asleep : Bool

abbrev pub is_shutdown : Outcome → Bool
is_shutdown out_shutdown = true
is_shutdown _ = false

abbrev pub count_stall : Outcome → ℕ → ℕ
count_stall out_stalled n = n + 1
count_stall _ n = n

-- how long it sleeps before the next start
abbrev pub pause : ℕ → Duration → ℕ
pause backoff elapsed = if ltb_ℤ healthy_run elapsed then default_backoff else backoff

-- `if backoff *= 2; backoff > maxBackoff`
abbrev pub doubled : ℕ → ℕ
doubled b = if ltb max_backoff (b * 2) then max_backoff else b * 2

-- A turn of the loop of `superviseWorker`: the state, and whether the loop goes on. The pause is taken
-- unless the worker or the supervisor is shut down.
unfoldable pub turn : WorkerState → Run → WorkerState × Bool
turn w r =
    let panics = if r.panicked then w.panics + 1 else w.panics in
    if is_shutdown r.outcome || r.cancelled
    then (record w { panics = panics }, false)
    else let w1 = record w {
      panics = panics;
      stalls = count_stall r.outcome w.stalls;
      restarts = w.restarts + 1;
      backoff = pause w.backoff r.elapsed;
    } in
      if r.cancelled_asleep then (w1, false) else (record w1 { backoff = doubled w1.backoff }, true)

-- the turns one after another
unfoldable pub turns : WorkerState → List Run → WorkerState
unfolding turn
turns w [] = w
turns w (r ∷ rs) = let x = turn w r in if x.1 then turns x.0 rs else x.0

-- What `select` in `monitor` may find ready; a tick comes with the age of the last progress.
pub data Ready : Type 0 where
  done context_done force : Ready
  tick : Duration → Ready

-- `monitor`, for what becomes ready in turn: none while it waits. Without a ceiling there is no ticker.
unfoldable pub monitor : Duration → List Ready → Option Outcome
monitor ceiling [] = none
monitor ceiling (done ∷ rs) = some out_returned
monitor ceiling (context_done ∷ rs) = some out_shutdown
monitor ceiling (force ∷ rs) = some out_force
monitor ceiling (tick age ∷ rs) =
    let rest = monitor ceiling rs in
    if ltb_ℤ (pos 0) ceiling && ltb_ℤ ceiling age then some out_stalled else rest

-- `Options`, as far as the watchdog reads it
pub record Options : Type 0 where
  pub hard_ceiling : Duration
  pub trip_ceiling : Duration
  pub builder_name : Name
  pub has_notify : Bool

-- `lastForce`, and the builder's `forceCh`, which holds one request
pub record Watchdog : Type 0 where
  pub last_force : Instant
  pub force_pending : Bool

abbrev pub is_named : Name → Bool
is_named [] = false
is_named (_ ∷ _) = true

-- the test of the first stage of `watchdogTick`
unfoldable pub forces : Options → Watchdog → Duration → Instant → Bool
forces o w age now =
    (ltb_ℤ (pos 0) o.hard_ceiling && (ltb_ℤ o.hard_ceiling age && is_named o.builder_name))
    && ltb_ℤ o.hard_ceiling (since now w.last_force)

abbrev pub is_alive : Option Bool → Bool
is_alive none = true
is_alive (some b) = b

abbrev pub age_of : Option Duration → Duration
age_of none = pos 0
age_of (some d) = d

-- `watchdogTick`: what `SnapshotAge` and `Liveness` answer is none where they are nil. The result is
-- the state, whether the builder was asked to restart, and whether the keepalive was sent.
unfoldable pub watchdog_tick :
    Options → Watchdog → Option Duration → Option Bool → Instant → Watchdog × Bool × Bool
unfolding forces
watchdog_tick o w age live now =
    let a = age_of age in
    let f = forces o w a now in
    let trip = ltb_ℤ (pos 0) o.trip_ceiling && ltb_ℤ o.trip_ceiling a in
    (
      if f then record { last_force = now; force_pending = true } else w,
      f,
      is_alive live && (not trip && o.has_notify),
    )
