-- ===== src/Ddns/Writer.antt =====
-- The writer of internal/ddns/ddns.go. What the record source answers, and which of the calls to
-- Cloudflare succeed, are arguments. The clock is read once for an announcement: the code reads it
-- again only for the time of an audit entry. The token bucket counts in nanoseconds of refill, of which
-- a token is worth `refill_per`, in place of a fraction of a token; its clock does not run backwards.
pub mod Gates
pub mod Rates
pub mod Tokens
use splitdns.Prelude.{
  ℕ, ◌+◌, ◌-◌, ◌*◌, ◌≡◌, Bool, true, false, not, ◌&&◌, ◌||◌, Option, none, some, List, [], ◌∷◌,
  ◌++◌, map, if◌then◌else◌, ltb, leb, ◌==◌, filter, Instant, Duration, pos, pos_part, since, ltb_ℤ,
  leb_ℤ, min,
}
use splitdns.Netmatch.{Addr, unmap, is_ddns_eligible}
use splitdns.Dns.{Name, name_eq, to_lower}
use splitdns.Ddns.Plan.{
  Texts, Record, EditOp, CreateOp, Plan, holds, type_a, type_aaaa, build_plan, is_empty,
}

-- `Config`; the allowlist is the list of its names, which are in lower case
pub record Config : Type 0 where
  pub enabled : Bool
  pub dry_run : Bool
  pub rate : Duration
  pub eligible : List Name
  pub global_burst : ℕ
  pub global_refill : Duration

-- `Outcome`
pub data Outcome : Type 0 where
  disabled not_eligible no_public unchanged rate_limited dry_run applied failed : Outcome

-- `tokenBucket`; `tokens` and `cap` are worth `refill_per` each
pub record TokenBucket : Type 0 where
  pub cap : ℕ
  pub tokens : ℕ
  pub refill_per : ℕ
  pub last : Instant

-- `tokenBucket.allow` on what it has gained by `now`
abbrev pub gain : TokenBucket → Instant → ℕ
gain b now = if b.last == 0 then b.tokens else min b.cap (b.tokens + (now - b.last))

-- `tokenBucket.allow`
unfoldable pub bucket_allow : TokenBucket → Instant → TokenBucket × Bool
bucket_allow b now =
    if b.refill_per == 0
    then (b, true)
    else if leb b.refill_per (gain b now)
    then (record b { tokens = gain b now - b.refill_per; last = now }, true)
    else (record b { tokens = gain b now; last = now }, false)

-- What `auditOutcome` is told: the host, the plan and the outcome.
abbrev pub Note : Type 0
Note = Name × Plan × Outcome

-- `Writer`, without its queue; the notes are in the order of time
pub record Writer : Type 0 where
  pub cfg : Config
  pub last_by_host : Name → Option Instant
  pub global : Option TokenBucket
  pub audit : List Note

abbrev pub has_none : List Name → Bool
has_none [] = true
has_none (_ ∷ _) = false

-- the safety gate of `New`
unfoldable pub gate : Config → Config
gate cfg =
    if cfg.enabled && (not cfg.dry_run && has_none cfg.eligible)
    then record cfg { dry_run = true }
    else cfg

-- `New`
unfoldable pub new_writer : Config → Instant → Writer
unfolding gate
new_writer cfg now = record {
  cfg = gate cfg;
  last_by_host = λ h. none;
  global =
      (if ltb 0 cfg.global_burst && ltb_ℤ (pos 0) cfg.global_refill
        then some (record {
          cap = cfg.global_burst * pos_part cfg.global_refill;
          tokens = cfg.global_burst * pos_part cfg.global_refill;
          refill_per = pos_part cfg.global_refill;
          last = now;
        })
        else none);
  audit = [];
}

-- A call of the editor.
pub data Call : Type 0 where
  update : Record → Addr → Call
  create : CreateOp → Call
  delete : Record → Call

-- the calls of `apply`, in order
unfoldable pub calls_of : Plan → List Call
calls_of p =
    map (λ (e : EditOp). update e.rec e.addr) p.edits
    ++ (map create p.creates ++ map delete p.deletes)

-- `apply`: the calls that are made, up to the first that fails, and whether none fails
unfoldable pub run_calls : (Call → Bool) → List Call → List Call × Bool
run_calls ok [] = ([], true)
run_calls ok (c ∷ cs) =
    let rest = run_calls ok cs in if ok c then (c ∷ rest.0, rest.1) else (c ∷ [], false)

-- `strings.TrimSuffix(s, ".")`
unfoldable pub trim_dot : Name → Name
trim_dot [] = []
trim_dot (c ∷ []) = if c == b'.' then [] else c ∷ []
trim_dot (c ∷ d ∷ cs) = let rest = trim_dot (d ∷ cs) in c ∷ rest

-- the tests of `filterEligibleRecords`
unfoldable pub is_eligible : List Name → Record → Bool
unfolding trim_dot to_lower name_eq
is_eligible allow r =
    not r.proxied
    && ((r.rtype == type_a || r.rtype == type_aaaa)
        && (has_none allow || holds allow (trim_dot (to_lower r.name))))

-- The writer afterwards, what is returned, and the calls that were made.
pub record Reconciled : Type 0 where
  pub writer : Writer
  pub outcome : Outcome
  pub calls : List Call

abbrev pub stop : Writer → Outcome → Reconciled
stop w o = record { writer = w; outcome = o; calls = [] }

abbrev pub noted : Writer → Name → Plan → Outcome → Writer
noted w host p o = record w { audit = w.audit ++ (host, p, o) ∷ [] }

-- `Reconcile` past the rate guards
unfoldable pub write : (Call → Bool) → Writer → Name → Plan → Reconciled
unfolding run_calls calls_of
write ok w host p =
    if w.cfg.dry_run
    then stop (noted w host p dry_run) dry_run
    else let r = run_calls ok (calls_of p) in
      let o = if r.1 then applied else failed in
      record { writer = noted w host p o; outcome = o; calls = r.0 }

-- `lastByHost[host] = now`
abbrev pub stamp_host : Writer → Name → Instant → Writer
stamp_host w host now = record w {
  last_by_host = λ h. if name_eq h host then some now else w.last_by_host h;
}

-- the global guard, on the bucket
unfoldable pub guarded :
    (Call → Bool) → Writer → Name → Plan → Instant → Option TokenBucket → Reconciled
unfolding bucket_allow write
guarded ok w host p now none = write ok (stamp_host w host now) host p
guarded ok w host p now (some b) =
    let r = bucket_allow b now in
    let w1 = record w { global = some r.0 } in
    if r.1
    then write ok (stamp_host w1 host now) host p
    else stop (noted w1 host p rate_limited) rate_limited

-- whether the last write for the host is too recent
abbrev pub too_soon : Duration → Option Instant → Instant → Bool
too_soon rate none now = false
too_soon rate (some last) now = ltb_ℤ (pos 0) rate && ltb_ℤ (since now last) rate

-- `Reconcile` from the plan
unfoldable pub commit : (Call → Bool) → Writer → Name → Plan → Instant → Reconciled
unfolding is_empty guarded
commit ok w host p now =
    if is_empty p
    then stop w unchanged
    else if too_soon w.cfg.rate (w.last_by_host host) now
    then stop (noted w host p rate_limited) rate_limited
    else guarded ok w host p now w.global

-- the announced addresses that are public
unfoldable pub desired : List Addr → List Addr
unfolding is_ddns_eligible unmap
desired addrs = map unmap (filter is_ddns_eligible addrs)

-- `Reconcile` from the records
unfoldable pub with_records :
    Texts → (Call → Bool) → Writer → Name → List Addr → Instant → List Record → Reconciled
unfolding commit build_plan
with_records tx ok w host addrs now [] = stop w not_eligible
with_records tx ok w host addrs now (first ∷ records) =
    commit ok w host (build_plan tx first records addrs) now

-- `Reconcile` from the addresses
unfoldable pub with_desired :
    Texts
    → (Name → Option (List Record))
    → (Call → Bool)
    → Writer
    → Name
    → Instant
    → List Addr
    → Reconciled
unfolding with_records is_eligible
with_desired tx source ok w host now [] = stop w no_public
with_desired tx source ok w host now (a ∷ addrs) = elim (source host) [
  | none ↦ stop w failed
  | some records ↦
      with_records tx ok w host (a ∷ addrs) now (filter (is_eligible w.cfg.eligible) records)
]

-- `Change`
pub record Change : Type 0 where
  pub host : Name
  pub addrs : List Addr

-- `Reconcile`
unfoldable pub reconcile :
    Texts → (Name → Option (List Record)) → (Call → Bool) → Writer → Change → Instant → Reconciled
unfolding with_desired desired to_lower
reconcile tx source ok w c now =
    if not w.cfg.enabled
    then stop w disabled
    else with_desired tx source ok w (to_lower (tx.trim c.host)) now (desired c.addrs)
