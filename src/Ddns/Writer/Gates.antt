-- ===== src/Ddns/Writer/Gates.antt =====
-- What the writer of internal/ddns/ddns.go may write.
use splitdns.Prelude.{
  ◌≡◌, ◌≢◌, ◌⊎◌, inl, inr, refl, sym, ap, ◌∙◌, Bool, true, false, not, ◌==◌, Option, none, some,
  List, [], ◌∷◌, map, if◌then◌else◌, filter, All, Instant, arith, Bool-cases, Option-cases,
}
use splitdns.Netmatch.{Addr, invalid, v4, v6, unmap, is_4in6, is_ddns_eligible}
use splitdns.Dns.{Name, to_lower}
use splitdns.Ddns.Plan.{
  holds, Texts, Record, EditOp, CreateOp, Plan, is6, type_aaaa, build_plan, is_empty,
}
use splitdns.Ddns.Plan.Families.{All-append, All-passes, SameFamily, build_plan-SameFamily}
use splitdns.Ddns.Plan.Sources.{build_plan-From}
use splitdns.Ddns.Writer.{
  Config, Writer, Outcome, Call, update, create, delete, calls_of, run_calls, is_eligible,
  Reconciled, stop, noted, write, stamp_host, guarded, TokenBucket, bucket_allow, too_soon, commit,
  desired, with_records, with_desired, Change, reconcile, gate, has_none, trim_dot,
}

unmap-unmap : (a : Addr) → unmap (unmap a) ≡ unmap a
unfolding unmap
unmap-unmap invalid = refl
unmap-unmap (v4 n) = refl
unmap-unmap (v6 n z) = elim (Bool-cases (is_4in6 n)) [
  | inl b ↦ rw b refl
  | inr b ↦ rw b (rw b refl)
]

eligible-unmap : (a : Addr) → is_ddns_eligible (unmap a) ≡ is_ddns_eligible a
unfolding is_ddns_eligible
eligible-unmap a = rw (unmap-unmap a) refl

desired-eligible : (l : List Addr) → All (λ a. is_ddns_eligible a ≡ true) (desired l)
unfolding desired
desired-eligible l = lift (filter is_ddns_eligible l) (All-passes is_ddns_eligible l)
  where
    lift :
        (xs : List Addr)
        → All (λ a. is_ddns_eligible a ≡ true) xs
        → All (λ a. is_ddns_eligible a ≡ true) (map unmap xs)
    lift [] h = tt
    lift (a ∷ xs) h = (rw (eligible-unmap a) h.0, lift xs h.1)

-- A record that the writer may touch: not proxied, of type A or AAAA, and on the allowlist, in lower
-- case and without the final dot, if there is one.
abbrev pub Writable : List Name → Record → Type 0
Writable allow r =
    (r.proxied ≡ false)
    × ((r.rtype ≡ 1) ⊎ (r.rtype ≡ 28))
    × (has_none allow ≡ false → holds allow (trim_dot (to_lower r.name)) ≡ true)

is_eligible-Writable :
    (allow : List Name) (r : Record) → is_eligible allow r ≡ true → Writable allow r
unfolding is_eligible
is_eligible-Writable allow r h =
    (ground (arith, h), ground (arith, h), λ some_names. ground (arith, h, some_names))

filter-Writable :
    (allow : List Name) (rs : List Record)
    → All (λ (r : Record). Writable allow r) (filter (is_eligible allow) rs)
filter-Writable allow [] = tt
filter-Writable allow (r ∷ rs) = elim (Bool-cases (is_eligible allow r)) [
  | inl b ↦ rw b (is_eligible-Writable allow r b, filter-Writable allow rs)
  | inr b ↦ rw b (filter-Writable allow rs)
]

-- A call writes public addresses only, into records that are not proxied, are A or AAAA and are on the
-- allowlist, if there is one, and of the family of the record; it creates records beside such a
-- record, under its name and in its zone, and deletes such records only.
abbrev pub Safe : List Name → Call → Type 0
Safe allow (update r a) =
    (Writable allow r) × (is_ddns_eligible a ≡ true) × (is6 a ≡ (r.rtype == type_aaaa))
Safe allow (create c) =
    (is_ddns_eligible c.addr ≡ true)
    × ((r : Record) × (Writable allow r) × (c.zone_id ≡ r.zone_id) × (c.name ≡ r.name))
Safe allow (delete r) = Writable allow r

run_calls-All :
    (P : Call → Type 0) (ok : Call → Bool) (l : List Call) → All P l → All P (run_calls ok l).0
unfolding run_calls
run_calls-All P ok [] h = tt
run_calls-All P ok (c ∷ cs) h = elim (Bool-cases (ok c)) [
  | inl b ↦ rw b (h.0, run_calls-All P ok cs h.1)
  | inr b ↦ rw b (h.0, tt)
]

-- What a result may be: the configuration is kept; calls are safe, and made by a writer that is
-- enabled and not in dry run only.
record Good (w : Writer) (r : Reconciled) : Type 0 where
  pub kept : r.writer.cfg ≡ w.cfg
  pub safe : All (Safe w.cfg.eligible) r.calls
  pub armed : r.calls ≢ [] → (w.cfg.enabled ≡ true) × (w.cfg.dry_run ≡ false)

SafePlan : Writer → Plan → Type 0
unfolding calls_of
SafePlan w p = All (Safe w.cfg.eligible) (calls_of p)

silent : (w v : Writer) (o : Outcome) → v.cfg ≡ w.cfg → Good w (stop v o)
silent w v o h = record { kept = h; safe = tt; armed = λ c. absurd (c refl) }

write-Good :
    (ok : Call → Bool) (w v : Writer) (host : Name) (p : Plan)
    → v.cfg ≡ w.cfg
    → w.cfg.enabled ≡ true
    → SafePlan w p
    → Good w (write ok v host p)
unfolding write SafePlan
write-Good ok w v host p h on safe =
    let r = run_calls ok (calls_of p) in
    let o = if r.1 then Outcome.applied else Outcome.failed in
    elim v.cfg.dry_run
        as (λ b.
          v.cfg.dry_run ≡ b
          → Good w (
              if b
              then stop (noted v host p Outcome.dry_run) Outcome.dry_run
              else record { writer = noted v host p o; outcome = o; calls = r.0 })) [
                | true ↦ λ b. silent w (noted v host p Outcome.dry_run) Outcome.dry_run h
                | false ↦ λ b. record {
                  kept = h;
                  safe = run_calls-All (Safe w.cfg.eligible) ok (calls_of p) safe;
                  armed = λ c. (on, ap (λ (g : Config). g.dry_run) (sym h) ∙ b);
                }
              ]
      refl

guarded-Good :
    (ok : Call → Bool) (w : Writer) (host : Name) (p : Plan) (now : Instant)
    → w.cfg.enabled ≡ true
    → SafePlan w p
    → (o : Option TokenBucket) → Good w (guarded ok w host p now o)
unfolding guarded
guarded-Good ok w host p now on safe none =
    write-Good ok w (stamp_host w host now) host p refl on safe
guarded-Good ok w host p now on safe (some b) =
    let r = bucket_allow b now in
    let w1 = record w { global = some r.0 } in
    elim (Bool-cases r.1) [
      | inl g ↦ rw g (write-Good ok w (stamp_host w1 host now) host p refl on safe)
      | inr g ↦ rw g (silent w (noted w1 host p Outcome.rate_limited) Outcome.rate_limited refl)
    ]

commit-Good :
    (ok : Call → Bool) (w : Writer) (host : Name) (p : Plan) (now : Instant)
    → w.cfg.enabled ≡ true
    → SafePlan w p
    → Good w (commit ok w host p now)
unfolding commit
commit-Good ok w host p now on safe = elim (Bool-cases (is_empty p)) [
  | inl b ↦ rw b (silent w w Outcome.unchanged refl)
  | inr b ↦ elim (Bool-cases (too_soon w.cfg.rate (w.last_by_host host) now)) [
    | inl d ↦ rw (b, d) (silent w (noted w host p Outcome.rate_limited) Outcome.rate_limited refl)
    | inr d ↦ rw (b, d) (guarded-Good ok w host p now on safe w.global)
  ]
]

All-map :
    {A B : Type 0}
    → (P : B → Type 0) (f : A → B) (l : List A) → All (λ x. P (f x)) l
    → All P (map f l)
All-map P f [] h = tt
All-map P f (x ∷ l) h = (h.0, All-map P f l h.1)

plan-Safe :
    (tx : Texts) (w : Writer) (first : Record) (records : List Record) (addrs : List Addr)
    → All (λ (r : Record). Writable w.cfg.eligible r) (first ∷ records)
    → All (λ a. is_ddns_eligible a ≡ true) addrs
    → SafePlan w (build_plan tx first records addrs)
unfolding SafePlan calls_of
plan-Safe tx w first records addrs rs as_ =
    let P : Record → Type 0 = λ r. Writable w.cfg.eligible r in
    let Q : Addr → Type 0 = λ a. is_ddns_eligible a ≡ true in
    let S = Safe w.cfg.eligible in
    let p = build_plan tx first records addrs in
    let from = build_plan-From P Q tx first records addrs rs as_ in
    All-append S (map (λ (e : EditOp). update e.rec e.addr) p.edits) _
      (All-map S (λ (e : EditOp). update e.rec e.addr) p.edits
        (edits p.edits from.edits (build_plan-SameFamily tx first records addrs)))
      (All-append S (map create p.creates) (map delete p.deletes)
        (All-map S create p.creates (creates p.creates from.creates))
        (All-map S delete p.deletes from.deletes))
  where
    edits :
        (l : List EditOp)
        → All (λ (e : EditOp). (Writable w.cfg.eligible e.rec) × (is_ddns_eligible e.addr ≡ true)) l
        → All SameFamily l
        → All (λ (e : EditOp). Safe w.cfg.eligible (update e.rec e.addr)) l
    edits [] h g = tt
    edits (e ∷ l) h g = ((h.0.0, h.0.1, g.0), edits l h.1 g.1)

    creates :
        (l : List CreateOp)
        → All
            (λ (c : CreateOp).
              (is_ddns_eligible c.addr ≡ true)
              × (c.zone_id ≡ first.zone_id)
              × (c.name ≡ first.name))
            l
        → All (λ (c : CreateOp). Safe w.cfg.eligible (create c)) l
    creates [] h = tt
    creates (c ∷ l) h = ((h.0.0, (first, rs.0, h.0.1, h.0.2)), creates l h.1)

with_records-Good :
    (tx : Texts) (ok : Call → Bool) (w : Writer) (host : Name) (addrs : List Addr) (now : Instant)
    (rs : List Record)
    → w.cfg.enabled ≡ true
    → All (λ (r : Record). Writable w.cfg.eligible r) rs
    → All (λ a. is_ddns_eligible a ≡ true) addrs
    → Good w (with_records tx ok w host addrs now rs)
unfolding with_records
with_records-Good tx ok w host addrs now [] on h q = silent w w Outcome.not_eligible refl
with_records-Good tx ok w host addrs now (first ∷ records) on h q =
    commit-Good ok w host (build_plan tx first records addrs) now on
      (plan-Safe tx w first records addrs h q)

with_desired-Good :
    (tx : Texts) (source : Name → Option (List Record)) (ok : Call → Bool) (w : Writer)
    (host : Name) (now : Instant) (addrs : List Addr)
    → w.cfg.enabled ≡ true
    → All (λ a. is_ddns_eligible a ≡ true) addrs
    → Good w (with_desired tx source ok w host now addrs)
unfolding with_desired
with_desired-Good tx source ok w host now [] on q = silent w w Outcome.no_public refl
with_desired-Good tx source ok w host now (a ∷ l) on q = elim (Option-cases (source host)) [
  | inl n ↦ rw (n, with_desired) (silent w w Outcome.failed refl)
  | inr (rs, n) ↦
      let allow = w.cfg.eligible in
      rw (n, with_desired)
        (with_records-Good tx ok w host (a ∷ l) now (filter (is_eligible allow) rs) on
          (filter-Writable allow rs) q)
]

reconcile-Good :
    (tx : Texts) (source : Name → Option (List Record)) (ok : Call → Bool) (w : Writer) (c : Change)
    (now : Instant)
    → Good w (reconcile tx source ok w c now)
unfolding reconcile
reconcile-Good tx source ok w c now =
    let host = to_lower (tx.trim c.host) in
    elim w.cfg.enabled
        as (λ b.
          w.cfg.enabled ≡ b
          → Good w (
              if not b
              then stop w Outcome.disabled
              else with_desired tx source ok w host now (desired c.addrs))) [
                | true ↦ λ b.
                    with_desired-Good tx source ok w host now (desired c.addrs) b
                      (desired-eligible c.addrs)
                | false ↦ λ b. silent w w Outcome.disabled refl
              ]
      refl

pub reconcile-cfg :
    (tx : Texts) (source : Name → Option (List Record)) (ok : Call → Bool) (w : Writer) (c : Change)
    (now : Instant)
    → (reconcile tx source ok w c now).writer.cfg ≡ w.cfg
reconcile-cfg tx source ok w c now = (reconcile-Good tx source ok w c now).kept

-- A writer that may write has an allowlist.
abbrev pub IsGated : Config → Type 0
IsGated cfg = cfg.enabled ≡ true → cfg.dry_run ≡ false → has_none cfg.eligible ≡ false

pub gate-IsGated : (cfg : Config) → IsGated (gate cfg)
unfolding gate
gate-IsGated cfg on dry = ground arith

-- Whatever is announced, whatever the record source answers and whichever calls fail, a writer
-- whose configuration is gated, as New leaves it, calls the editor only when it is enabled, not
-- in dry run and has an allowlist; a call writes a public address only, into a record of its
-- family that is not proxied, is A or AAAA and is on the allowlist, or creates one under the
-- name of such a record and in its zone, or deletes such a record; and the configuration, with
-- its gate, stays as it was.
pub reconcile_gates :
    (tx : Texts) (source : Name → Option (List Record)) (ok : Call → Bool) (w : Writer) (c : Change)
    (now : Instant)
    → IsGated w.cfg
    → let r = reconcile tx source ok w c now in
      All (Safe w.cfg.eligible) r.calls
      × (r.calls ≢ []
          → (w.cfg.enabled ≡ true) × (w.cfg.dry_run ≡ false) × (has_none w.cfg.eligible ≡ false))
      × (r.writer.cfg ≡ w.cfg)
reconcile_gates tx source ok w c now g =
    let good = reconcile-Good tx source ok w c now in
    (good.safe, λ n. let (on, dry) = good.armed n in (on, dry, g on dry), good.kept)
