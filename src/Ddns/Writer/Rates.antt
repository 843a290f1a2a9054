-- ===== src/Ddns/Writer/Rates.antt =====
-- How often the writer of internal/ddns/ddns.go writes.
use splitdns.Prelude.{
  ◌≡◌, ◌≢◌, ◌⊎◌, inl, inr, refl, sym, ap, ◌∙◌, Bool, true, false, not, Option, none, some, List, [],
  ◌∷◌, if◌then◌else◌, filter, All, Instant, Duration, pos, since, ◌<ℤ◌, arith, Bool-cases,
  Option-cases,
}
use mathlib.Core.Path.{subst}
use splitdns.Netmatch.{Addr}
use splitdns.Dns.{Name, name_eq, name_eq_iff, to_lower}
use splitdns.Ddns.Plan.{Texts, Record, Plan, build_plan, is_empty}
use splitdns.Ddns.Writer.{
  Outcome, TokenBucket, bucket_allow, Writer, Call, Reconciled, stop, write, stamp_host, guarded,
  too_soon, commit, with_records, with_desired, desired, Change, reconcile, is_eligible,
}
use splitdns.Ddns.Writer.Gates.{reconcile-cfg}

-- A write is remembered: if calls are made at `t`, the host's last write is at `t`.
abbrev Stamped : Name → Instant → Reconciled → Type 0
Stamped host t r = (r.calls ≡ []) ⊎ (r.writer.last_by_host host ≡ some t)

stamp_host-same :
    (w : Writer) (host : Name) (t : Instant) → (stamp_host w host t).last_by_host host ≡ some t
stamp_host-same w host t = rw ((name_eq_iff host host).1 refl) refl

write-last :
    (ok : Call → Bool) (w : Writer) (host : Name) (p : Plan)
    → (write ok w host p).writer.last_by_host ≡ w.last_by_host
unfolding write
write-last ok w host p = elim (Bool-cases w.cfg.dry_run) [ inl b ↦ rw b refl | inr b ↦ rw b refl ]

guarded-Stamped :
    (ok : Call → Bool) (w : Writer) (host : Name) (p : Plan) (t : Instant) (o : Option TokenBucket)
    → Stamped host t (guarded ok w host p t o)
unfolding guarded
guarded-Stamped ok w host p t none = inr (
    ap (λ (f : Name → Option Instant). f host) (write-last ok (stamp_host w host t) host p)
    ∙ stamp_host-same w host t)
guarded-Stamped ok w host p t (some b) =
    let r = bucket_allow b t in
    let w1 = record w { global = some r.0 } in
    elim (Bool-cases r.1) [
      | inl g ↦ rw g (
          inr (
            ap (λ (f : Name → Option Instant). f host) (write-last ok (stamp_host w1 host t) host p)
            ∙ stamp_host-same w1 host t))
      | inr g ↦ rw g (inl refl)
    ]

commit-Stamped :
    (ok : Call → Bool) (w : Writer) (host : Name) (p : Plan) (t : Instant)
    → Stamped host t (commit ok w host p t)
unfolding commit
commit-Stamped ok w host p t = elim (Bool-cases (is_empty p)) [
  | inl b ↦ rw b (inl refl)
  | inr b ↦ elim (Bool-cases (too_soon w.cfg.rate (w.last_by_host host) t)) [
    | inl d ↦ rw (b, d) (inl refl)
    | inr d ↦ rw (b, d) (guarded-Stamped ok w host p t w.global)
  ]
]

-- What holds where no call is made, and of `commit` for every plan, holds of `Reconcile`.
module _ (P : Reconciled → Type 0) (ok : Call → Bool) (w : Writer) (t : Instant) (host : Name)
    (silent : (o : Outcome) → P (stop w o)) (made : (p : Plan) → P (commit ok w host p t)) where
  with_records-by :
      (tx : Texts) (addrs : List Addr) (rs : List Record) → P (with_records tx ok w host addrs t rs)
  unfolding with_records
  with_records-by tx addrs [] = silent Outcome.not_eligible
  with_records-by tx addrs (first ∷ records) = made (build_plan tx first records addrs)

  with_desired-by :
      (tx : Texts) (source : Name → Option (List Record)) (addrs : List Addr)
      → P (with_desired tx source ok w host t addrs)
  unfolding with_desired
  with_desired-by tx source [] = silent Outcome.no_public
  with_desired-by tx source (a ∷ l) = elim (Option-cases (source host)) [
    | inl n ↦ rw (n, with_desired) (silent Outcome.failed)
    | inr (rs, n) ↦
        rw (n, with_desired) (with_records-by tx (a ∷ l) (filter (is_eligible w.cfg.eligible) rs))
  ]

  reconcile-by :
      (tx : Texts) (source : Name → Option (List Record)) (c : Change)
      → to_lower (tx.trim c.host) ≡ host
      → P (reconcile tx source ok w c t)
  unfolding reconcile
  reconcile-by tx source c same =
      elim w.cfg.enabled
        as (λ b. P (
          if not b
          then stop w Outcome.disabled
          else with_desired tx source ok w (to_lower (tx.trim c.host)) t (desired c.addrs))) [
            | true ↦
                subst (λ h. P (with_desired tx source ok w h t (desired c.addrs))) (sym same)
                  (with_desired-by tx source (desired c.addrs))
            | false ↦ silent Outcome.disabled
          ]

-- An announcement, with what the record source answers, which calls succeed, and the time.
pub record Turn : Type 0 where
  pub change : Change
  pub source : Name → Option (List Record)
  pub succeeds : Call → Bool
  pub time : Instant

abbrev pub take_turn : Texts → Writer → Turn → Reconciled
take_turn tx w x = reconcile tx x.source x.succeeds w x.change x.time

-- the host that an announcement is for
abbrev pub host_of : Texts → Change → Name
host_of tx c = to_lower (tx.trim c.host)

-- Of the announcements, one after the other, those for the host lead to no calls.
abbrev pub IsSilent : Texts → Name → Writer → List Turn → Type 0
IsSilent tx host w [] = Unit
IsSilent tx host w (x ∷ xs) =
    (host_of tx x.change ≡ host → (take_turn tx w x).calls ≡ [])
    × IsSilent tx host (take_turn tx w x).writer xs

-- The host was written last at `t`, and is not written now.
abbrev Rests : Name → Name → Instant → Reconciled → Type 0
Rests host other t r = (other ≡ host → r.calls ≡ []) × (r.writer.last_by_host host ≡ some t)

-- A write for another host leaves the time of the last write for this one.
write-other :
    (ok : Call → Bool) (w : Writer) (host other : Name) (p : Plan) (t now : Instant)
    → name_eq host other ≡ false
    → w.last_by_host host ≡ some t
    → (write ok (stamp_host w other now) other p).writer.last_by_host host ≡ some t
write-other ok w host other p t now differ last =
    ap (λ (f : Name → Option Instant). f host) (write-last ok (stamp_host w other now) other p)
    ∙ rw differ last

guarded-other :
    (ok : Call → Bool) (w : Writer) (host other : Name) (p : Plan) (t now : Instant)
    (o : Option TokenBucket)
    → name_eq host other ≡ false
    → w.last_by_host host ≡ some t
    → (guarded ok w other p now o).writer.last_by_host host ≡ some t
unfolding guarded
guarded-other ok w host other p t now none differ last =
    write-other ok w host other p t now differ last
guarded-other ok w host other p t now (some b) differ last =
    let r = bucket_allow b now in
    let w1 : Writer = record w { global = some r.0 } in
    elim (Bool-cases r.1) [
      | inl g ↦ rw g (write-other ok w1 host other p t now differ last)
      | inr g ↦ rw g last
    ]

commit-Rests :
    (ok : Call → Bool) (w : Writer) (host other : Name) (p : Plan) (t now : Instant)
    → pos 0 <ℤ w.cfg.rate
    → since now t <ℤ w.cfg.rate
    → w.last_by_host host ≡ some t
    → Rests host other t (commit ok w other p now)
unfolding commit
commit-Rests ok w host other p t now on soon last =
    let early : too_soon w.cfg.rate (some t) now ≡ true = ground (arith, on, soon) in
    elim (Bool-cases (is_empty p)) [
      | inl b ↦ rw b (λ _. refl, last)
      | inr b ↦ elim (Bool-cases (too_soon w.cfg.rate (w.last_by_host other) now)) [
        | inl d ↦ rw (b, d) (λ _. refl, last)
        | inr d ↦
            let apart : other ≡ host → ⊥ = λ same.
              let there : w.last_by_host other ≡ some t = ap (λ h. w.last_by_host h) same ∙ last in
              cc (ap (λ l. too_soon w.cfg.rate l now) there, early, d) in
            let differ : name_eq host other ≡ false = elim (Bool-cases (name_eq host other)) [
              | inl e ↦ absurd (apart (sym ((name_eq_iff host other).0 e)))
              | inr e ↦ e
            ] in
            rw (b, d)
              (
                λ same. absurd (apart same),
                guarded-other ok w host other p t now w.global differ last,
              )
      ]
    ]

turns-IsSilent :
    (tx : Texts) (host : Name) (t : Instant) (w : Writer) (rate : Duration) (turns : List Turn)
    → w.cfg.rate ≡ rate
    → w.last_by_host host ≡ some t
    → pos 0 <ℤ rate
    → All (λ x. since x.time t <ℤ rate) turns
    → IsSilent tx host w turns
turns-IsSilent tx host t w rate [] same last on soon = tt
turns-IsSilent tx host t w rate (x ∷ xs) same last on (soon, later) =
    let other = host_of tx x.change in
    let r = take_turn tx w x in
    let on1 : pos 0 <ℤ w.cfg.rate = rw same on in
    let soon1 : since x.time t <ℤ w.cfg.rate = rw same soon in
    let (quiet, last1) : Rests host other t r =
      reconcile-by (Rests host other t) x.succeeds w x.time other (λ o. (λ _. refl, last))
        (λ p. commit-Rests x.succeeds w host other p t x.time on1 soon1 last) tx x.source x.change
        refl in
    let same1 : r.writer.cfg.rate ≡ rate =
      ap (λ c. c.rate) (reconcile-cfg tx x.source x.succeeds w x.change x.time) ∙ same in
    (quiet, turns-IsSilent tx host t r.writer rate xs same1 last1 on later)

-- When calls were made for a host, none is made for it within the configured interval after that: not
-- by any of the announcements that follow, for this and for other hosts in any order, whatever the
-- record source answers to them and whichever calls succeed.
pub per_host_rate :
    (tx : Texts) (w : Writer) (x : Turn) (turns : List Turn)
    → (take_turn tx w x).calls ≢ []
    → pos 0 <ℤ w.cfg.rate
    → All (λ y. since y.time x.time <ℤ w.cfg.rate) turns
    → IsSilent tx (host_of tx x.change) (take_turn tx w x).writer turns
per_host_rate tx w x turns wrote on soon =
    let host = host_of tx x.change in
    let r = take_turn tx w x in
    let stamped : Stamped host x.time r =
      reconcile-by (Stamped host x.time) x.succeeds w x.time host (λ o. inl refl)
        (λ p. commit-Stamped x.succeeds w host p x.time) tx x.source x.change refl in
    let last : r.writer.last_by_host host ≡ some x.time = elim stamped [
      | inl e ↦ absurd (wrote e)
      | inr e ↦ e
    ] in
    let rate = ap (λ c. c.rate) (reconcile-cfg tx x.source x.succeeds w x.change x.time) in
    turns-IsSilent tx host x.time r.writer w.cfg.rate turns rate last on soon
