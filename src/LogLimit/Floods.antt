-- ===== src/LogLimit/Floods.antt =====
-- What internal/loglimit/loglimit.go emits of many messages.
use splitdns.Prelude.{
  ℕ, ◌+◌, ◌<◌, ◌≤◌, ◌≡◌, inl, inr, refl, ◌∙◌, ap, Bool, true, false, not, ◌&&◌, none, some, List,
  [], ◌∷◌, leb, filter, Instant, Duration, pos, since, ltb_ℤ, leb_ℤ, ◌<ℤ◌, ◌≤ℤ◌, length, arith,
  Bool-cases, Option-cases,
}
use mathlib.Core.Path.{subst}
use splitdns.Dns.{Name, name_eq, name_eq_iff}
use splitdns.LogLimit.{
  Entry, find, set, step, Handler, drop_idle, handle_entry, make_room, handle, no_entry, Event,
  handle_all, emissions, occurrences,
}
use splitdns.LogLimit.Seen.{
  find-set_same, find-set_other, length-set_new, length-set_old, find-filter,
}

-- the map is not larger than its bound
abbrev pub Bounded : Handler → Type 0
Bounded h = length h.seen ≤ h.max

make_room-shape :
    (h : Handler) (now : Instant)
    → ((make_room h now).every ≡ h.every) × ((make_room h now).max ≡ h.max)
unfolding make_room
make_room-shape h now = elim (Bool-cases (leb h.max (length h.seen))) [
  | inl b ↦ rw b (refl, refl)
  | inr b ↦ rw b (refl, refl)
]

make_room-room : (h : Handler) (now : Instant) → 1 ≤ h.max → length (make_room h now).seen < h.max
unfolding make_room drop_idle
make_room-room h now some_room = elim (Bool-cases (leb h.max (length h.seen))) [
  | inl b ↦
      let l = filter (λ (x : Name × Entry). not (leb_ℤ h.every (since now x.1.last_seen))) h.seen in
      elim (Bool-cases (leb h.max (length l))) [
        | inl d ↦ rw b (rw d (omega arith))
        | inr d ↦ rw b (rw d (ground arith))
      ]
  | inr b ↦ rw b (ground arith)
]

-- A handler that tracks at least one message never tracks more than its bound, and keeps its
-- configuration.
pub handle-Bounded :
    (h : Handler) (k : Name) (now : Instant)
    → 1 ≤ h.max
    → Bounded h
    → Bounded (handle h k now).0
      × ((handle h k now).0.every ≡ h.every)
      × ((handle h k now).0.max ≡ h.max)
unfolding handle handle_entry
handle-Bounded h k now one fits = elim (Bool-cases (leb_ℤ h.every (pos 0))) [
  | inl b ↦ rw b (fits, refl, refl)
  | inr b ↦ elim (Option-cases (find k h.seen)) [
    | inl n ↦
        let shape = make_room-shape h now in
        let room = make_room-room h now one in
        let grown =
          length-set_new k (step (make_room h now).every no_entry now).0 (make_room h now).seen in
        rw (b, n) (rw shape.1 (ground arith), shape.0, shape.1)
    | inr (e, n) ↦
        let same = length-set_old k (step h.every e now).0 e h.seen n in
        rw (b, n) (rw same fits, refl, refl)
  ]
]

-- The message of key `k` was emitted last at `t`, and has been dropped `m` times since.
record Emitted (k : Name) (t : Instant) (m : ℕ) (h : Handler) : Type 0 where
  pub entry : Entry
  pub found : find k h.seen ≡ some entry
  pub emitted : entry.emitted ≡ true
  pub at : entry.last_emit ≡ t
  pub seen : t ≤ entry.last_seen
  pub dropped : entry.suppressed ≡ m

-- The map is not reset for a message, though it may be new and the map full.
abbrev pub NotReset : Handler → Name → Instant → Type 0
NotReset h k now = find k h.seen ≡ none → length (drop_idle h.every now h.seen) < h.max

make_room-Emitted :
    (k : Name) (t : Instant) (m : ℕ) (h : Handler) (now : Instant)
    → Emitted k t m h
    → t ≤ now
    → since now t <ℤ h.every
    → length (drop_idle h.every now h.seen) < h.max
    → Emitted k t m (make_room h now)
unfolding make_room drop_idle
make_room-Emitted k t m h now e later soon room = elim (Bool-cases (leb h.max (length h.seen))) [
  | inr b ↦ rw b e
  | inl b ↦
      let p : Name × Entry → Bool = λ x. not (leb_ℤ h.every (since now x.1.last_seen)) in
      let full : leb h.max (length (filter p h.seen)) ≡ false = ground arith in
      let mono = e.seen in
      let stays : p (k, e.entry) ≡ true = ground arith in
      rw b (
        rw full (record {
          entry = e.entry;
          found = find-filter p k e.entry h.seen e.found stays;
          emitted = e.emitted;
          at = e.at;
          seen = e.seen;
          dropped = e.dropped;
        }))
]

set-Emitted :
    (k j : Name) (t : Instant) (m : ℕ) (h : Handler) (e : Entry)
    → name_eq k j ≡ false
    → Emitted k t m h
    → Emitted k t m (record h { seen = set j e h.seen })
set-Emitted k j t m h e n x = record {
  entry = x.entry;
  found = find-set_other k j e h.seen n ∙ x.found;
  emitted = x.emitted;
  at = x.at;
  seen = x.seen;
  dropped = x.dropped;
}

handle-other :
    (k j : Name) (t : Instant) (m : ℕ) (h : Handler) (now : Instant)
    → name_eq k j ≡ false
    → Emitted k t m h
    → t ≤ now
    → since now t <ℤ h.every
    → NotReset h j now
    → Emitted k t m (handle h j now).0
unfolding handle handle_entry
handle-other k j t m h now n e later soon room = elim (Bool-cases (leb_ℤ h.every (pos 0))) [
  | inl b ↦ rw b e
  | inr b ↦ elim (Option-cases (find j h.seen)) [
    | inl f ↦
        let made = make_room-Emitted k t m h now e later soon (room f) in
        rw (b, f)
          (set-Emitted k j t m (make_room h now) (step (make_room h now).every no_entry now).0 n
            made)
    | inr (x, f) ↦ rw (b, f) (set-Emitted k j t m h (step h.every x now).0 n e)
  ]
]

step-dropped :
    (every : Duration) (e : Entry) (now : Instant)
    → e.emitted ≡ true
    → since now e.last_emit <ℤ every
    → step every e now ≡ (record e { last_seen = now; suppressed = e.suppressed + 1 }, none)
unfolding step
step-dropped every e now m soon =
    let b : ltb_ℤ (since now e.last_emit) every ≡ true = ground arith in rw (m, b) refl

handle-same :
    (k : Name) (t : Instant) (m : ℕ) (h : Handler) (now : Instant)
    → Emitted k t m h
    → t ≤ now
    → since now t <ℤ h.every
    → ((handle h k now).1 ≡ none) × Emitted k t (m + 1) (handle h k now).0
unfolding handle handle_entry
handle-same k t m h now e later soon =
    let on : leb_ℤ h.every (pos 0) ≡ false = ground arith in
    let near : since now e.entry.last_emit <ℤ h.every = rw e.at soon in
    let dropped = step-dropped h.every e.entry now e.emitted near in
    rw (on, e.found)
      (rw dropped (
        refl,
        record {
          entry = record (e.entry) { last_seen = now; suppressed = e.entry.suppressed + 1 };
          found = find-set_same k _ h.seen;
          emitted = e.emitted;
          at = e.at;
          seen = later;
          dropped = ap (λ n. n + 1) e.dropped;
        },
      ))

-- Each message comes at `t` or later, and less than the interval after `t`.
abbrev pub Within : Instant → Duration → List Event → Type 0
Within t every [] = Unit
Within t every (ev ∷ evs) = (t ≤ ev.time) × (since ev.time t <ℤ every) × Within t every evs

-- The map is not reset for any of the messages.
abbrev pub NeverReset : Handler → List Event → Type 0
NeverReset h [] = Unit
NeverReset h (ev ∷ evs) = NotReset h ev.key ev.time × NeverReset (handle h ev.key ev.time).0 evs

handle-every : (h : Handler) (k : Name) (now : Instant) → (handle h k now).0.every ≡ h.every
unfolding handle handle_entry
handle-every h k now = elim (Bool-cases (leb_ℤ h.every (pos 0))) [
  | inl b ↦ rw b refl
  | inr b ↦ elim (Option-cases (find k h.seen)) [
    | inl n ↦ rw (b, n) (make_room-shape h now).0
    | inr (e, n) ↦ rw (b, n) refl
  ]
]

flood :
    (k : Name) (t : Instant) (m : ℕ) (h : Handler) (evs : List Event)
    → Emitted k t m h
    → Within t h.every evs
    → NeverReset h evs
    → (emissions k h evs ≡ 0) × Emitted k t (m + occurrences k evs) (handle_all h evs)
unfolding emissions occurrences handle_all
flood k t m h [] e w r =
    let same : m ≡ m + 0 = omega arith in (refl, subst (λ x. Emitted k t x h) same e)
flood k t m h (ev ∷ evs) e w r =
    let h1 = (handle h ev.key ev.time).0 in
    let w1 : Within t h1.every evs = rw (handle-every h ev.key ev.time) w.2 in
    elim (Bool-cases (name_eq k ev.key)) [
      | inl n ↦
          let same : k ≡ ev.key = (name_eq_iff k ev.key).0 n in
          let one : ((handle h ev.key ev.time).1 ≡ none) × Emitted k t (m + 1) h1 =
            subst
              (λ j. ((handle h j ev.time).1 ≡ none) × Emitted k t (m + 1) (handle h j ev.time).0)
              same (handle-same k t m h ev.time e w.0 w.1) in
          let (none_left, after) = flood k t (m + 1) h1 evs one.1 w1 r.1 in
          let sum : m + 1 + occurrences k evs ≡ m + (1 + occurrences k evs) = omega arith in
          rw (n, one.0) (none_left, subst (λ x. Emitted k t x (handle_all h1 evs)) sum after)
      | inr n ↦
          let other = handle-other k ev.key t m h ev.time n e w.0 w.1 r.0 in
          rw n (flood k t m h1 evs other w1 r.1)
    ]

step-emitted :
    (every : Duration) (e : Entry) (now : Instant) (n : ℕ)
    → (step every e now).1 ≡ some n
    → step every e now ≡ (
      record { emitted = true; last_emit = now; last_seen = now; suppressed = 0 },
      some e.suppressed,
    )
unfolding step
step-emitted every e now n h =
    elim (Bool-cases (e.emitted && ltb_ℤ (since now e.last_emit) every)) [
      | inl b ↦ absurd (ground arith)
      | inr b ↦ rw b refl
    ]

handle_entry-emitted :
    (g : Handler) (k : Name) (e : Entry) (t : Instant) (n : ℕ)
    → (handle_entry g k e t).1 ≡ some n
    → Emitted k t 0 (handle_entry g k e t).0
unfolding handle_entry
handle_entry-emitted g k e t n got = rw (step-emitted g.every e t n got) (record {
  entry = record { emitted = true; last_emit = t; last_seen = t; suppressed = 0 };
  found = find-set_same k _ g.seen;
  emitted = refl;
  at = refl;
  seen = omega arith;
  dropped = refl;
})

handle-emitted :
    (h : Handler) (k : Name) (t : Instant) (n : ℕ)
    → pos 0 <ℤ h.every
    → (handle h k t).1 ≡ some n
    → Emitted k t 0 (handle h k t).0
unfolding handle
handle-emitted h k t n on got =
    let b : leb_ℤ h.every (pos 0) ≡ false = ground arith in
    elim (Option-cases (find k h.seen)) [
      | inl f ↦ rw (b, f) (handle_entry-emitted (make_room h t) k no_entry t n (rw (b, f) at got))
      | inr (e, f) ↦ rw (b, f) (handle_entry-emitted h k e t n (rw (b, f) at got))
    ]

-- The first message after the interval is emitted, with the count of those dropped.
handle-due :
    (k : Name) (t : Instant) (m : ℕ) (h : Handler) (now : Instant)
    → Emitted k t m h
    → pos 0 <ℤ h.every
    → h.every ≤ℤ since now t
    → (handle h k now).1 ≡ some m
unfolding handle handle_entry step
handle-due k t m h now e on due =
    let b : leb_ℤ h.every (pos 0) ≡ false = ground arith in
    let late : ltb_ℤ (since now e.entry.last_emit) h.every ≡ false = rw e.at (ground arith) in
    rw (b, e.found) (rw (e.emitted, late) (ap some e.dropped))

handle_all-every : (g : Handler) (l : List Event) → (handle_all g l).every ≡ g.every
unfolding handle_all
handle_all-every g [] = refl
handle_all-every g (ev ∷ l) =
    handle_all-every (handle g ev.key ev.time).0 l ∙ handle-every g ev.key ev.time

-- Once a message is emitted, with limiting on, no message of its key is emitted within the interval,
-- whatever other messages come in it too, as long as the map is not reset for one of them; and where
-- the next message after these is one of the key, after the interval, it is emitted with the number
-- of those that were dropped.
pub one_per_interval :
    (h : Handler) (k : Name) (t now : Instant) (n : ℕ) (evs : List Event)
    → pos 0 <ℤ h.every
    → (handle h k t).1 ≡ some n
    → Within t h.every evs
    → NeverReset (handle h k t).0 evs
    → h.every ≤ℤ since now t
    → (emissions k (handle h k t).0 evs ≡ 0)
      × ((handle (handle_all (handle h k t).0 evs) k now).1 ≡ some (occurrences k evs))
one_per_interval h k t now n evs on got w r due =
    let h1 = (handle h k t).0 in
    let every = handle-every h k t in
    let w1 : Within t h1.every evs = rw every w in
    let (quiet, after) = flood k t 0 h1 evs (handle-emitted h k t n on got) w1 r in
    let all : (handle_all h1 evs).every ≡ h.every = handle_all-every h1 evs ∙ every in
    let count : 0 + occurrences k evs ≡ occurrences k evs = omega arith in
    (quiet, handle-due k t _ (handle_all h1 evs) now after (rw all on) (rw all due) ∙ ap some count)
