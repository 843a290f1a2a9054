-- ===== src/LogLimit.antt =====
-- The limiter of log messages, internal/loglimit/loglimit.go. The map of what was seen is an
-- association list; the reading of the clock is the argument `now`. A handler that `WithAttrs` or
-- `WithGroup` derives shares the map and only adds to the preset part of the key.
pub mod Seen
pub mod Floods
use splitdns.Prelude.{
  ℕ, ◌+◌, ◌<◌, ◌≤◌, ◌≡◌, Bool, true, false, not, ◌&&◌, Option, none, some, List, [], ◌∷◌, ◌++◌,
  if◌then◌else◌, ltb, leb, filter, Instant, Duration, pos, since, ltb_ℤ, leb_ℤ, length,
}
use splitdns.Dns.{Name, name_eq}

-- `entry`
pub record Entry : Type 0 where
  pub emitted : Bool
  pub last_emit : Instant
  pub last_seen : Instant
  pub suppressed : ℕ

-- `map[string]*entry`
abbrev pub Seen : Type 0
Seen = List (Name × Entry)

-- `seen[key]`
unfoldable pub find : Name → Seen → Option Entry
unfolding name_eq
find k [] = none
find k ((j, e) ∷ l) = if name_eq k j then some e else find k l

-- `seen[key] = e`, and what is written through the pointer that the map holds
unfoldable pub set : Name → Entry → Seen → Seen
unfolding name_eq
set k e [] = (k, e) ∷ []
set k e ((j, f) ∷ l) = let rest = set k e l in if name_eq k j then (k, e) ∷ l else (j, f) ∷ rest

-- `Handler`, without the inner handler
pub record Handler : Type 0 where
  pub every : Duration
  pub max : ℕ
  pub seen : Seen

abbrev pub default_max_keys : ℕ
default_max_keys = 2048

-- `New`; a negative `maxKeys` is 0 here
unfoldable pub new_handler : Duration → ℕ → Handler
new_handler every max_keys = record {
  every = every;
  max = (if leb max_keys 0 then default_max_keys else max_keys);
  seen = [];
}

-- the loop of `evictLocked`
unfoldable pub drop_idle : Duration → Instant → Seen → Seen
drop_idle every now l = filter (λ (x : Name × Entry). not (leb_ℤ every (since now x.1.last_seen))) l

-- `evictLocked`
unfoldable pub evict_locked : Handler → Instant → Handler
unfolding drop_idle
evict_locked h now =
    let l = drop_idle h.every now h.seen in
    record h { seen = (if leb h.max (length l) then [] else l) }

abbrev pub no_entry : Entry
no_entry = record { emitted = false; last_emit = 0; last_seen = 0; suppressed = 0 }

-- `Handle` on the entry of the key: the entry, and whether the message is emitted, with what count
unfoldable pub step : Duration → Entry → Instant → Entry × Option ℕ
step every e now =
    if e.emitted && ltb_ℤ (since now e.last_emit) every
    then (record e { last_seen = now; suppressed = e.suppressed + 1 }, none)
    else (
      record { emitted = true; last_emit = now; last_seen = now; suppressed = 0 },
      some e.suppressed,
    )

unfoldable pub handle_entry : Handler → Name → Entry → Instant → Handler × Option ℕ
unfolding step set
handle_entry h k e now = let r = step h.every e now in (record h { seen = set k r.0 h.seen }, r.1)

-- room for a new key
unfoldable pub make_room : Handler → Instant → Handler
unfolding evict_locked
make_room h now = if leb h.max (length h.seen) then evict_locked h now else h

-- `Handle`: none is a message that was dropped, `some n` one that is emitted, with the attribute
-- `suppressed=n` if n is not 0
unfoldable pub handle : Handler → Name → Instant → Handler × Option ℕ
unfolding make_room handle_entry find
handle h k now = if leb_ℤ h.every (pos 0) then (h, some 0) else elim (find k h.seen) [
  | none ↦ handle_entry (make_room h now) k no_entry now
  | some e ↦ handle_entry h k e now
]

-- Messages by their keys, at the times that the clock shows.
pub record Event : Type 0 where
  pub key : Name
  pub time : Instant

-- the handler after the messages
unfoldable pub handle_all : Handler → List Event → Handler
unfolding handle
handle_all h [] = h
handle_all h (ev ∷ evs) = handle_all (handle h ev.key ev.time).0 evs

-- how many of the messages of a key are emitted
unfoldable pub emissions : Name → Handler → List Event → ℕ
unfolding handle name_eq
emissions k h [] = 0
emissions k h (ev ∷ evs) =
    let r = handle h ev.key ev.time in
    let rest = emissions k r.0 evs in
    if name_eq k ev.key then (elim r.1 [ none ↦ rest | some n ↦ 1 + rest ]) else rest

-- how many messages have the key
unfoldable pub occurrences : Name → List Event → ℕ
unfolding name_eq
occurrences k [] = 0
occurrences k (ev ∷ evs) =
    let rest = occurrences k evs in if name_eq k ev.key then 1 + rest else rest

-- a `slog.Attr` as its key and the text of its value
abbrev pub Attr : Type 0
Attr = Name × Name

-- `writeAttr`
unfoldable pub write_attr : Attr → Name
write_attr (k, v) = 0x1f ∷ (k ++ (b'=' ∷ v))

write_attrs : List Attr → Name
unfolding write_attr
write_attrs [] = []
write_attrs (a ∷ l) = write_attr a ++ write_attrs l

-- `key`: the level, the message, the handler's preset part and the attributes
unfoldable pub key : Name → Name → Name → List Attr → Name
unfolding write_attrs
key level message preset attrs = level ++ (0x1f ∷ (message ++ (preset ++ write_attrs attrs)))
