-- ===== src/AnsCache/Entry.antt =====
-- Configuration, keys and entries of internal/anscache/anscache.go. `MaxEntries` is a Go `int`
-- that is only compared after it was made positive, so a negative one does what 0 does.
use splitdns.Prelude.{
  ℕ, ◌≡◌, ◌↔◌, Bool, true, false, ◌&&◌, ◌||◌, not, Option, none, some, List, [], ◌∷◌, if◌then◌else◌,
  leb, ◌==◌, pos, seconds, leb_ℤ, ltb_ℤ, Instant, Duration, arith,
}
use splitdns.Dns.{Name, Msg, Question, name_eq, name_eq_iff, to_lower, type_any, class_inet}

-- `Config`
pub record Config : Type 0 where
  pub max_entries : ℕ
  pub min_ttl : Duration
  pub max_ttl : Duration
  pub neg_min_ttl : Duration
  pub neg_max_ttl : Duration
  pub fail_ttl : Duration
  pub serve_stale : Bool
  pub stale_ttl : Duration
  pub stale_max_age : Duration

-- `Defaults`
abbrev pub defaults : Config
defaults = record {
  max_entries = 10000;
  min_ttl = seconds 5;
  max_ttl = seconds 86400;
  neg_min_ttl = seconds 5;
  neg_max_ttl = seconds 3600;
  fail_ttl = seconds 5;
  serve_stale = true;
  stale_ttl = seconds 30;
  stale_max_age = seconds 86400;
}

-- `if x <= 0 { x = d }` of `New`
abbrev pub or_default : Duration → Duration → Duration
or_default x d = if leb_ℤ x (pos 0) then d else x

-- the configuration that `New` keeps
unfoldable pub normalize : Config → Config
normalize c =
    let fail_ttl = or_default c.fail_ttl defaults.fail_ttl in
    record {
      max_entries = if leb c.max_entries 0 then defaults.max_entries else c.max_entries;
      min_ttl = or_default c.min_ttl defaults.min_ttl;
      max_ttl = or_default c.max_ttl defaults.max_ttl;
      neg_min_ttl = or_default c.neg_min_ttl defaults.neg_min_ttl;
      neg_max_ttl = or_default c.neg_max_ttl defaults.neg_max_ttl;
      fail_ttl = if ltb_ℤ (seconds 300) fail_ttl then seconds 300 else fail_ttl;
      serve_stale = c.serve_stale;
      stale_ttl = or_default c.stale_ttl defaults.stale_ttl;
      stale_max_age = or_default c.stale_max_age defaults.stale_max_age;
    }

-- `Key`
pub record Key : Type 0 where
  pub name : Name
  pub qtype : ℕ
  pub qclass : ℕ
  pub dnssec_ok : Bool

abbrev bool_eq : Bool → Bool → Bool
bool_eq true b = b
bool_eq false b = not b

-- Go's `==` on keys
unfoldable pub key_eq : Key → Key → Bool
unfolding name_eq
key_eq k j =
    name_eq k.name j.name
    && (k.qtype == j.qtype && (k.qclass == j.qclass && bool_eq k.dnssec_ok j.dnssec_ok))

pub key_eq_iff : (k j : Key) → (key_eq k j ≡ true) ↔ (k ≡ j)
unfolding key_eq
key_eq_iff k j = ground (arith, name_eq_iff k.name j.name)

pub key_eq_refl : (k : Key) → key_eq k k ≡ true
key_eq_refl k = ground (arith, key_eq_iff k k)

-- `KeyFor` behind its test for exactly one question
unfoldable pub key_of : Option Bool → List Question → Option Key
unfolding to_lower
key_of edns_do (q ∷ []) =
    if q.qtype == type_any || not (q.qclass == class_inet)
    then none
    else some (record {
      name = to_lower q.name;
      qtype = q.qtype;
      qclass = q.qclass;
      dnssec_ok = elim edns_do [ none ↦ false | some d ↦ d ];
    })
key_of edns_do _ = none

-- `KeyFor`; `edns_do` is the library's `IsEdns0` followed by `Do` on the record that it finds.
unfoldable pub key_for : (Msg → Option Bool) → Msg → Option Key
key_for edns_do req = key_of (edns_do req) req.question

-- `Result`
pub data Result : Type 0 where
  miss fresh stale fail : Result

-- `kind`
pub data Kind : Type 0 where
  kind_positive kind_negative kind_fail : Kind

-- `entry`; the message is nil for `kind_fail`
pub record Entry : Type 0 where
  pub key : Key
  pub msg : Option Msg
  pub inserted_at : Instant
  pub ttl : Duration
  pub kind : Kind
  pub hits : ℕ

-- `Stats`, without the two fields that are filled in when it is read
pub record Stats : Type 0 where
  pub hits : ℕ
  pub misses : ℕ
  pub stale_serves : ℕ
  pub fail_hits : ℕ
  pub inserts : ℕ
  pub evictions : ℕ

abbrev pub no_stats : Stats
no_stats = record {
  hits = 0;
  misses = 0;
  stale_serves = 0;
  fail_hits = 0;
  inserts = 0;
  evictions = 0;
}
