-- ===== src/Mdns.antt =====
-- The cache of mDNS hosts, internal/mdns/cache.go, and its trusted store, internal/mdns/trust.go. The
-- mutex makes each operation one step, and a map is the list of its entries, in some order in which
-- it may be ranged over. What `onChange` is called with is returned, in order; without a listener
-- nothing is told.
pub mod Trusted
pub mod Hosts
pub mod Maps
pub mod View
pub mod Times
pub mod Events
pub mod Bounds
use splitdns.Prelude.{
  ℕ, ◌+◌, ◌*◌, Bool, true, false, ◌&&◌, ◌||◌, not, Option, none, some, List, [], ◌∷◌, ◌++◌,
  if◌then◌else◌, ltb, ◌==◌, any, Instant, Duration, seconds,
}
use splitdns.Netmatch.{Addr, invalid, v4, v6}
use splitdns.Dns.{Name, name_eq}
use splitdns.Ddns.Plan.{name_lt, sort_by}

-- `Announcement`
pub record Announcement : Type 0 where
  pub host : Name
  pub addrs : List Addr
  pub ttl : ℕ

-- `Trust`
pub data Trust : Type 0 where
  trust_none trust_weak trust_strong : Trust

-- `triggersDDNS`
unfoldable pub triggers_ddns : Trust → Bool
triggers_ddns trust_none = false
triggers_ddns _ = true

-- `isStrong`
unfoldable pub is_strong : Trust → Bool
is_strong trust_strong = true
is_strong _ = false

-- `trustedEntry`
pub record TrustedEntry : Type 0 where
  pub addrs : List Addr
  pub seen : Instant

-- `svcInfo`
pub record SvcInfo : Type 0 where
  pub port : ℕ
  pub text : List Name

-- `entry`
pub record HostEntry : Type 0 where
  pub addrs : List Addr
  pub services : List (Name × SvcInfo)
  pub info : Name
  pub fresh_until : Instant
  pub expiry : Instant
  pub last_seen : Instant
  pub notified : Name

-- `Cache`
pub record HostCache : Type 0 where
  pub hosts : List (Name × HostEntry)
  pub stale_grace : Duration
  pub goodbye_grace : Duration
  pub trusted : List (Name × TrustedEntry)
  pub trusted_grace : Duration
  pub max_trusted : ℕ

abbrev pub burst_window : Duration
burst_window = seconds 5

abbrev pub max_hosts : ℕ
max_hosts = 4096

abbrev pub max_ttl : ℕ
max_ttl = 4500

-- `==` on addresses
unfoldable pub addr_eq : Addr → Addr → Bool
unfolding name_eq
addr_eq invalid invalid = true
addr_eq (v4 a) (v4 b) = a == b
addr_eq (v6 a z) (v6 b y) = a == b && name_eq z y
addr_eq _ _ = false

-- `Addr.Less`: by the length of the address, its value and its zone
unfoldable pub addr_less : Addr → Addr → Bool
unfolding name_lt
addr_less invalid invalid = false
addr_less invalid _ = true
addr_less (v4 a) (v4 b) = ltb a b
addr_less (v4 _) (v6 _ _) = true
addr_less (v6 a z) (v6 b y) = ltb a b || (a == b && name_lt z y)
addr_less _ _ = false

-- addresses added to a set
unfoldable pub add_addrs : List Addr → List Addr → List Addr
unfolding addr_eq
add_addrs set [] = set
add_addrs set (a ∷ rest) =
    add_addrs (if any (λ b. addr_eq a b) set then set else set ++ (a ∷ [])) rest

-- the `sort.Slice` of a set
unfoldable pub sorted : List Addr → List Addr
unfolding sort_by addr_less
sorted set = sort_by (λ a b. addr_less a b) set

-- `joinAddrs`; `show` is `Addr.String`
unfoldable pub join_addrs : (Addr → Name) → List Addr → Name
join_addrs show [] = []
join_addrs show (a ∷ []) = show a
join_addrs show (a ∷ b ∷ rest) = show a ++ (b',' ∷ join_addrs show (b ∷ rest))

-- `delete(m, k)`
unfoldable pub erase : {A : Type 0} → Name → List (Name × A) → List (Name × A)
unfolding name_eq
erase k [] = []
erase k ((n, a) ∷ rest) = let later = erase k rest in if name_eq k n then later else (n, a) ∷ later

abbrev pub is_nil : Name → Bool
is_nil [] = true
is_nil (_ ∷ _) = false

-- the loops of `evictOldestLocked` and `evictOldestTrustedLocked`
unfoldable pub oldest : {A : Type 0} → (A → Instant) → Name → Instant → List (Name × A) → Name
oldest time victim t [] = victim
oldest time victim t ((h, e) ∷ rest) =
    let older = is_nil victim || ltb (time e) t in
    oldest time (if older then h else victim) (if older then time e else t) rest

-- the map without its oldest entry, and the key of that
unfoldable pub evict_oldest :
    {A : Type 0} → (A → Instant) → List (Name × A) → List (Name × A) × Name
unfolding oldest erase
evict_oldest time m =
    let victim = oldest time [] 0 m in (if is_nil victim then m else erase victim m, victim)
