-- ===== src/Tests/Mdns.antt =====
-- The mDNS cache on concrete announcements.
use splitdns.Prelude.{◌*◌, ◌<◌, ◌≤◌, second, none, true, ◌≡◌, refl, List, [], ◌∷◌, All, pos, arith}
use splitdns.Netmatch.{Addr, v4}
use splitdns.Dns.{Name, name_eq}
use splitdns.Tests.Library.{library}
use splitdns.Mdns.{trust_none, trust_weak, trust_strong, HostEntry, HostCache}
use splitdns.Mdns.Trusted.{trusted_addrs}
use splitdns.Mdns.Events.{Event, announced, expired, run, IsForgeable, trusted_addrs-run}
use splitdns.Mdns.View.{served_ttl, view}
use splitdns.Mdns.Times.{IsOver, served_ttl-IsOver}
use splitdns.Mdns.Bounds.{IsBounded, run-IsBounded}

-- An address shows as one letter.
abbrev show : Addr → Name
show a = b'a' ∷ []

abbrev nas : Name
nas = b'n' ∷ []

-- the host n was announced at 1, with a signature
abbrev cache : HostCache
cache = record {
  hosts = [];
  stale_grace = pos 0;
  goodbye_grace = pos 0;
  trusted = (nas, record { addrs = v4 10 ∷ []; seen = 1 }) ∷ [];
  trusted_grace = pos 0;
  max_trusted = 1;
}

-- a spoofed address, a spoofed goodbye, and an expiry
abbrev flood : List Event
flood =
    announced (record { host = nas; addrs = v4 66 ∷ []; ttl = 4500 }) 2 trust_none
    ∷ announced (record { host = nas; addrs = v4 66 ∷ []; ttl = 0 }) 3 trust_weak
    ∷ expired 9_000_000_000_000_000
    ∷ []

flood-IsForgeable : All IsForgeable flood
flood-IsForgeable = (tt, (tt, (tt, tt)))

trusted_addrs-run_example : trusted_addrs (run show cache flood) nas 4 ≡ trusted_addrs cache nas 4
trusted_addrs-run_example = trusted_addrs-run show cache flood nas 4 refl flood-IsForgeable

-- another host with a signature, for which the store has no room
abbrev signed : List Event
signed =
    announced (record { host = b'm' ∷ []; addrs = v4 11 ∷ []; ttl = 120 }) 2 trust_strong ∷ flood

cache-IsBounded : IsBounded 1 cache
cache-IsBounded = (((omega arith), tt), ((omega arith), (refl, tt)), refl)

run-IsBounded_example : IsBounded 1 (run show cache signed)
run-IsBounded_example = run-IsBounded show 1 cache signed (omega arith) cache-IsBounded

-- at 40, past its announced TTL and kept for a minute more
abbrev stale : HostEntry
stale = record {
  addrs = v4 10 ∷ [];
  services = [];
  info = [];
  fresh_until = 40 * second;
  expiry = 100 * second;
  last_seen = 0;
  notified = [];
}

served_ttl-IsOver_example :
    IsOver (100 * second) (60 * second) (served_ttl stale (60 * second))
    × (40 * second < 60 * second → served_ttl stale (60 * second) ≤ 30)
served_ttl-IsOver_example = served_ttl-IsOver stale (60 * second) (omega arith)

-- The view has the trusted address under the name of its host.
view_of_the_cache :
    (view library (λ a. none) cache 4).forward
    ≡ (
      nas,
      record {
        name = b'n' ∷ b'.' ∷ b'l' ∷ b'o' ∷ b'c' ∷ b'a' ∷ b'l' ∷ b'.' ∷ [];
        rtype = 1;
        ttl = 120;
        class = 1;
        content = library.show_addr (v4 10);
        priority = 0;
        weight = 0;
        port = 0;
        target = [];
        trusted = true;
      }
          ∷ [],
    )
      ∷ []
unfolding view trusted_addrs name_eq
view_of_the_cache = refl
