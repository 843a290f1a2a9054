-- ===== src/Mdns/Hosts.antt =====
-- `Apply`, `ApplyService`, `ApplyInfo` and `Expire` of internal/mdns/cache.go.
use splitdns.Prelude.{
  ℕ, Bool, true, false, ◌&&◌, ◌||◌, not, Option, none, some, List, [], ◌∷◌, ◌++◌, if◌then◌else◌,
  leb, ltb, ◌==◌, length, Instant, since, add, seconds, ltb_ℤ, pos,
}
use splitdns.Netmatch.{Addr}
use splitdns.Dns.{Name, name_eq}
use splitdns.Model.{get, put}
use splitdns.Mdns.{
  Announcement, Trust, triggers_ddns, is_strong, SvcInfo, HostEntry, HostCache, burst_window,
  max_hosts, max_ttl, add_addrs, sorted, join_addrs, is_nil, evict_oldest,
}
use splitdns.Mdns.Trusted.{apply_trusted, expire_trusted}

-- What `onChange` is called with, in order.
abbrev pub Calls : Type 0
Calls = List (Name × List Addr)

-- an announced TTL, with what is done to that of a goodbye that is not honoured
unfoldable pub clamp_ttl : ℕ → Bool → ℕ
clamp_ttl ttl goodbye =
    let t = if ttl == 0 && not goodbye then 120 else ttl in if ltb max_ttl t then max_ttl else t

abbrev new_entry : HostEntry
new_entry = record {
  addrs = [];
  services = [];
  info = [];
  fresh_until = 0;
  expiry = 0;
  last_seen = 0;
  notified = [];
}

-- the hosts with room for a new one, and who was evicted for it
unfoldable pub admit : List (Name × HostEntry) → List (Name × HostEntry) × Name
unfolding evict_oldest
admit hosts =
    if leb max_hosts (length hosts) then evict_oldest (λ e. e.last_seen) hosts else (hosts, [])

-- the entry of a host after an announcement, before `diffLocked`
unfoldable pub refreshed_entry :
    HostCache → Announcement → Instant → HostEntry → List Addr → HostEntry
unfolding add_addrs clamp_ttl
refreshed_entry c a now e kept =
    let goodbye = a.ttl == 0 && ltb_ℤ (pos 0) c.goodbye_grace in
    let until = add now (seconds (clamp_ttl a.ttl goodbye)) in
    record e {
      addrs = add_addrs kept a.addrs;
      last_seen = now;
      fresh_until = if goodbye then now else until;
      expiry = if goodbye then add now c.goodbye_grace else add until c.stale_grace;
    }

-- `diffLocked`
unfoldable pub diff : (Addr → Name) → HostEntry → HostEntry × Bool
unfolding sorted join_addrs name_eq
diff show e =
    let key = join_addrs show (sorted e.addrs) in
    if name_eq key e.notified then (e, false) else (record e { notified = key }, true)

-- What `Apply` makes of the hosts: who was evicted, and whether the addresses changed.
pub record Applied : Type 0 where
  pub hosts : List (Name × HostEntry)
  pub entry : HostEntry
  pub changed : Bool
  pub evicted : Name

unfoldable pub apply_host : (Addr → Name) → HostCache → Announcement → Instant → Applied
unfolding get put admit refreshed_entry diff
apply_host show c a now = elim (get a.host c.hosts) [
  | some e ↦
      let kept = if ltb_ℤ burst_window (since now e.last_seen) then [] else e.addrs in
      let d = diff show (refreshed_entry c a now e kept) in
      record { hosts = put a.host d.0 c.hosts; entry = d.0; changed = d.1; evicted = [] }
  | none ↦
      let room = admit c.hosts in
      let d = diff show (refreshed_entry c a now new_entry []) in
      record { hosts = put a.host d.0 room.0; entry = d.0; changed = d.1; evicted = room.1 }
]

abbrev pub no_addrs : List Addr → Bool
no_addrs [] = true
no_addrs (_ ∷ _) = false

-- `Apply` behind its first guard
unfoldable pub applied :
    (Addr → Name) → HostCache → Announcement → Instant → Trust → HostCache × Bool × Calls
unfolding apply_host is_strong apply_trusted triggers_ddns sorted
applied show c a now trust =
    let r = apply_host show c a now in
    let c1 = record c { hosts = r.hosts } in
    let s = if is_strong trust then apply_trusted show c1 a now else (c1, false) in
    let changed = r.changed || s.1 in
    let gone : Calls = if is_nil r.evicted then [] else (r.evicted, []) ∷ [] in
    let told : Calls = if changed then (a.host, sorted r.entry.addrs) ∷ [] else [] in
    (s.0, changed, if triggers_ddns trust then gone ++ told else [])

-- `Apply`
unfoldable pub apply :
    (Addr → Name) → HostCache → Announcement → Instant → Trust → HostCache × Bool × Calls
unfolding applied
apply show c a now trust =
    if is_nil a.host || no_addrs a.addrs then (c, false, []) else applied show c a now trust

-- `sameStrings`
unfoldable pub same_strings : List Name → List Name → Bool
unfolding name_eq
same_strings [] [] = true
same_strings (a ∷ rest) (b ∷ more) = name_eq a b && same_strings rest more
same_strings _ _ = false

abbrev dup : Option SvcInfo → ℕ → List Name → Bool
dup none port text = false
dup (some cur) port text = cur.port == port && same_strings cur.text text

-- `ApplyService`
unfoldable pub apply_service : HostCache → Name → Name → ℕ → List Name → HostCache × Bool
unfolding get put same_strings
apply_service c host typ port text =
    if is_nil host || is_nil typ then (c, false) else elim (get host c.hosts) [
      | none ↦ (c, false)
      | some e ↦
          if dup (get typ e.services) port text
          then (c, false)
          else (let services = put typ (record { port = port; text = text }) e.services in
              (record c { hosts = put host (record e { services = services }) c.hosts }, true))
    ]

-- `ApplyInfo`
unfoldable pub apply_info : HostCache → Name → Name → HostCache × Bool
unfolding get put name_eq
apply_info c host desc =
    if is_nil host || is_nil desc then (c, false) else elim (get host c.hosts) [
      | none ↦ (c, false)
      | some e ↦
          if name_eq e.info desc
          then (c, false)
          else (record c { hosts = put host (record e { info = desc }) c.hosts }, true)
    ]

abbrev pub live : Instant → List (Name × HostEntry) → List (Name × HostEntry)
live now [] = []
live now ((h, e) ∷ rest) =
    let later = live now rest in if ltb e.expiry now then later else (h, e) ∷ later

abbrev gone_calls : Instant → List (Name × HostEntry) → Calls
gone_calls now [] = []
gone_calls now ((h, e) ∷ rest) =
    let later = gone_calls now rest in if ltb e.expiry now then (h, []) ∷ later else later

-- `Expire`; the number that it returns is that of its calls
unfoldable pub expire : HostCache → Instant → HostCache × Calls
unfolding expire_trusted
expire c now = (expire_trusted (record c { hosts = live now c.hosts }) now, gone_calls now c.hosts)
