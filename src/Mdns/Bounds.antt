-- ===== src/Mdns/Bounds.antt =====
-- How large the maps of internal/mdns/cache.go become.
use splitdns.Prelude.{
  ℕ, ◌<◌, ◌≡◌, Bool, false, ◌&&◌, ◌||◌, List, [], ◌∷◌, leb, ltb, ◌==◌, length, Instant, leb_ℤ,
  ltb_ℤ, since, pos, arith, Bool-cases, Option-cases, inl, inr, if_elim,
}
use splitdns.Netmatch.{Addr}
use splitdns.Dns.{Name}
use splitdns.Model.{get}
use splitdns.Mdns.{
  Announcement, Trust, is_strong, HostEntry, TrustedEntry, HostCache, max_hosts, is_nil,
}
use splitdns.Mdns.Trusted.{make_room, apply_trusted, expire_trusted, unexpired}
use splitdns.Mdns.Hosts.{
  admit, apply_host, Calls, no_addrs, applied, apply, apply_service, apply_info, live, expire,
}
use splitdns.Mdns.Maps.{
  IsNamed, Fits, put-Fits, put_found-Fits, evict-Fits, length-erase-le, erase-IsNamed,
}
use splitdns.Mdns.Events.{Event, announced, expired, service_seen, info_seen, step, run}

-- The cache has at most `max_hosts` hosts, and the trusted store as many as it is configured to.
abbrev pub IsBounded : ℕ → HostCache → Type 0
IsBounded cap c = Fits max_hosts c.hosts × Fits cap c.trusted × (c.max_trusted ≡ cap)

admit-Fits :
    (m : List (Name × HostEntry))
    → Fits max_hosts m
    → (length (admit m).0 < max_hosts) × IsNamed (admit m).0
unfolding admit
admit-Fits m fits = elim (Bool-cases (leb max_hosts (length m))) [
  | inl full ↦
      rw (full, admit)
        (evict-Fits (λ e. e.last_seen) max_hosts m (omega arith) fits (ground (arith, full)))
  | inr room ↦ rw (room, admit) (ground (arith, room), fits.1)
]

make_room-Fits :
    (cap : ℕ) (c : HostCache)
    → 0 < cap
    → c.max_trusted ≡ cap
    → Fits cap c.trusted
    → (length (make_room c) < cap) × IsNamed (make_room c)
unfolding make_room
make_room-Fits cap c some_of e fits =
    if_elim (λ (m : List (Name × TrustedEntry)). (length m < cap) × IsNamed m)
      (ltb 0 c.max_trusted && leb c.max_trusted (length c.trusted))
      (λ full. evict-Fits (λ x. x.seen) cap c.trusted some_of fits (ground (arith, full, e)))
      (λ room. (ground (arith, room, e, some_of), fits.1))

apply_host-Fits :
    (show : Addr → Name) (c : HostCache) (a : Announcement) (now : Instant)
    → is_nil a.host ≡ false
    → Fits max_hosts c.hosts
    → Fits max_hosts (apply_host show c a now).hosts
unfolding apply_host
apply_host-Fits show c a now named fits = elim (Option-cases (get a.host c.hosts)) [
  | inl n ↦
      let (room, names) = admit-Fits c.hosts fits in
      rw (n, apply_host) (put-Fits max_hosts a.host _ (admit c.hosts).0 named room names)
  | inr (e, n) ↦ rw (n, apply_host) (put_found-Fits max_hosts a.host _ e c.hosts named n fits)
]

apply_trusted-IsBounded :
    (show : Addr → Name) (cap : ℕ) (c : HostCache) (a : Announcement) (now : Instant)
    → 0 < cap
    → is_nil a.host ≡ false
    → IsBounded cap c
    → IsBounded cap (apply_trusted show c a now).0
unfolding apply_trusted
apply_trusted-IsBounded show cap c a now some_of named (hosts, (le, names), e) =
    let P : HostCache × Bool → Type 0 = λ p. IsBounded cap p.0 in
    if_elim P (a.ttl == 0)
      (λ _.
        if_elim P _
          (λ _. (
            hosts,
            (
              omega (arith, length-erase-le a.host c.trusted, le),
              erase-IsNamed a.host c.trusted names,
            ),
            e,
          ))
          (λ _. (hosts, (le, names), e)))
      (λ _. elim (Option-cases (get a.host c.trusted)) [
        | inl n ↦
            let (room, names') = make_room-Fits cap c some_of e (le, names) in
            rw n (hosts, put-Fits cap a.host _ (make_room c) named room names', e)
        | inr (te, n) ↦
            rw n (hosts, put_found-Fits cap a.host _ te c.trusted named n (le, names), e)
      ])

apply-IsBounded :
    (show : Addr → Name) (cap : ℕ) (c : HostCache) (a : Announcement) (now : Instant)
    (trust : Trust)
    → 0 < cap
    → IsBounded cap c
    → IsBounded cap (apply show c a now trust).0
unfolding apply applied
apply-IsBounded show cap c a now trust some_of (hosts, trusted, e) =
    if_elim (λ (p : HostCache × Bool × Calls). IsBounded cap p.0)
      (is_nil a.host || no_addrs a.addrs) (λ _. (hosts, trusted, e))
      (λ enough.
        let named : is_nil a.host ≡ false = ground (arith, enough) in
        let fits = apply_host-Fits show c a now named hosts in
        let c1 : HostCache = record c { hosts = (apply_host show c a now).hosts } in
        if_elim (λ (p : HostCache × Bool). IsBounded cap p.0) (is_strong trust)
          (λ _. apply_trusted-IsBounded show cap c1 a now some_of named (fits, trusted, e))
          (λ _. (fits, trusted, e)))

live-Fits :
    (cap : ℕ) (now : Instant) (m : List (Name × HostEntry)) → Fits cap m → Fits cap (live now m)
live-Fits cap now [] fits = fits
live-Fits cap now ((h, e) ∷ rest) (le, (named, names)) =
    let (le', names') = live-Fits (length rest) now rest (omega arith, names) in
    if_elim (Fits cap) (ltb e.expiry now) (λ _. (omega (arith, le, le'), names'))
      (λ _. (omega (arith, le, le'), (named, names')))

unexpired-Fits :
    (cap : ℕ) (c : HostCache) (now : Instant) (m : List (Name × TrustedEntry))
    → Fits cap m
    → Fits cap (unexpired c now m)
unexpired-Fits cap c now [] fits = fits
unexpired-Fits cap c now ((h, te) ∷ rest) (le, (named, names)) =
    let (le', names') = unexpired-Fits (length rest) c now rest (omega arith, names) in
    if_elim (Fits cap) (ltb_ℤ c.trusted_grace (since now te.seen))
      (λ _. (omega (arith, le, le'), names')) (λ _. (omega (arith, le, le'), (named, names')))

expire-IsBounded :
    (cap : ℕ) (c : HostCache) (now : Instant) → IsBounded cap c → IsBounded cap (expire c now).0
unfolding expire expire_trusted
expire-IsBounded cap c now (hosts, trusted, e) =
    let fits = live-Fits max_hosts now c.hosts hosts in
    if_elim (IsBounded cap) (leb_ℤ c.trusted_grace (pos 0)) (λ _. (fits, trusted, e))
      (λ _.
        (fits, unexpired-Fits cap (record c { hosts = live now c.hosts }) now c.trusted trusted, e))

apply_service-IsBounded :
    (cap : ℕ) (c : HostCache) (host typ : Name) (port : ℕ) (text : List Name)
    → IsBounded cap c
    → IsBounded cap (apply_service c host typ port text).0
unfolding apply_service
apply_service-IsBounded cap c host typ port text (hosts, trusted, e) =
    let P : HostCache × Bool → Type 0 = λ p. IsBounded cap p.0 in
    if_elim P (is_nil host || is_nil typ) (λ _. (hosts, trusted, e))
      (λ some_name.
        let named : is_nil host ≡ false = ground (arith, some_name) in
        elim (Option-cases (get host c.hosts)) [
          | inl n ↦ rw n (hosts, trusted, e)
          | inr (x, n) ↦ rw n (
              if_elim P _ (λ _. (hosts, trusted, e))
                (λ _. (put_found-Fits max_hosts host _ x c.hosts named n hosts, trusted, e)))
        ])

apply_info-IsBounded :
    (cap : ℕ) (c : HostCache) (host desc : Name)
    → IsBounded cap c
    → IsBounded cap (apply_info c host desc).0
unfolding apply_info
apply_info-IsBounded cap c host desc (hosts, trusted, e) =
    let P : HostCache × Bool → Type 0 = λ p. IsBounded cap p.0 in
    if_elim P (is_nil host || is_nil desc) (λ _. (hosts, trusted, e))
      (λ some_name.
        let named : is_nil host ≡ false = ground (arith, some_name) in
        elim (Option-cases (get host c.hosts)) [
          | inl n ↦ rw n (hosts, trusted, e)
          | inr (x, n) ↦ rw n (
              if_elim P _ (λ _. (hosts, trusted, e))
                (λ _. (put_found-Fits max_hosts host _ x c.hosts named n hosts, trusted, e)))
        ])

step-IsBounded :
    (show : Addr → Name) (cap : ℕ) (c : HostCache) (e : Event)
    → 0 < cap
    → IsBounded cap c
    → IsBounded cap (step show c e)
unfolding step
step-IsBounded show cap c (announced a now trust) some_of b =
    apply-IsBounded show cap c a now trust some_of b
step-IsBounded show cap c (expired now) some_of b = expire-IsBounded cap c now b
step-IsBounded show cap c (service_seen host typ port text) some_of b =
    apply_service-IsBounded cap c host typ port text b
step-IsBounded show cap c (info_seen host desc) some_of b = apply_info-IsBounded cap c host desc b

-- Whatever announcements, expiries, services and descriptions arrive, trusted or not, the cache holds
-- at most `max_hosts` hosts, none with an empty name, and the trusted store at most as many as it
-- is configured to, if that is a number above 0 and it was so before.
pub run-IsBounded :
    (show : Addr → Name) (cap : ℕ) (c : HostCache) (es : List Event)
    → 0 < cap
    → IsBounded cap c
    → IsBounded cap (run show c es)
unfolding run
run-IsBounded show cap c [] some_of b = b
run-IsBounded show cap c (e ∷ es) some_of b =
    run-IsBounded show cap (step show c e) es some_of (step-IsBounded show cap c e some_of b)
