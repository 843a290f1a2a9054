-- ===== src/Mdns/Trusted.antt =====
-- The trusted store of internal/mdns/trust.go.
use splitdns.Prelude.{
  Bool, true, false, ◌&&◌, not, Option, none, some, List, [], ◌∷◌, if◌then◌else◌, leb, ltb, ◌==◌,
  length, Instant, since, ltb_ℤ, leb_ℤ, pos,
}
use splitdns.Netmatch.{Addr}
use splitdns.Dns.{Name, name_eq}
use splitdns.Model.{get, put}
use splitdns.Mdns.{
  Announcement, TrustedEntry, HostCache, burst_window, add_addrs, sorted, join_addrs, erase,
  evict_oldest,
}

-- `trustedKey`
unfoldable pub trusted_key : (Addr → Name) → List Addr → Name
unfolding sorted join_addrs
trusted_key show addrs = join_addrs show (sorted addrs)

abbrev present : {A : Type 0} → Option A → Bool
present none = false
present (some _) = true

-- the store with room for one more host
unfoldable pub make_room : HostCache → List (Name × TrustedEntry)
unfolding evict_oldest
make_room c =
    if ltb 0 c.max_trusted && leb c.max_trusted (length c.trusted)
    then (evict_oldest (λ e. e.seen) c.trusted).0
    else c.trusted

-- `applyTrustedLocked`
unfoldable pub apply_trusted : (Addr → Name) → HostCache → Announcement → Instant → HostCache × Bool
unfolding get put erase make_room add_addrs trusted_key
apply_trusted show c a now =
    if a.ttl == 0
    then (if present (get a.host c.trusted)
        then (record c { trusted = erase a.host c.trusted }, true)
        else (c, false))
    else elim (get a.host c.trusted) [
      | none ↦
          let addrs = add_addrs [] a.addrs in
          (
            record c { trusted = put a.host (record { addrs = addrs; seen = now }) (make_room c) },
            not (name_eq (trusted_key show addrs) []),
          )
      | some te ↦
          let kept = if ltb_ℤ burst_window (since now te.seen) then [] else te.addrs in
          let addrs = add_addrs kept a.addrs in
          (
            record c { trusted = put a.host (record { addrs = addrs; seen = now }) c.trusted },
            not (name_eq (trusted_key show addrs) (trusted_key show te.addrs)),
          )
    ]

-- `trustedAddrsLocked`
unfoldable pub trusted_addrs : HostCache → Name → Instant → List Addr
unfolding get
trusted_addrs c host now = elim (get host c.trusted) [
  | none ↦ []
  | some te ↦
      if ltb_ℤ (pos 0) c.trusted_grace && ltb_ℤ c.trusted_grace (since now te.seen)
      then []
      else te.addrs
]

-- the entries that `expireTrustedLocked` leaves
abbrev pub unexpired : HostCache → Instant → List (Name × TrustedEntry) → List (Name × TrustedEntry)
unexpired c now [] = []
unexpired c now ((h, te) ∷ rest) =
    let later = unexpired c now rest in
    if ltb_ℤ c.trusted_grace (since now te.seen) then later else (h, te) ∷ later

-- `expireTrustedLocked`
unfoldable pub expire_trusted : HostCache → Instant → HostCache
expire_trusted c now =
    if leb_ℤ c.trusted_grace (pos 0) then c else record c { trusted = unexpired c now c.trusted }
