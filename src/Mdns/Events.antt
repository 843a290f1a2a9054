-- ===== src/Mdns/Events.antt =====
-- What any sequence of announcements and expiries keeps of the mDNS cache: internal/mdns/cache.go and
-- internal/mdns/trust.go.
use splitdns.Prelude.{
  ℕ, ◌≡◌, refl, ap, ◌∙◌, Bool, true, false, ◌||◌, List, [], ◌∷◌, All, Instant, leb_ℤ, Duration, pos,
  Option-cases, inl, inr, if_elim,
}
use splitdns.Netmatch.{Addr}
use splitdns.Dns.{Name}
use splitdns.Model.{get}
use splitdns.Mdns.{
  Announcement, Trust, trust_none, trust_weak, trust_strong, is_strong, TrustedEntry, HostCache,
  is_nil,
}
use splitdns.Mdns.Trusted.{expire_trusted, trusted_addrs}
use splitdns.Mdns.Hosts.{Calls, no_addrs, applied, apply, apply_service, apply_info, live, expire}

-- what happens to the cache
pub data Event : Type 0 where
  announced : Announcement → Instant → Trust → Event
  expired : Instant → Event
  service_seen : Name → Name → ℕ → List Name → Event
  info_seen : Name → Name → Event

unfoldable pub step : (Addr → Name) → HostCache → Event → HostCache
unfolding apply expire apply_service apply_info
step show c (announced a now trust) = (apply show c a now trust).0
step show c (expired now) = (expire c now).0
step show c (service_seen host typ port text) = (apply_service c host typ port text).0
step show c (info_seen host desc) = (apply_info c host desc).0

unfoldable pub run : (Addr → Name) → HostCache → List Event → HostCache
unfolding step
run show c [] = c
run show c (e ∷ es) = run show (step show c e) es

-- not by a signature or over the local socket
abbrev pub IsForgeable : Event → Type 0
IsForgeable (announced a now trust_strong) = ⊥
IsForgeable _ = Unit

IsForgeable-announced :
    (a : Announcement) (now : Instant) (trust : Trust)
    → IsForgeable (announced a now trust)
    → is_strong trust ≡ false
unfolding is_strong
IsForgeable-announced a now trust_none weak = refl
IsForgeable-announced a now trust_weak weak = refl
IsForgeable-announced a now trust_strong weak = absurd weak

expire_trusted-kept :
    (c : HostCache) (now : Instant)
    → leb_ℤ c.trusted_grace (pos 0) ≡ true
    → expire_trusted c now ≡ c
unfolding expire_trusted
expire_trusted-kept c now h = rw h refl

-- the store and the configuration that it depends on
abbrev pub Same : HostCache → HostCache → Type 0
Same c d = (d.trusted ≡ c.trusted) × (d.trusted_grace ≡ c.trusted_grace)

apply-Same :
    (show : Addr → Name) (c : HostCache) (a : Announcement) (now : Instant) (trust : Trust)
    → is_strong trust ≡ false
    → Same c (apply show c a now trust).0
unfolding apply applied
apply-Same show c a now trust weak =
    if_elim (λ (p : HostCache × Bool × Calls). Same c p.0) (is_nil a.host || no_addrs a.addrs)
      (λ _. (refl, refl)) (λ _. rw (weak, applied) (refl, refl))

Same-refl : (c : HostCache) → Same c c
Same-refl c = (refl, refl)

apply_service-Same :
    (c : HostCache) (host typ : Name) (port : ℕ) (text : List Name)
    → Same c (apply_service c host typ port text).0
unfolding apply_service
apply_service-Same c host typ port text =
    let P : HostCache × Bool → Type 0 = λ p. Same c p.0 in
    if_elim P (is_nil host || is_nil typ) (λ _. (refl, refl))
      (λ _. elim (Option-cases (get host c.hosts)) [
        | inl n ↦ rw n (refl, refl)
        | inr (e, n) ↦ rw n (if_elim P _ (λ _. (refl, refl)) (λ _. (refl, refl)))
      ])

apply_info-Same : (c : HostCache) (host desc : Name) → Same c (apply_info c host desc).0
unfolding apply_info
apply_info-Same c host desc =
    let P : HostCache × Bool → Type 0 = λ p. Same c p.0 in
    if_elim P (is_nil host || is_nil desc) (λ _. (refl, refl))
      (λ _. elim (Option-cases (get host c.hosts)) [
        | inl n ↦ rw n (refl, refl)
        | inr (e, n) ↦ rw n (if_elim P _ (λ _. (refl, refl)) (λ _. (refl, refl)))
      ])

step-Same :
    (show : Addr → Name) (c : HostCache) (e : Event)
    → leb_ℤ c.trusted_grace (pos 0) ≡ true
    → IsForgeable e
    → Same c (step show c e)
unfolding step expire
step-Same show c (announced a now trust) hold weak =
    apply-Same show c a now trust (IsForgeable-announced a now trust weak)
step-Same show c (expired now) hold weak =
    rw (expire_trusted-kept (record c { hosts = live now c.hosts }) now hold) (refl, refl)
step-Same show c (service_seen host typ port text) hold weak =
    apply_service-Same c host typ port text
step-Same show c (info_seen host desc) hold weak = apply_info-Same c host desc

run-Same :
    (show : Addr → Name) (c : HostCache) (es : List Event)
    → leb_ℤ c.trusted_grace (pos 0) ≡ true
    → All IsForgeable es
    → Same c (run show c es)
unfolding run
run-Same show c [] hold weak = (refl, refl)
run-Same show c (e ∷ es) hold (w, ws) =
    let (same, grace) = step-Same show c e hold w in
    let held : leb_ℤ (step show c e).trusted_grace (pos 0) ≡ true =
      ap (λ d. leb_ℤ d (pos 0)) grace ∙ hold in
    let (same', grace') = run-Same show (step show c e) es held ws in (same' ∙ same, grace' ∙ grace)

-- No flood of announcements without a signature, goodbyes among them, moves an address that was
-- announced with one: whatever such announcements, expiries, services and descriptions arrive, and
-- when, the trusted addresses of every host at every time are those before; trusted entries are held
-- until they are withdrawn.
pub trusted_addrs-run :
    (show : Addr → Name) (c : HostCache) (es : List Event) (host : Name) (now : Instant)
    → leb_ℤ c.trusted_grace (pos 0) ≡ true
    → All IsForgeable es
    → trusted_addrs (run show c es) host now ≡ trusted_addrs c host now
unfolding trusted_addrs
trusted_addrs-run show c es host now hold weak =
    let (same, grace) = run-Same show c es hold weak in
    ap
      (λ (p : List (Name × TrustedEntry) × Duration).
        trusted_addrs (record c { trusted = p.0; trusted_grace = p.1 }) host now)
      (λ i. (same i, grace i))
