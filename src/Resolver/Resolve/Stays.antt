-- ===== src/Resolver/Resolve/Stays.antt =====
-- The local plane of `Resolve` forwards nothing.
use splitdns.Prelude.{
  ℕ, ◌≡◌, refl, inl, inr, Bool, false, ◌&&◌, none, if◌then◌else◌, Bool-cases, Option-cases,
}
use splitdns.Dns.{Name, Msg}
use splitdns.Model.{Snapshot, MdnsView}
use splitdns.Model.Render.{Library}
use splitdns.Resolver.Helpers.{authoritative_reply, is_empty}
use splitdns.Resolver.Local.{local_host_addrs, recover_local_host}
use splitdns.Resolver.Dnssd.{answer_dnssd}
use splitdns.Resolver.Resolve.{answer_found, answer_host, answer_local}

-- no address of a host may be served
abbrev none_found : Library → Snapshot → MdnsView → Name → Bool
none_found lib snap view host =
    is_empty (local_host_addrs lib snap view host false).0
    && is_empty (local_host_addrs lib snap view host false).1

answer_host-stays :
    (lib : Library) (snap : Snapshot) (view : MdnsView) (resp : Msg) (name host : Name) (qtype : ℕ)
    → (answer_host lib snap view resp name host qtype).forward ≡ false
unfolding answer_host answer_found
answer_host-stays lib snap view resp name host qtype =
    elim (Bool-cases (none_found lib snap view host)) [
      | inl e ↦ rw (e, answer_host, answer_found) refl
      | inr e ↦ rw (e, answer_host, answer_found) refl
    ]

pub answer_local-stays :
    (lib : Library) (snap : Snapshot) (view : MdnsView) (req : Msg) (name label : Name) (qtype : ℕ)
    → (answer_local lib snap view req name label qtype).forward ≡ false
unfolding answer_local
answer_local-stays lib snap view req name label qtype =
    let resp = authoritative_reply lib req in
    elim (Option-cases
      (if snap.serve_dnssd then answer_dnssd view resp name label qtype else none)) [
        | inr (m, e) ↦ rw (e, answer_local) refl
        | inl e ↦ elim (Option-cases ((recover_local_host snap name).0)) [
          | inl n ↦ rw (e, n, answer_local) refl
          | inr (host, n) ↦
              rw (e, n, answer_local) (answer_host-stays lib snap view resp name host qtype)
        ]
      ]
