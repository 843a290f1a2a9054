-- ===== src/Tests/Upstreams.antt =====
-- The loops over upstreams on concrete settings.
use splitdns.Prelude.{◌≡◌, ◌<◌, refl, true, false, not, none, [], ◌∷◌, length, any, All}
use splitdns.Dns.{Name, name_eq}
use splitdns.Model.{member}
use splitdns.Forwarder.Breaker.{default_policy, new_breaker, cb_open}
use splitdns.Forwarder.Upstreams.{tcp_tls, udp, Upstream, Settings, State, World, is_tls, key}
use splitdns.Forwarder.Tries.{try_all, forward, forward_to}
use splitdns.Forwarder.Tries.Asked.{Grows, AtEnd}
use splitdns.Forwarder.Tries.Safe.{IsEnabled, forward-IsEnabled, IsSealed, forward-IsSealed}
use splitdns.Forwarder.Tries.Fails.{barred, try_all_fails_open}

abbrev over_tls : Name → Upstream
over_tls a = record { addr = a; net = tcp_tls; server_name = (b'q' ∷ []) }

abbrev settings : Settings
settings = record {
  primary = over_tls (b'a' ∷ []) ∷ over_tls (b'b' ∷ []) ∷ [];
  fallback = record { addr = (b'a' ∷ []); net = udp; server_name = [] } ∷ [];
  cleartext = false;
  breaker_enabled = true;
  policy = default_policy;
}

-- a is disabled, and the breaker of b is open
abbrev state : State
state = record {
  breakers =
      (
        key (over_tls (b'b' ∷ [])),
        record (new_breaker default_policy) { state = cb_open; opened_at = 5 },
      )
      ∷ [];
  disabled = (b'a' ∷ []) ∷ [];
  bstats = [];
  asked = [];
}

abbrev silent : World
silent = record { exchange = λ n u. none; clock = λ n. 6 }

forward-IsEnabled_example :
    AtEnd (Grows (IsEnabled state.disabled) state) (forward settings silent state)
    × AtEnd
        (Grows (IsEnabled state.disabled) state)
        (forward_to settings silent state ((b'a' ∷ []) ∷ []))
forward-IsEnabled_example = forward-IsEnabled settings silent state ((b'a' ∷ []) ∷ [])

primary-All : All (λ u. is_tls u.net ≡ true) settings.primary
unfolding is_tls
primary-All = (refl, (refl, tt))

forward-IsSealed_example : AtEnd (Grows IsSealed state) (forward settings silent state)
forward-IsSealed_example = forward-IsSealed settings silent state refl primary-All

b_is_left : any (λ u. not (barred true state.disabled u)) settings.primary ≡ true
unfolding is_tls member name_eq
b_is_left = refl

try_all_fails_open_example :
    AtEnd
      (λ t. length state.asked < length t.asked)
      (try_all settings silent true state settings.primary)
try_all_fails_open_example =
    try_all_fails_open settings silent true state settings.primary refl b_is_left
