-- ===== src/Forwarder/Upstreams.antt =====
-- The choice of an upstream, internal/forwarder/forwarder.go, over the circuit breakers of `Breaker`.
-- The network and the clock are a parameter, read by the number of exchanges made so far; an
-- exchange that fails, also by the deadline of the request, is `none`. The mutex makes each access
-- to the maps one step; one request at a time is modelled.
use splitdns.Prelude.{
  ℕ, ◌+◌, ◌%◌, ◌^◌, Bool, true, false, ◌&&◌, not, Option, none, some, List, [], ◌∷◌, ◌++◌,
  if◌then◌else◌, pos, pos_part, neg_part, sub_ℕ, Instant, Duration, since, length,
}
use splitdns.Dns.{Name, Msg}
use splitdns.Model.{get, put}
use splitdns.Forwarder.Breaker.{Policy, Breaker, new_breaker, record_outcome}

pub data Transport : Type 0 where
  tcp_tls udp tcp : Transport

-- `Upstream`
pub record Upstream : Type 0 where
  pub addr : Name
  pub net : Transport
  pub server_name : Name

-- `backendStat`; the counters are uint64
pub record BackendStat : Type 0 where
  pub queries : ℕ
  pub failures : ℕ
  pub ok_latency : Duration
  pub last_ok : Duration

-- the part of `Forwarder` that is set when it is built
pub record Settings : Type 0 where
  pub primary : List Upstream
  pub fallback : List Upstream
  pub cleartext : Bool
  pub breaker_enabled : Bool
  pub policy : Policy

-- the part of `Forwarder` that changes, and the exchanges made so far, the last one first
pub record State : Type 0 where
  pub breakers : List (Name × Breaker)
  pub disabled : List Name
  pub bstats : List (Name × BackendStat)
  pub asked : List Upstream

-- What an exchange returns, and the time, after a number of exchanges.
pub record World : Type 0 where
  pub exchange : ℕ → Upstream → Option Msg
  pub clock : ℕ → Instant

abbrev net_name : Transport → Name
net_name tcp_tls = b't' ∷ b'c' ∷ b'p' ∷ b'-' ∷ b't' ∷ b'l' ∷ b's' ∷ []
net_name udp = b'u' ∷ b'd' ∷ b'p' ∷ []
net_name tcp = b't' ∷ b'c' ∷ b'p' ∷ []

-- `u.Net + "|" + u.Addr`
unfoldable pub key : Upstream → Name
key u = net_name u.net ++ (b'|' ∷ u.addr)

unfoldable pub is_tls : Transport → Bool
is_tls tcp_tls = true
is_tls _ = false

abbrev pub is_udp : Transport → Bool
is_udp udp = true
is_udp _ = false

abbrev pub is_nil : Name → Bool
is_nil [] = true
is_nil (_ ∷ _) = false

abbrev pub now : World → State → Instant
now w s = w.clock (length s.asked)

-- `exchange`
unfoldable pub exchange : World → State → Upstream → State × Option Msg
exchange w s u = (record s { asked = u ∷ s.asked }, w.exchange (length s.asked) u)

-- the end of `attempt`: the answer over TCP, if there is one
unfoldable pub upgraded : Msg → State × Option Msg → State × Option Msg
upgraded resp (s, none) = (s, some resp)
upgraded resp (s, some m) = (s, some m)

-- `attempt` behind its first exchange
unfoldable pub attempted : World → Upstream → State × Option Msg → State × Option Msg
unfolding exchange upgraded
attempted w u (s, none) = (s, none)
attempted w u (s, some resp) =
    if resp.truncated && is_udp u.net
    then upgraded resp (exchange w s (record { addr = u.addr; net = tcp; server_name = [] }))
    else (s, some resp)

-- `attempt`
unfoldable pub attempt : World → State → Upstream → State × Option Msg
unfolding exchange attempted
attempt w s u = attempted w u (exchange w s u)

abbrev pub plus : Duration → Duration → Duration
plus a b = sub_ℕ (pos_part a + pos_part b) (neg_part a + neg_part b)

abbrev empty_stat : BackendStat
empty_stat = record { queries = 0; failures = 0; ok_latency = pos 0; last_ok = pos 0 }

abbrev or_empty : Option BackendStat → BackendStat
or_empty none = empty_stat
or_empty (some b) = b

-- the counters after an exchange
unfoldable pub counted : BackendStat → Bool → Duration → BackendStat
counted b true d = record b {
  queries = (b.queries + 1) % 2 ^ 64;
  ok_latency = plus b.ok_latency d;
  last_ok = d;
}
counted b false d = record b {
  queries = (b.queries + 1) % 2 ^ 64;
  failures = (b.failures + 1) % 2 ^ 64;
}

-- `noteAttempt`
unfoldable pub note_attempt : State → Upstream → Bool → Duration → State
unfolding get put key counted
note_attempt s u ok d = record s {
  bstats = put (key u) (counted (or_empty (get (key u) s.bstats)) ok d) s.bstats;
}

-- `breakerFor` where breakers are on: the breaker of an upstream, made if there is none
unfoldable pub breaker_for : Settings → State → Upstream → Breaker
unfolding get key new_breaker
breaker_for f s u = elim (get (key u) s.breakers) [ some b ↦ b | none ↦ new_breaker f.policy ]

abbrev pub set_breaker : State → Upstream → Breaker → State
set_breaker s u b = record s { breakers = put (key u) b s.breakers }

-- `br.record`, if breakers are on; none where it does not return
unfoldable pub recorded : Settings → World → State → Upstream → Bool → Option State
unfolding breaker_for put key record_outcome
recorded f w s u ok =
    if not f.breaker_enabled
    then some s
    else elim (record_outcome (breaker_for f s u) ok (now w s)) [
      | none ↦ none
      | some b ↦ some (set_breaker s u b)
    ]

-- What a round of a loop of `tryAll` does: go on, with whether any upstream was allowed and whether
-- there is an error so far, or return an answer, or hang.
pub data Round : Type 0 where
  go : State → Bool → Bool → Round
  answer : State → Msg → Round
  hang : Round

abbrev pub is_some : Option Msg → Bool
is_some none = false
is_some (some _) = true

-- an exchange with its bookkeeping
unfoldable pub finish : Option State → Option Msg → Round
finish none r = hang
finish (some s) (some m) = answer s m
finish (some s) none = go s true true

unfoldable pub ask : Settings → World → State → Upstream → Round
unfolding attempt note_attempt recorded finish
ask f w s u =
    let (s1, r) = attempt w s u in
    let s2 = note_attempt s1 u (is_some r) (since (now w s1) (now w s)) in
    finish (recorded f w s2 u (is_some r)) r
