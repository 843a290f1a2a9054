-- ===== src/Server/Front.antt =====
-- `ServeDNS` of internal/server/server.go: what is answered to a request, with the resolver's outcomes,
-- the answer of a stub zone's resolver and the state of the limiter as arguments. The query log only
-- records what is done.
use splitdns.Prelude.{ℕ, Bool, not, ◌&&◌, Option, none, some, List, [], ◌∷◌, if◌then◌else◌, Instant}
use splitdns.Netmatch.{Addr, is_valid, Access, allowed}
use splitdns.Dns.{Name, Msg, rcode_server_failure}
use splitdns.Resolver.Helpers.{Outcome}
use splitdns.AnsCache.Cache.{Cache}
use splitdns.Server.{respond, refuse, Query, Served, forward_cached}
use splitdns.Server.Rebind.{Unblocked}

abbrev pub rcode_refused : ℕ
rcode_refused = 5

-- What is written, if anything, and the cache afterwards.
pub record Answered : Type 0 where
  pub reply : Option Msg
  pub cache : Option Cache

abbrev pub refused_with : Query → Option Cache → ℕ → Answered
refused_with q c rcode = record { reply = some (refuse q.wire q.tcp q.req rcode); cache = c }

-- `forward`, for a stub zone: no rebind filter
unfoldable pub forward_stub : Query → Option Cache → Option Msg → Answered
forward_stub q c none = refused_with q c rcode_server_failure
forward_stub q c (some resp) =
    if not q.has_forwarder then refused_with q c rcode_server_failure else record {
      reply = some (respond q.wire q.tcp q.req (record resp { id = q.req.id }));
      cache = c;
    }

abbrev pub from_served : Option Served → Option Answered
from_served none = none
from_served (some s) = some (record { reply = some s.reply; cache = s.cache })

-- the `switch` of `ServeDNS`; none is a nil message that is read
unfoldable pub dispatch :
    Query → Option Cache → Outcome → Option Msg → Option Msg → Instant → Instant → Option Answered
unfolding forward_stub forward_cached respond
dispatch q c out stub_reply up t0 t1 = elim out.msg [
  | some m ↦ some (record { reply = some (respond q.wire q.tcp q.req m); cache = c })
  | none ↦ elim out.stub [
    | _ ∷ _ ↦ some (forward_stub q c stub_reply)
    | [] ↦
        if out.forward
        then from_served (forward_cached q c up t0 t1)
        else some (refused_with q c rcode_server_failure)
  ]
]

-- the outcome that counts: that of the second `Resolve`, where there is an on-demand resolver
unfoldable pub settled : Outcome → Option Outcome → Outcome
settled out none = out
settled out (some again) = if out.local_miss then again else out

-- `ServeDNS`; `busy` says that the limiter is full
unfoldable pub serve_dns :
    Query
    → Access
    → Addr
    → Bool
    → Option Cache
    → Outcome
    → Option Outcome
    → Option Msg
    → Option Msg
    → Instant
    → Instant
    → Option Answered
unfolding dispatch settled allowed
serve_dns q access ip busy c out again stub_reply up t0 t1 =
    if is_valid ip && not (allowed access ip)
    then some (refused_with q c rcode_refused)
    else if busy
    then some (
        if q.tcp then refused_with q c rcode_server_failure else record { reply = none; cache = c })
    else dispatch q c (settled out again) stub_reply up t0 t1

-- what is written, if anything, is unblocked
abbrev pub Clean : List Name → Option Answered → Type 0
Clean allow none = Unit
Clean allow (some a) = elim a.reply [ none ↦ Unit | some m ↦ Unblocked allow m ]
