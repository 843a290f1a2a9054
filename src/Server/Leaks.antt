-- ===== src/Server/Leaks.antt =====
-- `ServeDNS` of internal/server/server.go with the resolver of internal/resolver: the snapshot and the
-- views that its two calls of `Resolve` read are arguments, and the queries that stay in the house.
use splitdns.Prelude.{
  ◌≡◌, refl, sym, ap, ◌∙◌, Bool, false, ◌&&◌, not, Option, none, some, [], ◌∷◌, if◌then◌else◌,
  Instant, Bool-cases, Option-cases, List-cases, some-injective, inl, inr,
}
use splitdns.Netmatch.{Addr, is_valid, Access, allowed}
use splitdns.Dns.{Question, Msg, to_lower, rcode_server_failure}
use splitdns.Model.{Snapshot, MdnsView}
use splitdns.Model.Render.{Library}
use splitdns.Resolver.Helpers.{Outcome}
use splitdns.Resolver.Helpers.Suffix.{IsKey}
use splitdns.Resolver.Resolve.{resolve}
use splitdns.Resolver.Resolve.Public.{IsPublic}
use splitdns.Resolver.Resolve.Forwards.{resolve-forward_iff}
use splitdns.AnsCache.Cache.{Cache}
use splitdns.Server.{Query}
use splitdns.Server.Front.{Answered, refused_with, rcode_refused, dispatch, settled, serve_dns}

-- `Resolve` on the view after an on-demand mDNS query, if there was one
abbrev again : Library → Snapshot → Msg → Option MdnsView → Option Outcome
again lib snap req none = none
again lib snap req (some view) = some (resolve lib snap view req)

-- `ServeDNS`
unfoldable pub serve_query :
    Library
    → Snapshot
    → MdnsView
    → Option MdnsView
    → Query
    → Access
    → Addr
    → Bool
    → Option Cache
    → Option Msg
    → Option Msg
    → Instant
    → Instant
    → Option Answered
unfolding serve_dns resolve
serve_query lib snap view later q access ip busy c stub_reply up t0 t1 =
    serve_dns q access ip busy c (resolve lib snap view q.req) (again lib snap q.req later)
      stub_reply up t0 t1

dispatch-stays :
    (q : Query) (c : Option Cache) (out : Outcome) (stub_reply up up' : Option Msg)
    (t0 t1 : Instant)
    → out.forward ≡ false
    → dispatch q c out stub_reply up t0 t1 ≡ dispatch q c out stub_reply up' t0 t1
unfolding dispatch
dispatch-stays q c out stub_reply up up' t0 t1 f = elim (Option-cases out.msg) [
  | inr (m, e) ↦ rw (e, dispatch) refl
  | inl e ↦ elim (List-cases out.stub) [
    | inl s ↦ rw (e, s, f, dispatch) refl
    | inr (x, rest, s) ↦ rw (e, s, dispatch) refl
  ]
]

settled-forward :
    (out : Outcome) (second : Option Outcome)
    → out.forward ≡ false
    → ((o : Outcome) → second ≡ some o → o.forward ≡ false)
    → (settled out second).forward ≡ false
unfolding settled
settled-forward out none f g = f
settled-forward out (some o) f g = elim (Bool-cases out.local_miss) [
  | inl e ↦ rw (e, settled) (g o refl)
  | inr e ↦ rw (e, settled) f
]

again-forward :
    (lib : Library) (snap : Snapshot) (req : Msg) (later : Option MdnsView)
    → ((v : MdnsView) → (resolve lib snap v req).forward ≡ false)
    → (o : Outcome) → again lib snap req later ≡ some o
    → o.forward ≡ false
again-forward lib snap req none stays o e = absurd (cc e)
again-forward lib snap req (some v) stays o e =
    ap (λ x. x.forward) (sym (some-injective (resolve lib snap v req) o e)) ∙ stays v

-- A query that no public resolver may be asked is not sent to one: with the maps of mirrored and of
-- reverse zones without an empty key, what is answered to it, and the cache afterwards, do not depend
-- on what the public resolvers would answer.
pub serve_query-private :
    (lib : Library) (snap : Snapshot) (view : MdnsView) (later : Option MdnsView) (q : Query)
    (access : Access) (ip : Addr) (busy : Bool) (c : Option Cache) (stub_reply up up' : Option Msg)
    (t0 t1 : Instant)
    → (IsKey [] snap.zones → ⊥)
    → (IsKey [] snap.reverse_z → ⊥)
    → ((question : Question)
        → q.req.question ≡ question ∷ []
        → IsPublic snap (to_lower (lib.fqdn question.name)) question.qtype
        → ⊥)
    → serve_query lib snap view later q access ip busy c stub_reply up t0 t1
      ≡ serve_query lib snap view later q access ip busy c stub_reply up' t0 t1
unfolding serve_query serve_dns
serve_query-private lib snap view later q access ip busy c stub_reply up up' t0 t1 nz nr private =
    let stays : (v : MdnsView) → (resolve lib snap v q.req).forward ≡ false = λ v.
      elim (Bool-cases (resolve lib snap v q.req).forward) [
        | inr f ↦ f
        | inl f ↦
            let (question, e, public) = (resolve-forward_iff lib snap v q.req nz nr).0 f in
            absurd (private question e public)
      ] in
    let second : (o : Outcome) → again lib snap q.req later ≡ some o → o.forward ≡ false =
      again-forward lib snap q.req later stays in
    let out = settled (resolve lib snap view q.req) (again lib snap q.req later) in
    ap
      (λ d.
        if is_valid ip && not (allowed access ip)
        then some (refused_with q c rcode_refused)
        else if busy
        then some (
            if q.tcp
            then refused_with q c rcode_server_failure
            else record { reply = none; cache = c })
        else d)
      (dispatch-stays q c out stub_reply up up' t0 t1 (
        settled-forward (resolve lib snap view q.req) (again lib snap q.req later) (stays view)
          second))
