-- ===== src/Resolver/Reverse.antt =====
-- Reverse lookups of internal/resolver/resolver.go: the static records of a reverse zone, else one
-- canonical name from the mDNS view.
use splitdns.Prelude.{
  ℕ, suc, Bool, true, false, ◌&&◌, ◌||◌, not, Option, none, some, List, [], ◌∷◌, ◌++◌,
  if◌then◌else◌, ltb, leb, ◌==◌,
}
use splitdns.Dns.{Name, before_suffix, Msg, Rr, Body, type_any, rcode_success}
use splitdns.Model.{get, slice, ModelRr, RevZone, Snapshot, MdnsView}
use splitdns.Model.Render.{Library}
use splitdns.Resolver.Helpers.{
  Outcome, answered, to_upstream, authoritative_reply, longest_reverse_zone, append_matching,
  any_matching, is_empty, set_negative_soa,
}

abbrev pub type_ptr : ℕ
type_ptr = 12

-- Go's `<` on strings
unfoldable pub name_lt : Name → Name → Bool
name_lt _ [] = false
name_lt [] (_ ∷ _) = true
name_lt (c ∷ cs) (d ∷ ds) =
    let rest = name_lt cs ds in if ltb c d then true else if c == d then rest else false

abbrev is_hex : ℕ → Bool
is_hex c = (leb b'0' c && leb c b'9') || ((leb b'a' c && leb c b'f') || (leb b'A' c && leb c b'F'))

-- the loop of `looksLikeID`, with the digits counted so far
unfoldable pub looks_like_id_from : ℕ → Name → Bool
looks_like_id_from hex [] = leb 16 hex
looks_like_id_from hex (c ∷ cs) =
    let rest = looks_like_id_from (if is_hex c then suc hex else hex) cs in
    if is_hex c || c == b'-' then rest else false

-- `looksLikeID`
unfoldable pub looks_like_id : Name → Bool
unfolding looks_like_id_from
looks_like_id s = looks_like_id_from 0 s

-- `betterCanonical`
unfoldable pub better_canonical : Name → Name → Bool
unfolding looks_like_id name_lt
better_canonical candidate best = elim (looks_like_id candidate) [
  | true ↦ if looks_like_id best then name_lt candidate best else false
  | false ↦ if looks_like_id best then true else name_lt candidate best
]

-- the host that an announced PTR record names, if it is one under .local
unfoldable pub ptr_host : ModelRr → Option Name
unfolding before_suffix
ptr_host r =
    elim (before_suffix (if is_empty r.target then r.content else r.target)
      (b'.' ∷ b'l' ∷ b'o' ∷ b'c' ∷ b'a' ∷ b'l' ∷ b'.' ∷ [])) [
        | none ↦ none
        | some [] ↦ none
        | some (c ∷ cs) ↦ some (c ∷ cs)
      ]

-- one pass of the loop of `canonicalReversePTR`, on the best name so far and its TTL; the name is not
-- empty once there is one
unfoldable pub canonical_step : Name → ℕ → ModelRr → Name × ℕ
unfolding ptr_host better_canonical
canonical_step best ttl r = elim (ptr_host r) [
  | none ↦ (best, ttl)
  | some host ↦ if is_empty best || better_canonical host best then (host, r.ttl) else (best, ttl)
]

-- the loop of `canonicalReversePTR`
unfoldable pub canonical_from : Name × ℕ → List ModelRr → Name × ℕ
unfolding canonical_step
canonical_from best [] = best
canonical_from best (r ∷ rest) = canonical_from (canonical_step best.0 best.1 r) rest

-- `canonicalReversePTR`; none for nil
unfoldable pub canonical_reverse_ptr : List ModelRr → Name → Name → Option Rr
unfolding canonical_from
canonical_reverse_ptr ptrs name local_domain =
    let (best, ttl) = canonical_from ([], 0) ptrs in
    let suffix =
      if not (is_empty local_domain)
      then b'.' ∷ (local_domain ++ (b'.' ∷ []))
      else (b'.' ∷ b'l' ∷ b'o' ∷ b'c' ∷ b'a' ∷ b'l' ∷ b'.' ∷ []) in
    if is_empty best
    then none
    else some (record {
      hdr = record { name = name; rrtype = type_ptr; ttl = if ttl == 0 then 120 else ttl };
      body = Body.ptr (best ++ suffix);
    })

-- `answerReverse` under a reverse zone
unfoldable pub reverse_reply : Library → Snapshot → MdnsView → Msg → Name → ℕ → RevZone → Msg
unfolding authoritative_reply get append_matching any_matching canonical_reverse_ptr
    set_negative_soa
reverse_reply lib snap view req name qtype rz =
    let resp = authoritative_reply lib req in
    let static = slice (get name snap.static) in
    let negative = set_negative_soa lib resp rz.soa rz.apex rcode_success in
    if qtype == type_ptr || qtype == type_any
    then if any_matching lib static name type_ptr
      then append_matching lib resp static name type_ptr
      else elim (canonical_reverse_ptr (slice (get name view.reverse)) name snap.local_domain) [
        | none ↦ negative
        | some ptr ↦ record resp { answer = resp.answer ++ (ptr ∷ []) }
      ]
    else negative

-- `answerReverse`
unfoldable pub answer_reverse : Library → Snapshot → MdnsView → Msg → Name → ℕ → Outcome
unfolding longest_reverse_zone reverse_reply
answer_reverse lib snap view req name qtype = elim (longest_reverse_zone name snap.reverse_z) [
  | none ↦ to_upstream
  | some rz ↦ answered (reverse_reply lib snap view req name qtype rz)
]
