-- ===== src/Tests/Audit.antt =====
-- internal/ddns/audit.go on concrete logs.
use splitdns.Prelude.{suc, ◌+◌, ◌≡◌, ◌≢◌, refl, none, List, [], ◌∷◌, map, All, arith}
use splitdns.Dns.{Name}
use splitdns.Ddns.Audit.{
  Format, AuditEntry, Fact, payload, new_audit, append_all, verify_chain, append_all-verify_chain,
}
use splitdns.Ddns.Audit.Tampering.{IsHash, same_payloads}

-- a hash that has no collisions
abbrev format : Format
format = record { digits = λ n. (n + 48) ∷ []; sha = map suc }

map-suc_injective : (x y : Name) → map suc x ≡ map suc y → x ≡ y
map-suc_injective [] [] h = refl
map-suc_injective [] (d ∷ y) h = absurd (cc h)
map-suc_injective (c ∷ x) [] h = absurd (cc h)
map-suc_injective (c ∷ x) (d ∷ y) h =
    let e : suc c ≡ suc d = cc h in
    let same : c ≡ d = omega (arith, e) in
    let rest = map-suc_injective x y (cc h) in λ i. same i ∷ rest i

map-suc_nonzero : (x : Name) → All (λ c. c ≢ 0) (map suc x)
map-suc_nonzero [] = tt
map-suc_nonzero (c ∷ x) = (λ h. absurd (omega (arith, h)), map-suc_nonzero x)

format-IsHash : IsHash format
format-IsHash = record { text = map-suc_nonzero; collision_free = map-suc_injective }

abbrev fact : Fact
fact = record {
  time = b'0' ∷ [];
  host = (b'e' ∷ []);
  change = b'+' ∷ [];
  result = b'a' ∷ [];
  detail = [];
}

abbrev log : List AuditEntry
log = append_all format (new_audit []) (fact ∷ fact ∷ [])

log-intact : verify_chain format log ≡ none
log-intact = append_all-verify_chain format [] (fact ∷ fact ∷ [])

same_payloads_example : map (payload format) log ≡ map (payload format) log
same_payloads_example = same_payloads format format-IsHash log log log-intact log-intact refl refl

-- the first entry of the log
abbrev entry : AuditEntry
entry = record {
  seq = 0;
  prev = [];
  hash = [];
  time = [];
  token_id = [];
  host = [];
  change = [];
  result = [];
  detail = [];
}
