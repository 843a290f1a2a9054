-- ===== src/Ddns/Audit.antt =====
-- The audit chain of internal/ddns/audit.go. `Format` has the decimal form of a number and the hash of
-- a byte string, in hexadecimal; the time is its text. The sink of the lines is left out: it does not
-- change what is returned. The sequence number is a `uint64` and does not reach 2^64.
pub mod Tampering
use splitdns.Prelude.{
  ℕ, ◌+◌, ◌≡◌, ◌≢◌, ◌⊎◌, inl, inr, refl, sym, ap, ◌∙◌, Bool, true, false, not, Option, none, some,
  List, [], ◌∷◌, ◌++◌, if◌then◌else◌, ◌==◌, map, length, arith, Bool-cases, Option-cases,
}
use mathlib.Core.List.{append_assoc}
use splitdns.Dns.{Name, name_eq, name_eq_iff}

-- `%d` and `sha256` in hexadecimal
pub record Format : Type 0 where
  pub digits : ℕ → Name
  pub sha : Name → Name

-- `Entry`
pub record AuditEntry : Type 0 where
  pub seq : ℕ
  pub prev : Name
  pub hash : Name
  pub time : Name
  pub token_id : Name
  pub host : Name
  pub change : Name
  pub result : Name
  pub detail : Name

abbrev pub bar : ℕ
bar = b'|'

-- the payload of `chainHash`
unfoldable pub payload : Format → AuditEntry → Name
payload f e =
    f.digits e.seq
    ++ (bar
        ∷ (e.prev
            ++ (bar
                ∷ (e.time
                    ++ (bar
                        ∷ (e.token_id
                            ++ (bar
                                ∷ (e.host
                                    ++ (bar
                                        ∷ (e.change
                                            ++ (bar ∷ (e.result ++ (bar ∷ e.detail)))))))))))))

-- `chainHash`
unfoldable pub chain_hash : Format → Name → AuditEntry → Name
unfolding payload
chain_hash f prev e = f.sha (prev ++ (0 ∷ payload f e))

-- `Audit`
pub record Audit : Type 0 where
  pub token_id : Name
  pub seq : ℕ
  pub prev : Name

-- `NewAudit`
abbrev pub new_audit : Name → Audit
new_audit token_id = record { token_id = token_id; seq = 0; prev = [] }

-- What `Append` is told.
pub record Fact : Type 0 where
  pub time : Name
  pub host : Name
  pub change : Name
  pub result : Name
  pub detail : Name

-- `Append`
unfoldable pub append : Format → Audit → Fact → Audit × AuditEntry
unfolding chain_hash
append f a x =
    let e : AuditEntry = record {
      seq = a.seq;
      prev = a.prev;
      hash = [];
      time = x.time;
      token_id = a.token_id;
      host = x.host;
      change = x.change;
      result = x.result;
      detail = x.detail;
    } in
    let h = chain_hash f a.prev e in (record a { seq = a.seq + 1; prev = h }, record e { hash = h })

-- the entries of calls after one another
unfoldable pub append_all : Format → Audit → List Fact → List AuditEntry
unfolding append
append_all f a [] = []
append_all f a (x ∷ xs) = let r = append f a x in r.1 ∷ append_all f r.0 xs

-- the loop of `VerifyChain`; none is an intact chain, `some i` the index of the first broken entry
unfoldable pub verify_from : Format → ℕ → Name → List AuditEntry → Option ℕ
unfolding chain_hash name_eq
verify_from f i prev [] = none
verify_from f i prev (e ∷ es) =
    let rest = verify_from f (i + 1) e.hash es in
    if not (e.seq == i)
    then some i
    else if not (name_eq e.prev prev)
    then some i
    else if not (name_eq (chain_hash f prev e) e.hash)
    then some i
    else rest

-- `VerifyChain`
unfoldable pub verify_chain : Format → List AuditEntry → Option ℕ
unfolding verify_from
verify_chain f es = verify_from f 0 [] es

append_all-verify :
    (f : Format) (a : Audit) (xs : List Fact)
    → verify_from f a.seq a.prev (append_all f a xs) ≡ none
unfolding verify_from append_all append
append_all-verify f a [] = refl
append_all-verify f a (x ∷ xs) =
    let r = append f a x in
    let seq : (a.seq == a.seq) ≡ true = ground arith in
    let prev : name_eq a.prev a.prev ≡ true = (name_eq_iff a.prev a.prev).1 refl in
    let same : name_eq (r.1).hash (r.1).hash ≡ true = (name_eq_iff (r.1).hash (r.1).hash).1 refl in
    rw (seq, prev, same) (append_all-verify f r.0 xs)

-- What was appended to a new log verifies.
pub append_all-verify_chain :
    (f : Format) (token : Name) (xs : List Fact)
    → verify_chain f (append_all f (new_audit token) xs) ≡ none
unfolding verify_chain
append_all-verify_chain f token xs = append_all-verify f (new_audit token) xs

-- an entry of an intact chain
pub record Links (f : Format) (i : ℕ) (prev : Name) (e : AuditEntry) (es : List AuditEntry)
    : Type 0 where
  pub seq : e.seq ≡ i
  pub before : e.prev ≡ prev
  pub hashed : chain_hash f prev e ≡ e.hash
  pub rest : verify_from f (i + 1) e.hash es ≡ none

pub verify_from-Links :
    (f : Format) (i : ℕ) (prev : Name) (e : AuditEntry) (es : List AuditEntry)
    → verify_from f i prev (e ∷ es) ≡ none
    → Links f i prev e es
unfolding verify_from
verify_from-Links f i prev e es h = elim (Bool-cases (e.seq == i)) [
  | inr a ↦ absurd (ground (arith, a, h))
  | inl a ↦ elim (Bool-cases (name_eq e.prev prev)) [
    | inr b ↦ absurd (ground (arith, a, b, h))
    | inl b ↦ elim (Bool-cases (name_eq (chain_hash f prev e) e.hash)) [
      | inr c ↦ absurd (ground (arith, a, b, c, h))
      | inl c ↦ record {
        seq = ground (arith, a);
        before = (name_eq_iff e.prev prev).0 b;
        hashed = (name_eq_iff (chain_hash f prev e) e.hash).0 c;
        rest = rw (a, b, c, verify_from) at h;
      }
    ]
  ]
]
