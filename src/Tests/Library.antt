-- ===== src/Tests/Library.antt =====
-- A DNS library that reads the names, the TTLs, the types and nothing else of a line.
use splitdns.Prelude.{
  ℕ, ◌^◌, ◌<◌, ◌≡◌, ◌≢◌, refl, sym, ap, ◌∙◌, true, false, Option, none, some, some-injective, List,
  [], ◌∷◌, ◌++◌, take, All, arith, Bool-cases, Option-cases, List-cases, inl, inr,
}
use splitdns.Netmatch.{v4}
use splitdns.Dns.{Name, Rr, Body, has_suffix}
use splitdns.Model.{ModelRr}
use splitdns.Model.Render.{
  Library, IsLibrary, decimal, dot, space, ensure_dot, line, fields, is_plain, parse_uint,
}
use splitdns.Model.Render.RoundTrip.{IsBare, fields-space, fields-decimal, parse_uint-decimal}

abbrev pub made : Name → ℕ → ℕ → Rr
made name ttl rtype = record {
  hdr = record { name = name; rrtype = rtype; ttl = ttl };
  body = Body.other [];
}

-- the record of a line with a TTL and a type, both numbers
abbrev of_numbers : Name → Option ℕ → Option ℕ → Option Rr
of_numbers name (some ttl) (some rtype) = some (made name ttl rtype)
of_numbers name _ _ = none

unfoldable pub of_fields : List Name → Option Rr
unfolding parse_uint
of_fields (n ∷ t ∷ c ∷ ty ∷ rest) = of_numbers n (parse_uint 32 t) (parse_uint 16 ty)
of_fields _ = none

unfoldable pub library : Library
unfolding of_fields fields ensure_dot decimal parse_uint
library = record {
  fqdn = ensure_dot;
  class_to_string = decimal;
  type_to_string = decimal;
  new_rr = λ l. of_fields (fields l);
  set_reply = λ req. record req {
    truncated = false;
    authoritative = false;
    recursion_available = false;
    rcode = 0;
    question = take 1 req.question;
    answer = [];
    ns = [];
    extra = [];
  };
  set_rcode = λ req rcode. record req { rcode = rcode; answer = []; ns = []; extra = [] };
  parse_addr = λ n. elim (parse_uint 32 n) [ none ↦ none | some a ↦ some (v4 a) ];
  show_addr = λ a. elim a [ v4 n ↦ decimal n | _ ↦ [] ];
}

plain-IsBare : (n : Name) → All (λ c. is_plain c ≡ true) n → IsBare n
plain-IsBare [] p = tt
plain-IsBare (c ∷ cs) (p, ps) = (ground (arith, p), plain-IsBare cs ps)

append-IsBare : (m n : Name) → IsBare m → IsBare n → IsBare (m ++ n)
append-IsBare [] n p q = q
append-IsBare (c ∷ cs) n (p, ps) q = (p, append-IsBare cs n ps q)

ensure_dot-IsBare :
    (c : ℕ) (cs : Name)
    → IsBare (c ∷ cs)
    → (d : ℕ) × (ds : Name) × (ensure_dot (c ∷ cs) ≡ d ∷ ds) × IsBare (d ∷ ds)
unfolding ensure_dot
ensure_dot-IsBare c cs b = elim (Bool-cases (has_suffix (c ∷ cs) dot)) [
  | inl e ↦ (c, cs, rw (e, ensure_dot) refl, b)
  | inr e ↦ (c, cs ++ dot, rw (e, ensure_dot) refl, append-IsBare (c ∷ cs) dot b (refl, tt))
]

of_fields-ttl :
    (name : Name) (ttl : ℕ) (rest : List Name) (rr : Rr)
    → ttl < 2 ^ 32
    → of_fields (name ∷ decimal ttl ∷ rest) ≡ some rr
    → rr.hdr.ttl ≡ ttl
unfolding of_fields
of_fields-ttl name ttl [] rr fits e = absurd (cc e)
of_fields-ttl name ttl (c ∷ []) rr fits e = absurd (cc e)
of_fields-ttl name ttl (c ∷ ty ∷ rest) rr fits e = elim (Option-cases (parse_uint 16 ty)) [
  | inl n ↦ absurd (cc (rw (parse_uint-decimal 32 ttl fits fits, n, of_fields) at e))
  | inr (u, n) ↦
      ap (λ r. r.hdr.ttl)
        (sym (
          some-injective (made name ttl u) rr
            (rw (parse_uint-decimal 32 ttl fits fits, n, of_fields) at e)))
]

head-ttl :
    (name : Name) (d : ℕ) (ds : Name) (ttl : ℕ) (rest : Name) (rr : Rr)
    → name ≡ d ∷ ds
    → IsBare (d ∷ ds)
    → ttl < 2 ^ 32
    → of_fields (fields (name ++ (space ++ (decimal ttl ++ (space ++ rest))))) ≡ some rr
    → rr.hdr.ttl ≡ ttl
head-ttl name d ds ttl rest rr n bare fits e =
    let split : fields (name ++ (space ++ (decimal ttl ++ (space ++ rest))))
        ≡ (d ∷ ds) ∷ decimal ttl ∷ fields rest =
      rw n (
        fields-space d ds (decimal ttl ++ (space ++ rest)) bare
        ∙ ap (λ x. (d ∷ ds) ∷ x) (fields-decimal ttl rest)) in
    of_fields-ttl (d ∷ ds) ttl (fields rest) rr fits (rw split at e)

line-ttl :
    (r : ModelRr) (rr : Rr)
    → r.name ≢ []
    → All (λ c. is_plain c ≡ true) r.name
    → r.ttl < 2 ^ 32
    → of_fields (fields (line library r)) ≡ some rr
    → rr.hdr.ttl ≡ r.ttl
unfolding line
line-ttl r rr some_name plain fits e = elim (List-cases r.name) [
  | inl n ↦ absurd (some_name n)
  | inr (c, cs, n) ↦
      let (d, ds, full, bare) = ensure_dot-IsBare c cs (plain-IsBare (c ∷ cs) (rw n at plain)) in
      head-ttl (ensure_dot r.name) d ds r.ttl _ rr (ap ensure_dot n ∙ full) bare fits e
]

pub library-IsLibrary : IsLibrary library
unfolding library
library-IsLibrary = record {
  rcode_set_reply = λ req. refl;
  answer_set_reply = λ req. refl;
  ns_set_reply = λ req. refl;
  question_set_reply = λ req q e. rw e refl;
  ttl_new_rr = line-ttl;
}
