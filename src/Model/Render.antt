-- ===== src/Model/Render.antt =====
-- How a record is handed to the DNS library: `RDATA`, `ToMiekg`, `ParseSRVContent` and `ensureDot` of
-- internal/model/rr.go, with what they use of `fmt`, `strings` and `strconv` on ASCII texts.
pub mod RoundTrip
use splitdns.Prelude.{
  ℕ, zero, suc, ◌<◌, ◌≡◌, ◌≢◌, All, ◌+◌, ◌-◌, ◌*◌, ◌/◌, ◌%◌, ◌^◌, Bool, true, false, ◌&&◌, ◌||◌,
  Option, none, some, List, [], ◌∷◌, ◌++◌, if◌then◌else◌, ltb, leb, ◌==◌,
}
use splitdns.Netmatch.{Addr}
use splitdns.Dns.{Name, has_suffix, Question, Msg, Rr, class_inet, rcode_success}
use splitdns.Model.{ModelRr}

-- What the resolver takes of the DNS library (github.com/miekg/dns): `Fqdn`, the two tables of names,
-- `NewRR` (none for an error and for no record), `SetReply` and `SetRcode`; and of net/netip
-- `ParseAddr` and `Addr.String`.
pub record Library : Type 0 where
  pub fqdn : Name → Name
  pub class_to_string : ℕ → Name
  pub type_to_string : ℕ → Name
  pub new_rr : Name → Option Rr
  pub set_reply : Msg → Msg
  pub set_rcode : Msg → ℕ → Msg
  pub parse_addr : Name → Option Addr
  pub show_addr : Addr → Name

abbrev pub type_mx : ℕ
type_mx = 15

abbrev pub type_srv : ℕ
type_srv = 33

abbrev pub dot : Name
dot = b'.' ∷ []

abbrev pub space : Name
space = 32 ∷ []

-- the digits of a number before what follows, `%d`; `fuel` bounds their number
unfoldable pub digits : ℕ → ℕ → Name → Name
digits zero n rest = rest
digits (suc fuel) n rest =
    let more = digits fuel (n / 10) ((b'0' + n % 10) ∷ rest) in
    if ltb n 10 then (b'0' + n) ∷ rest else more

-- `%d` of an unsigned number of at most 32 bits, which has at most ten digits
unfoldable pub decimal : ℕ → Name
unfolding digits
decimal n = digits 10 n []

-- `ensureDot`
unfoldable pub ensure_dot : Name → Name
unfolding has_suffix
ensure_dot [] = []
ensure_dot (c ∷ cs) = if has_suffix (c ∷ cs) dot then c ∷ cs else c ∷ cs ++ dot

-- `classOrINET`
abbrev pub class_or_inet : ℕ → ℕ
class_or_inet c = if c == 0 then class_inet else c

-- `RR.RDATA`
unfoldable pub rdata : ModelRr → Name
unfolding decimal ensure_dot
rdata r =
    if r.rtype == type_mx
    then decimal r.priority ++ (space ++ ensure_dot r.target)
    else if r.rtype == type_srv
    then decimal r.priority
      ++ (space
          ++ (decimal r.weight ++ (space ++ (decimal r.port ++ (space ++ ensure_dot r.target)))))
    else r.content

-- "<name> <ttl> <class> <type> <rdata>"
unfoldable pub line : Library → ModelRr → Name
unfolding decimal ensure_dot rdata
line lib r =
    ensure_dot r.name
    ++ (space
        ++ (decimal r.ttl
            ++ (space
                ++ (lib.class_to_string (class_or_inet r.class)
                    ++ (space ++ (lib.type_to_string r.rtype ++ (space ++ rdata r)))))))

-- `RR.ToMiekg`; none for an error
unfoldable pub to_miekg : Library → ModelRr → Option Rr
unfolding line
to_miekg lib r = lib.new_rr (line lib r)

-- a white space of ASCII
abbrev pub is_space : ℕ → Bool
is_space c = c == 32 || (leb 9 c && leb c 13)

-- a byte put before the first of some fields, or in a field of its own
abbrev extend : Bool → ℕ → List Name → List Name
extend true c (f ∷ fs) = (c ∷ f) ∷ fs
extend _ c fs = (c ∷ []) ∷ fs

-- whether a field begins here
abbrev begins : Name → Bool
begins [] = false
begins (c ∷ _) = if is_space c then false else true

-- `strings.Fields`
unfoldable pub fields : Name → List Name
fields [] = []
fields (c ∷ cs) = if is_space c then fields cs else extend (begins cs) c (fields cs)

-- the value of decimal digits after what was read before them
unfoldable pub digits_value : ℕ → Name → Option ℕ
digits_value n [] = some n
digits_value n (c ∷ cs) =
    if leb b'0' c && leb c b'9' then digits_value (n * 10 + (c - b'0')) cs else none

-- `strconv.ParseUint(s, 10, bits)`; none for an error
unfoldable pub parse_uint : ℕ → Name → Option ℕ
unfolding digits_value
parse_uint bits [] = none
parse_uint bits (c ∷ cs) = elim (digits_value 0 (c ∷ cs)) [
  | none ↦ none
  | some n ↦ if ltb n (2 ^ bits) then some n else none
]

-- `ParseSRVContent`: weight, port and target
unfoldable pub parse_srv_content : Name → Option (ℕ × ℕ × Name)
unfolding fields parse_uint ensure_dot
parse_srv_content content = elim (fields content) [
  | w ∷ p ∷ t ∷ [] ↦ elim (parse_uint 16 w) [
    | none ↦ none
    | some weight ↦ elim (parse_uint 16 p) [
      | none ↦ none
      | some port ↦ some (weight, port, ensure_dot t)
    ]
  ]
  | _ ↦ none
]

-- a letter, a digit, a dash, an underscore or a dot
abbrev pub is_plain : ℕ → Bool
is_plain c =
    (leb b'a' c && leb c b'z')
    || ((leb b'A' c && leb c b'Z')
        || ((leb b'0' c && leb c b'9') || (c == b'-' || (c == b'_' || c == b'.'))))

-- What is relied on of the library: `SetReply` answers nothing yet, with success and the question; and
-- a record parsed from a line has the TTL that the line gives after a plain owner.
pub record IsLibrary (lib : Library) : Type 0 where
  pub rcode_set_reply : (req : Msg) → (lib.set_reply req).rcode ≡ rcode_success
  pub answer_set_reply : (req : Msg) → (lib.set_reply req).answer ≡ []
  pub ns_set_reply : (req : Msg) → (lib.set_reply req).ns ≡ []
  pub question_set_reply :
      (req : Msg) (q : Question) → req.question ≡ q ∷ [] → (lib.set_reply req).question ≡ q ∷ []
  pub ttl_new_rr :
      (r : ModelRr) (rr : Rr)
      → r.name ≢ []
      → All (λ c. is_plain c ≡ true) r.name
      → r.ttl < 2 ^ 32
      → lib.new_rr (line lib r) ≡ some rr
      → rr.hdr.ttl ≡ r.ttl
