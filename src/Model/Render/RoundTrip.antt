-- ===== src/Model/Render/RoundTrip.antt =====
-- The numbers and the fields of records in text, there and back: internal/model/rr.go.
use splitdns.Prelude.{
  ℕ, zero, suc, ◌+◌, ◌-◌, ◌*◌, ◌/◌, ◌%◌, ◌^◌, ◌<◌, ◌≡◌, ◌⊎◌, inl, inr, refl, ap, ◌∙◌, true, false,
  ◌&&◌, some, [], ◌∷◌, ◌++◌, ltb, leb, All, arith, Bool-cases,
}
use splitdns.Dns.{Name}
use splitdns.Model.Render.{
  space, digits, decimal, ensure_dot, is_space, extend, fields, digits_value, parse_uint,
  parse_srv_content,
}

digit-value :
    (a m : ℕ) (rest : Name)
    → m < 10
    → digits_value a ((b'0' + m) ∷ rest) ≡ digits_value (a * 10 + m) rest
unfolding digits_value
digit-value a m rest lt =
    let is_digit : leb b'0' (b'0' + m) && leb (b'0' + m) b'9' ≡ true = ground (arith, lt) in
    let value : b'0' + m - b'0' ≡ m = omega arith in rw (is_digit, value, digits_value) refl

one-value :
    (m : ℕ) (rest : Name) → m < 10 → digits_value 0 ((b'0' + m) ∷ rest) ≡ digits_value m rest
one-value m rest lt =
    let same : 0 * 10 + m ≡ m = omega arith in
    digit-value 0 m rest lt ∙ ap (λ x. digits_value x rest) same

-- the fuel is enough for a number
abbrev Fits : ℕ → ℕ → Type 0
Fits zero m = ⊥
Fits (suc fuel) m = (m < 10) ⊎ Fits fuel (m / 10)

digits-value :
    (fuel m : ℕ) (rest : Name)
    → Fits fuel m
    → digits_value 0 (digits fuel m rest) ≡ digits_value m rest
unfolding digits
digits-value zero m rest f = absurd f
digits-value (suc fuel) m rest (inl lt) =
    let short : ltb m 10 ≡ true = ground arith in rw (short, digits) (one-value m rest lt)
digits-value (suc fuel) m rest (inr f) = elim (Bool-cases (ltb m 10)) [
  | inl short ↦ rw (short, digits) (one-value m rest (ground arith))
  | inr long ↦
      let more = digits-value fuel (m / 10) ((b'0' + m % 10) ∷ rest) f in
      let last = digit-value (m / 10) (m % 10) rest (omega arith) in
      let whole : m / 10 * 10 + m % 10 ≡ m = omega arith in
      rw (long, digits) (more ∙ (last ∙ ap (λ x. digits_value x rest) whole))
]

grow : (fuel k : ℕ) → ((m : ℕ) → m < k → Fits fuel m) → (m : ℕ) → m < k * 10 → Fits (suc fuel) m
grow fuel k small m lt = inr (small (m / 10) (omega arith))

-- ten digits are enough for 32 bits
fits32 : (m : ℕ) → m < 2 ^ 32 → Fits 10 m
fits32 m lt =
    let one : (x : ℕ) → x < 10 → Fits 1 x = λ x h. inl h in
    let five = grow 4 10000 (grow 3 1000 (grow 2 100 (grow 1 10 one))) in
    grow 9 1000000000 (grow 8 100000000 (grow 7 10000000 (grow 6 1000000 (grow 5 100000 five)))) m
      (omega arith)

digits-nonempty :
    (fuel m d : ℕ) (rest : Name) → (c : ℕ) × (cs : Name) × (digits fuel m (d ∷ rest) ≡ c ∷ cs)
unfolding digits
digits-nonempty zero m d rest = (d, rest, refl)
digits-nonempty (suc fuel) m d rest = elim (Bool-cases (ltb m 10)) [
  | inl short ↦ (b'0' + m, d ∷ rest, rw (short, digits) refl)
  | inr long ↦
      let (c, cs, e) = digits-nonempty fuel (m / 10) (b'0' + m % 10) (d ∷ rest) in
      (c, cs, rw (long, digits) e)
]

decimal-nonempty : (n : ℕ) → (c : ℕ) × (cs : Name) × (decimal n ≡ c ∷ cs)
unfolding decimal digits
decimal-nonempty n = elim (Bool-cases (ltb n 10)) [
  | inl short ↦ (b'0' + n, [], rw (short, digits) refl)
  | inr long ↦
      let (c, cs, e) = digits-nonempty 9 (n / 10) (b'0' + n % 10) [] in (c, cs, rw (long, digits) e)
]

-- A number of 32 bits is read back as it was written, if it fits in the bits that are read.
pub parse_uint-decimal :
    (bits n : ℕ) → n < 2 ^ 32 → n < 2 ^ bits → parse_uint bits (decimal n) ≡ some n
unfolding parse_uint decimal digits_value
parse_uint-decimal bits n small fits =
    let (c, cs, e) = decimal-nonempty n in
    let value : digits_value 0 (decimal n) ≡ some n = digits-value 10 n [] (fits32 n small) in
    let read : digits_value 0 (c ∷ cs) ≡ some n = rw e at value in
    let within : ltb n (2 ^ bits) ≡ true = ground arith in rw e (rw (read, within, parse_uint) refl)

-- no white space
abbrev pub IsBare : Name → Type 0
IsBare n = All (λ c. is_space c ≡ false) n

pub fields-space :
    (c : ℕ) (cs rest : Name)
    → IsBare (c ∷ cs)
    → fields (c ∷ cs ++ (space ++ rest)) ≡ (c ∷ cs) ∷ fields rest
unfolding fields
fields-space c [] rest (b, _) = rw (b, fields) refl
fields-space c (d ∷ cs) rest (b, (b', bs)) =
    let more = fields-space d cs rest (b', bs) in
    rw (b, fields) (rw b' (ap (extend true c) (rw (b', fields) at more)))

fields-last : (c : ℕ) (cs : Name) → IsBare (c ∷ cs) → fields (c ∷ cs) ≡ (c ∷ cs) ∷ []
unfolding fields
fields-last c [] (b, _) = rw (b, fields) refl
fields-last c (d ∷ cs) (b, (b', bs)) =
    let more = fields-last d cs (b', bs) in
    rw (b, fields) (rw b' (ap (extend true c) (rw (b', fields) at more)))

digits-IsBare : (fuel m : ℕ) (rest : Name) → IsBare rest → IsBare (digits fuel m rest)
unfolding digits
digits-IsBare zero m rest b = b
digits-IsBare (suc fuel) m rest b = elim (Bool-cases (ltb m 10)) [
  | inl short ↦ rw (short, digits) (ground arith, b)
  | inr long ↦
      rw (long, digits) (digits-IsBare fuel (m / 10) ((b'0' + m % 10) ∷ rest) (ground arith, b))
]

decimal-IsBare : (n : ℕ) → IsBare (decimal n)
unfolding decimal
decimal-IsBare n = digits-IsBare 10 n [] tt

pub fields-decimal :
    (n : ℕ) (rest : Name) → fields (decimal n ++ (space ++ rest)) ≡ decimal n ∷ fields rest
fields-decimal n rest =
    let (c, cs, e) = decimal-nonempty n in
    rw e (fields-space c cs rest (rw e at (decimal-IsBare n)))

-- The weight, the port and the target of an SRV record are read back from the text that is made of
-- them; the target is not empty, has no white space, and is read with a dot at its end.
pub parse_srv_content-rdata :
    (weight port c : ℕ) (cs : Name)
    → weight < 2 ^ 16
    → port < 2 ^ 16
    → IsBare (c ∷ cs)
    → parse_srv_content (decimal weight ++ (space ++ (decimal port ++ (space ++ (c ∷ cs)))))
      ≡ some (weight, port, ensure_dot (c ∷ cs))
unfolding parse_srv_content
parse_srv_content-rdata weight port c cs w p bare =
    let split : fields (decimal weight ++ (space ++ (decimal port ++ (space ++ (c ∷ cs)))))
        ≡ decimal weight ∷ decimal port ∷ (c ∷ cs) ∷ [] =
      fields-decimal weight (decimal port ++ (space ++ (c ∷ cs)))
      ∙ ap (λ x. decimal weight ∷ x)
          (fields-decimal port (c ∷ cs) ∙ ap (λ x. decimal port ∷ x) (fields-last c cs bare)) in
    rw
      (
        split,
        parse_uint-decimal 16 weight (omega arith) w,
        parse_uint-decimal 16 port (omega arith) p,
        parse_srv_content,
      )
      refl
