-- ===== src/Mirror/Serial.antt =====
-- SOA serial comparison, internal/mirror/serial.go. A `uint32` is a number below 2^32, and its
-- subtraction wraps.
use splitdns.Prelude.{
  ℕ, ◌+◌, ◌-◌, ◌%◌, ◌<◌, ◌≤◌, ◌≡◌, ◌↔◌, Bool, true, false, ◌&&◌, not, if◌then◌else◌, ltb, ◌==◌,
  arith,
}

abbrev pub u32_mod : ℕ
u32_mod = 4294967296

abbrev half : ℕ
half = 0x80000000

-- `b - a` on uint32
pub sub32 : ℕ → ℕ → ℕ
sub32 b a = (b + u32_mod - a) % u32_mod

-- `serialLt`
unfoldable pub serial_lt : ℕ → ℕ → Bool
unfolding sub32
serial_lt a b = not (a == b) && ltb (sub32 b a) half

-- `SerialState`
pub record SerialState : Type 0 where
  pub last : ℕ
  pub fetched : Bool

-- `SerialState.ShouldFetch`
unfoldable pub should_fetch : SerialState → ℕ → Bool
unfolding serial_lt
should_fetch s observed = if not s.fetched then true else serial_lt s.last observed

-- `s + n` in the sequence space of RFC 1982
abbrev pub serial_add : ℕ → ℕ → ℕ
serial_add s n = (s + n) % u32_mod

-- A serial is never older than itself.
pub serial_lt_irrefl : (a : ℕ) → serial_lt a a ≡ false
unfolding serial_lt
serial_lt_irrefl a = ground arith

-- The comparison is that of RFC 1982: for two serials of 32 bits, `a` is older than `b` exactly
-- when `b` is `a` advanced by a step from 1 to 2^31 - 1 with wrap-around, and the two are never
-- each older than the other.
pub serial_lt_iff :
    (a b : ℕ)
    → a < u32_mod
    → b < u32_mod
    → ((serial_lt a b ≡ true) ↔ ((n : ℕ) × (1 ≤ n) × (n < half) × (b ≡ serial_add a n)))
      × ¬ ((serial_lt a b ≡ true) × (serial_lt b a ≡ true))
unfolding serial_lt
serial_lt_iff a b ha hb = (
  (λ h. (sub32 b a, ground arith, ground arith, ground arith), λ (n, l, u, e). ground arith),
  λ h. ground arith,
)

-- A zone whose records were fetched at serial `s` is fetched again when the authority advances the
-- serial by any step from 1 to 2^31 - 1, also across the wrap to 0, and is not fetched for the same
-- serial nor for one that the authority rolled back by such a step.
pub should_fetch_advance :
    (s n : ℕ)
    → s < u32_mod
    → 1 ≤ n
    → n < half
    → (should_fetch (record { last = s; fetched = true }) (serial_add s n) ≡ true)
      × (should_fetch (record { last = s; fetched = true }) s ≡ false)
      × (should_fetch (record { last = serial_add s n; fetched = true }) s ≡ false)
unfolding should_fetch
should_fetch_advance s n hs l u = (ground arith, ground arith, ground arith)

-- A zone that never fetched records is fetched whatever serial is observed.
pub should_fetch_first :
    (s observed : ℕ) → should_fetch (record { last = s; fetched = false }) observed ≡ true
unfolding should_fetch
should_fetch_first s observed = ground arith
