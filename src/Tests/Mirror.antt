-- ===== src/Tests/Mirror.antt =====
-- internal/mirror on concrete inputs.
use splitdns.Prelude.{ℕ, ◌≤◌, ◌<◌, ◌≡◌, ◌↔◌, refl, true, false, arith}
use splitdns.Mirror.Serial.{serial_lt, serial_lt_iff, serial_add}

-- the comparison across the wrap, and near the midpoint
wraps :
    (serial_lt 4294967295 0 ≡ true)
    × (serial_lt 2400000000 2400000001 ≡ true)
    × (serial_lt 5 5 ≡ false)
unfolding serial_lt
wraps = (refl, refl, refl)

serial_lt_iff_example :
    ((serial_lt 4294967290 3 ≡ true)
      ↔ ((n : ℕ) × (1 ≤ n) × (n < 0x80000000) × (◌≡◌ {A = ℕ} 3 (serial_add 4294967290 n))))
    × ¬ ((serial_lt 4294967290 3 ≡ true) × (serial_lt 3 4294967290 ≡ true))
serial_lt_iff_example = serial_lt_iff 4294967290 3 (omega arith) (omega arith)
