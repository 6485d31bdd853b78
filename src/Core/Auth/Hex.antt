-- ===== src/Core/Auth/Hex.antt =====
-- Bytes in hexadecimal digits can be read back.
use dcscan_modules_api.Prelude.{
  ℕ, ◌+◌, ◌-◌, ◌*◌, ◌/◌, ◌%◌, ◌≤◌, ◌<◌, ◌≡◌, refl, ◌⊎◌, List, [], ◌∷◌, arith, ltb, if◌then◌else◌,
  length, All,
}
use mathlib.Core.Path.{ap₂}
use dcscan_modules_api.Core.Auth.{hex_digit, hex_stringify_bytes}

-- The value of a digit, and of a text of pairs of digits.
abbrev pub value : ℕ → ℕ
value c = if ltb c 58 then c - 48 else c - 87

abbrev pub read_hex : List ℕ → List ℕ
read_hex [] = []
read_hex (c ∷ []) = []
read_hex (c ∷ d ∷ text) = (value c * 16 + value d) ∷ read_hex text

-- One of the digits 0 to 9 and a to f.
abbrev pub IsHexDigit : ℕ → Type 0
IsHexDigit c = ((48 ≤ c) × (c < 58)) ⊎ ((97 ≤ c) × (c < 103))

value-hex_digit : (n : ℕ) → n < 16 → value (hex_digit n) ≡ n
unfolding hex_digit
value-hex_digit n h = ground (arith, h)

hex_digit-IsHexDigit : (n : ℕ) → n < 16 → IsHexDigit (hex_digit n)
unfolding hex_digit
hex_digit-IsHexDigit n h = ground (arith, h)

-- Bytes are written in two digits each, every one of them one of 0 to 9 and a to f, and read back from
-- these as they were.
pub read_hex-hex_stringify :
    (bytes : List ℕ)
    → All (λ b. b < 256) bytes
    → (read_hex (hex_stringify_bytes bytes) ≡ bytes)
      × (length (hex_stringify_bytes bytes) ≡ 2 * length bytes)
      × All IsHexDigit (hex_stringify_bytes bytes)
unfolding hex_stringify_bytes
read_hex-hex_stringify [] h = (refl, refl, tt)
read_hex-hex_stringify (b ∷ bytes) h =
    let (read, size, digits) = read_hex-hex_stringify bytes h.1 in
    let high = value-hex_digit (b / 16) (omega (arith, h.0)) in
    let low = value-hex_digit (b % 16) (omega arith) in
    (
      ap₂ ◌∷◌ {x = value (hex_digit (b / 16)) * 16 + value (hex_digit (b % 16))} {y = b}
          (rw (high, low) (omega arith)) read,
      omega (arith, size),
      (
        hex_digit-IsHexDigit (b / 16) (omega (arith, h.0)),
        (hex_digit-IsHexDigit (b % 16) (omega arith), digits),
      ),
    )
