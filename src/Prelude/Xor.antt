-- ===== src/Prelude/Xor.antt =====
-- `^` on words of any width, digit by digit: the native operation is a recursion on binary digits
-- with fuel, and the fuel is dropped here.
use dcscan_modules_api.Prelude.{
  ℕ, zero, suc, ◌+◌, ◌*◌, ◌/◌, ◌%◌, ◌≤◌, ◌<◌, ◌≡◌, refl, sym, ap, ◌∙◌, arith,
}
use mathlib.Core.Path.{ap₂}
use Prim.Native.Nat.{bit_xor, digits, differ, bit_xor-bitwise}

abbrev xor_digits : ℕ → ℕ → ℕ → ℕ
xor_digits n a b = digits (λ c. c) differ n a b

xor_digits-zero : (fuel b : ℕ) → xor_digits fuel 0 b ≡ b
xor_digits-zero zero b = refl
xor_digits-zero (suc fuel) b = refl

-- More fuel than the number gives the same digits.
xor_digits-fuel :
    (a b few many : ℕ) → a ≤ few → few ≤ many → xor_digits few a b ≡ xor_digits many a b
xor_digits-fuel zero b few many fits more = xor_digits-zero few b ∙ sym (xor_digits-zero many b)
xor_digits-fuel (suc a) b (suc few) (suc many) fits more =
    omega (arith, xor_digits-fuel (suc a / 2) (b / 2) few many (omega arith) (omega arith))
xor_digits-fuel (suc a) b (suc few) zero fits more = absurd (omega arith)
xor_digits-fuel (suc a) b zero many fits more = absurd (omega arith)

zero-bit_xor : (b : ℕ) → bit_xor 0 b ≡ b
zero-bit_xor b = bit_xor-bitwise 0 b

differ-parity : (b : ℕ) → differ 0 (b % 2) ≡ b % 2
differ-parity b = refl

-- The lowest digit of a sum without carries, and the digits above it.
pub bit_xor_step : (a b : ℕ) → bit_xor a b ≡ bit_xor (a / 2) (b / 2) * 2 + differ (a % 2) (b % 2)
bit_xor_step zero b = omega (arith, zero-bit_xor b, zero-bit_xor (b / 2), differ-parity b)
bit_xor_step (suc a) b = omega (
  arith,
  bit_xor-bitwise (suc a) b,
  bit_xor-bitwise (suc a / 2) (b / 2),
  xor_digits-fuel (suc a / 2) (b / 2) (suc a / 2) a (omega arith) (omega arith),
)

differ-le-one : (x y : ℕ) → x < 2 → y < 2 → differ x y < 2
differ-le-one zero y p q = q
differ-le-one (suc zero) zero p q = p
differ-le-one (suc zero) (suc zero) p q = omega arith
differ-le-one (suc zero) (suc (suc y)) p q = absurd (omega arith)
differ-le-one (suc (suc x)) y p q = absurd (omega arith)

-- A shift to the right goes through.
pub bit_xor-half : (a b : ℕ) → bit_xor a b / 2 ≡ bit_xor (a / 2) (b / 2)
bit_xor-half a b =
    omega (arith, bit_xor_step a b, differ-le-one (a % 2) (b % 2) (omega arith) (omega arith))

quarter : (a : ℕ) → a / 2 / 2 ≡ a / 4
quarter a = omega arith

sixteenth : (a : ℕ) → a / 4 / 4 ≡ a / 16
sixteenth a = omega arith

byte_up : (a : ℕ) → a / 16 / 16 ≡ a / 256
byte_up a = omega arith

bit_xor-quarter : (a b : ℕ) → bit_xor a b / 4 ≡ bit_xor (a / 4) (b / 4)
bit_xor-quarter a b =
    sym (quarter (bit_xor a b))
    ∙ ap (λ n. n / 2) (bit_xor-half a b)
    ∙ bit_xor-half (a / 2) (b / 2)
    ∙ ap₂ bit_xor (quarter a) (quarter b)

bit_xor-sixteenth : (a b : ℕ) → bit_xor a b / 16 ≡ bit_xor (a / 16) (b / 16)
bit_xor-sixteenth a b =
    sym (sixteenth (bit_xor a b))
    ∙ ap (λ n. n / 4) (bit_xor-quarter a b)
    ∙ bit_xor-quarter (a / 4) (b / 4)
    ∙ ap₂ bit_xor (sixteenth a) (sixteenth b)

-- Mixing a byte into a word leaves the bits above the byte.
pub bit_xor-byte : (byte w : ℕ) → byte < 256 → bit_xor byte w / 256 ≡ w / 256
bit_xor-byte byte w h =
    sym (byte_up (bit_xor byte w))
    ∙ ap (λ n. n / 16) (bit_xor-sixteenth byte w)
    ∙ bit_xor-sixteenth (byte / 16) (w / 16)
    ∙ ap₂ bit_xor {x = byte / 16 / 16} {y = 0} (omega arith) (byte_up w)
    ∙ zero-bit_xor (w / 256)
