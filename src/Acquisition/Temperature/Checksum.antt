-- ===== src/Acquisition/Temperature/Checksum.antt =====
-- The table-driven checksum is the bitwise one of the modbus specification.
use dcscan_modules_api.Prelude.{
  ℕ, zero, suc, ◌+◌, ◌*◌, ◌/◌, ◌%◌, ◌^◌, ◌<◌, ◌≡◌, refl, sym, ap, ◌∙◌, Bool, true, false, ◌&&◌,
  List, [], ◌∷◌, arith, ltb, ◌==◌, if◌then◌else◌, ltb→lt, ==_iff, get_or, All,
}
use Prim.Native.Nat.{bit_xor}
use dcscan_modules_api.Prelude.Xor.{bit_xor-byte}
use dcscan_modules_api.Acquisition.Temperature.{crc_table, crc_round, crc_loop, calculate_crc16}

-- One bit: shift right, and subtract the polynomial if a one falls out.
abbrev bit_step : ℕ → ℕ
bit_step x = if x % 2 == 1 then bit_xor (x / 2) 0xa001 else x / 2

abbrev byte_step : ℕ → ℕ
byte_step x =
    bit_step (bit_step (bit_step (bit_step (bit_step (bit_step (bit_step (bit_step x)))))))

-- A test of every number below `bound`.
every_below : (ℕ → Bool) → ℕ → Bool
every_below test zero = true
every_below test (suc bound) = every_below test bound && test bound

-- The table row of the low byte, and the size, of a word with high byte `hi` and low byte `lo`.
cell : ℕ → ℕ → Bool
cell hi lo =
    byte_step (hi * 256 + lo) == bit_xor hi (get_or crc_table lo 0)
    && ltb (byte_step (hi * 256 + lo)) 65536

row : ℕ → Bool
row hi = every_below (cell hi) 256

table : every_below row 256 ≡ true
unfolding every_below row cell
table = refl

both : (p q : Bool) → (p && q) ≡ true → (p ≡ true) × (q ≡ true)
both true true h = (refl, refl)
both true false h = cc
both false q h = cc

every_below-at :
    (test : ℕ → Bool) (bound n : ℕ) → n < bound → every_below test bound ≡ true → test n ≡ true
unfolding every_below
every_below-at test zero n small passed = absurd (omega arith)
every_below-at test (suc bound) n small passed =
    let (others, here) = both (every_below test bound) (test bound) passed in
    ground (arith, others, here, every_below-at test bound n)

table_lem :
    (hi lo : ℕ)
    → hi < 256
    → lo < 256
    → (byte_step (hi * 256 + lo) ≡ bit_xor hi (get_or crc_table lo 0))
      × (byte_step (hi * 256 + lo) < 65536)
unfolding row cell
table_lem hi lo h l =
    let (same, small) =
      both _ _ (every_below-at (cell hi) 256 lo l (every_below-at row 256 hi h table)) in
    ((==_iff _ _).0 same, ltb→lt _ _ small)

-- The checksum of the modbus specification: mix in a byte, then eight bit steps.
pub bitwise_crc : ℕ → List ℕ → ℕ
bitwise_crc crc [] = crc
bitwise_crc crc (byte ∷ bytes) = bitwise_crc (byte_step (bit_xor byte crc)) bytes

split_byte : (x : ℕ) → (x / 256) * 256 + x % 256 ≡ x
split_byte x = omega arith

crc_round-bitwise :
    (crc byte : ℕ)
    → crc < 65536
    → byte < 256
    → (crc_round crc byte ≡ byte_step (bit_xor byte crc)) × (crc_round crc byte < 65536)
unfolding crc_round
crc_round-bitwise crc byte c b = (same, rw same (rw (split_byte x) at small))
  where
    x : ℕ
    x = bit_xor byte crc

    upper : x / 256 ≡ crc / 256
    upper = bit_xor-byte byte crc b

    entry : byte_step ((x / 256) * 256 + x % 256) ≡ bit_xor (x / 256) (get_or crc_table (x % 256) 0)
    entry = (table_lem (x / 256) (x % 256) (omega (arith, upper)) (omega arith)).0

    small : byte_step ((x / 256) * 256 + x % 256) < 65536
    small = (table_lem (x / 256) (x % 256) (omega (arith, upper)) (omega arith)).1

    same : bit_xor (crc / 256) (get_or crc_table (x % 256) 0) ≡ byte_step x
    same =
        ap (λ k. bit_xor k (get_or crc_table (x % 256) 0)) (sym upper)
        ∙ sym entry
        ∙ ap byte_step (split_byte x)

crc_loop-bitwise :
    (crc : ℕ) (bytes : List ℕ)
    → crc < 65536
    → All (λ b. b < 256) bytes
    → (crc_loop crc bytes ≡ bitwise_crc crc bytes) × (crc_loop crc bytes < 65536)
unfolding crc_loop bitwise_crc
crc_loop-bitwise crc [] c h = (refl, c)
crc_loop-bitwise crc (byte ∷ bytes) c h =
    let (same, small) = crc_round-bitwise crc byte c h.0 in
    let (rest, fits) = crc_loop-bitwise (crc_round crc byte) bytes small h.1 in
    (rest ∙ ap (λ k. bitwise_crc k bytes) same, fits)

-- On every sequence of bytes the table-driven checksum is the bitwise one with the polynomial
-- 0xa001 and the start value 0xffff, and it fits 16 bits.
pub calculate_crc16-bitwise :
    (bytes : List ℕ)
    → All (λ b. b < 256) bytes
    → (calculate_crc16 bytes ≡ bitwise_crc 0xffff bytes) × (calculate_crc16 bytes < 2 ^ 16)
unfolding calculate_crc16
calculate_crc16-bitwise bytes h = crc_loop-bitwise 0xffff bytes (omega arith) h
