-- ===== src/Prelude/Words.antt =====
-- Machine words as the program lays them out in memory: little-endian bytes.
use native.Mathlib.Nat.{pow-suc}
use dcscan_modules_api.Prelude.{
  ℕ, zero, suc, ◌+◌, ◌*◌, ◌/◌, ◌%◌, ◌^◌, ◌<◌, ◌≡◌, refl, ap, List, [], ◌∷◌, arith, length,
}

-- The `n` low bytes of a word, lowest first.
unfoldable pub le_bytes : ℕ → ℕ → List ℕ
le_bytes zero w = []
le_bytes (suc n) w = (w % 256) ∷ le_bytes n (w / 256)

-- The word that little-endian bytes stand for.
unfoldable pub le_value : List ℕ → ℕ
le_value [] = 0
le_value (b ∷ bs) = b + 256 * le_value bs

pub length-le_bytes : (n w : ℕ) → length (le_bytes n w) ≡ n
unfolding le_bytes
length-le_bytes zero w = refl
length-le_bytes (suc n) w = ap suc (length-le_bytes n (w / 256))

pub le_value-le_bytes : (n w : ℕ) → w < 256 ^ n → le_value (le_bytes n w) ≡ w
unfolding le_bytes le_value
le_value-le_bytes zero w h = omega arith
le_value-le_bytes (suc n) w h =
    omega (arith, pow-suc 256 n, le_value-le_bytes n (w / 256) (omega (arith, pow-suc 256 n)))
