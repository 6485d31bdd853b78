-- ===== src/Network/Cli/Distance.antt =====
-- The table of the edit distance, and what it says of two names.
use dcscan_modules_api.Prelude.{
  ℕ, zero, suc, ◌+◌, min, ◌==◌, if◌then◌else◌, ◌<◌, ◌≡◌, refl, sym, ap, ◌∙◌, List, [], ◌∷◌, ◌++◌,
  arith, ==_refl, length, get_or,
}
use mathlib.Core.Path.{ap₂}
use dcscan_modules_api.Core.Database.{Chars}
use dcscan_modules_api.Network.Cli.{
  char_at, cost, least, fill, fill_column, first_column, column, levenshtein_distance,
}

-- The recursion that the table is meant to fill in: the least of an insertion, a deletion, and a
-- substitution with its cost.
unfoldable pub distance : (ℕ → ℕ) → ℕ → ℕ → ℕ
distance costs zero j = j
distance costs (suc i) zero = suc i
distance costs (suc i) (suc j) =
    min (min (distance costs i (suc j) + 1) (distance costs (suc i) j + 1))
      (distance costs i j + costs (suc i))

least_lem : (a b c : ℕ) → least a b c ≡ min (min a b) c
unfolding least
least_lem a b c = ground arith

-- The column `j` of that recursion from the row `i` on, `n` entries.
entries : (ℕ → ℕ) → ℕ → ℕ → ℕ → List ℕ
entries costs j i zero = []
entries costs j i (suc n) = distance costs i j ∷ entries costs j (suc i) n

distance-zero : (costs : ℕ → ℕ) (i : ℕ) → distance costs i 0 ≡ i
unfolding distance
distance-zero costs zero = refl
distance-zero costs (suc i) = refl

first_lem : (costs : ℕ → ℕ) (i n : ℕ) → first_column i n ≡ entries costs 0 i n
unfolding first_column entries
first_lem costs i zero = refl
first_lem costs i (suc n) = ap₂ ◌∷◌ (sym (distance-zero costs i)) (first_lem costs (suc i) n)

fill_lem :
    (costs : ℕ → ℕ) (j i n : ℕ)
    → fill costs (suc i) (distance costs i (suc j)) (entries costs j i (suc n))
      ≡ entries costs (suc j) (suc i) n
unfolding fill entries distance
fill_lem costs j i zero = refl
fill_lem costs j i (suc n) =
    ap (λ entry. entry ∷ fill costs (suc (suc i)) entry (entries costs j (suc i) (suc n)))
      (least_lem (distance costs i (suc j) + 1) (distance costs (suc i) j + 1)
        (distance costs i j + costs (suc i)))
    ∙ ap (◌∷◌ (distance costs (suc i) (suc j))) (fill_lem costs j (suc i) n)

column_lem : (costs : ℕ → ℕ) (n j : ℕ) → column costs n j ≡ entries costs j 0 (suc n)
unfolding column fill_column
column_lem costs n zero = first_lem costs 0 (suc n)
column_lem costs n (suc j) =
    ap (fill_column costs (suc j)) (column_lem costs n j)
    ∙ unfold entries distance in ap (◌∷◌ (suc j)) (fill_lem costs j 0 n)

get-entries :
    (costs : ℕ → ℕ) (j i n k : ℕ)
    → k < n
    → get_or (entries costs j i n) k 0 ≡ distance costs (i + k) j
unfolding entries
get-entries costs j i zero k h = absurd (omega (arith, h))
get-entries costs j i (suc n) zero h =
    ap (λ m. distance costs m j) {x = i} {y = i + zero} (omega arith)
get-entries costs j i (suc n) (suc k) h =
    get-entries costs j (suc i) n k (omega (arith, h))
    ∙ ap (λ m. distance costs m j) {x = suc i + k} {y = i + suc k} (omega arith)

-- The cost of a substitution in the code: 0 if both texts have the same character, a terminator, or
-- whatever is behind it, at the place `i`, and else 1.
unfoldable pub mismatch : (ℕ → ℕ) → Chars → Chars → ℕ → ℕ
mismatch memory s1 s2 i =
    if get_or (s1 ++ 0 ∷ []) i (memory i) == get_or (s2 ++ 0 ∷ []) i (memory i) then 0 else 1

-- The entry that the loops leave in the corner of the table is the value of the recursion, for the
-- costs of the code.
pub levenshtein_distance-recursive :
    (memory : ℕ → ℕ) (s1 s2 : Chars)
    → levenshtein_distance memory s1 s2 ≡ distance (mismatch memory s1 s2) (length s1) (length s2)
unfolding levenshtein_distance cost char_at mismatch
levenshtein_distance-recursive memory s1 s2 =
    ap (λ c. get_or c (length s1) 0) (column_lem (cost memory s1 s2) (length s1) (length s2))
    ∙ get-entries (cost memory s1 s2) (length s2) 0 (suc (length s1)) (length s1) (omega arith)
    ∙ ap (λ m. distance (cost memory s1 s2) m (length s2)) {x = 0 + length s1} {y = length s1}
        (omega arith)

diagonal_free : (costs : ℕ → ℕ) (n : ℕ) → ((i : ℕ) → costs (suc i) ≡ 0) → distance costs n n ≡ 0
unfolding distance
diagonal_free costs zero h = refl
diagonal_free costs (suc n) h = omega (arith, diagonal_free costs n h, h n)

-- Two names that differ only in their first characters are at the distance 0: the loops compare the
-- characters at the places 1, 2, ... in both texts, and never the first one.
pub first_character_ignored :
    (memory : ℕ → ℕ) (a b : ℕ) (s : Chars) → levenshtein_distance memory (a ∷ s) (b ∷ s) ≡ 0
first_character_ignored memory a b s =
    levenshtein_distance-recursive memory (a ∷ s) (b ∷ s)
    ∙ diagonal_free (mismatch memory (a ∷ s) (b ∷ s)) (suc (length s)) same
  where
    same : (i : ℕ) → mismatch memory (a ∷ s) (b ∷ s) (suc i) ≡ 0
    same i = unfold mismatch in rw (==_refl (get_or (s ++ 0 ∷ []) i (memory (suc i)))) refl
