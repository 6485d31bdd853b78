-- ===== src/Core/Database/Names.antt =====
-- The comparison of names.
use dcscan_modules_api.Prelude.{
  ℕ, ◌≡◌, refl, inl, inr, true, [], ◌∷◌, arith, ◌==◌, ==_iff, ==_refl, Bool-cases,
}
use mathlib.Core.Path.{ap₂}
use dcscan_modules_api.Core.Database.{Chars}
use dcscan_modules_api.Core.Database.Cache.{same_chars}

pub same_chars_refl : (n : Chars) → same_chars n n ≡ true
unfolding same_chars
same_chars_refl [] = refl
same_chars_refl (c ∷ cs) = ground (arith, ==_refl c, same_chars_refl cs)

pub same_chars_sound : (n m : Chars) → same_chars n m ≡ true → n ≡ m
unfolding same_chars
same_chars_sound [] [] h = refl
same_chars_sound [] (d ∷ ds) h = cc
same_chars_sound (c ∷ cs) [] h = cc
same_chars_sound (c ∷ cs) (d ∷ ds) h = elim (Bool-cases (c == d)) [
  | inl same ↦ ap₂ ◌∷◌ ((==_iff c d).0 same) (same_chars_sound cs ds (ground arith))
  | inr differs ↦ absurd (ground arith)
]

==_sym : (a b : ℕ) → (a == b) ≡ (b == a)
==_sym a b = ground (arith, ==_iff a b, ==_iff b a)

pub same_chars_sym : (a b : Chars) → same_chars a b ≡ same_chars b a
unfolding same_chars
same_chars_sym [] [] = refl
same_chars_sym [] (d ∷ ds) = refl
same_chars_sym (c ∷ cs) [] = refl
same_chars_sym (c ∷ cs) (d ∷ ds) = ground (arith, ==_sym c d, same_chars_sym cs ds)
