-- ===== src/Acquisition/Encoder/Referencing.antt =====
-- The referencing loop ends when every axis has passed its reference mark.
use dcscan_modules_api.Prelude.{
  ℕ, ◌+◌, ◌/◌, ◌%◌, ◌^◌, ◌≡◌, refl, sym, ap, ◌∙◌, inl, inr, Bool, true, false, not, ◌&&◌, ◌||◌,
  Option, none, some, List, [], ◌∷◌, arith, ◌==◌, Bool-cases,
}
use mathlib.Core.Path.{ap₂}
use dcscan_modules_api.Acquisition.Encoder.{
  Entry, has_axis, still_referencing, reference, any_referencing, reference_loop, all_referencing,
}

-- The bit of the status word that tells a reference mark.
abbrev pub passed : ℕ → Entry → Bool
passed i entry = (entry.status i / 2 ^ 8) % 2 == 1

-- Whether an axis has passed its mark in one of the reads.
abbrev pub seen : ℕ → List (Option Entry) → Bool
seen i [] = false
seen i (none ∷ reads) = seen i reads
seen i (some entry ∷ reads) = passed i entry || seen i reads

abbrev pub has_entry : List (Option Entry) → Bool
has_entry [] = false
has_entry (none ∷ reads) = has_entry reads
has_entry (some entry ∷ reads) = true

abbrev pub is_some {ℓ} : {A : Type ℓ} → Option A → Bool
is_some none = false
is_some (some a) = true

-- An axis that is not in use, or has passed its mark.
abbrev pub done : ℕ → List (Option Entry) → ℕ → Bool
done axes reads i = not (has_axis axes i) || seen i reads

-- What the loop waits for, when the flags of the axes from `i` on are `rs`.
abbrev waits_for : ℕ → List (Option Entry) → ℕ → List Bool → Bool
waits_for axes reads i [] = true
waits_for axes reads i (r ∷ rs) = (not r || done axes reads i) && waits_for axes reads (i + 1) rs

still_lem :
    (axes i : ℕ) (entry : Entry) (reads : List (Option Entry)) (r : Bool)
    → (not (still_referencing axes entry i r) || done axes reads i)
      ≡ (not r || done axes (some entry ∷ reads) i)
unfolding still_referencing
still_lem axes i entry reads r = ground arith

waits-reference :
    (axes : ℕ) (entry : Entry) (reads : List (Option Entry)) (i : ℕ) (rs : List Bool)
    → waits_for axes reads i (reference axes entry i rs) ≡ waits_for axes (some entry ∷ reads) i rs
unfolding reference
waits-reference axes entry reads i [] = refl
waits-reference axes entry reads i (r ∷ rs) =
    ap₂ ◌&&◌ (still_lem axes i entry reads r) (waits-reference axes entry reads (i + 1) rs)

none_left :
    (axes : ℕ) (reads : List (Option Entry)) (i : ℕ) (rs : List Bool)
    → any_referencing rs ≡ false
    → waits_for axes reads i rs ≡ true
unfolding any_referencing
none_left axes reads i [] e = refl
none_left axes reads i (r ∷ rs) e = ground (arith, e, none_left axes reads (i + 1) rs)

not_seen : (i : ℕ) (reads : List (Option Entry)) → has_entry reads ≡ false → seen i reads ≡ false
not_seen i [] e = refl
not_seen i (none ∷ reads) e = not_seen i reads e
not_seen i (some entry ∷ reads) e = cc

still_waits :
    (axes i : ℕ) (entry : Entry) (reads : List (Option Entry)) (r : Bool)
    → has_entry reads ≡ false
    → still_referencing axes entry i r ≡ true
    → done axes reads i ≡ false
unfolding still_referencing
still_waits axes i entry reads r e f = ground (arith, f, not_seen i reads e)

some_left :
    (axes : ℕ) (entry : Entry) (reads : List (Option Entry)) (i : ℕ) (rs : List Bool)
    → has_entry reads ≡ false
    → any_referencing (reference axes entry i rs) ≡ true
    → waits_for axes reads i (reference axes entry i rs) ≡ false
unfolding reference any_referencing
some_left axes entry reads i [] e f = cc
some_left axes entry reads i (r ∷ rs) e f = elim (Bool-cases (still_referencing axes entry i r)) [
  | inl still ↦ rw (still, still_waits axes i entry reads r e still) refl
  | inr passed_by ↦ rw passed_by (
      some_left axes entry reads (i + 1) rs e
        (ap (λ b. b || any_referencing (reference axes entry (i + 1) rs)) (sym passed_by) ∙ f))
]

waits-none :
    (axes : ℕ) (reads : List (Option Entry)) (i : ℕ) (rs : List Bool)
    → waits_for axes (none ∷ reads) i rs ≡ waits_for axes reads i rs
waits-none axes reads i [] = refl
waits-none axes reads i (r ∷ rs) =
    ap (◌&&◌ (not r || done axes reads i)) (waits-none axes reads (i + 1) rs)

loop_lem :
    (axes : ℕ) (rs : List Bool) (reads : List (Option Entry))
    → is_some (reference_loop axes rs reads) ≡ (has_entry reads && waits_for axes reads 0 rs)
unfolding reference_loop
loop_lem axes rs [] = refl
loop_lem axes rs (none ∷ reads) =
    loop_lem axes rs reads ∙ ap (◌&&◌ (has_entry reads)) (sym (waits-none axes reads 0 rs))
loop_lem axes rs (some entry ∷ reads) =
    elim (Bool-cases (any_referencing (reference axes entry 0 rs))) [
      | inl left ↦ rw left (
          loop_lem axes (reference axes entry 0 rs) reads ∙ elim (Bool-cases (has_entry reads)) [
            | inl more ↦ rw more (waits-reference axes entry reads 0 rs)
            | inr no_more ↦ rw no_more (
                sym (some_left axes entry reads 0 rs no_more left)
                ∙ waits-reference axes entry reads 0 rs)
          ])
      | inr gone ↦ rw gone (
          sym (none_left axes reads 0 (reference axes entry 0 rs) gone)
          ∙ waits-reference axes entry reads 0 rs)
    ]

-- Whatever the box returns, the referencing loop ends within these reads exactly if one of them has an
-- entry and each of the four axes that is in use has passed its reference mark in one of them.
pub reference_loop-ends :
    (axes : ℕ) (reads : List (Option Entry))
    → is_some (reference_loop axes all_referencing reads) ≡ (
        has_entry reads
        && (done axes reads 0 && (done axes reads 1 && (done axes reads 2 && done axes reads 3))))
reference_loop-ends axes reads =
    loop_lem axes all_referencing reads
    ∙ ap
        (λ b.
          has_entry reads && (done axes reads 0 && (done axes reads 1 && (done axes reads 2 && b))))
        (and_true (done axes reads 3))
  where
    and_true : (b : Bool) → (b && true) ≡ b
    and_true true = refl
    and_true false = refl
