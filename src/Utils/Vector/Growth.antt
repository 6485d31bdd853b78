-- ===== src/Utils/Vector/Growth.antt =====
-- Growth of a vector, and what its constructors keep.
use dcscan_modules_api.Prelude.{
  ℕ, ◌+◌, ◌*◌, ◌≤◌, ◌<◌, max, ◌≡◌, refl, sym, ap, ◌∙◌, ◌⊎◌, inr, true, false, List, [], ◌∷◌, ◌++◌,
  append-nil, append_assoc, arith, length, length-append,
}
use dcscan_modules_api.Utils.Vector.{
  Vector, empty, reserve, make_room, emplace, push, push_all, capacity,
}

-- The elements fit the allocation, which is not empty if there is one.
pub record IsValid {ℓ} {A : Type ℓ} (v : Vector A) : Type 0 where
  pub fits : length v.items ≤ v.max_size
  pub allocated : (v.allocated ≡ true) × (0 < v.max_size) ⊎ (v.allocated ≡ false) × (v.max_size ≡ 0)

module _ {ℓ} {A : Type ℓ} where
  pub empty-IsValid : IsValid (empty {A = A})
  unfolding empty
  empty-IsValid = record { fits = omega arith; allocated = inr (refl, refl) }

  make_room_lem :
      (v : Vector A)
      → IsValid v
      → (length v.items < (make_room v).max_size)
        × ((make_room v).allocated ≡ true)
        × ((make_room v).items ≡ v.items)
        × ((make_room v).max_size ≤ max v.max_size (2 * length v.items + 1))
  unfolding make_room
  make_room_lem v ok = ground arith

  -- `reserve` keeps a vector valid with its elements; so does `push`, which appends one.
  pub reserve-IsValid :
      (n : ℕ) (v : Vector A) → IsValid v → IsValid (reserve n v) × ((reserve n v).items ≡ v.items)
  unfolding reserve
  reserve-IsValid n v ok = ground arith

  pub push-IsValid : (a : A) (v : Vector A) → IsValid v → IsValid (push a v)
  unfolding push emplace
  push-IsValid a v ok = ground (arith, make_room_lem v ok, length-append v.items (a ∷ []))

  pub items-push : (a : A) (v : Vector A) → IsValid v → (push a v).items ≡ v.items ++ a ∷ []
  unfolding push emplace
  items-push a v ok = ap (λ xs. xs ++ a ∷ []) (make_room_lem v ok).2

  capacity-push :
      (a : A) (v : Vector A)
      → IsValid v
      → (push a v).max_size ≤ max v.max_size (2 * length v.items + 1)
  unfolding push emplace
  capacity-push a v ok = (make_room_lem v ok).3

  push_all_lem :
      (xs : List A) (v : Vector A)
      → IsValid v
      → IsValid (push_all xs v)
        × ((push_all xs v).items ≡ v.items ++ xs)
        × ((push_all xs v).max_size ≤ max v.max_size (2 * (length v.items + length xs)))
  unfolding push_all
  push_all_lem [] v ok = (ok, sym (append-nil v.items), omega arith)
  push_all_lem (x ∷ xs) v ok =
      let (still, same, cap) = push_all_lem xs (push x v) (push-IsValid x v ok) in
      let one_more : length (push x v).items ≡ length v.items + 1 =
        omega (arith, ap length (items-push x v ok), length-append v.items (x ∷ [])) in
      (
        still,
        same ∙ ap (λ ys. ys ++ xs) (items-push x v ok) ∙ append_assoc v.items (x ∷ []) xs,
        omega (arith, capacity-push x v ok),
      )

  -- Pushing the elements of `xs` one by one onto an empty vector stores exactly these, in order,
  -- in an allocation that holds them and is at most twice as large as they need.
  pub push_all-empty :
      (xs : List A)
      → IsValid (push_all xs empty)
        × ((push_all xs empty).items ≡ xs)
        × (capacity (push_all xs empty) ≤ 2 * length xs)
  unfolding capacity empty
  push_all-empty xs =
      let (ok, same, cap) = push_all_lem xs empty empty-IsValid in (ok, same, omega (arith, cap))
