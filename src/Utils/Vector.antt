-- ===== src/Utils/Vector.antt =====
-- `DCS::Utils::Vector` (DCS_Utils/include/DCS_ModuleUtils.h). The elements up to `end_offset` are a
-- list; `allocated` says that `data` is not null. An allocation that fails is not modelled.
pub mod Growth
use dcscan_modules_api.Prelude.{
  ℕ, zero, suc, ◌+◌, ◌-◌, ◌*◌, ◌/◌, ◌%◌, ◌^◌, ◌≤◌, ◌<◌, min, max, ◌≡◌, refl, sym, ap, ◌∙◌, ◌≢◌, ◌↔◌,
  ◌⊎◌, inl, inr, Bool, true, false, not, ◌&&◌, ◌||◌, Option, none, some, List, [], ◌∷◌, ◌++◌, map,
  append-nil, append_assoc, arith, ltb, leb, ◌==◌, if◌then◌else◌, ltb→lt, lt→ltb, leb→le, le→leb,
  ==_iff, ==_refl, Bool-cases, Option-cases, length, get_elem?, get_or, take, drop, set,
  length-append, length-take, length-drop, take-append-drop, take_exact, drop_exact, take_within,
  length-map, All,
}
use dcscan_modules_api.Prelude.Words.{le_bytes, le_value, length-le_bytes, le_value-le_bytes}

pub record Vector {ℓ} (A : Type ℓ) : Type ℓ where
  pub allocated : Bool
  pub max_size : ℕ
  pub items : List A

module _ {ℓ} {A : Type ℓ} where
  unfoldable pub empty : Vector A
  empty = record { allocated = false; max_size = 0; items = [] }

  unfoldable pub reallocate : ℕ → Vector A → Vector A
  reallocate sz v =
      if not v.allocated
      then record v { allocated = true; max_size = 1 }
      else if sz == 0
      then record v { max_size = v.max_size * 2 }
      else if ltb v.max_size sz
      then record v { max_size = sz }
      else v

  unfoldable pub reserve : ℕ → Vector A → Vector A
  unfolding reallocate
  reserve count v = reallocate count v

  -- `if(end_offset >= max_size) reallocate();`
  unfoldable pub make_room : Vector A → Vector A
  unfolding reallocate
  make_room v = if leb v.max_size (length v.items) then reallocate 0 v else v

  unfoldable pub emplace : A → Vector A → Vector A
  emplace a v = record (make_room v) { items = (make_room v).items ++ a ∷ [] }

  unfoldable pub push : A → Vector A → Vector A
  push a v = emplace a v

  -- `operator[]`: a read past the last element is outside the model.
  unfoldable pub at : Vector A → ℕ → Option A
  at v i = get_elem? v.items i

  unfoldable pub size : Vector A → ℕ
  size v = length v.items

  unfoldable pub capacity : Vector A → ℕ
  capacity v = v.max_size

  -- `destroy` leaves `max_size` and `end_offset`; the objects that it is called on here are new.
  unfoldable pub copy_construct : Vector A → Vector A
  copy_construct v = record { allocated = true; max_size = v.max_size; items = v.items }

  -- `Vector(Vector<T>&&)` assigns the fields of the new, empty object to the one that it moves from.
  -- The first component is the new object, the second the other one afterwards.
  unfoldable pub move_construct : Vector A → Vector A × Vector A
  unfolding empty
  move_construct v = (empty, empty)

pub push_all {ℓ} : {A : Type ℓ} → List A → Vector A → Vector A
push_all [] v = v
push_all (a ∷ xs) v = push_all xs (push a v)
