-- ===== src/Utils/MessageQueue.antt =====
-- `DCS::Utils::SMessageQueue` (DCS_Utils/include/internal.h): the queue between two threads. The
-- lock makes each call one step; a `pop` that waits is two, since the lock is released in between.
pub mod Fifo
use dcscan_modules_api.Prelude.{
  ℕ, zero, suc, ◌+◌, ◌-◌, ◌*◌, ◌/◌, ◌%◌, ◌^◌, ◌≤◌, ◌<◌, min, max, ◌≡◌, refl, sym, ap, ◌∙◌, ◌≢◌, ◌↔◌,
  ◌⊎◌, inl, inr, Bool, true, false, not, ◌&&◌, ◌||◌, Option, none, some, List, [], ◌∷◌, ◌++◌, map,
  append-nil, append_assoc, arith, ltb, leb, ◌==◌, if◌then◌else◌, ltb→lt, lt→ltb, leb→le, le→leb,
  ==_iff, ==_refl, Bool-cases, Option-cases, length, get_elem?, get_or, take, drop, set,
  length-append, length-take, length-drop, take-append-drop, take_exact, drop_exact, take_within,
  length-map, All,
}
use dcscan_modules_api.Prelude.Words.{le_bytes, le_value, length-le_bytes, le_value-le_bytes}

module _ {ℓ} {A : Type ℓ} where
  unfoldable pub front : List A → Option (A × List A)
  front [] = none
  front (a ∷ q) = some (a, q)

  unfoldable pub push : A → List A → List A
  push a q = q ++ a ∷ []

  abbrev pub size : List A → ℕ
  size q = length q

  unfoldable pub last? : List A → Option A
  last? [] = none
  last? (a ∷ []) = some a
  last? (a ∷ b ∷ q) = last? (b ∷ q)

  -- The first half of `pop`: `none` waits on the condition variable.
  unfoldable pub pop_enter : List A → Option (A × List A)
  unfolding front
  pop_enter q = front q

  -- The second half, after a wake-up for whatever cause: `default` is `Type()`.
  unfoldable pub pop_woken : A → List A → A × List A
  unfolding front
  pop_woken default q = elim (front q) [ none ↦ (default, q) | some (a, rest) ↦ (a, rest) ]

  unfoldable pub peek_woken : A → List A → A
  unfolding front
  peek_woken default q = elim (front q) [ none ↦ default | some (a, rest) ↦ a ]

  unfoldable pub peek_back_woken : A → List A → A
  unfolding last?
  peek_back_woken default q = elim (last? q) [ none ↦ default | some a ↦ a ]
