-- ===== src/Utils/Text.antt =====
-- `DCS::Utils::String` (DCS_Utils/src/String.cpp). `buffer_size` is a field of its own: the
-- constructor from a text counts its terminator, the one from a pointer and a size does not. The
-- list `bytes` is the whole allocation.
pub mod Split
use dcscan_modules_api.Prelude.{
  ℕ, zero, suc, ◌+◌, ◌-◌, ◌*◌, ◌/◌, ◌%◌, ◌^◌, ◌≤◌, ◌<◌, min, max, ◌≡◌, refl, sym, ap, ◌∙◌, ◌≢◌, ◌↔◌,
  ◌⊎◌, inl, inr, Bool, true, false, not, ◌&&◌, ◌||◌, Option, none, some, List, [], ◌∷◌, ◌++◌, map,
  append-nil, append_assoc, arith, ltb, leb, ◌==◌, if◌then◌else◌, ltb→lt, lt→ltb, leb→le, le→leb,
  ==_iff, ==_refl, Bool-cases, Option-cases, length, get_elem?, get_or, take, drop, set,
  length-append, length-take, length-drop, take-append-drop, take_exact, drop_exact, take_within,
  length-map, All,
}
use dcscan_modules_api.Prelude.Words.{le_bytes, le_value, length-le_bytes, le_value-le_bytes}
use dcscan_modules_api.Utils.Vector.{Vector, empty, push}

pub record Text : Type 0 where
  pub buffer_size : ℕ
  pub bytes : List ℕ

-- `strlen`, for bytes that hold a terminator
unfoldable pub strlen : List ℕ → ℕ
strlen [] = 0
strlen (c ∷ cs) = let rest = strlen cs in if c == 0 then 0 else suc rest

-- `String(const char*)`
unfoldable pub from_text : List ℕ → Text
from_text text = record { buffer_size = strlen text + 1; bytes = take (strlen text + 1) text }

-- `String(const char*, size_t)`
unfoldable pub from_range : List ℕ → ℕ → Text
from_range ptr size = record { buffer_size = size; bytes = take size ptr ++ 0 ∷ [] }

-- `String(const String&)` and `operator=`
unfoldable pub copy : Text → Text
unfolding from_text
copy s = from_text s.bytes

pub size : Text → ℕ
size s = s.buffer_size

-- The rounds of the loop of `split` that are left, at index `i`; the result has the last `offset`.
unfoldable pub split_loop : ℕ → List ℕ → ℕ → ℕ → ℕ → Vector Text → ℕ × Vector Text
split_loop separator buffer zero i offset output = (offset, output)
split_loop separator buffer (suc n) i offset output =
    let cut =
      split_loop separator buffer n (i + 1) (i + 1)
        (push (from_range (drop offset buffer) (i - offset)) output) in
    let on = split_loop separator buffer n (i + 1) offset output in
    if get_or buffer i 0 == separator then cut else on

unfoldable pub split : ℕ → Text → Vector Text
split separator s =
    let (offset, output) = split_loop separator s.bytes s.buffer_size 0 0 empty in
    push (from_range (drop offset s.bytes) (s.buffer_size - offset)) output
