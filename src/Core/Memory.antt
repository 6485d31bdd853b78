-- ===== src/Core/Memory.antt =====
-- The linear allocator (DCS_Core/include/DCS_ModuleCore.h, DCS_Core/src/memory.cpp) on a buffer that could
-- be allocated. An address is its offset in the buffer; logging and constructors are left out.
pub mod Blocks
mod Tests
use dcscan_modules_api.Prelude.{
  ℕ, zero, suc, ◌+◌, ◌-◌, ◌*◌, ◌/◌, ◌%◌, ◌^◌, ◌≤◌, ◌<◌, min, max, ◌≡◌, refl, sym, ap, ◌∙◌, ◌≢◌, ◌↔◌,
  ◌⊎◌, inl, inr, Bool, true, false, not, ◌&&◌, ◌||◌, Option, none, some, List, [], ◌∷◌, ◌++◌, map,
  append-nil, append_assoc, arith, ltb, leb, ◌==◌, if◌then◌else◌, ltb→lt, lt→ltb, leb→le, le→leb,
  ==_iff, ==_refl, Bool-cases, Option-cases, length, get_elem?, get_or, take, drop, set,
  length-append, length-take, length-drop, take-append-drop, take_exact, drop_exact, take_within,
  take_all, length-map, All,
}
use dcscan_modules_api.Prelude.Words.{le_bytes, le_value, length-le_bytes, le_value-le_bytes}

-- `LinearDataPointer`, with `data` as an offset from `data_start`.
pub record LinearDataPointer : Type 0 where
  pub data_offset : ℕ
  pub size : ℕ
  pub used_size : ℕ
  pub alignment : ℕ

unfoldable pub create : ℕ → ℕ → LinearDataPointer
create size align = record { data_offset = 0; size = size; used_size = 0; alignment = align }

-- `allocate` for a type of `sizeof_t` bytes; `none` is a null pointer.
unfoldable pub allocate : ℕ → LinearDataPointer → Option ℕ × LinearDataPointer
allocate sizeof_t buffer =
    let used_size = (buffer.used_size + sizeof_t) % 2 ^ 64 in
    if ltb buffer.size used_size
    then (none, record buffer { used_size = (used_size + (2 ^ 64 - sizeof_t)) % 2 ^ 64 })
    else (
      some buffer.data_offset,
      record buffer { used_size = used_size; data_offset = buffer.data_offset + sizeof_t },
    )

unfoldable pub reset : LinearDataPointer → LinearDataPointer
reset buffer = record buffer { used_size = 0; data_offset = 0 }
