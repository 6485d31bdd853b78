-- ===== src/Core/Memory/Blocks.antt =====
-- The blocks that an allocator has given out.
use dcscan_modules_api.Prelude.{
  ℕ, ◌+◌, ◌%◌, ◌^◌, ◌≤◌, ◌<◌, ◌≡◌, refl, sym, ap, inl, inr, Option, none, some, List, [], ◌∷◌, ◌++◌,
  arith, ltb, Bool-cases,
}
use dcscan_modules_api.Core.Memory.{LinearDataPointer, create, allocate, reset}

-- A block: where it begins, and its size.
abbrev pub Block : Type 0
Block = ℕ × ℕ

abbrev pub added : ℕ → Option ℕ → List Block → List Block
added n none blocks = blocks
added n (some begin) blocks = blocks ++ (begin, n) ∷ []

-- The allocators that a row of calls reaches, with the blocks given out since the last reset, the first
-- ones first. A type has fewer than 2 ^ 63 bytes.
pub data Reach (size align : ℕ) : List Block → LinearDataPointer → Type 0 where
  created : Reach size align [] (create size align)
  allocated :
      {blocks : List Block} {buffer : LinearDataPointer} (n : ℕ)
      → n < 2 ^ 63
      → Reach size align blocks buffer
      → Reach size align (added n (allocate n buffer).0 blocks) (allocate n buffer).1
  was_reset :
      {blocks : List Block} {buffer : LinearDataPointer}
      → Reach size align blocks buffer
      → Reach size align [] (reset buffer)

-- Blocks that lie one behind the other between two offsets.
abbrev pub Consecutive : ℕ → List Block → ℕ → Type 0
Consecutive from [] to = from ≡ to
Consecutive from (b ∷ blocks) to = (b.0 ≡ from) × Consecutive (from + b.1) blocks to

Consecutive-append :
    (from to n : ℕ) (blocks : List Block)
    → Consecutive from blocks to
    → Consecutive from (blocks ++ (to, n) ∷ []) (to + n)
Consecutive-append from to n [] c = (sym c, ap (λ k. k + n) c)
Consecutive-append from to n (b ∷ blocks) c = (c.0, Consecutive-append (from + b.1) to n blocks c.1)

record Inv (size : ℕ) (blocks : List Block) (buffer : LinearDataPointer) : Type 0 where
  pub same_size : buffer.size ≡ size
  pub used : buffer.used_size ≡ buffer.data_offset
  pub inside : buffer.data_offset ≤ size
  pub consecutive : Consecutive 0 blocks buffer.data_offset

allocate-Inv :
    (size n : ℕ) (blocks : List Block) (buffer : LinearDataPointer)
    → size < 2 ^ 63
    → n < 2 ^ 63
    → Inv size blocks buffer
    → Inv size (added n (allocate n buffer).0 blocks) (allocate n buffer).1
unfolding allocate
allocate-Inv size n blocks buffer h k v =
    elim (Bool-cases (ltb buffer.size ((buffer.used_size + n) % 2 ^ 64))) [
      | inl full ↦ rw full (record {
        same_size = v.same_size;
        used = omega (arith, v.used, v.inside, h, k);
        inside = v.inside;
        consecutive = v.consecutive;
      })
      | inr room ↦ rw room (record {
        same_size = v.same_size;
        used = omega (arith, v.used, v.inside, h, k);
        inside = ground (arith, room, v.used, v.inside, v.same_size, h, k);
        consecutive = Consecutive-append 0 buffer.data_offset n blocks v.consecutive;
      })
    ]

reach-Inv :
    (size align : ℕ) {blocks : List Block} {buffer : LinearDataPointer}
    → size < 2 ^ 63
    → Reach size align blocks buffer
    → Inv size blocks buffer
unfolding create reset
reach-Inv size align h created = record {
  same_size = refl;
  used = refl;
  inside = omega arith;
  consecutive = refl;
}
reach-Inv size align h (allocated {blocks} {buffer} n k r) =
    allocate-Inv size n blocks buffer h k (reach-Inv size align h r)
reach-Inv size align h (was_reset {blocks} {buffer} r) = record {
  same_size = (reach-Inv size align h r).same_size;
  used = refl;
  inside = omega arith;
  consecutive = refl;
}

-- However many requests there are, and resets between them: the blocks given out since the last reset
-- lie one behind the other from the start of the buffer, so that no two overlap, up to the size that the
-- allocator counts as used, which is within the buffer.
pub blocks-Consecutive :
    (size align : ℕ) {blocks : List Block} {buffer : LinearDataPointer}
    → size < 2 ^ 63
    → Reach size align blocks buffer
    → Consecutive 0 blocks buffer.used_size × (buffer.used_size ≤ size)
blocks-Consecutive size align {blocks} {buffer} h r =
    let v = reach-Inv size align h r in (rw v.used v.consecutive, omega (arith, v.used, v.inside))
