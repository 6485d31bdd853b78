-- ===== src/Core/Memory/Tests.antt =====
-- Runs of the allocator on small inputs, and its theorem at inputs that meet its hypotheses.
use dcscan_modules_api.Prelude.{◌≤◌, ◌≡◌, refl, List, [], ◌∷◌, arith}
use dcscan_modules_api.Core.Memory.{LinearDataPointer, create, allocate, reset}
use dcscan_modules_api.Core.Memory.Blocks.{Block, added, Reach, Consecutive, blocks-Consecutive}

abbrev fresh : LinearDataPointer
fresh = create 64 32

-- A block of 40 bytes, one of 30, which does not fit, and one of 24.
abbrev first : LinearDataPointer
first = (allocate 40 fresh).1

abbrev second : LinearDataPointer
second = (allocate 30 first).1

abbrev third : LinearDataPointer
third = (allocate 24 second).1

abbrev blocks : List Block
blocks =
    added 24 (allocate 24 second).0
      (added 30 (allocate 30 first).0 (added 40 (allocate 40 fresh).0 []))

two_blocks : blocks ≡ (0, 40) ∷ (40, 24) ∷ []
unfolding allocate create
two_blocks = refl

blocks-Consecutive_example : Consecutive 0 blocks third.used_size × (third.used_size ≤ 64)
blocks-Consecutive_example = blocks-Consecutive 64 32 (omega arith) (
    Reach.allocated 24 (omega arith)
      (Reach.allocated 30 (omega arith) (Reach.allocated 40 (omega arith) Reach.created)))

emptied : reset third ≡ fresh
unfolding reset allocate create
emptied = refl
