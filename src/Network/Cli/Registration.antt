-- ===== src/Network/Cli/Registration.antt =====
-- Which command a name finds, and which one is the closest.
use dcscan_modules_api.Prelude.{
  ℕ, suc, length, ◌≤◌, ◌<◌, ◌≡◌, refl, sym, ap, ◌∙◌, ◌≢◌, ◌⊎◌, inl, inr, true, false, not, ◌&&◌,
  Option, none, some, List, [], ◌∷◌, ◌++◌, arith, ltb, if◌then◌else◌, ltb→lt, Bool-cases,
  Option-cases, All,
}
use dcscan_modules_api.Core.Database.{Chars}
use dcscan_modules_api.Core.Database.Cache.{same_chars}
use dcscan_modules_api.Core.Database.Names.{same_chars_refl, same_chars_sound}
use dcscan_modules_api.Network.Cli.Distance.{distance, mismatch, levenshtein_distance-recursive}
use dcscan_modules_api.Network.Cli.{
  Command, get, found, is_command, emplace, register, closest_from, closest,
}

far : (x bound : ℕ) → ltb x bound ≡ false → bound ≤ x
far x bound h = ground (arith, h)

module _ {S : Type 0} where
  get-emplace-same :
      (new : Command S) (cmd_reg : List (Command S))
      → get new.cmd_name cmd_reg ≡ none
      → get new.cmd_name (emplace new cmd_reg) ≡ some new
  unfolding get emplace
  get-emplace-same new [] h = rw (same_chars_refl new.cmd_name) refl
  get-emplace-same new (c ∷ cmd_reg) h =
      ground (arith, h, get-emplace-same new cmd_reg, same_chars_refl new.cmd_name)

  get-emplace-other :
      (name : Chars) (new : Command S) (cmd_reg : List (Command S))
      → same_chars new.cmd_name name ≡ false
      → get name (emplace new cmd_reg) ≡ get name cmd_reg
  unfolding get emplace
  get-emplace-other name new [] h = rw h refl
  get-emplace-other name new (c ∷ cmd_reg) h =
      ground (arith, h, get-emplace-other name new cmd_reg h)

  not_found :
      (name : Chars) (cmd_reg : List (Command S))
      → is_command name cmd_reg ≡ false
      → get name cmd_reg ≡ none
  unfolding is_command
  not_found name cmd_reg h = elim (Option-cases (get name cmd_reg)) [
    | inl missing ↦ missing
    | inr (c, there) ↦ absurd (true_not_false (ap found (sym there) ∙ h))
  ]
    where
      true_not_false : true ≢ false
      true_not_false = λ e. cc

  -- A registration of a new name is found under it, one of a name that is taken changes nothing, and
  -- no registration changes what another name finds.
  pub get-register :
      (name : Chars) (new : Command S) (cmd_reg : List (Command S))
      → get name (register new cmd_reg) ≡ (
          if same_chars new.cmd_name name && not (is_command name cmd_reg)
          then some new
          else get name cmd_reg)
  unfolding register
  get-register name new cmd_reg = elim (Bool-cases (is_command new.cmd_name cmd_reg)) [
    | inl taken ↦ rw taken (elim (Bool-cases (same_chars new.cmd_name name)) [
      | inl same ↦ rw (same, ← (same_chars_sound new.cmd_name name same), taken) refl
      | inr other ↦ rw other refl
    ])
    | inr free ↦ rw free (elim (Bool-cases (same_chars new.cmd_name name)) [
      | inl same ↦
          rw (same, ← (same_chars_sound new.cmd_name name same), free)
            (get-emplace-same new cmd_reg (not_found new.cmd_name cmd_reg free))
      | inr other ↦ rw other (get-emplace-other name new cmd_reg other)
    ])
  ]

  -- The distance of a command, by its recursion.
  abbrev pub distance_to : (ℕ → ℕ) → Chars → Command S → ℕ
  distance_to memory name c =
      distance (mismatch memory name c.cmd_name) (length name) (length c.cmd_name)

  -- `bound` is at most the distance of each command.
  abbrev pub NoneCloser : (ℕ → ℕ) → Chars → ℕ → List (Command S) → Type 0
  NoneCloser memory name bound = All (λ c. bound ≤ distance_to memory name c)

  weaken :
      (memory : ℕ → ℕ) (name : Chars) (a b : ℕ) (cmd_reg : List (Command S))
      → a ≤ b
      → NoneCloser memory name b cmd_reg
      → NoneCloser memory name a cmd_reg
  weaken memory name a b [] h n = tt
  weaken memory name a b (c ∷ cmd_reg) h n =
      (omega (arith, h, n.0), weaken memory name a b cmd_reg h n.1)

  -- The outcome is the best so far with no command closer than it, or a command of the registry.
  closest_lem :
      (memory : ℕ → ℕ) (name : Chars) (bound : ℕ) (best : Option (Command S))
      (cmd_reg : List (Command S))
      → ((closest_from memory name bound best cmd_reg ≡ best)
          × NoneCloser memory name bound cmd_reg)
        ⊎ ((first last : List (Command S)) × (c : Command S) × (closest_from memory name bound best
                cmd_reg
              ≡ some c)
            × (cmd_reg ≡ first ++ c ∷ last)
            × (distance_to memory name c < bound)
            × NoneCloser memory name (suc (distance_to memory name c)) first
            × NoneCloser memory name (distance_to memory name c) last)
  unfolding closest_from
  closest_lem memory name bound best [] = inl (refl, tt)
  closest_lem memory name bound best (c ∷ cmd_reg) =
      rw (levenshtein_distance-recursive memory name c.cmd_name)
        (elim (Bool-cases (ltb (distance_to memory name c) bound)) [
          | inl closer ↦
              rw closer
                (elim (closest_lem memory name (distance_to memory name c) (some c) cmd_reg) [
                  | inl (kept, none_closer) ↦
                      inr ([], cmd_reg, c, kept, refl, ltb→lt _ _ closer, tt, none_closer)
                  | inr (first, last, d, e, split, near, before_it, after_it) ↦ inr (
                    c ∷ first,
                    last,
                    d,
                    e,
                    ap (◌∷◌ c) split,
                    omega (arith, near, ltb→lt (distance_to memory name c) bound closer),
                    (near, before_it),
                    after_it,
                  )
                ])
          | inr further ↦ rw further (elim (closest_lem memory name bound best cmd_reg) [
            | inl (kept, none_closer) ↦ inl (kept, (far _ bound further, none_closer))
            | inr (first, last, d, e, split, near, before_it, after_it) ↦ inr (
              c ∷ first,
              last,
              d,
              e,
              ap (◌∷◌ c) split,
              near,
              (omega (arith, near, far (distance_to memory name c) bound further), before_it),
              after_it,
            )
          ])
        ])

  -- Where a command is nearer than 0xFFFFFF, the search returns the first one of those that are
  -- nearest; where none is, the null pointer. The distance is the least number of insertions, deletions
  -- and substitutions by its recursion, but that a substitution in the rows and columns `i` and `j` is
  -- free if both texts agree at the place `i`: it does not see the first characters, nor `j`.
  pub closest-nearest :
      (memory : ℕ → ℕ) (name : Chars) (cmd_reg : List (Command S))
      → ((closest memory name cmd_reg ≡ none) × NoneCloser memory name 16777215 cmd_reg)
        ⊎ ((first last : List (Command S)) × (c : Command S) × (closest memory name cmd_reg
              ≡ some c)
            × (cmd_reg ≡ first ++ c ∷ last)
            × (distance_to memory name c < 16777215)
            × NoneCloser memory name (suc (distance_to memory name c)) first
            × NoneCloser memory name (distance_to memory name c) last)
  unfolding closest
  closest-nearest memory name cmd_reg = closest_lem memory name 16777215 none cmd_reg
