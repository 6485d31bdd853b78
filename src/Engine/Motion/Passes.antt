-- ===== src/Engine/Motion/Passes.antt =====
-- When a motion ends, and how far it moves at a time.
use dcscan_modules_api.Prelude.{
  ◌≡◌, refl, sym, ap, ◌∙◌, inl, inr, Bool, false, ◌||◌, Option, none, some, List, [], ◌∷◌,
  if◌then◌else◌, Bool-cases, All,
}
use mathlib.Core.Path.{ap₂}
use dcscan_modules_api.Prelude.Attempts.{All-append}
use dcscan_modules_api.Core.Pid.{Real, Pid, set_target_and_bias, calculate, calculate-bounded}
use dcscan_modules_api.Engine.Motion.{pass, second_pass, motion}

module _ {F : Type 0} (real : Real F) (far : F → Bool) (target_position : F) where
  -- The readings that follow the first one within the tolerance.
  abbrev pub after_near : List (F × F) → Option (List (F × F))
  after_near [] = none
  after_near ((pos, dt) ∷ readings) =
      let rest = after_near readings in if far pos then rest else some readings

  abbrev pub after_two : Option (List (F × F)) → Option (List (F × F))
  after_two none = none
  after_two (some readings) = after_near readings

  abbrev pub readings_of : Option (Pid F × List (F × F)) → Option (List (F × F))
  readings_of none = none
  readings_of (some (pid, readings)) = some readings

  module _ (irreflexive : (x : F) → real.less x x ≡ false) (low high : F)
      (ordered : real.less high low ≡ false) where
    -- The limits of a controller, which no step changes.
    abbrev Limits : Pid F → Type 0
    Limits pid = (pid.min ≡ low) × (pid.max ≡ high)

    abbrev Move : F → Type 0
    Move move = (real.less move low ≡ false) × (real.less high move ≡ false)

    abbrev step : F → F → Pid F → F × Pid F
    step pos dt pid =
        calculate real pos dt (set_target_and_bias real target_position real.zero_f pid)

    set_target-Limits :
        (target bias : F) (pid : Pid F)
        → Limits pid
        → Limits (set_target_and_bias real target bias pid)
    unfolding set_target_and_bias
    set_target-Limits target bias pid l =
        elim (Bool-cases (real.less pid.max target || real.less target pid.min)) [
          | inl outside ↦ rw outside l
          | inr inside ↦ rw inside l
        ]

    step-Limits : (pos dt : F) (pid : Pid F) → Limits pid → Limits (step pos dt pid).1
    step-Limits pos dt pid l =
        unfold calculate in set_target-Limits target_position real.zero_f pid l

    step-Move : (pos dt : F) (pid : Pid F) → Limits pid → Move (step pos dt pid).0
    step-Move pos dt pid l =
        let set_pid = set_target_and_bias real target_position real.zero_f pid in
        let (at_low, at_high) = set_target-Limits target_position real.zero_f pid l in
        let (above, below) =
          calculate-bounded real pos dt set_pid irreflexive
            (ap₂ real.less at_high at_low ∙ ordered) in
        (
          ap (real.less (step pos dt pid).0) (sym at_low) ∙ above,
          ap (λ x. real.less x (step pos dt pid).0) (sym at_high) ∙ below,
        )

    -- The limits of a controller that a pass leaves.
    abbrev LimitsAfter : Option (Pid F × List (F × F)) → Type 0
    LimitsAfter none = Unit
    LimitsAfter (some (pid, readings)) = Limits pid

    pass_lem :
        (pid : Pid F) (readings : List (F × F))
        → Limits pid
        → let (moves, outcome) = pass real far target_position pid readings in
          (readings_of outcome ≡ after_near readings) × All Move moves × LimitsAfter outcome
    unfolding pass
    pass_lem pid [] l = (refl, tt, tt)
    pass_lem pid ((pos, dt) ∷ readings) l = elim (Bool-cases (far pos)) [
      | inl off ↦ rw off (
          let (e, moves, after) =
            pass_lem (step pos dt pid).1 readings (step-Limits pos dt pid l) in
          (e, (step-Move pos dt pid l, moves), after))
      | inr near ↦ rw near (refl, tt, l)
    ]

    second_lem :
        (moves : List F) (outcome : Option (Pid F × List (F × F)))
        → All Move moves
        → LimitsAfter outcome
        → let (all_moves, last) = second_pass real far target_position moves outcome in
          (readings_of last ≡ after_two (readings_of outcome)) × All Move all_moves
    second_lem moves none m l = (refl, m)
    second_lem moves (some (pid, readings)) m l =
        let (e, more, after) = pass_lem pid readings l in
        (e, All-append Move moves (pass real far target_position pid readings).0 m more)

    -- With limits in order, a motion ends when a reading within the tolerance has come, and then, among
    -- those after it, another one, and none of its moves is beyond the limits of the controller, whatever
    -- the encoder reads.
    pub motion-ends :
        (pid : Pid F) (readings : List (F × F))
        → (pid.min ≡ low) × (pid.max ≡ high)
        → let (moves, outcome) = motion real far target_position pid readings in
          (readings_of outcome ≡ after_two (after_near readings))
          × All (λ move. (real.less move low ≡ false) × (real.less high move ≡ false)) moves
    unfolding motion
    motion-ends pid readings l =
        let (e, moves, after) = pass_lem pid readings l in
        let first = pass real far target_position pid readings in
        let (e', all_moves) = second_lem first.0 first.1 moves after in
        (e' ∙ ap after_two e, all_moves)
