-- ===== src/Engine/Motion/Tests.antt =====
-- Runs of motions on small inputs, and the theorems at inputs that meet their hypotheses.
use dcscan_modules_api.Prelude.{
  ℕ, ◌+◌, ◌-◌, ◌*◌, ◌<◌, ◌≡◌, refl, Bool, true, false, not, some, List, [], ◌∷◌, arith, ltb, ◌==◌,
  if◌then◌else◌, All,
}
use dcscan_modules_api.Core.Database.Cache.{same_chars}
use dcscan_modules_api.Core.Pid.{Real, Pid, set_target_and_bias, calculate, clamp}
use dcscan_modules_api.Engine.Motion.{
  Motions, PidParams, find, flag, insert_or_assign, may_move, begin_motion, move_absolute_pid,
  end_motion, pass, motion,
}
use dcscan_modules_api.Engine.Motion.Exclusion.{running, Reach, motions-Exclusive}
use dcscan_modules_api.Engine.Motion.Passes.{after_near, after_two, readings_of, motion-ends}

-- Naturals for the doubles.
abbrev naturals : Real ℕ
naturals = record { zero_f = 0; add = ◌+◌; sub = ◌-◌; mul = ◌*◌; div = λ x y. x; less = ltb }

abbrev controller : Pid ℕ
controller = record {
  min = 1;
  max = 9;
  kp = 1;
  kd = 0;
  ki = 0;
  target = 0;
  bias = 0;
  le = 0;
  integral = 0;
}

abbrev targets : List (List ℕ × PidParams ℕ)
targets = (7 ∷ [], record { pid = controller; ax = some 2 }) ∷ []

abbrev idle : Motions ℕ
idle = record { pid_targets = targets; working = []; threads = []; events = [] }

abbrev moving : Motions ℕ
moving = move_absolute_pid naturals (7 ∷ []) (move_absolute_pid naturals (7 ∷ []) idle)

one_thread : moving.threads ≡ (7 ∷ []) ∷ []
unfolding move_absolute_pid may_move begin_motion find insert_or_assign same_chars
one_thread = refl

abbrev once : Motions ℕ
once = begin_motion naturals (7 ∷ []) idle

abbrev twice : Motions ℕ
twice = begin_motion naturals (7 ∷ []) (end_motion naturals (7 ∷ []) once)

free_first : may_move naturals (7 ∷ []) idle ≡ true
unfolding may_move find same_chars
free_first = refl

runs_once : 0 < running (7 ∷ []) once.threads
unfolding begin_motion running same_chars
runs_once = omega arith

free_again : may_move naturals (7 ∷ []) (end_motion naturals (7 ∷ []) once) ≡ true
unfolding may_move begin_motion end_motion find insert_or_assign same_chars
free_again = refl

-- A motion, its end, and a second one.
motions-Exclusive_example :
    running (7 ∷ []) twice.threads ≡ (if flag (find (7 ∷ []) twice.working) then 1 else 0)
motions-Exclusive_example =
    motions-Exclusive naturals 1 9
      (Reach.begun (
        Reach.tested (7 ∷ [])
          (Reach.ended (7 ∷ [])
            (Reach.begun (Reach.tested (7 ∷ []) (Reach.start targets) free_first)) runs_once)
          free_again))
      (7 ∷ [])

abbrev far : ℕ → Bool
far pos = not (pos == 6)

abbrev readings : List (ℕ × ℕ)
readings = (3, 1) ∷ (5, 1) ∷ (6, 1) ∷ (7, 1) ∷ (6, 1) ∷ (6, 1) ∷ []

never_less : (x : ℕ) → ltb x x ≡ false
never_less x = ground arith

motion-ends_example :
    let (moves, outcome) = motion naturals far 6 controller readings in
    (readings_of naturals far 6 outcome
      ≡ after_two naturals far 6 (after_near naturals far 6 readings))
    × All (λ move. (ltb move 1 ≡ false) × (ltb 9 move ≡ false)) moves
motion-ends_example =
    motion-ends naturals far 6 never_less 1 9 refl controller readings (refl, refl)

moved_three_times : (motion naturals far 6 controller readings).0 ≡ 3 ∷ 1 ∷ 1 ∷ []
unfolding motion pass calculate set_target_and_bias clamp
moved_three_times = refl
