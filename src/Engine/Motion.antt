-- ===== src/Engine/Motion.antt =====
-- Motions under the PID controller (DCS_EngineControl/src/external_cmds.cpp): the controllers of the
-- targets, the flag of each that a motion is in progress, and the thread of a motion. A target is known
-- by its text; the operations on `double`, the clock and the readings of the encoders are parameters.
pub mod Exclusion
pub mod Passes
mod Tests
use dcscan_modules_api.Prelude.{
  ℕ, zero, suc, ◌+◌, ◌-◌, ◌*◌, ◌/◌, ◌%◌, ◌^◌, ◌≤◌, ◌<◌, min, max, ◌≡◌, refl, sym, ap, ◌∙◌, ◌≢◌, ◌↔◌,
  ◌⊎◌, inl, inr, Bool, true, false, not, ◌&&◌, ◌||◌, Option, none, some, List, [], ◌∷◌, ◌++◌, map,
  append-nil, append_assoc, arith, ltb, leb, ◌==◌, if◌then◌else◌, ltb→lt, lt→ltb, leb→le, le→leb,
  ==_iff, ==_refl, Bool-cases, Option-cases, length, get_elem?, get_or, take, drop, set,
  length-append, length-take, length-drop, take-append-drop, take_exact, drop_exact, take_within,
  take_all, length-map, All,
}
use dcscan_modules_api.Prelude.Words.{le_bytes, le_value, length-le_bytes, le_value-le_bytes}
use dcscan_modules_api.Core.Database.{Chars}
use dcscan_modules_api.Core.Database.Cache.{same_chars}
use dcscan_modules_api.Core.Pid.{Real, Pid, create, set_target_and_bias, calculate}

-- `std::unordered_map`
module _ {A : Type 0} where
  unfoldable pub find : Chars → List (Chars × A) → Option A
  find key [] = none
  find key ((k, a) ∷ entries) =
      let rest = find key entries in if same_chars k key then some a else rest

  unfoldable pub insert_or_assign : Chars → A → List (Chars × A) → List (Chars × A)
  insert_or_assign key a [] = (key, a) ∷ []
  insert_or_assign key a ((k, b) ∷ entries) =
      let rest = insert_or_assign key a entries in
      if same_chars k key then (k, a) ∷ entries else (k, b) ∷ rest

-- `PIDParams`; the axis is `none` for -1.
pub record PidParams (F : Type 0) : Type 0 where
  pub pid : Pid F
  pub ax : Option ℕ

pub data PidStatus : Type 0 where
  ready working : PidStatus

-- `pid_targets`, `pid_targets_working`, the threads that run, each with its target, and the events
-- emitted.
pub record Motions (F : Type 0) : Type 0 where
  pub pid_targets : List (Chars × PidParams F)
  pub working : List (Chars × Bool)
  pub threads : List Chars
  pub events : List (Chars × PidStatus)

-- `operator[]`, which makes a missing flag, `false`.
abbrev pub flag : Option Bool → Bool
flag none = false
flag (some b) = b

unfoldable pub remove : Chars → List Chars → List Chars
remove key [] = []
remove key (k ∷ keys) = let rest = remove key keys in if same_chars k key then keys else k ∷ rest

module _ {F : Type 0} (real : Real F) where
  -- `SetPIDControlVariables`; `low` and `high` are the limits -200 and 200.
  unfoldable pub set_pid_control_variables :
      F → F → Chars → Option ℕ → F → F → F → Motions F → Motions F
  set_pid_control_variables low high target_id encoder_axis kp ki kd m = record m {
    pid_targets =
        insert_or_assign target_id
          (record { pid = create real low high kp kd ki; ax = encoder_axis }) m.pid_targets;
    working = insert_or_assign target_id false m.working;
  }

  -- The axis of a target that is found.
  abbrev pub axis_of : Option (PidParams F) → Option ℕ
  axis_of none = none
  axis_of (some params) = params.ax

  abbrev pub has : Option ℕ → Bool
  has none = false
  has (some axis) = true

  -- The tests of `MoveAbsolutePID`: the target is known, it has an axis, and its flag is not set.
  unfoldable pub may_move : Chars → Motions F → Bool
  may_move target_id m =
      has (axis_of (find target_id m.pid_targets)) && not (flag (find target_id m.working))

  -- What follows them: the flag is set, the event emitted, and the thread started.
  unfoldable pub begin_motion : Chars → Motions F → Motions F
  begin_motion target_id m = record m {
    working = insert_or_assign target_id true m.working;
    events = m.events ++ (target_id, PidStatus.working) ∷ [];
    threads = m.threads ++ target_id ∷ [];
  }

  -- `MoveAbsolutePID`, where nothing happens between its tests and the rest. There is no lock around the
  -- two: they are also steps of their own.
  unfoldable pub move_absolute_pid : Chars → Motions F → Motions F
  move_absolute_pid target_id m = if may_move target_id m then begin_motion target_id m else m

  -- The end of a thread.
  unfoldable pub end_motion : Chars → Motions F → Motions F
  end_motion target_id m = record m {
    working = insert_or_assign target_id false m.working;
    threads = remove target_id m.threads;
    events = m.events ++ (target_id, PidStatus.ready) ∷ [];
  }

  -- The loop of a pass: each reading is a position of the axis and the time since the last use of the
  -- controller. It gives the moves commanded, and, if it ends, the controller and the readings that
  -- follow the one that ended it; `far` is the test of the error.
  unfoldable pub pass :
      (F → Bool) → F → Pid F → List (F × F) → List F × Option (Pid F × List (F × F))
  pass far target_position pid [] = ([], none)
  pass far target_position pid ((pos, dt) ∷ readings) =
      let (move, pid') =
        calculate real pos dt (set_target_and_bias real target_position real.zero_f pid) in
      let (moves, outcome) = pass far target_position pid' readings in
      if far pos then (move ∷ moves, outcome) else ([], some (pid, readings))

  abbrev pub second_pass :
      (F → Bool)
      → F
      → List F
      → Option (Pid F × List (F × F))
      → List F × Option (Pid F × List (F × F))
  second_pass far target_position moves none = (moves, none)
  second_pass far target_position moves (some (pid, readings)) =
      let (more, outcome) = pass far target_position pid readings in (moves ++ more, outcome)

  -- The two passes of a motion.
  unfoldable pub motion :
      (F → Bool) → F → Pid F → List (F × F) → List F × Option (Pid F × List (F × F))
  motion far target_position pid readings =
      let (moves, outcome) = pass far target_position pid readings in
      second_pass far target_position moves outcome
