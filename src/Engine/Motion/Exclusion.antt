-- ===== src/Engine/Motion/Exclusion.antt =====
-- At most one motion for a target at a time, unless its controller is set anew or two calls overlap.
use dcscan_modules_api.Prelude.{
  ℕ, suc, ◌+◌, ◌≤◌, ◌<◌, ◌≡◌, refl, sym, ap, ◌∙◌, ◌≢◌, inl, inr, Bool, true, false, Option, none,
  some, List, [], ◌∷◌, ◌++◌, arith, if◌then◌else◌, Bool-cases,
}
use mathlib.Core.Path.{subst}
use dcscan_modules_api.Core.Database.{Chars}
use dcscan_modules_api.Core.Database.Cache.{same_chars}
use dcscan_modules_api.Core.Database.Names.{same_chars_refl, same_chars_sound}
use dcscan_modules_api.Core.Pid.{Real, create}
use dcscan_modules_api.Engine.Motion.{
  find, insert_or_assign, PidParams, Motions, flag, remove, may_move, begin_motion,
  move_absolute_pid, end_motion, set_pid_control_variables,
}

other_lem :
    (k key other : Chars)
    → same_chars k key ≡ false
    → same_chars k other ≡ true
    → same_chars key other ≡ false
other_lem k key other differs same = elim (Bool-cases (same_chars key other)) [
  | inl also ↦ absurd (
      true_not_false
        (sym same ∙ ap (same_chars k) (sym (same_chars_sound key other also)) ∙ differs))
  | inr no_more ↦ no_more
]
  where
    true_not_false : true ≢ false
    true_not_false = λ e. cc

find-insert :
    {A : Type 0} (other key : Chars) (a : A) (entries : List (Chars × A))
    → find other (insert_or_assign key a entries)
      ≡ (if same_chars key other then some a else find other entries)
unfolding find insert_or_assign
find-insert other key a [] = refl
find-insert other key a ((k, b) ∷ entries) = elim (Bool-cases (same_chars k key)) [
  | inl same ↦ rw (same, ← (same_chars_sound k key same)) (same_entry (same_chars k other) _ _ _)
  | inr differs ↦
      rw (differs, find-insert other key a entries)
        (elim (Bool-cases (same_chars k other)) [
          | inl same ↦ rw (same, other_lem k key other differs same) refl
          | inr elsewhere ↦ rw elsewhere refl
        ])
]
  where
    same_entry :
        {A : Type 0} (t : Bool) (a b : Option A) (c : Option A)
        → (if t then a else c) ≡ (if t then a else (if t then b else c))
    same_entry true a b c = refl
    same_entry false a b c = refl

-- The threads with a target.
unfoldable pub running : Chars → List Chars → ℕ
running key [] = 0
running key (k ∷ keys) = let rest = running key keys in if same_chars k key then suc rest else rest

-- One for a target that is the same.
abbrev one_if : Bool → ℕ
one_if b = if b then 1 else 0

running-append :
    (key t : Chars) (keys : List Chars)
    → running key (keys ++ t ∷ []) ≡ running key keys + one_if (same_chars t key)
unfolding running
running-append key t [] = ground arith
running-append key t (k ∷ keys) = ground (arith, running-append key t keys)

running-remove :
    (key t : Chars) (keys : List Chars)
    → 0 < running t keys
    → running key (remove t keys) + one_if (same_chars t key) ≡ running key keys
unfolding running remove
running-remove key t [] h = absurd (omega (arith, h))
running-remove key t (k ∷ keys) h = elim (Bool-cases (same_chars k t)) [
  | inl same ↦ rw (same, same_chars_sound k t same) (ground arith)
  | inr differs ↦ rw differs (
      ground (
        arith,
        running-remove key t keys
            (subst (λ b. 0 < (if b then suc (running t keys) else running t keys)) differs h),
      ))
]

module _ {F : Type 0} (real : Real F) (low high : F) where
  -- The motions, and the call that is past its tests. Calls come one after another, as from the decoder
  -- thread of a server; threads may end between the tests of a call and the rest of it. A controller is set
  -- by a call too, and only while no motion of its target is in progress.
  pub data Reach : Option Chars → Motions F → Type 0 where
    start :
        (pid_targets : List (Chars × PidParams F))
        → Reach none (record { pid_targets = pid_targets; working = []; threads = []; events = [] })
    tested :
        {m : Motions F} (target_id : Chars)
        → Reach none m
        → may_move real target_id m ≡ true
        → Reach (some target_id) m
    begun :
        {target_id : Chars} {m : Motions F}
        → Reach (some target_id) m
        → Reach none (begin_motion real target_id m)
    ended :
        {call : Option Chars} {m : Motions F} (target_id : Chars)
        → Reach call m
        → 0 < running target_id m.threads
        → Reach call (end_motion real target_id m)
    set_idle :
        {m : Motions F} (target_id : Chars) (encoder_axis : Option ℕ) (kp ki kd : F)
        → Reach none m
        → running target_id m.threads ≡ 0
        → Reach none (set_pid_control_variables real low high target_id encoder_axis kp ki kd m)

  abbrev is_working : Chars → Motions F → Bool
  is_working key m = flag (find key m.working)

  -- The flag says whether a thread runs, and there is never more than one.
  abbrev pub Exclusive : Motions F → Type 0
  Exclusive m = (key : Chars) → running key m.threads ≡ (if flag (find key m.working) then 1 else 0)

  flag-insert :
      (key t : Chars) (b : Bool) (entries : List (Chars × Bool))
      → flag (find key (insert_or_assign t b entries))
        ≡ (if same_chars t key then b else flag (find key entries))
  flag-insert key t b entries = ap flag (find-insert key t b entries) ∙ flag_if (same_chars t key)
    where
      flag_if :
          (s : Bool)
          → flag (if s then some b else find key entries)
            ≡ (if s then b else flag (find key entries))
      flag_if true = refl
      flag_if false = refl

  -- The count of a target that is the same, given that of `t`.
  same_count :
      (t key : Chars) (keys : List Chars) (n : ℕ)
      → same_chars t key ≡ true
      → running t keys ≡ n
      → running key keys ≡ n
  same_count t key keys n same e = ap (λ k. running k keys) (sym (same_chars_sound t key same)) ∙ e

  count_idle :
      (t : Chars) (m : Motions F)
      → Exclusive m
      → flag (find t m.working) ≡ false
      → running t m.threads ≡ 0
  count_idle t m x idle = x t ∙ ap one_if idle

  begin-Exclusive :
      (t : Chars) (m : Motions F)
      → is_working t m ≡ false
      → Exclusive m
      → Exclusive (begin_motion real t m)
  unfolding begin_motion
  begin-Exclusive t m idle x key =
      rw (running-append key t m.threads, flag-insert key t true m.working)
        (elim (Bool-cases (same_chars t key)) [
          | inl same ↦
              rw (same, same_count t key m.threads 0 same (count_idle t m x idle)) (omega arith)
          | inr other ↦ rw other (omega (arith, x key))
        ])

  cleared :
      (t : Chars) (m : Motions F) (threads : List Chars)
      → Exclusive m
      → ((key : Chars)
          → running key threads ≡ (if same_chars t key then 0 else running key m.threads))
      → (key : Chars)
      → running key threads
        ≡ (if flag (find key (insert_or_assign t false m.working)) then 1 else 0)
  cleared t m threads x e key =
      rw (e key, flag-insert key t false m.working)
        (elim (Bool-cases (same_chars t key)) [
          | inl same ↦ rw same refl
          | inr other ↦ rw other (x key)
        ])

  ended-Exclusive :
      (t : Chars) (m : Motions F)
      → 0 < running t m.threads
      → Exclusive m
      → Exclusive (end_motion real t m)
  unfolding end_motion
  ended-Exclusive t m h x = cleared t m (remove t m.threads) x (λ key.
      elim (Bool-cases (same_chars t key)) [
        | inl same ↦ rw same (zero_left key same)
        | inr other ↦ rw other (omega (arith, running-remove key t m.threads h, ap one_if other))
      ])
    where
      at_most_one : (n : ℕ) (b : Bool) → n ≡ one_if b → n ≤ 1
      at_most_one n true e = omega (arith, e)
      at_most_one n false e = omega (arith, e)

      zero_left : (key : Chars) → same_chars t key ≡ true → running key (remove t m.threads) ≡ 0
      zero_left key same = omega (
        arith,
        running-remove key t m.threads h,
        ap one_if same,
        at_most_one (running key m.threads) (flag (find key m.working)) (x key),
      )

  set-Exclusive :
      (t : Chars) (axis : Option ℕ) (kp ki kd : F) (m : Motions F)
      → running t m.threads ≡ 0
      → Exclusive m
      → Exclusive (set_pid_control_variables real low high t axis kp ki kd m)
  unfolding set_pid_control_variables
  set-Exclusive t axis kp ki kd m h x = cleared t m m.threads x (λ key.
      elim (Bool-cases (same_chars t key)) [
        | inl same ↦ rw same (same_count t key m.threads 0 same h)
        | inr other ↦ rw other refl
      ])

  -- The target of a call that is past its tests is not in motion.
  abbrev IsFree : Option Chars → Motions F → Type 0
  IsFree none m = Unit
  IsFree (some t) m = is_working t m ≡ false

  tested-IsFree : (t : Chars) (m : Motions F) → may_move real t m ≡ true → is_working t m ≡ false
  unfolding may_move
  tested-IsFree t m h = ground (arith, h)

  ended-IsFree :
      (call : Option Chars) (t : Chars) (m : Motions F)
      → IsFree call m
      → IsFree call (end_motion real t m)
  unfolding end_motion
  ended-IsFree none t m v = tt
  ended-IsFree (some key) t m v =
      flag-insert key t false m.working ∙ either (same_chars t key) (is_working key m) v
    where
      either : (s b : Bool) → b ≡ false → (if s then false else b) ≡ false
      either true b e = refl
      either false b e = e

  reach_lem : {call : Option Chars} {m : Motions F} → Reach call m → Exclusive m × IsFree call m
  reach_lem (start pid_targets) = ((λ key. unfold running find in refl), tt)
  reach_lem (tested {m} t r h) = ((reach_lem r).0, tested-IsFree t m h)
  reach_lem (begun {target_id = t} {m} r) =
      (begin-Exclusive t m (reach_lem r).1 (reach_lem r).0, tt)
  reach_lem (ended {call} {m} t r h) =
      (ended-Exclusive t m h (reach_lem r).0, ended-IsFree call t m (reach_lem r).1)
  reach_lem (set_idle {m} t axis kp ki kd r h) =
      (set-Exclusive t axis kp ki kd m h (reach_lem r).0, tt)

  -- Whatever motions are called for in whatever order, one call after the other, and whenever motions
  -- end, also between the tests of a call and the rest of it: the flag of a target is set exactly while
  -- a thread moves it, and no two threads ever move the same one, as long as no controller is set while
  -- its target moves.
  pub motions-Exclusive : {call : Option Chars} {m : Motions F} → Reach call m → Exclusive m
  motions-Exclusive r = (reach_lem r).0

  -- Two calls of which both are past their tests before either goes on start two threads that move the
  -- same target.
  pub two_calls :
      (t : Chars) (m : Motions F)
      → Exclusive m
      → may_move real t m ≡ true
      → running t (begin_motion real t (begin_motion real t m)).threads ≡ 2
  unfolding begin_motion
  two_calls t m x h =
      let one = ap one_if (same_chars_refl t) in
      omega (
        arith,
        running-append t t (m.threads ++ t ∷ []),
        running-append t t m.threads,
        count_idle t m x (tested-IsFree t m h),
        one,
      )

  -- If the controller of a target is set while the target moves, a second call starts a second thread
  -- that moves it beside the first.
  pub set_while_moving :
      (t : Chars) (axis : ℕ) (kp ki kd : F) (m : Motions F)
      → running t m.threads ≡ 1
      → running t
          (move_absolute_pid real t
            (set_pid_control_variables real low high t (some axis) kp ki kd m)).threads
        ≡ 2
  unfolding move_absolute_pid may_move begin_motion set_pid_control_variables
  set_while_moving t axis kp ki kd m h =
      let params : PidParams F = record { pid = create real low high kp kd ki; ax = some axis } in
      let m' = set_pid_control_variables real low high t (some axis) kp ki kd m in
      let there : find t m'.pid_targets ≡ some params =
        find-insert t t params m.pid_targets ∙ is_same _ _ (same_chars_refl t) in
      let idle : flag (find t m'.working) ≡ false =
        flag-insert t t false m.working ∙ is_same _ _ (same_chars_refl t) in
      rw (there, idle)
        (running-append t t m.threads ∙ omega (arith, h, ap one_if (same_chars_refl t)))
    where
      is_same : {A : Type 0} {b : Bool} (x y : A) → b ≡ true → (if b then x else y) ≡ x
      is_same x y e = rw e refl
