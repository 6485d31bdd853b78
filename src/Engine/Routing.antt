-- ===== src/Engine/Routing.antt =====
-- Every command reaches the device that it is for, and no other.
use dcscan_modules_api.Prelude.{
  ℕ, suc, ◌≡◌, refl, ap, ◌∙◌, inl, inr, Bool, true, false, Option, List, [], ◌∷◌, ◌++◌, append-nil,
  append_assoc, arith, ◌==◌, if◌then◌else◌, Bool-cases, length,
}
use dcscan_modules_api.Engine.Commands.{
  UnitTarget, Command, same_target, no_command, joined, Service, line_end, write_command,
}

-- Whether a command for the first is for the second.
unfoldable pub is_for : UnitTarget → UnitTarget → Bool
is_for UnitTarget.esp301 UnitTarget.esp301 = true
is_for UnitTarget.pmc8742 UnitTarget.pmc8742 = true
is_for UnitTarget.xpsrld4 UnitTarget.xpsrld4 = true
is_for _ _ = false

-- How a command ends on the line of a device: a carriage return, with a zero for the ESP301, or nothing.
unfoldable pub ending : UnitTarget → List ℕ
ending UnitTarget.esp301 = 13 ∷ 0 ∷ []
ending UnitTarget.pmc8742 = 13 ∷ []
ending UnitTarget.xpsrld4 = []

ending_lem : (target : UnitTarget) → line_end target ≡ ending target
unfolding line_end ending
ending_lem UnitTarget.esp301 = refl
ending_lem UnitTarget.pmc8742 = refl
ending_lem UnitTarget.xpsrld4 = refl

-- What a device got on its line.
abbrev pub line : UnitTarget → List (UnitTarget × List ℕ) → List ℕ
line target [] = []
line target ((k, bytes) ∷ written) =
    let rest = line target written in if is_for k target then bytes ++ rest else rest

-- What a device is to get of a sequence of commands, and how many replies are due.
unfoldable pub lines_for : UnitTarget → List Command → List ℕ
lines_for target [] = []
lines_for target (cmd ∷ cmds) =
    let rest = lines_for target cmds in
    if length cmd.full_cmd == 0
    then rest
    else if is_for cmd.target target
    then cmd.full_cmd ++ ending target ++ rest
    else rest

pub queries : List Command → ℕ
queries [] = 0
queries (cmd ∷ cmds) =
    let rest = queries cmds in
    if length cmd.full_cmd == 0 then rest else if cmd.wait_response then suc rest else rest

line-append :
    (target : UnitTarget) (a b : List (UnitTarget × List ℕ))
    → line target (a ++ b) ≡ line target a ++ line target b
line-append target [] b = refl
line-append target ((k, bytes) ∷ a) b =
    ground (arith, line-append target a b, append_assoc bytes (line target a) (line target b))

is_for_sound : (k target : UnitTarget) → is_for k target ≡ true → k ≡ target
unfolding is_for
is_for_sound UnitTarget.esp301 UnitTarget.esp301 h = refl
is_for_sound UnitTarget.pmc8742 UnitTarget.pmc8742 h = refl
is_for_sound UnitTarget.xpsrld4 UnitTarget.xpsrld4 h = refl
is_for_sound UnitTarget.esp301 UnitTarget.pmc8742 h = cc
is_for_sound UnitTarget.esp301 UnitTarget.xpsrld4 h = cc
is_for_sound UnitTarget.pmc8742 UnitTarget.esp301 h = cc
is_for_sound UnitTarget.pmc8742 UnitTarget.xpsrld4 h = cc
is_for_sound UnitTarget.xpsrld4 UnitTarget.esp301 h = cc
is_for_sound UnitTarget.xpsrld4 UnitTarget.pmc8742 h = cc

-- What is in the slot for replies after these, `text` before them.
abbrev pub last_or : List ℕ → List (List ℕ) → List ℕ
last_or text [] = text
last_or text (r ∷ replies) = last_or r replies

module _ (read : UnitTarget → Service → Option (List ℕ)) where
  -- A service `t` after the commands `cmds` on a service `s`.
  pub record IsServed (cmds : List Command) (s t : Service) : Type 0 where
    pub lines :
        (target : UnitTarget)
        → line target t.written ≡ line target s.written ++ lines_for target cmds
    pub new : List (List ℕ)
    pub called : t.replies ≡ s.replies ++ new
    pub as_many : length new ≡ queries cmds
    pub slot : t.response_buffer ≡ last_or s.response_buffer new

  line-write :
      (target : UnitTarget) (cmd : Command) (s : Service)
      → line target (write_command read cmd s).written
        ≡ line target s.written
          ++ (if is_for cmd.target target then cmd.full_cmd ++ ending target else [])
  unfolding write_command
  line-write target cmd s =
      line-append target s.written
        ((cmd.target, cmd.full_cmd) ∷ (cmd.target, line_end cmd.target) ∷ [])
      ∙ elim (Bool-cases (is_for cmd.target target)) [
        | inl mine ↦ rw mine (
            ap (λ k. line target s.written ++ (cmd.full_cmd ++ (k ++ [])))
              (ending_lem cmd.target ∙ ap ending (is_for_sound cmd.target target mine))
            ∙ ap (λ e. line target s.written ++ (cmd.full_cmd ++ e)) (append-nil (ending target)))
        | inr other ↦ rw other refl
      ]

-- Two commands for the same device, joined, are sent to the ESP301, whatever that device was.
pub joined_misrouted :
    (read : UnitTarget → Service → Option (List ℕ)) (unset : Bool) (lhs rhs : Command) (s : Service)
    → same_target lhs.target rhs.target ≡ true
    → is_for UnitTarget.esp301 lhs.target ≡ false
    → line lhs.target (write_command read (joined unset lhs rhs) s).written
      ≡ line lhs.target s.written
unfolding joined no_command
joined_misrouted read unset lhs rhs s same other =
    line-write read lhs.target (joined unset lhs rhs) s
    ∙ ap (◌++◌ (line lhs.target s.written)) (rw (same, other) refl)
    ∙ append-nil (line lhs.target s.written)
