-- ===== src/Engine/Commands.antt =====
-- The commands (DCS_EngineControl/include/internal.h) and the loop of the control service
-- (DCS_EngineControl/src/control_service.cpp). `std::to_string` is a parameter, and so is what a
-- device answers and what the constructor without arguments leaves in `wait_response`.
use dcscan_modules_api.Prelude.{
  ℕ, Bool, true, false, not, ◌||◌, Option, none, some, List, [], ◌∷◌, ◌++◌, ltb, ◌==◌,
  if◌then◌else◌, length,
}
use dcscan_modules_api.Utils.Timer.{codes}

pub data UnitTarget : Type 0 where
  esp301 pmc8742 xpsrld4 : UnitTarget

pub record Command : Type 0 where
  pub full_cmd : List ℕ
  pub id : ℕ
  pub axis : ℕ
  pub target : UnitTarget
  pub wait_response : Bool

unfoldable pub same_target : UnitTarget → UnitTarget → Bool
same_target UnitTarget.esp301 UnitTarget.esp301 = true
same_target UnitTarget.pmc8742 UnitTarget.pmc8742 = true
same_target UnitTarget.xpsrld4 UnitTarget.xpsrld4 = true
same_target _ _ = false

-- `Command()`
unfoldable pub no_command : Bool → Command
no_command unset = record {
  full_cmd = [];
  id = 0;
  axis = 0;
  target = UnitTarget.esp301;
  wait_response = unset;
}

-- `argument[0] == '?'`, for a text that ends in a terminator
unfoldable pub is_query : List ℕ → Bool
is_query [] = false
is_query (c ∷ cs) = c == b'?'

module _ (to_string : ℕ → List ℕ) where
  -- The constructors; `nid` is the value of the static counter of `NextId`.
  unfoldable pub with_number : ℕ → UnitTarget → List ℕ → ℕ → ℕ → Command
  with_number nid target cmd axis argument = record {
    full_cmd = to_string axis ++ cmd ++ to_string argument ++ codes ";";
    id = nid;
    axis = axis;
    target = target;
    wait_response = false;
  }

  unfoldable pub with_text : ℕ → UnitTarget → List ℕ → ℕ → List ℕ → Command
  with_text nid target cmd axis argument = record {
    full_cmd = to_string axis ++ cmd ++ argument ++ codes ";";
    id = nid;
    axis = axis;
    target = target;
    wait_response = is_query argument;
  }

  unfoldable pub to_axis : ℕ → UnitTarget → List ℕ → ℕ → Command
  to_axis nid target cmd axis = record {
    full_cmd = (if ltb 0 axis then to_string axis else []) ++ cmd ++ codes ";";
    id = nid;
    axis = axis;
    target = target;
    wait_response = false;
  }

unfoldable pub custom : ℕ → UnitTarget → List ℕ → Bool → Command
custom nid target cmd response = record {
  full_cmd = cmd;
  id = nid;
  axis = 0;
  target = target;
  wait_response = response;
}

-- `operator+`: the target of the result is that of `Command()`.
unfoldable pub joined : Bool → Command → Command → Command
joined unset lhs rhs =
    if not (same_target lhs.target rhs.target)
    then no_command unset
    else record (no_command unset) {
      id = rhs.id;
      axis = 0;
      wait_response = lhs.wait_response || rhs.wait_response;
      full_cmd = lhs.full_cmd ++ rhs.full_cmd;
    }

-- What has been written to each device; the text in the local array `response`; the one slot
-- `response_buffer` for replies; and the texts that `reply` was called with, in order.
pub record Service : Type 0 where
  pub written : List (UnitTarget × List ℕ)
  pub response : List ℕ
  pub response_buffer : List ℕ
  pub replies : List (List ℕ)

-- What follows a command on the line; the ESP301 gets two bytes of the text, its terminator too.
unfoldable pub line_end : UnitTarget → List ℕ
line_end UnitTarget.esp301 = 13 ∷ 0 ∷ []
line_end UnitTarget.pmc8742 = 13 ∷ []
line_end UnitTarget.xpsrld4 = []

-- `CmdBuffer::reply`; whether a scheduler waits for the wake-up is not part of this.
unfoldable pub reply : List ℕ → Service → Service
reply text s = record s { response_buffer = text; replies = s.replies ++ text ∷ [] }

-- `read` is the text that `response` holds after a read, or `none` where the read fails.
module _ (read : UnitTarget → Service → Option (List ℕ)) where
  unfoldable pub write_command : Command → Service → Service
  write_command cmd s = record s {
    written = s.written ++ (cmd.target, cmd.full_cmd) ∷ (cmd.target, line_end cmd.target) ∷ [];
  }

  -- A failed read of the first two leaves the last text in the array, which is sent as the reply. For the
  -- third the terminator is then written in front of the array, at -1: `none`.
  abbrev pub answered : UnitTarget → Option (List ℕ) → Service → Option Service
  answered target (some text) s = some (reply text (record s { response = text }))
  answered UnitTarget.esp301 none s = some (reply s.response s)
  answered UnitTarget.pmc8742 none s = some (reply s.response s)
  answered UnitTarget.xpsrld4 none s = none

  unfoldable pub answer_command : Command → Service → Option Service
  answer_command cmd s =
      if cmd.wait_response then answered cmd.target (read cmd.target s) s else some s

  -- One round of the loop: an empty command is what an unblocked `process` returns.
  unfoldable pub serve : Command → Service → Option Service
  serve cmd s =
      if length cmd.full_cmd == 0 then some s else answer_command cmd (write_command cmd s)

  abbrev pub go_on : Option Service → (Service → Option Service) → Option Service
  go_on none rest = none
  go_on (some s) rest = rest s

  unfoldable pub serve_all : List Command → Service → Option Service
  serve_all [] s = some s
  serve_all (cmd ∷ cmds) s = go_on (serve cmd s) (λ s'. serve_all cmds s')
