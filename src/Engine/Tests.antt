-- ===== src/Engine/Tests.antt =====
-- Runs of the control service on small inputs, and the theorems at inputs that meet their hypotheses.
use dcscan_modules_api.Prelude.{ℕ, Option, some, ◌≡◌, refl, true, false, List, [], ◌∷◌, ◌++◌}
use dcscan_modules_api.Utils.Timer.{codes}
use dcscan_modules_api.Engine.Commands.{UnitTarget, Command, Service, same_target}
use dcscan_modules_api.Engine.Routing.{is_for, ending, lines_for}

abbrev answers : UnitTarget → Service → Option (List ℕ)
answers target s = some (codes "ok")

abbrev idle : Service
idle = record { written = []; response = []; response_buffer = []; replies = [] }

-- Two commands for different devices, one of which waits for an answer.
abbrev commands : List Command
commands =
    record {
      full_cmd = codes "1PA?;";
      id = 0;
      axis = 1;
      target = UnitTarget.esp301;
      wait_response = true;
    }
    ∷ record {
      full_cmd = codes "2>3;";
      id = 1;
      axis = 2;
      target = UnitTarget.pmc8742;
      wait_response = false;
    }
    ∷ []

for_pmc : lines_for UnitTarget.pmc8742 commands ≡ codes "2>3;" ++ 13 ∷ []
unfolding lines_for is_for ending
for_pmc = refl

abbrev step : Command
step = record {
  full_cmd = codes "1>2;";
  id = 2;
  axis = 1;
  target = UnitTarget.pmc8742;
  wait_response = false;
}

alike :
    (same_target UnitTarget.pmc8742 UnitTarget.pmc8742 ≡ true)
    × (same_target UnitTarget.esp301 UnitTarget.pmc8742 ≡ false)
unfolding same_target
alike = (refl, refl)
