-- ===== src/Network/Cli/Tests.antt =====
-- Runs of the command line on small inputs, and the theorems at inputs that meet their hypotheses.
use dcscan_modules_api.Prelude.{
  ℕ, suc, ◌+◌, ◌<◌, ◌≡◌, refl, ◌⊎◌, true, false, not, ◌&&◌, none, some, List, [], ◌∷◌, ◌++◌,
  if◌then◌else◌,
}
use dcscan_modules_api.Core.Database.{Chars}
use dcscan_modules_api.Core.Database.Cache.{same_chars}
use dcscan_modules_api.Network.Cli.{
  char_at, cost, least, fill, fill_column, first_column, column, levenshtein_distance, Command,
  before, get, is_command, emplace, register, closest, list_commands, spin,
}
use dcscan_modules_api.Network.Cli.Registration.{
  NoneCloser, distance_to, get-register, closest-nearest,
}

abbrev beyond : ℕ → ℕ
beyond i = 200 + i

abbrev stop : Chars
stop = 115 ∷ 116 ∷ 111 ∷ 112 ∷ []

abbrev stopped : Command ℕ
stopped = record { cmd_name = stop; help_string = []; to_run = some (λ s. (true, s.1)) }

abbrev counted : Command ℕ
counted = record {
  cmd_name = 117 ∷ 112 ∷ [];
  help_string = 63 ∷ [];
  to_run = some (λ s. (s.0, s.1 + 1));
}

abbrev cmd_reg : List (Command ℕ)
cmd_reg = stopped ∷ counted ∷ []

to_up : levenshtein_distance beyond stop (117 ∷ 112 ∷ []) ≡ 4
unfolding levenshtein_distance column first_column fill_column fill least cost char_at
to_up = refl

registered : register counted (register stopped []) ≡ cmd_reg
unfolding register is_command get emplace before same_chars
registered = refl

get-register_example : get stop (register counted (stopped ∷ [])) ≡ (
    if same_chars (117 ∷ 112 ∷ []) stop && not (is_command stop (stopped ∷ []))
    then some counted
    else get stop (stopped ∷ []))
get-register_example = get-register stop counted (stopped ∷ [])

closest-nearest_example :
    ((closest beyond (115 ∷ 116 ∷ []) cmd_reg ≡ none)
      × NoneCloser beyond (115 ∷ 116 ∷ []) 16777215 cmd_reg)
    ⊎ ((first last : List (Command ℕ)) × (c : Command ℕ) × (closest beyond (115 ∷ 116 ∷ []) cmd_reg
          ≡ some c)
        × (cmd_reg ≡ first ++ c ∷ last)
        × (distance_to beyond (115 ∷ 116 ∷ []) c < 16777215)
        × NoneCloser beyond (115 ∷ 116 ∷ []) (suc (distance_to beyond (115 ∷ 116 ∷ []) c)) first
        × NoneCloser beyond (115 ∷ 116 ∷ []) (distance_to beyond (115 ∷ 116 ∷ []) c) last)
closest-nearest_example = closest-nearest beyond (115 ∷ 116 ∷ []) cmd_reg

listed :
    list_commands cmd_reg ≡ (stop ++ 32 ∷ 45 ∷ 32 ∷ []) ∷ (117 ∷ 112 ∷ 32 ∷ 45 ∷ 32 ∷ 63 ∷ []) ∷ []
unfolding list_commands
listed = refl

spun : spin cmd_reg ((117 ∷ 112 ∷ []) ∷ [] ∷ stop ∷ stop ∷ []) (false, 3) ≡ ((true, 4), stop ∷ [])
unfolding spin get same_chars
spun = refl

stop_and_xtop : levenshtein_distance beyond stop (120 ∷ 116 ∷ 111 ∷ 112 ∷ []) ≡ 0
unfolding levenshtein_distance column first_column fill_column fill least cost char_at
stop_and_xtop = refl
