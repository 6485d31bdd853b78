-- ===== src/Network/Cli.antt =====
-- The command line of the server (DCS_Network/src/cli.cpp, DCS_Network/include/DCS_ModuleNetwork.h): the
-- registry of commands, the search for the closest name, and the loop that reads commands. A command
-- changes a state `S` and the flag that ends the loop; what memory holds behind a text is a parameter.
pub mod Distance
pub mod Registration
mod Tests
use dcscan_modules_api.Prelude.{
  ℕ, zero, suc, ◌+◌, ◌-◌, ◌*◌, ◌/◌, ◌%◌, ◌^◌, ◌≤◌, ◌<◌, min, max, ◌≡◌, refl, sym, ap, ◌∙◌, ◌≢◌, ◌↔◌,
  ◌⊎◌, inl, inr, Bool, true, false, not, ◌&&◌, ◌||◌, Option, none, some, List, [], ◌∷◌, ◌++◌, map,
  append-nil, append_assoc, arith, ltb, leb, ◌==◌, if◌then◌else◌, ltb→lt, lt→ltb, leb→le, le→leb,
  ==_iff, ==_refl, Bool-cases, Option-cases, length, get_elem?, get_or, take, drop, set,
  length-append, length-take, length-drop, take-append-drop, take_exact, drop_exact, take_within,
  take_all, length-map, All,
}
use dcscan_modules_api.Prelude.Words.{le_bytes, le_value, length-le_bytes, le_value-le_bytes}
use dcscan_modules_api.Core.Database.{Chars}
use dcscan_modules_api.Core.Database.Cache.{same_chars}

-- `s[i]` of a `std::string`: its terminator at its size, and past it whatever is there.
unfoldable pub char_at : (ℕ → ℕ) → Chars → ℕ → ℕ
char_at memory s i = get_or (s ++ 0 ∷ []) i (memory i)

-- `cost`, which compares both texts at `i`
unfoldable pub cost : (ℕ → ℕ) → Chars → Chars → ℕ → ℕ
cost memory s1 s2 i = if char_at memory s1 i == char_at memory s2 i then 0 else 1

-- The choice among the three sums.
unfoldable pub least : ℕ → ℕ → ℕ → ℕ
least c_i c_d c_s =
    if leb c_i c_d then (if leb c_i c_s then c_i else c_s) else (if leb c_d c_s then c_d else c_s)

-- The inner loop: the column `j` from the row `i` on, given the entry above it and the column `j - 1`
-- from the row `i - 1` on.
unfoldable pub fill : (ℕ → ℕ) → ℕ → ℕ → List ℕ → List ℕ
fill costs i above [] = []
fill costs i above (diagonal ∷ []) = []
fill costs i above (diagonal ∷ left ∷ previous) =
    let entry = least (above + 1) (left + 1) (diagonal + costs i) in
    entry ∷ fill costs (suc i) entry (left ∷ previous)

unfoldable pub fill_column : (ℕ → ℕ) → ℕ → List ℕ → List ℕ
fill_column costs j previous = j ∷ fill costs 1 j previous

-- The column 0 from the row `i` on.
unfoldable pub first_column : ℕ → ℕ → List ℕ
first_column i zero = []
first_column i (suc n) = i ∷ first_column (suc i) n

-- The column `j`, for texts of which the first has `n` characters.
unfoldable pub column : (ℕ → ℕ) → ℕ → ℕ → List ℕ
column costs n zero = first_column 0 (suc n)
column costs n (suc j) = fill_column costs (suc j) (column costs n j)

unfoldable pub levenshtein_distance : (ℕ → ℕ) → Chars → Chars → ℕ
levenshtein_distance memory s1 s2 =
    get_or (column (cost memory s1 s2) (length s1) (length s2)) (length s1) 0

-- `RunCB` is none where the callback is a null pointer; the flag is `*brk`.
pub record Command (S : Type 0) : Type 0 where
  pub cmd_name : Chars
  pub help_string : Chars
  pub to_run : Option (Bool × S → Bool × S)

-- The order of `std::string`.
unfoldable pub before : Chars → Chars → Bool
before [] [] = false
before [] (d ∷ ds) = true
before (c ∷ cs) [] = false
before (c ∷ cs) (d ∷ ds) =
    let rest = before cs ds in if ltb c d then true else if c == d then rest else false

module _ {S : Type 0} where
  unfoldable pub get : Chars → List (Command S) → Option (Command S)
  get name [] = none
  get name (c ∷ cmd_reg) =
      let rest = get name cmd_reg in if same_chars c.cmd_name name then some c else rest

  abbrev pub found : Option (Command S) → Bool
  found none = false
  found (some c) = true

  unfoldable pub is_command : Chars → List (Command S) → Bool
  is_command name cmd_reg = found (get name cmd_reg)

  -- `emplace` of a name that is not there.
  unfoldable pub emplace : Command S → List (Command S) → List (Command S)
  emplace new [] = new ∷ []
  emplace new (c ∷ cmd_reg) =
      let rest = emplace new cmd_reg in
      if before new.cmd_name c.cmd_name then new ∷ c ∷ cmd_reg else c ∷ rest

  -- The constructor.
  unfoldable pub register : Command S → List (Command S) → List (Command S)
  register new cmd_reg =
      if not (is_command new.cmd_name cmd_reg) then emplace new cmd_reg else cmd_reg

  -- `cmds.push_back` of the name, " - " and the help
  unfoldable pub list_commands : List (Command S) → List Chars
  list_commands [] = []
  list_commands (c ∷ cmd_reg) =
      (c.cmd_name ++ (32 ∷ 45 ∷ 32 ∷ [] ++ c.help_string)) ∷ list_commands cmd_reg

  -- The loop of `Closest` with `min` and `min_c`.
  unfoldable pub closest_from :
      (ℕ → ℕ) → Chars → ℕ → Option (Command S) → List (Command S) → Option (Command S)
  closest_from memory name least_yet best [] = best
  closest_from memory name least_yet best (c ∷ cmd_reg) =
      let lmin = levenshtein_distance memory name c.cmd_name in
      let better = closest_from memory name lmin (some c) cmd_reg in
      let same = closest_from memory name least_yet best cmd_reg in
      if ltb lmin least_yet then better else same

  unfoldable pub closest : (ℕ → ℕ) → Chars → List (Command S) → Option (Command S)
  closest memory name cmd_reg = closest_from memory name 16777215 none cmd_reg

  abbrev pub run_with : Option (Bool × S → Bool × S) → Bool × S → Bool × S
  run_with none s = s
  run_with (some f) s = f s

  abbrev pub run_found : Option (Command S) → Bool × S → Bool × S
  run_found none s = s
  run_found (some c) s = run_with c.to_run s

  -- The loop of `Spin` on the words of the input: the flag, the state and the words that are left.
  unfoldable pub spin : List (Command S) → List Chars → Bool × S → (Bool × S) × List Chars
  spin cmd_reg [] s = (s, [])
  spin cmd_reg (word ∷ words) s =
      let rest = spin cmd_reg words (run_found (get word cmd_reg) s) in
      if s.0 then (s, word ∷ words) else rest
