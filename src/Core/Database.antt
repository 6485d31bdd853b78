-- ===== src/Core/Database.antt =====
-- The variables of the database (DCS_Core/src/db.cpp, `DCS::RDB`). SQLite is a parameter: what a
-- `SELECT` returns, and what a statement with bound values does. Text is a list of character codes.
-- A result set ends with `SQLITE_DONE`; a step that fails in the middle of one is not modelled.

pub mod Cache
pub mod Names
pub mod Runs
pub mod Others
pub mod Coherence
use dcscan_modules_api.Prelude.{
  ℕ, zero, suc, ◌+◌, ◌-◌, ◌*◌, ◌/◌, ◌%◌, ◌^◌, ◌≤◌, ◌<◌, min, max, ◌≡◌, refl, sym, ap, ◌∙◌, ◌≢◌, ◌↔◌,
  ◌⊎◌, inl, inr, Bool, true, false, not, ◌&&◌, ◌||◌, Option, none, some, List, [], ◌∷◌, ◌++◌, map,
  append-nil, append_assoc, arith, ltb, leb, ◌==◌, if◌then◌else◌, ltb→lt, lt→ltb, leb→le, le→leb,
  ==_iff, ==_refl, Bool-cases, Option-cases, length, get_elem?, get_or, take, drop, set,
  length-append, length-take, length-drop, take-append-drop, take_exact, drop_exact, take_within,
  take_all, length-map, All,
}
use dcscan_modules_api.Prelude.Words.{le_bytes, le_value, length-le_bytes, le_value-le_bytes}
use dcscan_modules_api.Utils.Timer.{codes}

abbrev pub Chars : Type 0
Chars = List ℕ

-- A value bound to a `?` of a statement.
pub data Value : Type 0 where
  null : Value
  text : Chars → Value
  int : ℕ → Value
  blob : List ℕ → Value

-- `step_error` is a step that does not end with `SQLITE_DONE`.
pub data Outcome (S : Type 0) : Type 0 where
  prepare_error : Outcome S
  step_error : S → Outcome S
  stepped : S → Outcome S

-- A row gives the text of each of its columns, `none` for null and past the last column.
pub record Sqlite (S : Type 0) : Type 0 where
  pub select : Chars → S → Option (List (ℕ → Option Chars))
  pub execute : Chars → List Value → S → Outcome S

abbrev pub quoted : Chars → Chars
quoted name = codes "\"" ++ name ++ codes "\""

module _ {S : Type 0} (sqlite : Sqlite S) where
  -- The rows from the one with index `i` on: the column that is read is the number of the row. A
  -- null column is no `std::string`; `none` is that fault.
  unfoldable pub text_rows : ℕ → List (ℕ → Option Chars) → Option (List Chars)
  text_rows i [] = some []
  text_rows i (row ∷ rows) = elim (row i) [
    | none ↦ none
    | some t ↦ elim (text_rows (i + 1) rows) [ none ↦ none | some ts ↦ some (t ∷ ts) ]
  ]

  abbrev pub rows_of : Option (List (ℕ → Option Chars)) → Option (List Chars)
  rows_of none = some []
  rows_of (some rows) = text_rows 0 rows

  -- `QueryEntries` for text, on an empty vector
  unfoldable pub query_entries : Chars → Chars → Chars → S → Option (List Chars)
  query_entries table column statement s = rows_of (
      sqlite.select
        (codes "SELECT " ++ column ++ codes " FROM " ++ table ++ codes " WHERE " ++ statement) s)

  -- `?,?,?` for the number of values
  unfoldable pub marks : List Value → Chars
  marks [] = []
  marks (v ∷ []) = codes "?)"
  marks (v ∷ w ∷ vs) = codes "?," ++ marks (w ∷ vs)

  abbrev pub state_after : Outcome S → S → S
  state_after Outcome.prepare_error s = s
  state_after (Outcome.step_error t) s = t
  state_after (Outcome.stepped t) s = t

  unfoldable pub insert_entry : Chars → Chars → List Value → S → S
  insert_entry table fields values s =
      state_after
        (sqlite.execute
          (codes "INSERT OR REPLACE INTO "
            ++ table
            ++ codes " ("
            ++ fields
            ++ codes ") VALUES ("
            ++ marks values)
          values s)
        s

  abbrev pub first_row : Option (List Chars) → Option Chars
  first_row none = none
  first_row (some []) = some []
  first_row (some (t ∷ ts)) = some t

  -- An unknown variable reads as the empty text.
  unfoldable pub read_variable : Chars → S → Option Chars
  read_variable name s =
      first_row
        (query_entries (codes "VARIABLES") (codes "VALUE") (codes "NAME = " ++ quoted name) s)

  unfoldable pub get_variable_descriptor : Chars → S → Option Chars
  get_variable_descriptor name s =
      first_row
        (query_entries (codes "VARIABLES") (codes "DESCRIPTOR") (codes "NAME = " ++ quoted name) s)

  unfoldable pub log_event : Chars → Chars → Chars → S → S
  log_event username operation what s =
      insert_entry (codes "EVENTS") (codes "USERNAME,OPERATION,OP_DESCRIPTION")
        (Value.text username ∷ Value.text operation ∷ Value.text what ∷ []) s

  unfoldable pub log_event_system : Chars → Chars → S → S
  log_event_system operation what s = log_event (codes "System") operation what s

  -- the last line of the four functions that write a variable
  unfoldable pub store_variable : Chars → Chars → Value → S → S
  store_variable name value descriptor s =
      insert_entry (codes "VARIABLES") (codes "NAME,VALUE,DESCRIPTOR")
        (Value.text name ∷ Value.text value ∷ descriptor ∷ []) s

  abbrev pub event_of_write : Chars → Chars
  event_of_write [] = codes "VAR_CREATE"
  event_of_write (c ∷ cs) = codes "VAR_UPDATE"

  abbrev logged_write : Option Chars → Chars → Chars → Value → S → Option S
  logged_write none name value descriptor s = none
  logged_write (some old) name value descriptor s = some (
      store_variable name value descriptor
        (log_event_system (event_of_write old) (name ++ codes "=" ++ value) s))

  -- `WriteVariable`; a number is written as the text of `std::to_string`.
  unfoldable pub write_variable : Chars → Chars → Value → S → Option S
  write_variable name value descriptor s =
      logged_write (read_variable name s) name value descriptor s

  unfoldable pub write_variable_sys : Chars → Chars → Value → S → Option S
  write_variable_sys name value descriptor s = some (store_variable name value descriptor s)

  abbrev pub deleted : Outcome S → S → Bool × S
  deleted Outcome.prepare_error s = (false, s)
  deleted (Outcome.step_error t) s = (false, t)
  deleted (Outcome.stepped t) s = (true, t)

  abbrev delete_known : Option Chars → Chars → S → Option (Bool × S)
  delete_known none name s = none
  delete_known (some []) name s = some (false, s)
  delete_known (some (c ∷ cs)) name s =
      some (
        deleted (sqlite.execute (codes "DELETE FROM VARIABLES WHERE NAME = " ++ quoted name) [] s)
          s)

  -- `DeleteVariableInternal`
  unfoldable pub delete_variable_internal : Chars → S → Option (Bool × S)
  delete_variable_internal name s = delete_known (read_variable name s) name s

  abbrev logged_delete : Chars → Chars → Option (Bool × S) → Option S
  logged_delete username name none = none
  logged_delete username name (some (gone, s)) =
      some (if gone then log_event username (codes "VAR_DELETE") name s else s)

  -- `DeleteVariable`, with the name of the authenticated user, and `DeleteVariableSys`
  unfoldable pub delete_variable : Chars → Chars → S → Option S
  delete_variable username name s = logged_delete username name (delete_variable_internal name s)
