-- ===== src/Core/Database/Runs.antt =====
-- Sequences of operations on the variables, with the cache and without it.
use dcscan_modules_api.Prelude.{◌≡◌, ◌≢◌, Option, none, some, List, [], ◌∷◌, ◌++◌}
use dcscan_modules_api.Utils.Timer.{codes}
use dcscan_modules_api.Core.Database.{
  Chars, Value, Sqlite, read_variable, state_after, log_event, store_variable, quoted,
}
use dcscan_modules_api.Core.Database.Cache.{
  Authority, Db, invalidate_cache, read_value_string, write_as, write_value_string, delete_as,
  delete_value,
}

pub data Op : Type 0 where
  read : Chars → Op
  write : Authority → Chars → Chars → Chars → Op
  delete : Authority → Chars → Op
  invalidate : Op

-- The variable that an operation names is one of the names in `Plain`.
abbrev pub Names : (Chars → Type 0) → Op → Type 0
Names Plain (Op.read n) = Plain n
Names Plain (Op.write auth n v d) = Plain n
Names Plain (Op.delete auth n) = Plain n
Names Plain Op.invalidate = Unit

module _ {S : Type 0} (sqlite : Sqlite S) where
  -- What the documentation of SQLite says of a name that a double-quoted text denotes: storing or
  -- deleting the variable of that name, and logging an event, leave the other variables alone.
  pub record IsKeyed (Plain : Chars → Type 0) : Type 0 where
    pub store_others :
        (n m value description : Chars) (s : S)
        → Plain n
        → Plain m
        → n ≢ m
        → read_variable sqlite m (store_variable sqlite n value (Value.text description) s)
          ≡ read_variable sqlite m s
    pub delete_others :
        (n m : Chars) (s : S)
        → Plain n
        → Plain m
        → n ≢ m
        → read_variable sqlite m (
            state_after sqlite
              (sqlite.execute (codes "DELETE FROM VARIABLES WHERE NAME = " ++ quoted n) [] s)
              s)
          ≡ read_variable sqlite m s
    pub log_others :
        (m username operation what : Chars) (s : S)
        → Plain m
        → read_variable sqlite m (log_event sqlite username operation what s)
          ≡ read_variable sqlite m s

  abbrev pub texted : Option (Chars × Db S) → Option (Option Chars × Db S)
  texted none = none
  texted (some (value, db)) = some (some value, db)

  abbrev pub silent : Option (Db S) → Option (Option Chars × Db S)
  silent none = none
  silent (some db) = some (none, db)

  -- An operation of the code, with what it returns.
  abbrev pub operate : Op → Db S → Option (Option Chars × Db S)
  operate (Op.read n) db = texted (read_value_string sqlite n db)
  operate (Op.write auth n v d) db = silent (write_value_string sqlite auth n v d db)
  operate (Op.delete auth n) db = silent (delete_value sqlite auth n db)
  operate Op.invalidate db = some (none, invalidate_cache db)

  abbrev pub answered : Option Chars → S → Option (Option Chars × S)
  answered none s = none
  answered (some value) s = some (some value, s)

  abbrev pub changed : Option S → Option (Option Chars × S)
  changed none = none
  changed (some s) = some (none, s)

  -- The same operation on the database alone.
  abbrev pub operate_directly : Chars → Op → S → Option (Option Chars × S)
  operate_directly username (Op.read n) s = answered (read_variable sqlite n s) s
  operate_directly username (Op.write auth n v d) s = changed (write_as sqlite auth n v d s)
  operate_directly username (Op.delete auth n) s = changed (delete_as sqlite auth username n s)
  operate_directly username Op.invalidate s = some (none, s)

  abbrev pub then_results :
      Option (List (Option Chars) × S) → Option Chars → Option (List (Option Chars) × S)
  then_results none r = none
  then_results (some (rs, s)) r = some (r ∷ rs, s)

  -- All that a sequence of operations returns, and the database that it leaves.
  unfoldable pub run : List Op → Db S → Option (List (Option Chars) × S)
  run [] db = some ([], db.rdb)
  run (op ∷ ops) db = elim (operate op db) [
    | none ↦ none
    | some (r, db') ↦ then_results (run ops db') r
  ]

  unfoldable pub run_directly : Chars → List Op → S → Option (List (Option Chars) × S)
  run_directly username [] s = some ([], s)
  run_directly username (op ∷ ops) s = elim (operate_directly username op s) [
    | none ↦ none
    | some (r, s') ↦ then_results (run_directly username ops s') r
  ]
