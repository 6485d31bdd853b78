-- ===== src/Core/Database/Cache.antt =====
-- The cached access to the variables of the database (DCS_Core/src/db.cpp, `DCS::Database`). The cache
-- is an association list with each name at most once. The buffers of `BasicString` are texts of any
-- length here. `std::atof`, `std::to_string` and `0.0` are parameters.
use dcscan_modules_api.Prelude.{
  Bool, true, false, ◌&&◌, Option, none, some, List, [], ◌∷◌, ◌==◌, if◌then◌else◌,
}
use dcscan_modules_api.Core.Database.{
  Chars, Value, Sqlite, read_variable, write_variable, write_variable_sys, delete_variable,
}
use dcscan_modules_api.Utils.Timer.{codes}

pub data Authority : Type 0 where
  sys user : Authority

-- `realtime_db`, `authenticated_username` and `db_var_cache`
pub record Db (S : Type 0) : Type 0 where
  pub rdb : S
  pub username : Chars
  pub cache : List (Chars × Chars)

unfoldable pub same_chars : Chars → Chars → Bool
same_chars [] [] = true
same_chars [] (d ∷ ds) = false
same_chars (c ∷ cs) [] = false
same_chars (c ∷ cs) (d ∷ ds) = c == d && same_chars cs ds

unfoldable pub find : Chars → List (Chars × Chars) → Option Chars
find name [] = none
find name ((k, v) ∷ entries) = if same_chars k name then some v else find name entries

unfoldable pub erase : Chars → List (Chars × Chars) → List (Chars × Chars)
erase name [] = []
erase name ((k, v) ∷ entries) =
    let rest = erase name entries in if same_chars k name then rest else (k, v) ∷ rest

module _ {S : Type 0} where
  unfoldable pub invalidate_cache : Db S → Db S
  invalidate_cache db = record db { cache = [] }

  unfoldable pub set_authenticated_user : Option Chars → Db S → Db S
  set_authenticated_user none db = record db { username = [] }
  set_authenticated_user (some name) db = record db { username = name }

  module _ (sqlite : Sqlite S) where
    abbrev pub fetched : Option Chars → Chars → Db S → Option (Chars × Db S)
    fetched none variable db = none
    fetched (some []) variable db = some ([], db)
    fetched (some (c ∷ cs)) variable db =
        some (c ∷ cs, record db { cache = (variable, c ∷ cs) ∷ db.cache })

    abbrev pub looked_up : Option Chars → Chars → Db S → Option (Chars × Db S)
    looked_up (some value) variable db = some (value, db)
    looked_up none variable db = fetched (read_variable sqlite variable db.rdb) variable db

    -- `ReadValueString`: an unknown variable reads as the empty text, and is not cached.
    unfoldable pub read_value_string : Chars → Db S → Option (Chars × Db S)
    read_value_string variable db = looked_up (find variable db.cache) variable db

    module _ {ℓ} {F : Type ℓ} (atof : Chars → F) (zero_f : F) where
      abbrev pub number : Chars → F
      number [] = zero_f
      number (c ∷ cs) = atof (c ∷ cs)

      abbrev pub as_number : Option (Chars × Db S) → Option (F × Db S)
      as_number none = none
      as_number (some (value, db)) = some (number value, db)

      unfoldable pub read_value_f64 : Chars → Db S → Option (F × Db S)
      read_value_f64 variable db = as_number (looked_up (find variable db.cache) variable db)

    abbrev pub written : Option S → Chars → Db S → Option (Db S)
    written none variable db = none
    written (some s) variable db = some (record db { rdb = s; cache = erase variable db.cache })

    -- what the switch over the authority writes
    unfoldable pub write_as : Authority → Chars → Chars → Chars → S → Option S
    write_as Authority.sys variable value description s =
        write_variable_sys sqlite variable value (Value.text description) s
    write_as Authority.user variable value description s =
        write_variable sqlite variable value (Value.text description) s

    unfoldable pub write_value_string : Authority → Chars → Chars → Chars → Db S → Option (Db S)
    write_value_string auth variable value description db =
        written (write_as auth variable value description db.rdb) variable db

    unfoldable pub write_value_f64 {ℓ} :
        {F : Type ℓ} → (F → Chars) → Authority → Chars → F → Chars → Db S → Option (Db S)
    write_value_f64 to_string auth variable value description db =
        written (write_as auth variable (to_string value) description db.rdb) variable db

    unfoldable pub delete_as : Authority → Chars → Chars → S → Option S
    delete_as Authority.sys username variable s = delete_variable sqlite (codes "System") variable s
    delete_as Authority.user username variable s = delete_variable sqlite username variable s

    unfoldable pub delete_value : Authority → Chars → Db S → Option (Db S)
    delete_value auth variable db = written (delete_as auth db.username variable db.rdb) variable db
