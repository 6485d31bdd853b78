-- ===== src/Core/Users.antt =====
-- The users of the database (DCS_Core/src/db.cpp): adding, removing and looking up. SQLite and the hash
-- are parameters, and a blob is a column of bytes; what a field holds before it is set is one too.
pub mod Login
mod Tests
use dcscan_modules_api.Prelude.{
  ℕ, zero, suc, ◌+◌, ◌-◌, ◌*◌, ◌/◌, ◌%◌, ◌^◌, ◌≤◌, ◌<◌, min, max, ◌≡◌, refl, sym, ap, ◌∙◌, ◌≢◌, ◌↔◌,
  ◌⊎◌, inl, inr, Bool, true, false, not, ◌&&◌, ◌||◌, Option, none, some, List, [], ◌∷◌, ◌++◌, map,
  append-nil, append_assoc, arith, ltb, leb, ◌==◌, if◌then◌else◌, ltb→lt, lt→ltb, leb→le, le→leb,
  ==_iff, ==_refl, Bool-cases, Option-cases, length, get_elem?, get_or, take, drop, set,
  length-append, length-take, length-drop, take-append-drop, take_exact, drop_exact, take_within,
  take_all, length-map, All,
}
use dcscan_modules_api.Prelude.Words.{le_bytes, le_value, length-le_bytes, le_value-le_bytes}
use dcscan_modules_api.Utils.Timer.{codes}
use dcscan_modules_api.Core.Database.{
  Chars, Value, Outcome, Sqlite, quoted, query_entries, insert_entry, log_event_system,
}
use dcscan_modules_api.Core.Database.Cache.{same_chars}

-- `User`: the name, and the hash of the password
pub record User : Type 0 where
  pub u : Chars
  pub p : List ℕ

abbrev pub invalid_user : Chars
invalid_user = codes "INVALID_USER"

unfoldable pub has_char : (ℕ → Bool) → Chars → Bool
has_char test [] = false
has_char test (c ∷ cs) = test c || has_char test cs

abbrev pub is_space : ℕ → Bool
is_space c = c == 32

abbrev pub is_digit : ℕ → Bool
is_digit c = leb 48 c && leb c 57

abbrev pub blob_of : List ℕ → Option (List ℕ)
blob_of bytes =
    let size = le_value (take 8 bytes) in
    if leb 8 (length bytes) && leb size (length bytes) then some (take size bytes) else none

abbrev pub cons_blob : Option (List ℕ) → Option (List (List ℕ)) → Option (List (List ℕ))
cons_blob none rest = none
cons_blob (some b) none = none
cons_blob (some b) (some bs) = some (b ∷ bs)

abbrev pub blob_at : Option (List ℕ) → Option (List ℕ)
blob_at none = none
blob_at (some bytes) = blob_of bytes

module _ {S : Type 0} (sqlite : Sqlite S) where
  -- `QueryEntries` for blobs, which begin with their length; the column that is read is the number of
  -- the row. `none` is a null column, or one that is shorter than it says.
  unfoldable pub blob_rows : ℕ → List (ℕ → Option (List ℕ)) → Option (List (List ℕ))
  blob_rows i [] = some []
  blob_rows i (row ∷ rows) = cons_blob (blob_at (row i)) (blob_rows (i + 1) rows)

  abbrev pub blobs_of : Option (List (ℕ → Option (List ℕ))) → Option (List (List ℕ))
  blobs_of none = some []
  blobs_of (some rows) = blob_rows 0 rows

  unfoldable pub query_blobs : Chars → Chars → Chars → S → Option (List (List ℕ))
  query_blobs table column statement s = blobs_of (
      sqlite.select
        (codes "SELECT " ++ column ++ codes " FROM " ++ table ++ codes " WHERE " ++ statement) s)

  abbrev pub named : Chars → Chars
  named username = codes "USERNAME = " ++ quoted username

  -- `hash[0].data() + 8`; `none` is a read out of the vector.
  abbrev pub with_hash : Chars → Option (List (List ℕ)) → Option User
  with_hash u none = none
  with_hash u (some []) = none
  with_hash u (some (b ∷ bs)) = some (record { u = u; p = take 32 (drop 8 b) })

  abbrev pub found_user : List ℕ → Chars → S → Option (List Chars) → Option User
  found_user unset username s none = none
  found_user unset username s (some []) = some (record { u = invalid_user; p = unset })
  found_user unset username s (some (row ∷ rows)) =
      with_hash row (query_blobs (codes "USERS") (codes "PASS_HASH") (named username) s)

  -- `GetUser`; `unset` is the hash of a user that is not found, and `none` a fault.
  unfoldable pub get_user : List ℕ → Chars → S → Option User
  get_user unset username s =
      found_user unset username s
        (query_entries sqlite (codes "USERS") (codes "USERNAME") (named username) s)

  -- The end of `AddUser`.
  unfoldable pub insert_user : (Chars → List ℕ) → Chars → Chars → S → S
  insert_user sha256 username password s = log_event_system sqlite (codes "USR_CREATE") username (
      insert_entry sqlite (codes "USERS") (codes "USERNAME,PASS_HASH,ACCESS_LVL")
        (Value.text username ∷ Value.blob (le_bytes 8 40 ++ sha256 password) ∷ Value.int 0 ∷ []) s)

  abbrev pub add_new : (Chars → List ℕ) → Chars → Chars → S → Option User → Option S
  add_new sha256 username password s none = none
  add_new sha256 username password s (some user) = some (
      if not (same_chars user.u invalid_user)
      then s
      else if ltb (length password) 5
      then s
      else if not (has_char is_digit password)
      then s
      else insert_user sha256 username password s)

  -- `AddUser`
  unfoldable pub add_user : (Chars → List ℕ) → List ℕ → Chars → Chars → S → Option S
  add_user sha256 unset username password s =
      if leb 32 (length username)
      then some s
      else if has_char is_space username || has_char is_space password
      then some s
      else add_new sha256 username password s (get_user unset username s)

  abbrev pub after_delete : Chars → S → Outcome S → S
  after_delete username s Outcome.prepare_error = s
  after_delete username s (Outcome.step_error t) = t
  after_delete username s (Outcome.stepped t) =
      log_event_system sqlite (codes "USR_DELETE") username t

  abbrev pub remove_found : Chars → S → Option User → Option S
  remove_found username s none = none
  remove_found username s (some user) = some (
      if same_chars user.u invalid_user
      then s
      else after_delete username s
          (sqlite.execute (codes "DELETE FROM USERS WHERE USERNAME = " ++ quoted username) [] s))

  -- `RemoveUser`
  unfoldable pub remove_user : List ℕ → Chars → S → Option S
  remove_user unset username s = remove_found username s (get_user unset username s)

  abbrev pub zip_users : List Chars → List (List ℕ) → Option (List User)
  zip_users [] bs = some []
  zip_users (u ∷ us) [] = none
  zip_users (u ∷ us) (b ∷ bs) =
      cons_user (record { u = u; p = take 32 (drop 8 b) }) (zip_users us bs)
    where
      cons_user : User → Option (List User) → Option (List User)
      cons_user user none = none
      cons_user user (some users) = some (user ∷ users)

  abbrev pub with_hashes : List Chars → Option (List (List ℕ)) → Option (List User)
  with_hashes usernames none = none
  with_hashes usernames (some hashes) = zip_users usernames hashes

  abbrev pub with_names : S → Option (List Chars) → Option (List User)
  with_names s none = none
  with_names s (some []) = some []
  with_names s (some (u ∷ us)) =
      with_hashes (u ∷ us) (query_blobs (codes "USERS") (codes "PASS_HASH") (codes "1==1") s)

  -- `GetAllUsers`
  unfoldable pub get_all_users : S → Option (List User)
  get_all_users s =
      with_names s (query_entries sqlite (codes "USERS") (codes "USERNAME") (codes "1==1") s)
