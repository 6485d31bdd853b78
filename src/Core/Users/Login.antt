-- ===== src/Core/Users/Login.antt =====
-- A user that was added is found, with the hash of the password.
use dcscan_modules_api.Prelude.{
  ℕ, ◌≡◌, refl, sym, ap, ◌∙◌, ◌≢◌, inl, inr, Bool, true, not, ◌&&◌, ◌||◌, Option, none, some, List,
  [], ◌∷◌, ◌++◌, arith, ltb, leb, ◌==◌, if◌then◌else◌, Bool-cases, length, take, length-append,
  take_exact, drop_exact, take_all,
}
use dcscan_modules_api.Prelude.Words.{le_bytes, le_value, length-le_bytes, le_value-le_bytes}
use dcscan_modules_api.Utils.Timer.{codes}
use dcscan_modules_api.Core.Database.{
  Chars, Value, Sqlite, text_rows, rows_of, query_entries, insert_entry, log_event,
  log_event_system,
}
use dcscan_modules_api.Core.Database.Cache.{same_chars}
use dcscan_modules_api.Core.Database.Names.{same_chars_refl, same_chars_sound}
use dcscan_modules_api.Core.Users.{
  User, invalid_user, has_char, is_space, is_digit, blob_of, cons_blob, blob_rows, blobs_of,
  query_blobs, named, with_hash, found_user, get_user, insert_user, add_user,
}

abbrev pub one_row : List ℕ → List (ℕ → Option (List ℕ))
one_row bytes = (λ i. if i == 0 then some bytes else none) ∷ []

-- The rows of a query for a user, given the column where there is one.
abbrev pub rows_for : Option (List ℕ) → List ℕ → List (ℕ → Option (List ℕ))
rows_for none column = []
rows_for (some blob) column = one_row column

abbrev pub blob_in : Option (List ℕ) → List ℕ
blob_in none = []
blob_in (some blob) = blob

-- What the code relies on in SQLite, for the names that are `Plain`: `view` is the blob of a user, which
-- the two queries read, an insertion sets, and the log of events leaves.
pub record IsUserTable {S : Type 0} (sqlite : Sqlite S) (Plain : Chars → Type 0)
    (view : S → Chars → Option (List ℕ)) : Type 0 where
  pub names :
      (n : Chars) (s : S)
      → Plain n
      → sqlite.select
          (codes "SELECT "
            ++ codes "USERNAME"
            ++ codes " FROM "
            ++ codes "USERS"
            ++ codes " WHERE "
            ++ named sqlite n)
          s
        ≡ some (rows_for (view s n) n)
  pub hashes :
      (n : Chars) (s : S)
      → Plain n
      → sqlite.select
          (codes "SELECT "
            ++ codes "PASS_HASH"
            ++ codes " FROM "
            ++ codes "USERS"
            ++ codes " WHERE "
            ++ named sqlite n)
          s
        ≡ some (rows_for (view s n) (blob_in (view s n)))
  pub inserted :
      (n m : Chars) (blob : List ℕ) (s : S)
      → Plain n
      → Plain m
      → view
          (insert_entry sqlite
            (codes "USERS")
            (codes "USERNAME,PASS_HASH,ACCESS_LVL")
            (Value.text n ∷ Value.blob blob ∷ Value.int 0 ∷ [])
            s)
          m
        ≡ (if same_chars n m then some blob else view s m)
  pub logged :
      (who operation what m : Chars) (s : S)
      → Plain m
      → view (log_event sqlite who operation what s) m ≡ view s m

-- What `AddUser` asks of a new name and its password.
abbrev pub acceptable : Chars → Chars → Bool
acceptable username password =
    ltb (length username) 32
    && (not (has_char is_space username || has_char is_space password)
        && (leb 5 (length password) && has_char is_digit password))

module _ {S : Type 0} (sqlite : Sqlite S) (Plain : Chars → Type 0)
    (view : S → Chars → Option (List ℕ)) (table : IsUserTable sqlite Plain view)
    (sha256 : Chars → List ℕ) (size_hash : (password : Chars) → length (sha256 password) ≡ 32)
    (unset : List ℕ) where
  -- The user that a blob makes.
  abbrev user_of : Chars → Option (List ℕ) → Option User
  user_of n none = some (record { u = invalid_user; p = unset })
  user_of n (some blob) = with_hash sqlite n (cons_blob (blob_of blob) (some []))

  names_in : Option (List ℕ) → Chars → Option (List Chars)
  names_in none n = some []
  names_in (some blob) n = some (n ∷ [])

  blobs_in : Option (List ℕ) → Option (List (List ℕ))
  blobs_in none = some []
  blobs_in (some blob) = cons_blob (blob_of blob) (some [])

  names_lem :
      (n : Chars) (s : S)
      → Plain n
      → query_entries sqlite (codes "USERS") (codes "USERNAME") (named sqlite n) s
        ≡ names_in (view s n) n
  unfolding query_entries
  names_lem n s plain = ap (rows_of sqlite) (table.names n s plain) ∙ by_view (view s n)
    where
      by_view : (v : Option (List ℕ)) → rows_of sqlite (some (rows_for v n)) ≡ names_in v n
      by_view none = unfold text_rows names_in in refl
      by_view (some blob) = unfold text_rows names_in in refl

  hash_lem :
      (n : Chars) (s : S)
      → Plain n
      → query_blobs sqlite (codes "USERS") (codes "PASS_HASH") (named sqlite n) s
        ≡ blobs_in (view s n)
  unfolding query_blobs
  hash_lem n s plain = ap (blobs_of sqlite) (table.hashes n s plain) ∙ by_view (view s n)
    where
      by_view : (v : Option (List ℕ)) → blobs_of sqlite (some (rows_for v (blob_in v))) ≡ blobs_in v
      by_view none = unfold blob_rows blobs_in in refl
      by_view (some blob) = unfold blob_rows blobs_in in refl

  get_user_lem : (n : Chars) (s : S) → Plain n → get_user sqlite unset n s ≡ user_of n (view s n)
  unfolding get_user
  get_user_lem n s plain =
      ap (found_user sqlite unset n s) (names_lem n s plain)
      ∙ by_view (view s n) (hash_lem n s plain)
    where
      by_view :
          (v : Option (List ℕ))
          → query_blobs sqlite (codes "USERS") (codes "PASS_HASH") (named sqlite n) s ≡ blobs_in v
          → found_user sqlite unset n s (names_in v n) ≡ user_of n v
      by_view none e = unfold names_in in refl
      by_view (some blob) e = unfold names_in blobs_in in ap (with_hash sqlite n) e

  abbrev stored_hash : Chars → List ℕ
  stored_hash password = le_bytes 8 40 ++ sha256 password

  length-stored : (password : Chars) → length (stored_hash password) ≡ 40
  length-stored password = omega (
    arith,
    length-append (le_bytes 8 40) (sha256 password),
    length-le_bytes 8 40,
    size_hash password,
  )

  stored_lem :
      (n password : Chars)
      → user_of n (some (stored_hash password)) ≡ some (record { u = n; p = sha256 password })
  stored_lem n password =
      ap (λ b. with_hash sqlite n (cons_blob b (some []))) whole
      ∙ ap (λ h. some (record { u = n; p = h }))
          (ap (take 32) (drop_exact 8 (le_bytes 8 40) (sha256 password) (length-le_bytes 8 40))
            ∙ all_of (sha256 password) (size_hash password))
    where
      all_of : (h : List ℕ) → length h ≡ 32 → take 32 h ≡ h
      all_of h e = ap (λ k. take k h) (sym e) ∙ take_all h

      all_40 : (b : List ℕ) → length b ≡ 40 → take 40 b ≡ b
      all_40 b e = ap (λ k. take k b) (sym e) ∙ take_all b

      size_lem : le_value (take 8 (stored_hash password)) ≡ 40
      size_lem =
          ap le_value (take_exact 8 (le_bytes 8 40) (sha256 password) (length-le_bytes 8 40))
          ∙ le_value-le_bytes 8 40 (omega arith)

      whole : blob_of (stored_hash password) ≡ some (stored_hash password)
      whole =
          rw (size_lem, length-stored password)
            (ap some (all_40 (stored_hash password) (length-stored password)))

  view_lem :
      (n m password : Chars) (s : S)
      → Plain n
      → Plain m
      → view (insert_user sqlite sha256 n password s) m
        ≡ (if same_chars n m then some (stored_hash password) else view s m)
  unfolding insert_user log_event_system
  view_lem n m password s p q =
      table.logged (codes "System") (codes "USR_CREATE") n m _ q
      ∙ table.inserted n m (stored_hash password) s p q

  accept_lem :
      (n password : Chars) (s : S)
      → Plain n
      → view s n ≡ none
      → add_user sqlite sha256 unset n password s
        ≡ some (if acceptable n password then insert_user sqlite sha256 n password s else s)
  unfolding add_user
  accept_lem n password s plain new =
      rw (get_user_lem n s plain ∙ ap (user_of n) new, same_chars_refl invalid_user)
        (decide (length n) (length password) (has_char is_space n || has_char is_space password)
          (has_char is_digit password) (insert_user sqlite sha256 n password s))
    where
      decide :
          (l p : ℕ) (space digit : Bool) (t : S)
          → (if leb 32 l
              then some s
              else if space
              then some s
              else some (if not true then s else if ltb p 5 then s else if not digit then s else t))
            ≡ some (if ltb l 32 && (not space && (leb 5 p && digit)) then t else s)
      decide l p space digit t = ground arith

  -- A name that nobody has, with a password: it is added if the name has at most 31 characters, neither
  -- has a space, and the password has at least five characters and a digit, and else nothing is changed.
  -- Once it is added, a look-up gives the name with the hash of its password, and any other name gives
  -- what it gave before.
  pub add_user-found :
      (n password : Chars) (s : S)
      → Plain n
      → view s n ≡ none
      → let t = insert_user sqlite sha256 n password s in
        (add_user sqlite sha256 unset n password s ≡ some (if acceptable n password then t else s))
        × (get_user sqlite unset n t ≡ some (record { u = n; p = sha256 password }))
        × ((m : Chars) → Plain m → n ≢ m → get_user sqlite unset m t ≡ get_user sqlite unset m s)
  add_user-found n password s plain new =
      let t = insert_user sqlite sha256 n password s in
      (
        accept_lem n password s plain new,
        get_user_lem n t plain
            ∙ ap (user_of n)
                (view_lem n n password s plain plain ∙ same_one _ _ (same_chars_refl n))
            ∙ stored_lem n password,
        λ m q ne.
            get_user_lem m t q
            ∙ ap (user_of m) (view_lem n m password s plain q ∙ other_one m ne)
            ∙ sym (get_user_lem m s q),
      )
    where
      same_one : {A : Type 0} {b : Bool} (x y : A) → b ≡ true → (if b then x else y) ≡ x
      same_one x y e = rw e refl

      other_one :
          (m : Chars)
          → n ≢ m
          → (if same_chars n m then some (stored_hash password) else view s m) ≡ view s m
      other_one m ne = elim (Bool-cases (same_chars n m)) [
        | inl same ↦ absurd (ne (same_chars_sound n m same))
        | inr differs ↦ rw differs refl
      ]
