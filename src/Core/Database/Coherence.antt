-- ===== src/Core/Database/Coherence.antt =====
-- The cache never shows: any sequence of operations gives what it gives without a cache.
use dcscan_modules_api.Prelude.{
  ◌≡◌, refl, sym, ap, ◌∙◌, ◌≢◌, inl, inr, false, Option, none, some, List, [], ◌∷◌, arith,
  Bool-cases, All,
}
use mathlib.Core.Path.{ap₂}
use dcscan_modules_api.Core.Database.{Chars, Sqlite, read_variable}
use dcscan_modules_api.Core.Database.Cache.{
  Db, same_chars, find, erase, invalidate_cache, fetched, looked_up, read_value_string, written,
  write_as, write_value_string, delete_as, delete_value,
}
use dcscan_modules_api.Core.Database.Runs.{
  IsKeyed, Op, Names, texted, silent, operate, answered, changed, operate_directly, then_results,
  run, run_directly,
}
use dcscan_modules_api.Core.Database.Names.{same_chars_refl, same_chars_sound}
use dcscan_modules_api.Core.Database.Others.{write_as-others, delete_as-others}

module _ {S : Type 0} (sqlite : Sqlite S) (Plain : Chars → Type 0)
    (keyed : IsKeyed sqlite Plain) where
  abbrev IsCached : S → Chars × Chars → Type 0
  IsCached s entry = Plain entry.0 × (read_variable sqlite entry.0 s ≡ some entry.1)

  find-IsCached :
      (n v : Chars) (s : S) (entries : List (Chars × Chars))
      → All (IsCached s) entries
      → find n entries ≡ some v
      → read_variable sqlite n s ≡ some v
  unfolding find
  find-IsCached n v s [] ok e = cc
  find-IsCached n v s ((k, w) ∷ entries) ok e = elim (Bool-cases (same_chars k n)) [
    | inl same ↦
        ap (λ x. read_variable sqlite x s) (sym (same_chars_sound k n same)) ∙ ok.0.1 ∙ ground arith
    | inr differs ↦ find-IsCached n v s entries ok.1 (ground arith)
  ]

  erase-IsCached :
      (n : Chars) (s s' : S) (entries : List (Chars × Chars))
      → ((m : Chars) → Plain m → n ≢ m → read_variable sqlite m s' ≡ read_variable sqlite m s)
      → All (IsCached s) entries
      → All (IsCached s') (erase n entries)
  unfolding erase
  erase-IsCached n s s' [] others ok = tt
  erase-IsCached n s s' ((k, w) ∷ entries) others ok = elim (Bool-cases (same_chars k n)) [
    | inl same ↦ rw same (erase-IsCached n s s' entries others ok.1)
    | inr differs ↦ rw differs (
        (
          (ok.0.0, others k ok.0.0 (λ e. different differs e) ∙ ok.0.1),
          erase-IsCached n s s' entries others ok.1,
        ))
  ]
    where
      different : same_chars k n ≡ false → n ≢ k
      different h e = cc (h, e, same_chars_refl k)

  -- What an operation of the code gives, against what the database alone gives.
  abbrev Agree : Chars → Option (Option Chars × Db S) → Option (Option Chars × S) → Type 0
  Agree username none none = Unit
  Agree username none (some b) = ⊥
  Agree username (some a) none = ⊥
  Agree username (some (r, db)) (some (r', s)) =
      (r ≡ r') × (db.rdb ≡ s) × (db.username ≡ username) × All (IsCached s) db.cache

  fetched-Agree :
      (o : Option Chars) (n : Chars) (db : Db S)
      → Plain n
      → read_variable sqlite n db.rdb ≡ o
      → All (IsCached db.rdb) db.cache
      → Agree db.username (texted sqlite (fetched sqlite o n db)) (answered sqlite o db.rdb)
  fetched-Agree none n db p e ok = tt
  fetched-Agree (some []) n db p e ok = (refl, refl, refl, ok)
  fetched-Agree (some (c ∷ cs)) n db p e ok = (refl, refl, refl, ((p, e), ok))

  looked_up-Agree :
      (hit : Option Chars) (n : Chars) (db : Db S)
      → Plain n
      → find n db.cache ≡ hit
      → All (IsCached db.rdb) db.cache
      → Agree db.username
          (texted sqlite (looked_up sqlite hit n db))
          (answered sqlite (read_variable sqlite n db.rdb) db.rdb)
  looked_up-Agree none n db p e ok = fetched-Agree (read_variable sqlite n db.rdb) n db p refl ok
  looked_up-Agree (some v) n db p e ok =
      rw (find-IsCached n v db.rdb db.cache ok e) ((refl, refl, refl, ok))

  written-Agree :
      (o : Option S) (n : Chars) (db : Db S)
      → ((m : Chars) (s' : S)
          → Plain m
          → n ≢ m
          → o ≡ some s'
          → read_variable sqlite m s' ≡ read_variable sqlite m db.rdb)
      → All (IsCached db.rdb) db.cache
      → Agree db.username (silent sqlite (written sqlite o n db)) (changed sqlite o)
  written-Agree none n db others ok = tt
  written-Agree (some s') n db others ok =
      (refl, refl, refl, erase-IsCached n db.rdb s' db.cache (λ m p ne. others m s' p ne refl) ok)

  operate-Agree :
      (op : Op) (db : Db S)
      → Names Plain op
      → All (IsCached db.rdb) db.cache
      → Agree db.username (operate sqlite op db) (operate_directly sqlite db.username op db.rdb)
  unfolding read_value_string write_value_string delete_value invalidate_cache
  operate-Agree (Op.read n) db p ok = looked_up-Agree (find n db.cache) n db p refl ok
  operate-Agree (Op.write auth n v d) db p ok =
      written-Agree (write_as sqlite auth n v d db.rdb) n db
        (λ m s' q ne e. write_as-others sqlite Plain keyed m q auth n v d db.rdb s' p ne e) ok
  operate-Agree (Op.delete auth n) db p ok =
      written-Agree (delete_as sqlite auth db.username n db.rdb) n db
        (λ m s' q ne e. delete_as-others sqlite Plain keyed m q auth db.username n db.rdb s' p ne e)
        ok
  operate-Agree Op.invalidate db p ok = (refl, refl, refl, tt)

  run_step :
      (username : Chars) (ops : List Op) (a : Option (Option Chars × Db S))
      (b : Option (Option Chars × S))
      → Agree username a b
      → ((db : Db S)
          → db.username ≡ username
          → All (IsCached db.rdb) db.cache
          → run sqlite ops db ≡ run_directly sqlite username ops db.rdb)
      → elim a [ none ↦ none | some (r, db') ↦ then_results sqlite (run sqlite ops db') r ]
        ≡ elim b [
          | none ↦ none
          | some (r, s') ↦ then_results sqlite (run_directly sqlite username ops s') r
        ]
  run_step username ops none none agree rest = refl
  run_step username ops none (some b) agree rest = absurd agree
  run_step username ops (some a) none agree rest = absurd agree
  run_step username ops (some (r, db)) (some (r', s)) (same, left, who, ok) rest =
      ap₂ (then_results sqlite)
        (rest db who (rw left ok) ∙ ap (run_directly sqlite username ops) left) same

  run-cached :
      (username : Chars) (ops : List Op) (db : Db S)
      → All (Names Plain) ops
      → db.username ≡ username
      → All (IsCached db.rdb) db.cache
      → run sqlite ops db ≡ run_directly sqlite username ops db.rdb
  unfolding run run_directly
  run-cached username [] db p who ok = refl
  run-cached username (op ∷ ops) db p who ok =
      run_step username ops (operate sqlite op db) (operate_directly sqlite username op db.rdb)
        (rw (← who) (operate-Agree op db p.0 ok))
        (λ db' who' ok'. run-cached username ops db' p.1 who' ok')

  -- Where SQLite keeps the variables named in `Plain` apart, any sequence of reads, writes and
  -- deletions of these and of invalidations, under either authority, returns from an empty cache
  -- what it returns without one, leaves the same database, and faults where that faults.
  pub run-uncached :
      (s : S) (username : Chars) (ops : List Op)
      → All (Names Plain) ops
      → run sqlite ops (record { rdb = s; username = username; cache = [] })
        ≡ run_directly sqlite username ops s
  run-uncached s username ops p = run-cached username ops _ p refl tt
