-- ===== src/Core/Database/Others.antt =====
-- What is done to one variable leaves the others alone.
use dcscan_modules_api.Prelude.{
  ◌≡◌, refl, ap, ◌∙◌, ◌≢◌, Bool, true, false, Option, none, some, [], ◌∷◌, ◌++◌,
}
use dcscan_modules_api.Utils.Timer.{codes}
use dcscan_modules_api.Core.Database.{
  Chars, Value, Sqlite, Outcome, read_variable, write_variable, write_variable_sys, delete_variable,
  delete_variable_internal, delete_known, deleted, logged_delete, logged_write, event_of_write,
  state_after, log_event, log_event_system, store_variable, quoted,
}
use dcscan_modules_api.Core.Database.Cache.{Authority, write_as, delete_as}
use dcscan_modules_api.Core.Database.Runs.{IsKeyed}

-- The three ways in which SQLite leaves the variable `m` alone give it for the operations.
module _ {S : Type 0} (sqlite : Sqlite S) (Plain : Chars → Type 0) (keyed : IsKeyed sqlite Plain)
    (m : Chars) (plain : Plain m) where
  pub logged_write-others :
      (old : Option Chars) (n v d : Chars) (s s' : S)
      → Plain n
      → n ≢ m
      → logged_write sqlite old n v (Value.text d) s ≡ some s'
      → read_variable sqlite m s' ≡ read_variable sqlite m s
  unfolding log_event_system
  logged_write-others none n v d s s' p ne e = cc
  logged_write-others (some old) n v d s s' p ne e =
      let logged =
        log_event sqlite (codes "System") (event_of_write sqlite old) (n ++ codes "=" ++ v) s in
      ap (read_variable sqlite m) {x = s'} {y = store_variable sqlite n v (Value.text d) logged}
        (cc)
      ∙ keyed.store_others n m v d logged p plain ne
      ∙ keyed.log_others m (codes "System") (event_of_write sqlite old) (n ++ codes "=" ++ v) s
          plain

  pub write_as-others :
      (auth : Authority) (n v d : Chars) (s s' : S)
      → Plain n
      → n ≢ m
      → write_as sqlite auth n v d s ≡ some s'
      → read_variable sqlite m s' ≡ read_variable sqlite m s
  unfolding write_as write_variable write_variable_sys
  write_as-others Authority.sys n v d s s' p ne e =
      ap (read_variable sqlite m) {x = s'} {y = store_variable sqlite n v (Value.text d) s} (cc)
      ∙ keyed.store_others n m v d s p plain ne
  write_as-others Authority.user n v d s s' p ne e =
      logged_write-others (read_variable sqlite n s) n v d s s' p ne e

  deleted-state : (o : Outcome S) (s : S) → (deleted sqlite o s).1 ≡ state_after sqlite o s
  deleted-state Outcome.prepare_error s = refl
  deleted-state (Outcome.step_error t) s = refl
  deleted-state (Outcome.stepped t) s = refl

  delete_known-others :
      (old : Option Chars) (n : Chars) (gone : Bool) (s s' : S)
      → Plain n
      → n ≢ m
      → delete_known sqlite old n s ≡ some (gone, s')
      → read_variable sqlite m s' ≡ read_variable sqlite m s
  delete_known-others none n gone s s' p ne e = cc
  delete_known-others (some []) n gone s s' p ne e =
      ap (read_variable sqlite m) {x = s'} {y = s} (cc)
  delete_known-others (some (c ∷ cs)) n gone s s' p ne e =
      let o = sqlite.execute (codes "DELETE FROM VARIABLES WHERE NAME = " ++ quoted n) [] s in
      ap (read_variable sqlite m) {x = s'} {y = state_after sqlite o s} (cc (deleted-state o s))
      ∙ keyed.delete_others n m s p plain ne

  logged_delete-others :
      (username n : Chars) (o : Option (Bool × S)) (s s' : S)
      → ((gone : Bool) (t : S)
          → o ≡ some (gone, t)
          → read_variable sqlite m t ≡ read_variable sqlite m s)
      → logged_delete sqlite username n o ≡ some s'
      → read_variable sqlite m s' ≡ read_variable sqlite m s
  logged_delete-others username n none s s' h e = cc
  logged_delete-others username n (some (true, t)) s s' h e =
      ap (read_variable sqlite m) {x = s'} {y = log_event sqlite username (codes "VAR_DELETE") n t}
        (cc)
      ∙ keyed.log_others m username (codes "VAR_DELETE") n t plain
      ∙ h true t refl
  logged_delete-others username n (some (false, t)) s s' h e =
      ap (read_variable sqlite m) {x = s'} {y = t} (cc) ∙ h false t refl

  pub delete_as-others :
      (auth : Authority) (username n : Chars) (s s' : S)
      → Plain n
      → n ≢ m
      → delete_as sqlite auth username n s ≡ some s'
      → read_variable sqlite m s' ≡ read_variable sqlite m s
  unfolding delete_as delete_variable delete_variable_internal
  delete_as-others Authority.sys username n s s' p ne e =
      logged_delete-others (codes "System") n (delete_known sqlite (read_variable sqlite n s) n s) s
        s' (λ gone t. delete_known-others (read_variable sqlite n s) n gone s t p ne) e
  delete_as-others Authority.user username n s s' p ne e =
      logged_delete-others username n (delete_known sqlite (read_variable sqlite n s) n s) s s'
        (λ gone t. delete_known-others (read_variable sqlite n s) n gone s t p ne) e
