-- ===== src/Core/Tests.antt =====
-- Runs of the measurement code on small inputs, and the theorems at inputs that meet their hypotheses.
use dcscan_modules_api.Prelude.{
  ℕ, ◌≡◌, refl, sym, ◌∙◌, ◌⊎◌, inl, inr, Bool, true, not, Option, none, some, List, [], ◌∷◌, ◌++◌,
  arith, ltb, leb, ◌==◌, if◌then◌else◌, ltb→lt, lt→ltb, leb→le, le→leb, All,
}
use dcscan_modules_api.Utils.Timer.{codes}
use dcscan_modules_api.Core.Database.{
  Chars, Value, Sqlite, Outcome, quoted, read_variable, write_variable, write_variable_sys,
  log_event_system, store_variable, insert_entry, marks, query_entries, text_rows, log_event,
}
use dcscan_modules_api.Core.Database.Cache.{Authority, same_chars, write_as}
use dcscan_modules_api.Core.Database.Runs.{IsKeyed, Op, Names, run, run_directly}
use dcscan_modules_api.Core.Database.Coherence.{run-uncached}
use dcscan_modules_api.Core.Peaks.{
  count_array_peak, count_packet_core, for_loop, pulse_loop, keep_pulse,
}
use dcscan_modules_api.Core.Peaks.Pulses.{runs, all_runs, peaks, with_peaks, count_array_peak-peaks}

abbrev above : ℕ → ℕ → Bool
above a b = ltb b a

abbrev within : ℕ → ℕ → Bool
within a b = leb a b

within_lem : (a b : ℕ) → within a b ≡ not (above a b)
within_lem a b = ground (arith, leb→le a b, le→leb a b, ltb→lt b a, lt→ltb b a)

-- A pulse up to 5, one that passes 9, and one up to 4.
abbrev samples : List ℕ
samples = 0 ∷ 3 ∷ 5 ∷ 5 ∷ 1 ∷ 4 ∷ 12 ∷ 3 ∷ 0 ∷ 4 ∷ []

counted :
    count_array_peak above within 0 2 9 samples 0
    ≡ record { maxima = 5 ∷ 4 ∷ []; maximizers = 3 ∷ 10 ∷ [] }
unfolding count_array_peak count_packet_core for_loop pulse_loop keep_pulse
counted = refl

count_array_peak-peaks_example :
    count_array_peak above within 0 2 9 samples 0
    ≡ with_peaks above within 0 2 9
        (record { maxima = []; maximizers = [] })
        (peaks above within 0 2 9 (all_runs above within 0 2 9 (runs above within 0 2 9 0 samples)))
count_array_peak-peaks_example =
    count_array_peak-peaks above within 0 2 9 within_lem (λ x h. above_trans x h)
      (λ x h. above_zero x h) samples 0
  where
    above_trans : (x : ℕ) → above x 9 ≡ true → above x 2 ≡ true
    above_trans x h = lt→ltb 2 x (omega (arith, ltb→lt 9 x h))

    above_zero : (x : ℕ) → above x 2 ≡ true → above x 0 ≡ true
    above_zero x h = lt→ltb 0 x (omega (arith, ltb→lt 2 x h))

-- A database with the variables `a` and `b`, the empty text for one that is not there.
abbrev Two : Type 0
Two = Chars × Chars

abbrev a_name : Chars
a_name = codes "a"

abbrev b_name : Chars
b_name = codes "b"

abbrev row_of : Chars → List (ℕ → Option Chars)
row_of [] = []
row_of (c ∷ cs) = (λ i. if i == 0 then some (c ∷ cs) else none) ∷ []

abbrev query_of : Chars → Chars
query_of name = codes "SELECT VALUE FROM VARIABLES WHERE NAME = " ++ quoted name

abbrev put_two : List Value → Two → Two
put_two (Value.text name ∷ Value.text value ∷ rest) s =
    if same_chars name a_name
    then (value, s.1)
    else if same_chars name b_name
    then (s.0, value)
    else s
put_two _ s = s

abbrev two : Sqlite Two
two = record {
  select = λ query s.
      if same_chars query (query_of a_name)
      then some (row_of s.0)
      else if same_chars query (query_of b_name)
      then some (row_of s.1)
      else none;
  execute = λ statement values s. Outcome.stepped (
      if same_chars statement
        (codes "INSERT OR REPLACE INTO VARIABLES (NAME,VALUE,DESCRIPTOR) VALUES (?,?,?)")
      then put_two values s
      else if same_chars statement (codes "DELETE FROM VARIABLES WHERE NAME = " ++ quoted a_name)
      then ([], s.1)
      else if same_chars statement (codes "DELETE FROM VARIABLES WHERE NAME = " ++ quoted b_name)
      then (s.0, [])
      else s);
}

abbrev EitherName : Chars → Type 0
EitherName name = (name ≡ a_name) ⊎ (name ≡ b_name)

two-IsKeyed : IsKeyed two EitherName
unfolding read_variable store_variable insert_entry marks query_entries text_rows log_event
    same_chars
two-IsKeyed = record {
  store_others = λ n m value description s p q ne. elim p [
    | inl at_a ↦ elim q [
      | inl same ↦ absurd (ne (at_a ∙ sym same))
      | inr at_b ↦ rw (at_a, at_b) refl
    ]
    | inr at_b ↦ elim q [
      | inl at_a ↦ rw (at_a, at_b) refl
      | inr same ↦ absurd (ne (at_b ∙ sym same))
    ]
  ];
  delete_others = λ n m s p q ne. elim p [
    | inl at_a ↦ elim q [
      | inl same ↦ absurd (ne (at_a ∙ sym same))
      | inr at_b ↦ rw (at_a, at_b) refl
    ]
    | inr at_b ↦ elim q [
      | inl at_a ↦ rw (at_a, at_b) refl
      | inr same ↦ absurd (ne (at_b ∙ sym same))
    ]
  ];
  log_others = λ m username operation what s p. refl;
}

-- A write by a user, two reads, a write by the system, and a read.
abbrev session : List Op
session =
    Op.write Authority.user a_name (codes "1") (codes "first")
    ∷ Op.read a_name
    ∷ Op.read a_name
    ∷ Op.write Authority.sys a_name (codes "2") (codes "first")
    ∷ Op.read a_name
    ∷ Op.read b_name
    ∷ []

session-Names : All (Names EitherName) session
session-Names = (inl refl, (inl refl, (inl refl, (inl refl, (inl refl, (inr refl, tt))))))

session_runs :
    run_directly two (codes "me") session ([], [])
    ≡ some (
      none ∷ some (codes "1") ∷ some (codes "1") ∷ none ∷ some (codes "2") ∷ some [] ∷ [],
      (codes "2", []),
    )
unfolding run_directly read_variable write_as write_variable write_variable_sys log_event_system
    store_variable insert_entry marks query_entries text_rows log_event same_chars
session_runs = refl

run-uncached_example :
    run two session (record { rdb = ([], []); username = codes "me"; cache = [] })
    ≡ run_directly two (codes "me") session ([], [])
run-uncached_example =
    run-uncached two EitherName two-IsKeyed ([], []) (codes "me") session session-Names
