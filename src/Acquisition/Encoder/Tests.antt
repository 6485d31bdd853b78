-- ===== src/Acquisition/Encoder/Tests.antt =====
-- Runs of the encoders on small inputs, and the theorems at inputs that meet their hypotheses.
use dcscan_modules_api.Prelude.{
  ℕ, ◌+◌, ◌%◌, ◌*◌, ◌<◌, ◌≡◌, refl, Bool, true, false, ◌&&◌, none, some, List, [], ◌∷◌, ◌++◌, arith,
  ◌==◌, if◌then◌else◌,
}
use dcscan_modules_api.Acquisition.Encoder.{
  read_axis, Call, has_axis, axis_calls, axes_calls, Entry, AxisData, Conversion, Box,
  inspect_last_encoder_values, reference_loop, reference, still_referencing, any_referencing,
  all_referencing,
}
use dcscan_modules_api.Acquisition.Encoder.Referencing.{is_some, done, reference_loop-ends}
use dcscan_modules_api.Acquisition.Encoder.Readings.{
  Found, IsWords, axes_used, rounds, data_of, known_of, rounds-inspected,
}

abbrev never : List Call → Call → Bool
never made c = false

two_axes : (axes_calls 10 1 0 4).0 ≡ axis_calls 1 1 ++ axis_calls 2 3
unfolding axes_calls has_axis axis_calls
two_axes = refl

-- The second axis passes its mark in the first entry, the fourth in the third.
abbrev entry_of : ℕ → ℕ → Entry
entry_of status1 status3 = record {
  trigger_counter = 7;
  status = λ i. if i == 1 then status1 else status3;
  timestamp = λ i. 9;
  position = λ i. 100 + i % 4;
  ref = λ i. (40, 41);
}

referenced :
    reference_loop 10 all_referencing
      (some (entry_of 256 0) ∷ none ∷ some (entry_of 0 0) ∷ some (entry_of 0 256) ∷ none ∷ [])
    ≡ some (none ∷ [])
unfolding reference_loop reference still_referencing any_referencing has_axis
referenced = refl

reference_loop-ends_example :
    let reads = some (entry_of 256 0) ∷ none ∷ some (entry_of 0 0) ∷ [] in
    is_some (reference_loop 10 all_referencing reads)
    ≡ (true && (done 10 reads 0 && (done 10 reads 1 && (done 10 reads 2 && done 10 reads 3))))
reference_loop-ends_example =
    reference_loop-ends 10 (some (entry_of 256 0) ∷ none ∷ some (entry_of 0 0) ∷ [])

abbrev conversion : Conversion ℕ
conversion = record { incr_pos_to_double = λ p. p; to_degrees = λ i x. x * 2; add = λ x y. x + y }

abbrev blank : AxisData ℕ
blank = record {
  axis = 77;
  position = 77;
  calpos = 77;
  status = 77;
  trigger_counter = 77;
  timestamp = 77;
  ref = (77, 77);
}

abbrev found : Found ℕ
found = record {
  c1 = 5;
  c2 = 6;
  s0 = blank;
  s1 = blank;
  s2 = blank;
  s3 = blank;
  entry = entry_of 0 0;
}

abbrev empty_box : Box conversion
empty_box = record { queue = []; known = [] }

one_axis : 0 < axes_used 8
one_axis = omega arith

words : IsWords found
words = ((λ i. omega arith), (λ i. omega arith))

rounds-inspected_example :
    let after = rounds conversion 8 (found ∷ found ∷ []) empty_box in
    (after.queue ≡ data_of conversion 8 found ∷ data_of conversion 8 found ∷ [])
    × (after.known ≡ known_of conversion 8 found ∷ known_of conversion 8 found ∷ [])
    × (inspect_last_encoder_values conversion [] after ≡ data_of conversion 8 found)
rounds-inspected_example =
    rounds-inspected conversion 8 (found ∷ []) found empty_box [] (words, (words, tt)) one_axis

-- Only the fourth axis is in use: what is written for the second is what its memory held.
uninitialised : known_of conversion 8 found ≡ (some 77, some 126)
unfolding has_axis read_axis
uninitialised = refl
