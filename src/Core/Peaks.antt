-- ===== src/Core/Peaks.antt =====
-- The peak counter of DCS_Core/src/math.cpp, in the mode that the build uses. Samples are only
-- compared and copied, so their type, its `>` and `<=`, and `0.0` are parameters.
pub mod Pulses
use dcscan_modules_api.Prelude.{
  ℕ, zero, suc, ◌+◌, ◌-◌, ◌*◌, ◌/◌, ◌%◌, ◌^◌, ◌≤◌, ◌<◌, min, max, ◌≡◌, refl, sym, ap, ◌∙◌, ◌≢◌, ◌↔◌,
  ◌⊎◌, inl, inr, Bool, true, false, not, ◌&&◌, ◌||◌, Option, none, some, List, [], ◌∷◌, ◌++◌, map,
  append-nil, append_assoc, arith, ltb, leb, ◌==◌, if◌then◌else◌, ltb→lt, lt→ltb, leb→le, le→leb,
  ==_iff, ==_refl, Bool-cases, Option-cases, length, get_elem?, get_or, take, drop, set,
  length-append, length-take, length-drop, take-append-drop, take_exact, drop_exact, take_within,
  take_all, length-map, All,
}
use dcscan_modules_api.Prelude.Words.{le_bytes, le_value, length-le_bytes, le_value-le_bytes}

-- The vectors of `CountResult`; `num_detected` is their length.
pub record CountResult {ℓ} (F : Type ℓ) : Type ℓ where
  pub maxima : List F
  pub maximizers : List ℕ

-- The variables of the inner loop, with the samples from index `i` on.
pub record Scan {ℓ} (F : Type ℓ) : Type ℓ where
  pub rest : List F
  pub i : ℕ
  pub discard : Bool
  pub local_maximum : F
  pub local_maximizer : ℕ

module _ {ℓ} {F : Type ℓ} (gt le : F → F → Bool) (zero_f : F) (vlo vhi : F) where
  -- `while(i < size && arr[i] > vlo)`
  unfoldable pub pulse_loop : List F → ℕ → Bool → F → ℕ → Scan F
  pulse_loop [] i discard local_maximum local_maximizer = record {
    rest = [];
    i = i;
    discard = discard;
    local_maximum = local_maximum;
    local_maximizer = local_maximizer;
  }
  pulse_loop (x ∷ xs) i discard local_maximum local_maximizer =
      let go =
        pulse_loop xs (i + 1) (if gt x vhi then true else discard)
          (if gt x local_maximum then x else local_maximum)
          (if gt x local_maximum then i + 1 else local_maximizer) in
      if gt x vlo then go else record {
        rest = x ∷ xs;
        i = i;
        discard = discard;
        local_maximum = local_maximum;
        local_maximizer = local_maximizer;
      }

  abbrev pub skip_one : List F → List F
  skip_one [] = []
  skip_one (x ∷ xs) = xs

  unfoldable pub keep_pulse : Scan F → CountResult F → CountResult F
  keep_pulse s result =
      if not s.discard
      then record {
        maxima = result.maxima ++ s.local_maximum ∷ [];
        maximizers = result.maximizers ++ s.local_maximizer ∷ [];
      }
      else result

  -- The loop over the samples from index `i` on. One round takes at least one sample, so the number
  -- of samples is enough fuel. `local_maximizer` is not reset between pulses.
  unfoldable pub for_loop : ℕ → List F → ℕ → Bool → ℕ → CountResult F → CountResult F
  for_loop zero xs i wait_descent local_maximizer result = result
  for_loop (suc fuel) [] i wait_descent local_maximizer result = result
  for_loop (suc fuel) (x ∷ xs) i wait_descent local_maximizer result =
      let s = pulse_loop (x ∷ xs) i false zero_f local_maximizer in
      let waiting = for_loop fuel xs (i + 1) true local_maximizer result in
      let calm = for_loop fuel xs (i + 1) false local_maximizer result in
      let counted =
        for_loop fuel (skip_one s.rest) (s.i + 1) false s.local_maximizer (keep_pulse s result) in
      if wait_descent && gt x vlo
      then waiting
      else if gt x vhi
      then waiting
      else if le x vlo
      then calm
      else counted

  unfoldable pub count_packet_core : List F → CountResult F
  count_packet_core arr =
      for_loop (length arr) arr 0 false 0 (record { maxima = []; maximizers = [] })

  -- `countArrayPeak`; the threshold `vth` plays no part in this mode.
  unfoldable pub count_array_peak : List F → F → CountResult F
  count_array_peak arr vth = count_packet_core arr
