-- ===== src/Core/Peaks/Pulses.antt =====
-- What the peak counter counts: the maximal runs of samples above `vlo` that never pass `vhi`.
use dcscan_modules_api.Prelude.{
  ℕ, zero, suc, ◌+◌, ◌≤◌, ◌≡◌, refl, inl, inr, Bool, true, false, not, ◌||◌, List, [], ◌∷◌, ◌++◌,
  map, append-nil, append_assoc, arith, if◌then◌else◌, Bool-cases, length,
}
use dcscan_modules_api.Core.Peaks.{
  CountResult, Scan, pulse_loop, skip_one, keep_pulse, for_loop, count_packet_core,
  count_array_peak,
}

-- A pulse is its samples with their indices.
abbrev pub Pulse {ℓ} : Type ℓ → Type ℓ
Pulse F = List (ℕ × F)

-- The pulse that the samples begin with, and the pulses behind it.
pub record Runs {ℓ} (F : Type ℓ) : Type ℓ where
  pub head : Pulse F
  pub others : List (Pulse F)

module _ {ℓ} {F : Type ℓ} (gt le : F → F → Bool) (zero_f : F) (vlo vhi : F) where
  abbrev pub all_runs : Runs F → List (Pulse F)
  all_runs r = elim r.head [ [] ↦ r.others | p ∷ ps ↦ (p ∷ ps) ∷ r.others ]

  pub runs : ℕ → List F → Runs F
  runs i [] = record { head = []; others = [] }
  runs i (x ∷ xs) =
      if gt x vlo
      then record { head = (i, x) ∷ (runs (i + 1) xs).head; others = (runs (i + 1) xs).others }
      else record { head = []; others = all_runs (runs (i + 1) xs) }

  pub saturates : Pulse F → Bool
  saturates [] = false
  saturates ((i, x) ∷ p) = gt x vhi || saturates p

  -- The first largest sample, and one more than its index.
  pub best : F → ℕ → Pulse F → F × ℕ
  best m k [] = (m, k)
  best m k ((i, x) ∷ p) = if gt x m then best x (i + 1) p else best m k p

  abbrev pub peak : Pulse F → F × ℕ
  peak [] = (zero_f, 0)
  peak ((i, x) ∷ p) = best x (i + 1) p

  pub peaks : List (Pulse F) → List (F × ℕ)
  peaks [] = []
  peaks (p ∷ ps) = if saturates p then peaks ps else peak p ∷ peaks ps

  abbrev pub with_peaks : CountResult F → List (F × ℕ) → CountResult F
  with_peaks r ps = record {
    maxima = r.maxima ++ map (λ p. p.0) ps;
    maximizers = r.maximizers ++ map (λ p. p.1) ps;
  }

  pulse_loop-discard :
      (xs : List F) (i : ℕ) (d : Bool) (m : F) (k : ℕ)
      → (pulse_loop gt le zero_f vlo vhi xs i d m k).discard ≡ (d || saturates (runs i xs).head)
  unfolding pulse_loop runs saturates
  pulse_loop-discard [] i d m k = ground arith
  pulse_loop-discard (x ∷ xs) i d m k = ground (
    arith,
    pulse_loop-discard xs (i + 1) (if gt x vhi then true else d) (if gt x m then x else m)
        (if gt x m then i + 1 else k),
  )

  pulse_loop-best :
      (xs : List F) (i : ℕ) (d : Bool) (m : F) (k : ℕ)
      → let s = pulse_loop gt le zero_f vlo vhi xs i d m k in
        (s.local_maximum ≡ (best m k (runs i xs).head).0)
        × (s.local_maximizer ≡ (best m k (runs i xs).head).1)
  unfolding pulse_loop runs best
  pulse_loop-best [] i d m k = (refl, refl)
  pulse_loop-best (x ∷ xs) i d m k = ground (
    arith,
    pulse_loop-best xs (i + 1) (if gt x vhi then true else d) (if gt x m then x else m)
        (if gt x m then i + 1 else k),
  )

  pulse_loop-others :
      (xs : List F) (i : ℕ) (d : Bool) (m : F) (k : ℕ)
      → let s = pulse_loop gt le zero_f vlo vhi xs i d m k in
        (runs i xs).others ≡ all_runs (runs (s.i + 1) (skip_one gt le zero_f vlo vhi s.rest))
  unfolding pulse_loop runs
  pulse_loop-others [] i d m k = refl
  pulse_loop-others (x ∷ xs) i d m k = ground (
    arith,
    pulse_loop-others xs (i + 1) (if gt x vhi then true else d) (if gt x m then x else m)
        (if gt x m then i + 1 else k),
  )

  pulse_loop-length :
      (xs : List F) (i : ℕ) (d : Bool) (m : F) (k : ℕ)
      → length (pulse_loop gt le zero_f vlo vhi xs i d m k).rest ≤ length xs
  unfolding pulse_loop
  pulse_loop-length [] i d m k = omega arith
  pulse_loop-length (x ∷ xs) i d m k = ground (
    arith,
    pulse_loop-length xs (i + 1) (if gt x vhi then true else d) (if gt x m then x else m)
        (if gt x m then i + 1 else k),
  )

  length-skip_one :
      (xs : List F) (n : ℕ) → length xs ≤ suc n → length (skip_one gt le zero_f vlo vhi xs) ≤ n
  length-skip_one [] n h = omega arith
  length-skip_one (x ∷ xs) n h = omega (arith, h)

  with_peaks-keep_pulse :
      (s : Scan F) (result : CountResult F) (ps : List (F × ℕ))
      → with_peaks (keep_pulse gt le zero_f vlo vhi s result) ps
        ≡ with_peaks result (if s.discard then ps else (s.local_maximum, s.local_maximizer) ∷ ps)
  unfolding keep_pulse
  with_peaks-keep_pulse s result ps = ground (
    arith,
    append_assoc result.maxima (s.local_maximum ∷ []) (map (λ p. p.0) ps),
    append_assoc result.maximizers (s.local_maximizer ∷ []) (map (λ p. p.1) ps),
  )

  -- What the inner loop leaves of a pulse that begins here, for the loop to go on with.
  counted_lem :
      (x : F) (xs : List F) (i k : ℕ) (result : CountResult F)
      → gt x vlo ≡ true
      → gt x zero_f ≡ true
      → let s = pulse_loop gt le zero_f vlo vhi (x ∷ xs) i false zero_f k in
        with_peaks
          (keep_pulse gt le zero_f vlo vhi s result)
          (peaks (all_runs (runs (s.i + 1) (skip_one gt le zero_f vlo vhi s.rest))))
        ≡ with_peaks result (peaks (((i, x) ∷ (runs (i + 1) xs).head) ∷ (runs (i + 1) xs).others))
  unfolding peaks runs best
  counted_lem x xs i k result low positive =
      let s = pulse_loop gt le zero_f vlo vhi (x ∷ xs) i false zero_f k in
      rw (with_peaks-keep_pulse s result _) (
        ground (
          arith,
          pulse_loop-discard (x ∷ xs) i false zero_f k,
          pulse_loop-best (x ∷ xs) i false zero_f k,
          pulse_loop-others (x ∷ xs) i false zero_f k,
          low,
          positive,
        ))

  module _ (exclusive : (a b : F) → le a b ≡ not (gt a b))
      (high_low : (x : F) → gt x vhi ≡ true → gt x vlo ≡ true)
      (low_positive : (x : F) → gt x vlo ≡ true → gt x zero_f ≡ true) where
    -- The loop from index `i` on, in either state: while it waits for a descent, the pulse that the
    -- samples begin with does not count.
    for_loop-peaks :
        (fuel : ℕ) (xs : List F) (i k : ℕ) (waits : Bool) (result : CountResult F)
        → length xs ≤ fuel
        → for_loop gt le zero_f vlo vhi fuel xs i waits k result
          ≡ with_peaks result (peaks (if waits then (runs i xs).others else all_runs (runs i xs)))
    unfolding for_loop runs peaks saturates
    for_loop-peaks zero [] i k waits result h =
        ground (arith, append-nil result.maxima, append-nil result.maximizers)
    for_loop-peaks zero (x ∷ xs) i k waits result h = absurd (omega (arith, h))
    for_loop-peaks (suc fuel) [] i k waits result h =
        ground (arith, append-nil result.maxima, append-nil result.maximizers)
    for_loop-peaks (suc fuel) (x ∷ xs) i k waits result h =
        let s = pulse_loop gt le zero_f vlo vhi (x ∷ xs) i false zero_f k in
        let short =
          length-skip_one s.rest fuel
            (omega (arith, h, pulse_loop-length (x ∷ xs) i false zero_f k)) in
        let waiting = for_loop-peaks fuel xs (i + 1) k true result (omega (arith, h)) in
        let calm = for_loop-peaks fuel xs (i + 1) k false result (omega (arith, h)) in
        let counted =
          for_loop-peaks fuel (skip_one gt le zero_f vlo vhi s.rest) (s.i + 1) s.local_maximizer
            false (keep_pulse gt le zero_f vlo vhi s result) short in
        elim (Bool-cases (gt x vlo)) [
          | inl high ↦ elim (Bool-cases (gt x vhi)) [
            | inl too_high ↦ ground (arith, waiting, too_high, high)
            | inr fine ↦ elim (Bool-cases waits) [
              | inl held ↦ ground (arith, waiting)
              | inr free ↦ ground (
                arith,
                counted,
                counted_lem x xs i k result high (low_positive x high),
                high,
                fine,
                free,
                exclusive x vlo,
              )
            ]
          ]
          | inr low ↦ ground (arith, calm, exclusive x vlo, high_low x)
        ]

    -- Where `<=` is the negation of `>`, `vlo` is not below `0.0` and `vhi` not below `vlo`, the
    -- counter finds one peak for each maximal run of samples above `vlo` of which none is above
    -- `vhi`, in their order: its first largest sample and one more than that sample's index.
    pub count_array_peak-peaks :
        (arr : List F) (vth : F)
        → count_array_peak gt le zero_f vlo vhi arr vth
          ≡ with_peaks (record { maxima = []; maximizers = [] }) (peaks (all_runs (runs 0 arr)))
    unfolding count_array_peak count_packet_core
    count_array_peak-peaks arr vth = for_loop-peaks (length arr) arr 0 0 false _ (omega arith)
