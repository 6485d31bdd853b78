-- ===== src/Acquisition/Events/Bins.antt =====
-- How many peaks fit into a multichannel event.
use dcscan_modules_api.Prelude.{
  ℕ, zero, suc, ◌≡◌, refl, sym, ap, ◌∙◌, inl, inr, Bool, true, false, Option, none, some, List, [],
  ◌∷◌, ◌++◌, map, append-nil, append_assoc, arith, ltb, leb, if◌then◌else◌, lt→ltb, le→leb,
  Option-cases, length, get_elem?, drop, set, length-append,
}
use mathlib.Core.Path.{ap₂}
use dcscan_modules_api.Core.Peaks.{count_array_peak}
use dcscan_modules_api.Acquisition.Events.{
  Subscribed, Events, voltage_event, EventData, fill_bins, with_bins, mca_data,
}

module _ {F : Type 0} (bin_of : F → ℕ) where
  length-set : (bins : List ℕ) (i x : ℕ) → length (set bins i x) ≡ length bins
  length-set [] i x = refl
  length-set (b ∷ bins) zero x = refl
  length-set (b ∷ bins) (suc i) x = ap suc (length-set bins i x)

  set_at :
      (front : List ℕ) (b x : ℕ) (back : List ℕ) (i : ℕ)
      → length front ≡ i
      → set (front ++ b ∷ back) i x ≡ front ++ x ∷ back
  set_at [] b x back zero h = refl
  set_at [] b x back (suc i) h = absurd (omega (arith, h))
  set_at (f ∷ front) b x back zero h = absurd (omega (arith, h))
  set_at (f ∷ front) b x back (suc i) h = ap (◌∷◌ f) (set_at front b x back i (omega (arith, h)))

  get_at :
      (front : List F) (x : F) (back : List F) (i : ℕ)
      → length front ≡ i
      → get_elem? (front ++ x ∷ back) i ≡ some x
  get_at [] x back zero h = refl
  get_at [] x back (suc i) h = absurd (omega (arith, h))
  get_at (f ∷ front) x back zero h = absurd (omega (arith, h))
  get_at (f ∷ front) x back (suc i) h = get_at front x back i (omega (arith, h))

  round_of_bins :
      (seen later : List F) (x : F) (done : List ℕ) (b : ℕ) (bins : List ℕ) (i n : ℕ)
      → length seen ≡ i
      → length done ≡ i
      → fill_bins bin_of (seen ++ x ∷ later) i (suc n) (done ++ b ∷ bins)
        ≡ fill_bins bin_of (seen ++ x ∷ later) (suc i) n (done ++ bin_of x ∷ bins)
  unfolding fill_bins
  round_of_bins seen later x done b bins i n h k =
      rw
        (
          get_at seen x later i h,
          lt→ltb i (length (done ++ b ∷ bins)) (omega (arith, k, length-append done (b ∷ bins))),
          set_at done b (bin_of x) bins i k,
        )
        refl

  no_room :
      (seen later : List F) (x : F) (done : List ℕ) (i n : ℕ)
      → length done ≡ i
      → fill_bins bin_of (seen ++ x ∷ later) i (suc n) (done ++ []) ≡ none
  unfolding fill_bins
  no_room seen later x done i n k = elim (Option-cases (get_elem? (seen ++ x ∷ later) i)) [
    | inl missing ↦ rw missing refl
    | inr (y, there) ↦ rw (there, append-nil done, k) (full i n _)
  ]
    where
      full : (i n : ℕ) (rest : Option (List ℕ)) → (if ltb i i then rest else none) ≡ none
      full i n rest = ground arith

  fill_lem :
      (seen later : List F) (done bins : List ℕ) (i : ℕ)
      → length seen ≡ i
      → length done ≡ i
      → fill_bins bin_of (seen ++ later) i (length later) (done ++ bins) ≡ (
          if leb (length later) (length bins)
          then some (done ++ (map bin_of later ++ drop (length later) bins))
          else none)
  fill_lem seen [] done bins i h k =
      unfold fill_bins in rw (le→leb 0 (length bins) (omega arith)) refl
  fill_lem seen (x ∷ later) done [] i h k =
      no_room seen later x done i (length later) k ∙ sym (too_long (length later) _)
    where
      too_long : (n : ℕ) (bins : Option (List ℕ)) → (if leb (suc n) 0 then bins else none) ≡ none
      too_long n bins = ground arith
  fill_lem seen (x ∷ later) done (b ∷ bins) i h k =
      round_of_bins seen later x done b bins i (length later) h k
      ∙ ap₂ (λ m d. fill_bins bin_of m (suc i) (length later) d)
          (sym (append_assoc seen (x ∷ []) later)) (sym (append_assoc done (bin_of x ∷ []) bins))
      ∙ fill_lem (seen ++ x ∷ []) later (done ++ bin_of x ∷ []) bins (suc i)
          (omega (arith, h, length-append seen (x ∷ [])))
          (omega (arith, k, length-append done (bin_of x ∷ [])))
      ∙ ground
          (arith, append_assoc done (bin_of x ∷ []) (map bin_of later ++ drop (length later) bins))

  -- The event that the multichannel loop emits for a buffer has one bin for each of its peaks, in order,
  -- if there are at most as many as bins, which are 128; with more, the loop writes past the bins.
  pub mca_data-bins :
      (channels : ℕ) (fresh : List ℕ) (event : EventData F)
      → event.num_detected ≡ length event.maxima
      → mca_data bin_of channels fresh event ≡ (
          if leb (length event.maxima) (length fresh)
          then some (record {
            count = event.num_detected;
            timestamp = event.timestamp_wall;
            total_max_bin_count = channels;
            bins = map bin_of event.maxima ++ drop (length event.maxima) fresh;
          })
          else none)
  unfolding mca_data
  mca_data-bins channels fresh event e =
      ap (λ n. with_bins channels event (fill_bins bin_of event.maxima 0 n fresh)) e
      ∙ ap (with_bins channels event) (fill_lem [] event.maxima [] fresh 0 refl refl)
      ∙ with_if (leb (length event.maxima) (length fresh))
    where
      with_if :
          (b : Bool)
          → with_bins channels event (
              if b
              then some (map bin_of event.maxima ++ drop (length event.maxima) fresh)
              else none)
            ≡ (if b
                then some (record {
                  count = event.num_detected;
                  timestamp = event.timestamp_wall;
                  total_max_bin_count = channels;
                  bins = map bin_of event.maxima ++ drop (length event.maxima) fresh;
                })
                else none)
      with_if true = refl
      with_if false = refl

module _ {F : Type 0} (gt le : F → F → Bool) (zero_f vlo vhi : F) (bin_of : F → ℕ) where
  -- From the samples to the client: where the multichannel event is subscribed, a voltage event queues
  -- one event behind the others, and the loop makes of it one bin for each of the peaks that the counter
  -- finds in the samples, in order, if there are at most as many as bins, which are 128; with more, the
  -- loop writes past the bins.
  pub voltage_event-bins :
      (on : Subscribed) (unset : EventData F) (timestamp channels : ℕ) (samples : List F)
      (s : Events F) (fresh : List ℕ)
      → on.mca ≡ true
      → let peaks = (count_array_peak gt le zero_f vlo vhi samples zero_f).maxima in
        (event : EventData F) × ((voltage_event gt le zero_f vlo vhi on unset timestamp samples
            s).mca
          ≡ s.mca ++ event ∷ [])
        × (mca_data bin_of channels fresh event ≡ (
            if leb (length peaks) (length fresh)
            then some (record {
              count = length peaks;
              timestamp = timestamp;
              total_max_bin_count = channels;
              bins = map bin_of peaks ++ drop (length peaks) fresh;
            })
            else none))
  unfolding voltage_event
  voltage_event-bins on unset timestamp channels samples s fresh mca =
      let peaks = (count_array_peak gt le zero_f vlo vhi samples zero_f).maxima in
      let event : EventData F = record unset {
        num_detected = length peaks;
        maxima = peaks;
        timestamp_wall = timestamp;
      } in
      (event, rw mca refl, mca_data-bins bin_of channels fresh event refl)
