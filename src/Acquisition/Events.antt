-- ===== src/Acquisition/Events.antt =====
-- The events of a measurement (DCS_Acquisition/src/external_cmds.cpp: the two callbacks of the board, and
-- the queues that they fill; DCS_Acquisition/src/global_evts.cpp: the loops that empty them). What the
-- board, the engines and the sensors deliver is a parameter, and so are the doubles; what is emitted to
-- the client is kept in a list.
pub mod Counting
pub mod Delivery
pub mod Bins
mod Tests
use dcscan_modules_api.Prelude.{
  ℕ, zero, suc, ◌+◌, ◌-◌, ◌*◌, ◌/◌, ◌%◌, ◌^◌, ◌≤◌, ◌<◌, min, max, ◌≡◌, refl, sym, ap, ◌∙◌, ◌≢◌, ◌↔◌,
  ◌⊎◌, inl, inr, Bool, true, false, not, ◌&&◌, ◌||◌, Option, none, some, List, [], ◌∷◌, ◌++◌, map,
  append-nil, append_assoc, arith, ltb, leb, ◌==◌, if◌then◌else◌, ltb→lt, lt→ltb, leb→le, le→leb,
  ==_iff, ==_refl, Bool-cases, Option-cases, length, get_elem?, get_or, take, drop, set,
  length-append, length-take, length-drop, take-append-drop, take_exact, drop_exact, take_within,
  take_all, length-map, All,
}
use dcscan_modules_api.Prelude.Words.{le_bytes, le_value, length-le_bytes, le_value-le_bytes}
use dcscan_modules_api.Utils.Text.{Text, from_text, split}
use dcscan_modules_api.Utils.Vector.{Vector, at}
use dcscan_modules_api.Core.Peaks.{count_array_peak}
use dcscan_modules_api.Acquisition.Encoder.{AxisData, Data}

abbrev pub internal_samp_size : ℕ
internal_samp_size = 1000

-- `EventData`; the counts are their number and the maxima. The fields that the callbacks set to zero are
-- left out.
pub record EventData (F : Type 0) : Type 0 where
  pub num_detected : ℕ
  pub maxima : List F
  pub counts_delta : ℕ
  pub timestamp_wall : ℕ
  pub timestamp_real : ℕ
  pub angle_c1 : Option F
  pub angle_c2 : Option F
  pub angle_table : F
  pub angle_detector : F
  pub temp_c1 : F
  pub temp_c2 : F

-- `count_task_last_count`, `task_time_real` and the three queues.
pub record Events (F : Type 0) : Type 0 where
  pub last_count : ℕ
  pub time_real : ℕ
  pub dcs : List (EventData F)
  pub mca : List (EventData F)
  pub clinometer : List (EventData F)

-- What `CheckEvent` answers.
pub record Subscribed : Type 0 where
  pub dcs : Bool
  pub mca : Bool
  pub clinometer : Bool

-- What a count event reads: the counter, a `u32`, at each sample, the clock, the hardware time of the
-- samples, the encoders, the replies of the controllers, the two offsets, and the temperatures.
pub record Frame (F : Type 0) : Type 0 where
  pub counts : List ℕ
  pub timestamp : ℕ
  pub samples_time : ℕ
  pub encoder_data : Data F
  pub table_reply : List ℕ
  pub detector_reply : List ℕ
  pub table_offset : F
  pub detector_offset : F
  pub crystals : F × F

abbrev pub calpos_of : {F : Type 0} → Option (AxisData F) → Option F
calpos_of none = none
calpos_of (some d) = some d.calpos

module _ {F : Type 0} (tof64 : Text → F) (add : F → F → F) where
  abbrev pub plus : F → Option Text → Option F
  plus offset none = none
  plus offset (some text) = some (add (tof64 text) offset)

  -- `split(',')[1].tof64()` and the offset; `none` is a read past the end.
  unfoldable pub position_of : List ℕ → F → Option F
  position_of reply offset = plus offset (at (split 44 (from_text reply)) 1)

  abbrev pub last_of : Frame F → ℕ
  last_of frame = get_or frame.counts (internal_samp_size - 1) 0

  abbrev pub measured : Frame F → Events F → Option F → Option F → Option (EventData F)
  measured frame s none detector = none
  measured frame s (some table) none = none
  measured frame s (some table) (some detector) = some (record {
    num_detected = (last_of frame + (2 ^ 64 - s.last_count)) % 2 ^ 64;
    maxima = [];
    counts_delta = (last_of frame + (2 ^ 32 - get_or frame.counts 0 0)) % 2 ^ 32;
    timestamp_wall = frame.timestamp;
    timestamp_real = (s.time_real + frame.samples_time) % 2 ^ 64;
    angle_c1 = calpos_of (get_elem? frame.encoder_data.axis 1);
    angle_c2 = calpos_of (get_elem? frame.encoder_data.axis 3);
    angle_table = table;
    angle_detector = detector;
    temp_c1 = frame.crystals.0;
    temp_c2 = frame.crystals.1;
  })

  abbrev pub counted : Bool → Frame F → Events F → Option (EventData F) → Option (Events F)
  counted subscribed frame s none = none
  counted subscribed frame s (some event) = some (record s {
    last_count = last_of frame;
    time_real = (s.time_real + frame.samples_time) % 2 ^ 64;
    dcs = if subscribed then s.dcs ++ event ∷ [] else s.dcs;
  })

  -- `CountEvent`; `none` is a read past the end of a reply.
  unfoldable pub count_event : Bool → Frame F → Events F → Option (Events F)
  count_event subscribed frame s = counted subscribed frame s (
      measured frame s (position_of frame.table_reply frame.table_offset)
        (position_of frame.detector_reply frame.detector_offset))

-- The comparisons and the two limits of `countArrayPeak`, which are 0.2 and 10; its third is not read.
module _ {F : Type 0} (gt le : F → F → Bool) (zero_f vlo vhi : F) where
  -- `VoltageEvent`; `unset` is what the fields hold that it does not set.
  unfoldable pub voltage_event : Subscribed → EventData F → ℕ → List F → Events F → Events F
  voltage_event on unset timestamp samples s =
      let found = (count_array_peak gt le zero_f vlo vhi samples zero_f).maxima in
      let event : EventData F = record unset {
        num_detected = length found;
        maxima = found;
        timestamp_wall = timestamp;
      } in
      record s {
        dcs = if on.dcs then s.dcs ++ event ∷ [] else s.dcs;
        mca = if on.mca then s.mca ++ event ∷ [] else s.mca;
        clinometer = if on.clinometer then s.clinometer ++ event ∷ [] else s.clinometer;
      }

-- A queue, and what was emitted.
pub record Line (F : Type 0) : Type 0 where
  pub queue : List (EventData F)
  pub emitted : List (EventData F)

-- `MCACountEventData`
pub record McaData : Type 0 where
  pub count : ℕ
  pub timestamp : ℕ
  pub total_max_bin_count : ℕ
  pub bins : List ℕ

module _ {F : Type 0} where
  -- `GetLastDCS_IVD` and its two likes, after the wait: `unset` with the number of counts at its maximum
  -- where the queue is empty.
  unfoldable pub get_last : EventData F → List (EventData F) → EventData F × List (EventData F)
  get_last unset [] = (record unset { num_detected = 2 ^ 64 - 1 }, [])
  get_last unset (event ∷ queue) = (event, queue)

  -- A round of `DCSCountEvent`.
  unfoldable pub dcs_round : EventData F → Line F → Line F
  dcs_round unset l =
      let (event, queue) = get_last unset l.queue in
      if event.num_detected == 2 ^ 64 - 1
      then record { queue = queue; emitted = l.emitted }
      else record { queue = queue; emitted = l.emitted ++ event ∷ [] }

  -- The loop over the bins from `i` on, `n` of them; `none` is a write or a read out of the arrays.
  abbrev pub next_bin : Option F → (F → Option (List ℕ)) → Option (List ℕ)
  next_bin none f = none
  next_bin (some x) f = f x

  unfoldable pub fill_bins : (F → ℕ) → List F → ℕ → ℕ → List ℕ → Option (List ℕ)
  fill_bins bin_of maxima i zero bins = some bins
  fill_bins bin_of maxima i (suc n) bins = next_bin (get_elem? maxima i) (λ x.
      let rest = fill_bins bin_of maxima (suc i) n (set bins i (bin_of x)) in
      if ltb i (length bins) then rest else none)

  abbrev pub with_bins : ℕ → EventData F → Option (List ℕ) → Option McaData
  with_bins channels event none = none
  with_bins channels event (some bins) = some (record {
    count = event.num_detected;
    timestamp = event.timestamp_wall;
    total_max_bin_count = channels;
    bins = bins;
  })

  -- What a round of `MCACountEvent` emits for an event; `bin_of` is the product with the number of
  -- channels over 10, as a `u16`, and `fresh` what the 128 bins hold before.
  unfoldable pub mca_data : (F → ℕ) → ℕ → List ℕ → EventData F → Option McaData
  mca_data bin_of channels fresh event =
      with_bins channels event (fill_bins bin_of event.maxima 0 event.num_detected fresh)
