-- ===== src/Acquisition/Events/Tests.antt =====
-- Runs of the events on small inputs, and the theorems at inputs that meet their hypotheses.
use dcscan_modules_api.Prelude.{
  ℕ, zero, suc, ◌+◌, ◌-◌, ◌*◌, ◌^◌, ◌≡◌, refl, ◌≢◌, Bool, true, false, none, some, List, [], ◌∷◌,
  ◌++◌, map, arith, ltb, leb, if◌then◌else◌, length, get_or, drop,
}
use dcscan_modules_api.Utils.Text.{Text, from_text, split, split_loop, strlen, from_range}
use dcscan_modules_api.Core.Peaks.{
  count_array_peak, count_packet_core, for_loop, pulse_loop, keep_pulse,
}
use dcscan_modules_api.Utils.Vector.{at, push, emplace, make_room, reallocate, empty}
use dcscan_modules_api.Acquisition.Events.{
  EventData, Events, Frame, Subscribed, position_of, voltage_event, dcs_round, fill_bins, mca_data,
}
use dcscan_modules_api.Acquisition.Events.Counting.{Answers, count_all, total, count_all-total}
use dcscan_modules_api.Acquisition.Events.Delivery.{Reach, emitted_in_order}
use dcscan_modules_api.Acquisition.Events.Bins.{voltage_event-bins}

-- The doubles are naturals, and a text is read as its first character.
abbrev tof64 : Text → ℕ
tof64 t = get_or t.bytes 0 0

abbrev add : ℕ → ℕ → ℕ
add x y = x + y

abbrev samples : ℕ → ℕ → List ℕ
samples x zero = []
samples x (suc n) = x ∷ samples x n

-- "0,7"
abbrev reply : List ℕ
reply = 48 ∷ 44 ∷ 55 ∷ 0 ∷ []

abbrev frame_of : ℕ → Frame ℕ
frame_of x = record {
  counts = samples x 1000;
  timestamp = 4;
  samples_time = 10;
  encoder_data = record { num_axis = 0; axis = [] };
  table_reply = reply;
  detector_reply = reply;
  table_offset = 1;
  detector_offset = 2;
  crystals = (20, 21);
}

abbrev at_rest : ℕ → Events ℕ
at_rest n = record { last_count = n; time_real = 0; dcs = []; mca = []; clinometer = [] }

answers : (x : ℕ) → Answers tof64 add (frame_of x)
unfolding position_of at split split_loop push emplace make_room reallocate empty from_range
    from_text strlen
answers x = (56, 57, refl, refl)

count_all-total_example :
    (t : Events ℕ) × (events : List (EventData ℕ)) × (count_all tof64 add
        (frame_of 5 ∷ frame_of 9 ∷ [])
        (at_rest 2)
      ≡ some t)
    × (t.dcs ≡ [] ++ events)
    × (length events ≡ 2)
    × (t.last_count ≡ 9)
    × (2 + total tof64 add events ≡ t.last_count)
count_all-total_example =
    count_all-total tof64 add (frame_of 5 ∷ frame_of 9 ∷ []) (at_rest 2)
      (answers 5, (answers 9, tt)) (omega arith, (omega arith, (omega arith, (omega arith, tt))))

abbrev event_of : ℕ → EventData ℕ
event_of n = record {
  num_detected = n;
  maxima = samples 3 n;
  counts_delta = 0;
  timestamp_wall = 4;
  timestamp_real = 5;
  angle_c1 = none;
  angle_c2 = none;
  angle_table = 0;
  angle_detector = 0;
  temp_c1 = 0;
  temp_c2 = 0;
}

real_event : (event_of 2).num_detected ≢ 2 ^ 64 - 1
real_event = λ e. omega (arith, e)

emitted_in_order_example :
    let l =
      dcs_round
        (event_of 0)
        (dcs_round (event_of 0) (record { queue = event_of 2 ∷ []; emitted = [] })) in
    l.emitted ++ l.queue ≡ event_of 2 ∷ []
emitted_in_order_example =
    emitted_in_order (event_of 0)
      (Reach.round (Reach.round (Reach.pushed (event_of 2) Reach.start))) (real_event, tt)

-- 129 peaks are more than there are bins.
too_many : mca_data (λ x. x * 2) 1024 (samples 0 128) (event_of 129) ≡ none
unfolding mca_data fill_bins
too_many = refl

abbrev ltb_of : ℕ → ℕ → Bool
ltb_of x y = ltb y x

abbrev on_mca : Subscribed
on_mca = record { dcs = false; mca = true; clinometer = false }

peaks :
    voltage_event ltb_of leb 0 2 9 on_mca (event_of 0) 4 (0 ∷ 3 ∷ 0 ∷ 3 ∷ 0 ∷ []) (at_rest 0)
    ≡ record (at_rest 0) { mca = event_of 2 ∷ [] }
unfolding voltage_event count_array_peak count_packet_core for_loop pulse_loop keep_pulse
peaks = refl

voltage_event-bins_example :
    let peaks = (count_array_peak ltb_of leb 0 2 9 (0 ∷ 3 ∷ 0 ∷ 3 ∷ 0 ∷ []) 0).maxima in
    (event : EventData ℕ) × ((voltage_event ltb_of leb 0 2 9 on_mca
        (event_of 0)
        4
        (0 ∷ 3 ∷ 0 ∷ 3 ∷ 0 ∷ [])
        (at_rest 0)).mca
      ≡ [] ++ event ∷ [])
    × (mca_data (λ x. x * 2) 1024 (samples 0 128) event ≡ (
        if leb (length peaks) (length (samples 0 128))
        then some (record {
          count = length peaks;
          timestamp = 4;
          total_max_bin_count = 1024;
          bins = map (λ x. x * 2) peaks ++ drop (length peaks) (samples 0 128);
        })
        else none))
voltage_event-bins_example =
    voltage_event-bins ltb_of leb 0 2 9 (λ x. x * 2) on_mca (event_of 0) 4 1024
      (0 ∷ 3 ∷ 0 ∷ 3 ∷ 0 ∷ []) (at_rest 0) (samples 0 128) refl
