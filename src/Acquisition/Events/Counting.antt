-- ===== src/Acquisition/Events/Counting.antt =====
-- The counts of a measurement add up, and what an overflow of the counter does.
use dcscan_modules_api.Prelude.{
  ℕ, suc, ◌+◌, ◌-◌, ◌%◌, ◌^◌, ◌≤◌, ◌<◌, ◌≡◌, refl, sym, ap, ◌∙◌, true, Option, none, some, List, [],
  ◌∷◌, ◌++◌, append-nil, append_assoc, arith, length, All,
}
use mathlib.Core.Path.{ap₂}
use dcscan_modules_api.Utils.Text.{Text}
use dcscan_modules_api.Acquisition.Events.{
  EventData, Events, Frame, last_of, position_of, measured, counted, count_event,
}

module _ {F : Type 0} (tof64 : Text → F) (add : F → F → F) where
  abbrev step : Frame F → Events F → Option (Events F)
  step = count_event tof64 add true

  abbrev pub and_then : Option (Events F) → (Events F → Option (Events F)) → Option (Events F)
  and_then none f = none
  and_then (some s) f = f s

  -- A row of count events, with the DCS event subscribed.
  abbrev pub count_all : List (Frame F) → Events F → Option (Events F)
  count_all [] s = some s
  count_all (frame ∷ frames) s = and_then (step frame s) (λ t. count_all frames t)

  abbrev pub total : List (EventData F) → ℕ
  total [] = 0
  total (event ∷ events) = event.num_detected + total events

  abbrev pub reading : Frame F → ℕ
  reading = last_of tof64 add

  -- Both controllers answer with a second field.
  abbrev pub Answers : Frame F → Type 0
  Answers frame =
      (table : F) × (detector : F) × (position_of tof64 add frame.table_reply frame.table_offset
        ≡ some table)
      × (position_of tof64 add frame.detector_reply frame.detector_offset ≡ some detector)

  -- The readings of the counter are those of a `u32` that does not overflow, from `n` on.
  abbrev pub Rising : ℕ → List (Frame F) → Type 0
  Rising n [] = Unit
  Rising n (frame ∷ frames) =
      (n ≤ reading frame) × ((reading frame < 2 ^ 32) × Rising (reading frame) frames)

  -- One event: what it queues.
  step_lem :
      (frame : Frame F) (s : Events F)
      → Answers frame
      → (event : EventData F) × (step frame s
          ≡ some (record s {
            last_count = reading frame;
            time_real = (s.time_real + frame.samples_time) % 2 ^ 64;
            dcs = s.dcs ++ event ∷ [];
          }))
        × (event.num_detected ≡ (reading frame + (2 ^ 64 - s.last_count)) % 2 ^ 64)
  unfolding count_event
  step_lem frame s (table, detector, e, f) =
      (_, ap₂ (λ a b. counted tof64 add true frame s (measured tof64 add frame s a b)) e f, refl)

  -- The last reading of a row of frames, or `n`.
  abbrev pub final_reading : ℕ → List (Frame F) → ℕ
  final_reading n [] = n
  final_reading n (frame ∷ frames) = final_reading (reading frame) frames

  -- While the DCS event is subscribed, the counter does not overflow and the controllers answer, no event
  -- faults, one event is queued for each frame, and the counts of these events add up to what the counter
  -- has advanced.
  pub count_all-total :
      (frames : List (Frame F)) (s : Events F)
      → All Answers frames
      → Rising s.last_count frames
      → (t : Events F) × (events : List (EventData F)) × (count_all frames s ≡ some t)
        × (t.dcs ≡ s.dcs ++ events)
        × (length events ≡ length frames)
        × (t.last_count ≡ final_reading s.last_count frames)
        × (s.last_count + total events ≡ t.last_count)
  count_all-total [] s a r = (s, [], refl, sym (append-nil s.dcs), refl, refl, omega arith)
  count_all-total (frame ∷ frames) s a r =
      let (event, e, n) = step_lem frame s a.0 in
      let s' : Events F = record s {
        last_count = reading frame;
        time_real = (s.time_real + frame.samples_time) % 2 ^ 64;
        dcs = s.dcs ++ event ∷ [];
      } in
      let (t, events, e', q, l, f, c) = count_all-total frames s' a.1 r.1.1 in
      (
        t,
        event ∷ events,
        ap (λ o. and_then o (λ t. count_all frames t)) e ∙ e',
        q ∙ append_assoc s.dcs (event ∷ []) events,
        ap suc l,
        f,
        omega (arith, c, n, r.0, r.1.0),
      )

  -- If the counter has overflowed since the last event, the event reports its advance less 2 ^ 32,
  -- modulo 2 ^ 64: more than 2 ^ 64 - 2 ^ 32 counts.
  pub count_event-overflow :
      (frame : Frame F) (s : Events F)
      → Answers frame
      → s.last_count < 2 ^ 32
      → reading frame < s.last_count
      → (t : Events F) × (event : EventData F) × (count_event tof64 add true frame s ≡ some t)
        × (t.dcs ≡ s.dcs ++ event ∷ [])
        × (event.num_detected ≡ 2 ^ 64 - (s.last_count - reading frame))
        × (2 ^ 64 - 2 ^ 32 < event.num_detected)
  count_event-overflow frame s a h o =
      let (event, e, n) = step_lem frame s a in
      (_, event, e, refl, omega (arith, n, h, o), omega (arith, n, h, o))
