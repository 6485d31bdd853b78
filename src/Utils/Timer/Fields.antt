-- ===== src/Utils/Timer/Fields.antt =====
-- The fields of a timestamp.
use dcscan_modules_api.Prelude.{ℕ, ◌+◌, ◌-◌, ◌*◌, ◌/◌, ◌^◌, ◌≤◌, ◌<◌, ◌≡◌, List, arith}
use dcscan_modules_api.Utils.Timer.{
  Timestamp, counts, to_field, positive_part, get_timestamp, get_timestamp_string,
  timestamp_to_string, ns_per_us, ns_per_ms, ns_per_s, ns_per_min, ns_per_h,
}

-- One unit and the next: the finer count never falls below the coarser one, and the rest is small.
minutes :
    (t : ℕ) → (60 * (t / ns_per_h) ≤ t / ns_per_min) × (t / ns_per_min - 60 * (t / ns_per_h) < 60)
minutes t = omega arith

seconds :
    (t : ℕ) → (60 * (t / ns_per_min) ≤ t / ns_per_s) × (t / ns_per_s - 60 * (t / ns_per_min) < 60)
seconds t = omega arith

milliseconds :
    (t : ℕ)
    → (1000 * (t / ns_per_s) ≤ t / ns_per_ms) × (t / ns_per_ms - 1000 * (t / ns_per_s) < 1000)
milliseconds t = omega arith

microseconds :
    (t : ℕ)
    → (1000 * (t / ns_per_ms) ≤ t / ns_per_us) × (t / ns_per_us - 1000 * (t / ns_per_ms) < 1000)
microseconds t = omega arith

nanoseconds : (t : ℕ) → (1000 * (t / ns_per_us) ≤ t) × (t - 1000 * (t / ns_per_us) < 1000)
nanoseconds t = omega arith

regroup :
    (t h m s ms us : ℕ)
    → 60 * h ≤ m
    → 60 * m ≤ s
    → 1000 * s ≤ ms
    → 1000 * ms ≤ us
    → 1000 * us ≤ t
    → h * ns_per_h
        + (m - 60 * h) * ns_per_min
        + (s - 60 * m) * ns_per_s
        + (ms - 1000 * s) * ns_per_ms
        + (us - 1000 * ms) * ns_per_us
        + (t - 1000 * us)
      ≡ t
regroup t h m s ms us p q r u v = omega arith

to_field_small : (v : ℕ) → v < 2 ^ 15 → to_field v ≡ v
unfolding to_field
to_field_small v h = ground arith

positive_part_small : (v : ℕ) → v < 2 ^ 15 → positive_part v ≡ v
unfolding positive_part
positive_part_small v h = ground arith

-- No cast of a count to `i16` loses anything within 32767 hours.
get_timestamp-eq-counts :
    (t : ℕ)
    → t / ns_per_h < 2 ^ 15
    → get_timestamp t ≡ (
        let c = counts t in
        record { hour = c.h; min = c.m; sec = c.s; millis = c.ms; micros = c.us; nanos = c.ns })
unfolding get_timestamp counts
get_timestamp-eq-counts t h = cc (
  to_field_small (t / ns_per_h) h,
  to_field_small (t / ns_per_min - 60 * (t / ns_per_h)) (omega (arith, minutes t)),
  to_field_small (t / ns_per_s - 60 * (t / ns_per_min)) (omega (arith, seconds t)),
  to_field_small (t / ns_per_ms - 1000 * (t / ns_per_s)) (omega (arith, milliseconds t)),
  to_field_small (t / ns_per_us - 1000 * (t / ns_per_ms)) (omega (arith, microseconds t)),
  to_field_small (t - 1000 * (t / ns_per_us)) (omega (arith, nanoseconds t)),
)

-- The fields of `ts` are in their ranges and add up to `t` nanoseconds.
pub record IsExact (ts : Timestamp) (t : ℕ) : Type 0 where
  pub total :
      ts.hour * ns_per_h
        + ts.min * ns_per_min
        + ts.sec * ns_per_s
        + ts.millis * ns_per_ms
        + ts.micros * ns_per_us
        + ts.nanos
      ≡ t
  pub min : ts.min < 60
  pub sec : ts.sec < 60
  pub millis : ts.millis < 1000
  pub micros : ts.micros < 1000
  pub nanos : ts.nanos < 1000

-- While the elapsed time has at most 32767 whole hours, the fields of the timestamp are in their
-- ranges and add up to the elapsed time.
pub get_timestamp-IsExact : (t : ℕ) → t / ns_per_h < 2 ^ 15 → IsExact (get_timestamp t) t
get_timestamp-IsExact t h = rw (get_timestamp-eq-counts t h) (
    unfold counts in
    record {
      total =
          regroup t _ _ _ _ _ (minutes t).0 (seconds t).0 (milliseconds t).0 (microseconds t).0
            (nanoseconds t).0;
      min = (minutes t).1;
      sec = (seconds t).1;
      millis = (milliseconds t).1;
      micros = (microseconds t).1;
      nanos = (nanoseconds t).1;
    })

-- Within the same time the string that a timer prints is the string of its timestamp, whatever
-- `std::to_string` prints.
pub get_timestamp_string-agrees :
    (to_string : ℕ → List ℕ) (t : ℕ)
    → t / ns_per_h < 2 ^ 15
    → timestamp_to_string to_string (get_timestamp t) ≡ get_timestamp_string to_string t
unfolding timestamp_to_string get_timestamp_string
get_timestamp_string-agrees to_string t h = rw (get_timestamp-eq-counts t h) (
    unfold counts in
    rw (
      positive_part_small (t / ns_per_h) h,
      positive_part_small (t / ns_per_min - 60 * (t / ns_per_h)) (omega (arith, minutes t)),
      positive_part_small (t / ns_per_s - 60 * (t / ns_per_min)) (omega (arith, seconds t)),
      positive_part_small (t / ns_per_ms - 1000 * (t / ns_per_s)) (omega (arith, milliseconds t)),
      positive_part_small (t / ns_per_us - 1000 * (t / ns_per_ms)) (omega (arith, microseconds t)),
      positive_part_small (t - 1000 * (t / ns_per_us)) (omega (arith, nanoseconds t)),
    ))
