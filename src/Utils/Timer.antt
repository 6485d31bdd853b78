-- ===== src/Utils/Timer.antt =====
-- `DCS::Timer` (DCS_Utils/src/timer.cpp). The time since `start`, a count of nanoseconds of the steady
-- clock, is an argument. Text is a list of character codes, and `std::to_string` of a number that is
-- not negative is a parameter.
pub mod Fields
use dcscan_modules_api.Prelude.{
  ℕ, zero, suc, ◌+◌, ◌-◌, ◌*◌, ◌/◌, ◌%◌, ◌^◌, ◌≤◌, ◌<◌, min, max, ◌≡◌, refl, sym, ap, ◌∙◌, ◌≢◌, ◌↔◌,
  ◌⊎◌, inl, inr, Bool, true, false, not, ◌&&◌, ◌||◌, Option, none, some, List, [], ◌∷◌, ◌++◌, map,
  append-nil, append_assoc, arith, ltb, leb, ◌==◌, if◌then◌else◌, ltb→lt, lt→ltb, leb→le, le→leb,
  ==_iff, ==_refl, Bool-cases, Option-cases, length, get_elem?, get_or, take, drop, set,
  length-append, length-take, length-drop, take-append-drop, take_exact, drop_exact, take_within,
  length-map, All,
}
use dcscan_modules_api.Prelude.Words.{le_bytes, le_value, length-le_bytes, le_value-le_bytes}
use Prim.Native.Char.{code}
use Prim.Native.String.{String}

-- An `i16` field is its bit pattern.
pub record Timestamp : Type 0 where
  pub hour : ℕ
  pub min : ℕ
  pub sec : ℕ
  pub millis : ℕ
  pub micros : ℕ
  pub nanos : ℕ

abbrev pub ns_per_us : ℕ
ns_per_us = 1000

abbrev pub ns_per_ms : ℕ
ns_per_ms = 1_000_000

abbrev pub ns_per_s : ℕ
ns_per_s = 1_000_000_000

abbrev pub ns_per_min : ℕ
ns_per_min = 60_000_000_000

abbrev pub ns_per_h : ℕ
ns_per_h = 3_600_000_000_000

-- The differences of two casts, in the finer unit: `(m - h).count()` and so on.
pub record Counts : Type 0 where
  pub h : ℕ
  pub m : ℕ
  pub s : ℕ
  pub ms : ℕ
  pub us : ℕ
  pub ns : ℕ

unfoldable pub counts : ℕ → Counts
counts t = record {
  h = t / ns_per_h;
  m = t / ns_per_min - 60 * (t / ns_per_h);
  s = t / ns_per_s - 60 * (t / ns_per_min);
  ms = t / ns_per_ms - 1000 * (t / ns_per_s);
  us = t / ns_per_us - 1000 * (t / ns_per_ms);
  ns = t - 1000 * (t / ns_per_us);
}

-- `if (v > 0) return (i16)v; else return 0;`
unfoldable pub to_field : ℕ → ℕ
to_field v = if ltb 0 v then v % 2 ^ 16 else 0

unfoldable pub get_timestamp : ℕ → Timestamp
unfolding to_field counts
get_timestamp t =
    let c = counts t in
    record {
      hour = to_field c.h;
      min = to_field c.m;
      sec = to_field c.s;
      millis = to_field c.ms;
      micros = to_field c.us;
      nanos = to_field c.ns;
    }

abbrev pub codes : String → List ℕ
codes String.[] = []
codes (String.◌∷◌ c s) = code c ∷ codes s

module _ (to_string : ℕ → List ℕ) where
  -- the lambda `add_value` of the string functions, over an `i64`
  unfoldable pub add_value : List ℕ → ℕ → List ℕ → List ℕ
  add_value unit v ts = if ltb 0 v then ts ++ (to_string v ++ unit) else ts

  unfoldable pub parts_string : ℕ → ℕ → ℕ → ℕ → ℕ → ℕ → List ℕ
  parts_string h m s ms us ns = add_value (codes "ns") ns (
      add_value (codes "us ") us (
        add_value (codes "ms ") ms
          (add_value (codes "s ") s (add_value (codes "m ") m (add_value (codes "h ") h [])))))

  unfoldable pub get_timestamp_string : ℕ → List ℕ
  get_timestamp_string t = let c = counts t in parts_string c.h c.m c.s c.ms c.us c.ns

-- A field of a timestamp as an `i64` that is printed only if it is positive; a negative one counts
-- as 0 here.
unfoldable pub positive_part : ℕ → ℕ
positive_part pattern = if ltb pattern (2 ^ 15) then pattern else 0

unfoldable pub timestamp_to_string : (ℕ → List ℕ) → Timestamp → List ℕ
timestamp_to_string to_string ts =
    parts_string to_string (positive_part ts.hour) (positive_part ts.min) (positive_part ts.sec)
      (positive_part ts.millis) (positive_part ts.micros) (positive_part ts.nanos)

-- days, hours and minutes, each printed also when it is 0
unfoldable pub get_timestamp_string_simple : (ℕ → List ℕ) → ℕ → List ℕ
get_timestamp_string_simple to_string t =
    let c = counts t in
    to_string (c.h / 24)
    ++ codes "d "
    ++ to_string (c.h % 24)
    ++ codes "h "
    ++ to_string c.m
    ++ codes "m"
