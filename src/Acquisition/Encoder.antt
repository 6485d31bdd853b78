-- ===== src/Acquisition/Encoder.antt =====
-- The angular encoders (DCS_Acquisition/src/encoder.cpp): the set-up of the box, the loop that waits for
-- the reference marks, the loop that reads positions, and the last reading. The box is a parameter: which
-- of its calls fail, what its queue holds, and its conversion of a position; logging is left out.
pub mod Setup
pub mod Referencing
pub mod Readings
mod Tests
use dcscan_modules_api.Prelude.{
  ℕ, zero, suc, ◌+◌, ◌-◌, ◌*◌, ◌/◌, ◌%◌, ◌^◌, ◌≤◌, ◌<◌, min, max, ◌≡◌, refl, sym, ap, ◌∙◌, ◌≢◌, ◌↔◌,
  ◌⊎◌, inl, inr, Bool, true, false, not, ◌&&◌, ◌||◌, Option, none, some, List, [], ◌∷◌, ◌++◌, map,
  append-nil, append_assoc, arith, ltb, leb, ◌==◌, if◌then◌else◌, ltb→lt, lt→ltb, leb→le, le→leb,
  ==_iff, ==_refl, Bool-cases, Option-cases, length, get_elem?, get_or, take, drop, set,
  length-append, length-take, length-drop, take-append-drop, take_exact, drop_exact, take_within,
  take_all, length-map, All,
}
use dcscan_modules_api.Prelude.Words.{le_bytes, le_value, length-le_bytes, le_value-le_bytes}
use dcscan_modules_api.Prelude.Attempts.{perform}
use dcscan_modules_api.Utils.MessageQueue.{push, size, peek_back_woken}

abbrev pub num_of_axis : ℕ
num_of_axis = 4

-- `axes & (1 << i)`
unfoldable pub has_axis : ℕ → ℕ → Bool
has_axis axes i = (axes / 2 ^ i) % 2 == 1

-- The calls of `InitEIB7Encoder`. `init_axis` stands for `EIB7InitAxis` with its constants.
pub data Call : Type 0 where
  get_host_ip open_eib get_axis get_timestamp_ticks set_timestamp_period get_timer_trigger_ticks
        set_timer_trigger_period master_trigger_source select_mode :
      Call
  -- The index in `packet`; the region is `none` for the global one.
  add_data_packet_section : ℕ → Option ℕ → Call
  init_axis set_timestamp axis_trigger_source : ℕ → Call
  config_data_packet : ℕ → Call

-- The calls up to the loop over the axes.
unfoldable pub open_calls : List Call
open_calls =
    Call.get_host_ip
    ∷ Call.open_eib
    ∷ Call.get_axis
    ∷ Call.get_timestamp_ticks
    ∷ Call.set_timestamp_period
    ∷ Call.add_data_packet_section 0 none
    ∷ Call.get_timer_trigger_ticks
    ∷ Call.set_timer_trigger_period
    ∷ Call.master_trigger_source
    ∷ []

-- One axis with the packet index that it is given.
unfoldable pub axis_calls : ℕ → ℕ → List Call
axis_calls packet_index i =
    Call.init_axis i
    ∷ Call.set_timestamp i
    ∷ Call.add_data_packet_section packet_index (some i)
    ∷ Call.axis_trigger_source i
    ∷ []

-- The loop over the axes from `i` on, `n` of them, and the packet index after it.
unfoldable pub axes_calls : ℕ → ℕ → ℕ → ℕ → List Call × ℕ
axes_calls axes packet_index i zero = ([], packet_index)
axes_calls axes packet_index i (suc n) =
    let (used, after) = axes_calls axes (packet_index + 1) (i + 1) n in
    let (skipped, same) = axes_calls axes packet_index (i + 1) n in
    if has_axis axes i then (axis_calls packet_index i ++ used, after) else (skipped, same)

unfoldable pub close_calls : ℕ → List Call
close_calls packet_index = Call.config_data_packet packet_index ∷ Call.select_mode ∷ []

module _ (fails : List Call → Call → Bool) where
  abbrev pub configured : ℕ → ℕ → ℕ → Bool × List Call → ℕ × List Call
  configured packet_index axes inited_axes (false, made) = (inited_axes, made)
  configured packet_index axes inited_axes (true, made) =
      (axes, (perform fails (close_calls packet_index) made).1)

  -- `InitEIB7Encoder`: `inited_axes` afterwards, and the calls made. `num_axes` is what the box has.
  unfoldable pub init_encoder : ℕ → ℕ → ℕ → ℕ × List Call
  init_encoder num_axes axes inited_axes =
      let (calls, packet_index) = axes_calls axes 1 0 num_axes in
      configured packet_index axes inited_axes (perform fails (open_calls ++ calls) [])

-- An entry of the queue of the box: the trigger counter, and the fields of each region.
pub record Entry : Type 0 where
  pub trigger_counter : ℕ
  pub status : ℕ → ℕ
  pub timestamp : ℕ → ℕ
  pub position : ℕ → ℕ
  pub ref : ℕ → ℕ × ℕ

-- The body of the referencing loop for one axis.
unfoldable pub still_referencing : ℕ → Entry → ℕ → Bool → Bool
still_referencing axes entry i referencing =
    if not (has_axis axes i)
    then false
    else if (entry.status i / 2 ^ 8) % 2 == 1
    then false
    else referencing

-- The flags of the axes from `i` on after an entry.
unfoldable pub reference : ℕ → Entry → ℕ → List Bool → List Bool
unfolding still_referencing
reference axes entry i [] = []
reference axes entry i (r ∷ rs) = still_referencing axes entry i r ∷ reference axes entry (i + 1) rs

-- `referencingtot`
unfoldable pub any_referencing : List Bool → Bool
any_referencing [] = false
any_referencing (r ∷ rs) = r || any_referencing rs

-- The referencing loop, given what its reads of the queue return, `none` where it is empty: the reads
-- left when it ends, or `none` where it goes on.
unfoldable pub reference_loop : ℕ → List Bool → List (Option Entry) → Option (List (Option Entry))
reference_loop axes referencing [] = none
reference_loop axes referencing (none ∷ reads) = reference_loop axes referencing reads
reference_loop axes referencing (some entry ∷ reads) =
    let referencing' = reference axes entry 0 referencing in
    let rest = reference_loop axes referencing' reads in
    if any_referencing referencing' then rest else some reads

abbrev pub all_referencing : List Bool
all_referencing = true ∷ true ∷ true ∷ true ∷ []

-- `EncoderAxisData` and `EncoderData`; `F` are the doubles.
pub record AxisData (F : Type 0) : Type 0 where
  pub axis : ℕ
  pub position : ℕ
  pub calpos : F
  pub status : ℕ
  pub trigger_counter : ℕ
  pub timestamp : ℕ
  pub ref : ℕ × ℕ

pub record Data (F : Type 0) : Type 0 where
  pub num_axis : ℕ
  pub axis : List (AxisData F)

-- The conversion of the box, the product with 360 over the signal periods of an axis, and sums.
pub record Conversion (F : Type 0) : Type 0 where
  pub incr_pos_to_double : ℕ → F
  pub to_degrees : ℕ → F → F
  pub add : F → F → F

module _ {F : Type 0} (conversion : Conversion F) where
  -- An `i64` is its residue modulo 2 ^ 64.
  unfoldable pub read_axis : Entry → ℕ → AxisData F
  read_axis entry i =
      let position = (entry.position i + (2 ^ 64 - (entry.ref i).0)) % 2 ^ 64 in
      record {
        axis = i + 1;
        position = position;
        calpos = conversion.to_degrees i (conversion.incr_pos_to_double position);
        status = entry.status i;
        trigger_counter = entry.trigger_counter;
        timestamp = entry.timestamp i;
        ref = entry.ref i;
      }

  -- The loop over the axes from `i` on; `stack` is what `edata.axis` held before.
  unfoldable pub read_axes : ℕ → Entry → ℕ → List (AxisData F) → List (AxisData F)
  read_axes axes entry i [] = []
  read_axes axes entry i (old ∷ stack) =
      (if has_axis axes i then read_axis entry i else old) ∷ read_axes axes entry (i + 1) stack

  unfoldable pub count_axes : ℕ → ℕ → ℕ → ℕ
  count_axes axes i zero = 0
  count_axes axes i (suc n) =
      let rest = count_axes axes (i + 1) n in if has_axis axes i then rest + 1 else rest

  -- `calpos +=` at an index; out of its range nothing is there.
  unfoldable pub offset : ℕ → F → List (AxisData F) → List (AxisData F)
  offset i x [] = []
  offset zero x (d ∷ ds) = record d { calpos = conversion.add d.calpos x } ∷ ds
  offset (suc i) x (d ∷ ds) = d ∷ offset i x ds

  -- `outbound_data_queue`, and the two last known positions that are written to the database.
  pub record Box : Type 0 where
    pub queue : List (Data F)
    pub known : List (Option F × Option F)

  abbrev pub calpos_at : Option (AxisData F) → Option F
  calpos_at none = none
  calpos_at (some d) = some d.calpos

  -- A round of the main loop with an entry; `c1` and `c2` are the offsets in the database.
  unfoldable pub main_round : ℕ → F → F → List (AxisData F) → Entry → Box → Box
  main_round axes c1 c2 stack entry b =
      let read = read_axes axes entry 0 stack in
      let num_axis = count_axes axes 0 num_of_axis in
      let edata : Data F = record { num_axis = num_axis; axis = offset 3 c2 (offset 1 c1 read) } in
      record {
        queue = if ltb 0 num_axis then push edata b.queue else b.queue;
        known = b.known ++ (calpos_at (get_elem? read 1), calpos_at (get_elem? read 3)) ∷ [];
      }

  -- `InspectLastEncoderValues`; `stack` is what the axes of `data` hold before anything is written.
  unfoldable pub inspect_last_encoder_values : List (AxisData F) → Box → Data F
  inspect_last_encoder_values stack b =
      let none_read : Data F = record { num_axis = 0; axis = stack } in
      if ltb 0 (size b.queue) then peek_back_woken none_read b.queue else none_read
