-- ===== src/Acquisition/Channels.antt =====
-- The virtual channels and the acquisitions that are made of them
-- (DCS_Acquisition/src/external_cmds.cpp). `std::map` is a list in the order of its keys. The names
-- are texts of any length; the limits, references and rates of a channel, and the flags that the code
-- sets and never reads, are left out.
pub mod Lifecycle
pub mod Running
pub mod Starting
pub mod Stopping
pub mod Kept
pub mod Distinct
use dcscan_modules_api.Prelude.{
  ℕ, zero, suc, ◌+◌, ◌-◌, ◌*◌, ◌/◌, ◌%◌, ◌^◌, ◌≤◌, ◌<◌, min, max, ◌≡◌, refl, sym, ap, ◌∙◌, ◌≢◌, ◌↔◌,
  ◌⊎◌, inl, inr, Bool, true, false, not, ◌&&◌, ◌||◌, Option, none, some, List, [], ◌∷◌, ◌++◌, map,
  append-nil, append_assoc, arith, ltb, leb, ◌==◌, if◌then◌else◌, ltb→lt, lt→ltb, leb→le, le→leb,
  ==_iff, ==_refl, Bool-cases, Option-cases, length, get_elem?, get_or, take, drop, set,
  length-append, length-take, length-drop, take-append-drop, take_exact, drop_exact, take_within,
  take_all, length-map, All,
}
use dcscan_modules_api.Prelude.Words.{le_bytes, le_value, length-le_bytes, le_value-le_bytes}
use dcscan_modules_api.Core.Database.{Chars}
use dcscan_modules_api.Core.Database.Cache.{same_chars}
use dcscan_modules_api.Acquisition.Tasks.{
  TaskId, ChannelType, Loop, Call, Trace, Ni, create, setup_task_ai, setup_task_ci, setup_task_ptg,
  add_task_channel, start, stop, clear, start_event_loop, stop_event_loop,
}

pub record VirtualChannel : Type 0 where
  pub channel_name : Chars
  pub type : ChannelType

abbrev pub Channels : Type 0
Channels = List (Chars × VirtualChannel)

-- The static variables, and the calls made so far.
pub record Daq {ℓ} (F : Type ℓ) : Type ℓ where
  pub channels : Channels
  pub voltage_running : Bool
  pub count_running : Bool
  pub count_using_ptg : Bool
  pub count_task_last_count : ℕ
  pub task_time_real : ℕ
  pub mca_mode : Bool
  pub mca_num_channels : ℕ
  pub trace : Trace F

abbrev pub internal_samp_size : ℕ
internal_samp_size = 1000

unfoldable pub same_type : ChannelType → ChannelType → Bool
same_type ChannelType.no_type ChannelType.no_type = true
same_type ChannelType.voltage ChannelType.voltage = true
same_type ChannelType.digital ChannelType.digital = true
same_type ChannelType.counter ChannelType.counter = true
same_type ChannelType.pt_gen ChannelType.pt_gen = true
same_type _ _ = false

-- the order of `std::string`
unfoldable pub less_chars : Chars → Chars → Bool
less_chars [] [] = false
less_chars [] (d ∷ ds) = true
less_chars (c ∷ cs) [] = false
less_chars (c ∷ cs) (d ∷ ds) = let rest = less_chars cs ds in if c == d then rest else ltb c d

unfoldable pub count_virtual_channels_of_type : ChannelType → Channels → ℕ
count_virtual_channels_of_type type [] = 0
count_virtual_channels_of_type type ((name, c) ∷ cs) =
    let total = count_virtual_channels_of_type type cs in
    if same_type c.type type then suc total else total

-- The loop that refuses a name or a connector in use.
unfoldable pub in_use : Chars → Chars → Channels → Bool
in_use name channel_name [] = false
in_use name channel_name ((n, c) ∷ cs) =
    same_chars n name || (same_chars c.channel_name channel_name || in_use name channel_name cs)

-- `emplace` keeps an entry that is there.
unfoldable pub insert : Chars → VirtualChannel → Channels → Channels
insert name c [] = (name, c) ∷ []
insert name c ((n, d) ∷ cs) =
    let rest = insert name c cs in
    if same_chars n name
    then (n, d) ∷ cs
    else if less_chars name n
    then (name, c) ∷ (n, d) ∷ cs
    else (n, d) ∷ rest

unfoldable pub remove : Chars → Channels → Channels
remove name [] = []
remove name ((n, c) ∷ cs) =
    let rest = remove name cs in if same_chars n name then cs else (n, c) ∷ rest

module _ {ℓ} {F : Type ℓ} (ni : Ni F) where
  -- `NewAIVChannel`, `NewCIChannel` and `NewPTGChannel` differ in the type.
  unfoldable pub new_channel : ChannelType → Chars → Chars → Daq F → Daq F
  new_channel type name channel_name d =
      if in_use name channel_name d.channels then d else record d {
        channels = insert name (record { channel_name = channel_name; type = type }) d.channels;
      }

  unfoldable pub delete_channel : Chars → Daq F → Daq F
  delete_channel name d = record d { channels = remove name d.channels }

  unfoldable pub add_voltage_channels : Channels → Trace F → Trace F
  add_voltage_channels [] t = t
  add_voltage_channels ((name, c) ∷ cs) t = add_voltage_channels cs (
      if same_type c.type ChannelType.voltage
      then add_task_channel ni TaskId.ai c.channel_name ChannelType.voltage ni.zero_f t
      else t)

  -- The number is that of the voltage channels; `none` is the division by zero.
  unfoldable pub begin_ai : Chars → F → ℕ → Daq F → Option (Daq F)
  begin_ai clock rate zero d = none
  begin_ai clock rate (suc n) d =
      let (mode, looping) = start_event_loop ni d.mca_num_channels d.trace in
      some (record d {
        task_time_real = 0;
        voltage_running = true;
        mca_mode = mode;
        trace = start ni TaskId.ai (
            setup_task_ai ni TaskId.ai clock rate (internal_samp_size / suc n)
              (add_voltage_channels d.channels (create ni TaskId.ai looping)));
      })

  unfoldable pub start_ai_acquisition : Chars → F → Daq F → Option (Daq F)
  start_ai_acquisition clock rate d =
      let begun =
        begin_ai clock rate (count_virtual_channels_of_type ChannelType.voltage d.channels) d in
      if d.count_running
      then some d
      else if d.voltage_running
      then some (record d { task_time_real = 0 })
      else begun

  unfoldable pub stop_ai_acquisition : Daq F → Daq F
  stop_ai_acquisition d =
      if d.voltage_running
      then record d {
        voltage_running = false;
        trace = stop_event_loop ni d.mca_mode (clear ni TaskId.ai (stop ni TaskId.ai d.trace));
      }
      else d

  -- The first counter channel alone is added.
  unfoldable pub add_counter_channel : Channels → Trace F → Trace F
  add_counter_channel [] t = t
  add_counter_channel ((name, c) ∷ cs) t =
      let later = add_counter_channel cs t in
      if same_type c.type ChannelType.counter
      then add_task_channel ni TaskId.ci c.channel_name ChannelType.counter ni.zero_f t
      else later

  -- The first pulse train channel makes a task of its own; the Boolean is `count_using_ptg`.
  unfoldable pub add_ptg_channel : F → Channels → Bool × Trace F → Bool × Trace F
  add_ptg_channel rate [] s = s
  add_ptg_channel rate ((name, c) ∷ cs) s =
      let later = add_ptg_channel rate cs s in
      if same_type c.type ChannelType.pt_gen
      then (
        true,
        setup_task_ptg ni TaskId.ptg 1000 (
            add_task_channel ni TaskId.ptg c.channel_name ChannelType.pt_gen rate
              (create ni TaskId.ptg s.1)),
      )
      else later

  unfoldable pub begin_ci : Chars → F → Daq F → Daq F
  begin_ci clock rate d =
      let (mode, looping) = start_event_loop ni 0 d.trace in
      let (using, ready) =
        add_ptg_channel rate d.channels
          (d.count_using_ptg, add_counter_channel d.channels (create ni TaskId.ci looping)) in
      let set_up = setup_task_ci ni TaskId.ci clock rate internal_samp_size ready in
      record d {
        task_time_real = 0;
        count_task_last_count = 0;
        count_running = true;
        count_using_ptg = using;
        mca_mode = mode;
        trace = start ni TaskId.ci (if using then start ni TaskId.ptg set_up else set_up);
      }

  -- The triggers for pause and reset are read and ignored.
  unfoldable pub start_ci_acquisition : Chars → F → Daq F → Daq F
  start_ci_acquisition clock rate d =
      let begun = begin_ci clock rate d in
      if d.voltage_running then d else if d.count_running then d else begun

  unfoldable pub stop_ci_acquisition : Daq F → Daq F
  stop_ci_acquisition d =
      let stopped = stop ni TaskId.ci d.trace in
      let all_stopped = if d.count_using_ptg then stop ni TaskId.ptg stopped else stopped in
      let cleared = clear ni TaskId.ci all_stopped in
      let all_cleared = if d.count_using_ptg then clear ni TaskId.ptg cleared else cleared in
      if d.count_running
      then record d {
        count_running = false;
        count_using_ptg = false;
        trace = stop_event_loop ni d.mca_mode all_cleared;
      }
      else d

  abbrev pub internal_adc_max_chan : ℕ
  internal_adc_max_chan = 65535

  unfoldable pub set_mca_num_channels : ℕ → Daq F → Daq F
  set_mca_num_channels n d = record d {
    mca_num_channels = if ltb internal_adc_max_chan n then d.mca_num_channels else n;
  }
