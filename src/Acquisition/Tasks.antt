-- ===== src/Acquisition/Tasks.antt =====
-- The tasks of the acquisition board (DCS_Acquisition/src/daq.cpp) and the threads that emit its events
-- (DCS_Acquisition/src/global_evts.cpp). NI-DAQmx is a parameter: whether a call fails may depend on
-- all calls before it. What the code does is the list of its calls, the last one first.
use dcscan_modules_api.Prelude.{ℕ, Bool, true, false, List, ◌∷◌, ltb, if◌then◌else◌}
use dcscan_modules_api.Core.Database.{Chars}

-- `voltage_task`, `count_task` and `ptg_task`
pub data TaskId : Type 0 where
  ai ci ptg : TaskId

pub data ChannelType : Type 0 where
  no_type voltage digital counter pt_gen : ChannelType

-- the three `evt_loop_..._thread`
pub data Loop : Type 0 where
  dcs mca cli : Loop

pub data Call {ℓ} (F : Type ℓ) : Type ℓ where
  create_task : TaskId → Call F
  create_channel : TaskId → ChannelType → Chars → Call F
  get_max_rate : TaskId → Call F
  cfg_samp_clk : TaskId → Chars → F → ℕ → Call F
  cfg_implicit : TaskId → ℕ → Call F
  register_event : TaskId → Call F
  start_task : TaskId → Call F
  stop_task : TaskId → Call F
  clear_task : TaskId → Call F
  spawn : Loop → Call F
  join : Loop → Call F

abbrev pub Trace {ℓ} : Type ℓ → Type ℓ
Trace F = List (Call F)

-- `fails` says whether the call, after the trace, returns a negative code.
pub record Ni {ℓ} (F : Type ℓ) : Type ℓ where
  pub fails : Trace F → Call F → Bool
  pub max_rate : F
  pub gt : F → F → Bool
  pub le : F → F → Bool
  pub zero_f : F

module _ {ℓ} {F : Type ℓ} (ni : Ni F) where
  -- A call, and `DAQmxClearTask` where it fails; the Boolean says whether to go on.
  unfoldable pub attempt : TaskId → Call F → Trace F → Bool × Trace F
  attempt k c t = if ni.fails t c then (false, Call.clear_task k ∷ c ∷ t) else (true, c ∷ t)

  abbrev pub and_then : Bool × Trace F → (Trace F → Bool × Trace F) → Bool × Trace F
  and_then (true, t) f = f t
  and_then (false, t) f = (false, t)

  abbrev pub trace_of : Bool × Trace F → Trace F
  trace_of (going, t) = t

  unfoldable pub create : TaskId → Trace F → Trace F
  create k t = trace_of (attempt k (Call.create_task k) t)

  -- `clk > maxrate ? maxrate : clk`
  unfoldable pub clipped : F → F
  clipped clk = if ni.gt clk ni.max_rate then ni.max_rate else clk

  unfoldable pub setup_task_ai : TaskId → Chars → F → ℕ → Trace F → Trace F
  setup_task_ai k source clk samples t = trace_of (
      and_then
        (and_then (attempt k (Call.get_max_rate k) t)
          (attempt k (Call.cfg_samp_clk k source (clipped clk) samples)))
        (attempt k (Call.register_event k)))

  unfoldable pub setup_task_ci : TaskId → Chars → F → ℕ → Trace F → Trace F
  setup_task_ci k source clk samples t = trace_of (
      and_then (attempt k (Call.cfg_samp_clk k source clk samples) t)
        (attempt k (Call.register_event k)))

  unfoldable pub setup_task_ptg : TaskId → ℕ → Trace F → Trace F
  setup_task_ptg k samples t = trace_of (attempt k (Call.cfg_implicit k samples) t)

  -- `AddTaskChannel`; only a pulse train looks at the rate.
  unfoldable pub add_task_channel : TaskId → Chars → ChannelType → F → Trace F → Trace F
  add_task_channel k name ChannelType.voltage rate t =
      trace_of (attempt k (Call.create_channel k ChannelType.voltage name) t)
  add_task_channel k name ChannelType.counter rate t =
      trace_of (attempt k (Call.create_channel k ChannelType.counter name) t)
  add_task_channel k name ChannelType.pt_gen rate t =
      if ni.le rate ni.zero_f
      then t
      else trace_of (attempt k (Call.create_channel k ChannelType.pt_gen name) t)
  add_task_channel k name ChannelType.no_type rate t = t
  add_task_channel k name ChannelType.digital rate t = t

  unfoldable pub start : TaskId → Trace F → Trace F
  start k t = Call.start_task k ∷ t

  unfoldable pub stop : TaskId → Trace F → Trace F
  stop k t = Call.stop_task k ∷ t

  unfoldable pub clear : TaskId → Trace F → Trace F
  clear k t = Call.clear_task k ∷ t

  -- `mca_mode` is the first component.
  unfoldable pub start_event_loop : ℕ → Trace F → Bool × Trace F
  start_event_loop mca_num_channels t =
      if ltb 0 mca_num_channels
      then (true, Call.spawn Loop.cli ∷ Call.spawn Loop.mca ∷ Call.spawn Loop.dcs ∷ t)
      else (false, Call.spawn Loop.cli ∷ Call.spawn Loop.dcs ∷ t)

  unfoldable pub stop_event_loop : Bool → Trace F → Trace F
  stop_event_loop true t = Call.join Loop.cli ∷ Call.join Loop.mca ∷ Call.join Loop.dcs ∷ t
  stop_event_loop false t = Call.join Loop.cli ∷ Call.join Loop.dcs ∷ t
