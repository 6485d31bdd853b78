-- ===== src/Acquisition/Tests.antt =====
-- Runs of the drivers on small inputs, and the theorems at inputs that meet their hypotheses.
use dcscan_modules_api.Prelude.{
  ℕ, ◌^◌, ◌<◌, ◌≡◌, refl, true, false, some, List, [], ◌∷◌, ◌++◌, ◌⊎◌, arith, ltb, leb, All,
}
use dcscan_modules_api.Utils.Timer.{codes}
use dcscan_modules_api.Core.Database.Cache.{same_chars}
use dcscan_modules_api.Acquisition.Tasks.{
  TaskId, ChannelType, Loop, Call, Ni, attempt, create, setup_task_ci, setup_task_ptg,
  add_task_channel, start, start_event_loop,
}
use dcscan_modules_api.Acquisition.Channels.{
  Daq, new_channel, in_use, insert, less_chars, same_type, count_virtual_channels_of_type,
  add_counter_channel, add_ptg_channel, begin_ai, start_ai_acquisition, begin_ci,
  start_ci_acquisition,
}
use dcscan_modules_api.Acquisition.Channels.Running.{Op, IsKept, perform, perform_all}
use dcscan_modules_api.Acquisition.Channels.{Channels, VirtualChannel, delete_channel}
use dcscan_modules_api.Acquisition.Channels.Distinct.{
  distinct, IsOther, HasOtherName, Distinct, distinct-Distinct, new_channel-Distinct,
}
use dcscan_modules_api.Acquisition.Channels.Kept.{perform_all-IsKept}
use dcscan_modules_api.Acquisition.Temperature.{calculate_crc16}
use dcscan_modules_api.Acquisition.Temperature.Checksum.{bitwise_crc, calculate_crc16-bitwise}

-- The request that reads the temperature of the first controller.
abbrev request : List ℕ
request = 0x01 ∷ 0x03 ∷ 0x10 ∷ 0x26 ∷ 0x00 ∷ 0x02 ∷ []

request_bytes : All (λ b. b < 256) request
request_bytes =
    (omega arith, (omega arith, (omega arith, (omega arith, (omega arith, (omega arith, tt))))))

calculate_crc16-bitwise_example :
    (calculate_crc16 request ≡ bitwise_crc 0xffff request) × (calculate_crc16 request < 2 ^ 16)
calculate_crc16-bitwise_example = calculate_crc16-bitwise request request_bytes

-- A driver that never fails.
abbrev sound : Ni ℕ
sound = record {
  fails = λ t c. false;
  max_rate = 1000;
  gt = λ a b. ltb b a;
  le = λ a b. leb a b;
  zero_f = 0;
}

abbrev fresh : Daq ℕ
fresh = record {
  channels = [];
  voltage_running = false;
  count_running = false;
  count_using_ptg = false;
  count_task_last_count = 0;
  task_time_real = 0;
  mca_mode = false;
  mca_num_channels = 2048;
  trace = [];
}

fresh-IsKept : IsKept fresh
fresh-IsKept = record { exclusive = refl; ptg_counts = refl; alive = refl }

-- A counter and a pulse train; an acquisition of voltages is refused while they run.
abbrev steps : List (Op ℕ)
steps =
    Op.new_channel_op ChannelType.counter (codes "x") (codes "ctr0")
    ∷ Op.new_channel_op ChannelType.pt_gen (codes "p") (codes "ctr1")
    ∷ Op.start_ci (codes "clk") 5
    ∷ Op.start_ai (codes "clk") 5
    ∷ []

abbrev running : Daq ℕ
running = record fresh {
  channels =
      (codes "p", record { channel_name = codes "ctr1"; type = ChannelType.pt_gen })
      ∷ (codes "x", record { channel_name = codes "ctr0"; type = ChannelType.counter })
      ∷ [];
  count_running = true;
  count_using_ptg = true;
  trace =
      Call.start_task TaskId.ci
      ∷ Call.start_task TaskId.ptg
      ∷ Call.register_event TaskId.ci
      ∷ Call.cfg_samp_clk TaskId.ci (codes "clk") 5 1000
      ∷ Call.cfg_implicit TaskId.ptg 1000
      ∷ Call.create_channel TaskId.ptg ChannelType.pt_gen (codes "ctr1")
      ∷ Call.create_task TaskId.ptg
      ∷ Call.create_channel TaskId.ci ChannelType.counter (codes "ctr0")
      ∷ Call.create_task TaskId.ci
      ∷ Call.spawn Loop.cli
      ∷ Call.spawn Loop.dcs
      ∷ [];
}

stepped : perform_all sound steps fresh ≡ some running
unfolding perform_all perform new_channel in_use insert less_chars same_chars start_ci_acquisition
    start_ai_acquisition begin_ci add_ptg_channel add_counter_channel same_type create attempt
    setup_task_ci setup_task_ptg add_task_channel start start_event_loop
    count_virtual_channels_of_type begin_ai
stepped = refl

perform_all-IsKept_example : IsKept running
perform_all-IsKept_example =
    perform_all-IsKept sound (λ t c. refl) steps fresh running fresh-IsKept stepped

running_distinct : distinct running.channels ≡ true
unfolding distinct in_use same_chars
running_distinct = refl

-- A third channel on the connector of the counter, and the counter deleted.
new_channel-Distinct_example :
    let t = new_channel sound ChannelType.voltage (codes "v") (codes "ctr0") running in
    Distinct t.channels
    × Distinct (delete_channel sound (codes "x") running).channels
    × (((first last : Channels) × (c : VirtualChannel) × (running.channels
            ≡ first ++ (codes "x", c) ∷ last)
          × (delete_channel sound (codes "x") running
              ≡ record running { channels = first ++ last }))
        ⊎ (All (HasOtherName (codes "x")) running.channels
            × (delete_channel sound (codes "x") running ≡ running)))
    × ((All (IsOther (codes "v") (codes "ctr0")) running.channels
          × ((first last : Channels) × (running.channels ≡ first ++ last)
              × (t ≡ record running {
                channels =
                    first
                    ++ (
                      codes "v",
                      record { channel_name = codes "ctr0"; type = ChannelType.voltage },
                    )
                      ∷ last;
              })))
        ⊎ ((¬ All (IsOther (codes "v") (codes "ctr0")) running.channels) × (t ≡ running)))
new_channel-Distinct_example =
    new_channel-Distinct sound ChannelType.voltage (codes "v") (codes "ctr0") (codes "x") running
      (distinct-Distinct running.channels running_distinct)
