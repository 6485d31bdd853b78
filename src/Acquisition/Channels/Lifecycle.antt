-- ===== src/Acquisition/Channels/Lifecycle.antt =====
-- What a sequence of driver calls leaves alive, and whether every call was made on something alive.
use dcscan_modules_api.Prelude.{
  ℕ, ◌≡◌, refl, inl, inr, Bool, true, false, not, ◌&&◌, ◌||◌, [], ◌∷◌, arith, Bool-cases,
}
use dcscan_modules_api.Core.Database.{Chars}
use dcscan_modules_api.Acquisition.Tasks.{
  TaskId, ChannelType, Loop, Call, Trace, Ni, attempt, clipped, create, setup_task_ai,
  setup_task_ci, setup_task_ptg, add_task_channel,
}
use dcscan_modules_api.Acquisition.Channels.{
  Channels, same_type, add_voltage_channels, add_counter_channel, add_ptg_channel,
}

-- The tasks and threads that are alive; `orderly` says that nothing was created twice, and that
-- nothing was used, cleared or joined that was not there.
pub record Status : Type 0 where
  pub ai : Bool
  pub ci : Bool
  pub ptg : Bool
  pub dcs : Bool
  pub mca : Bool
  pub cli : Bool
  pub orderly : Bool

abbrev pub none_alive : Status
none_alive = record {
  ai = false;
  ci = false;
  ptg = false;
  dcs = false;
  mca = false;
  cli = false;
  orderly = true;
}

abbrev set_task : TaskId → Bool → Status → Status
set_task TaskId.ai b s = record s { ai = b; orderly = s.orderly && not (s.ai && b) && (s.ai || b) }
set_task TaskId.ci b s = record s { ci = b; orderly = s.orderly && not (s.ci && b) && (s.ci || b) }
set_task TaskId.ptg b s = record s {
  ptg = b;
  orderly = s.orderly && not (s.ptg && b) && (s.ptg || b);
}

abbrev use_task : TaskId → Status → Status
use_task TaskId.ai s = record s { orderly = s.orderly && s.ai }
use_task TaskId.ci s = record s { orderly = s.orderly && s.ci }
use_task TaskId.ptg s = record s { orderly = s.orderly && s.ptg }

abbrev set_loop : Loop → Bool → Status → Status
set_loop Loop.dcs b s = record s {
  dcs = b;
  orderly = s.orderly && not (s.dcs && b) && (s.dcs || b);
}
set_loop Loop.mca b s = record s {
  mca = b;
  orderly = s.orderly && not (s.mca && b) && (s.mca || b);
}
set_loop Loop.cli b s = record s {
  cli = b;
  orderly = s.orderly && not (s.cli && b) && (s.cli || b);
}

module _ {ℓ} {F : Type ℓ} where
  abbrev pub after : Call F → Status → Status
  after (Call.create_task k) s = set_task k true s
  after (Call.clear_task k) s = set_task k false s
  after (Call.create_channel k type name) s = use_task k s
  after (Call.get_max_rate k) s = use_task k s
  after (Call.cfg_samp_clk k source rate n) s = use_task k s
  after (Call.cfg_implicit k n) s = use_task k s
  after (Call.register_event k) s = use_task k s
  after (Call.start_task k) s = use_task k s
  after (Call.stop_task k) s = use_task k s
  after (Call.spawn l) s = set_loop l true s
  after (Call.join l) s = set_loop l false s

  abbrev pub status : Trace F → Status
  status [] = none_alive
  status (c ∷ t) = after c (status t)

  module _ (ni : Ni F) (works : (t : Trace F) (c : Call F) → ni.fails t c ≡ false) where
    attempt-works : (k : TaskId) (c : Call F) (t : Trace F) → attempt ni k c t ≡ (true, c ∷ t)
    unfolding attempt
    attempt-works k c t = rw (works t c) refl

    pub create-works : (k : TaskId) (t : Trace F) → create ni k t ≡ Call.create_task k ∷ t
    unfolding create
    create-works k t = rw (attempt-works k (Call.create_task k) t) refl

    pub setup_task_ai-works :
        (k : TaskId) (source : Chars) (clk : F) (n : ℕ) (t : Trace F)
        → setup_task_ai ni k source clk n t
          ≡ Call.register_event k
            ∷ Call.cfg_samp_clk k source (clipped ni clk) n
            ∷ Call.get_max_rate k
            ∷ t
    unfolding setup_task_ai
    setup_task_ai-works k source clk n t =
        rw
          (
            attempt-works k (Call.get_max_rate k) t,
            attempt-works k (Call.cfg_samp_clk k source (clipped ni clk) n)
                (Call.get_max_rate k ∷ t),
            attempt-works k (Call.register_event k)
                (Call.cfg_samp_clk k source (clipped ni clk) n ∷ Call.get_max_rate k ∷ t),
          )
          refl

    pub setup_task_ci-works :
        (k : TaskId) (source : Chars) (clk : F) (n : ℕ) (t : Trace F)
        → setup_task_ci ni k source clk n t
          ≡ Call.register_event k ∷ Call.cfg_samp_clk k source clk n ∷ t
    unfolding setup_task_ci
    setup_task_ci-works k source clk n t =
        rw
          (
            attempt-works k (Call.cfg_samp_clk k source clk n) t,
            attempt-works k (Call.register_event k) (Call.cfg_samp_clk k source clk n ∷ t),
          )
          refl

    setup_task_ptg-works :
        (k : TaskId) (n : ℕ) (t : Trace F) → setup_task_ptg ni k n t ≡ Call.cfg_implicit k n ∷ t
    unfolding setup_task_ptg
    setup_task_ptg-works k n t = rw (attempt-works k (Call.cfg_implicit k n) t) refl

    -- Adding a channel to a task that is alive changes nothing that is watched here.
    status-add_ai :
        (name : Chars) (t : Trace F) (s : Status)
        → s.ai ≡ true
        → s.orderly ≡ true
        → status t ≡ s
        → status (add_task_channel ni TaskId.ai name ChannelType.voltage ni.zero_f t) ≡ s
    unfolding add_task_channel
    status-add_ai name t s alive ok e =
        rw (attempt-works TaskId.ai (Call.create_channel TaskId.ai ChannelType.voltage name) t, e)
          (ground (arith, alive, ok))

    pub status-add_voltage_channels :
        (cs : Channels) (t : Trace F) (s : Status)
        → s.ai ≡ true
        → s.orderly ≡ true
        → status t ≡ s
        → status (add_voltage_channels ni cs t) ≡ s
    unfolding add_voltage_channels
    status-add_voltage_channels [] t s alive ok e = e
    status-add_voltage_channels ((name, c) ∷ cs) t s alive ok e =
        elim (Bool-cases (same_type c.type ChannelType.voltage)) [
          | inl is_voltage ↦ rw is_voltage (
              status-add_voltage_channels cs _ s alive ok
                (status-add_ai c.channel_name t s alive ok e))
          | inr other ↦ rw other (status-add_voltage_channels cs t s alive ok e)
        ]

    pub status-add_counter_channel :
        (cs : Channels) (t : Trace F) (s : Status)
        → s.ci ≡ true
        → s.orderly ≡ true
        → status t ≡ s
        → status (add_counter_channel ni cs t) ≡ s
    unfolding add_counter_channel add_task_channel
    status-add_counter_channel [] t s alive ok e = e
    status-add_counter_channel ((name, c) ∷ cs) t s alive ok e =
        elim (Bool-cases (same_type c.type ChannelType.counter)) [
          | inl is_counter ↦
              rw
                (
                  is_counter,
                  attempt-works TaskId.ci
                      (Call.create_channel TaskId.ci ChannelType.counter c.channel_name) t,
                  e,
                )
                (ground (arith, alive, ok))
          | inr other ↦ rw other (status-add_counter_channel cs t s alive ok e)
        ]

    -- The task of the pulse train is alive exactly where the flag says that it is in use.
    pub status-add_ptg_channel :
        (rate : F) (cs : Channels) (t : Trace F) (s : Status)
        → s.ptg ≡ false
        → s.orderly ≡ true
        → status t ≡ s
        → let (using, t') = add_ptg_channel ni rate cs (false, t) in
          status t' ≡ record s { ptg = using }
    unfolding add_ptg_channel add_task_channel
    status-add_ptg_channel rate [] t s dead ok e = ground (arith, e, dead)
    status-add_ptg_channel rate ((name, c) ∷ cs) t s dead ok e =
        elim (Bool-cases (same_type c.type ChannelType.pt_gen)) [
          | inl is_ptg ↦ elim (Bool-cases (ni.le rate ni.zero_f)) [
            | inl none_made ↦
                rw
                  (
                    is_ptg,
                    none_made,
                    create-works TaskId.ptg t,
                    setup_task_ptg-works TaskId.ptg 1000 (Call.create_task TaskId.ptg ∷ t),
                    e,
                  )
                  (ground (arith, dead, ok))
            | inr made ↦
                rw
                  (
                    is_ptg,
                    made,
                    create-works TaskId.ptg t,
                    attempt-works TaskId.ptg
                        (Call.create_channel TaskId.ptg ChannelType.pt_gen c.channel_name)
                        (Call.create_task TaskId.ptg ∷ t),
                    setup_task_ptg-works TaskId.ptg 1000 (
                        Call.create_channel TaskId.ptg ChannelType.pt_gen c.channel_name
                        ∷ Call.create_task TaskId.ptg
                        ∷ t),
                    e,
                  )
                  (ground (arith, dead, ok))
          ]
          | inr other ↦ rw other (status-add_ptg_channel rate cs t s dead ok e)
        ]
