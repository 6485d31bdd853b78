-- ===== src/Acquisition/Channels/Starting.antt =====
-- Starting an acquisition makes what its flags say.
use dcscan_modules_api.Prelude.{
  ℕ, zero, suc, ◌/◌, ◌≡◌, refl, ◌∙◌, inl, inr, Bool, true, false, some, arith, ltb, if◌then◌else◌,
  Bool-cases,
}
use mathlib.Core.Path.{subst}
use dcscan_modules_api.Core.Database.{Chars}
use dcscan_modules_api.Acquisition.Tasks.{
  TaskId, ChannelType, Call, Trace, Ni, create, setup_task_ai, setup_task_ci, start,
  start_event_loop,
}
use dcscan_modules_api.Acquisition.Channels.{
  Daq, count_virtual_channels_of_type, add_voltage_channels, begin_ai, start_ai_acquisition,
  add_counter_channel, add_ptg_channel, begin_ci, start_ci_acquisition, internal_samp_size,
}
use dcscan_modules_api.Acquisition.Channels.Lifecycle.{
  Status, none_alive, status, create-works, setup_task_ai-works, setup_task_ci-works,
  status-add_voltage_channels, status-add_counter_channel, status-add_ptg_channel,
}
use dcscan_modules_api.Acquisition.Channels.Running.{looping, promised, IsKept, idle}

module _ {ℓ} {F : Type ℓ} (ni : Ni F) where
  status-start_event_loop :
      (n : ℕ) (t : Trace F)
      → status t ≡ none_alive
      → status (start_event_loop ni n t).1 ≡ looping (start_event_loop ni n t).0
  unfolding start_event_loop
  status-start_event_loop n t e = elim (Bool-cases (ltb 0 n)) [
    | inl some_channels ↦ rw (some_channels, e) refl
    | inr no_channels ↦ rw (no_channels, e) refl
  ]

  status-started :
      (using mode : Bool) (t : Trace F)
      → status t ≡ record (looping mode) { ci = true; ptg = using }
      → status (start ni TaskId.ci (if using then start ni TaskId.ptg t else t))
        ≡ record (looping mode) { ci = true; ptg = using }
  unfolding start
  status-started true mode t e = rw e refl
  status-started false mode t e = rw e refl

  module _ (works : (t : Trace F) (c : Call F) → ni.fails t c ≡ false) where
    begin_ai-IsKept :
        (clock : Chars) (rate : F) (n : ℕ) (d d' : Daq F)
        → d.voltage_running ≡ false
        → d.count_running ≡ false
        → IsKept d
        → begin_ai ni clock rate n d ≡ some d'
        → IsKept d'
    unfolding begin_ai
    begin_ai-IsKept clock rate zero d d' vr cr v e = cc
    begin_ai-IsKept clock rate (suc n) d d' vr cr v e =
        subst IsKept same
          (record { exclusive = rw cr refl; ptg_counts = v.ptg_counts; alive = finished })
      where
        loops : Bool × Trace F
        loops = start_event_loop ni d.mca_num_channels d.trace

        created : Trace F
        created = create ni TaskId.ai loops.1

        live : Status
        live = record (looping loops.0) { ai = true }

        created_so : status created ≡ live
        created_so =
            rw
              (
                create-works ni works TaskId.ai loops.1,
                status-start_event_loop d.mca_num_channels d.trace (idle d v vr cr).0,
              )
              refl

        added_so : status (add_voltage_channels ni d.channels created) ≡ live
        added_so = status-add_voltage_channels ni works d.channels created live refl refl created_so

        finished :
            status (
              start ni TaskId.ai (
                setup_task_ai ni TaskId.ai clock rate
                  (internal_samp_size / suc n)
                  (add_voltage_channels ni d.channels created)))
            ≡ promised (record d { voltage_running = true; mca_mode = loops.0 })
        finished =
            unfold start in
            rw
              (
                setup_task_ai-works ni works TaskId.ai clock rate (internal_samp_size / suc n)
                    (add_voltage_channels ni d.channels created),
                added_so,
                cr,
                (idle d v vr cr).1,
              )
              refl

        same :
            record d {
              task_time_real = 0;
              voltage_running = true;
              mca_mode = loops.0;
              trace = start ni TaskId.ai (
                  setup_task_ai ni TaskId.ai clock rate
                    (internal_samp_size / suc n)
                    (add_voltage_channels ni d.channels created));
            }
            ≡ d'
        same = cc

    pub start_ai-IsKept :
        (clock : Chars) (rate : F) (d d' : Daq F)
        → IsKept d
        → start_ai_acquisition ni clock rate d ≡ some d'
        → IsKept d'
    unfolding start_ai_acquisition
    start_ai-IsKept clock rate d d' v e = elim (Bool-cases d.count_running) [
      | inl cr ↦ subst IsKept {x = d} {y = d'} (ground (arith, cr)) v
      | inr cr ↦ elim (Bool-cases d.voltage_running) [
        | inl vr ↦
            subst IsKept {x = record d { task_time_real = 0 }} {y = d'} (ground (arith, cr, vr))
              (record { exclusive = v.exclusive; ptg_counts = v.ptg_counts; alive = v.alive })
        | inr vr ↦
            begin_ai-IsKept clock rate
              (count_virtual_channels_of_type ChannelType.voltage d.channels) d d' vr cr v
              (ground arith)
      ]
    ]

    begin_ci-IsKept :
        (clock : Chars) (rate : F) (d : Daq F)
        → d.voltage_running ≡ false
        → d.count_running ≡ false
        → IsKept d
        → IsKept (begin_ci ni clock rate d)
    unfolding begin_ci
    begin_ci-IsKept clock rate d vr cr v = record {
      exclusive = rw vr refl;
      ptg_counts = ground arith;
      alive = status-started pulses.0 loops.0 set_up set_up_so ∙ rw vr refl;
    }
      where
        loops : Bool × Trace F
        loops = start_event_loop ni 0 d.trace

        counting : Trace F
        counting = add_counter_channel ni d.channels (create ni TaskId.ci loops.1)

        live : Status
        live = record (looping loops.0) { ci = true }

        counting_so : status counting ≡ live
        counting_so =
            status-add_counter_channel ni works d.channels (create ni TaskId.ci loops.1) live refl
              refl
              (rw
                (
                  create-works ni works TaskId.ci loops.1,
                  status-start_event_loop 0 d.trace (idle d v vr cr).0,
                )
                refl)

        pulses : Bool × Trace F
        pulses = add_ptg_channel ni rate d.channels (d.count_using_ptg, counting)

        pulses_so : status pulses.1 ≡ record live { ptg = pulses.0 }
        pulses_so =
            rw (idle d v vr cr).1
              (status-add_ptg_channel ni works rate d.channels counting live refl refl counting_so)

        set_up : Trace F
        set_up = setup_task_ci ni TaskId.ci clock rate internal_samp_size pulses.1

        set_up_so : status set_up ≡ record live { ptg = pulses.0 }
        set_up_so =
            rw
              (
                setup_task_ci-works ni works TaskId.ci clock rate internal_samp_size pulses.1,
                pulses_so,
              )
              refl

    pub start_ci-IsKept :
        (clock : Chars) (rate : F) (d : Daq F)
        → IsKept d
        → IsKept (start_ci_acquisition ni clock rate d)
    unfolding start_ci_acquisition
    start_ci-IsKept clock rate d v = elim (Bool-cases d.voltage_running) [
      | inl vr ↦
          subst IsKept {x = d} {y = start_ci_acquisition ni clock rate d} (ground (arith, vr)) v
      | inr vr ↦ elim (Bool-cases d.count_running) [
        | inl cr ↦
            subst IsKept {x = d} {y = start_ci_acquisition ni clock rate d} (ground (arith, vr, cr))
              v
        | inr cr ↦
            subst IsKept {x = begin_ci ni clock rate d} {y = start_ci_acquisition ni clock rate d}
              (ground (arith, vr, cr)) (begin_ci-IsKept clock rate d vr cr v)
      ]
    ]
