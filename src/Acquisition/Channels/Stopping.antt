-- ===== src/Acquisition/Channels/Stopping.antt =====
-- Stopping an acquisition leaves nothing of it alive.
use dcscan_modules_api.Prelude.{
  ◌≡◌, refl, ◌∙◌, inl, inr, Bool, true, false, ◌∷◌, arith, if◌then◌else◌, Bool-cases,
}
use mathlib.Core.Path.{subst}
use dcscan_modules_api.Acquisition.Tasks.{TaskId, Call, Trace, Ni, stop, clear, stop_event_loop}
use dcscan_modules_api.Acquisition.Channels.{Daq, stop_ai_acquisition, stop_ci_acquisition}
use dcscan_modules_api.Acquisition.Channels.Lifecycle.{none_alive, status}
use dcscan_modules_api.Acquisition.Channels.Running.{looping, IsKept}

module _ {ℓ} {F : Type ℓ} (ni : Ni F) where
  status-stop_event_loop :
      (mode : Bool) (t : Trace F)
      → status t ≡ looping mode
      → status (stop_event_loop ni mode t) ≡ none_alive
  unfolding stop_event_loop
  status-stop_event_loop true t e = rw e refl
  status-stop_event_loop false t e = rw e refl

  status-cleared :
      (using mode : Bool) (t : Trace F)
      → status t ≡ record (looping mode) { ci = true; ptg = using }
      → (let stopped = stop ni TaskId.ci t in
          let all_stopped = if using then stop ni TaskId.ptg stopped else stopped in
          let cleared = clear ni TaskId.ci all_stopped in
          status (if using then clear ni TaskId.ptg cleared else cleared) ≡ looping mode)
  unfolding stop clear
  status-cleared true mode t e = rw e refl
  status-cleared false mode t e = rw e refl

  pub stop_ai-IsKept : (d : Daq F) → IsKept d → IsKept (stop_ai_acquisition ni d)
  unfolding stop_ai_acquisition stop clear
  stop_ai-IsKept d v = elim (Bool-cases d.voltage_running) [
    | inl vr ↦
        subst IsKept
          {x = record d {
            voltage_running = false;
            trace = stop_event_loop ni d.mca_mode (clear ni TaskId.ai (stop ni TaskId.ai d.trace));
          }}
          {y = stop_ai_acquisition ni d} (ground (arith, vr))
          (record {
            exclusive = refl;
            ptg_counts = v.ptg_counts;
            alive =
                status-stop_event_loop d.mca_mode
                  (Call.clear_task TaskId.ai ∷ Call.stop_task TaskId.ai ∷ d.trace)
                  (rw (running vr) refl)
                ∙ rw (not_counting vr, no_ptg vr) refl;
          })
    | inr vr ↦ subst IsKept {x = d} {y = stop_ai_acquisition ni d} (ground (arith, vr)) v
  ]
    where
      not_counting : d.voltage_running ≡ true → d.count_running ≡ false
      not_counting vr = ground (arith, vr, v.exclusive)

      no_ptg : d.voltage_running ≡ true → d.count_using_ptg ≡ false
      no_ptg vr = ground (arith, not_counting vr, v.ptg_counts)

      running :
          d.voltage_running ≡ true → status d.trace ≡ record (looping d.mca_mode) { ai = true }
      running vr = v.alive ∙ rw (vr, not_counting vr, no_ptg vr) refl

  pub stop_ci-IsKept : (d : Daq F) → IsKept d → IsKept (stop_ci_acquisition ni d)
  unfolding stop_ci_acquisition stop clear
  stop_ci-IsKept d v = elim (Bool-cases d.count_running) [
    | inl cr ↦
        subst IsKept
          {x = record d {
            count_running = false;
            count_using_ptg = false;
            trace = stop_event_loop ni d.mca_mode all_cleared;
          }}
          {y = stop_ci_acquisition ni d} (ground (arith, cr))
          (record {
            exclusive = ground arith;
            ptg_counts = refl;
            alive =
                status-stop_event_loop d.mca_mode all_cleared
                  (status-cleared d.count_using_ptg d.mca_mode d.trace (running cr))
                ∙ rw (no_voltage cr) refl;
          })
    | inr cr ↦ subst IsKept {x = d} {y = stop_ci_acquisition ni d} (ground (arith, cr)) v
  ]
    where
      all_cleared : Trace F
      all_cleared =
          let stopped = stop ni TaskId.ci d.trace in
          let all_stopped = if d.count_using_ptg then stop ni TaskId.ptg stopped else stopped in
          let cleared = clear ni TaskId.ci all_stopped in
          if d.count_using_ptg then clear ni TaskId.ptg cleared else cleared

      no_voltage : d.count_running ≡ true → d.voltage_running ≡ false
      no_voltage cr = ground (arith, cr, v.exclusive)

      running :
          d.count_running ≡ true
          → status d.trace ≡ record (looping d.mca_mode) { ci = true; ptg = d.count_using_ptg }
      running cr = v.alive ∙ rw (cr, no_voltage cr) refl
