-- ===== src/Acquisition/Channels/Kept.antt =====
-- Every sequence of operations keeps the flags true.
use dcscan_modules_api.Prelude.{
  ◌≡◌, inl, inr, false, some, List, [], ◌∷◌, arith, Bool-cases, Option-cases,
}
use mathlib.Core.Path.{subst}
use dcscan_modules_api.Acquisition.Tasks.{Call, Trace, Ni}
use dcscan_modules_api.Acquisition.Channels.{
  Daq, new_channel, delete_channel, in_use, insert, stop_ai_acquisition, start_ci_acquisition,
  stop_ci_acquisition, set_mca_num_channels,
}
use dcscan_modules_api.Acquisition.Channels.Running.{Op, IsKept, perform, perform_all}
use dcscan_modules_api.Acquisition.Channels.Starting.{start_ai-IsKept, start_ci-IsKept}
use dcscan_modules_api.Acquisition.Channels.Stopping.{stop_ai-IsKept, stop_ci-IsKept}

module _ {ℓ} {F : Type ℓ} (ni : Ni F) where
  module _ (works : (t : Trace F) (c : Call F) → ni.fails t c ≡ false) where
    perform-IsKept : (op : Op F) (d d' : Daq F) → IsKept d → perform ni op d ≡ some d' → IsKept d'
    unfolding perform new_channel delete_channel set_mca_num_channels
    perform-IsKept (Op.new_channel_op type name channel_name) d d' v e =
        elim (Bool-cases (in_use name channel_name d.channels)) [
          | inl used ↦ subst IsKept {x = d} {y = d'} (ground (arith, used)) v
          | inr free ↦
              subst IsKept
                {x = record d {
                  channels =
                      insert name (record { channel_name = channel_name; type = type }) d.channels;
                }}
                {y = d'} (ground (arith, free))
                (record { exclusive = v.exclusive; ptg_counts = v.ptg_counts; alive = v.alive })
        ]
    perform-IsKept (Op.delete_op name) d d' v e =
        subst IsKept {x = delete_channel ni name d} {y = d'} (cc)
          (record { exclusive = v.exclusive; ptg_counts = v.ptg_counts; alive = v.alive })
    perform-IsKept (Op.start_ai clock rate) d d' v e = start_ai-IsKept ni works clock rate d d' v e
    perform-IsKept (Op.start_ci clock rate) d d' v e =
        subst IsKept {x = start_ci_acquisition ni clock rate d} {y = d'} (cc)
          (start_ci-IsKept ni works clock rate d v)
    perform-IsKept Op.stop_ai d d' v e =
        subst IsKept {x = stop_ai_acquisition ni d} {y = d'} (cc) (stop_ai-IsKept ni d v)
    perform-IsKept Op.stop_ci d d' v e =
        subst IsKept {x = stop_ci_acquisition ni d} {y = d'} (cc) (stop_ci-IsKept ni d v)
    perform-IsKept (Op.set_mca n) d d' v e =
        subst IsKept {x = set_mca_num_channels ni n d} {y = d'} (cc)
          (record { exclusive = v.exclusive; ptg_counts = v.ptg_counts; alive = v.alive })

    -- Where no call of the driver fails, every sequence of operations that does not fault keeps this:
    -- the two acquisitions do not run together, the pulse train runs only with the count, and what is
    -- alive is what the flags say; no task or thread was created twice, or used when it was not there.
    pub perform_all-IsKept :
        (ops : List (Op F)) (d d' : Daq F) → IsKept d → perform_all ni ops d ≡ some d' → IsKept d'
    unfolding perform_all
    perform_all-IsKept [] d d' v e = subst IsKept {x = d} {y = d'} (cc) v
    perform_all-IsKept (op ∷ ops) d d' v e = elim (Option-cases (perform ni op d)) [
      | inl faulted ↦ absurd (ground (arith, faulted))
      | inr (next, went) ↦
          perform_all-IsKept ops next d' (perform-IsKept op d next v went) (ground (arith, went))
    ]
