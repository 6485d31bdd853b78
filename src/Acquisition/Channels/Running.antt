-- ===== src/Acquisition/Channels/Running.antt =====
-- The flags of the acquisitions, and what they say is alive.
use dcscan_modules_api.Prelude.{
  ℕ, ◌≡◌, refl, ◌∙◌, Bool, true, false, not, ◌&&◌, ◌||◌, Option, none, some, List, [], ◌∷◌, arith,
}
use dcscan_modules_api.Core.Database.{Chars}
use dcscan_modules_api.Acquisition.Tasks.{ChannelType, Ni}
use dcscan_modules_api.Acquisition.Channels.{
  Daq, new_channel, delete_channel, start_ai_acquisition, stop_ai_acquisition, start_ci_acquisition,
  stop_ci_acquisition, set_mca_num_channels,
}
use dcscan_modules_api.Acquisition.Channels.Lifecycle.{Status, none_alive, status}

-- What a client asks for.
pub data Op {ℓ} (F : Type ℓ) : Type ℓ where
  new_channel_op : ChannelType → Chars → Chars → Op F
  delete_op : Chars → Op F
  start_ai start_ci : Chars → F → Op F
  stop_ai stop_ci : Op F
  set_mca : ℕ → Op F

-- The threads run, and no task is alive.
abbrev pub looping : Bool → Status
looping mode = record none_alive { dcs = true; cli = true; mca = mode }

module _ {ℓ} {F : Type ℓ} where
  -- What the flags say is alive.
  abbrev pub promised : Daq F → Status
  promised d =
      let running = d.voltage_running || d.count_running in
      record {
        ai = d.voltage_running;
        ci = d.count_running;
        ptg = d.count_using_ptg;
        dcs = running;
        mca = running && d.mca_mode;
        cli = running;
        orderly = true;
      }

  pub record IsKept (d : Daq F) : Type 0 where
    pub exclusive : (d.voltage_running && d.count_running) ≡ false
    pub ptg_counts : (d.count_using_ptg && not d.count_running) ≡ false
    pub alive : status d.trace ≡ promised d

  module _ (ni : Ni F) where
    unfoldable pub perform : Op F → Daq F → Option (Daq F)
    perform (Op.new_channel_op type name channel_name) d =
        some (new_channel ni type name channel_name d)
    perform (Op.delete_op name) d = some (delete_channel ni name d)
    perform (Op.start_ai clock rate) d = start_ai_acquisition ni clock rate d
    perform (Op.start_ci clock rate) d = some (start_ci_acquisition ni clock rate d)
    perform Op.stop_ai d = some (stop_ai_acquisition ni d)
    perform Op.stop_ci d = some (stop_ci_acquisition ni d)
    perform (Op.set_mca n) d = some (set_mca_num_channels ni n d)

    unfoldable pub perform_all : List (Op F) → Daq F → Option (Daq F)
    perform_all [] d = some d
    perform_all (op ∷ ops) d = elim (perform op d) [ none ↦ none | some d' ↦ perform_all ops d' ]

  pub idle :
      (d : Daq F)
      → IsKept d
      → d.voltage_running ≡ false
      → d.count_running ≡ false
      → (status d.trace ≡ none_alive) × (d.count_using_ptg ≡ false)
  idle d v vr cr =
      let up : d.count_using_ptg ≡ false = ground (arith, v.ptg_counts, cr) in
      (v.alive ∙ rw (vr, cr, up) refl, up)
