-- ===== src/Acquisition/Encoder/Setup.antt =====
-- The set-up of the box.
use dcscan_modules_api.Prelude.{
  ℕ, zero, suc, ◌+◌, ◌/◌, ◌%◌, ◌^◌, ◌≤◌, ◌<◌, ◌≡◌, ◌⊎◌, Bool, none, some, List, [], ◌∷◌, ◌++◌, ◌==◌,
  if◌then◌else◌,
}
use dcscan_modules_api.Prelude.Attempts.{NoneFails, Stops}
use dcscan_modules_api.Acquisition.Encoder.{Call, open_calls, axes_calls}

-- The index in `packet` that a call writes.
abbrev pub index_of : Call → ℕ
index_of (Call.add_data_packet_section k region) = k
index_of c = 0

-- Where in `axis` and `regions` a call reads.
abbrev pub axis_of : Call → ℕ
axis_of (Call.init_axis i) = i
axis_of (Call.set_timestamp i) = i
axis_of (Call.add_data_packet_section k (some i)) = i
axis_of (Call.axis_trigger_source i) = i
axis_of c = 0

-- How many elements of `packet` a call reads.
abbrev pub packets_read : Call → ℕ
packets_read (Call.config_data_packet n) = n
packets_read c = 0

-- A call that stays inside the arrays of five and four elements.
abbrev pub IsInside : Call → Type 0
IsInside c = (index_of c < 5) × (axis_of c < 4) × (packets_read c ≤ 5)

abbrev pub adds : Call → ℕ
adds (Call.add_data_packet_section k region) = 1
adds c = 0

-- How many sections are added to the packet.
abbrev pub sections : List Call → ℕ
sections [] = 0
sections (c ∷ cs) = adds c + sections cs

-- The bit of an axis, and how many of the axes before it are in use.
abbrev pub used : ℕ → ℕ → Bool
used axes i = (axes / 2 ^ i) % 2 == 1

abbrev pub below : ℕ → ℕ → ℕ
below axes zero = 0
below axes (suc i) = below axes i + (if used axes i then 1 else 0)

-- What is to be called for an axis: its section follows the global one and those of the axes before it.
abbrev pub axis_plan : ℕ → ℕ → ℕ → List Call
axis_plan axes i zero = []
axis_plan axes i (suc n) =
    (if used axes i
      then Call.init_axis i
        ∷ Call.set_timestamp i
        ∷ Call.add_data_packet_section (suc (below axes i)) (some i)
        ∷ Call.axis_trigger_source i
        ∷ []
      else [])
    ++ axis_plan axes (i + 1) n

-- What is to be called before the packet is configured.
abbrev pub setup_plan : ℕ → ℕ → List Call
setup_plan num_axes axes =
    Call.get_host_ip
    ∷ Call.open_eib
    ∷ Call.get_axis
    ∷ Call.get_timestamp_ticks
    ∷ Call.set_timestamp_period
    ∷ Call.add_data_packet_section 0 none
    ∷ Call.get_timer_trigger_ticks
    ∷ Call.set_timer_trigger_period
    ∷ Call.master_trigger_source
    ∷ axis_plan axes 0 num_axes

module _ (fails : List Call → Call → Bool) where
  -- An outcome of the calls `cs` and then, if none of them fails, `later`.
  record Outcome (cs later : List Call) (axes old inited : ℕ) (made : List Call) : Type 0 where
    rest : List Call
    split : cs ++ later ≡ made ++ rest
    stops : Stops fails [] made
    axes_kept : (inited ≡ old) ⊎ ((inited ≡ axes) × NoneFails fails [] cs)

  -- The calls of the code.
  abbrev made_plan : ℕ → ℕ → List Call
  made_plan num_axes axes =
      let calls = open_calls ++ (axes_calls axes 1 0 num_axes).0 in
      calls ++ Call.config_data_packet (sections calls) ∷ Call.select_mode ∷ []

  -- The calls of a set-up for a box with `num_axes` axes; the packet is configured with as many sections
  -- as were added to it.
  abbrev pub plan : ℕ → ℕ → List Call
  plan num_axes axes =
      let calls = setup_plan num_axes axes in
      calls ++ Call.config_data_packet (sections calls) ∷ Call.select_mode ∷ []
