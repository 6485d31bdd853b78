-- ===== src/Engine/Buffer.antt =====
-- `CmdBuffer` (DCS_EngineControl/include/internal.h), between the threads that schedule commands and the
-- service that sends them. A call is cut where it waits; a scheduler is known by its number.
pub mod Protocol
use dcscan_modules_api.Prelude.{
  ℕ, zero, suc, ◌+◌, ◌-◌, ◌*◌, ◌/◌, ◌%◌, ◌^◌, ◌≤◌, ◌<◌, min, max, ◌≡◌, refl, sym, ap, ◌∙◌, ◌≢◌, ◌↔◌,
  ◌⊎◌, inl, inr, Bool, true, false, not, ◌&&◌, ◌||◌, Option, none, some, List, [], ◌∷◌, ◌++◌, map,
  append-nil, append_assoc, arith, ltb, leb, ◌==◌, if◌then◌else◌, ltb→lt, lt→ltb, leb→le, le→leb,
  ==_iff, ==_refl, Bool-cases, Option-cases, length, get_elem?, get_or, take, drop, set,
  length-append, length-take, length-drop, take-append-drop, take_exact, drop_exact, take_within,
  take_all, length-map, All,
}
use dcscan_modules_api.Prelude.Words.{le_bytes, le_value, length-le_bytes, le_value-le_bytes}
use dcscan_modules_api.Engine.Commands.{Command}

-- `waiting` are the schedulers that wait on `cr`, `woken` those that were notified and have not yet
-- returned, and `returned` what the others returned.
pub record CmdBuffer : Type 0 where
  pub queue : List Command
  pub response_buffer : List ℕ
  pub waiting : List ℕ
  pub woken : List ℕ
  pub returned : List (ℕ × List ℕ)

abbrev pub front : List Command → Option (Command × List Command)
front [] = none
front (c ∷ queue) = some (c, queue)

abbrev pub taken : CmdBuffer → Option (Command × List Command) → Option (Command × CmdBuffer)
taken b none = none
taken b (some (c, queue)) = some (c, record b { queue = queue })

-- `process`: `none` waits for a command.
unfoldable pub process : CmdBuffer → Option (Command × CmdBuffer)
process b = taken b (front b.queue)

-- `process` after a wake-up for nothing; `unset` is the command without arguments.
abbrev pub or_default : Command → CmdBuffer → Option (Command × CmdBuffer) → Command × CmdBuffer
or_default unset b none = (unset, b)
or_default unset b (some r) = r

unfoldable pub process_woken : Command → CmdBuffer → Command × CmdBuffer
process_woken unset b = or_default unset b (process b)

-- `schedule` up to the wait: the push.
unfoldable pub schedule : Command → CmdBuffer → CmdBuffer
schedule value b = record b { queue = b.queue ++ value ∷ [] }

-- What `schedule` does after the push: it waits, or empties the response and returns.
unfoldable pub schedule_then : ℕ → Command → CmdBuffer → CmdBuffer
schedule_then id value b =
    if value.wait_response
    then record b { waiting = b.waiting ++ id ∷ [] }
    else record b { response_buffer = []; returned = b.returned ++ (id, []) ∷ [] }

-- `notify_one` on `cr`, which wakes the one that has waited longest, if any.
abbrev pub wake : List ℕ → CmdBuffer → CmdBuffer
wake [] b = b
wake (id ∷ ids) b = record b { waiting = ids; woken = b.woken ++ id ∷ [] }

unfoldable pub reply : List ℕ → CmdBuffer → CmdBuffer
reply response b = wake b.waiting (record b { response_buffer = response })

-- A scheduler that was woken returns; `none` where it has not been.
abbrev pub resumed : List ℕ → CmdBuffer → Option CmdBuffer
resumed [] b = none
resumed (id ∷ ids) b =
    some (record b { woken = ids; returned = b.returned ++ (id, b.response_buffer) ∷ [] })

unfoldable pub schedule_return : CmdBuffer → Option CmdBuffer
schedule_return b = resumed b.woken b

unfoldable pub size : CmdBuffer → ℕ
size b = length b.queue
