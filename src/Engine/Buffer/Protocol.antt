-- ===== src/Engine/Buffer/Protocol.antt =====
-- When a scheduler gets the reply to its command, and when it does not.
use dcscan_modules_api.Prelude.{ℕ, ◌≡◌, refl, true, false, none, some, List, [], ◌∷◌, ◌++◌}
use dcscan_modules_api.Engine.Commands.{Command}
use dcscan_modules_api.Engine.Buffer.{
  CmdBuffer, process, schedule, schedule_then, reply, schedule_return,
}

-- A buffer that nobody uses.
abbrev pub unused : List ℕ → List (ℕ × List ℕ) → CmdBuffer
unused response returned = record {
  queue = [];
  response_buffer = response;
  waiting = [];
  woken = [];
  returned = returned;
}

-- What a run of a scheduler with a command leaves when the service processes it, in between.
abbrev pub asked : ℕ → Command → List ℕ → List (ℕ × List ℕ) → CmdBuffer
asked id command response returned = record (unused response returned) { waiting = id ∷ [] }

-- A command that wants a reply goes to the service. If its scheduler waits before the service replies,
-- it is woken and returns the reply; but if another command, which wants none, is scheduled before it
-- has returned, it returns an empty reply. If the service replies first, nobody is woken, and the
-- scheduler waits with an empty queue.
pub schedule-reply :
    (id other : ℕ) (command quiet : Command) (response before : List ℕ)
    (returned : List (ℕ × List ℕ))
    → command.wait_response ≡ true
    → quiet.wait_response ≡ false
    → let idle = unused before returned in
      let waiting = asked id command before returned in
      (process (schedule command idle) ≡ some (command, idle))
      × (schedule_then id command idle ≡ waiting)
      × (schedule_return (reply response waiting)
          ≡ some (unused response (returned ++ (id, response) ∷ [])))
      × (schedule_return (schedule_then other quiet (schedule quiet (reply response waiting)))
          ≡ some (record (unused [] ((returned ++ (other, []) ∷ []) ++ (id, []) ∷ [])) {
            queue = quiet ∷ [];
          }))
      × (schedule_then id command (reply response idle) ≡ asked id command response returned)
      × (schedule_return (asked id command response returned) ≡ none)
unfolding process schedule schedule_then reply schedule_return
schedule-reply id other command quiet response before returned wants wants_none =
    (refl, rw wants refl, refl, rw wants_none refl, rw wants refl, refl)
