-- ===== src/Network/Client.antt =====
-- The client's side of a connection (DCS_Network/src/client.cpp): the log-in, what the decoder thread
-- does with a message, the send thread, and the start and the stop of the threads. The socket, the
-- hash and the cipher and the callbacks of the events are parameters; what is logged is left out.
pub mod Reading
pub mod Calling
pub mod Lifecycle
pub mod Promises
pub mod Admission
pub mod Waiting
mod Tests
use dcscan_modules_api.Prelude.{
  ℕ, zero, suc, ◌+◌, ◌-◌, ◌*◌, ◌/◌, ◌%◌, ◌^◌, ◌≤◌, ◌<◌, min, max, ◌≡◌, refl, sym, ap, ◌∙◌, ◌≢◌, ◌↔◌,
  ◌⊎◌, inl, inr, Bool, true, false, not, ◌&&◌, ◌||◌, Option, none, some, List, [], ◌∷◌, ◌++◌, map,
  append-nil, append_assoc, arith, ltb, leb, ◌==◌, if◌then◌else◌, ltb→lt, lt→ltb, leb→le, le→leb,
  ==_iff, ==_refl, Bool-cases, Option-cases, length, get_elem?, get_or, take, drop, set,
  length-append, length-take, length-drop, take-append-drop, take_exact, drop_exact, take_within,
  take_all, length-map, All,
}
use dcscan_modules_api.Prelude.Words.{le_bytes, le_value, length-le_bytes, le_value-le_bytes}
use dcscan_modules_api.Utils.ByteQueue.{
  ByteQueue, count, Fetched, fetch_next_msg, notify_unblock, notify_restart,
}
use dcscan_modules_api.Network.Message.{
  Message, Memory, InternalOperation, internal_code, bytes_of, wire, decode,
}
use dcscan_modules_api.Network.Calls.{Calls, notify_promise, set_msg_id_condition}
use dcscan_modules_api.Network.Server.{Attempt}

-- The loops that read a fixed number of bytes. `receive n` is a call of `recv` for at most `n` bytes:
-- what it wrote. `none` is the end of the fuel.
module _ {ℓ} {S : Type ℓ} (receive : ℕ → S → List ℕ × S) where
  abbrev pub and_more : List ℕ → Option (List ℕ × S) → Option (List ℕ × S)
  and_more got none = none
  and_more got (some (rest, s)) = some (got ++ rest, s)

  unfoldable pub read_bytes : ℕ → ℕ → S → Option (List ℕ × S)
  read_bytes fuel zero s = some ([], s)
  read_bytes zero (suc n) s = none
  read_bytes (suc fuel) (suc n) s =
      let (got, s') = receive (suc n) s in and_more got (read_bytes fuel (suc n - length got) s')

-- The text up to its terminator, as a `char*` is read.
unfoldable pub c_string : List ℕ → List ℕ
c_string [] = []
c_string (b ∷ bs) = let rest = c_string bs in if b == 0 then [] else b ∷ rest

-- `SHA256Str`, and the text and the tag of `EncryptAES256` under a key and an initial vector.
pub record Cipher : Type 0 where
  pub sha256 : List ℕ → List ℕ
  pub encrypt : List ℕ → List ℕ → List ℕ → List ℕ
  pub tag : List ℕ → List ℕ → List ℕ → List ℕ

-- `strcpy` into an array.
unfoldable pub strcpy : List ℕ → List ℕ → List ℕ
strcpy text array = text ++ 0 ∷ drop (length text + 1) array

-- What `Authenticate` sends once it has the challenge and the initial vector. `garbage` and `user` are
-- the arrays of that name before anything is written to them; `String::size` counts the terminator.
unfoldable pub answer_challenge :
    Cipher → List ℕ → List ℕ → List ℕ → List ℕ → List ℕ → List ℕ → List (List ℕ)
answer_challenge cipher garbage user r iv username password =
    let key = cipher.sha256 password in
    if leb 32 (length username + 1)
    then garbage ∷ []
    else strcpy username user ∷ (cipher.encrypt key r iv ++ cipher.tag key r iv) ∷ []

-- What the server takes from the bytes of the client: the name, 32 bytes, and the answer, 48.
unfoldable pub attempt_of : List ℕ → List ℕ → List ℕ → Attempt
attempt_of r iv bytes = record {
  r = r;
  iv = iv;
  username = c_string (take 32 bytes);
  answer = take 48 (drop 32 bytes);
}

-- The static variables of a client; `E` is what the callbacks of the events change, `sent` what the
-- send thread has sent, `closed` the sockets that were closed.
pub record Client (E : Type 0) : Type 0 where
  pub receive_thread : Bool
  pub send_thread : Bool
  pub running : Bool
  pub conn_valid : ℕ
  pub inbound : ByteQueue
  pub calls : Calls
  pub events : E
  pub sent : List ℕ
  pub closed : List ℕ

abbrev pub c_wait : ℕ
c_wait = 0

abbrev pub c_valid : ℕ
c_valid = 1

abbrev pub c_invalid : ℕ
c_invalid = 2

module _ {E : Type 0} (callback : ℕ → List ℕ → E → E) where
  abbrev pub with_calls : Client E → Option Calls → Option (Client E)
  with_calls c none = none
  with_calls c (some calls) = some (record c { calls = calls })

  -- `*msg.ptr`; `none` is a read past the end.
  abbrev pub on_event : List ℕ → Client E → Option (Client E)
  on_event [] c = none
  on_event (evt_id ∷ bytes) c = some (record c { events = callback evt_id bytes c.events })

  abbrev pub on_validity : List ℕ → Client E → Option (Client E)
  on_validity [] c = none
  on_validity (v ∷ bytes) c =
      some (record c { conn_valid = if v == c_valid then c_valid else c_invalid })

  -- The switch of the decoder thread.
  unfoldable pub dispatch : Message → Client E → Option (Client E)
  dispatch msg c =
      if msg.op == internal_code InternalOperation.async_response
      then with_calls c (notify_promise msg c.calls)
      else if msg.op == internal_code InternalOperation.sync_response
      then some (record c { calls = set_msg_id_condition msg c.calls })
      else if msg.op == internal_code InternalOperation.evt_response
      then on_event (bytes_of msg.ptr) c
      else if msg.op == internal_code InternalOperation.con_valid
      then on_validity (bytes_of msg.ptr) c
      else some c

  -- One round of the decoder thread.
  pub data Round : Type 0 where
    ended : Client E → Round
    again : Client E → Round
    blocked : Round
    fault : Round

  abbrev pub dispatched : Option (Client E) → Round
  dispatched none = Round.fault
  dispatched (some c) = Round.again c

  abbrev pub received : Option Message → Client E → Round
  received none c = Round.fault
  received (some msg) c = dispatched (dispatch msg c)

  abbrev pub fetched : Memory → Fetched → Client E → Round
  fetched memory Fetched.blocked c = Round.blocked
  fetched memory Fetched.nothing c = Round.again c
  fetched memory Fetched.fault c = Round.fault
  fetched memory (Fetched.message packet q) c =
      received (decode memory packet) (record c { inbound = q })

  unfoldable pub decode_round : Memory → Client E → Round
  decode_round memory c =
      if c.running || ltb 0 (count c.inbound)
      then fetched memory (fetch_next_msg c.inbound) c
      else Round.ended c

  abbrev pub send_message : Message → Option (List ℕ) → Client E → Client E
  send_message msg none c = c
  send_message msg (some bytes) c = record c { sent = c.sent ++ wire msg }

  abbrev pub send_first : List Message → Client E → Option (Client E)
  send_first [] c = none
  send_first (msg ∷ msgs) c =
      some (send_message msg msg.ptr (record c { calls = record c.calls { outbound = msgs } }))

  -- One round of the send thread: `none` waits. A message without data is not sent.
  unfoldable pub send_round : Client E → Option (Client E)
  send_round c = send_first c.calls.outbound c

  -- The first half of `StartThread`.
  unfoldable pub start_receiving : Client E → Client E
  start_receiving c =
      if c.receive_thread then c else record c { receive_thread = true; running = true }

  -- The end of the receive thread up to the join of the decoder, and what follows the join.
  unfoldable pub hang_up : Client E → Client E
  hang_up c = record c { running = false; conn_valid = c_wait; inbound = notify_unblock c.inbound }

  unfoldable pub after_join : Client E → Client E
  after_join c = record c { inbound = notify_restart c.inbound }

  -- The join of the receive thread: `none` where it does not return. Once `hang_up` was done the decoder
  -- ends at the test of its loop if the buffer is empty, and else fetches nothing in every round. `woken`
  -- is that it sees the wake-up of `hang_up`, which takes no lock: one that comes between the test of the
  -- flag and the wait is lost, and then the decoder waits for ever.
  unfoldable pub join_receive_thread : Bool → Client E → Option (Client E)
  unfolding after_join hang_up
  join_receive_thread woken c =
      if ltb 0 (count c.inbound) || not woken
      then none
      else some (record (after_join (hang_up c)) { receive_thread = false })

  unfoldable pub close_connection : ℕ → Client E → Client E
  close_connection socket c = record c { closed = c.closed ++ socket ∷ [] }

  abbrev pub not_started : Option (Client E) → Option (Bool × Client E)
  not_started none = none
  not_started (some c) = some (false, c)

  -- The second half of `StartThread`: `none` goes on waiting, for the server's word or in the join.
  unfoldable pub start_sending : Bool → ℕ → Client E → Option (Bool × Client E)
  start_sending woken socket c =
      if c.send_thread
      then some (true, c)
      else if c.conn_valid == c_wait
      then none
      else if c.conn_valid == c_invalid
      then not_started (join_receive_thread woken (close_connection socket c))
      else some (true, record c { send_thread = true })

  -- `StopThread`; `none` where a join does not return.
  unfoldable pub stop_receiving : Bool → ℕ → Client E → Option (Client E)
  stop_receiving woken socket c =
      if c.receive_thread
      then join_receive_thread woken (if c.running then close_connection socket c else c)
      else some c

  -- The join of the send thread. `sender_woken` is that this thread waits in `pop` when `notify_unblock` is
  -- called, or tests `client_running` later: a wake-up that comes between that test and the wait is lost.
  abbrev pub join_send_thread : Bool → Option (Client E) → Option (Client E)
  join_send_thread sender_woken none = none
  join_send_thread sender_woken (some c) =
      if c.send_thread && not sender_woken then none else some (record c { send_thread = false })

  unfoldable pub stop_thread : Bool → Bool → ℕ → Client E → Option (Client E)
  stop_thread woken sender_woken socket c =
      join_send_thread sender_woken (stop_receiving woken socket c)
