-- ===== src/Network/Server.antt =====
-- The server's side of a connection (DCS_Network/src/server.cpp): the log-in, the one client at a time,
-- and what the decoder thread does with a message. The cipher, the users of the database and the
-- registry of functions, which is generated, are parameters; logging and waiting are left out.
pub mod Packets
pub mod Login
pub mod Replies
use dcscan_modules_api.Prelude.{
  ℕ, zero, suc, ◌+◌, ◌-◌, ◌*◌, ◌/◌, ◌%◌, ◌^◌, ◌≤◌, ◌<◌, min, max, ◌≡◌, refl, sym, ap, ◌∙◌, ◌≢◌, ◌↔◌,
  ◌⊎◌, inl, inr, Bool, true, false, not, ◌&&◌, ◌||◌, Option, none, some, List, [], ◌∷◌, ◌++◌, map,
  append-nil, append_assoc, arith, ltb, leb, ◌==◌, if◌then◌else◌, ltb→lt, lt→ltb, leb→le, le→leb,
  ==_iff, ==_refl, Bool-cases, Option-cases, length, get_elem?, get_or, take, drop, set,
  length-append, length-take, length-drop, take-append-drop, take_exact, drop_exact, take_within,
  take_all, length-map, All,
}
use dcscan_modules_api.Prelude.Words.{le_bytes, le_value, length-le_bytes, le_value-le_bytes}
use dcscan_modules_api.Network.Message.{
  Message, Memory, alloc, set_copy_id, bytes_of, message_xtra_space, InternalOperation,
  internal_code,
}

-- The static variables that a connection changes: whether the two threads exist, `server_running`,
-- `server_client_sock`, and the authenticated user. `sent` are the bytes sent to each
-- socket, the first ones first, and `closed` the sockets that were closed.
pub record Server : Type 0 where
  pub receive_thread : Bool
  pub send_thread : Bool
  pub running : Bool
  pub client : Option ℕ
  pub username : Option (List ℕ)
  pub sent : List (ℕ × List ℕ)
  pub closed : List ℕ

unfoldable pub send_data : ℕ → List ℕ → Server → Server
send_data socket bytes s = record s { sent = s.sent ++ (socket, bytes) ∷ [] }

-- The text with its terminator, in a packet with the id 0.
unfoldable pub send_error_to_client : ℕ → List ℕ → Server → Server
send_error_to_client socket text s =
    let bytes = text ++ 0 ∷ [] in
    send_data socket bytes (
      send_data socket (le_bytes 8 0) (
        send_data socket (internal_code InternalOperation.op_error ∷ [])
          (send_data socket (le_bytes 4 ((length bytes + message_xtra_space) % 2 ^ 32)) s)))

unfoldable pub issue_validity : ℕ → ℕ → Server → Server
issue_validity socket validity s = send_data socket (validity ∷ []) (
    send_data socket (le_bytes 8 0) (
      send_data socket (internal_code InternalOperation.con_valid ∷ [])
        (send_data socket (le_bytes 4 (1 + message_xtra_space)) s)))

-- `GetUser`, which is `none` for `INVALID_USER`, and the cipher: key, text and initial vector.
pub record Credentials : Type 0 where
  pub get_user : List ℕ → Option (List ℕ)
  pub encrypt : List ℕ → List ℕ → List ℕ → List ℕ

-- The challenge, the initial vector, and what the client sends back.
pub record Attempt : Type 0 where
  pub r : List ℕ
  pub iv : List ℕ
  pub username : List ℕ
  pub answer : List ℕ

-- The loop over the first `n` bytes of two arrays. Both have `n`; fewer bytes are not an array here.
unfoldable pub same_bytes : ℕ → List ℕ → List ℕ → Bool
same_bytes zero xs ys = true
same_bytes (suc n) [] ys = false
same_bytes (suc n) (x ∷ xs) [] = false
same_bytes (suc n) (x ∷ xs) (y ∷ ys) =
    let rest = same_bytes n xs ys in if x == y then rest else false

abbrev pub refuse : ℕ → List ℕ → Server → Bool × Server
refuse socket text s = (false, issue_validity socket 2 (send_error_to_client socket text s))

module _ (credentials : Credentials) (refusal : List ℕ) where
  abbrev pub check_answer : ℕ → Attempt → Option (List ℕ) → Server → Bool × Server
  check_answer socket a none s = refuse socket refusal s
  check_answer socket a (some key) s =
      if same_bytes 32 (credentials.encrypt key a.r a.iv) a.answer
      then (true, record s { username = some a.username })
      else refuse socket refusal s

  -- `Authenticate`; `refusal` is its text. The log entry of a success is left out.
  unfoldable pub authenticate : ℕ → Attempt → Server → Bool × Server
  authenticate socket a s =
      check_answer socket a (credentials.get_user a.username)
        (send_data socket a.iv (send_data socket a.r s))

  -- `shutdown` and `CloseSocketConnection`
  unfoldable pub close_socket : ℕ → Server → Server
  close_socket socket s = record s { closed = s.closed ++ socket ∷ [] }

  unfoldable pub start_send_thread : Server → Bool × Server
  start_send_thread s =
      if s.send_thread then (false, s) else (true, record s { send_thread = true })

  abbrev pub admitted : ℕ → Bool × Server → Bool × Server
  admitted socket (false, s) = (false, close_socket socket s)
  admitted socket (true, s) = start_send_thread (
      issue_validity socket 1
        (record s { client = some socket; running = true; receive_thread = true }))

  -- `StartThread` on a valid socket; `busy` and `wait_for` are the two texts for a second client.
  unfoldable pub start_thread : List ℕ → List ℕ → ℕ → Attempt → Server → Bool × Server
  start_thread busy wait_for socket a s =
      if s.receive_thread
      then (
        false,
        close_socket socket (
            issue_validity socket 2
              (send_error_to_client socket wait_for (send_error_to_client socket busy s))),
      )
      else admitted socket (authenticate socket a s)

-- The generated registry: a call with its parameters, and the events.
pub record Registry (R : Type 0) : Type 0 where
  pub execute : List ℕ → R → List ℕ × R
  pub sv_return_size : ℕ
  pub set_event : ℕ → R → R
  pub unset_event : ℕ → R → R

pub record Host (R : Type 0) : Type 0 where
  pub registry : R
  pub outbound : List Message

module _ {R : Type 0} (registry : Registry R) (memory : Memory) where
  abbrev pub queued : ℕ → ℕ → List ℕ → Option Message → Host R → Option (Host R)
  queued code id bytes none h = none
  queued code id bytes (some dm) h =
      some (record h { outbound = h.outbound ++ set_copy_id code id bytes dm ∷ [] })

  -- `Execute`, and the reply with the id of the request.
  unfoldable pub respond : ℕ → Message → Host R → Option (Host R)
  respond code msg h =
      let (r, after) = registry.execute (bytes_of msg.ptr) h.registry in
      queued code msg.id r (alloc memory (registry.sv_return_size + message_xtra_space))
        (record h { registry = after })

  -- `*msg.ptr`; `none` is a read past the end.
  abbrev pub on_event : (ℕ → R → R) → List ℕ → Host R → Option (Host R)
  on_event f [] h = none
  on_event f (event ∷ bytes) h = some (record h { registry = f event h.registry })

  -- The switch of the decoder thread.
  unfoldable pub handle : Message → Host R → Option (Host R)
  handle msg h =
      if msg.op == internal_code InternalOperation.async_request
      then respond (internal_code InternalOperation.async_response) msg h
      else if msg.op == internal_code InternalOperation.sync_request
      then respond (internal_code InternalOperation.sync_response) msg h
      else if msg.op == internal_code InternalOperation.evt_sub
      then on_event registry.set_event (bytes_of msg.ptr) h
      else if msg.op == internal_code InternalOperation.evt_unsub
      then on_event registry.unset_event (bytes_of msg.ptr) h
      else some h

  abbrev pub go_on : Option (Host R) → (Host R → Option (Host R)) → Option (Host R)
  go_on none rest = none
  go_on (some h) rest = rest h

  unfoldable pub handle_all : List Message → Host R → Option (Host R)
  handle_all [] h = some h
  handle_all (msg ∷ msgs) h = go_on (handle msg h) (λ h'. handle_all msgs h')
