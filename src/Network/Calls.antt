-- ===== src/Network/Calls.antt =====
-- Calls to the server (DCS_Network/src/message.cpp): `SendAsync` and `SendSync` up to the point where
-- they wait, the slot `lmessage` with `SetMsgIdCondition` and `WaitForId`, and the promises of the
-- asynchronous calls. Each function is one step under its lock; `SendAsync` is two, since it puts the
-- message on the send queue before it stores the promise.
pub mod Sending
pub mod Replies
use dcscan_modules_api.Prelude.{
  ℕ, zero, suc, ◌+◌, ◌-◌, ◌*◌, ◌/◌, ◌%◌, ◌^◌, ◌≤◌, ◌<◌, min, max, ◌≡◌, refl, sym, ap, ◌∙◌, ◌≢◌, ◌↔◌,
  ◌⊎◌, inl, inr, Bool, true, false, not, ◌&&◌, ◌||◌, Option, none, some, List, [], ◌∷◌, ◌++◌, map,
  append-nil, append_assoc, arith, ltb, leb, ◌==◌, if◌then◌else◌, ltb→lt, lt→ltb, leb→le, le→leb,
  ==_iff, ==_refl, Bool-cases, Option-cases, length, get_elem?, get_or, take, drop, set,
  length-append, length-take, length-drop, take-append-drop, take_exact, drop_exact, take_within,
  take_all, length-map, All,
}
use dcscan_modules_api.Prelude.Words.{le_bytes, le_value, length-le_bytes, le_value-le_bytes}
use dcscan_modules_api.Network.Message.{
  Message, Memory, Operation, operation_code, alloc, set_new, copy, delete, bytes_of,
  message_xtra_space,
}

pub record Calls : Type 0 where
  pub nid : ℕ
  -- `outbound_data_queue` of client.cpp
  pub outbound : List Message
  pub lmessage : Message
  -- the keys of `async_mess_prom`
  pub promises : List ℕ
  -- the promises that have been given a value, with it
  pub fulfilled : List (ℕ × List ℕ)

-- A request is number 2 if it is synchronous and number 3 if it is not.
unfoldable pub op_code : ℕ → Operation → ℕ
op_code extra Operation.request = operation_code Operation.request + extra
op_code extra op = operation_code op

-- `u16 total_size = (u16)(size + MESSAGE_XTRA_SPACE)`
unfoldable pub total_size : ℕ → ℕ
total_size size = (size + message_xtra_space) % 2 ^ 16

abbrev pub prepared : ℕ → List ℕ → ℕ → Option Message → Option (Message × ℕ)
prepared opcode bytes nid none = none
prepared opcode bytes nid (some msg) = some (set_new opcode bytes nid msg)

-- `Alloc` and `SetNew`, for data of length `size`.
unfoldable pub prepare : Memory → ℕ → Operation → List ℕ → ℕ → Option (Message × ℕ)
prepare memory extra op bytes nid =
    prepared (op_code extra op) bytes nid (alloc memory (total_size (length bytes)))

abbrev pub scheduled : Calls → Option (Message × ℕ) → Option (Message × Calls)
scheduled c none = none
scheduled c (some (msg, nid)) =
    some (msg, record c { nid = nid; outbound = c.outbound ++ msg ∷ [] })

-- `SendAsync` up to `ScheduleTransmission`, and `SendSync` up to `WaitForId`. `none` is an exception.
unfoldable pub send_async : Memory → Operation → List ℕ → Calls → Option (Message × Calls)
send_async memory op bytes c = scheduled c (prepare memory 2 op bytes c.nid)

unfoldable pub send_sync : Memory → Operation → List ℕ → Calls → Option (Message × Calls)
send_sync memory op bytes c = scheduled c (prepare memory 1 op bytes c.nid)

unfoldable pub mem : ℕ → List ℕ → Bool
mem id [] = false
mem id (j ∷ ids) = j == id || mem id ids

-- `async_mess_prom.emplace`, which keeps a promise that is there.
unfoldable pub store_promise : ℕ → Calls → Calls
store_promise id c = if mem id c.promises then c else record c { promises = c.promises ++ id ∷ [] }

unfoldable pub erase : ℕ → List ℕ → List ℕ
erase id [] = []
erase id (j ∷ ids) = if j == id then ids else j ∷ erase id ids

-- `NotifyPromise`: `none` is the exception of `std::map::at`.
unfoldable pub notify_promise : Message → Calls → Option Calls
notify_promise msg c =
    if mem msg.id c.promises
    then some (record c {
      promises = erase msg.id c.promises;
      fulfilled = c.fulfilled ++ (msg.id, bytes_of msg.ptr) ∷ [];
    })
    else none

-- `SetMsgIdCondition`: what the slot held is deleted.
unfoldable pub set_msg_id_condition : Message → Calls → Calls
unfolding copy
set_msg_id_condition msg c = record c { lmessage = copy msg }

-- `WaitForId`: `none` waits.
unfoldable pub wait_for_id : ℕ → Calls → Option (List ℕ × Calls)
unfolding delete
wait_for_id id c = elim c.lmessage.ptr [
  | none ↦ none
  | some bytes ↦
      if c.lmessage.id == id
      then some (take c.lmessage.size bytes, record c { lmessage = delete c.lmessage })
      else none
]
