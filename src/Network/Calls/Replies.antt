-- ===== src/Network/Calls/Replies.antt =====
-- How a reply finds its caller.
use dcscan_modules_api.Prelude.{
  ℕ, ◌<◌, ◌≡◌, refl, ◌≢◌, true, false, Option, none, some, List, [], ◌∷◌, ◌++◌, arith, take,
}
use dcscan_modules_api.Network.Message.{Message, Memory, Operation, bytes_of}
use dcscan_modules_api.Network.Calls.{
  Calls, send_async, scheduled, prepare, mem, erase, store_promise, notify_promise,
  set_msg_id_condition, wait_for_id,
}

-- A reply with data that is put into the slot is returned to the caller who waits for its id, once:
-- the slot is empty afterwards, and a caller who waits for another id does not get it.
pub wait_for_id-set :
    (msg : Message) (bytes : List ℕ) (c : Calls) (other : ℕ)
    → 0 < msg.size
    → msg.ptr ≡ some bytes
    → other ≢ msg.id
    → (c' : Calls) × (wait_for_id msg.id (set_msg_id_condition msg c)
        ≡ some (take msg.size bytes, c'))
      × ((id : ℕ) → wait_for_id id c' ≡ none)
      × (wait_for_id other (set_msg_id_condition msg c) ≡ none)
unfolding wait_for_id set_msg_id_condition
wait_for_id-set msg bytes c other h e ne = (
  record c { lmessage = record { op = 0; id = msg.id; size = 0; ptr = none } },
  ground arith,
  λ id. refl,
  ground arith,
)

-- A reply that arrives while another one is still in the slot replaces it: the caller who waits for
-- the first goes on waiting.
pub second_reply_replaces_first :
    (first second : Message) (c : Calls)
    → first.id ≢ second.id
    → wait_for_id first.id (set_msg_id_condition second (set_msg_id_condition first c)) ≡ none
unfolding wait_for_id set_msg_id_condition
second_reply_replaces_first first second c ne = ground arith

mem-append : (id : ℕ) (ids : List ℕ) → mem id (ids ++ id ∷ []) ≡ true
unfolding mem
mem-append id [] = ground arith
mem-append id (j ∷ ids) = ground (arith, mem-append id ids)

erase-append : (id : ℕ) (ids : List ℕ) → mem id ids ≡ false → erase id (ids ++ id ∷ []) ≡ ids
unfolding mem erase
erase-append id [] h = ground arith
erase-append id (j ∷ ids) h = ground (arith, erase-append id ids)

promises-scheduled :
    (c c' : Calls) (msg : Message) (o : Option (Message × ℕ))
    → scheduled c o ≡ some (msg, c')
    → (c'.promises ≡ c.promises) × (c'.fulfilled ≡ c.fulfilled)
promises-scheduled c c' msg none e = cc
promises-scheduled c c' msg (some (m, k)) e = ground arith

promises-send_async :
    (memory : Memory) (op : Operation) (bytes : List ℕ) (c c' : Calls) (msg : Message)
    → send_async memory op bytes c ≡ some (msg, c')
    → (c'.promises ≡ c.promises) × (c'.fulfilled ≡ c.fulfilled)
unfolding send_async
promises-send_async memory op bytes c c' msg e =
    promises-scheduled c c' msg (prepare memory 2 op bytes c.nid) e

-- After both halves of `SendAsync` a reply under the id of the call fulfils its promise with the
-- data of the reply and leaves the other promises as they were. If the reply is decoded between the
-- two halves, the look-up throws.
pub notify_after_send_async :
    (memory : Memory) (op : Operation) (bytes : List ℕ) (c c' : Calls) (msg reply : Message)
    → send_async memory op bytes c ≡ some (msg, c')
    → mem msg.id c.promises ≡ false
    → reply.id ≡ msg.id
    → (notify_promise reply (store_promise msg.id c')
        ≡ some (record c' { fulfilled = c.fulfilled ++ (msg.id, bytes_of reply.ptr) ∷ [] }))
      × (notify_promise reply c' ≡ none)
unfolding notify_promise store_promise
notify_after_send_async memory op bytes c c' msg reply e fresh same =
    let (kept, before) = promises-send_async memory op bytes c c' msg e in
    (ground (arith, mem-append msg.id c.promises, erase-append msg.id c.promises), ground arith)
