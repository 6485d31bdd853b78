-- ===== src/Network/Calls/Sending.antt =====
-- What a call puts on the send queue.
use dcscan_modules_api.Prelude.{
  ℕ, ◌+◌, ◌-◌, ◌%◌, ◌^◌, ◌≤◌, ◌<◌, ◌≡◌, refl, ap, ◌≢◌, inl, inr, some, List, [], ◌∷◌, ◌++◌, arith,
  lt→ltb, Option-cases, length, take_all,
}
use dcscan_modules_api.Network.Message.{
  Message, Memory, Operation, operation_code, InternalOperation, internal_code, alloc, set_new,
}
use dcscan_modules_api.Network.Message.RoundTrip.{IsSendable, alloc_lem}
use dcscan_modules_api.Network.Calls.{
  Calls, op_code, total_size, prepare, scheduled, send_async, send_sync,
}

-- The operation that the other end reads off the wire.
abbrev pub meant : InternalOperation → Operation → InternalOperation
meant request Operation.no_op = InternalOperation.no_op
meant request Operation.request = request
meant request Operation.response = request
meant request Operation.evt_sub = InternalOperation.evt_sub
meant request Operation.evt_unsub = InternalOperation.evt_unsub
meant request Operation.op_error = InternalOperation.op_error
meant request Operation.con_valid = InternalOperation.con_valid
meant request Operation.data_op = InternalOperation.data_op

-- Every operation but `RESPONSE` is sent under the code of the internal operation that it means: a
-- request as the synchronous or the asynchronous one, any other as its namesake.
pub op_code-meant :
    (op : Operation)
    → op ≢ Operation.response
    → (op_code 1 op ≡ internal_code (meant InternalOperation.sync_request op))
      × (op_code 2 op ≡ internal_code (meant InternalOperation.async_request op))
unfolding op_code operation_code internal_code
op_code-meant Operation.response h = absurd (h refl)
op_code-meant _ h = (refl, refl)

op_code-byte : (op : Operation) → op_code 2 op < 256
unfolding op_code operation_code
op_code-byte Operation.request = omega arith
op_code-byte _ = omega arith

-- The message that a call makes of data that fits.
abbrev made : ℕ → List ℕ → ℕ → Message
made code bytes nid = record { op = code; id = nid; size = length bytes; ptr = some bytes }

total_size_small : (n : ℕ) → n + 9 < 2 ^ 16 → total_size n ≡ n + 9
unfolding total_size
total_size_small n h = omega arith

set_new-made :
    (code nid : ℕ) (bytes : List ℕ) (fresh : Message)
    → 0 < length bytes
    → nid + 1 < 2 ^ 64
    → fresh.size ≡ length bytes
    → set_new code bytes nid fresh ≡ (made code bytes nid, nid + 1)
unfolding set_new
set_new-made code nid bytes fresh h n e =
    rw (e, lt→ltb 0 (length bytes) h, take_all bytes)
      (ap (λ k. (made code bytes nid, k)) {x = (nid + 1) % 2 ^ 64} {y = nid + 1} (omega arith))

prepare-made :
    (memory : Memory) (extra : ℕ) (op : Operation) (bytes : List ℕ) (nid : ℕ)
    → 0 < length bytes
    → length bytes + 9 < 2 ^ 16
    → nid + 1 < 2 ^ 64
    → prepare memory extra op bytes nid ≡ some (made (op_code extra op) bytes nid, nid + 1)
unfolding prepare
prepare-made memory extra op bytes nid h k n =
    rw (total_size_small (length bytes) k, alloc_lem memory (length bytes + 9) (omega arith))
      (ap some (set_new-made (op_code extra op) nid bytes _ h n (omega arith)))

-- Data that is not empty and has at most 65526 bytes is queued whole, behind what was queued, under
-- the next id, and as a message that the other end decodes; the id counter moves on by one.
pub send_async_whole :
    (memory : Memory) (op : Operation) (bytes : List ℕ) (c : Calls)
    → 0 < length bytes
    → length bytes + 9 < 2 ^ 16
    → c.nid + 1 < 2 ^ 64
    → (msg : Message) × (send_async memory op bytes c
        ≡ some (msg, record c { nid = c.nid + 1; outbound = c.outbound ++ msg ∷ [] }))
      × (msg.id ≡ c.nid)
      × (msg.op ≡ op_code 2 op)
      × (msg.ptr ≡ some bytes)
      × IsSendable msg
unfolding send_async
send_async_whole memory op bytes c h k n = (
  made (op_code 2 op) bytes c.nid,
  ap (scheduled c) (prepare-made memory 2 op bytes c.nid h k n),
  refl,
  refl,
  refl,
  record {
    payload = bytes;
    filled = refl;
    sized = refl;
    not_empty = h;
    small = omega arith;
    op_byte = op_code-byte op;
    id_word = omega arith;
  },
)

-- A synchronous call of such data queues one message of it, with the code of a synchronous request.
pub send_sync_whole :
    (memory : Memory) (bytes : List ℕ) (c : Calls)
    → 0 < length bytes
    → length bytes + 9 < 2 ^ 16
    → c.nid + 1 < 2 ^ 64
    → (msg : Message) × (send_sync memory Operation.request bytes c
        ≡ some (msg, record c { nid = c.nid + 1; outbound = c.outbound ++ msg ∷ [] }))
      × (msg.id ≡ c.nid)
      × (msg.op ≡ 2)
      × (msg.ptr ≡ some bytes)
      × IsSendable msg
unfolding send_sync op_code operation_code
send_sync_whole memory bytes c h k n = (
  made 2 bytes c.nid,
  ap (scheduled c) (prepare-made memory 1 Operation.request bytes c.nid h k n),
  refl,
  refl,
  refl,
  record {
    payload = bytes;
    filled = refl;
    sized = refl;
    not_empty = h;
    small = omega arith;
    op_byte = omega arith;
    id_word = omega arith;
  },
)

size-set_new :
    (code nid : ℕ) (bytes : List ℕ) (fresh : Message)
    → (set_new code bytes nid fresh).0.size ≡ fresh.size
unfolding set_new
size-set_new code nid bytes fresh = ground arith

prepare-size :
    (memory : Memory) (extra : ℕ) (op : Operation) (bytes : List ℕ) (nid nid' : ℕ) (msg : Message)
    → prepare memory extra op bytes nid ≡ some (msg, nid')
    → msg.size + 9 ≡ total_size (length bytes)
unfolding prepare alloc
prepare-size memory extra op bytes nid nid' msg e = ground (
  arith,
  size-set_new (op_code extra op) nid bytes (record {
    op = memory.op;
    id = memory.id;
    size = total_size (length bytes) - 9;
    ptr = some (memory.array (total_size (length bytes) - 9));
  }),
)

-- Data of 65527 bytes and more is never queued whole: where the call does not throw, the message
-- that it queues has fewer bytes than the data.
pub send_async_truncates :
    (memory : Memory) (op : Operation) (bytes : List ℕ) (c c' : Calls) (msg : Message)
    → 2 ^ 16 ≤ length bytes + 9
    → send_async memory op bytes c ≡ some (msg, c')
    → msg.size < length bytes
unfolding send_async
send_async_truncates memory op bytes c c' msg h e =
    elim (Option-cases (prepare memory 2 op bytes c.nid)) [
      | inl none_made ↦ cc
      | inr ((m, k), some_made) ↦ omega (
        arith,
        prepare-size memory 2 op bytes c.nid k m some_made,
        small_total (length bytes),
        same m k some_made,
      )
    ]
  where
    small_total : (n : ℕ) → total_size n < 2 ^ 16
    small_total n = unfold total_size in omega arith

    same : (m : Message) (k : ℕ) → prepare memory 2 op bytes c.nid ≡ some (m, k) → msg.size ≡ m.size
    same m k made_so = cc
