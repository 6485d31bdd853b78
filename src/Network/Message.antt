-- ===== src/Network/Message.antt =====
-- `DCS::Network::Message` (DCS_Network/src/message.cpp, DCS_Network/include/internal.h), and the order
-- in which the send threads of client.cpp and server.cpp put a message on the wire. What a fresh
-- array or an unset field holds is a parameter.
pub mod RoundTrip
use dcscan_modules_api.Prelude.{
  ℕ, zero, suc, ◌+◌, ◌-◌, ◌*◌, ◌/◌, ◌%◌, ◌^◌, ◌≤◌, ◌<◌, min, max, ◌≡◌, refl, sym, ap, ◌∙◌, ◌≢◌, ◌↔◌,
  ◌⊎◌, inl, inr, Bool, true, false, not, ◌&&◌, ◌||◌, Option, none, some, List, [], ◌∷◌, ◌++◌, map,
  append-nil, append_assoc, arith, ltb, leb, ◌==◌, if◌then◌else◌, ltb→lt, lt→ltb, leb→le, le→leb,
  ==_iff, ==_refl, Bool-cases, Option-cases, length, get_elem?, get_or, take, drop, set,
  length-append, length-take, length-drop, take-append-drop, take_exact, drop_exact, take_within,
  length-map, All,
}
use dcscan_modules_api.Prelude.Words.{le_bytes, le_value, length-le_bytes, le_value-le_bytes}

-- `DefaultMessage`; `ptr` is `none` where the pointer is null.
pub record Message : Type 0 where
  pub op : ℕ
  pub id : ℕ
  pub size : ℕ
  pub ptr : Option (List ℕ)

-- `Operation`, what a caller asks for
pub data Operation : Type 0 where
  no_op request response evt_sub evt_unsub op_error con_valid data_op : Operation

unfoldable pub operation_code : Operation → ℕ
operation_code Operation.no_op = 0
operation_code Operation.request = 1
operation_code Operation.response = 4
operation_code Operation.evt_sub = 7
operation_code Operation.evt_unsub = 9
operation_code Operation.op_error = 10
operation_code Operation.con_valid = 11
operation_code Operation.data_op = 12

-- `InternalOperation`, what is on the wire
pub data InternalOperation : Type 0 where
  no_op sync_request async_request sync_response async_response evt_sub evt_response evt_unsub
        op_error con_valid data_op :
      InternalOperation

unfoldable pub internal_code : InternalOperation → ℕ
internal_code InternalOperation.no_op = 0
internal_code InternalOperation.sync_request = 2
internal_code InternalOperation.async_request = 3
internal_code InternalOperation.sync_response = 5
internal_code InternalOperation.async_response = 6
internal_code InternalOperation.evt_sub = 7
internal_code InternalOperation.evt_response = 8
internal_code InternalOperation.evt_unsub = 9
internal_code InternalOperation.op_error = 10
internal_code InternalOperation.con_valid = 11
internal_code InternalOperation.data_op = 12

abbrev pub message_xtra_space : ℕ
message_xtra_space = 9

-- What memory holds that nothing has been written to.
pub record Memory : Type 0 where
  pub op : ℕ
  pub id : ℕ
  pub array : ℕ → List ℕ

-- `Alloc`: `none` is `new u8[n]` with a negative `n`, which throws.
unfoldable pub alloc : Memory → ℕ → Option Message
alloc memory size =
    if ltb size message_xtra_space
    then none
    else some (record {
      op = memory.op;
      id = memory.id;
      size = size - message_xtra_space;
      ptr = some (memory.array (size - message_xtra_space));
    })

-- `SetCopyIdAndCode`: `packet` is what `fetchNextMsg` returned.
unfoldable pub set_copy_id_and_code : List ℕ → Message → Message
set_copy_id_and_code packet msg =
    if ltb 0 msg.size
    then record msg {
      op = get_or packet 0 0;
      id = le_value (take 8 (drop 1 packet));
      ptr = some (take msg.size (drop 9 packet));
    }
    else msg

unfoldable pub set_copy_id : ℕ → ℕ → List ℕ → Message → Message
set_copy_id opcode id bytes msg =
    if ltb 0 msg.size
    then record msg { op = opcode; id = id; ptr = some (take msg.size bytes) }
    else msg

-- `SetNew` with data; the number is the static counter `nid`, a `u64`.
unfoldable pub set_new : ℕ → List ℕ → ℕ → Message → Message × ℕ
set_new opcode bytes nid msg =
    if ltb 0 msg.size
    then (
      record msg { op = opcode; id = nid; ptr = some (take msg.size bytes) },
      (nid + 1) % 2 ^ 64,
    )
    else (msg, nid)

unfoldable pub copy : Message → Message
copy msg = record msg { ptr = if ltb 0 msg.size then msg.ptr else none }

unfoldable pub delete : Message → Message
delete msg = record msg { size = 0; op = 0; ptr = none }

abbrev filled : List ℕ → Option Message → Option Message
filled packet none = none
filled packet (some msg) = some (set_copy_id_and_code packet msg)

-- The first lines of the decoders of server.cpp and client.cpp.
unfoldable pub decode : Memory → List ℕ → Option Message
decode memory packet = filled packet (alloc memory (length packet))

abbrev pub bytes_of : Option (List ℕ) → List ℕ
bytes_of none = []
bytes_of (some bytes) = bytes

-- The four `SendData` calls of a send thread.
unfoldable pub wire : Message → List ℕ
wire msg =
    le_bytes 4 ((msg.size + message_xtra_space) % 2 ^ 32)
    ++ (msg.op ∷ le_bytes 8 msg.id ++ take msg.size (bytes_of msg.ptr))
