-- ===== src/Network/Message/RoundTrip.antt =====
-- What one end puts on the wire the other end decodes.
use dcscan_modules_api.Prelude.{
  ℕ, ◌+◌, ◌-◌, ◌%◌, ◌^◌, ◌≤◌, ◌<◌, ◌≡◌, refl, sym, ap, ◌∙◌, some, List, [], ◌∷◌, ◌++◌, map, arith,
  lt→ltb, length, take, length-append, take_exact, drop_exact, take_all, All,
}
use dcscan_modules_api.Prelude.Words.{le_bytes, length-le_bytes, le_value-le_bytes}
use mathlib.Core.Path.{ap₂}
use dcscan_modules_api.Utils.ByteQueue.Framing.{frame}
use dcscan_modules_api.Utils.ByteQueue.Stream.{Link, frames, start, Reach, Fits}
use dcscan_modules_api.Utils.ByteQueue.Delivery.{delivered_in_order}
use dcscan_modules_api.Network.Message.{
  Message, Memory, alloc, decode, set_copy_id_and_code, wire, bytes_of,
}

-- A message as the program sends it: its size is that of its bytes, which are not none, and every
-- field is in the range of its type.
pub record IsSendable (msg : Message) : Type 0 where
  pub payload : List ℕ
  pub filled : msg.ptr ≡ some payload
  pub sized : msg.size ≡ length payload
  pub not_empty : 0 < msg.size
  pub small : msg.size + 13 < 2 ^ 31
  pub op_byte : msg.op < 256
  pub id_word : msg.id < 2 ^ 64

-- What follows the length prefix.
abbrev pub packet : Message → List ℕ
packet msg = msg.op ∷ le_bytes 8 msg.id ++ take msg.size (bytes_of msg.ptr)

payload_lem : (msg : Message) (v : IsSendable msg) → take msg.size (bytes_of msg.ptr) ≡ v.payload
payload_lem msg v = rw (v.filled, v.sized) (take_all v.payload)

length-packet : (msg : Message) → IsSendable msg → length (packet msg) ≡ msg.size + 9
length-packet msg v = omega (
  arith,
  length-append (le_bytes 8 msg.id) (take msg.size (bytes_of msg.ptr)),
  length-le_bytes 8 msg.id,
  ap length (payload_lem msg v),
  v.sized,
)

pub packet-Fits : (msg : Message) → IsSendable msg → Fits (packet msg)
packet-Fits msg v = omega (arith, length-packet msg v, v.small)

-- The send thread frames a message as `ByteQueue` expects it.
pub wire-frame : (msg : Message) → IsSendable msg → wire msg ≡ frame (packet msg)
unfolding wire
wire-frame msg v =
    ap (λ n. le_bytes 4 n ++ packet msg) {x = (msg.size + 9) % 2 ^ 32} {y = length (packet msg)}
      (omega (arith, length-packet msg v, v.small))

pub alloc_lem :
    (memory : Memory) (n : ℕ)
    → 9 ≤ n
    → alloc memory n
      ≡ some (record {
        op = memory.op;
        id = memory.id;
        size = n - 9;
        ptr = some (memory.array (n - 9));
      })
unfolding alloc
alloc_lem memory n h = ground arith

set_copy_lem :
    (msg fresh : Message) (v : IsSendable msg)
    → fresh.size ≡ msg.size
    → set_copy_id_and_code (packet msg) fresh ≡ msg
unfolding set_copy_id_and_code
set_copy_lem msg fresh v e =
    rw
      (
        e,
        lt→ltb 0 msg.size v.not_empty,
        take_exact 8 (le_bytes 8 msg.id) (take msg.size (bytes_of msg.ptr))
            (length-le_bytes 8 msg.id),
        drop_exact 8 (le_bytes 8 msg.id) (take msg.size (bytes_of msg.ptr))
            (length-le_bytes 8 msg.id),
        le_value-le_bytes 8 msg.id v.id_word,
        payload_lem msg v,
      )
      (ground (arith, ap (λ n. take n v.payload) v.sized, take_all v.payload, v.filled))

pub decode-packet :
    (memory : Memory) (msg : Message) → IsSendable msg → decode memory (packet msg) ≡ some msg
unfolding decode
decode-packet memory msg v =
    rw (alloc_lem memory (length (packet msg)) (omega (arith, length-packet msg v)))
      (ap some (set_copy_lem msg _ v (omega (arith, length-packet msg v))))

abbrev pub AllSendable : List Message → Type 0
AllSendable = All IsSendable

-- The bytes of a sequence of sends.
abbrev pub wires : List Message → List ℕ
wires [] = []
wires (m ∷ ms) = wire m ++ wires ms

wires-frames : (ms : List Message) → AllSendable ms → wires ms ≡ frames (map packet ms)
wires-frames [] v = refl
wires-frames (m ∷ ms) v = rw (wire-frame m v.0, wires-frames ms v.1)

packets-Fits : (ms : List Message) → AllSendable ms → All Fits (map packet ms)
packets-Fits [] v = tt
packets-Fits (m ∷ ms) v = (packet-Fits m v.0, packets-Fits ms v.1)

cons_head : {x y : List ℕ} {xs ys : List (List ℕ)} → x ∷ xs ≡ y ∷ ys → x ≡ y
cons_head e = cc

cons_tail : {x y : List ℕ} {xs ys : List (List ℕ)} → x ∷ xs ≡ y ∷ ys → xs ≡ ys
cons_tail e = cc

decode-prefix :
    (memory : Memory) (ms : List Message) (got rest : List (List ℕ))
    → AllSendable ms
    → map packet ms ≡ got ++ rest
    → (first last : List Message) × (ms ≡ first ++ last)
      × (map (decode memory) got ≡ map some first)
decode-prefix memory ms [] rest v e = ([], ms, refl, refl)
decode-prefix memory [] (p ∷ got) rest v e = cc
decode-prefix memory (m ∷ ms) (p ∷ got) rest v e =
    let (first, last, split, decoded) = decode-prefix memory ms got rest v.1 (cons_tail e) in
    (
      m ∷ first,
      last,
      ap (◌∷◌ m) split,
      ap₂ ◌∷◌ (ap (decode memory) (sym (cons_head e)) ∙ decode-packet memory m v.0) decoded,
    )

-- End to end: from the bytes that a send thread puts on the wire for the messages `ms`, arriving in
-- any chunks and fetched at any time, the decoder at the other end makes a prefix of `ms`, message
-- by message, whatever its fresh memory holds.
pub decoded_in_order :
    (memory : Memory) (size : ℕ) (ms : List Message) {l : Link}
    → AllSendable ms
    → Reach (record (start size []) { in_flight = wires ms }) l
    → (first last : List Message) × (ms ≡ first ++ last)
      × (map (decode memory) l.delivered ≡ map some first)
unfolding start
decoded_in_order memory size ms {l} v r =
    let (rest, split) = delivered_in_order size (map packet ms) (packets-Fits ms v) r' in
    decode-prefix memory ms l.delivered rest v split
  where
    r' : Reach (start size (map packet ms)) l
    r' = rw (← (wires-frames ms v)) r
