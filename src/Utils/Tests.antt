-- ===== src/Utils/Tests.antt =====
-- Runs of the utilities on small inputs, and the theorems at inputs that meet their hypotheses.
use dcscan_modules_api.Prelude.{
  ℕ, ◌+◌, ◌^◌, ◌≤◌, ◌<◌, ◌≡◌, refl, ◌⊎◌, false, some, List, [], ◌∷◌, ◌++◌, arith, length, All,
}
use dcscan_modules_api.Prelude.Words.{le_bytes, le_value}
use dcscan_modules_api.Utils.ByteQueue.{
  ByteQueue, create, add_bytes, Body, Fetched, fetch_header, packet_size, fetch_body,
  fetch_next_msg,
}
use dcscan_modules_api.Utils.ByteQueue.Framing.{frame}
use dcscan_modules_api.Utils.ByteQueue.Stream.{
  Link, frames, start, arrive, begin, finish, Reach, here, next, Fits,
}
use dcscan_modules_api.Utils.ByteQueue.Delivery.{
  delivered_in_order, fetch_never_starves, buffer_bounded,
}
use dcscan_modules_api.Utils.MessageQueue
use dcscan_modules_api.Utils.MessageQueue.Fifo
use dcscan_modules_api.Utils.MessageQueue.Fifo.{fifo}
use dcscan_modules_api.Utils.Timer.{get_timestamp}
use dcscan_modules_api.Utils.Timer.Fields.{IsExact, get_timestamp-IsExact}
use dcscan_modules_api.Utils.Vector.{empty, push_all, capacity, move_construct, reserve, reallocate}
use dcscan_modules_api.Utils.Text.{Text, split}
use dcscan_modules_api.Utils.Text.Split.{content, ended, split_loses_nothing}

-- Two packets of two and one bytes.
abbrev packets : List (List ℕ)
packets = (7 ∷ 8 ∷ []) ∷ (9 ∷ []) ∷ []

packets_fit : All Fits packets
packets_fit = (omega arith, (omega arith, tt))

-- Six bytes arrive: the first packet.
abbrev first_arrived : Link
first_arrived = record (start 64 packets) {
  queue = record { buffer = frame (7 ∷ 8 ∷ []); max_size = 64; ntf_unblock = false };
  in_flight = frame (9 ∷ []);
}

-- It has been fetched, and the rest has arrived.
abbrev halfway : Link
halfway = record first_arrived {
  queue = record { buffer = frame (9 ∷ []); max_size = 64; ntf_unblock = false };
  in_flight = [];
  delivered = (7 ∷ 8 ∷ []) ∷ [];
}

halfway-Reach : Reach (start 64 packets) halfway
unfolding start create add_bytes fetch_header fetch_body packet_size le_bytes le_value
halfway-Reach =
    let arrived = next here (
      arrive (start 64 packets) (frame (7 ∷ 8 ∷ [])) (frame (9 ∷ [])) first_arrived.queue refl
        refl) in
    let begun = next arrived (begin first_arrived 2 refl refl) in
    let read = next begun (
      finish (record first_arrived { reading = some 2 }) 2 (7 ∷ 8 ∷ [])
        (record first_arrived.queue { buffer = [] }) refl refl) in
    next read (
      arrive
        (record first_arrived {
          queue = record first_arrived.queue { buffer = [] };
          delivered = (7 ∷ 8 ∷ []) ∷ [];
        })
        (frame (9 ∷ [])) [] halfway.queue refl refl)

delivered_in_order_example : (rest : List (List ℕ)) × (packets ≡ halfway.delivered ++ rest)
delivered_in_order_example = delivered_in_order 64 packets packets_fit halfway-Reach

fetch_never_starves_example :
    (packets ≡ halfway.delivered)
    ⊎ ((m : List ℕ) × (ns : List (List ℕ)) × (q : ByteQueue) × (packets
          ≡ halfway.delivered ++ m ∷ ns)
        × (fetch_next_msg halfway.queue ≡ Fetched.message m q)
        × (q.buffer ≡ frames ns))
fetch_never_starves_example = fetch_never_starves 64 packets packets_fit halfway-Reach refl refl

second_fetch :
    fetch_body 1 halfway.queue ≡ Body.message (9 ∷ []) (record halfway.queue { buffer = [] })
unfolding fetch_body packet_size le_bytes
second_fetch = refl

frames_small : 64 + length (frames packets) < 2 ^ 64
unfolding le_bytes
frames_small = omega arith

buffer_bounded_example : (length halfway.queue.buffer ≤ 64) × (5 ≤ 64)
buffer_bounded_example =
    buffer_bounded 64 packets 1 (9 ∷ []) (record halfway.queue { buffer = [] }) frames_small
      halfway-Reach second_fetch

-- Five bytes of a packet of ten have arrived.
abbrev torn : ByteQueue
torn = record { buffer = 10 ∷ 0 ∷ 0 ∷ 0 ∷ 1 ∷ []; max_size = 64; ntf_unblock = false }

-- A length prefix of -1 is a copy of 2 ^ 64 - 1 bytes.
negative_length :
    fetch_next_msg (record torn { buffer = 255 ∷ 255 ∷ 255 ∷ 255 ∷ [] }) ≡ Fetched.fault
unfolding fetch_next_msg fetch_header fetch_body packet_size le_value
negative_length = refl

-- A consumer waits, two values are pushed, and it wakes.
fifo_example : ◌≡◌ {A = List ℕ} (1 ∷ 2 ∷ []) ((1 ∷ []) ++ (2 ∷ []))
unfolding MessageQueue.push MessageQueue.pop_enter MessageQueue.pop_woken
fifo_example =
    fifo {A = ℕ} 0
      {c = record {
        queue = 2 ∷ [];
        waiting = false;
        pushed = 1 ∷ 2 ∷ [];
        got = 1 ∷ [];
        defaults = 0;
      }}
      (Fifo.next
        (Fifo.next
          (Fifo.next (Fifo.next Fifo.here (Fifo.waits (Fifo.empty 0) refl refl)) (Fifo.pushes _ 1))
          (Fifo.pushes _ 2))
        (Fifo.wakes _ 1 (2 ∷ []) refl refl))

-- 25 hours, 1 minute, 2 seconds and 3 nanoseconds
get_timestamp-IsExact_example : IsExact (get_timestamp 90_062_000_000_003) 90_062_000_000_003
get_timestamp-IsExact_example = get_timestamp-IsExact 90_062_000_000_003 (omega arith)

abbrev one_two_three : List ℕ
one_two_three = 1 ∷ 2 ∷ 3 ∷ []

-- Moving a vector empties both, and reserving on an empty one allocates one element.
moved : (move_construct (push_all one_two_three empty)).1.items ≡ []
unfolding move_construct empty
moved = refl

reserved : capacity (reserve 100 (empty {A = ℕ})) ≡ 1
unfolding capacity reserve reallocate empty
reserved = refl

abbrev commas : Text
commas = record { buffer_size = 5; bytes = b'a' ∷ b',' ∷ b',' ∷ b'b' ∷ 0 ∷ [] }

split_loses_nothing_example :
    (init : List Text) × (last : Text) × ((split b',' commas).items ≡ init ++ last ∷ [])
    × (ended b',' init ++ content last ≡ content commas)
split_loses_nothing_example = split_loses_nothing b',' commas (omega arith)
