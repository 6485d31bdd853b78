-- ===== src/Network/Tests.antt =====
-- Runs of the messages and calls on small inputs, and the theorems at inputs that meet their hypotheses.
use dcscan_modules_api.Prelude.{
  ℕ, zero, suc, ◌+◌, ◌-◌, ◌↔◌, ◌≡◌, refl, ap, true, false, none, some, List, [], ◌∷◌, ◌++◌, map,
  arith, ◌==◌, if◌then◌else◌, length, get_or,
}
use dcscan_modules_api.Prelude.Words.{le_bytes, le_value}
use dcscan_modules_api.Network.Server.{
  Server, Credentials, Attempt, start_thread, Registry, handle_all,
}
use dcscan_modules_api.Network.Server.Packets.{stream, error_message, validity_message}
use dcscan_modules_api.Network.Server.Login.{
  AnswersRightly, IsAdmitted, start_thread-admits, start_thread-refuses_second,
}
use dcscan_modules_api.Network.Server.Replies.{effects, all_answers, handle_all-answers}
use dcscan_modules_api.Utils.ByteQueue.Stream.{Link, start, here}
use dcscan_modules_api.Network.Message.{
  Message, Memory, Operation, operation_code, alloc, set_new, decode, wire, set_copy_id_and_code,
}
use dcscan_modules_api.Network.Message.RoundTrip.{IsSendable, wires, decoded_in_order}
use dcscan_modules_api.Network.Calls.{
  Calls, op_code, total_size, prepare, send_async, mem, store_promise, notify_promise,
}
use dcscan_modules_api.Network.Calls.Sending.{send_async_whole}
use dcscan_modules_api.Network.Calls.Replies.{notify_after_send_async}

zeros : ℕ → List ℕ
zeros zero = []
zeros (suc n) = 0 ∷ zeros n

length-zeros : (n : ℕ) → length (zeros n) ≡ n
unfolding zeros
length-zeros zero = refl
length-zeros (suc n) = ap suc (length-zeros n)

abbrev memory : Memory
memory = record { op = 77; id = 78; array = zeros }

abbrev message_of : ℕ → ℕ → List ℕ → Message
message_of op id bytes = record { op = op; id = id; size = length bytes; ptr = some bytes }

abbrev hello : Message
hello = message_of 3 5 (1 ∷ 2 ∷ [])

abbrev empty_message : Message
empty_message = record { op = 0; id = 0; size = 0; ptr = none }

abbrev idle : Calls
idle = record {
  nid = 5;
  outbound = [];
  lmessage = empty_message;
  promises = 4 ∷ [];
  fulfilled = [];
}

abbrev sent : Calls
sent = record idle { nid = 6; outbound = hello ∷ [] }

hello-IsSendable : IsSendable hello
hello-IsSendable = record {
  payload = 1 ∷ 2 ∷ [];
  filled = refl;
  sized = refl;
  not_empty = omega arith;
  small = omega arith;
  op_byte = omega arith;
  id_word = omega arith;
}

decoded : decode memory (3 ∷ 5 ∷ 0 ∷ 0 ∷ 0 ∷ 0 ∷ 0 ∷ 0 ∷ 0 ∷ 1 ∷ 2 ∷ []) ≡ some hello
unfolding decode alloc set_copy_id_and_code zeros le_value
decoded = refl

on_the_wire : wire hello ≡ 11 ∷ 0 ∷ 0 ∷ 0 ∷ 3 ∷ 5 ∷ 0 ∷ 0 ∷ 0 ∷ 0 ∷ 0 ∷ 0 ∷ 0 ∷ 1 ∷ 2 ∷ []
unfolding wire le_bytes
on_the_wire = refl

abbrev loaded : Link
loaded = record (start 4096 []) { in_flight = wires (hello ∷ []) }

decoded_in_order_example :
    (first last : List Message) × (hello ∷ [] ≡ first ++ last)
    × (map (decode memory) loaded.delivered ≡ map some first)
decoded_in_order_example = decoded_in_order memory 4096 (hello ∷ []) (hello-IsSendable, tt) here

send_async_whole_example :
    (msg : Message) × (send_async memory Operation.request (1 ∷ 2 ∷ []) idle
      ≡ some (msg, record idle { nid = 6; outbound = msg ∷ [] }))
    × (msg.id ≡ 5)
    × (msg.op ≡ op_code 2 Operation.request)
    × (msg.ptr ≡ some (1 ∷ 2 ∷ []))
    × IsSendable msg
send_async_whole_example =
    send_async_whole memory Operation.request (1 ∷ 2 ∷ []) idle (omega arith) (omega arith)
      (omega arith)

-- 65536 bytes leave as none.
abbrev cut : Message
cut = record { op = 77; id = 78; size = 0; ptr = some (zeros 0) }

cut_so :
    send_async memory Operation.request (zeros 65536) idle
    ≡ some (cut, record idle { outbound = cut ∷ [] })
unfolding send_async prepare total_size alloc set_new
cut_so = rw (length-zeros 65536) refl

sent_so : send_async memory Operation.request (1 ∷ 2 ∷ []) idle ≡ some (hello, sent)
unfolding send_async prepare total_size alloc set_new op_code operation_code
sent_so = refl

no_promise : mem 5 (4 ∷ []) ≡ false
unfolding mem
no_promise = refl

notify_after_send_async_example :
    (notify_promise (message_of 6 5 (9 ∷ [])) (store_promise 5 sent)
      ≡ some (record sent { fulfilled = (5, 9 ∷ []) ∷ [] }))
    × (notify_promise (message_of 6 5 (9 ∷ [])) sent ≡ none)
notify_after_send_async_example =
    notify_after_send_async memory Operation.request (1 ∷ 2 ∷ []) idle sent hello
      (message_of 6 5 (9 ∷ [])) sent_so no_promise refl

-- One user, with the name 1, and a cipher that changes nothing.
abbrev one_user : Credentials
one_user = record {
  get_user = λ name. if get_or name 0 0 == 1 then some (9 ∷ []) else none;
  encrypt = λ key r iv. r;
}

abbrev waiting_server : Server
waiting_server = record {
  receive_thread = false;
  send_thread = false;
  running = false;
  client = none;
  username = none;
  sent = [];
  closed = [];
}

-- 32 bytes, as many of the arrays, and their challenge.
abbrev bytes_32 : List ℕ
bytes_32 =
    1 ∷ 2 ∷ 3 ∷ 4 ∷ 5 ∷ 6 ∷ 7 ∷ 8 ∷ 1 ∷ 2 ∷ 3 ∷ 4 ∷ 5 ∷ 6 ∷ 7 ∷ 8 ∷ 1 ∷ 2 ∷ 3 ∷ 4 ∷ 5 ∷ 6 ∷ 7 ∷ 8
    ∷ 1 ∷ 2 ∷ 3 ∷ 4 ∷ 5 ∷ 6 ∷ 7 ∷ 8 ∷ []

abbrev right_answer : Attempt
right_answer = record { r = bytes_32; iv = 7 ∷ []; username = 1 ∷ []; answer = bytes_32 }

start_thread-admits_example :
    let (ok, t) = start_thread one_user (8 ∷ []) (2 ∷ []) (3 ∷ []) 40 right_answer waiting_server in
    ((ok ≡ true) ↔ AnswersRightly one_user (8 ∷ []) right_answer)
    × IsAdmitted one_user
        (8 ∷ [])
        40
        right_answer
        ok
        (record waiting_server { sent = (40, bytes_32) ∷ (40, 7 ∷ []) ∷ [] })
        t
start_thread-admits_example =
    start_thread-admits one_user (8 ∷ []) (2 ∷ []) (3 ∷ []) 40 right_answer waiting_server refl refl
      (λ key e. omega arith) (omega arith)

abbrev serving : Server
serving = record waiting_server {
  receive_thread = true;
  send_thread = true;
  running = true;
  client = some 40;
  username = some (1 ∷ []);
}

start_thread-refuses_second_example :
    let (ok, t) = start_thread one_user (8 ∷ []) (2 ∷ []) (3 ∷ []) 41 right_answer serving in
    (ok ≡ false)
    × (t ≡ record serving { sent = t.sent; closed = 41 ∷ [] })
    × (stream 41 t.sent
        ≡ wire (error_message (2 ∷ []))
          ++ (wire (error_message (3 ∷ [])) ++ wire (validity_message 2)))
    × (stream 40 t.sent ≡ [])
start_thread-refuses_second_example =
    start_thread-refuses_second one_user (8 ∷ []) (2 ∷ []) (3 ∷ []) 41 40 right_answer serving refl
      (omega arith)

-- The state counts the calls, and the events add ten and take it away.
abbrev counting : Registry ℕ
counting = record {
  execute = λ params s. (s ∷ [], s + 1);
  sv_return_size = 1;
  set_event = λ e s. s + 10;
  unset_event = λ e s. s - 10;
}

abbrev calls : List Message
calls = message_of 3 5 (1 ∷ []) ∷ message_of 7 0 (4 ∷ []) ∷ message_of 2 6 (1 ∷ []) ∷ []

handle_all-answers_example :
    handle_all counting memory calls (record { registry = 0; outbound = [] })
    ≡ some (record {
      registry = effects counting memory calls 0;
      outbound = all_answers counting memory calls 0;
    })
handle_all-answers_example =
    handle_all-answers counting memory (λ params s. refl) (omega arith) calls
      (record { registry = 0; outbound = [] }) (omega arith, (omega arith, (omega arith, tt)))
