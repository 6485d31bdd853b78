-- ===== src/Network/Client/Tests.antt =====
-- Runs of the client on small inputs, and the theorems at inputs that meet their hypotheses.
use dcscan_modules_api.Prelude.{
  ℕ, zero, suc, ◌+◌, ◌<◌, min, ◌≡◌, if◌then◌else◌, refl, ◌↔◌, true, false, none, some, List, [],
  ◌∷◌, map, arith, if◌then◌else◌, get_or, take, drop, length-take, take-append-drop, length-map,
}
use dcscan_modules_api.Utils.ByteQueue.{create, count}
use dcscan_modules_api.Network.Message.{Message, Memory}
use dcscan_modules_api.Network.Calls.{Calls, wait_for_id, mem}
use dcscan_modules_api.Network.Server.{Server, Credentials, Registry, start_thread}
use dcscan_modules_api.Network.Server.Packets.{validity_message}
use dcscan_modules_api.Network.Server.Login.{IsAdmitted}
use dcscan_modules_api.Network.Client.{
  read_bytes, Cipher, answer_challenge, attempt_of, Client, Round, dispatch, start_sending, hang_up,
}
use dcscan_modules_api.Network.Client.Reading.{read_bytes-exact}
use dcscan_modules_api.Network.Client.Calling.{joined, log_in}
use dcscan_modules_api.Network.Client.Promises.{call_async, call_async-returns}
use dcscan_modules_api.Network.Client.Waiting.{call_sync, call_sync-returns}
use dcscan_modules_api.Network.Client.Lifecycle.{rounds, hang_up_strands}

-- Two bytes at most arrive at a time.
abbrev two_at_most : ℕ → List ℕ → List ℕ × List ℕ
two_at_most n s = (take (min n 2) s, drop (min n 2) s)

read_three : read_bytes two_at_most 3 3 (7 ∷ 8 ∷ 9 ∷ 10 ∷ []) ≡ some (7 ∷ 8 ∷ 9 ∷ [], 10 ∷ [])
unfolding read_bytes
read_three = refl

read_bytes-exact_example :
    (s' : List ℕ) × (read_bytes two_at_most 3 3 (7 ∷ 8 ∷ 9 ∷ 10 ∷ []) ≡ some (7 ∷ 8 ∷ 9 ∷ [], s'))
    × (s' ≡ 10 ∷ [])
read_bytes-exact_example =
    read_bytes-exact two_at_most (λ s. s) (λ n s h k. take-append-drop (min n 2) s)
      (λ n s h k. omega (arith, h, k, length-take (min n 2) s))
      (λ n s h k. omega (arith, h, k, length-take (min n 2) s)) 3 (7 ∷ 8 ∷ 9 ∷ 10 ∷ [])
      (omega arith)

-- A cipher that adds the first byte of the key.
abbrev shift : Cipher
shift = record {
  sha256 = λ p. p;
  encrypt = λ key text iv. map (λ b. b + get_or key 0 0) text;
  tag = λ key text iv. 0 ∷ 0 ∷ 0 ∷ 0 ∷ 0 ∷ 0 ∷ 0 ∷ 0 ∷ 0 ∷ 0 ∷ 0 ∷ 0 ∷ 0 ∷ 0 ∷ 0 ∷ 0 ∷ [];
}

abbrev users : Credentials
users = record { get_user = λ name. some (3 ∷ []); encrypt = shift.encrypt }

abbrev bytes_32 : List ℕ
bytes_32 =
    1 ∷ 2 ∷ 3 ∷ 4 ∷ 5 ∷ 6 ∷ 7 ∷ 8 ∷ 1 ∷ 2 ∷ 3 ∷ 4 ∷ 5 ∷ 6 ∷ 7 ∷ 8 ∷ 1 ∷ 2 ∷ 3 ∷ 4 ∷ 5 ∷ 6 ∷ 7 ∷ 8
    ∷ 1 ∷ 2 ∷ 3 ∷ 4 ∷ 5 ∷ 6 ∷ 7 ∷ 8 ∷ []

abbrev free_server : Server
free_server = record {
  receive_thread = false;
  send_thread = false;
  running = false;
  client = none;
  username = none;
  sent = [];
  closed = [];
}

abbrev free_client : Client ℕ
free_client = record {
  receive_thread = false;
  send_thread = false;
  running = false;
  conn_valid = 0;
  inbound = create 4096;
  calls = record {
    nid = 5;
    outbound = [];
    lmessage = record { op = 0; id = 0; size = 0; ptr = none };
    promises = 4 ∷ [];
    fulfilled = [];
  };
  events = 0;
  sent = [];
  closed = [];
}

abbrev callback : ℕ → List ℕ → ℕ → ℕ
callback evt_id bytes n = n + evt_id

log_in_example :
    let heard =
      attempt_of bytes_32
        (9 ∷ [])
        (joined (answer_challenge shift [] bytes_32 bytes_32 (9 ∷ []) (65 ∷ []) (3 ∷ []))) in
    let (ok, t) = start_thread users (70 ∷ []) [] [] 6 heard free_server in
    (heard.username ≡ 65 ∷ [])
    × ((ok ≡ true)
        ↔ (shift.encrypt (3 ∷ []) bytes_32 (9 ∷ []) ≡ shift.encrypt (3 ∷ []) bytes_32 (9 ∷ [])))
    × IsAdmitted users
        (70 ∷ [])
        6
        heard
        ok
        (record free_server { sent = (6, heard.r) ∷ (6, heard.iv) ∷ [] })
        t
    × (dispatch callback (validity_message (if ok then 1 else 2)) free_client
        ≡ some (record free_client { conn_valid = if ok then 1 else 2 }))
log_in_example =
    log_in shift (λ key text iv. length-map (λ b. b + get_or key 0 0) text) (λ key text iv. refl) []
      bytes_32 bytes_32 (9 ∷ []) (65 ∷ []) (3 ∷ []) refl refl (omega arith)
      ((λ e. omega (arith, e)), tt) users (70 ∷ []) refl callback [] [] 6 (3 ∷ []) free_server
      free_client refl refl refl

abbrev counting : Registry ℕ
counting = record {
  execute = λ params n. (get_or params 0 0 ∷ n ∷ [], n + 1);
  sv_return_size = 2;
  set_event = λ event n. n;
  unset_event = λ event n. n;
}

zeros : ℕ → List ℕ
zeros zero = []
zeros (suc n) = 0 ∷ zeros n

abbrev memory : Memory
memory = record { op = 77; id = 78; array = zeros }

no_promise : mem 5 (4 ∷ []) ≡ false
unfolding mem
no_promise = refl

call_async-returns_example :
    (request : Message) × (answer : Message) × (call_async counting memory callback
        (8 ∷ [])
        free_client
        (record { registry = 3; outbound = [] })
      ≡ some (
        record free_client {
          calls = record free_client.calls {
            nid = 6;
            outbound = request ∷ [];
            fulfilled = (5, 8 ∷ 3 ∷ []) ∷ [];
          };
        },
        record { registry = 4; outbound = answer ∷ [] },
      ))
call_async-returns_example =
    call_async-returns counting memory callback (λ params s. refl) (omega arith) (omega arith)
      (8 ∷ []) free_client (record { registry = 3; outbound = [] }) (omega arith) (omega arith)
      (omega arith) no_promise

abbrev left_over : Client ℕ
left_over = record free_client {
  receive_thread = true;
  running = true;
  inbound = record { buffer = 10 ∷ []; max_size = 4096; ntf_unblock = false };
}

some_left : 0 < count left_over.inbound
unfolding count
some_left = omega arith

hang_up_strands_example :
    (rounds callback memory 1000 (hang_up callback left_over)
      ≡ Round.again (hang_up callback left_over))
    × (start_sending callback true 6 (hang_up callback left_over) ≡ none)
hang_up_strands_example = hang_up_strands callback memory true 1000 6 left_over some_left refl

call_sync-returns_example :
    (calls : Calls) × (answer : Message) × (call_sync counting memory callback
        (8 ∷ [])
        free_client
        (record { registry = 3; outbound = [] })
      ≡ some (
        (8 ∷ 3 ∷ [], record free_client { calls = calls }),
        record { registry = 4; outbound = answer ∷ [] },
      ))
    × ((id : ℕ) → wait_for_id id calls ≡ none)
call_sync-returns_example =
    call_sync-returns counting memory callback (λ params s. refl) (omega arith) (omega arith)
      (8 ∷ []) free_client (record { registry = 3; outbound = [] }) (omega arith) (omega arith)
      (omega arith)
