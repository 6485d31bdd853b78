-- ===== src/Core/Users/Tests.antt =====
-- A database with room for one user, and the theorem at inputs that meet its hypotheses.
use dcscan_modules_api.Prelude.{
  ℕ, zero, suc, ◌+◌, ◌≡◌, refl, ap, ◌≢◌, true, false, Option, none, some, List, [], ◌∷◌, ◌++◌, drop,
  map, arith, if◌then◌else◌, length, get_or, length-map,
}
use dcscan_modules_api.Utils.Timer.{codes}
use dcscan_modules_api.Core.Database.{
  Chars, Value, Outcome, Sqlite, marks, insert_entry, log_event, query_entries, text_rows,
}
use dcscan_modules_api.Core.Database.Cache.{same_chars}
use dcscan_modules_api.Core.Users.{add_user, get_user, insert_user, has_char}
use dcscan_modules_api.Network.Server.{Server, start_thread}
use dcscan_modules_api.Network.Server.Packets.{stream}
use dcscan_modules_api.Network.Message.{Message, Memory, wire, decode}
use dcscan_modules_api.Network.Client.{Cipher, Client, dispatch, answer_challenge, attempt_of}
use dcscan_modules_api.Network.Client.Calling.{joined}
use dcscan_modules_api.Network.Client.Admission.{credentials_of, added_user_logs_in}
use dcscan_modules_api.Utils.ByteQueue.{create}
use dcscan_modules_api.Core.Users.Login.{rows_for, blob_in, acceptable, IsUserTable, add_user-found}

abbrev bob : Chars
bob = codes "bob"

abbrev put : List Value → Option (List ℕ) → Option (List ℕ)
put (Value.text name ∷ Value.blob blob ∷ rest) s = some blob
put _ s = s

abbrev one_user : Sqlite (Option (List ℕ))
one_user = record {
  select = λ query s.
      if same_chars query (codes "SELECT USERNAME FROM USERS WHERE USERNAME = \"bob\"")
      then some (rows_for s bob)
      else if same_chars query (codes "SELECT PASS_HASH FROM USERS WHERE USERNAME = \"bob\"")
      then some (rows_for s (blob_in s))
      else some [];
  execute = λ statement values s. Outcome.stepped (
      if same_chars statement
        (codes "INSERT OR REPLACE INTO USERS (USERNAME,PASS_HASH,ACCESS_LVL) VALUES (?,?,?)")
      then put values s
      else if same_chars statement (codes "DELETE FROM USERS WHERE USERNAME = \"bob\"")
      then none
      else s);
}

abbrev IsBob : Chars → Type 0
IsBob n = n ≡ bob

abbrev view : Option (List ℕ) → Chars → Option (List ℕ)
view s n = s

one_user-IsUserTable : IsUserTable one_user IsBob view
unfolding insert_entry marks log_event same_chars
one_user-IsUserTable = record {
  names = λ n s p. rw p refl;
  hashes = λ n s p. rw p refl;
  inserted = λ n m blob s p q. rw (p, q) refl;
  logged = λ who operation what m s p. refl;
}

zeros : ℕ → List ℕ
zeros zero = []
zeros (suc n) = 0 ∷ zeros n

abbrev hash_of : Chars → List ℕ
hash_of password = length password ∷ zeros 31

size : (password : Chars) → length (hash_of password) ≡ 32
unfolding zeros
size password = refl

add_user-found_example :
    let t = insert_user one_user hash_of bob (codes "abcd1") none in
    (add_user one_user hash_of [] bob (codes "abcd1") none
      ≡ some (if acceptable bob (codes "abcd1") then t else none))
    × (get_user one_user [] bob t ≡ some (record { u = bob; p = 5 ∷ zeros 31 }))
    × ((m : Chars) → IsBob m → bob ≢ m → get_user one_user [] m t ≡ get_user one_user [] m none)
add_user-found_example =
    add_user-found one_user IsBob view one_user-IsUserTable hash_of size [] bob (codes "abcd1") none
      refl refl

too_short : add_user one_user hash_of [] bob (codes "abc1") none ≡ some none
unfolding add_user get_user query_entries text_rows same_chars has_char
too_short = refl

abbrev cipher : Cipher
cipher = record {
  sha256 = hash_of;
  encrypt = λ key text iv. map (λ b. b + get_or key 0 0) text;
  tag = λ key text iv. zeros 16;
}

size_tag : (key text iv : List ℕ) → length (cipher.tag key text iv) ≡ 16
unfolding zeros
size_tag key text iv = refl

length-zeros : (n : ℕ) → length (zeros n) ≡ n
unfolding zeros
length-zeros zero = refl
length-zeros (suc n) = ap suc (length-zeros n)

abbrev server : Server
server = record {
  receive_thread = false;
  send_thread = false;
  running = false;
  client = none;
  username = none;
  sent = [];
  closed = [];
}

abbrev client : Client ℕ
client = record {
  receive_thread = true;
  send_thread = false;
  running = true;
  conn_valid = 0;
  inbound = create 4096;
  calls = record {
    nid = 0;
    outbound = [];
    lmessage = record { op = 0; id = 0; size = 0; ptr = none };
    promises = [];
    fulfilled = [];
  };
  events = 0;
  sent = [];
  closed = [];
}

abbrev with_bob : Option (List ℕ)
with_bob = insert_user one_user hash_of bob (codes "abcd1") none

accepted : acceptable bob (codes "abcd1") ≡ true
unfolding has_char
accepted = refl

bob_added : add_user one_user hash_of [] bob (codes "abcd1") none ≡ some with_bob
unfolding add_user get_user query_entries text_rows same_chars has_char
bob_added = refl

not_invalid : same_chars bob (codes "INVALID_USER") ≡ false
unfolding same_chars
not_invalid = refl

abbrev memory : Memory
memory = record { op = 77; id = 78; array = zeros }

added_user_logs_in_example :
    let heard =
      attempt_of
        (zeros 32)
        (9 ∷ [])
        (joined (answer_challenge cipher [] (zeros 32) (zeros 32) (9 ∷ []) bob (codes "abcd1"))) in
    let (ok, after) =
      start_thread (credentials_of one_user cipher [] with_bob) [] [] [] 6 heard server in
    (ok ≡ true)
    × (after.username ≡ some bob)
    × ((word : Message) × (stream 6 after.sent
          ≡ stream 6 ((server.sent ++ (6, zeros 32) ∷ []) ++ (6, 9 ∷ []) ∷ []) ++ wire word)
        × (decode memory (drop 4 (wire word)) ≡ some word)
        × (dispatch (λ evt_id bytes n. n + evt_id) word client
            ≡ some (record client { conn_valid = 1 })))
added_user_logs_in_example =
    added_user_logs_in one_user IsBob view one_user-IsUserTable cipher size
      (λ key text iv. length-map (λ b. b + get_or key 0 0) text) size_tag
      (λ evt_id bytes n. n + evt_id) memory client bob (codes "abcd1") none with_bob [] []
      (zeros 32) (zeros 32) (9 ∷ []) [] [] [] 6 server refl
      ((λ e. omega (arith, e)), ((λ e. omega (arith, e)), ((λ e. omega (arith, e)), tt)))
      (omega arith) not_invalid refl accepted bob_added (length-zeros 32) (length-zeros 32) refl
      refl
