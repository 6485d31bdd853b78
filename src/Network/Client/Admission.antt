-- ===== src/Network/Client/Admission.antt =====
-- From the database of users to the log-in: who was added gets in with the same password.
use dcscan_modules_api.Prelude.{
  ℕ, ◌+◌, ◌<◌, ◌≡◌, refl, sym, ap, ◌∙◌, true, false, Option, none, some, List, if◌then◌else◌,
  length, drop, drop_exact, ◌++◌, [], ◌∷◌, arith,
}
use mathlib.Core.Path.{subst}
use dcscan_modules_api.Core.Database.{Chars, Sqlite}
use dcscan_modules_api.Core.Database.Cache.{same_chars}
use dcscan_modules_api.Core.Users.{User, invalid_user, get_user, add_user, insert_user}
use dcscan_modules_api.Core.Users.Login.{IsUserTable, acceptable, add_user-found}
use dcscan_modules_api.Network.Server.{Server, Credentials, Attempt, start_thread}
use dcscan_modules_api.Prelude.Words.{le_bytes, length-le_bytes}
use dcscan_modules_api.Network.Message.{Message, Memory, wire, decode}
use dcscan_modules_api.Network.Message.RoundTrip.{packet, decode-packet}
use dcscan_modules_api.Network.Server.Packets.{stream, error_message, validity_message}
use dcscan_modules_api.Network.Client.{dispatch, Cipher, Client, answer_challenge, attempt_of}
use dcscan_modules_api.Network.Client.Calling.{IsText, joined, log_in}

-- What the server makes of a look-up: the key, unless the name is the one for no user.
abbrev pub key_of : Option User → Option (List ℕ)
key_of none = none
key_of (some user) = if same_chars user.u invalid_user then none else some user.p

-- The credentials of a server with a database of users.
abbrev pub credentials_of : {S : Type 0} → Sqlite S → Cipher → List ℕ → S → Credentials
credentials_of sqlite cipher unset s = record {
  get_user = λ username. key_of (get_user sqlite unset username s);
  encrypt = cipher.encrypt;
}

decode-validity :
    (memory : Memory)
    → decode memory (drop 4 (wire (validity_message 1))) ≡ some (validity_message 1)
unfolding wire
decode-validity memory =
    ap (decode memory)
      (drop_exact 4 (le_bytes 4 10) (packet (validity_message 1)) (length-le_bytes 4 10))
    ∙ decode-packet memory (validity_message 1) (record {
      payload = 1 ∷ [];
      filled = refl;
      sized = refl;
      not_empty = omega arith;
      small = omega arith;
      op_byte = omega arith;
      id_word = omega arith;
    })

module _ {S : Type 0} (sqlite : Sqlite S) (Plain : Chars → Type 0)
    (view : S → Chars → Option (List ℕ)) (table : IsUserTable sqlite Plain view) (cipher : Cipher)
    (size_hash : (password : Chars) → length (cipher.sha256 password) ≡ 32)
    (size_text : (key text iv : List ℕ) → length (cipher.encrypt key text iv) ≡ length text)
    (size_tag : (key text iv : List ℕ) → length (cipher.tag key text iv) ≡ 16) where
  -- Where SQLite keeps a table of users, a hash has 32 bytes, and the cipher keeps the length of a
  -- text with tags of 16 bytes: a user is added under a new name of at most 30 bytes, none of them
  -- zero, that is not the name for no user, with a password that is accepted. A server that serves
  -- nobody then lets a client with this name and password in, as that user, whatever the challenge.
  -- Behind the challenge and the initial vector the server sends to the socket the bytes of one
  -- message; the decoder of the client makes that message of them, whatever its fresh memory holds,
  -- and takes the connection for valid.
  pub added_user_logs_in :
      {E : Type 0} (callback : ℕ → List ℕ → E → E) (memory : Memory) (client : Client E)
      (name password : Chars) (s t : S) (unset garbage user r iv refusal busy wait_for : List ℕ)
      (socket : ℕ) (server : Server)
      → Plain name
      → IsText name
      → length name + 1 < 32
      → same_chars name invalid_user ≡ false
      → view s name ≡ none
      → acceptable name password ≡ true
      → add_user sqlite cipher.sha256 unset name password s ≡ some t
      → length user ≡ 32
      → length r ≡ 32
      → server.receive_thread ≡ false
      → server.send_thread ≡ false
      → let heard =
          attempt_of r iv (joined (answer_challenge cipher garbage user r iv name password)) in
        let (ok, after) =
          start_thread
            (credentials_of sqlite cipher unset t)
            refusal
            busy
            wait_for
            socket
            heard
            server in
        (ok ≡ true)
        × (after.username ≡ some name)
        × ((word : Message) × (stream socket after.sent
              ≡ stream socket ((server.sent ++ (socket, r) ∷ []) ++ (socket, iv) ∷ []) ++ wire word)
            × (decode memory (drop 4 (wire word)) ≡ some word)
            × (dispatch callback word client ≡ some (record client { conn_valid = 1 })))
  unfolding attempt_of
  added_user_logs_in callback memory client name password s t unset garbage user r iv refusal busy
        wait_for socket server plain text short real new accepted added size_user size_r free idle =
      let (adds, finds, others) =
        add_user-found sqlite Plain view table cipher.sha256 size_hash unset name password s plain
          new in
      let inserted = insert_user sqlite cipher.sha256 name password s in
      let same : t ≡ inserted =
        some_same (sym added ∙ adds ∙ ap (λ b. some (if b then inserted else s)) accepted) in
      let key : key_of (get_user sqlite unset name t) ≡ some (cipher.sha256 password) =
        ap (λ x. key_of (get_user sqlite unset name x)) same
        ∙ ap key_of finds
        ∙ ap (λ b. if b then none else some (cipher.sha256 password)) real in
      let (heard_name, lets_in, admitted, told) =
        log_in cipher size_text size_tag garbage user r iv name password size_user size_r short text
          (credentials_of sqlite cipher unset t) refusal refl callback busy wait_for socket
          (cipher.sha256 password) server client free idle key in
      let heard : Attempt =
        attempt_of r iv (joined (answer_challenge cipher garbage user r iv name password)) in
      let ok = lets_in.1 refl in
      (
        ok,
        admitted.user
            ∙ ap (λ b. if b then some heard.username else server.username) ok
            ∙ ap some heard_name,
        (
          validity_message 1,
          admitted.told
              ∙ ap
                  (λ b.
                    stream socket ((server.sent ++ (socket, r) ∷ []) ++ (socket, iv) ∷ [])
                    ++ (if b
                        then wire (validity_message 1)
                        else wire (error_message refusal) ++ wire (validity_message 2)))
                  ok,
          decode-validity memory,
          subst
              (λ b.
                dispatch callback (validity_message (if b then 1 else 2)) client
                ≡ some (record client { conn_valid = if b then 1 else 2 }))
              ok told,
        ),
      )
    where
      some_same : {a b : S} → some a ≡ some b → a ≡ b
      some_same e = cc
