-- ===== src/Network/Client/Calling.antt =====
-- The log-in and a call, end to end: the client, the wire and the server.
use dcscan_modules_api.Prelude.{
  ℕ, zero, suc, ◌+◌, ◌<◌, ◌≡◌, refl, sym, ap, ◌∙◌, ◌≢◌, ◌↔◌, inl, inr, Bool, true, false, some,
  List, [], ◌∷◌, ◌++◌, arith, leb, if◌then◌else◌, leb→le, ==_iff, Bool-cases, length, take, drop,
  length-append, length-drop, take_exact, drop_exact, All,
}
use mathlib.Core.Path.{subst}
use dcscan_modules_api.Network.Message.{internal_code}
use dcscan_modules_api.Network.Server.{Server, Credentials, Attempt, same_bytes, start_thread}
use dcscan_modules_api.Network.Server.Packets.{validity_message}
use dcscan_modules_api.Network.Server.Login.{knows, answers_with, IsAdmitted, start_thread_lem}
use dcscan_modules_api.Network.Client.{
  c_string, Cipher, strcpy, answer_challenge, attempt_of, Client, dispatch,
}

-- A text without a zero byte.
abbrev pub IsText : List ℕ → Type 0
IsText = All (λ b. b ≢ 0)

c_string-strcpy : (text rest : List ℕ) → IsText text → c_string (text ++ 0 ∷ rest) ≡ text
unfolding c_string
c_string-strcpy [] rest v = refl
c_string-strcpy (b ∷ text) rest v = ground (arith, c_string-strcpy text rest v.1, v.0)

same_bytes_iff :
    (n : ℕ) (xs ys : List ℕ)
    → length xs ≡ n
    → length ys ≡ n
    → (same_bytes n xs ys ≡ true) ↔ (xs ≡ ys)
unfolding same_bytes
same_bytes_iff zero [] [] h k = ground arith
same_bytes_iff zero (x ∷ xs) ys h k = ground arith
same_bytes_iff zero [] (y ∷ ys) h k = ground arith
same_bytes_iff (suc n) [] ys h k = ground arith
same_bytes_iff (suc n) (x ∷ xs) [] h k = ground arith
same_bytes_iff (suc n) (x ∷ xs) (y ∷ ys) h k =
    ground (arith, same_bytes_iff n xs ys (omega (arith, h)) (omega (arith, k)), ==_iff x y)

same_bytes-take :
    (n : ℕ) (xs ys zs : List ℕ) → length ys ≡ n → same_bytes n xs (ys ++ zs) ≡ same_bytes n xs ys
unfolding same_bytes
same_bytes-take zero xs ys zs h = refl
same_bytes-take (suc n) xs [] zs h = ground arith
same_bytes-take (suc n) [] (y ∷ ys) zs h = refl
same_bytes-take (suc n) (x ∷ xs) (y ∷ ys) zs h =
    rw (same_bytes-take n xs ys zs (omega (arith, h))) refl

-- The bytes of the sends in one piece.
abbrev pub joined : List (List ℕ) → List ℕ
joined [] = []
joined (bytes ∷ sent) = bytes ++ joined sent

module _ (cipher : Cipher)
    (size_text : (key text iv : List ℕ) → length (cipher.encrypt key text iv) ≡ length text)
    (size_tag : (key text iv : List ℕ) → length (cipher.tag key text iv) ≡ 16)
    (garbage user r iv name password : List ℕ) (size_user : length user ≡ 32)
    (size_r : length r ≡ 32) (short : length name + 1 < 32) (text : IsText name) where
  abbrev key : List ℕ
  key = cipher.sha256 password

  abbrev sends : List (List ℕ)
  sends = answer_challenge cipher garbage user r iv name password

  abbrev heard : Attempt
  heard = attempt_of r iv (joined sends)

  length-strcpy : length (strcpy name user) ≡ 32
  unfolding strcpy
  length-strcpy = omega (
    arith,
    length-append name (0 ∷ drop (length name + 1) user),
    length-drop (length name + 1) user,
    size_user,
    short,
  )

  abbrev answer : List ℕ
  answer = cipher.encrypt key r iv ++ cipher.tag key r iv

  length-answer : length answer ≡ 48
  length-answer = omega (
    arith,
    length-append (cipher.encrypt key r iv) (cipher.tag key r iv),
    size_text key r iv,
    size_tag key r iv,
    size_r,
  )

  sends_lem : sends ≡ strcpy name user ∷ answer ∷ []
  unfolding answer_challenge
  sends_lem = elim (Bool-cases (leb 32 (length name + 1))) [
    | inl long ↦ absurd (omega (arith, leb→le 32 (length name + 1) long, short))
    | inr fits ↦ rw fits refl
  ]

  heard_name : heard.username ≡ name
  unfolding attempt_of strcpy
  heard_name =
      ap (λ x. c_string (take 32 (joined x))) sends_lem
      ∙ ap c_string (take_exact 32 (strcpy name user) (answer ++ []) length-strcpy)
      ∙ c_string-strcpy name (drop (length name + 1) user) text

  heard_answer : heard.answer ≡ answer
  unfolding attempt_of
  heard_answer =
      ap (λ x. take 48 (drop 32 (joined x))) sends_lem
      ∙ ap (take 48) (drop_exact 32 (strcpy name user) (answer ++ []) length-strcpy)
      ∙ take_exact 48 answer [] length-answer

  module _ (credentials : Credentials) (refusal : List ℕ)
      (same : credentials.encrypt ≡ cipher.encrypt) where
    knows_lem :
        (stored : List ℕ)
        → credentials.get_user name ≡ some stored
        → knows credentials refusal heard
          ≡ same_bytes 32 (cipher.encrypt stored r iv) (cipher.encrypt key r iv)
    unfolding attempt_of
    knows_lem stored e =
        ap (λ n. answers_with credentials refusal heard (credentials.get_user n)) heard_name
        ∙ ap (answers_with credentials refusal heard) e
        ∙ ap (λ f. same_bytes 32 (f stored heard.r heard.iv) heard.answer) same
        ∙ ap (same_bytes 32 (cipher.encrypt stored r iv)) heard_answer
        ∙ same_bytes-take 32 (cipher.encrypt stored r iv) (cipher.encrypt key r iv)
            (cipher.tag key r iv) (size_text key r iv ∙ size_r)

    -- What the client makes of the server's word.
    validity_lem :
        {E : Type 0} (callback : ℕ → List ℕ → E → E) (ok : Bool) (c : Client E)
        → dispatch callback (validity_message (if ok then 1 else 2)) c
          ≡ some (record c { conn_valid = if ok then 1 else 2 })
    unfolding dispatch internal_code
    validity_lem callback true c = refl
    validity_lem callback false c = refl

    -- The log-in between the two programs, where the cipher keeps the length of a text and its tags have
    -- 16 bytes, the name has at most 30 bytes, none of them zero, and the server, which serves nobody,
    -- knows a user of that name: from the bytes that the client answers the challenge with the server
    -- reads the name that was given, and lets the client in exactly if the stored key and the hash of
    -- the password encrypt the challenge alike. Its packets are those of `IsAdmitted`, and the decoder
    -- of the client takes the last of them for a valid connection exactly then.
    pub log_in :
        {E : Type 0} (callback : ℕ → List ℕ → E → E) (busy wait_for : List ℕ) (socket : ℕ)
        (stored : List ℕ) (s : Server) (c : Client E)
        → s.receive_thread ≡ false
        → s.send_thread ≡ false
        → credentials.get_user name ≡ some stored
        → let (ok, t) = start_thread credentials refusal busy wait_for socket heard s in
          (heard.username ≡ name)
          × ((ok ≡ true) ↔ (cipher.encrypt stored r iv ≡ cipher.encrypt key r iv))
          × IsAdmitted credentials refusal socket heard ok
              (record s { sent = (s.sent ++ (socket, heard.r) ∷ []) ++ (socket, heard.iv) ∷ [] })
              t
          × (dispatch callback (validity_message (if ok then 1 else 2)) c
              ≡ some (record c { conn_valid = if ok then 1 else 2 }))
    log_in callback busy wait_for socket stored s c free idle e =
        let (same_ok, admitted) =
          start_thread_lem credentials refusal busy wait_for socket heard s free idle in
        let ok = (start_thread credentials refusal busy wait_for socket heard s).0 in
        let alike =
          same_bytes_iff 32 (cipher.encrypt stored r iv) (cipher.encrypt key r iv)
            (size_text stored r iv ∙ size_r) (size_text key r iv ∙ size_r) in
        let decides = same_ok ∙ knows_lem stored e in
        (
          heard_name,
          ((λ t. alike.0 (sym decides ∙ t)), λ t. decides ∙ alike.1 t),
          subst
              (λ b.
                IsAdmitted credentials refusal socket heard b
                  (record s {
                    sent = (s.sent ++ (socket, heard.r) ∷ []) ++ (socket, heard.iv) ∷ [];
                  })
                  (start_thread credentials refusal busy wait_for socket heard s).1)
              (sym same_ok) admitted,
          validity_lem callback ok c,
        )
