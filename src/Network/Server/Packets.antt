-- ===== src/Network/Server/Packets.antt =====
-- The bytes that the server tells a client with are packets as its decoder expects them.
use dcscan_modules_api.Prelude.{
  ℕ, ◌+◌, ◌%◌, ◌^◌, ◌≡◌, refl, sym, ap, ◌∙◌, some, List, [], ◌∷◌, ◌++◌, append-nil, append_assoc,
  arith, ◌==◌, if◌then◌else◌, ==_refl, length, take_all,
}
use dcscan_modules_api.Prelude.Words.{le_bytes}
use dcscan_modules_api.Network.Message.{Message, wire, internal_code}
use dcscan_modules_api.Network.Server.{
  Server, send_data, send_error_to_client, issue_validity, refuse,
}

-- What was sent to a socket, in one piece.
abbrev pub stream : ℕ → List (ℕ × List ℕ) → List ℕ
stream socket [] = []
stream socket ((k, bytes) ∷ sent) =
    let rest = stream socket sent in if k == socket then bytes ++ rest else rest

pub stream-append :
    (socket : ℕ) (a b : List (ℕ × List ℕ))
    → stream socket (a ++ b) ≡ stream socket a ++ stream socket b
stream-append socket [] b = refl
stream-append socket ((k, bytes) ∷ a) b =
    ground (arith, stream-append socket a b, append_assoc bytes (stream socket a) (stream socket b))

pub stream-send_data :
    (socket : ℕ) (bytes : List ℕ) (s : Server)
    → stream socket (send_data socket bytes s).sent ≡ stream socket s.sent ++ bytes
unfolding send_data
stream-send_data socket bytes s =
    stream-append socket s.sent ((socket, bytes) ∷ [])
    ∙ ap (◌++◌ (stream socket s.sent)) (rw (==_refl socket) (append-nil bytes))

pub four_sends :
    (socket : ℕ) (a b c d : List ℕ) (s : Server)
    → stream socket
        (send_data socket d (send_data socket c (send_data socket b (send_data socket a s)))).sent
      ≡ stream socket s.sent ++ (a ++ b ++ c ++ d)
four_sends socket a b c d s =
    rw
      (
        stream-send_data socket d,
        stream-send_data socket c,
        stream-send_data socket b,
        stream-send_data socket a,
      )
      (simp append_assoc refl)

-- The packets that the client is told with.
abbrev pub error_message : List ℕ → Message
error_message text = record {
  op = 10;
  id = 0;
  size = length (text ++ 0 ∷ []);
  ptr = some (text ++ 0 ∷ []);
}

abbrev pub validity_message : ℕ → Message
validity_message validity = record { op = 11; id = 0; size = 1; ptr = some (validity ∷ []) }

pub stream-send_error :
    (socket : ℕ) (text : List ℕ) (s : Server)
    → stream socket (send_error_to_client socket text s).sent
      ≡ stream socket s.sent ++ wire (error_message text)
unfolding send_error_to_client wire internal_code le_bytes
stream-send_error socket text s =
    four_sends socket (le_bytes 4 ((length (text ++ 0 ∷ []) + 9) % 2 ^ 32)) (10 ∷ []) (le_bytes 8 0)
      (text ++ 0 ∷ []) s
    ∙ ap
        (λ xs.
          stream socket s.sent
          ++ (le_bytes 4 ((length (text ++ 0 ∷ []) + 9) % 2 ^ 32) ++ 10 ∷ (le_bytes 8 0 ++ xs)))
        (sym (take_all (text ++ 0 ∷ [])))

pub stream-issue_validity :
    (socket validity : ℕ) (s : Server)
    → stream socket (issue_validity socket validity s).sent
      ≡ stream socket s.sent ++ wire (validity_message validity)
unfolding issue_validity wire internal_code le_bytes
stream-issue_validity socket validity s =
    four_sends socket (le_bytes 4 10) (11 ∷ []) (le_bytes 8 0) (validity ∷ []) s

pub stream-refuse :
    (socket : ℕ) (text : List ℕ) (s : Server)
    → stream socket (refuse socket text s).1.sent
      ≡ stream socket s.sent ++ (wire (error_message text) ++ wire (validity_message 2))
stream-refuse socket text s =
    rw
      (
        stream-issue_validity socket 2 (send_error_to_client socket text s),
        stream-send_error socket text s,
      )
      (append_assoc (stream socket s.sent) (wire (error_message text)) (wire (validity_message 2)))
