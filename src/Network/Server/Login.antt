-- ===== src/Network/Server/Login.antt =====
-- Who gets in, and what everybody is told.
use dcscan_modules_api.Prelude.{
  ℕ, zero, suc, ◌≤◌, ◌≡◌, ◌↔◌, refl, sym, ap, ◌∙◌, ◌≢◌, length, take, inl, inr, Bool, true, false,
  Option, none, some, List, [], ◌∷◌, ◌++◌, append-nil, append_assoc, arith, ◌==◌, if◌then◌else◌,
  ==_iff, Bool-cases,
}
use mathlib.Core.Path.{subst}
use dcscan_modules_api.Network.Message.{wire}
use dcscan_modules_api.Network.Server.{
  Server, send_data, send_error_to_client, issue_validity, Credentials, Attempt, same_bytes, refuse,
  check_answer, authenticate, close_socket, start_send_thread, admitted, start_thread,
}
use dcscan_modules_api.Network.Server.Packets.{
  stream, stream-append, error_message, validity_message, stream-send_error, stream-issue_validity,
  stream-refuse,
}

pub same_bytes-take_iff :
    (n : ℕ) (xs ys : List ℕ)
    → n ≤ length xs
    → n ≤ length ys
    → (same_bytes n xs ys ≡ true) ↔ (take n xs ≡ take n ys)
unfolding same_bytes
same_bytes-take_iff zero xs ys h k = ground arith
same_bytes-take_iff (suc n) [] ys h k = absurd (omega (arith, h))
same_bytes-take_iff (suc n) (x ∷ xs) [] h k = absurd (omega (arith, k))
same_bytes-take_iff (suc n) (x ∷ xs) (y ∷ ys) h k =
    ground (arith, same_bytes-take_iff n xs ys (omega (arith, h)) (omega (arith, k)), ==_iff x y)

module _ (credentials : Credentials) (refusal : List ℕ) where
  -- Whether the answer is the challenge under the key of the user.
  abbrev pub answers_with : Attempt → Option (List ℕ) → Bool
  answers_with a none = false
  answers_with a (some key) = same_bytes 32 (credentials.encrypt key a.r a.iv) a.answer

  abbrev pub knows : Attempt → Bool
  knows a = answers_with a (credentials.get_user a.username)

  -- A server `t` after an attempt that was let in or not, on a server `s` that had no client.
  pub record IsAdmitted (socket : ℕ) (a : Attempt) (ok : Bool) (s t : Server) : Type 0 where
    pub receives : t.receive_thread ≡ ok
    pub sends : t.send_thread ≡ ok
    pub user : t.username ≡ (if ok then some a.username else s.username)
    pub closed : t.closed ≡ (if ok then s.closed else s.closed ++ socket ∷ [])
    pub told :
        stream socket t.sent
        ≡ stream socket s.sent
          ++ (if ok
              then wire (validity_message 1)
              else wire (error_message refusal) ++ wire (validity_message 2))

  start_send_thread-idle :
      (s : Server)
      → s.send_thread ≡ false
      → start_send_thread credentials refusal s ≡ (true, record s { send_thread = true })
  unfolding start_send_thread
  start_send_thread-idle s idle = simp idle refl

  let_in :
      (socket : ℕ) (a : Attempt) (s : Server)
      → s.send_thread ≡ false
      → let (ok, t) =
          admitted credentials refusal socket (true, record s { username = some a.username }) in
        (ok ≡ true) × IsAdmitted socket a true s t
  unfolding issue_validity send_data
  let_in socket a s idle =
      let t = record s {
        username = some a.username;
        client = some socket;
        running = true;
        receive_thread = true;
      } in
      rw (start_send_thread-idle (issue_validity socket 1 t) idle) (
        refl,
        record {
          receives = refl;
          sends = refl;
          user = refl;
          closed = refl;
          told = stream-issue_validity socket 1 t;
        },
      )

  kept_out :
      (socket : ℕ) (a : Attempt) (s : Server)
      → s.send_thread ≡ false
      → s.receive_thread ≡ false
      → let (ok, t) = admitted credentials refusal socket (refuse socket refusal s) in
        (ok ≡ false) × IsAdmitted socket a false s t
  unfolding close_socket issue_validity send_error_to_client send_data
  kept_out socket a s idle free = (
    refl,
    record {
      receives = free;
      sends = idle;
      user = refl;
      closed = refl;
      told = stream-refuse socket refusal s;
    },
  )

  check_lem :
      (socket : ℕ) (a : Attempt) (o : Option (List ℕ)) (s : Server)
      → s.send_thread ≡ false
      → s.receive_thread ≡ false
      → let (ok, t) =
          admitted credentials refusal socket (check_answer credentials refusal socket a o s) in
        (ok ≡ answers_with a o) × IsAdmitted socket a (answers_with a o) s t
  check_lem socket a none s idle free = kept_out socket a s idle free
  check_lem socket a (some key) s idle free =
      elim (Bool-cases (same_bytes 32 (credentials.encrypt key a.r a.iv) a.answer)) [
        | inl right ↦ rw right (let_in socket a s idle)
        | inr wrong ↦ rw wrong (kept_out socket a s idle free)
      ]

  pub start_thread_lem :
      (busy wait_for : List ℕ) (socket : ℕ) (a : Attempt) (s : Server)
      → s.receive_thread ≡ false
      → s.send_thread ≡ false
      → let (ok, t) = start_thread credentials refusal busy wait_for socket a s in
        (ok ≡ knows a)
        × IsAdmitted socket a
            (knows a)
            (record s { sent = (s.sent ++ (socket, a.r) ∷ []) ++ (socket, a.iv) ∷ [] })
            t
  unfolding start_thread authenticate send_data
  start_thread_lem busy wait_for socket a s free idle =
      let asked = record s { sent = (s.sent ++ (socket, a.r) ∷ []) ++ (socket, a.iv) ∷ [] } in
      subst (λ p. (p.0 ≡ knows a) × IsAdmitted socket a (knows a) asked p.1)
        {x = admitted credentials refusal socket
          (check_answer credentials refusal socket a (credentials.get_user a.username) asked)}
        {y = start_thread credentials refusal busy wait_for socket a s} (ground (arith, free))
        (check_lem socket a (credentials.get_user a.username) asked idle free)

  -- The user is known, and the first 32 bytes of the answer are the challenge under the key of the user.
  abbrev pub AnswersRightly : Attempt → Type 0
  AnswersRightly a =
      (key : List ℕ) × (credentials.get_user a.username ≡ some key)
      × (take 32 a.answer ≡ take 32 (credentials.encrypt key a.r a.iv))

  rightly_lem :
      (a : Attempt) (o : Option (List ℕ))
      → ((key : List ℕ) → o ≡ some key → 32 ≤ length (credentials.encrypt key a.r a.iv))
      → 32 ≤ length a.answer
      → (answers_with a o ≡ true) ↔ (
          (key : List ℕ) × (o ≡ some key)
          × (take 32 a.answer ≡ take 32 (credentials.encrypt key a.r a.iv)))
  rightly_lem a none h k = ((λ e. absurd (not_true e)), λ (key, e, f). cc)
    where
      not_true : false ≢ true
      not_true = λ e. cc
  rightly_lem a (some key) h k =
      let alike =
        same_bytes-take_iff 32 (credentials.encrypt key a.r a.iv) a.answer (h key refl) k in
      (
        (λ e. (key, refl, sym (alike.0 e))),
        λ (other, e, f).
            alike.1 (ap (λ x. take 32 (credentials.encrypt x a.r a.iv)) (some_same e) ∙ sym f),
      )
    where
      some_same : {x y : List ℕ} → some x ≡ some y → x ≡ y
      some_same e = cc

  -- Without a client, where an answer and the challenge under a key have at least 32 bytes: a
  -- connection is let in exactly if the user is known and the first 32 bytes of the answer are
  -- those of the challenge under the key of that user. It is sent the challenge and the initial
  -- vector, and then the packet for a valid connection, or the ones for an error and a connection
  -- that is not valid; who is let in becomes the authenticated user and gets both threads, and the
  -- socket of anybody else is closed and no thread started.
  pub start_thread-admits :
      (busy wait_for : List ℕ) (socket : ℕ) (a : Attempt) (s : Server)
      → s.receive_thread ≡ false
      → s.send_thread ≡ false
      → ((key : List ℕ)
          → credentials.get_user a.username ≡ some key
          → 32 ≤ length (credentials.encrypt key a.r a.iv))
      → 32 ≤ length a.answer
      → let (ok, t) = start_thread credentials refusal busy wait_for socket a s in
        ((ok ≡ true) ↔ AnswersRightly a)
        × IsAdmitted socket a ok
            (record s { sent = (s.sent ++ (socket, a.r) ∷ []) ++ (socket, a.iv) ∷ [] })
            t
  start_thread-admits busy wait_for socket a s free idle size_text size_answer =
      let asked = record s { sent = (s.sent ++ (socket, a.r) ∷ []) ++ (socket, a.iv) ∷ [] } in
      let t = (start_thread credentials refusal busy wait_for socket a s).1 in
      let (same_ok, admits) = start_thread_lem busy wait_for socket a s free idle in
      let rightly = rightly_lem a (credentials.get_user a.username) size_text size_answer in
      (
        ((λ e. rightly.0 (sym same_ok ∙ e)), λ r. same_ok ∙ rightly.1 r),
        subst (λ b. IsAdmitted socket a b asked t) (sym same_ok) admits,
      )

  stream-others :
      (socket other : ℕ) (bytes : List ℕ) (s : Server)
      → other ≢ socket
      → stream other (send_data socket bytes s).sent ≡ stream other s.sent
  unfolding send_data
  stream-others socket other bytes s ne =
      stream-append other s.sent ((socket, bytes) ∷ []) ∙ elim (Bool-cases (socket == other)) [
        | inl same ↦ absurd (ne (sym ((==_iff socket other).0 same)))
        | inr differs ↦ rw differs (append-nil (stream other s.sent))
      ]

  four_others :
      (socket other : ℕ) (b c d e : List ℕ) (s : Server)
      → other ≢ socket
      → stream other
          (send_data socket e (send_data socket d (send_data socket c (send_data socket b s)))).sent
        ≡ stream other s.sent
  four_others socket other b c d e s ne =
      rw
        (
          stream-others socket other e
              (send_data socket d (send_data socket c (send_data socket b s))) ne,
          stream-others socket other d (send_data socket c (send_data socket b s)) ne,
          stream-others socket other c (send_data socket b s) ne,
        )
        (stream-others socket other b s ne)

  -- While a client is served, any other connection is told so in two errors, and that it is not
  -- valid, and is closed. Nothing is sent to another socket, and but for what was sent and closed
  -- the server is the same: threads, client and user are those of the client that is served.
  pub start_thread-refuses_second :
      (busy wait_for : List ℕ) (socket other : ℕ) (a : Attempt) (s : Server)
      → s.receive_thread ≡ true
      → other ≢ socket
      → let (ok, t) = start_thread credentials refusal busy wait_for socket a s in
        (ok ≡ false)
        × (t ≡ record s { sent = t.sent; closed = s.closed ++ socket ∷ [] })
        × (stream socket t.sent
            ≡ stream socket s.sent
              ++ (wire (error_message busy)
                  ++ (wire (error_message wait_for) ++ wire (validity_message 2))))
        × (stream other t.sent ≡ stream other s.sent)
  unfolding start_thread close_socket
  start_thread-refuses_second busy wait_for socket other a s up ne =
      subst
        (λ p.
          (p.0 ≡ false)
          × (p.1 ≡ record s { sent = p.1.sent; closed = s.closed ++ socket ∷ [] })
          × (stream socket p.1.sent
              ≡ stream socket s.sent
                ++ (wire (error_message busy)
                    ++ (wire (error_message wait_for) ++ wire (validity_message 2))))
          × (stream other p.1.sent ≡ stream other s.sent))
        {x = (false, close_socket credentials refusal socket (issue_validity socket 2 two))}
        {y = start_thread credentials refusal busy wait_for socket a s} (ground (arith, up))
        (refl, unchanged, told, quiet)
    where
      one : Server
      one = send_error_to_client socket busy s

      two : Server
      two = send_error_to_client socket wait_for one

      told :
          stream socket (issue_validity socket 2 two).sent
          ≡ stream socket s.sent
            ++ (wire (error_message busy)
                ++ (wire (error_message wait_for) ++ wire (validity_message 2)))
      told =
          rw
            (
              stream-issue_validity socket 2 two,
              stream-send_error socket wait_for one,
              stream-send_error socket busy s,
            )
            (simp append_assoc refl)

      quiet : stream other (issue_validity socket 2 two).sent ≡ stream other s.sent
      quiet =
          unfold issue_validity send_error_to_client in
          four_others socket other _ _ _ _ two ne
          ∙ four_others socket other _ _ _ _ one ne
          ∙ four_others socket other _ _ _ _ s ne

      unchanged :
          record (issue_validity socket 2 two) {
            closed = (issue_validity socket 2 two).closed ++ socket ∷ [];
          }
          ≡ record s { sent = (issue_validity socket 2 two).sent; closed = s.closed ++ socket ∷ [] }
      unchanged = unfold issue_validity send_error_to_client send_data in refl
