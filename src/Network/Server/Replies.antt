-- ===== src/Network/Server/Replies.antt =====
-- Every request is answered once, in order.
use dcscan_modules_api.Prelude.{
  ℕ, ◌+◌, ◌<◌, ◌≡◌, refl, sym, ap, ◌∙◌, inl, inr, some, List, [], ◌∷◌, ◌++◌, append-nil,
  append_assoc, arith, ◌==◌, if◌then◌else◌, lt→ltb, Bool-cases, length, get_or, take, take_all, All,
}
use dcscan_modules_api.Network.Message.{
  Message, Memory, set_copy_id, bytes_of, message_xtra_space, internal_code,
}
use dcscan_modules_api.Network.Message.RoundTrip.{alloc_lem}
use dcscan_modules_api.Network.Server.{Registry, Host, respond, on_event, handle, handle_all}

-- The kinds of messages that the decoder tells apart.
pub data Kind : Type 0 where
  async_call sync_call subscribe unsubscribe other : Kind

abbrev pub kind : Message → Kind
kind msg =
    if msg.op == 3
    then Kind.async_call
    else if msg.op == 2
    then Kind.sync_call
    else if msg.op == 7
    then Kind.subscribe
    else if msg.op == 9
    then Kind.unsubscribe
    else Kind.other

copied_lem :
    (code id n : ℕ) (bytes : List ℕ) (fresh : Message)
    → 0 < n
    → fresh.size ≡ n
    → length bytes ≡ n
    → set_copy_id code id bytes fresh ≡ record { op = code; id = id; size = n; ptr = some bytes }
unfolding set_copy_id
copied_lem code id n bytes fresh h e l =
    rw (e, lt→ltb 0 n h)
      (ap (λ xs. record { op = code; id = id; size = n; ptr = some xs })
        (ap (λ k. take k bytes) (sym l) ∙ take_all bytes))

module _ {R : Type 0} (registry : Registry R) (memory : Memory) where
  abbrev pub reply : ℕ → Message → R → Message
  reply code msg state = record {
    op = code;
    id = msg.id;
    size = registry.sv_return_size;
    ptr = some (registry.execute (bytes_of msg.ptr) state).0;
  }

  abbrev first_byte : Message → ℕ
  first_byte msg = get_or (bytes_of msg.ptr) 0 0

  -- What a message does to the registry, and the answers that it asks for.
  abbrev pub effect : Kind → Message → R → R
  effect Kind.async_call msg s = (registry.execute (bytes_of msg.ptr) s).1
  effect Kind.sync_call msg s = (registry.execute (bytes_of msg.ptr) s).1
  effect Kind.subscribe msg s = registry.set_event (first_byte msg) s
  effect Kind.unsubscribe msg s = registry.unset_event (first_byte msg) s
  effect Kind.other msg s = s

  abbrev pub answers : Kind → Message → R → List Message
  answers Kind.async_call msg s = reply 6 msg s ∷ []
  answers Kind.sync_call msg s = reply 5 msg s ∷ []
  answers Kind.subscribe msg s = []
  answers Kind.unsubscribe msg s = []
  answers Kind.other msg s = []

  pub effects : List Message → R → R
  effects [] s = s
  effects (msg ∷ msgs) s = effects msgs (effect (kind msg) msg s)

  pub all_answers : List Message → R → List Message
  all_answers [] s = []
  all_answers (msg ∷ msgs) s =
      answers (kind msg) msg s ++ all_answers msgs (effect (kind msg) msg s)

  module _
      (sized : (params : List ℕ) (s : R)
        → length (registry.execute params s).0 ≡ registry.sv_return_size)
      (some_size : 0 < registry.sv_return_size) where
    respond_lem :
        (code : ℕ) (msg : Message) (h : Host R)
        → respond registry memory code msg h
          ≡ some (record {
            registry = (registry.execute (bytes_of msg.ptr) h.registry).1;
            outbound = h.outbound ++ reply code msg h.registry ∷ [];
          })
    unfolding respond
    respond_lem code msg h =
        rw (alloc_lem memory (registry.sv_return_size + message_xtra_space) (omega arith)) (
          ap
            (λ m. some (record {
              registry = (registry.execute (bytes_of msg.ptr) h.registry).1;
              outbound = h.outbound ++ m ∷ [];
            }))
            (copied_lem code msg.id registry.sv_return_size _ _ some_size (omega arith)
              (sized (bytes_of msg.ptr) h.registry)))

    -- A subscription says which event it is for.
    abbrev pub Readable : Message → Type 0
    Readable msg = 0 < length (bytes_of msg.ptr)

    on_event_lem :
        (f : ℕ → R → R) (bytes : List ℕ) (h : Host R)
        → 0 < length bytes
        → on_event registry memory f bytes h
          ≡ some (record h { registry = f (get_or bytes 0 0) h.registry })
    on_event_lem f [] h readable = absurd (omega (arith, readable))
    on_event_lem f (event ∷ bytes) h readable = refl

    pub handle_lem :
        (msg : Message) (h : Host R)
        → Readable msg
        → handle registry memory msg h
          ≡ some (record {
            registry = effect (kind msg) msg h.registry;
            outbound = h.outbound ++ answers (kind msg) msg h.registry;
          })
    unfolding handle internal_code
    handle_lem msg h readable = elim (Bool-cases (msg.op == 3)) [
      | inl is_async ↦ rw is_async (respond_lem 6 msg h)
      | inr e3 ↦ elim (Bool-cases (msg.op == 2)) [
        | inl is_sync ↦ rw (e3, is_sync) (respond_lem 5 msg h)
        | inr e2 ↦ elim (Bool-cases (msg.op == 7)) [
          | inl is_sub ↦ rw (e3, e2, is_sub) (silent registry.set_event)
          | inr e7 ↦ elim (Bool-cases (msg.op == 9)) [
            | inl is_unsub ↦ rw (e3, e2, e7, is_unsub) (silent registry.unset_event)
            | inr e9 ↦
                rw (e3, e2, e7, e9)
                  (ap (λ o. some (record { registry = h.registry; outbound = o }))
                    (sym (append-nil h.outbound)))
          ]
        ]
      ]
    ]
      where
        silent :
            (f : ℕ → R → R)
            → on_event registry memory f (bytes_of msg.ptr) h
              ≡ some (record {
                registry = f (get_or (bytes_of msg.ptr) 0 0) h.registry;
                outbound = h.outbound ++ [];
              })
        silent f =
            on_event_lem f (bytes_of msg.ptr) h readable
            ∙ ap
                (λ o. some (record {
                  registry = f (get_or (bytes_of msg.ptr) 0 0) h.registry;
                  outbound = o;
                }))
                (sym (append-nil h.outbound))

    -- Where a call returns as many bytes as the return type has, at least one, and no message is
    -- empty, the decoder handles any sequence of messages without a fault: every call is executed
    -- once, in order, and answered once under its own id and the code of its kind, behind what was
    -- queued before; a subscription changes the registry and is not answered; nothing else is done.
    pub handle_all-answers :
        (msgs : List Message) (h : Host R)
        → All Readable msgs
        → handle_all registry memory msgs h
          ≡ some (record {
            registry = effects msgs h.registry;
            outbound = h.outbound ++ all_answers msgs h.registry;
          })
    unfolding handle_all effects all_answers
    handle_all-answers [] h readable = ground (arith, append-nil h.outbound)
    handle_all-answers (msg ∷ msgs) h readable = rw (handle_lem msg h readable.0) (
        handle_all-answers msgs
          (record {
            registry = effect (kind msg) msg h.registry;
            outbound = h.outbound ++ answers (kind msg) msg h.registry;
          })
          readable.1
        ∙ ap
            (λ o.
              some (record {
                registry = effects msgs (effect (kind msg) msg h.registry);
                outbound = o;
              }))
            (append_assoc h.outbound (answers (kind msg) msg h.registry)
              (all_answers msgs (effect (kind msg) msg h.registry))))
