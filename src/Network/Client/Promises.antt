-- ===== src/Network/Client/Promises.antt =====
-- A call, end to end: from the client to the function on the server and back.
use dcscan_modules_api.Prelude.{
  ℕ, ◌+◌, ◌%◌, ◌^◌, ◌<◌, ◌≡◌, refl, sym, ap, ◌∙◌, false, Option, none, some, List, [], ◌∷◌, ◌++◌,
  arith, length, drop, drop_exact,
}
use dcscan_modules_api.Prelude.Words.{le_bytes, length-le_bytes}
use mathlib.Core.Path.{subst}
use dcscan_modules_api.Network.Message.{
  Message, Memory, Operation, operation_code, internal_code, bytes_of, wire, decode,
}
use dcscan_modules_api.Network.Message.RoundTrip.{IsSendable, packet, decode-packet}
use dcscan_modules_api.Network.Calls.{
  Calls, op_code, send_async, mem, store_promise, notify_promise,
}
use dcscan_modules_api.Network.Calls.Sending.{send_async_whole}
use dcscan_modules_api.Network.Calls.Replies.{notify_after_send_async}
use dcscan_modules_api.Network.Server.{Registry, Host, handle}
use dcscan_modules_api.Network.Server.Replies.{Kind, kind, effect, answers, reply, handle_lem}
use dcscan_modules_api.Network.Client.{Client, with_calls, dispatch}

abbrev pub and_then {ℓ κ} : {A : Type ℓ} {B : Type κ} → Option A → (A → Option B) → Option B
and_then none f = none
and_then (some a) f = f a

-- The last message of a queue.
abbrev pub last_of : List Message → Option Message
last_of [] = none
last_of (m ∷ []) = some m
last_of (m ∷ n ∷ ms) = last_of (n ∷ ms)

pub last_of-append : (ms : List Message) (m : Message) → last_of (ms ++ m ∷ []) ≡ some m
last_of-append [] m = refl
last_of-append (a ∷ []) m = refl
last_of-append (a ∷ b ∷ ms) m = last_of-append (b ∷ ms) m

module _ {R : Type 0} {E : Type 0} (registry : Registry R) (memory : Memory)
    (callback : ℕ → List ℕ → E → E) where
  -- A call of `SendAsync`, up to its promise, and what follows from it while nothing else happens:
  -- the server decodes the message and handles it, and the client decodes the reply and handles that.
  abbrev pub call_async : List ℕ → Client E → Host R → Option (Client E × Host R)
  call_async params c h =
      and_then (send_async memory Operation.request params c.calls) (λ (msg, calls).
        and_then (decode memory (drop 4 (wire msg))) (λ request.
          and_then (handle registry memory request h) (λ h'.
            and_then (last_of h'.outbound) (λ answer.
              and_then (decode memory (drop 4 (wire answer))) (λ response.
                and_then
                  (dispatch callback response (record c { calls = store_promise msg.id calls }))
                  (λ c'. some (c', h')))))))

module _ {R : Type 0} {E : Type 0} (registry : Registry R) (memory : Memory)
    (callback : ℕ → List ℕ → E → E)
    (sized : (params : List ℕ) (s : R)
      → length (registry.execute params s).0 ≡ registry.sv_return_size)
    (some_size : 0 < registry.sv_return_size)
    (small_size : registry.sv_return_size + 13 < 2 ^ 31) where
  pub decode-wire : (msg : Message) → IsSendable msg → decode memory (drop 4 (wire msg)) ≡ some msg
  unfolding wire
  decode-wire msg v =
      ap (decode memory) (
        drop_exact 4 (le_bytes 4 ((msg.size + 9) % 2 ^ 32)) (packet msg)
          (length-le_bytes 4 ((msg.size + 9) % 2 ^ 32)))
      ∙ decode-packet memory msg v

  async_lem :
      (msg : Message) (h : Host R)
      → msg.op ≡ 3
      → 0 < length (bytes_of msg.ptr)
      → handle registry memory msg h
        ≡ some (record {
          registry = (registry.execute (bytes_of msg.ptr) h.registry).1;
          outbound = h.outbound ++ reply registry memory 6 msg h.registry ∷ [];
        })
  async_lem msg h is_async readable =
      subst
        (λ k.
          handle registry memory msg h
          ≡ some (record {
            registry = effect registry memory k msg h.registry;
            outbound = h.outbound ++ answers registry memory k msg h.registry;
          }))
        {x = kind msg} {y = Kind.async_call} (ground (arith, is_async))
        (handle_lem registry memory sized some_size msg h readable)

  pub reply-IsSendable :
      (code : ℕ) (msg : Message) (state : R)
      → code < 256
      → msg.id < 2 ^ 64
      → IsSendable (reply registry memory code msg state)
  reply-IsSendable code msg state byte word = record {
    payload = (registry.execute (bytes_of msg.ptr) state).0;
    filled = refl;
    sized = sym (sized (bytes_of msg.ptr) state);
    not_empty = some_size;
    small = small_size;
    op_byte = byte;
    id_word = word;
  }

  response_lem :
      (msg : Message) (c : Client E)
      → msg.op ≡ 6
      → dispatch callback msg c ≡ with_calls callback c (notify_promise msg c.calls)
  unfolding dispatch internal_code
  response_lem msg c e = ground (arith, e)

  -- One order of events: a call is sent, its promise stored before the reply is decoded, and
  -- nothing else is sent, handled or decoded until that is done. In it, for a call of at least one
  -- and at most 65526 bytes, under an id that no promise has, on a server whose functions return at
  -- least one byte and as many as the return type has, fewer than 2 ^ 31 - 13: the function is
  -- executed once on these bytes, and the promise under the id of the call is given what it
  -- returned. The other promises stay, and the queues have one message more each.
  pub call_async-returns :
      (params : List ℕ) (c : Client E) (h : Host R)
      → 0 < length params
      → length params + 9 < 2 ^ 16
      → c.calls.nid + 1 < 2 ^ 64
      → mem c.calls.nid c.calls.promises ≡ false
      → (request : Message) × (answer : Message) × (call_async registry memory callback params c h
          ≡ some (
            record c {
              calls = record c.calls {
                nid = c.calls.nid + 1;
                outbound = c.calls.outbound ++ request ∷ [];
                fulfilled =
                    c.calls.fulfilled ++ (c.calls.nid, (registry.execute params h.registry).0) ∷ [];
              };
            },
            record {
              registry = (registry.execute params h.registry).1;
              outbound = h.outbound ++ answer ∷ [];
            },
          ))
  call_async-returns params c h some_params fits next fresh =
      let (msg, e, id, op, ptr, v) =
        send_async_whole memory Operation.request params c.calls some_params fits next in
      let calls : Calls = record c.calls {
        nid = c.calls.nid + 1;
        outbound = c.calls.outbound ++ msg ∷ [];
      } in
      let answer = reply registry memory 6 msg h.registry in
      let is_async : msg.op ≡ 3 = unfold op_code operation_code in op in
      let carried = ap bytes_of ptr in
      let handled = async_lem msg h is_async (omega (arith, ap length carried, some_params)) in
      let sendable = reply-IsSendable 6 msg h.registry (omega arith) v.id_word in
      let (fulfilled, early) =
        notify_after_send_async memory Operation.request params c.calls calls msg answer e
          (ap (λ k. mem k c.calls.promises) id ∙ fresh) refl in
      (
        msg,
        answer,
        rw
            (
              e,
              decode-wire msg v,
              handled,
              last_of-append h.outbound answer,
              decode-wire answer sendable,
              response_lem answer (record c { calls = store_promise msg.id calls }) refl,
              fulfilled,
              carried,
              id,
            )
            refl,
      )
