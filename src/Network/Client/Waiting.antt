-- ===== src/Network/Client/Waiting.antt =====
-- A synchronous call, end to end.
use dcscan_modules_api.Prelude.{
  ℕ, suc, ◌+◌, ◌^◌, ◌<◌, ◌≡◌, refl, sym, ap, ◌∙◌, Option, none, some, List, [], ◌∷◌, ◌++◌, arith,
  length, take, drop, take_all,
}
use mathlib.Core.Path.{subst, ap₂}
use dcscan_modules_api.Network.Message.{
  Message, Memory, Operation, internal_code, bytes_of, wire, decode,
}
use dcscan_modules_api.Network.Calls.{Calls, send_sync, set_msg_id_condition, wait_for_id}
use dcscan_modules_api.Network.Calls.Sending.{send_sync_whole}
use dcscan_modules_api.Network.Calls.Replies.{wait_for_id-set}
use dcscan_modules_api.Network.Server.{Registry, Host, handle}
use dcscan_modules_api.Network.Server.Replies.{Kind, kind, effect, answers, reply, handle_lem}
use dcscan_modules_api.Network.Client.{Client, dispatch}
use dcscan_modules_api.Network.Client.Promises.{
  and_then, last_of, last_of-append, decode-wire, reply-IsSendable,
}

module _ {R : Type 0} {E : Type 0} (registry : Registry R) (memory : Memory)
    (callback : ℕ → List ℕ → E → E) where
  abbrev pub waited :
      Client E → Host R → Option (List ℕ × Calls) → Option ((List ℕ × Client E) × Host R)
  waited c h none = none
  waited c h (some (bytes, calls)) = some ((bytes, record c { calls = calls }), h)

  -- A call of `SendSync` and what follows from it while nothing else happens: the server decodes the
  -- message and handles it, the client decodes the reply and handles that, and the caller, who waits for
  -- the id of the call, goes on.
  abbrev pub call_sync : List ℕ → Client E → Host R → Option ((List ℕ × Client E) × Host R)
  call_sync params c h =
      and_then (send_sync memory Operation.request params c.calls) (λ (msg, calls).
        and_then (decode memory (drop 4 (wire msg))) (λ request.
          and_then (handle registry memory request h) (λ h'.
            and_then (last_of h'.outbound) (λ answer.
              and_then (decode memory (drop 4 (wire answer))) (λ response.
                and_then (dispatch callback response (record c { calls = calls }))
                  (λ c'. waited c' h' (wait_for_id msg.id c'.calls)))))))

  module _
      (sized : (params : List ℕ) (s : R)
        → length (registry.execute params s).0 ≡ registry.sv_return_size)
      (some_size : 0 < registry.sv_return_size)
      (small_size : registry.sv_return_size + 13 < 2 ^ 31) where
    sync_lem :
        (msg : Message) (h : Host R)
        → msg.op ≡ 2
        → 0 < length (bytes_of msg.ptr)
        → handle registry memory msg h
          ≡ some (record {
            registry = (registry.execute (bytes_of msg.ptr) h.registry).1;
            outbound = h.outbound ++ reply registry memory 5 msg h.registry ∷ [];
          })
    sync_lem msg h is_sync readable =
        subst
          (λ k.
            handle registry memory msg h
            ≡ some (record {
              registry = effect registry memory k msg h.registry;
              outbound = h.outbound ++ answers registry memory k msg h.registry;
            }))
          {x = kind msg} {y = Kind.sync_call} (ground (arith, is_sync))
          (handle_lem registry memory sized some_size msg h readable)

    into_slot :
        (msg : Message) (c : Client E)
        → msg.op ≡ 5
        → dispatch callback msg c ≡ some (record c { calls = set_msg_id_condition msg c.calls })
    unfolding dispatch internal_code
    into_slot msg c e = ground (arith, e)

    -- One order of events: a synchronous call is sent, handled and answered, and its reply decoded
    -- and taken by the caller, and no other reply reaches the one slot for replies until that is
    -- done. In it, for a call of at least one and at most 65526 bytes, on a server whose functions
    -- return at least one byte and as many as the return type has, fewer than 2 ^ 31 - 13: the
    -- function is executed once on these bytes, and the caller gets what it returned. The slot is
    -- empty afterwards, for every id.
    pub call_sync-returns :
        (params : List ℕ) (c : Client E) (h : Host R)
        → 0 < length params
        → length params + 9 < 2 ^ 16
        → c.calls.nid + 1 < 2 ^ 64
        → (calls : Calls) × (answer : Message) × (call_sync params c h
            ≡ some (
              ((registry.execute params h.registry).0, record c { calls = calls }),
              record {
                registry = (registry.execute params h.registry).1;
                outbound = h.outbound ++ answer ∷ [];
              },
            ))
          × ((id : ℕ) → wait_for_id id calls ≡ none)
    call_sync-returns params c h some_params fits next =
        let (msg, e, id, op, ptr, v) =
          send_sync_whole memory params c.calls some_params fits next in
        let sent : Calls = record c.calls {
          nid = c.calls.nid + 1;
          outbound = c.calls.outbound ++ msg ∷ [];
        } in
        let answer = reply registry memory 5 msg h.registry in
        let carried = ap bytes_of ptr in
        let handled = sync_lem msg h op (omega (arith, ap length carried, some_params)) in
        let sendable =
          reply-IsSendable registry memory callback sized some_size small_size 5 msg h.registry
            (omega arith) v.id_word in
        let result = (registry.execute (bytes_of msg.ptr) h.registry).0 in
        let whole : take registry.sv_return_size result ≡ result =
          ap (λ n. take n result) (sym (sized (bytes_of msg.ptr) h.registry)) ∙ take_all result in
        let (calls, got, empty, others) =
          wait_for_id-set answer result sent (suc answer.id) some_size refl (omega arith) in
        (
          calls,
          answer,
          rw
              (
                e,
                decode-wire registry memory callback sized some_size small_size msg v,
                handled,
                last_of-append h.outbound answer,
                decode-wire registry memory callback sized some_size small_size answer sendable,
                into_slot answer (record c { calls = sent }) refl,
                got,
              )
              (ap₂
                (λ b t. some (
                  (b, record c { calls = calls }),
                  record { registry = t; outbound = h.outbound ++ answer ∷ [] },
                ))
                (whole ∙ ap (λ x. (registry.execute x h.registry).0) carried)
                (ap (λ x. (registry.execute x h.registry).1) carried)),
          empty,
        )
