-- ===== src/Utils/MessageQueue/Fifo.antt =====
-- The queue is first in, first out under every interleaving of one consumer with any producers.
use dcscan_modules_api.Prelude.{
  ℕ, ◌+◌, ◌≡◌, refl, sym, ap, ◌∙◌, Bool, true, false, none, some, List, [], ◌∷◌, ◌++◌, append_assoc,
}
use dcscan_modules_api.Utils.MessageQueue.{push, pop_enter, pop_woken}

module _ {ℓ} {A : Type ℓ} (default : A) where
  -- `waiting` holds while the consumer is inside the wait of `pop`; `got` are the values that were
  -- taken off the queue, and `defaults` counts the calls that returned `Type()`.
  pub record Channel : Type ℓ where
    pub queue : List A
    pub waiting : Bool
    pub pushed : List A
    pub got : List A
    pub defaults : ℕ

  pub data Step : Channel → Channel → Type ℓ where
    pushes :
        (c : Channel) (a : A)
        → Step c (record c { queue = push a c.queue; pushed = c.pushed ++ a ∷ [] })
    takes :
        (c : Channel) (a : A) (q : List A)
        → c.waiting ≡ false
        → pop_enter c.queue ≡ some (a, q)
        → Step c (record c { queue = q; got = c.got ++ a ∷ [] })
    waits :
        (c : Channel)
        → c.waiting ≡ false
        → pop_enter c.queue ≡ none
        → Step c (record c { waiting = true })
    wakes :
        (c : Channel) (a : A) (q : List A)
        → c.waiting ≡ true
        → c.queue ≡ a ∷ q
        → Step c (record c {
          queue = (pop_woken default c.queue).1;
          waiting = false;
          got = c.got ++ (pop_woken default c.queue).0 ∷ [];
        })
    wakes_empty :
        (c : Channel)
        → c.waiting ≡ true
        → c.queue ≡ []
        → Step c (record c {
          queue = (pop_woken default c.queue).1;
          waiting = false;
          defaults = c.defaults + 1;
        })

  pub data Reach (s : Channel) : Channel → Type ℓ where
    here : Reach s s
    next : {c d : Channel} → Reach s c → Step c d → Reach s d

  abbrev pub empty : Channel
  empty = record { queue = []; waiting = false; pushed = []; got = []; defaults = 0 }

  abbrev Balanced : Channel → Type ℓ
  Balanced c = c.pushed ≡ c.got ++ c.queue

  pop_enter_lem : (q q' : List A) (a : A) → pop_enter q ≡ some (a, q') → q ≡ a ∷ q'
  unfolding pop_enter
  pop_enter_lem [] q' a e = cc
  pop_enter_lem (x ∷ q) q' a e = cc

  moved : (got q : List A) (a : A) → got ++ a ∷ q ≡ (got ++ a ∷ []) ++ q
  moved got q a = sym (append_assoc got (a ∷ []) q)

  Step-Balanced : {c d : Channel} → Step c d → Balanced c → Balanced d
  unfolding push pop_woken
  Step-Balanced (pushes c a) v = ap (λ p. p ++ a ∷ []) v ∙ append_assoc c.got c.queue (a ∷ [])
  Step-Balanced (takes c a q w e) v =
      v ∙ ap (◌++◌ c.got) (pop_enter_lem c.queue q a e) ∙ moved c.got q a
  Step-Balanced (waits c w e) v = v
  Step-Balanced (wakes c a q w e) v = rw e (v ∙ ap (◌++◌ c.got) e ∙ moved c.got q a)
  Step-Balanced (wakes_empty c w e) v = rw e (v ∙ ap (◌++◌ c.got) e)

  -- Whatever the interleaving of pushes, waits and wake-ups, spurious ones included, the values
  -- taken so far followed by the values in the queue are the values pushed, in order: none is lost,
  -- repeated or overtaken.
  pub fifo : {c : Channel} → Reach empty c → c.pushed ≡ c.got ++ c.queue
  fifo here = refl
  fifo (next r st) = Step-Balanced st (fifo r)
