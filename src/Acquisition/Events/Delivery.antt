-- ===== src/Acquisition/Events/Delivery.antt =====
-- Every event is emitted once, in order.
use dcscan_modules_api.Prelude.{
  ◌-◌, ◌^◌, ◌≡◌, refl, sym, ap, ◌∙◌, ◌≢◌, inl, inr, List, [], ◌∷◌, ◌++◌, append_assoc, ◌==◌, ==_iff,
  Bool-cases, All,
}
use mathlib.Core.Path.{subst}
use dcscan_modules_api.Acquisition.Events.{EventData, Line, get_last, dcs_round}

module _ {F : Type 0} (unset : EventData F) where
  -- The lines that pushes and rounds of the loop reach, with the events pushed.
  pub data Reach : List (EventData F) → Line F → Type 0 where
    start : Reach [] (record { queue = []; emitted = [] })
    pushed :
        {events : List (EventData F)} {l : Line F} (event : EventData F)
        → Reach events l
        → Reach (events ++ event ∷ []) (record l { queue = l.queue ++ event ∷ [] })
    round :
        {events : List (EventData F)} {l : Line F}
        → Reach events l
        → Reach events (dcs_round unset l)

  -- An event whose number of counts is not the one that stands for none.
  abbrev pub IsReal : EventData F → Type 0
  IsReal event = event.num_detected ≢ 2 ^ 64 - 1

  All-last :
      (P : EventData F → Type 0) (xs : List (EventData F)) (x : EventData F)
      → All P (xs ++ x ∷ [])
      → All P xs × P x
  All-last P [] x h = (tt, h.0)
  All-last P (y ∷ xs) x h = let (a, b) = All-last P xs x h.1 in ((h.0, a), b)

  All-append_right :
      (P : EventData F → Type 0) (xs ys : List (EventData F)) → All P (xs ++ ys) → All P ys
  All-append_right P [] ys h = h
  All-append_right P (x ∷ xs) ys h = All-append_right P xs ys h.1

  round_lem :
      (emitted queue : List (EventData F))
      → All IsReal queue
      → let l = dcs_round unset (record { queue = queue; emitted = emitted }) in
        l.emitted ++ l.queue ≡ emitted ++ queue
  unfolding dcs_round get_last
  round_lem emitted [] h = refl
  round_lem emitted (event ∷ queue) h = elim (Bool-cases (event.num_detected == 2 ^ 64 - 1)) [
    | inl sentinel ↦ absurd (h.0 ((==_iff event.num_detected (2 ^ 64 - 1)).0 sentinel))
    | inr real ↦ rw real (append_assoc emitted (event ∷ []) queue)
  ]

  -- However the callbacks that push and the rounds of the loop interleave, wake-ups for nothing
  -- included, what was emitted and then what is queued are the events that were pushed, each once and in
  -- order, where none has the number of counts that stands for an empty queue.
  pub emitted_in_order :
      {events : List (EventData F)} {l : Line F}
      → Reach events l
      → All IsReal events
      → l.emitted ++ l.queue ≡ events
  emitted_in_order start real = refl
  emitted_in_order (pushed {events} {l} event r) real =
      sym (append_assoc l.emitted l.queue (event ∷ []))
      ∙ ap (λ q. q ++ event ∷ []) (emitted_in_order r (All-last IsReal events event real).0)
  emitted_in_order (round {events} {l} r) real =
      let before = emitted_in_order r real in
      round_lem l.emitted l.queue
        (All-append_right IsReal l.emitted l.queue (subst (All IsReal) (sym before) real))
      ∙ before
