-- ===== src/Utils/ByteQueue/Delivery.antt =====
-- What a connection promises: packets arrive whole and in order, the buffer keeps its bound, and
-- what `notify_unblock` does to a waiting fetch.
use dcscan_modules_api.Prelude.{
  ℕ, ◌+◌, ◌^◌, ◌≤◌, ◌<◌, ◌≡◌, refl, sym, ap, ◌∙◌, ◌⊎◌, inl, inr, false, some, List, [], ◌∷◌, ◌++◌,
  append-nil, arith, length, drop, length-append, length-take, length-drop, All,
}
use native.Mathlib.Nat.{le_trans}
use dcscan_modules_api.Utils.ByteQueue.{
  ByteQueue, create, add_bytes, Body, Fetched, fetch_header, packet_size, fetch_body,
  fetch_next_msg, notify_unblock,
}
use dcscan_modules_api.Utils.ByteQueue.Framing.{
  packet_size_small, fetch_header-frame, fetch_body-frame,
}
use dcscan_modules_api.Utils.ByteQueue.Stream.{
  Link, frames, start, Step, arrive, begin, finish, Reach, here, next, Fits, Inv, Reach-Inv,
}

-- Whatever the chunks in which the bytes of the packets `ms` arrive, and whatever the interleaving
-- of arrivals and fetches, the packets delivered so far are a prefix of `ms`, in order and unchanged.
pub delivered_in_order :
    (size : ℕ) (ms : List (List ℕ)) {l : Link}
    → All Fits ms
    → Reach (start size ms) l
    → (rest : List (List ℕ)) × (ms ≡ l.delivered ++ rest)
delivered_in_order size ms fit r = ((Reach-Inv size ms fit r).rest, (Reach-Inv size ms fit r).split)

fetch_next-frame :
    (q : ByteQueue) (rest : List (List ℕ))
    → q.ntf_unblock ≡ false
    → All Fits rest
    → q.buffer ≡ frames rest
    → (rest ≡ [])
      ⊎ ((m : List ℕ) × (ns : List (List ℕ)) × (q' : ByteQueue) × (rest ≡ m ∷ ns)
          × (fetch_next_msg q ≡ Fetched.message m q')
          × (q'.buffer ≡ frames ns))
unfolding fetch_next_msg
fetch_next-frame q [] u fit e = inl refl
fetch_next-frame q (m ∷ ns) u fit e =
    inr (m, ns, record q { buffer = frames ns }, refl, fetched, refl)
  where
    fetched : fetch_next_msg q ≡ Fetched.message m (record q { buffer = frames ns })
    fetched =
        rw (fetch_header-frame m (frames ns) q fit.0 u e, fetch_body-frame m (frames ns) q fit.0 e)

-- When all bytes have arrived and the queue is not unblocked, either every packet has been
-- delivered or the next fetch returns the first packet that has not.
pub fetch_never_starves :
    (size : ℕ) (ms : List (List ℕ)) {l : Link}
    → All Fits ms
    → Reach (start size ms) l
    → l.in_flight ≡ []
    → l.queue.ntf_unblock ≡ false
    → (ms ≡ l.delivered)
      ⊎ ((m : List ℕ) × (ns : List (List ℕ)) × (q' : ByteQueue) × (ms ≡ l.delivered ++ m ∷ ns)
          × (fetch_next_msg l.queue ≡ Fetched.message m q')
          × (q'.buffer ≡ frames ns))
fetch_never_starves size ms {l} fit r done u =
    elim (fetch_next-frame l.queue v.rest u v.fit
      (sym (append-nil l.queue.buffer) ∙ ap (◌++◌ l.queue.buffer) (sym done) ∙ v.held)) [
        | inl none_left ↦ inl (v.split ∙ ap (◌++◌ l.delivered) none_left ∙ append-nil l.delivered)
        | inr (m, ns, q', e, got, left) ↦
            inr (m, ns, q', v.split ∙ ap (◌++◌ l.delivered) e, got, left)
      ]
  where
    v : Inv ms l
    v = Reach-Inv size ms fit r

record Bounded (size total : ℕ) (l : Link) : Type 0 where
  pub capacity : l.queue.max_size ≡ size
  pub within : length l.queue.buffer ≤ size
  pub coming : length l.in_flight ≤ total

arrive-bound :
    (q q' : ByteQueue) (chunk : List ℕ)
    → length q.buffer + length chunk < 2 ^ 64
    → add_bytes chunk q ≡ some q'
    → (length q'.buffer ≤ q.max_size) × (q'.max_size ≡ q.max_size)
unfolding add_bytes
arrive-bound q q' chunk h e = ground (arith, length-append q.buffer chunk)

finish-bound :
    (n : ℕ) (q q' : ByteQueue) (bytes : List ℕ)
    → fetch_body n q ≡ Body.message bytes q'
    → (length q'.buffer ≤ length q.buffer)
      × (q'.max_size ≡ q.max_size)
      × (length bytes + 4 ≤ length q.buffer)
unfolding fetch_body packet_size
finish-bound n q q' bytes e = ground (
  arith,
  length-drop (packet_size n) q.buffer,
  length-take n (drop 4 q.buffer),
  length-drop 4 q.buffer,
)

Step-Bounded :
    (size total : ℕ) {l k : Link}
    → size + total < 2 ^ 64
    → Step l k
    → Bounded size total l
    → Bounded size total k
Step-Bounded size total h (arrive l chunk rest q e a) v =
    let split : length l.in_flight ≡ length chunk + length rest =
      omega (arith, ap length e, length-append chunk rest) in
    let (fits, same) = arrive-bound l.queue q chunk (omega arith) a in
    record { capacity = same ∙ v.capacity; within = omega arith; coming = omega arith }
Step-Bounded size total h (begin l n r e) v = record {
  capacity = v.capacity;
  within = v.within;
  coming = v.coming;
}
Step-Bounded size total h (finish l n bytes q r e) v =
    let (shrinks, same, _) = finish-bound n l.queue q bytes e in
    record { capacity = same ∙ v.capacity; within = omega arith; coming = v.coming }

Reach-Bounded :
    (size : ℕ) (ms : List (List ℕ)) {l : Link}
    → size + length (frames ms) < 2 ^ 64
    → Reach (start size ms) l
    → Bounded size (length (frames ms)) l
unfolding start create
Reach-Bounded size ms h here = record {
  capacity = refl;
  within = omega arith;
  coming = omega arith;
}
Reach-Bounded size ms h (next r st) =
    Step-Bounded size (length (frames ms)) h st (Reach-Bounded size ms h r)

-- The buffer never holds more than the size that it was created with, and a packet that is fetched
-- fits, with its length prefix, into a buffer of that size, so the decoder's own buffer holds it.
pub buffer_bounded :
    (size : ℕ) (ms : List (List ℕ)) {l : Link} (n : ℕ) (bytes : List ℕ) (q : ByteQueue)
    → size + length (frames ms) < 2 ^ 64
    → Reach (start size ms) l
    → fetch_body n l.queue ≡ Body.message bytes q
    → (length l.queue.buffer ≤ size) × (length bytes + 4 ≤ size)
buffer_bounded size ms {l} n bytes q h r e =
    let v = Reach-Bounded size ms h r in
    (v.within, le_trans (finish-bound n l.queue q bytes e).2 v.within)

-- `notify_unblock` makes every later fetch return 0. It does not end a fetch that has read the
-- length of a packet of which fewer bytes than that have arrived: this one goes on waiting.
pub unblock_only_first_wait :
    (q : ByteQueue) (n : ℕ)
    → n + 4 < 2 ^ 31
    → length q.buffer < n + 4
    → (fetch_next_msg (notify_unblock q) ≡ Fetched.nothing)
      × (fetch_body n (notify_unblock q) ≡ Body.blocked)
unfolding fetch_next_msg fetch_header fetch_body notify_unblock
unblock_only_first_wait q n h short = (refl, ground (arith, packet_size_small n h))
