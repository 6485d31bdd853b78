-- ===== src/Utils/ByteQueue/Stream.antt =====
-- A connection as a whole: the bytes on the wire arrive in chunks of any size while the decoder
-- fetches packets, with any interleaving of the two.
use dcscan_modules_api.Prelude.{
  ℕ, ◌+◌, ◌^◌, ◌≤◌, ◌<◌, ◌≡◌, refl, sym, ap, ◌∙◌, Option, none, some, List, [], ◌∷◌, ◌++◌,
  append_assoc, arith, length, take, drop, length-append, take_within, All,
}
use dcscan_modules_api.Prelude.Words.{le_bytes, le_value, le_value-le_bytes}
use dcscan_modules_api.Utils.ByteQueue.{
  ByteQueue, create, add_bytes, Header, Body, fetch_header, fetch_body,
}
use dcscan_modules_api.Utils.ByteQueue.Framing.{
  take-frame, buffer-add_bytes, fetch_body_complete, fetch_header_complete, frame, length-frame,
  fetch_body-frame,
}

-- `reading` holds the length that `fetchNextMsg` has read while it waits for the body.
pub record Link : Type 0 where
  pub queue : ByteQueue
  pub in_flight : List ℕ
  pub reading : Option ℕ
  pub delivered : List (List ℕ)

abbrev pub frames : List (List ℕ) → List ℕ
frames [] = []
frames (m ∷ ms) = frame m ++ frames ms

unfoldable pub start : ℕ → List (List ℕ) → Link
unfolding create
start size ms = record {
  queue = create size;
  in_flight = frames ms;
  reading = none;
  delivered = [];
}

-- `addBytes` by the receive thread, and the two halves of `fetchNextMsg` by the decoder.
pub data Step : Link → Link → Type 0 where
  arrive :
      (l : Link) (chunk rest : List ℕ) (q : ByteQueue)
      → l.in_flight ≡ chunk ++ rest
      → add_bytes chunk l.queue ≡ some q
      → Step l (record l { queue = q; in_flight = rest })
  begin :
      (l : Link) (n : ℕ)
      → l.reading ≡ none
      → fetch_header l.queue ≡ Header.reading n
      → Step l (record l { reading = some n })
  finish :
      (l : Link) (n : ℕ) (bytes : List ℕ) (q : ByteQueue)
      → l.reading ≡ some n
      → fetch_body n l.queue ≡ Body.message bytes q
      → Step l (record l { queue = q; reading = none; delivered = l.delivered ++ bytes ∷ [] })

pub data Reach (s : Link) : Link → Type 0 where
  here : Reach s s
  next : {l k : Link} → Reach s l → Step l k → Reach s k

-- A packet whose size with its prefix is a positive `i32`.
abbrev pub Fits : List ℕ → Type 0
Fits m = length m + 4 < 2 ^ 31

-- The undelivered packets `rest` are what the queue and the wire still hold.
pub record Inv (ms : List (List ℕ)) (l : Link) : Type 0 where
  pub rest : List (List ℕ)
  pub split : ms ≡ l.delivered ++ rest
  pub fit : All Fits rest
  pub held : l.queue.buffer ++ l.in_flight ≡ frames rest
  pub header :
      (n : ℕ)
      → l.reading ≡ some n
      → (4 ≤ length l.queue.buffer) × (le_value (take 4 l.queue.buffer) ≡ n)

cons_tail : {x y : ℕ} {xs ys : List ℕ} → x ∷ xs ≡ y ∷ ys → xs ≡ ys
cons_tail e = cc

some_inv : {x y : ℕ} → some x ≡ some y → x ≡ y
some_inv e = cc

append_split :
    (xs ys us bs : List ℕ)
    → xs ++ ys ≡ us ++ bs
    → length us ≤ length xs
    → (xs ≡ us ++ drop (length us) xs) × (drop (length us) xs ++ ys ≡ bs)
append_split xs ys [] bs e h = (refl, e)
append_split [] ys (a ∷ us) bs e h = absurd (omega arith)
append_split (x ∷ xs) ys (a ∷ us) bs e h =
    let (p, q) = append_split xs ys us bs (cons_tail e) (omega arith) in (cc p, q)

Inv-start : (size : ℕ) (ms : List (List ℕ)) → All Fits ms → Inv ms (start size ms)
unfolding start
Inv-start size ms fit = record {
  rest = ms;
  split = refl;
  fit = fit;
  held = refl;
  header = λ n e. cc;
}

arrive-Inv :
    (ms : List (List ℕ)) (l : Link) (chunk rest : List ℕ) (q : ByteQueue)
    → l.in_flight ≡ chunk ++ rest
    → q.buffer ≡ l.queue.buffer ++ chunk
    → Inv ms l
    → Inv ms (record l { queue = q; in_flight = rest })
arrive-Inv ms l chunk rest q e a v = record {
  rest = v.rest;
  split = v.split;
  fit = v.fit;
  held =
      ap (λ b. b ++ rest) a
      ∙ append_assoc l.queue.buffer chunk rest
      ∙ ap (◌++◌ l.queue.buffer) (sym e)
      ∙ v.held;
  header = λ n r.
      let (long, is_n) = v.header n r in
      (
        omega (arith, ap length a, length-append l.queue.buffer chunk),
        ap (λ b. le_value (take 4 b)) a
            ∙ ap le_value (take_within 4 l.queue.buffer chunk long)
            ∙ is_n,
      );
}

-- With a header read, the first undelivered packet is the one being read.
next_packet :
    (buffer wire : List ℕ) (rest : List (List ℕ)) (n : ℕ)
    → buffer ++ wire ≡ frames rest
    → All Fits rest
    → 4 ≤ length buffer
    → le_value (take 4 buffer) ≡ n
    → (m : List ℕ) × (ns : List (List ℕ)) × (rest ≡ m ∷ ns) × (length m ≡ n) × Fits m × All Fits ns
next_packet buffer wire [] n e fit long is_n =
    absurd (omega (arith, ap length e, length-append buffer wire))
next_packet buffer wire (m ∷ ns) n e fit long is_n = (
  m,
  ns,
  refl,
  sym (le_value-le_bytes 4 (length m) (omega arith)) ∙ ap le_value (sym header) ∙ is_n,
  fit.0,
  fit.1,
)
  where
    header : take 4 buffer ≡ le_bytes 4 (length m)
    header = sym (take_within 4 buffer wire long) ∙ ap (take 4) e ∙ take-frame m (frames ns)

-- A body that is complete in the buffer is the next packet.
next_body :
    (q q' : ByteQueue) (wire bytes m : List ℕ) (ns : List (List ℕ))
    → q.buffer ++ wire ≡ frames (m ∷ ns)
    → Fits m
    → fetch_body (length m) q ≡ Body.message bytes q'
    → (bytes ≡ m) × (q'.buffer ++ wire ≡ frames ns)
next_body q q' wire bytes m ns e fit got = (cc (got, found), cc (got, found, left.1))
  where
    enough : length (frame m) ≤ length q.buffer
    enough = omega (arith, fetch_body_complete (length m) q q' bytes fit got, length-frame m)

    left :
        (q.buffer ≡ frame m ++ drop (length (frame m)) q.buffer)
        × (drop (length (frame m)) q.buffer ++ wire ≡ frames ns)
    left = append_split q.buffer wire (frame m) (frames ns) e enough

    found :
        fetch_body (length m) q
        ≡ Body.message m (record q { buffer = drop (length (frame m)) q.buffer })
    found = fetch_body-frame m (drop (length (frame m)) q.buffer) q fit left.0

Step-Inv : {ms : List (List ℕ)} {l k : Link} → Step l k → Inv ms l → Inv ms k
Step-Inv {ms} (arrive l chunk rest q e a) v =
    arrive-Inv ms l chunk rest q e (buffer-add_bytes chunk l.queue q a) v
Step-Inv (begin l n r e) v = record {
  rest = v.rest;
  split = v.split;
  fit = v.fit;
  held = v.held;
  header = λ k is_k. rw (← (some_inv is_k)) (fetch_header_complete n l.queue e);
}
Step-Inv (finish l n bytes q r e) v =
    let (m, ns, is_m, is_n, fit, fits) =
      next_packet l.queue.buffer l.in_flight v.rest n v.held v.fit (v.header n r).0
        (v.header n r).1 in
    let (same, held) =
      next_body l.queue q l.in_flight bytes m ns (v.held ∙ ap frames is_m) fit
        (ap (λ k. fetch_body k l.queue) is_n ∙ e) in
    record {
      rest = ns;
      split =
          v.split
          ∙ ap (◌++◌ l.delivered) (is_m ∙ ap (λ b. b ∷ ns) (sym same))
          ∙ sym (append_assoc l.delivered (bytes ∷ []) ns);
      fit = fits;
      held = held;
      header = λ k is_k. cc;
    }

pub Reach-Inv :
    (size : ℕ) (ms : List (List ℕ)) {l : Link} → All Fits ms → Reach (start size ms) l → Inv ms l
Reach-Inv size ms fit here = Inv-start size ms fit
Reach-Inv size ms fit (next r st) = Step-Inv st (Reach-Inv size ms fit r)
