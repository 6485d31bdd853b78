-- ===== src/Engine/Serial/Replies.antt =====
-- A line is received as it was sent.
use dcscan_modules_api.Prelude.{
  ℕ, zero, suc, ◌+◌, ◌≤◌, ◌<◌, ◌≡◌, refl, sym, ap, ◌∙◌, ◌≢◌, inl, inr, true, false, not, ◌&&◌,
  Option, some, List, [], ◌∷◌, ◌++◌, map, append_assoc, arith, ltb, ◌==◌, if◌then◌else◌, ==_iff,
  Bool-cases, length, get_or, set, length-append, All,
}
use mathlib.Core.Path.{ap₂}
use dcscan_modules_api.Engine.Serial.{
  Rx, before, stored, rx_loop, Received, until_zero, copied, finish, finished, read_bytes,
}

-- The reads of a line.
abbrev pub reads_of : List ℕ → List (Option ℕ)
reads_of = map some

-- A character of a reply: neither a zero nor the end of a line.
abbrev pub IsCharacter : ℕ → Type 0
IsCharacter c = (c ≢ 0) × (c ≢ 10)

step :
    (c : ℕ) (reads : List (Option ℕ)) (s : Rx)
    → c ≢ 10
    → length s.buffer < 256
    → rx_loop (some c ∷ reads) s ≡ rx_loop reads (stored c s)
unfolding rx_loop
step c reads s other room = ground (arith, other, room)

last_step :
    (reads : List (Option ℕ)) (s : Rx)
    → length s.buffer < 256
    → rx_loop (some 10 ∷ reads) s ≡ some (stored 10 s)
unfolding rx_loop
last_step reads s room = ground (arith, room)

-- What the loop has after a line, its end and its index.
abbrev after_line : List ℕ → Rx → Rx
after_line line s = record s {
  buffer = s.buffer ++ (line ++ 13 ∷ 10 ∷ []);
  last = some (length s.buffer + length line);
}

take_line :
    (line : List ℕ) (s : Rx) (after : List (Option ℕ))
    → All IsCharacter line
    → length s.buffer + length line + 2 ≤ 256
    → rx_loop (reads_of line ++ (some 13 ∷ some 10 ∷ after)) s ≡ some (after_line line s)
take_line [] s after v h =
    step 13 (some 10 ∷ after) s (λ e. omega (arith, e)) (omega (arith, h))
    ∙ last_step after (stored 13 s) (omega (arith, h, length-append s.buffer (13 ∷ [])))
    ∙ ap₂ (λ b l. some (record s { buffer = b; last = l }))
        (append_assoc s.buffer (13 ∷ []) (10 ∷ []))
        (before_lem (length (s.buffer ++ 13 ∷ [])) (length s.buffer + 0)
          (omega (arith, length-append s.buffer (13 ∷ []))))
  where
    before_lem : (n k : ℕ) → n ≡ suc k → before n ≡ some k
    before_lem zero k e = absurd (omega (arith, e))
    before_lem (suc n) k e = ap some (omega (arith, e))
take_line (c ∷ line) s after v h =
    step c (reads_of line ++ (some 13 ∷ some 10 ∷ after)) s v.0.1 (omega (arith, h))
    ∙ take_line line (stored c s) after v.1 (omega (arith, h, length-append s.buffer (c ∷ [])))
    ∙ ap₂ (λ b l. some (record s { buffer = b; last = l }))
        (append_assoc s.buffer (c ∷ []) (line ++ 13 ∷ 10 ∷ []))
        (ap some {x = length (s.buffer ++ c ∷ []) + length line}
          {y = length s.buffer + suc (length line)}
          (omega (arith, length-append s.buffer (c ∷ []))))

cut_lem :
    (line : List ℕ)
    → All IsCharacter line
    → until_zero (set (line ++ 13 ∷ 10 ∷ []) (length line) 0) ≡ line
unfolding until_zero
cut_lem [] v = refl
cut_lem (c ∷ line) v = ground (arith, cut_lem line v.1, v.0.0)

-- The last place of a full buffer is that of the end of the line.
full_lem : (line : List ℕ) (n : ℕ) → length line + 1 ≡ n → get_or (line ++ 13 ∷ 10 ∷ []) n 0 ≡ 10
full_lem [] n e = ap (λ k. get_or (13 ∷ 10 ∷ []) k 0) (sym e)
full_lem (c ∷ line) zero e = absurd (omega (arith, e))
full_lem (c ∷ line) (suc n) e = full_lem line n (omega (arith, e))

-- A buffer that is full of a line ends in the line feed.
not_incomplete :
    (line : List ℕ)
    → ((length (line ++ 13 ∷ 10 ∷ []) == 256) && not (get_or (line ++ 13 ∷ 10 ∷ []) 255 0 == 10))
      ≡ false
not_incomplete line = elim (Bool-cases (length (line ++ 13 ∷ 10 ∷ []) == 256)) [
  | inl full ↦ ground (
    arith,
    full,
    full_lem line 255 (
        omega (
          arith,
          (==_iff (length (line ++ 13 ∷ 10 ∷ [])) 256).0 full,
          length-append line (13 ∷ 10 ∷ []),
        )),
  )
  | inr other ↦ ground (arith, other)
]

finish-after_line :
    (buffer_size : ℕ) (line : List ℕ)
    → All IsCharacter line
    → finish buffer_size (record {
      buffer = line ++ 13 ∷ 10 ∷ [];
      last = some (length line);
      excess = 0;
      status = true;
    })
      ≡ copied buffer_size line
unfolding finish
finish-after_line buffer_size line v =
    ap
      (λ b.
        if b
        then Received.failed
        else copied buffer_size (until_zero (set (line ++ 13 ∷ 10 ∷ []) (length line) 0)))
      (not_incomplete line)
    ∙ ap (copied buffer_size) (cut_lem line v)

copied_lem :
    (buffer_size : ℕ) (line : List ℕ)
    → copied buffer_size line ≡ (
        if ltb (length line) buffer_size
        then Received.text line
        else if length line == buffer_size
        then Received.fault
        else Received.failed)
copied_lem buffer_size line = ground arith

-- A line of characters, none of which is a zero or a line feed, with a carriage return and a line feed
-- behind it, that fits into the local buffer of 256 characters, is received as it was sent, without the
-- two, if it is shorter than the buffer of the caller. If it is as long, the copy has no place for the
-- zero, and if it is longer, the call fails. What the port holds behind it is not read.
pub read_bytes-line :
    (buffer_size : ℕ) (line : List ℕ) (after : List (Option ℕ))
    → All IsCharacter line
    → length line + 2 ≤ 256
    → read_bytes buffer_size (reads_of line ++ (some 13 ∷ some 10 ∷ after))
      ≡ some (
          if ltb (length line) buffer_size
          then Received.text line
          else if length line == buffer_size
          then Received.fault
          else Received.failed)
unfolding read_bytes
read_bytes-line buffer_size line after v h =
    ap (finished buffer_size) (
      take_line line (record { buffer = []; last = some 0; excess = 0; status = true }) after v
        (omega (arith, h)))
    ∙ ap
        (λ n. some (
          finish buffer_size
            (record { buffer = line ++ 13 ∷ 10 ∷ []; last = some n; excess = 0; status = true })))
        {x = 0 + length line} {y = length line} (omega arith)
    ∙ ap some (finish-after_line buffer_size line v ∙ copied_lem buffer_size line)
