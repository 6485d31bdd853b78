-- ===== src/Utils/Text/Split.antt =====
-- `split` cuts a text at its separators and loses nothing else.
use dcscan_modules_api.Prelude.{
  ℕ, zero, suc, ◌+◌, ◌-◌, ◌≤◌, ◌<◌, ◌≡◌, refl, sym, ap, ◌∙◌, inl, inr, List, [], ◌∷◌, ◌++◌,
  append-nil, append_assoc, arith, ◌==◌, ==_iff, Bool-cases, length, get_or, take, drop,
  length-take, length-drop, take_exact,
}
use dcscan_modules_api.Utils.Vector.{Vector, empty, push}
use dcscan_modules_api.Utils.Vector.Growth.{IsValid, empty-IsValid, push-IsValid, items-push}
use dcscan_modules_api.Utils.Text.{Text, from_range, split_loop, split}

-- The bytes that a text counts as its own.
abbrev pub content : Text → List ℕ
content s = take s.buffer_size s.bytes

-- Pieces, each followed by the separator.
abbrev pub ended : ℕ → List Text → List ℕ
ended separator [] = []
ended separator (p ∷ ps) = content p ++ separator ∷ ended separator ps

abbrev slice : List ℕ → ℕ → ℕ → List ℕ
slice b from n = take n (drop from b)

take_next : (b : List ℕ) (i : ℕ) → i < length b → take (suc i) b ≡ take i b ++ get_or b i 0 ∷ []
take_next [] i h = absurd (omega arith)
take_next (x ∷ b) zero h = refl
take_next (x ∷ b) (suc i) h = ap (◌∷◌ x) (take_next b i (omega arith))

get_or-drop : (b : List ℕ) (k i : ℕ) → get_or (drop k b) i 0 ≡ get_or b (k + i) 0
get_or-drop b zero i = ap (λ k. get_or b k 0) (omega arith)
get_or-drop [] (suc k) i = refl
get_or-drop (x ∷ b) (suc k) i =
    get_or-drop b k i ∙ ap (λ j. get_or (x ∷ b) j 0) {x = suc (k + i)} {y = suc k + i} (omega arith)

slice_next :
    (b : List ℕ) (offset i : ℕ)
    → offset ≤ i
    → i < length b
    → slice b offset (i + 1 - offset) ≡ slice b offset (i - offset) ++ get_or b i 0 ∷ []
slice_next b offset i h k =
    ap (slice b offset) {x = i + 1 - offset} {y = suc (i - offset)} (omega arith)
    ∙ take_next (drop offset b) (i - offset) (omega (arith, length-drop offset b))
    ∙ ap (λ c. slice b offset (i - offset) ++ c ∷ [])
        (get_or-drop b offset (i - offset)
          ∙ ap (λ j. get_or b j 0) {x = offset + (i - offset)} {y = i} (omega arith))

content-from_range :
    (ptr : List ℕ) (n : ℕ) → n ≤ length ptr → content (from_range ptr n) ≡ take n ptr
unfolding from_range
content-from_range ptr n h = take_exact n (take n ptr) (0 ∷ []) (omega (arith, length-take n ptr))

ended-append :
    (s : ℕ) (ps : List Text) (p : Text)
    → ended s (ps ++ p ∷ []) ≡ ended s ps ++ (content p ++ s ∷ [])
ended-append s [] p = refl
ended-append s (q ∷ ps) p =
    rw (ended-append s ps p) (sym (append_assoc (content q) (s ∷ ended s ps) (content p ++ s ∷ [])))

-- What the loop has cut off so far, and the piece that it is in, are the bytes up to `i`.
record Cut (separator : ℕ) (b : List ℕ) (i offset : ℕ) (out : Vector Text) : Type 0 where
  valid : IsValid out
  behind : offset ≤ i
  kept : ended separator out.items ++ slice b offset (i - offset) ≡ take i b

split_at_separator :
    (s : ℕ) (b : List ℕ) (i offset : ℕ) (out : Vector Text)
    → i < length b
    → get_or b i 0 ≡ s
    → Cut s b i offset out
    → Cut s b (i + 1) (i + 1) (push (from_range (drop offset b) (i - offset)) out)
split_at_separator s b i offset out h is_s v = record {
  valid = push-IsValid piece out v.valid;
  behind = omega arith;
  kept =
      rw
        (
          items-push piece out v.valid,
          ended-append s out.items piece,
          content_piece,
          nothing,
          append-nil,
        )
        (sym (append_assoc (ended s out.items) (slice b offset (i - offset)) (s ∷ []))
          ∙ ap (λ xs. xs ++ s ∷ []) v.kept
          ∙ ap (λ c. take i b ++ c ∷ []) (sym is_s)
          ∙ sym (take_next b i h)
          ∙ ap (λ j. take j b) {x = suc i} {y = i + 1} (omega arith));
}
  where
    piece : Text
    piece = from_range (drop offset b) (i - offset)

    content_piece : content piece ≡ slice b offset (i - offset)
    content_piece =
        content-from_range (drop offset b) (i - offset)
          (omega (arith, length-drop offset b, v.behind))

    nothing : slice b (i + 1) (i + 1 - (i + 1)) ≡ []
    nothing = ap (slice b (i + 1)) {x = i + 1 - (i + 1)} {y = 0} (omega arith)

split_goes_on :
    (s : ℕ) (b : List ℕ) (i offset : ℕ) (out : Vector Text)
    → i < length b
    → Cut s b i offset out
    → Cut s b (i + 1) offset out
split_goes_on s b i offset out h v = record {
  valid = v.valid;
  behind = omega (arith, v.behind);
  kept =
      ap (◌++◌ (ended s out.items)) (slice_next b offset i v.behind h)
      ∙ sym (append_assoc (ended s out.items) (slice b offset (i - offset)) (get_or b i 0 ∷ []))
      ∙ ap (λ xs. xs ++ get_or b i 0 ∷ []) v.kept
      ∙ sym (take_next b i h)
      ∙ ap (λ j. take j b) {x = suc i} {y = i + 1} (omega arith);
}

split_loop-Cut :
    (s : ℕ) (b : List ℕ) (n i offset end : ℕ) (out : Vector Text)
    → n + i ≡ end
    → end ≤ length b
    → Cut s b i offset out
    → Cut s b end (split_loop s b n i offset out).0 (split_loop s b n i offset out).1
unfolding split_loop
split_loop-Cut s b zero i offset end out e h v = let same : i ≡ end = omega arith in rw (← same) v
split_loop-Cut s b (suc n) i offset end out e h v = elim (Bool-cases (get_or b i 0 == s)) [
  | inl cut ↦ rw cut (
      split_loop-Cut s b n (i + 1) (i + 1) end _ (omega arith) h
        (split_at_separator s b i offset out (omega arith) ((==_iff _ s).0 cut) v))
  | inr on ↦ rw on (
      split_loop-Cut s b n (i + 1) offset end out (omega arith) h
        (split_goes_on s b i offset out (omega arith) v))
]

-- The pieces of a text whose allocation holds its `buffer_size` bytes are these bytes: all pieces
-- but the last, each followed by the separator, and then the last one, give them back.
pub split_loses_nothing :
    (separator : ℕ) (s : Text)
    → s.buffer_size ≤ length s.bytes
    → (init : List Text) × (last : Text) × ((split separator s).items ≡ init ++ last ∷ [])
      × (ended separator init ++ content last ≡ content s)
unfolding split empty
split_loses_nothing separator s h = (
  v.1.items,
  last,
  items-push last v.1 done.valid,
  ap (◌++◌ (ended separator v.1.items)) (
        content-from_range (drop v.0 s.bytes) (s.buffer_size - v.0)
          (omega (arith, length-drop v.0 s.bytes, done.behind)))
      ∙ done.kept,
)
  where
    v : ℕ × Vector Text
    v = split_loop separator s.bytes s.buffer_size 0 0 empty

    last : Text
    last = from_range (drop v.0 s.bytes) (s.buffer_size - v.0)

    done : Cut separator s.bytes s.buffer_size v.0 v.1
    done =
        split_loop-Cut separator s.bytes s.buffer_size 0 0 s.buffer_size empty (omega arith) h
          (record { valid = empty-IsValid; behind = omega arith; kept = refl })
