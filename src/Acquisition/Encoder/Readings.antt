-- ===== src/Acquisition/Encoder/Readings.antt =====
-- What the reading loop leaves: in the queue, for InspectLastEncoderValues, and in the database.
use dcscan_modules_api.Prelude.{
  ℕ, ◌+◌, ◌-◌, ◌/◌, ◌%◌, ◌^◌, ◌<◌, Bool, leb, ◌==◌, All, ◌≡◌, refl, sym, ap, ◌∙◌, Option, some,
  List, [], ◌∷◌, ◌++◌, map, append-nil, append_assoc, arith, if◌then◌else◌, lt→ltb, length,
  length-append,
}
use mathlib.Core.Path.{ap₂}
use dcscan_modules_api.Utils.MessageQueue.{push, last?, peek_back_woken}
use dcscan_modules_api.Acquisition.Encoder.{
  Entry, has_axis, AxisData, Data, Conversion, read_axis, read_axes, count_axes, offset, Box,
  main_round, inspect_last_encoder_values,
}

-- What a round finds: the two offsets, the memory of the four axes, and the entry.
pub record Found (F : Type 0) : Type 0 where
  pub c1 : F
  pub c2 : F
  pub s0 : AxisData F
  pub s1 : AxisData F
  pub s2 : AxisData F
  pub s3 : AxisData F
  pub entry : Entry

abbrev pub stack_of : {F : Type 0} → Found F → List (AxisData F)
stack_of f = f.s0 ∷ f.s1 ∷ f.s2 ∷ f.s3 ∷ []

last?-push : {A : Type 0} (a : A) (q : List A) → last? (push a q) ≡ some a
unfolding last? push
last?-push a [] = refl
last?-push a (b ∷ []) = refl
last?-push a (b ∷ c ∷ q) = last?-push a (c ∷ q)

peek-push : {A : Type 0} (x a : A) (q : List A) → peek_back_woken x (push a q) ≡ a
unfolding peek_back_woken
peek-push x a q = rw (peek_back_woken, last?-push a q) refl

push-append : {A : Type 0} (a : A) (q xs : List A) → push a q ++ xs ≡ q ++ a ∷ xs
unfolding push
push-append a q xs = append_assoc q (a ∷ []) xs

push_last : {A : Type 0} (a : A) (q xs : List A) → q ++ (xs ++ a ∷ []) ≡ push a (q ++ xs)
unfolding push
push_last a q xs = sym (append_assoc q xs (a ∷ []))

-- The bit of an axis among the axes in use, and how many there are.
abbrev pub used : ℕ → ℕ → Bool
used axes i = (axes / 2 ^ i) % 2 == 1

abbrev pub one_if : Bool → ℕ
one_if b = if b then 1 else 0

abbrev pub axes_used : ℕ → ℕ
axes_used axes =
    one_if (used axes 0) + one_if (used axes 1) + one_if (used axes 2) + one_if (used axes 3)

-- A position counted from a reference mark, as an `i64`.
abbrev pub since_mark : ℕ → ℕ → ℕ
since_mark position mark = if leb mark position then position - mark else (position + 2 ^ 64) - mark

since_lem :
    (position mark : ℕ)
    → position < 2 ^ 64
    → mark < 2 ^ 64
    → (position + (2 ^ 64 - mark)) % 2 ^ 64 ≡ since_mark position mark
since_lem position mark h k = ground (arith, h, k)

-- The positions of an entry are 64 bits wide.
abbrev pub IsWords : {F : Type 0} → Found F → Type 0
IsWords f = ((i : ℕ) → f.entry.position i < 2 ^ 64) × ((i : ℕ) → (f.entry.ref i).0 < 2 ^ 64)

module _ {F : Type 0} (conversion : Conversion F) where
  abbrev pub rounds : ℕ → List (Found F) → Box conversion → Box conversion
  rounds axes [] b = b
  rounds axes (f ∷ fs) b =
      rounds axes fs (main_round conversion axes f.c1 f.c2 (stack_of f) f.entry b)

  -- What an entry holds of an axis.
  abbrev pub reading : Entry → ℕ → AxisData F
  reading entry i =
      let position = since_mark (entry.position i) (entry.ref i).0 in
      record {
        axis = i + 1;
        position = position;
        calpos = conversion.to_degrees i (conversion.incr_pos_to_double position);
        status = entry.status i;
        trigger_counter = entry.trigger_counter;
        timestamp = entry.timestamp i;
        ref = entry.ref i;
      }

  -- An axis in use is read from the entry, and one that is not is what its memory holds.
  abbrev pub value : ℕ → Found F → ℕ → AxisData F → AxisData F
  value axes f i old = if used axes i then reading f.entry i else old

  value_lem :
      (axes : ℕ) (f : Found F) (i : ℕ) (old : AxisData F)
      → IsWords f
      → (if has_axis axes i then read_axis conversion f.entry i else old) ≡ value axes f i old
  unfolding has_axis read_axis
  value_lem axes f i old v =
      ap
        (λ p.
          if used axes i
          then record {
            axis = i + 1;
            position = p;
            calpos = conversion.to_degrees i (conversion.incr_pos_to_double p);
            status = f.entry.status i;
            trigger_counter = f.entry.trigger_counter;
            timestamp = f.entry.timestamp i;
            ref = f.entry.ref i;
          }
          else old)
        (since_lem (f.entry.position i) (f.entry.ref i).0 (v.0 i) (v.1 i))

  abbrev pub shifted : F → AxisData F → AxisData F
  shifted x d = record d { calpos = conversion.add d.calpos x }

  abbrev pub data_of : ℕ → Found F → Data F
  data_of axes f = record {
    num_axis = axes_used axes;
    axis =
        value axes f 0 f.s0
        ∷ shifted f.c1 (value axes f 1 f.s1)
        ∷ value axes f 2 f.s2
        ∷ shifted f.c2 (value axes f 3 f.s3)
        ∷ [];
  }

  abbrev pub known_of : ℕ → Found F → Option F × Option F
  known_of axes f = (some (value axes f 1 f.s1).calpos, some (value axes f 3 f.s3).calpos)

  count_lem : (axes : ℕ) → count_axes conversion axes 0 4 ≡ axes_used axes
  unfolding count_axes has_axis
  count_lem axes = ground arith

  round_lem :
      (axes : ℕ) (f : Found F) (b : Box conversion)
      → IsWords f
      → 0 < axes_used axes
      → main_round conversion axes f.c1 f.c2 (stack_of f) f.entry b
        ≡ record { queue = push (data_of axes f) b.queue; known = b.known ++ known_of axes f ∷ [] }
  unfolding main_round read_axes offset
  round_lem axes f b v h =
      rw
        (
          count_lem axes,
          lt→ltb 0 (axes_used axes) h,
          value_lem axes f 0 f.s0 v,
          value_lem axes f 1 f.s1 v,
          value_lem axes f 2 f.s2 v,
          value_lem axes f 3 f.s3 v,
        )
        refl

  rounds_lem :
      (axes : ℕ) (fs : List (Found F)) (b : Box conversion)
      → All IsWords fs
      → 0 < axes_used axes
      → rounds axes fs b ≡ record {
        queue = b.queue ++ map (data_of axes) fs;
        known = b.known ++ map (known_of axes) fs;
      }
  rounds_lem axes [] b v h =
      sym (ap₂ (λ q k. record { queue = q; known = k }) (append-nil b.queue) (append-nil b.known))
  rounds_lem axes (f ∷ fs) b v h =
      ap (rounds axes fs) (round_lem axes f b v.0 h)
      ∙ rounds_lem axes fs _ v.1 h
      ∙ ap₂ (λ q k. record { queue = q; known = k })
          (push-append (data_of axes f) b.queue (map (data_of axes) fs))
          (append_assoc b.known (known_of axes f ∷ []) (map (known_of axes) fs))

  inspect_push :
      (stack : List (AxisData F)) (d : Data F) (b : Box conversion) (q : List (Data F))
      → b.queue ≡ push d q
      → inspect_last_encoder_values conversion stack b ≡ d
  unfolding inspect_last_encoder_values
  inspect_push stack d b q e =
      rw (e, lt→ltb 0 (length (push d q)) (unfold push in omega (arith, length-append q (d ∷ []))))
        (peek-push _ d q)

  -- With an axis in use, and positions of 64 bits, every round adds the data of its entry to the
  -- queue and its two positions to what is written to the database, and nothing takes any of it
  -- away; the last data is what InspectLastEncoderValues returns. Each axis in use has its field of
  -- the entry, its position counted from its reference mark, and the second and the fourth are
  -- shifted by their offsets. An axis that is not in use has whatever its memory held, also in what
  -- is written to the database.
  pub rounds-inspected :
      (axes : ℕ) (fs : List (Found F)) (f : Found F) (b : Box conversion)
      (stack : List (AxisData F))
      → All IsWords (fs ++ f ∷ [])
      → 0 < axes_used axes
      → let after = rounds axes (fs ++ f ∷ []) b in
        (after.queue ≡ b.queue ++ map (data_of axes) (fs ++ f ∷ []))
        × (after.known ≡ b.known ++ map (known_of axes) (fs ++ f ∷ []))
        × (inspect_last_encoder_values conversion stack after ≡ data_of axes f)
  rounds-inspected axes fs f b stack v h =
      let e = rounds_lem axes (fs ++ f ∷ []) b v h in
      (
        ap (λ a. a.queue) e,
        ap (λ a. a.known) e,
        inspect_push stack (data_of axes f) (rounds axes (fs ++ f ∷ []) b)
            (b.queue ++ map (data_of axes) fs)
            (ap (λ a. a.queue) e
              ∙ ap (◌++◌ b.queue) (map-append_last fs f)
              ∙ push_last (data_of axes f) b.queue (map (data_of axes) fs)),
      )
    where
      map-append_last :
          (fs : List (Found F)) (f : Found F)
          → map (data_of axes) (fs ++ f ∷ []) ≡ map (data_of axes) fs ++ data_of axes f ∷ []
      map-append_last [] f = refl
      map-append_last (g ∷ fs) f = ap (◌∷◌ (data_of axes g)) (map-append_last fs f)
