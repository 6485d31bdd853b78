-- ===== src/Acquisition/Channels/Distinct.antt =====
-- No two channels share a name or a connector.
use dcscan_modules_api.Prelude.{
  ◌≡◌, ◌≢◌, refl, sym, ap, ◌∙◌, ◌⊎◌, ◌++◌, All, inl, inr, Bool, true, false, not, ◌&&◌, ◌||◌, [],
  ◌∷◌, arith, Bool-cases,
}
use dcscan_modules_api.Core.Database.{Chars}
use dcscan_modules_api.Core.Database.Cache.{same_chars}
use dcscan_modules_api.Core.Database.Names.{same_chars_refl, same_chars_sym, same_chars_sound}
use dcscan_modules_api.Acquisition.Tasks.{ChannelType, Ni}
use dcscan_modules_api.Acquisition.Channels.{
  VirtualChannel, Channels, Daq, in_use, less_chars, insert, remove, new_channel, delete_channel,
}

unfoldable pub distinct : Channels → Bool
distinct [] = true
distinct ((n, c) ∷ cs) = not (in_use n c.channel_name cs) && distinct cs

in_use-insert :
    (m k n : Chars) (c : VirtualChannel) (cs : Channels)
    → in_use n c.channel_name cs ≡ false
    → in_use m k (insert n c cs)
      ≡ (same_chars n m || (same_chars c.channel_name k || in_use m k cs))
unfolding in_use insert
in_use-insert m k n c [] free = refl
in_use-insert m k n c ((j, d) ∷ cs) free = ground (arith, free, in_use-insert m k n c cs)

distinct-insert :
    (n : Chars) (c : VirtualChannel) (cs : Channels)
    → in_use n c.channel_name cs ≡ false
    → distinct cs ≡ true
    → distinct (insert n c cs) ≡ true
unfolding in_use insert distinct
distinct-insert n c [] free ok = refl
distinct-insert n c ((j, d) ∷ cs) free ok = ground (
  arith,
  free,
  ok,
  distinct-insert n c cs,
  in_use-insert j d.channel_name n c cs,
  same_chars_sym j n,
  same_chars_sym d.channel_name c.channel_name,
)

in_use-remove :
    (m k n : Chars) (cs : Channels) → in_use m k cs ≡ false → in_use m k (remove n cs) ≡ false
unfolding in_use remove
in_use-remove m k n [] free = refl
in_use-remove m k n ((j, d) ∷ cs) free = ground (arith, free, in_use-remove m k n cs)

distinct-remove : (n : Chars) (cs : Channels) → distinct cs ≡ true → distinct (remove n cs) ≡ true
unfolding remove distinct
distinct-remove n [] ok = refl
distinct-remove n ((j, d) ∷ cs) ok =
    ground (arith, ok, distinct-remove n cs, in_use-remove j d.channel_name n cs)

-- Another channel: neither the name nor the connector.
abbrev pub IsOther : Chars → Chars → Chars × VirtualChannel → Type 0
IsOther name channel_name (n, c) = (n ≢ name) × (c.channel_name ≢ channel_name)

abbrev pub HasOtherName : Chars → Chars × VirtualChannel → Type 0
HasOtherName name (n, c) = n ≢ name

-- No two channels share a name or a connector.
abbrev pub Distinct : Channels → Type 0
Distinct [] = Unit
Distinct ((n, c) ∷ cs) = All (IsOther n c.channel_name) cs × Distinct cs

chars_differ : (a b : Chars) → same_chars a b ≡ false → a ≢ b
chars_differ a b h e = true_not_false (sym (same_chars_refl a) ∙ ap (same_chars a) e ∙ h)
  where
    true_not_false : true ≢ false
    true_not_false = λ e. cc

chars_same : (a b : Chars) → a ≢ b → same_chars a b ≡ false
chars_same a b ne = elim (Bool-cases (same_chars a b)) [
  | inl same ↦ absurd (ne (same_chars_sound a b same))
  | inr differs ↦ differs
]

in_use-IsOther :
    (name channel_name : Chars) (cs : Channels)
    → in_use name channel_name cs ≡ false
    → All (IsOther name channel_name) cs
unfolding in_use
in_use-IsOther name channel_name [] h = tt
in_use-IsOther name channel_name ((n, c) ∷ cs) h = (
  (
    chars_differ n name (ground (arith, h)),
    chars_differ c.channel_name channel_name (ground (arith, h)),
  ),
  in_use-IsOther name channel_name cs (ground (arith, h)),
)

IsOther-in_use :
    (name channel_name : Chars) (cs : Channels)
    → All (IsOther name channel_name) cs
    → in_use name channel_name cs ≡ false
unfolding in_use
IsOther-in_use name channel_name [] v = refl
IsOther-in_use name channel_name ((n, c) ∷ cs) v =
    rw (chars_same n name v.0.0, chars_same c.channel_name channel_name v.0.1)
      (IsOther-in_use name channel_name cs v.1)

pub distinct-Distinct : (cs : Channels) → distinct cs ≡ true → Distinct cs
unfolding distinct
distinct-Distinct [] h = tt
distinct-Distinct ((n, c) ∷ cs) h = (
  in_use-IsOther n c.channel_name cs (ground (arith, h)),
  distinct-Distinct cs (ground (arith, h)),
)

Distinct-distinct : (cs : Channels) → Distinct cs → distinct cs ≡ true
unfolding distinct
Distinct-distinct [] v = refl
Distinct-distinct ((n, c) ∷ cs) v =
    rw (IsOther-in_use n c.channel_name cs v.0) (Distinct-distinct cs v.1)

-- A new entry is put in between two others.
insert_split :
    (name : Chars) (c : VirtualChannel) (cs : Channels)
    → All (IsOther name c.channel_name) cs
    → (first last : Channels) × (cs ≡ first ++ last)
      × (insert name c cs ≡ first ++ (name, c) ∷ last)
unfolding insert
insert_split name c [] v = ([], [], refl, refl)
insert_split name c ((n, d) ∷ cs) v = elim (Bool-cases (less_chars name n)) [
  | inl less ↦ ([], (n, d) ∷ cs, refl, rw (chars_same n name v.0.0, less) refl)
  | inr not_less ↦
      let (first, last, e, f) = insert_split name c cs v.1 in
      (
        (n, d) ∷ first,
        last,
        ap (◌∷◌ (n, d)) e,
        rw (chars_same n name v.0.0, not_less) (ap (◌∷◌ (n, d)) f),
      )
]

-- The first entry of a name is taken out.
remove_split :
    (name : Chars) (cs : Channels)
    → ((first last : Channels) × (c : VirtualChannel) × (cs ≡ first ++ (name, c) ∷ last)
        × (remove name cs ≡ first ++ last))
      ⊎ (All (HasOtherName name) cs × (remove name cs ≡ cs))
unfolding remove
remove_split name [] = inr (tt, refl)
remove_split name ((n, c) ∷ cs) = elim (Bool-cases (same_chars n name)) [
  | inl same ↦ inl ([], cs, c, ap (λ k. (k, c) ∷ cs) (same_chars_sound n name same), rw same refl)
  | inr differs ↦ elim (remove_split name cs) [
    | inl (first, last, d, e, f) ↦
        inl ((n, c) ∷ first, last, d, ap (◌∷◌ (n, c)) e, rw differs (ap (◌∷◌ (n, c)) f))
    | inr (others, f) ↦ inr ((chars_differ n name differs, others), rw differs (ap (◌∷◌ (n, c)) f))
  ]
]

module _ {ℓ} {F : Type ℓ} (ni : Ni F) where
  new_lem :
      (type : ChannelType) (name channel_name gone : Chars) (d : Daq F)
      → distinct d.channels ≡ true
      → (distinct (new_channel ni type name channel_name d).channels ≡ true)
        × (distinct (delete_channel ni gone d).channels ≡ true)
  unfolding new_channel delete_channel
  new_lem type name channel_name gone d ok =
      let c : VirtualChannel = record { channel_name = channel_name; type = type } in
      (
        elim (Bool-cases (in_use name channel_name d.channels)) [
          | inl used ↦ ground (arith, used, ok)
          | inr free ↦ ground (arith, free, distinct-insert name c d.channels free ok)
        ],
        distinct-remove gone d.channels ok,
      )

  -- Where no two channels share a name or a connector, none do after a channel was asked for, or
  -- deleted. If no channel has the name or the connector that was asked for, the new one is put
  -- among the others, and all of them stay; if one has, nothing changes at all. A deletion takes
  -- out the channel with the name, and nothing else; without one nothing changes.
  pub new_channel-Distinct :
      (type : ChannelType) (name channel_name gone : Chars) (d : Daq F)
      → Distinct d.channels
      → let t = new_channel ni type name channel_name d in
        Distinct t.channels
        × Distinct (delete_channel ni gone d).channels
        × (((first last : Channels) × (c : VirtualChannel) × (d.channels
                ≡ first ++ (gone, c) ∷ last)
              × (delete_channel ni gone d ≡ record d { channels = first ++ last }))
            ⊎ (All (HasOtherName gone) d.channels × (delete_channel ni gone d ≡ d)))
        × ((All (IsOther name channel_name) d.channels
              × ((first last : Channels) × (d.channels ≡ first ++ last)
                  × (t ≡ record d {
                    channels =
                        first ++ (name, record { channel_name = channel_name; type = type }) ∷ last;
                  })))
            ⊎ ((¬ All (IsOther name channel_name) d.channels) × (t ≡ d)))
  new_channel-Distinct type name channel_name gone d ok =
      let c : VirtualChannel = record { channel_name = channel_name; type = type } in
      let (made, deleted) =
        new_lem type name channel_name gone d (Distinct-distinct d.channels ok) in
      (
        distinct-Distinct _ made,
        distinct-Distinct _ deleted,
        elim (remove_split gone d.channels) [
          | inl (first, last, b, e, f) ↦
              inl (
                first,
                last,
                b,
                e,
                unfold delete_channel in ap (λ cs. record d { channels = cs }) f,
              )
          | inr (others, f) ↦
              inr (others, unfold delete_channel in ap (λ cs. record d { channels = cs }) f)
        ],
        elim (Bool-cases (in_use name channel_name d.channels)) [
          | inl used ↦ inr (
            (λ v. true_not_false (sym used ∙ IsOther-in_use name channel_name d.channels v)),
            unfold new_channel in rw used refl,
          )
          | inr free ↦
              let others = in_use-IsOther name channel_name d.channels free in
              let (first, last, e, f) = insert_split name c d.channels others in
              inl (
                others,
                (
                  first,
                  last,
                  e,
                  unfold new_channel in rw free (ap (λ cs. record d { channels = cs }) f),
                ),
              )
        ],
      )
    where
      true_not_false : true ≢ false
      true_not_false = λ e. cc
