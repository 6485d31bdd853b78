-- ===== src/Network/Client/Reading.antt =====
-- The log-in: the loops that read the challenge, and what the server makes of the client's answer.
use dcscan_modules_api.Prelude.{
  ℕ, zero, suc, ◌-◌, ◌≤◌, ◌<◌, ◌≡◌, refl, sym, ap, ◌∙◌, some, List, [], ◌++◌, append_assoc, arith,
  length, take, drop, length-append, take_exact, drop_exact,
}
use dcscan_modules_api.Network.Client.{and_more, read_bytes}

module _ {ℓ} {S : Type ℓ} (receive : ℕ → S → List ℕ × S)
    -- The bytes that are still to come. `recv` returns at least one of them, and at most as many as it
    -- is asked for.
    (pending : S → List ℕ)
    (in_order : (n : ℕ) (s : S)
      → 0 < n
      → 0 < length (pending s)
      → (receive n s).0 ++ pending (receive n s).1 ≡ pending s)
    (some_bytes : (n : ℕ) (s : S) → 0 < n → 0 < length (pending s) → 0 < length (receive n s).0)
    (within : (n : ℕ) (s : S) → 0 < n → 0 < length (pending s) → length (receive n s).0 ≤ n) where
  read_lem :
      (fuel n : ℕ) (s : S)
      → n ≤ fuel
      → n ≤ length (pending s)
      → (got : List ℕ) × (s' : S) × (read_bytes receive fuel n s ≡ some (got, s'))
        × (length got ≡ n)
        × (got ++ pending s' ≡ pending s)
  unfolding read_bytes
  read_lem fuel zero s f h = ([], s, refl, refl, refl)
  read_lem zero (suc n) s f h = absurd (omega (arith, f))
  read_lem (suc fuel) (suc n) s f h =
      let chunk = (receive (suc n) s).0 in
      let s' = (receive (suc n) s).1 in
      let positive : 0 < suc n = omega arith in
      let more : 0 < length (pending s) = omega (arith, h) in
      let joined = in_order (suc n) s positive more in
      let lengths = sym (length-append chunk (pending s')) ∙ ap length joined in
      let (got, s'', e, l, p) =
        read_lem fuel (suc n - length chunk) s'
          (omega (arith, f, some_bytes (suc n) s positive more))
          (omega (arith, h, lengths, within (suc n) s positive more)) in
      (
        chunk ++ got,
        s'',
        ap (and_more receive chunk) e,
        length-append chunk got ∙ omega (arith, l, within (suc n) s positive more),
        append_assoc chunk got (pending s'') ∙ ap (◌++◌ chunk) p ∙ joined,
      )

  -- Where `recv` returns between one and as many bytes as it is asked for, in the order of the
  -- connection, and at least `n` are to come, the loop ends, within `n` calls, with exactly the first
  -- `n` bytes, however they are split, and leaves the rest.
  pub read_bytes-exact :
      (n : ℕ) (s : S)
      → n ≤ length (pending s)
      → (s' : S) × (read_bytes receive n n s ≡ some (take n (pending s), s'))
        × (pending s' ≡ drop n (pending s))
  read_bytes-exact n s h =
      let (got, s', e, l, p) = read_lem n n s (omega arith) h in
      (
        s',
        e ∙ ap (λ g. some (g, s')) (sym (take_exact n got (pending s') l) ∙ ap (take n) p),
        sym (drop_exact n got (pending s') l) ∙ ap (drop n) p,
      )
