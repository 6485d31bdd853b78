-- ===== src/Core/Auth/Contexts.antt =====
-- The contexts of OpenSSL are freed on every path.
use dcscan_modules_api.Prelude.{
  ℕ, ◌≡◌, refl, sym, ap, ◌∙◌, ◌⊎◌, inl, inr, Bool, true, false, Option, none, some, List, [], ◌∷◌,
  ◌++◌, map, append_assoc, ltb, if◌then◌else◌, Bool-cases, length, All,
}
use dcscan_modules_api.Prelude.Attempts.{
  perform, perform_lem, Stops, NoneFails, All-append, All-prefix,
}
use mathlib.Core.Path.{subst}
use dcscan_modules_api.Core.Auth.{
  Call, Evp, Step, aad_steps, encrypt_steps, tag_steps, decrypt_steps, attempt, encrypted,
  decrypted, encrypt_aes256, decrypt_aes256,
}

-- A call that uses a context, and neither makes nor frees one.
abbrev pub uses : Call → Bool
uses Call.ctx_new = false
uses Call.ctx_free = false
uses _ = true

abbrev pub IsUse : Call → Type 0
IsUse c = uses c ≡ true

-- The calls on a context that an encryption and a decryption are to make between its making and its end.
abbrev pub aad_plan : Option (List ℕ) → List Call
aad_plan none = []
aad_plan (some aad) = if ltb 0 (length aad) then Call.update_aad aad ∷ [] else []

abbrev pub encrypt_plan : List ℕ → Option (List ℕ) → List ℕ → List ℕ → List Call
encrypt_plan bytes aad key iv =
    Call.init_type
    ∷ Call.set_ivlen 16
    ∷ Call.init_key key iv
    ∷ (aad_plan aad ++ Call.update_text bytes ∷ Call.final ∷ Call.get_tag 16 ∷ [])

abbrev pub tag_plan : Option (List ℕ) → List Call
tag_plan none = []
tag_plan (some tag) = Call.set_tag tag ∷ []

abbrev pub decrypt_plan : List ℕ → Option (List ℕ) → List ℕ → List ℕ → Option (List ℕ) → List Call
decrypt_plan bytes aad key iv tag =
    Call.init_type
    ∷ Call.set_ivlen 16
    ∷ Call.init_key key iv
    ∷ (aad_plan aad ++ Call.update_text bytes ∷ (tag_plan tag ++ Call.final ∷ []))

aad_plan-IsUse : (aad : Option (List ℕ)) → All IsUse (aad_plan aad)
aad_plan-IsUse none = tt
aad_plan-IsUse (some aad) = elim (Bool-cases (ltb 0 (length aad))) [
  | inl some_bytes ↦ rw some_bytes (refl, tt)
  | inr no_bytes ↦ rw no_bytes tt
]

tag_plan-IsUse : (tag : Option (List ℕ)) → All IsUse (tag_plan tag ++ Call.final ∷ [])
tag_plan-IsUse none = (refl, tt)
tag_plan-IsUse (some tag) = (refl, (refl, tt))

encrypt_plan-IsUse :
    (bytes : List ℕ) (aad : Option (List ℕ)) (key iv : List ℕ)
    → All IsUse (encrypt_plan bytes aad key iv)
encrypt_plan-IsUse bytes aad key iv = (
  refl,
  (refl, (refl, All-append IsUse (aad_plan aad) _ (aad_plan-IsUse aad) (refl, (refl, (refl, tt))))),
)

decrypt_plan-IsUse :
    (bytes : List ℕ) (aad : Option (List ℕ)) (key iv : List ℕ) (tag : Option (List ℕ))
    → All IsUse (decrypt_plan bytes aad key iv tag)
decrypt_plan-IsUse bytes aad key iv tag = (
  refl,
  (refl, (refl, All-append IsUse (aad_plan aad) _ (aad_plan-IsUse aad) (refl, tag_plan-IsUse tag))),
)

-- Steps that make the calls of a plan, each with a branch that frees the context.
abbrev pub guarded : List Call → List Step
guarded = map (λ c. (c, Call.ctx_free ∷ []))

guarded-append : (a b : List Call) → guarded (a ++ b) ≡ guarded a ++ guarded b
guarded-append [] b = refl
guarded-append (c ∷ a) b = ap (◌∷◌ (c, Call.ctx_free ∷ [])) (guarded-append a b)

aad_lem : (aad : Option (List ℕ)) → aad_steps aad ≡ guarded (aad_plan aad)
unfolding aad_steps
aad_lem none = refl
aad_lem (some aad) = elim (Bool-cases (ltb 0 (length aad))) [
  | inl some_bytes ↦ rw some_bytes refl
  | inr no_bytes ↦ rw no_bytes refl
]

tag_lem : (tag : Option (List ℕ)) → tag_steps tag ≡ guarded (tag_plan tag)
unfolding tag_steps
tag_lem none = refl
tag_lem (some tag) = refl

encrypt_lem :
    (bytes : List ℕ) (aad : Option (List ℕ)) (key iv : List ℕ)
    → encrypt_steps bytes aad key iv ≡ (Call.ctx_new, []) ∷ guarded (encrypt_plan bytes aad key iv)
unfolding encrypt_steps
encrypt_lem bytes aad key iv =
    rw
      (
        aad_lem aad,
        guarded-append (aad_plan aad) (Call.update_text bytes ∷ Call.final ∷ Call.get_tag 16 ∷ []),
      )
      refl

decrypt_lem :
    (bytes : List ℕ) (aad : Option (List ℕ)) (key iv : List ℕ) (tag : Option (List ℕ))
    → decrypt_steps bytes aad key iv tag ++ (Call.final, Call.ctx_free ∷ []) ∷ []
      ≡ (Call.ctx_new, []) ∷ guarded (decrypt_plan bytes aad key iv tag)
unfolding decrypt_steps
decrypt_lem bytes aad key iv tag =
    rw
      (
        aad_lem aad,
        tag_lem tag,
        append_assoc (guarded (aad_plan aad))
            ((Call.update_text bytes, Call.ctx_free ∷ []) ∷ guarded (tag_plan tag)),
        guarded-append (aad_plan aad) (Call.update_text bytes ∷ (tag_plan tag ++ Call.final ∷ [])),
        guarded-append (tag_plan tag) (Call.final ∷ []),
      )
      refl

module _ (evp : Evp) where
  -- Either the context could not be made, and nothing more was called; or it was made, then used for the
  -- first of `calls`, up to the first that failed, and then freed, once and as the last call.
  abbrev pub IsFreed : List Call → List Call → Type 0
  IsFreed calls made =
      ((evp.fails [] Call.ctx_new ≡ true) × (made ≡ Call.ctx_new ∷ []))
      ⊎ ((done rest : List Call) × (calls ≡ done ++ rest)
          × (made ≡ Call.ctx_new ∷ (done ++ Call.ctx_free ∷ []))
          × Stops evp.fails (Call.ctx_new ∷ []) done
          × All IsUse done)

  -- A success is that every call succeeded.
  abbrev pub Succeeds : Bool → List Call → Type 0
  Succeeds ok calls = (ok ≡ false) ⊎ NoneFails evp.fails (Call.ctx_new ∷ []) calls

  -- The calls of steps that end in freeing the context where none failed.
  abbrev closed : Bool × List Call → List Call
  closed r = if r.0 then r.1 ++ Call.ctx_free ∷ [] else r.1

  attempt-guarded :
      (calls made : List Call)
      → let (ok, after) = perform evp.fails calls made in
        attempt evp (guarded calls) made ≡ (ok, if ok then after else after ++ Call.ctx_free ∷ [])
  unfolding attempt perform
  attempt-guarded [] made = refl
  attempt-guarded (c ∷ calls) made = elim (Bool-cases (evp.fails made c)) [
    | inl failed ↦ rw failed refl
    | inr fine ↦ rw fine (attempt-guarded calls (made ++ c ∷ []))
  ]

  closed_lem :
      (calls : List Call)
      → All IsUse calls
      → let r = attempt evp ((Call.ctx_new, []) ∷ guarded calls) [] in
        IsFreed calls (closed r) × Succeeds r.0 calls
  unfolding attempt
  closed_lem calls u = elim (Bool-cases (evp.fails [] Call.ctx_new)) [
    | inl no_context ↦ rw no_context (inl (refl, refl), inl refl)
    | inr made ↦
        rw (made, attempt-guarded calls (Call.ctx_new ∷ []))
          (let d = perform_lem evp.fails calls (Call.ctx_new ∷ []) in
            (
              inr (
                d.done,
                d.rest,
                d.split,
                same (perform evp.fails calls (Call.ctx_new ∷ [])).0 _
                    ∙ ap (λ l. l ++ Call.ctx_free ∷ []) d.calls,
                d.stops,
                All-prefix IsUse d.done d.rest (subst (All IsUse) d.split u),
              ),
              elim d.ended [ inl stopped ↦ inl stopped | inr (whole, fine) ↦ inr fine ],
            ))
  ]
    where
      same :
          (ok : Bool) (m : List Call)
          → (if ok
              then (if ok then m else m ++ Call.ctx_free ∷ []) ++ Call.ctx_free ∷ []
              else (if ok then m else m ++ Call.ctx_free ∷ []))
            ≡ m ++ Call.ctx_free ∷ []
      same true m = refl
      same false m = refl

  -- A last step.
  abbrev then_step : Call → List Call → Bool × List Call → Bool × List Call
  then_step c on_failure (false, made) = (false, made)
  then_step c on_failure (true, made) =
      if evp.fails made c then (false, (made ++ c ∷ []) ++ on_failure) else (true, made ++ c ∷ [])

  attempt-last :
      (steps : List Step) (c : Call) (on_failure made : List Call)
      → attempt evp (steps ++ (c, on_failure) ∷ []) made
        ≡ then_step c on_failure (attempt evp steps made)
  unfolding attempt
  attempt-last [] c on_failure made = refl
  attempt-last ((d, f) ∷ steps) c on_failure made = elim (Bool-cases (evp.fails made d)) [
    | inl failed ↦ rw failed refl
    | inr fine ↦ rw fine (attempt-last steps c on_failure (made ++ d ∷ []))
  ]

  encrypted_lem :
      {P : Type 0} (r : Bool × List Call)
      → (r.0 ≡ false) ⊎ P
      → ((encrypted evp r).1 ≡ closed r) × (((encrypted evp r).0.1 ≡ none) ⊎ P)
  encrypted_lem (false, made) e = (refl, inl refl)
  encrypted_lem (true, made) (inl e) = cc
  encrypted_lem (true, made) (inr p) = (refl, inr p)

  decrypted_lem :
      {P : Type 0} (r : Bool × List Call)
      → let all = then_step Call.final (Call.ctx_free ∷ []) r in
        (all.0 ≡ false) ⊎ P
        → ((decrypted evp r).1 ≡ closed all) × (((decrypted evp r).0.0 ≡ none) ⊎ P)
  decrypted_lem (false, made) e = (refl, inl refl)
  decrypted_lem {P} (true, made) e = elim (Bool-cases (evp.fails made Call.final)) [
    | inl failed ↦
        rw failed (sym (append_assoc made (Call.final ∷ []) (Call.ctx_free ∷ [])), inl refl)
    | inr fine ↦ rw fine (
      sym (append_assoc made (Call.final ∷ []) (Call.ctx_free ∷ [])),
      inr (
          only (
            subst
              (λ b.
                ((if◌then◌else◌ {A = Bool × List Call} b
                    (false, (made ++ Call.final ∷ []) ++ Call.ctx_free ∷ [])
                    (true, made ++ Call.final ∷ [])).0
                  ≡ false)
                ⊎ P)
              fine e)),
    )
  ]
    where
      only : {P : Type 0} → (true ≡ false) ⊎ P → P
      only (inl e) = cc
      only (inr p) = p

  -- Whatever fails in OpenSSL, an encryption and a decryption free the context that they make, once and
  -- after its last use, and use it no further after a call that failed; without a context they call
  -- nothing. The tag of an encryption is written, and the length of a decryption is not -1, only if
  -- every call succeeded.
  pub context-IsFreed :
      (bytes : List ℕ) (aad : Option (List ℕ)) (key iv : List ℕ) (tag : Option (List ℕ))
      → let encrypted = encrypt_aes256 evp bytes aad key iv in
        let decrypted = decrypt_aes256 evp bytes aad key iv tag in
        let calls = encrypt_plan bytes aad key iv in
        let calls' = decrypt_plan bytes aad key iv tag in
        IsFreed calls encrypted.1
        × ((encrypted.0.1 ≡ none) ⊎ NoneFails evp.fails (Call.ctx_new ∷ []) calls)
        × IsFreed calls' decrypted.1
        × ((decrypted.0.0 ≡ none) ⊎ NoneFails evp.fails (Call.ctx_new ∷ []) calls')
  unfolding encrypt_aes256 decrypt_aes256
  context-IsFreed bytes aad key iv tag =
      let plan = encrypt_plan bytes aad key iv in
      let plan' = decrypt_plan bytes aad key iv tag in
      let r = attempt evp (encrypt_steps bytes aad key iv) [] in
      let r' = attempt evp (decrypt_steps bytes aad key iv tag) [] in
      let (freed, succeeds) =
        subst
          (λ steps.
            IsFreed plan (closed (attempt evp steps [])) × Succeeds (attempt evp steps []).0 plan)
          (sym (encrypt_lem bytes aad key iv))
          (closed_lem plan (encrypt_plan-IsUse bytes aad key iv)) in
      let (freed', succeeds') =
        subst (λ all. IsFreed plan' (closed all) × Succeeds all.0 plan')
          (ap (λ steps. attempt evp steps []) (sym (decrypt_lem bytes aad key iv tag))
            ∙ attempt-last (decrypt_steps bytes aad key iv tag) Call.final (Call.ctx_free ∷ []) [])
          (closed_lem plan' (decrypt_plan-IsUse bytes aad key iv tag)) in
      let (same, written) = encrypted_lem r succeeds in
      let (same', returned) = decrypted_lem r' succeeds' in
      (
        subst (IsFreed plan) (sym same) freed,
        written,
        subst (IsFreed plan') (sym same') freed',
        returned,
      )
