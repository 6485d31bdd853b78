-- ===== src/Prelude/Attempts.antt =====
-- Calls of a library in a row, up to the first that fails, as code that returns early makes them.
use dcscan_modules_api.Prelude.{
  ◌≡◌, refl, sym, ap, ◌∙◌, ◌⊎◌, inl, inr, Bool, true, false, List, [], ◌∷◌, ◌++◌, append-nil,
  append_assoc, if◌then◌else◌, Bool-cases, All,
}
use mathlib.Core.Path.{subst}

pub All-append :
    {A : Type 0} (P : A → Type 0) (xs ys : List A) → All P xs → All P ys → All P (xs ++ ys)
All-append P [] ys p q = q
All-append P (x ∷ xs) ys p q = (p.0, All-append P xs ys p.1 q)

pub All-prefix : {A : Type 0} (P : A → Type 0) (xs ys : List A) → All P (xs ++ ys) → All P xs
All-prefix P [] ys p = tt
All-prefix P (x ∷ xs) ys p = (p.0, All-prefix P xs ys p.1)

module _ {C : Type 0} (fails : List C → C → Bool) where
  -- Whether all the calls succeed, with the calls made after those in `made`, the first ones first:
  -- `fails` answers for a call after the ones before it.
  unfoldable pub perform : List C → List C → Bool × List C
  perform [] made = (true, made)
  perform (c ∷ cs) made =
      let rest = perform cs (made ++ c ∷ []) in
      if fails made c then (false, made ++ c ∷ []) else rest

  -- None of the calls failed after the ones before it, `made` first.
  abbrev pub NoneFails : List C → List C → Type 0
  NoneFails made [] = Unit
  NoneFails made (c ∷ cs) = (fails made c ≡ false) × NoneFails (made ++ c ∷ []) cs

  -- No call is made after one that failed.
  abbrev pub Stops : List C → List C → Type 0
  Stops made [] = Unit
  Stops made (c ∷ []) = Unit
  Stops made (c ∷ d ∷ cs) = (fails made c ≡ false) × Stops (made ++ c ∷ []) (d ∷ cs)

  pub Stops-append :
      (made xs ys : List C) → NoneFails made xs → Stops (made ++ xs) ys → Stops made (xs ++ ys)
  Stops-append made [] ys f s = subst (λ m. Stops m ys) (append-nil made) s
  Stops-append made (c ∷ []) [] f s = tt
  Stops-append made (c ∷ []) (y ∷ ys) f s = (f.0, s)
  Stops-append made (c ∷ d ∷ cs) ys f s = (
    f.0,
    Stops-append (made ++ c ∷ []) (d ∷ cs) ys f.1
        (subst (λ m. Stops m ys) (sym (append_assoc made (c ∷ []) (d ∷ cs))) s),
  )

  pub Stops-cons :
      (made cs : List C) (c : C)
      → fails made c ≡ false
      → Stops (made ++ c ∷ []) cs
      → Stops made (c ∷ cs)
  Stops-cons made [] c f s = tt
  Stops-cons made (d ∷ cs) c f s = (f, s)

  -- What is done of the calls `cs` after `made`, with the outcome `ok`: all of them, or those up to the
  -- first that fails.
  pub record Done (cs made : List C) (ok : Bool) (after : List C) : Type 0 where
    pub done : List C
    pub rest : List C
    pub split : cs ≡ done ++ rest
    pub calls : after ≡ made ++ done
    pub stops : Stops made done
    pub ended : (ok ≡ false) ⊎ ((rest ≡ []) × NoneFails made cs)

  pub perform_lem : (cs made : List C) → Done cs made (perform cs made).0 (perform cs made).1
  unfolding perform
  perform_lem [] made = record {
    done = [];
    rest = [];
    split = refl;
    calls = sym (append-nil made);
    stops = tt;
    ended = inr (refl, tt);
  }
  perform_lem (c ∷ cs) made = elim (Bool-cases (fails made c)) [
    | inl failed ↦ rw failed (record {
      done = c ∷ [];
      rest = cs;
      split = refl;
      calls = refl;
      stops = tt;
      ended = inl refl;
    })
    | inr fine ↦ rw fine (
        let d = perform_lem cs (made ++ c ∷ []) in
        record {
          done = c ∷ d.done;
          rest = d.rest;
          split = ap (◌∷◌ c) d.split;
          calls = d.calls ∙ append_assoc made (c ∷ []) d.done;
          stops = Stops-cons made d.done c fine d.stops;
          ended = elim d.ended [
            | inl stopped ↦ inl stopped
            | inr all_done ↦ inr (all_done.0, (fine, all_done.1))
          ];
        })
  ]
