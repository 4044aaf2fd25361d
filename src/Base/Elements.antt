-- ===== src/Base/Elements.antt =====
-- Which elements a list has, and which ones a loop adds to it.
use mathlib.Core.Path.{◌≡◌, refl, sym, subst}
use mathlib.Core.Logic.{◌↔◌, ◌⊎◌, inl, inr, ⊎_elim}
use mathlib.Core.List.{List, [], ◌∷◌, ◌++◌}
use native.Mathlib.Omega.{arith}
use brb_partially_connected.Base.Loops.{for_each}

module _ {A : Type 0} where
  abbrev pub Among : A → List A → Type 0
  Among a [] = ⊥
  Among a (x ∷ xs) = (x ≡ a) ⊎ Among a xs

  pub Among-concat : (a : A) (xs : List A) (b : A) → Among a (xs ++ b ∷ []) ↔ (Among a xs ⊎ (b ≡ a))
  Among-concat a [] b = ground arith
  Among-concat a (x ∷ xs) b = ground (arith, Among-concat a xs b)

-- A loop over `xs` of which each round `x` adds what `E x` says.
pub for_each-adds :
    {A B : Type 0} (p : B) (xs : List A) (body : A → List B → List B) (E : A → Type 0) (q : List B)
    → ((x : A) (q : List B) → Among p (body x q) ↔ (Among p q ⊎ E x))
    → Among p (for_each xs body q) ↔ (Among p q ⊎ ((x : A) × Among x xs × E x))
for_each-adds p [] body E q adds = (inl, ⊎_elim (λ h. h) (λ (x, none_of, e). absurd none_of))
for_each-adds p (x ∷ xs) body E q adds =
    let (rest, rest') = for_each-adds p xs body E (body x q) adds in
    let (here, here') = adds x q in
    (
      λ h.
          ⊎_elim (λ b. ⊎_elim inl (λ e. inr (x, inl refl, e)) (here b))
            (λ (y, m, e). inr (y, inr m, e)) (rest h),
      ⊎_elim (λ old. rest' (inl (here' (inl old))))
          (λ (y, m, e).
            ⊎_elim (λ same. rest' (inl (here' (inr (subst E (sym same) e)))))
              (λ later. rest' (inr (y, later, e))) m),
    )
