-- ===== src/Base/Totals.antt =====
-- Sums over a list, of a number for each of its elements.
use Prim.Native.Nat.{ℕ, zero, suc, ◌+◌, ◌≤◌}
use mathlib.Core.Path.{◌≡◌}
use mathlib.Core.List.{List, [], ◌∷◌, ◌++◌}
use mathlib.Core.Option.{some}
use native.Mathlib.Omega.{arith}
use brb_partially_connected.Base.Lists.{get_elem?, set}
use brb_partially_connected.Base.Loops.{for_each}

module _ {A : Type 0} (w : A → ℕ) where
  abbrev pub total : List A → ℕ
  total [] = 0
  total (x ∷ xs) = w x + total xs

  pub total-append : (xs ys : List A) → total (xs ++ ys) ≡ total xs + total ys
  total-append [] ys = omega arith
  total-append (x ∷ xs) ys = omega (arith, total-append xs ys)

  pub total-set :
      (xs : List A) (i : ℕ) (old new : A)
      → get_elem? xs i ≡ some old
      → total (set xs i new) + w old ≡ total xs + w new
  total-set [] i old new e = ground (arith, e)
  total-set (x ∷ xs) zero old new e = ground (arith, e)
  total-set (x ∷ xs) (suc i) old new e = omega (arith, total-set xs i old new e)

  pub total-get_elem? : (xs : List A) (i : ℕ) (x : A) → get_elem? xs i ≡ some x → w x ≤ total xs
  total-get_elem? [] i x e = ground (arith, e)
  total-get_elem? (y ∷ xs) zero x e = ground (arith, e)
  total-get_elem? (y ∷ xs) (suc i) x e = omega (arith, total-get_elem? xs i x e)

-- A loop that adds an element for each `x` to a list.
pub total-for_each :
    {A B : Type 0} (w : B → ℕ) (f : A → B) (xs : List A) (q : List B)
    → total w (for_each xs (λ x q. q ++ f x ∷ []) q) ≡ total w q + total (λ x. w (f x)) xs
total-for_each w f [] q = omega arith
total-for_each w f (x ∷ xs) q =
    omega (arith, total-for_each w f xs (q ++ f x ∷ []), total-append w q (f x ∷ []))
