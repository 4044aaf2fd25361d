-- ===== src/Base/Loops.antt =====
-- `for i in range(lo, hi)` and `for x in xs`, as folds over the loop's state.
use Prim.Native.Nat.{ℕ, zero, suc, ◌+◌, ◌-◌, ◌≤◌, ◌<◌}
use mathlib.Core.Path.{◌≡◌, refl, ap, ◌∙◌}
use mathlib.Core.List.{List, [], ◌∷◌}
use native.Mathlib.Omega.{arith}

module _ {ℓ} {S : Type ℓ} where
  -- `count` rounds from `i` on.
  abbrev pub for_count : ℕ → ℕ → (ℕ → S → S) → S → S
  for_count zero i body s = s
  for_count (suc count) i body s = for_count count (suc i) body (body i s)

  -- Empty when `hi` is not above `lo`, as Python's `range`.
  unfoldable pub for_range : ℕ → ℕ → (ℕ → S → S) → S → S
  for_range lo hi body s = for_count (hi - lo) lo body s

  abbrev pub for_each {κ} : {A : Type κ} → List A → (A → S → S) → S → S
  for_each [] body s = s
  for_each (x ∷ xs) body s = for_each xs body (body x s)

  -- A state predicate that every round keeps holds at the end.
  for_count_inv {μ} :
      (P : ℕ → S → Type μ) (body : ℕ → S → S) (count i j : ℕ) (s : S)
      → i + count ≡ j
      → ((k : ℕ) (t : S) → i ≤ k → k < j → P k t → P (suc k) (body k t))
      → P i s
      → P j (for_count count i body s)
  for_count_inv P body zero i j s e keep h = let e' : i ≡ j = omega arith in rw (← e') h
  for_count_inv P body (suc count) i j s e keep h =
      for_count_inv P body count (suc i) j (body i s) (omega arith)
        (λ k t lo hi. keep k t (omega arith) hi) (keep i s (omega arith) (omega arith) h)

  pub for_range_inv {μ} :
      (P : ℕ → S → Type μ) (body : ℕ → S → S) (lo hi : ℕ) (s : S)
      → lo ≤ hi
      → ((k : ℕ) (t : S) → lo ≤ k → k < hi → P k t → P (suc k) (body k t))
      → P lo s
      → P hi (for_range lo hi body s)
  unfolding for_range
  for_range_inv P body lo hi s le keep h =
      for_count_inv P body (hi - lo) lo hi s (omega arith) keep h

-- A function that takes each round of one loop to a round of another takes the loops to each other.
module _ {ℓ κ} {S : Type ℓ} {T : Type κ} (f : S → T) where
  for_count-map :
      (body : ℕ → S → S) (body' : ℕ → T → T)
      → ((i : ℕ) (s : S) → f (body i s) ≡ body' i (f s))
      → (count i : ℕ) (s : S) → f (for_count count i body s) ≡ for_count count i body' (f s)
  for_count-map body body' same zero i s = refl
  for_count-map body body' same (suc count) i s =
      for_count-map body body' same count (suc i) (body i s)
      ∙ ap (for_count count (suc i) body') (same i s)

  pub for_range-map :
      (body : ℕ → S → S) (body' : ℕ → T → T)
      → ((i : ℕ) (s : S) → f (body i s) ≡ body' i (f s))
      → (lo hi : ℕ) (s : S) → f (for_range lo hi body s) ≡ for_range lo hi body' (f s)
  unfolding for_range
  for_range-map body body' same lo hi s = for_count-map body body' same (hi - lo) lo s
