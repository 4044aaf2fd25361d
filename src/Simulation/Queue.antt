-- ===== src/Simulation/Queue.antt =====
-- The configurations that `runParams` puts into its queue.
use brb_partially_connected.Base.{
  ℕ, zero, suc, ◌+◌, ◌-◌, ◌*◌, ◌/◌, ◌%◌, List, [], ◌∷◌, ◌++◌, Bool, ◌||◌, ◌==◌, ltb, if◌then◌else◌,
  for_each,
}

-- `range(lo, hi, 2)`, as the number of its elements and the first one.
abbrev pub evens_from : (rounds k : ℕ) → List ℕ
evens_from zero k = []
evens_from (suc rounds) k = k ∷ evens_from rounds (k + 2)

abbrev pub range_by_two : (lo hi : ℕ) → List ℕ
range_by_two lo hi = evens_from ((hi + 1 - lo) / 2) lo

-- The number of nodes, of faulty nodes, and the connectivity.
abbrev pub Params : Type 0
Params = ℕ × ℕ × ℕ

-- The first connectivity for which a regular graph can exist.
unfoldable pub start : (n f : ℕ) → ℕ
start n f = if n * (2 * f + 1) % 2 == 1 then 2 * f + 1 + 1 else 2 * f + 1

-- `if k*n % 2 == 1 or k < 2*f+1: continue`
abbrev pub is_skipped : (n f k : ℕ) → Bool
is_skipped n f k = (k * n % 2 == 1) || ltb k (2 * f + 1)

unfoldable pub put_configs : (n f : ℕ) → List Params → List Params
unfolding start
put_configs n f =
    for_each (range_by_two (start n f) n)
      (λ k q. if is_skipped n f k then q else q ++ (n, f, k) ∷ [])

-- The loops of `runParams` before the workers start.
unfoldable pub fill_queue : (narray fs : List ℕ) → List Params
unfolding put_configs
fill_queue narray fs = for_each narray (λ n. for_each fs (λ f. put_configs n f)) []
