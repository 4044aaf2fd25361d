-- ===== src/GetStats/Summary.antt =====
-- The summaries of code3/getStats.py: average, least and greatest number.
use mathlib.Core.Path.{subst}
use native.Mathlib.Nat.{div-add-mod, mod-lt}
use brb_partially_connected.Base.{
  ℕ, suc, ◌*◌, ◌/◌, ◌≤◌, ◌<◌, ◌≡◌, sym, refl, ◌⊎◌, inl, inr, List, [], ◌∷◌, length, ℤ, pos, negsuc,
  All, Among, Option, Result-cases, ok, arith,
}
use brb_partially_connected.GetStats.Defs.{
  CountLine, consumption_from, sum, min_of, max_of, get_network_consumption,
}

-- `avg` is the sum of the numbers divided by how many there are, rounded down; `lo` is the least of them, and
-- `hi` the greatest.
pub record Averages (xs : List ℕ) (avg lo hi : ℕ) : Type 0 where
  pub rounded : avg * length xs ≤ sum xs
  pub rounded_down : sum xs < suc avg * length xs
  pub within : All (λ y. (lo ≤ y) × (y ≤ hi)) xs
  pub least : Among lo xs
  pub greatest : Among hi xs

quotient_bounds : (s l : ℕ) → 0 < l → (s / l * l ≤ s) × (s < suc (s / l) * l)
quotient_bounds s l positive =
    let parts = div-add-mod s l in
    let small = mod-lt s positive in (grind (arith, parts), grind (arith, parts, small))

Among-one_of : (a x m : ℕ) (xs : List ℕ) → (a ≡ x) ⊎ (a ≡ m) → Among m xs → Among a (x ∷ xs)
Among-one_of a x m xs (inl e) among = inl (sym e)
Among-one_of a x m xs (inr e) among = inr (subst (λ b. Among b xs) (sym e) among)

min_of-Among : (x : ℕ) (xs : List ℕ) → Among (min_of x xs) (x ∷ xs)
min_of-Among x [] = inl refl
min_of-Among x (y ∷ xs) = Among-one_of _ x _ (y ∷ xs) (omega arith) (min_of-Among y xs)

max_of-Among : (x : ℕ) (xs : List ℕ) → Among (max_of x xs) (x ∷ xs)
max_of-Among x [] = inl refl
max_of-Among x (y ∷ xs) = Among-one_of _ x _ (y ∷ xs) (omega arith) (max_of-Among y xs)

All-weaken :
    (lo hi lo' hi' : ℕ) (xs : List ℕ)
    → lo' ≤ lo
    → hi ≤ hi'
    → All (λ y. (lo ≤ y) × (y ≤ hi)) xs
    → All (λ y. (lo' ≤ y) × (y ≤ hi')) xs
All-weaken lo hi lo' hi' [] l h all = tt
All-weaken lo hi lo' hi' (x ∷ xs) l h all =
    ((omega arith, omega arith), All-weaken lo hi lo' hi' xs l h all.1)

extremes : (x : ℕ) (xs : List ℕ) → All (λ y. (min_of x xs ≤ y) × (y ≤ max_of x xs)) (x ∷ xs)
extremes x [] = ((omega arith, omega arith), tt)
extremes x (y ∷ xs) = (
  (omega arith, omega arith),
  All-weaken (min_of y xs) (max_of y xs) _ _ (y ∷ xs) (omega arith) (omega arith) (extremes y xs),
)

pub sum-Averages :
    (x : ℕ) (xs : List ℕ)
    → Averages (x ∷ xs) (sum (x ∷ xs) / length (x ∷ xs)) (min_of x xs) (max_of x xs)
sum-Averages x xs =
    let (rounded, rounded_down) = quotient_bounds (sum (x ∷ xs)) (length (x ∷ xs)) (omega arith) in
    record {
      rounded = rounded;
      rounded_down = rounded_down;
      within = extremes x xs;
      least = min_of-Among x xs;
      greatest = max_of-Among x xs;
    }

-- If the network consumption is computed, the totals in the files can be read, and the result is -1 in all
-- places if there are none, or otherwise their average, rounded down, the least and the greatest of them,
-- and 0.
pub get_network_consumption_lem :
    (log : ℕ → Option (List CountLine)) (numServers : ℕ) (r : List ℤ)
    → get_network_consumption log numServers ≡ ok r
    → (net : List ℕ) × (consumption_from log numServers 0 [] ≡ ok net)
      × ((net ≡ []) × (r ≡ negsuc 0 ∷ negsuc 0 ∷ negsuc 0 ∷ negsuc 0 ∷ [])
          ⊎ (avg : ℕ) × (lo : ℕ) × (hi : ℕ) × (r ≡ pos avg ∷ pos lo ∷ pos hi ∷ pos 0 ∷ [])
            × Averages net avg lo hi)
unfolding get_network_consumption
get_network_consumption_lem log numServers r e =
    elim (Result-cases (consumption_from log numServers 0 [])) [
      | inl ([], read) ↦ ([], read, inl (refl, ground arith))
      | inl (x ∷ xs, read) ↦ (x ∷ xs, read, inr (_, _, _, ground arith, sum-Averages x xs))
      | inr (x, fails) ↦ absurd (ground arith)
    ]
