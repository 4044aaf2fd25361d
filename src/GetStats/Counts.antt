-- ===== src/GetStats/Counts.antt =====
-- `getNumDelivers` and `getNumEffectiveBroadcasts` of code3/getStats.py count the lines of a log.
use brb_partially_connected.Base.{
  ℕ, zero, suc, ◌+◌, ◌≡◌, refl, inl, inr, List, [], ◌∷◌, ◌++◌, none, some, length, length-append,
  Option-cases, arith,
}
use brb_partially_connected.GetStats.Defs.{Log, sum, effective_broadcasts, num_delivers}

sum-append : (xs ys : List ℕ) → sum (xs ++ ys) ≡ sum xs + sum ys
sum-append [] ys = omega arith
sum-append (x ∷ xs) ys = omega (arith, sum-append xs ys)

length-num_delivers :
    (log : Log) (rounds i : ℕ) (acc : List ℕ)
    → length (num_delivers log rounds i acc) ≡ length acc + rounds
unfolding num_delivers
length-num_delivers log zero i acc = omega arith
length-num_delivers log (suc rounds) i acc =
    let count : ℕ = elim (log i) [ none ↦ 0 | some lines ↦ length lines ] in
    omega (
      arith,
      length-num_delivers log rounds (suc i) (acc ++ count ∷ []),
      length-append acc (count ∷ []),
    )

sum-num_delivers :
    (log : Log) (rounds i count : ℕ) (acc : List ℕ)
    → sum acc ≡ count
    → sum (num_delivers log rounds i acc) ≡ effective_broadcasts log rounds i count
unfolding num_delivers effective_broadcasts
sum-num_delivers log zero i count acc e = e
sum-num_delivers log (suc rounds) i count acc e = elim (Option-cases (log i)) [
  | inl missing ↦
      rw (missing, num_delivers, effective_broadcasts)
        (sum-num_delivers log rounds (suc i) count _ (omega (arith, sum-append acc (0 ∷ []))))
  | inr (lines, here) ↦
      rw (here, num_delivers, effective_broadcasts)
        (sum-num_delivers log rounds (suc i) (count + length lines) _
          (omega (arith, sum-append acc (length lines ∷ []))))
]

-- `getNumDelivers` gives a number for each server, and these add up to what
-- `getNumEffectiveBroadcasts` would count in the same files.
pub num_delivers_lem :
    (log : Log) (numServers : ℕ)
    → (length (num_delivers log numServers 0 []) ≡ numServers)
      × (sum (num_delivers log numServers 0 []) ≡ effective_broadcasts log numServers 0 0)
num_delivers_lem log numServers = (
  omega (arith, length-num_delivers log numServers 0 []),
  sum-num_delivers log numServers 0 0 [] refl,
)
