-- ===== src/Simulation/Filling.antt =====
-- Which configurations the queue holds.
use brb_partially_connected.Base.{
  ℕ, zero, suc, ◌+◌, ◌-◌, ◌*◌, ◌/◌, ◌%◌, ◌≤◌, ◌<◌, Among, Among-concat, for_each-adds, ◌≡◌, ◌↔◌,
  ◌⊎◌, inl, inr, ⊎_elim, refl, ap, List, [], ◌∷◌, ◌++◌, false, Bool-cases, if◌then◌else◌, for_each,
  arith,
}
use mathlib.Core.Path.{subst}
use native.Mathlib.Decide.{ℕ_discrete}
use brb_partially_connected.Simulation.Queue.{
  evens_from, range_by_two, Params, start, is_skipped, put_configs, fill_queue,
}

evens_from_iff :
    (rounds lo k : ℕ)
    → Among k (evens_from rounds lo) ↔ ((lo ≤ k) × (k < lo + 2 * rounds) × ((k - lo) % 2 ≡ 0))
evens_from_iff zero lo k = ground arith
evens_from_iff (suc rounds) lo k = ground (arith, evens_from_iff rounds (lo + 2) k)

half : (a : ℕ) → a ≡ 2 * (a / 2) + a % 2
half a = omega arith

mul-of_even : (a b : ℕ) → a % 2 ≡ 0 → a * b % 2 ≡ 0
mul-of_even a b even =
    let twice : a * b ≡ 2 * (a / 2 * b) = grind (arith, half a) in omega (arith, twice)

pub mul-of_odd : (a b : ℕ) → b % 2 ≡ 1 → a * b % 2 ≡ a % 2
mul-of_odd a b odd =
    let e : b ≡ 2 * (b / 2) + 1 = omega arith in
    let twice : a * b ≡ 2 * (a * (b / 2)) + a = grind (arith, ap (λ (t : ℕ). a * t) e) in
    omega (arith, twice)

-- The first connectivity is of the other parity than the number of nodes.
start_lem :
    (n f : ℕ) → (2 * f + 1 ≤ start n f) × (start n f ≤ 2 * f + 2) × ((n + start n f) % 2 ≡ 1)
unfolding start
start_lem n f =
    let same : n * (2 * f + 1) % 2 ≡ n % 2 = mul-of_odd n (2 * f + 1) (omega arith) in
    ground (arith, same)

-- The guard of the loop is never met.
not-is_skipped : (n f k : ℕ) → 2 * f + 1 ≤ k → (n + k) % 2 ≡ 1 → is_skipped n f k ≡ false
not-is_skipped n f k le parity =
    let even : k * n % 2 ≡ 0 = elim (ℕ_discrete (k % 2) 0) [
      | yes e ↦ mul-of_even k n e
      | no odd ↦
          let turned : k * n ≡ n * k = grind arith in rw turned (mul-of_even n k (omega arith))
    ] in
    ground (arith, even)

abbrev IsValid : (n f k : ℕ) → Type 0
IsValid n f k = (2 * f + 1 ≤ k) × (k < n) × ((n + k) % 2 ≡ 1)

range_iff : (n f k : ℕ) → Among k (range_by_two (start n f) n) ↔ IsValid n f k
range_iff n f k =
    ground (arith, start_lem n f, evens_from_iff ((n + 1 - start n f) / 2) (start n f) k)

pub put_config_adds :
    (n f : ℕ) (p : Params) (k : ℕ) (q : List Params)
    → Among p (if is_skipped n f k then q else q ++ (n, f, k) ∷ [])
      ↔ (Among p q ⊎ ((is_skipped n f k ≡ false) × ((n, f, k) ≡ p)))
put_config_adds n f p k q = elim (Bool-cases (is_skipped n f k)) [
  | inl e ↦ rw e (ground arith)
  | inr e ↦ rw e (ground (arith, Among-concat p q (n, f, k)))
]

put_configs_iff :
    (n f : ℕ) (p : Params) (q : List Params)
    → Among p (put_configs n f q) ↔ (Among p q ⊎ ((k : ℕ) × IsValid n f k × ((n, f, k) ≡ p)))
unfolding put_configs
put_configs_iff n f p q =
    let (there, back) =
      for_each-adds p (range_by_two (start n f) n)
        (λ k q. if is_skipped n f k then q else q ++ (n, f, k) ∷ [])
        (λ k. (is_skipped n f k ≡ false) × ((n, f, k) ≡ p)) q (put_config_adds n f p) in
    (
      λ h. ⊎_elim inl (λ (k, m, (_, e)). inr (k, (range_iff n f k).0 m, e)) (there h),
      ⊎_elim (λ old. back (inl old))
          (λ (k, valid, e).
            back (inr (k, (range_iff n f k).1 valid, (not-is_skipped n f k valid.0 valid.2, e)))),
    )

-- The queue holds exactly the configurations of the given numbers of nodes and of faulty nodes in which
-- the connectivity is at least 2 f + 1, below n, and of the other parity than n.
pub fill_queue_iff :
    (narray fs : List ℕ) (n f k : ℕ)
    → Among (n, f, k) (fill_queue narray fs)
      ↔ (Among n narray × Among f fs × (2 * f + 1 ≤ k) × (k < n) × ((n + k) % 2 ≡ 1))
unfolding fill_queue
fill_queue_iff narray fs n f k =
    let p : Params = (n, f, k) in
    let one_f = λ (n' f' : ℕ). (k' : ℕ) × IsValid n' f' k' × ((n', f', k') ≡ p) in
    let one_n = λ (n' : ℕ). (f' : ℕ) × Among f' fs × one_f n' f' in
    let (there, back) =
      for_each-adds p narray (λ n. for_each fs (λ f. put_configs n f)) one_n []
        (λ n' q.
          for_each-adds p fs (λ f. put_configs n' f) (one_f n') q
            (λ f' q. put_configs_iff n' f' p q)) in
    (
      λ h.
          ⊎_elim absurd
            (λ (n', m, (f', m', (k', valid, e))).
              let en : n' ≡ n = ap (λ (t : Params). t.0) e in
              let ef : f' ≡ f = ap (λ (t : Params). t.1) e in
              let ek : k' ≡ k = ap (λ (t : Params). t.2) e in
              (
                subst (λ a. Among a narray) en m,
                subst (λ a. Among a fs) ef m',
                ground (arith, valid),
                ground (arith, valid),
                ground (arith, valid),
              ))
            (there h),
      λ (m, m', le, lt, parity). back (inr (n, m, (f, m', (k, (le, lt, parity), refl)))),
    )
