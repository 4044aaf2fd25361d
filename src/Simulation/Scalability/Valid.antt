-- ===== src/Simulation/Scalability/Valid.antt =====
-- The parameters that randomgraph_scalability.py simulates.
use brb_partially_connected.Base.{
  ℕ, ◌+◌, ◌*◌, ◌%◌, ◌≤◌, ◌<◌, ◌≡◌, ⊎_elim, ap, ◌∙◌, List, [], ◌∷◌, ◌++◌, false, if◌then◌else◌,
  for_each, All, Among, for_each-adds, arith,
}
use mathlib.Core.Path.{subst}
use brb_partially_connected.Simulation.Queue.{Params, is_skipped}
use brb_partially_connected.Simulation.Filling.{mul-of_odd, put_config_adds}
use brb_partially_connected.Simulation.Scalability.{
  faulty_choices, connectivity_choices, fill_scalability,
}

All-Among : {A : Type 0} (P : A → Type 0) (xs : List A) (x : A) → All P xs → Among x xs → P x
All-Among P [] x all m = absurd m
All-Among P (y ∷ xs) x all m =
    ⊎_elim (λ e. subst P e all.0) (λ later. All-Among P xs x all.1 later) m

faulty_choices-bounds : (n f : ℕ) → 4 ≤ n → Among f (faulty_choices n) → (1 ≤ f) × (3 * f + 1 ≤ n)
unfolding faulty_choices
faulty_choices-bounds n f le m = ground (arith, le, m)

connectivity_choices-bounds :
    (n f k : ℕ) → 1 ≤ f → 3 * f + 1 ≤ n → Among k (connectivity_choices n f) → k < n
unfolding connectivity_choices
connectivity_choices-bounds n f k positive le m =
    let turned : (2 * f + 1) * n ≡ n * (2 * f + 1) = grind arith in
    let parity : (2 * f + 1) * n % 2 ≡ n % 2 =
      ap (λ (a : ℕ). a % 2) turned ∙ mul-of_odd n (2 * f + 1) (omega arith) in
    ground (arith, positive, le, m, parity)

not-is_skipped : (n f k : ℕ) → is_skipped n f k ≡ false → (2 * f + 1 ≤ k) × (k * n % 2 ≡ 0)
not-is_skipped n f k kept = ground (arith, kept)

-- For at least 4 nodes each, the parameters in the queue of randomgraph_scalability.py have one of the given
-- numbers of nodes n, at least one and less than n / 3 faulty nodes, and a connectivity k of at least
-- 2 f + 1 and below n for which k n is even.
pub fill_scalability-valid :
    (narray : List ℕ)
    → All (λ n. 4 ≤ n) narray
    → (n f k : ℕ) → Among (n, f, k) (fill_scalability narray)
    → Among n narray × (1 ≤ f) × (3 * f + 1 ≤ n) × (2 * f + 1 ≤ k) × (k < n) × (k * n % 2 ≡ 0)
unfolding fill_scalability
fill_scalability-valid narray large n f k m =
    let p : Params = (n, f, k) in
    let IsPut = λ (n' f' k' : ℕ). (is_skipped n' f' k' ≡ false) × ((n', f', k') ≡ p) in
    let one_f = λ (n' f' : ℕ). (k' : ℕ) × Among k' (connectivity_choices n' f') × IsPut n' f' k' in
    let one_n = λ (n' : ℕ). (f' : ℕ) × Among f' (faulty_choices n') × one_f n' f' in
    let put_k = λ (n' f' : ℕ) (q : List Params).
      for_each-adds p (connectivity_choices n' f')
        (λ k q. if is_skipped n' f' k then q else q ++ (n', f', k) ∷ []) (IsPut n' f') q
        (λ k' q. put_config_adds n' f' p k' q) in
    let (there, back) =
      for_each-adds p narray
        (λ n. for_each (faulty_choices n) (λ f.
          for_each (connectivity_choices n f)
            (λ k q. if is_skipped n f k then q else q ++ (n, f, k) ∷ [])))
        one_n []
        (λ n' q.
          for_each-adds p (faulty_choices n')
            (λ f.
              for_each (connectivity_choices n' f)
                (λ k q. if is_skipped n' f k then q else q ++ (n', f, k) ∷ []))
            (one_f n') q (λ f' q. put_k n' f' q)) in
    ⊎_elim absurd
      (λ (n', at_n, (f', at_f, (k', at_k, (kept, same)))).
        let en : n' ≡ n = ap (λ (p : Params). p.0) same in
        let ef : f' ≡ f = ap (λ (p : Params). p.1) same in
        let ek : k' ≡ k = ap (λ (p : Params). p.2) same in
        let few = faulty_choices-bounds n' f' (All-Among (λ n. 4 ≤ n) narray n' large at_n) at_f in
        let below = connectivity_choices-bounds n' f' k' few.0 few.1 at_k in
        let (least, even) = not-is_skipped n' f' k' kept in
        rw (← en, ← ef, ← ek) (at_n, few.0, few.1, least, below, even))
      (there m)
