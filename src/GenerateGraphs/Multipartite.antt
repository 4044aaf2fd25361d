-- ===== src/GenerateGraphs/Multipartite.antt =====
-- The multipartite wheel of code3/generateGraphs.py: when it is built, and which nodes are adjacent.
use native.Mathlib.Nat.{div-add-mod, mod-lt}
use brb_partially_connected.Base.{
  ℕ, ◌+◌, ◌-◌, ◌*◌, ◌/◌, ◌%◌, ◌≤◌, ◌<◌, ◌≡◌, refl, sym, ◌↔◌, ◌⊎◌, inl, inr, ⊎_elim, true, arith, ok,
  some, Bool-cases, ◌==◌,
}
use brb_partially_connected.Nx.{GraphApi}
use brb_partially_connected.Nx.Adds.{InRange, Joins, Adds-seq, Adds_iff, AddsEdges, Adds-for_range}
use brb_partially_connected.GenerateGraphs.Defs.{
  add_nodes, join_groups, multipartite_groups, multipartite_rest, multipartite_wheel,
  generate_multipartite_wheel,
}
use brb_partially_connected.GenerateGraphs.Ring.{
  OnRing, ring_iff, AddsEdges-add_nodes, AddsEdges-for_range₂,
}

-- A block of `h` numbers that begins at a multiple of `h` is a class of the division by `h`.
block_iff : (h g x : ℕ) → 0 < h → ((g * h ≤ x) × (x < g * h + h)) ↔ (x / h ≡ g)
block_iff h g x pos = grind (arith, div-add-mod, mod-lt)

-- All edges between two blocks are the edges whose ends lie in these blocks.
blocks_iff :
    (h g g' u v : ℕ)
    → 0 < h
    → InRange (g * h) (g * h + h) (λ a. InRange (g' * h) (g' * h + h) (λ b. Joins a b u v))
      ↔ Joins g g' (u / h) (v / h)
blocks_iff h g g' u v pos = (
  λ (a, lo, hi, inner).
      ground (arith, block_iff h g u, block_iff h g' v, block_iff h g v, block_iff h g' u),
  ⊎_elim
      (λ (e, e').
        let (lo, hi) = (block_iff h g u pos).1 (sym e) in
        let (lo', hi') = (block_iff h g' v pos).1 (sym e') in
        (u, lo, hi, (v, lo', hi', inl (refl, refl))))
      (λ (e, e').
        let (lo, hi) = (block_iff h g v pos).1 (sym e) in
        let (lo', hi') = (block_iff h g' u pos).1 (sym e') in
        (v, lo, hi, (u, lo', hi', inr (refl, refl)))),
)

-- A node that fills no group, `m` being the first of these, and a node of the first two groups.
abbrev pub ByRest : ℕ → ℕ → ℕ → ℕ → ℕ → Type 0
ByRest N k m u v = (m ≤ u) × (u < N) × (v < k) ⊎ (m ≤ v) × (v < N) × (u < k)

rest_iff : (N k m u v : ℕ) → InRange m N (λ i. InRange 0 k (λ j. Joins i j u v)) ↔ ByRest N k m u v
rest_iff N k m u v = (
  λ (i, lo, hi, inner). ground arith,
  ⊎_elim (λ (lo, hi, lt). (u, lo, hi, (v, omega arith, lt, inl (refl, refl))))
      (λ (lo, hi, lt). (v, lo, hi, (u, omega arith, lt, inr (refl, refl)))),
)

module _ (nx : GraphApi) where
  open nx use {empty, has_edge}

  module _ (h : ℕ) (pos : 0 < h) where
    AddsEdges-join_groups :
        (g g' : ℕ)
        → AddsEdges nx (join_groups nx h (g * h) (g' * h)) (λ u v. Joins g g' (u / h) (v / h))
    unfolding join_groups
    AddsEdges-join_groups g g' u v =
        Adds_iff (λ G. has_edge G u v ≡ true) _ _ _ (blocks_iff h g g' u v pos)
          (AddsEdges-for_range₂ nx (g * h) (g * h + h) (λ _. g' * h) (λ _. g' * h + h) u v)

    AddsEdges-multipartite_groups :
        (groups : ℕ)
        → 2 ≤ groups
        → AddsEdges nx (multipartite_groups nx h groups) (λ u v. OnRing groups (u / h) (v / h))
    unfolding multipartite_groups
    AddsEdges-multipartite_groups groups two u v =
        Adds_iff (λ G. has_edge G u v ≡ true) _ _ _ (ring_iff groups (u / h) (v / h) two)
          (Adds-seq (λ G. has_edge G u v ≡ true) _ _ _ _
            (Adds-for_range (λ G. has_edge G u v ≡ true) _ _ 0 (groups - 1)
              (λ g _ _. AddsEdges-join_groups g (g + 1) u v))
            (AddsEdges-join_groups 0 (groups - 1) u v))

  AddsEdges-multipartite_rest :
      (N k : ℕ)
      → 0 < k / 2
      → AddsEdges nx (multipartite_rest nx N k (N / (k / 2))) (ByRest N k (N / (k / 2) * (k / 2)))
  unfolding multipartite_rest
  AddsEdges-multipartite_rest N k pos u v = elim (Bool-cases (N % (k / 2) == 0)) [
    | inl even ↦
        let full : N / (k / 2) * (k / 2) ≡ N = grind (arith, div-add-mod) in
        rw even (λ G. (inr, ⊎_elim (λ p. absurd (ground arith)) (λ p. p)))
    | inr odd ↦ rw odd (
        Adds_iff (λ G. has_edge G u v ≡ true) _ _ _ (rest_iff N k (N / (k / 2) * (k / 2)) u v)
          (AddsEdges-for_range₂ nx _ N (λ _. 0) (λ _. k) u v))
  ]

  -- For an even k > 0 with 2 k ≤ N the multipartite wheel is built, and two nodes are adjacent
  -- exactly if they lie in neighbouring groups of k / 2 nodes on the ring of the N / (k / 2) groups, or
  -- one of them is a node behind all groups and the other is among the first k nodes.
  pub generate_multipartite_wheel-edges :
      (N k : ℕ)
      → 0 < k
      → k % 2 ≡ 0
      → 2 * k ≤ N
      → (generate_multipartite_wheel nx N k ≡ ok (some (multipartite_wheel nx N k)))
        × ((u v : ℕ)
            → (has_edge (multipartite_wheel nx N k) u v ≡ true) ↔ (
                OnRing (N / (k / 2)) (u / (k / 2)) (v / (k / 2))
                ⊎ ByRest N k (N / (k / 2) * (k / 2)) u v))
  unfolding generate_multipartite_wheel multipartite_wheel
  generate_multipartite_wheel-edges N k pos even fits = (
    ground arith,
    λ u v.
        let start = add_nodes nx N empty in
        let two_groups : 2 ≤ N / (k / 2) = grind (arith, div-add-mod, mod-lt) in
        let ring =
          AddsEdges-multipartite_groups (k / 2) (omega arith) (N / (k / 2)) two_groups u v start in
        let rest =
          AddsEdges-multipartite_rest N k (omega arith) u v
            (multipartite_groups nx (k / 2) (N / (k / 2)) start) in
        ground (arith, ring, rest, AddsEdges-add_nodes nx N u v empty, nx.has_edge-empty u v),
  )
