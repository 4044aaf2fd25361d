-- ===== src/GenerateGraphs/Ring.antt =====
-- Lemmas that the proofs on both wheels of code3/generateGraphs.py share: loops that add an edge in
-- each round, and the neighbours on a ring.
use brb_partially_connected.Base.{
  ℕ, ◌+◌, ◌-◌, ◌≤◌, ◌<◌, ◌≡◌, refl, ◌↔◌, ◌⊎◌, inl, inr, ⊎_elim, true, for_range, arith,
  if◌then◌else◌, ◌==◌,
}
use brb_partially_connected.Nx.{GraphApi}
use brb_partially_connected.Nx.Adds.{
  InRange, Joins, Adds_iff, Adds-for_range, AddsEdges, AddsNodes, AddsEdges-add_node,
  AddsEdges-add_edge, AddsNodes-add_node,
}
use brb_partially_connected.GenerateGraphs.Defs.{add_nodes}

-- The node behind `u` on a ring of the nodes below `r`.
abbrev pub next_on_ring : ℕ → ℕ → ℕ
next_on_ring r u = if u + 1 == r then 0 else u + 1

-- Neighbours on the ring.
abbrev pub OnRing : ℕ → ℕ → ℕ → Type 0
OnRing r u v = (u < r) × (v < r) × ((next_on_ring r u ≡ v) ⊎ (next_on_ring r v ≡ u))

line_iff :
    (m u v : ℕ)
    → InRange 0 m (λ i. Joins i (i + 1) u v) ↔ ((u + 1 ≡ v) × (u < m) ⊎ (v + 1 ≡ u) × (v < m))
line_iff m u v = (
  λ (i, lo, hi, j). ground arith,
  ⊎_elim (λ (e, lt). (u, omega arith, lt, inl (refl, e)))
      (λ (e, lt). (v, omega arith, lt, inr (refl, e))),
)

-- A line of edges and the edge that closes it are a ring.
pub ring_iff :
    (r u v : ℕ)
    → 2 ≤ r
    → (InRange 0 (r - 1) (λ i. Joins i (i + 1) u v) ⊎ Joins 0 (r - 1) u v) ↔ OnRing r u v
ring_iff r u v h = ground (arith, line_iff (r - 1) u v)

module _ (nx : GraphApi) where
  open nx use {has_node, has_edge}

  pub AddsEdges-add_nodes : (N : ℕ) → AddsEdges nx (add_nodes nx N) (λ u v. ⊥)
  unfolding add_nodes
  AddsEdges-add_nodes N u v =
      Adds_iff (λ g. has_edge g u v ≡ true) _ _ _ ((λ (i, _, _, e). e), absurd)
        (Adds-for_range (λ g. has_edge g u v ≡ true) (λ i. ⊥) nx.add_node 0 N
          (λ i _ _. AddsEdges-add_node nx i u v))

  pub AddsNodes-add_nodes : (N : ℕ) → AddsNodes nx (add_nodes nx N) (λ u. u < N)
  unfolding add_nodes
  AddsNodes-add_nodes N u =
      Adds_iff (λ g. has_node g u ≡ true) _ _ _
        (λ (i, lo, hi, e). omega arith, λ lt. (u, omega arith, lt, refl))
        (Adds-for_range (λ g. has_node g u ≡ true) (λ i. i ≡ u) nx.add_node 0 N
          (λ i _ _. AddsNodes-add_node nx i u))

  pub AddsEdges-for_range :
      (a b : ℕ → ℕ) (lo hi : ℕ)
      → AddsEdges nx
          (for_range lo hi (λ i. nx.add_edge (a i) (b i)))
          (λ u v. InRange lo hi (λ i. Joins (a i) (b i) u v))
  AddsEdges-for_range a b lo hi u v =
      Adds-for_range (λ g. has_edge g u v ≡ true) _ _ lo hi
        (λ i _ _. AddsEdges-add_edge nx (a i) (b i) u v)

  -- Two nested loops that add an edge each.
  pub AddsEdges-for_range₂ :
      (lo hi : ℕ) (lo' hi' : ℕ → ℕ)
      → AddsEdges nx
          (for_range lo hi (λ i. for_range (lo' i) (hi' i) (λ j. nx.add_edge i j)))
          (λ u v. InRange lo hi (λ i. InRange (lo' i) (hi' i) (λ j. Joins i j u v)))
  AddsEdges-for_range₂ lo hi lo' hi' u v =
      Adds-for_range (λ g. has_edge g u v ≡ true) _ _ lo hi
        (λ i _ _. AddsEdges-for_range (λ _. i) (λ j. j) (lo' i) (hi' i) u v)
