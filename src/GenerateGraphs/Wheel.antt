-- ===== src/GenerateGraphs/Wheel.antt =====
-- The generalized wheel of code3/generateGraphs.py: which nodes it has, and which are adjacent.
use native.Mathlib.Decide.{dec_le, dec_lt}
use brb_partially_connected.Base.{
  ℕ, ◌+◌, ◌-◌, ◌≤◌, ◌<◌, ◌≡◌, refl, ◌≢◌, ◌↔◌, ◌⊎◌, inl, inr, ⊎_elim, true, arith,
}
use brb_partially_connected.Nx.{GraphApi}
use brb_partially_connected.Nx.Adds.{
  InRange, Joins, Adds-seq, Adds_iff, AddsEdges, AddsEdges-add_edge,
}
use brb_partially_connected.GenerateGraphs.Defs.{
  add_nodes, wheel_ring, wheel_clique, wheel_spokes, generate_generalized_wheel,
}
use brb_partially_connected.GenerateGraphs.Ring.{
  OnRing, ring_iff, AddsEdges-add_nodes, AddsEdges-for_range, AddsEdges-for_range₂,
}

-- Different nodes, of which at least one lies in the hub, which is all nodes from `r` on.
abbrev pub ByHub : ℕ → ℕ → ℕ → ℕ → Type 0
ByHub N r u v = (u < N) × (v < N) × (u ≢ v) × ((r ≤ u) ⊎ (r ≤ v))

-- What the clique and the spokes join.
hub_iff :
    (N r u v : ℕ)
    → r ≤ N
    → (InRange r N (λ i. InRange (i + 1) N (λ j. Joins i j u v))
        ⊎ InRange 0 r (λ i. InRange r N (λ j. Joins i j u v)))
      ↔ ByHub N r u v
hub_iff N r u v h = (
  ⊎_elim (λ (i, lo, hi, inner). ground arith) (λ (i, lo, hi, inner). ground arith),
  λ (u_lt, v_lt, ne, some_hub). elim (dec_le r u) [
    | no u_low ↦ inr (u, omega arith, omega arith, (v, ground arith, omega arith, inl (refl, refl)))
    | yes u_hub ↦ elim (dec_le r v) [
      | no v_low ↦
          inr (v, omega arith, omega arith, (u, omega arith, omega arith, inr (refl, refl)))
      | yes v_hub ↦ elim (dec_lt u v) [
        | yes lt ↦
            inl (u, omega arith, omega arith, (v, omega arith, omega arith, inl (refl, refl)))
        | no gt ↦ inl (v, omega arith, omega arith, (u, omega arith, omega arith, inr (refl, refl)))
      ]
    ]
  ],
)

module _ (nx : GraphApi) where
  open nx use {empty, has_node, has_edge}

  module _ (N k : ℕ) (two : 2 ≤ k) (le : k ≤ N) where
    abbrev r : ℕ
    r = N + 2 - k

    AddsEdges-wheel_ring : AddsEdges nx (wheel_ring nx N k) (OnRing r)
    unfolding wheel_ring
    AddsEdges-wheel_ring u v =
        Adds_iff (λ g. has_edge g u v ≡ true) _ _ _ (ring_iff r u v (omega arith))
          (Adds-seq (λ g. has_edge g u v ≡ true) _ _ _ _
            (AddsEdges-for_range nx (λ i. i) (λ i. i + 1) 0 (r - 1) u v)
            (AddsEdges-add_edge nx 0 (r - 1) u v))

    AddsEdges-wheel_hub :
        AddsEdges nx (λ g. wheel_spokes nx N k (wheel_clique nx N k g)) (ByHub N r)
    unfolding wheel_clique wheel_spokes
    AddsEdges-wheel_hub u v =
        Adds_iff (λ g. has_edge g u v ≡ true) _ _ _ (hub_iff N r u v (omega arith))
          (Adds-seq (λ g. has_edge g u v ≡ true) _ _ _ _
            (AddsEdges-for_range₂ nx r N (λ i. i + 1) (λ _. N) u v)
            (AddsEdges-for_range₂ nx 0 r (λ _. r) (λ _. N) u v))

    -- For 2 ≤ k ≤ N, two nodes of the generalized wheel are adjacent exactly if they are neighbours
    -- on the ring of the first N - k + 2 nodes, or differ and one of them is among the k - 2 others.
    pub generate_generalized_wheel-edges :
        (u v : ℕ) (bound : k ≤ N + 1)
        → (has_edge (generate_generalized_wheel nx N k bound) u v ≡ true)
          ↔ (OnRing r u v ⊎ ByHub N r u v)
    unfolding generate_generalized_wheel
    generate_generalized_wheel-edges u v bound =
        let ring = AddsEdges-wheel_ring u v (add_nodes nx N empty) in
        let hub = AddsEdges-wheel_hub u v (wheel_ring nx N k (add_nodes nx N empty)) in
        let none_yet = AddsEdges-add_nodes nx N u v empty in
        ground (arith, ring, hub, none_yet, nx.has_edge-empty u v)
