-- ===== src/GenerateGraphs/Examples.antt =====
-- The theorems on the generators at concrete graphs.
use brb_partially_connected.Base.{
  ℕ, ◌+◌, ◌/◌, ◌≤◌, ◌<◌, ◌≡◌, refl, ◌↔◌, ◌⊎◌, true, some, ok, arith, ltb, if◌then◌else◌, for_range,
}
use brb_partially_connected.Nx.Store.{stored}
use brb_partially_connected.GenerateGraphs.Defs.{
  RandomGraphs, generate_generalized_wheel, multipartite_wheel, generate_multipartite_wheel,
  generate_k_regular,
}
use brb_partially_connected.GenerateGraphs.Ring.{OnRing}
use brb_partially_connected.GenerateGraphs.Wheel.{ByHub, generate_generalized_wheel-edges}
use brb_partially_connected.GenerateGraphs.Multipartite.{ByRest, generate_multipartite_wheel-edges}
use brb_partially_connected.GenerateGraphs.Regular.{IsGood, generate_k_regular_returns}

abbrev four_le : 4 ≤ 8 + 1
four_le = omega arith

wheel_runs : stored.has_edge (generate_generalized_wheel stored 8 4 four_le) 0 5 ≡ true
unfolding generate_generalized_wheel for_range
wheel_runs = refl

generate_generalized_wheel-edges_example :
    (stored.has_edge (generate_generalized_wheel stored 8 4 four_le) 0 5 ≡ true)
    ↔ (OnRing 6 0 5 ⊎ ByHub 8 6 0 5)
generate_generalized_wheel-edges_example =
    generate_generalized_wheel-edges stored 8 4 (omega arith) (omega arith) 0 5 four_le

-- Four groups of two nodes, and node 8 behind them.
multipartite_runs : stored.has_edge (multipartite_wheel stored 9 4) 8 3 ≡ true
unfolding multipartite_wheel for_range
multipartite_runs = refl

generate_multipartite_wheel-edges_example :
    (generate_multipartite_wheel stored 9 4 ≡ ok (some (multipartite_wheel stored 9 4)))
    × ((u v : ℕ)
        → (stored.has_edge (multipartite_wheel stored 9 4) u v ≡ true)
          ↔ (OnRing 4 (u / 2) (v / 2) ⊎ ByRest 9 4 8 u v))
generate_multipartite_wheel-edges_example =
    generate_multipartite_wheel-edges stored 9 4 (omega arith) (omega arith) (omega arith)

-- Graphs that are given by their connectivity alone, which rises from call to call.
abbrev rising : RandomGraphs
rising = record {
  Graph = ℕ;
  draw = λ k N call. call;
  count_components = λ G. if ltb G 1 then 2 else 1;
  node_connectivity = λ G. G;
}

generate_k_regular_runs : generate_k_regular rising 5 10 3 1 ≡ some 3
unfolding generate_k_regular
generate_k_regular_runs = refl

generate_k_regular_returns_example :
    (i : ℕ) × (generate_k_regular rising 5 10 3 1 ≡ some i)
    × (i ≤ 4)
    × IsGood rising 1 i
    × ((j : ℕ) → j < i → ¬ IsGood rising 1 j)
generate_k_regular_returns_example =
    generate_k_regular_returns rising 10 3 1 5 4 (omega arith) (omega arith)
