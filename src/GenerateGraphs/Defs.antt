-- ===== src/GenerateGraphs/Defs.antt =====
-- code3/generateGraphs.py: the generators that the module defines itself. The two others call
-- kdiamond.py and kpasted.py.
use brb_partially_connected.Base.{
  ℕ, zero, suc, ◌+◌, ◌-◌, ◌*◌, ◌/◌, ◌%◌, ◌≤◌, Bool, true, false, not, ◌&&◌, ◌||◌, Option, none,
  some, ltb, leb, ◌==◌, if◌then◌else◌, for_range, Result, ok, ◌>>=◌, quotient,
}
use brb_partially_connected.Nx.{GraphApi}

-- The first loop of both generators below.
unfoldable pub add_nodes : (nx : GraphApi) → ℕ → nx.Graph → nx.Graph
add_nodes nx N = for_range 0 N nx.add_node

module _ (nx : GraphApi) where
  open nx use {Graph, empty, add_edge}

  -- `for i in range(N-k+2-1): G.add_edge(i, i+1)`, and the edge that closes the ring.
  unfoldable pub wheel_ring : ℕ → ℕ → Graph → Graph
  wheel_ring N k g =
      add_edge 0 (N + 2 - k - 1) (for_range 0 (N + 2 - k - 1) (λ i. add_edge i (i + 1)) g)

  -- The clique of the faulty nodes.
  unfoldable pub wheel_clique : ℕ → ℕ → Graph → Graph
  wheel_clique N k = for_range (N + 2 - k) N (λ i. for_range (i + 1) N (λ j. add_edge i j))

  -- Each correct node is joined to all faulty ones.
  unfoldable pub wheel_spokes : ℕ → ℕ → Graph → Graph
  wheel_spokes N k = for_range 0 (N + 2 - k) (λ i. for_range (N + 2 - k) N (λ j. add_edge i j))

  -- `N-k+2` is written `N + 2 - k`. The function is modelled where `N-k+2-1` is not negative.
  unfoldable pub generate_generalized_wheel : (N k : ℕ) → k ≤ N + 1 → Graph
  unfolding add_nodes wheel_ring wheel_clique wheel_spokes
  generate_generalized_wheel N k _ =
      wheel_spokes N k (wheel_clique N k (wheel_ring N k (add_nodes nx N empty)))

  -- All edges between the groups that begin at `a` and at `b`.
  unfoldable pub join_groups : (gsize a b : ℕ) → Graph → Graph
  join_groups gsize a b =
      for_range a (a + gsize) (λ nid1. for_range b (b + gsize) (λ nid2. add_edge nid1 nid2))

  -- The loop over the group ids, and the edges between the first and the last group.
  unfoldable pub multipartite_groups : (gsize groups : ℕ) → Graph → Graph
  multipartite_groups gsize groups g =
      join_groups gsize (0 * gsize) ((groups - 1) * gsize)
        (for_range 0 (groups - 1) (λ gId. join_groups gsize (gId * gsize) ((gId + 1) * gsize)) g)

  -- The nodes that fill no group of their own.
  unfoldable pub multipartite_rest : (N k groups : ℕ) → Graph → Graph
  multipartite_rest N k groups g =
      if not (N % (k / 2) == 0)
      then for_range (groups * (k / 2)) N (λ i. for_range 0 k (λ j. add_edge i j)) g
      else g

  -- From `G = nx.Graph()` on. `k/2` is a float in the source, and a whole number, since `k` is even
  -- where it is used.
  unfoldable pub multipartite_wheel : ℕ → ℕ → Graph
  unfolding add_nodes join_groups multipartite_groups multipartite_rest
  multipartite_wheel N k =
      multipartite_rest N k (N / (k / 2))
        (multipartite_groups (k / 2) (N / (k / 2)) (add_nodes nx N empty))

  -- `k > N/2 or k%2 == 1`, and then the graph, for the number of groups `int(N/(k/2))`.
  unfoldable pub generate_multipartite_wheel : ℕ → ℕ → Result (Option Graph)
  unfolding multipartite_wheel
  generate_multipartite_wheel N k =
      if ltb N (2 * k) || (k % 2 == 1)
      then ok none
      else quotient N (k / 2) >>= (λ groups. ok (
          some (
            multipartite_rest N k groups
              (multipartite_groups (k / 2) groups (add_nodes nx N empty)))))

-- What `generate_KRegularKConnectedRandomGraph` asks of networkx: the graphs that successive calls of
-- `random_regular_graph(k, N)` give, and the two measures by which a graph is accepted.
pub record RandomGraphs : Type 1 where
  pub Graph : Type 0
  pub draw : (k N call : ℕ) → Graph
  pub count_components : Graph → ℕ
  pub node_connectivity : Graph → ℕ

module _ (random : RandomGraphs) where
  open random use {draw, count_components, node_connectivity}

  unfoldable pub accepted : ℕ → random.Graph → Bool
  accepted f G = (count_components G == 1) && leb (2 * f + 1) (node_connectivity G)

  -- The `while` loop, from the given call on: nothing if no graph is accepted within the fuel.
  unfoldable pub draw_until : (fuel N k f call : ℕ) → Option random.Graph
  draw_until zero N k f call = none
  draw_until (suc fuel) N k f call = elim (accepted f (draw k N call)) [
    | true ↦ some (draw k N call)
    | false ↦ draw_until fuel N k f (suc call)
  ]

  unfoldable pub generate_k_regular : (fuel N k f : ℕ) → Option random.Graph
  unfolding accepted draw_until
  generate_k_regular fuel N k f = draw_until fuel N k f 0
