-- ===== src/KPasted/Pruned.antt =====
-- code3/kpasted.py: the leaves and the weight of the tree after some leaves are removed, and after a
-- leaf becomes an internal node.
use brb_partially_connected.Base.{
  ℕ, suc, ◌+◌, ◌≤◌, ◌<◌, ◌≡◌, ◌≢◌, refl, ap, List, [], ◌∷◌, ◌==◌, if◌then◌else◌, length,
  occurrences, erase, weigh-agree, weigh-erase, weigh-change, occurrences-erase, arith,
}
use brb_partially_connected.Nx.Tree.{TreeApi, internal}
use brb_partially_connected.KPasted.Defs.{remove_nodes}
use brb_partially_connected.KPasted.Leaves.{weight, weight_of, one_at, IsLeaf, IsInner, Leaves}

-- The count without that of `c`.
abbrev without : ℕ → (ℕ → ℕ) → ℕ → ℕ
without c F u = if c == u then 0 else F u

module _ (nx : TreeApi) where
  open nx use {Tree, nodes, type_of, successors, in_degree, set_type, remove_node}

  pub Leaves-fewer :
      (t : Tree) (F F' : ℕ → ℕ) → ((u : ℕ) → F' u ≤ F u) → Leaves nx t F → Leaves nx t F'
  Leaves-fewer t F F' fewer leaves u =
      (omega (arith, fewer u, (leaves u).0), λ some_of. (leaves u).1 (omega (arith, fewer u)))

  module _ (t : Tree) (c : ℕ) (leaf : IsLeaf nx t c) where
    IsLeaf-remove_node : (u : ℕ) → c ≢ u → IsLeaf nx t u → IsLeaf nx (remove_node c t) u
    IsLeaf-remove_node u apart (here, ty, succs, deg) = (
      rw (nx.nodes-remove_node c t, occurrences-erase u c (nodes t)) (ground arith),
      rw (nx.type_of-remove_node c t u apart) ty,
      rw (nx.successors-remove_node c t u apart, succs) refl,
      rw (nx.in_degree-remove_node c t u apart, leaf.2) deg,
    )

    Leaves-remove_node : (F : ℕ → ℕ) → Leaves nx t F → Leaves nx (remove_node c t) (without c F)
    Leaves-remove_node F leaves u = (
      ground (arith, (leaves u).0),
      λ some_of.
          let other : c ≢ u = λ e. absurd (ground (arith, e, some_of)) in
          IsLeaf-remove_node u other ((leaves u).1 (ground (arith, some_of, other))),
    )

    weight-remove_node : (k : ℕ) → weight nx k t ≡ suc (weight nx k (remove_node c t))
    weight-remove_node k =
        let w : ℕ → ℕ = λ u. weight_of k (type_of t u) in
        let same =
          weigh-agree (λ u. weight_of k (type_of (remove_node c t) u)) w (erase c (nodes t))
            (λ u m. ap (weight_of k) (
              nx.type_of-remove_node c t u
                (λ e. absurd (ground (arith, e, m, leaf, occurrences-erase u c (nodes t)))))) in
        let parts = weigh-erase w c (nodes t) (omega (arith, leaf.0)) in
        let one : w c ≡ 1 = rw leaf.1 refl in rw (nx.nodes-remove_node c t, same) (omega arith)

    pub IsInner-set_type : IsInner nx (set_type c internal t) c 1
    IsInner-set_type =
        let here : 0 < occurrences c (nodes t) = omega (arith, leaf.0) in
        (
          rw (nx.nodes-set_type c internal t here) leaf.0,
          rw (nx.type_of-set_type c internal t c here) (ground arith),
          rw (nx.in_degree-set_type c internal t c) leaf.3,
        )

    pub Leaves-set_type :
        (F F' : ℕ → ℕ)
        → ((u : ℕ) → F' u + one_at c u ≤ F u)
        → Leaves nx t F
        → Leaves nx (set_type c internal t) F'
    Leaves-set_type F F' fewer leaves u =
        let here : 0 < occurrences c (nodes t) = omega (arith, leaf.0) in
        (
          ground (arith, fewer u, (leaves u).0),
          λ some_of.
              let (at, ty, succs, deg) = (leaves u).1 (ground (arith, fewer u)) in
              let other : c ≢ u = λ e. absurd (ground (arith, e, fewer u, (leaves u).0)) in
              (
                rw (nx.nodes-set_type c internal t here) at,
                rw (nx.type_of-set_type c internal t u here) (ground (arith, other)),
                rw (nx.successors-set_type c internal t u) succs,
                rw (nx.in_degree-set_type c internal t u) deg,
              ),
        )

    pub weight-set_type : (k : ℕ) → weight nx k (set_type c internal t) + 1 ≡ weight nx k t + k
    weight-set_type k =
        let here : 0 < occurrences c (nodes t) = omega (arith, leaf.0) in
        let w : ℕ → ℕ = λ u. weight_of k (type_of t u) in
        let w' : ℕ → ℕ = λ u. weight_of k (type_of (set_type c internal t) u) in
        let changed =
          weigh-change w w' c (nodes t) leaf.0
            (λ u other. rw (nx.type_of-set_type c internal t u here) (ground (arith, other))) in
        let one : w c ≡ 1 = rw leaf.1 refl in
        let many : w' c ≡ k = rw (nx.type_of-set_type c internal t c here) (ground arith) in
        rw (nx.nodes-set_type c internal t here) (omega arith)

  pub Leaves-remove_nodes :
      (us : List ℕ) (t : Tree) (F F' : ℕ → ℕ)
      → ((u : ℕ) → F' u + occurrences u us ≤ F u)
      → Leaves nx t F
      → Leaves nx (remove_nodes nx us t) F'
  unfolding remove_nodes
  Leaves-remove_nodes [] t F F' fewer leaves =
      Leaves-fewer t F F' (λ u. omega (arith, fewer u)) leaves
  Leaves-remove_nodes (c ∷ us) t F F' fewer leaves =
      Leaves-remove_nodes us (remove_node c t) (without c F) F'
        (λ u. ground (arith, fewer u, (leaves u).0))
        (Leaves-remove_node t c ((leaves c).1 (ground (arith, fewer c))) F leaves)

  pub weight-remove_nodes :
      (k : ℕ) (us : List ℕ) (t : Tree) (F : ℕ → ℕ)
      → ((u : ℕ) → occurrences u us ≤ F u)
      → Leaves nx t F
      → weight nx k t ≡ length us + weight nx k (remove_nodes nx us t)
  unfolding remove_nodes
  weight-remove_nodes k [] t F fewer leaves = omega arith
  weight-remove_nodes k (c ∷ us) t F fewer leaves =
      let leaf = (leaves c).1 (ground (arith, fewer c)) in
      let rest =
        weight-remove_nodes k us (remove_node c t) (without c F)
          (λ u. ground (arith, fewer u, (leaves u).0)) (Leaves-remove_node t c leaf F leaves) in
      omega (arith, weight-remove_node t c leaf k)

  -- No removal puts a label among the nodes.
  pub remove_nodes-absent :
      (us : List ℕ) (t : Tree) (u : ℕ)
      → occurrences u (nodes t) ≡ 0
      → occurrences u (nodes (remove_nodes nx us t)) ≡ 0
  unfolding remove_nodes
  remove_nodes-absent [] t u absent = absent
  remove_nodes-absent (c ∷ us) t u absent =
      remove_nodes-absent us (remove_node c t) u
        (rw (nx.nodes-remove_node c t, occurrences-erase u c (nodes t)) (ground arith))
