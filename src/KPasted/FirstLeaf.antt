-- ===== src/KPasted/FirstLeaf.antt =====
-- code3/kpasted.py and code3/kdiamond.py: the tree of the root and its first leaf.
use brb_partially_connected.Base.{
  ℕ, ◌<◌, ◌≡◌, refl, [], ◌∷◌, occurrences, none, some, ◌==◌, arith, ok, if◌then◌else◌,
}
use brb_partially_connected.Nx.Tree.{TreeApi, shared}
use brb_partially_connected.KPasted.Defs.{set_node_type, add_shared}
use brb_partially_connected.KPasted.Leaves.{grown}

module _ (nx : TreeApi) where
  open nx use {Tree, empty, nodes, type_of, successors, in_degree, add_edge, set_type}

  pub nodes-first : nodes (add_edge 0 1 empty) ≡ 0 ∷ 1 ∷ []
  nodes-first = rw (nx.nodes-add_edge 0 1 empty, nx.nodes-empty) refl

  pub nodes-grown_first : nodes (grown nx 0 1 empty) ≡ 0 ∷ 1 ∷ []
  nodes-grown_first =
      let there : 0 < occurrences 1 (nodes (add_edge 0 1 empty)) = rw nodes-first (omega arith) in
      rw (nx.nodes-set_type 1 shared (add_edge 0 1 empty) there) nodes-first

  pub no_node : (u : ℕ) → occurrences u (nodes empty) ≡ 0
  no_node u = rw nx.nodes-empty refl

  pub grown_first-type_of :
      (u : ℕ) → type_of (grown nx 0 1 empty) u ≡ (if 1 == u then some shared else none)
  grown_first-type_of u =
      let there : 0 < occurrences 1 (nodes (add_edge 0 1 empty)) = rw nodes-first (omega arith) in
      rw
        (
          nx.type_of-set_type 1 shared (add_edge 0 1 empty) u there,
          nx.type_of-add_edge 0 1 empty u,
          nx.type_of-absent empty u (no_node u),
        )
        refl

  pub grown_first-successors :
      (u : ℕ) → successors (grown nx 0 1 empty) u ≡ (if 0 == u then 1 ∷ [] else [])
  grown_first-successors u =
      rw
        (
          nx.successors-set_type 1 shared (add_edge 0 1 empty) u,
          nx.successors-add_edge 0 1 empty u,
          nx.successors-absent empty u (no_node u),
        )
        refl

  pub grown_first-in_degree : (u : ℕ) → in_degree (grown nx 0 1 empty) u ≡ (if 1 == u then 1 else 0)
  grown_first-in_degree u =
      rw
        (
          nx.in_degree-set_type 1 shared (add_edge 0 1 empty) u,
          nx.in_degree-add_edge 0 1 empty u,
          nx.successors-absent empty 0 (no_node 0),
          nx.in_degree-absent empty u (no_node u),
        )
        (ground arith)

  pub first_leaf : add_shared nx 0 1 empty ≡ ok (grown nx 0 1 empty)
  unfolding add_shared set_node_type
  first_leaf = rw nodes-first refl
