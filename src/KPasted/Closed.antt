-- ===== src/KPasted/Closed.antt =====
-- code3/kpasted.py: wherever the expansion loop ends, the successors in the tree are nodes of it.
use brb_partially_connected.Base.{
  ℕ, zero, suc, ◌-◌, ◌*◌, ◌≤◌, ◌<◌, ◌≡◌, inl, inr, refl, Bool-cases, List, [], ◌∷◌, ◌++◌,
  occurrences, contains, add_new, occurrences-add_new, occurrences-erase, last, take, drop, ltb,
  AllOk, AllOk-bind, AllOk-both, arith,
}
use native.Mathlib.Decide.{ℕ_discrete}
use brb_partially_connected.Nx.Tree.{TreeApi, NodeType, shared, internal, root, degree}
use brb_partially_connected.KPasted.Defs.{
  State, refill, kept, set_node_type, add_shared, add_leaves, remove_nodes, initial, expand_last,
  expand_next, iterate, iterations, expand_tree,
}
use brb_partially_connected.KPasted.Typed.{
  AllTyped, remove_node-AllTyped, TypedState, initial-TypedState, iterate-TypedState,
}

module _ (nx : TreeApi) where
  open nx use {Tree, empty, nodes, successors, add_edge, set_type, remove_node}

  -- The successors of a node are distinct nodes.
  abbrev pub Closed : Tree → Type 0
  Closed t =
      (u v : ℕ)
      → (occurrences v (successors t u) ≤ 1)
        × (0 < occurrences v (successors t u) → 0 < occurrences v (nodes t))

  set_node_type-Closed :
      (a : ℕ) (ty : NodeType) (t : Tree) → Closed t → AllOk Closed (set_node_type nx a ty t)
  unfolding set_node_type
  set_node_type-Closed a ty t closed = elim (Bool-cases (contains (nodes t) a)) [
    | inl e ↦
        let here : 0 < occurrences a (nodes t) = ground (arith, e) in
        rw e
          (λ u v. rw (nx.nodes-set_type a ty t here, nx.successors-set_type a ty t u) (closed u v))
    | inr e ↦ rw e tt
  ]

  add_edge-Closed : (a b : ℕ) (t : Tree) → Closed t → Closed (add_edge a b t)
  add_edge-Closed a b t closed u v =
      rw (nx.nodes-add_edge a b t, nx.successors-add_edge a b t u)
        (ground (
          arith,
          closed u v,
          occurrences-add_new v b (add_new a (nodes t)),
          occurrences-add_new v a (nodes t),
          occurrences-add_new v b (successors t u),
        ))

  add_shared-Closed :
      (parent label : ℕ) (t : Tree) → Closed t → AllOk Closed (add_shared nx parent label t)
  unfolding add_shared
  add_shared-Closed parent label t closed =
      set_node_type-Closed label shared (add_edge parent label t)
        (add_edge-Closed parent label t closed)

  add_leaves-Closed :
      (rounds parent label : ℕ) (t : Tree)
      → Closed t
      → AllOk Closed (add_leaves nx rounds parent label t)
  unfolding add_leaves
  add_leaves-Closed zero parent label t closed = closed
  add_leaves-Closed (suc rounds) parent label t closed =
      AllOk-bind _ _ (add_shared nx parent label t) _ (add_shared-Closed parent label t closed)
        (λ t' closed'. add_leaves-Closed rounds parent (suc label) t' closed')

  remove_node-Closed : (c : ℕ) (t : Tree) → AllTyped nx t → Closed t → Closed (remove_node c t)
  remove_node-Closed c t typed closed u v = elim (ℕ_discrete c u) [
    | yes e ↦
        let gone : occurrences u (nodes (remove_node c t)) ≡ 0 =
          rw (nx.nodes-remove_node c t)
            (ground (arith, e, (typed u).0, occurrences-erase u c (nodes t))) in
        rw (nx.successors-absent (remove_node c t) u gone)
          (omega arith, λ some_of. absurd (omega (arith, some_of)))
    | no ne ↦
        rw (nx.nodes-remove_node c t, nx.successors-remove_node c t u ne)
          (ground (
            arith,
            closed u v,
            occurrences-erase v c (nodes t),
            occurrences-erase v c (successors t u),
          ))
  ]

  remove_nodes-Closed :
      (us : List ℕ) (t : Tree) → AllTyped nx t → Closed t → Closed (remove_nodes nx us t)
  unfolding remove_nodes
  remove_nodes-Closed [] t typed closed = closed
  remove_nodes-Closed (c ∷ us) t typed closed =
      remove_nodes-Closed us (remove_node c t) (remove_node-AllTyped nx c t typed)
        (remove_node-Closed c t typed closed)

  abbrev pub ClosedState : State nx → Type 0
  ClosedState s = Closed s.tree

  initial-ClosedState : (n k : ℕ) → AllOk ClosedState (initial nx n k)
  unfolding initial
  initial-ClosedState n k = elim (Bool-cases (ltb n (2 * k))) [
    | inl small ↦ rw small tt
    | inr large ↦
        let nothing : Closed empty = λ u v.
          let none_of : occurrences u (nodes empty) ≡ 0 = rw nx.nodes-empty refl in
          rw (nx.successors-absent empty u none_of)
            (omega arith, λ some_of. absurd (omega (arith, some_of))) in
        rw large (
          AllOk-bind _ _ (add_leaves nx k 0 1 empty) _ (add_leaves-Closed k 0 1 empty nothing)
            (λ t closed.
              AllOk-bind _ _ (set_node_type nx 0 root t) _ (set_node_type-Closed 0 root t closed)
                (λ t' closed'. closed')))
  ]

  expand_last-ClosedState :
      (k : ℕ) (queue : List ℕ) (s : State nx)
      → Closed s.tree
      → AllOk ClosedState (expand_last nx k queue s)
  unfolding expand_last
  expand_last-ClosedState k [] s closed = tt
  expand_last-ClosedState k (x ∷ xs) s closed =
      AllOk-bind _ _ (set_node_type nx (last x xs) internal s.tree) _
        (set_node_type-Closed (last x xs) internal s.tree closed)
        (λ t closed'.
          AllOk-bind _ _ (add_leaves nx (k - 1) (last x xs) s.free_node_label t) _
            (add_leaves-Closed (k - 1) (last x xs) s.free_node_label t closed')
            (λ t' closed2. closed2))

  expand_next-ClosedState :
      (k : ℕ) (s : State nx)
      → AllTyped nx s.tree
      → Closed s.tree
      → AllOk ClosedState (expand_next nx k s)
  unfolding expand_next
  expand_next-ClosedState k s typed closed =
      let leaves = successors s.tree s.expanding_node in
      let cut = kept k s.root_expansion in
      let queues = refill s.expanding_nodes (s.future_expanding_nodes ++ take cut leaves) in
      expand_last-ClosedState k queues.0
        (record s {
          tree = remove_nodes nx (drop cut leaves) s.tree;
          future_expanding_nodes = queues.1;
        })
        (remove_nodes-Closed (drop cut leaves) s.tree typed closed)

  iterate-ClosedState :
      (k : ℕ) (s : State nx)
      → AllTyped nx s.tree
      → Closed s.tree
      → AllOk ClosedState (iterate nx k s)
  unfolding iterate
  iterate-ClosedState k s typed closed =
      elim (Bool-cases (ltb (degree nx s.tree s.expanding_node) (3 * k - 3))) [
        | inl below ↦ rw below (
            AllOk-bind _ _ (add_shared nx s.expanding_node (suc s.free_node_label) s.tree) _
              (add_shared-Closed s.expanding_node (suc s.free_node_label) s.tree closed)
              (λ t' closed'. closed'))
        | inr full ↦ rw full (
            expand_next-ClosedState k (record s { free_node_label = suc s.free_node_label }) typed
              closed)
      ]

  -- The nodes of the tree are distinct and have types, and the successors are distinct nodes.
  abbrev pub Sound : State nx → Type 0
  Sound s = TypedState nx s × ClosedState s

  iterations-Sound :
      (k rounds : ℕ) (s : State nx) → Sound s → AllOk Sound (iterations nx k rounds s)
  unfolding iterations
  iterations-Sound k zero s sound = sound
  iterations-Sound k (suc rounds) s (typed, closed) =
      AllOk-bind Sound _ (iterate nx k s) _
        (AllOk-both (TypedState nx) ClosedState (iterate nx k s) (iterate-TypedState nx k s typed)
          (iterate-ClosedState k s typed.0 closed))
        (λ s' sound'. iterations-Sound k rounds s' sound')

  pub expand_tree-Sound : (n k : ℕ) → AllOk Sound (expand_tree nx n k)
  unfolding expand_tree
  expand_tree-Sound n k =
      AllOk-bind Sound _ (initial nx n k) _
        (AllOk-both (TypedState nx) ClosedState (initial nx n k) (initial-TypedState nx n k)
          (initial-ClosedState n k))
        (λ s sound. iterations-Sound k (n - 2 * k) s sound)
