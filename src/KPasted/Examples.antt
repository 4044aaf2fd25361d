-- ===== src/KPasted/Examples.antt =====
-- code3/kpasted.py on small sizes, over the stored trees of `Nx.TreeStore`.
use brb_partially_connected.Base.{
  ℕ, ◌≡◌, refl, List, [], ◌∷◌, ◌>>=◌, Result, ok, raise, index_error, user_error, key_error, arith,
}
use brb_partially_connected.Nx.TreeStore.{stored_trees}
use brb_partially_connected.Nx.LabelledStore.{StoredGraph, stored_labels}
use brb_partially_connected.KPasted.Paste.{
  add_copies, paste_typed, paste_nodes, join_copies, join_edges, join_typed, join_nodes, paste,
  generate_k_pasted,
}
use brb_partially_connected.KPasted.Order.{HasOrder, generate_k_pasted-HasOrder}
use brb_partially_connected.KPasted.Defs.{
  State, initial, iterations, expand_tree, set_node_type, add_leaves, add_shared, iterate,
  expand_next, expand_last, remove_nodes,
}
use brb_partially_connected.KPasted.Expansion.{Reaches}
use brb_partially_connected.KPasted.Size.{expand_tree-Reaches}

abbrev nodes_of : Result (State stored_trees) → Result (List ℕ)
nodes_of result = result >>= (λ s. ok s.tree.stored_nodes)

-- The root with the leaves 1 and 2, of which 2 is expanded and has the leaves 6 and 8.
expand_tree_7_2 : nodes_of (expand_tree stored_trees 7 2) ≡ ok (0 ∷ 1 ∷ 2 ∷ 6 ∷ 8 ∷ [])
unfolding initial iterations expand_tree set_node_type add_leaves add_shared iterate expand_next
    expand_last remove_nodes
expand_tree_7_2 = refl

expand_tree_too_small : nodes_of (expand_tree stored_trees 5 3) ≡ raise user_error
unfolding initial expand_tree
expand_tree_too_small = refl

expand_tree_0 : nodes_of (expand_tree stored_trees 5 0) ≡ raise key_error
unfolding initial iterations expand_tree set_node_type add_leaves
expand_tree_0 = refl

-- For k = 1 no leaf is left to expand.
expand_tree_1 : nodes_of (expand_tree stored_trees 4 1) ≡ raise index_error
unfolding initial iterations expand_tree set_node_type add_leaves add_shared iterate expand_next
    expand_last remove_nodes
expand_tree_1 = refl

expand_tree-Reaches_example : Reaches stored_trees 3 12 (expand_tree stored_trees 12 3)
expand_tree-Reaches_example = expand_tree-Reaches stored_trees 12 3 (omega arith) (omega arith)

abbrev size_and_edges : Result StoredGraph → Result (List ℕ × List (ℕ × ℕ))
size_and_edges result = result >>= (λ g. ok (g.node_list, g.edge_list))

-- The copies 0 and 1 of the root share the leaves 2 and 3.
pasted_4_2 :
    size_and_edges (generate_k_pasted stored_trees stored_labels 4 2)
    ≡ ok (0 ∷ 1 ∷ 2 ∷ 3 ∷ [], (1, 3) ∷ (0, 3) ∷ (1, 2) ∷ (0, 2) ∷ [])
unfolding generate_k_pasted paste paste_nodes paste_typed join_nodes join_typed join_edges
    join_copies add_copies initial iterations expand_tree set_node_type add_leaves add_shared
    iterate expand_next expand_last remove_nodes
pasted_4_2 = refl

generate_k_pasted-HasOrder_example :
    HasOrder stored_trees stored_labels 12 (generate_k_pasted stored_trees stored_labels 12 3)
generate_k_pasted-HasOrder_example =
    generate_k_pasted-HasOrder stored_trees stored_labels 12 3 (omega arith) (omega arith)
