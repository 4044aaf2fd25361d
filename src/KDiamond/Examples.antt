-- ===== src/KDiamond/Examples.antt =====
-- code3/kdiamond.py on small sizes, over the stored trees of `Nx.TreeStore`.
use brb_partially_connected.Base.{
  ℕ, ◌+◌, ◌-◌, ◌≤◌, ◌≡◌, refl, [], ◌∷◌, ◌>>=◌, Result, ok, raise, length, map, user_error,
  key_error, arith,
}
use brb_partially_connected.Nx.Tree.{degree}
use brb_partially_connected.Nx.TreeStore.{stored_trees}
use brb_partially_connected.Nx.LabelledStore.{StoredGraph, stored_labels}
use brb_partially_connected.KPasted.Leaves.{weight}
use brb_partially_connected.KPasted.Defs.{set_node_type, add_leaves, add_shared, remove_nodes}
use brb_partially_connected.KPasted.Paste.{
  add_copies, paste_typed, paste_nodes, join_copies, join_edges,
}
use brb_partially_connected.KPasted.Order.{HasOrder}
use brb_partially_connected.KDiamond.Defs.{
  State, phase0, phase5, grow, diamond_tree, base_tree, add_unshared, pick_shared, shared_nodes,
  put_below, first_below, remove_leaf, pop_shared, expand_future, phase1_go_to_next_level,
  phase5_new_shared, phase4_new_shared, replace_shared, phase3_new_unshared,
  phase2_new_shared_and_internals, phase0_expand_root, run_phase,
}
use brb_partially_connected.KDiamond.Paste.{
  join_later, join_each_other, join_kind, join_all, make_graph, generate_k_diamond,
}
use brb_partially_connected.KDiamond.Growth.{Grows, diamond_tree-Grows}
use brb_partially_connected.KDiamond.Order.{generate_k_diamond-HasOrder}
use brb_partially_connected.KDiamond.Stalled.{grow-stalled}

-- The number of nodes that the tree stands for.
abbrev size : (n k : ℕ) → Result ℕ
unfolding diamond_tree base_tree grow run_phase add_unshared pick_shared shared_nodes put_below
    first_below remove_leaf pop_shared expand_future phase1_go_to_next_level phase5_new_shared
    phase4_new_shared replace_shared phase3_new_unshared phase2_new_shared_and_internals
    phase0_expand_root set_node_type add_leaves add_shared remove_nodes
size n k = diamond_tree stored_trees 2 n k >>= (λ s. ok (weight stored_trees k s.tree))

-- Two levels of the tree, and each of the phases.
sizes_3 :
    map (λ n. size n 3) (6 ∷ 10 ∷ 20 ∷ 30 ∷ 40 ∷ []) ≡ ok 6 ∷ ok 10 ∷ ok 20 ∷ ok 30 ∷ ok 40 ∷ []
unfolding size
sizes_3 = refl

-- For k = 2 the tree stands for ten nodes at most.
sizes_2 : map (λ n. size n 2) (4 ∷ 9 ∷ 10 ∷ 11 ∷ 20 ∷ []) ≡ ok 4 ∷ ok 9 ∷ ok 10 ∷ ok 10 ∷ ok 10 ∷ []
unfolding size
sizes_2 = refl

sizes_small : map (λ n. size n 3) (5 ∷ []) ≡ raise user_error ∷ []
unfolding size
sizes_small = refl

sizes_0 : size 5 0 ≡ raise key_error
unfolding size
sizes_0 = refl

diamond_tree-Grows_example : Grows stored_trees 3 30 (diamond_tree stored_trees 2 30 3)
diamond_tree-Grows_example = diamond_tree-Grows stored_trees 0 30 3 (omega arith) (omega arith)

generate_k_diamond-HasOrder_example :
    HasOrder stored_trees stored_labels 30 (generate_k_diamond stored_trees stored_labels 2 30 3)
generate_k_diamond-HasOrder_example =
    generate_k_diamond-HasOrder stored_trees stored_labels 0 30 3 (omega arith) (omega arith)

abbrev size_and_edges : Result StoredGraph → Result (ℕ × ℕ)
size_and_edges result = result >>= (λ g. ok (length g.node_list, length g.edge_list))

-- The copies of the root have three shared leaves and the copies of an unshared one, which are adjacent.
diamond_9_3 : size_and_edges (generate_k_diamond stored_trees stored_labels 2 9 3) ≡ ok (9, 15)
unfolding generate_k_diamond make_graph paste_nodes paste_typed add_copies join_all join_kind
    join_each_other join_later join_edges join_copies diamond_tree base_tree grow run_phase
    add_unshared pick_shared shared_nodes put_below first_below remove_leaf pop_shared expand_future
    phase1_go_to_next_level phase5_new_shared phase4_new_shared replace_shared phase3_new_unshared
    phase2_new_shared_and_internals phase0_expand_root set_node_type add_leaves add_shared
    remove_nodes
diamond_9_3 = refl

abbrev state_of : Result (State stored_trees) → State stored_trees
state_of (ok s) = s
state_of _ = record {
  tree = stored_trees.empty;
  free_node_label = 0;
  expanding_nodes = [];
  future_expanding_nodes = [];
  last_expanded_node = 0;
  unshared_leaves = [];
  shared_leaves = [];
  phase = phase0;
  counter_phase3 = 0;
  last_expanded_index = 0;
}

abbrev full : State stored_trees
unfolding diamond_tree base_tree grow run_phase add_unshared pick_shared shared_nodes put_below
    first_below remove_leaf pop_shared expand_future phase1_go_to_next_level phase5_new_shared
    phase4_new_shared replace_shared phase3_new_unshared phase2_new_shared_and_internals
    phase0_expand_root set_node_type add_leaves add_shared remove_nodes
full = state_of (diamond_tree stored_trees 2 11 2)

full_phase : full.phase ≡ phase5
unfolding full
full_phase = refl

full_nodes : full.expanding_nodes ≡ 6 ∷ 5 ∷ []
unfolding full
full_nodes = refl

full_degree : 2 + 2 - 2 ≤ degree stored_trees full.tree 5
unfolding full
full_degree = omega arith

grow-stalled_example :
    (s : State stored_trees) × (grow stored_trees 2 2 9 full ≡ ok s) × (s.tree ≡ full.tree)
grow-stalled_example =
    grow-stalled stored_trees 2 2 6 (5 ∷ []) 9 full full_phase full_nodes full_degree
