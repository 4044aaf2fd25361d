-- ===== src/KDiamond/Defs.antt =====
-- code3/kdiamond.py, `generate_k_diamond` up to the end of the loop: the tree from which the k-diamond
-- graph is made, and the phases of its growth.
use brb_partially_connected.Base.{
  ℕ, zero, suc, ◌+◌, ◌-◌, ◌*◌, List, [], ◌∷◌, ◌++◌, Option, none, some, ◌==◌, ltb, leb,
  if◌then◌else◌, length, take, get_elem?, contains, last, all_but_last, Result, ok, raise, ◌>>=◌,
  or_raise, user_error, index_error, key_error, networkx_error, recursion_error,
}
use brb_partially_connected.Nx.Tree.{TreeApi, NodeType, root, shared, internal, unshared, degree}
use brb_partially_connected.KPasted.Defs.{set_node_type, add_shared, add_leaves, remove_nodes}
use brb_partially_connected.KPasted.Paste.{up_from}

-- The values of `Phase`.
pub data Phase : Type 0 where
  phase0 phase1 phase2 phase3 phase4 phase5 : Phase

-- `xs[:k - d]`: where k is below d, the index counts from the end.
abbrev pub slice_to : (k d : ℕ) → List ℕ → List ℕ
slice_to k d xs = if ltb k d then take (length xs - (d - k)) xs else take (k - d) xs

-- `y`, put before the others if its type is 'shared'.
abbrev pub keep_shared : NodeType → ℕ → List ℕ → List ℕ
keep_shared shared y ys = y ∷ ys
keep_shared _ y ys = ys

-- The variables of the loop.
pub record State (nx : TreeApi) : Type 0 where
  pub tree : nx.Tree
  pub free_node_label : ℕ
  pub expanding_nodes : List ℕ
  pub future_expanding_nodes : List ℕ
  pub last_expanded_node : ℕ
  pub unshared_leaves : List ℕ
  pub shared_leaves : List ℕ
  pub phase : Phase
  pub counter_phase3 : ℕ
  pub last_expanded_index : ℕ

module _ (nx : TreeApi) where
  open nx use {Tree, empty, nodes, type_of, successors, add_edge, remove_node}

  -- A new leaf of type 'unshared'.
  unfoldable pub add_unshared : (parent label : ℕ) → Tree → Result Tree
  unfolding set_node_type
  add_unshared parent label t = set_node_type nx label unshared (add_edge parent label t)

  unfoldable pub pick_shared : Tree → List ℕ → Result (List ℕ)
  pick_shared t [] = ok []
  pick_shared t (y ∷ ys) =
      or_raise key_error (type_of t y)
      >>= (λ ty. pick_shared t ys >>= (λ rest. ok (keep_shared ty y rest)))

  -- `shared_nodes_to_move`
  unfoldable pub shared_nodes : Tree → ℕ → Result (List ℕ)
  unfolding pick_shared
  shared_nodes t u =
      if contains (nodes t) u then pick_shared t (successors t u) else raise networkx_error

  -- The moved nodes are put below another node.
  unfoldable pub put_below : ℕ → List ℕ → Tree → Result Tree
  unfolding add_shared
  put_below u [] t = ok t
  put_below u (v ∷ vs) t = add_shared nx u v t >>= put_below u vs

  -- The first node that has less than 2 k - 2 edges.
  unfoldable pub first_below : (k : ℕ) → Tree → List ℕ → Option ℕ
  first_below k t [] = none
  first_below k t (u ∷ us) = if ltb (degree nx t u) (k + k - 2) then some u else first_below k t us

  -- `Tree.remove_node`
  unfoldable pub remove_leaf : ℕ → Tree → Result Tree
  remove_leaf u t = if contains (nodes t) u then ok (remove_node u t) else raise networkx_error

  -- `rounds` nodes are popped off the list and removed.
  unfoldable pub pop_shared : (rounds : ℕ) → List ℕ → Tree → Result (List ℕ × Tree)
  unfolding remove_leaf
  pop_shared zero us t = ok (us, t)
  pop_shared (suc rounds) [] t = raise index_error
  pop_shared (suc rounds) (u ∷ us) t =
      remove_leaf (last u us) t >>= (λ t'. pop_shared rounds (all_but_last u us) t')

  -- From the node that is popped off `Future_expanding_nodes` on, in the phases 1 and 2.
  unfoldable pub expand_future : (k : ℕ) → List ℕ → State nx → Result (State nx)
  unfolding set_node_type shared_nodes remove_nodes put_below add_shared
  expand_future k [] s = raise index_error
  expand_future k (x ∷ xs) s = do
    t ← set_node_type nx (last x xs) internal s.tree
    ys ← shared_nodes t s.last_expanded_node
    let moved = slice_to k 2 ys
    t' ← put_below (last x xs) moved (remove_nodes nx moved t)
    t'' ← add_shared nx (last x xs) s.free_node_label t'
    ok (record s {
      tree = t'';
      future_expanding_nodes = all_but_last x xs;
      expanding_nodes = s.expanding_nodes ++ last x xs ∷ [];
    })

  unfoldable pub phase1_go_to_next_level : (k : ℕ) → State nx → Result (State nx)
  unfolding expand_future
  phase1_go_to_next_level k s =
      expand_future k s.unshared_leaves (record s { unshared_leaves = []; expanding_nodes = [] })
      >>= (λ s'. ok (record s' { phase = phase2 }))

  unfoldable pub phase5_new_shared : (k : ℕ) → State nx → Result (State nx)
  unfolding add_shared
  phase5_new_shared k s = elim s.expanding_nodes [
    | [] ↦ raise index_error
    | x ∷ xs ↦
        if ltb (degree nx s.tree (last x xs)) (k + k - 2)
        then add_shared nx (last x xs) s.free_node_label s.tree >>= (λ t. ok (record s {
          tree = t;
          last_expanded_node = last x xs;
          phase = if degree nx t (last x xs) == k + k - 2 then phase1 else s.phase;
        }))
        else ok (record s { last_expanded_node = last x xs })
  ]

  -- `Phase4_newShared`, where `again` is the call of `Phase3_newUnshared`.
  unfoldable pub phase4_new_shared :
      (k : ℕ) → (again : State nx → Result (State nx)) → State nx → Result (State nx)
  unfolding first_below add_shared
  phase4_new_shared k again s = elim (first_below k s.tree s.expanding_nodes) [
    | some u ↦ add_shared nx u s.free_node_label s.tree >>= (λ t. ok (record s { tree = t }))
    | none ↦ again (record s { phase = phase3; last_expanded_index = 0 })
  ]

  -- The first branch of `Phase3_newUnshared`.
  unfoldable pub replace_shared : (k u : ℕ) → State nx → Result (State nx)
  unfolding shared_nodes remove_nodes add_unshared
  replace_shared k u s = do
    ys ← shared_nodes s.tree u
    t ← add_unshared u s.free_node_label (remove_nodes nx (slice_to k 1 ys) s.tree)
    ok (record s {
      tree = t;
      unshared_leaves = s.unshared_leaves ++ s.free_node_label ∷ [];
      last_expanded_index = suc s.last_expanded_index;
    })

  -- `depth` is the number of nested calls that the interpreter allows.
  unfoldable pub phase3_new_unshared : (depth k : ℕ) → State nx → Result (State nx)
  unfolding replace_shared phase4_new_shared phase5_new_shared
  phase3_new_unshared zero k s = raise recursion_error
  phase3_new_unshared (suc depth) k s = elim (get_elem? s.expanding_nodes s.last_expanded_index) [
    | some u ↦ replace_shared k u s
    | none ↦
        if suc s.counter_phase3 == k - 1
        then phase5_new_shared k
            (record s { counter_phase3 = suc s.counter_phase3; phase = phase5 })
        else phase4_new_shared k (phase3_new_unshared depth k)
            (record s { counter_phase3 = suc s.counter_phase3; phase = phase4 })
  ]

  unfoldable pub phase2_new_shared_and_internals : (depth k : ℕ) → State nx → Result (State nx)
  unfolding first_below add_shared expand_future phase3_new_unshared
  phase2_new_shared_and_internals depth k s = elim (first_below k s.tree s.expanding_nodes) [
    | some u ↦
        add_shared nx u s.free_node_label s.tree
        >>= (λ t. ok (record s { tree = t; last_expanded_node = u }))
    | none ↦ elim s.future_expanding_nodes [
      | [] ↦
          phase3_new_unshared depth k
            (record s { phase = phase3; counter_phase3 = 0; last_expanded_index = 0 })
      | x ∷ xs ↦
          expand_future k (x ∷ xs) s >>= (λ s'. ok (record s' { last_expanded_node = last x xs }))
    ]
  ]

  -- The first tree expansion.
  unfoldable pub phase0_expand_root : (k : ℕ) → State nx → Result (State nx)
  unfolding add_shared pop_shared add_unshared phase1_go_to_next_level
  phase0_expand_root k s = elim s.expanding_nodes [
    | [] ↦ raise index_error
    | x ∷ xs ↦
        if ltb (degree nx s.tree x) (k + k - 2)
        then add_shared nx x s.free_node_label s.tree >>= (λ t.
          ok (record s { tree = t; shared_leaves = s.shared_leaves ++ s.free_node_label ∷ [] }))
        else if leb (k - 1) (length s.shared_leaves)
        then pop_shared (k - 1) s.shared_leaves s.tree >>= (λ (rest, t).
          add_unshared x s.free_node_label t >>= (λ t'. ok (record s {
            tree = t';
            shared_leaves = rest;
            unshared_leaves = s.unshared_leaves ++ s.free_node_label ∷ [];
          })))
        else phase1_go_to_next_level k (record s { phase = phase1 })
  ]

  unfoldable pub run_phase : (depth k : ℕ) → Phase → State nx → Result (State nx)
  unfolding phase0_expand_root phase1_go_to_next_level phase2_new_shared_and_internals
      phase3_new_unshared phase4_new_shared phase5_new_shared
  run_phase depth k phase0 s = phase0_expand_root k s
  run_phase depth k phase1 s = phase1_go_to_next_level k s
  run_phase depth k phase2 s = phase2_new_shared_and_internals depth k s
  run_phase depth k phase3 s = phase3_new_unshared depth k s
  run_phase depth k phase4 s = phase4_new_shared k (phase3_new_unshared depth k) s
  run_phase depth k phase5 s = phase5_new_shared k s

  -- The rounds of the loop.
  unfoldable pub grow : (depth k rounds : ℕ) → State nx → Result (State nx)
  unfolding run_phase
  grow depth k zero s = ok s
  grow depth k (suc rounds) s =
      run_phase depth k s.phase (record s { free_node_label = suc s.free_node_label })
      >>= grow depth k rounds

  -- Up to the loop.
  unfoldable pub base_tree : (n k : ℕ) → Result (State nx)
  unfolding add_leaves set_node_type
  base_tree n k = if ltb n (2 * k) then raise user_error else do
    t ← add_leaves nx k 0 1 empty
    t' ← set_node_type nx 0 root t
    ok (record {
      tree = t';
      free_node_label = 2 * k;
      expanding_nodes = 0 ∷ [];
      future_expanding_nodes = [];
      last_expanded_node = 0;
      unshared_leaves = [];
      shared_leaves = up_from 1 k;
      phase = phase0;
      counter_phase3 = 0;
      last_expanded_index = 0;
    })

  unfoldable pub diamond_tree : (depth n k : ℕ) → Result (State nx)
  unfolding base_tree grow
  diamond_tree depth n k = base_tree n k >>= grow depth k (n - 2 * k)
