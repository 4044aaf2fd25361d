-- ===== src/KPasted/Defs.antt =====
-- code3/kpasted.py, `generate_k_pasted` up to the end of the expansion loop: the tree from which the
-- k-pasted graph is made.
use brb_partially_connected.Base.{
  ℕ, zero, suc, ◌+◌, ◌-◌, ◌*◌, Bool, true, false, List, [], ◌∷◌, ◌++◌, ltb, if◌then◌else◌, take,
  drop, contains, last, all_but_last, Result, ok, raise, ◌>>=◌, user_error, key_error, index_error,
}
use brb_partially_connected.Nx.Tree.{TreeApi, NodeType, root, shared, internal, degree}

-- `if len(queue) == 0: queue = future`, and what is left of `future` then.
abbrev pub refill : List ℕ → List ℕ → List ℕ × List ℕ
refill [] future = (future, [])
refill (x ∷ xs) future = (x ∷ xs, future)

-- How many leaves of the expanding node are kept, to be expanded later.
abbrev pub kept : (k : ℕ) (root_expansion : Bool) → ℕ
kept k true = k - 1
kept k false = k

module _ (nx : TreeApi) where
  open nx use {Tree, empty, nodes, successors, add_edge, set_type, remove_node}

  -- `Tree.nodes[u]['type'] = ty`
  unfoldable pub set_node_type : ℕ → NodeType → Tree → Result Tree
  set_node_type u ty t = if contains (nodes t) u then ok (set_type u ty t) else raise key_error

  -- A new leaf of type 'shared'.
  unfoldable pub add_shared : (parent label : ℕ) → Tree → Result Tree
  unfolding set_node_type
  add_shared parent label t = set_node_type label shared (add_edge parent label t)

  -- `rounds` new leaves, of the labels from `label` on.
  unfoldable pub add_leaves : (rounds parent label : ℕ) → Tree → Result Tree
  unfolding add_shared
  add_leaves zero parent label t = ok t
  add_leaves (suc rounds) parent label t =
      add_shared parent label t >>= add_leaves rounds parent (suc label)

  -- `Tree.remove_nodes_from(...)`
  unfoldable pub remove_nodes : List ℕ → Tree → Tree
  remove_nodes [] t = t
  remove_nodes (u ∷ us) t = remove_nodes us (remove_node u t)

-- The variables of the expansion loop, under the source's names or short forms of these.
pub record State (nx : TreeApi) : Type 0 where
  pub tree : nx.Tree
  pub free_node_label : ℕ
  pub expanding_node : ℕ
  pub expanding_nodes : List ℕ
  pub future_expanding_nodes : List ℕ
  pub root_expansion : Bool

module _ (nx : TreeApi) where
  open nx use {empty, successors}

  -- Up to the loop.
  unfoldable pub initial : (n k : ℕ) → Result (State nx)
  unfolding add_leaves set_node_type
  initial n k = if ltb n (2 * k) then raise user_error else do
    t ← add_leaves nx k 0 1 empty
    t' ← set_node_type nx 0 root t
    ok (record {
      tree = t';
      free_node_label = 2 * k;
      expanding_node = 0;
      expanding_nodes = [];
      future_expanding_nodes = [];
      root_expansion = false;
    })

  -- From the node that is popped off the queue on.
  unfoldable pub expand_last : (k : ℕ) (queue : List ℕ) → State nx → Result (State nx)
  unfolding set_node_type add_leaves
  expand_last k [] s = raise index_error
  expand_last k (x ∷ xs) s = do
    t ← set_node_type nx (last x xs) internal s.tree
    t' ← add_leaves nx (k - 1) (last x xs) s.free_node_label t
    ok (record {
      tree = t';
      free_node_label = s.free_node_label + (k - 1);
      expanding_node = last x xs;
      expanding_nodes = all_but_last x xs;
      future_expanding_nodes = s.future_expanding_nodes;
      root_expansion = true;
    })

  -- The `else` branch of the loop's body.
  unfoldable pub expand_next : ℕ → State nx → Result (State nx)
  unfolding remove_nodes expand_last
  expand_next k s =
      let leaves = successors s.tree s.expanding_node in
      let cut = kept k s.root_expansion in
      let queues = refill s.expanding_nodes (s.future_expanding_nodes ++ take cut leaves) in
      expand_last k queues.0 (record s {
        tree = remove_nodes nx (drop cut leaves) s.tree;
        future_expanding_nodes = queues.1;
      })

  -- The body of the loop.
  unfoldable pub iterate : ℕ → State nx → Result (State nx)
  unfolding add_shared expand_next
  iterate k s =
      let s' = record s { free_node_label = suc s.free_node_label } in
      if ltb (degree nx s.tree s.expanding_node) (3 * k - 3)
      then add_shared nx s.expanding_node s'.free_node_label s.tree
        >>= (λ t. ok (record s' { tree = t }))
      else expand_next k s'

  unfoldable pub iterations : (k rounds : ℕ) → State nx → Result (State nx)
  unfolding iterate
  iterations k zero s = ok s
  iterations k (suc rounds) s = iterate k s >>= iterations k rounds

  -- `for iteration in range(2*k,n)`, from the start.
  unfoldable pub expand_tree : (n k : ℕ) → Result (State nx)
  unfolding initial iterations
  expand_tree n k = initial n k >>= iterations k (n - 2 * k)
