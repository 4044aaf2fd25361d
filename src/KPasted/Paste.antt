-- ===== src/KPasted/Paste.antt =====
-- code3/kpasted.py, `generate_k_pasted` from the end of the expansion loop on: the graph that is made
-- from the tree. Its attributes and the list of nodes to analyze are left out.
use brb_partially_connected.Base.{
  ℕ, zero, suc, ◌+◌, ◌-◌, ◌==◌, List, [], ◌∷◌, Option, none, some, if◌then◌else◌, replicate,
  get_elem?, Result, ok, ◌>>=◌, or_raise, key_error, index_error,
}
use brb_partially_connected.Nx.Tree.{TreeApi, NodeType, shared}
use brb_partially_connected.Nx.Labelled.{LabelledApi}
use brb_partially_connected.KPasted.Defs.{State, expand_tree}

-- `count` labels from `first` on.
abbrev pub up_from : (first count : ℕ) → List ℕ
up_from first zero = []
up_from first (suc count) = first ∷ up_from (suc first) count

-- The place of a node in the list, which is what the loop over `G.nodes()` counts.
abbrev pub index_of : ℕ → List ℕ → ℕ
index_of u [] = 0
index_of u (x ∷ xs) = let rest = index_of u xs in if x == u then 0 else suc rest

module _ (gx : LabelledApi) where
  open gx use {Graph, add_node}

  -- The variables of the loop over the nodes of the tree.
  pub record Pasting : Type 0 where
    pub node_mapping : ℕ → Option (List ℕ)
    pub graph : Graph
    pub node_label : ℕ

  abbrev pub set_mapping : ℕ → List ℕ → (ℕ → Option (List ℕ)) → ℕ → Option (List ℕ)
  set_mapping u xs mapping v = if u == v then some xs else mapping v

  -- New nodes, of the labels from `label` on.
  unfoldable pub add_copies : (rounds label : ℕ) → Graph → Graph
  add_copies zero label g = g
  add_copies (suc rounds) label g = add_copies rounds (suc label) (add_node label g)

  -- A shared leaf is one node, and any other node of the tree is k nodes.
  unfoldable pub paste_typed : (k u : ℕ) → NodeType → Pasting → Pasting
  unfolding add_copies
  paste_typed k u shared s = record s {
    node_mapping = set_mapping u (replicate k u) s.node_mapping;
    graph = add_node u s.graph;
  }
  paste_typed k u _ s = record {
    node_mapping = set_mapping u (u ∷ up_from s.node_label (k - 1)) s.node_mapping;
    graph = add_copies (k - 1) s.node_label (add_node u s.graph);
    node_label = s.node_label + (k - 1);
  }

module _ (tx : TreeApi) (gx : LabelledApi) where
  open tx use {Tree, type_of, successors}
  open gx use {Graph, empty, add_edge, relabel}

  unfoldable pub paste_nodes : (k : ℕ) → Tree → List ℕ → Pasting gx → Result (Pasting gx)
  unfolding paste_typed
  paste_nodes k t [] s = ok s
  paste_nodes k t (u ∷ us) s =
      or_raise key_error (type_of t u) >>= (λ ty. paste_nodes k t us (paste_typed gx k u ty s))

  -- `node_mapping[u][i]`
  abbrev pub copy_of : (ℕ → Option (List ℕ)) → (u i : ℕ) → Result ℕ
  copy_of mapping u i =
      or_raise key_error (mapping u) >>= (λ xs. or_raise index_error (get_elem? xs i))

  -- The rounds of `for i in range(k)` from `i` on, for an edge of the tree.
  unfoldable pub join_copies : (ℕ → Option (List ℕ)) → (u v rounds i : ℕ) → Graph → Result Graph
  join_copies mapping u v zero i g = ok g
  join_copies mapping u v (suc rounds) i g = copy_of mapping u i >>= (λ a.
      copy_of mapping v i >>= (λ b. join_copies mapping u v rounds (suc i) (add_edge a b g)))

  unfoldable pub join_edges : (ℕ → Option (List ℕ)) → (k u : ℕ) → List ℕ → Graph → Result Graph
  unfolding join_copies
  join_edges mapping k u [] g = ok g
  join_edges mapping k u (v ∷ vs) g = join_copies mapping u v k 0 g >>= join_edges mapping k u vs

  unfoldable pub join_typed :
      (ℕ → Option (List ℕ)) → (k : ℕ) → Tree → ℕ → NodeType → Graph → Result Graph
  unfolding join_edges
  join_typed mapping k t u shared g = ok g
  join_typed mapping k t u _ g = join_edges mapping k u (successors t u) g

  unfoldable pub join_nodes : (ℕ → Option (List ℕ)) → (k : ℕ) → Tree → List ℕ → Graph → Result Graph
  unfolding join_typed
  join_nodes mapping k t [] g = ok g
  join_nodes mapping k t (u ∷ us) g =
      or_raise key_error (type_of t u)
      >>= (λ ty. join_typed mapping k t u ty g >>= join_nodes mapping k t us)

  unfoldable pub paste : (k : ℕ) → State tx → Result Graph
  unfolding paste_nodes join_nodes
  paste k s =
      paste_nodes k s.tree (tx.nodes s.tree)
        (record { node_mapping = λ u. none; graph = empty; node_label = s.free_node_label + 1 })
      >>= (λ p.
          join_nodes p.node_mapping k s.tree (tx.nodes s.tree) p.graph
          >>= (λ g. ok (relabel (λ u. index_of u (gx.nodes g)) g)))

  unfoldable pub generate_k_pasted : (n k : ℕ) → Result Graph
  unfolding paste
  generate_k_pasted n k = expand_tree tx n k >>= paste k
