-- ===== src/KDiamond/Paste.antt =====
-- code3/kdiamond.py, `generate_k_diamond` from the end of the loop on: the graph that is made from the
-- tree. The loop that makes its nodes is that of code3/kpasted.py, `KPasted.Paste.paste_nodes`. The
-- attributes and the list of nodes to analyze are left out.
use brb_partially_connected.Base.{
  ℕ, zero, suc, ◌+◌, List, [], ◌∷◌, Option, none, ltb, if◌then◌else◌, Result, ok, ◌>>=◌, or_raise,
  key_error,
}
use brb_partially_connected.Nx.Tree.{TreeApi, NodeType, shared, unshared}
use brb_partially_connected.Nx.Labelled.{LabelledApi}
use brb_partially_connected.KPasted.Paste.{index_of, paste_nodes, copy_of, join_edges}
use brb_partially_connected.KDiamond.Defs.{State, diamond_tree}

module _ (tx : TreeApi) (gx : LabelledApi) where
  open tx use {Tree, type_of, successors}
  open gx use {Graph, empty, add_edge, relabel}

  -- The rounds of `for j in range(k)` from `j` on.
  unfoldable pub join_later : (ℕ → Option (List ℕ)) → (u i rounds j : ℕ) → Graph → Result Graph
  join_later mapping u i zero j g = ok g
  join_later mapping u i (suc rounds) j g =
      let rest = join_later mapping u i rounds (suc j) in
      if ltb i j
      then (copy_of tx gx mapping u i
          >>= (λ a. copy_of tx gx mapping u j >>= (λ b. rest (add_edge a b g))))
      else rest g

  -- The rounds of `for i in range(k)` from `i` on, for an unshared leaf.
  unfoldable pub join_each_other : (ℕ → Option (List ℕ)) → (k u rounds i : ℕ) → Graph → Result Graph
  unfolding join_later
  join_each_other mapping k u zero i g = ok g
  join_each_other mapping k u (suc rounds) i g =
      join_later mapping u i k 0 g >>= join_each_other mapping k u rounds (suc i)

  unfoldable pub join_kind :
      (ℕ → Option (List ℕ)) → (k : ℕ) → Tree → ℕ → NodeType → Graph → Result Graph
  unfolding join_each_other join_edges
  join_kind mapping k t u unshared g = join_each_other mapping k u k 0 g
  join_kind mapping k t u shared g = ok g
  join_kind mapping k t u _ g = join_edges tx gx mapping k u (successors t u) g

  unfoldable pub join_all : (ℕ → Option (List ℕ)) → (k : ℕ) → Tree → List ℕ → Graph → Result Graph
  unfolding join_kind
  join_all mapping k t [] g = ok g
  join_all mapping k t (u ∷ us) g =
      or_raise key_error (type_of t u)
      >>= (λ ty. join_kind mapping k t u ty g >>= join_all mapping k t us)

  unfoldable pub make_graph : (k : ℕ) → State tx → Result Graph
  unfolding paste_nodes join_all
  make_graph k s =
      paste_nodes tx gx k s.tree (tx.nodes s.tree)
        (record { node_mapping = λ u. none; graph = empty; node_label = s.free_node_label + 1 })
      >>= (λ p.
          join_all p.node_mapping k s.tree (tx.nodes s.tree) p.graph
          >>= (λ g. ok (relabel (λ u. index_of u (gx.nodes g)) g)))

  unfoldable pub generate_k_diamond : (depth n k : ℕ) → Result Graph
  unfolding make_graph
  generate_k_diamond depth n k = diamond_tree tx depth n k >>= make_graph k
