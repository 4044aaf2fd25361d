-- ===== src/KDiamond/Order.antt =====
-- code3/kdiamond.py: the size of the graph that `generate_k_diamond` returns.
use mathlib.Core.Path.{subst}
use brb_partially_connected.Base.{
  ℕ, suc, ◌+◌, ◌*◌, ◌≤◌, ◌<◌, ◌≡◌, inl, refl, sym, ap, ◌∙◌, none, length, occurrences, ok, arith,
}
use native.Mathlib.Decide.{dec_lt}
use brb_partially_connected.Nx.Tree.{TreeApi}
use brb_partially_connected.Nx.Labelled.{LabelledApi}
use brb_partially_connected.KPasted.Leaves.{weight}
use brb_partially_connected.KPasted.Paste.{up_from, index_of, Pasting, paste_nodes}
use brb_partially_connected.KPasted.Vertices.{Fresh}
use brb_partially_connected.KPasted.Pasted.{paste_nodes-Pastes}
use brb_partially_connected.KPasted.Order.{HasOrder}
use brb_partially_connected.KPasted.Relabelled.{add_all-index_of}
use brb_partially_connected.KDiamond.Defs.{State}
use brb_partially_connected.KDiamond.Invariant.{Sound}
use brb_partially_connected.KDiamond.Growth.{diamond_tree-Grows}
use brb_partially_connected.KDiamond.Paste.{join_all, make_graph, generate_k_diamond}
use brb_partially_connected.KDiamond.Joined.{join_all-SameNodes}

module _ (tx : TreeApi) (gx : LabelledApi) where
  abbrev start_pasting : State tx → Pasting gx
  start_pasting s = record {
    node_mapping = λ u. none;
    graph = gx.empty;
    node_label = s.free_node_label + 1;
  }

  Fresh-first :
      (s : State tx)
      → Sound tx (suc s.free_node_label) s.tree
      → Fresh gx (tx.nodes s.tree) (gx.nodes gx.empty) (s.free_node_label + 1)
  Fresh-first s (tree, free) v =
      let below : 0 < occurrences v (tx.nodes s.tree) → v < s.free_node_label + 1 = λ some_of.
        elim (dec_lt v (s.free_node_label + 1)) [
          | yes lt ↦ lt
          | no above ↦ absurd (omega (arith, some_of, free v (omega (arith, above))))
        ] in
      rw gx.nodes-empty (omega arith, λ le. refl, λ some_of. (refl, below some_of))

  make_graph_chained :
      (k : ℕ) (s : State tx) (p : Pasting gx) (g : gx.Graph)
      → paste_nodes tx gx k s.tree (tx.nodes s.tree) (start_pasting s) ≡ ok p
      → join_all tx gx p.node_mapping k s.tree (tx.nodes s.tree) p.graph ≡ ok g
      → make_graph tx gx k s ≡ ok (gx.relabel (λ u. index_of u (gx.nodes g)) g)
  unfolding make_graph
  make_graph_chained k s p g vertices edges = rw (vertices, edges) refl

  make_graph-HasOrder :
      (k : ℕ) (s : State tx)
      → 1 ≤ k
      → Sound tx (suc s.free_node_label) s.tree
      → HasOrder tx gx (weight tx k s.tree) (make_graph tx gx k s)
  make_graph-HasOrder k s positive sound =
      let tree = sound.0 in
      let (p, vertices, size, once, copied) =
        paste_nodes-Pastes tx gx k s.tree (tx.nodes s.tree) (start_pasting s) positive tree.once
          tree.typed (Fresh-first s sound) in
      let (g, edges, same) =
        join_all-SameNodes tx gx k p.node_mapping (gx.nodes p.graph) s.tree (tx.nodes s.tree)
          p.graph (λ u h. (tree.typed u h, copied u (inl h)))
          (λ u v h. copied v (inl (tree.closed u v h))) refl in
      let distinct : (v : ℕ) → occurrences v (gx.nodes g) ≤ 1 =
        λ v. subst (λ xs. occurrences v xs ≤ 1) (sym same) (once v) in
      let none_at_first : length (gx.nodes gx.empty) ≡ 0 = ap length gx.nodes-empty in
      let sized : length (gx.nodes g) ≡ weight tx k s.tree =
        ap length same ∙ omega (arith, size, none_at_first) in
      (
        gx.relabel (λ u. index_of u (gx.nodes g)) g,
        make_graph_chained k s p g vertices edges,
        gx.nodes-relabel (λ u. index_of u (gx.nodes g)) g
            ∙ add_all-index_of (gx.nodes g) distinct
            ∙ ap (up_from 0) sized,
      )

  -- For 3 ≤ k and 2 k ≤ n, and where at least two nested calls of the phases are allowed, the function raises
  -- nothing and returns a graph with the nodes 0 to n - 1.
  pub generate_k_diamond-HasOrder :
      (depth n k : ℕ)
      → 3 ≤ k
      → 2 * k ≤ n
      → HasOrder tx gx n (generate_k_diamond tx gx (suc (suc depth)) n k)
  unfolding generate_k_diamond
  generate_k_diamond-HasOrder depth n k three enough =
      let (s, grown, sound, _, w) = diamond_tree-Grows tx depth n k three enough in
      let (g, made, order) = make_graph-HasOrder k s (omega (arith, three)) sound in
      (g, rw grown made, order ∙ ap (up_from 0) w)
