-- ===== src/KPasted/Order.antt =====
-- code3/kpasted.py: the size of the graph that `generate_k_pasted` returns.
use mathlib.Core.Path.{subst}
use brb_partially_connected.Base.{
  ℕ, ◌+◌, ◌*◌, ◌≤◌, ◌<◌, ◌≡◌, inl, ⊎_elim, refl, sym, ap, ◌∙◌, none, length, occurrences, Result,
  ok, AllOk, arith,
}
use native.Mathlib.Decide.{dec_lt}
use brb_partially_connected.Nx.Tree.{TreeApi}
use brb_partially_connected.Nx.Labelled.{LabelledApi}
use brb_partially_connected.KPasted.Defs.{State}
use brb_partially_connected.KPasted.Leaves.{weight}
use brb_partially_connected.KPasted.Expansion.{Good}
use brb_partially_connected.KPasted.Size.{expand_tree-Reaches}
use brb_partially_connected.KPasted.Typed.{IsTyped}
use brb_partially_connected.KPasted.Closed.{Sound, expand_tree-Sound}
use brb_partially_connected.KPasted.Paste.{
  up_from, index_of, Pasting, paste_nodes, join_nodes, paste, generate_k_pasted,
}
use brb_partially_connected.KPasted.Vertices.{Fresh}
use brb_partially_connected.KPasted.Pasted.{paste_nodes-Pastes}
use brb_partially_connected.KPasted.Joined.{join_nodes-SameNodes}
use brb_partially_connected.KPasted.Relabelled.{add_all-index_of}

module _ (tx : TreeApi) (gx : LabelledApi) where
  abbrev start_pasting : State tx → Pasting gx
  start_pasting s = record {
    node_mapping = λ u. none;
    graph = gx.empty;
    node_label = s.free_node_label + 1;
  }

  -- The graph has the nodes 0 to n - 1, in this order.
  abbrev pub HasOrder : ℕ → Result gx.Graph → Type 0
  HasOrder n result = (g : gx.Graph) × (result ≡ ok g) × (gx.nodes g ≡ up_from 0 n)

  Fresh-first :
      (k : ℕ) (s : State tx)
      → Good tx k s
      → Sound tx s
      → Fresh gx (tx.nodes s.tree) (gx.nodes gx.empty) (s.free_node_label + 1)
  Fresh-first k s (good, _) sound v =
      let below : 0 < occurrences v (tx.nodes s.tree) → v < s.free_node_label + 1 = λ some_of.
        elim (dec_lt v (s.free_node_label + 1)) [
          | yes lt ↦ lt
          | no above ↦ absurd (omega (arith, some_of, good.2 v (omega (arith, above))))
        ] in
      rw gx.nodes-empty (omega arith, λ le. refl, λ some_of. (refl, below some_of))

  paste_chained :
      (k : ℕ) (s : State tx) (p : Pasting gx) (g : gx.Graph)
      → paste_nodes tx gx k s.tree (tx.nodes s.tree) (start_pasting s) ≡ ok p
      → join_nodes tx gx p.node_mapping k s.tree (tx.nodes s.tree) p.graph ≡ ok g
      → paste tx gx k s ≡ ok (gx.relabel (λ u. index_of u (gx.nodes g)) g)
  unfolding paste
  paste_chained k s p g vertices edges = rw (vertices, edges) refl

  paste-HasOrder :
      (k : ℕ) (s : State tx)
      → 1 ≤ k
      → Good tx k s
      → Sound tx s
      → HasOrder (weight tx k s.tree) (paste tx gx k s)
  paste-HasOrder k s positive good sound =
      let ((typed, _), closed) = sound in
      let is_typed : (v : ℕ) → 0 < occurrences v (tx.nodes s.tree) → IsTyped (tx.type_of s.tree v) =
        λ v h. ⊎_elim absurd (λ ty. ty) ((typed v).1 h) in
      let (p, vertices, size, once, copied) =
        paste_nodes-Pastes tx gx k s.tree (tx.nodes s.tree) (start_pasting s) positive
          (λ v. (typed v).0) is_typed (Fresh-first k s good sound) in
      let (g, edges, same) =
        join_nodes-SameNodes tx gx k p.node_mapping (gx.nodes p.graph) s.tree (tx.nodes s.tree)
          p.graph (λ u h. (is_typed u h, copied u (inl h)))
          (λ u v h. copied v (inl ((closed u v).1 h))) refl in
      let distinct : (v : ℕ) → occurrences v (gx.nodes g) ≤ 1 =
        λ v. subst (λ xs. occurrences v xs ≤ 1) (sym same) (once v) in
      let none_at_first : length (gx.nodes gx.empty) ≡ 0 = ap length gx.nodes-empty in
      let sized : length (gx.nodes g) ≡ weight tx k s.tree =
        ap length same ∙ omega (arith, size, none_at_first) in
      (
        gx.relabel (λ u. index_of u (gx.nodes g)) g,
        paste_chained k s p g vertices edges,
        gx.nodes-relabel (λ u. index_of u (gx.nodes g)) g
            ∙ add_all-index_of (gx.nodes g) distinct
            ∙ ap (up_from 0) sized,
      )

  -- For 2 ≤ k and 2 k ≤ n the function raises nothing and returns a graph with the nodes 0 to n - 1.
  pub generate_k_pasted-HasOrder :
      (n k : ℕ) → 2 ≤ k → 2 * k ≤ n → HasOrder n (generate_k_pasted tx gx n k)
  unfolding generate_k_pasted
  generate_k_pasted-HasOrder n k two enough =
      let (s, expanded, good, w) = expand_tree-Reaches tx n k two enough in
      let sound : Sound tx s = subst (AllOk (Sound tx)) expanded (expand_tree-Sound tx n k) in
      let (g, pasted, order) = paste-HasOrder k s (omega (arith, two)) good sound in
      (g, rw expanded pasted, order ∙ ap (up_from 0) w)
