-- ===== src/KDiamond/Replaced.antt =====
-- code3/kdiamond.py: an unshared leaf takes the place of shared ones.
use brb_partially_connected.Base.{
  ℕ, suc, ◌+◌, ◌-◌, ◌≤◌, ◌≡◌, refl, sym, ◌∙◌, List, [], ◌∷◌, ◌++◌, some, ◌==◌, if◌then◌else◌,
  length, occurrences, arith, ok,
}
use mathlib.Core.Path.{subst}
use brb_partially_connected.Nx.Tree.{TreeApi, unshared}
use brb_partially_connected.KPasted.Defs.{remove_nodes}
use brb_partially_connected.KPasted.Leaves.{weight}
use brb_partially_connected.KDiamond.Defs.{State, slice_to, replace_shared}
use brb_partially_connected.KDiamond.Shape.{IsBranch, IsTree, out, shared_out}
use brb_partially_connected.KDiamond.Added.{
  IsBranch-Lasting, Kept, Kept-trans, Lasting-present, Grew, add_unshared-Grew,
}
use brb_partially_connected.KDiamond.Removed.{Shrunk}
use brb_partially_connected.KDiamond.Popped.{Below-fewer, remove_nodes-Shrunk}
use brb_partially_connected.KDiamond.Picked.{slice_to_lem, shared_nodes-Below}

module _ (nx : TreeApi) where
  open nx use {Tree, nodes, type_of, successors, in_degree}

  -- What a new unshared leaf `c` in place of shared leaves below `a` makes of the tree.
  pub record Replaced (k a c : ℕ) (t t' : Tree) : Type 0 where
    pub tree : IsTree nx t'
    pub kept : Kept nx (a ∷ []) t t'
    pub parent_type : type_of t' a ≡ type_of t a
    pub parent_degree : in_degree t' a ≡ in_degree t a
    pub parent_out : out nx t a + 1 ≡ out nx t' a + (k - 1)
    pub parent_shared : shared_out nx t a ≡ shared_out nx t' a + (k - 1)
    pub heavier : weight nx k t' ≡ suc (weight nx k t)
    pub leaf_type : type_of t' c ≡ some unshared
    pub leaf_degree : in_degree t' c ≡ 1
    pub more :
        (u : ℕ) → occurrences u (nodes t') ≤ occurrences u (nodes t) + (if c == u then 1 else 0)

  steps-Replaced :
      (k a c : ℕ) (us : List ℕ) (t t1 t2 : Tree)
      → 2 ≤ k
      → length us ≡ k - 1
      → Shrunk nx k a us t t1
      → Grew nx k unshared a c t1 t2
      → Replaced k a c t t2
  steps-Replaced k a c us t t1 t2 two size shrunk grew = record {
    tree = grew.tree;
    kept = Kept-trans nx (a ∷ []) t t1 t2 shrunk.kept grew.kept;
    parent_type = grew.parent_type ∙ shrunk.parent_type;
    parent_degree = grew.parent_degree ∙ shrunk.parent_degree;
    parent_out = omega (arith, shrunk.parent_out, grew.parent_out, size);
    parent_shared = omega (arith, shrunk.parent_shared, grew.parent_shared, size);
    heavier = omega (arith, shrunk.lighter, grew.heavier, size);
    leaf_type = grew.leaf_type;
    leaf_degree = grew.leaf_degree;
    more = λ u. omega (arith, grew.more u, shrunk.left u);
  }

  -- `replace_shared`
  pub replace_shared-Replaced :
      (k a : ℕ) (s : State nx)
      → 2 ≤ k
      → IsTree nx s.tree
      → IsBranch (type_of s.tree a)
      → k - 1 ≤ shared_out nx s.tree a
      → occurrences s.free_node_label (nodes s.tree) ≡ 0
      → (t : Tree) × (replace_shared nx k a s
          ≡ ok (record s {
            tree = t;
            unshared_leaves = s.unshared_leaves ++ s.free_node_label ∷ [];
            last_expanded_index = suc s.last_expanded_index;
          }))
        × Replaced k a s.free_node_label s.tree t
  unfolding replace_shared
  replace_shared-Replaced k a s two tree branch enough new =
      let here = Lasting-present nx s.tree a (IsBranch-Lasting (type_of s.tree a) branch) in
      let (ys, e1, l, below) = shared_nodes-Below nx s.tree a tree here in
      let (size, fewer) = slice_to_lem k 1 ys (omega (arith, two)) (omega (arith, l, enough)) in
      let us = slice_to k 1 ys in
      let shrunk =
        remove_nodes-Shrunk nx k a us s.tree tree (Below-fewer nx s.tree a ys us fewer below) in
      let (t, e2, grew) =
        add_unshared-Grew nx (remove_nodes nx us s.tree) shrunk.tree a s.free_node_label
          (subst IsBranch (sym shrunk.parent_type) branch)
          (omega (arith, shrunk.left s.free_node_label, new)) k in
      (
        t,
        rw (e1, e2) refl,
        steps-Replaced k a s.free_node_label us s.tree (remove_nodes nx us s.tree) t two size shrunk
            grew,
      )
