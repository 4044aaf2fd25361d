-- ===== src/KDiamond/Moved.antt =====
-- code3/kdiamond.py: moved leaves are put below another node.
use brb_partially_connected.Base.{
  ℕ, ◌+◌, ◌≤◌, ◌<◌, ◌≡◌, refl, sym, ◌∙◌, List, [], ◌∷◌, length, occurrences, arith, ok,
}
use mathlib.Core.Path.{subst}
use brb_partially_connected.Nx.Tree.{TreeApi}
use brb_partially_connected.KPasted.Leaves.{weight}
use brb_partially_connected.KDiamond.Defs.{put_below}
use brb_partially_connected.KDiamond.Shape.{IsBranch, IsTree, out, shared_out}
use brb_partially_connected.KDiamond.Added.{Kept, Kept-trans, add_shared-Grew}

module _ (nx : TreeApi) where
  open nx use {Tree, nodes, type_of, successors, in_degree, set_type, remove_node}

  -- What `more` new shared leaves below `a` make of the tree.
  pub record Filled (k a : ℕ) (more : List ℕ) (t t' : Tree) : Type 0 where
    pub tree : IsTree nx t'
    pub kept : Kept nx (a ∷ []) t t'
    pub parent_type : type_of t' a ≡ type_of t a
    pub parent_degree : in_degree t' a ≡ in_degree t a
    pub parent_out : out nx t' a ≡ out nx t a + length more
    pub parent_shared : shared_out nx t' a ≡ shared_out nx t a + length more
    pub heavier : weight nx k t' ≡ weight nx k t + length more
    pub added : (u : ℕ) → occurrences u (nodes t') ≡ occurrences u (nodes t) + occurrences u more

  pub put_below-Filled :
      (k a : ℕ) (vs : List ℕ) (t : Tree)
      → IsTree nx t
      → IsBranch (type_of t a)
      → ((v : ℕ) → (occurrences v vs ≤ 1) × (0 < occurrences v vs → occurrences v (nodes t) ≡ 0))
      → (t' : Tree) × (put_below nx a vs t ≡ ok t') × Filled k a vs t t'
  unfolding put_below
  put_below-Filled k a [] t tree branch new = (
    t,
    refl,
    record {
      tree = tree;
      kept = λ u away lasting. (refl, refl, refl, refl);
      parent_type = refl;
      parent_degree = refl;
      parent_out = omega arith;
      parent_shared = omega arith;
      heavier = omega arith;
      added = λ u. omega arith;
    },
  )
  put_below-Filled k a (v ∷ vs) t tree branch new =
      let (t1, e1, first) = add_shared-Grew nx t tree a v branch ((new v).1 (ground arith)) k in
      let (t2, e2, rest) =
        put_below-Filled k a vs t1 first.tree (subst IsBranch (sym first.parent_type) branch)
          (λ u. (ground (arith, (new u).0), λ h. ground (arith, first.more u, new u, h))) in
      (
        t2,
        rw e1 e2,
        record {
          tree = rest.tree;
          kept = Kept-trans nx (a ∷ []) t t1 t2 first.kept rest.kept;
          parent_type = rest.parent_type ∙ first.parent_type;
          parent_degree = rest.parent_degree ∙ first.parent_degree;
          parent_out = omega (arith, rest.parent_out, first.parent_out);
          parent_shared = omega (arith, rest.parent_shared, first.parent_shared);
          heavier = omega (arith, rest.heavier, first.heavier);
          added = λ u. omega (arith, rest.added u, first.more u);
        },
      )
