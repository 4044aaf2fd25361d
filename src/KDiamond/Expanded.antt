-- ===== src/KDiamond/Expanded.antt =====
-- code3/kdiamond.py: the next expanding node takes shared leaves of the last one and gets a new one.
use brb_partially_connected.Base.{
  ℕ, suc, ◌+◌, ◌-◌, ◌≤◌, ◌<◌, ◌≡◌, ◌≢◌, refl, sym, ◌∙◌, List, [], ◌∷◌, ◌++◌, some, ◌==◌,
  if◌then◌else◌, length, occurrences, last, all_but_last, arith, ok,
}
use mathlib.Core.Path.{subst}
use native.Mathlib.Decide.{ℕ_discrete}
use brb_partially_connected.Nx.Tree.{TreeApi, shared, internal, unshared}
use brb_partially_connected.KPasted.Defs.{remove_nodes, set_node_type, add_shared}
use brb_partially_connected.KPasted.Leaves.{weight}
use brb_partially_connected.KDiamond.Defs.{State, slice_to, shared_nodes, put_below, expand_future}
use brb_partially_connected.KDiamond.Shape.{IsBranch, IsTree, out, shared_out}
use brb_partially_connected.KDiamond.Added.{
  Lasting, IsBranch-Lasting, Same, Kept, Kept-trans, Lasting-present, Grew, add_shared-Grew,
}
use brb_partially_connected.KDiamond.Removed.{Below, Shrunk}
use brb_partially_connected.KDiamond.Popped.{Below-fewer, remove_nodes-Shrunk}
use brb_partially_connected.KDiamond.Moved.{Filled, put_below-Filled}
use brb_partially_connected.KDiamond.Picked.{slice_to_lem, shared_nodes-Below}
use brb_partially_connected.KDiamond.Marked.{Marked, set_node_type-Marked}

module _ (nx : TreeApi) where
  open nx use {Tree, nodes, type_of, successors, in_degree}

  -- Nothing has changed about a third node.
  Kept-weaken :
      (us us' : List ℕ) (t t' : Tree)
      → ((u : ℕ) → occurrences u us ≤ occurrences u us')
      → Kept nx us t t'
      → Kept nx us' t t'
  Kept-weaken us us' t t' fewer kept u away lasting = kept u (omega (arith, fewer u, away)) lasting

  -- What the expansion of `x` after `a`, with the new leaf `c`, makes of the tree.
  pub record Expanded (k a x c : ℕ) (t t' : Tree) : Type 0 where
    pub tree : IsTree nx t'
    pub kept : Kept nx (a ∷ x ∷ []) t t'
    pub new_type : type_of t' x ≡ some internal
    pub new_degree : in_degree t' x ≡ in_degree t x
    pub new_out : out nx t' x ≡ k - 1
    pub new_shared : shared_out nx t' x ≡ k - 1
    pub last_type : type_of t' a ≡ type_of t a
    pub last_degree : in_degree t' a ≡ in_degree t a
    pub last_out : out nx t a ≡ out nx t' a + (k - 2)
    pub last_shared : shared_out nx t a ≡ shared_out nx t' a + (k - 2)
    pub heavier : weight nx k t' ≡ suc (weight nx k t)
    pub more :
        (u : ℕ) → occurrences u (nodes t') ≡ occurrences u (nodes t) + (if c == u then 1 else 0)

  module _ (k a x c : ℕ) (t : Tree) (two : 2 ≤ k) (tree : IsTree nx t)
      (leaf : type_of t x ≡ some unshared) (branch : IsBranch (type_of t a))
      (enough : k - 2 ≤ shared_out nx t a) (new : occurrences c (nodes t) ≡ 0) where
    distinct : a ≢ x
    distinct e = subst IsBranch leaf (subst (λ u. IsBranch (type_of t u)) e branch)

    module _ (t1 t2 t3 : Tree) (moved : List ℕ) (size : length moved ≡ k - 2)
        (marked : Marked nx k x t t1) (below : Below nx t1 a moved)
        (shrunk : Shrunk nx k a moved t1 t2) (filled : Filled nx k x moved t2 t3) where
      a_marked : Same nx t t1 a
      a_marked = marked.kept a (ground (arith, distinct)) (IsBranch-Lasting (type_of t a) branch)

      a_branch : (t' : Tree) → type_of t' a ≡ type_of t a → Lasting (type_of t' a)
      a_branch t' e = IsBranch-Lasting (type_of t' a) (subst IsBranch (sym e) branch)

      x_internal : (t' : Tree) → type_of t' x ≡ some internal → Lasting (type_of t' x)
      x_internal t' e = subst Lasting (sym e) tt

      x_shrunk : Same nx t1 t2 x
      x_shrunk = shrunk.kept x (ground (arith, distinct)) (x_internal t1 marked.new_type)

      a_filled : Same nx t2 t3 a
      a_filled =
          filled.kept a (ground (arith, distinct)) (a_branch t2 (shrunk.parent_type ∙ a_marked.0))

      as_many : (u : ℕ) → occurrences u (nodes t3) ≡ occurrences u (nodes t)
      as_many u = elim (ℕ_discrete (occurrences u moved) 0) [
        | yes e ↦ omega (arith, filled.added u, shrunk.left u, marked.as_many u, e)
        | no ne ↦
            let there = marked.tree.closed a u ((below u).1 (omega (arith, ne))).0 in
            omega (arith, filled.added u, shrunk.left u, marked.as_many u, (below u).0, there)
      ]

      x_filled : IsBranch (type_of t3 x)
      x_filled = subst IsBranch (sym (filled.parent_type ∙ x_shrunk.0 ∙ marked.new_type)) tt

      module _ (t4 : Tree) (grew : Grew nx k shared x c t3 t4) where
        a_grew : Same nx t3 t4 a
        a_grew =
            grew.kept a (ground (arith, distinct))
              (a_branch t3 (a_filled.0 ∙ shrunk.parent_type ∙ a_marked.0))

        kept_all : Kept nx (a ∷ x ∷ []) t t4
        kept_all =
            Kept-trans nx (a ∷ x ∷ []) t t1 t4
              (Kept-weaken (x ∷ []) (a ∷ x ∷ []) t t1 (λ u. omega arith) marked.kept)
              (Kept-trans nx (a ∷ x ∷ []) t1 t2 t4
                (Kept-weaken (a ∷ []) (a ∷ x ∷ []) t1 t2 (λ u. omega arith) shrunk.kept)
                (Kept-trans nx (a ∷ x ∷ []) t2 t3 t4
                  (Kept-weaken (x ∷ []) (a ∷ x ∷ []) t2 t3 (λ u. omega arith) filled.kept)
                  (Kept-weaken (x ∷ []) (a ∷ x ∷ []) t3 t4 (λ u. omega arith) grew.kept)))

        chain-Expanded : Expanded k a x c t t4
        chain-Expanded =
            let (ty, deg, o, s) = a_marked in
            let (ty2, deg2, o2, s2) = a_filled in
            let (ty3, deg3, o3, s3) = a_grew in
            let (ty4, deg4, o4, s4) = x_shrunk in
            record {
              tree = grew.tree;
              kept = kept_all;
              new_type = grew.parent_type ∙ filled.parent_type ∙ ty4 ∙ marked.new_type;
              new_degree = grew.parent_degree ∙ filled.parent_degree ∙ deg4 ∙ marked.degree;
              new_out = omega (arith, grew.parent_out, filled.parent_out, o4, marked.none_out);
              new_shared =
                  omega (arith, grew.parent_shared, filled.parent_shared, s4, marked.none_shared);
              last_type = ty3 ∙ ty2 ∙ shrunk.parent_type ∙ ty;
              last_degree = deg3 ∙ deg2 ∙ shrunk.parent_degree ∙ deg;
              last_out = omega (arith, o, o2, o3, shrunk.parent_out);
              last_shared = omega (arith, s, s2, s3, shrunk.parent_shared);
              heavier =
                  omega (arith, marked.as_heavy, shrunk.lighter, filled.heavier, grew.heavier);
              more = λ u. omega (arith, grew.more u, as_many u);
            }

    -- The steps of `expand_future` on the tree.
    pub steps-Expanded :
        (t1 t3 t4 : Tree) × (ys : List ℕ) × (set_node_type nx x internal t ≡ ok t1)
        × (shared_nodes nx t1 a ≡ ok ys)
        × (put_below nx x (slice_to k 2 ys) (remove_nodes nx (slice_to k 2 ys) t1) ≡ ok t3)
        × (add_shared nx x c t3 ≡ ok t4)
        × Expanded k a x c t t4
    steps-Expanded =
        let (t1, e1, marked) = set_node_type-Marked nx t tree x leaf k in
        let (ty, deg, o, s) =
          marked.kept a (ground (arith, distinct)) (IsBranch-Lasting (type_of t a) branch) in
        let here : 0 < occurrences a (nodes t1) =
          Lasting-present nx t1 a
            (IsBranch-Lasting (type_of t1 a) (subst IsBranch (sym ty) branch)) in
        let (ys, e2, l, below) = shared_nodes-Below nx t1 a marked.tree here in
        let (size, fewer) = slice_to_lem k 2 ys two (omega (arith, l, s, enough)) in
        let moved = slice_to k 2 ys in
        let t2 = remove_nodes nx moved t1 in
        let below' = Below-fewer nx t1 a ys moved fewer below in
        let shrunk = remove_nodes-Shrunk nx k a moved t1 marked.tree below' in
        let internal_x : IsBranch (type_of t2 x) =
          subst IsBranch
            (sym (
              (shrunk.kept x (ground (arith, distinct)) (subst Lasting (sym marked.new_type) tt)).0
              ∙ marked.new_type))
            tt in
        let (t3, e3, filled) =
          put_below-Filled nx k x moved t2 shrunk.tree internal_x
            (λ v. ((below' v).0, λ h. omega (arith, shrunk.left v, marked.tree.once v, h))) in
        let absent : occurrences c (nodes t3) ≡ 0 =
          as_many t1 t2 t3 moved size marked below' shrunk filled c ∙ new in
        let (t4, e4, grew) =
          add_shared-Grew nx t3 filled.tree x c
            (x_filled t1 t2 t3 moved size marked below' shrunk filled) absent k in
        (
          t1,
          t3,
          t4,
          ys,
          e1,
          e2,
          e3,
          e4,
          chain-Expanded t1 t2 t3 moved size marked below' shrunk filled t4 grew,
        )

  -- `expand_future` pops the last of the nodes, and leaves the other variables as they are.
  pub expand_future-Expanded :
      (k y : ℕ) (ys : List ℕ) (s : State nx)
      → let x = last y ys in
        let a = s.last_expanded_node in
        2 ≤ k
        → IsTree nx s.tree
        → type_of s.tree x ≡ some unshared
        → IsBranch (type_of s.tree a)
        → k - 2 ≤ shared_out nx s.tree a
        → occurrences s.free_node_label (nodes s.tree) ≡ 0
        → (t : Tree) × (expand_future nx k (y ∷ ys) s
            ≡ ok (record s {
              tree = t;
              future_expanding_nodes = all_but_last y ys;
              expanding_nodes = s.expanding_nodes ++ x ∷ [];
            }))
          × Expanded k a x s.free_node_label s.tree t
  unfolding expand_future
  expand_future-Expanded k y ys s two tree leaf branch enough new =
      let (t1, t3, t4, zs, e1, e2, e3, e4, expanded) =
        steps-Expanded k s.last_expanded_node (last y ys) s.free_node_label s.tree two tree leaf
          branch enough new in
      (t4, rw (e1, e2, e3, e4) refl, expanded)
