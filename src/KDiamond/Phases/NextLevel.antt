-- ===== src/KDiamond/Phases/NextLevel.antt =====
-- code3/kdiamond.py: the next expanding node, and phase 1.
use brb_partially_connected.Base.{
  ℕ, ◌-◌, ◌≤◌, ◌≡◌, inr, refl, ◌∙◌, List, [], ◌∷◌, some, occurrences, last, all_but_last,
  occurrences-last, arith, ok,
}
use mathlib.Core.Path.{subst}
use native.Mathlib.Decide.{ℕ_discrete}
use brb_partially_connected.Nx.Tree.{TreeApi, unshared}
use brb_partially_connected.KDiamond.Defs.{
  State, phase1, phase2, expand_future, phase1_go_to_next_level,
}
use brb_partially_connected.KDiamond.Shape.{IsBranch, out}
use brb_partially_connected.KDiamond.Expanded.{Expanded, expand_future-Expanded}
use brb_partially_connected.KDiamond.Invariant.{
  Inner, AllUnshared, PhaseInv, Sound, Advances, branch-absent, AllUnshared-kept, Free-more,
}
use brb_partially_connected.KDiamond.Phases.Indices.{nonempty}

module _ (nx : TreeApi) where
  open nx use {Tree, nodes, type_of, successors, in_degree}

  -- The popped node is an unshared leaf, and it is none of the others.
  pub popped :
      (t : Tree) (y : ℕ) (ys : List ℕ)
      → AllUnshared nx t (y ∷ ys)
      → (type_of t (last y ys) ≡ some unshared)
        × (in_degree t (last y ys) ≡ 1)
        × (occurrences (last y ys) (all_but_last y ys) ≡ 0)
        × AllUnshared nx t (all_but_last y ys)
  popped t y ys all =
      let x = last y ys in
      let (ty, deg) = (all x).1 (ground (arith, occurrences-last x y ys)) in
      (
        ty,
        deg,
        ground (arith, occurrences-last x y ys, (all x).0),
        λ u. (
          omega (arith, occurrences-last u y ys, (all u).0),
          λ h. (all u).1 (omega (arith, occurrences-last u y ys, h)),
        ),
      )

  module _ (k a c y : ℕ) (ys : List ℕ) (t t' : Tree) (three : 3 ≤ k)
      (expanded : Expanded nx k a (last y ys) c t t') (branch : IsBranch (type_of t a))
      (all : AllUnshared nx t (y ∷ ys)) where
    pub Inner-expanded : Inner nx k 0 t' (last y ys)
    Inner-expanded =
        let (ty, deg, _, _) = popped t y ys all in
        (
          expanded.new_type,
          expanded.new_degree ∙ deg,
          omega (arith, expanded.new_out, expanded.new_shared),
          omega (arith, expanded.new_out),
          omega (arith, expanded.new_out, three),
        )

    pub AllUnshared-expanded : AllUnshared nx t' (all_but_last y ys)
    AllUnshared-expanded =
        let (_, _, gone, rest) = popped t y ys all in
        AllUnshared-kept nx (a ∷ last y ys ∷ []) (all_but_last y ys) t t' expanded.kept
          (λ u h. elim (ℕ_discrete a u) [
            | yes e ↦
                subst (λ v. occurrences v (all_but_last y ys) ≡ 0) e
                  (branch-absent nx t (all_but_last y ys) a rest branch)
            | no ne ↦
                subst (λ v. occurrences v (all_but_last y ys) ≡ 0) (ground (arith, h, ne)) gone
          ])
          rest

  phase1_chained :
      (k y : ℕ) (ys : List ℕ) (s : State nx) (t : Tree)
      → s.unshared_leaves ≡ y ∷ ys
      → expand_future nx k (y ∷ ys) (record s { unshared_leaves = []; expanding_nodes = [] })
        ≡ ok (record s {
          tree = t;
          unshared_leaves = [];
          future_expanding_nodes = all_but_last y ys;
          expanding_nodes = last y ys ∷ [];
        })
      → phase1_go_to_next_level nx k s
        ≡ ok (record s {
          tree = t;
          unshared_leaves = [];
          future_expanding_nodes = all_but_last y ys;
          expanding_nodes = last y ys ∷ [];
          phase = phase2;
        })
  unfolding phase1_go_to_next_level
  phase1_chained k y ys s t e expanded = rw (e, expanded) refl

  pub phase1-Advances :
      (k : ℕ) (s : State nx)
      → 3 ≤ k
      → Sound nx s.free_node_label s.tree
      → PhaseInv nx k s phase1
      → Advances nx k s (phase1_go_to_next_level nx k s)
  phase1-Advances k s three (tree, free) (branch, enough, some_of, leaves) =
      let (y, ys, e) = nonempty s.unshared_leaves some_of in
      let a = s.last_expanded_node in
      let c = s.free_node_label in
      let x = last y ys in
      let all : AllUnshared nx s.tree (y ∷ ys) = subst (AllUnshared nx s.tree) e leaves in
      let s0 = record s { unshared_leaves = []; expanding_nodes = [] } in
      let (t, e', expanded) =
        expand_future-Expanded nx k y ys s0 (omega (arith, three)) tree (popped s.tree y ys all).0
          branch enough (free c (omega arith)) in
      let inner = Inner-expanded k a c y ys s.tree t three expanded branch all in
      (
        record s {
          tree = t;
          unshared_leaves = [];
          future_expanding_nodes = all_but_last y ys;
          expanding_nodes = x ∷ [];
          phase = phase2;
        },
        phase1_chained k y ys s t e e',
        (expanded.tree, Free-more nx c s.tree t (λ u. omega (arith, expanded.more u)) free),
        refl,
        (
          (omega arith, λ u. ground arith),
          λ u h. subst (Inner nx k 0 t) (ground (arith, h)) inner,
          AllUnshared-expanded k a c y ys s.tree t three expanded branch all,
          refl,
          inr (λ u h. subst (λ v. out nx t v ≡ k - 1) (ground (arith, h)) expanded.new_out),
        ),
        expanded.heavier,
      )
