-- ===== src/KDiamond/Phases/Replacing.antt =====
-- code3/kdiamond.py: a turn of phase 3.
use brb_partially_connected.Base.{
  ℕ, suc, ◌-◌, ◌≤◌, ◌≡◌, ◌≢◌, refl, sym, ◌∙◌, [], ◌∷◌, ◌++◌, some, length-append, get_elem?,
  occurrences-take-drop, arith,
}
use mathlib.Core.Path.{subst}
use native.Mathlib.Decide.{ℕ_discrete}
use brb_partially_connected.Nx.Tree.{TreeApi}
use brb_partially_connected.KDiamond.Defs.{State, phase3, replace_shared}
use brb_partially_connected.KDiamond.Shape.{IsBranch, out}
use brb_partially_connected.KDiamond.Replaced.{replace_shared-Replaced}
use brb_partially_connected.KDiamond.Invariant.{
  Inner, HalfReplaced, PhaseInv, Sound, Advances, Inner-kept, AllUnshared-branch, Free-more,
}
use brb_partially_connected.KDiamond.Phases.Indices.{
  get_elem?-turn, AllUnshared-append, label-absent,
}

module _ (nx : TreeApi) where
  open nx use {Tree, nodes, type_of, successors, in_degree}

  pub replace-Advances :
      (k a : ℕ) (s : State nx)
      → 3 ≤ k
      → s.phase ≡ phase3
      → get_elem? s.expanding_nodes s.last_expanded_index ≡ some a
      → Sound nx s.free_node_label s.tree
      → PhaseInv nx k s phase3
      → Advances nx k s (replace_shared nx k a s)
  replace-Advances k a s three phase found (tree, free)
        (some_of, (done, todo, _, enough), leaves, few) =
      let c = s.free_node_label in
      let r = s.counter_phase3 in
      let i = s.last_expanded_index in
      let (inside, before, after) = get_elem?-turn s.expanding_nodes i a found in
      let (inner, full) = todo a (ground (arith, after a)) in
      let branch : IsBranch (type_of s.tree a) = subst IsBranch (sym inner.0) tt in
      let new = free c (omega arith) in
      let (t, e, replaced) =
        replace_shared-Replaced nx k a s (omega (arith, three)) tree branch
          (omega (arith, full, inner.2, few)) new in
      let inner' : Inner nx k (suc r) t a × (out nx t a ≡ k - 1) = (
        (
          replaced.parent_type ∙ inner.0,
          replaced.parent_degree ∙ inner.1,
          omega (arith, replaced.parent_out, replaced.parent_shared, inner.2, three),
          omega (arith, replaced.parent_out, full, three),
          omega (arith, replaced.parent_out, full, three),
        ),
        omega (arith, replaced.parent_out, full, three),
      ) in
      let s' = record s {
        tree = t;
        unshared_leaves = s.unshared_leaves ++ c ∷ [];
        last_expanded_index = suc i;
      } in
      let half : HalfReplaced nx k s' = (
        λ u h. elim (ℕ_discrete a u) [
          | yes same ↦ subst (λ v. Inner nx k (suc r) t v × (out nx t v ≡ k - 1)) same inner'
          | no ne ↦
              let (old, o) = done u (ground (arith, h, before u, ne)) in
              let (kept, o') =
                Inner-kept nx k (suc r) (a ∷ []) s.tree t u replaced.kept (ground (arith, ne))
                  old in
              (kept, o' ∙ o)
        ],
        λ u h.
            let ne : a ≢ u = λ same. absurd (
              ground (
                arith,
                same,
                h,
                after u,
                some_of.1 u,
                occurrences-take-drop u i s.expanding_nodes,
              )) in
            let (old, o) = todo u (ground (arith, h, after u)) in
            let (kept, o') =
              Inner-kept nx k r (a ∷ []) s.tree t u replaced.kept (ground (arith, ne)) old in
            (kept, omega (arith, o, o')),
        inside,
        omega (arith, enough, length-append s.unshared_leaves (c ∷ [])),
      ) in
      let unshared' =
        AllUnshared-append nx t s.unshared_leaves c
          (AllUnshared-branch nx a s.unshared_leaves s.tree t replaced.kept branch leaves)
          (label-absent nx s.tree s.unshared_leaves c leaves new) replaced.leaf_type
          replaced.leaf_degree in
      (
        s',
        e,
        (replaced.tree, Free-more nx c s.tree t replaced.more free),
        refl,
        subst (PhaseInv nx k s') (sym phase) (some_of, half, unshared', few),
        replaced.heavier,
      )
