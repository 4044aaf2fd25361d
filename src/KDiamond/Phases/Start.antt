-- ===== src/KDiamond/Phases/Start.antt =====
-- code3/kdiamond.py: phase 0, in which the root is expanded.
use brb_partially_connected.Base.{
  ℕ, true, false, ◌+◌, ◌-◌, ◌≤◌, ◌<◌, ◌≡◌, ◌≢◌, refl, sym, ap, ◌∙◌, List, [], ◌∷◌, ◌++◌, ltb, leb,
  length, length-append, occurrences, occurrences-append, arith, ok,
}
use mathlib.Core.Path.{subst}
use native.Mathlib.Decide.{ℕ_discrete, dec_lt}
use brb_partially_connected.Nx.Tree.{TreeApi, NodeType, shared, unshared, degree}
use brb_partially_connected.KPasted.Defs.{add_shared}
use brb_partially_connected.KDiamond.Defs.{
  State, phase0, phase1, pop_shared, add_unshared, phase0_expand_root, phase1_go_to_next_level,
}
use brb_partially_connected.KDiamond.Shape.{IsBranch, IsTree, shared_out}
use brb_partially_connected.KDiamond.Added.{Grew, add_shared-Grew, add_unshared-Grew}
use brb_partially_connected.KDiamond.Removed.{Below}
use brb_partially_connected.KDiamond.Popped.{pop_shared-Shrunk}
use brb_partially_connected.KDiamond.Invariant.{
  PhaseInv, Sound, Advances, AllUnshared-branch, Free-more,
}
use brb_partially_connected.KDiamond.Phases.Indices.{AllUnshared-append, label-absent}
use brb_partially_connected.KDiamond.Phases.NextLevel.{phase1-Advances}

module _ (nx : TreeApi) where
  open nx use {Tree, nodes, type_of, successors, in_degree}

  -- Leaves stay where they are when another one is added.
  Below-Grew :
      (k c : ℕ) (ty : NodeType) (t t' : Tree) (us : List ℕ)
      → IsTree nx t
      → occurrences c (nodes t) ≡ 0
      → Grew nx k ty 0 c t t'
      → Below nx t 0 us
      → Below nx t' 0 us × (occurrences c us ≡ 0)
  Below-Grew k c ty t t' us tree new grew below =
      let absent : (v : ℕ) → 0 < occurrences v us → c ≢ v = λ v h e. absurd (
        omega
          (arith, new, tree.closed 0 v ((below v).1 h).0, ap (λ x. occurrences x (nodes t)) e)) in
      (
        λ v. (
          (below v).0,
          λ h. (
            omega (arith, grew.children v, ((below v).1 h).0),
            grew.old_type v (absent v h) ∙ ((below v).1 h).1,
          ),
        ),
        elim (ℕ_discrete (occurrences c us) 0) [
          | yes e ↦ e
          | no ne ↦ absurd (absent c (omega (arith, ne)) refl)
        ],
      )

  fill_chained :
      (k : ℕ) (s : State nx) (t : Tree)
      → s.expanding_nodes ≡ 0 ∷ []
      → ltb (degree nx s.tree 0) (k + k - 2) ≡ true
      → add_shared nx 0 s.free_node_label s.tree ≡ ok t
      → phase0_expand_root nx k s
        ≡ ok (record s { tree = t; shared_leaves = s.shared_leaves ++ s.free_node_label ∷ [] })
  unfolding phase0_expand_root
  fill_chained k s t e test added = rw (e, test, added) refl

  pop_chained :
      (k : ℕ) (s : State nx) (t t' : Tree) (rest : List ℕ)
      → s.expanding_nodes ≡ 0 ∷ []
      → ltb (degree nx s.tree 0) (k + k - 2) ≡ false
      → leb (k - 1) (length s.shared_leaves) ≡ true
      → pop_shared nx (k - 1) s.shared_leaves s.tree ≡ ok (rest, t)
      → add_unshared nx 0 s.free_node_label t ≡ ok t'
      → phase0_expand_root nx k s
        ≡ ok (record s {
          tree = t';
          shared_leaves = rest;
          unshared_leaves = s.unshared_leaves ++ s.free_node_label ∷ [];
        })
  unfolding phase0_expand_root
  pop_chained k s t t' rest e test test' popped added = rw (e, test, test', popped, added) refl

  end_chained :
      (k : ℕ) (s : State nx)
      → s.expanding_nodes ≡ 0 ∷ []
      → ltb (degree nx s.tree 0) (k + k - 2) ≡ false
      → leb (k - 1) (length s.shared_leaves) ≡ false
      → phase0_expand_root nx k s ≡ phase1_go_to_next_level nx k (record s { phase = phase1 })
  unfolding phase0_expand_root
  end_chained k s e test test' =
      rw (e, test, test')
        (ap (λ us. phase1_go_to_next_level nx k (record s { expanding_nodes = us; phase = phase1 }))
          e)

  module _ (k : ℕ) (s : State nx) (three : 3 ≤ k) (phase : s.phase ≡ phase0)
      (sound : Sound nx s.free_node_label s.tree) (inv : PhaseInv nx k s phase0) where
    is_root : IsBranch (type_of s.tree 0)
    is_root = subst IsBranch (sym inv.2) tt

    new_label : occurrences s.free_node_label (nodes s.tree) ≡ 0
    new_label = sound.1 s.free_node_label (omega arith)

    phase0_fill : degree nx s.tree 0 < k + k - 2 → Advances nx k s (phase0_expand_root nx k s)
    phase0_fill lt =
        let (e, last, ty, deg, below, l, parts, least, most, few, leaves) = inv in
        let c = s.free_node_label in
        let (t, added, grew) = add_shared-Grew nx s.tree sound.0 0 c is_root new_label k in
        let (below', absent) =
          Below-Grew k c shared s.tree t s.shared_leaves sound.0 new_label grew below in
        let s' = record s { tree = t; shared_leaves = s.shared_leaves ++ c ∷ [] } in
        let test : ltb (degree nx s.tree 0) (k + k - 2) ≡ true = ground (arith, lt) in
        (
          s',
          fill_chained k s t e test added,
          (grew.tree, Free-more nx c s.tree t (λ u. omega (arith, grew.more u)) sound.1),
          refl,
          subst (PhaseInv nx k s') (sym phase) (
            e,
            last,
            grew.parent_type ∙ ty,
            grew.parent_degree ∙ deg,
            λ v.
                let sum = occurrences-append v s.shared_leaves (c ∷ []) in
                elim (ℕ_discrete c v) [
                  | yes same ↦ (
                    ground (
                      arith,
                      sum,
                      same,
                      subst (λ u. occurrences u s.shared_leaves ≡ 0) same absent,
                    ),
                    λ h. (
                      ground (arith, grew.children v, same),
                      ap (type_of t) (sym same) ∙ grew.leaf_type,
                    ),
                  )
                  | no ne ↦ (
                    ground (arith, sum, ne, (below v).0),
                    λ h. (below' v).1 (ground (arith, sum, ne, h)),
                  )
                ],
            omega (arith, l, grew.parent_shared, length-append s.shared_leaves (c ∷ [])),
            omega (arith, parts, grew.parent_out, grew.parent_shared),
            omega (arith, least, grew.parent_out),
            omega (arith, lt, deg, grew.parent_out),
            few,
            AllUnshared-branch nx 0 s.unshared_leaves s.tree t grew.kept is_root leaves,
          ),
          omega (arith, grew.heavier),
        )

    phase0_pop :
        k + k - 2 ≤ degree nx s.tree 0
        → k - 1 ≤ length s.shared_leaves
        → Advances nx k s (phase0_expand_root nx k s)
    phase0_pop ge many =
        let (e, last, ty, deg, below, l, parts, least, most, few, leaves) = inv in
        let c = s.free_node_label in
        let (gone, rest, t, popped, shrunk, below1, size, sizes) =
          pop_shared-Shrunk nx k 0 (k - 1) s.shared_leaves s.tree sound.0 below many in
        let new : occurrences c (nodes t) ≡ 0 = omega (arith, shrunk.left c, new_label) in
        let (t', added, grew) =
          add_unshared-Grew nx t shrunk.tree 0 c (subst IsBranch (sym shrunk.parent_type) is_root)
            new k in
        let below2 = (Below-Grew k c unshared t t' rest shrunk.tree new grew below1).0 in
        let kept1 = AllUnshared-branch nx 0 s.unshared_leaves s.tree t shrunk.kept is_root leaves in
        let kept2 =
          AllUnshared-branch nx 0 s.unshared_leaves t t' grew.kept
            (subst IsBranch (sym shrunk.parent_type) is_root) kept1 in
        let s' = record s {
          tree = t';
          shared_leaves = rest;
          unshared_leaves = s.unshared_leaves ++ c ∷ [];
        } in
        let test : ltb (degree nx s.tree 0) (k + k - 2) ≡ false = ground (arith, ge) in
        let test' : leb (k - 1) (length s.shared_leaves) ≡ true = ground (arith, many) in
        let more = length-append s.unshared_leaves (c ∷ []) in
        (
          s',
          pop_chained k s t t' rest e test test' popped added,
          (
            grew.tree,
            Free-more nx c s.tree t' (λ u. omega (arith, grew.more u, shrunk.left u)) sound.1,
          ),
          refl,
          subst (PhaseInv nx k s') (sym phase) (
            e,
            last,
            grew.parent_type ∙ shrunk.parent_type ∙ ty,
            grew.parent_degree ∙ shrunk.parent_degree ∙ deg,
            below2,
            omega (arith, l, grew.parent_shared, shrunk.parent_shared, size, sizes),
            omega (
              arith, parts, grew.parent_out, grew.parent_shared, shrunk.parent_out,
              shrunk.parent_shared, more,
            ),
            omega (arith, ge, deg, grew.parent_out, shrunk.parent_out, size, three),
            omega (arith, most, grew.parent_out, shrunk.parent_out, size, three),
            omega (arith, parts, most, l, many, more, three),
            AllUnshared-append nx t' s.unshared_leaves c kept2
                (label-absent nx t s.unshared_leaves c kept1 new) grew.leaf_type grew.leaf_degree,
          ),
          omega (arith, grew.heavier, shrunk.lighter, size, three),
        )

    phase0_end :
        k + k - 2 ≤ degree nx s.tree 0
        → length s.shared_leaves < k - 1
        → Advances nx k s (phase0_expand_root nx k s)
    phase0_end ge few_left =
        let (e, last, ty, deg, below, l, parts, least, most, few, leaves) = inv in
        let test : ltb (degree nx s.tree 0) (k + k - 2) ≡ false = ground (arith, ge) in
        let test' : leb (k - 1) (length s.shared_leaves) ≡ false = ground (arith, few_left) in
        subst (Advances nx k s) (sym (end_chained k s e test test')) (
          phase1-Advances nx k (record s { phase = phase1 }) three sound
            (
              subst (λ a. IsBranch (type_of s.tree a)) (sym last) is_root,
              subst (λ a. k - 2 ≤ shared_out nx s.tree a) (sym last)
                  (omega (arith, ge, deg, parts, few)),
              omega (arith, ge, deg, parts, l, few_left, three),
              leaves,
            ))

    pub phase0-Advances : Advances nx k s (phase0_expand_root nx k s)
    phase0-Advances = elim (dec_lt (degree nx s.tree 0) (k + k - 2)) [
      | yes lt ↦ phase0_fill lt
      | no ge ↦ elim (dec_lt (length s.shared_leaves) (k - 1)) [
        | yes few_left ↦ phase0_end (omega (arith, ge)) few_left
        | no many ↦ phase0_pop (omega (arith, ge)) (omega (arith, many))
      ]
    ]
