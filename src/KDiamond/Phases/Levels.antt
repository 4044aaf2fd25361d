-- ===== src/KDiamond/Phases/Levels.antt =====
-- code3/kdiamond.py: phase 2, in which a level gets its expanding nodes.
use brb_partially_connected.Base.{
  ℕ, suc, ◌+◌, ◌*◌, ◌≤◌, ◌<◌, ◌≡◌, ◌⊎◌, inl, inr, ⊎_elim, refl, sym, ap, ◌∙◌, List, [], ◌∷◌, ◌++◌,
  none, some, ◌==◌, if◌then◌else◌, length-append, occurrences, occurrences-append, last,
  all_but_last, arith, ok,
}
use mathlib.Core.Path.{subst}
use native.Mathlib.Decide.{ℕ_discrete}
use brb_partially_connected.Nx.Tree.{TreeApi}
use brb_partially_connected.KPasted.Defs.{add_shared}
use brb_partially_connected.KDiamond.Defs.{
  State, phase2, phase3, first_below, expand_future, phase2_new_shared_and_internals,
  phase3_new_unshared,
}
use brb_partially_connected.KDiamond.Shape.{IsBranch, out}
use brb_partially_connected.KDiamond.Expanded.{expand_future-Expanded}
use brb_partially_connected.KDiamond.Invariant.{
  Inner, AllUnshared, PhaseInv, Sound, Advances, Inner-kept, AllInner-grew, AllUnshared-grew,
  Free-more,
}
use brb_partially_connected.KDiamond.Phases.Filling.{first_below-cases, add_shared-Sound}
use brb_partially_connected.KDiamond.Phases.Turns.{first_turn-Advances}
use brb_partially_connected.KDiamond.Phases.Indices.{nonempty}
use brb_partially_connected.KDiamond.Phases.NextLevel.{popped, Inner-expanded, AllUnshared-expanded}

module _ (nx : TreeApi) where
  open nx use {Tree, nodes, type_of, successors, in_degree}

  phase2_fill :
      (depth k u : ℕ) (s : State nx) (t : Tree)
      → first_below nx k s.tree s.expanding_nodes ≡ some u
      → add_shared nx u s.free_node_label s.tree ≡ ok t
      → phase2_new_shared_and_internals nx depth k s
        ≡ ok (record s { tree = t; last_expanded_node = u })
  unfolding phase2_new_shared_and_internals
  phase2_fill depth k u s t found added =
      rw (found, phase2_new_shared_and_internals) (rw added refl)

  phase2_end :
      (depth k : ℕ) (s : State nx)
      → first_below nx k s.tree s.expanding_nodes ≡ none
      → s.future_expanding_nodes ≡ []
      → phase2_new_shared_and_internals nx depth k s
        ≡ phase3_new_unshared nx depth k
            (record s { phase = phase3; counter_phase3 = 0; last_expanded_index = 0 })
  unfolding phase2_new_shared_and_internals
  phase2_end depth k s found e =
      rw (found, phase2_new_shared_and_internals)
        (rw e (
          ap
            (λ us. phase3_new_unshared nx depth k (record s {
              future_expanding_nodes = us;
              phase = phase3;
              counter_phase3 = 0;
              last_expanded_index = 0;
            }))
            e))

  phase2_expand :
      (depth k y : ℕ) (ys : List ℕ) (s : State nx) (t : Tree)
      → first_below nx k s.tree s.expanding_nodes ≡ none
      → s.future_expanding_nodes ≡ y ∷ ys
      → expand_future nx k (y ∷ ys) s
        ≡ ok (record s {
          tree = t;
          future_expanding_nodes = all_but_last y ys;
          expanding_nodes = s.expanding_nodes ++ last y ys ∷ [];
        })
      → phase2_new_shared_and_internals nx depth k s
        ≡ ok (record s {
          tree = t;
          future_expanding_nodes = all_but_last y ys;
          expanding_nodes = s.expanding_nodes ++ last y ys ∷ [];
          last_expanded_node = last y ys;
        })
  unfolding phase2_new_shared_and_internals
  phase2_expand depth k y ys s t found e expanded =
      rw (found, phase2_new_shared_and_internals) (rw (e) (rw expanded refl))

  -- The expanding nodes have as many successors as they may have, and another one joins them.
  phase2_expand-Advances :
      (depth k y : ℕ) (ys : List ℕ) (s : State nx)
      → 3 ≤ k
      → s.phase ≡ phase2
      → first_below nx k s.tree s.expanding_nodes ≡ none
      → s.future_expanding_nodes ≡ y ∷ ys
      → ((u : ℕ) → 0 < occurrences u s.expanding_nodes → out nx s.tree u + 3 ≡ 2 * k)
      → 0 < occurrences s.last_expanded_node s.expanding_nodes
      → Sound nx s.free_node_label s.tree
      → PhaseInv nx k s phase2
      → Advances nx k s (phase2_new_shared_and_internals nx depth k s)
  phase2_expand-Advances depth k y ys s three phase found e full member (tree, free) inv =
      let (some_of, inners, leaves, none_yet, _) = inv in
      let a = s.last_expanded_node in
      let c = s.free_node_label in
      let x = last y ys in
      let all : AllUnshared nx s.tree (y ∷ ys) = subst (AllUnshared nx s.tree) e leaves in
      let (ty, deg, parts, least, most) = inners a member in
      let branch : IsBranch (type_of s.tree a) = subst IsBranch (sym ty) tt in
      let x_leaf = (popped nx s.tree y ys all).0 in
      let (t, e', expanded) =
        expand_future-Expanded nx k y ys s (omega (arith, three)) tree x_leaf branch
          (omega (arith, parts, full a member)) (free c (omega arith)) in
      let s' = record s {
        tree = t;
        future_expanding_nodes = all_but_last y ys;
        expanding_nodes = s.expanding_nodes ++ x ∷ [];
        last_expanded_node = x;
      } in
      let joined : (u : ℕ)
          → occurrences u s'.expanding_nodes
            ≡ occurrences u s.expanding_nodes + (if x == u then 1 else 0) =
        λ u. omega (arith, occurrences-append u s.expanding_nodes (x ∷ [])) in
      let inner = Inner-expanded nx k a c y ys s.tree t three expanded branch all in
      let inner_a : Inner nx k 0 t a = (
        expanded.last_type ∙ ty,
        expanded.last_degree ∙ deg,
        omega (arith, parts, expanded.last_out, expanded.last_shared),
        omega (arith, full a member, expanded.last_out),
        omega (arith, most, expanded.last_out),
      ) in
      let is_new : occurrences x s.expanding_nodes ≡ 0 =
        elim (ℕ_discrete (occurrences x s.expanding_nodes) 0) [
          | yes none_of ↦ none_of
          | no ne ↦ absurd (subst IsBranch (sym (inners x (omega (arith, ne))).0 ∙ x_leaf) tt)
        ] in
      (
        s',
        phase2_expand depth k y ys s t found e e',
        (expanded.tree, Free-more nx c s.tree t (λ u. omega (arith, expanded.more u)) free),
        refl,
        subst (PhaseInv nx k s') (sym phase) (
          (
            omega (arith, length-append s.expanding_nodes (x ∷ [])),
            λ u. elim (ℕ_discrete x u) [
              | yes same ↦ ground (
                arith,
                joined u,
                same,
                subst (λ v. occurrences v s.expanding_nodes ≡ 0) same is_new,
              )
              | no ne ↦ ground (arith, joined u, ne, some_of.1 u)
            ],
          ),
          λ u h. elim (ℕ_discrete x u) [
            | yes same ↦ subst (Inner nx k 0 t) same inner
            | no ne ↦ elim (ℕ_discrete a u) [
              | yes same ↦ subst (Inner nx k 0 t) same inner_a
              | no ne' ↦
                  (Inner-kept nx k 0 (a ∷ x ∷ []) s.tree t u expanded.kept (ground (arith, ne, ne'))
                    (inners u (ground (arith, h, joined u, ne)))).0
            ]
          ],
          AllUnshared-expanded nx k a c y ys s.tree t three expanded branch all,
          none_yet,
          inl (ground (arith, joined x)),
        ),
        expanded.heavier,
      )

  List-cases : (xs : List ℕ) → (xs ≡ []) ⊎ ((y : ℕ) × (ys : List ℕ) × (xs ≡ y ∷ ys))
  List-cases [] = inl refl
  List-cases (y ∷ ys) = inr (y, ys, refl)

  pub phase2-Advances :
      (depth k : ℕ) (s : State nx)
      → 3 ≤ k
      → s.phase ≡ phase2
      → Sound nx s.free_node_label s.tree
      → PhaseInv nx k s phase2
      → Advances nx k s (phase2_new_shared_and_internals nx (suc depth) k s)
  phase2-Advances depth k s three phase sound inv =
      let (some_of, inners, leaves, none_yet, where_last) = inv in
      elim (first_below-cases nx k s.tree s.expanding_nodes) [
        | inl (u, found, m, lt) ↦
            let c = s.free_node_label in
            let inner = inners u m in
            let room : out nx s.tree u + 4 ≤ 2 * k = omega (arith, lt, inner.1) in
            let (t, e, grew, sound') = add_shared-Sound nx k 0 u c s.tree sound inner in
            let s' = record s { tree = t; last_expanded_node = u } in
            (
              s',
              phase2_fill (suc depth) k u s t found e,
              sound',
              refl,
              subst (PhaseInv nx k s') (sym phase) (
                some_of,
                AllInner-grew nx k 0 u c s.tree t grew inner room s.expanding_nodes inners,
                AllUnshared-grew nx k 0 u c s.tree t grew inner room s.future_expanding_nodes
                    leaves,
                none_yet,
                inl m,
              ),
              omega (arith, grew.heavier),
            )
        | inr (found, above) ↦
            let full : (u : ℕ) → 0 < occurrences u s.expanding_nodes → out nx s.tree u + 3 ≡ 2 * k =
              λ u h. let inner = inners u h in omega (arith, above u h, inner.1, inner.4, three) in
            elim (List-cases s.future_expanding_nodes) [
              | inl e ↦
                  let s' = record s {
                    phase = phase3;
                    counter_phase3 = 0;
                    last_expanded_index = 0;
                  } in
                  subst (Advances nx k s) (sym (phase2_end (suc depth) k s found e)) (
                    first_turn-Advances nx depth k s' three refl refl sound (
                      some_of,
                      (
                        λ u h. absurd (omega (arith, h)),
                        λ u h. (inners u h, full u h),
                        omega arith,
                        omega arith,
                      ),
                      subst (AllUnshared nx s.tree) (sym none_yet)
                          (λ u. (omega arith, λ h. absurd (omega (arith, h)))),
                      omega (arith, three),
                    ))
              | inr (y, ys, e) ↦
                  let (z, zs, e2) = nonempty s.expanding_nodes some_of.0 in
                  let first : 0 < occurrences z s.expanding_nodes =
                    subst (λ us. 0 < occurrences z us) (sym e2) (ground arith) in
                  phase2_expand-Advances (suc depth) k y ys s three phase found e full
                    (⊎_elim (λ m. m)
                      (λ small. absurd (omega (arith, small z first, full z first, three)))
                      where_last)
                    sound inv
            ]
      ]
