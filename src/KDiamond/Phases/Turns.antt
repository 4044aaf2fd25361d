-- ===== src/KDiamond/Phases/Turns.antt =====
-- code3/kdiamond.py: the phases 3 and 4, in which the expanding nodes have their turns.
use brb_partially_connected.Base.{
  ℕ, suc, true, false, ◌+◌, ◌-◌, ◌*◌, ◌≤◌, ◌<◌, ◌≡◌, ◌≢◌, inl, inr, refl, sym, ap, none, some, ◌==◌,
  get_elem?, occurrences, last, occurrences-last, arith,
}
use mathlib.Core.Path.{subst}
use native.Mathlib.Decide.{ℕ_discrete}
use brb_partially_connected.Nx.Tree.{TreeApi}
use brb_partially_connected.KDiamond.Defs.{
  State, phase3, phase4, phase5, replace_shared, phase5_new_shared, phase4_new_shared,
  phase3_new_unshared,
}
use brb_partially_connected.KDiamond.Shape.{out}
use brb_partially_connected.KDiamond.Invariant.{
  Inner, PhaseInv, Sound, Advances, AllInner-grew, AllUnshared-grew,
}
use brb_partially_connected.KDiamond.Phases.Filling.{
  first_below-cases, add_shared-Sound, phase4_chained, phase4_full, phase5-Advances,
}
use brb_partially_connected.KDiamond.Phases.Indices.{get_elem?-end, Option-cases, nonempty}
use brb_partially_connected.KDiamond.Phases.Replacing.{replace-Advances}

module _ (nx : TreeApi) where
  open nx use {Tree, nodes, type_of, successors, in_degree}

  turn_chained :
      (depth k a : ℕ) (s : State nx)
      → get_elem? s.expanding_nodes s.last_expanded_index ≡ some a
      → phase3_new_unshared nx (suc depth) k s ≡ replace_shared nx k a s
  unfolding phase3_new_unshared
  turn_chained depth k a s found = rw (found, phase3_new_unshared) refl

  end_5 :
      (depth k : ℕ) (s : State nx)
      → get_elem? s.expanding_nodes s.last_expanded_index ≡ none
      → suc s.counter_phase3 ≡ k - 1
      → phase3_new_unshared nx (suc depth) k s
        ≡ phase5_new_shared nx k
            (record s { counter_phase3 = suc s.counter_phase3; phase = phase5 })
  unfolding phase3_new_unshared
  end_5 depth k s found last_turn =
      let test : (suc s.counter_phase3 == k - 1) ≡ true = ground (arith, last_turn) in
      rw (found, phase3_new_unshared) (rw test refl)

  end_4 :
      (depth k : ℕ) (s : State nx)
      → get_elem? s.expanding_nodes s.last_expanded_index ≡ none
      → suc s.counter_phase3 ≢ k - 1
      → phase3_new_unshared nx (suc depth) k s
        ≡ phase4_new_shared nx k
            (phase3_new_unshared nx depth k)
            (record s { counter_phase3 = suc s.counter_phase3; phase = phase4 })
  unfolding phase3_new_unshared
  end_4 depth k s found more_turns =
      let test : (suc s.counter_phase3 == k - 1) ≡ false = ground (arith, more_turns) in
      rw (found, phase3_new_unshared) (rw test refl)

  -- A call of `Phase3_newUnshared` at the index 0.
  pub first_turn-Advances :
      (depth k : ℕ) (s : State nx)
      → 3 ≤ k
      → s.phase ≡ phase3
      → s.last_expanded_index ≡ 0
      → Sound nx s.free_node_label s.tree
      → PhaseInv nx k s phase3
      → Advances nx k s (phase3_new_unshared nx (suc depth) k s)
  first_turn-Advances depth k s three phase start sound inv =
      let (y, ys, e) = nonempty s.expanding_nodes inv.0.0 in
      let found : get_elem? s.expanding_nodes s.last_expanded_index ≡ some y =
        subst (λ i. get_elem? s.expanding_nodes i ≡ some y) (sym start)
          (ap (λ xs. get_elem? xs 0) e) in
      subst (Advances nx k s) (sym (turn_chained depth k y s found))
        (replace-Advances nx k y s three phase found sound inv)

  pub phase4-Advances :
      (depth k : ℕ) (s : State nx)
      → 3 ≤ k
      → s.phase ≡ phase4
      → Sound nx s.free_node_label s.tree
      → PhaseInv nx k s phase4
      → Advances nx k s (phase4_new_shared nx k (phase3_new_unshared nx (suc depth) k) s)
  phase4-Advances depth k s three phase sound (some_of, all, leaves, few) =
      let r = s.counter_phase3 in
      elim (first_below-cases nx k s.tree s.expanding_nodes) [
        | inl (u, found, m, lt) ↦
            let c = s.free_node_label in
            let inner = all u m in
            let room : out nx s.tree u + 4 ≤ 2 * k = omega (arith, lt, inner.1) in
            let (t, e, grew, sound') = add_shared-Sound nx k r u c s.tree sound inner in
            let s' = record s { tree = t } in
            (
              s',
              phase4_chained nx k u _ s t found e,
              sound',
              refl,
              subst (PhaseInv nx k s') (sym phase) (
                some_of,
                AllInner-grew nx k r u c s.tree t grew inner room s.expanding_nodes all,
                AllUnshared-grew nx k r u c s.tree t grew inner room s.unshared_leaves leaves,
                few,
              ),
              omega (arith, grew.heavier),
            )
        | inr (found, full) ↦
            let s' = record s { phase = phase3; last_expanded_index = 0 } in
            subst (Advances nx k s) (sym (phase4_full nx k _ s found)) (
              first_turn-Advances depth k s' three refl refl sound (
                some_of,
                (
                  λ u h. absurd (omega (arith, h)),
                  λ u h.
                      let inner = all u h in
                      (inner, omega (arith, full u h, inner.1, inner.4, three)),
                  omega arith,
                  omega arith,
                ),
                leaves,
                few,
              ))
      ]

  pub phase3-Advances :
      (depth k : ℕ) (s : State nx)
      → 3 ≤ k
      → s.phase ≡ phase3
      → Sound nx s.free_node_label s.tree
      → PhaseInv nx k s phase3
      → Advances nx k s (phase3_new_unshared nx (suc (suc depth)) k s)
  phase3-Advances depth k s three phase sound inv =
      let (some_of, (done, todo, inside, enough), leaves, few) = inv in
      let r = s.counter_phase3 in
      elim (Option-cases (get_elem? s.expanding_nodes s.last_expanded_index)) [
        | inl (a, found) ↦
            subst (Advances nx k s) (sym (turn_chained (suc depth) k a s found))
              (replace-Advances nx k a s three phase found sound inv)
        | inr found ↦
            let (l, same) = get_elem?-end s.expanding_nodes s.last_expanded_index found in
            elim (ℕ_discrete (suc r) (k - 1)) [
              | yes last_turn ↦
                  let (x, xs, e) = nonempty s.expanding_nodes some_of.0 in
                  let y = last x xs in
                  let member : 0 < occurrences y s.expanding_nodes =
                    subst (λ us. 0 < occurrences y us) (sym e)
                      (ground (arith, occurrences-last y x xs)) in
                  let (inner, o) = done y (omega (arith, member, same y)) in
                  let s' = record s { counter_phase3 = suc r; phase = phase5 } in
                  subst (Advances nx k s) (sym (end_5 (suc depth) k s found last_turn)) (
                    phase5-Advances nx k s' three refl sound (
                      x,
                      xs,
                      e,
                      subst (λ n. Inner nx k n s.tree y) last_turn inner,
                      omega (arith, o, three),
                      omega (arith, l, some_of.0, enough),
                      leaves,
                    ))
              | no more_turns ↦
                  let s' = record s { counter_phase3 = suc r; phase = phase4 } in
                  subst (Advances nx k s) (sym (end_4 (suc depth) k s found more_turns)) (
                    phase4-Advances depth k s' three refl sound (
                      some_of,
                      λ u h. (done u (omega (arith, h, same u))).0,
                      leaves,
                      omega (arith, few, more_turns),
                    ))
            ]
      ]
