-- ===== src/KDiamond/Phases/Filling.antt =====
-- code3/kdiamond.py: the rounds in which an expanding node gets a new shared leaf.
use brb_partially_connected.Base.{
  ℕ, suc, true, false, ◌+◌, ◌-◌, ◌≤◌, ◌<◌, ◌≡◌, ◌⊎◌, inl, inr, refl, sym, List, [], ◌∷◌, none, some,
  ◌==◌, ltb, if◌then◌else◌, occurrences, last, arith, Result, ok,
}
use mathlib.Core.Path.{subst}
use native.Mathlib.Decide.{ℕ_discrete, dec_lt}
use brb_partially_connected.Nx.Tree.{TreeApi, shared, degree}
use brb_partially_connected.KPasted.Defs.{add_shared}
use brb_partially_connected.KDiamond.Defs.{
  State, Phase, phase1, phase3, phase5, first_below, phase5_new_shared, phase4_new_shared,
}
use brb_partially_connected.KDiamond.Shape.{IsBranch}
use brb_partially_connected.KDiamond.Added.{Grew, add_shared-Grew}
use brb_partially_connected.KDiamond.Invariant.{
  Inner, PhaseInv, Sound, Advances, Inner-grew, AllUnshared-grew, Free-more,
}

module _ (nx : TreeApi) where
  open nx use {Tree, nodes, type_of, successors, in_degree}

  pub first_below-cases :
      (k : ℕ) (t : Tree) (us : List ℕ)
      → ((u : ℕ) × (first_below nx k t us ≡ some u)
          × (0 < occurrences u us)
          × (degree nx t u < k + k - 2))
        ⊎ ((first_below nx k t us ≡ none)
            × ((u : ℕ) → 0 < occurrences u us → k + k - 2 ≤ degree nx t u))
  unfolding first_below
  first_below-cases k t [] = inr (refl, λ u h. absurd (omega (arith, h)))
  first_below-cases k t (x ∷ us) = elim (dec_lt (degree nx t x) (k + k - 2)) [
    | yes lt ↦
        let test : ltb (degree nx t x) (k + k - 2) ≡ true = ground (arith, lt) in
        inl (x, rw test refl, ground arith, lt)
    | no ge ↦
        let test : ltb (degree nx t x) (k + k - 2) ≡ false = ground (arith, ge) in
        elim (first_below-cases k t us) [
          | inl (u, e, m, lt) ↦ inl (u, rw test e, omega (arith, m), lt)
          | inr (e, all) ↦ inr (
            rw test e,
            λ u h. elim (ℕ_discrete x u) [
              | yes same ↦ subst (λ v. k + k - 2 ≤ degree nx t v) same (omega (arith, ge))
              | no ne ↦ all u (ground (arith, h, ne))
            ],
          )
        ]
  ]

  -- A new shared leaf below an inner node.
  pub add_shared-Sound :
      (k n a c : ℕ) (t : Tree)
      → Sound nx c t
      → Inner nx k n t a
      → (t' : Tree) × (add_shared nx a c t ≡ ok t')
        × Grew nx k shared a c t t'
        × Sound nx (suc c) t'
  add_shared-Sound k n a c t (tree, free) inner =
      let (t', e, grew) =
        add_shared-Grew nx t tree a c (subst IsBranch (sym inner.0) tt) (free c (omega arith)) k in
      (t', e, grew, (grew.tree, Free-more nx c t t' (λ u. omega (arith, grew.more u)) free))

  phase5_chained :
      (k x : ℕ) (xs : List ℕ) (s : State nx) (t : Tree) (p : Phase)
      → s.expanding_nodes ≡ x ∷ xs
      → ltb (degree nx s.tree (last x xs)) (k + k - 2) ≡ true
      → add_shared nx (last x xs) s.free_node_label s.tree ≡ ok t
      → (if degree nx t (last x xs) == k + k - 2 then phase1 else s.phase) ≡ p
      → phase5_new_shared nx k s
        ≡ ok (record s { tree = t; last_expanded_node = last x xs; phase = p })
  unfolding phase5_new_shared
  phase5_chained k x xs s t p e test added next = rw (e, test, added, next) refl

  pub phase5-Advances :
      (k : ℕ) (s : State nx)
      → 3 ≤ k
      → s.phase ≡ phase5
      → Sound nx s.free_node_label s.tree
      → PhaseInv nx k s phase5
      → Advances nx k s (phase5_new_shared nx k s)
  phase5-Advances k s three phase sound (x, xs, e, inner, room, some_of, unshared) =
      let a = last x xs in
      let c = s.free_node_label in
      let (t, added, grew, sound') = add_shared-Sound k (k - 1) a c s.tree sound inner in
      let inner' = Inner-grew nx k (k - 1) a c s.tree t grew inner room in
      let unshared' =
        AllUnshared-grew nx k (k - 1) a c s.tree t grew inner room s.unshared_leaves unshared in
      let test : ltb (degree nx s.tree a) (k + k - 2) ≡ true = ground (arith, inner.1, room) in
      elim (ℕ_discrete (degree nx t a) (k + k - 2)) [
        | yes full ↦
            let next : (if degree nx t a == k + k - 2 then phase1 else s.phase) ≡ phase1 =
              ground (arith, full) in
            (
              record s { tree = t; last_expanded_node = a; phase = phase1 },
              phase5_chained k x xs s t phase1 e test added next,
              sound',
              refl,
              (
                subst IsBranch (sym inner'.0) tt,
                omega (arith, inner'.1, inner'.2, full),
                some_of,
                unshared',
              ),
              omega (arith, grew.heavier),
            )
        | no more ↦
            let next : (if degree nx t a == k + k - 2 then phase1 else s.phase) ≡ phase5 =
              ground (arith, more, phase) in
            (
              record s { tree = t; last_expanded_node = a; phase = phase5 },
              phase5_chained k x xs s t phase5 e test added next,
              sound',
              refl,
              (x, xs, e, inner', omega (arith, inner'.1, inner'.4, more), some_of, unshared'),
              omega (arith, grew.heavier),
            )
      ]

  pub phase4_chained :
      (k u : ℕ) (again : State nx → Result (State nx)) (s : State nx) (t : Tree)
      → first_below nx k s.tree s.expanding_nodes ≡ some u
      → add_shared nx u s.free_node_label s.tree ≡ ok t
      → phase4_new_shared nx k again s ≡ ok (record s { tree = t })
  unfolding phase4_new_shared
  phase4_chained k u again s t found added = rw (found, phase4_new_shared) (rw added refl)

  pub phase4_full :
      (k : ℕ) (again : State nx → Result (State nx)) (s : State nx)
      → first_below nx k s.tree s.expanding_nodes ≡ none
      → phase4_new_shared nx k again s
        ≡ again (record s { phase = phase3; last_expanded_index = 0 })
  unfolding phase4_new_shared
  phase4_full k again s found = rw (found, phase4_new_shared) refl
