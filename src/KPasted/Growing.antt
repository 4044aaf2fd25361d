-- ===== src/KPasted/Growing.antt =====
-- code3/kpasted.py: the expanding node gets new leaves.
use brb_partially_connected.Base.{
  ℕ, zero, suc, ◌+◌, ◌≤◌, ◌≡◌, refl, [], ◌∷◌, ◌++◌, occurrences, length, length-append,
  occurrences-append, arith, ok,
}
use native.Mathlib.Decide.{ℕ_discrete}
use brb_partially_connected.Nx.Tree.{TreeApi}
use brb_partially_connected.KPasted.Defs.{add_shared, add_leaves}
use brb_partially_connected.KPasted.Leaves.{
  weight, IsInner, Leaves, grown, IsInner-grown, Leaves-grown, nodes-grown, successors-grown,
  weight-grown, add_shared-grown,
}
use brb_partially_connected.KPasted.Pruned.{Leaves-fewer}

module _ (nx : TreeApi) where
  open nx use {Tree, nodes, successors}

  -- The node `a` is an inner one of the given in-degree, its successors and the nodes that `F` counts
  -- are distinct leaves, and the labels from `c` on are free.
  abbrev pub Expanding : Tree → (a d : ℕ) → (ℕ → ℕ) → (c : ℕ) → Type 0
  Expanding t a d F c =
      IsInner nx t a d
      × Leaves nx t (λ u. occurrences u (successors t a) + F u)
      × ((u : ℕ) → c ≤ u → occurrences u (nodes t) ≡ 0)

  -- What a number of new leaves below `a` makes of `t`.
  abbrev pub Gains : (k : ℕ) → Tree → (a rounds : ℕ) → Tree → Type 0
  Gains k t a rounds t' =
      (length (successors t' a) ≡ length (successors t a) + rounds)
      × (weight nx k t' ≡ weight nx k t + rounds)

  pub add_shared-Expanding :
      (k : ℕ) (t : Tree) (a d : ℕ) (F : ℕ → ℕ) (c : ℕ)
      → Expanding t a d F c
      → (t' : Tree) × (add_shared nx a c t ≡ ok t') × Expanding t' a d F (suc c) × Gains k t a 1 t'
  add_shared-Expanding k t a d F c (inner, leaves, free) =
      let new = free c (omega arith) in
      let here = inner.0 in
      let none_yet : occurrences c (successors t a) ≡ 0 =
        elim (ℕ_discrete (occurrences c (successors t a)) 0) [
          | yes none_of ↦ none_of
          | no some_of ↦ absurd (omega (arith, ((leaves c).1 (omega (arith, some_of))).0))
        ] in
      let more : successors (grown nx a c t) a ≡ successors t a ++ c ∷ [] =
        rw (successors-grown nx t a c here new a) (ground arith) in
      (
        grown nx a c t,
        add_shared-grown nx t a c here new,
        (
          IsInner-grown nx t a c d inner new none_yet,
          Leaves-fewer nx (grown nx a c t) _ _
              (λ u. rw (more, occurrences-append u (successors t a) (c ∷ [])) (ground arith))
              (Leaves-grown nx t a c d inner new none_yet _ leaves),
          λ u le.
              rw (nodes-grown nx t a c here new, occurrences-append u (nodes t) (c ∷ []))
                (ground (arith, free u)),
        ),
        (
          rw (more, length-append (successors t a) (c ∷ [])) refl,
          omega (arith, weight-grown nx t a c here new k),
        ),
      )

  pub add_leaves-Expanding :
      (k rounds : ℕ) (t : Tree) (a d : ℕ) (F : ℕ → ℕ) (c : ℕ)
      → Expanding t a d F c
      → (t' : Tree) × (add_leaves nx rounds a c t ≡ ok t')
        × Expanding t' a d F (c + rounds)
        × Gains k t a rounds t'
  unfolding add_leaves
  add_leaves-Expanding k zero t a d F c (inner, leaves, free) =
      (t, refl, (inner, leaves, λ u le. free u (omega arith)), (omega arith, omega arith))
  add_leaves-Expanding k (suc rounds) t a d F c good =
      let (t1, e1, good1, gains1) = add_shared-Expanding k t a d F c good in
      let (t2, e2, (inner, leaves, free), gains2) =
        add_leaves-Expanding k rounds t1 a d F (suc c) good1 in
      (
        t2,
        rw e1 e2,
        (inner, leaves, λ u le. free u (omega arith)),
        (omega (arith, gains1, gains2), omega (arith, gains1, gains2)),
      )
