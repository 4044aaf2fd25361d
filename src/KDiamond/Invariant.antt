-- ===== src/KDiamond/Invariant.antt =====
-- code3/kdiamond.py: what holds in each phase.
use brb_partially_connected.Base.{
  ℕ, suc, ◌+◌, ◌-◌, ◌*◌, ◌≤◌, ◌<◌, ◌≡◌, ◌⊎◌, sym, ◌∙◌, List, [], ◌∷◌, some, ◌==◌, if◌then◌else◌,
  length, take, drop, occurrences, last, arith, Result, ok,
}
use mathlib.Core.Path.{subst}
use native.Mathlib.Decide.{ℕ_discrete}
use brb_partially_connected.Nx.Tree.{TreeApi, root, shared, internal, unshared}
use brb_partially_connected.KPasted.Leaves.{weight}
use brb_partially_connected.KDiamond.Defs.{
  State, Phase, phase0, phase1, phase2, phase3, phase4, phase5,
}
use brb_partially_connected.KDiamond.Shape.{IsBranch, IsTree, out, shared_out}
use brb_partially_connected.KDiamond.Added.{Lasting, Kept, Grew}
use brb_partially_connected.KDiamond.Removed.{Below}

module _ (nx : TreeApi) where
  open nx use {Tree, nodes, type_of, successors, in_degree}

  -- An internal node with `n` successors that are not shared, and the fewest successors at least.
  abbrev pub Inner : (k n : ℕ) → Tree → ℕ → Type 0
  Inner k n t u =
      (type_of t u ≡ some internal)
      × (in_degree t u ≡ 1)
      × (out nx t u ≡ shared_out nx t u + n)
      × (k - 1 ≤ out nx t u)
      × (out nx t u + 3 ≤ 2 * k)

  abbrev pub AllInner : (k n : ℕ) → Tree → List ℕ → Type 0
  AllInner k n t us = (u : ℕ) → 0 < occurrences u us → Inner k n t u

  -- Distinct unshared leaves.
  abbrev pub AllUnshared : Tree → List ℕ → Type 0
  AllUnshared t us =
      (u : ℕ)
      → (occurrences u us ≤ 1)
        × (0 < occurrences u us → (type_of t u ≡ some unshared) × (in_degree t u ≡ 1))

  abbrev pub Free : ℕ → Tree → Type 0
  Free c t = (u : ℕ) → c ≤ u → occurrences u (nodes t) ≡ 0

  -- In phase 3, the nodes before the index have had their turn.
  abbrev pub HalfReplaced : (k : ℕ) → State nx → Type 0
  HalfReplaced k s =
      let r = s.counter_phase3 in
      let i = s.last_expanded_index in
      ((u : ℕ)
        → 0 < occurrences u (take i s.expanding_nodes)
        → Inner k (suc r) s.tree u × (out nx s.tree u ≡ k - 1))
      × ((u : ℕ)
          → 0 < occurrences u (drop i s.expanding_nodes)
          → Inner k r s.tree u × (out nx s.tree u + 3 ≡ 2 * k))
      × (i ≤ length s.expanding_nodes)
      × (i ≤ length s.unshared_leaves)

  -- The expanding nodes of the phases 2 to 4.
  abbrev pub SomeNodes : State nx → Type 0
  SomeNodes s = (0 < length s.expanding_nodes) × ((u : ℕ) → occurrences u s.expanding_nodes ≤ 1)

  abbrev pub PhaseInv : (k : ℕ) → State nx → Phase → Type 0
  PhaseInv k s phase0 =
      (s.expanding_nodes ≡ 0 ∷ [])
      × (s.last_expanded_node ≡ 0)
      × (type_of s.tree 0 ≡ some root)
      × (in_degree s.tree 0 ≡ 0)
      × Below nx s.tree 0 s.shared_leaves
      × (length s.shared_leaves ≡ shared_out nx s.tree 0)
      × (out nx s.tree 0 ≡ shared_out nx s.tree 0 + length s.unshared_leaves)
      × (k ≤ out nx s.tree 0)
      × (out nx s.tree 0 + 2 ≤ 2 * k)
      × (length s.unshared_leaves ≤ k)
      × AllUnshared s.tree s.unshared_leaves
  PhaseInv k s phase1 =
      IsBranch (type_of s.tree s.last_expanded_node)
      × (k - 2 ≤ shared_out nx s.tree s.last_expanded_node)
      × (0 < length s.unshared_leaves)
      × AllUnshared s.tree s.unshared_leaves
  PhaseInv k s phase2 =
      SomeNodes s
      × AllInner k 0 s.tree s.expanding_nodes
      × AllUnshared s.tree s.future_expanding_nodes
      × (s.unshared_leaves ≡ [])
      × ((0 < occurrences s.last_expanded_node s.expanding_nodes)
          ⊎ ((u : ℕ) → 0 < occurrences u s.expanding_nodes → out nx s.tree u ≡ k - 1))
  PhaseInv k s phase3 =
      SomeNodes s
      × HalfReplaced k s
      × AllUnshared s.tree s.unshared_leaves
      × (s.counter_phase3 + 2 ≤ k)
  PhaseInv k s phase4 =
      SomeNodes s
      × AllInner k s.counter_phase3 s.tree s.expanding_nodes
      × AllUnshared s.tree s.unshared_leaves
      × (s.counter_phase3 + 2 ≤ k)
  PhaseInv k s phase5 =
      (x : ℕ) × (xs : List ℕ) × (s.expanding_nodes ≡ x ∷ xs)
      × Inner k (k - 1) s.tree (last x xs)
      × (out nx s.tree (last x xs) + 4 ≤ 2 * k)
      × (0 < length s.unshared_leaves)
      × AllUnshared s.tree s.unshared_leaves

  -- The tree has its shape, and the labels from `c` on are free.
  abbrev pub Sound : (c : ℕ) → Tree → Type 0
  Sound c t = IsTree nx t × Free c t

  -- A round leads to a state for which the invariant holds, and which stands for one node more.
  abbrev pub Advances : (k : ℕ) → State nx → Result (State nx) → Type 0
  Advances k s result =
      (s' : State nx) × (result ≡ ok s')
      × Sound (suc s.free_node_label) s'.tree
      × (s'.free_node_label ≡ s.free_node_label)
      × PhaseInv k s' s'.phase
      × (weight nx k s'.tree ≡ suc (weight nx k s.tree))

  -- A node with successors is none of them.
  pub branch-absent :
      (t : Tree) (us : List ℕ) (a : ℕ)
      → AllUnshared t us
      → IsBranch (type_of t a)
      → occurrences a us ≡ 0
  branch-absent t us a all branch = elim (ℕ_discrete (occurrences a us) 0) [
    | yes e ↦ e
    | no ne ↦ absurd (subst IsBranch ((all a).1 (omega (arith, ne))).0 branch)
  ]

  -- A list of other nodes is as it was.
  pub AllUnshared-kept :
      (us vs : List ℕ) (t t' : Tree)
      → Kept nx us t t'
      → ((u : ℕ) → 0 < occurrences u us → occurrences u vs ≡ 0)
      → AllUnshared t vs
      → AllUnshared t' vs
  AllUnshared-kept us vs t t' kept others all u = (
    (all u).0,
    λ h.
        let (ty, deg) = (all u).1 h in
        let away : occurrences u us ≡ 0 = elim (ℕ_discrete (occurrences u us) 0) [
          | yes e ↦ e
          | no ne ↦ absurd (omega (arith, h, others u (omega (arith, ne))))
        ] in
        let (ty', deg', _, _) = kept u away (subst Lasting (sym ty) tt) in (ty' ∙ ty, deg' ∙ deg),
  )

  pub AllUnshared-branch :
      (a : ℕ) (vs : List ℕ) (t t' : Tree)
      → Kept nx (a ∷ []) t t'
      → IsBranch (type_of t a)
      → AllUnshared t vs
      → AllUnshared t' vs
  AllUnshared-branch a vs t t' kept branch all =
      AllUnshared-kept (a ∷ []) vs t t' kept
        (λ u h. ground (arith, h, branch-absent t vs a all branch)) all

  pub Inner-kept :
      (k n : ℕ) (us : List ℕ) (t t' : Tree) (u : ℕ)
      → Kept nx us t t'
      → occurrences u us ≡ 0
      → Inner k n t u
      → Inner k n t' u × (out nx t' u ≡ out nx t u)
  Inner-kept k n us t t' u kept away (ty, deg, parts, least, most) =
      let (ty', deg', o, sh) = kept u away (subst Lasting (sym ty) tt) in
      (
        (
          ty' ∙ ty,
          deg' ∙ deg,
          omega (arith, parts, o, sh),
          omega (arith, least, o),
          omega (arith, most, o),
        ),
        o,
      )

  module _ (k n a c : ℕ) (t t' : Tree) (grew : Grew nx k shared a c t t') (inner : Inner k n t a)
      (room : out nx t a + 4 ≤ 2 * k) where
    pub Inner-grew : Inner k n t' a
    Inner-grew =
        let (ty, deg, parts, least, most) = inner in
        (
          grew.parent_type ∙ ty,
          grew.parent_degree ∙ deg,
          omega (arith, parts, grew.parent_out, grew.parent_shared),
          omega (arith, least, grew.parent_out),
          omega (arith, room, grew.parent_out),
        )

    pub AllInner-grew : (us : List ℕ) → AllInner k n t us → AllInner k n t' us
    AllInner-grew us all u h = elim (ℕ_discrete a u) [
      | yes e ↦ subst (Inner k n t') e Inner-grew
      | no ne ↦ (Inner-kept k n (a ∷ []) t t' u grew.kept (ground (arith, ne)) (all u h)).0
    ]

    pub AllUnshared-grew : (us : List ℕ) → AllUnshared t us → AllUnshared t' us
    AllUnshared-grew us = AllUnshared-branch a us t t' grew.kept (subst IsBranch (sym inner.0) tt)

  pub Free-more :
      (c : ℕ) (t t' : Tree)
      → ((u : ℕ) → occurrences u (nodes t') ≤ occurrences u (nodes t) + (if c == u then 1 else 0))
      → Free c t
      → Free (suc c) t'
  Free-more c t t' more free u le = ground (arith, more u, free u, le)
