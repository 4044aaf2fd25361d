-- ===== src/KPasted/Leaves.antt =====
-- code3/kpasted.py: what the operations on the tree do to its leaves and to its weight, the number of
-- nodes of the pasted graph: a shared leaf stands for one node and any other node for k.
use brb_partially_connected.Base.{
  ℕ, suc, ◌+◌, ◌≤◌, ◌<◌, ◌≡◌, ◌≢◌, refl, ap, ◌∙◌, [], ◌∷◌, ◌++◌, Option, none, some, ◌==◌,
  if◌then◌else◌, occurrences, add_new, weigh, weigh-append, weigh-agree, occurrences-append, arith,
  ok,
}
use native.Mathlib.Decide.{ℕ_discrete}
use brb_partially_connected.Nx.Tree.{TreeApi, NodeType, shared}
use brb_partially_connected.KPasted.Defs.{set_node_type, add_shared}

abbrev pub weight_of : ℕ → Option NodeType → ℕ
weight_of k none = k
weight_of k (some shared) = 1
weight_of k (some _) = k

-- One if the numbers are equal.
abbrev pub one_at : ℕ → ℕ → ℕ
one_at a u = if a == u then 1 else 0

module _ (nx : TreeApi) where
  open nx use {Tree, nodes, type_of, successors, in_degree, add_edge, set_type, remove_node}

  abbrev pub weight : ℕ → Tree → ℕ
  weight k t = weigh (λ u. weight_of k (type_of t u)) (nodes t)

  abbrev pub IsLeaf : Tree → ℕ → Type 0
  IsLeaf t u =
      (occurrences u (nodes t) ≡ 1)
      × (type_of t u ≡ some shared)
      × (successors t u ≡ [])
      × (in_degree t u ≡ 1)

  -- The nodes that `F` counts are leaves, and it counts each once.
  abbrev pub Leaves : Tree → (ℕ → ℕ) → Type 0
  Leaves t F = (u : ℕ) → (F u ≤ 1) × (0 < F u → IsLeaf t u)

  abbrev pub IsInner : Tree → (u d : ℕ) → Type 0
  IsInner t u d = (occurrences u (nodes t) ≡ 1) × (type_of t u ≢ some shared) × (in_degree t u ≡ d)

  -- The tree after a new leaf `c` is put below `a`.
  abbrev pub grown : (a c : ℕ) → Tree → Tree
  grown a c t = set_type c shared (add_edge a c t)

  module _ (t : Tree) (a c : ℕ) (here : occurrences a (nodes t) ≡ 1)
      (new : occurrences c (nodes t) ≡ 0) where
    nodes-add_edge_new : nodes (add_edge a c t) ≡ nodes t ++ c ∷ []
    nodes-add_edge_new =
        let old : add_new a (nodes t) ≡ nodes t = ground arith in
        rw (nx.nodes-add_edge a c t, old) (ground arith)

    pub nodes-grown : nodes (grown a c t) ≡ nodes t ++ c ∷ []
    nodes-grown =
        let there : 0 < occurrences c (nodes (add_edge a c t)) =
          rw (nodes-add_edge_new, occurrences-append c (nodes t) (c ∷ [])) (ground arith) in
        rw (nx.nodes-set_type c shared (add_edge a c t) there) nodes-add_edge_new

    type_of-grown :
        (u : ℕ) → type_of (grown a c t) u ≡ (if c == u then some shared else type_of t u)
    type_of-grown u =
        let there : 0 < occurrences c (nodes (add_edge a c t)) =
          rw (nodes-add_edge_new, occurrences-append c (nodes t) (c ∷ [])) (ground arith) in
        rw (nx.type_of-set_type c shared (add_edge a c t) u there, nx.type_of-add_edge a c t u) refl

    pub successors-grown :
        (u : ℕ)
        → successors (grown a c t) u
          ≡ (if a == u then add_new c (successors t u) else successors t u)
    successors-grown u =
        rw (nx.successors-set_type c shared (add_edge a c t) u, nx.successors-add_edge a c t u) refl

    in_degree-grown :
        (u : ℕ)
        → occurrences c (successors t a) ≡ 0
        → in_degree (grown a c t) u ≡ (if c == u then 1 else in_degree t u)
    in_degree-grown u none_yet =
        rw (nx.in_degree-set_type c shared (add_edge a c t) u, nx.in_degree-add_edge a c t u)
          (ground (arith, nx.in_degree-absent t u))

    pub add_shared-grown : add_shared nx a c t ≡ ok (grown a c t)
    unfolding add_shared set_node_type
    add_shared-grown =
        let there : 0 < occurrences c (nodes (add_edge a c t)) =
          rw (nodes-add_edge_new, occurrences-append c (nodes t) (c ∷ [])) (ground arith) in
        ground arith

    pub weight-grown : (k : ℕ) → weight k (grown a c t) ≡ suc (weight k t)
    weight-grown k =
        let w : ℕ → ℕ = λ u. weight_of k (type_of (grown a c t) u) in
        let same =
          weigh-agree w (λ u. weight_of k (type_of t u)) (nodes t)
            (λ u m. rw (type_of-grown u) (ground arith)) in
        let last : w c ≡ 1 = rw (type_of-grown c) (ground arith) in
        rw (nodes-grown, weigh-append w (nodes t) (c ∷ []), same, last) (omega arith)

  module _ (t : Tree) (a c d : ℕ) (inner : IsInner t a d) (new : occurrences c (nodes t) ≡ 0)
      (none_yet : occurrences c (successors t a) ≡ 0) where
    apart : c ≢ a
    apart e =
        let same : occurrences c (nodes t) ≡ occurrences a (nodes t) =
          ap (λ u. occurrences u (nodes t)) e in
        absurd (omega (arith, inner.0))

    pub IsInner-grown : IsInner (grown a c t) a d
    IsInner-grown =
        let (here, ty, deg) = inner in
        (
          rw (nodes-grown t a c here new, occurrences-append a (nodes t) (c ∷ []))
              (ground (arith, apart)),
          rw (type_of-grown t a c here new a) (ground (arith, apart)),
          rw (in_degree-grown t a c here new a none_yet) (ground (arith, apart)),
        )

    IsLeaf-grown : (u : ℕ) → c ≢ u → IsLeaf t u → IsLeaf (grown a c t) u
    IsLeaf-grown u other (here, ty, succs, deg) =
        let not_inner : a ≢ u = λ e. inner.1 (ap (type_of t) e ∙ ty) in
        (
          rw (nodes-grown t a c inner.0 new, occurrences-append u (nodes t) (c ∷ []))
              (ground (arith, other)),
          rw (type_of-grown t a c inner.0 new u) (ground (arith, other)),
          rw (successors-grown t a c inner.0 new u) (ground (arith, not_inner)),
          rw (in_degree-grown t a c inner.0 new u none_yet) (ground (arith, other)),
        )

    IsLeaf-grown_new : IsLeaf (grown a c t) c
    IsLeaf-grown_new = (
      rw (nodes-grown t a c inner.0 new, occurrences-append c (nodes t) (c ∷ [])) (ground arith),
      rw (type_of-grown t a c inner.0 new c) (ground arith),
      rw (successors-grown t a c inner.0 new c, nx.successors-absent t c new)
          (ground (arith, apart)),
      rw (in_degree-grown t a c inner.0 new c none_yet) (ground arith),
    )

    pub Leaves-grown : (F : ℕ → ℕ) → Leaves t F → Leaves (grown a c t) (λ u. F u + one_at c u)
    Leaves-grown F leaves u = elim (ℕ_discrete c u) [
      | yes e ↦
          let uncounted : F c ≡ 0 = elim (ℕ_discrete (F c) 0) [
            | yes none_of ↦ none_of
            | no some_of ↦ absurd (omega (arith, ((leaves c).1 (omega (arith, some_of))).0))
          ] in
          rw (← e) (ground arith, λ some_of. IsLeaf-grown_new)
      | no ne ↦ (
        ground (arith, (leaves u).0, ne),
        λ some_of. IsLeaf-grown u ne ((leaves u).1 (ground (arith, some_of, ne))),
      )
    ]
