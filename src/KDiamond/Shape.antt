-- ===== src/KDiamond/Shape.antt =====
-- code3/kdiamond.py: the shape that its trees have, and what a new leaf does to it.
use brb_partially_connected.Base.{
  ℕ, true, false, ◌+◌, ◌≤◌, ◌<◌, ◌≡◌, ◌≢◌, refl, ap, ◌∙◌, ◌⊎◌, inl, inr, ⊎_elim, [], ◌∷◌, ◌++◌,
  Option, none, some, ◌==◌, if◌then◌else◌, length, occurrences, add_new, weigh, occurrences-append,
  arith, ok,
}
use mathlib.Core.Path.{subst}
use native.Mathlib.Decide.{ℕ_discrete}
use brb_partially_connected.Nx.Tree.{TreeApi, NodeType, root, shared, internal}
use brb_partially_connected.KPasted.Defs.{set_node_type}
use brb_partially_connected.KPasted.Typed.{IsTyped}

abbrev pub shared_one : Option NodeType → ℕ
shared_one none = 0
shared_one (some shared) = 1
shared_one (some _) = 0

abbrev pub IsBranch : Option NodeType → Type 0
IsBranch none = ⊥
IsBranch (some root) = Unit
IsBranch (some internal) = Unit
IsBranch (some _) = ⊥

pub record IsTree (nx : TreeApi) (t : nx.Tree) : Type 0 where
  pub once : (u : ℕ) → occurrences u (nx.nodes t) ≤ 1
  pub typed : (u : ℕ) → 0 < occurrences u (nx.nodes t) → IsTyped (nx.type_of t u)
  pub leaves : (u : ℕ) → IsBranch (nx.type_of t u) ⊎ (nx.successors t u ≡ [])
  pub apart : (u v : ℕ) → occurrences v (nx.successors t u) ≤ 1
  pub closed : (u v : ℕ) → 0 < occurrences v (nx.successors t u) → 0 < occurrences v (nx.nodes t)
  pub one_parent :
      (u u' v : ℕ)
      → 0 < occurrences v (nx.successors t u)
      → 0 < occurrences v (nx.successors t u')
      → u ≡ u'
  pub degree_one : (u v : ℕ) → 0 < occurrences v (nx.successors t u) → nx.in_degree t v ≡ 1

module _ (nx : TreeApi) where
  open nx use {Tree, nodes, type_of, successors, in_degree, add_edge, set_type, remove_node}

  -- How many successors a node has, and how many of them are shared.
  abbrev pub out : Tree → ℕ → ℕ
  out t u = length (successors t u)

  abbrev pub shared_out : Tree → ℕ → ℕ
  shared_out t u = weigh (λ v. shared_one (type_of t v)) (successors t u)

  -- The tree `t'` is `t` with a new leaf `c` below `a`.
  abbrev pub Adds : NodeType → (a c : ℕ) → Tree → Tree → Type 0
  Adds ty a c t t' =
      (nodes t' ≡ nodes t ++ c ∷ [])
      × ((u : ℕ) → type_of t' u ≡ (if c == u then some ty else type_of t u))
      × ((u : ℕ) → successors t' u ≡ (if a == u then successors t u ++ c ∷ [] else successors t u))
      × ((u : ℕ) → in_degree t' u ≡ (if c == u then 1 else in_degree t u))

  module _ (t : Tree) (tree : IsTree nx t) (a c : ℕ) (here : 0 < occurrences a (nodes t))
      (new : occurrences c (nodes t) ≡ 0) where
    pub no_successor : (u : ℕ) → occurrences c (successors t u) ≡ 0
    no_successor u = elim (ℕ_discrete (occurrences c (successors t u)) 0) [
      | yes e ↦ e
      | no ne ↦ absurd (omega (arith, new, tree.closed u c (omega (arith, ne))))
    ]

    nodes-add_edge_leaf : nodes (add_edge a c t) ≡ nodes t ++ c ∷ []
    nodes-add_edge_leaf =
        let old : add_new a (nodes t) ≡ nodes t = ground arith in
        rw (nx.nodes-add_edge a c t, old) (ground arith)

    leaf_there : 0 < occurrences c (nodes (add_edge a c t))
    leaf_there = rw (nodes-add_edge_leaf, occurrences-append c (nodes t) (c ∷ [])) (ground arith)

    pub set_node_type-Adds :
        (ty : NodeType)
        → (t' : Tree) × (set_node_type nx c ty (add_edge a c t) ≡ ok t') × Adds ty a c t t'
    unfolding set_node_type
    set_node_type-Adds ty = (
      set_type c ty (add_edge a c t),
      ground (arith, leaf_there),
      (
        nx.nodes-set_type c ty (add_edge a c t) leaf_there ∙ nodes-add_edge_leaf,
        λ u.
            rw (nx.type_of-set_type c ty (add_edge a c t) u leaf_there, nx.type_of-add_edge a c t u)
              refl,
        λ u.
            rw (nx.successors-set_type c ty (add_edge a c t) u, nx.successors-add_edge a c t u)
              (ground (arith, no_successor u)),
        λ u.
            rw (nx.in_degree-set_type c ty (add_edge a c t) u, nx.in_degree-add_edge a c t u)
              (ground (arith, nx.in_degree-absent t u, no_successor a)),
      ),
    )

    module _ (ty : NodeType) (t' : Tree) (adds : Adds ty a c t t') where
      pub differ : (u v : ℕ) → 0 < occurrences v (successors t u) → c ≢ v
      differ u v h e =
          absurd (omega (arith, h, no_successor u, ap (λ x. occurrences x (successors t u)) e))

      pub new_parent : a ≢ c
      new_parent e = absurd (omega (arith, here, new, ap (λ x. occurrences x (nodes t)) e))

      pub occurrences-leaf :
          (u : ℕ) → occurrences u (nodes t') ≡ occurrences u (nodes t) + (if c == u then 1 else 0)
      occurrences-leaf u = rw (adds.0, occurrences-append u (nodes t) (c ∷ [])) (ground arith)

      occurrences-successors :
          (u v : ℕ)
          → occurrences v (successors t' u)
            ≡ occurrences v (successors t u) + (if a == u then (if c == v then 1 else 0) else 0)
      occurrences-successors u v =
          rw (adds.2 u) (ground (arith, occurrences-append v (successors t u) (c ∷ [])))

      pub IsTree-leaf : IsBranch (type_of t a) → IsTree nx t'
      IsTree-leaf branch = record {
        once = λ u. ground (arith, tree.once u, occurrences-leaf u, new);
        typed = λ u h. rw (adds.1 u) (elim (ℕ_discrete c u) [
          | yes e ↦ let same : (c == u) ≡ true = ground (arith, e) in rw same tt
          | no ne ↦
              let other : (c == u) ≡ false = ground (arith, ne) in
              rw other (tree.typed u (ground (arith, h, occurrences-leaf u, ne)))
        ]);
        leaves = λ u. elim (ℕ_discrete c u) [
          | yes e ↦
              inr (rw (adds.2 u) (ground (arith, e, new_parent, nx.successors-absent t c new)))
          | no ne ↦ elim (ℕ_discrete a u) [
            | yes e ↦
                let other : (c == u) ≡ false = ground (arith, ne) in
                inl (rw (adds.1 u, other) (subst (λ x. IsBranch (type_of t x)) e branch))
            | no ne' ↦
                ⊎_elim
                  (λ b.
                    let other : (c == u) ≡ false = ground (arith, ne) in
                    inl (rw (adds.1 u, other) b))
                  (λ e. inr (rw (adds.2 u) (ground (arith, e, ne')))) (tree.leaves u)
          ]
        ];
        apart = λ u v. ground (arith, occurrences-successors u v, tree.apart u v, no_successor u);
        closed = λ u v h.
            ground (arith, occurrences-successors u v, tree.closed u v, occurrences-leaf v, h);
        one_parent = λ u u' v h h'. ground (
          arith,
          occurrences-successors u v,
          occurrences-successors u' v,
          h,
          h',
          no_successor u,
          no_successor u',
          tree.one_parent u u' v,
        );
        degree_one = λ u v h.
            rw (adds.3 v) (ground (arith, h, occurrences-successors u v, tree.degree_one u v));
      }
