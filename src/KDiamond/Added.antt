-- ===== src/KDiamond/Added.antt =====
-- code3/kdiamond.py: the numbers of leaves below the nodes after a new leaf.
use brb_partially_connected.Base.{
  ℕ, suc, ◌+◌, ◌<◌, ◌≡◌, ◌≢◌, sym, ap, ◌∙◌, List, [], ◌∷◌, ◌++◌, Option, none, some, ◌==◌,
  if◌then◌else◌, length, length-append, occurrences, weigh, weigh-append, weigh-agree,
  occurrences-append, arith, ok,
}
use mathlib.Core.Path.{subst}
use native.Mathlib.Decide.{ℕ_discrete}
use brb_partially_connected.Nx.Tree.{TreeApi, NodeType, root, shared, internal, unshared}
use brb_partially_connected.KPasted.Defs.{set_node_type, add_shared}
use brb_partially_connected.KPasted.Leaves.{weight, weight_of}
use brb_partially_connected.KDiamond.Defs.{add_unshared}
use brb_partially_connected.KDiamond.Shape.{
  shared_one, IsBranch, IsTree, out, shared_out, Adds, set_node_type-Adds, differ, new_parent,
  occurrences-leaf, IsTree-leaf,
}

-- The types of the nodes that are not moved.
abbrev pub Lasting : Option NodeType → Type 0
Lasting none = ⊥
Lasting (some shared) = ⊥
Lasting (some _) = Unit

pub IsBranch-Lasting : (ty : Option NodeType) → IsBranch ty → Lasting ty
IsBranch-Lasting none b = b
IsBranch-Lasting (some root) b = b
IsBranch-Lasting (some shared) b = b
IsBranch-Lasting (some internal) b = b
IsBranch-Lasting (some unshared) b = absurd b

module _ (nx : TreeApi) where
  open nx use {Tree, nodes, type_of, successors, in_degree, add_edge}

  -- Nothing about the node has changed.
  abbrev pub Same : Tree → Tree → ℕ → Type 0
  Same t t' u =
      (type_of t' u ≡ type_of t u)
      × (in_degree t' u ≡ in_degree t u)
      × (out nx t' u ≡ out nx t u)
      × (shared_out nx t' u ≡ shared_out nx t u)

  -- Nothing has changed about the nodes of lasting types that are not in the list.
  abbrev pub Kept : List ℕ → Tree → Tree → Type 0
  Kept us t t' = (u : ℕ) → occurrences u us ≡ 0 → Lasting (type_of t u) → Same t t' u

  pub Kept-trans : (us : List ℕ) (t t' t'' : Tree) → Kept us t t' → Kept us t' t'' → Kept us t t''
  Kept-trans us t t' t'' kept kept' u away lasting =
      let (ty, deg, o, s) = kept u away lasting in
      let (ty', deg', o', s') = kept' u away (subst Lasting (sym ty) lasting) in
      (ty' ∙ ty, deg' ∙ deg, o' ∙ o, s' ∙ s)

  pub Lasting-present : (t : Tree) (u : ℕ) → Lasting (type_of t u) → 0 < occurrences u (nodes t)
  Lasting-present t u lasting = elim (ℕ_discrete (occurrences u (nodes t)) 0) [
    | yes absent ↦ absurd (subst Lasting (nx.type_of-absent t u absent) lasting)
    | no ne ↦ omega (arith, ne)
  ]

  -- What a new leaf `c` below `a` makes of the tree.
  pub record Grew (k : ℕ) (ty : NodeType) (a c : ℕ) (t t' : Tree) : Type 0 where
    pub tree : IsTree nx t'
    pub kept : Kept (a ∷ []) t t'
    pub parent_type : type_of t' a ≡ type_of t a
    pub parent_degree : in_degree t' a ≡ in_degree t a
    pub parent_out : out nx t' a ≡ suc (out nx t a)
    pub parent_shared : shared_out nx t' a ≡ shared_out nx t a + shared_one (some ty)
    pub heavier : weight nx k t' ≡ weight nx k t + weight_of k (some ty)
    pub leaf_type : type_of t' c ≡ some ty
    pub leaf_degree : in_degree t' c ≡ 1
    pub children :
        (u : ℕ)
        → occurrences u (successors t' a)
          ≡ occurrences u (successors t a) + (if c == u then 1 else 0)
    pub old_type : (u : ℕ) → c ≢ u → type_of t' u ≡ type_of t u
    pub more :
        (u : ℕ) → occurrences u (nodes t') ≡ occurrences u (nodes t) + (if c == u then 1 else 0)

  module _ (t : Tree) (tree : IsTree nx t) (a c : ℕ) (branch : IsBranch (type_of t a))
      (new : occurrences c (nodes t) ≡ 0) where
    parent_here : 0 < occurrences a (nodes t)
    parent_here = Lasting-present t a (IsBranch-Lasting (type_of t a) branch)

    module _ (ty : NodeType) (t' : Tree) (adds : Adds nx ty a c t t') where
      shared_out-old :
          (u : ℕ) → weigh (λ v. shared_one (type_of t' v)) (successors t u) ≡ shared_out nx t u
      shared_out-old u =
          weigh-agree (λ v. shared_one (type_of t' v)) (λ v. shared_one (type_of t v))
            (successors t u)
            (λ v h. ap shared_one (
              rw (adds.1 v)
                (ground (arith, differ nx t tree a c parent_here new ty t' adds u v h))))

      Same-leaf : (u : ℕ) → a ≢ u → c ≢ u → Same t t' u
      Same-leaf u ne ne' =
          let kept : successors t' u ≡ successors t u = rw (adds.2 u) (ground (arith, ne)) in
          (
            rw (adds.1 u) (ground (arith, ne')),
            rw (adds.3 u) (ground (arith, ne')),
            ap length kept,
            ap (weigh (λ v. shared_one (type_of t' v))) kept ∙ shared_out-old u,
          )

      weight-leaf : (k : ℕ) → weight nx k t' ≡ weight nx k t + weight_of k (some ty)
      weight-leaf k =
          let w : ℕ → ℕ = λ u. weight_of k (type_of t' u) in
          let absent : (u : ℕ) → 0 < occurrences u (nodes t) → c ≢ u =
            λ u h e. absurd (omega (arith, h, new, ap (λ x. occurrences x (nodes t)) e)) in
          let same =
            weigh-agree w (λ u. weight_of k (type_of t u)) (nodes t)
              (λ u m. ap (weight_of k) (rw (adds.1 u) (ground (arith, absent u m)))) in
          let leaf : type_of t' c ≡ some ty = rw (adds.1 c) (ground arith) in
          let last : w c ≡ weight_of k (some ty) = ap (weight_of k) leaf in
          rw (adds.0, weigh-append w (nodes t) (c ∷ []), same) (omega (arith, last))

      Adds-Grew : (k : ℕ) → Grew k ty a c t t'
      Adds-Grew k =
          let ne = new_parent nx t tree a c parent_here new ty t' adds in
          let more : successors t' a ≡ successors t a ++ c ∷ [] = rw (adds.2 a) (ground arith) in
          let leaf : type_of t' c ≡ some ty = rw (adds.1 c) (ground arith) in
          let one : shared_one (type_of t' c) ≡ shared_one (some ty) = ap shared_one leaf in
          record {
            tree = IsTree-leaf nx t tree a c parent_here new ty t' adds branch;
            kept = λ u away lasting. Same-leaf u (ground (arith, away)) (λ e. absurd (
                omega
                  (arith, new, Lasting-present t u lasting, ap (λ x. occurrences x (nodes t)) e)));
            parent_type = rw (adds.1 a) (ground (arith, ne));
            parent_degree = rw (adds.3 a) (ground (arith, ne));
            parent_out = ap length more ∙ omega (arith, length-append (successors t a) (c ∷ []));
            parent_shared =
                ap (weigh (λ v. shared_one (type_of t' v))) more
                ∙ weigh-append (λ v. shared_one (type_of t' v)) (successors t a) (c ∷ [])
                ∙ omega (arith, shared_out-old a, one);
            heavier = weight-leaf k;
            leaf_type = leaf;
            leaf_degree = rw (adds.3 c) (ground arith);
            children = λ u.
                ap (occurrences u) more
                ∙ omega (arith, occurrences-append u (successors t a) (c ∷ []));
            old_type = λ u ne'. rw (adds.1 u) (ground (arith, ne'));
            more = occurrences-leaf nx t tree a c parent_here new ty t' adds;
          }

    pub set_node_type-Grew :
        (k : ℕ) (ty : NodeType)
        → (t' : Tree) × (set_node_type nx c ty (add_edge a c t) ≡ ok t') × Grew k ty a c t t'
    set_node_type-Grew k ty =
        let (t', e, adds) = set_node_type-Adds nx t tree a c parent_here new ty in
        (t', e, Adds-Grew ty t' adds k)

    pub add_shared-Grew :
        (k : ℕ) → (t' : Tree) × (add_shared nx a c t ≡ ok t') × Grew k shared a c t t'
    unfolding add_shared
    add_shared-Grew k = set_node_type-Grew k shared

    pub add_unshared-Grew :
        (k : ℕ) → (t' : Tree) × (add_unshared nx a c t ≡ ok t') × Grew k unshared a c t t'
    unfolding add_unshared
    add_unshared-Grew k = set_node_type-Grew k unshared
