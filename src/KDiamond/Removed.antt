-- ===== src/KDiamond/Removed.antt =====
-- code3/kdiamond.py: the numbers of leaves below the nodes after shared leaves are removed.
use brb_partially_connected.Base.{
  ℕ, suc, ◌+◌, ◌-◌, ◌≤◌, ◌<◌, ◌≡◌, ◌≢◌, inl, inr, ⊎_elim, refl, sym, ap, ◌∙◌, List, [], ◌∷◌, some,
  ◌==◌, if◌then◌else◌, length, occurrences, erase, erase-absent, weigh, weigh-erase, weigh-agree,
  occurrences-erase, arith,
}
use mathlib.Core.Path.{subst}
use native.Mathlib.Decide.{ℕ_discrete}
use brb_partially_connected.Nx.Tree.{TreeApi, shared}
use brb_partially_connected.KPasted.Leaves.{weight, weight_of}
use brb_partially_connected.KDiamond.Shape.{shared_one, IsBranch, IsTree, out, shared_out}
use brb_partially_connected.KDiamond.Added.{Lasting, Same, Kept}

length-erase : (a : ℕ) (xs : List ℕ) → 0 < occurrences a xs → suc (length (erase a xs)) ≡ length xs
length-erase a [] h = absurd (omega arith)
length-erase a (x ∷ xs) h = ground (arith, length-erase a xs)

module _ (nx : TreeApi) where
  open nx use {Tree, nodes, type_of, successors, in_degree, remove_node}

  -- What the removal of `fewer` shared leaves below `a` makes of the tree.
  pub record Shrunk (k a : ℕ) (fewer : List ℕ) (t t' : Tree) : Type 0 where
    pub tree : IsTree nx t'
    pub kept : Kept nx (a ∷ []) t t'
    pub parent_type : type_of t' a ≡ type_of t a
    pub parent_degree : in_degree t' a ≡ in_degree t a
    pub parent_out : out nx t a ≡ out nx t' a + length fewer
    pub parent_shared : shared_out nx t a ≡ shared_out nx t' a + length fewer
    pub lighter : weight nx k t ≡ weight nx k t' + length fewer
    pub left : (u : ℕ) → occurrences u (nodes t') ≡ occurrences u (nodes t) - occurrences u fewer

  -- Distinct shared leaves below `a`.
  abbrev pub Below : Tree → (a : ℕ) → List ℕ → Type 0
  Below t a us =
      (v : ℕ)
      → (occurrences v us ≤ 1)
        × (0 < occurrences v us
            → (0 < occurrences v (successors t a)) × (type_of t v ≡ some shared))

  module _ (t : Tree) (tree : IsTree nx t) (a c : ℕ) (child : 0 < occurrences c (successors t a))
      (leaf : type_of t c ≡ some shared) where
    there : 0 < occurrences c (nodes t)
    there = tree.closed a c child

    childless : successors t c ≡ []
    childless = ⊎_elim (λ b. absurd (subst IsBranch leaf b)) (λ e. e) (tree.leaves c)

    not_itself : c ≢ a
    not_itself e = absurd (
        omega
          (arith, child, ap (λ x. occurrences c (successors t x)) e, ap (occurrences c) childless))

    occurrences-left :
        (u : ℕ)
        → occurrences u (nodes (remove_node c t))
          ≡ occurrences u (nodes t) - (if c == u then 1 else 0)
    occurrences-left u =
        rw (nx.nodes-remove_node c t) (ground (arith, occurrences-erase u c (nodes t)))

    successors-left : (u : ℕ) → successors (remove_node c t) u ≡ erase c (successors t u)
    successors-left u = elim (ℕ_discrete c u) [
      | yes e ↦
          nx.successors-absent (remove_node c t) u
            (ground (arith, e, occurrences-left u, tree.once u))
          ∙ sym (ap (erase c) (ap (successors t) (sym e) ∙ childless))
      | no ne ↦ nx.successors-remove_node c t u ne
    ]

    occurrences-below :
        (u v : ℕ)
        → occurrences v (successors (remove_node c t) u)
          ≡ occurrences v (successors t u) - (if c == v then 1 else 0)
    occurrences-below u v =
        rw (successors-left u) (ground (arith, occurrences-erase v c (successors t u)))

    type_of-left : (u : ℕ) → c ≢ u → type_of (remove_node c t) u ≡ type_of t u
    type_of-left u ne = nx.type_of-remove_node c t u ne

    in_degree-left : (u : ℕ) → c ≢ u → in_degree (remove_node c t) u ≡ in_degree t u
    in_degree-left u ne = rw (nx.in_degree-remove_node c t u ne, childless) refl

    IsTree-remove_node : IsTree nx (remove_node c t)
    IsTree-remove_node = record {
      once = λ u. ground (arith, tree.once u, occurrences-left u);
      typed = λ u h.
          let ne : c ≢ u = λ e. absurd (ground (arith, e, h, occurrences-left u, tree.once u)) in
          rw (type_of-left u ne) (tree.typed u (omega (arith, h, occurrences-left u)));
      leaves = λ u. elim (ℕ_discrete c u) [
        | yes e ↦ inr (successors-left u ∙ ap (erase c) (ap (successors t) (sym e) ∙ childless))
        | no ne ↦
            ⊎_elim (λ b. inl (rw (type_of-left u ne) b))
              (λ e. inr (successors-left u ∙ ap (erase c) e)) (tree.leaves u)
      ];
      apart = λ u v. ground (arith, tree.apart u v, occurrences-below u v);
      closed = λ u v h.
          ground
            (arith, tree.closed u v, tree.apart u v, occurrences-below u v, occurrences-left v, h);
      one_parent = λ u u' v h h'.
          tree.one_parent u u' v (omega (arith, h, occurrences-below u v))
            (omega (arith, h', occurrences-below u' v));
      degree_one = λ u v h.
          let ne : c ≢ v =
            λ e. absurd (ground (arith, e, h, occurrences-below u v, tree.apart u v)) in
          rw (in_degree-left v ne) (tree.degree_one u v (omega (arith, h, occurrences-below u v)));
    }

    shared_out-left :
        (u : ℕ)
        → weigh (λ v. shared_one (type_of (remove_node c t) v)) (erase c (successors t u))
          ≡ weigh (λ v. shared_one (type_of t v)) (erase c (successors t u))
    shared_out-left u =
        weigh-agree (λ v. shared_one (type_of (remove_node c t) v)) (λ v. shared_one (type_of t v))
          (erase c (successors t u))
          (λ v h. ap shared_one (
            type_of-left v (λ e.
              absurd
                (ground (arith, e, h, occurrences-erase v c (successors t u), tree.apart u v)))))

    shared_out-erase :
        (u : ℕ)
        → shared_out nx (remove_node c t) u
          ≡ weigh (λ v. shared_one (type_of t v)) (erase c (successors t u))
    shared_out-erase u =
        ap (weigh (λ v. shared_one (type_of (remove_node c t) v))) (successors-left u)
        ∙ shared_out-left u

    Same-remove_node : (u : ℕ) → a ≢ u → c ≢ u → Same nx t (remove_node c t) u
    Same-remove_node u ne ne' =
        let elsewhere : occurrences c (successors t u) ≡ 0 =
          elim (ℕ_discrete (occurrences c (successors t u)) 0) [
            | yes e ↦ e
            | no some_of ↦ absurd (ne (tree.one_parent a u c child (omega (arith, some_of))))
          ] in
        let kept = erase-absent c (successors t u) elsewhere in
        (
          type_of-left u ne',
          in_degree-left u ne',
          ap length (successors-left u ∙ kept),
          shared_out-erase u ∙ ap (weigh (λ v. shared_one (type_of t v))) kept,
        )

    weight-removed : (k : ℕ) → weight nx k t ≡ suc (weight nx k (remove_node c t))
    weight-removed k =
        let w : ℕ → ℕ = λ u. weight_of k (type_of t u) in
        let same =
          weigh-agree (λ u. weight_of k (type_of (remove_node c t) u)) w (erase c (nodes t))
            (λ u m. ap (weight_of k) (
              type_of-left u (λ e.
                absurd (ground (arith, e, m, tree.once u, occurrences-erase u c (nodes t)))))) in
        let parts = weigh-erase w c (nodes t) there in
        let one : w c ≡ 1 = rw leaf refl in
        rw (nx.nodes-remove_node c t, same) (omega (arith, parts, one))

    pub remove_node-Shrunk : (k : ℕ) → Shrunk k a (c ∷ []) t (remove_node c t)
    remove_node-Shrunk k =
        let one : shared_one (type_of t c) ≡ 1 = rw leaf refl in
        let s = weigh-erase (λ v. shared_one (type_of t v)) c (successors t a) child in
        record {
          tree = IsTree-remove_node;
          kept = λ u away lasting.
              Same-remove_node u (ground (arith, away))
                (λ e. subst Lasting (ap (type_of t) (sym e) ∙ leaf) lasting);
          parent_type = type_of-left a not_itself;
          parent_degree = in_degree-left a not_itself;
          parent_out =
              omega (arith, ap length (successors-left a), length-erase c (successors t a) child);
          parent_shared = omega (arith, shared_out-erase a, s, one);
          lighter = omega (arith, weight-removed k);
          left = λ u. ground (arith, occurrences-left u);
        }

    pub Below-left : (us : List ℕ) → Below t a (c ∷ us) → Below (remove_node c t) a us
    Below-left us below v = (
      ground (arith, (below v).0),
      λ h.
          let (child_v, shared_v) = (below v).1 (ground (arith, h)) in
          let ne : c ≢ v = λ e. absurd (ground (arith, e, h, (below v).0)) in
          (ground (arith, occurrences-below a v, child_v, ne), type_of-left v ne ∙ shared_v),
    )
