-- ===== src/KDiamond/Marked.antt =====
-- code3/kdiamond.py: an unshared leaf becomes an internal node.
use brb_partially_connected.Base.{
  ℕ, ◌<◌, ◌≡◌, ◌≢◌, inl, inr, ⊎_elim, refl, sym, ap, ◌∙◌, [], ◌∷◌, some, ◌==◌, if◌then◌else◌,
  length, occurrences, weigh, weigh-agree, arith, ok,
}
use mathlib.Core.Path.{subst}
use native.Mathlib.Decide.{ℕ_discrete}
use brb_partially_connected.Nx.Tree.{TreeApi, internal, unshared}
use brb_partially_connected.KPasted.Defs.{set_node_type}
use brb_partially_connected.KPasted.Leaves.{weight, weight_of}
use brb_partially_connected.KPasted.Typed.{IsTyped}
use brb_partially_connected.KDiamond.Shape.{shared_one, IsBranch, IsTree, out, shared_out}
use brb_partially_connected.KDiamond.Added.{Lasting, Kept, Lasting-present}

module _ (nx : TreeApi) where
  open nx use {Tree, nodes, type_of, successors, in_degree, set_type, remove_node}

  -- What the change of an unshared leaf to an internal node makes of the tree.
  pub record Marked (k x : ℕ) (t t' : Tree) : Type 0 where
    pub tree : IsTree nx t'
    pub kept : Kept nx (x ∷ []) t t'
    pub new_type : type_of t' x ≡ some internal
    pub degree : in_degree t' x ≡ in_degree t x
    pub none_out : out nx t' x ≡ 0
    pub none_shared : shared_out nx t' x ≡ 0
    pub as_heavy : weight nx k t' ≡ weight nx k t
    pub as_many : (u : ℕ) → occurrences u (nodes t') ≡ occurrences u (nodes t)

  module _ (t : Tree) (tree : IsTree nx t) (x : ℕ) (leaf : type_of t x ≡ some unshared) where
    unshared_there : 0 < occurrences x (nodes t)
    unshared_there = Lasting-present nx t x (subst Lasting (sym leaf) tt)

    childless_unshared : successors t x ≡ []
    childless_unshared = ⊎_elim (λ b. absurd (subst IsBranch leaf b)) (λ e. e) (tree.leaves x)

    pub set_node_type-Marked :
        (k : ℕ) → (t' : Tree) × (set_node_type nx x internal t ≡ ok t') × Marked k x t t'
    unfolding set_node_type
    set_node_type-Marked k =
        let here = unshared_there in
        let t' = set_type x internal t in
        let same_nodes : nodes t' ≡ nodes t = nx.nodes-set_type x internal t here in
        let retyped : (u : ℕ) → type_of t' u ≡ (if x == u then some internal else type_of t u) =
          λ u. nx.type_of-set_type x internal t u here in
        let succs : (u : ℕ) → successors t' u ≡ successors t u =
          λ u. nx.successors-set_type x internal t u in
        let degs : (u : ℕ) → in_degree t' u ≡ in_degree t u =
          λ u. nx.in_degree-set_type x internal t u in
        let other : (u : ℕ) → x ≢ u → type_of t' u ≡ type_of t u =
          λ u ne. rw (retyped u) (ground (arith, ne)) in
        let own : type_of t' x ≡ some internal = rw (retyped x) (ground arith) in
        let as_one : (u : ℕ) → shared_one (type_of t' u) ≡ shared_one (type_of t u) = λ u.
          elim (ℕ_discrete x u) [
            | yes e ↦
                subst (λ v. shared_one (type_of t' v) ≡ shared_one (type_of t v)) e
                  (ap shared_one own ∙ sym (ap shared_one leaf))
            | no ne ↦ ap shared_one (other u ne)
          ] in
        let as_heavy : (u : ℕ) → weight_of k (type_of t' u) ≡ weight_of k (type_of t u) = λ u.
          elim (ℕ_discrete x u) [
            | yes e ↦
                subst (λ v. weight_of k (type_of t' v) ≡ weight_of k (type_of t v)) e
                  (ap (weight_of k) own ∙ sym (ap (weight_of k) leaf))
            | no ne ↦ ap (weight_of k) (other u ne)
          ] in
        let shareds : (u : ℕ) → shared_out nx t' u ≡ shared_out nx t u = λ u.
          ap (weigh (λ v. shared_one (type_of t' v))) (succs u)
          ∙ weigh-agree (λ v. shared_one (type_of t' v)) (λ v. shared_one (type_of t v))
              (successors t u) (λ v h. as_one v) in
        (
          t',
          ground (arith, here),
          record {
            tree = record {
              once = λ u. rw same_nodes (tree.once u);
              typed = λ u h. elim (ℕ_discrete x u) [
                | yes e ↦ subst (λ v. IsTyped (type_of t' v)) e (subst IsTyped (sym own) tt)
                | no ne ↦
                    rw (other u ne) (tree.typed u (subst (λ xs. 0 < occurrences u xs) same_nodes h))
              ];
              leaves = λ u. elim (ℕ_discrete x u) [
                | yes e ↦ inl (subst (λ v. IsBranch (type_of t' v)) e (subst IsBranch (sym own) tt))
                | no ne ↦
                    ⊎_elim (λ b. inl (rw (other u ne) b)) (λ e. inr (succs u ∙ e)) (tree.leaves u)
              ];
              apart = λ u v. rw (succs u) (tree.apart u v);
              closed = λ u v. rw (succs u, same_nodes) (tree.closed u v);
              one_parent = λ u u' v. rw (succs u, succs u') (tree.one_parent u u' v);
              degree_one = λ u v. rw (succs u, degs v) (tree.degree_one u v);
            };
            kept = λ u away lasting.
                (other u (ground (arith, away)), degs u, ap length (succs u), shareds u);
            new_type = own;
            degree = degs x;
            none_out = ap length (succs x ∙ childless_unshared);
            none_shared = shareds x ∙ ap (weigh (λ v. shared_one (type_of t v))) childless_unshared;
            as_heavy = rw same_nodes (
                weigh-agree (λ u. weight_of k (type_of t' u)) (λ u. weight_of k (type_of t u))
                  (nodes t) (λ u h. as_heavy u));
            as_many = λ u. rw same_nodes refl;
          },
        )
