-- ===== src/KDiamond/Rooted.antt =====
-- code3/kdiamond.py: the tree before the loop has the shape, and stands for 2 k nodes.
use brb_partially_connected.Base.{
  ℕ, zero, suc, false, ◌*◌, ◌≤◌, ◌<◌, ◌≡◌, inl, inr, refl, sym, ap, ◌∙◌, [], ◌∷◌, some, ltb, length,
  occurrences, weigh, arith, Result, ok,
}
use mathlib.Core.Path.{subst}
use native.Mathlib.Decide.{ℕ_discrete}
use brb_partially_connected.Nx.Tree.{TreeApi, root, shared}
use brb_partially_connected.KPasted.Defs.{set_node_type}
use brb_partially_connected.KPasted.Leaves.{weight, weight_of}
use brb_partially_connected.KPasted.Typed.{IsTyped}
use brb_partially_connected.KPasted.Paste.{up_from}
use brb_partially_connected.KPasted.Vertices.{length-up_from, occurrences-up_from}
use brb_partially_connected.KDiamond.Defs.{State, phase0, base_tree}
use brb_partially_connected.KDiamond.Shape.{shared_one, IsBranch, IsTree, out, shared_out}
use brb_partially_connected.KDiamond.Rays.{IsRay, Star, base_leaves-Star, weigh_ones}
use brb_partially_connected.KDiamond.Invariant.{PhaseInv, Sound}

module _ (nx : TreeApi) where
  open nx use {Tree, empty, nodes, type_of, successors, in_degree, set_type}

  module _ (k : ℕ) (t : Tree) (star : Star nx k t) where
    here : 0 < occurrences 0 (nodes t)
    here = rw star.all (omega arith)

    abbrev rooted : Tree
    rooted = set_type 0 root t

    rooted_nodes : nodes rooted ≡ 0 ∷ up_from 1 k
    rooted_nodes = nx.nodes-set_type 0 root t here ∙ star.all

    rooted-occurrences :
        (u : ℕ)
        → (occurrences u (nodes rooted) ≤ 1)
          × (0 < occurrences u (nodes rooted) → u ≤ k)
          × (u ≤ k → 0 < occurrences u (nodes rooted))
    rooted-occurrences u = rw rooted_nodes (
      ground (arith, occurrences-up_from u 1 k),
      λ h. ground (arith, occurrences-up_from u 1 k, h),
      λ h. ground (arith, occurrences-up_from u 1 k, h),
    )

    root_type : type_of rooted 0 ≡ some root
    root_type = nx.type_of-set_type 0 root t 0 here

    ray_typed : (u : ℕ) → IsRay k u → type_of rooted u ≡ some shared
    ray_typed u ray = nx.type_of-set_type 0 root t u here ∙ ground (arith, ray, star.ray_type u ray)

    rooted_successors : (u : ℕ) → successors rooted u ≡ successors t u
    rooted_successors u = nx.successors-set_type 0 root t u

    rays : successors rooted 0 ≡ up_from 1 k
    rays = rooted_successors 0 ∙ star.children

    below_root :
        (u v : ℕ)
        → (occurrences v (successors rooted u) ≤ 1)
          × (0 < occurrences v (successors rooted u) → (u ≡ 0) × IsRay k v)
          × (u ≡ 0 → IsRay k v → 0 < occurrences v (successors rooted u))
    below_root zero v = rw rays (
      ground (arith, occurrences-up_from v 1 k),
      λ h. (
        refl,
        (
          ground (arith, occurrences-up_from v 1 k, h),
          ground (arith, occurrences-up_from v 1 k, h),
        ),
      ),
      λ e h. ground (arith, occurrences-up_from v 1 k, h),
    )
    below_root (suc u) v =
        let nothing : successors rooted (suc u) ≡ [] =
          rooted_successors (suc u) ∙ star.childless (suc u) (omega arith) in
        rw nothing (omega arith, λ h. absurd (omega (arith, h)), λ e. absurd (omega (arith, e)))

    IsTree-rooted : IsTree nx rooted
    IsTree-rooted = record {
      once = λ u. (rooted-occurrences u).0;
      typed = λ u h. elim (ℕ_discrete 0 u) [
        | yes e ↦ subst (λ v. IsTyped (type_of rooted v)) e (subst IsTyped (sym root_type) tt)
        | no ne ↦
            subst IsTyped (sym (ray_typed u (omega (arith, ne), (rooted-occurrences u).1 h))) tt
      ];
      leaves = λ u. elim (ℕ_discrete 0 u) [
        | yes e ↦
            inl (subst (λ v. IsBranch (type_of rooted v)) e (subst IsBranch (sym root_type) tt))
        | no ne ↦ inr (rooted_successors u ∙ star.childless u (omega (arith, ne)))
      ];
      apart = λ u v. (below_root u v).0;
      closed = λ u v h. (rooted-occurrences v).2 (((below_root u v).1 h).1.1);
      one_parent = λ u u' v h h'. ((below_root u v).1 h).0 ∙ sym ((below_root u' v).1 h').0;
      degree_one =
          λ u v h. nx.in_degree-set_type 0 root t v ∙ star.ray_degree v ((below_root u v).1 h).1;
    }

    out-rooted : out nx rooted 0 ≡ k
    out-rooted = ap length rays ∙ length-up_from 1 k

    shared_out-rooted : shared_out nx rooted 0 ≡ k
    shared_out-rooted =
        weigh_ones (λ v. shared_one (type_of rooted v)) (successors rooted 0)
          (λ v h. ap shared_one (ray_typed v ((below_root 0 v).1 h).1))
        ∙ out-rooted

    weight-rooted : weight nx k rooted ≡ 2 * k
    weight-rooted =
        let w : ℕ → ℕ = λ u. weight_of k (type_of rooted u) in
        let of_root : w 0 ≡ k = ap (weight_of k) root_type in
        let of_rays = weigh_ones w (up_from 1 k) (λ v h. ap (weight_of k) (
          ray_typed v (
            ground (arith, h, occurrences-up_from v 1 k),
            ground (arith, h, occurrences-up_from v 1 k),
          ))) in
        ap (weigh w) rooted_nodes ∙ omega (arith, of_root, of_rays, length-up_from 1 k)

    root_set : set_node_type nx 0 root t ≡ ok rooted
    unfolding set_node_type
    root_set = ground (arith, here)

  -- What the variables are before the loop.
  abbrev pub Starts : (k : ℕ) → Result (State nx) → Type 0
  Starts k result =
      (s : State nx) × (result ≡ ok s)
      × Sound nx (suc s.free_node_label) s.tree
      × PhaseInv nx k s s.phase
      × (weight nx k s.tree ≡ 2 * k)

  pub base_tree-Starts : (n k : ℕ) → 3 ≤ k → 2 * k ≤ n → Starts k (base_tree nx n k)
  unfolding base_tree
  base_tree-Starts n k three enough =
      let (t, e, star) = base_leaves-Star nx k (omega (arith, three)) in
      let test : ltb n (2 * k) ≡ false = ground (arith, enough) in
      let t' = rooted k t star in
      (
        record {
          tree = t';
          free_node_label = 2 * k;
          expanding_nodes = 0 ∷ [];
          future_expanding_nodes = [];
          last_expanded_node = 0;
          unshared_leaves = [];
          shared_leaves = up_from 1 k;
          phase = phase0;
          counter_phase3 = 0;
          last_expanded_index = 0;
        },
        rw (test, e, root_set k t star) refl,
        (
          IsTree-rooted k t star,
          λ u le. elim (ℕ_discrete (occurrences u (nodes t')) 0) [
            | yes none_of ↦ none_of
            | no ne ↦
                absurd
                  (omega (arith, le, three, (rooted-occurrences k t star u).1 (omega (arith, ne))))
          ],
        ),
        (
          refl,
          refl,
          root_type k t star,
          nx.in_degree-set_type 0 root t 0 ∙ star.root_degree,
          λ v. (
            ground (arith, occurrences-up_from v 1 k),
            λ h.
                let ray : IsRay k v = (
                  ground (arith, h, occurrences-up_from v 1 k),
                  ground (arith, h, occurrences-up_from v 1 k),
                ) in
                ((below_root k t star 0 v).2 refl ray, ray_typed k t star v ray),
          ),
          length-up_from 1 k ∙ sym (shared_out-rooted k t star),
          omega (arith, out-rooted k t star, shared_out-rooted k t star),
          omega (arith, out-rooted k t star),
          omega (arith, out-rooted k t star, three),
          omega arith,
          λ u. (omega arith, λ h. absurd (omega (arith, h))),
        ),
        weight-rooted k t star,
      )
