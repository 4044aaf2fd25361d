-- ===== src/KPasted/Size.antt =====
-- code3/kpasted.py: the tree before the loop, and the size of the graph that the whole loop leads to.
use brb_partially_connected.Base.{
  ℕ, zero, suc, ◌+◌, ◌-◌, ◌*◌, ◌≤◌, ◌<◌, ◌≡◌, refl, false, [], occurrences, length, Option, none,
  some, arith, ok, ltb, ap, weigh-agree, weigh, ◌∙◌, ◌≢◌,
}
use native.Mathlib.Decide.{ℕ_discrete}
use brb_partially_connected.Nx.Tree.{TreeApi, NodeType, root, shared, internal, unshared}
use brb_partially_connected.KPasted.Defs.{State, set_node_type, add_leaves, initial, expand_tree}
use brb_partially_connected.KPasted.Leaves.{weight, weight_of, grown}
use brb_partially_connected.KPasted.FirstLeaf.{
  nodes-grown_first, grown_first-type_of, grown_first-successors, grown_first-in_degree, first_leaf,
}
use brb_partially_connected.KPasted.Growing.{Expanding, add_leaves-Expanding}
use brb_partially_connected.KPasted.Expansion.{Reaches, iterations-Reaches}

weight_of-other : (k : ℕ) (ty : Option NodeType) → ty ≢ some shared → weight_of k ty ≡ k
weight_of-other k none ne = refl
weight_of-other k (some shared) ne = absurd (ne refl)
weight_of-other k (some root) ne = refl
weight_of-other k (some internal) ne = refl
weight_of-other k (some unshared) ne = refl

module _ (nx : TreeApi) where
  open nx use {Tree, empty, nodes, type_of, successors, in_degree, add_edge, set_type}

  Expanding-first : Expanding nx (grown nx 0 1 empty) 0 0 (λ u. 0) 2
  Expanding-first = (
    (
      rw (nodes-grown_first nx) refl,
      rw (grown_first-type_of nx 0) (λ e. absurd (ground (arith, e))),
      rw (grown_first-in_degree nx 0) refl,
    ),
    λ u. elim (ℕ_discrete 1 u) [
      | yes e ↦
          rw (← e, grown_first-successors nx 0)
            (
              ground arith,
              λ some_of. (
                rw (nodes-grown_first nx) refl,
                rw (grown_first-type_of nx 1) refl,
                rw (grown_first-successors nx 1) refl,
                rw (grown_first-in_degree nx 1) refl,
              ),
            )
      | no ne ↦
          rw (grown_first-successors nx 0)
            (ground (arith, ne), λ some_of. absurd (ground (arith, ne, some_of)))
    ],
    λ u le. rw (nodes-grown_first nx) (ground arith),
  )

  module _ (k : ℕ) (t : Tree) (a d : ℕ) (F : ℕ → ℕ) (c : ℕ) (good : Expanding nx t a d F c) where
    here : 0 < occurrences a (nodes t)
    here = omega (arith, good.0.0)

    Expanding-root : Expanding nx (set_type a root t) a d F c
    Expanding-root =
        let ((at, ty, deg), leaves, free) = good in
        (
          (
            rw (nx.nodes-set_type a root t here) at,
            rw (nx.type_of-set_type a root t a here) (ground arith),
            rw (nx.in_degree-set_type a root t a) deg,
          ),
          λ u. rw (nx.successors-set_type a root t a) (
            (leaves u).0,
            λ some_of.
                let (one, shared_u, succs, in_u) = (leaves u).1 some_of in
                let other : a ≢ u = λ e. ty (ap (type_of t) e ∙ shared_u) in
                (
                  rw (nx.nodes-set_type a root t here) one,
                  rw (nx.type_of-set_type a root t u here) (ground (arith, other)),
                  rw (nx.successors-set_type a root t u) succs,
                  rw (nx.in_degree-set_type a root t u) in_u,
                ),
          ),
          λ u le. rw (nx.nodes-set_type a root t here) (free u le),
        )

    weight-root : weight nx k (set_type a root t) ≡ weight nx k t
    weight-root = rw (nx.nodes-set_type a root t here) (
        weigh-agree _ _ (nodes t) (λ u m. elim (ℕ_discrete a u) [
          | yes e ↦
              rw
                (← e, nx.type_of-set_type a root t a here, weight_of-other k (type_of t a) good.0.1)
                (ground arith)
          | no ne ↦ rw (nx.type_of-set_type a root t u here) (ground (arith, ne))
        ]))

  initial-Reaches : (n k : ℕ) → 2 ≤ k → 2 * k ≤ n → Reaches nx k (2 * k) (initial nx n k)
  unfolding initial add_leaves set_node_type
  initial-Reaches n zero two enough = absurd (omega arith)
  initial-Reaches n (suc k) two enough =
      let (t, e, good, gains) =
        add_leaves-Expanding nx (suc k) k (grown nx 0 1 empty) 0 0 (λ u. 0) 2 Expanding-first in
      let marked = Expanding-root (suc k) t 0 0 (λ u. 0) (2 + k) good in
      let found : set_node_type nx 0 root t ≡ ok (set_type 0 root t) = ground (arith, good.0.0) in
      let large_enough : ltb n (2 * suc k) ≡ false = ground arith in
      let first_size : length (successors (grown nx 0 1 empty) 0) ≡ 1 =
        rw (grown_first-successors nx 0) refl in
      let first_weight : weight nx (suc k) (grown nx 0 1 empty) ≡ k + 2 =
        rw (nodes-grown_first nx, weigh, grown_first-type_of nx 0, grown_first-type_of nx 1)
          (omega arith) in
      let next : State nx = record {
        tree = set_type 0 root t;
        free_node_label = 2 * suc k;
        expanding_node = 0;
        expanding_nodes = [];
        future_expanding_nodes = [];
        root_expansion = false;
      } in
      let same = nx.successors-set_type 0 root t 0 in
      (
        next,
        rw (large_enough, first_leaf nx, e, found) refl,
        (
          (marked.0, marked.1, λ u le. marked.2 u (omega arith)),
          rw same (omega (arith, gains.0, marked.0.2)),
        ),
        omega (arith, weight-root (suc k) t 0 0 (λ u. 0) (2 + k) good, gains.1),
      )

  -- For 2 ≤ k and 2 k ≤ n the expansion loop raises nothing and ends with a tree in which the
  -- successors of the expanding node and the nodes of both queues are distinct shared leaves, the
  -- expanding node has at most 3 k - 3 edges, and n is the number of nodes that the tree stands for,
  -- with one for each shared leaf and k for any other node.
  pub expand_tree-Reaches : (n k : ℕ) → 2 ≤ k → 2 * k ≤ n → Reaches nx k n (expand_tree nx n k)
  unfolding expand_tree
  expand_tree-Reaches n k two enough =
      let (s1, e1, good1, w1) = initial-Reaches n k two enough in
      let (s2, e2, good2, w2) = iterations-Reaches nx k (n - 2 * k) s1 two good1 in
      (s2, rw e1 e2, good2, omega (arith, w1, w2))
