-- ===== src/KPasted/Expansion.antt =====
-- code3/kpasted.py: the iterations of the expansion loop keep the tree well formed, raise nothing, and
-- add one to the number of nodes of the pasted graph.
use brb_partially_connected.Base.{
  ℕ, zero, suc, ◌+◌, ◌-◌, ◌*◌, ◌≤◌, ◌<◌, ◌≡◌, refl, Bool, true, false, List, [], ◌∷◌, ◌++◌,
  occurrences, last, all_but_last, length, length-append, length-take, length-drop, take, drop,
  occurrences-append, occurrences-last, occurrences-take-drop, arith, Result, ok, ltb, ltb_iff,
}
use native.Mathlib.Decide.{dec_lt}
use brb_partially_connected.Nx.Tree.{TreeApi, internal, degree}
use brb_partially_connected.KPasted.Defs.{
  State, refill, kept, set_node_type, remove_nodes, expand_last, expand_next, iterate, iterations,
}
use brb_partially_connected.KPasted.Leaves.{weight, Leaves}
use brb_partially_connected.KPasted.Pruned.{
  Leaves-set_type, IsInner-set_type, weight-set_type, Leaves-remove_nodes, weight-remove_nodes,
  remove_nodes-absent,
}
use brb_partially_connected.KPasted.Growing.{Expanding, add_leaves-Expanding, add_shared-Expanding}

abbrev depth : Bool → ℕ
depth true = 1
depth false = 0

-- The refilled queue has an element if one is kept.
refill-length :
    (queue future more : List ℕ) → 0 < length more → 0 < length (refill queue (future ++ more)).0
refill-length [] future more h = omega (arith, length-append future more)
refill-length (x ∷ xs) future more h = omega arith

-- Both queues and the removed leaves are what was there before.
removed_counts :
    (queue future : List ℕ) (cut : ℕ) (succs : List ℕ) (u : ℕ)
    → let queues = refill queue (future ++ take cut succs) in
      occurrences u queues.0 + occurrences u queues.1 + occurrences u (drop cut succs)
      ≡ occurrences u succs + (occurrences u queue + occurrences u future)
removed_counts [] future cut succs u =
    omega (arith, occurrences-take-drop u cut succs, occurrences-append u future (take cut succs))
removed_counts (x ∷ xs) future cut succs u =
    omega (arith, occurrences-take-drop u cut succs, occurrences-append u future (take cut succs))

kept-length :
    (k : ℕ) (expanded : Bool) (succs : List ℕ)
    → length succs + depth expanded ≡ 3 * k - 3
    → 2 ≤ k
    → (0 < length (take (kept k expanded) succs))
      × (length (drop (kept k expanded) succs) + 3 ≡ 2 * k)
kept-length k true succs full two =
    omega (arith, length-take (k - 1) succs, length-drop (k - 1) succs)
kept-length k false succs full two = omega (arith, length-take k succs, length-drop k succs)

module _ (nx : TreeApi) where
  open nx use {Tree, nodes, successors, in_degree, set_type}

  -- The state between two iterations: the leaves of the expanding node and of both queues are
  -- distinct, the next label is free, and the expanding node is not above its degree.
  abbrev pub Good : ℕ → State nx → Type 0
  Good k s =
      Expanding nx s.tree s.expanding_node (depth s.root_expansion)
        (λ u. occurrences u s.expanding_nodes + occurrences u s.future_expanding_nodes)
        (suc s.free_node_label)
      × (degree nx s.tree s.expanding_node ≤ 3 * k - 3)

  -- A call that returns a good state of a tree of the given weight.
  abbrev pub Reaches : (k w : ℕ) → Result (State nx) → Type 0
  Reaches k w result = (s : State nx) × (result ≡ ok s) × Good k s × (weight nx k s.tree ≡ w)

  expand_last-Reaches :
      (k : ℕ) (queue : List ℕ) (s : State nx)
      → 2 ≤ k
      → 0 < length queue
      → Leaves nx s.tree (λ u. occurrences u queue + occurrences u s.future_expanding_nodes)
      → ((u : ℕ) → s.free_node_label ≤ u → occurrences u (nodes s.tree) ≡ 0)
      → Reaches k (weight nx k s.tree + k + k - 2) (expand_last nx k queue s)
  unfolding expand_last set_node_type
  expand_last-Reaches k [] s two some_left leaves free = absurd (omega arith)
  expand_last-Reaches k (x ∷ xs) s two some_left leaves free =
      let e = last x xs in
      let leaf = (leaves e).1 (ground (arith, occurrences-last e x xs)) in
      let here : 0 < occurrences e (nodes s.tree) = omega (arith, leaf.0) in
      let t1 = set_type e internal s.tree in
      let F : ℕ → ℕ =
        λ u. occurrences u (all_but_last x xs) + occurrences u s.future_expanding_nodes in
      let no_successors : successors t1 e ≡ [] =
        rw (nx.successors-set_type e internal s.tree e) leaf.2 in
      let good : Expanding nx t1 e 1 F s.free_node_label = (
        IsInner-set_type nx s.tree e leaf,
        Leaves-set_type nx s.tree e leaf _ _
            (λ u. rw no_successors (ground (arith, occurrences-last u x xs))) leaves,
        λ u le. rw (nx.nodes-set_type e internal s.tree here) (free u le),
      ) in
      let (t2, e2, (inner, leaves2, free2), gains) =
        add_leaves-Expanding nx k (k - 1) t1 e 1 F s.free_node_label good in
      let none_yet : length (successors t1 e) ≡ 0 = rw no_successors refl in
      let found : set_node_type nx e internal s.tree ≡ ok t1 = ground (arith, here) in
      let next : State nx = record {
        tree = t2;
        free_node_label = s.free_node_label + (k - 1);
        expanding_node = e;
        expanding_nodes = all_but_last x xs;
        future_expanding_nodes = s.future_expanding_nodes;
        root_expansion = true;
      } in
      (
        next,
        rw (found, e2) refl,
        ((inner, leaves2, λ u le. free2 u (omega arith)), omega (arith, gains.0, inner.2)),
        omega (arith, gains.1, weight-set_type nx s.tree e leaf k),
      )

  expand_next-Reaches :
      (k : ℕ) (s : State nx)
      → 2 ≤ k
      → Expanding nx s.tree s.expanding_node
          (depth s.root_expansion)
          (λ u. occurrences u s.expanding_nodes + occurrences u s.future_expanding_nodes)
          s.free_node_label
      → degree nx s.tree s.expanding_node ≡ 3 * k - 3
      → Reaches k (suc (weight nx k s.tree)) (expand_next nx k s)
  unfolding expand_next
  expand_next-Reaches k s two (inner, leaves, free) full =
      let succs = successors s.tree s.expanding_node in
      let cut = kept k s.root_expansion in
      let queues = refill s.expanding_nodes (s.future_expanding_nodes ++ take cut succs) in
      let removed = drop cut succs in
      let counts = removed_counts s.expanding_nodes s.future_expanding_nodes cut succs in
      let sizes = kept-length k s.root_expansion succs (omega (arith, inner.2)) two in
      let split : (u : ℕ)
          → occurrences u removed
            ≤ occurrences u succs
              + (occurrences u s.expanding_nodes + occurrences u s.future_expanding_nodes) =
        λ u. omega (arith, occurrences-take-drop u cut succs) in
      let lighter = weight-remove_nodes nx k removed s.tree _ split leaves in
      let (s', e, good, w) =
        expand_last-Reaches k queues.0
          (record s { tree = remove_nodes nx removed s.tree; future_expanding_nodes = queues.1 })
          two (refill-length s.expanding_nodes s.future_expanding_nodes (take cut succs) sizes.0)
          (Leaves-remove_nodes nx removed s.tree _ _ (λ u. omega (arith, counts u)) leaves)
          (λ u le. remove_nodes-absent nx removed s.tree u (free u le)) in
      (s', e, good, omega (arith, w, lighter, sizes.1))

  -- Below full degree the expanding node gets a leaf, and otherwise it is full.
  iterate-Reaches :
      (k : ℕ) (s : State nx)
      → 2 ≤ k
      → Good k s
      → Reaches k (suc (weight nx k s.tree)) (iterate nx k s)
  unfolding iterate
  iterate-Reaches k s two (good, small) =
      elim (dec_lt (degree nx s.tree s.expanding_node) (3 * k - 3)) [
        | yes lt ↦
            let (t, e, (inner, leaves, free), gains) =
              add_shared-Expanding nx k s.tree s.expanding_node _ _ (suc s.free_node_label) good in
            let test = (ltb_iff (degree nx s.tree s.expanding_node) (3 * k - 3)).1 lt in
            (
              record s { tree = t; free_node_label = suc s.free_node_label },
              rw (test, e) refl,
              ((inner, leaves, free), omega (arith, gains.0, inner.2, good.0.2)),
              omega (arith, gains.1),
            )
        | no full ↦
            let test : ltb (degree nx s.tree s.expanding_node) (3 * k - 3) ≡ false = ground arith in
            let (s', e, good', w) =
              expand_next-Reaches k (record s { free_node_label = suc s.free_node_label }) two good
                (omega arith) in
            (s', rw test e, good', w)
      ]

  pub iterations-Reaches :
      (k rounds : ℕ) (s : State nx)
      → 2 ≤ k
      → Good k s
      → Reaches k (weight nx k s.tree + rounds) (iterations nx k rounds s)
  unfolding iterations
  iterations-Reaches k zero s two good = (s, refl, good, omega arith)
  iterations-Reaches k (suc rounds) s two good =
      let (s1, e1, good1, w1) = iterate-Reaches k s two good in
      let (s2, e2, good2, w2) = iterations-Reaches k rounds s1 two good1 in
      (s2, rw e1 e2, good2, omega (arith, w1, w2))
