-- ===== src/KDiamond/Rays.antt =====
-- code3/kdiamond.py: the tree before the loop, a root with k shared leaves.
use brb_partially_connected.Base.{
  ℕ, zero, suc, ◌+◌, ◌≤◌, ◌<◌, ◌≡◌, refl, sym, ap, ◌∙◌, List, [], ◌∷◌, ◌++◌, some, ◌==◌,
  if◌then◌else◌, length, occurrences, add_new, weigh, arith, ok,
}
use mathlib.Core.Path.{subst}
use brb_partially_connected.Nx.Tree.{TreeApi, shared}
use brb_partially_connected.KPasted.Defs.{set_node_type, add_shared, add_leaves}
use brb_partially_connected.KPasted.FirstLeaf.{
  nodes-grown_first, grown_first-type_of, grown_first-successors, grown_first-in_degree, first_leaf,
}
use brb_partially_connected.KPasted.Paste.{up_from}
use brb_partially_connected.KPasted.Vertices.{occurrences-up_from}

up_from-last : (first m : ℕ) → up_from first (suc m) ≡ up_from first m ++ (first + m) ∷ []
up_from-last first zero = ap (λ x. x ∷ []) (omega arith)
up_from-last first (suc m) =
    ap (λ (xs : List ℕ). first ∷ xs)
      (up_from-last (suc first) m ∙ ap (λ x. up_from (suc first) m ++ x ∷ []) (omega arith))

pub weigh_ones :
    (w : ℕ → ℕ) (xs : List ℕ) → ((u : ℕ) → 0 < occurrences u xs → w u ≡ 1) → weigh w xs ≡ length xs
weigh_ones w [] h = refl
weigh_ones w (x ∷ xs) h =
    let first = h x (ground arith) in
    let rest = weigh_ones w xs (λ u m. h u (omega (arith, m))) in omega (arith, first, rest)

-- `u` is one of the leaves 1 to m.
abbrev pub IsRay : ℕ → ℕ → Type 0
IsRay m u = (1 ≤ u) × (u ≤ m)

module _ (nx : TreeApi) where
  open nx use {Tree, empty, nodes, type_of, successors, in_degree, add_edge, set_type}

  -- A node 0 with no type, and the leaves 1 to m below it.
  pub record Star (m : ℕ) (t : Tree) : Type 0 where
    pub all : nodes t ≡ 0 ∷ up_from 1 m
    pub ray_type : (u : ℕ) → IsRay m u → type_of t u ≡ some shared
    pub children : successors t 0 ≡ up_from 1 m
    pub childless : (u : ℕ) → 0 < u → successors t u ≡ []
    pub root_degree : in_degree t 0 ≡ 0
    pub ray_degree : (u : ℕ) → IsRay m u → in_degree t u ≡ 1

  abbrev with_ray : ℕ → Tree → Tree
  with_ray c t = set_type c shared (add_edge 0 c t)

  Star-first : Star 1 (with_ray 1 empty)
  Star-first = record {
    all = nodes-grown_first nx;
    ray_type = λ u h. grown_first-type_of nx u ∙ ground (arith, h);
    children = grown_first-successors nx 0;
    childless = λ u h. grown_first-successors nx u ∙ ground (arith, h);
    root_degree = grown_first-in_degree nx 0;
    ray_degree = λ u h. grown_first-in_degree nx u ∙ ground (arith, h);
  }

  module _ (m : ℕ) (t : Tree) (star : Star m t) where
    next_nodes : nodes (add_edge 0 (suc m) t) ≡ 0 ∷ up_from 1 (suc m)
    next_nodes =
        let there = occurrences-up_from (suc m) 1 m in
        let old : add_new 0 (0 ∷ up_from 1 m) ≡ 0 ∷ up_from 1 m = ground arith in
        let new : add_new (suc m) (0 ∷ up_from 1 m) ≡ 0 ∷ (up_from 1 m ++ suc m ∷ []) =
          ground (arith, there) in
        let label : suc m ≡ 1 + m = omega arith in
        let step : add_new (suc m) (add_new 0 (nodes t)) ≡ 0 ∷ (up_from 1 m ++ suc m ∷ []) =
          rw (star.all, old) new in
        nx.nodes-add_edge 0 (suc m) t
        ∙ step
        ∙ ap (λ (xs : List ℕ). 0 ∷ xs)
            (ap (λ x. up_from 1 m ++ x ∷ []) label ∙ sym (up_from-last 1 m))

    next_there : 0 < occurrences (suc m) (nodes (add_edge 0 (suc m) t))
    next_there = rw next_nodes (ground (arith, occurrences-up_from (suc m) 1 (suc m)))

    next_ray-added : add_shared nx 0 (suc m) t ≡ ok (with_ray (suc m) t)
    unfolding add_shared set_node_type
    next_ray-added = ground (arith, next_there)

    no_child : occurrences (suc m) (successors t 0) ≡ 0
    no_child = rw star.children (ground (arith, occurrences-up_from (suc m) 1 m))

    absent : occurrences (suc m) (nodes t) ≡ 0
    absent = rw star.all (ground (arith, occurrences-up_from (suc m) 1 m))

    next_in_degree :
        (u : ℕ) → in_degree (with_ray (suc m) t) u ≡ (if suc m == u then 1 else in_degree t u)
    next_in_degree u =
        rw
          (
            nx.in_degree-set_type (suc m) shared (add_edge 0 (suc m) t) u,
            nx.in_degree-add_edge 0 (suc m) t u,
          )
          (ground (arith, no_child, absent, nx.in_degree-absent t u))

    next_successors :
        (u : ℕ)
        → successors (with_ray (suc m) t) u
          ≡ (if 0 == u then add_new (suc m) (successors t u) else successors t u)
    next_successors u =
        nx.successors-set_type (suc m) shared (add_edge 0 (suc m) t) u
        ∙ nx.successors-add_edge 0 (suc m) t u

    Star-next : Star (suc m) (with_ray (suc m) t)
    Star-next = record {
      all = nx.nodes-set_type (suc m) shared (add_edge 0 (suc m) t) next_there ∙ next_nodes;
      ray_type = λ u h.
          rw
            (
              nx.type_of-set_type (suc m) shared (add_edge 0 (suc m) t) u next_there,
              nx.type_of-add_edge 0 (suc m) t u,
            )
            (ground (arith, h, star.ray_type u));
      children =
          let new : add_new (suc m) (successors t 0) ≡ successors t 0 ++ suc m ∷ [] =
            ground (arith, no_child) in
          next_successors 0
          ∙ new
          ∙ ap (λ (xs : List ℕ). xs ++ suc m ∷ []) star.children
          ∙ ap (λ x. up_from 1 m ++ x ∷ []) (omega arith)
          ∙ sym (up_from-last 1 m);
      childless = λ u h. next_successors u ∙ ground (arith, h, star.childless u h);
      root_degree = next_in_degree 0 ∙ ground (arith, star.root_degree);
      ray_degree = λ u h. next_in_degree u ∙ ground (arith, h, star.ray_degree u);
    }

  add_leaves-Star :
      (rounds m : ℕ) (t : Tree)
      → Star m t
      → (t' : Tree) × (add_leaves nx rounds 0 (suc m) t ≡ ok t') × Star (m + rounds) t'
  unfolding add_leaves
  add_leaves-Star zero m t star = (t, refl, subst (λ n. Star n t) (omega arith) star)
  add_leaves-Star (suc rounds) m t star =
      let (t', e, star') =
        add_leaves-Star rounds (suc m) (with_ray (suc m) t) (Star-next m t star) in
      (t', rw (next_ray-added m t star) e, subst (λ n. Star n t') (omega arith) star')

  pub base_leaves-Star :
      (k : ℕ) → 1 ≤ k → (t : Tree) × (add_leaves nx k 0 1 empty ≡ ok t) × Star k t
  unfolding add_leaves
  base_leaves-Star zero h = absurd (omega arith)
  base_leaves-Star (suc k) h =
      let (t, e, star) = add_leaves-Star k 1 (with_ray 1 empty) Star-first in
      (t, rw (first_leaf nx) e, subst (λ n. Star n t) (omega arith) star)
