-- ===== src/DisjointPaths/Verdict.antt =====
-- What the scripts write (BroadcastSign/simulations/disjointPaths.py and disjointPathsToSource.py),
-- and that they write something for every well-formed file.
use brb_partially_connected.Base.{
  Line, ℕ, zero, suc, ◌+◌, ◌-◌, ◌*◌, ◌≤◌, ◌<◌, ◌≡◌, refl, ◌↔◌, ◌⊎◌, ⊎_elim, Bool, true, List, some,
  ok, arith,
}
use brb_partially_connected.Nx.{DiGraphApi}
use brb_partially_connected.Nx.Adds.{InRange, InRange-suc, InRange_iff}
use brb_partially_connected.DisjointPaths.Defs.{
  read_graph, found_at, search_depths, disjoint_paths_verdict,
}
use brb_partially_connected.DisjointPaths.Layers.{Marked, digits_of, layer_iff, read_graph-edges}
use brb_partially_connected.DisjointPaths.Total.{IsGraphFile, read_graph_total}

module _ (nx : DiGraphApi) (n f b self : ℕ) where
  open nx use {DiGraph, has_edge, disjoint_paths}

  -- More than `f` disjoint paths lead to the node in layer `d`.
  abbrev pub ManyPaths : DiGraph → ℕ → Type 0
  ManyPaths g d = (count : ℕ) × (disjoint_paths g b (d * n + self) ≡ some count) × (f < count)

  found_at_iff :
      (g : DiGraph) (d : ℕ)
      → (found_at nx n f b self g d ≡ true)
        ↔ ((has_edge g ((d - 1) * n + b) (d * n + self) ≡ true) ⊎ ManyPaths g d)
  unfolding found_at
  found_at_iff g d = (λ e. ground arith, ⊎_elim (λ e. ground arith) (λ m. ground arith))

  search_depths_iff :
      (g : DiGraph) (rounds d : ℕ)
      → (search_depths nx n f b self g rounds d ≡ true)
        ↔ InRange d (d + rounds) (λ e. found_at nx n f b self g e ≡ true)
  unfolding search_depths
  search_depths_iff g zero d = (λ e. cc, λ (i, le, lt, _). absurd (omega arith))
  search_depths_iff g (suc rounds) d =
      let ih = search_depths_iff g rounds (suc d) in
      let split =
        InRange-suc (λ e. found_at nx n f b self g e ≡ true) d (d + suc rounds) (omega arith) in
      let shift : suc d + rounds ≡ d + suc rounds = omega arith in
      ground (arith, rw shift at ih, split)

-- A direct link into layer `d` is a mark in the matrix before it.
direct_iff :
    (nx : DiGraphApi) (n b self d : ℕ) (lines : List Line) (g : nx.DiGraph)
    → read_graph nx lines ≡ ok (n, g)
    → b < n
    → self < n
    → 1 ≤ d
    → d < n + 1
    → (nx.has_edge g ((d - 1) * n + b) (d * n + self) ≡ true)
      ↔ Marked lines (2 + (d - 1) * (n + 1) + b) self
direct_iff nx n b self d lines g read b_lt self_lt le lt =
    let x : ℕ = (d - 1) * n + b in
    let y : ℕ = d * n + self in
    let (div_x, mod_x) = digits_of n (d - 1) b x b_lt refl in
    let (div_y, mod_y) = digits_of n d self y self_lt refl in
    let edges = read_graph-edges nx lines n x y g read in
    let inside : x < n * n = (layer_iff n x).1 (omega arith) in
    (
      λ has. rw (div_x, mod_x, mod_y) at ((edges.0 has).2),
      λ marked. edges.1 (inside, omega arith, rw (div_x, mod_x, mod_y) marked),
    )

-- disjointPaths.py ends on a well-formed file, and it writes '1' exactly if in some layer the node
-- heard from the broadcaster directly, by the mark in the broadcaster's row at the node's column, or
-- more than `f` disjoint paths lead from the broadcaster to it.
pub disjoint_paths_verdict_iff :
    (nx : DiGraphApi) (n f b self : ℕ) (lines : List Line)
    → IsGraphFile lines n
    → b < n
    → self < n
    → (g : nx.DiGraph) × (v : Bool) × (read_graph nx lines ≡ ok (n, g))
      × (disjoint_paths_verdict nx self f b lines ≡ ok v)
      × ((v ≡ true)
          ↔ InRange 1
              (n + 1)
              (λ d. Marked lines (2 + (d - 1) * (n + 1) + b) self ⊎ ManyPaths nx n f b self g d))
unfolding disjoint_paths_verdict
disjoint_paths_verdict_iff nx n f b self lines file b_lt self_lt =
    let (g, read) = read_graph_total lines n file nx in
    let found = search_depths_iff nx n f b self g n 1 in
    (
      g,
      search_depths nx n f b self g n 1,
      read,
      ground arith,
      let step =
            InRange_iff (λ d. found_at nx n f b self g d ≡ true)
              (λ d. Marked lines (2 + (d - 1) * (n + 1) + b) self ⊎ ManyPaths nx n f b self g d) 1
              (n + 1)
              (λ d le lt.
                let here = found_at_iff nx n f b self g d in
                let direct = direct_iff nx n b self d lines g read b_lt self_lt le lt in
                ground (arith, here, direct)) in
          let swap : 1 + n ≡ n + 1 = omega arith in
          let found' = rw swap at found in (λ e. step.0 (found'.0 e), λ r. found'.1 (step.1 r)),
    )
