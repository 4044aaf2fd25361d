-- ===== src/DisjointPaths/Examples.antt =====
-- The theorems on disjointPaths.py at a file for two nodes, where node 1 heard node 0 in one hop.
use brb_partially_connected.Base.{
  Line, ℕ, zero, suc, ◌+◌, ◌-◌, ◌*◌, ◌/◌, ◌%◌, ◌<◌, ◌≡◌, refl, ◌↔◌, ◌⊎◌, Bool, true, List, [], ◌∷◌,
  some, ok, arith, for_range, get_elem?, length, ◌≤◌,
}
use brb_partially_connected.Nx.Adds.{InRange}
use brb_partially_connected.Nx.Store.{Stored, stored_directed}
use brb_partially_connected.DisjointPaths.Defs.{
  read_graph, disjoint_paths_verdict, disjoint_paths_to_source,
}
use brb_partially_connected.DisjointPaths.Layers.{Marked, read_graph-edges}
use brb_partially_connected.DisjointPaths.Total.{AllNumbers, IsGraphFile}
use brb_partially_connected.DisjointPaths.Verdict.{ManyPaths, disjoint_paths_verdict_iff}

abbrev zeros : Line
zeros = some 0 ∷ some 0 ∷ []

abbrev sample : List Line
sample = (some 2 ∷ []) ∷ [] ∷ (some 0 ∷ some 1 ∷ []) ∷ zeros ∷ [] ∷ zeros ∷ zeros ∷ []

abbrev sample_graph : Stored
sample_graph = record { node_list = 0 ∷ 3 ∷ 5 ∷ 4 ∷ 3 ∷ 2 ∷ 1 ∷ 0 ∷ []; edge_list = (0, 3) ∷ [] }

sample_reads : read_graph stored_directed sample ≡ ok (2, sample_graph)
unfolding read_graph for_range
sample_reads = refl

verdict_runs : disjoint_paths_verdict stored_directed 1 1 0 sample ≡ ok true
unfolding disjoint_paths_verdict for_range
verdict_runs = refl

to_source_runs : disjoint_paths_to_source stored_directed 1 1 sample ≡ ok true
unfolding disjoint_paths_to_source for_range
to_source_runs = refl

sample-IsGraphFile : IsGraphFile sample 2
sample-IsGraphFile = record { first = refl; row = rows }
  where
    rows :
        (d s : ℕ)
        → d < 2
        → s < 2
        → (line : Line) × (get_elem? sample (2 + d * (2 + 1) + s) ≡ some line)
          × (length line ≤ 2)
          × AllNumbers line
    rows zero zero h k = (some 0 ∷ some 1 ∷ [], refl, omega arith, tt)
    rows zero (suc zero) h k = (zeros, refl, omega arith, tt)
    rows (suc zero) zero h k = (zeros, refl, omega arith, tt)
    rows (suc zero) (suc zero) h k = (zeros, refl, omega arith, tt)
    rows (suc (suc d)) s h k = absurd (omega arith)
    rows d (suc (suc s)) h k = absurd (omega arith)

read_graph-edges_example :
    (stored_directed.has_edge sample_graph 0 3 ≡ true)
    ↔ ((0 < 2 * 2) × (3 / 2 ≡ 0 / 2 + 1) × Marked sample (2 + 0 / 2 * (2 + 1) + 0 % 2) (3 % 2))
read_graph-edges_example = read_graph-edges stored_directed sample 2 0 3 sample_graph sample_reads

disjoint_paths_verdict_iff_example :
    (g : Stored) × (v : Bool) × (read_graph stored_directed sample ≡ ok (2, g))
    × (disjoint_paths_verdict stored_directed 1 1 0 sample ≡ ok v)
    × ((v ≡ true)
        ↔ InRange 1 (2 + 1) (λ d.
          Marked sample (2 + (d - 1) * (2 + 1) + 0) 1 ⊎ ManyPaths stored_directed 2 1 0 1 g d))
disjoint_paths_verdict_iff_example =
    disjoint_paths_verdict_iff stored_directed 2 1 0 1 sample sample-IsGraphFile (omega arith)
      (omega arith)
