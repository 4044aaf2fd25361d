-- ===== src/DisjointPaths/Defs.antt =====
-- BroadcastSign/simulations/disjointPaths.py: the messages that a node received are a directed graph
-- in layers, one for each hop, and the node delivers when it is linked to the broadcaster directly
-- or by more than `f` disjoint paths.
use brb_partially_connected.Base.{
  Line, ℕ, zero, suc, ◌+◌, ◌-◌, ◌*◌, Bool, true, false, List, [], ◌∷◌, none, some, ltb, ◌==◌,
  if◌then◌else◌, get_elem?, set, get_or, replicate, length, for_range, Result, ok, raise, ◌>>=◌,
  or_raise, index_error, value_error,
}
use brb_partially_connected.Nx.{DiGraphApi}

-- `for dst in range(len(line)): if int(line[dst]) == 1: matrix[src][dst] = 1`, from `dst` on, where
-- `row` is `matrix[src]`.
unfoldable pub read_row : ℕ → Line → List ℕ → Result (List ℕ)
read_row dst [] row = ok row
read_row dst (none ∷ line) row = raise value_error
read_row dst (some entry ∷ line) row =
    let marked =
      if ltb dst (length row) then read_row (suc dst) line (set row dst 1) else raise index_error in
    let skipped = read_row (suc dst) line row in if entry == 1 then marked else skipped

-- The rows from `src` on, `rounds` of them; `iline` is the first line of the matrix.
unfoldable pub read_rows :
    (lines : List Line) (numNodes iline rounds src : ℕ) → Result (List (List ℕ))
unfolding read_row
read_rows lines numNodes iline zero src = ok []
read_rows lines numNodes iline (suc rounds) src = do
  line ← or_raise index_error (get_elem? lines (iline + src))
  row ← read_row 0 line (replicate numNodes 0)
  rows ← read_rows lines numNodes iline rounds (suc src)
  ok (row ∷ rows)

-- `matrix[src][dst]`, for indices within the matrix.
abbrev pub cell : List (List ℕ) → ℕ → ℕ → ℕ
cell matrix src dst = get_or (get_or matrix src []) dst 0

-- `int(line.strip())`, of a line that is one number.
abbrev pub int_line : Line → Result ℕ
int_line (some n ∷ []) = ok n
int_line _ = raise value_error

module _ (nx : DiGraphApi) where
  open nx use {DiGraph, empty, add_node, add_edge, has_edge, disjoint_paths}

  -- The nodes of all layers.
  unfoldable pub add_layers : ℕ → DiGraph → DiGraph
  add_layers numNodes =
      for_range 0 (numNodes + 1) (λ d. for_range 0 numNodes (λ j. add_node (d * numNodes + j)))

  -- The edges from layer `d` to the next one.
  unfoldable pub add_links : (numNodes d : ℕ) → List (List ℕ) → DiGraph → DiGraph
  add_links numNodes d matrix = for_range 0 numNodes λ src. for_range 0 numNodes λ dst g.
      if cell matrix src dst == 1
      then add_edge (d * numNodes + src) ((d + 1) * numNodes + dst) g
      else g

  -- The loop over the matrices of the file, from `d` on.
  unfoldable pub link_layers :
      (lines : List Line) (numNodes rounds d : ℕ) → DiGraph → Result DiGraph
  unfolding read_rows add_links
  link_layers lines numNodes zero d g = ok g
  link_layers lines numNodes (suc rounds) d g = do
    matrix ← read_rows lines numNodes (2 + d * (numNodes + 1)) numNodes 0
    link_layers lines numNodes rounds (suc d) (add_links numNodes d matrix g)

  -- `numNodes = int(lines[0].strip())`, the layers, and the links between them.
  unfoldable pub read_graph : List Line → Result (ℕ × DiGraph)
  unfolding add_layers link_layers
  read_graph lines = do
    first ← or_raise index_error (get_elem? lines 0)
    numNodes ← int_line first
    g ← link_layers lines numNodes numNodes 0 (add_layers numNodes empty)
    ok (numNodes, g)

  -- The body of the loop over the depths: whether it writes '1' and leaves the loop.
  unfoldable pub found_at : (numNodes f broadcasterId selfId : ℕ) → DiGraph → ℕ → Bool
  found_at numNodes f broadcasterId selfId g d =
      if has_edge g ((d - 1) * numNodes + broadcasterId) (d * numNodes + selfId)
      then true
      else elim (disjoint_paths g broadcasterId (d * numNodes + selfId)) [
        | none ↦ false
        | some count ↦ ltb f count
      ]

  -- `for d in range(1, maxDepth+1)`, from `d` on.
  unfoldable pub search_depths :
      (numNodes f broadcasterId selfId : ℕ) → DiGraph → (rounds d : ℕ) → Bool
  unfolding found_at
  search_depths numNodes f broadcasterId selfId g zero d = false
  search_depths numNodes f broadcasterId selfId g (suc rounds) d =
      let rest = search_depths numNodes f broadcasterId selfId g rounds (suc d) in
      if found_at numNodes f broadcasterId selfId g d then true else rest

  -- The whole script: true where it writes '1', false where it writes '0'.
  unfoldable pub disjoint_paths_verdict : (selfId f broadcasterId : ℕ) → List Line → Result Bool
  unfolding read_graph search_depths
  disjoint_paths_verdict selfId f broadcasterId lines = do
    (numNodes, g) ← read_graph lines
    ok (search_depths numNodes f broadcasterId selfId g numNodes 1)

  -- disjointPathsToSource.py: the same with node 0 for the broadcaster.
  unfoldable pub disjoint_paths_to_source : (selfId f : ℕ) → List Line → Result Bool
  unfolding read_graph search_depths
  disjoint_paths_to_source selfId f lines = do
    (numNodes, g) ← read_graph lines
    ok (search_depths numNodes f 0 selfId g numNodes 1)
