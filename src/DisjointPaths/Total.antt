-- ===== src/DisjointPaths/Total.antt =====
-- On a well-formed file the graph is read with no exception (disjointPaths.py).
use brb_partially_connected.Base.{
  Line, ℕ, zero, suc, ◌+◌, ◌*◌, ◌≤◌, ◌<◌, ◌≡◌, refl, inl, inr, List, [], ◌∷◌, none, some, ◌==◌,
  get_elem?, set, replicate, length, length-set, length-replicate, ok, arith, Bool-cases,
}
use brb_partially_connected.Nx.{DiGraphApi}
use brb_partially_connected.DisjointPaths.Defs.{
  read_row, read_rows, add_layers, add_links, link_layers, read_graph,
}

-- Each part of the line is a number.
abbrev pub AllNumbers : Line → Type 0
AllNumbers [] = Unit
AllNumbers (none ∷ line) = ⊥
AllNumbers (some n ∷ line) = AllNumbers line

-- The file is for `n` nodes: its first line says so, and each of the `n` matrices of `n` rows stands
-- in its place, no row being longer than `n`.
pub record IsGraphFile (lines : List Line) (n : ℕ) : Type 0 where
  pub first : get_elem? lines 0 ≡ some (some n ∷ [])
  pub row :
      (d s : ℕ)
      → d < n
      → s < n
      → (line : Line) × (get_elem? lines (2 + d * (n + 1) + s) ≡ some line)
        × (length line ≤ n)
        × AllNumbers line

read_row_total :
    (dst : ℕ) (line : Line) (row : List ℕ)
    → AllNumbers line
    → dst + length line ≤ length row
    → (row' : List ℕ) × (read_row dst line row ≡ ok row')
unfolding read_row
read_row_total dst [] row h fits = (row, refl)
read_row_total dst (none ∷ line) row h fits = absurd h
read_row_total dst (some entry ∷ line) row h fits = elim (Bool-cases (entry == 1)) [
  | inl one ↦
      let (row', e) =
        read_row_total (suc dst) line (set row dst 1) h (omega (arith, length-set row dst 1)) in
      (row', ground arith)
  | inr other ↦
      let (row', e) = read_row_total (suc dst) line row h (omega arith) in (row', ground arith)
]

module _ (lines : List Line) (n : ℕ) (file : IsGraphFile lines n) where
  read_rows_total :
      (d rounds src : ℕ)
      → d < n
      → src + rounds ≤ n
      → (rows : List (List ℕ)) × (read_rows lines n (2 + d * (n + 1)) rounds src ≡ ok rows)
  unfolding read_rows
  read_rows_total d zero src lt fits = ([], refl)
  read_rows_total d (suc rounds) src lt fits =
      let (line, at_line, short, numbers) = file.row d src lt (omega arith) in
      let (row, read) =
        read_row_total 0 line (replicate n 0) numbers
          (omega (arith, length-replicate {A = ℕ} n 0)) in
      let (rows, rest) = read_rows_total d rounds (suc src) lt (omega arith) in
      (row ∷ rows, ground arith)

  module _ (nx : DiGraphApi) where
    link_layers_total :
        (rounds d : ℕ) (g : nx.DiGraph)
        → d + rounds ≤ n
        → (g' : nx.DiGraph) × (link_layers nx lines n rounds d g ≡ ok g')
    unfolding link_layers
    link_layers_total zero d g fits = (g, refl)
    link_layers_total (suc rounds) d g fits =
        let (matrix, read) = read_rows_total d n 0 (omega arith) (omega arith) in
        let (g', rest) =
          link_layers_total rounds (suc d) (add_links nx n d matrix g) (omega arith) in
        (g', ground arith)

    pub read_graph_total : (g : nx.DiGraph) × (read_graph nx lines ≡ ok (n, g))
    unfolding read_graph
    read_graph_total =
        let (g, linked) = link_layers_total n 0 (add_layers nx n nx.empty) (omega arith) in
        (g, ground (arith, file.first))
