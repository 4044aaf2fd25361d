-- ===== src/DisjointPaths/Layers.antt =====
-- Which edges the graph read from the file has (code of BroadcastSign/simulations/disjointPaths.py).
use native.Mathlib.Nat.{mod-lt, div-add-mod', div-lt_iff_lt-mul}
use brb_partially_connected.Base.{
  Line, ℕ, zero, suc, ◌+◌, ◌-◌, ◌*◌, ◌/◌, ◌%◌, ◌≤◌, ◌<◌, ◌≡◌, refl, ◌↔◌, ◌⊎◌, inl, inr, ⊎_elim,
  true, List, [], ◌∷◌, none, some, ltb, ◌==◌, if◌then◌else◌, get_elem?, set, get_or, replicate,
  get_or-replicate, length, ok, arith, Bool-cases,
}
use brb_partially_connected.Nx.{DiGraphApi}
use brb_partially_connected.Nx.Adds.{InRange, InRange-suc, Adds, Adds_iff, Adds_if, Adds-for_range}
use brb_partially_connected.DisjointPaths.Defs.{
  read_row, read_rows, cell, add_layers, add_links, link_layers, read_graph,
}

-- Part `t` of line `i` of the file reads 1.
abbrev pub Marked : List Line → ℕ → ℕ → Type 0
Marked lines i t =
    (line : Line) × (get_elem? lines i ≡ some line) × (get_elem? line t ≡ some (some 1))

get_or-set :
    (row : List ℕ) (i j : ℕ)
    → i < length row
    → get_or (set row i 1) j 0 ≡ (if i == j then 1 else get_or row j 0)
get_or-set [] i j h = absurd (omega arith)
get_or-set (x ∷ row) zero zero h = refl
get_or-set (x ∷ row) zero (suc j) h = ground arith
get_or-set (x ∷ row) (suc i) zero h = ground arith
get_or-set (x ∷ row) (suc i) (suc j) h = ground (arith, get_or-set row i j)

read_row_lem :
    (dst : ℕ) (line : Line) (row row' : List ℕ) (j : ℕ)
    → read_row dst line row ≡ ok row'
    → (get_or row' j 0 ≡ 1)
      ↔ ((get_or row j 0 ≡ 1) ⊎ (dst ≤ j) × (get_elem? line (j - dst) ≡ some (some 1)))
unfolding read_row
read_row_lem dst [] row row' j e = ground arith
read_row_lem dst (none ∷ line) row row' j e = cc
read_row_lem dst (some entry ∷ line) row row' j e =
    let later : (dst < j) → get_elem? (some entry ∷ line) (j - dst) ≡ get_elem? line (j - suc dst) =
      λ h. let p : j - dst ≡ suc (j - suc dst) = omega arith in rw p in
    let now : (dst ≡ j) → get_elem? (some entry ∷ line) (j - dst) ≡ some (some entry) =
      λ h. let p : j - dst ≡ 0 = omega arith in rw p in
    elim (Bool-cases (entry == 1)) [
      | inl one ↦ elim (Bool-cases (ltb dst (length row))) [
        | inl fits ↦
            let ih =
              read_row_lem (suc dst) line (set row dst 1) row' j (rw (one, fits, read_row) at e) in
            ground (arith, ih, get_or-set row dst j, later, now)
        | inr out ↦ cc (rw (one, out, read_row) at e)
      ]
      | inr other ↦
          let ih = read_row_lem (suc dst) line row row' j (rw (other, read_row) at e) in
          ground (arith, ih, later, now)
    ]

read_rows-suc :
    (lines : List Line) (numNodes iline rounds src : ℕ) (rows : List (List ℕ))
    → read_rows lines numNodes iline (suc rounds) src ≡ ok rows
    → (line : Line) × (row : List ℕ) × (rest : List (List ℕ)) × (get_elem? lines (iline + src)
        ≡ some line)
      × (read_row 0 line (replicate numNodes 0) ≡ ok row)
      × (read_rows lines numNodes iline rounds (suc src) ≡ ok rest)
      × (rows ≡ row ∷ rest)
unfolding read_rows
read_rows-suc lines numNodes iline rounds src rows e = ground arith

-- Row `s` of the matrix holds what line `iline + src + s` marks.
read_rows_lem :
    (lines : List Line) (numNodes iline rounds src : ℕ) (rows : List (List ℕ)) (s t : ℕ)
    → read_rows lines numNodes iline rounds src ≡ ok rows
    → s < rounds
    → (cell rows s t ≡ 1) ↔ Marked lines (iline + (src + s)) t
read_rows_lem lines numNodes iline zero src rows s t e lt = absurd (omega arith)
read_rows_lem lines numNodes iline (suc rounds) src rows zero t e lt =
    let (line, row, rest, at_line, read, _, parts) =
      read_rows-suc lines numNodes iline rounds src rows e in
    let marks = read_row_lem 0 line (replicate numNodes 0) row t read in
    let blank = get_or-replicate {A = ℕ} numNodes t 0 in
    let same : src + 0 ≡ src = omega arith in
    let from_zero : t - 0 ≡ t = omega arith in
    rw (same, parts)
      (
        λ one. (line, at_line, ground (arith, marks, blank, from_zero)),
        λ (line', at_line', m). ground (arith, marks, blank, from_zero),
      )
read_rows_lem lines numNodes iline (suc rounds) src rows (suc s) t e lt =
    let (line, row, rest, _, _, read, parts) =
      read_rows-suc lines numNodes iline rounds src rows e in
    let ih = read_rows_lem lines numNodes iline rounds (suc src) rest s t read (omega arith) in
    let shift : src + suc s ≡ suc src + s = omega arith in rw (shift, parts) ih

-- The digits of `d * n + s` to the base `n`.
pub digits_of : (n d s x : ℕ) → s < n → d * n + s ≡ x → (x / n ≡ d) × (x % n ≡ s)
digits_of n d s x lt e = grind (arith, div-add-mod', mod-lt)

of_digits : (n d x : ℕ) → x / n ≡ d → d * n + x % n ≡ x
of_digits n d x e = rw (← e) (div-add-mod' x n)

pub layer_iff : (n x : ℕ) → (x < n * n) ↔ (x / n < n)
layer_iff zero x = grind arith
layer_iff (suc n) x =
    let h = div-lt_iff_lt-mul {k = suc n} {x = x} {y = suc n} (omega arith) in (h.1, h.0)

-- The file links node `s` of layer `d` to node `t` of layer `d + 1`, and these are `x` and `y`.
abbrev pub Link : List Line → ℕ → ℕ → ℕ → ℕ → Type 0
Link lines n d x y = (x / n ≡ d) × (y / n ≡ d + 1) × Marked lines (2 + d * (n + 1) + x % n) (y % n)

module _ (nx : DiGraphApi) (lines : List Line) (n x y : ℕ) where
  open nx use {DiGraph, empty, add_edge, has_edge}

  abbrev Has : DiGraph → Type 0
  Has g = has_edge g x y ≡ true

  Adds-add_edge : (a b : ℕ) → Adds Has (add_edge a b) ((a ≡ x) × (b ≡ y))
  Adds-add_edge a b g = rw (nx.has_edge-add_edge a b g x y) (ground arith)

  link_layers-suc :
      (rounds d : ℕ) (g g' : DiGraph)
      → link_layers nx lines n (suc rounds) d g ≡ ok g'
      → (matrix : List (List ℕ)) × (read_rows lines n (2 + d * (n + 1)) n 0 ≡ ok matrix)
        × (link_layers nx lines n rounds (suc d) (add_links nx n d matrix g) ≡ ok g')
  unfolding link_layers
  link_layers-suc rounds d g g' e = ground arith

  -- Some cell of the matrix is 1, and stands for the edge from `x` to `y`.
  abbrev Linked : ℕ → List (List ℕ) → Type 0
  Linked d matrix = InRange 0 n λ s.
      InRange 0 n λ t. ((cell matrix s t == 1) ≡ true) × ((d * n + s ≡ x) × ((d + 1) * n + t ≡ y))

  Adds-add_links :
      (d : ℕ) (matrix : List (List ℕ)) → Adds Has (add_links nx n d matrix) (Linked d matrix)
  unfolding add_links
  Adds-add_links d matrix = Adds-for_range Has _ _ 0 n λ s _ _.
      Adds-for_range Has _ _ 0 n λ t _ _.
        Adds_if Has (cell matrix s t == 1) _ _ (Adds-add_edge (d * n + s) ((d + 1) * n + t))

  -- One round: the links of layer `d`.
  links_iff :
      (d : ℕ) (matrix : List (List ℕ))
      → 0 < n
      → read_rows lines n (2 + d * (n + 1)) n 0 ≡ ok matrix
      → Linked d matrix ↔ Link lines n d x y
  links_iff d matrix pos read =
      let cells =
        read_rows_lem lines n (2 + d * (n + 1)) n 0 matrix (x % n) (y % n) read (mod-lt x pos) in
      let row : 2 + d * (n + 1) + (0 + x % n) ≡ 2 + d * (n + 1) + x % n = omega arith in
      (
        λ (s, _, s_lt, (t, _, t_lt, (one, (e, e')))).
            let (div_x, mod_x) = digits_of n d s x s_lt e in
            let (div_y, mod_y) = digits_of n (d + 1) t y t_lt e' in
            (div_x, div_y, rw row at (cells.0 (rw (mod_x, mod_y) (ground arith)))),
        λ (e, e', marked). (
          x % n,
          omega arith,
          mod-lt x pos,
          (
            y % n,
            omega arith,
            mod-lt y pos,
            (
              ground (arith, cells.1 (rw row marked)),
              (of_digits n d x e, of_digits n (d + 1) y e'),
            ),
          ),
        ),
      )

  link_layers_lem :
      (rounds d : ℕ) (g g' : DiGraph)
      → rounds ≤ n
      → link_layers nx lines n rounds d g ≡ ok g'
      → Has g' ↔ (InRange d (d + rounds) (λ e. Link lines n e x y) ⊎ Has g)
  unfolding link_layers
  link_layers_lem zero d g g' le e =
      let same : g ≡ g' = ground arith in
      rw (← same) (inr, ⊎_elim (λ (i, le, lt, _). absurd (omega arith)) (λ p. p))
  link_layers_lem (suc rounds) d g g' le e =
      let (matrix, read, next) = link_layers-suc rounds d g g' e in
      let ih = link_layers_lem rounds (suc d) (add_links nx n d matrix g) g' (omega arith) next in
      let now = Adds-add_links d matrix g in
      let split = InRange-suc (λ e. Link lines n e x y) d (d + suc rounds) (omega arith) in
      let shift : suc d + rounds ≡ d + suc rounds = omega arith in
      ground (arith, rw shift at ih, now, split, links_iff d matrix (omega arith) read)

  Adds-add_layers : Adds Has (add_layers nx n) ⊥
  unfolding add_layers
  Adds-add_layers =
      Adds_iff Has _ (InRange 0 (n + 1) λ d. InRange 0 n λ j. ⊥) ⊥ (λ p. p.3.3, absurd)
        (Adds-for_range Has _ _ 0 (n + 1) λ d _ _.
          Adds-for_range Has _ _ 0 n
            λ j _ _ g. rw (nx.has_edge-add_node (d * n + j) g x y) (inr, ⊎_elim absurd (λ h. h)))

  read_graph-ok :
      (g : DiGraph)
      → read_graph nx lines ≡ ok (n, g)
      → link_layers nx lines n n 0 (add_layers nx n empty) ≡ ok g
  unfolding read_graph
  read_graph-ok g e = ground arith

  -- The graph read from a file for `n` nodes has an edge from `x` to `y` exactly if `x` lies in one of
  -- the layers 0 to n - 1, `y` lies in the next layer, and the matrix of that layer marks the one
  -- node's row at the other's column.
  pub read_graph-edges :
      (g : DiGraph)
      → read_graph nx lines ≡ ok (n, g)
      → (has_edge g x y ≡ true)
        ↔ ((x < n * n) × (y / n ≡ x / n + 1) × Marked lines (2 + x / n * (n + 1) + x % n) (y % n))
  read_graph-edges g e =
      let links = link_layers_lem n 0 _ g (omega arith) (read_graph-ok g e) in
      let blank = Adds-add_layers empty in
      let empty_edge = nx.has_edge-empty x y in
      let below = layer_iff n x in
      (
        λ has.
            ⊎_elim
              (λ (d, _, d_lt, (at_d, next, marked)).
                (ground arith, ground arith, rw (← at_d) at marked))
              (λ h. absurd (ground arith)) (links.0 has),
        λ (lt, next, marked).
            links.1 (inl (x / n, omega arith, ground arith, (refl, next, marked))),
      )
