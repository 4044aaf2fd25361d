-- ===== src/Nx/Adds.antt =====
-- Which nodes and edges a piece of code adds to a graph, whatever the graph held before: one rule
-- for each construct that the generators are built from.
use brb_partially_connected.Base.{
  Bool, if◌then◌else◌, ℕ, zero, suc, ◌+◌, ◌-◌, ◌≤◌, ◌<◌, ◌≡◌, ◌↔◌, ◌⊎◌, inl, inr, ⊎_elim, true,
  for_count, for_range, arith,
}
use native.Mathlib.Decide.{ℕ_discrete, dec_le}
use brb_partially_connected.Nx.Api.{GraphApi}

-- Some index of the range satisfies the predicate.
abbrev pub InRange : ℕ → ℕ → (ℕ → Type 0) → Type 0
InRange lo hi P = (i : ℕ) × (lo ≤ i) × (i < hi) × P i

-- The undirected edge from `a` to `b` joins `u` and `v`.
abbrev pub Joins : ℕ → ℕ → ℕ → ℕ → Type 0
Joins a b u v = (a ≡ u) × (b ≡ v) ⊎ (a ≡ v) × (b ≡ u)

-- The first index of a range, or one of the others.
pub InRange-suc :
    (P : ℕ → Type 0) (lo hi : ℕ) → lo < hi → InRange lo hi P ↔ (P lo ⊎ InRange (suc lo) hi P)
InRange-suc P lo hi h = (
  λ (i, le, lt, p). elim (ℕ_discrete i lo) [
    | yes e ↦ inl (rw e at p)
    | no ne ↦ inr (i, omega arith, lt, p)
  ],
  ⊎_elim (λ p. (lo, omega arith, h, p)) (λ (i, le, lt, p). (i, omega arith, lt, p)),
)

pub InRange_iff :
    (P Q : ℕ → Type 0) (lo hi : ℕ)
    → ((i : ℕ) → lo ≤ i → i < hi → P i ↔ Q i)
    → InRange lo hi P ↔ InRange lo hi Q
InRange_iff P Q lo hi h =
    (λ (i, le, lt, p). (i, le, lt, (h i le lt).0 p), λ (i, le, lt, q). (i, le, lt, (h i le lt).1 q))

-- Both predicates below have this form, at given nodes: `f` makes `Holds` true exactly where `E`
-- is, and leaves it true where it was.
abbrev pub Adds : {S : Type 0} → (S → Type 0) → (S → S) → Type 0 → Type 0
Adds {S} Holds f E = (s : S) → Holds (f s) ↔ (E ⊎ Holds s)

module _ {S : Type 0} (Holds : S → Type 0) where
  pub Adds-seq :
      (f f' : S → S) (E E' : Type 0)
      → Adds Holds f E
      → Adds Holds f' E'
      → Adds Holds (λ s. f' (f s)) (E ⊎ E')
  Adds-seq f f' E E' h h' s = ground (arith, h s, h' (f s))

  pub Adds_iff : (f : S → S) (E E' : Type 0) → E ↔ E' → Adds Holds f E → Adds Holds f E'
  Adds_iff f E E' e h s = ground (arith, h s, e)

  -- Code under an `if` with no `else`.
  pub Adds_if :
      (b : Bool) (f : S → S) (E : Type 0)
      → Adds Holds f E
      → Adds Holds (λ s. if b then f s else s) ((b ≡ true) × E)
  Adds_if b f E h s = ground (arith, h s)

  Adds-for_count :
      (E : ℕ → Type 0) (body : ℕ → S → S) (count lo hi : ℕ)
      → lo + count ≡ hi
      → ((i : ℕ) → lo ≤ i → i < hi → Adds Holds (body i) (E i))
      → Adds Holds (for_count count lo body) (InRange lo hi E)
  Adds-for_count E body zero lo hi e h s =
      (inr, ⊎_elim (λ (i, le, lt, _). absurd (omega arith)) (λ p. p))
  Adds-for_count E body (suc count) lo hi e h s =
      let first = h lo (omega arith) (omega arith) s in
      let rest =
        Adds-for_count E body count (suc lo) hi (omega arith) (λ i le lt. h i (omega arith) lt)
          (body lo s) in
      let split = InRange-suc E lo hi (omega arith) in
      (
        λ now.
            ⊎_elim (λ later. inl (split.1 (inr later)))
              (λ p. ⊎_elim (λ here. inl (split.1 (inl here))) inr (first.0 p)) (rest.0 now),
        ⊎_elim
            (λ some_index.
              ⊎_elim (λ here. rest.1 (inr (first.1 (inl here)))) (λ later. rest.1 (inl later))
                (split.0 some_index))
            (λ before. rest.1 (inr (first.1 (inr before)))),
      )

  pub Adds-for_range :
      (E : ℕ → Type 0) (body : ℕ → S → S) (lo hi : ℕ)
      → ((i : ℕ) → lo ≤ i → i < hi → Adds Holds (body i) (E i))
      → Adds Holds (for_range lo hi body) (InRange lo hi E)
  unfolding for_range
  Adds-for_range E body lo hi h s = elim (dec_le lo hi) [
    | yes le ↦ Adds-for_count E body (hi - lo) lo hi (omega arith) h s
    | no gt ↦
        let none_left : hi - lo ≡ 0 = omega arith in
        rw (none_left, for_count) (inr, ⊎_elim (λ (i, le, lt, _). absurd (omega arith)) (λ p. p))
  ]

module _ (nx : GraphApi) where
  open nx use {Graph, empty, add_node, add_edge, has_node, has_edge}

  abbrev pub AddsEdges : (Graph → Graph) → (ℕ → ℕ → Type 0) → Type 0
  AddsEdges f E = (u v : ℕ) → Adds (λ g. has_edge g u v ≡ true) f (E u v)

  abbrev pub AddsNodes : (Graph → Graph) → (ℕ → Type 0) → Type 0
  AddsNodes f P = (u : ℕ) → Adds (λ g. has_node g u ≡ true) f (P u)

  pub AddsEdges-add_node : (a : ℕ) → AddsEdges (add_node a) (λ u v. ⊥)
  AddsEdges-add_node a u v g = rw (nx.has_edge-add_node a g u v) (inr, ⊎_elim absurd (λ h. h))

  pub AddsEdges-add_edge : (a b : ℕ) → AddsEdges (add_edge a b) (Joins a b)
  AddsEdges-add_edge a b u v g = rw (nx.has_edge-add_edge a b g u v) (ground arith)

  pub AddsNodes-add_node : (a : ℕ) → AddsNodes (add_node a) (λ u. a ≡ u)
  AddsNodes-add_node a u g = rw (nx.has_node-add_node a g u) (ground arith)

  pub AddsNodes-add_edge : (a b : ℕ) → AddsNodes (add_edge a b) (λ u. (a ≡ u) ⊎ (b ≡ u))
  AddsNodes-add_edge a b u g = rw (nx.has_node-add_edge a b g u) (ground arith)
