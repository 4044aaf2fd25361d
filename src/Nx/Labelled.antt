-- ===== src/Nx/Labelled.antt =====
-- `networkx.Graph` where the order of the nodes matters: `nodes` lists them in the order of insertion.
use brb_partially_connected.Base.{ℕ, ◌≡◌, List, [], ◌∷◌, map, add_new}

-- The elements in the order of their first occurrences, after the ones that are there.
abbrev pub add_all : List ℕ → List ℕ → List ℕ
add_all [] there = there
add_all (x ∷ xs) there = add_all xs (add_new x there)

-- `relabel f g` is `relabel_nodes(g, f)`.
pub record LabelledApi : Type 1 where
  pub Graph : Type 0
  pub empty : Graph
  pub add_node : ℕ → Graph → Graph
  pub add_edge : ℕ → ℕ → Graph → Graph
  pub relabel : (ℕ → ℕ) → Graph → Graph
  pub nodes : Graph → List ℕ
  pub nodes-empty : nodes empty ≡ []
  pub nodes-add_node : (a : ℕ) (g : Graph) → nodes (add_node a g) ≡ add_new a (nodes g)
  pub nodes-add_edge :
      (a b : ℕ) (g : Graph) → nodes (add_edge a b g) ≡ add_new b (add_new a (nodes g))
  pub nodes-relabel : (f : ℕ → ℕ) (g : Graph) → nodes (relabel f g) ≡ add_all (map f (nodes g)) []
