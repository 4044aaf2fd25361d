-- ===== src/Nx/Tree.antt =====
-- `networkx.DiGraph` as the tree generators use it: the nodes carry a type, and the lists of nodes and
-- of successors are in the order of insertion. Of a label that is no node, the record gives no type,
-- no successor and no predecessor.
use brb_partially_connected.Base.{
  ℕ, suc, ◌+◌, ◌-◌, ◌<◌, ◌≡◌, ◌≢◌, not, ◌&&◌, List, [], Option, none, some, ◌==◌, if◌then◌else◌,
  length, occurrences, contains, add_new, erase,
}

-- The values of the attribute 'type'.
pub data NodeType : Type 0 where
  root shared internal unshared : NodeType

pub record TreeApi : Type 1 where
  pub Tree : Type 0
  pub empty : Tree
  pub add_edge : ℕ → ℕ → Tree → Tree
  pub set_type : ℕ → NodeType → Tree → Tree
  pub remove_node : ℕ → Tree → Tree
  pub nodes : Tree → List ℕ
  pub type_of : Tree → ℕ → Option NodeType
  pub successors : Tree → ℕ → List ℕ
  pub in_degree : Tree → ℕ → ℕ
  pub nodes-empty : nodes empty ≡ []
  pub nodes-add_edge :
      (a b : ℕ) (t : Tree) → nodes (add_edge a b t) ≡ add_new b (add_new a (nodes t))
  pub nodes-set_type :
      (a : ℕ) (ty : NodeType) (t : Tree)
      → 0 < occurrences a (nodes t)
      → nodes (set_type a ty t) ≡ nodes t
  pub nodes-remove_node : (a : ℕ) (t : Tree) → nodes (remove_node a t) ≡ erase a (nodes t)
  pub type_of-absent : (t : Tree) (u : ℕ) → occurrences u (nodes t) ≡ 0 → type_of t u ≡ none
  pub type_of-add_edge : (a b : ℕ) (t : Tree) (u : ℕ) → type_of (add_edge a b t) u ≡ type_of t u
  pub type_of-set_type :
      (a : ℕ) (ty : NodeType) (t : Tree) (u : ℕ)
      → 0 < occurrences a (nodes t)
      → type_of (set_type a ty t) u ≡ (if a == u then some ty else type_of t u)
  pub type_of-remove_node :
      (a : ℕ) (t : Tree) (u : ℕ) → a ≢ u → type_of (remove_node a t) u ≡ type_of t u
  pub successors-absent : (t : Tree) (u : ℕ) → occurrences u (nodes t) ≡ 0 → successors t u ≡ []
  pub successors-add_edge :
      (a b : ℕ) (t : Tree) (u : ℕ)
      → successors (add_edge a b t) u
        ≡ (if a == u then add_new b (successors t u) else successors t u)
  pub successors-set_type :
      (a : ℕ) (ty : NodeType) (t : Tree) (u : ℕ) → successors (set_type a ty t) u ≡ successors t u
  pub successors-remove_node :
      (a : ℕ) (t : Tree) (u : ℕ) → a ≢ u → successors (remove_node a t) u ≡ erase a (successors t u)
  pub in_degree-absent : (t : Tree) (u : ℕ) → occurrences u (nodes t) ≡ 0 → in_degree t u ≡ 0
  pub in_degree-add_edge :
      (a b : ℕ) (t : Tree) (u : ℕ)
      → in_degree (add_edge a b t) u ≡ (
          if (b == u) && not (contains (successors t a) b)
          then suc (in_degree t u)
          else in_degree t u)
  pub in_degree-set_type :
      (a : ℕ) (ty : NodeType) (t : Tree) (u : ℕ) → in_degree (set_type a ty t) u ≡ in_degree t u
  pub in_degree-remove_node :
      (a : ℕ) (t : Tree) (u : ℕ)
      → a ≢ u
      → in_degree (remove_node a t) u
        ≡ (if contains (successors t a) u then in_degree t u - 1 else in_degree t u)

module _ (nx : TreeApi) where
  open nx use {Tree, successors, in_degree}

  -- `Tree.degree(u)` of a directed graph counts the edges of both directions.
  abbrev pub degree : Tree → ℕ → ℕ
  degree t u = in_degree t u + length (successors t u)
