-- ===== src/Nx/Api.antt =====
-- The networkx classes that the scripts call, as interfaces: the operations in use, with the
-- documented behaviour that the proofs rely on. Node labels are the scripts' integers.
use brb_partially_connected.Base.{ℕ, ◌≡◌, ◌==◌, Bool, false, ◌&&◌, ◌||◌, Option}

-- `networkx.Graph`, undirected: an edge is found from both of its ends.
pub record GraphApi : Type 1 where
  pub Graph : Type 0
  pub empty : Graph
  pub add_node : ℕ → Graph → Graph
  pub add_edge : ℕ → ℕ → Graph → Graph
  pub has_node : Graph → ℕ → Bool
  pub has_edge : Graph → ℕ → ℕ → Bool
  pub has_node-empty : (u : ℕ) → has_node empty u ≡ false
  pub has_node-add_node :
      (a : ℕ) (g : Graph) (u : ℕ) → has_node (add_node a g) u ≡ ((a == u) || has_node g u)
  pub has_node-add_edge :
      (a b : ℕ) (g : Graph) (u : ℕ)
      → has_node (add_edge a b g) u ≡ ((a == u) || ((b == u) || has_node g u))
  pub has_edge-empty : (u v : ℕ) → has_edge empty u v ≡ false
  pub has_edge-add_node :
      (a : ℕ) (g : Graph) (u v : ℕ) → has_edge (add_node a g) u v ≡ has_edge g u v
  pub has_edge-add_edge :
      (a b : ℕ) (g : Graph) (u v : ℕ)
      → has_edge (add_edge a b g) u v
        ≡ (((a == u) && (b == v)) || (((a == v) && (b == u)) || has_edge g u v))

-- `networkx.DiGraph`: an edge has a direction. `disjoint_paths g s t` is the number of paths that
-- `node_disjoint_paths(g, s, t)` lists, and nothing where the call raises.
pub record DiGraphApi : Type 1 where
  pub DiGraph : Type 0
  pub empty : DiGraph
  pub add_node : ℕ → DiGraph → DiGraph
  pub add_edge : ℕ → ℕ → DiGraph → DiGraph
  pub has_edge : DiGraph → ℕ → ℕ → Bool
  pub disjoint_paths : DiGraph → ℕ → ℕ → Option ℕ
  pub has_edge-empty : (u v : ℕ) → has_edge empty u v ≡ false
  pub has_edge-add_node :
      (a : ℕ) (g : DiGraph) (u v : ℕ) → has_edge (add_node a g) u v ≡ has_edge g u v
  pub has_edge-add_edge :
      (a b : ℕ) (g : DiGraph) (u v : ℕ)
      → has_edge (add_edge a b g) u v ≡ (((a == u) && (b == v)) || has_edge g u v)
