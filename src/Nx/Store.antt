-- ===== src/Nx/Store.antt =====
-- networkx graphs as plain lists: the interface has an implementation, on which tests can run.
use brb_partially_connected.Base.{
  ℕ, suc, refl, ◌==◌, Bool, false, ◌&&◌, ◌||◌, List, [], ◌∷◌, some, if◌then◌else◌,
}
use brb_partially_connected.Nx.Api.{GraphApi, DiGraphApi}

pub record Stored : Type 0 where
  pub node_list : List ℕ
  pub edge_list : List (ℕ × ℕ)

abbrev pub listed : List ℕ → ℕ → Bool
listed [] u = false
listed (a ∷ xs) u = (a == u) || listed xs u

abbrev pub linked : List (ℕ × ℕ) → ℕ → ℕ → Bool
linked [] u v = false
linked ((a, b) ∷ es) u v = ((a == u) && (b == v)) || (((a == v) && (b == u)) || linked es u v)

abbrev pub stored : GraphApi
stored = record {
  Graph = Stored;
  empty = record { node_list = []; edge_list = [] };
  add_node = λ a g. record { node_list = a ∷ g.node_list; edge_list = g.edge_list };
  add_edge = λ a b g. record { node_list = a ∷ b ∷ g.node_list; edge_list = (a, b) ∷ g.edge_list };
  has_node = λ g u. listed g.node_list u;
  has_edge = λ g u v. linked g.edge_list u v;
  has_node-empty = λ u. refl;
  has_node-add_node = λ a g u. refl;
  has_node-add_edge = λ a b g u. refl;
  has_edge-empty = λ u v. refl;
  has_edge-add_node = λ a g u v. refl;
  has_edge-add_edge = λ a b g u v. refl;
}

abbrev pub arcs : List (ℕ × ℕ) → ℕ → ℕ → Bool
arcs [] u v = false
arcs ((a, b) ∷ es) u v = ((a == u) && (b == v)) || arcs es u v

-- The paths from `s` to `t` that have two hops, of which the first is among the edges `es`.
abbrev pub two_hops : List (ℕ × ℕ) → List (ℕ × ℕ) → ℕ → ℕ → ℕ
two_hops all [] s t = 0
two_hops all ((a, b) ∷ es) s t =
    let rest = two_hops all es s t in if (a == s) && arcs all b t then suc rest else rest

-- For tests, where all paths that matter have two hops.
abbrev pub stored_directed : DiGraphApi
stored_directed = record {
  DiGraph = Stored;
  empty = record { node_list = []; edge_list = [] };
  add_node = λ a g. record { node_list = a ∷ g.node_list; edge_list = g.edge_list };
  add_edge = λ a b g. record { node_list = a ∷ b ∷ g.node_list; edge_list = (a, b) ∷ g.edge_list };
  has_edge = λ g u v. arcs g.edge_list u v;
  disjoint_paths = λ g s t. some (two_hops g.edge_list g.edge_list s t);
  has_edge-empty = λ u v. refl;
  has_edge-add_node = λ a g u v. refl;
  has_edge-add_edge = λ a b g u v. refl;
}
