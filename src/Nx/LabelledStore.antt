-- ===== src/Nx/LabelledStore.antt =====
-- An implementation of the graphs with ordered nodes: lists of nodes and of edges.
use brb_partially_connected.Base.{ℕ, refl, List, [], ◌∷◌, map, add_new}
use brb_partially_connected.Nx.Labelled.{LabelledApi, add_all}

pub record StoredGraph : Type 0 where
  pub node_list : List ℕ
  pub edge_list : List (ℕ × ℕ)

abbrev rename : (ℕ → ℕ) → ℕ × ℕ → ℕ × ℕ
rename f (a, b) = (f a, f b)

abbrev pub stored_labels : LabelledApi
stored_labels = record {
  Graph = StoredGraph;
  empty = record { node_list = []; edge_list = [] };
  add_node = λ a g. record g { node_list = add_new a g.node_list };
  add_edge = λ a b g. record {
    node_list = add_new b (add_new a g.node_list);
    edge_list = (a, b) ∷ g.edge_list;
  };
  relabel = λ f g. record {
    node_list = add_all (map f g.node_list) [];
    edge_list = map (rename f) g.edge_list;
  };
  nodes = λ g. g.node_list;
  nodes-empty = refl;
  nodes-add_node = λ a g. refl;
  nodes-add_edge = λ a b g. refl;
  nodes-relabel = λ f g. refl;
}
