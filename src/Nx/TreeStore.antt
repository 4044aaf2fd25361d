-- ===== src/Nx/TreeStore.antt =====
-- An implementation of the tree interface: a list of nodes and functions, which are read at the
-- nodes of the list alone.
use brb_partially_connected.Base.{
  ℕ, suc, ◌-◌, refl, Bool, not, ◌&&◌, List, [], Option, none, some, ◌==◌, if◌then◌else◌, contains,
  add_new, erase, arith, occurrences-add_new, occurrences-erase,
}
use brb_partially_connected.Nx.Tree.{NodeType, TreeApi}

pub record Stored : Type 0 where
  pub stored_nodes : List ℕ
  pub stored_type : ℕ → Option NodeType
  pub stored_successors : ℕ → List ℕ
  pub stored_in_degree : ℕ → ℕ

abbrev is_node : Stored → ℕ → Bool
is_node t u = contains t.stored_nodes u

abbrev type_at : Stored → ℕ → Option NodeType
type_at t u = if is_node t u then t.stored_type u else none

abbrev successors_at : Stored → ℕ → List ℕ
successors_at t u = if is_node t u then t.stored_successors u else []

abbrev in_degree_at : Stored → ℕ → ℕ
in_degree_at t u = if is_node t u then t.stored_in_degree u else 0

abbrev stored_add_edge : ℕ → ℕ → Stored → Stored
stored_add_edge a b t = record {
  stored_nodes = add_new b (add_new a t.stored_nodes);
  stored_type = type_at t;
  stored_successors = λ u. if a == u then add_new b (successors_at t u) else successors_at t u;
  stored_in_degree = λ u.
      if (b == u) && not (contains (successors_at t a) b)
      then suc (in_degree_at t u)
      else in_degree_at t u;
}

abbrev stored_set_type : ℕ → NodeType → Stored → Stored
stored_set_type a ty t = record t { stored_type = λ u. if a == u then some ty else type_at t u }

abbrev stored_remove_node : ℕ → Stored → Stored
stored_remove_node a t = record {
  stored_nodes = erase a t.stored_nodes;
  stored_type = type_at t;
  stored_successors = λ u. erase a (successors_at t u);
  stored_in_degree =
      λ u. if contains (successors_at t a) u then in_degree_at t u - 1 else in_degree_at t u;
}

abbrev pub stored_trees : TreeApi
stored_trees = record {
  Tree = Stored;
  empty = record {
    stored_nodes = [];
    stored_type = λ u. none;
    stored_successors = λ u. [];
    stored_in_degree = λ u. 0;
  };
  add_edge = stored_add_edge;
  set_type = stored_set_type;
  remove_node = stored_remove_node;
  nodes = λ t. t.stored_nodes;
  type_of = type_at;
  successors = successors_at;
  in_degree = in_degree_at;
  nodes-empty = refl;
  nodes-add_edge = λ a b t. refl;
  nodes-set_type = λ a ty t here. refl;
  nodes-remove_node = λ a t. refl;
  type_of-absent = λ t u h. ground arith;
  type_of-add_edge = λ a b t u. ground (
    arith,
    occurrences-add_new u b (add_new a t.stored_nodes),
    occurrences-add_new u a t.stored_nodes,
  );
  type_of-set_type = λ a ty t u here. ground arith;
  type_of-remove_node = λ a t u ne. ground (arith, occurrences-erase u a t.stored_nodes);
  successors-absent = λ t u h. ground arith;
  successors-add_edge = λ a b t u. ground (
    arith,
    occurrences-add_new u b (add_new a t.stored_nodes),
    occurrences-add_new u a t.stored_nodes,
  );
  successors-set_type = λ a ty t u. ground arith;
  successors-remove_node = λ a t u ne. ground (arith, occurrences-erase u a t.stored_nodes);
  in_degree-absent = λ t u h. ground arith;
  in_degree-add_edge = λ a b t u. ground (
    arith,
    occurrences-add_new u b (add_new a t.stored_nodes),
    occurrences-add_new u a t.stored_nodes,
  );
  in_degree-set_type = λ a ty t u. ground arith;
  in_degree-remove_node = λ a t u ne. ground (arith, occurrences-erase u a t.stored_nodes);
}
