-- ===== src/KPasted/Joined.antt =====
-- code3/kpasted.py: the edges of the pasted graph join nodes that are there.
use brb_partially_connected.Base.{
  ℕ, zero, suc, ◌+◌, ◌≤◌, ◌<◌, ◌≡◌, refl, ◌∙◌, List, [], ◌∷◌, Option, some, get_elem?, All, length,
  occurrences, add_new, Result, ok, arith,
}
use brb_partially_connected.Nx.Tree.{TreeApi, NodeType, root, shared, internal, unshared}
use brb_partially_connected.Nx.Labelled.{LabelledApi}
use brb_partially_connected.KPasted.Typed.{IsTyped}
use brb_partially_connected.KPasted.Vertices.{HasCopies}
use brb_partially_connected.KPasted.Pasted.{typed-cases}
use brb_partially_connected.KPasted.Paste.{copy_of, join_copies, join_edges, join_typed, join_nodes}

All-get_elem? :
    {A : Type 0} (P : A → Type 0) (xs : List A) (i : ℕ)
    → All P xs
    → i < length xs
    → (a : A) × (get_elem? xs i ≡ some a) × P a
All-get_elem? P [] i all lt = absurd (omega (arith, lt))
All-get_elem? P (x ∷ xs) zero all lt = (x, refl, all.0)
All-get_elem? P (x ∷ xs) (suc i) all lt = All-get_elem? P xs i all.1 (omega (arith, lt))

module _ (tx : TreeApi) (gx : LabelledApi) (k : ℕ) (mapping : ℕ → Option (List ℕ))
    (there : List ℕ) where
  open tx use {Tree, type_of, successors}
  open gx use {Graph, nodes, add_edge}

  abbrev pub IsCopied : ℕ → Type 0
  IsCopied = HasCopies gx k mapping there

  -- The call returns a graph with the same nodes.
  abbrev pub SameNodes : Result Graph → Type 0
  SameNodes result = (g : Graph) × (result ≡ ok g) × (nodes g ≡ there)

  pub copy_of-there :
      (u i : ℕ)
      → IsCopied u
      → i < k
      → (a : ℕ) × (copy_of tx gx mapping u i ≡ ok a) × (0 < occurrences a there)
  copy_of-there u i (xs, e, l, all) lt =
      let (a, found, member) =
        All-get_elem? (λ x. 0 < occurrences x there) xs i all (omega (arith, l, lt)) in
      (a, rw (e, found) refl, member)

  pub add_edge-same :
      (a b : ℕ) (g : Graph)
      → 0 < occurrences a there
      → 0 < occurrences b there
      → nodes g ≡ there
      → nodes (add_edge a b g) ≡ there
  add_edge-same a b g ha hb e =
      let first : add_new a there ≡ there = ground (arith, ha) in
      let second : add_new b there ≡ there = ground (arith, hb) in
      gx.nodes-add_edge a b g ∙ rw (e, first, second) refl

  join_copies-SameNodes :
      (u v rounds i : ℕ) (g : Graph)
      → IsCopied u
      → IsCopied v
      → i + rounds ≤ k
      → nodes g ≡ there
      → SameNodes (join_copies tx gx mapping u v rounds i g)
  unfolding join_copies
  join_copies-SameNodes u v zero i g hu hv le e = (g, refl, e)
  join_copies-SameNodes u v (suc rounds) i g hu hv le e =
      let (a, ea, ha) = copy_of-there u i hu (omega (arith, le)) in
      let (b, eb, hb) = copy_of-there v i hv (omega (arith, le)) in
      let (g', ended, same) =
        join_copies-SameNodes u v rounds (suc i) (add_edge a b g) hu hv (omega (arith, le))
          (add_edge-same a b g ha hb e) in
      (g', rw (ea, eb) ended, same)

  pub join_edges-SameNodes :
      (u : ℕ) (vs : List ℕ) (g : Graph)
      → IsCopied u
      → ((v : ℕ) → 0 < occurrences v vs → IsCopied v)
      → nodes g ≡ there
      → SameNodes (join_edges tx gx mapping k u vs g)
  unfolding join_edges
  join_edges-SameNodes u [] g hu hvs e = (g, refl, e)
  join_edges-SameNodes u (v ∷ vs) g hu hvs e =
      let (g1, first, same) =
        join_copies-SameNodes u v k 0 g hu (hvs v (ground arith)) (omega arith) e in
      let (g2, ended, same2) =
        join_edges-SameNodes u vs g1 hu (λ w h. hvs w (omega (arith, h))) same in
      (g2, rw first ended, same2)

  join_typed-SameNodes :
      (t : Tree) (u : ℕ) (ty : NodeType) (g : Graph)
      → IsCopied u
      → ((v : ℕ) → 0 < occurrences v (successors t u) → IsCopied v)
      → nodes g ≡ there
      → SameNodes (join_typed tx gx mapping k t u ty g)
  unfolding join_typed
  join_typed-SameNodes t u root g hu hvs e = join_edges-SameNodes u (successors t u) g hu hvs e
  join_typed-SameNodes t u shared g hu hvs e = (g, refl, e)
  join_typed-SameNodes t u internal g hu hvs e = join_edges-SameNodes u (successors t u) g hu hvs e
  join_typed-SameNodes t u unshared g hu hvs e = join_edges-SameNodes u (successors t u) g hu hvs e

  pub join_nodes-SameNodes :
      (t : Tree) (us : List ℕ) (g : Graph)
      → ((u : ℕ) → 0 < occurrences u us → IsTyped (type_of t u) × IsCopied u)
      → ((u v : ℕ) → 0 < occurrences v (successors t u) → IsCopied v)
      → nodes g ≡ there
      → SameNodes (join_nodes tx gx mapping k t us g)
  unfolding join_nodes
  join_nodes-SameNodes t [] g hus hvs e = (g, refl, e)
  join_nodes-SameNodes t (u ∷ us) g hus hvs e =
      let (typed, copied) = hus u (ground arith) in
      let (ty, ety) = typed-cases (type_of t u) typed in
      let (g1, first, same) = join_typed-SameNodes t u ty g copied (hvs u) e in
      let (g2, ended, same2) =
        join_nodes-SameNodes t us g1 (λ w h. hus w (omega (arith, h))) hvs same in
      (g2, rw (ety, first) ended, same2)
