-- ===== src/KPasted/Vertices.antt =====
-- code3/kpasted.py: the nodes of the pasted graph.
use native.Mathlib.Decide.{ℕ_discrete}
use brb_partially_connected.Base.{
  append-one, append-none, ℕ, zero, suc, ◌+◌, ◌-◌, ◌≤◌, ◌<◌, ◌≡◌, ◌≢◌, ◌⊎◌, refl, ap, ◌∙◌, true,
  false, ◌&&◌, List, [], ◌∷◌, ◌++◌, Option, some, ◌==◌, ltb, leb, if◌then◌else◌, All, length,
  length-replicate, replicate, occurrences, occurrences-append, add_new, arith,
}
use brb_partially_connected.Nx.Tree.{NodeType, root, shared, internal, unshared}
use brb_partially_connected.Nx.Labelled.{LabelledApi}
use brb_partially_connected.KPasted.Leaves.{weight_of}
use brb_partially_connected.KPasted.Paste.{up_from, Pasting, set_mapping, add_copies, paste_typed}

pub length-up_from : (first count : ℕ) → length (up_from first count) ≡ count
length-up_from first zero = refl
length-up_from first (suc count) = ap suc (length-up_from (suc first) count)

pub occurrences-up_from :
    (u first count : ℕ)
    → occurrences u (up_from first count) ≡ (if leb first u && ltb u (first + count) then 1 else 0)
occurrences-up_from u first zero = ground arith
occurrences-up_from u first (suc count) = ground (arith, occurrences-up_from u (suc first) count)

pub All-weaken :
    {A : Type 0} (P Q : A → Type 0) (xs : List A) → ((x : A) → P x → Q x) → All P xs → All Q xs
All-weaken P Q [] weaker all = tt
All-weaken P Q (x ∷ xs) weaker all = (weaker x all.0, All-weaken P Q xs weaker all.1)

All-occurrences : (xs : List ℕ) → All (λ x. 0 < occurrences x xs) xs
All-occurrences [] = tt
All-occurrences (x ∷ xs) = (
  ground arith,
  All-weaken (λ y. 0 < occurrences y xs) (λ y. 0 < occurrences y (x ∷ xs)) xs
      (λ y h. omega (arith, h)) (All-occurrences xs),
)

All-replicate : {A : Type 0} (P : A → Type 0) (n : ℕ) (x : A) → P x → All P (replicate n x)
All-replicate P zero x p = tt
All-replicate P (suc n) x p = (p, All-replicate P n x p)

-- The nodes that are made for a node of the tree, and the first label after them.
abbrev pub copies : (k label u : ℕ) → NodeType → List ℕ
copies k label u shared = u ∷ []
copies k label u _ = u ∷ up_from label (k - 1)

abbrev pub mapped : (k label u : ℕ) → NodeType → List ℕ
mapped k label u shared = replicate k u
mapped k label u _ = u ∷ up_from label (k - 1)

abbrev pub next_label : (k label : ℕ) → NodeType → ℕ
next_label k label shared = label
next_label k label _ = label + (k - 1)

pub length-copies :
    (k label u : ℕ) (ty : NodeType) → 1 ≤ k → length (copies k label u ty) ≡ weight_of k (some ty)
length-copies k label u root h = omega (arith, length-up_from label (k - 1))
length-copies k label u shared h = refl
length-copies k label u internal h = omega (arith, length-up_from label (k - 1))
length-copies k label u unshared h = omega (arith, length-up_from label (k - 1))

length-mapped : (k label u : ℕ) (ty : NodeType) → 1 ≤ k → length (mapped k label u ty) ≡ k
length-mapped k label u root h = omega (arith, length-up_from label (k - 1))
length-mapped k label u shared h = length-replicate k u
length-mapped k label u internal h = omega (arith, length-up_from label (k - 1))
length-mapped k label u unshared h = omega (arith, length-up_from label (k - 1))

mapped-copies :
    (k label u : ℕ) (ty : NodeType)
    → All (λ x. 0 < occurrences x (copies k label u ty)) (mapped k label u ty)
mapped-copies k label u root = All-occurrences (u ∷ up_from label (k - 1))
mapped-copies k label u shared = All-replicate (λ x. 0 < occurrences x (u ∷ [])) k u (ground arith)
mapped-copies k label u internal = All-occurrences (u ∷ up_from label (k - 1))
mapped-copies k label u unshared = All-occurrences (u ∷ up_from label (k - 1))

-- A copy is the node itself or has a label from the given one up to the next one.
occurrences-copies :
    (k label u v : ℕ) (ty : NodeType)
    → u < label
    → (occurrences v (copies k label u ty) ≤ 1)
      × (0 < occurrences v (copies k label u ty)
          → (u ≡ v) ⊎ ((label ≤ v) × (v < next_label k label ty)))
      × (label ≤ next_label k label ty)
occurrences-copies k label u v root h = ground (arith, occurrences-up_from v label (k - 1))
occurrences-copies k label u v shared h = ground arith
occurrences-copies k label u v internal h = ground (arith, occurrences-up_from v label (k - 1))
occurrences-copies k label u v unshared h = ground (arith, occurrences-up_from v label (k - 1))

module _ (gx : LabelledApi) where
  open gx use {Graph, nodes, add_node}

  nodes-add_new_node :
      (a : ℕ) (g : Graph) → occurrences a (nodes g) ≡ 0 → nodes (add_node a g) ≡ nodes g ++ a ∷ []
  nodes-add_new_node a g new =
      let fresh : add_new a (nodes g) ≡ nodes g ++ a ∷ [] = ground (arith, new) in
      gx.nodes-add_node a g ∙ fresh

  nodes-add_copies :
      (rounds label : ℕ) (g : Graph)
      → ((v : ℕ) → label ≤ v → occurrences v (nodes g) ≡ 0)
      → nodes (add_copies gx rounds label g) ≡ nodes g ++ up_from label rounds
  unfolding add_copies
  nodes-add_copies zero label g free = append-none (nodes g)
  nodes-add_copies (suc rounds) label g free =
      let first = nodes-add_new_node label g (free label (omega arith)) in
      nodes-add_copies rounds (suc label) (add_node label g)
        (λ v le. rw first (ground (arith, le, free v, occurrences-append v (nodes g) (label ∷ []))))
      ∙ ap (λ (xs : List ℕ). xs ++ up_from (suc label) rounds) first
      ∙ append-one (nodes g) label (up_from (suc label) rounds)

  many-copies :
      (k u : ℕ) (s : Pasting gx)
      → occurrences u (nodes s.graph) ≡ 0
      → u < s.node_label
      → ((v : ℕ) → s.node_label ≤ v → occurrences v (nodes s.graph) ≡ 0)
      → nodes (add_copies gx (k - 1) s.node_label (add_node u s.graph))
        ≡ nodes s.graph ++ u ∷ up_from s.node_label (k - 1)
  many-copies k u s new below free =
      let first = nodes-add_new_node u s.graph new in
      nodes-add_copies (k - 1) s.node_label (add_node u s.graph) (λ v le.
        rw first (ground (arith, le, below, free v, occurrences-append v (nodes s.graph) (u ∷ []))))
      ∙ ap (λ (xs : List ℕ). xs ++ up_from s.node_label (k - 1)) first
      ∙ append-one (nodes s.graph) u (up_from s.node_label (k - 1))

  pub paste_typed-copies :
      (k u : ℕ) (ty : NodeType) (s : Pasting gx)
      → occurrences u (nodes s.graph) ≡ 0
      → u < s.node_label
      → ((v : ℕ) → s.node_label ≤ v → occurrences v (nodes s.graph) ≡ 0)
      → let s' = paste_typed gx k u ty s in
        (nodes s'.graph ≡ nodes s.graph ++ copies k s.node_label u ty)
        × (s'.node_mapping ≡ set_mapping gx u (mapped k s.node_label u ty) s.node_mapping)
        × (s'.node_label ≡ next_label k s.node_label ty)
  unfolding paste_typed
  paste_typed-copies k u root s new below free = (many-copies k u s new below free, refl, refl)
  paste_typed-copies k u shared s new below free = (nodes-add_new_node u s.graph new, refl, refl)
  paste_typed-copies k u internal s new below free = (many-copies k u s new below free, refl, refl)
  paste_typed-copies k u unshared s new below free = (many-copies k u s new below free, refl, refl)

  -- The node of the tree has `k` copies in the graph.
  abbrev pub HasCopies : (k : ℕ) → (ℕ → Option (List ℕ)) → List ℕ → ℕ → Type 0
  HasCopies k mapping there u =
      (xs : List ℕ) × (mapping u ≡ some xs)
      × (length xs ≡ k)
      × All (λ x. 0 < occurrences x there) xs

  -- The nodes of the graph are distinct and below the next label, and none of `us` is among them.
  abbrev pub Fresh : List ℕ → List ℕ → ℕ → Type 0
  Fresh us there label =
      (v : ℕ)
      → (occurrences v there ≤ 1)
        × (label ≤ v → occurrences v there ≡ 0)
        × (0 < occurrences v us → (occurrences v there ≡ 0) × (v < label))

  module _ (k u : ℕ) (ty : NodeType) (us there : List ℕ) (label : ℕ)
      (distinct : (v : ℕ) → occurrences v (u ∷ us) ≤ 1) (fresh : Fresh (u ∷ us) there label) where
    here : (occurrences u there ≡ 0) × (u < label)
    here = (fresh u).2 (ground arith)

    pub Fresh-copies : Fresh us (there ++ copies k label u ty) (next_label k label ty)
    Fresh-copies v =
        let old = fresh v in
        let new = occurrences-copies k label u v ty here.1 in
        let sum = occurrences-append v there (copies k label u ty) in
        let once = distinct v in
        elim (ℕ_discrete u v) [
          | yes e ↦ rw (← e) (
              ground (
                arith,
                fresh u,
                distinct u,
                here,
                occurrences-copies k label u u ty here.1,
                occurrences-append u there (copies k label u ty),
              ))
          | no ne ↦ ground (arith, old, new, sum, once, ne)
        ]

    pub HasCopies-own :
        1 ≤ k
        → (mapping : ℕ → Option (List ℕ))
        → HasCopies k
            (set_mapping gx u (mapped k label u ty) mapping)
            (there ++ copies k label u ty)
            u
    HasCopies-own positive mapping =
        let same : (u == u) ≡ true = ground arith in
        (
          mapped k label u ty,
          rw same refl,
          length-mapped k label u ty positive,
          All-weaken (λ x. 0 < occurrences x (copies k label u ty))
              (λ x. 0 < occurrences x (there ++ copies k label u ty)) (mapped k label u ty)
              (λ x h. omega (arith, h, occurrences-append x there (copies k label u ty)))
              (mapped-copies k label u ty),
        )

    pub HasCopies-kept :
        (mapping : ℕ → Option (List ℕ)) (v : ℕ)
        → u ≢ v
        → HasCopies k mapping there v
        → HasCopies k
            (set_mapping gx u (mapped k label u ty) mapping)
            (there ++ copies k label u ty)
            v
    HasCopies-kept mapping v ne (xs, e, l, all) =
        let other : (u == v) ≡ false = ground (arith, ne) in
        (
          xs,
          rw other e,
          l,
          All-weaken (λ x. 0 < occurrences x there)
              (λ x. 0 < occurrences x (there ++ copies k label u ty)) xs
              (λ x h. omega (arith, h, occurrences-append x there (copies k label u ty))) all,
        )
