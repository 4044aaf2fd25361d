-- ===== src/KPasted/Pasted.antt =====
-- code3/kpasted.py: the loop over the nodes of the tree makes as many nodes as the tree stands for.
use native.Mathlib.Decide.{ℕ_discrete}
use brb_partially_connected.Base.{
  ℕ, ◌+◌, ◌≤◌, ◌<◌, ◌≡◌, ◌⊎◌, inl, inr, ⊎_elim, refl, ap, ◌∙◌, List, [], ◌∷◌, Option, none, some,
  length, length-append, occurrences, weigh, Result, ok, arith,
}
use brb_partially_connected.Nx.Tree.{TreeApi, NodeType}
use brb_partially_connected.Nx.Labelled.{LabelledApi}
use brb_partially_connected.KPasted.Leaves.{weight_of}
use brb_partially_connected.KPasted.Typed.{IsTyped}
use brb_partially_connected.KPasted.Paste.{Pasting, paste_typed, paste_nodes}
use brb_partially_connected.KPasted.Vertices.{
  copies, length-copies, paste_typed-copies, HasCopies, Fresh, Fresh-copies, HasCopies-own,
  HasCopies-kept,
}

pub typed-cases : (o : Option NodeType) → IsTyped o → (ty : NodeType) × (o ≡ some ty)
typed-cases none typed = absurd typed
typed-cases (some ty) typed = (ty, refl)

module _ (tx : TreeApi) (gx : LabelledApi) where
  open tx use {Tree, type_of}
  open gx use {Graph, nodes}

  -- What the loop over the nodes of the tree comes to.
  abbrev pub Pastes : (k : ℕ) → Tree → List ℕ → Pasting gx → Result (Pasting gx) → Type 0
  Pastes k t us s result =
      (s' : Pasting gx) × (result ≡ ok s')
      × (length (nodes s'.graph)
          ≡ length (nodes s.graph) + weigh (λ u. weight_of k (type_of t u)) us)
      × ((v : ℕ) → occurrences v (nodes s'.graph) ≤ 1)
      × ((v : ℕ)
          → (0 < occurrences v us) ⊎ HasCopies gx k s.node_mapping (nodes s.graph) v
          → HasCopies gx k s'.node_mapping (nodes s'.graph) v)

  paste_nodes_chained :
      (k : ℕ) (t : Tree) (u : ℕ) (us : List ℕ) (ty : NodeType) (s s2 : Pasting gx)
      → type_of t u ≡ some ty
      → paste_nodes tx gx k t us (paste_typed gx k u ty s) ≡ ok s2
      → paste_nodes tx gx k t (u ∷ us) s ≡ ok s2
  unfolding paste_nodes
  paste_nodes_chained k t u us ty s s2 e ended = rw e ended

  pub paste_nodes-Pastes :
      (k : ℕ) (t : Tree) (us : List ℕ) (s : Pasting gx)
      → 1 ≤ k
      → ((v : ℕ) → occurrences v us ≤ 1)
      → ((v : ℕ) → 0 < occurrences v us → IsTyped (type_of t v))
      → Fresh gx us (nodes s.graph) s.node_label
      → Pastes k t us s (paste_nodes tx gx k t us s)
  unfolding paste_nodes
  paste_nodes-Pastes k t [] s positive distinct typed fresh = (
    s,
    refl,
    omega arith,
    λ v. (fresh v).0,
    λ v. ⊎_elim (λ some_of. absurd (omega (arith, some_of))) (λ h. h),
  )
  paste_nodes-Pastes k t (u ∷ us) s positive distinct typed fresh =
      let itself : 0 < occurrences u (u ∷ us) = ground arith in
      let (ty, ety) = typed-cases (type_of t u) (typed u itself) in
      let label = s.node_label in
      let (new, below) = (fresh u).2 itself in
      let s1 = paste_typed gx k u ty s in
      let (en, em, el) = paste_typed-copies gx k u ty s new below (λ v. (fresh v).1) in
      let more = length-append (nodes s.graph) (copies k label u ty) in
      let gained = length-copies k label u ty positive in
      let longer : length (nodes s1.graph) ≡ length (nodes s.graph) + weight_of k (some ty) =
        ap length en ∙ omega (arith, more, gained) in
      let (s2, ended, size, once, copied) =
        paste_nodes-Pastes k t us s1 positive (λ v. omega (arith, distinct v))
          (λ v h. typed v (omega (arith, h)))
          (rw (en, el) (Fresh-copies gx k u ty us (nodes s.graph) label distinct fresh)) in
      (
        s2,
        paste_nodes_chained k t u us ty s s2 ety ended,
        omega (arith, size, longer, ap (weight_of k) ety),
        once,
        λ v known. elim (ℕ_discrete u v) [
          | yes e ↦ copied v (
              inr (
                rw (en, em, ← e)
                  (HasCopies-own gx k u ty us (nodes s.graph) label distinct fresh positive
                    s.node_mapping)))
          | no ne ↦
              ⊎_elim (λ some_of. copied v (inl (ground (arith, some_of, ne))))
                (λ had. copied v (
                  inr (
                    rw (en, em)
                      (HasCopies-kept gx k u ty us (nodes s.graph) label distinct fresh
                        s.node_mapping v ne had))))
                known
        ],
      )
