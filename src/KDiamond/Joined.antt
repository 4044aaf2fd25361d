-- ===== src/KDiamond/Joined.antt =====
-- code3/kdiamond.py: the edges of the diamond graph join nodes that are there.
use brb_partially_connected.Base.{
  ℕ, zero, suc, true, false, ◌+◌, ◌≤◌, ◌<◌, ◌≡◌, refl, List, [], ◌∷◌, Option, ltb, occurrences,
  Result, arith,
}
use native.Mathlib.Decide.{dec_lt}
use brb_partially_connected.Nx.Tree.{TreeApi, NodeType, root, shared, internal, unshared}
use brb_partially_connected.Nx.Labelled.{LabelledApi}
use brb_partially_connected.KPasted.Typed.{IsTyped}
use brb_partially_connected.KPasted.Pasted.{typed-cases}
use brb_partially_connected.KPasted.Joined.{
  IsCopied, SameNodes, copy_of-there, add_edge-same, join_edges-SameNodes,
}
use brb_partially_connected.KDiamond.Paste.{join_later, join_each_other, join_kind, join_all}

module _ (tx : TreeApi) (gx : LabelledApi) (k : ℕ) (mapping : ℕ → Option (List ℕ))
    (there : List ℕ) where
  open tx use {Tree, type_of, successors}
  open gx use {Graph, nodes, add_edge}

  abbrev Copied : ℕ → Type 0
  Copied = IsCopied tx gx k mapping there

  abbrev Same : Result Graph → Type 0
  Same = SameNodes tx gx k mapping there

  join_later-SameNodes :
      (u i rounds j : ℕ) (g : Graph)
      → Copied u
      → i < k
      → j + rounds ≤ k
      → nodes g ≡ there
      → Same (join_later tx gx mapping u i rounds j g)
  unfolding join_later
  join_later-SameNodes u i zero j g copied lt le e = (g, refl, e)
  join_later-SameNodes u i (suc rounds) j g copied lt le e = elim (dec_lt i j) [
    | yes below ↦
        let test : ltb i j ≡ true = ground (arith, below) in
        let (a, ea, ha) = copy_of-there tx gx k mapping there u i copied lt in
        let (b, eb, hb) = copy_of-there tx gx k mapping there u j copied (omega (arith, le)) in
        let (g', ended, same) =
          join_later-SameNodes u i rounds (suc j) (add_edge a b g) copied lt (omega (arith, le))
            (add_edge-same tx gx k mapping there a b g ha hb e) in
        (g', rw (test, ea, eb) ended, same)
    | no above ↦
        let test : ltb i j ≡ false = ground (arith, above) in
        let (g', ended, same) =
          join_later-SameNodes u i rounds (suc j) g copied lt (omega (arith, le)) e in
        (g', rw test ended, same)
  ]

  join_each_other-SameNodes :
      (u rounds i : ℕ) (g : Graph)
      → Copied u
      → i + rounds ≤ k
      → nodes g ≡ there
      → Same (join_each_other tx gx mapping k u rounds i g)
  unfolding join_each_other
  join_each_other-SameNodes u zero i g copied le e = (g, refl, e)
  join_each_other-SameNodes u (suc rounds) i g copied le e =
      let (g1, first, same) =
        join_later-SameNodes u i k 0 g copied (omega (arith, le)) (omega arith) e in
      let (g2, ended, same2) =
        join_each_other-SameNodes u rounds (suc i) g1 copied (omega (arith, le)) same in
      (g2, rw first ended, same2)

  join_kind-SameNodes :
      (t : Tree) (u : ℕ) (ty : NodeType) (g : Graph)
      → Copied u
      → ((v : ℕ) → 0 < occurrences v (successors t u) → Copied v)
      → nodes g ≡ there
      → Same (join_kind tx gx mapping k t u ty g)
  unfolding join_kind
  join_kind-SameNodes t u root g hu hvs e =
      join_edges-SameNodes tx gx k mapping there u (successors t u) g hu hvs e
  join_kind-SameNodes t u shared g hu hvs e = (g, refl, e)
  join_kind-SameNodes t u internal g hu hvs e =
      join_edges-SameNodes tx gx k mapping there u (successors t u) g hu hvs e
  join_kind-SameNodes t u unshared g hu hvs e = join_each_other-SameNodes u k 0 g hu (omega arith) e

  pub join_all-SameNodes :
      (t : Tree) (us : List ℕ) (g : Graph)
      → ((u : ℕ) → 0 < occurrences u us → IsTyped (type_of t u) × Copied u)
      → ((u v : ℕ) → 0 < occurrences v (successors t u) → Copied v)
      → nodes g ≡ there
      → Same (join_all tx gx mapping k t us g)
  unfolding join_all
  join_all-SameNodes t [] g hus hvs e = (g, refl, e)
  join_all-SameNodes t (u ∷ us) g hus hvs e =
      let (typed, copied) = hus u (ground arith) in
      let (ty, ety) = typed-cases (type_of t u) typed in
      let (g1, first, same) = join_kind-SameNodes t u ty g copied (hvs u) e in
      let (g2, ended, same2) =
        join_all-SameNodes t us g1 (λ w h. hus w (omega (arith, h))) hvs same in
      (g2, rw (ety, first) ended, same2)
