-- ===== src/KDiamond/Picked.antt =====
-- code3/kdiamond.py: the shared leaves below a node.
use brb_partially_connected.Base.{
  ℕ, true, false, ◌+◌, ◌-◌, ◌≤◌, ◌<◌, ◌≡◌, refl, sym, ap, ◌∙◌, List, [], ◌∷◌, Option, none, some,
  ◌==◌, if◌then◌else◌, ltb, length, length-take, occurrences, occurrences-take-drop, contains,
  weigh, arith, ok,
}
use native.Mathlib.Decide.{ℕ_discrete}
use brb_partially_connected.Nx.Tree.{TreeApi, NodeType, root, shared, internal, unshared}
use brb_partially_connected.KPasted.Typed.{IsTyped}
use brb_partially_connected.KDiamond.Defs.{slice_to, keep_shared, pick_shared, shared_nodes}
use brb_partially_connected.KDiamond.Shape.{shared_one, IsTree, shared_out}
use brb_partially_connected.KDiamond.Removed.{Below}

-- The elements that `pick_shared` keeps.
keep_shared_lem :
    (ty : NodeType) (y : ℕ) (ys : List ℕ)
    → (length (keep_shared ty y ys) ≡ shared_one (some ty) + length ys)
      × ((v : ℕ)
          → occurrences v (keep_shared ty y ys)
            ≡ (if y == v then shared_one (some ty) else 0) + occurrences v ys)
keep_shared_lem root y ys = (omega arith, λ v. ground arith)
keep_shared_lem shared y ys = (omega arith, λ v. ground arith)
keep_shared_lem internal y ys = (omega arith, λ v. ground arith)
keep_shared_lem unshared y ys = (omega arith, λ v. ground arith)

shared_if_counted : (ty : NodeType) → 0 < shared_one (some ty) → ty ≡ shared
shared_if_counted root h = absurd (omega (arith, h))
shared_if_counted shared h = refl
shared_if_counted internal h = absurd (omega (arith, h))
shared_if_counted unshared h = absurd (omega (arith, h))

IsTyped-some : (ty : Option NodeType) → IsTyped ty → (x : NodeType) × (ty ≡ some x)
IsTyped-some none h = absurd h
IsTyped-some (some x) h = (x, refl)

pub slice_to_lem :
    (k d : ℕ) (ys : List ℕ)
    → d ≤ k
    → k - d ≤ length ys
    → (length (slice_to k d ys) ≡ k - d)
      × ((v : ℕ) → occurrences v (slice_to k d ys) ≤ occurrences v ys)
slice_to_lem k d ys le enough =
    let test : ltb k d ≡ false = ground (arith, le) in
    rw test (
      omega (arith, length-take (k - d) ys),
      λ v. omega (arith, occurrences-take-drop v (k - d) ys),
    )

module _ (nx : TreeApi) where
  open nx use {Tree, nodes, type_of, successors, in_degree, set_type, remove_node}

  pick_shared_lem :
      (t : Tree) (xs : List ℕ)
      → ((v : ℕ) → 0 < occurrences v xs → IsTyped (type_of t v))
      → (ys : List ℕ) × (pick_shared nx t xs ≡ ok ys)
        × (length ys ≡ weigh (λ v. shared_one (type_of t v)) xs)
        × ((v : ℕ)
            → (occurrences v ys ≤ occurrences v xs)
              × (0 < occurrences v ys → type_of t v ≡ some shared))
  unfolding pick_shared
  pick_shared_lem t [] typed = ([], refl, refl, λ v. (omega arith, λ h. absurd (omega (arith, h))))
  pick_shared_lem t (x ∷ xs) typed =
      let (ty, e) = IsTyped-some (type_of t x) (typed x (ground arith)) in
      let (ys, e', l, from) = pick_shared_lem t xs (λ v h. typed v (ground (arith, h))) in
      let (l', from') = keep_shared_lem ty x ys in
      let one : shared_one (type_of t x) ≡ shared_one (some ty) = ap shared_one e in
      (
        keep_shared ty x ys,
        rw (e, e') refl,
        omega (arith, l, l', one),
        λ v. elim (ℕ_discrete x v) [
          | yes same ↦ (
            ground (arith, from' v, from v, keep_shared_few ty),
            λ h. elim (ℕ_discrete (occurrences v ys) 0) [
              | yes no_more ↦
                  ap (type_of t) (sym same)
                  ∙ e
                  ∙ ap some (shared_if_counted ty (ground (arith, h, from' v, no_more, same)))
              | no more ↦ (from v).1 (omega (arith, more))
            ],
          )
          | no ne ↦ (
            ground (arith, from' v, from v, ne),
            λ h. (from v).1 (ground (arith, from' v, h, ne)),
          )
        ],
      )
    where
      keep_shared_few : (ty : NodeType) → shared_one (some ty) ≤ 1
      keep_shared_few root = omega arith
      keep_shared_few shared = omega arith
      keep_shared_few internal = omega arith
      keep_shared_few unshared = omega arith

  -- The shared leaves below a node of the tree.
  pub shared_nodes-Below :
      (t : Tree) (a : ℕ)
      → IsTree nx t
      → 0 < occurrences a (nodes t)
      → (ys : List ℕ) × (shared_nodes nx t a ≡ ok ys)
        × (length ys ≡ shared_out nx t a)
        × Below nx t a ys
  unfolding shared_nodes
  shared_nodes-Below t a tree here =
      let (ys, e, l, from) =
        pick_shared_lem t (successors t a) (λ v h. tree.typed v (tree.closed a v h)) in
      let test : contains (nodes t) a ≡ true = ground (arith, here) in
      (
        ys,
        rw (test, e) refl,
        l,
        λ v. (
          omega (arith, (from v).0, tree.apart a v),
          λ h. (omega (arith, (from v).0, h), (from v).1 h),
        ),
      )
