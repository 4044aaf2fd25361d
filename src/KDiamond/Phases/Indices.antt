-- ===== src/KDiamond/Phases/Indices.antt =====
-- code3/kdiamond.py: the expanding node at the index, and the list of the unshared leaves.
use brb_partially_connected.Base.{
  ℕ, zero, suc, ◌+◌, ◌≤◌, ◌<◌, ◌≡◌, ◌⊎◌, inl, inr, refl, sym, ap, ◌∙◌, List, [], ◌∷◌, ◌++◌, Option,
  none, some, ◌==◌, if◌then◌else◌, length, take, drop, get_elem?, occurrences, occurrences-append,
  arith,
}
use mathlib.Core.Path.{subst}
use native.Mathlib.Decide.{ℕ_discrete}
use brb_partially_connected.Nx.Tree.{TreeApi, unshared}
use brb_partially_connected.KDiamond.Added.{Lasting, Lasting-present}
use brb_partially_connected.KDiamond.Invariant.{AllUnshared}

-- The node at the index, and the ones before and after it.
pub get_elem?-turn :
    (xs : List ℕ) (i e : ℕ)
    → get_elem? xs i ≡ some e
    → (suc i ≤ length xs)
      × ((u : ℕ)
          → occurrences u (take (suc i) xs) ≡ occurrences u (take i xs) + (if e == u then 1 else 0))
      × ((u : ℕ)
          → occurrences u (drop i xs) ≡ (if e == u then 1 else 0) + occurrences u (drop (suc i) xs))
get_elem?-turn [] i e found = absurd (ground (arith, found))
get_elem?-turn (x ∷ xs) zero e found =
    let same : x ≡ e = ground (arith, found) in
    (omega arith, λ u. ground (arith, same), λ u. ground (arith, same))
get_elem?-turn (x ∷ xs) (suc i) e found =
    let (l, before, after) = get_elem?-turn xs i e found in
    (omega (arith, l), λ u. omega (arith, before u), after)

pub get_elem?-end :
    (xs : List ℕ) (i : ℕ)
    → get_elem? xs i ≡ none
    → (length xs ≤ i) × ((u : ℕ) → occurrences u (take i xs) ≡ occurrences u xs)
get_elem?-end [] zero found = (omega arith, λ u. refl)
get_elem?-end [] (suc i) found = (omega arith, λ u. refl)
get_elem?-end (x ∷ xs) zero found = absurd (ground (arith, found))
get_elem?-end (x ∷ xs) (suc i) found =
    let (l, all) = get_elem?-end xs i found in (omega (arith, l), λ u. omega (arith, all u))

pub Option-cases : (o : Option ℕ) → ((a : ℕ) × (o ≡ some a)) ⊎ (o ≡ none)
Option-cases none = inr refl
Option-cases (some a) = inl (a, refl)

pub nonempty : (xs : List ℕ) → 0 < length xs → (y : ℕ) × (ys : List ℕ) × (xs ≡ y ∷ ys)
nonempty [] h = absurd (omega (arith, h))
nonempty (y ∷ ys) h = (y, ys, refl)

module _ (nx : TreeApi) where
  open nx use {Tree, nodes, type_of, successors, in_degree}

  pub AllUnshared-append :
      (t : Tree) (us : List ℕ) (c : ℕ)
      → AllUnshared nx t us
      → occurrences c us ≡ 0
      → type_of t c ≡ some unshared
      → in_degree t c ≡ 1
      → AllUnshared nx t (us ++ c ∷ [])
  AllUnshared-append t us c all new ty deg u =
      let sum = occurrences-append u us (c ∷ []) in
      elim (ℕ_discrete c u) [
        | yes e ↦ (
          ground (arith, sum, e, subst (λ v. occurrences v us ≡ 0) e new),
          λ h. (ap (type_of t) (sym e) ∙ ty, ap (in_degree t) (sym e) ∙ deg),
        )
        | no ne ↦ (ground (arith, sum, (all u).0, ne), λ h. (all u).1 (ground (arith, sum, h, ne)))
      ]

  pub label-absent :
      (t : Tree) (us : List ℕ) (c : ℕ)
      → AllUnshared nx t us
      → occurrences c (nodes t) ≡ 0
      → occurrences c us ≡ 0
  label-absent t us c all new = elim (ℕ_discrete (occurrences c us) 0) [
    | yes e ↦ e
    | no ne ↦
        let (ty, _) = (all c).1 (omega (arith, ne)) in
        absurd (omega (arith, new, Lasting-present nx t c (subst Lasting (sym ty) tt)))
  ]
