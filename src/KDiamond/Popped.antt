-- ===== src/KDiamond/Popped.antt =====
-- code3/kdiamond.py: several shared leaves are removed, or popped off the list and removed.
use brb_partially_connected.Base.{
  ℕ, zero, suc, last, all_but_last, occurrences-last, true, ◌+◌, ◌≤◌, ◌≡◌, refl, ap, ◌∙◌, List, [],
  ◌∷◌, length, occurrences, contains, arith, ok,
}
use brb_partially_connected.Nx.Tree.{TreeApi}
use brb_partially_connected.KPasted.Defs.{remove_nodes}
use brb_partially_connected.KDiamond.Defs.{pop_shared, remove_leaf}
use brb_partially_connected.KDiamond.Shape.{IsTree}
use brb_partially_connected.KDiamond.Added.{Kept-trans}
use brb_partially_connected.KDiamond.Removed.{Shrunk, Below, remove_node-Shrunk, Below-left}

length-all_but_last : (x : ℕ) (xs : List ℕ) → length (all_but_last x xs) ≡ length xs
length-all_but_last x [] = refl
length-all_but_last x (y ∷ xs) = ap suc (length-all_but_last y xs)

module _ (nx : TreeApi) where
  open nx use {Tree, nodes, type_of, successors, in_degree, remove_node}

  pub Shrunk-cons :
      (k a c : ℕ) (us : List ℕ) (t t1 t2 : Tree)
      → Shrunk nx k a (c ∷ []) t t1
      → Shrunk nx k a us t1 t2
      → Shrunk nx k a (c ∷ us) t t2
  Shrunk-cons k a c us t t1 t2 first rest = record {
    tree = rest.tree;
    kept = Kept-trans nx (a ∷ []) t t1 t2 first.kept rest.kept;
    parent_type = rest.parent_type ∙ first.parent_type;
    parent_degree = rest.parent_degree ∙ first.parent_degree;
    parent_out = omega (arith, rest.parent_out, first.parent_out);
    parent_shared = omega (arith, rest.parent_shared, first.parent_shared);
    lighter = omega (arith, rest.lighter, first.lighter);
    left = λ u. omega (arith, rest.left u, first.left u);
  }

  pub Shrunk-none : (k a : ℕ) (t : Tree) → IsTree nx t → Shrunk nx k a [] t t
  Shrunk-none k a t tree = record {
    tree = tree;
    kept = λ u away lasting. (refl, refl, refl, refl);
    parent_type = refl;
    parent_degree = refl;
    parent_out = omega arith;
    parent_shared = omega arith;
    lighter = omega arith;
    left = λ u. omega arith;
  }

  pub remove_nodes-Shrunk :
      (k a : ℕ) (us : List ℕ) (t : Tree)
      → IsTree nx t
      → Below nx t a us
      → Shrunk nx k a us t (remove_nodes nx us t)
  unfolding remove_nodes
  remove_nodes-Shrunk k a [] t tree below = Shrunk-none k a t tree
  remove_nodes-Shrunk k a (c ∷ us) t tree below =
      let (child, leaf) = (below c).1 (ground arith) in
      let first = remove_node-Shrunk nx t tree a c child leaf k in
      Shrunk-cons k a c us t (remove_node c t) (remove_nodes nx us (remove_node c t)) first (
        remove_nodes-Shrunk k a us (remove_node c t) first.tree
          (Below-left nx t tree a c child leaf us below))

  pub Below-fewer :
      (t : Tree) (a : ℕ) (us us' : List ℕ)
      → ((u : ℕ) → occurrences u us' ≤ occurrences u us)
      → Below nx t a us
      → Below nx t a us'
  Below-fewer t a us us' fewer below v =
      (omega (arith, fewer v, (below v).0), λ h. (below v).1 (omega (arith, fewer v, h)))

  -- The removed leaves, and what is left of the list.
  pub pop_shared-Shrunk :
      (k a rounds : ℕ) (us : List ℕ) (t : Tree)
      → IsTree nx t
      → Below nx t a us
      → rounds ≤ length us
      → (gone rest : List ℕ) × (t' : Tree) × (pop_shared nx rounds us t ≡ ok (rest, t'))
        × Shrunk nx k a gone t t'
        × Below nx t' a rest
        × (length gone ≡ rounds)
        × (length us ≡ length rest + rounds)
  unfolding pop_shared remove_leaf
  pop_shared-Shrunk k a zero us t tree below enough =
      ([], us, t, refl, Shrunk-none k a t tree, below, refl, omega arith)
  pop_shared-Shrunk k a (suc rounds) [] t tree below enough = absurd (omega arith)
  pop_shared-Shrunk k a (suc rounds) (u ∷ us) t tree below enough =
      let c = last u us in
      let below' =
        Below-fewer t a (u ∷ us) (c ∷ all_but_last u us)
          (λ v. omega (arith, occurrences-last v u us)) below in
      let (child, leaf) = (below' c).1 (ground arith) in
      let first = remove_node-Shrunk nx t tree a c child leaf k in
      let (gone, rest, t', e, later, below2, size, sizes) =
        pop_shared-Shrunk k a rounds (all_but_last u us) (remove_node c t) first.tree
          (Below-left nx t tree a c child leaf (all_but_last u us) below')
          (omega (arith, enough, length-all_but_last u us)) in
      let test : contains (nodes t) c ≡ true = ground (arith, tree.closed a c child) in
      (
        c ∷ gone,
        rest,
        t',
        rw (test) e,
        Shrunk-cons k a c gone t (remove_node c t) t' first later,
        below2,
        omega (arith, size),
        omega (arith, sizes, length-all_but_last u us),
      )
