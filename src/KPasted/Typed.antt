-- ===== src/KPasted/Typed.antt =====
-- code3/kpasted.py: wherever the expansion loop ends, the nodes of the tree are distinct and have types.
use brb_partially_connected.Base.{
  ℕ, zero, suc, ◌-◌, ◌*◌, ◌≤◌, ◌<◌, ◌≡◌, ◌⊎◌, inl, inr, ⊎_elim, refl, sym, true, false, Bool-cases,
  List, [], ◌∷◌, ◌++◌, Option, none, some, ◌==◌, occurrences, contains, add_new,
  occurrences-add_new, occurrences-erase, last, take, drop, ltb, AllOk, AllOk-bind, AllOk-weaken,
  arith,
}
use mathlib.Core.Path.{subst}
use native.Mathlib.Decide.{ℕ_discrete}
use brb_partially_connected.Nx.Tree.{TreeApi, NodeType, shared, internal, root, degree}
use brb_partially_connected.KPasted.Defs.{
  State, refill, kept, set_node_type, add_shared, add_leaves, remove_nodes, initial, expand_last,
  expand_next, iterate,
}

abbrev pub IsTyped : Option NodeType → Type 0
IsTyped none = ⊥
IsTyped (some ty) = Unit

module _ (nx : TreeApi) where
  open nx use {Tree, empty, nodes, type_of, successors, add_edge, set_type, remove_node}

  -- The nodes are distinct, and those for which `E` does not hold have types.
  abbrev pub Typed : (ℕ → Type 0) → Tree → Type 0
  Typed E t =
      (u : ℕ)
      → (occurrences u (nodes t) ≤ 1) × (0 < occurrences u (nodes t) → E u ⊎ IsTyped (type_of t u))

  abbrev HasNode : ℕ → Tree → Type 0
  HasNode a t = 0 < occurrences a (nodes t)

  set_type-Typed :
      (E : ℕ → Type 0) (a : ℕ) (ty : NodeType) (t : Tree)
      → HasNode a t
      → Typed (λ u. (u ≡ a) ⊎ E u) t
      → Typed E (set_type a ty t)
  set_type-Typed E a ty t here typed u =
      rw (nx.nodes-set_type a ty t here, nx.type_of-set_type a ty t u here)
        (
          (typed u).0,
          λ some_of. elim (ℕ_discrete a u) [
            | yes e ↦ let same : (a == u) ≡ true = ground (arith, e) in inr (rw same tt)
            | no ne ↦
                let other : (a == u) ≡ false = ground (arith, ne) in
                rw other (
                  ⊎_elim (λ exempt. ⊎_elim (λ e. absurd (ne (sym e))) inl exempt) inr
                    ((typed u).1 some_of))
          ],
        )

  set_node_type-Typed :
      (E : ℕ → Type 0) (a : ℕ) (ty : NodeType) (t : Tree)
      → Typed (λ u. (u ≡ a) ⊎ E u) t
      → AllOk (λ t'. Typed E t' × HasNode a t' × (nodes t' ≡ nodes t)) (set_node_type nx a ty t)
  unfolding set_node_type
  set_node_type-Typed E a ty t typed = elim (Bool-cases (contains (nodes t) a)) [
    | inl e ↦
        let here : HasNode a t = ground (arith, e) in
        let same = nx.nodes-set_type a ty t here in
        rw e (set_type-Typed E a ty t here typed, rw same here, same)
    | inr e ↦ rw e tt
  ]

  add_edge-occurrences :
      (a b : ℕ) (t : Tree) (u : ℕ)
      → occurrences u (nodes t) ≤ 1
      → (occurrences u (nodes (add_edge a b t)) ≤ 1)
        × (0 < occurrences u (nodes (add_edge a b t))
            → (u ≡ b) ⊎ ((u ≡ a) ⊎ (0 < occurrences u (nodes t))))
        × (u ≡ a → 0 < occurrences u (nodes (add_edge a b t)))
  add_edge-occurrences a b t u few = rw (nx.nodes-add_edge a b t) (
      ground (
        arith,
        few,
        occurrences-add_new u b (add_new a (nodes t)),
        occurrences-add_new u a (nodes t),
      ))

  add_shared-Typed :
      (E : ℕ → Type 0) (parent label : ℕ) (t : Tree)
      → E parent ⊎ HasNode parent t
      → Typed E t
      → AllOk (λ t'. Typed E t' × HasNode parent t') (add_shared nx parent label t)
  unfolding add_shared
  add_shared-Typed E parent label t known typed =
      let t1 = add_edge parent label t in
      let old_node : (u : ℕ) → HasNode u t → ((u ≡ label) ⊎ E u) ⊎ IsTyped (type_of t1 u) = λ u old.
        ⊎_elim (λ e. inl (inr e)) (λ ty. inr (rw (nx.type_of-add_edge parent label t u) ty))
          ((typed u).1 old) in
      let typed1 : Typed (λ u. (u ≡ label) ⊎ E u) t1 = λ u.
        let (few, from, _) = add_edge-occurrences parent label t u (typed u).0 in
        (
          few,
          λ some_of.
              ⊎_elim (λ e. inl (inl e))
                (λ rest.
                  ⊎_elim
                    (λ e.
                      ⊎_elim (λ exempt. inl (inr (subst E (sym e) exempt)))
                        (λ has. old_node u (subst (λ v. HasNode v t) (sym e) has)) known)
                    (old_node u) rest)
                (from some_of),
        ) in
      let (_, _, there) = add_edge-occurrences parent label t parent (typed parent).0 in
      AllOk-weaken _ _ (set_node_type nx label shared t1)
        (λ t' (ty, _, same). (ty, rw same (there refl)))
        (set_node_type-Typed E label shared t1 typed1)

  add_leaves-Typed :
      (E : ℕ → Type 0) (rounds parent label : ℕ) (t : Tree)
      → E parent ⊎ HasNode parent t
      → Typed E t
      → AllOk
          (λ t'. Typed E t' × (E parent ⊎ HasNode parent t'))
          (add_leaves nx rounds parent label t)
  unfolding add_leaves
  add_leaves-Typed E zero parent label t known typed = (typed, known)
  add_leaves-Typed E (suc rounds) parent label t known typed =
      AllOk-bind _ _ (add_shared nx parent label t) _
        (add_shared-Typed E parent label t known typed)
        (λ t' (typed', here). add_leaves-Typed E rounds parent (suc label) t' (inr here) typed')

  -- No node is without a type.
  abbrev pub AllTyped : Tree → Type 0
  AllTyped = Typed (λ u. ⊥)

  pub remove_node-AllTyped : (c : ℕ) (t : Tree) → AllTyped t → AllTyped (remove_node c t)
  remove_node-AllTyped c t typed u =
      let fewer = occurrences-erase u c (nodes t) in
      let (few, types) = typed u in
      rw (nx.nodes-remove_node c t) (elim (ℕ_discrete c u) [
        | yes e ↦
            (ground (arith, few, fewer), λ some_of. absurd (ground (arith, few, fewer, some_of, e)))
        | no ne ↦
            rw (nx.type_of-remove_node c t u ne)
              (ground (arith, few, fewer), λ some_of. types (ground (arith, fewer, some_of, ne)))
      ])

  remove_nodes-AllTyped : (us : List ℕ) (t : Tree) → AllTyped t → AllTyped (remove_nodes nx us t)
  unfolding remove_nodes
  remove_nodes-AllTyped [] t typed = typed
  remove_nodes-AllTyped (c ∷ us) t typed =
      remove_nodes-AllTyped us (remove_node c t) (remove_node-AllTyped c t typed)

  abbrev pub TypedState : State nx → Type 0
  TypedState s = AllTyped s.tree × HasNode s.expanding_node s.tree

  pub initial-TypedState : (n k : ℕ) → AllOk TypedState (initial nx n k)
  unfolding initial
  initial-TypedState n k = elim (Bool-cases (ltb n (2 * k))) [
    | inl small ↦ rw small tt
    | inr large ↦
        let nothing : Typed (λ u. u ≡ 0) empty =
          λ u. rw nx.nodes-empty (omega arith, λ some_of. absurd (omega (arith, some_of))) in
        rw large (
          AllOk-bind _ _ (add_leaves nx k 0 1 empty) _
            (add_leaves-Typed (λ u. u ≡ 0) k 0 1 empty (inl refl) nothing)
            (λ t (typed, _).
              AllOk-bind _ _ (set_node_type nx 0 root t) _
                (set_node_type-Typed (λ u. ⊥) 0 root t
                  (λ u.
                    ((typed u).0, λ some_of. ⊎_elim (λ e. inl (inl e)) inr ((typed u).1 some_of))))
                (λ t' (typed', here, _). (typed', here))))
  ]

  expand_last-TypedState :
      (k : ℕ) (queue : List ℕ) (s : State nx)
      → AllTyped s.tree
      → AllOk TypedState (expand_last nx k queue s)
  unfolding expand_last
  expand_last-TypedState k [] s typed = tt
  expand_last-TypedState k (x ∷ xs) s typed =
      AllOk-bind _ _ (set_node_type nx (last x xs) internal s.tree) _
        (set_node_type-Typed (λ u. ⊥) (last x xs) internal s.tree
          (λ u. ((typed u).0, λ some_of. ⊎_elim absurd inr ((typed u).1 some_of))))
        (λ t (typed', here, _).
          AllOk-bind _ _ (add_leaves nx (k - 1) (last x xs) s.free_node_label t) _
            (add_leaves-Typed (λ u. ⊥) (k - 1) (last x xs) s.free_node_label t (inr here) typed')
            (λ t' (typed2, still). (typed2, ⊎_elim absurd (λ h. h) still)))

  expand_next-TypedState :
      (k : ℕ) (s : State nx) → AllTyped s.tree → AllOk TypedState (expand_next nx k s)
  unfolding expand_next
  expand_next-TypedState k s typed =
      let leaves = successors s.tree s.expanding_node in
      let cut = kept k s.root_expansion in
      let queues = refill s.expanding_nodes (s.future_expanding_nodes ++ take cut leaves) in
      expand_last-TypedState k queues.0
        (record s {
          tree = remove_nodes nx (drop cut leaves) s.tree;
          future_expanding_nodes = queues.1;
        })
        (remove_nodes-AllTyped (drop cut leaves) s.tree typed)

  pub iterate-TypedState : (k : ℕ) (s : State nx) → TypedState s → AllOk TypedState (iterate nx k s)
  unfolding iterate
  iterate-TypedState k s (typed, here) =
      elim (Bool-cases (ltb (degree nx s.tree s.expanding_node) (3 * k - 3))) [
        | inl below ↦ rw below (
            AllOk-bind _ _ (add_shared nx s.expanding_node (suc s.free_node_label) s.tree) _
              (add_shared-Typed (λ u. ⊥) s.expanding_node (suc s.free_node_label) s.tree (inr here)
                typed)
              (λ t' (typed', here'). (typed', here')))
        | inr full ↦
            rw full (
              expand_next-TypedState k (record s { free_node_label = suc s.free_node_label }) typed)
      ]
