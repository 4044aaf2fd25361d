-- ===== src/KDiamond/Stalled.antt =====
-- code3/kdiamond.py: the growth stops where phase 5 finds its node full.
use brb_partially_connected.Base.{
  ℕ, zero, suc, ◌+◌, ◌-◌, ◌≤◌, ◌≡◌, false, refl, sym, List, ◌∷◌, last, ltb, ok, arith,
}
use mathlib.Core.Path.{subst}
use brb_partially_connected.Nx.Tree.{TreeApi, degree}
use brb_partially_connected.KDiamond.Defs.{State, phase5, phase5_new_shared, run_phase, grow}

module _ (nx : TreeApi) where
  full_chained :
      (k x : ℕ) (xs : List ℕ) (s : State nx)
      → s.expanding_nodes ≡ x ∷ xs
      → k + k - 2 ≤ degree nx s.tree (last x xs)
      → phase5_new_shared nx k s ≡ ok (record s { last_expanded_node = last x xs })
  unfolding phase5_new_shared
  full_chained k x xs s e full =
      let test : ltb (degree nx s.tree (last x xs)) (k + k - 2) ≡ false = ground (arith, full) in
      rw (e, test) refl

  run_phase-full :
      (depth k x : ℕ) (xs : List ℕ) (s : State nx)
      → s.phase ≡ phase5
      → s.expanding_nodes ≡ x ∷ xs
      → k + k - 2 ≤ degree nx s.tree (last x xs)
      → run_phase nx depth k s.phase s ≡ ok (record s { last_expanded_node = last x xs })
  unfolding run_phase
  run_phase-full depth k x xs s phase e full =
      subst (λ p. run_phase nx depth k p s ≡ ok (record s { last_expanded_node = last x xs }))
        (sym phase) (full_chained k x xs s e full)

  -- In phase 5, if the last expanding node has 2 k - 2 edges or more, all further rounds of the loop
  -- leave the tree as it is.
  pub grow-stalled :
      (depth k x : ℕ) (xs : List ℕ) (rounds : ℕ) (s : State nx)
      → s.phase ≡ phase5
      → s.expanding_nodes ≡ x ∷ xs
      → k + k - 2 ≤ degree nx s.tree (last x xs)
      → (s' : State nx) × (grow nx depth k rounds s ≡ ok s') × (s'.tree ≡ s.tree)
  unfolding grow
  grow-stalled depth k x xs zero s phase e full = (s, refl, refl)
  grow-stalled depth k x xs (suc rounds) s phase e full =
      let s0 = record s { free_node_label = suc s.free_node_label } in
      let s1 = record s0 { last_expanded_node = last x xs } in
      let (s', ended, same) = grow-stalled depth k x xs rounds s1 phase e full in
      (s', rw (run_phase-full depth k x xs s0 phase e full) ended, same)
