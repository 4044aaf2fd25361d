-- ===== src/KDiamond/Growth.antt =====
-- code3/kdiamond.py: the size of the graph that the loop leads to.
use brb_partially_connected.Base.{
  ℕ, zero, suc, ◌+◌, ◌-◌, ◌*◌, ◌≤◌, ◌≡◌, refl, sym, arith, Result, ok,
}
use mathlib.Core.Path.{subst}
use brb_partially_connected.Nx.Tree.{TreeApi}
use brb_partially_connected.KPasted.Leaves.{weight}
use brb_partially_connected.KDiamond.Defs.{
  State, Phase, phase0, phase1, phase2, phase3, phase4, phase5, run_phase, grow, diamond_tree,
}
use brb_partially_connected.KDiamond.Invariant.{PhaseInv, Sound, Advances}
use brb_partially_connected.KDiamond.Rooted.{base_tree-Starts}
use brb_partially_connected.KDiamond.Phases.Start.{phase0-Advances}
use brb_partially_connected.KDiamond.Phases.Levels.{phase2-Advances}
use brb_partially_connected.KDiamond.Phases.NextLevel.{phase1-Advances}
use brb_partially_connected.KDiamond.Phases.Turns.{phase3-Advances, phase4-Advances}
use brb_partially_connected.KDiamond.Phases.Filling.{phase5-Advances}

module _ (nx : TreeApi) where
  run_phase-Advances :
      (depth k : ℕ) (p : Phase) (s : State nx)
      → 3 ≤ k
      → s.phase ≡ p
      → Sound nx s.free_node_label s.tree
      → PhaseInv nx k s p
      → Advances nx k s (run_phase nx (suc (suc depth)) k p s)
  unfolding run_phase
  run_phase-Advances depth k phase0 s three e sound inv = phase0-Advances nx k s three e sound inv
  run_phase-Advances depth k phase1 s three e sound inv = phase1-Advances nx k s three sound inv
  run_phase-Advances depth k phase2 s three e sound inv =
      phase2-Advances nx (suc depth) k s three e sound inv
  run_phase-Advances depth k phase3 s three e sound inv =
      phase3-Advances nx depth k s three e sound inv
  run_phase-Advances depth k phase4 s three e sound inv =
      phase4-Advances nx (suc depth) k s three e sound inv
  run_phase-Advances depth k phase5 s three e sound inv = phase5-Advances nx k s three e sound inv

  -- The state is reached, the invariant of its phase holds, and its tree stands for `size` nodes.
  abbrev pub Grows : (k size : ℕ) → Result (State nx) → Type 0
  Grows k size result =
      (s : State nx) × (result ≡ ok s)
      × Sound nx (suc s.free_node_label) s.tree
      × PhaseInv nx k s s.phase
      × (weight nx k s.tree ≡ size)

  grow-Grows :
      (depth k rounds : ℕ) (s : State nx)
      → 3 ≤ k
      → Sound nx (suc s.free_node_label) s.tree
      → PhaseInv nx k s s.phase
      → Grows k (weight nx k s.tree + rounds) (grow nx (suc (suc depth)) k rounds s)
  unfolding grow
  grow-Grows depth k zero s three sound inv = (s, refl, sound, inv, omega arith)
  grow-Grows depth k (suc rounds) s three sound inv =
      let s0 = record s { free_node_label = suc s.free_node_label } in
      let (s1, e1, sound1, label, inv1, w1) =
        run_phase-Advances depth k s.phase s0 three refl sound inv in
      let (s2, e2, sound2, inv2, w2) =
        grow-Grows depth k rounds s1 three
          (subst (λ c. Sound nx (suc c) s1.tree) (sym label) sound1) inv1 in
      (s2, rw e1 e2, sound2, inv2, omega (arith, w1, w2))

  -- For 3 ≤ k and 2 k ≤ n, and where at least two nested calls of the phases are allowed, the loop raises
  -- nothing, and it ends with a tree for which the invariant of the current phase holds and which
  -- stands for n nodes, with one for each shared leaf and k for any other node.
  pub diamond_tree-Grows :
      (depth n k : ℕ) → 3 ≤ k → 2 * k ≤ n → Grows k n (diamond_tree nx (suc (suc depth)) n k)
  unfolding diamond_tree
  diamond_tree-Grows depth n k three enough =
      let (s1, e1, sound1, inv1, w1) = base_tree-Starts nx n k three enough in
      let (s2, e2, sound2, inv2, w2) = grow-Grows depth k (n - 2 * k) s1 three sound1 inv1 in
      (s2, rw e1 e2, sound2, inv2, omega (arith, w1, w2))
