-- ===== src/Simulation/Scalability/Examples.antt =====
-- Tests of the choice of parameters, and instances of what is proved about it.
use brb_partially_connected.Base.{
  ℕ, ◌+◌, ◌*◌, ◌%◌, ◌≤◌, ◌<◌, ◌≡◌, refl, inl, inr, [], ◌∷◌, map, Among, arith,
}
use brb_partially_connected.Simulation.Queue.{Params}
use brb_partially_connected.Simulation.Scalability.{
  faulty_choices, connectivity_choices, fill_scalability,
}
use brb_partially_connected.Simulation.Reading.{section_of, config}
use brb_partially_connected.Simulation.Scalability.{scalability_lines}
use brb_partially_connected.Simulation.Scalability.Sections.{
  options, is_on, Sets, scalability_lines-Sets,
}
use brb_partially_connected.Simulation.Scalability.Valid.{fill_scalability-valid}

queue_49 :
    fill_scalability (49 ∷ [])
    ≡ (49, 1, 4)
      ∷ (49, 1, 24)
      ∷ (49, 1, 48)
      ∷ (49, 8, 18)
      ∷ (49, 8, 32)
      ∷ (49, 8, 48)
      ∷ (49, 16, 34)
      ∷ (49, 16, 40)
      ∷ (49, 16, 48)
      ∷ []
unfolding fill_scalability faulty_choices connectivity_choices
queue_49 = refl

-- With 7 nodes, two of the three numbers of faulty nodes are 1, and each configuration of one faulty node
-- is put twice.
queue_7 :
    fill_scalability (7 ∷ [])
    ≡ (7, 1, 4)
      ∷ (7, 1, 4)
      ∷ (7, 1, 6)
      ∷ (7, 1, 4)
      ∷ (7, 1, 4)
      ∷ (7, 1, 6)
      ∷ (7, 2, 6)
      ∷ (7, 2, 6)
      ∷ []
unfolding fill_scalability faulty_choices connectivity_choices
queue_7 = refl

in_queue : Among {A = Params} (49, 8, 32) (fill_scalability (49 ∷ []))
unfolding fill_scalability faulty_choices connectivity_choices
in_queue = inr (inr (inr (inr (inl refl))))

fill_scalability-valid_example :
    Among {A = ℕ} 49 (49 ∷ [])
    × (1 ≤ 8)
    × (3 * 8 + 1 ≤ 49)
    × (2 * 8 + 1 ≤ 32)
    × (32 < 49)
    × (32 * 49 % 2 ≡ 0)
fill_scalability-valid_example = fill_scalability-valid (49 ∷ []) (omega arith) 49 8 32 in_queue

scalability_lines-Sets_example :
    Sets 49 8 32 8192
      (section_of (config 49 8 32 8192 14) (scalability_lines 49 8 32 8192))
      (map (is_on 14) options)
scalability_lines-Sets_example = scalability_lines-Sets 49 8 32 8192 14 (inr (inr (inl refl)))
