-- ===== src/Benchmarks/Examples.antt =====
-- Tests of the benchmarks, and instances of what is proved about them.
use brb_partially_connected.Base.{◌*◌, ◌≡◌, refl, [], ◌∷◌, for_range, length}
use brb_partially_connected.Benchmarks.Commands.{
  combinations, all_off, turn_on, each_option, each_option_alone, run_alone,
}
use brb_partially_connected.Benchmarks.Choices.{runs, settings, times_set, each_option-runs}

pairs : combinations (1 ∷ 2 ∷ 3 ∷ []) 2 ≡ (1 ∷ 2 ∷ []) ∷ (1 ∷ 3 ∷ []) ∷ (2 ∷ 3 ∷ []) ∷ []
pairs = refl

-- Of the 32 settings, 23 are run, with five commands each.
alone_length : length (each_option_alone 1) ≡ 5 * 23
unfolding each_option_alone run_alone for_range
alone_length = refl

-- With 50 nodes the settings of 16 faulty nodes have the connectivities 33, 41 and 49.
each_option-runs_example :
    runs 16 41 (turn_on 3 (turn_on 12 all_off)) (each_option 50 2)
    ≡ times_set 16 41 (settings 50) * 2
each_option-runs_example = each_option-runs 50 2 16 41 (turn_on 3 (turn_on 12 all_off)) refl
