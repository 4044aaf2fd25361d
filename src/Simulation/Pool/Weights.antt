-- ===== src/Simulation/Pool/Weights.antt =====
-- The numbers that are summed over the threads and over lists of configurations.
use brb_partially_connected.Base.{total, ℕ, suc, ◌+◌, ◌*◌, List, if◌then◌else◌}
use brb_partially_connected.Simulation.Queue.{Params}
use brb_partially_connected.Simulation.Run.{same_params}
use brb_partially_connected.Simulation.Pool.{
  Status, waiting, busy, returned, dead, Main, putting, starting,
}

abbrev pub is_same : Params → Params → ℕ
is_same p q = if same_params p q then 1 else 0

-- How often a configuration is in a list.
abbrev pub times : Params → List Params → ℕ
times p = total (is_same p)

abbrev pub carries : Params → Status → ℕ
carries p waiting = 0
carries p (busy q) = is_same p q
carries p returned = 0
carries p (dead q) = is_same p q

-- A thread has a marker in the queue until it takes one.
abbrev pub marker : Status → ℕ
marker returned = 0
marker _ = 1

abbrev pub is_returned : Status → ℕ
is_returned returned = 1
is_returned _ = 0

abbrev pub is_dead : Status → ℕ
is_dead (dead p) = 1
is_dead _ = 0

-- The steps that a thread has left, beside those for the configurations in the queue.
abbrev pub steps_left : Status → ℕ
steps_left waiting = 1
steps_left (busy p) = 2
steps_left returned = 0
steps_left (dead p) = 1

abbrev pub spare_markers : Main → ℕ
spare_markers (putting left) = 0
spare_markers (starting left) = 1

abbrev pub threads_left : Main → ℕ
threads_left (putting left) = left
threads_left (starting left) = suc left

abbrev pub main_left : Main → ℕ
main_left (putting left) = 3 * left
main_left (starting left) = 3 * left + 2
