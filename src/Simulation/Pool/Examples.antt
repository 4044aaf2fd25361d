-- ===== src/Simulation/Pool/Examples.antt =====
-- A run of one thread on one configuration.
use brb_partially_connected.Base.{
  total-get_elem?, ℕ, ◌+◌, ◌*◌, ◌≤◌, ◌≡◌, refl, ap, true, false, List, [], ◌∷◌, Option, none, some,
  length, get_elem?, arith,
}
use brb_partially_connected.Simulation.Queue.{Params}
use brb_partially_connected.Simulation.Pool.{
  Status, waiting, busy, returned, dead, Main, putting, starting, Pool, launch, put, start, take,
  complete, fail, Reach, at_first, later,
}
use brb_partially_connected.Simulation.Pool.Weights.{times, marker, spare_markers, threads_left}
use brb_partially_connected.Simulation.Pool.Refinement.{BagStep, bags, Step-BagStep}
use brb_partially_connected.Simulation.Pool.Ending.{
  no_blocking, bounded_steps, CanStep, all_completed, here, after, locked_forever,
}

abbrev p : Params
p = (4, 1, 3)

abbrev pool : Main → List (Option Params) → List Status → List Params → Pool
pool main queue workers completed = record {
  main = main;
  queue = queue;
  workers = workers;
  completed = completed;
  locked = false;
}

started : Reach (p ∷ []) 1 2 (pool (putting 0) (some p ∷ none ∷ []) (waiting ∷ []) [])
unfolding launch
started = later (later at_first (put 0 refl)) (start 0 refl)

taken_first : Reach (p ∷ []) 1 3 (pool (putting 0) (none ∷ []) (busy p ∷ []) [])
taken_first = later started (take 0 (some p) (none ∷ []) refl refl refl)

completed_first : Reach (p ∷ []) 1 4 (pool (putting 0) (none ∷ []) (waiting ∷ []) (p ∷ []))
completed_first = later taken_first (complete 0 p refl refl)

ended : Reach (p ∷ []) 1 5 (pool (putting 0) [] (returned ∷ []) (p ∷ []))
ended = later completed_first (take 0 none [] refl refl refl)

over : ¬ CanStep (pool (putting 0) [] (returned ∷ []) (p ∷ []))
over (t, put left e) = absurd (omega (arith, ap threads_left e))
over (t, start left e) = absurd (omega (arith, ap spare_markers e))
over (t, take i config rest free e eq) = absurd (omega (arith, ap length eq))
over (t, complete i q free e) =
    absurd (omega (arith, total-get_elem? marker (returned ∷ []) i (busy q) e))
over (t, fail i q free e) =
    absurd (omega (arith, total-get_elem? marker (returned ∷ []) i (busy q) e))

no_blocking_example :
    (config : Option Params) × (rest : List (Option Params)) × ((none ∷ []) ≡ config ∷ rest)
no_blocking_example = no_blocking completed_first 0 refl

bounded_steps_example : 5 ≤ 3 * 1 + 2 * 1
bounded_steps_example = bounded_steps ended

all_completed_example : times p (p ∷ []) ≡ times p (p ∷ [])
all_completed_example = all_completed ended (omega arith) refl over p

-- The only thread has raised an exception while the second one was still to be started.
abbrev two_workers : Pool
two_workers = record {
  main = starting 0;
  queue = none ∷ none ∷ [];
  workers = dead p ∷ [];
  completed = [];
  locked = true;
}

raised : Reach (p ∷ []) 2 5 two_workers
unfolding launch
raised =
    later
      (later
        (later (later (later at_first (put 1 refl)) (start 1 refl))
          (take 0 (some p) (none ∷ []) refl refl refl))
        (put 0 refl))
      (fail 0 p refl refl)

locked_forever_example :
    let t : Pool = record two_workers { main = putting 0; workers = dead p ∷ waiting ∷ [] } in
    (t.locked ≡ true)
    × (t.completed ≡ two_workers.completed)
    × ((j : ℕ) (st : Status)
        → get_elem? two_workers.workers j ≡ some st
        → get_elem? t.workers j ≡ some st)
locked_forever_example = locked_forever raised 0 p refl (after here (start 0 refl))

Step-BagStep_example :
    BagStep
      (bags (pool (putting 0) (none ∷ []) (busy p ∷ []) []))
      (bags (pool (putting 0) (none ∷ []) (waiting ∷ []) (p ∷ [])))
Step-BagStep_example =
    Step-BagStep (pool (putting 0) (none ∷ []) (busy p ∷ []) []) (complete 0 p refl refl)
