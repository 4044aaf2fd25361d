-- ===== src/Simulation/Pool.antt =====
-- The threads of `runParams` and their queue. A thread that raises an exception does so while it holds
-- the lock: the steps that acquire the lock are then over.
pub mod Weights
pub mod Invariant
pub mod Ending
pub mod Refinement
mod Examples
use brb_partially_connected.Base.{
  ℕ, zero, suc, ◌≡◌, Bool, true, false, List, [], ◌∷◌, ◌++◌, Option, none, some, map, get_elem?,
  set,
}
use brb_partially_connected.Simulation.Queue.{Params}

pub data Status : Type 0 where
  waiting : Status
  busy : Params → Status
  returned : Status
  dead : Params → Status

-- `for thread in threads: q.put(None); thread.start()`, with the number of rounds left.
pub data Main : Type 0 where
  putting : (left : ℕ) → Main
  starting : (left : ℕ) → Main

pub record Pool : Type 0 where
  pub main : Main
  pub queue : List (Option Params)
  -- The threads that have been started.
  pub workers : List Status
  -- The configurations that workers are through with.
  pub completed : List Params
  -- A thread that no longer runs holds the lock.
  pub locked : Bool

-- Before the loop over the threads.
unfoldable pub launch : (configs : List Params) (nthreads : ℕ) → Pool
launch configs nthreads = record {
  main = putting nthreads;
  queue = map some configs;
  workers = [];
  completed = [];
  locked = false;
}

-- `config = q.get()` and `if config is None`.
abbrev pub taken : Option Params → Status
taken none = returned
taken (some p) = busy p

abbrev pub put_marker : (left : ℕ) → Pool → Pool
put_marker left s = record s { main = starting left; queue = s.queue ++ none ∷ [] }

abbrev pub start_thread : (left : ℕ) → Pool → Pool
start_thread left s = record s { main = putting left; workers = s.workers ++ waiting ∷ [] }

abbrev pub take_config : ℕ → Option Params → List (Option Params) → Pool → Pool
take_config i config rest s = record s { queue = rest; workers = set s.workers i (taken config) }

-- `process_config` returns.
abbrev pub complete_config : ℕ → Params → Pool → Pool
complete_config i p s = record s {
  workers = set s.workers i waiting;
  completed = s.completed ++ p ∷ [];
}

-- `process_config` raises, which it does while the thread holds the lock.
abbrev pub raise_locked : ℕ → Params → Pool → Pool
raise_locked i p s = record s { workers = set s.workers i (dead p); locked = true }

pub data Step (s : Pool) : Pool → Type 0 where
  put : (left : ℕ) → s.main ≡ putting (suc left) → Step s (put_marker left s)
  start : (left : ℕ) → s.main ≡ starting left → Step s (start_thread left s)
  take :
      (i : ℕ) (config : Option Params) (rest : List (Option Params))
      → s.locked ≡ false
      → get_elem? s.workers i ≡ some waiting
      → s.queue ≡ config ∷ rest
      → Step s (take_config i config rest s)
  complete :
      (i : ℕ) (p : Params)
      → s.locked ≡ false
      → get_elem? s.workers i ≡ some (busy p)
      → Step s (complete_config i p s)
  fail :
      (i : ℕ) (p : Params)
      → s.locked ≡ false
      → get_elem? s.workers i ≡ some (busy p)
      → Step s (raise_locked i p s)

-- What comes about in some number of steps.
pub data Reach (configs : List Params) (nthreads : ℕ) : ℕ → Pool → Type 0 where
  at_first : Reach configs nthreads 0 (launch configs nthreads)
  later :
      {m : ℕ} {s t : Pool}
      → Reach configs nthreads m s
      → Step s t
      → Reach configs nthreads (suc m) t
