-- ===== src/Simulation/Pool/Refinement.antt =====
-- The threads and their queue as bags of configurations, without order or threads.
use brb_partially_connected.Base.{
  ℕ, ◌+◌, ◌≡◌, refl, ap, ◌∙◌, List, [], ◌∷◌, Option, none, some, get_elem?, total, total-append,
  total-set, arith,
}
use brb_partially_connected.Simulation.Queue.{Params}
use brb_partially_connected.Simulation.Pool.{
  waiting, busy, returned, dead, Pool, take_config, Step, put, start, take, complete, fail,
}
use brb_partially_connected.Simulation.Pool.Weights.{is_same, times, carries}

-- How often each configuration is still to be simulated, is being simulated, and has been simulated.
pub record Bags : Type 0 where
  pub todo : Params → ℕ
  pub doing : Params → ℕ
  pub finished : Params → ℕ

-- The steps of any program that simulates each configuration once.
pub data BagStep (a b : Bags) : Type 0 where
  idle :
      ((p : Params)
        → (b.todo p ≡ a.todo p) × (b.doing p ≡ a.doing p) × (b.finished p ≡ a.finished p))
      → BagStep a b
  begin :
      (q : Params)
      → ((p : Params)
          → (b.todo p + is_same p q ≡ a.todo p)
            × (b.doing p ≡ a.doing p + is_same p q)
            × (b.finished p ≡ a.finished p))
      → BagStep a b
  finish :
      (q : Params)
      → ((p : Params)
          → (b.todo p ≡ a.todo p)
            × (b.doing p + is_same p q ≡ a.doing p)
            × (b.finished p ≡ a.finished p + is_same p q))
      → BagStep a b

abbrev pub queued : Params → Option Params → ℕ
queued p none = 0
queued p (some q) = is_same p q

-- What a pool stands for.
abbrev pub bags : Pool → Bags
bags s = record {
  todo = λ p. total (queued p) s.queue;
  doing = λ p. total (carries p) s.workers;
  finished = λ p. times p s.completed;
}

taken-BagStep :
    (i : ℕ) (config : Option Params) (rest : List (Option Params)) (s : Pool)
    → get_elem? s.workers i ≡ some waiting
    → s.queue ≡ config ∷ rest
    → BagStep (bags s) (bags (take_config i config rest s))
taken-BagStep i none rest s e eq = idle (λ p. (
  omega (arith, ap (total (queued p)) eq),
  omega (arith, total-set (carries p) s.workers i waiting returned e),
  refl,
))
taken-BagStep i (some q) rest s e eq = begin q (λ p. (
  omega (arith, ap (total (queued p)) eq),
  omega (arith, total-set (carries p) s.workers i waiting (busy q) e),
  refl,
))

-- Each step of the threads begins a configuration that is still to be simulated, finishes one that is
-- being simulated, or leaves the three bags as they are.
pub Step-BagStep : (s : Pool) {t : Pool} → Step s t → BagStep (bags s) (bags t)
Step-BagStep s (put left e) =
    idle (λ p. (omega (arith, total-append (queued p) s.queue (none ∷ [])), refl, refl))
Step-BagStep s (start left e) =
    idle (λ p. (refl, omega (arith, total-append (carries p) s.workers (waiting ∷ [])), refl))
Step-BagStep s (take i config rest free e eq) = taken-BagStep i config rest s e eq
Step-BagStep s (complete i q free e) = finish q (λ p. (
  refl,
  omega (arith, total-set (carries p) s.workers i (busy q) waiting e),
  total-append (is_same p) s.completed (q ∷ []) ∙ omega arith,
))
Step-BagStep s (fail i q free e) =
    idle (λ p. (refl, omega (arith, total-set (carries p) s.workers i (busy q) (dead q) e), refl))
