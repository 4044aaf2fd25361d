-- ===== src/Simulation/Pool/Invariant.antt =====
-- What holds of the threads and the queue at all times.
use mathlib.Core.Path.{subst}
use brb_partially_connected.Base.{
  append-none, total, total-append, total-set, ℕ, zero, suc, ◌+◌, ◌*◌, ◌<◌, ◌≡◌, ◌⊎◌, inl, inr,
  refl, ap, sym, ◌∙◌, Bool, false, List, [], ◌∷◌, ◌++◌, Option, none, some, map, length,
  length-append, length-set, get_elem?, set, replicate, if◌then◌else◌, arith,
}
use brb_partially_connected.Simulation.Queue.{Params}
use brb_partially_connected.Simulation.Pool.{
  Status, waiting, busy, returned, dead, putting, starting, Pool, launch, put_marker, start_thread,
  take_config, complete_config, raise_locked, Step, put, start, take, complete, fail, Reach,
  at_first, later,
}
use brb_partially_connected.Simulation.Pool.Weights.{
  is_same, times, carries, marker, is_returned, is_dead, steps_left, spare_markers, threads_left,
  main_left,
}

abbrev pub markers : ℕ → List (Option Params)
markers n = replicate n none

-- After `m` steps.
pub record Inv (configs : List Params) (nthreads m : ℕ) (s : Pool) : Type 0 where
  pub rest : List Params
  pub queue_is : s.queue ≡ map some rest ++ markers (total marker s.workers + spare_markers s.main)
  pub drained : 0 < total is_returned s.workers → rest ≡ []
  pub kept :
      (p : Params)
      → times p rest + total (carries p) s.workers + times p s.completed ≡ times p configs
  pub all_threads : length s.workers + threads_left s.main ≡ nthreads
  pub one_dead : total is_dead s.workers ≡ (if s.locked then 1 else 0)
  pub spent :
      m + (main_left s.main + total steps_left s.workers + 2 * length rest)
      ≡ 3 * nthreads + 2 * length configs

markers-concat :
    (xs : List (Option Params)) (n : ℕ) → (xs ++ markers n) ++ none ∷ [] ≡ xs ++ markers (suc n)
markers-concat [] zero = refl
markers-concat [] (suc n) = ap (λ (q : List (Option Params)). none ∷ q) (markers-concat [] n)
markers-concat (x ∷ xs) n = ap (λ (q : List (Option Params)). x ∷ q) (markers-concat xs n)

-- The first element of the queue is a configuration, or there is none left.
pub queue-cases :
    (rest : List Params) (n : ℕ) (config : Option Params) (queue : List (Option Params))
    → config ∷ queue ≡ map some rest ++ markers n
    → ((p : Params) × (others : List Params) × (rest ≡ p ∷ others)
        × (config ≡ some p)
        × (queue ≡ map some others ++ markers n))
      ⊎ ((n' : ℕ) × (rest ≡ []) × (n ≡ suc n') × (config ≡ none) × (queue ≡ markers n'))
queue-cases [] zero config queue e = ground (arith, e)
queue-cases [] (suc n) config queue e = inr (n, refl, refl, cc, cc)
queue-cases (p ∷ rest) n config queue e = inl (p, rest, refl, cc, cc)

pub launch-Inv :
    (configs : List Params) (nthreads : ℕ) → Inv configs nthreads 0 (launch configs nthreads)
unfolding launch
launch-Inv configs nthreads = record {
  rest = configs;
  queue_is = append-none (map some configs);
  drained = λ h. absurd (omega (arith, h));
  kept = λ p. omega arith;
  all_threads = omega arith;
  one_dead = refl;
  spent = omega arith;
}

module _ {configs : List Params} {nthreads m : ℕ} {s : Pool} (inv : Inv configs nthreads m s) where
  put-Inv :
      (left : ℕ) → s.main ≡ putting (suc left) → Inv configs nthreads (suc m) (put_marker left s)
  put-Inv left e = record {
    rest = inv.rest;
    queue_is =
        ap (λ (q : List (Option Params)). q ++ none ∷ []) inv.queue_is
        ∙ markers-concat (map some inv.rest) (total marker s.workers + spare_markers s.main)
        ∙ ap (λ (n : ℕ). map some inv.rest ++ markers n)
            {x = suc (total marker s.workers + spare_markers s.main)}
            (omega (arith, ap spare_markers e));
    drained = inv.drained;
    kept = inv.kept;
    all_threads = omega (arith, inv.all_threads, ap threads_left e);
    one_dead = inv.one_dead;
    spent = omega (arith, inv.spent, ap main_left e);
  }

  start-Inv :
      (left : ℕ) → s.main ≡ starting left → Inv configs nthreads (suc m) (start_thread left s)
  start-Inv left e = record {
    rest = inv.rest;
    queue_is =
        inv.queue_is
        ∙ ap (λ (n : ℕ). map some inv.rest ++ markers n)
            (omega (arith, ap spare_markers e, total-append marker s.workers (waiting ∷ [])));
    drained =
        λ h. inv.drained (omega (arith, h, total-append is_returned s.workers (waiting ∷ [])));
    kept = λ p. omega (arith, inv.kept p, total-append (carries p) s.workers (waiting ∷ []));
    all_threads =
        omega (arith, inv.all_threads, ap threads_left e, length-append s.workers (waiting ∷ []));
    one_dead = omega (arith, inv.one_dead, total-append is_dead s.workers (waiting ∷ []));
    spent =
        omega (arith, inv.spent, ap main_left e, total-append steps_left s.workers (waiting ∷ []));
  }

  module _ (i : ℕ) (e : get_elem? s.workers i ≡ some waiting) where
    change :
        (w : Status → ℕ) (new : Status)
        → total w (set s.workers i new) + w waiting ≡ total w s.workers + w new
    change w new = total-set w s.workers i waiting new e

    take_some-Inv :
        (p : Params) (others : List Params) (queue : List (Option Params))
        → inv.rest ≡ p ∷ others
        → queue ≡ map some others ++ markers (total marker s.workers + spare_markers s.main)
        → Inv configs nthreads (suc m) (take_config i (some p) queue s)
    take_some-Inv p others queue er eq = record {
      rest = others;
      queue_is =
          eq ∙ ap (λ (n : ℕ). map some others ++ markers n) (omega (arith, change marker (busy p)));
      drained = λ h. absurd (
          omega (
            arith,
            ap length er,
            ap length (inv.drained (omega (arith, h, change is_returned (busy p)))),
          ));
      kept = λ q. omega (arith, inv.kept q, ap (times q) er, change (carries q) (busy p));
      all_threads = omega (arith, inv.all_threads, length-set s.workers i (busy p));
      one_dead = omega (arith, inv.one_dead, change is_dead (busy p));
      spent = omega (arith, inv.spent, ap length er, change steps_left (busy p));
    }

    take_none-Inv :
        (n : ℕ) (queue : List (Option Params))
        → inv.rest ≡ []
        → total marker s.workers + spare_markers s.main ≡ suc n
        → queue ≡ markers n
        → Inv configs nthreads (suc m) (take_config i none queue s)
    take_none-Inv n queue er en eq = record {
      rest = [];
      queue_is = eq ∙ ap markers (omega (arith, en, change marker returned));
      drained = λ h. refl;
      kept = λ q. omega (arith, inv.kept q, ap (times q) er, change (carries q) returned);
      all_threads = omega (arith, inv.all_threads, length-set s.workers i returned);
      one_dead = omega (arith, inv.one_dead, change is_dead returned);
      spent = omega (arith, inv.spent, ap length er, change steps_left returned);
    }

    take-Inv :
        (config : Option Params) (queue : List (Option Params))
        → s.queue ≡ config ∷ queue
        → Inv configs nthreads (suc m) (take_config i config queue s)
    take-Inv config queue eq =
        let n = total marker s.workers + spare_markers s.main in
        elim (queue-cases inv.rest n config queue (sym eq ∙ inv.queue_is)) [
          | inl (p, others, er, ec, e') ↦
              subst (λ c. Inv configs nthreads (suc m) (take_config i c queue s)) (sym ec)
                (take_some-Inv p others queue er e')
          | inr (n', er, en, ec, e') ↦
              subst (λ c. Inv configs nthreads (suc m) (take_config i c queue s)) (sym ec)
                (take_none-Inv n' queue er en e')
        ]

  module _ (i : ℕ) (p : Params) (e : get_elem? s.workers i ≡ some (busy p)) where
    ended :
        (w : Status → ℕ) (new : Status)
        → total w (set s.workers i new) + w (busy p) ≡ total w s.workers + w new
    ended w new = total-set w s.workers i (busy p) new e

    complete-Inv : Inv configs nthreads (suc m) (complete_config i p s)
    complete-Inv = record {
      rest = inv.rest;
      queue_is =
          inv.queue_is
          ∙ ap (λ (n : ℕ). map some inv.rest ++ markers n) (omega (arith, ended marker waiting));
      drained = λ h. inv.drained (omega (arith, h, ended is_returned waiting));
      kept = λ q. omega (
        arith,
        inv.kept q,
        ended (carries q) waiting,
        total-append (is_same q) s.completed (p ∷ []),
      );
      all_threads = omega (arith, inv.all_threads, length-set s.workers i waiting);
      one_dead = omega (arith, inv.one_dead, ended is_dead waiting);
      spent = omega (arith, inv.spent, ended steps_left waiting);
    }

    fail-Inv : s.locked ≡ false → Inv configs nthreads (suc m) (raise_locked i p s)
    fail-Inv free = record {
      rest = inv.rest;
      queue_is =
          inv.queue_is
          ∙ ap (λ (n : ℕ). map some inv.rest ++ markers n) (omega (arith, ended marker (dead p)));
      drained = λ h. inv.drained (omega (arith, h, ended is_returned (dead p)));
      kept = λ q. omega (arith, inv.kept q, ended (carries q) (dead p));
      all_threads = omega (arith, inv.all_threads, length-set s.workers i (dead p));
      one_dead = omega (
        arith,
        inv.one_dead,
        ap (λ (b : Bool). if◌then◌else◌ {A = ℕ} b 1 0) free,
        ended is_dead (dead p),
      );
      spent = omega (arith, inv.spent, ended steps_left (dead p));
    }

  pub Step-Inv : {t : Pool} → Step s t → Inv configs nthreads (suc m) t
  Step-Inv (put left e) = put-Inv left e
  Step-Inv (start left e) = start-Inv left e
  Step-Inv (take i config queue free e eq) = take-Inv i e config queue eq
  Step-Inv (complete i p free e) = complete-Inv i p e
  Step-Inv (fail i p free e) = fail-Inv i p e free

pub Reach-Inv :
    {configs : List Params} {nthreads m : ℕ} {s : Pool}
    → Reach configs nthreads m s
    → Inv configs nthreads m s
Reach-Inv {configs} {nthreads} at_first = launch-Inv configs nthreads
Reach-Inv (later r st) = Step-Inv (Reach-Inv r) st
