-- ===== src/Simulation/Pool/Ending.antt =====
-- Where the steps of the threads lead.
use brb_partially_connected.Base.{
  total, total-get_elem?, ℕ, zero, suc, ◌+◌, ◌*◌, ◌≤◌, ◌<◌, ◌≡◌, ◌⊎◌, inl, inr, refl, ap, ◌∙◌, Bool,
  true, false, List, [], ◌∷◌, ◌++◌, Option, none, some, map, length, get_elem?, if◌then◌else◌,
  arith,
}
use brb_partially_connected.Simulation.Queue.{Params}
use brb_partially_connected.Simulation.Pool.{
  Status, waiting, busy, returned, dead, Main, putting, starting, Pool, Step, put, start, take,
  complete, fail, Reach,
}
use brb_partially_connected.Simulation.Pool.Weights.{
  times, carries, marker, is_returned, is_dead, spare_markers, threads_left,
}
use brb_partially_connected.Simulation.Pool.Invariant.{Reach-Inv, markers}

first_of :
    (rest : List Params) (n : ℕ)
    → 0 < n
    → (config : Option Params) × (queue : List (Option Params)) × (map some rest ++ markers n
        ≡ config ∷ queue)
first_of [] zero h = absurd (omega (arith, h))
first_of [] (suc n) h = (none, markers n, refl)
first_of (p ∷ rest) n h = (some p, map some rest ++ markers n, refl)

-- A thread that waits for a configuration always finds an element in the queue: it does not block in
-- `q.get()` while it holds the lock.
pub no_blocking :
    {configs : List Params} {nthreads m : ℕ} {s : Pool}
    → Reach configs nthreads m s
    → (i : ℕ) → get_elem? s.workers i ≡ some waiting
    → (config : Option Params) × (rest : List (Option Params)) × (s.queue ≡ config ∷ rest)
no_blocking {s} r i e =
    let inv = Reach-Inv r in
    let (config, rest, eq) =
      first_of inv.rest (total marker s.workers + spare_markers s.main)
        (omega (arith, total-get_elem? marker s.workers i waiting e)) in
    (config, rest, inv.queue_is ∙ eq)

-- The threads are bound to end: each step uses up one of a fixed number of steps.
pub bounded_steps :
    {configs : List Params} {nthreads m : ℕ} {s : Pool}
    → Reach configs nthreads m s
    → m ≤ 3 * nthreads + 2 * length configs
bounded_steps r = let inv = Reach-Inv r in omega (arith, inv.spent)

abbrev pub AllReturned : List Status → Type 0
AllReturned [] = Unit
AllReturned (st ∷ workers) = (st ≡ returned) × AllReturned workers

abbrev Active : List Status → Type 0
Active workers = (i : ℕ) × (st : Status) × (get_elem? workers i ≡ some st) × (is_returned st ≡ 0)

Active-cases : (workers : List Status) → Active workers ⊎ AllReturned workers
Active-cases [] = inr tt
Active-cases (waiting ∷ workers) = inl (0, waiting, refl, refl)
Active-cases (busy p ∷ workers) = inl (0, busy p, refl, refl)
Active-cases (dead p ∷ workers) = inl (0, dead p, refl, refl)
Active-cases (returned ∷ workers) = elim (Active-cases workers) [
  | inl (i, st, e, a) ↦ inl (suc i, st, e, a)
  | inr others ↦ inr (refl, others)
]

main-cases :
    (main : Main)
    → ((left : ℕ) × (main ≡ putting (suc left)))
      ⊎ (((left : ℕ) × (main ≡ starting left)) ⊎ (main ≡ putting 0))
main-cases (putting zero) = inr (inr refl)
main-cases (putting (suc left)) = inl (left, refl)
main-cases (starting left) = inr (inl (left, refl))

returned-totals :
    (p : Params) (workers : List Status)
    → AllReturned workers
    → (total (carries p) workers ≡ 0) × (total is_returned workers ≡ length workers)
returned-totals p [] all = (refl, refl)
returned-totals p (st ∷ workers) (e, all) =
    let (gone, count) = returned-totals p workers all in
    rw e (omega (arith, gone), omega (arith, count))

get_elem?-append :
    {A : Type 0} (xs ys : List A) (i : ℕ) (x : A)
    → get_elem? xs i ≡ some x
    → get_elem? (xs ++ ys) i ≡ some x
get_elem?-append [] ys i x e = ground (arith, e)
get_elem?-append (y ∷ xs) ys zero x e = e
get_elem?-append (y ∷ xs) ys (suc i) x e = get_elem?-append xs ys i x e

abbrev pub CanStep : Pool → Type 0
CanStep s = (t : Pool) × Step s t

module _ {configs : List Params} {nthreads m : ℕ} {s : Pool} (r : Reach configs nthreads m s)
    (free : s.locked ≡ false) where
  thread_steps :
      (i : ℕ) (st : Status) → get_elem? s.workers i ≡ some st → is_returned st ≡ 0 → CanStep s
  thread_steps i waiting e active =
      let (config, rest, eq) = no_blocking r i e in (_, take i config rest free e eq)
  thread_steps i (busy p) e active = (_, complete i p free e)
  thread_steps i returned e active = absurd (omega (arith, active))
  thread_steps i (dead p) e active =
      let inv = Reach-Inv r in
      absurd (
        omega (
          arith,
          inv.one_dead,
          ap (λ (b : Bool). if◌then◌else◌ {A = ℕ} b 1 0) free,
          total-get_elem? is_dead s.workers i (dead p) e,
        ))

  -- Unless a thread has raised an exception, some step is possible until all threads have been started
  -- and have returned.
  can_go_on : CanStep s ⊎ ((s.main ≡ putting 0) × AllReturned s.workers)
  can_go_on = elim (main-cases s.main) [
    | inl (left, next) ↦ inl (_, put left next)
    | inr (inl (left, next)) ↦ inl (_, start left next)
    | inr (inr over) ↦ elim (Active-cases s.workers) [
      | inl (i, st, e, active) ↦ inl (thread_steps i st e active)
      | inr all ↦ inr (over, all)
    ]
  ]

-- Where no further step is possible, no thread has raised an exception and there is a thread, each
-- configuration has been completed as often as it was put into the queue.
pub all_completed :
    {configs : List Params} {nthreads m : ℕ} {s : Pool}
    → Reach configs nthreads m s
    → 0 < nthreads
    → s.locked ≡ false
    → ¬ CanStep s
    → (p : Params) → times p s.completed ≡ times p configs
all_completed {s} r threads free over p = elim (can_go_on r free) [
  | inl step ↦ absurd (over step)
  | inr (main_over, all) ↦
      let inv = Reach-Inv r in
      let (gone, count) = returned-totals p s.workers all in
      let drained : inv.rest ≡ [] =
        inv.drained (omega (arith, count, inv.all_threads, ap threads_left main_over, threads)) in
      omega (arith, inv.kept p, gone, ap (times p) drained)
]

-- What comes about after some steps.
pub data Later (s : Pool) : Pool → Type 0 where
  here : Later s s
  after : {t u : Pool} → Later s t → Step t u → Later s u

abbrev Frozen : Pool → Pool → Type 0
Frozen s t =
    (t.locked ≡ true)
    × (t.completed ≡ s.completed)
    × ((i : ℕ) (st : Status) → get_elem? s.workers i ≡ some st → get_elem? t.workers i ≡ some st)

both-absurd : {b : Bool} {A : Type 0} → b ≡ true → b ≡ false → A
both-absurd e e' = absurd (ground (arith, e, e'))

Step-Frozen : (s : Pool) {t u : Pool} → Step t u → Frozen s t → Frozen s u
Step-Frozen s (put left e) frozen = frozen
Step-Frozen s (start left e) (locked, same, stays) =
    (locked, same, λ i st h. get_elem?-append _ _ i st (stays i st h))
Step-Frozen s (take i config rest free e eq) frozen = both-absurd frozen.0 free
Step-Frozen s (complete i p free e) frozen = both-absurd frozen.0 free
Step-Frozen s (fail i p free e) frozen = both-absurd frozen.0 free

Later-Frozen : {s t : Pool} → s.locked ≡ true → Later s t → Frozen s t
Later-Frozen locked here = (locked, refl, λ i st h. h)
Later-Frozen {s} locked (after steps st) = Step-Frozen s st (Later-Frozen locked steps)

locked-cases : (b : Bool) → 1 ≤ (if b then 1 else 0) → b ≡ true
locked-cases true h = refl
locked-cases false h = absurd (omega (arith, h))

-- Once a thread has raised an exception on a configuration, whatever steps follow, the lock stays held, no
-- further configuration is completed, and each thread that has been started stays as it is: one that waits
-- never returns.
pub locked_forever :
    {configs : List Params} {nthreads m : ℕ} {s t : Pool}
    → Reach configs nthreads m s
    → (i : ℕ) (p : Params) → get_elem? s.workers i ≡ some (dead p)
    → Later s t
    → (t.locked ≡ true)
      × (t.completed ≡ s.completed)
      × ((j : ℕ) (st : Status) → get_elem? s.workers j ≡ some st → get_elem? t.workers j ≡ some st)
locked_forever {s} r i p e steps =
    let inv = Reach-Inv r in
    Later-Frozen
      (locked-cases s.locked
        (omega (arith, inv.one_dead, total-get_elem? is_dead s.workers i (dead p) e)))
      steps
