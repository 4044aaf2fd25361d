-- ===== src/Simulation/Rounds.antt =====
-- A configuration that a worker takes from the queue is simulated to its end.
use brb_partially_connected.Base.{ℕ, zero, suc, ◌+◌, ◌≡◌, refl, some, ==_iff, arith}
use brb_partially_connected.GenerateGraphs.Defs.{generate_k_regular}
use brb_partially_connected.Simulation.Run.{
  done, Surroundings, Args, max_config_id, repeats, Shared,
}
use brb_partially_connected.Simulation.Worker.{
  at_thread, random_at, all_configs, rounds_of, process_config,
}
use brb_partially_connected.Simulation.Attempts.{AreComplete, Answer}
use brb_partially_connected.Simulation.Tables.{AllHold, AllHold-same}
use brb_partially_connected.Simulation.Completion.{recorded, all_configs-Leaves}

module _ (env : Surroundings) where
  open env use {nx}

  -- A graph is found in each round.
  abbrev pub Found : (fuel n f k : ℕ) → Type 0
  Found fuel n f k =
      (round : ℕ) → (g : nx.Graph) × (generate_k_regular (random_at env round) fuel n k f ≡ some g)

  rounds_of_chained :
      (fuel tid n f k rounds : ℕ) (s s2 s3 : Shared env) (g : nx.Graph)
      → generate_k_regular (random_at env s.clock) fuel n k f ≡ some g
      → all_configs env fuel tid
          (max_config_id + 1)
          0
          (record s { graphs = at_thread tid g s.graphs })
        ≡ done s2
      → rounds_of env fuel tid (n, f, k) rounds s2 ≡ done s3
      → rounds_of env fuel tid (n, f, k) (suc rounds) s ≡ done s3
  unfolding rounds_of
  rounds_of_chained fuel tid n f k rounds s s2 s3 g drawn configs others =
      rw (rounds_of, drawn, configs) others

  module _ (complete : AreComplete env) (fuel : ℕ) (answer : Answer env fuel) (tid n f k : ℕ)
      (found : Found fuel n f k) where
    rounds_of-AllHold :
        (before : ℕ → ℕ) (r id rounds : ℕ) (s : Shared env)
        → s.args tid ≡ some (record { n = n; f = f; k = k; config_id = id })
        → AllHold env (n, f, k) s.results (recorded before r 0)
        → (s' : Shared env) × (rounds_of env fuel tid (n, f, k) rounds s ≡ done s')
          × AllHold env (n, f, k) s'.results (recorded before (r + rounds) 0)
    unfolding rounds_of
    rounds_of-AllHold before r id zero s ea held = (
      s,
      refl,
      AllHold-same env (n, f, k) s.results (recorded before r 0) (recorded before (r + 0) 0)
          (λ i le. ground arith) held,
    )
    rounds_of-AllHold before r id (suc rounds) s ea held =
        let (g, drawn) = found s.clock in
        let a : Args = record { n = n; f = f; k = k; config_id = id } in
        let s1 : Shared env = record s { graphs = at_thread tid g s.graphs } in
        let eg1 : s1.graphs tid ≡ some g = rw ((==_iff tid tid).1 refl) refl in
        let (id', (s2, configs, ea2, eg2, held2)) =
          all_configs-Leaves env complete fuel answer tid before a g r (max_config_id + 1) 0 s1 ea
            eg1 (omega arith) held in
        let (s3, others, held3) = rounds_of-AllHold before (suc r) id' rounds s2 ea2 held2 in
        (
          s3,
          rounds_of_chained fuel tid n f k rounds s s2 s3 g drawn configs others,
          AllHold-same env (n, f, k) s3.results (recorded before (suc r + rounds) 0)
              (recorded before (r + suc rounds) 0) (λ i le. ground arith) held3,
        )

    -- Where each simulation that leaves the file of deliveries leaves four files of measurements whose means
    -- are not 0, one of any `fuel` simulations in a row does, and a graph is found within the fuel in each
    -- round, a worker comes through its configuration, and has added 5 results that are not 0 to the list
    -- of each of the 13 option choices in all four tables.
    pub process_config-AllHold :
        (before : ℕ → ℕ) (s : Shared env)
        → AllHold env (n, f, k) s.results before
        → (s' : Shared env) × (process_config env fuel tid (n, f, k) s ≡ done s')
          × AllHold env (n, f, k) s'.results (λ i. before i + 5)
    unfolding process_config
    process_config-AllHold before s held =
        let a : Args = record { n = n; f = f; k = k; config_id = 0 } in
        let s1 : Shared env = record s { args = at_thread tid a s.args } in
        let ea : s1.args tid ≡ some a = rw ((==_iff tid tid).1 refl) refl in
        let (s', ended, held') = rounds_of-AllHold before 0 0 repeats s1 ea (
          AllHold-same env (n, f, k) s1.results before (recorded before 0 0) (λ i le. ground arith)
            held) in
        (
          s',
          ended,
          AllHold-same env (n, f, k) s'.results (recorded before (0 + repeats) 0)
              (λ i. before i + 5) (λ i le. ground arith) held',
        )
