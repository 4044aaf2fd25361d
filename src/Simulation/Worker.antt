-- ===== src/Simulation/Worker.antt =====
-- What a worker does with one configuration of the queue.
use brb_partially_connected.Base.{
  ℕ, zero, suc, ◌+◌, List, [], ◌∷◌, ◌++◌, Option, none, some, not, ◌&&◌, ◌||◌, ◌==◌, if◌then◌else◌,
  or_raise, index_error, zero_division,
}
use brb_partially_connected.GenerateGraphs.Defs.{RandomGraphs, generate_k_regular}
use brb_partially_connected.Simulation.Texts.{lit, cname}
use brb_partially_connected.Simulation.Ned.{ned_file}
use brb_partially_connected.Simulation.Ini.{ini_file}
use brb_partially_connected.Simulation.Queue.{Params}
use brb_partially_connected.Simulation.Run.{
  Run, done, raised, out_of_fuel, ◌>>=◌, lift, key, Four, Surroundings, Table, max_config_id,
  repeats, msg_size, read_numbers, is_empty, last?, same_params, Shared,
}

abbrev pub at_thread : {A : Type 0} → ℕ → A → (ℕ → Option A) → ℕ → Option A
at_thread tid a d t = if tid == t then some a else d t

module _ (env : Surroundings) where
  open env use {nx, Float, mean, is_zero, delivers, measures}

  -- The graphs that `random_regular_graph` gives in a round.
  abbrev pub random_at : ℕ → RandomGraphs
  random_at round = record {
    Graph = nx.Graph;
    draw = env.draw round;
    count_components = env.count_components;
    node_connectivity = env.node_connectivity;
  }

  -- `append` to the list of a configuration, where there is one.
  abbrev pub append_at : Params → ℕ → Float → Table Float → Run (Table Float)
  append_at p id x table = key (table p id) >>= (λ xs.
      done
        (λ p' id'. if same_params p p' && (id == id') then some (xs ++ x ∷ []) else table p' id'))

  -- `table[n][f][k][0][-1]`
  abbrev pub reference : Params → Table Float → Run Float
  reference p table = key (table p 0) >>= (λ xs. lift (or_raise index_error (last? xs)))

  -- Reading the files of a simulation. A wrong number of deliveries is only reported.
  unfoldable pub read_files :
      (tid : ℕ) (ndelivers : Option (List (Option ℕ)))
      → Four (Option (List (Option Float)))
      → Shared env
      → Run (Shared env)
  read_files tid ndelivers files s = read_numbers ndelivers >>= (λ ns.
      read_numbers files.msg >>= (λ msgs. read_numbers files.bit >>= (λ bits.
        read_numbers files.lat >>= (λ lats. read_numbers files.proc >>= (λ procs. done (record s {
          lists =
              at_thread tid (record { msg = msgs; bit = bits; lat = lats; proc = procs }) s.lists;
        }))))))

  -- `runOneConfig`, with fuel for the `while` loop.
  unfoldable pub run_one_config : (fuel tid : ℕ) → Shared env → Run (Shared env)
  unfolding read_files
  run_one_config zero tid s = out_of_fuel
  run_one_config (suc fuel) tid s = key (s.args tid) >>= (λ a. key (s.graphs tid) >>= (λ g.
      let ned = ned_file nx g a.n a.f a.k in
      let ini = ini_file a.n a.f a.k msg_size in
      let name = lit "c" ∷ cname a.n a.f a.k a.config_id in
      let s' = record s { clock = suc s.clock } in
      elim (delivers ned ini name s.clock) [
        | none ↦ run_one_config fuel tid s'
        | some ns ↦ read_files tid (some ns) (measures ned ini name s.clock) s'
      ]))

  -- The means go into the tables, and those of later configurations are divided by the last ones of
  -- configuration 0.
  unfoldable pub record_results : (tid : ℕ) → Shared env → Run (Shared env)
  record_results tid s = key (s.args tid) >>= (λ a. key (s.lists tid) >>= (λ l.
      let p : Params = (a.n, a.f, a.k) in
      let some_empty = not (
        not (is_empty l.msg)
        && (not (is_empty l.bit) && (not (is_empty l.lat) && not (is_empty l.proc)))) in
      let recorded = append_at p a.config_id (mean l.msg) s.results.msg >>= (λ msg.
        append_at p a.config_id (mean l.bit) s.results.bit >>= (λ bit.
          append_at p a.config_id (mean l.lat) s.results.lat >>= (λ lat.
            append_at p a.config_id (mean l.proc) s.results.proc >>= (λ proc.
              let s' : Shared env = record s {
                results = record { msg = msg; bit = bit; lat = lat; proc = proc };
              } in
              let compared = reference p msg >>= (λ m. reference p bit >>= (λ b.
                reference p lat >>= (λ l. reference p proc >>= (λ r.
                  if is_zero m || (is_zero b || (is_zero l || is_zero r))
                  then raised zero_division
                  else done s')))) in
              if a.config_id == 0 then done s' else compared)))) in
      if some_empty then done s else recorded))

  -- `argsThreads[tid][3] = configId`, a simulation, and its results.
  unfoldable pub one_config : (fuel tid config_id : ℕ) → Shared env → Run (Shared env)
  unfolding run_one_config record_results
  one_config fuel tid config_id s =
      key (s.args tid)
      >>= (λ a.
          run_one_config fuel tid
            (record s { args = at_thread tid (record a { config_id = config_id }) s.args }))
      >>= record_results tid

  -- `for configId in range(maxidconfig+1)`, from `config_id` on.
  unfoldable pub all_configs : (fuel tid rounds config_id : ℕ) → Shared env → Run (Shared env)
  unfolding one_config
  all_configs fuel tid zero config_id s = done s
  all_configs fuel tid (suc rounds) config_id s =
      one_config fuel tid config_id s >>= all_configs fuel tid rounds (suc config_id)

  -- `while success < repeats`: a graph, and all configurations on it.
  unfoldable pub rounds_of : (fuel tid : ℕ) → Params → (rounds : ℕ) → Shared env → Run (Shared env)
  unfolding all_configs
  rounds_of fuel tid p zero s = done s
  rounds_of fuel tid (n, f, k) (suc rounds) s =
      elim (generate_k_regular (random_at s.clock) fuel n k f) [
        | none ↦ out_of_fuel
        | some g ↦
            all_configs fuel tid (max_config_id + 1) 0
              (record s { graphs = at_thread tid g s.graphs })
            >>= rounds_of fuel tid (n, f, k) rounds
      ]

  unfoldable pub process_config : (fuel tid : ℕ) → Params → Shared env → Run (Shared env)
  unfolding rounds_of
  process_config fuel tid (n, f, k) s =
      rounds_of fuel tid (n, f, k) repeats
        (record s { args = at_thread tid (record { n = n; f = f; k = k; config_id = 0 }) s.args })
