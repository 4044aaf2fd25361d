-- ===== src/Simulation/Completion.antt =====
-- What a worker has recorded once it is through with a configuration of the queue.
use mathlib.Core.Path.{subst}
use brb_partially_connected.Base.{
  ℕ, zero, suc, ◌+◌, ◌≤◌, ◌<◌, ◌≡◌, ◌⊎◌, refl, ◌∙◌, sym, List, Option, some, inl, inr, Bool-cases,
  ◌==◌, ==_iff, ltb, if◌then◌else◌, arith,
}
use brb_partially_connected.Simulation.Queue.{Params}
use brb_partially_connected.Simulation.Run.{
  Run, done, Four, Surroundings, Args, max_config_id, Shared,
}
use brb_partially_connected.Simulation.Worker.{
  at_thread, run_one_config, record_results, one_config, all_configs,
}
use brb_partially_connected.Simulation.Attempts.{
  AreComplete, Answer, AllUseful, run_one_config-Simulates,
}
use brb_partially_connected.Simulation.Tables.{
  AllHold, AllHold-same, append_at-Holds, reference-done, one_more,
}

-- The number of results of configuration `i` after `r` rounds, and `k` configurations of the next one.
abbrev pub recorded : (before : ℕ → ℕ) → (r k i : ℕ) → ℕ
recorded before r k i = before i + r + (if ltb i k then 1 else 0)

module _ (env : Surroundings) where
  open env use {nx, Float, mean, is_zero, delivers, measures}

  -- A step of thread `tid` that returns, for its parameters and graph, with these lengths of lists.
  abbrev pub Leaves :
      (tid : ℕ) → Params → Option Args → Option nx.Graph → (ℕ → ℕ) → Run (Shared env) → Type 0
  Leaves tid p args graph lengths result =
      (s' : Shared env) × (result ≡ done s')
      × (s'.args tid ≡ args)
      × (s'.graphs tid ≡ graph)
      × AllHold env p s'.results lengths

  record_results-Leaves :
      (tid : ℕ) (a : Args) (l : Four (List Float)) (s : Shared env) (lengths : ℕ → ℕ)
      → s.args tid ≡ some a
      → s.lists tid ≡ some l
      → AllUseful env l
      → a.config_id ≤ max_config_id
      → (a.config_id ≡ 0) ⊎ (0 < lengths 0)
      → AllHold env (a.n, a.f, a.k) s.results lengths
      → Leaves tid
          (a.n, a.f, a.k)
          (some a)
          (s.graphs tid)
          (one_more a.config_id lengths)
          (record_results env tid s)
  unfolding record_results
  record_results-Leaves tid a l s lengths ea el ((nm, zm), (nb, zb), (nl, zl), (nr, zr)) le first
        (hm, hb, hl, hr) =
      let p : Params = (a.n, a.f, a.k) in
      let id = a.config_id in
      let (msg, em, hm') = append_at-Holds env p id (mean l.msg) s.results.msg lengths le zm hm in
      let (bit, eb, hb') = append_at-Holds env p id (mean l.bit) s.results.bit lengths le zb hb in
      let (lat, et, hl') = append_at-Holds env p id (mean l.lat) s.results.lat lengths le zl hl in
      let (proc, ep, hr') =
        append_at-Holds env p id (mean l.proc) s.results.proc lengths le zr hr in
      let s' : Shared env = record s {
        results = record { msg = msg; bit = bit; lat = lat; proc = proc };
      } in
      (
        s',
        elim (Bool-cases (id == 0)) [
          | inl zeroth ↦ rw (ea, el, nm, nb, nl, nr, em, eb, et, ep, zeroth) refl
          | inr later ↦
              let more : 0 < one_more id lengths 0 = ground (arith, first, later) in
              let (_, rm, nm') = reference-done env p msg (one_more id lengths) hm' more in
              let (_, rb, nb') = reference-done env p bit (one_more id lengths) hb' more in
              let (_, rl, nl') = reference-done env p lat (one_more id lengths) hl' more in
              let (_, rr, nr') = reference-done env p proc (one_more id lengths) hr' more in
              rw (ea, el, nm, nb, nl, nr, em, eb, et, ep, later, rm, rb, rl, rr, nm', nb', nl', nr')
                refl
        ],
        ea,
        refl,
        (hm', hb', hl', hr'),
      )

  one_config_chained :
      (fuel tid k : ℕ) (s s2 s3 : Shared env) (a : Args)
      → s.args tid ≡ some a
      → run_one_config env fuel tid
          (record s { args = at_thread tid (record a { config_id = k }) s.args })
        ≡ done s2
      → record_results env tid s2 ≡ done s3
      → one_config env fuel tid k s ≡ done s3
  unfolding one_config
  one_config_chained fuel tid k s s2 s3 a ea run ended = rw (ea, run, ended) refl

  module _ (complete : AreComplete env) (fuel : ℕ) (answer : Answer env fuel) (tid : ℕ)
      (before : ℕ → ℕ) where
    one_config-Leaves :
        (a : Args) (g : nx.Graph) (r k : ℕ) (s : Shared env)
        → s.args tid ≡ some a
        → s.graphs tid ≡ some g
        → k ≤ max_config_id
        → AllHold env (a.n, a.f, a.k) s.results (recorded before r k)
        → Leaves tid
            (a.n, a.f, a.k)
            (some (record a { config_id = k }))
            (some g)
            (recorded before r (suc k))
            (one_config env fuel tid k s)
    one_config-Leaves a g r k s ea eg le held =
        let p : Params = (a.n, a.f, a.k) in
        let a' : Args = record a { config_id = k } in
        let s1 : Shared env = record s { args = at_thread tid a' s.args } in
        let ea1 : s1.args tid ≡ some a' = rw ((==_iff tid tid).1 refl) refl in
        let (s2, run, ea2, eg2, er2, l, el, full) =
          run_one_config-Simulates env complete fuel answer tid a' g s1 ea1 eg in
        let held2 : AllHold env p s2.results (recorded before r k) =
          subst (λ t. AllHold env p t (recorded before r k)) (sym er2) held in
        let (s3, ended, ea3, eg3, held3) =
          record_results-Leaves tid a' l s2 (recorded before r k) (ea2 ∙ ea1) el full le
            (ground arith) held2 in
        (
          s3,
          one_config_chained fuel tid k s s2 s3 a ea run ended,
          ea3,
          eg3 ∙ eg2 ∙ eg,
          AllHold-same env p s3.results (one_more k (recorded before r k))
              (recorded before r (suc k)) (λ i le. ground arith) held3,
        )

    pub all_configs-Leaves :
        (a : Args) (g : nx.Graph) (r rounds k : ℕ) (s : Shared env)
        → s.args tid ≡ some a
        → s.graphs tid ≡ some g
        → rounds + k ≡ suc max_config_id
        → AllHold env (a.n, a.f, a.k) s.results (recorded before r k)
        → (id : ℕ) × Leaves tid
            (a.n, a.f, a.k)
            (some (record a { config_id = id }))
            (some g)
            (recorded before (suc r) 0)
            (all_configs env fuel tid rounds k s)
    unfolding all_configs
    all_configs-Leaves a g r zero k s ea eg total held = (
      a.config_id,
      (
        s,
        refl,
        ea,
        eg,
        AllHold-same env (a.n, a.f, a.k) s.results (recorded before r k) (recorded before (suc r) 0)
            (λ i le. ground (arith, total)) held,
      ),
    )
    all_configs-Leaves a g r (suc rounds) k s ea eg total held =
        let (s1, one, ea1, eg1, held1) =
          one_config-Leaves a g r k s ea eg (omega (arith, total)) held in
        let (id, (s2, others, ea2, eg2, held2)) =
          all_configs-Leaves (record a { config_id = k }) g r rounds (suc k) s1 ea1 eg1
            (omega (arith, total)) held1 in
        (id, (s2, rw one others, ea2, eg2, held2))
