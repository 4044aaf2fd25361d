-- ===== src/GenerateGraphs/Regular.antt =====
-- The loop of `generate_KRegularKConnectedRandomGraph` in code3/generateGraphs.py.
use native.Mathlib.Decide.{ℕ_discrete}
use brb_partially_connected.Base.{
  ℕ, zero, suc, ◌+◌, ◌*◌, ◌≤◌, ◌<◌, ◌≡◌, ◌≢◌, ap, true, false, Bool-cases, inl, inr, some, arith,
}
use brb_partially_connected.GenerateGraphs.Defs.{
  RandomGraphs, accepted, draw_until, generate_k_regular,
}

-- What the loop's test asks of a graph.
abbrev pub IsGood : (random : RandomGraphs) → ℕ → random.Graph → Type 0
IsGood random f G = (random.count_components G ≡ 1) × (2 * f + 1 ≤ random.node_connectivity G)

module _ (random : RandomGraphs) (N k f : ℕ) where
  open random use {draw}

  -- The call `i` is the first one, from `call` on, whose graph is accepted.
  record FirstGood (call m i : ℕ) : Type 0 where
    from : call ≤ i
    upto : i ≤ m
    good : accepted random f (draw k N i) ≡ true
    before : (j : ℕ) → call ≤ j → j < i → accepted random f (draw k N j) ≡ false

  draw_until-FirstGood :
      (fuel call m : ℕ)
      → call ≤ m
      → m < call + fuel
      → accepted random f (draw k N m) ≡ true
      → (i : ℕ) × (draw_until random fuel N k f call ≡ some (draw k N i)) × FirstGood call m i
  unfolding draw_until
  draw_until-FirstGood zero call m le lt good = absurd (omega arith)
  draw_until-FirstGood (suc fuel) call m le lt good =
      elim (Bool-cases (accepted random f (draw k N call))) [
        | inl here ↦ (
          call,
          rw (here, draw_until),
          record {
            from = omega arith;
            upto = le;
            good = here;
            before = λ j from upto. absurd (omega arith);
          },
        )
        | inr bad ↦
            let next : call ≢ m = λ e. cc (ap (λ n. accepted random f (draw k N n)) e) in
            let (i, e, first) =
              draw_until-FirstGood fuel (suc call) m (omega arith) (omega arith) good in
            (
              i,
              rw (bad, draw_until) e,
              record {
                from = omega (arith, first.from);
                upto = first.upto;
                good = first.good;
                before = λ j from upto. elim (ℕ_discrete j call) [
                  | yes e ↦ rw e bad
                  | no ne ↦ first.before j (omega arith) upto
                ];
              },
            )
      ]

  -- If call `m` of `random_regular_graph` gives a connected graph whose node connectivity is at least
  -- 2 f + 1, and the fuel allows for m + 1 calls, then the loop ends, and it returns the first graph
  -- of that kind: that of a call `i` up to `m`, where no earlier call gave one.
  pub generate_k_regular_returns :
      (fuel m : ℕ)
      → m < fuel
      → IsGood random f (draw k N m)
      → (i : ℕ) × (generate_k_regular random fuel N k f ≡ some (draw k N i))
        × (i ≤ m)
        × IsGood random f (draw k N i)
        × ((j : ℕ) → j < i → ¬ IsGood random f (draw k N j))
  unfolding generate_k_regular accepted
  generate_k_regular_returns fuel m lt good =
      let (i, e, first) =
        draw_until-FirstGood fuel 0 m (omega arith) (omega arith) (ground arith) in
      (
        i,
        e,
        first.upto,
        ground (arith, first.good),
        λ j before. ground (arith, first.before j (omega arith) before),
      )
