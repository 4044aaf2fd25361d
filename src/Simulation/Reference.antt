-- ===== src/Simulation/Reference.antt =====
-- A configuration other than 0 is compared with the last result of configuration 0.
use brb_partially_connected.Base.{
  ℕ, ◌≤◌, ◌<◌, ◌≡◌, refl, ◌∙◌, List, [], ◌∷◌, none, some, false, ◌==◌, length, index_error, arith,
}
use brb_partially_connected.Simulation.Queue.{Params}
use brb_partially_connected.Simulation.Run.{
  raised, Four, Surroundings, Args, Table, last?, max_config_id, Shared,
}
use brb_partially_connected.Simulation.Worker.{reference, record_results}
use brb_partially_connected.Simulation.Attempts.{AllUseful}
use brb_partially_connected.Simulation.Tables.{Holds, AllHold, append_at-Holds, one_more}

last?-none : {A : Type 0} (xs : List A) → length xs ≡ 0 → last? xs ≡ none
last?-none [] e = refl
last?-none (x ∷ xs) e = absurd (omega (arith, e))

module _ (env : Surroundings) where
  open env use {Float, mean}

  reference-missing :
      (p : Params) (table : Table Float) (lengths : ℕ → ℕ)
      → Holds env p table lengths
      → lengths 0 ≡ 0
      → reference env p table ≡ raised index_error
  reference-missing p table lengths held first =
      let (xs, e, l, all) = held 0 (omega arith) in rw (e, last?-none xs (l ∙ first)) refl

  -- If configuration 0 has no result yet, recording measurements of another configuration whose means
  -- are not 0 raises an IndexError.
  pub missing_reference :
      (tid : ℕ) (a : Args) (l : Four (List Float)) (s : Shared env) (lengths : ℕ → ℕ)
      → s.args tid ≡ some a
      → s.lists tid ≡ some l
      → AllUseful env l
      → 0 < a.config_id
      → a.config_id ≤ max_config_id
      → AllHold env (a.n, a.f, a.k) s.results lengths
      → lengths 0 ≡ 0
      → record_results env tid s ≡ raised index_error
  unfolding record_results
  missing_reference tid a l s lengths ea el ((nm, zm), (nb, zb), (nl, zl), (nr, zr)) lt le
        (hm, hb, hl, hr) first =
      let p : Params = (a.n, a.f, a.k) in
      let id = a.config_id in
      let (msg, em, hm') = append_at-Holds env p id (mean l.msg) s.results.msg lengths le zm hm in
      let (bit, eb, hb') = append_at-Holds env p id (mean l.bit) s.results.bit lengths le zb hb in
      let (lat, et, hl') = append_at-Holds env p id (mean l.lat) s.results.lat lengths le zl hl in
      let (proc, ep, hr') =
        append_at-Holds env p id (mean l.proc) s.results.proc lengths le zr hr in
      let later : (id == 0) ≡ false = ground (arith, lt) in
      let still : one_more id lengths 0 ≡ 0 = rw later first in
      rw
        (
          ea,
          el,
          nm,
          nb,
          nl,
          nr,
          em,
          eb,
          et,
          ep,
          later,
          reference-missing p msg (one_more id lengths) hm' still,
        )
        refl
