-- ===== src/Simulation/Scalability.antt =====
-- randomgraph_scalability.py, where it differs from randomgraph_benchAllOptions.py: two further
-- configurations, and the choice of the parameters.
pub mod Sections
pub mod Valid
mod Examples
use brb_partially_connected.Base.{
  ℕ, ◌+◌, ◌-◌, ◌*◌, ◌/◌, ◌%◌, Bool, true, false, List, [], ◌∷◌, ◌++◌, ◌==◌, if◌then◌else◌, for_each,
}
use brb_partially_connected.Simulation.Ini.{IniLine, config_section, ini_lines}
use brb_partially_connected.Simulation.Queue.{Params, is_skipped}

module _ (N F K msg_size : ℕ) where
  unfoldable pub section_13 : List IniLine
  section_13 =
      config_section N F K msg_size 13
        (true ∷ true ∷ true ∷ true ∷ true ∷ true ∷ true ∷ true ∷ true ∷ true ∷ true ∷ true ∷ [])

  unfoldable pub section_14 : List IniLine
  section_14 =
      config_section N F K msg_size 14
        (true ∷ true ∷ true ∷ true ∷ true ∷ true ∷ true ∷ true ∷ true ∷ true ∷ false ∷ true ∷ [])

  -- The first 13 configurations are those of randomgraph_benchAllOptions.py.
  unfoldable pub scalability_lines : List IniLine
  unfolding section_13 section_14
  scalability_lines = ini_lines N F K msg_size ++ (section_13 ++ section_14)

-- The configurations that the worker simulates.
abbrev pub simulated : List ℕ
simulated = 0 ∷ 13 ∷ 14 ∷ []

-- `[fmin, fmid, fmax]`
unfoldable pub faulty_choices : (n : ℕ) → List ℕ
faulty_choices n = 1 ∷ ((n + 2) / 6) ∷ ((n - 1) / 3) ∷ []

-- `[kmin, kmid, kmax]`
unfoldable pub connectivity_choices : (n f : ℕ) → List ℕ
connectivity_choices n f =
    let kmin : ℕ = 2 * f + 1 in
    let kmax : ℕ = n - 1 in
    let kmid : ℕ = (2 * f + 1 + (n - 1)) / 2 in
    (if kmin * n % 2 == 1 then kmin + 1 else kmin)
    ∷ (if kmid * n % 2 == 1 then kmid - 1 else kmid)
    ∷ (if kmax * n % 2 == 1 then kmax - 1 else kmax)
    ∷ []

-- The loops of `runParams` before the workers start.
unfoldable pub fill_scalability : (narray : List ℕ) → List Params
unfolding faulty_choices connectivity_choices
fill_scalability narray =
    for_each narray
      (λ n. for_each (faulty_choices n) (λ f.
        for_each (connectivity_choices n f)
          (λ k q. if is_skipped n f k then q else q ++ (n, f, k) ∷ [])))
      []
