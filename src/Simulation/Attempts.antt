-- ===== src/Simulation/Attempts.antt =====
-- `runOneConfig` ends with the four lists of the first simulation that left its files.
use brb_partially_connected.Base.{
  ℕ, zero, suc, ◌+◌, ◌<◌, ◌≡◌, ◌⊎◌, refl, ◌∙◌, sym, List, [], ◌∷◌, Option, none, some, Option-cases,
  ap, inl, inr, false, ==_iff, All, arith,
}
use mathlib.Core.Path.{subst}
use brb_partially_connected.Simulation.Texts.{lit, Text, cname}
use brb_partially_connected.Simulation.Ned.{ned_file}
use brb_partially_connected.Simulation.Ini.{ini_file}
use brb_partially_connected.Simulation.Run.{
  Run, done, Four, Surroundings, Args, msg_size, numbers, read_numbers, is_empty, Shared,
}
use brb_partially_connected.Simulation.Worker.{at_thread, read_files, run_one_config}

zero-or-suc : (j : ℕ) → (j ≡ 0) ⊎ ((i : ℕ) × (j ≡ suc i))
zero-or-suc zero = inl refl
zero-or-suc (suc i) = inr (i, refl)

abbrev pub IsRead : {A : Type 0} → Option A → Type 0
IsRead none = ⊥
IsRead (some a) = Unit

-- The file is there, and each line is a number.
abbrev pub IsReadable : {A : Type 0} → Option (List (Option A)) → Type 0
IsReadable none = ⊥
IsReadable (some ls) = All IsRead ls

-- It also has a line.
abbrev pub HasValues : {A : Type 0} → Option (List (Option A)) → Type 0
HasValues none = ⊥
HasValues (some []) = ⊥
HasValues (some (x ∷ ls)) = All IsRead (x ∷ ls)

numbers-done :
    {A : Type 0} (ls : List (Option A)) → All IsRead ls → (xs : List A) × (numbers ls ≡ done xs)
numbers-done [] read = ([], refl)
numbers-done (none ∷ ls) read = absurd read.0
numbers-done (some x ∷ ls) read = let (xs, e) = numbers-done ls read.1 in (x ∷ xs, rw e refl)

read_numbers-done :
    {A : Type 0} (file : Option (List (Option A)))
    → IsReadable file
    → (xs : List A) × (read_numbers file ≡ done xs)
read_numbers-done none read = absurd read
read_numbers-done (some ls) read = numbers-done ls read

read_numbers-values :
    {A : Type 0} (file : Option (List (Option A)))
    → HasValues file
    → (xs : List A) × (read_numbers file ≡ done xs) × (is_empty xs ≡ false)
read_numbers-values none read = absurd read
read_numbers-values (some []) read = absurd read
read_numbers-values (some (none ∷ ls)) read = absurd read.0
read_numbers-values (some (some x ∷ ls)) read =
    let (xs, e) = numbers-done ls read.1 in (x ∷ xs, rw e refl, refl)

module _ (env : Surroundings) where
  open env use {nx, Float, mean, is_zero, delivers, measures}

  -- A file of measurements with values in it, whose mean is not 0.
  abbrev pub IsMeasured : Option (List (Option Float)) → Type 0
  IsMeasured file =
      HasValues file × ((xs : List Float) → read_numbers file ≡ done xs → is_zero (mean xs) ≡ false)

  -- A simulation that leaves the file of deliveries leaves all files, with such measurements.
  abbrev pub AreComplete : Type 0
  AreComplete =
      (ned ini name : Text) (t : ℕ) (ns : List (Option ℕ))
      → delivers ned ini name t ≡ some ns
      → IsReadable (some ns)
        × IsMeasured (measures ned ini name t).msg
        × IsMeasured (measures ned ini name t).bit
        × IsMeasured (measures ned ini name t).lat
        × IsMeasured (measures ned ini name t).proc

  -- Among any `bound` simulations in a row, one leaves the file of deliveries.
  abbrev pub Answer : ℕ → Type 0
  Answer bound =
      (ned ini name : Text) (t : ℕ)
      → (j : ℕ) × (j < bound) × (ns : List (Option ℕ)) × (delivers ned ini name (t + j) ≡ some ns)

  -- There are values, and their mean is not 0.
  abbrev pub IsUseful : List Float → Type 0
  IsUseful xs = (is_empty xs ≡ false) × (is_zero (mean xs) ≡ false)

  abbrev pub AllUseful : Four (List Float) → Type 0
  AllUseful l = IsUseful l.msg × IsUseful l.bit × IsUseful l.lat × IsUseful l.proc

  -- What a simulation changes for its thread: the lists, which have values.
  abbrev pub Simulates : (tid : ℕ) → Shared env → Run (Shared env) → Type 0
  Simulates tid s result =
      (s' : Shared env) × (result ≡ done s')
      × (s'.args tid ≡ s.args tid)
      × (s'.graphs tid ≡ s.graphs tid)
      × (s'.results ≡ s.results)
      × (l : Four (List Float)) × (s'.lists tid ≡ some l)
      × AllUseful l

  measured-IsUseful :
      (file : Option (List (Option Float)))
      → IsMeasured file
      → (xs : List Float) × (read_numbers file ≡ done xs) × IsUseful xs
  measured-IsUseful file (values, means) =
      let (xs, e, nonempty) = read_numbers-values file values in (xs, e, (nonempty, means xs e))

  read_files-Simulates :
      (tid : ℕ) (ns : List (Option ℕ)) (files : Four (Option (List (Option Float))))
      (s : Shared env)
      → IsReadable (some ns)
      → IsMeasured files.msg
      → IsMeasured files.bit
      → IsMeasured files.lat
      → IsMeasured files.proc
      → Simulates tid s (read_files env tid (some ns) files s)
  unfolding read_files
  read_files-Simulates tid ns files s read m b l p =
      let (xs, e) = read_numbers-done (some ns) read in
      let (msgs, em, nm) = measured-IsUseful files.msg m in
      let (bits, eb, nb) = measured-IsUseful files.bit b in
      let (lats, el, nl) = measured-IsUseful files.lat l in
      let (procs, ep, np) = measured-IsUseful files.proc p in
      let lists : Four (List Float) = record { msg = msgs; bit = bits; lat = lats; proc = procs } in
      (
        record s { lists = at_thread tid lists s.lists },
        rw (read_numbers, e, em, eb, el, ep) refl,
        refl,
        refl,
        refl,
        lists,
        rw ((==_iff tid tid).1 refl) refl,
        (nm, nb, nl, np),
      )

  module _ (complete : AreComplete) (tid : ℕ) (a : Args) (g : nx.Graph) where
    abbrev ned : Text
    ned = ned_file nx g a.n a.f a.k

    abbrev ini : Text
    ini = ini_file a.n a.f a.k msg_size

    abbrev name : Text
    name = lit "c" ∷ cname a.n a.f a.k a.config_id

    attempts-Simulates :
        (fuel j : ℕ) (s : Shared env) (ns : List (Option ℕ))
        → s.args tid ≡ some a
        → s.graphs tid ≡ some g
        → j < fuel
        → delivers ned ini name (s.clock + j) ≡ some ns
        → Simulates tid s (run_one_config env fuel tid s)
    unfolding run_one_config
    attempts-Simulates zero j s ns ea eg lt answer = absurd (omega arith)
    attempts-Simulates (suc fuel) j s ns ea eg lt answer =
        let s1 : Shared env = record s { clock = suc s.clock } in
        elim (Option-cases (delivers ned ini name s.clock)) [
          | inr (ns', now) ↦
              let (read, m, b, l, p) = complete ned ini name s.clock ns' now in
              let step : run_one_config env (suc fuel) tid s
                  ≡ read_files env tid (some ns') (measures ned ini name s.clock) s1 =
                rw (ea, eg, now) refl in
              subst (Simulates tid s) (sym step)
                (read_files-Simulates tid ns' (measures ned ini name s.clock) s1 read m b l p)
          | inl later ↦ elim (zero-or-suc j) [
            | inl first ↦
                let here : s.clock + j ≡ s.clock = omega (arith, first) in
                absurd (subst IsRead (sym answer ∙ ap (delivers ned ini name) here ∙ later) tt)
            | inr (i, next) ↦
                let there : suc s.clock + i ≡ s.clock + j = omega (arith, next) in
                let step : run_one_config env (suc fuel) tid s ≡ run_one_config env fuel tid s1 =
                  rw (ea, eg, later) refl in
                subst (Simulates tid s) (sym step) (
                  attempts-Simulates fuel i s1 ns ea eg (omega (arith, next))
                    (ap (delivers ned ini name) there ∙ answer))
          ]
        ]

  -- `runOneConfig` returns once the fuel allows the number of simulations that is enough.
  pub run_one_config-Simulates :
      AreComplete
      → (fuel : ℕ) → Answer fuel
      → (tid : ℕ) (a : Args) (g : nx.Graph) (s : Shared env) → s.args tid ≡ some a
      → s.graphs tid ≡ some g
      → Simulates tid s (run_one_config env fuel tid s)
  run_one_config-Simulates complete fuel answer tid a g s ea eg =
      let (j, lt, ns, e) =
        answer (ned_file nx g a.n a.f a.k) (ini_file a.n a.f a.k msg_size)
          (lit "c" ∷ cname a.n a.f a.k a.config_id) s.clock in
      attempts-Simulates complete tid a g fuel j s ns ea eg lt e
