-- ===== src/Benchmarks/Alone.antt =====
-- Which commands benchEachOptionAlone_7_11.py runs.
use brb_partially_connected.Base.{
  ℕ, ◌+◌, ◌*◌, ◌≤◌, ◌≡◌, ◌⊎◌, Bool, true, false, List, [], ◌∷◌, Among,
}
use brb_partially_connected.Benchmarks.Commands.{Command}

-- MBD_1 to MBD_12, of which MBD_1 is on, and of MBD_7, MBD_8, MBD_9 and MBD_11 those that are given.
abbrev pub flags : (mbd_7 mbd_8 mbd_9 mbd_11 : Bool) → List Bool
flags mbd_7 mbd_8 mbd_9 mbd_11 =
    true ∷ false ∷ false ∷ false ∷ false ∷ false ∷ mbd_7 ∷ mbd_8 ∷ mbd_9 ∷ false ∷ mbd_11 ∷ false
    ∷ []

-- MBD_1 alone, for 80 seconds, with the graph printed.
abbrev pub base_run : (f k : ℕ) → Command
base_run f k = record {
  num_faulty = f;
  connectivity = k;
  experiment_time = 80;
  mods = true ∷ true ∷ true ∷ true ∷ true ∷ [];
  mbds = flags false false false false;
  do_print_graph = true;
}

-- Further options, for 60 seconds.
abbrev pub option_run : (f k : ℕ) → List Bool → Command
option_run f k mbds = record {
  num_faulty = f;
  connectivity = k;
  experiment_time = 60;
  mods = true ∷ true ∷ true ∷ true ∷ true ∷ [];
  mbds = mbds;
  do_print_graph = false;
}

abbrev pub one_more : List (List Bool)
one_more =
    flags true false false false
    ∷ flags false true false false
    ∷ flags false false true false
    ∷ flags false false false true
    ∷ []

-- The commands of one setting, where its connectivity is at least 2 f + 1.
abbrev pub IsRun : Command → (f k : ℕ) → Type 0
IsRun cmd f k =
    (2 * f + 1 ≤ k)
    × ((base_run f k ≡ cmd)
        ⊎ ((mbds : List Bool) × Among mbds one_more × (option_run f k mbds ≡ cmd)))
