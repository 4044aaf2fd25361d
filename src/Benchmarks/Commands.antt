-- ===== src/Benchmarks/Commands.antt =====
-- The commands of the two benchmarks, in the order in which they are run.
use brb_partially_connected.Base.{
  ℕ, zero, suc, ◌+◌, ◌-◌, ◌*◌, ◌/◌, Bool, true, false, List, [], ◌∷◌, ◌++◌, map, set, replicate,
  ltb, if◌then◌else◌, for_each, for_range,
}

-- What `argsToCmd()` puts into a command, beside the constants.
pub record Command : Type 0 where
  pub num_faulty : ℕ
  pub connectivity : ℕ
  pub experiment_time : ℕ
  -- MOD1 to MOD5, and MBD_1 to MBD_12.
  pub mods : List Bool
  pub mbds : List Bool
  pub do_print_graph : Bool

abbrev pub all_off : List Bool
all_off = replicate 12 false

-- `if x == 1: MBD_1 = 1` to `elif x==12: MBD_12 = 1`.
abbrev pub turn_on : ℕ → List Bool → List Bool
turn_on zero mbds = mbds
turn_on (suc i) mbds = set mbds i true

abbrev pub turn_all_on : List ℕ → List Bool → List Bool
turn_all_on [] mbds = mbds
turn_all_on (x ∷ c) mbds = turn_all_on c (turn_on x mbds)

-- `itertools.combinations(l, length)`, in its order.
abbrev pub combinations : List ℕ → (length : ℕ) → List (List ℕ)
combinations l zero = [] ∷ []
combinations [] (suc length) = []
combinations (x ∷ l) (suc length) =
    map (λ (c : List ℕ). x ∷ c) (combinations l length) ++ combinations l (suc length)

abbrev pub command : (f k time : ℕ) → List Bool → Bool → Command
command f k time mbds print_graph = record {
  num_faulty = f;
  connectivity = k;
  experiment_time = time;
  mods = replicate 5 true;
  mbds = mbds;
  do_print_graph = print_graph;
}

-- The body of the loop over the connectivities in benchEachOption.py, after the commands before it.
unfoldable pub run_choices : (f k : ℕ) → List Command → List Command
run_choices f k cmds =
    for_range 1 13
      (λ length cmds.
        for_each (combinations (1 ∷ 2 ∷ 3 ∷ 4 ∷ 5 ∷ 6 ∷ 7 ∷ 8 ∷ 9 ∷ 10 ∷ 11 ∷ 12 ∷ []) length)
          (λ c cmds. cmds ++ command f k 30 (turn_all_on c all_off) false ∷ []) cmds)
      (cmds ++ command f k 30 all_off true ∷ [])

abbrev pub faulty_numbers : (num_servers : ℕ) → List ℕ
faulty_numbers n = ((n + 2) / 6) ∷ ((n - 1) / 3) ∷ 1 ∷ []

abbrev pub connectivities : (num_servers f : ℕ) → List ℕ
connectivities n f = (2 * f + 1) ∷ ((2 * f + 1 + n) / 2) ∷ (n - 1) ∷ []

-- The loops of benchEachOption.py.
unfoldable pub each_option : (num_servers repeats : ℕ) → List Command
unfolding run_choices
each_option n repeats =
    for_range 0 repeats
      (λ _. for_each (faulty_numbers n) (λ f. for_each (connectivities n f) (λ k. run_choices f k)))
      []

-- The body of the loop over the connectivities in benchEachOptionAlone_7_11.py. MBD_1 stays on.
unfoldable pub run_alone : (f k : ℕ) → List Command → List Command
run_alone f k cmds =
    if ltb k (2 * f + 1)
    then cmds
    else for_each (7 ∷ 8 ∷ 9 ∷ 11 ∷ [])
        (λ x cmds. cmds ++ command f k 60 (turn_on x (turn_on 1 all_off)) false ∷ [])
        (cmds ++ command f k 80 (turn_on 1 all_off) true ∷ [])

-- The loops of benchEachOptionAlone_7_11.py.
unfoldable pub each_option_alone : (repeats : ℕ) → List Command
unfolding run_alone
each_option_alone repeats =
    for_range 0 repeats
      (λ _.
        for_each (1 ∷ 5 ∷ 9 ∷ 13 ∷ [])
          (λ f. for_each (4 ∷ 10 ∷ 16 ∷ 22 ∷ 28 ∷ 34 ∷ 40 ∷ 46 ∷ []) (λ k. run_alone f k)))
      []
