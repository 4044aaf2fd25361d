-- ===== src/Simulation/Examples.antt =====
-- Tests of the simulation driver, and instances of what is proved about it.
use mathlib.Core.Path.{subst}
use brb_partially_connected.Base.{
  Among, ℕ, suc, ◌+◌, ◌*◌, ◌%◌, ◌≤◌, ◌<◌, ◌≡◌, ◌↔◌, refl, ap, map, index_error, sym, ◌∙◌, inl, inr,
  true, false, Bool-cases, ◌==◌, if◌then◌else◌, List, [], ◌∷◌, Option, none, some, arith,
}
use brb_partially_connected.Nx.Store.{Stored, stored}
use brb_partially_connected.GenerateGraphs.Defs.{generate_k_regular, accepted, draw_until}
use brb_partially_connected.Simulation.Texts.{lit, num}
use mathlib.Core.Option
use brb_partially_connected.Simulation.Ned.{print_omnet_links}
use brb_partially_connected.Simulation.Links.{read_links, times, print_omnet_links-times}
use brb_partially_connected.Simulation.Ini.{option_keys, ini_lines}
use brb_partially_connected.Simulation.Reading.{
  section_of, value_of, each_is, config, ini_lines-alone,
}
use brb_partially_connected.Simulation.Filling.{fill_queue_iff}
use brb_partially_connected.Simulation.Reference.{missing_reference}
use brb_partially_connected.Simulation.Queue.{Params, start, put_configs, fill_queue}
use brb_partially_connected.Simulation.Run.{
  Run, done, raised, out_of_fuel, Four, Surroundings, Table, Shared,
}
use brb_partially_connected.Simulation.Worker.{
  read_files, run_one_config, record_results, process_config,
}
use brb_partially_connected.Simulation.Attempts.{AreComplete, Answer, IsReadable}
use brb_partially_connected.Simulation.Tables.{AllHold}
use brb_partially_connected.Simulation.Rounds.{Found, process_config-AllHold}

abbrev four_nodes : Stored
four_nodes = record {
  node_list = 0 ∷ 1 ∷ 2 ∷ 3 ∷ [];
  edge_list = (0, 1) ∷ (1, 2) ∷ (2, 3) ∷ (3, 0) ∷ (0, 2) ∷ (1, 3) ∷ [];
}

abbrev head_or_zero : List ℕ → ℕ
head_or_zero [] = 0
head_or_zero (x ∷ xs) = x

-- Each second simulation leaves its files.
abbrev sample : Surroundings
sample = record {
  nx = stored;
  Float = ℕ;
  mean = head_or_zero;
  is_zero = λ x. x == 0;
  draw = λ round k N call. four_nodes;
  count_components = λ g. 1;
  node_connectivity = λ g. 3;
  delivers = λ ned ini name t. if t % 2 == 0 then none else some (some 4 ∷ []);
  measures = λ ned ini name t. record {
    msg = some (some 10 ∷ some 12 ∷ []);
    bit = some (some 20 ∷ []);
    lat = some (some (suc t) ∷ []);
    proc = some (some 7 ∷ []);
  };
}

abbrev no_results : Table ℕ
no_results p config_id = some []

abbrev at_start : Shared sample
at_start = record {
  args = λ tid. none;
  graphs = λ tid. none;
  lists = λ tid. none;
  results = record { msg = no_results; bit = no_results; lat = no_results; proc = no_results };
  clock = 0;
}

none_there : (t : ℕ) → (t % 2 == 0) ≡ true → sample.delivers [] [] [] t ≡ none
none_there t even = rw even refl

four_there : (t : ℕ) → (t % 2 == 0) ≡ false → sample.delivers [] [] [] t ≡ some (some 4 ∷ [])
four_there t odd = rw odd refl

abbrev head_of : Run (List ℕ) → ℕ
head_of (done xs) = head_or_zero xs
head_of _ = 0

positive : (v : ℕ) (vs xs : List ℕ) → done (suc v ∷ vs) ≡ done xs → (head_or_zero xs == 0) ≡ false
positive v vs xs e = let first : suc v ≡ head_or_zero xs = ap head_of e in ground (arith, first)

abbrev IsReadableOrNone : Option (List (Option ℕ)) → Type 0
IsReadableOrNone none = Unit
IsReadableOrNone (some ls) = IsReadable (some ls)

sample-AreComplete : AreComplete sample
sample-AreComplete ned ini name t ns e =
    let read : IsReadable (some ns) = elim (Bool-cases (t % 2 == 0)) [
      | inl even ↦ subst IsReadableOrNone (sym (none_there t even) ∙ e) tt
      | inr odd ↦ subst IsReadableOrNone (sym (four_there t odd) ∙ e) (tt, tt)
    ] in
    (
      read,
      ((tt, (tt, tt)), positive 9 (12 ∷ [])),
      ((tt, tt), positive 19 []),
      ((tt, tt), positive t []),
      ((tt, tt), positive 6 []),
    )

sample-Answer : Answer sample 2
sample-Answer ned ini name t = elim (Bool-cases (t % 2 == 0)) [
  | inl even ↦
      let next : ((t + 1) % 2 == 0) ≡ false = ground (arith, even) in
      (1, omega arith, some 4 ∷ [], rw next refl)
  | inr odd ↦
      let now : ((t + 0) % 2 == 0) ≡ false = ground (arith, odd) in
      (0, omega arith, some 4 ∷ [], rw now refl)
]

sample-Found : Found sample 2 4 1 3
unfolding generate_k_regular accepted draw_until
sample-Found round = (four_nodes, refl)

process_config-AllHold_example :
    (s' : Shared sample) × (process_config sample 2 0 (4, 1, 3) at_start ≡ done s')
    × AllHold sample (4, 1, 3) s'.results (λ i. 0 + 5)
process_config-AllHold_example =
    process_config-AllHold sample sample-AreComplete 2 sample-Answer 0 4 1 3 sample-Found (λ i. 0)
      at_start
      (
        (λ i le. ([], refl, refl, tt)),
        (λ i le. ([], refl, refl, tt)),
        (λ i le. ([], refl, refl, tt)),
        (λ i le. ([], refl, refl, tt)),
      )

-- The first simulation leaves no files, and the second one does.
abbrev with_graph : ℕ → Shared sample
with_graph config_id = record at_start {
  args = λ tid. some (record { n = 4; f = 1; k = 3; config_id = config_id });
  graphs = λ tid. some four_nodes;
}

one_attempt : run_one_config sample 1 0 (with_graph 0) ≡ out_of_fuel
unfolding run_one_config
one_attempt = refl

abbrev lists_of : Run (Shared sample) → Option (List ℕ)
lists_of (done s) = Option.map (λ (l : Four (List ℕ)). l.msg) (s.lists 0)
lists_of _ = none

two_attempts : lists_of (run_one_config sample 2 0 (with_graph 0)) ≡ some (10 ∷ 12 ∷ [])
unfolding run_one_config read_files
two_attempts = refl

abbrev measured : Four (List ℕ)
measured = record { msg = 10 ∷ []; bit = 20 ∷ []; lat = 3 ∷ []; proc = 7 ∷ [] }

missing_reference_example :
    record_results sample 0 (record (with_graph 1) { lists = λ tid. some measured })
    ≡ raised index_error
missing_reference_example =
    missing_reference sample 0 (record { n = 4; f = 1; k = 3; config_id = 1 }) measured
      (record (with_graph 1) { lists = λ tid. some measured }) (λ i. 0) refl refl
      ((refl, refl), (refl, refl), (refl, refl), (refl, refl)) (omega arith) (omega arith)
      (
        (λ i le. ([], refl, refl, tt)),
        (λ i le. ([], refl, refl, tt)),
        (λ i le. ([], refl, refl, tt)),
        (λ i le. ([], refl, refl, tt)),
      )
      refl

small_queue :
    fill_queue (8 ∷ 9 ∷ []) (1 ∷ 4 ∷ [])
    ≡ (8, 1, 3) ∷ (8, 1, 5) ∷ (8, 1, 7) ∷ (9, 1, 4) ∷ (9, 1, 6) ∷ (9, 1, 8) ∷ []
unfolding fill_queue put_configs start
small_queue = refl

fill_queue_iff_example : Among {A = Params} (9, 1, 6) (fill_queue (8 ∷ 9 ∷ []) (1 ∷ 4 ∷ [])) ↔ (
    Among {A = ℕ} 9 (8 ∷ 9 ∷ [])
    × Among {A = ℕ} 1 (1 ∷ 4 ∷ [])
    × (2 * 1 + 1 ≤ 6)
    × (6 < 9)
    × ((9 + 6) % 2 ≡ 1))
fill_queue_iff_example = fill_queue_iff (8 ∷ 9 ∷ []) (1 ∷ 4 ∷ []) 9 1 6

print_omnet_links-times_example : times 1 3 (read_links (print_omnet_links stored four_nodes 4)) ≡ 1
print_omnet_links-times_example = print_omnet_links-times stored four_nodes 4 1 3

ini_lines-alone_example :
    let section = section_of (config 4 1 3 1024 2) (ini_lines 4 1 3 1024) in
    (map (λ key. value_of key section) option_keys
      ≡ map (λ on. some (lit (if on then "true" else "false") ∷ [])) (each_is 12 1 2))
    × (value_of "*.n" section ≡ some (num 4 ∷ []))
    × (value_of "**.cli[*].app[*].nPar" section ≡ some (num 4 ∷ []))
    × (value_of "**.cli[*].app[*].fPar" section ≡ some (num 1 ∷ []))
    × (value_of "**.cli[*].app[*].kPar" section ≡ some (num 3 ∷ []))
    × (value_of "**.cli[*].app[*].msgSizePar" section ≡ some (num 1024 ∷ []))
ini_lines-alone_example = ini_lines-alone 4 1 3 1024 2 (omega arith)
