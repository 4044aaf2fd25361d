-- ===== src/ProcessMbd/Examples.antt =====
-- The loop of code3/process_results_MBD_7_11.py on a small file.
use Prim.Native.String.{String}
use brb_partially_connected.Base.{
  ◌≡◌, ◌↔◌, refl, List, [], ◌∷◌, ◌++◌, index_error, some, replicate, pos, negsuc, Result, ok, raise,
  key_error,
}
use brb_partially_connected.ProcessMbd.Defs.{
  Point, ResultLine, options, num_messages, latency, net_consumption, State, open_key, open_options,
  read_options, read_base, record_point, process_line, process_lines, initial,
}
use brb_partially_connected.ProcessMbd.Run.{Ends, process_lines-Ends}
use brb_partially_connected.ProcessMbd.Compare.{compare, Before, Same, compare-Before}

abbrev no_options : List String
no_options = replicate 12 "False"

-- The base configuration, a configuration, and a failed run of it.
abbrev file : List ResultLine
file =
    latency (ok (pos 100))
    ∷ net_consumption (ok (pos 7))
    ∷ num_messages (ok (pos 30))
    ∷ options (ok "10 1 3 16") "b" ("True" ∷ "True" ∷ replicate 10 "False")
    ∷ latency (ok (pos 80))
    ∷ net_consumption (ok (pos 5))
    ∷ num_messages (ok (pos 20))
    ∷ latency (ok (negsuc 0))
    ∷ num_messages (ok (pos 21))
    ∷ []

abbrev points_of : Result State → Result (List Point)
points_of (ok s) = elim (s.top_lat "10 1 3 16") [
  | some row ↦ elim (row "b") [ some points ↦ ok points | _ ↦ raise key_error ]
  | _ ↦ raise key_error
]
points_of (raise e) = raise e

-- The one point of the configuration has the base latency.
file_runs :
    points_of (process_lines (options (ok "10 1 3 16") "a" no_options ∷ file) initial)
    ≡ ok ((pos 100, pos 80) ∷ [])
unfolding process_lines process_line read_options open_key open_options read_base record_point
file_runs = refl

-- A file whose last latency is missing.
abbrev cut_file : List ResultLine
cut_file = file ++ latency (raise index_error) ∷ num_messages (ok (pos 22)) ∷ []

process_lines-Ends_example :
    Ends
      (some index_error)
      (process_lines (options (ok "10 1 3 16") "a" no_options ∷ cut_file) initial)
process_lines-Ends_example = process_lines-Ends "10 1 3 16" "a" no_options cut_file

compare-Before_example :
    ((compare (10, 1, 3, 16) (10, 1, 4, 16) ≡ negsuc 0) ↔ Before (10, 1, 3, 16) (10, 1, 4, 16))
    × ((compare (10, 1, 3, 16) (10, 1, 4, 16) ≡ pos 0) ↔ Same (10, 1, 3, 16) (10, 1, 4, 16))
    × ((compare (10, 1, 3, 16) (10, 1, 4, 16) ≡ pos 1) ↔ Before (10, 1, 4, 16) (10, 1, 3, 16))
compare-Before_example = compare-Before (10, 1, 3, 16) (10, 1, 4, 16)
