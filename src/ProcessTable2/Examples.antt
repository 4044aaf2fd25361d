-- ===== src/ProcessTable2/Examples.antt =====
-- The loop of code3/process_results_table2.py on small files.
use brb_partially_connected.Base.{
  ◌≡◌, refl, List, [], ◌∷◌, replicate, pos, none, some, Result, ok, raise, key_error,
}
use brb_partially_connected.ProcessMbd.Defs.{
  Point, ResultLine, State, options, num_messages, latency, net_consumption, initial, read_options,
  open_key, open_options, record_point, read_base,
}
use brb_partially_connected.ProcessMbd.Defs.{process_line as mbd_line, process_lines as mbd_lines}
use brb_partially_connected.ProcessMbd.Run.{Ends}
use brb_partially_connected.ProcessTable2.Defs.{read_messages, process_line, process_lines}
use brb_partially_connected.ProcessTable2.Run.{table2_lines-Ends}
use brb_partially_connected.ProcessTable2.Agreement.{process_lines_agree}

-- The base configuration, and then one with the first two options.
abbrev rest : List ResultLine
rest =
    latency (ok (pos 100))
    ∷ num_messages (ok (pos 30))
    ∷ options (ok "10 1 3 16") "b" ("True" ∷ "True" ∷ replicate 10 "False")
    ∷ net_consumption (ok (pos 5))
    ∷ latency (ok (pos 80))
    ∷ num_messages (ok (pos 20))
    ∷ []

abbrev file : List ResultLine
file = options (ok "10 1 3 16") "a" (replicate 12 "False") ∷ rest

-- A file that begins with the first option alone.
abbrev marked_file : List ResultLine
marked_file =
    options (ok "10 1 3 16") "a" ("True" ∷ replicate 11 "False")
    ∷ latency (ok (pos 100))
    ∷ num_messages (ok (pos 30))
    ∷ []

abbrev points_of : Result State → Result (List Point)
points_of (ok s) = elim (s.top_msgs "10 1 3 16") [
  | some row ↦ elim (row "a") [ some points ↦ ok points | _ ↦ raise key_error ]
  | _ ↦ raise key_error
]
points_of (raise e) = raise e

-- With the first option alone, the two scripts differ in the base of that point.
table2_marked : points_of (process_lines marked_file initial) ≡ ok ((pos 0, pos 30) ∷ [])
unfolding process_lines process_line read_options open_key open_options record_point read_messages
table2_marked = refl

mbd_marked : points_of (mbd_lines marked_file initial) ≡ ok ((pos 30, pos 30) ∷ [])
unfolding mbd_lines mbd_line read_options open_key open_options record_point read_base
mbd_marked = refl

table2_lines-Ends_example : Ends none (process_lines file initial)
table2_lines-Ends_example = table2_lines-Ends "10 1 3 16" "a" (replicate 12 "False") rest

process_lines_agree_example : process_lines file initial ≡ mbd_lines file initial
process_lines_agree_example =
    process_lines_agree file initial (refl, (tt, (tt, (refl, (tt, (tt, (tt, tt))))))) refl
