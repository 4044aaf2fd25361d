-- ===== src/ProcessResults/Examples.antt =====
-- The theorems on code3/process_results.py at a file with two settings, for tables of two places, at one
-- setting with three configurations, and at tables of two entries.
use Prim.Native.String.{String}
use brb_partially_connected.Base.{
  replicate, raise, index_error, ◌++◌, ℕ, zero, suc, ◌≡◌, refl, inl, inr, some, List, [], ◌∷◌, pos,
  Result, ok, arith,
}
use brb_partially_connected.ProcessResults.Ids.{
  find, number, number_table, number_settings, config_ids,
}
use brb_partially_connected.ProcessResults.Unique.{dic, config_ids_complete, config_ids_unique}
use brb_partially_connected.ProcessResults.Proportions.{
  count_field, count_fields, count_entries, success_counts,
}
use brb_partially_connected.ProcessResults.Counted.{Bounded, success_counts-bounds}
use brb_partially_connected.ProcessResults.Defs.{
  Entry, Table, ResultLine, options, num_messages, latency, other, State, initial, process_lines,
}
use brb_partially_connected.ProcessResults.Top.{IsTop}
use brb_partially_connected.ProcessResults.Top.Step.{of_msgs, table_at}
use brb_partially_connected.ProcessResults.Top.Run.{entries, process_lines-IsTop}

abbrev file : List ResultLine
file =
    options "10 1" "a"
    ∷ num_messages (pos 30)
    ∷ latency (pos 5)
    ∷ options "10 1" "b"
    ∷ num_messages (pos 20)
    ∷ options "10 1" "c"
    ∷ num_messages (pos 25)
    ∷ options "20 1" "a"
    ∷ num_messages (pos 40)
    ∷ other
    ∷ []

-- The final state, if there is one.
abbrev state_of : Result State → State
state_of (ok s) = s
state_of _ = initial

abbrev final : State
unfolding process_lines
final = state_of (process_lines 2 file initial)

file_runs : process_lines 2 file initial ≡ ok final
unfolding process_lines final
file_runs = refl

table_runs : table_at of_msgs final "10 1" ≡ ("c", pos 25) ∷ ("b", pos 20) ∷ []
unfolding process_lines final
table_runs = refl

process_lines-IsTop_example :
    (dropped : List Entry) × IsTop 2
      (table_at of_msgs final "10 1")
      (entries of_msgs "10 1" "" "" file)
      dropped
process_lines-IsTop_example =
    process_lines-IsTop 2 of_msgs "10 1" (omega arith) file final (omega arith) file_runs

abbrev copies : ℕ → String → List String
copies zero x = []
copies (suc k) x = x ∷ copies k x

-- A line of 22 fields, all of them `config` but the first.
abbrev split_to : String → List String
split_to config = "4 1 3 16" ∷ copies 21 config

abbrev first_of : List String → String
first_of [] = ""
first_of (x ∷ xs) = x

abbrev one_setting : String → Table
one_setting key = ("a", pos 7) ∷ ("b", pos 5) ∷ []

abbrev other_measure : String → Table
other_measure key = ("c", pos 1) ∷ ("a", pos 2) ∷ []

-- "b" is before "a" in the sorted table.
three_ids :
    config_ids split_to first_of ("4 1 3 16" ∷ []) one_setting other_measure one_setting
    ≡ record { dic_config_to_id = ("b", 0) ∷ ("a", 1) ∷ ("c", 2) ∷ []; cid = 3 }
unfolding config_ids number_settings number_table number
three_ids = refl

config_ids_complete_example :
    (i : ℕ) × (find "c"
        (dic split_to first_of ("4 1 3 16" ∷ []) one_setting other_measure one_setting)
      ≡ some i)
config_ids_complete_example =
    config_ids_complete split_to first_of ("4 1 3 16" ∷ []) one_setting other_measure one_setting
      "4 1 3 16" "c" (inl refl) (inr (inl (("c", pos 1), inl refl, refl)))

a_is_1 :
    find "a" (dic split_to first_of ("4 1 3 16" ∷ []) one_setting other_measure one_setting)
    ≡ some 1
unfolding config_ids number_settings number_table number
a_is_1 = refl

config_ids_unique_example : ◌≡◌ {A = String} "a" "a"
config_ids_unique_example =
    config_ids_unique split_to first_of ("4 1 3 16" ∷ []) one_setting other_measure one_setting "a"
      "a" 1 a_is_1 a_is_1

-- A line of 22 fields, where the fields 1 to 20 are `config`.
abbrev split_but_last : String → List String
split_but_last config = "4 1 3 16" ∷ copies 20 config ++ "False" ∷ []

abbrev both_on : Table
both_on = ("True", pos 5) ∷ ("True", pos 7) ∷ []

-- Both entries count for the first two measures, but only the last one for the third.
both_on_counts :
    success_counts split_but_last 2 both_on both_on both_on
    ≡ ok (replicate 12 2, replicate 12 2, replicate 12 1)
unfolding success_counts count_entries count_fields count_field
both_on_counts = refl

-- The field after the options has no count.
last_on_raises : success_counts split_to 2 both_on both_on both_on ≡ raise index_error
unfolding success_counts count_entries count_fields count_field
last_on_raises = refl

success_counts-bounds_example :
    Bounded split_but_last 2 both_on both_on both_on
      (replicate 12 2, replicate 12 2, replicate 12 1)
success_counts-bounds_example =
    success_counts-bounds split_but_last 2 both_on both_on both_on
      (replicate 12 2, replicate 12 2, replicate 12 1) both_on_counts
