-- ===== src/ProcessResults/Proportions.antt =====
-- code3/process_results.py, how often each option is on in the tables of a setting.
use Prim.Native.String.{String}
use text.Mathlib.Text.{◌==◌ as str_eq}
use brb_partially_connected.Base.{
  ℕ, zero, suc, ◌-◌, List, if◌then◌else◌, get_elem?, set, replicate, Result, ok, raise, ◌>>=◌,
  or_raise, index_error, name_error,
}
use brb_partially_connected.ProcessResults.Defs.{Table}

-- `if config[i] == 'True': proportion[i-9] += 1`.
unfoldable pub count_field : (config : List String) (i : ℕ) → List ℕ → Result (List ℕ)
count_field config i counts = or_raise index_error (get_elem? config i) >>= λ field.
    if str_eq field "True"
    then (or_raise index_error (get_elem? counts (i - 9)) >>= λ c. ok (set counts (i - 9) (suc c)))
    else ok counts

-- The loop over `number` fields, from `i` on.
unfoldable pub count_fields : (number i : ℕ) (config : List String) → List ℕ → Result (List ℕ)
unfolding count_field
count_fields zero i config counts = ok counts
count_fields (suc number) i config counts =
    count_field config i counts >>= λ counts. count_fields number (suc i) config counts

-- `split` stands for `rstrip('\n').split('\t')`.
module _ (split : String → List String) where
  -- The loop over `n` entries of a table, from `j` on.
  unfoldable pub count_entries : (number n j : ℕ) → Table → List ℕ → Result (List ℕ)
  unfolding count_fields
  count_entries number zero j table counts = ok counts
  count_entries number (suc n) j table counts = or_raise index_error (get_elem? table j) >>= λ e.
      count_fields number 9 (split e.0) counts >>= λ counts.
      count_entries number n (suc j) table counts

  -- The last entry of the third table is the only one that is counted, since no loop is around it;
  -- its index is that of the loops before, which is not bound where they have no round.
  unfoldable pub success_counts :
      (max_tops : ℕ) (msgs lat net : Table) → Result (List ℕ × List ℕ × List ℕ)
  unfolding count_entries
  success_counts zero msgs lat net = raise name_error
  success_counts (suc j) msgs lat net =
      count_entries 12 (suc j) 0 msgs (replicate 12 0) >>= λ of_msgs.
      count_entries 13 (suc j) 0 lat (replicate 12 0) >>= λ of_lat.
      or_raise index_error (get_elem? net j) >>= λ e.
      count_fields 13 9 (split e.0) (replicate 12 0) >>= λ of_net. ok (of_msgs, of_lat, of_net)
