-- ===== src/GetStats/Examples.antt =====
-- The theorems on code3/getStats.py at small logs.
use brb_partially_connected.Base.{
  ℕ, zero, suc, ◌≡◌, refl, ◌⊎◌, List, [], ◌∷◌, Option, none, some, ok, Line, insert, lookup_or, ℤ,
  pos, negsuc, length,
}
use brb_partially_connected.GetStats.Defs.{
  Log, Times, CountLine, comment, counts, sum, delivery_times, broadcast_times, get_latencies,
  consumption_from, get_network_consumption, effective_broadcasts, num_delivers,
}
use brb_partially_connected.GetStats.Grouping.{times_at, times_for, all_lines, delivery_times_lem}
use brb_partially_connected.GetStats.Summary.{Averages, get_network_consumption_lem}
use brb_partially_connected.GetStats.Latency.{Summarised, get_latencies_lem}
use brb_partially_connected.GetStats.Counts.{num_delivers_lem}

abbrev event_line : ℕ → ℕ → ℕ → Line
event_line node broadcast time = some node ∷ some broadcast ∷ some time ∷ []

-- Server 0 broadcasts at time 100, and both servers deliver; server 1 also logs a broken line.
abbrev broadcasts : Log
broadcasts zero = some (event_line 0 7 100 ∷ [])
broadcasts (suc i) = none

abbrev delivers : Log
delivers zero = some (event_line 0 7 110 ∷ [])
delivers (suc zero) = some ((some 0 ∷ none ∷ []) ∷ event_line 0 7 130 ∷ [])
delivers (suc (suc i)) = none

abbrev sent : Times ℕ
sent = (0, (7, 100) ∷ []) ∷ []

broadcast_times_runs : broadcast_times broadcasts 2 0 [] ≡ ok sent
unfolding broadcast_times insert lookup_or
broadcast_times_runs = refl

-- int(0.9 * 2) is 1: one latency is taken.
get_latencies_runs :
    get_latencies broadcasts delivers 2 ≡ ok (pos 10 ∷ pos 10 ∷ pos 10 ∷ pos 0 ∷ pos 1 ∷ [])
unfolding get_latencies insert lookup_or
get_latencies_runs = refl

delivery_times_lem_example :
    times_at (delivery_times delivers 2 0 []) 0 7 ≡ times_for 0 7 (all_lines delivers 2 0)
delivery_times_lem_example = delivery_times_lem 0 7 delivers 2

get_latencies_lem_example :
    Summarised 2 sent (delivery_times delivers 2 0 []) (get_latencies broadcasts delivers 2)
get_latencies_lem_example = get_latencies_lem broadcasts delivers 2 sent broadcast_times_runs

num_delivers_lem_example :
    (length (num_delivers delivers 2 0 []) ≡ 2)
    × (sum (num_delivers delivers 2 0 []) ≡ effective_broadcasts delivers 2 0 0)
num_delivers_lem_example = num_delivers_lem delivers 2

-- Twenty columns, of which the last is the total.
abbrev totals : ℕ → CountLine
totals n =
    let z = some 0 in
    counts (z ∷ z ∷ z ∷ z ∷ z ∷ z ∷ z ∷ z ∷ z ∷ z ∷ z ∷ z ∷ z ∷ z ∷ z ∷ z ∷ z ∷ z ∷ z ∷ some n ∷ [])

abbrev bytes : ℕ → Option (List CountLine)
bytes i = some (comment ∷ totals 5 ∷ totals 8 ∷ [])

abbrev consumption : List ℤ
consumption = pos 6 ∷ pos 5 ∷ pos 8 ∷ pos 0 ∷ []

consumption_runs : get_network_consumption bytes 1 ≡ ok consumption
unfolding get_network_consumption
consumption_runs = refl

get_network_consumption_lem_example :
    (net : List ℕ) × (consumption_from bytes 1 0 [] ≡ ok net)
    × ((net ≡ []) × (consumption ≡ negsuc 0 ∷ negsuc 0 ∷ negsuc 0 ∷ negsuc 0 ∷ [])
        ⊎ (avg : ℕ) × (lo : ℕ) × (hi : ℕ) × (consumption ≡ pos avg ∷ pos lo ∷ pos hi ∷ pos 0 ∷ [])
          × Averages net avg lo hi)
get_network_consumption_lem_example =
    get_network_consumption_lem bytes 1 consumption consumption_runs
