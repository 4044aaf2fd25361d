-- ===== src/GetStats/Latency.antt =====
-- `getLatencies` of code3/getStats.py: what its result says, and how it fails.
use brb_partially_connected.Base.{
  ℕ, ◌+◌, ◌<◌, ◌≡◌, refl, ◌⊎◌, inl, inr, List, [], ◌∷◌, length, take, total, occurrences,
  occurrences-append, lookup, ℤ, pos, negsuc, Option, none, some, Result, ok, raise, ◌>>=◌,
  or_raise, leb, if◌then◌else◌, Bool-cases, Option-cases, Dict, key_error, arith, Result-cases,
}
use brb_partially_connected.GetStats.Defs.{
  Log, Times, quorum, differences, send_time, Collected, collect_broadcast, collect_node, collect,
  broadcast_times, delivery_times, latency_summary, get_latencies,
}
use brb_partially_connected.GetStats.Summary.{Averages, sum-Averages}

-- The time at which a node has sent a broadcast.
abbrev pub sent_at : Times ℕ → (node broadcast : ℕ) → Option ℕ
sent_at sent node b = elim (lookup node sent) [ none ↦ none | some of_node ↦ lookup b of_node ]

abbrev pub is_unsent : Option ℕ → ℕ
is_unsent none = 1
is_unsent (some s) = 0

-- How many of the first deliveries come `x` after the broadcast.
abbrev pub late_by : (n : ℕ) → (sent_time : Option ℕ) → List ℕ → ℕ → ℕ
late_by n none ts x = 0
late_by n (some s) ts x = occurrences (s + x) (take (quorum n) ts)

module _ (n : ℕ) (sent : Times ℕ) where
  -- The latencies of `x` that a broadcast adds: it has been delivered by enough servers.
  abbrev pub share : (x node : ℕ) → ℕ × List ℕ → ℕ
  share x node (b, ts) =
      if leb (quorum n) (length ts) then late_by n (sent_at sent node b) ts x else 0

  -- Whether enough servers have delivered a broadcast that has no time of its own.
  abbrev pub unsent : (node : ℕ) → ℕ × List ℕ → ℕ
  unsent node (b, ts) = if leb (quorum n) (length ts) then is_unsent (sent_at sent node b) else 0

  abbrev pub all_unsent : Times (List ℕ) → ℕ
  all_unsent = total (λ (node, d). total (unsent node) d)

  abbrev pub shares : (x : ℕ) → Times (List ℕ) → ℕ
  shares x = total (λ (node, d). total (share x node) d)

-- The broadcasts that enough servers have delivered.
abbrev pub enough : (n : ℕ) → ℕ × List ℕ → ℕ
enough n (b, ts) = if leb (quorum n) (length ts) then 1 else 0

abbrev pub counted : (n : ℕ) → Times (List ℕ) → ℕ
counted n = total (λ (node, d). total (enough n) d)

occurrences-differences :
    (s : ℕ) (ts : List ℕ) (x : ℕ) → occurrences x (differences s ts) ≡ occurrences (s + x) ts
unfolding differences
occurrences-differences s [] x = refl
occurrences-differences s (t ∷ ts) x = ground (arith, occurrences-differences s ts x)

-- A step of the collection adds so many latencies and broadcasts, or fails by KeyError, which it does
-- where `m` is not 0.
abbrev Gathers : (added : ℕ → ℕ) (k m : ℕ) → Collected → Result Collected → Type 0
Gathers added k m c (ok c') =
    ((x : ℕ) → occurrences x c'.lat_arr ≡ occurrences x c.lat_arr + added x)
    × (c'.count_avg ≡ c.count_avg + k)
    × (m ≡ 0)
Gathers added k m c (raise e) = (e ≡ key_error) × (0 < m)

Gathers-after :
    (f g : ℕ → ℕ) (j k m m' : ℕ) (c c' : Collected) (r : Result Collected)
    → Gathers f j m c (ok c')
    → Gathers g k m' c' r
    → Gathers (λ x. f x + g x) (j + k) (m + m') c r
Gathers-after f g j k m m' c c' (ok c'') (first, n, z) (second, n', z') =
    (λ x. omega (arith, first x, second x), omega (arith, n, n'), omega (arith, z, z'))
Gathers-after f g j k m m' c c' (raise e) first (failure, some_unsent) =
    (failure, omega (arith, some_unsent))

Gathers-bind :
    (f g : ℕ → ℕ) (j k m m' : ℕ) (c : Collected) (r : Result Collected)
    (next : Collected → Result Collected)
    → Gathers f j m c r
    → ((c' : Collected) → Gathers g k m' c' (next c'))
    → Gathers (λ x. f x + g x) (j + k) (m + m') c (r >>= next)
Gathers-bind f g j k m m' c (ok c') next first second =
    Gathers-after f g j k m m' c c' (next c') first (second c')
Gathers-bind f g j k m m' c (raise e) next (failure, some_unsent) second =
    (failure, omega (arith, some_unsent))

module _ (n : ℕ) (sent : Times ℕ) where
  send_time_lem : (node b : ℕ) → send_time sent node b ≡ or_raise key_error (sent_at sent node b)
  unfolding send_time
  send_time_lem node b = elim (Option-cases (lookup node sent)) [
    | inl e ↦ rw (sent_at, e) refl
    | inr (of_node, e) ↦ rw (sent_at, e) refl
  ]

  collect_broadcast-Gathers :
      (node b : ℕ) (ts : List ℕ) (c : Collected)
      → Gathers
          (λ x. share n sent x node (b, ts))
          (enough n (b, ts))
          (unsent n sent node (b, ts))
          c
          (collect_broadcast n sent node b ts c)
  unfolding collect_broadcast
  collect_broadcast-Gathers node b ts c = elim (Bool-cases (leb (quorum n) (length ts))) [
    | inl delivered ↦ elim (Option-cases (sent_at sent node b)) [
      | inl e ↦ rw (delivered, send_time_lem node b, e) (refl, omega arith)
      | inr (s, e) ↦
          rw (delivered, send_time_lem node b, e)
            (
              λ x.
                  let added = occurrences-differences s (take (quorum n) ts) x in
                  let both = occurrences-append x c.lat_arr (differences s (take (quorum n) ts)) in
                  omega (arith, added, both),
              refl,
              refl,
            )
    ]
    | inr few ↦ rw few (λ x. omega arith, omega arith, refl)
  ]

  collect_node-Gathers :
      (node : ℕ) (d : Dict (List ℕ)) (c : Collected)
      → Gathers
          (λ x. total (share n sent x node) d)
          (total (enough n) d)
          (total (unsent n sent node) d)
          c
          (collect_node n sent node d c)
  unfolding collect_node
  collect_node-Gathers node [] c = (λ x. omega arith, omega arith, refl)
  collect_node-Gathers node ((b, ts) ∷ d) c =
      Gathers-bind _ _ _ _ _ _ c (collect_broadcast n sent node b ts c) (collect_node n sent node d)
        (collect_broadcast-Gathers node b ts c) (collect_node-Gathers node d)

  collect-Gathers :
      (delivered : Times (List ℕ)) (c : Collected)
      → Gathers
          (λ x. shares n sent x delivered)
          (counted n delivered)
          (all_unsent n sent delivered)
          c
          (collect n sent delivered c)
  unfolding collect
  collect-Gathers [] c = (λ x. omega arith, omega arith, refl)
  collect-Gathers ((node, d) ∷ delivered) c =
      Gathers-bind _ _ _ _ _ _ c (collect_node n sent node d c) (collect n sent delivered)
        (collect_node-Gathers node d c) (collect-Gathers delivered)

abbrev pub no_latency : List ℤ
no_latency = negsuc 0 ∷ negsuc 0 ∷ negsuc 0 ∷ negsuc 0 ∷ negsuc 0 ∷ []

module _ (n : ℕ) (sent : Times ℕ) (delivered : Times (List ℕ)) where
  -- The list holds each latency as often as the deliveries give it.
  abbrev pub IsLatencies : List ℕ → Type 0
  IsLatencies lat_arr = (x : ℕ) → occurrences x lat_arr ≡ shares n sent x delivered

  -- The five numbers: the average, the least and the greatest of the latencies, 0, and the number of the
  -- broadcasts that enough servers have delivered, or -1 where there is no latency.
  abbrev pub Summarised : Result (List ℤ) → Type 0
  Summarised (ok r) =
      (all_unsent n sent delivered ≡ 0)
      × ((r ≡ no_latency) × IsLatencies []
          ⊎ (lat_arr : List ℕ) × (avg : ℕ) × (lo : ℕ) × (hi : ℕ) × (r
              ≡ pos avg ∷ pos lo ∷ pos hi ∷ pos 0 ∷ pos (counted n delivered) ∷ [])
            × IsLatencies lat_arr
            × Averages lat_arr avg lo hi)
  Summarised (raise e) = (e ≡ key_error) × (0 < all_unsent n sent delivered)

  latency_summary-Summarised :
      (lat_arr : List ℕ) (k : ℕ)
      → IsLatencies lat_arr
      → k ≡ counted n delivered
      → all_unsent n sent delivered ≡ 0
      → Summarised (ok (latency_summary (record { lat_arr = lat_arr; count_avg = k })))
  unfolding latency_summary
  latency_summary-Summarised [] k all e sent_all = (sent_all, inl (refl, all))
  latency_summary-Summarised (x ∷ xs) k all e sent_all =
      (sent_all, inr (x ∷ xs, _, _, _, rw e refl, all, sum-Averages x xs))

-- Where the files of broadcasts can be read, `getLatencies` raises nothing but KeyError, and that exactly
-- where a broadcast with int(0.9 * numServers) deliveries or more has no time of its own. Otherwise let the
-- latencies be the times from a broadcast to each of its first int(0.9 * numServers) deliveries, where it has
-- so many and the delivery is not before the broadcast: without any, the result is five times -1, and else
-- it is their average, rounded down, the least and the greatest of them, 0, and the number of the
-- broadcasts with so many deliveries.
pub get_latencies_lem :
    (broadcasts delivers : Log) (n : ℕ) (sent : Times ℕ)
    → broadcast_times broadcasts n 0 [] ≡ ok sent
    → Summarised n sent (delivery_times delivers n 0 []) (get_latencies broadcasts delivers n)
unfolding get_latencies
get_latencies_lem broadcasts delivers n sent read =
    let start : Collected = record { lat_arr = []; count_avg = 0 } in
    let delivered = delivery_times delivers n 0 [] in
    let gathers = collect-Gathers n sent delivered start in
    elim (Result-cases (collect n sent delivered start)) [
      | inl (c, e) ↦
          let (all, count, sent_all) = rw e at gathers in
          rw (read, e)
            (latency_summary-Summarised n sent delivered c.lat_arr c.count_avg
              (λ x. omega (arith, all x)) (omega (arith, count)) sent_all)
      | inr (x, e) ↦ rw (read, e) (rw e at gathers)
    ]
