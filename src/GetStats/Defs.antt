-- ===== src/GetStats/Defs.antt =====
-- code3/getStats.py. The log directory is a function from a server's number to the lines of its file,
-- nothing where the file does not exist. Times are microseconds.
use brb_partially_connected.Base.{
  ℕ, zero, suc, ◌+◌, ◌-◌, ◌*◌, ◌/◌, min, max, List, [], ◌∷◌, ◌++◌, Option, none, some, leb,
  if◌then◌else◌, length, take, Line, int_at, Dict, lookup, insert, lookup_or, ℤ, pos, negsuc,
  Result, ok, raise, ◌>>=◌, or_raise, key_error,
}

abbrev pub Log : Type 0
Log = ℕ → Option (List Line)

-- `broadcastTimes` and `deliveryTimes`: first by node, then by broadcast.
abbrev pub Times : Type 0 → Type 0
Times V = Dict (Dict V)

-- The three numbers of a line: node or broadcaster, broadcast, time.
abbrev pub Event : Type 0
Event = ℕ × ℕ × ℕ

unfoldable pub parse_event : Line → Result Event
parse_event line = do
  node ← int_at line 0
  broadcast ← int_at line 1
  time ← int_at line 2
  ok (node, broadcast, time)

unfoldable pub record_broadcast : Event → Times ℕ → Times ℕ
record_broadcast (node, broadcast, time) d =
    insert node (insert broadcast time (lookup_or [] node d)) d

unfoldable pub record_delivery : Event → Times (List ℕ) → Times (List ℕ)
record_delivery (node, broadcast, time) d =
    let of_node = lookup_or [] node d in
    insert node (insert broadcast (lookup_or [] broadcast of_node ++ time ∷ []) of_node) d

-- The lines of one file of broadcasts: no exception is caught.
unfoldable pub read_broadcasts : List Line → Times ℕ → Result (Times ℕ)
unfolding parse_event record_broadcast
read_broadcasts [] d = ok d
read_broadcasts (line ∷ lines) d = do
  event ← parse_event line
  read_broadcasts lines (record_broadcast event d)

-- The first loop of `getLatencies`, over the files from `i` on.
unfoldable pub broadcast_times : Log → (rounds i : ℕ) → Times ℕ → Result (Times ℕ)
unfolding read_broadcasts
broadcast_times log zero i d = ok d
broadcast_times log (suc rounds) i d = elim (log i) [
  | none ↦ broadcast_times log rounds (suc i) d
  | some lines ↦ read_broadcasts lines d >>= broadcast_times log rounds (suc i)
]

-- The body of the loop over the lines of a file of deliveries: a line that raises is skipped.
unfoldable pub read_delivery : Line → Times (List ℕ) → Times (List ℕ)
unfolding parse_event record_delivery
read_delivery line d = elim (parse_event line) [ ok event ↦ record_delivery event d | raise e ↦ d ]

unfoldable pub read_deliveries : List Line → Times (List ℕ) → Times (List ℕ)
unfolding read_delivery
read_deliveries [] d = d
read_deliveries (line ∷ lines) d = read_deliveries lines (read_delivery line d)

-- The second loop of `getLatencies`.
unfoldable pub delivery_times : Log → (rounds i : ℕ) → Times (List ℕ) → Times (List ℕ)
unfolding read_deliveries
delivery_times log zero i d = d
delivery_times log (suc rounds) i d = elim (log i) [
  | none ↦ delivery_times log rounds (suc i) d
  | some lines ↦ delivery_times log rounds (suc i) (read_deliveries lines d)
]

-- `int(0.9 * numServers)`
abbrev pub quorum : ℕ → ℕ
quorum numServers = 9 * numServers / 10

-- The differences that are not negative.
unfoldable pub differences : (sendTime : ℕ) → List ℕ → List ℕ
differences sendTime [] = []
differences sendTime (t ∷ times) =
    let rest = differences sendTime times in if leb sendTime t then (t - sendTime) ∷ rest else rest

-- `lat_arr` and `countAvg`.
pub record Collected : Type 0 where
  pub lat_arr : List ℕ
  pub count_avg : ℕ

-- `broadcastTimes[nodeId][broadcastId]`
unfoldable pub send_time : Times ℕ → (nodeId broadcastId : ℕ) → Result ℕ
send_time sent nodeId broadcastId = do
  of_node ← or_raise key_error (lookup nodeId sent)
  or_raise key_error (lookup broadcastId of_node)

-- What the first times of a broadcast add.
abbrev pub add_latencies : (numServers sendTime : ℕ) → List ℕ → Collected → Collected
add_latencies numServers sendTime times c = record {
  lat_arr = c.lat_arr ++ differences sendTime (take (quorum numServers) times);
  count_avg = c.count_avg + 1;
}

-- The body of the loop over a node's broadcasts.
unfoldable pub collect_broadcast :
    (numServers : ℕ) → Times ℕ → (nodeId broadcastId : ℕ) → List ℕ → Collected → Result Collected
unfolding differences send_time
collect_broadcast numServers sent nodeId broadcastId times c =
    if leb (quorum numServers) (length times)
    then send_time sent nodeId broadcastId
      >>= (λ sendTime. ok (add_latencies numServers sendTime times c))
    else ok c

unfoldable pub collect_node :
    (numServers : ℕ) → Times ℕ → (nodeId : ℕ) → Dict (List ℕ) → Collected → Result Collected
unfolding collect_broadcast
collect_node numServers sent nodeId [] c = ok c
collect_node numServers sent nodeId ((broadcastId, times) ∷ d) c =
    collect_broadcast numServers sent nodeId broadcastId times c
    >>= collect_node numServers sent nodeId d

unfoldable pub collect : (numServers : ℕ) → Times ℕ → Times (List ℕ) → Collected → Result Collected
unfolding collect_node
collect numServers sent [] c = ok c
collect numServers sent ((nodeId, d) ∷ delivered) c =
    collect_node numServers sent nodeId d c >>= collect numServers sent delivered

abbrev pub sum : List ℕ → ℕ
sum [] = 0
sum (x ∷ xs) = x + sum xs

-- `min` and `max` of the list `x ∷ xs`.
abbrev pub min_of : ℕ → List ℕ → ℕ
min_of x [] = x
min_of x (y ∷ xs) = min x (min_of y xs)

abbrev pub max_of : ℕ → List ℕ → ℕ
max_of x [] = x
max_of x (y ∷ xs) = max x (max_of y xs)

-- The list that `getLatencies` returns. The quotient of the floats is cut to an integer.
unfoldable pub latency_summary : Collected → List ℤ
latency_summary c = elim c.lat_arr [
  | [] ↦ negsuc 0 ∷ negsuc 0 ∷ negsuc 0 ∷ negsuc 0 ∷ negsuc 0 ∷ []
  | x ∷ xs ↦
      pos (sum (x ∷ xs) / length (x ∷ xs))
      ∷ pos (min_of x xs)
      ∷ pos (max_of x xs)
      ∷ pos 0
      ∷ pos c.count_avg
      ∷ []
]

unfoldable pub get_latencies : (broadcasts delivers : Log) → (numServers : ℕ) → Result (List ℤ)
unfolding broadcast_times delivery_times collect latency_summary
get_latencies broadcasts delivers numServers = do
  sent ← broadcast_times broadcasts numServers 0 []
  c ←
      collect numServers sent (delivery_times delivers numServers 0 [])
        (record { lat_arr = []; count_avg = 0 })
  ok (latency_summary c)

-- A line of `bytesCounts_i`: a comment, or its parts.
pub data CountLine : Type 0 where
  comment : CountLine
  counts : Line → CountLine

unfoldable pub consumption_of : List CountLine → List ℕ → Result (List ℕ)
consumption_of [] net = ok net
consumption_of (comment ∷ lines) net = consumption_of lines net
consumption_of (counts line ∷ lines) net = do
  total ← int_at line 19
  consumption_of lines (net ++ total ∷ [])

unfoldable pub consumption_from :
    (ℕ → Option (List CountLine)) → (rounds i : ℕ) → List ℕ → Result (List ℕ)
unfolding consumption_of
consumption_from log zero i net = ok net
consumption_from log (suc rounds) i net = elim (log i) [
  | none ↦ consumption_from log rounds (suc i) net
  | some lines ↦ consumption_of lines net >>= consumption_from log rounds (suc i)
]

abbrev pub consumption_summary : List ℕ → List ℤ
consumption_summary [] = negsuc 0 ∷ negsuc 0 ∷ negsuc 0 ∷ negsuc 0 ∷ []
consumption_summary (x ∷ xs) =
    pos (sum (x ∷ xs) / length (x ∷ xs)) ∷ pos (min_of x xs) ∷ pos (max_of x xs) ∷ pos 0 ∷ []

unfoldable pub get_network_consumption :
    (ℕ → Option (List CountLine)) → (numServers : ℕ) → Result (List ℤ)
unfolding consumption_from
get_network_consumption log numServers = do
  net ← consumption_from log numServers 0 []
  ok (consumption_summary net)

-- `getNumEffectiveBroadcasts`, over the files from `i` on.
unfoldable pub effective_broadcasts : Log → (rounds i count : ℕ) → ℕ
effective_broadcasts log zero i count = count
effective_broadcasts log (suc rounds) i count =
    effective_broadcasts log rounds (suc i)
      (elim (log i) [ none ↦ count | some lines ↦ count + length lines ])

-- `getNumDelivers`, over the files from `i` on.
unfoldable pub num_delivers : Log → (rounds i : ℕ) → List ℕ → List ℕ
num_delivers log zero i acc = acc
num_delivers log (suc rounds) i acc =
    num_delivers log rounds (suc i)
      (acc ++ elim (log i) [ none ↦ 0 | some lines ↦ length lines ] ∷ [])
