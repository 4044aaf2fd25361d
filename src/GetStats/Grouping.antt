-- ===== src/GetStats/Grouping.antt =====
-- The dictionaries that `getLatencies` (code3/getStats.py) fills group the lines of the logs.
use brb_partially_connected.Base.{
  ℕ, zero, suc, ◌≡◌, refl, sym, ◌∙◌, ◌&&◌, List, [], ◌∷◌, ◌++◌, none, some, ◌==◌, if◌then◌else◌,
  Line, lookup, insert, lookup_or, Result, ok, raise, arith, Option-cases, lookup_or-insert, inl,
  inr,
}
use native.Mathlib.Decide.{ℕ_discrete}
use mathlib.Core.List.{append_assoc, append-nil}
use brb_partially_connected.GetStats.Defs.{
  Log, Times, Event, parse_event, record_delivery, read_delivery, read_deliveries, delivery_times,
}

-- The times that the dictionary holds for a broadcast of a node.
abbrev pub times_at : Times (List ℕ) → ℕ → ℕ → List ℕ
times_at d node broadcast = lookup_or [] broadcast (lookup_or [] node d)

-- The time of a line, if the line is about that broadcast of that node.
abbrev pub time_for : ℕ → ℕ → Result Event → List ℕ
time_for node broadcast (raise e) = []
time_for node broadcast (ok (n, b, t)) = if (n == node) && (b == broadcast) then t ∷ [] else []

-- The times of the lines about that broadcast, in the order of the lines.
abbrev pub times_for : ℕ → ℕ → List Line → List ℕ
times_for node broadcast [] = []
times_for node broadcast (line ∷ lines) =
    time_for node broadcast (parse_event line) ++ times_for node broadcast lines

-- All lines of the files from `i` on.
abbrev pub all_lines : Log → (rounds i : ℕ) → List Line
all_lines log zero i = []
all_lines log (suc rounds) i =
    elim (log i) [ none ↦ [] | some lines ↦ lines ] ++ all_lines log rounds (suc i)

times_at-record_delivery :
    (n b t node broadcast : ℕ) (d : Times (List ℕ))
    → times_at (record_delivery (n, b, t) d) node broadcast
      ≡ times_at d node broadcast ++ time_for node broadcast (ok (n, b, t))
unfolding record_delivery
times_at-record_delivery n b t node broadcast d =
    let of_node = lookup_or [] n d in
    let times = lookup_or [] b of_node ++ t ∷ [] in
    let outer = lookup_or-insert n node (insert b times of_node) [] d in
    let inner = lookup_or-insert b broadcast times [] of_node in
    elim (ℕ_discrete n node) [
      | yes e ↦ elim (ℕ_discrete b broadcast) [
        | yes e' ↦ ground (arith, outer, inner)
        | no ne' ↦ ground (arith, outer, inner, append-nil (times_at d node broadcast))
      ]
      | no ne ↦ ground (arith, outer, append-nil (times_at d node broadcast))
    ]

times_at-read_delivery :
    (node broadcast : ℕ) (line : Line) (d : Times (List ℕ))
    → times_at (read_delivery line d) node broadcast
      ≡ times_at d node broadcast ++ time_for node broadcast (parse_event line)
unfolding read_delivery
times_at-read_delivery node broadcast line d = go (parse_event line) refl
  where
    go :
        (r : Result Event)
        → parse_event line ≡ r
        → times_at (read_delivery line d) node broadcast
          ≡ times_at d node broadcast ++ time_for node broadcast (parse_event line)
    go (ok (n, b, t)) e = rw (e, read_delivery) (times_at-record_delivery n b t node broadcast d)
    go (raise x) e = rw (e, read_delivery) (sym (append-nil _))

times_at-read_deliveries :
    (node broadcast : ℕ) (lines : List Line) (d : Times (List ℕ))
    → times_at (read_deliveries lines d) node broadcast
      ≡ times_at d node broadcast ++ times_for node broadcast lines
unfolding read_deliveries
times_at-read_deliveries node broadcast [] d = sym (append-nil _)
times_at-read_deliveries node broadcast (line ∷ lines) d =
    times_at-read_deliveries node broadcast lines (read_delivery line d)
    ∙ rw (times_at-read_delivery node broadcast line d, append_assoc)

times_for-append :
    (node broadcast : ℕ) (xs ys : List Line)
    → times_for node broadcast (xs ++ ys)
      ≡ times_for node broadcast xs ++ times_for node broadcast ys
times_for-append node broadcast [] ys = refl
times_for-append node broadcast (x ∷ xs) ys =
    rw (times_for-append node broadcast xs ys, append_assoc)

times_at-delivery_times :
    (node broadcast : ℕ) (log : Log) (rounds i : ℕ) (d : Times (List ℕ))
    → times_at (delivery_times log rounds i d) node broadcast
      ≡ times_at d node broadcast ++ times_for node broadcast (all_lines log rounds i)
unfolding delivery_times
times_at-delivery_times node broadcast log zero i d = sym (append-nil _)
times_at-delivery_times node broadcast log (suc rounds) i d = elim (Option-cases (log i)) [
  | inl missing ↦
      rw (missing, delivery_times) (times_at-delivery_times node broadcast log rounds (suc i) d)
  | inr (lines, here) ↦
      rw (here, delivery_times)
        (times_at-delivery_times node broadcast log rounds (suc i) (read_deliveries lines d)
          ∙ rw (
            times_at-read_deliveries node broadcast lines d,
            times_for-append node broadcast lines (all_lines log rounds (suc i)),
            append_assoc,
          ))
]

-- For each node and broadcast, `deliveryTimes` holds exactly the times of the readable lines about
-- that broadcast of that node, in the order of the servers and of the lines in their files.
pub delivery_times_lem :
    (node broadcast : ℕ) (log : Log) (numServers : ℕ)
    → times_at (delivery_times log numServers 0 []) node broadcast
      ≡ times_for node broadcast (all_lines log numServers 0)
unfolding lookup_or lookup
delivery_times_lem node broadcast log numServers =
    times_at-delivery_times node broadcast log numServers 0 []
