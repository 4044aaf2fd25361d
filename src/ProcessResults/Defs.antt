-- ===== src/ProcessResults/Defs.antt =====
-- code3/process_results.py, the loop over the lines of the results file. For each setting (the
-- key: n, f, k and payload size) it keeps the best configurations by each of three measures, and over
-- all settings the two largest values. A float is an integer in the unit of its last digit.
use Prim.Native.String.{String}
use text.Mathlib.Text.{◌==◌ as str_eq}
use brb_partially_connected.Base.{
  ℕ, suc, List, [], ◌∷◌, ◌++◌, Option, none, some, if◌then◌else◌, ltb, length, take, get_elem?, set,
  ℤ, pos, ltbℤ, Result, ok, raise, ◌>>=◌, or_raise, key_error, index_error, name_error,
}

-- A configuration, as its line of the file, and its value.
abbrev pub Entry : Type 0
Entry = String × ℤ

abbrev pub Table : Type 0
Table = List Entry

-- The lines that the loop tells apart.
pub data ResultLine : Type 0 where
  options : (key line : String) → ResultLine
  num_messages : ℤ → ResultLine
  latency : ℤ → ResultLine
  net_consumption : ℤ → ResultLine
  other : ResultLine

-- `for i in range(max_tops)`, over the rest of the table from `i` on: the index of the largest value.
unfoldable pub scan_max : (i : ℕ) → Table → (cur_max : ℤ) → (max_i : ℕ) → ℕ
scan_max i [] cur_max max_i = max_i
scan_max i ((config, v) ∷ table) cur_max max_i =
    scan_max (suc i) table (if ltbℤ cur_max v then v else cur_max)
      (if ltbℤ cur_max v then i else max_i)

-- A new entry takes a free place, or the place of the largest value, if it is below that.
unfoldable pub update_top : (max_tops : ℕ) → Entry → Table → Result Table
unfolding scan_max
update_top max_tops (config, v) table =
    if ltb (length table) max_tops
    then ok (table ++ (config, v) ∷ [])
    else let max_i = scan_max 0 (take max_tops table) (pos 0) 0 in
      elim (get_elem? table max_i) [
        | none ↦ raise index_error
        | some (old, w) ↦ ok (if ltbℤ v w then set table max_i (config, v) else table)
      ]

-- The largest value and the second largest one, which is not bound at the start.
pub record Maxima : Type 0 where
  pub largest : ℤ
  pub second : Option ℤ

-- `if v > max: max_2 = max; max = new` / `elif v > max_2: max_2 = v`. Nothing stands for a variable
-- that is not bound.
unfoldable pub update_maxima : (v : ℤ) (new : Option ℤ) → Maxima → Result Maxima
update_maxima v new m =
    if ltbℤ m.largest v
    then elim new [
      | none ↦ raise name_error
      | some x ↦ ok (record { largest = x; second = some m.largest })
    ]
    else elim m.second [
      | none ↦ raise name_error
      | some w ↦ ok (if ltbℤ w v then record { largest = m.largest; second = some v } else m)
    ]

-- One measure: its tables, nothing where the setting is no key yet, and its maxima.
pub record Measure : Type 0 where
  pub top : String → Option Table
  pub maxima : Maxima

pub record State : Type 0 where
  pub key : String
  pub cur_options : String
  pub msgs : Measure
  pub lat : Measure
  pub net : Measure
  -- The variable `lat`: the last latency read.
  pub last_lat : Option ℤ

unfoldable pub update : (String → Option Table) → String → Table → String → Option Table
update top key table k = if str_eq key k then some table else top k

abbrev pub open_key : String → Measure → Measure
open_key key m = record m { top = update m.top key [] }

-- A line of options: the setting becomes the current one, with empty tables if it is new.
unfoldable pub read_options : (key line : String) → State → State
unfolding update
read_options key line s = elim (s.msgs.top key) [
  | none ↦ record s {
    key = key;
    cur_options = line;
    msgs = open_key key s.msgs;
    lat = open_key key s.lat;
    net = open_key key s.net;
  }
  | some table ↦ record s { key = key; cur_options = line }
]

unfoldable pub enter :
    (max_tops : ℕ)
    → (key cur_options : String) → (v : ℤ) (new : Option ℤ) → Measure
    → Result Measure
unfolding update_top update_maxima update
enter max_tops key cur_options v new m = do
  table ← or_raise key_error (m.top key)
  table' ← update_top max_tops (cur_options, v) table
  maxima ← update_maxima v new m.maxima
  ok (record { top = update m.top key table'; maxima = maxima })

-- The body of the loop. The largest net consumption is set to the last latency.
unfoldable pub process_line : (max_tops : ℕ) → ResultLine → State → Result State
unfolding read_options enter
process_line max_tops (options key line) s = ok (read_options key line s)
process_line max_tops (num_messages v) s = do
  msgs ← enter max_tops s.key s.cur_options v (some v) s.msgs
  ok (record s { msgs = msgs })
process_line max_tops (latency v) s = do
  lat ← enter max_tops s.key s.cur_options v (some v) s.lat
  ok (record s { lat = lat; last_lat = some v })
process_line max_tops (net_consumption v) s = do
  net ← enter max_tops s.key s.cur_options v s.last_lat s.net
  ok (record s { net = net })
process_line max_tops other s = ok s

unfoldable pub process_lines : (max_tops : ℕ) → List ResultLine → State → Result State
unfolding process_line
process_lines max_tops [] s = ok s
process_lines max_tops (line ∷ lines) s =
    process_line max_tops line s >>= process_lines max_tops lines

abbrev pub unread : Measure
unread = record { top = λ key. none; maxima = record { largest = pos 0; second = none } }

-- The variables before the loop.
abbrev pub initial : State
initial = record {
  key = "";
  cur_options = "";
  msgs = unread;
  lat = unread;
  net = unread;
  last_lat = none;
}
