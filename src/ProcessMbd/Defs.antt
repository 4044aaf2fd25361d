-- ===== src/ProcessMbd/Defs.antt =====
-- code3/process_results_MBD_7_11.py, the loop over the lines of the results file: for each setting
-- (the key) and configuration it collects the measured values, each with the value of the base
-- configuration. The values are integers: so getStats.py writes latencies and consumptions, and a
-- message count, which may be a fraction, is only copied here.
use Prim.Native.String.{String}
use text.Mathlib.Text.{◌==◌ as str_eq}
use brb_partially_connected.Base.{
  zero, List, [], ◌∷◌, ◌++◌, Option, none, some, Bool, true, false, not, ◌&&◌, ◌||◌, if◌then◌else◌,
  replicate, ℤ, pos, negsuc, Result, ok, ◌>>=◌, or_raise, key_error,
}

-- The base value and the value.
abbrev pub Point : Type 0
Point = ℤ × ℤ

-- `top_msgs_options[key]`: the points of each configuration.
abbrev pub Points : Type 0
Points = String → Option (List Point)

abbrev pub Table : Type 0
Table = String → Option Points

-- The lines that the loop tells apart, each with what its columns are read as, or the exception that this
-- raises: an IndexError where a column is missing, a ValueError where `float` finds no number. `key` is made of
-- the columns 0 to 3, and `only_options` is `l[9:21]`, which never raises.
pub data ResultLine : Type 0 where
  options : (key : Result String) (line : String) (only_options : List String) → ResultLine
  num_messages : Result ℤ → ResultLine
  latency : Result ℤ → ResultLine
  net_consumption : Result ℤ → ResultLine
  other : ResultLine

abbrev pub same_fields : List String → List String → Bool
same_fields [] [] = true
same_fields (a ∷ xs) (b ∷ ys) = str_eq a b && same_fields xs ys
same_fields _ _ = false

abbrev pub update : {A : Type 0} → (String → Option A) → String → A → String → Option A
update d key v k = if str_eq key k then some v else d k

pub record State : Type 0 where
  pub key : String
  pub cur_options : String
  pub top_msgs : Table
  pub top_lat : Table
  pub top_net : Table
  pub lat : ℤ
  pub net : ℤ
  pub base_msgs : ℤ
  pub base_lat : ℤ
  pub base_net : ℤ
  pub is_base : Bool
  pub base_failed : Bool
  pub is_mbd1 : Bool

-- `table[key][cur_options] = points`
abbrev pub assign : (key cur_options : String) → List Point → Table → Result Table
assign key cur_options points table = do
  row ← or_raise key_error (table key)
  ok (update table key (update row cur_options points))

-- `table[key][cur_options].append(point)`
abbrev pub append_point : (key cur_options : String) → Point → Table → Result Table
append_point key cur_options point table = do
  row ← or_raise key_error (table key)
  points ← or_raise key_error (row cur_options)
  ok (update table key (update row cur_options (points ++ point ∷ [])))

-- `if not key in top_msgs_options`
unfoldable pub open_key : String → State → State
open_key key s = elim (s.top_msgs key) [
  | none ↦ record s {
    top_msgs = update s.top_msgs key (λ c. none);
    top_lat = update s.top_lat key (λ c. none);
    top_net = update s.top_net key (λ c. none);
  }
  | some row ↦ s
]

-- `if not cur_options in top_msgs_options[key]`
unfoldable pub open_options : (key cur_options : String) → State → Result State
open_options key cur_options s = do
  row ← or_raise key_error (s.top_msgs key)
  elim (row cur_options) [
    | none ↦ assign key cur_options [] s.top_msgs >>= (λ msgs.
        assign key cur_options [] s.top_lat >>= (λ lat.
          assign key cur_options [] s.top_net
          >>= (λ net. ok (record s { top_msgs = msgs; top_lat = lat; top_net = net }))))
    | some points ↦ ok s
  ]

unfoldable pub read_options : (key line : String) → List String → State → Result State
unfolding open_key open_options
read_options key line only_options s =
    let s' = record s {
      key = key;
      cur_options = line;
      is_base = same_fields only_options (replicate 12 "False");
      is_mbd1 = same_fields only_options ("True" ∷ replicate 11 "False");
    } in
    open_options key line (open_key key s')

-- The base values are those of the last line of a base configuration.
unfoldable pub read_base : ℤ → State → State
read_base msgs s =
    if s.is_base || s.is_mbd1
    then record s { base_msgs = msgs; base_lat = s.lat; base_net = s.net }
    else s

-- `lat == -1`
abbrev pub is_failed : ℤ → Bool
is_failed (negsuc zero) = true
is_failed _ = false

unfoldable pub record_point : ℤ → State → Result State
record_point msgs s =
    let recorded = append_point s.key s.cur_options (s.base_msgs, msgs) s.top_msgs >>= (λ top_msgs.
      append_point s.key s.cur_options (s.base_lat, s.lat) s.top_lat >>= (λ top_lat.
        append_point s.key s.cur_options (s.base_net, s.net) s.top_net >>= (λ top_net.
          ok (record s { top_msgs = top_msgs; top_lat = top_lat; top_net = top_net })))) in
    if not (is_failed s.lat) && not s.base_failed then recorded else ok s

-- The body of the loop.
unfoldable pub process_line : ResultLine → State → Result State
unfolding read_options read_base record_point
process_line (options columns line only_options) s = do
  key ← columns
  read_options key line only_options s
process_line (num_messages read) s = do msgs ← read; record_point msgs (read_base msgs s)
process_line (latency read) s = do
  lat ← read
  ok (record s {
    lat = lat;
    base_failed = if s.is_base || s.is_mbd1 then is_failed lat else s.base_failed;
  })
process_line (net_consumption read) s = do net ← read; ok (record s { net = net })
process_line other s = ok s

unfoldable pub process_lines : List ResultLine → State → Result State
unfolding process_line
process_lines [] s = ok s
process_lines (line ∷ lines) s = process_line line s >>= process_lines lines

abbrev pub initial : State
initial = record {
  key = "";
  cur_options = "";
  top_msgs = λ key. none;
  top_lat = λ key. none;
  top_net = λ key. none;
  lat = pos 0;
  net = pos 0;
  base_msgs = pos 0;
  base_lat = pos 0;
  base_net = pos 0;
  is_base = false;
  base_failed = false;
  is_mbd1 = false;
}
