-- ===== src/ProcessTable2/Defs.antt =====
-- code3/process_results_table2.py, the loop over the lines of the results file. It is the loop of
-- process_results_MBD_7_11.py but for the place where a line of the configuration with the first
-- option alone becomes the base: after its own point is recorded. The state and what the two share are
-- those of `ProcessMbd.Defs`.
use brb_partially_connected.Base.{ℤ, List, [], ◌∷◌, ◌||◌, if◌then◌else◌, Result, ok, ◌>>=◌}
use brb_partially_connected.ProcessMbd.Defs.{
  ResultLine, options, num_messages, latency, net_consumption, other, State, read_options,
  record_point, is_failed,
}

-- The current values become the base.
abbrev pub set_base : ℤ → State → State
set_base msgs s = record s { base_msgs = msgs; base_lat = s.lat; base_net = s.net }

unfoldable pub read_messages : ℤ → State → Result State
read_messages msgs s = do
  s' ← record_point msgs (if s.is_base then set_base msgs s else s)
  ok (if s'.is_mbd1 then set_base msgs s' else s')

-- The body of the loop.
unfoldable pub process_line : ResultLine → State → Result State
unfolding read_messages
process_line (options columns line only_options) s = do
  key ← columns
  read_options key line only_options s
process_line (num_messages read) s = do msgs ← read; read_messages msgs s
process_line (latency read) s = do
  lat ← read
  ok (record s {
    lat = lat;
    base_failed = if s.is_base || s.is_mbd1 then is_failed lat else s.base_failed;
  })
process_line (net_consumption read) s = do net ← read; ok (record s { net = net })
process_line other s = ok s

unfoldable pub process_lines : List ResultLine → State → Result State
unfolding process_line
process_lines [] s = ok s
process_lines (line ∷ lines) s = process_line line s >>= process_lines lines
