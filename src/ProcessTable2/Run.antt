-- ===== src/ProcessTable2/Run.antt =====
-- code3/process_results_table2.py: the loop over a file that begins with a configuration raises
-- nothing but for a line that cannot be read, and keeps the tables aligned.
use Prim.Native.String.{String}
use brb_partially_connected.Base.{
  refl, inl, inr, List, ◌∷◌, Bool-cases, ℤ, if◌then◌else◌, ok, raise,
}
use brb_partially_connected.ProcessMbd.Defs.{
  ResultLine, options, num_messages, latency, net_consumption, other, State, initial,
}
use brb_partially_connected.ProcessMbd.Ready.{
  Ready, Readies, read_options-Readies, record_point-Readies,
}
use brb_partially_connected.ProcessMbd.Run.{failure_of, first_failure, Ends, loop-Ends}
use brb_partially_connected.ProcessTable2.Defs.{
  set_base, read_messages, process_line, process_lines,
}

read_messages-Readies : (msgs : ℤ) (s : State) → Ready s → Readies (read_messages msgs s)
unfolding read_messages
read_messages-Readies msgs s ready =
    let base : State = if s.is_base then set_base msgs s else s in
    let base_ready : Ready base = elim (Bool-cases s.is_base) [
      | inl e ↦ rw e ready
      | inr e ↦ rw e ready
    ] in
    let (s1, e1, ready1) = record_point-Readies msgs base base_ready in
    elim (Bool-cases s1.is_mbd1) [
      | inl e ↦ (set_base msgs s1, rw (e1, e) refl, ready1)
      | inr e ↦ (s1, rw (e1, e) refl, ready1)
    ]

process_line-Ends :
    (line : ResultLine) (s : State) → Ready s → Ends (failure_of line) (process_line line s)
unfolding process_line
process_line-Ends (options (ok key) line only_options) s ready =
    read_options-Readies key line only_options s ready.0
process_line-Ends (options (raise e) line only_options) s ready = refl
process_line-Ends (num_messages (ok msgs)) s ready = read_messages-Readies msgs s ready
process_line-Ends (num_messages (raise e)) s ready = refl
process_line-Ends (latency (ok lat)) s ready = (_, refl, ready)
process_line-Ends (latency (raise e)) s ready = refl
process_line-Ends (net_consumption (ok net)) s ready = (_, refl, ready)
process_line-Ends (net_consumption (raise e)) s ready = refl
process_line-Ends other s ready = (s, refl, ready)

-- If the first line of the file is a configuration with all its columns, the loop raises the exception of the
-- first later line whose columns cannot be read. If there is none, it raises nothing, and at its end the
-- three tables have the same settings and configurations, as many points for each, and no point with a
-- failed latency.
pub table2_lines-Ends :
    (key line : String) (only_options : List String) (lines : List ResultLine)
    → Ends
        (first_failure lines)
        (process_lines (options (ok key) line only_options ∷ lines) initial)
unfolding process_lines process_line
table2_lines-Ends key line only_options lines =
    let (s1, e1, ready1) = read_options-Readies key line only_options initial (λ k. tt) in
    rw e1 (
      loop-Ends process_line process_lines (λ s. refl) (λ line lines s. refl) process_line-Ends
        lines s1 ready1)
