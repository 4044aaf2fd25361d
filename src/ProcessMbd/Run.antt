-- ===== src/ProcessMbd/Run.antt =====
-- code3/process_results_MBD_7_11.py: the loop over a file that begins with a configuration raises
-- nothing but for a line that cannot be read, and keeps the tables aligned.
use Prim.Native.String.{String}
use brb_partially_connected.Base.{
  ◌≡◌, inl, inr, refl, ◌∙◌, List, [], ◌∷◌, Option, none, some, Option-cases, Exception, Result, ok,
  raise, ◌>>=◌,
}
use brb_partially_connected.ProcessMbd.Defs.{
  ResultLine, options, num_messages, latency, net_consumption, other, State, read_base,
  process_line, process_lines, initial,
}
use brb_partially_connected.ProcessMbd.Ready.{
  Ready, Readies, read_options-Readies, record_point-Readies, read_base-Ready,
}

-- The exception that reading the columns of a line raises.
abbrev pub failure_of : ResultLine → Option Exception
failure_of (options (raise e) line only_options) = some e
failure_of (num_messages (raise e)) = some e
failure_of (latency (raise e)) = some e
failure_of (net_consumption (raise e)) = some e
failure_of _ = none

abbrev pub first_failure : List ResultLine → Option Exception
first_failure [] = none
first_failure (line ∷ lines) = elim (failure_of line) [
  | some e ↦ some e
  | none ↦ first_failure lines
]

-- A call raises the exception that is given, and returns a ready state if none is.
abbrev pub Ends : Option Exception → Result State → Type 0
Ends none result = Readies result
Ends (some e) result = result ≡ raise e

process_line-Ends :
    (line : ResultLine) (s : State) → Ready s → Ends (failure_of line) (process_line line s)
unfolding process_line
process_line-Ends (options (ok key) line only_options) s ready =
    read_options-Readies key line only_options s ready.0
process_line-Ends (options (raise e) line only_options) s ready = refl
process_line-Ends (num_messages (ok msgs)) s ready =
    record_point-Readies msgs (read_base msgs s) (read_base-Ready msgs s ready)
process_line-Ends (num_messages (raise e)) s ready = refl
process_line-Ends (latency (ok lat)) s ready = (_, refl, ready)
process_line-Ends (latency (raise e)) s ready = refl
process_line-Ends (net_consumption (ok net)) s ready = (_, refl, ready)
process_line-Ends (net_consumption (raise e)) s ready = refl
process_line-Ends other s ready = (s, refl, ready)

-- A loop whose body ends as its line tells ends as the first failure tells.
pub loop-Ends :
    (body : ResultLine → State → Result State) (loop : List ResultLine → State → Result State)
    → ((s : State) → loop [] s ≡ ok s)
    → ((line : ResultLine) (lines : List ResultLine) (s : State)
        → loop (line ∷ lines) s ≡ (body line s >>= loop lines))
    → ((line : ResultLine) (s : State) → Ready s → Ends (failure_of line) (body line s))
    → (lines : List ResultLine) (s : State) → Ready s
    → Ends (first_failure lines) (loop lines s)
loop-Ends body loop stop next each [] s ready = (s, stop s, ready)
loop-Ends body loop stop next each (line ∷ lines) s ready =
    let ends = each line s ready in
    elim (Option-cases (failure_of line)) [
      | inl e ↦
          let (s1, e1, ready1) = rw e at ends in
          rw (first_failure, e, next line lines s, e1)
            (loop-Ends body loop stop next each lines s1 ready1)
      | inr (x, e) ↦ rw (first_failure, e) (next line lines s ∙ rw (rw e at ends) refl)
    ]

-- If the first line of the file is a configuration with all its columns, the loop raises the exception of the
-- first later line whose columns cannot be read. If there is none, it raises nothing, and at its end the
-- three tables have the same settings and configurations, as many points for each, and no point with a
-- failed latency.
pub process_lines-Ends :
    (key line : String) (only_options : List String) (lines : List ResultLine)
    → Ends
        (first_failure lines)
        (process_lines (options (ok key) line only_options ∷ lines) initial)
unfolding process_lines process_line
process_lines-Ends key line only_options lines =
    let (s1, e1, ready1) = read_options-Readies key line only_options initial (λ k. tt) in
    rw e1 (
      loop-Ends process_line process_lines (λ s. refl) (λ line lines s. refl) process_line-Ends
        lines s1 ready1)
