-- ===== src/ProcessTable2/Agreement.antt =====
-- code3/process_results_table2.py and process_results_MBD_7_11.py on files in which no configuration
-- has the first option alone.
use Prim.Native.String.{String}
use brb_partially_connected.Base.{
  ◌≡◌, ◌∙◌, refl, inl, inr, List, [], ◌∷◌, Bool, true, false, Bool-cases, Option-cases,
  Result-cases, Result, ok, raise, ◌>>=◌, ℤ, if◌then◌else◌, All, replicate, not, ◌&&◌,
}
use brb_partially_connected.ProcessMbd.Defs.{
  ResultLine, options, num_messages, latency, net_consumption, other, State, same_fields,
  read_options, open_key, open_options, read_base, record_point, append_point, assign, is_failed,
}
use brb_partially_connected.ProcessMbd.Defs.{process_line as mbd_line, process_lines as mbd_lines}
use brb_partially_connected.ProcessTable2.Defs.{
  set_base, read_messages, process_line, process_lines,
}

-- The line does not select the first option alone.
abbrev pub IsUnmarked : ResultLine → Type 0
IsUnmarked (options key line only_options) =
    same_fields only_options ("True" ∷ replicate 11 "False") ≡ false
IsUnmarked _ = Unit

-- A returned state has the mark `b`.
abbrev Marks : Bool → Result State → Type 0
Marks b (ok s) = s.is_mbd1 ≡ b
Marks b (raise e) = Unit

chained-Marks :
    {A B C : Type 0} (b : Bool) (r : Result A) (r' : Result B) (r'' : Result C)
    (f : A → B → C → State)
    → ((x : A) (y : B) (z : C) → (f x y z).is_mbd1 ≡ b)
    → Marks b (r >>= (λ x. r' >>= (λ y. r'' >>= (λ z. ok (f x y z)))))
chained-Marks b (ok x) (ok y) (ok z) f marks = marks x y z
chained-Marks b (ok x) (ok y) (raise e) f marks = tt
chained-Marks b (ok x) (raise e) r'' f marks = tt
chained-Marks b (raise e) r' r'' f marks = tt

branches-Marks :
    (b test : Bool) (r r' : Result State)
    → Marks b r
    → Marks b r'
    → Marks b (if test then r else r')
branches-Marks b true r r' marks marks' = marks
branches-Marks b false r r' marks marks' = marks'

open_key-is_mbd1 : (key : String) (s : State) → (open_key key s).is_mbd1 ≡ s.is_mbd1
unfolding open_key
open_key-is_mbd1 key s = elim (Option-cases (s.top_msgs key)) [
  | inl e ↦ rw (open_key, e) refl
  | inr (row, e) ↦ rw (open_key, e) refl
]

open_options-Marks :
    (b : Bool) (key cur_options : String) (s : State)
    → s.is_mbd1 ≡ b
    → Marks b (open_options key cur_options s)
unfolding open_options
open_options-Marks b key cur s mark = elim (Option-cases (s.top_msgs key)) [
  | inl e ↦ rw (open_options, e) tt
  | inr (row, e) ↦ elim (Option-cases (row cur)) [
    | inl e' ↦
        rw (open_options, e, e')
          (chained-Marks b (assign key cur [] s.top_msgs) (assign key cur [] s.top_lat)
            (assign key cur [] s.top_net)
            (λ msgs lat net. record s { top_msgs = msgs; top_lat = lat; top_net = net })
            (λ msgs lat net. mark))
    | inr (points, e') ↦ rw (open_options, e, e') mark
  ]
]

read_options-Marks :
    (b : Bool) (key line : String) (only_options : List String) (s : State)
    → same_fields only_options ("True" ∷ replicate 11 "False") ≡ b
    → Marks b (read_options key line only_options s)
unfolding read_options
read_options-Marks b key line only_options s mark =
    let s' : State = record s {
      key = key;
      cur_options = line;
      is_base = same_fields only_options (replicate 12 "False");
      is_mbd1 = same_fields only_options ("True" ∷ replicate 11 "False");
    } in
    open_options-Marks b key line (open_key key s') (open_key-is_mbd1 key s' ∙ mark)

record_point-Marks :
    (b : Bool) (msgs : ℤ) (s : State) → s.is_mbd1 ≡ b → Marks b (record_point msgs s)
unfolding record_point
record_point-Marks b msgs s mark =
    branches-Marks b (not (is_failed s.lat) && not s.base_failed) _ _
      (chained-Marks b (append_point s.key s.cur_options (s.base_msgs, msgs) s.top_msgs)
        (append_point s.key s.cur_options (s.base_lat, s.lat) s.top_lat)
        (append_point s.key s.cur_options (s.base_net, s.net) s.top_net)
        (λ msgs lat net. record s { top_msgs = msgs; top_lat = lat; top_net = net })
        (λ msgs lat net. mark))
      mark

read_base-unmarked :
    (msgs : ℤ) (s : State)
    → s.is_mbd1 ≡ false
    → read_base msgs s ≡ (if s.is_base then set_base msgs s else s)
unfolding read_base
read_base-unmarked msgs s mark = elim (Bool-cases s.is_base) [
  | inl e ↦ rw e refl
  | inr e ↦ rw (e, mark) refl
]

recorded_same :
    (msgs : ℤ) (r : Result State)
    → Marks false r
    → (r >>= (λ s. ok (if s.is_mbd1 then set_base msgs s else s))) ≡ r
recorded_same msgs (ok s) mark = rw mark refl
recorded_same msgs (raise e) mark = refl

-- One line, for which the state has no mark.
process_line_agrees :
    (line : ResultLine) (s : State)
    → IsUnmarked line
    → s.is_mbd1 ≡ false
    → (process_line line s ≡ mbd_line line s) × Marks false (mbd_line line s)
unfolding process_line mbd_line read_messages
process_line_agrees (options (raise e) line only_options) s unmarked mark = (refl, tt)
process_line_agrees (options (ok key) line only_options) s unmarked mark =
    (refl, read_options-Marks false key line only_options s unmarked)
process_line_agrees (num_messages (raise e)) s unmarked mark = (refl, tt)
process_line_agrees (num_messages (ok msgs)) s unmarked mark =
    let base : State = if s.is_base then set_base msgs s else s in
    let base_mark : base.is_mbd1 ≡ false = elim (Bool-cases s.is_base) [
      | inl e ↦ rw e mark
      | inr e ↦ rw e mark
    ] in
    let marks = record_point-Marks false msgs base base_mark in
    (
      rw (read_base-unmarked msgs s mark) (recorded_same msgs (record_point msgs base) marks),
      rw (read_base-unmarked msgs s mark) marks,
    )
process_line_agrees (latency (ok lat)) s unmarked mark = (refl, mark)
process_line_agrees (latency (raise e)) s unmarked mark = (refl, tt)
process_line_agrees (net_consumption (ok net)) s unmarked mark = (refl, mark)
process_line_agrees (net_consumption (raise e)) s unmarked mark = (refl, tt)
process_line_agrees other s unmarked mark = (refl, mark)

-- From a state without the mark of the first option alone, on a file in which no line selects that
-- configuration, the loops of both scripts give the same result.
pub process_lines_agree :
    (lines : List ResultLine) (s : State)
    → All IsUnmarked lines
    → s.is_mbd1 ≡ false
    → process_lines lines s ≡ mbd_lines lines s
unfolding process_lines mbd_lines
process_lines_agree [] s unmarked mark = refl
process_lines_agree (line ∷ lines) s (here, rest) mark =
    let (same, marks) = process_line_agrees line s here mark in
    elim (Result-cases (mbd_line line s)) [
      | inl (s', e) ↦ rw (same, e) (process_lines_agree lines s' rest (rw e at marks))
      | inr (ex, e) ↦ rw (same, e) refl
    ]
