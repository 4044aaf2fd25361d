-- ===== src/ProcessResults/Top/Run.antt =====
-- The loop of code3/process_results.py, over whole files: the tables of each setting.
use mathlib.Core.List.Perm
use mathlib.Core.List.{Perm, perm_append_comm, append_assoc, append-nil}
use Prim.Native.String.{String}
use text.Mathlib.Text.{◌==◌ as str_eq}
use brb_partially_connected.Base.{
  ℕ, ◌<◌, ◌≡◌, refl, inl, inr, Bool, true, false, List, [], ◌∷◌, ◌++◌, Option, some, none,
  if◌then◌else◌, ℤ, pos, ◌≤ℤ◌, ok, arith, Result-cases,
}
use brb_partially_connected.ProcessResults.Defs.{
  Entry, ResultLine, State, process_line, process_lines, initial,
}
use brb_partially_connected.ProcessResults.Top.{NonNegative, IsTop}
use brb_partially_connected.ProcessResults.Top.Update.{update_top-Updated}
use brb_partially_connected.ProcessResults.Top.Step.{
  Kind, of_msgs, of_lat, of_net, value, table_at, Synced, Enters, StepFor, key_after, options_after,
  process_line-Stepped,
}

-- The entry that a line adds: none if it does not report the measure, or the setting is another one.
abbrev pub entry_of : Option ℤ → Bool → String → List Entry
entry_of none here line = []
entry_of (some v) here line = if here then (line, v) ∷ [] else []

abbrev pub Sign : Option ℤ → Type 0
Sign none = Unit
Sign (some v) = pos 0 ≤ℤ v

-- The entries that the lines report for a measure and a setting, where `cur` and `line` are the
-- current setting and options at the start.
abbrev pub entries : Kind → String → (cur line : String) → List ResultLine → List Entry
entries kind key cur line [] = []
entries kind key cur line (l ∷ lines) =
    entry_of (value kind l) (str_eq cur key) line
    ++ entries kind key (key_after l cur) (options_after l line) lines

-- No value of the measure is negative.
abbrev pub Reports : Kind → List ResultLine → Type 0
Reports kind [] = Unit
Reports kind (l ∷ lines) = Sign (value kind l) × Reports kind lines

-- The table of the measure and the setting holds the entries `seen` with the least values.
pub record Kept (max_tops : ℕ) (table seen : List Entry) : Type 0 where
  pub dropped : List Entry
  pub is_top : IsTop max_tops table seen dropped
  pub nonneg : NonNegative table

Enters-Kept :
    (max_tops : ℕ) (b : Bool) (x : Entry) (table table' seen : List Entry)
    → 0 < max_tops
    → pos 0 ≤ℤ x.1
    → Enters b max_tops x table table'
    → Kept max_tops table seen
    → Kept max_tops table' (entry_of (some x.1) b x.0 ++ seen)
Enters-Kept max_tops false x table table' seen some_place sign e kept = rw e kept
Enters-Kept max_tops true x table table' seen some_place sign e kept =
    let done =
      update_top-Updated max_tops x.0 x.1 table seen kept.dropped some_place sign kept.nonneg
        kept.is_top in
    let same : done.table' ≡ table' = cc (done.gives) in
    rw (← same) (record { dropped = done.dropped; is_top = done.is_top; nonneg = done.nonneg })

StepFor-Kept :
    (max_tops : ℕ) (kind : Kind) (key : String) (v : Option ℤ) (s s' : State) (seen : List Entry)
    → 0 < max_tops
    → Sign v
    → StepFor max_tops kind key v s s'
    → Kept max_tops (table_at kind s key) seen
    → Kept max_tops (table_at kind s' key) (entry_of v (str_eq s.key key) s.cur_options ++ seen)
StepFor-Kept max_tops kind key none s s' seen some_place sign e kept = rw e kept
StepFor-Kept max_tops kind key (some v) s s' seen some_place sign e kept =
    Enters-Kept max_tops (str_eq s.key key) (s.cur_options, v) _ _ seen some_place sign e kept

Kept-perm :
    (max_tops : ℕ) (table seen seen' : List Entry)
    → Perm seen seen'
    → Kept max_tops table seen
    → Kept max_tops table seen'
Kept-perm max_tops table seen seen' p kept = record {
  dropped = kept.dropped;
  is_top = record {
    perm = Perm.trans kept.is_top.perm p;
    bounded = kept.is_top.bounded;
    full = kept.is_top.full;
    least = kept.is_top.least;
  };
  nonneg = kept.nonneg;
}

table_at-initial : (kind : Kind) (key : String) → table_at kind initial key ≡ []
table_at-initial of_msgs key = refl
table_at-initial of_lat key = refl
table_at-initial of_net key = refl

empty-Kept : (max_tops : ℕ) → Kept max_tops [] []
empty-Kept max_tops = record {
  dropped = [];
  is_top = record { perm = Perm.refl []; bounded = omega arith; full = inl refl; least = tt };
  nonneg = tt;
}

module _ (max_tops : ℕ) (kind : Kind) (key : String) (some_place : 0 < max_tops) where
  process_lines-Kept :
      (lines : List ResultLine) (s s' : State) (seen : List Entry)
      → Reports kind lines
      → Synced s
      → process_lines max_tops lines s ≡ ok s'
      → Kept max_tops (table_at kind s key) seen
      → Kept max_tops (table_at kind s' key) (seen ++ entries kind key s.key s.cur_options lines)
  unfolding process_lines
  process_lines-Kept [] s s' seen signs sync e kept =
      let same : s ≡ s' = cc in rw (← same) (rw (append-nil seen) kept)
  process_lines-Kept (line ∷ lines) s s' seen signs sync e kept =
      elim (Result-cases (process_line max_tops line s)) [
        | inl (t, here) ↦
            let step = process_line-Stepped max_tops key s sync kind line t here in
            let entry = entry_of (value kind line) (str_eq s.key key) s.cur_options in
            let now =
              StepFor-Kept max_tops kind key (value kind line) s t seen some_place signs.0
                step.table kept in
            let moved = Kept-perm max_tops _ _ (seen ++ entry) (perm_append_comm entry seen) now in
            let later =
              process_lines-Kept lines t s' (seen ++ entry) signs.1 step.sync (rw here at e)
                moved in
            rw (step.key_is, step.options_is, append_assoc) at later
        | inr (x, fails) ↦ absurd (ground arith)
      ]

  -- If a file of results is processed with no exception, and it reports no negative value of the
  -- measure, then the table of each setting holds entries that were reported for it, at most `max_tops`
  -- of them, such that none of the other entries reported for it has a smaller value; and there are
  -- other entries only if the table is full.
  pub process_lines-IsTop :
      (lines : List ResultLine) (s : State)
      → Reports kind lines
      → process_lines max_tops lines initial ≡ ok s
      → (dropped : List Entry) × IsTop max_tops
          (table_at kind s key)
          (entries kind key "" "" lines)
          dropped
  process_lines-IsTop lines s signs e =
      let start : Kept max_tops (table_at kind initial key) [] =
        rw (table_at-initial kind key) (empty-Kept max_tops) in
      let kept = process_lines-Kept lines initial s [] signs (λ j _. (refl, refl)) e start in
      (kept.dropped, kept.is_top)
