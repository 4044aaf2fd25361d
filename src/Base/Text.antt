-- ===== src/Base/Text.antt =====
-- A line of a log or data file, by its parts between the separators.
use Prim.Native.Nat.{ℕ}
use mathlib.Core.List.{List}
use mathlib.Core.Option.{Option, none, some}
use brb_partially_connected.Base.Lists.{get_elem?}
use brb_partially_connected.Base.Errors.{Result, ok, raise, index_error, value_error}

-- What `int` gives for each part, nothing where it raises ValueError.
abbrev pub Line : Type 0
Line = List (Option ℕ)

-- `int(l[i])`
abbrev pub int_at : Line → ℕ → Result ℕ
int_at line i = elim (get_elem? line i) [
  | none ↦ raise index_error
  | some none ↦ raise value_error
  | some (some n) ↦ ok n
]
