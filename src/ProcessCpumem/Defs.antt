-- ===== src/ProcessCpumem/Defs.antt =====
-- code3/process_cpumem.py: lines with a number of nodes and lines with a sample take turns, and for
-- each number of nodes the largest values are kept. The values are not negative: naturals in the unit
-- of the last digit.
use brb_partially_connected.Base.{
  ℕ, ◌+◌, ◌%◌, ◌||◌, ◌==◌, ltb, if◌then◌else◌, List, [], ◌∷◌, Option, none, some, Result, ok, ◌>>=◌,
  or_raise, key_error,
}

-- A line of the file, as either kind of line reads it: `int(l[2])`, and the two floats of a sample.
pub record Line : Type 0 where
  pub as_header : Result ℕ
  pub as_sample : Result (ℕ × ℕ)

abbrev pub Table : Type 0
Table = ℕ → Option ℕ

pub record State : Type 0 where
  pub maxcpu : Table
  pub maxmem : Table
  pub n : ℕ
  pub parity : ℕ

-- `if v > table[n]: table[n] = v`
unfoldable pub raise_max : (n v : ℕ) → Table → Result Table
raise_max n v table = do
  old ← or_raise key_error (table n)
  ok (if ltb old v then (λ m. if n == m then some v else table m) else table)

-- The body of the loop, but for the parity.
unfoldable pub read_line : Line → State → Result State
unfolding raise_max
read_line line s =
    if s.parity == 0
    then line.as_header >>= (λ n. ok (record s { n = n }))
    else line.as_sample >>= (λ (cpu, mem). raise_max s.n cpu s.maxcpu >>= (λ maxcpu.
      raise_max s.n mem s.maxmem
      >>= (λ maxmem. ok (record s { maxcpu = maxcpu; maxmem = maxmem }))))

unfoldable pub process_lines : List Line → State → Result State
unfolding read_line
process_lines [] s = ok s
process_lines (line ∷ lines) s =
    read_line line s >>= (λ s'. process_lines lines (record s' { parity = (s'.parity + 1) % 2 }))

-- `for n in [10, 30, 50]`
abbrev pub zeros : Table
zeros m = if (m == 10) || ((m == 30) || (m == 50)) then some 0 else none

abbrev pub initial : State
initial = record { maxcpu = zeros; maxmem = zeros; n = 0; parity = 0 }
