-- ===== src/ProcessCpumem/Maxima.antt =====
-- code3/process_cpumem.py: the tables hold the maxima of the samples.
use brb_partially_connected.Base.{
  ℕ, ◌≡◌, ◌⊎◌, inl, inr, refl, ap, ◌∙◌, max, ◌==◌, ltb, if◌then◌else◌, Bool-cases, List, [], ◌∷◌,
  All, some, ok, raise, value_error, arith,
}
use native.Mathlib.Decide.{ℕ_discrete}
use brb_partially_connected.ProcessCpumem.Defs.{
  Line, Table, State, raise_max, read_line, process_lines, zeros, initial,
}

-- One measurement: the number of nodes, the processor use and the memory use.
abbrev pub Sample : Type 0
Sample = ℕ × ℕ × ℕ

-- The two lines of each sample.
abbrev pub file_of : List Sample → List Line
file_of [] = []
file_of ((n, cpu, mem) ∷ samples) =
    record { as_header = ok n; as_sample = raise value_error }
    ∷ record { as_header = raise value_error; as_sample = ok (cpu, mem) }
    ∷ file_of samples

-- A size of the experiments.
abbrev pub IsSize : ℕ → Type 0
IsSize n = (n ≡ 10) ⊎ (n ≡ 30) ⊎ (n ≡ 50)

abbrev pub HasSize : Sample → Type 0
HasSize (n, cpu, mem) = IsSize n

-- The largest processor use among the samples with `m` nodes, and the largest memory use.
abbrev pub largest_cpu : ℕ → List Sample → ℕ
largest_cpu m [] = 0
largest_cpu m ((n, cpu, mem) ∷ samples) =
    let rest = largest_cpu m samples in if n == m then max cpu rest else rest

abbrev pub largest_mem : ℕ → List Sample → ℕ
largest_mem m [] = 0
largest_mem m ((n, cpu, mem) ∷ samples) =
    let rest = largest_mem m samples in if n == m then max mem rest else rest

-- The table holds the values of `a` at the sizes.
abbrev Holds : Table → (ℕ → ℕ) → Type 0
Holds table a = (m : ℕ) → IsSize m → table m ≡ some (a m)

Holds-agree : (table : Table) (a b : ℕ → ℕ) → ((m : ℕ) → a m ≡ b m) → Holds table a → Holds table b
Holds-agree table a b same holds m size = holds m size ∙ ap some (same m)

abbrev raised : (n v : ℕ) → (ℕ → ℕ) → ℕ → ℕ
raised n v a m = if n == m then max (a m) v else a m

raise_max-Holds :
    (n v : ℕ) (table : Table) (a : ℕ → ℕ)
    → IsSize n
    → Holds table a
    → (table' : Table) × (raise_max n v table ≡ ok table') × Holds table' (raised n v a)
unfolding raise_max
raise_max-Holds n v table a size holds = (
  (if ltb (a n) v then (λ m. if n == m then some v else table m) else table),
  rw (holds n size) refl,
  λ m size'. elim (ℕ_discrete n m) [
    | yes e ↦ rw (← e) (elim (Bool-cases (ltb (a n) v)) [
      | inl above ↦ rw above (ground arith)
      | inr below ↦ rw below (holds n size ∙ ap some (ground arith))
    ])
    | no ne ↦ elim (Bool-cases (ltb (a n) v)) [
      | inl above ↦ rw above (ground (arith, ne, holds m size'))
      | inr below ↦ rw below (holds m size' ∙ ap some (ground (arith, ne)))
    ]
  ],
)

process_samples-Holds :
    (samples : List Sample) (s : State) (a b : ℕ → ℕ)
    → All HasSize samples
    → s.parity ≡ 0
    → Holds s.maxcpu a
    → Holds s.maxmem b
    → (s' : State) × (process_lines (file_of samples) s ≡ ok s')
      × Holds s'.maxcpu (λ m. max (a m) (largest_cpu m samples))
      × Holds s'.maxmem (λ m. max (b m) (largest_mem m samples))
unfolding process_lines read_line
process_samples-Holds [] s a b sizes even cpus mems = (
  s,
  refl,
  Holds-agree s.maxcpu a _ (λ m. omega arith) cpus,
  Holds-agree s.maxmem b _ (λ m. omega arith) mems,
)
process_samples-Holds ((n, cpu, mem) ∷ samples) s a b (size, sizes) even cpus mems =
    let (maxcpu, e1, cpus1) = raise_max-Holds n cpu s.maxcpu a size cpus in
    let (maxmem, e2, mems1) = raise_max-Holds n mem s.maxmem b size mems in
    let s1 : State = record s { maxcpu = maxcpu; maxmem = maxmem; n = n; parity = 0 } in
    let (s', e, cpus', mems') =
      process_samples-Holds samples s1 (raised n cpu a) (raised n mem b) sizes refl cpus1 mems1 in
    (
      s',
      rw (even, e1, e2, e) refl,
      Holds-agree s'.maxcpu _ _ (λ m. ground arith) cpus',
      Holds-agree s'.maxmem _ _ (λ m. ground arith) mems',
    )

-- On a file of samples with 10, 30 or 50 nodes each, the script raises nothing, and its tables hold for
-- each of these sizes the largest processor use and the largest memory use of the samples of that
-- size, 0 where there is none.
pub cpumem-largest :
    (samples : List Sample)
    → All HasSize samples
    → (s : State) × (process_lines (file_of samples) initial ≡ ok s)
      × ((m : ℕ) → IsSize m → s.maxcpu m ≡ some (largest_cpu m samples))
      × ((m : ℕ) → IsSize m → s.maxmem m ≡ some (largest_mem m samples))
cpumem-largest samples sizes =
    let zero_at : Holds zeros (λ m. 0) = λ m size. ground (arith, size) in
    let (s, e, cpus, mems) =
      process_samples-Holds samples initial (λ m. 0) (λ m. 0) sizes refl zero_at zero_at in
    (
      s,
      e,
      Holds-agree s.maxcpu _ (λ m. largest_cpu m samples) (λ m. omega arith) cpus,
      Holds-agree s.maxmem _ (λ m. largest_mem m samples) (λ m. omega arith) mems,
    )
