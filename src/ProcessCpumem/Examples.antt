-- ===== src/ProcessCpumem/Examples.antt =====
-- code3/process_cpumem.py on a file of three samples.
use brb_partially_connected.Base.{ℕ, ◌≡◌, refl, inl, inr, List, [], ◌∷◌, some, ok, raise, key_error}
use brb_partially_connected.ProcessCpumem.Defs.{State, process_lines, read_line, raise_max, initial}
use brb_partially_connected.ProcessCpumem.Maxima.{
  Sample, file_of, IsSize, largest_cpu, largest_mem, cpumem-largest,
}

abbrev samples : List Sample
samples = (10, 7, 300) ∷ (30, 4, 200) ∷ (10, 9, 100) ∷ []

-- A size that is not among the keys.
key_fails : process_lines (file_of ((20, 1, 1) ∷ [])) initial ≡ raise key_error
unfolding process_lines read_line raise_max
key_fails = refl

largest_runs : largest_cpu 10 samples ≡ 9
largest_runs = refl

cpumem-largest_example :
    (s : State) × (process_lines (file_of samples) initial ≡ ok s)
    × ((m : ℕ) → IsSize m → s.maxcpu m ≡ some (largest_cpu m samples))
    × ((m : ℕ) → IsSize m → s.maxmem m ≡ some (largest_mem m samples))
cpumem-largest_example = cpumem-largest samples (inl refl, (inr (inl refl), (inl refl, tt)))
