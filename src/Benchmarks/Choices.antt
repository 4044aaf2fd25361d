-- ===== src/Benchmarks/Choices.antt =====
-- Each choice of options is run once in each setting.
use brb_partially_connected.Base.{
  ℕ, ◌+◌, ◌-◌, ◌/◌, ◌*◌, ◌≡◌, refl, ap, sym, ◌∙◌, Bool, true, false, ◌&&◌, List, [], ◌∷◌, length,
  replicate, ◌==◌, ltb, if◌then◌else◌, for_each, for_range_inv, total, total-append, total-for_each,
  arith,
}
use brb_partially_connected.Benchmarks.Commands.{
  Command, all_off, turn_all_on, combinations, command, run_choices, faulty_numbers, connectivities,
  each_option,
}
use brb_partially_connected.Benchmarks.Flags.{
  same_flags, count_on, indicator, up_from, hits, same_flags-replicate, hits-combinations,
  count_on-length,
}

-- How often a command with this number of faulty nodes, this connectivity and these flags is run.
abbrev pub runs : (f k : ℕ) → List Bool → List Command → ℕ
runs f k v =
    total
      (λ cmd. indicator ((cmd.num_faulty == f && cmd.connectivity == k) && same_flags v cmd.mbds))

-- The nine settings: the number of faulty nodes is (n + 2) / 6, (n - 1) / 3 or 1, and the connectivity the
-- least one for it, the mean of that and n, or n - 1.
abbrev pub settings : (n : ℕ) → List (ℕ × ℕ)
settings n =
    let a = (n + 2) / 6 in
    let b = (n - 1) / 3 in
    (a, 2 * a + 1)
    ∷ (a, (2 * a + 1 + n) / 2)
    ∷ (a, n - 1)
    ∷ (b, 2 * b + 1)
    ∷ (b, (2 * b + 1 + n) / 2)
    ∷ (b, n - 1)
    ∷ (1, 3)
    ∷ (1, (3 + n) / 2)
    ∷ (1, n - 1)
    ∷ []

-- How often a setting is in a list: twice where two of the nine are the same.
abbrev pub is_setting : (f k : ℕ) → ℕ × ℕ → ℕ
is_setting f k (f', k') = indicator (f' == f && k' == k)

abbrev pub times_set : (f k : ℕ) → List (ℕ × ℕ) → ℕ
times_set f k = total (is_setting f k)

total-and :
    {A : Type 0} (b : Bool) (t : A → Bool) (xs : List A)
    → total (λ x. indicator (b && t x)) xs ≡ (if b then total (λ x. indicator (t x)) xs else 0)
total-and true t xs = refl
total-and false t [] = refl
total-and false t (x ∷ xs) = omega (arith, total-and false t xs)

run_choices-runs :
    (f k f' k' : ℕ) (v : List Bool) (cmds : List Command)
    → length v ≡ 12
    → runs f k v (run_choices f' k' cmds) ≡ is_setting f k (f', k') + runs f k v cmds
unfolding run_choices
run_choices-runs f k f' k' v cmds e =
    let here : Bool = f' == f && k' == k in
    let w = λ (cmd : Command).
      indicator ((cmd.num_faulty == f && cmd.connectivity == k) && same_flags v cmd.mbds) in
    let none_on : same_flags v all_off ≡ (count_on v == 0) =
      ap (λ (n : ℕ). same_flags v (replicate n false)) (sym e) ∙ same_flags-replicate v in
    let found : (j : ℕ)
        → hits v all_off (combinations (up_from 1 12) j) ≡ indicator (count_on v == j) =
      λ j.
        ap (λ (n : ℕ). hits v (replicate n false) (combinations (up_from 1 n) j)) (sym e)
        ∙ hits-combinations v [] [] j refl in
    for_range_inv
      (λ j q. runs f k v q ≡ runs f k v cmds + (if here then indicator (ltb (count_on v) j) else 0))
      _ 1 13 _ (omega arith)
      (λ j q lo hi h.
        total-for_each w (λ c. command f' k' 30 (turn_all_on c all_off) false)
          (combinations (up_from 1 12) j) q
        ∙ ground (
          arith,
          h,
          found j,
          total-and here (λ c. same_flags v (turn_all_on c all_off))
              (combinations (up_from 1 12) j),
        ))
      (total-append w cmds (command f' k' 30 all_off true ∷ []) ∙ ground (arith, none_on))
    ∙ ground (arith, count_on-length v, e)

run_settings-runs :
    (f k : ℕ) (v : List Bool) (pairs : List (ℕ × ℕ)) (cmds : List Command)
    → length v ≡ 12
    → runs f k v (for_each pairs (λ (f', k'). run_choices f' k') cmds)
      ≡ times_set f k pairs + runs f k v cmds
run_settings-runs f k v [] cmds e = omega arith
run_settings-runs f k v ((f', k') ∷ pairs) cmds e = omega (
  arith,
  run_choices-runs f k f' k' v cmds e,
  run_settings-runs f k v pairs (run_choices f' k' cmds) e,
)

each_setting :
    (n f k : ℕ) (v : List Bool) (cmds : List Command)
    → length v ≡ 12
    → runs f k v (
        for_each
          (faulty_numbers n)
          (λ f'. for_each (connectivities n f') (λ k'. run_choices f' k'))
          cmds)
      ≡ times_set f k (settings n) + runs f k v cmds
each_setting n f k v cmds e = run_settings-runs f k v (settings n) cmds e

-- benchEachOption.py runs each choice among the 12 options, none of them included, with each number of
-- faulty nodes and each connectivity as often as these two are one of the nine settings, in each
-- repetition.
pub each_option-runs :
    (n repeats f k : ℕ) (v : List Bool)
    → length v ≡ 12
    → runs f k v (each_option n repeats) ≡ times_set f k (settings n) * repeats
unfolding each_option
each_option-runs n repeats f k v e =
    for_range_inv (λ j cmds. runs f k v cmds ≡ times_set f k (settings n) * j) _ 0 repeats []
      (omega arith) (λ j cmds lo hi h. grind (arith, h, each_setting n f k v cmds e)) (omega arith)
