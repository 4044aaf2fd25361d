-- ===== src/Simulation/Tables.antt =====
-- The tables of results: how long their lists are, and what they are compared with.
use brb_partially_connected.Base.{
  ℕ, suc, ◌-◌, ◌≤◌, ◌<◌, ◌≡◌, refl, ap, ◌∙◌, List, [], ◌∷◌, ◌++◌, some, inl, inr, true, false, ◌&&◌,
  All, Bool-cases, ◌==◌, ==_iff, length, length-append, if◌then◌else◌, arith,
}
use brb_partially_connected.Simulation.Queue.{Params}
use brb_partially_connected.Simulation.Run.{
  done, Four, Surroundings, Table, last?, same_params, max_config_id,
}
use brb_partially_connected.Simulation.Worker.{append_at, reference}

same_params_refl : (p : Params) → same_params p p ≡ true
same_params_refl (n, f, k) = rw ((==_iff n n).1 refl, (==_iff f f).1 refl, (==_iff k k).1 refl) refl

All-last :
    {A : Type 0} (P : A → Type 0) (xs : List A) (m : ℕ)
    → length xs ≡ suc m
    → All P xs
    → (x : A) × (last? xs ≡ some x) × P x
All-last P [] m e all = absurd (omega (arith, e))
All-last P (x ∷ []) m e all = (x, refl, all.0)
All-last P (x ∷ y ∷ xs) m e all = All-last P (y ∷ xs) (length xs) refl all.1

All-concat :
    {A : Type 0} (P : A → Type 0) (xs : List A) (x : A) → All P xs → P x → All P (xs ++ x ∷ [])
All-concat P [] x all p = (p, tt)
All-concat P (y ∷ xs) x all p = (all.0, All-concat P xs x all.1 p)

abbrev pub one_more : ℕ → (ℕ → ℕ) → ℕ → ℕ
one_more id lengths i = if id == i then suc (lengths i) else lengths i

module _ (env : Surroundings) where
  open env use {nx, Float, mean, is_zero, delivers, measures}

  abbrev pub IsNonZero : Float → Type 0
  IsNonZero x = is_zero x ≡ false

  -- The lists of a table for the configurations 0 to 12 have these lengths, and hold no 0.
  abbrev pub Holds : Params → Table Float → (ℕ → ℕ) → Type 0
  Holds p table lengths =
      (i : ℕ)
      → i ≤ max_config_id
      → (xs : List Float) × (table p i ≡ some xs) × (length xs ≡ lengths i) × All IsNonZero xs

  abbrev pub AllHold : Params → Four (Table Float) → (ℕ → ℕ) → Type 0
  AllHold p tables lengths =
      Holds p tables.msg lengths
      × Holds p tables.bit lengths
      × Holds p tables.lat lengths
      × Holds p tables.proc lengths

  Holds-same :
      (p : Params) (table : Table Float) (c d : ℕ → ℕ)
      → ((i : ℕ) → i ≤ max_config_id → c i ≡ d i)
      → Holds p table c
      → Holds p table d
  Holds-same p table c d same held i le =
      let (xs, e, l, all) = held i le in (xs, e, l ∙ same i le, all)

  pub AllHold-same :
      (p : Params) (tables : Four (Table Float)) (c d : ℕ → ℕ)
      → ((i : ℕ) → i ≤ max_config_id → c i ≡ d i)
      → AllHold p tables c
      → AllHold p tables d
  AllHold-same p tables c d same (m, b, l, r) = (
    Holds-same p tables.msg c d same m,
    Holds-same p tables.bit c d same b,
    Holds-same p tables.lat c d same l,
    Holds-same p tables.proc c d same r,
  )

  pub append_at-Holds :
      (p : Params) (id : ℕ) (x : Float) (table : Table Float) (lengths : ℕ → ℕ)
      → id ≤ max_config_id
      → IsNonZero x
      → Holds p table lengths
      → (table' : Table Float) × (append_at env p id x table ≡ done table')
        × Holds p table' (one_more id lengths)
  append_at-Holds p id x table lengths le nonzero held =
      let (xs, e, l, all) = held id le in
      let table' : Table Float =
        λ p' id'. if same_params p p' && (id == id') then some (xs ++ x ∷ []) else table p' id' in
      (
        table',
        rw e refl,
        λ i le'. elim (Bool-cases (id == i)) [
          | inl here ↦
              let at : id ≡ i = (==_iff id i).0 here in
              (
                xs ++ x ∷ [],
                rw (same_params_refl p, here) refl,
                rw here (length-append xs (x ∷ []) ∙ omega (arith, l, ap lengths at)),
                All-concat IsNonZero xs x all nonzero,
              )
          | inr other ↦
              let (ys, e', l', all') = held i le' in
              (ys, rw (same_params_refl p, other) e', rw other l', all')
        ],
      )

  pub reference-done :
      (p : Params) (table : Table Float) (lengths : ℕ → ℕ)
      → Holds p table lengths
      → 0 < lengths 0
      → (x : Float) × (reference env p table ≡ done x) × IsNonZero x
  reference-done p table lengths held some_first =
      let (xs, e, l, all) = held 0 (omega arith) in
      let (x, last, nonzero) =
        All-last IsNonZero xs (lengths 0 - 1) (omega (arith, l, some_first)) all in
      (x, rw (e, last) refl, nonzero)
