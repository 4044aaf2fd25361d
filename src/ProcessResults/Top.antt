-- ===== src/ProcessResults/Top.antt =====
-- What it means for a table of code3/process_results.py to hold the least entries, and where the scan
-- for the largest value ends.
pub mod Update
pub mod Step
pub mod Run
use mathlib.Core.List.Perm
use mathlib.Core.List.{perm_append_singleton, Perm, perm_middle, append-nil, append_assoc}
use Prim.Native.String.{String}
use brb_partially_connected.Base.{
  ℕ, zero, suc, ◌+◌, ◌≤◌, ◌<◌, ◌≡◌, refl, ◌⊎◌, inl, inr, true, false, List, [], ◌∷◌, ◌++◌, some,
  none, ltb, length, length-append, length-set, take, get_elem?, set, All, ℤ, pos, negsuc, pos_part,
  neg_part, ◌≤ℤ◌, ltbℤ, Result, ok, Bool-cases, if◌then◌else◌, arith, ap, ⊎_elim, Option-cases,
}
use brb_partially_connected.ProcessResults.Defs.{Entry, Table, scan_max, update_top}

-- No value is negative.
abbrev pub NonNegative : List Entry → Type 0
NonNegative = All (λ e. pos 0 ≤ℤ e.1)

-- All values of the entries are at most `b`.
abbrev pub AtMost : ℤ → List Entry → Type 0
AtMost b = All (λ e. e.1 ≤ℤ b)

pub AtMost-trans : (a b : ℤ) (xs : List Entry) → a ≤ℤ b → AtMost a xs → AtMost b xs
AtMost-trans a b [] h all = tt
AtMost-trans a b (x ∷ xs) h all = (omega arith, AtMost-trans a b xs h all.1)

pub AtMost-set :
    (b : ℤ) (xs : List Entry) (i : ℕ) (e : Entry) → e.1 ≤ℤ b → AtMost b xs → AtMost b (set xs i e)
AtMost-set b [] i e h all = tt
AtMost-set b (x ∷ xs) zero e h all = (h, all.1)
AtMost-set b (x ∷ xs) (suc i) e h all = (all.0, AtMost-set b xs i e h all.1)

pub AtMost-get :
    (b : ℤ) (xs : List Entry) (i : ℕ) (e : Entry) → get_elem? xs i ≡ some e → AtMost b xs → e.1 ≤ℤ b
AtMost-get b [] i e h all = cc
AtMost-get b (x ∷ xs) zero e h all = ground arith
AtMost-get b (x ∷ xs) (suc i) e h all = AtMost-get b xs i e h all.1

pub perm-set :
    (xs : List Entry) (i : ℕ) (old new : Entry)
    → get_elem? xs i ≡ some old
    → Perm (old ∷ set xs i new) (new ∷ xs)
perm-set [] i old new h = cc
perm-set (x ∷ xs) zero old new h = let e : x ≡ old = cc in rw e (Perm.swap new old xs)
perm-set (x ∷ xs) (suc i) old new h =
    Perm.trans (Perm.swap _ _ _)
      (Perm.trans (Perm.cons x (perm-set xs i old new h)) (Perm.swap _ _ _))

-- The scan ends at the largest value, or where it began if none exceeds `cur_max`.
scan_max_lem :
    (i : ℕ) (table : Table) (cur_max : ℤ) (max_i : ℕ)
    → (AtMost cur_max table × (scan_max i table cur_max max_i ≡ max_i))
      ⊎ (j : ℕ) × (e : Entry) × (scan_max i table cur_max max_i ≡ i + j)
        × (get_elem? table j ≡ some e)
        × AtMost e.1 table
        × (ltbℤ cur_max e.1 ≡ true)
unfolding scan_max
scan_max_lem i [] cur_max max_i = inl (tt, refl)
scan_max_lem i ((config, v) ∷ table) cur_max max_i = elim (Bool-cases (ltbℤ cur_max v)) [
  | inl more ↦ elim (scan_max_lem (suc i) table v i) [
    | inl (all, e) ↦
        inr (0, (config, v), rw (more, scan_max) (omega arith), refl, (omega arith, all), more)
    | inr (j, e, at_j, here, all, lt) ↦
        inr (suc j, e, rw (more, scan_max) (omega arith), here, (ground arith, all), ground arith)
  ]
  | inr less ↦ elim (scan_max_lem (suc i) table cur_max max_i) [
    | inl (all, e) ↦ inl ((ground arith, all), rw (less, scan_max) e)
    | inr (j, e, at_j, here, all, lt) ↦
        inr (suc j, e, rw (less, scan_max) (omega arith), here, (ground arith, all), lt)
  ]
]

-- The table and the entries dropped so far are the entries seen, and no entry dropped is below an
-- entry of the table; entries are dropped only when the table is full.
pub record IsTop (max_tops : ℕ) (table seen dropped : List Entry) : Type 0 where
  pub perm : Perm (table ++ dropped) seen
  pub bounded : length table ≤ max_tops
  pub full : (dropped ≡ []) ⊎ (length table ≡ max_tops)
  pub least : All (λ (b : Entry). AtMost b.1 table) dropped

pub least-weaken :
    (table table' : Table) (dropped : List Entry)
    → ((b : Entry) → AtMost b.1 table → AtMost b.1 table')
    → All (λ (b : Entry). AtMost b.1 table) dropped
    → All (λ (b : Entry). AtMost b.1 table') dropped
least-weaken table table' [] h all = tt
least-weaken table table' (b ∷ dropped) h all =
    (h b all.0, least-weaken table table' dropped h all.1)

-- In a full table the scan finds an entry, and it is a largest one.
pub scan_max_full :
    (e : Entry) (table : Table)
    → NonNegative (e ∷ table)
    → (w : Entry) × (get_elem? (e ∷ table) (scan_max 0 (e ∷ table) (pos 0) 0) ≡ some w)
      × AtMost w.1 (e ∷ table)
scan_max_full e table nonneg = elim (scan_max_lem 0 (e ∷ table) (pos 0) 0) [
  | inl (all, at) ↦ (e, rw at refl, AtMost-trans (pos 0) e.1 (e ∷ table) nonneg.0 all)
  | inr (j, w, at, here, all, lt) ↦
      let at' : scan_max 0 (e ∷ table) (pos 0) 0 ≡ j = omega arith in (w, rw at' here, all)
]
