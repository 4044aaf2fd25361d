-- ===== src/ProcessResults/Top/Update.antt =====
-- `update_top` of code3/process_results.py keeps the least entries.
use native.Mathlib.Decide.{dec_lt}
use mathlib.Core.List.Perm
use mathlib.Core.List.{perm_append_singleton, perm_middle, append-nil}
use Prim.Native.String.{String}
use brb_partially_connected.Base.{
  ℕ, zero, suc, ◌≤◌, ◌<◌, ◌≡◌, refl, inl, inr, true, false, List, [], ◌∷◌, ◌++◌, some, length,
  length-append, length-set, take, get_elem?, set, All, ℤ, pos, ◌≤ℤ◌, ltbℤ, ok, Bool-cases, arith,
  ap, ⊎_elim,
}
use brb_partially_connected.ProcessResults.Defs.{Entry, Table, scan_max, update_top}
use brb_partially_connected.ProcessResults.Top.{
  NonNegative, AtMost, AtMost-trans, AtMost-set, AtMost-get, perm-set, IsTop, least-weaken,
  scan_max_full,
}

take_all : (n : ℕ) (xs : List Entry) → length xs ≤ n → take n xs ≡ xs
take_all zero [] h = refl
take_all zero (x ∷ xs) h = absurd (omega arith)
take_all (suc n) [] h = refl
take_all (suc n) (x ∷ xs) h = ap (λ l. x ∷ l) (take_all n xs (omega arith))

NonNegative-append : (xs ys : List Entry) → NonNegative xs → NonNegative ys → NonNegative (xs ++ ys)
NonNegative-append [] ys h k = k
NonNegative-append (x ∷ xs) ys h k = (h.0, NonNegative-append xs ys h.1 k)

NonNegative-set :
    (xs : List Entry) (i : ℕ) (e : Entry) → pos 0 ≤ℤ e.1 → NonNegative xs → NonNegative (set xs i e)
NonNegative-set [] i e h all = tt
NonNegative-set (x ∷ xs) zero e h all = (h, all.1)
NonNegative-set (x ∷ xs) (suc i) e h all = (all.0, NonNegative-set xs i e h all.1)

-- What one update gives.
pub record Updated (max_tops : ℕ) (x : Entry) (table seen : List Entry) : Type 0 where
  pub table' : Table
  pub dropped : List Entry
  pub gives : update_top max_tops x table ≡ ok table'
  pub is_top : IsTop max_tops table' (x ∷ seen) dropped
  pub nonneg : NonNegative table'

module _ (max_tops : ℕ) (config : String) (v : ℤ) (v_nonneg : pos 0 ≤ℤ v) where
  abbrev x : Entry
  x = (config, v)

  -- A free place is taken.
  pub update_top_free :
      (table seen dropped : List Entry)
      → length table < max_tops
      → NonNegative table
      → IsTop max_tops table seen dropped
      → Updated max_tops x table seen
  unfolding update_top
  update_top_free table seen dropped free nonneg h = record {
    table' = table ++ x ∷ [];
    dropped = [];
    gives = ground arith;
    is_top = record {
      perm = rw append-nil (
          Perm.trans (perm_append_singleton x table)
            (Perm.cons x (rw (none_dropped, append-nil) at h.perm)));
      bounded = omega (arith, length-append table (x ∷ []));
      full = inl refl;
      least = tt;
    };
    nonneg = NonNegative-append table (x ∷ []) nonneg (v_nonneg, tt);
  }
    where
      none_dropped : dropped ≡ []
      none_dropped = ⊎_elim (λ e. e) (λ e. absurd (omega arith)) h.full

  -- The largest entry `w` is replaced.
  IsTop-replace :
      (table seen dropped : List Entry) (i : ℕ) (w : Entry)
      → length table ≡ max_tops
      → get_elem? table i ≡ some w
      → AtMost w.1 table
      → ltbℤ v w.1 ≡ true
      → IsTop max_tops table seen dropped
      → IsTop max_tops (set table i x) (x ∷ seen) (w ∷ dropped)
  IsTop-replace table seen dropped i w full here most lt h = record {
    perm =
        Perm.trans (perm_middle (set table i x) dropped)
          (Perm.trans (Perm.append_right dropped (perm-set table i w x here)) (Perm.cons x h.perm));
    bounded = omega (arith, length-set table i x);
    full = inr (omega (arith, length-set table i x));
    least = (AtMost-set w.1 table i x (ground arith) most, below table dropped h.least);
  }
    where
      below :
          (all : Table) (ds : List Entry)
          → All (λ (b : Entry). AtMost b.1 table) ds
          → All (λ (b : Entry). AtMost b.1 (set table i x)) ds
      below all ds = least-weaken table (set table i x) ds (λ b h'.
          let w_le = AtMost-get b.1 table i w here h' in AtMost-set b.1 table i x (ground arith) h')

  -- The new entry is dropped.
  IsTop-drop :
      (table seen dropped : List Entry) (w : Entry)
      → length table ≡ max_tops
      → AtMost w.1 table
      → ltbℤ v w.1 ≡ false
      → IsTop max_tops table seen dropped
      → IsTop max_tops table (x ∷ seen) (x ∷ dropped)
  IsTop-drop table seen dropped w full most ge h = record {
    perm = Perm.trans (perm_middle table dropped) (Perm.cons x h.perm);
    bounded = omega arith;
    full = inr full;
    least = (AtMost-trans w.1 v table (ground arith) most, h.least);
  }

  pub update_top_full :
      (e : Entry) (table seen dropped : List Entry)
      → length (e ∷ table) ≡ max_tops
      → NonNegative (e ∷ table)
      → IsTop max_tops (e ∷ table) seen dropped
      → Updated max_tops x (e ∷ table) seen
  unfolding update_top
  update_top_full e table seen dropped full nonneg h =
      let (w, here, most) = scan_max_full e table nonneg in
      let whole = take_all max_tops (e ∷ table) (omega arith) in
      let i = scan_max 0 (e ∷ table) (pos 0) 0 in
      elim (Bool-cases (ltbℤ v w.1)) [
        | inl lt ↦ record {
          table' = set (e ∷ table) i x;
          dropped = w ∷ dropped;
          gives = ground (arith, whole);
          is_top = IsTop-replace (e ∷ table) seen dropped i w full here most lt h;
          nonneg = NonNegative-set (e ∷ table) i x v_nonneg nonneg;
        }
        | inr ge ↦ record {
          table' = e ∷ table;
          dropped = x ∷ dropped;
          gives = ground (arith, whole);
          is_top = IsTop-drop (e ∷ table) seen dropped w full most ge h;
          nonneg = nonneg;
        }
      ]

-- Every update of a table of least entries gives one.
pub update_top-Updated :
    (max_tops : ℕ) (config : String) (v : ℤ) (table seen dropped : List Entry)
    → 0 < max_tops
    → pos 0 ≤ℤ v
    → NonNegative table
    → IsTop max_tops table seen dropped
    → Updated max_tops (config, v) table seen
update_top-Updated max_tops config v [] seen dropped some_place v_nonneg nonneg h =
    update_top_free max_tops config v v_nonneg [] seen dropped some_place nonneg h
update_top-Updated max_tops config v (e ∷ table) seen dropped some_place v_nonneg nonneg h =
    elim (dec_lt (length (e ∷ table)) max_tops) [
      | yes free ↦ update_top_free max_tops config v v_nonneg (e ∷ table) seen dropped free nonneg h
      | no full ↦
          update_top_full max_tops config v v_nonneg e table seen dropped (omega (arith, h.bounded))
            nonneg h
    ]
