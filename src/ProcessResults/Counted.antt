-- ===== src/ProcessResults/Counted.antt =====
-- code3/process_results.py: how large the counts of the options get.
use Prim.Native.String.{String}
use text.Mathlib.Text.{◌==◌ as str_eq}
use mathlib.Core.Path.{subst}
use brb_partially_connected.Base.{
  ℕ, zero, suc, true, false, ◌-◌, ◌+◌, ◌≤◌, ◌<◌, ◌≡◌, refl, List, [], ◌∷◌, Option, none, some,
  if◌then◌else◌, get_elem?, get_or, set, replicate, get_or-replicate, length, Result, ok, or_raise,
  index_error, arith, AllOk, AllOk-bind, AllOk-weaken, Exception, Bool,
}
use brb_partially_connected.ProcessResults.Defs.{Entry, Table}
use brb_partially_connected.ProcessResults.Proportions.{
  count_field, count_fields, count_entries, success_counts,
}

-- Only the count at `a` may be larger, by one.
abbrev One : (a : ℕ) (old new : List ℕ) → Type 0
One a old new =
    (k : ℕ)
    → ((k < a) → get_or new k 0 ≡ get_or old k 0)
      × ((a < k) → get_or new k 0 ≡ get_or old k 0)
      × (get_or new k 0 ≤ suc (get_or old k 0))

-- Each count from `a` on may be larger by one.
abbrev Raised : (a : ℕ) (old new : List ℕ) → Type 0
Raised a old new =
    (k : ℕ) → ((k < a) → get_or new k 0 ≡ get_or old k 0) × (get_or new k 0 ≤ suc (get_or old k 0))

One-set :
    (counts : List ℕ) (a c : ℕ) → get_elem? counts a ≡ some c → One a counts (set counts a (suc c))
One-set [] a c e k = (λ _. refl, λ _. refl, omega arith)
One-set (x ∷ xs) zero c e zero = ground arith
One-set (x ∷ xs) zero c e (suc k) = (λ _. refl, λ _. refl, omega arith)
One-set (x ∷ xs) (suc a) c e zero = (λ _. refl, λ _. refl, omega arith)
One-set (x ∷ xs) (suc a) c e (suc k) =
    let h = One-set xs a c e k in (λ l. h.0 (omega (arith, l)), λ l. h.1 (omega (arith, l)), h.2)

One-none : (a : ℕ) (counts : List ℕ) → One a counts counts
One-none a counts k = (λ _. refl, λ _. refl, omega arith)

or_raise-AllOk :
    {A : Type 0} (e : Exception) (o : Option A) → AllOk (λ a. o ≡ some a) (or_raise e o)
or_raise-AllOk e none = tt
or_raise-AllOk e (some a) = refl

AllOk-if :
    {A : Type 0} (P : A → Type 0) (b : Bool) (r s : Result A)
    → AllOk P r
    → AllOk P s
    → AllOk P (if b then r else s)
AllOk-if P true r s p q = p
AllOk-if P false r s p q = q

count_field-One :
    (config : List String) (i : ℕ) (counts : List ℕ)
    → AllOk (One (i - 9) counts) (count_field config i counts)
unfolding count_field
count_field-One config i counts =
    AllOk-bind (λ field. get_elem? config i ≡ some field) (One (i - 9) counts)
      (or_raise index_error (get_elem? config i)) _
      (or_raise-AllOk index_error (get_elem? config i))
      (λ field _.
        AllOk-if (One (i - 9) counts) (str_eq field "True") _ (ok counts)
          (AllOk-bind (λ c. get_elem? counts (i - 9) ≡ some c) (One (i - 9) counts)
            (or_raise index_error (get_elem? counts (i - 9))) (λ c. ok (set counts (i - 9) (suc c)))
            (or_raise-AllOk index_error (get_elem? counts (i - 9)))
            (λ c e. One-set counts (i - 9) c e))
          (One-none (i - 9) counts))

One-Raised :
    (a : ℕ) (old mid new : List ℕ) → One a old mid → Raised (suc a) mid new → Raised a old new
One-Raised a old mid new one raised k = ground (arith, one k, raised k)

count_fields-Raised :
    (number a : ℕ) (config : List String) (counts : List ℕ)
    → AllOk (Raised a counts) (count_fields number (a + 9) config counts)
unfolding count_fields
count_fields-Raised zero a config counts = λ k. (λ _. refl, omega arith)
count_fields-Raised (suc number) a config counts =
    let next : (suc a + 9) ≡ suc (a + 9) = omega arith in
    AllOk-bind (One a counts) (Raised a counts) (count_field config (a + 9) counts) _
      (subst (λ b. AllOk (One b counts) (count_field config (a + 9) counts)) (omega arith)
        (count_field-One config (a + 9) counts))
      (λ mid one.
        AllOk-weaken (Raised (suc a) mid) (Raised a counts)
          (count_fields number (suc (a + 9)) config mid)
          (λ new raised. One-Raised a counts mid new one raised)
          (subst (λ i. AllOk (Raised (suc a) mid) (count_fields number i config mid)) next
            (count_fields-Raised number (suc a) config mid)))

-- Each count is larger by `n` at most, and there are entries from `j` on.
abbrev Grown : (n j : ℕ) (table : Table) (old new : List ℕ) → Type 0
Grown n j table old new =
    ((k : ℕ) → get_or new k 0 ≤ get_or old k 0 + n) × ((0 < n) → j + n ≤ length table)

get_elem?-below :
    (table : Table) (j : ℕ) (e : Entry) → get_elem? table j ≡ some e → j < length table
get_elem?-below [] j e found = ground arith
get_elem?-below (x ∷ table) zero e found = omega arith
get_elem?-below (x ∷ table) (suc j) e found = omega (arith, get_elem?-below table j e found)

module _ (split : String → List String) where
  count_entries-Grown :
      (number n j : ℕ) (table : Table) (counts : List ℕ)
      → AllOk (Grown n j table counts) (count_entries split number n j table counts)
  unfolding count_entries
  count_entries-Grown number zero j table counts = (λ k. omega arith, λ l. omega (arith, l))
  count_entries-Grown number (suc n) j table counts =
      AllOk-bind (λ e. get_elem? table j ≡ some e) (Grown (suc n) j table counts)
        (or_raise index_error (get_elem? table j)) _
        (or_raise-AllOk index_error (get_elem? table j))
        (λ e found.
          AllOk-bind (Raised 0 counts) (Grown (suc n) j table counts)
            (count_fields number 9 (split e.0) counts) _
            (count_fields-Raised number 0 (split e.0) counts)
            (λ mid raised.
              AllOk-weaken (Grown n (suc j) table mid) (Grown (suc n) j table counts)
                (count_entries split number n (suc j) table mid)
                (λ new (grown, enough). (
                  λ k. omega (arith, (raised k).1, grown k),
                  λ _. ground (arith, enough, get_elem?-below table j e found),
                ))
                (count_entries-Grown number n (suc j) table mid)))

  -- What holds of the counts of the three tables.
  abbrev pub Bounded : (max_tops : ℕ) (msgs lat net : Table) → List ℕ × List ℕ × List ℕ → Type 0
  Bounded max_tops msgs lat net counts =
      ((k : ℕ)
        → (get_or counts.0 k 0 ≤ max_tops)
          × (get_or counts.1 k 0 ≤ max_tops)
          × (get_or counts.2 k 0 ≤ 1))
      × (max_tops ≤ length msgs)
      × (max_tops ≤ length lat)
      × (max_tops ≤ length net)

  success_counts-Bounded :
      (max_tops : ℕ) (msgs lat net : Table)
      → AllOk (Bounded max_tops msgs lat net) (success_counts split max_tops msgs lat net)
  unfolding success_counts
  success_counts-Bounded zero msgs lat net = tt
  success_counts-Bounded (suc j) msgs lat net =
      let zeros : List ℕ = replicate 12 0 in
      let B = Bounded (suc j) msgs lat net in
      let nothing : (k : ℕ) → get_or zeros k 0 ≡ 0 = λ k. get_or-replicate 12 k 0 in
      AllOk-bind (Grown (suc j) 0 msgs zeros) B (count_entries split 12 (suc j) 0 msgs zeros) _
        (count_entries-Grown 12 (suc j) 0 msgs zeros)
        (λ of_msgs m.
          AllOk-bind (Grown (suc j) 0 lat zeros) B (count_entries split 13 (suc j) 0 lat zeros) _
            (count_entries-Grown 13 (suc j) 0 lat zeros)
            (λ of_lat l.
              AllOk-bind (λ e. get_elem? net j ≡ some e) B (or_raise index_error (get_elem? net j))
                _ (or_raise-AllOk index_error (get_elem? net j))
                (λ e found.
                  AllOk-bind (Raised 0 zeros) B (count_fields 13 9 (split e.0) zeros) _
                    (count_fields-Raised 13 0 (split e.0) zeros)
                    (λ of_net n. (
                      λ k. (
                        omega (arith, m.0 k, nothing k),
                        omega (arith, l.0 k, nothing k),
                        omega (arith, (n k).1, nothing k),
                      ),
                      omega (arith, m.1 (omega arith)),
                      omega (arith, l.1 (omega arith)),
                      omega (arith, get_elem?-below net j e found),
                    )))))

  -- If the counts of a setting are computed with no exception, the tables have `max_tops` entries at
  -- least, an option is counted at most `max_tops` times for the messages and for the latency, and at
  -- most once for the network consumption.
  pub success_counts-bounds :
      (max_tops : ℕ) (msgs lat net : Table) (counts : List ℕ × List ℕ × List ℕ)
      → success_counts split max_tops msgs lat net ≡ ok counts
      → Bounded max_tops msgs lat net counts
  success_counts-bounds max_tops msgs lat net counts e =
      subst (AllOk (Bounded max_tops msgs lat net)) e (success_counts-Bounded max_tops msgs lat net)
