-- ===== src/Benchmarks/Flags.antt =====
-- The combinations of options reach each list of flags once.
use brb_partially_connected.Base.{
  append-one, ℕ, zero, suc, ◌+◌, ◌≤◌, ◌≡◌, refl, ap, sym, ◌∙◌, Bool, true, false, ◌&&◌, List, [],
  ◌∷◌, ◌++◌, map, length, length-append, replicate, ◌==◌, if◌then◌else◌, total, total-append, arith,
}
use brb_partially_connected.Benchmarks.Commands.{turn_on, turn_all_on, combinations}

abbrev pub same_bit : Bool → Bool → Bool
same_bit true b = b
same_bit false true = false
same_bit false false = true

-- The two lists have the same flags.
abbrev pub same_flags : List Bool → List Bool → Bool
same_flags [] [] = true
same_flags (a ∷ u) (b ∷ v) = same_bit a b && same_flags u v
same_flags _ _ = false

abbrev pub count_on : List Bool → ℕ
count_on = total (λ b. if b then 1 else 0)

abbrev pub indicator : Bool → ℕ
indicator b = if b then 1 else 0

abbrev pub up_from : (first n : ℕ) → List ℕ
up_from first zero = []
up_from first (suc n) = first ∷ up_from (suc first) n

same_flags-append :
    (p q u v : List Bool)
    → length p ≡ length q
    → same_flags (p ++ u) (q ++ v) ≡ (same_flags p q && same_flags u v)
same_flags-append [] [] u v e = refl
same_flags-append [] (b ∷ q) u v e = absurd (omega (arith, e))
same_flags-append (a ∷ p) [] u v e = absurd (omega (arith, e))
same_flags-append (a ∷ p) (b ∷ q) u v e =
    let rest = same_flags-append p q u v (omega (arith, e)) in ground (arith, rest)

pub same_flags-replicate :
    (v : List Bool) → same_flags v (replicate (length v) false) ≡ (count_on v == 0)
same_flags-replicate [] = ground arith
same_flags-replicate (true ∷ v) = ground arith
same_flags-replicate (false ∷ v) = ground (arith, same_flags-replicate v)

turn_on-append :
    (q : List Bool) (b : Bool) (v : List Bool)
    → turn_on (suc (length q)) (q ++ b ∷ v) ≡ (q ++ true ∷ []) ++ v
turn_on-append [] b v = refl
turn_on-append (a ∷ q) b v = ap (λ (u : List Bool). a ∷ u) (turn_on-append q b v)

total-map :
    {A B : Type 0} (w : B → ℕ) (f : A → B) (xs : List A)
    → total w (map f xs) ≡ total (λ x. w (f x)) xs
total-map w f [] = refl
total-map w f (x ∷ xs) = omega (arith, total-map w f xs)

-- How often the flags come about from `q` with further options.
abbrev pub hits : (v q : List Bool) → List (List ℕ) → ℕ
hits v q = total (λ c. indicator (same_flags v (turn_all_on c q)))

indicator-branches :
    (b : Bool) (v p q : List Bool) (k : ℕ)
    → length p ≡ length q
    → indicator (same_flags (p ++ b ∷ []) (q ++ true ∷ []) && (count_on v == k))
        + indicator (same_flags (p ++ b ∷ []) (q ++ false ∷ []) && (count_on v == suc k))
      ≡ indicator (same_flags p q && (count_on (b ∷ v) == suc k))
indicator-branches true v p q k e =
    let with_it = same_flags-append p q (true ∷ []) (true ∷ []) e in
    let without = same_flags-append p q (true ∷ []) (false ∷ []) e in
    ground (arith, with_it, without)
indicator-branches false v p q k e =
    let with_it = same_flags-append p q (false ∷ []) (true ∷ []) e in
    let without = same_flags-append p q (false ∷ []) (false ∷ []) e in
    ground (arith, with_it, without)

pub hits-combinations :
    (v p q : List Bool) (k : ℕ)
    → length p ≡ length q
    → hits
        (p ++ v)
        (q ++ replicate (length v) false)
        (combinations (up_from (suc (length q)) (length v)) k)
      ≡ indicator (same_flags p q && (count_on v == k))
hits-combinations v p q zero e =
    let parts = same_flags-append p q v (replicate (length v) false) e in
    let zeros = same_flags-replicate v in ground (arith, parts, zeros)
hits-combinations [] p q (suc k) e = ground arith
hits-combinations (b ∷ v) p q (suc k) e =
    let z : List Bool = replicate (length v) false in
    let next : (on : Bool) (j : ℕ)
        → hits (p ++ b ∷ v) ((q ++ on ∷ []) ++ z)
            (combinations (up_from (suc (suc (length q))) (length v)) j)
          ≡ indicator (same_flags (p ++ b ∷ []) (q ++ on ∷ []) && (count_on v == j)) =
      λ on j.
        let longer : length (q ++ on ∷ []) ≡ suc (length q) =
          omega (arith, length-append q (on ∷ [])) in
        let same_length : length (p ++ b ∷ []) ≡ length (q ++ on ∷ []) =
          omega (arith, e, longer, length-append p (b ∷ [])) in
        ap
          (λ (u : List Bool).
            hits u ((q ++ on ∷ []) ++ z)
              (combinations (up_from (suc (suc (length q))) (length v)) j))
          (sym (append-one p b v))
        ∙ ap
            (λ (m : ℕ).
              hits ((p ++ b ∷ []) ++ v) ((q ++ on ∷ []) ++ z)
                (combinations (up_from (suc m) (length v)) j))
            (sym longer)
        ∙ hits-combinations v (p ++ b ∷ []) (q ++ on ∷ []) j same_length in
    let rest = combinations (up_from (suc (suc (length q))) (length v)) in
    let added : hits (p ++ b ∷ v) (q ++ false ∷ z)
          (map (λ (c : List ℕ). suc (length q) ∷ c) (rest k))
        ≡ hits (p ++ b ∷ v) ((q ++ true ∷ []) ++ z) (rest k) =
      total-map (λ c. indicator (same_flags (p ++ b ∷ v) (turn_all_on c (q ++ false ∷ z))))
        (λ (c : List ℕ). suc (length q) ∷ c) (rest k)
      ∙ ap (λ (u : List Bool). hits (p ++ b ∷ v) u (rest k)) (turn_on-append q false z) in
    let left_out : hits (p ++ b ∷ v) (q ++ false ∷ z) (rest (suc k))
        ≡ hits (p ++ b ∷ v) ((q ++ false ∷ []) ++ z) (rest (suc k)) =
      ap (λ (u : List Bool). hits (p ++ b ∷ v) u (rest (suc k))) (sym (append-one q false z)) in
    total-append (λ c. indicator (same_flags (p ++ b ∷ v) (turn_all_on c (q ++ false ∷ z))))
      (map (λ (c : List ℕ). suc (length q) ∷ c) (rest k)) (rest (suc k))
    ∙ rw (added, left_out, next true k, next false (suc k)) (indicator-branches b v p q k e)

pub count_on-length : (v : List Bool) → count_on v ≤ length v
count_on-length [] = omega arith
count_on-length (true ∷ v) = omega (arith, count_on-length v)
count_on-length (false ∷ v) = omega (arith, count_on-length v)
