-- ===== src/ProcessMbd/Compare.antt =====
-- `compare` of code3/process_results_MBD_7_11.py, by which the printing loops sort the settings.
use brb_partially_connected.Base.{
  ℕ, ◌<◌, ◌≡◌, ◌↔◌, ◌⊎◌, ◌&&◌, ltb, ◌==◌, if◌then◌else◌, ℤ, pos, negsuc, arith,
}

-- The four numbers of a key: 'N f k payloadSize'.
abbrev pub Setting : Type 0
Setting = ℕ × ℕ × ℕ × ℕ

unfoldable pub compare : Setting → Setting → ℤ
compare (n1, f1, k1, p1) (n2, f2, k2, p2) =
    if ltb n1 n2
    then negsuc 0
    else if (n1 == n2) && ltb f1 f2
    then negsuc 0
    else if (n1 == n2) && ((f1 == f2) && ltb k1 k2)
    then negsuc 0
    else if (n1 == n2) && ((f1 == f2) && ((k1 == k2) && ltb p1 p2))
    then negsuc 0
    else if (n1 == n2) && ((f1 == f2) && ((k1 == k2) && (p1 == p2)))
    then pos 0
    else pos 1

-- The lexicographic order.
abbrev pub Before : Setting → Setting → Type 0
Before (n1, f1, k1, p1) (n2, f2, k2, p2) =
    (n1 < n2) ⊎ ((n1 ≡ n2) × ((f1 < f2) ⊎ ((f1 ≡ f2) × ((k1 < k2) ⊎ ((k1 ≡ k2) × (p1 < p2))))))

-- The same four numbers.
abbrev pub Same : Setting → Setting → Type 0
Same (n1, f1, k1, p1) (n2, f2, k2, p2) = (n1 ≡ n2) × (f1 ≡ f2) × (k1 ≡ k2) × (p1 ≡ p2)

-- `compare` is -1, 0 or 1 as its first argument is before, equal to or after the second one in the
-- lexicographic order of the four numbers.
pub compare-Before :
    (s t : Setting)
    → ((compare s t ≡ negsuc 0) ↔ Before s t)
      × ((compare s t ≡ pos 0) ↔ Same s t)
      × ((compare s t ≡ pos 1) ↔ Before t s)
unfolding compare
compare-Before (n1, f1, k1, p1) (n2, f2, k2, p2) = (ground arith, ground arith, ground arith)
