-- ===== src/KPasted/Relabelled.antt =====
-- code3/kpasted.py: the relabelled nodes are the first natural numbers, in their order.
use brb_partially_connected.Base.{
  append-one, append-none, ℕ, zero, suc, ◌≤◌, ◌≡◌, refl, ap, sym, ◌∙◌, false, List, [], ◌∷◌, ◌++◌,
  map, ◌==◌, length, length-append, occurrences, occurrences-append, add_new, arith,
}
use brb_partially_connected.Nx.Labelled.{add_all}
use brb_partially_connected.KPasted.Paste.{up_from, index_of}

index_of-append :
    (pre : List ℕ) (x : ℕ) (ys : List ℕ)
    → occurrences x pre ≡ 0
    → index_of x (pre ++ x ∷ ys) ≡ length pre
index_of-append [] x ys h = ground arith
index_of-append (y ∷ pre) x ys h =
    let other : (y == x) ≡ false = ground (arith, h) in
    let rest = index_of-append pre x ys (ground (arith, h)) in rw other (ap suc rest)

map-index_of :
    (pre ys : List ℕ)
    → ((v : ℕ) → occurrences v (pre ++ ys) ≤ 1)
    → map (λ u. index_of u (pre ++ ys)) ys ≡ up_from (length pre) (length ys)
map-index_of pre [] distinct = refl
map-index_of pre (y ∷ ys) distinct =
    let new : occurrences y pre ≡ 0 =
      ground (arith, distinct y, occurrences-append y pre (y ∷ ys)) in
    let first = index_of-append pre y ys new in
    let shifted = append-one pre y ys in
    let longer : length (pre ++ y ∷ []) ≡ suc (length pre) =
      omega (arith, length-append pre (y ∷ [])) in
    let rest = map-index_of (pre ++ y ∷ []) ys (λ v. rw shifted (distinct v)) in
    ap (λ (i : ℕ). i ∷ map (λ u. index_of u (pre ++ y ∷ ys)) ys) first
    ∙ ap (λ (is : List ℕ). length pre ∷ is)
        (ap (λ (zs : List ℕ). map (λ u. index_of u zs) ys) (sym shifted)
          ∙ rest
          ∙ ap (λ (n : ℕ). up_from n (length ys)) longer)

add_all-up_from :
    (first count : ℕ) (there : List ℕ)
    → ((v : ℕ) → first ≤ v → occurrences v there ≡ 0)
    → add_all (up_from first count) there ≡ there ++ up_from first count
add_all-up_from first zero there free = append-none there
add_all-up_from first (suc count) there free =
    let new : add_new first there ≡ there ++ first ∷ [] = ground (arith, free first) in
    ap (add_all (up_from (suc first) count)) new
    ∙ add_all-up_from (suc first) count (there ++ first ∷ [])
        (λ v le. ground (arith, le, free v, occurrences-append v there (first ∷ [])))
    ∙ append-one there first (up_from (suc first) count)

pub add_all-index_of :
    (xs : List ℕ)
    → ((v : ℕ) → occurrences v xs ≤ 1)
    → add_all (map (λ u. index_of u xs) xs) [] ≡ up_from 0 (length xs)
add_all-index_of xs distinct =
    ap (λ (is : List ℕ). add_all is []) (map-index_of [] xs distinct)
    ∙ add_all-up_from 0 (length xs) [] (λ v le. refl)
