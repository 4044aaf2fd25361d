-- ===== src/Base/Occurrences.antt =====
-- How often a number stands in a list: statements on lists without order become arithmetic.
use Prim.Native.Nat.{ℕ, zero, suc, ◌-◌, ◌+◌, ◌<◌, max}
use mathlib.Core.Path.{◌≡◌, refl}
use mathlib.Core.Logic.{◌≢◌}
use mathlib.Core.Bool.{Bool}
use mathlib.Core.List.{List, [], ◌∷◌, ◌++◌}
use native.Mathlib.Omega.{arith}
use brb_partially_connected.Base.Tests.{ltb, ◌==◌, if◌then◌else◌}
use brb_partially_connected.Base.Lists.{take, drop}

abbrev pub occurrences : ℕ → List ℕ → ℕ
occurrences a [] = 0
occurrences a (x ∷ xs) = (if x == a then 1 else 0) + occurrences a xs

-- `a in xs`
abbrev pub contains : List ℕ → ℕ → Bool
contains xs a = ltb 0 (occurrences a xs)

-- Put at the end, unless it is there.
abbrev pub add_new : ℕ → List ℕ → List ℕ
add_new a xs = if contains xs a then xs else xs ++ a ∷ []

-- Without the first occurrence.
abbrev pub erase : ℕ → List ℕ → List ℕ
erase a [] = []
erase a (x ∷ xs) = if x == a then xs else x ∷ erase a xs

-- What `pop` leaves of `x ∷ xs`, and what it gives: the last element.
abbrev pub all_but_last : ℕ → List ℕ → List ℕ
all_but_last x [] = []
all_but_last x (y ∷ xs) = x ∷ all_but_last y xs

abbrev pub last : ℕ → List ℕ → ℕ
last x [] = x
last x (y ∷ xs) = last y xs

pub occurrences-append :
    (a : ℕ) (xs ys : List ℕ) → occurrences a (xs ++ ys) ≡ occurrences a xs + occurrences a ys
occurrences-append a [] ys = omega arith
occurrences-append a (x ∷ xs) ys = ground (arith, occurrences-append a xs ys)

pub occurrences-take-drop :
    (a n : ℕ) (xs : List ℕ)
    → occurrences a (take n xs) + occurrences a (drop n xs) ≡ occurrences a xs
occurrences-take-drop a zero xs = omega arith
occurrences-take-drop a (suc n) [] = omega arith
occurrences-take-drop a (suc n) (x ∷ xs) = ground (arith, occurrences-take-drop a n xs)

pub occurrences-erase :
    (a b : ℕ) (xs : List ℕ)
    → occurrences a (erase b xs) ≡ (if b == a then occurrences a xs - 1 else occurrences a xs)
occurrences-erase a b [] = ground arith
occurrences-erase a b (x ∷ xs) = ground (arith, occurrences-erase a b xs)

pub occurrences-add_new :
    (a b : ℕ) (xs : List ℕ)
    → occurrences a (add_new b xs) ≡ (if b == a then max 1 (occurrences a xs) else occurrences a xs)
occurrences-add_new a b xs = ground (arith, occurrences-append a xs (b ∷ []))

pub erase-absent : (a : ℕ) (xs : List ℕ) → occurrences a xs ≡ 0 → erase a xs ≡ xs
erase-absent a [] h = refl
erase-absent a (x ∷ xs) h = ground (arith, erase-absent a xs)

pub occurrences-last :
    (a x : ℕ) (xs : List ℕ)
    → occurrences a (x ∷ xs) ≡ occurrences a (all_but_last x xs) + (if last x xs == a then 1 else 0)
occurrences-last a x [] = omega arith
occurrences-last a x (y ∷ xs) = ground (arith, occurrences-last a y xs)

-- The sum of the weights of the elements.
abbrev pub weigh : (ℕ → ℕ) → List ℕ → ℕ
weigh w [] = 0
weigh w (x ∷ xs) = w x + weigh w xs

pub weigh-append : (w : ℕ → ℕ) (xs ys : List ℕ) → weigh w (xs ++ ys) ≡ weigh w xs + weigh w ys
weigh-append w [] ys = omega arith
weigh-append w (x ∷ xs) ys = ground (arith, weigh-append w xs ys)

-- Only the weights of the elements count.
pub weigh-agree :
    (w w' : ℕ → ℕ) (xs : List ℕ)
    → ((u : ℕ) → 0 < occurrences u xs → w u ≡ w' u)
    → weigh w xs ≡ weigh w' xs
weigh-agree w w' [] h = refl
weigh-agree w w' (x ∷ xs) h =
    let here = h x (ground arith) in
    let rest = weigh-agree w w' xs (λ u m. h u (ground arith)) in ground arith

pub weigh-erase :
    (w : ℕ → ℕ) (a : ℕ) (xs : List ℕ)
    → 0 < occurrences a xs
    → w a + weigh w (erase a xs) ≡ weigh w xs
weigh-erase w a [] h = absurd (omega arith)
weigh-erase w a (x ∷ xs) h = ground (arith, weigh-erase w a xs)

-- One element that stands in the list once gets another weight.
pub weigh-change :
    (w w' : ℕ → ℕ) (a : ℕ) (xs : List ℕ)
    → occurrences a xs ≡ 1
    → ((u : ℕ) → a ≢ u → w u ≡ w' u)
    → weigh w xs + w' a ≡ weigh w' xs + w a
weigh-change w w' a xs once h =
    let other =
      weigh-agree w w' (erase a xs)
        (λ u m. h u (λ e. absurd (ground (arith, e, m, once, occurrences-erase u a xs)))) in
    ground (arith, weigh-erase w a xs (omega arith), weigh-erase w' a xs (omega arith))
