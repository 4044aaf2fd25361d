-- ===== src/Base/Dicts.antt =====
-- Python dictionaries with integer keys, in insertion order: a key that is there keeps its place.
use mathlib.Core.Path.{◌≡◌, refl}
use mathlib.Core.List.{List, [], ◌∷◌}
use mathlib.Core.Option.{Option, none, some}
use Prim.Native.Nat.{ℕ}
use native.Mathlib.Omega.{arith}
use brb_partially_connected.Base.Tests.{◌==◌, if◌then◌else◌}

abbrev pub Dict {ℓ} : Type ℓ → Type ℓ
Dict V = List (ℕ × V)

module _ {ℓ} {V : Type ℓ} where
  unfoldable pub lookup : ℕ → Dict V → Option V
  lookup k [] = none
  lookup k ((j, v) ∷ d) = if j == k then some v else lookup k d

  unfoldable pub insert : ℕ → V → Dict V → Dict V
  insert k v [] = (k, v) ∷ []
  insert k v ((j, w) ∷ d) = if j == k then (k, v) ∷ d else (j, w) ∷ insert k v d

  -- `d[k]` where `k` is a key, and `v` where it is none.
  unfoldable pub lookup_or : V → ℕ → Dict V → V
  unfolding lookup
  lookup_or v k d = elim (lookup k d) [ none ↦ v | some w ↦ w ]

  pub lookup-insert :
      (k j : ℕ) (v : V) (d : Dict V)
      → lookup j (insert k v d) ≡ (if k == j then some v else lookup j d)
  unfolding lookup insert
  lookup-insert k j v [] = refl
  lookup-insert k j v ((i, w) ∷ d) = ground (arith, lookup-insert k j v d)

  pub lookup_or-insert :
      (k j : ℕ) (v w : V) (d : Dict V)
      → lookup_or w j (insert k v d) ≡ (if k == j then v else lookup_or w j d)
  unfolding lookup_or
  lookup_or-insert k j v w d = ground (arith, lookup-insert k j v d)
