-- ===== src/Simulation/Texts.antt =====
-- The texts that randomgraph_benchAllOptions.py writes: pieces of text and decimal numbers, in a row.
use Prim.Native.String.{String}
use text.Mathlib.Text.{◌==◌ as str_eq}
use brb_partially_connected.Base.{ℕ, ◌≡◌, Bool, true, false, ◌&&◌, List, [], ◌∷◌, ◌++◌, ◌==◌, arith}

-- `num n` stands for `str(n)`; a number within a literal is written so too.
pub data Piece : Type 0 where
  lit : String → Piece
  num : ℕ → Piece

abbrev pub Text : Type 0
Text = List Piece

-- `prefix(N, F, K)`
abbrev pub prefix : (N F K : ℕ) → Text
prefix N F K = num N ∷ lit "_" ∷ num F ∷ lit "_" ∷ num K ∷ []

abbrev pub nedname : (N F K : ℕ) → Text
nedname N F K = lit "random_" ∷ (prefix N F K ++ lit ".ned" ∷ [])

abbrev pub ininame : (N F K : ℕ) → Text
ininame N F K = lit "random_" ∷ (prefix N F K ++ lit ".ini" ∷ [])

-- The name of a configuration, without the 'c' in front.
abbrev pub cname : (N F K config_id : ℕ) → Text
cname N F K config_id = prefix N F K ++ lit "-" ∷ num config_id ∷ []

abbrev pub same_piece : Piece → Piece → Bool
same_piece (lit s) (lit t) = str_eq s t
same_piece (num m) (num n) = m == n
same_piece _ _ = false

abbrev pub same_text : Text → Text → Bool
same_text [] [] = true
same_text (p ∷ s) (q ∷ t) = same_piece p q && same_text s t
same_text _ _ = false

pub same_text-cname : (N F K i j : ℕ) → same_text (cname N F K i) (cname N F K j) ≡ (i == j)
same_text-cname N F K i j = ground arith
