-- ===== src/Simulation/Reading.antt =====
-- The configuration file as OMNeT++ reads it: the section of a configuration turns on the option of
-- that number alone, and has the parameters of the simulation.
use Prim.Native.String.{String}
use text.Mathlib.Text.{◌==◌ as str_eq}
use brb_partially_connected.Base.{
  ℕ, zero, suc, ◌+◌, ◌≤◌, ◌<◌, ◌≡◌, refl, ap, ◌∙◌, Bool, false, List, [], ◌∷◌, ◌++◌, map, Option,
  none, some, ◌==◌, ==_iff, if◌then◌else◌, All, arith,
}
use native.Mathlib.Decide.{ℕ_discrete}
use brb_partially_connected.Simulation.Texts.{lit, num, Text, cname, same_text, same_text-cname}
use brb_partially_connected.Simulation.Ini.{
  IniLine, header, setting, blank, general, option_keys, switches, network_settings, config_section,
  ini_lines, section_0, section_1, section_2, section_3, section_4, section_5, section_6, section_7,
  section_8, section_9, section_10, section_11, section_12,
}

-- The lines up to the next header.
abbrev pub until_header : List IniLine → List IniLine
until_header [] = []
until_header (header name ∷ ls) = []
until_header (setting key value ∷ ls) = setting key value ∷ until_header ls
until_header (blank ∷ ls) = blank ∷ until_header ls

-- The section of a name.
unfoldable pub section_of : Text → List IniLine → List IniLine
section_of name [] = []
section_of name (header t ∷ ls) =
    let further = section_of name ls in if same_text t name then until_header ls else further
section_of name (setting key value ∷ ls) = section_of name ls
section_of name (blank ∷ ls) = section_of name ls

abbrev pub value_of : String → List IniLine → Option Text
value_of key [] = none
value_of key (header t ∷ ls) = value_of key ls
value_of key (setting k value ∷ ls) = if str_eq k key then some value else value_of key ls
value_of key (blank ∷ ls) = value_of key ls

-- Whether `i` is each of the `count` numbers from `first` on.
abbrev pub each_is : (count first i : ℕ) → List Bool
each_is zero first i = []
each_is (suc count) first i = (i == first) ∷ each_is count (suc first) i

abbrev IsPlain : IniLine → Type 0
IsPlain (header name) = ⊥
IsPlain _ = Unit

-- The list is empty or begins with a header.
abbrev IsNext : List IniLine → Type 0
IsNext [] = Unit
IsNext (header name ∷ ls) = Unit
IsNext (setting key value ∷ ls) = ⊥
IsNext (blank ∷ ls) = ⊥

until_header-append :
    (body rest : List IniLine) → All IsPlain body → IsNext rest → until_header (body ++ rest) ≡ body
until_header-append [] [] plain next = refl
until_header-append [] (header name ∷ rest) plain next = refl
until_header-append [] (setting key value ∷ rest) plain next = absurd next
until_header-append [] (blank ∷ rest) plain next = absurd next
until_header-append (header name ∷ body) rest plain next = absurd plain.0
until_header-append (setting key value ∷ body) rest plain next =
    rw (until_header-append body rest plain.1 next) refl
until_header-append (blank ∷ body) rest plain next =
    rw (until_header-append body rest plain.1 next) refl

section_of-append :
    (name : Text) (body rest : List IniLine)
    → All IsPlain body
    → section_of name (body ++ rest) ≡ section_of name rest
unfolding section_of
section_of-append name [] rest plain = refl
section_of-append name (header t ∷ body) rest plain = absurd plain.0
section_of-append name (setting key value ∷ body) rest plain =
    section_of-append name body rest plain.1
section_of-append name (blank ∷ body) rest plain = section_of-append name body rest plain.1

section_of-block :
    (name t : Text) (body rest : List IniLine)
    → All IsPlain body
    → IsNext rest
    → section_of name (header t ∷ (body ++ rest))
      ≡ (if same_text t name then body else section_of name rest)
unfolding section_of
section_of-block name t body rest plain next =
    rw (until_header-append body rest plain next, section_of-append name body rest plain) refl

switches-IsPlain :
    (keys : List String) (ons : List Bool) (rest : List IniLine)
    → All IsPlain rest
    → All IsPlain (switches keys ons ++ rest)
switches-IsPlain [] [] rest plain = plain
switches-IsPlain [] (on ∷ ons) rest plain = plain
switches-IsPlain (key ∷ keys) [] rest plain = plain
switches-IsPlain (key ∷ keys) (on ∷ ons) rest plain = (tt, switches-IsPlain keys ons rest plain)

module _ (N F K msg_size : ℕ) where
  abbrev pub config : ℕ → Text
  config i = lit "Config c" ∷ cname N F K i

  abbrev pub settings : List Bool → List IniLine
  settings ons = switches option_keys ons ++ network_settings N F K msg_size

  settings-IsPlain : (ons : List Bool) → All IsPlain (settings ons)
  unfolding network_settings
  settings-IsPlain ons = switches-IsPlain option_keys ons _ (omega arith)

  section_of-config_section :
      (i j : ℕ) (ons : List Bool) (rest : List IniLine)
      → IsNext rest
      → section_of (config i) (config_section N F K msg_size j ons ++ rest)
        ≡ (if j == i then settings ons else section_of (config i) rest)
  unfolding config_section
  section_of-config_section i j ons rest next =
      section_of-block (config i) (config j) (settings ons) rest (settings-IsPlain ons) next
      ∙ ap (λ (b : Bool). if b then settings ons else section_of (config i) rest)
          (same_text-cname N F K j i)

  -- The sections of a table of configurations.
  abbrev pub listed : List (ℕ × List Bool) → List IniLine
  listed [] = []
  listed ((j, ons) ∷ table) = config_section N F K msg_size j ons ++ listed table

  abbrev pub pick : ℕ → List (ℕ × List Bool) → List IniLine
  pick i [] = []
  pick i ((j, ons) ∷ table) = if j == i then settings ons else pick i table

  listed-IsNext : (table : List (ℕ × List Bool)) → IsNext (listed table)
  unfolding config_section
  listed-IsNext [] = tt
  listed-IsNext ((j, ons) ∷ table) = tt

  pub section_of-listed :
      (i : ℕ) (table : List (ℕ × List Bool)) → section_of (config i) (listed table) ≡ pick i table
  unfolding section_of
  section_of-listed i [] = refl
  section_of-listed i ((j, ons) ∷ table) =
      section_of-config_section i j ons (listed table) (listed-IsNext table)
      ∙ ap (λ (ls : List IniLine). if j == i then settings ons else ls) (section_of-listed i table)

  -- The 13 configurations, each with its option alone.
  abbrev pub alone : (count first : ℕ) → List (ℕ × List Bool)
  alone zero first = []
  alone (suc count) first = (first, each_is 12 1 first) ∷ alone count (suc first)

  pick-alone :
      (count first i : ℕ)
      → first ≤ i
      → i < first + count
      → pick i (alone count first) ≡ settings (each_is 12 1 i)
  pick-alone zero first i le lt = absurd (omega arith)
  pick-alone (suc count) first i le lt = elim (ℕ_discrete first i) [
    | yes e ↦ rw (e, (==_iff i i).1 refl) refl
    | no ne ↦
        let apart : (first == i) ≡ false = ground (arith, ne) in
        rw apart (pick-alone count (suc first) i (omega arith) (omega arith))
  ]

  ini_lines-listed : ini_lines N F K msg_size ≡ general ++ listed (alone 13 0)
  unfolding ini_lines network_settings section_0 section_1 section_2 section_3 section_4 section_5
      section_6 section_7 section_8 section_9 section_10 section_11 section_12 config_section
      general
  ini_lines-listed = refl

  pub section_of-general :
      (i : ℕ) (rest : List IniLine)
      → section_of (config i) (general ++ rest) ≡ section_of (config i) rest
  unfolding general section_of
  section_of-general i rest = refl

  section_of-ini_lines :
      (i : ℕ)
      → i < 13
      → section_of (config i) (ini_lines N F K msg_size) ≡ settings (each_is 12 1 i)
  section_of-ini_lines i h =
      ap (section_of (config i)) ini_lines-listed
      ∙ section_of-general i (listed (alone 13 0))
      ∙ section_of-listed i (alone 13 0)
      ∙ pick-alone 13 0 i (omega arith) (omega arith)

  -- The section of each of the configurations 0 to 12 turns on the option of that number and no other
  -- one, and gives the simulation its size, its parameters and the size of its messages.
  pub ini_lines-alone :
      (i : ℕ)
      → i < 13
      → let section = section_of (config i) (ini_lines N F K msg_size) in
        (map (λ key. value_of key section) option_keys
          ≡ map (λ on. some (lit (if on then "true" else "false") ∷ [])) (each_is 12 1 i))
        × (value_of "*.n" section ≡ some (num N ∷ []))
        × (value_of "**.cli[*].app[*].nPar" section ≡ some (num N ∷ []))
        × (value_of "**.cli[*].app[*].fPar" section ≡ some (num F ∷ []))
        × (value_of "**.cli[*].app[*].kPar" section ≡ some (num K ∷ []))
        × (value_of "**.cli[*].app[*].msgSizePar" section ≡ some (num msg_size ∷ []))
  unfolding network_settings
  ini_lines-alone i h = rw (section_of-ini_lines i h) (refl, refl, refl, refl, refl, refl)
