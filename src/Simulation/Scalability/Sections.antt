-- ===== src/Simulation/Scalability/Sections.antt =====
-- The sections of the configurations that randomgraph_scalability.py simulates.
use brb_partially_connected.Base.{
  ℕ, ◌≡◌, refl, ap, ◌∙◌, Bool, true, false, not, ◌&&◌, ◌==◌, inl, inr, Among, List, [], ◌∷◌, ◌++◌,
  some, map, if◌then◌else◌,
}
use brb_partially_connected.Simulation.Texts.{lit, num}
use brb_partially_connected.Simulation.Ini.{
  IniLine, general, option_keys, network_settings, config_section, ini_lines, section_0, section_1,
  section_2, section_3, section_4, section_5, section_6, section_7, section_8, section_9,
  section_10, section_11, section_12,
}
use brb_partially_connected.Simulation.Reading.{
  section_of, value_of, config, listed, pick, alone, section_of-listed, section_of-general,
}
use brb_partially_connected.Simulation.Scalability.{
  section_13, section_14, simulated, scalability_lines,
}

abbrev all_but : Bool → List Bool
all_but payload =
    true ∷ true ∷ true ∷ true ∷ true ∷ true ∷ true ∷ true ∷ true ∷ true ∷ payload ∷ true ∷ []

abbrev pub options : List ℕ
options = 1 ∷ 2 ∷ 3 ∷ 4 ∷ 5 ∷ 6 ∷ 7 ∷ 8 ∷ 9 ∷ 10 ∷ 11 ∷ 12 ∷ []

-- Option 11 leaves out a payload that was received.
abbrev pub is_on : (config_id option : ℕ) → Bool
is_on config_id option = not (config_id == 0) && not (config_id == 14 && option == 11)

module _ (N F K msg_size : ℕ) where
  abbrev table : List (ℕ × List Bool)
  table = alone N F K msg_size 13 0 ++ (13, all_but true) ∷ (14, all_but false) ∷ []

  scalability_lines-listed :
      scalability_lines N F K msg_size ≡ general ++ listed N F K msg_size table
  unfolding scalability_lines section_13 section_14 ini_lines network_settings section_0 section_1
      section_2 section_3 section_4 section_5 section_6 section_7 section_8 section_9 section_10
      section_11 section_12 config_section general
  scalability_lines-listed = refl

  section_of-scalability_lines :
      (i : ℕ)
      → section_of (config N F K msg_size i) (scalability_lines N F K msg_size)
        ≡ pick N F K msg_size i table
  section_of-scalability_lines i =
      ap (section_of (config N F K msg_size i)) scalability_lines-listed
      ∙ section_of-general N F K msg_size i (listed N F K msg_size table)
      ∙ section_of-listed N F K msg_size i table

  -- The section sets the twelve options, in their order, and the parameters of the simulation.
  abbrev pub Sets : (section : List IniLine) → List Bool → Type 0
  Sets section ons =
      (map (λ key. value_of key section) option_keys
        ≡ map (λ on. some (lit (if on then "true" else "false") ∷ [])) ons)
      × (value_of "*.n" section ≡ some (num N ∷ []))
      × (value_of "**.cli[*].app[*].nPar" section ≡ some (num N ∷ []))
      × (value_of "**.cli[*].app[*].fPar" section ≡ some (num F ∷ []))
      × (value_of "**.cli[*].app[*].kPar" section ≡ some (num K ∷ []))
      × (value_of "**.cli[*].app[*].msgSizePar" section ≡ some (num msg_size ∷ []))

  -- The section of each of the configurations that are simulated is there: configuration 0 has all options
  -- off, and 13 and 14 have all of them on, but for option 11 in 14; each has the parameters of the
  -- simulation.
  pub scalability_lines-Sets :
      (i : ℕ)
      → Among i simulated
      → Sets
          (section_of (config N F K msg_size i) (scalability_lines N F K msg_size))
          (map (is_on i) options)
  unfolding network_settings
  scalability_lines-Sets i (inl e) =
      rw (← e, section_of-scalability_lines 0) (refl, refl, refl, refl, refl, refl)
  scalability_lines-Sets i (inr (inl e)) =
      rw (← e, section_of-scalability_lines 13) (refl, refl, refl, refl, refl, refl)
  scalability_lines-Sets i (inr (inr (inl e))) =
      rw (← e, section_of-scalability_lines 14) (refl, refl, refl, refl, refl, refl)
  scalability_lines-Sets i (inr (inr (inr none_left))) = absurd none_left
