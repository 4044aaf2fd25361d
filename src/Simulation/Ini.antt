-- ===== src/Simulation/Ini.antt =====
-- The configuration file of a simulation: a general part, and a section for each configuration.
use Prim.Native.String.{String}
use brb_partially_connected.Base.{ℕ, Bool, true, false, if◌then◌else◌, List, [], ◌∷◌, ◌++◌}
use brb_partially_connected.Simulation.Texts.{lit, num, Text, prefix, cname}

-- `[name]`, `key = value`, and an empty line.
pub data IniLine : Type 0 where
  header : Text → IniLine
  setting : (key : String) (value : Text) → IniLine
  blank : IniLine

-- As it is written.
abbrev pub ini_text : List IniLine → Text
ini_text [] = []
ini_text (header name ∷ ls) = lit "[" ∷ (name ++ lit "]\n" ∷ ini_text ls)
ini_text (setting key value ∷ ls) = lit key ∷ lit " = " ∷ (value ++ lit "\n" ∷ ini_text ls)
ini_text (blank ∷ ls) = lit "\n" ∷ ini_text ls

unfoldable pub general : List IniLine
general =
    header (lit "General" ∷ [])
    ∷ setting "cmdenv-event-banners" (lit "false" ∷ [])
    ∷ setting "**.cmdenv-log-level" (lit "OFF" ∷ [])
    ∷ setting "cmdenv-performance-display" (lit "false" ∷ [])
    ∷ setting "cmdenv-status-frequency" (lit "1s" ∷ [])
    ∷ setting "cmdenv-express-mode" (lit "true" ∷ [])
    ∷ setting "fname-append-host" (lit "false" ∷ [])
    ∷ setting "parallel-simulation" (lit "false" ∷ [])
    ∷ setting "print-undisposed" (lit "false" ∷ [])
    ∷ setting "record-eventlog" (lit "false" ∷ [])
    ∷ setting "warnings" (lit "false" ∷ [])
    ∷ setting "**.module-eventlog-recording" (lit "false" ∷ [])
    ∷ setting "*.result-recording-modes" (lit "-" ∷ [])
    ∷ setting "**.scalar-recording" (lit "false" ∷ [])
    ∷ setting "**.vector-record-eventnumbers" (lit "false" ∷ [])
    ∷ setting "**.vector-recording" (lit "false" ∷ [])
    ∷ setting "**.statistic-recording" (lit "false" ∷ [])
    ∷ setting "**.ppp[*].queue.frameCapacity" (lit "0" ∷ [])
    ∷ setting "**.ppp[*].ppp.queue.typename" (lit "\"DropTailQueue\"" ∷ [])
    ∷ blank
    ∷ setting "**.cli[*].app[*].startTimePar" (lit "0.03s" ∷ [])
    ∷ blank
    ∷ []

abbrev pub switch : String → Bool → IniLine
switch key on = setting key (lit (if on then "true" else "false") ∷ [])

-- The switches in the order in which each section writes them.
abbrev pub option_keys : List String
option_keys =
    "**.OPTIM_SENDTOECHO" ∷ "**.OPTIM_ECHOTOECHO" ∷ "**.OPTIM_ECHOTOREADY"
    ∷ "**.OPTIM_CUTECHOREADY_AFTER_DELIVER" ∷ "**.OPTIM_CUT_ECHO_AFTER_READY_RECEIVED"
    ∷ "**.OPTIM_AVOID_NEIGHBORS_THAT_DELIVERED" ∷ "**.OPTIM_CUT_ECHO_TO_READY_NEIGHBORS"
    ∷ "**.OPTIM_BRACHA_OVERPROVISIONING" ∷ "**.OPTIM_BITSET" ∷ "**.OPTIM_MESSAGE_FIELDS"
    ∷ "**.OPTIM_PAYLOAD_AVOID_IF_RECEIVED" ∷ "**.OPTIM_SEND_2f1" ∷ []

abbrev pub switches : List String → List Bool → List IniLine
switches (key ∷ keys) (on ∷ ons) = switch key on ∷ switches keys ons
switches _ _ = []

-- The lines of a section after its switches, which are the same in all sections.
unfoldable pub network_settings : (N F K msg_size : ℕ) → List IniLine
network_settings N F K msg_size =
    setting "network" (lit "random_" ∷ prefix N F K)
    ∷ setting "*.n" (num N ∷ [])
    ∷ setting "**.cli[*].app[*].nPar" (num N ∷ [])
    ∷ setting "**.cli[*].app[*].fPar" (num F ∷ [])
    ∷ setting "**.cli[*].app[*].kPar" (num K ∷ [])
    ∷ setting "**.cli[*].app[*].byzStringPar" (lit "\"\"" ∷ [])
    ∷ setting "**.cli[*].numApps" (num 1 ∷ [])
    ∷ setting "**.cli[*].app[*].typename" (lit "\"PeerHost\"" ∷ [])
    ∷ setting "**.cli[*].app[*].localPort" (num 9999 ∷ [])
    ∷ setting "**.cli[*].app[*].startTimePar" (lit "0.03s" ∷ [])
    ∷ setting "**.cli[*].app[*].msgSizePar" (num msg_size ∷ [])
    ∷ setting "**.cli[*].app[*].outputPrefixPar" (lit "\"stats/" ∷ (prefix N F K ++ lit "\"" ∷ []))
    ∷ blank
    ∷ []

module _ (N F K msg_size : ℕ) where
  unfoldable pub config_section : (config_id : ℕ) → List Bool → List IniLine
  unfolding network_settings
  config_section config_id ons =
      header (lit "Config c" ∷ cname N F K config_id)
      ∷ (switches option_keys ons ++ network_settings N F K msg_size)

  unfoldable pub section_0 : List IniLine
  unfolding config_section
  section_0 = config_section 0 (
      false ∷ false ∷ false ∷ false ∷ false ∷ false ∷ false ∷ false ∷ false ∷ false ∷ false ∷ false
      ∷ [])

  unfoldable pub section_1 : List IniLine
  unfolding config_section
  section_1 = config_section 1 (
      true ∷ false ∷ false ∷ false ∷ false ∷ false ∷ false ∷ false ∷ false ∷ false ∷ false ∷ false
      ∷ [])

  unfoldable pub section_2 : List IniLine
  unfolding config_section
  section_2 = config_section 2 (
      false ∷ true ∷ false ∷ false ∷ false ∷ false ∷ false ∷ false ∷ false ∷ false ∷ false ∷ false
      ∷ [])

  unfoldable pub section_3 : List IniLine
  unfolding config_section
  section_3 = config_section 3 (
      false ∷ false ∷ true ∷ false ∷ false ∷ false ∷ false ∷ false ∷ false ∷ false ∷ false ∷ false
      ∷ [])

  unfoldable pub section_4 : List IniLine
  unfolding config_section
  section_4 = config_section 4 (
      false ∷ false ∷ false ∷ true ∷ false ∷ false ∷ false ∷ false ∷ false ∷ false ∷ false ∷ false
      ∷ [])

  unfoldable pub section_5 : List IniLine
  unfolding config_section
  section_5 = config_section 5 (
      false ∷ false ∷ false ∷ false ∷ true ∷ false ∷ false ∷ false ∷ false ∷ false ∷ false ∷ false
      ∷ [])

  unfoldable pub section_6 : List IniLine
  unfolding config_section
  section_6 = config_section 6 (
      false ∷ false ∷ false ∷ false ∷ false ∷ true ∷ false ∷ false ∷ false ∷ false ∷ false ∷ false
      ∷ [])

  unfoldable pub section_7 : List IniLine
  unfolding config_section
  section_7 = config_section 7 (
      false ∷ false ∷ false ∷ false ∷ false ∷ false ∷ true ∷ false ∷ false ∷ false ∷ false ∷ false
      ∷ [])

  unfoldable pub section_8 : List IniLine
  unfolding config_section
  section_8 = config_section 8 (
      false ∷ false ∷ false ∷ false ∷ false ∷ false ∷ false ∷ true ∷ false ∷ false ∷ false ∷ false
      ∷ [])

  unfoldable pub section_9 : List IniLine
  unfolding config_section
  section_9 = config_section 9 (
      false ∷ false ∷ false ∷ false ∷ false ∷ false ∷ false ∷ false ∷ true ∷ false ∷ false ∷ false
      ∷ [])

  unfoldable pub section_10 : List IniLine
  unfolding config_section
  section_10 = config_section 10 (
      false ∷ false ∷ false ∷ false ∷ false ∷ false ∷ false ∷ false ∷ false ∷ true ∷ false ∷ false
      ∷ [])

  unfoldable pub section_11 : List IniLine
  unfolding config_section
  section_11 = config_section 11 (
      false ∷ false ∷ false ∷ false ∷ false ∷ false ∷ false ∷ false ∷ false ∷ false ∷ true ∷ false
      ∷ [])

  unfoldable pub section_12 : List IniLine
  unfolding config_section
  section_12 = config_section 12 (
      false ∷ false ∷ false ∷ false ∷ false ∷ false ∷ false ∷ false ∷ false ∷ false ∷ false ∷ true
      ∷ [])

  -- What `writeIniFile` writes.
  unfoldable pub ini_lines : List IniLine
  unfolding general section_0 section_1 section_2 section_3 section_4 section_5 section_6 section_7
      section_8 section_9 section_10 section_11 section_12
  ini_lines =
      general
      ++ (section_0
          ++ (section_1
              ++ (section_2
                  ++ (section_3
                      ++ (section_4
                          ++ (section_5
                              ++ (section_6
                                  ++ (section_7
                                      ++ (section_8
                                          ++ (section_9
                                              ++ (section_10
                                                  ++ (section_11 ++ section_12))))))))))))

  unfoldable pub ini_file : Text
  unfolding ini_lines
  ini_file = ini_text ini_lines
