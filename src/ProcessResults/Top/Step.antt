-- ===== src/ProcessResults/Top/Step.antt =====
-- What one line means for the tables, in the loop of code3/process_results.py.
use Prim.Native.String.{String}
use text.Mathlib.Text.{◌==◌ as str_eq}
use text.Mathlib.TextEquality.{eq_iff}
use brb_partially_connected.Base.{
  ℕ, ◌≡◌, refl, inl, inr, Bool, true, false, [], Option, some, none, ℤ, ok, arith, Result-cases,
  Bool-cases, ap, ◌↔◌,
}
use brb_partially_connected.ProcessResults.Defs.{
  Entry, Table, ResultLine, options, num_messages, latency, net_consumption, other, Measure, State,
  update, update_top, enter, read_options, process_line,
}

-- The three measures.
pub data Kind : Type 0 where
  of_msgs of_lat of_net : Kind

abbrev pub measure : Kind → State → Measure
measure of_msgs s = s.msgs
measure of_lat s = s.lat
measure of_net s = s.net

-- The value of the measure that a line reports.
abbrev pub value : Kind → ResultLine → Option ℤ
value kind (options k l) = none
value kind (num_messages v) = elim kind [ of_msgs ↦ some v | _ ↦ none ]
value kind (latency v) = elim kind [ of_lat ↦ some v | _ ↦ none ]
value kind (net_consumption v) = elim kind [ of_net ↦ some v | _ ↦ none ]
value kind other = none

abbrev pub rows : Option Table → Table
rows none = []
rows (some table) = table

abbrev pub table_at : Kind → State → String → Table
table_at kind s key = rows ((measure kind s).top key)

-- A setting has no table of any measure, or one of each.
abbrev pub Synced : State → Type 0
Synced s = (key : String) → s.msgs.top key ≡ none → (s.lat.top key ≡ none) × (s.net.top key ≡ none)

enter_lem :
    (max_tops : ℕ) (key line : String) (v : ℤ) (new : Option ℤ) (m m' : Measure)
    → enter max_tops key line v new m ≡ ok m'
    → (table : Table) × (table' : Table) × (m.top key ≡ some table)
      × (update_top max_tops (line, v) table ≡ ok table')
      × (m'.top ≡ update m.top key table')
unfolding enter
enter_lem max_tops key line v new m m' e = ground arith

-- The table is updated, or stays as it is.
abbrev pub Enters : Bool → ℕ → Entry → Table → Table → Type 0
Enters true max_tops x table table' = update_top max_tops x table ≡ ok table'
Enters false max_tops x table table' = table' ≡ table

-- What a line means for the table of a measure and a setting: an entry under the current options, if
-- it reports the measure while the setting is the current one.
abbrev pub StepFor : ℕ → Kind → String → Option ℤ → State → State → Type 0
StepFor max_tops kind key none s s' = table_at kind s' key ≡ table_at kind s key
StepFor max_tops kind key (some v) s s' =
    Enters (str_eq s.key key) max_tops (s.cur_options, v) (table_at kind s key)
      (table_at kind s' key)

read_options-StepFor :
    (max_tops : ℕ) (kind : Kind) (key k line : String) (s : State)
    → Synced s
    → table_at kind (read_options k line s) key ≡ table_at kind s key
unfolding read_options update
read_options-StepFor max_tops of_msgs key k line s sync = ground (arith, eq_iff k key, sync k)
read_options-StepFor max_tops of_lat key k line s sync = ground (arith, eq_iff k key, sync k)
read_options-StepFor max_tops of_net key k line s sync = ground (arith, eq_iff k key, sync k)

-- A measure is entered for the current setting, and the tables of the other settings stay.
enter-Enters :
    (max_tops : ℕ) (key cur line : String) (v : ℤ) (new : Option ℤ) (m m' : Measure)
    → enter max_tops cur line v new m ≡ ok m'
    → Enters (str_eq cur key) max_tops (line, v) (rows (m.top key)) (rows (m'.top key))
unfolding update
enter-Enters max_tops key cur line v new m m' e =
    let (t, t', here, gives, top) = enter_lem max_tops cur line v new m m' e in
    elim (Bool-cases (str_eq cur key)) [
      | inl same ↦
          let eq : cur ≡ key = (eq_iff cur key).0 same in
          let here' : m.top key ≡ some t = rw eq at here in rw (same, top) (rw (same, here') gives)
      | inr other_key ↦ rw (other_key, top) (rw other_key refl)
    ]

enter-some :
    (max_tops : ℕ) (cur line key : String) (v : ℤ) (new : Option ℤ) (m m' : Measure)
    → enter max_tops cur line v new m ≡ ok m'
    → (m'.top key ≡ none) ↔ (m.top key ≡ none)
unfolding update
enter-some max_tops cur line key v new m m' e =
    let (t, t', here, gives, top) = enter_lem max_tops cur line v new m m' e in
    ground (arith, eq_iff cur key, ap (λ (f : String → Option Table). f key) top)

-- The setting and the options that a line leaves.
abbrev pub key_after : ResultLine → String → String
key_after (options k l) key = k
key_after _ key = key

abbrev pub options_after : ResultLine → String → String
options_after (options k l) line = l
options_after _ line = line

-- One line.
pub record Stepped (max_tops : ℕ) (kind : Kind) (key : String) (line : ResultLine) (s s' : State)
    : Type 0 where
  pub table : StepFor max_tops kind key (value kind line) s s'
  pub sync : Synced s'
  pub key_is : s'.key ≡ key_after line s.key
  pub options_is : s'.cur_options ≡ options_after line s.cur_options

read_options-Synced : (k line : String) (s : State) → Synced s → Synced (read_options k line s)
unfolding read_options update
read_options-Synced k line s sync j = ground (arith, eq_iff k j, sync k, sync j)

module _ (max_tops : ℕ) (key : String) (s : State) (sync : Synced s) where
  read_options-Stepped :
      (kind : Kind) (k l : String) → Stepped max_tops kind key (options k l) s (read_options k l s)
  unfolding read_options
  read_options-Stepped kind k l = record {
    table = read_options-StepFor max_tops kind key k l s sync;
    sync = read_options-Synced k l s sync;
    key_is = ground arith;
    options_is = ground arith;
  }

  module _ (v : ℤ) (new : Option ℤ) (m : Measure) where
    abbrev Entered : Measure → Type 0
    Entered old = enter max_tops s.key s.cur_options v new old ≡ ok m

    -- The measure has a table for the same settings as before.
    same_keys : (old : Measure) (j : String) → Entered old → (m.top j ≡ none) ↔ (old.top j ≡ none)
    same_keys old j e = enter-some max_tops s.key s.cur_options j v new old m e

    msgs-StepFor :
        (kind : Kind)
        → Entered s.msgs
        → StepFor max_tops kind key (value kind (num_messages v)) s (record s { msgs = m })
    msgs-StepFor of_msgs e = enter-Enters max_tops key s.key s.cur_options v new s.msgs m e
    msgs-StepFor of_lat e = refl
    msgs-StepFor of_net e = refl

    lat-StepFor :
        (kind : Kind)
        → Entered s.lat
        → StepFor max_tops kind key
            (value kind (latency v))
            s
            (record s { lat = m; last_lat = some v })
    lat-StepFor of_msgs e = refl
    lat-StepFor of_lat e = enter-Enters max_tops key s.key s.cur_options v new s.lat m e
    lat-StepFor of_net e = refl

    net-StepFor :
        (kind : Kind)
        → Entered s.net
        → StepFor max_tops kind key (value kind (net_consumption v)) s (record s { net = m })
    net-StepFor of_msgs e = refl
    net-StepFor of_lat e = refl
    net-StepFor of_net e = enter-Enters max_tops key s.key s.cur_options v new s.net m e

    msgs-Stepped :
        (kind : Kind)
        → Entered s.msgs
        → Stepped max_tops kind key (num_messages v) s (record s { msgs = m })
    msgs-Stepped kind e = record {
      table = msgs-StepFor kind e;
      sync = λ j none_left. sync j ((same_keys s.msgs j e).0 none_left);
      key_is = refl;
      options_is = refl;
    }

    lat-Stepped :
        (kind : Kind)
        → Entered s.lat
        → Stepped max_tops kind key (latency v) s (record s { lat = m; last_lat = some v })
    lat-Stepped kind e = record {
      table = lat-StepFor kind e;
      sync = λ j none_left.
          let (no_lat, no_net) = sync j none_left in ((same_keys s.lat j e).1 no_lat, no_net);
      key_is = refl;
      options_is = refl;
    }

    net-Stepped :
        (kind : Kind)
        → Entered s.net
        → Stepped max_tops kind key (net_consumption v) s (record s { net = m })
    net-Stepped kind e = record {
      table = net-StepFor kind e;
      sync = λ j none_left.
          let (no_lat, no_net) = sync j none_left in (no_lat, (same_keys s.net j e).1 no_net);
      key_is = refl;
      options_is = refl;
    }

  pub process_line-Stepped :
      (kind : Kind) (line : ResultLine) (s' : State)
      → process_line max_tops line s ≡ ok s'
      → Stepped max_tops kind key line s s'
  unfolding process_line
  process_line-Stepped kind (options k l) s' e =
      let same : read_options k l s ≡ s' = cc in rw (← same) (read_options-Stepped kind k l)
  process_line-Stepped kind (num_messages v) s' e =
      elim (Result-cases (enter max_tops s.key s.cur_options v (some v) s.msgs)) [
        | inl (m, entered) ↦
            let same : record s { msgs = m } ≡ s' = ground arith in
            rw (← same) (msgs-Stepped v (some v) m kind entered)
        | inr (x, fails) ↦ absurd (ground arith)
      ]
  process_line-Stepped kind (latency v) s' e =
      elim (Result-cases (enter max_tops s.key s.cur_options v (some v) s.lat)) [
        | inl (m, entered) ↦
            let same : record s { lat = m; last_lat = some v } ≡ s' = ground arith in
            rw (← same) (lat-Stepped v (some v) m kind entered)
        | inr (x, fails) ↦ absurd (ground arith)
      ]
  process_line-Stepped kind (net_consumption v) s' e =
      elim (Result-cases (enter max_tops s.key s.cur_options v s.last_lat s.net)) [
        | inl (m, entered) ↦
            let same : record s { net = m } ≡ s' = ground arith in
            rw (← same) (net-Stepped v s.last_lat m kind entered)
        | inr (x, fails) ↦ absurd (ground arith)
      ]
  process_line-Stepped kind other s' e =
      let same : s ≡ s' = cc in
      rw (← same) (record { table = refl; sync = sync; key_is = refl; options_is = refl })
