-- ===== src/ProcessResults/Ids.antt =====
-- code3/process_results.py, from the sorting of the tables to the numbers of the configurations.
use Prim.Native.String.{String}
use text.Mathlib.Text.{◌==◌ as str_eq}
use brb_partially_connected.Base.{
  ℕ, suc, List, [], ◌∷◌, ◌++◌, Option, none, some, if◌then◌else◌, ltbℤ, take, drop,
}
use brb_partially_connected.ProcessResults.Defs.{Entry, Table}

-- `sort(key=lambda x: x[1])`: equal values keep their order.
abbrev pub insert_entry : Entry → Table → Table
insert_entry (c, v) [] = (c, v) ∷ []
insert_entry (c, v) ((c', v') ∷ table) =
    let rest = insert_entry (c, v) table in
    if ltbℤ v' v then (c', v') ∷ rest else (c, v) ∷ (c', v') ∷ table

abbrev pub sort : Table → Table
sort [] = []
sort (e ∷ table) = insert_entry e (sort table)

-- `dic_config_to_id` and `cid`.
pub record Ids : Type 0 where
  pub dic_config_to_id : List (String × ℕ)
  pub cid : ℕ

abbrev pub find : String → List (String × ℕ) → Option ℕ
find c [] = none
find c ((c', i) ∷ dic) = if str_eq c' c then some i else find c dic

-- A configuration that has no number gets the next one.
unfoldable pub number : String → Ids → Ids
number c s = elim (find c s.dic_config_to_id) [
  | none ↦ record { dic_config_to_id = s.dic_config_to_id ++ (c, s.cid) ∷ []; cid = suc s.cid }
  | some i ↦ s
]

-- `split` stands for `rstrip('\n').split('\t')`, `join` for `"\t".join`.
module _ (split : String → List String) (join : List String → String) where
  -- `c[9:21]`.
  abbrev pub only_options : String → String
  only_options line = join (take 12 (drop 9 (split line)))

  unfoldable pub number_table : Table → Ids → Ids
  unfolding number
  number_table [] s = s
  number_table ((line, v) ∷ table) s = number_table table (number (only_options line) s)

  -- The loop over the settings, in the order of the dictionary.
  unfoldable pub number_settings : (keys : List String) (msgs lat net : String → Table) → Ids → Ids
  unfolding number_table
  number_settings [] msgs lat net s = s
  number_settings (k ∷ keys) msgs lat net s =
      number_settings keys msgs lat net
        (number_table (sort (net k)) (number_table (sort (lat k)) (number_table (sort (msgs k)) s)))

  unfoldable pub config_ids : (keys : List String) (msgs lat net : String → Table) → Ids
  unfolding number_settings
  config_ids keys msgs lat net =
      number_settings keys msgs lat net (record { dic_config_to_id = []; cid = 0 })
