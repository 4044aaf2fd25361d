-- ===== src/ProcessResults/Unique.antt =====
-- code3/process_results.py: each configuration of the tables has a number, and no two have the same.
use Prim.Native.String.{String}
use mathlib.Core.Path.{subst}
use brb_partially_connected.Base.{
  ℕ, ◌≡◌, ◌⊎◌, inl, inr, ⊎_elim, sym, ap, ◌∙◌, List, [], ◌∷◌, some, Among,
}
use brb_partially_connected.ProcessResults.Defs.{Entry, Table}
use brb_partially_connected.ProcessResults.Ids.{
  sort, Ids, find, only_options, number, number_table, number_settings, config_ids,
}
use brb_partially_connected.ProcessResults.Numbering.{
  Numbered, Numbers, IsNone, Among-sort, number-Numbers, Numbers-then, Numbers-fewer,
}

module _ (split : String → List String) (join : List String → String) where
  -- Some entry of the table has the configuration.
  abbrev pub InTable : Table → String → Type 0
  InTable table c = (e : Entry) × Among e table × (only_options split join e.0 ≡ c)

  number_table-Numbers :
      (table : Table) (s : Ids)
      → Numbered s
      → Numbers (InTable table) s (number_table split join table s)
  unfolding number_table
  number_table-Numbers [] s numbered = (numbered, λ c i e. e, λ c (e, m, _). absurd m)
  number_table-Numbers ((line, v) ∷ table) s numbered =
      let first = number-Numbers (only_options split join line) s numbered in
      let t = number (only_options split join line) s in
      let u = number_table split join table t in
      Numbers-fewer (λ c. (only_options split join line ≡ c) ⊎ InTable table c)
        (InTable ((line, v) ∷ table)) s u
        (λ c (e, m, same).
          ⊎_elim (λ here. inl (ap (λ (e : Entry). only_options split join e.0) here ∙ same))
            (λ later. inr (e, later, same)) m)
        (Numbers-then (λ c. only_options split join line ≡ c) (InTable table) s t u first
          (number_table-Numbers table t first.0))

  InTable-sort : (table : Table) (c : String) → InTable table c → InTable (sort table) c
  InTable-sort table c (e, m, same) = (e, Among-sort e table m, same)

  -- One of the three tables of a setting has the configuration.
  abbrev pub InSetting : (msgs lat net : String → Table) → String → String → Type 0
  InSetting msgs lat net k c = InTable (msgs k) c ⊎ (InTable (lat k) c ⊎ InTable (net k) c)

  number_settings-Numbers :
      (keys : List String) (msgs lat net : String → Table) (s : Ids)
      → Numbered s
      → Numbers
          (λ c. (k : String) × Among k keys × InSetting msgs lat net k c)
          s
          (number_settings split join keys msgs lat net s)
  unfolding number_settings
  number_settings-Numbers [] msgs lat net s numbered =
      (numbered, λ c i e. e, λ c (k, m, _). absurd m)
  number_settings-Numbers (k ∷ keys) msgs lat net s numbered =
      let s1 = number_table split join (sort (msgs k)) s in
      let s2 = number_table split join (sort (lat k)) s1 in
      let s3 = number_table split join (sort (net k)) s2 in
      let s4 = number_settings split join keys msgs lat net s3 in
      let h1 = number_table-Numbers (sort (msgs k)) s numbered in
      let h2 = number_table-Numbers (sort (lat k)) s1 h1.0 in
      let h3 = number_table-Numbers (sort (net k)) s2 h2.0 in
      let h4 = number_settings-Numbers keys msgs lat net s3 h3.0 in
      let M = InTable (sort (msgs k)) in
      let L = InTable (sort (lat k)) in
      let N = InTable (sort (net k)) in
      let Rest = λ (c : String). (k : String) × Among k keys × InSetting msgs lat net k c in
      let here = λ (c : String). InSetting msgs lat net k c in
      Numbers-fewer (λ c. M c ⊎ (L c ⊎ (N c ⊎ Rest c)))
        (λ c. (k' : String) × Among k' (k ∷ keys) × InSetting msgs lat net k' c) s s4
        (λ c (k', m, setting).
          ⊎_elim
            (λ same.
              ⊎_elim (λ h. inl (InTable-sort (msgs k) c h))
                (λ rest.
                  ⊎_elim (λ h. inr (inl (InTable-sort (lat k) c h)))
                    (λ h. inr (inr (inl (InTable-sort (net k) c h)))) rest)
                (subst (λ k. InSetting msgs lat net k c) (sym same) setting))
            (λ later. inr (inr (inr (k', later, setting)))) m)
        (Numbers-then M (λ c. L c ⊎ (N c ⊎ Rest c)) s s1 s4 h1
          (Numbers-then L (λ c. N c ⊎ Rest c) s1 s2 s4 h2 (Numbers-then N Rest s2 s3 s4 h3 h4)))

  module _ (keys : List String) (msgs lat net : String → Table) where
    abbrev pub dic : List (String × ℕ)
    dic = (config_ids split join keys msgs lat net).dic_config_to_id

    config_ids-Numbers :
        Numbers
          (λ c. (k : String) × Among k keys × InSetting msgs lat net k c)
          (record { dic_config_to_id = []; cid = 0 })
          (config_ids split join keys msgs lat net)
    unfolding config_ids
    config_ids-Numbers =
        number_settings-Numbers keys msgs lat net (record { dic_config_to_id = []; cid = 0 })
          (λ c i e. absurd (subst IsNone e tt), λ c c' i e e'. absurd (subst IsNone e tt))

    -- Each configuration of a table of one of the settings gets a number.
    pub config_ids_complete :
        (k c : String) → Among k keys → InSetting msgs lat net k c → (i : ℕ) × (find c dic ≡ some i)
    config_ids_complete k c m setting = config_ids-Numbers.2 c (k, m, setting)

    -- No two configurations have the same number.
    pub config_ids_unique :
        (c c' : String) (i : ℕ) → find c dic ≡ some i → find c' dic ≡ some i → c ≡ c'
    config_ids_unique = config_ids-Numbers.0.1
