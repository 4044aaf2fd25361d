-- ===== src/ProcessResults/Numbering.antt =====
-- code3/process_results.py: what giving a number to a configuration leaves.
use Prim.Native.String.{String}
use text.Mathlib.Text.{◌==◌ as str_eq}
use mathlib.Core.Path.{subst}
use text.Mathlib.TextEquality.{eq_iff}
use brb_partially_connected.Base.{
  ℕ, suc, ◌<◌, ◌≡◌, ◌⊎◌, inl, inr, ⊎_elim, refl, sym, ap, ◌∙◌, Bool-cases, List, [], ◌∷◌, ◌++◌,
  Option, none, some, Option-cases, if◌then◌else◌, ltbℤ, Among, arith,
}
use brb_partially_connected.ProcessResults.Defs.{Entry, Table}
use brb_partially_connected.ProcessResults.Ids.{insert_entry, sort, Ids, find, number}

Among-insert_entry :
    (e x : Entry) (table : Table) → (x ≡ e) ⊎ Among e table → Among e (insert_entry x table)
Among-insert_entry e (c, v) [] m = ⊎_elim inl inr m
Among-insert_entry e (c, v) ((c', v') ∷ table) m = elim (Bool-cases (ltbℤ v' v)) [
  | inl before ↦ rw before (
      ⊎_elim (λ here. inr (Among-insert_entry e (c, v) table (inl here)))
        (λ rest. ⊎_elim inl (λ later. inr (Among-insert_entry e (c, v) table (inr later))) rest) m)
  | inr after ↦ rw after m
]

pub Among-sort : (e : Entry) (table : Table) → Among e table → Among e (sort table)
Among-sort e [] m = m
Among-sort e (x ∷ table) m =
    Among-insert_entry e x (sort table) (⊎_elim inl (λ later. inr (Among-sort e table later)) m)

find-append :
    (x c : String) (i : ℕ) (dic : List (String × ℕ))
    → find x (dic ++ (c, i) ∷ [])
      ≡ elim (find x dic) [ none ↦ if str_eq c x then some i else none | some j ↦ some j ]
find-append x c i [] = refl
find-append x c i ((c', j) ∷ dic) = elim (Bool-cases (str_eq c' x)) [
  | inl e ↦ rw e refl
  | inr e ↦ rw e (find-append x c i dic)
]

-- Numbers are below the next one, and belong to one configuration each.
abbrev pub Numbered : Ids → Type 0
Numbered s =
    ((c : String) (i : ℕ) → find c s.dic_config_to_id ≡ some i → i < s.cid)
    × ((c c' : String) (i : ℕ)
        → find c s.dic_config_to_id ≡ some i
        → find c' s.dic_config_to_id ≡ some i
        → c ≡ c')

-- The numbers that were given stay.
abbrev pub Keeps : Ids → Ids → Type 0
Keeps s s' =
    (c : String) (i : ℕ) → find c s.dic_config_to_id ≡ some i → find c s'.dic_config_to_id ≡ some i

abbrev pub HasNumber : String → Ids → Type 0
HasNumber c s = (i : ℕ) × (find c s.dic_config_to_id ≡ some i)

-- What a step from one state of the numbering to another one leaves.
abbrev pub Numbers : (String → Type 0) → Ids → Ids → Type 0
Numbers P s s' = Numbered s' × Keeps s s' × ((c : String) → P c → HasNumber c s')

abbrev extended : String → Ids → Ids
extended c s = record { dic_config_to_id = s.dic_config_to_id ++ (c, s.cid) ∷ []; cid = suc s.cid }

number-known : (c : String) (s : Ids) (i : ℕ) → find c s.dic_config_to_id ≡ some i → number c s ≡ s
unfolding number
number-known c s i e = rw (number, e) refl

number-new : (c : String) (s : Ids) → find c s.dic_config_to_id ≡ none → number c s ≡ extended c s
unfolding number
number-new c s e = rw (number, e) refl

abbrev pub IsNone : Option ℕ → Type 0
IsNone none = Unit
IsNone (some i) = ⊥

index-injective : {i j : ℕ} → some i ≡ some j → i ≡ j
index-injective {i} e = ap (λ (o : Option ℕ). elim o [ none ↦ i | some a ↦ a ]) e

-- A number in the longer dictionary is an old one, or the new one.
find-extended :
    (c : String) (s : Ids) (x : String) (i : ℕ)
    → find x (s.dic_config_to_id ++ (c, s.cid) ∷ []) ≡ some i
    → (find x s.dic_config_to_id ≡ some i) ⊎ ((c ≡ x) × (i ≡ s.cid))
find-extended c s x i e = elim (Option-cases (find x s.dic_config_to_id)) [
  | inr (j, old) ↦
      let now : find x (s.dic_config_to_id ++ (c, s.cid) ∷ []) ≡ some j =
        find-append x c s.cid s.dic_config_to_id ∙ rw old refl in
      inl (old ∙ sym now ∙ e)
  | inl new ↦ elim (Bool-cases (str_eq c x)) [
    | inl same ↦
        let now : find x (s.dic_config_to_id ++ (c, s.cid) ∷ []) ≡ some s.cid =
          find-append x c s.cid s.dic_config_to_id ∙ rw (new, same) refl in
        inr ((eq_iff c x).0 same, index-injective (sym e ∙ now))
    | inr other ↦
        let now : find x (s.dic_config_to_id ++ (c, s.cid) ∷ []) ≡ none =
          find-append x c s.cid s.dic_config_to_id ∙ rw (new, other) refl in
        absurd (subst IsNone (sym now ∙ e) tt)
  ]
]

extended-Numbers :
    (c : String) (s : Ids)
    → find c s.dic_config_to_id ≡ none
    → Numbered s
    → Numbers (λ x. c ≡ x) s (extended c s)
extended-Numbers c s new (below, once) = (
  (
    λ x i e.
        ⊎_elim (λ old. omega (arith, below x i old)) (λ (_, last). omega (arith, last))
          (find-extended c s x i e),
    λ x y i ex ey.
        ⊎_elim
          (λ old.
            ⊎_elim (λ old'. once x y i old old')
              (λ (_, last). absurd (omega (arith, below x i old, last))) (find-extended c s y i ey))
          (λ (here, last).
            ⊎_elim (λ old'. absurd (omega (arith, below y i old', last)))
              (λ (here', _). sym here ∙ here') (find-extended c s y i ey))
          (find-extended c s x i ex),
  ),
  λ x i old. find-append x c s.cid s.dic_config_to_id ∙ rw old refl,
  λ x here.
      let own : find c (s.dic_config_to_id ++ (c, s.cid) ∷ []) ≡ some s.cid =
        find-append c c s.cid s.dic_config_to_id ∙ rw (new, (eq_iff c c).1 refl) refl in
      (s.cid, subst (λ y. find y (s.dic_config_to_id ++ (c, s.cid) ∷ []) ≡ some s.cid) here own),
)

pub number-Numbers : (c : String) (s : Ids) → Numbered s → Numbers (λ x. c ≡ x) s (number c s)
number-Numbers c s numbered = elim (Option-cases (find c s.dic_config_to_id)) [
  | inr (i, known) ↦
      subst (Numbers (λ x. c ≡ x) s) (sym (number-known c s i known))
        (numbered, λ x j e. e, λ x here. (i, rw (← here) known))
  | inl new ↦
      subst (Numbers (λ x. c ≡ x) s) (sym (number-new c s new)) (extended-Numbers c s new numbered)
]

pub Numbers-then :
    (P Q : String → Type 0) (s t u : Ids)
    → Numbers P s t
    → Numbers Q t u
    → Numbers (λ c. P c ⊎ Q c) s u
Numbers-then P Q s t u (_, keeps, has) (numbered, keeps', has') = (
  numbered,
  λ c i e. keeps' c i (keeps c i e),
  λ c. ⊎_elim (λ p. let (i, e) = has c p in (i, keeps' c i e)) (has' c),
)

pub Numbers-fewer :
    (P Q : String → Type 0) (s t : Ids) → ((c : String) → Q c → P c) → Numbers P s t → Numbers Q s t
Numbers-fewer P Q s t fewer (numbered, keeps, has) = (numbered, keeps, λ c q. has c (fewer c q))
