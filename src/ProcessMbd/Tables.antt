-- ===== src/ProcessMbd/Tables.antt =====
-- code3/process_results_MBD_7_11.py: the three tables have the same keys and as many points, so that
-- the indices of the printing loop, which go by the first table, are within the two others.
use Prim.Native.String.{String}
use text.Mathlib.Text.{◌==◌ as str_eq}
use brb_partially_connected.Base.{
  ◌≡◌, ◌⊎◌, inl, inr, refl, List, Option, none, some, false, Bool-cases, length, All,
}
use brb_partially_connected.ProcessMbd.Defs.{Point, Points, Table, State, update, is_failed}

-- The value of the point is no failed latency.
abbrev pub IsMeasured : Point → Type 0
IsMeasured (base, lat) = is_failed lat ≡ false

-- The points of one configuration: as many in each table, and no failed latency among them.
abbrev pub SamePoints : (msgs lat net : Option (List Point)) → Type 0
SamePoints none none none = Unit
SamePoints (some xs) (some ys) (some zs) =
    (length xs ≡ length ys) × (length xs ≡ length zs) × All IsMeasured ys
SamePoints _ _ _ = ⊥

pub SamePoints-cases :
    (a b c : Option (List Point))
    → SamePoints a b c
    → (a ≡ none)
      ⊎ ((xs ys zs : List Point) × (a ≡ some xs)
          × (b ≡ some ys)
          × (c ≡ some zs)
          × SamePoints (some xs) (some ys) (some zs))
SamePoints-cases none none none same = inl refl
SamePoints-cases none none (some z) same = elim same [ ]
SamePoints-cases none (some y) c same = elim same [ ]
SamePoints-cases (some x) none c same = elim same [ ]
SamePoints-cases (some x) (some y) none same = elim same [ ]
SamePoints-cases (some x) (some y) (some z) same = inr (x, y, z, refl, refl, refl, same)

-- The rows of one setting.
abbrev pub SameRows : (msgs lat net : Option Points) → Type 0
SameRows none none none = Unit
SameRows (some a) (some b) (some c) = (o : String) → SamePoints (a o) (b o) (c o)
SameRows _ _ _ = ⊥

abbrev pub Aligned : State → Type 0
Aligned s = (k : String) → SameRows (s.top_msgs k) (s.top_lat k) (s.top_net k)

pub SameRows-update :
    (msgs lat net : Table) (key : String) (a b c : Points)
    → ((k : String) → SameRows (msgs k) (lat k) (net k))
    → ((o : String) → SamePoints (a o) (b o) (c o))
    → (k : String) → SameRows (update msgs key a k) (update lat key b k) (update net key c k)
SameRows-update msgs lat net key a b c same rows k = elim (Bool-cases (str_eq key k)) [
  | inl e ↦ rw e rows
  | inr e ↦ rw e (same k)
]

pub SamePoints-update :
    (a b c : Points) (cur : String) (xs ys zs : List Point)
    → ((o : String) → SamePoints (a o) (b o) (c o))
    → SamePoints (some xs) (some ys) (some zs)
    → (o : String) → SamePoints (update a cur xs o) (update b cur ys o) (update c cur zs o)
SamePoints-update a b c cur xs ys zs same new o = elim (Bool-cases (str_eq cur o)) [
  | inl e ↦ rw e new
  | inr e ↦ rw e (same o)
]

-- Either the setting is in no table, or in all of them.
pub SameRows-cases :
    (a b c : Option Points)
    → SameRows a b c
    → (a ≡ none)
      ⊎ ((x y z : Points) × (a ≡ some x)
          × (b ≡ some y)
          × (c ≡ some z)
          × ((o : String) → SamePoints (x o) (y o) (z o)))
SameRows-cases none none none same = inl refl
SameRows-cases none none (some z) same = elim same [ ]
SameRows-cases none (some y) c same = elim same [ ]
SameRows-cases (some x) none c same = elim same [ ]
SameRows-cases (some x) (some y) none same = elim same [ ]
SameRows-cases (some x) (some y) (some z) same = inr (x, y, z, refl, refl, refl, same)
