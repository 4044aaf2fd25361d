-- ===== src/ProcessMbd/Ready.antt =====
-- code3/process_results_MBD_7_11.py: what reading a configuration and recording a point do to the tables.
use Prim.Native.String.{String}
use text.Mathlib.TextPositions.{eq_refl}
use brb_partially_connected.Base.{
  ◌≡◌, inl, inr, refl, sym, ◌∙◌, List, [], ◌∷◌, ◌++◌, Option, none, some, false, not, ◌&&◌, ◌||◌,
  Bool-cases, Result, ok, replicate, length-append, All, ℤ, arith,
}
use brb_partially_connected.ProcessMbd.Defs.{
  Point, Points, State, update, assign, append_point, same_fields, open_key, open_options,
  read_options, read_base, is_failed, record_point,
}
use brb_partially_connected.ProcessMbd.Tables.{
  IsMeasured, Aligned, SameRows-update, SamePoints-update, SameRows-cases, SamePoints-cases,
}

Option-distinct {ℓ} : {A : Type ℓ} {a : A} → none ≡ some a → ⊥
Option-distinct e = cc

row_found :
    {row : Points} {points : List Point} (x : Points) {o : Option Points} {c : String}
    → o ≡ some x
    → o ≡ some row
    → row c ≡ some points
    → x c ≡ some points
row_found x ex found here = cc

All-append_one :
    (ys : List Point) (p : Point) → All IsMeasured ys → IsMeasured p → All IsMeasured (ys ++ p ∷ [])
All-append_one [] p all one = (one, tt)
All-append_one (y ∷ ys) p (first, all) one = (first, All-append_one ys p all one)

-- The row and the list that the script appends to are there.
abbrev OpenedAt : (key cur_options : String) → State → Type 0
OpenedAt key cur_options s =
    (row : Points) × (points : List Point) × (s.top_msgs key ≡ some row)
    × (row cur_options ≡ some points)

abbrev pub Ready : State → Type 0
Ready s = Aligned s × OpenedAt s.key s.cur_options s

-- A call that returns a ready state.
abbrev pub Readies : Result State → Type 0
Readies result = (s : State) × (result ≡ ok s) × Ready s

OpenedAt-current :
    (key cur_options : String) (s : State)
    → s.key ≡ key
    → s.cur_options ≡ cur_options
    → OpenedAt key cur_options s
    → OpenedAt s.key s.cur_options s
OpenedAt-current key cur_options s e e' opened = rw (e, e') opened

open_key-Aligned :
    (key : String) (s : State)
    → Aligned s
    → Aligned (open_key key s)
      × (row : Points) × ((open_key key s).top_msgs key ≡ some row)
      × ((open_key key s).key ≡ s.key)
      × ((open_key key s).cur_options ≡ s.cur_options)
unfolding open_key
open_key-Aligned key s aligned =
    elim (SameRows-cases (s.top_msgs key) (s.top_lat key) (s.top_net key) (aligned key)) [
      | inl e ↦
          rw (open_key, e)
            (
              SameRows-update s.top_msgs s.top_lat s.top_net key (λ o. none) (λ o. none) (λ o. none)
                  aligned (λ o. tt),
              λ o. none,
              rw (eq_refl key) refl,
              refl,
              refl,
            )
      | inr (x, y, z, e, _, _, _) ↦ rw (open_key, e) (aligned, x, e, refl, refl)
    ]

open_options-Aligned :
    (key cur_options : String) (s : State)
    → Aligned s
    → (row : Points) → s.top_msgs key ≡ some row
    → (s' : State) × (open_options key cur_options s ≡ ok s')
      × Aligned s'
      × OpenedAt key cur_options s'
      × (s'.key ≡ s.key)
      × (s'.cur_options ≡ s.cur_options)
unfolding open_options
open_options-Aligned key cur s aligned row found =
    elim (SameRows-cases (s.top_msgs key) (s.top_lat key) (s.top_net key) (aligned key)) [
      | inl e ↦ absurd (Option-distinct (sym e ∙ found))
      | inr (x, y, z, ex, ey, ez, same) ↦
          elim (SamePoints-cases (x cur) (y cur) (z cur) (same cur)) [
            | inl e ↦
                let msgs = update s.top_msgs key (update x cur []) in
                let lat = update s.top_lat key (update y cur []) in
                let net = update s.top_net key (update z cur []) in
                (
                  record s { top_msgs = msgs; top_lat = lat; top_net = net },
                  rw (ex, e, assign, ex, ey, ez) refl,
                  SameRows-update s.top_msgs s.top_lat s.top_net key _ _ _ aligned
                      (SamePoints-update x y z cur [] [] [] same (refl, refl, tt)),
                  (update x cur [], [], rw (eq_refl key) refl, rw (eq_refl cur) refl),
                  refl,
                  refl,
                )
            | inr (xs, ys, zs, exs, _, _, _) ↦
                (s, rw (ex, exs) refl, aligned, (x, xs, ex, exs), refl, refl)
          ]
    ]

pub read_options-Readies :
    (key line : String) (only_options : List String) (s : State)
    → Aligned s
    → Readies (read_options key line only_options s)
unfolding read_options
read_options-Readies key line only_options s aligned =
    let s' : State = record s {
      key = key;
      cur_options = line;
      is_base = same_fields only_options (replicate 12 "False");
      is_mbd1 = same_fields only_options ("True" ∷ replicate 11 "False");
    } in
    let (aligned1, row, found, key1, cur1) = open_key-Aligned key s' aligned in
    let (s2, e2, aligned2, opened, key2, cur2) =
      open_options-Aligned key line (open_key key s') aligned1 row found in
    (s2, e2, (aligned2, OpenedAt-current key line s2 (key2 ∙ key1) (cur2 ∙ cur1) opened))

pub record_point-Readies : (msgs : ℤ) (s : State) → Ready s → Readies (record_point msgs s)
unfolding record_point
record_point-Readies msgs s (aligned, (row, points, found, here)) =
    elim (Bool-cases (not (is_failed s.lat) && not s.base_failed)) [
      | inr e ↦ (s, rw e refl, (aligned, (row, points, found, here)))
      | inl e ↦
          elim (SameRows-cases (s.top_msgs s.key) (s.top_lat s.key) (s.top_net s.key)
            (aligned s.key)) [
              | inl e' ↦ absurd (Option-distinct (sym e' ∙ found))
              | inr (x, y, z, ex, ey, ez, same) ↦
                  elim (SamePoints-cases (x s.cur_options) (y s.cur_options) (z s.cur_options)
                    (same s.cur_options)) [
                      | inl e' ↦ absurd (Option-distinct (sym e' ∙ row_found x ex found here))
                      | inr (xs, ys, zs, exs, eys, ezs, (n1, n2, all)) ↦
                          let measured : is_failed s.lat ≡ false = ground (arith, e) in
                          let row_msgs = update x s.cur_options (xs ++ (s.base_msgs, msgs) ∷ []) in
                          let row_lat = update y s.cur_options (ys ++ (s.base_lat, s.lat) ∷ []) in
                          let row_net = update z s.cur_options (zs ++ (s.base_net, s.net) ∷ []) in
                          (
                            record s {
                              top_msgs = update s.top_msgs s.key row_msgs;
                              top_lat = update s.top_lat s.key row_lat;
                              top_net = update s.top_net s.key row_net;
                            },
                            rw (e, append_point, ex, exs, ey, eys, ez, ezs) refl,
                            (
                              SameRows-update s.top_msgs s.top_lat s.top_net s.key _ _ _ aligned (
                                  SamePoints-update x y z s.cur_options _ _ _ same (
                                    rw
                                        (
                                          length-append xs ((s.base_msgs, msgs) ∷ []),
                                          length-append ys ((s.base_lat, s.lat) ∷ []),
                                        )
                                        (omega (arith, n1)),
                                    rw
                                        (
                                          length-append xs ((s.base_msgs, msgs) ∷ []),
                                          length-append zs ((s.base_net, s.net) ∷ []),
                                        )
                                        (omega (arith, n2)),
                                    All-append_one ys (s.base_lat, s.lat) all measured,
                                  )),
                              (
                                row_msgs,
                                xs ++ (s.base_msgs, msgs) ∷ [],
                                rw (eq_refl s.key) refl,
                                rw (eq_refl s.cur_options) refl,
                              ),
                            ),
                          )
                    ]
            ]
    ]

pub read_base-Ready : (msgs : ℤ) (s : State) → Ready s → Ready (read_base msgs s)
unfolding read_base
read_base-Ready msgs s ready = elim (Bool-cases (s.is_base || s.is_mbd1)) [
  | inl e ↦ rw e ready
  | inr e ↦ rw e ready
]
