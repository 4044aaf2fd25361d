-- ===== src/Simulation/Links.antt =====
-- The links of the topology file, read back.
use native.Mathlib.Decide.{ℕ_discrete}
use brb_partially_connected.Base.{
  ℕ, suc, ◌+◌, ◌≤◌, ◌<◌, ◌≡◌, refl, ap, ◌∙◌, ◌&&◌, ◌||◌, sym, inl, inr, List, [], ◌∷◌, ◌++◌, ◌==◌,
  ltb, leb, if◌then◌else◌, for_range, for_range_inv, for_range-map, Bool-cases, arith,
}
use brb_partially_connected.Nx.{GraphApi}
use brb_partially_connected.Simulation.Texts.{lit, num, Text}
use brb_partially_connected.Simulation.Ned.{link_line, print_omnet_links}

-- The pairs of nodes that the lines name.
abbrev pub read_links : Text → List (ℕ × ℕ)
read_links (lit a ∷ num i ∷ lit b ∷ num j ∷ lit c ∷ text) = (i, j) ∷ read_links text
read_links _ = []

abbrev pub times : (a b : ℕ) → List (ℕ × ℕ) → ℕ
times a b [] = 0
times a b ((i, j) ∷ links) = (if (i == a) && (j == b) then 1 else 0) + times a b links

abbrev lines : List (ℕ × ℕ) → Text
lines [] = []
lines ((i, j) ∷ links) = link_line i j ++ lines links

read_links-lines : (links : List (ℕ × ℕ)) → read_links (lines links) ≡ links
read_links-lines [] = refl
read_links-lines ((i, j) ∷ links) = ap (λ (ls : List (ℕ × ℕ)). (i, j) ∷ ls) (read_links-lines links)

lines-concat :
    (links : List (ℕ × ℕ)) (i j : ℕ) → lines (links ++ (i, j) ∷ []) ≡ lines links ++ link_line i j
lines-concat [] i j = refl
lines-concat ((a, b) ∷ links) i j = ap (λ (t : Text). link_line a b ++ t) (lines-concat links i j)

times-concat :
    (a b : ℕ) (links : List (ℕ × ℕ)) (i j : ℕ)
    → times a b (links ++ (i, j) ∷ []) ≡ times a b links + (if (i == a) && (j == b) then 1 else 0)
times-concat a b [] i j = omega arith
times-concat a b ((c, d) ∷ links) i j = omega (arith, times-concat a b links i j)

module _ (nx : GraphApi) where
  open nx use {Graph, has_edge}

  module _ (g : Graph) (N : ℕ) where
    abbrev add_link : ℕ → ℕ → List (ℕ × ℕ) → List (ℕ × ℕ)
    add_link i j links = if has_edge g i j then links ++ (i, j) ∷ [] else links

    abbrev all_links : List (ℕ × ℕ)
    all_links = for_range 0 N (λ i. for_range i N (add_link i)) []

    lines-add_link :
        (i j : ℕ) (links : List (ℕ × ℕ))
        → lines (add_link i j links)
          ≡ (if has_edge g i j then lines links ++ link_line i j else lines links)
    lines-add_link i j links = elim (Bool-cases (has_edge g i j)) [
      | inl e ↦ rw e (lines-concat links i j)
      | inr e ↦ rw e refl
    ]

    lines-all_links : lines all_links ≡ print_omnet_links nx g N
    unfolding print_omnet_links
    lines-all_links =
        for_range-map lines (λ i. for_range i N (add_link i))
          (λ i. for_range i N (λ j s. if has_edge g i j then s ++ link_line i j else s))
          (λ i links.
            for_range-map lines (add_link i)
              (λ j s. if has_edge g i j then s ++ link_line i j else s) (lines-add_link i) i N
              links)
          0 N []

    -- How often the first rounds of both loops have named the pair.
    abbrev named : (a b i j : ℕ) → ℕ
    named a b i j =
        if (ltb a i && (leb a b && ltb b N) || (a == i) && (leb a b && ltb b j)) && has_edge g a b
        then 1
        else 0

    times-add_link :
        (a b i j : ℕ) (links : List (ℕ × ℕ))
        → i ≤ j
        → j < N
        → times a b links ≡ named a b i j
        → times a b (add_link i j links) ≡ named a b i (suc j)
    times-add_link a b i j links le lt h =
        let longer : times a b (add_link i j links)
            ≡ times a b links + (if (i == a) && ((j == b) && has_edge g i j) then 1 else 0) =
          elim (Bool-cases (has_edge g i j)) [
            | inl e ↦ rw e (ground (arith, times-concat a b links i j))
            | inr e ↦ rw e (ground arith)
          ] in
        elim (ℕ_discrete i a) [
          | yes ei ↦ elim (ℕ_discrete j b) [
            | yes ej ↦ longer ∙ rw (h, ei, ej) (ground (arith, le, lt, ei, ej))
            | no nj ↦ longer ∙ rw h (ground (arith, le, lt, ei, nj))
          ]
          | no ni ↦ longer ∙ rw h (ground (arith, le, lt, ni))
        ]

    -- Each edge among the first nodes is named once, from its smaller end, and nothing else is.
    pub print_omnet_links-times :
        (a b : ℕ)
        → times a b (read_links (print_omnet_links nx g N))
          ≡ (if (leb a b && ltb b N) && has_edge g a b then 1 else 0)
    print_omnet_links-times a b =
        let counted : times a b all_links ≡ named a b N N =
          for_range_inv (λ i links. times a b links ≡ named a b i i)
            (λ i. for_range i N (add_link i)) 0 N [] (omega arith)
            (λ i links lo hi h.
              for_range_inv (λ j links. times a b links ≡ named a b i j) (add_link i) i N links
                (omega arith) (λ j links lo hi h. times-add_link a b i j links lo hi h) h
              ∙ ground arith)
            (ground arith) in
        ap (λ (t : Text). times a b (read_links t)) (sym lines-all_links)
        ∙ ap (times a b) (read_links-lines all_links)
        ∙ counted
        ∙ ground arith
