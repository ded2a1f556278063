-- ===== src/Ui/Curses/Pairs.antt =====
-- The pairs of colours: what is on the screen stays in its colours.
use gopherus.Base.{
  ℕ, suc, ◌≡◌, refl, ◌⊎◌, ◌≤◌, ◌<◌, List, [], ◌∷◌, ◌==◌, ==_refl, ==_ne, ==→eq, sym, subst,
  if◌then◌else◌, Option, none, some, Bool-cases, inl, inr, arith,
}
use gopherus.Ui.Curses.{
  Curses, Style, Pair, Palette, initial, pair_colors, style, create, getorcreatecolor,
}

-- The colours of a pair, as the last call of init_pair for it set them.
pub pair_of : ℕ → List Pair → Option (ℕ × ℕ)
pair_of id [] = none
pair_of id (p ∷ rest) = if id == p.number then some p.colors else pair_of id rest

-- The palette after some colours are asked for, one after the other.
unfoldable pub asked : Curses → List ℕ → Palette → Palette
unfolding getorcreatecolor
asked c [] s = s
asked c (col ∷ cols) s = asked c cols (getorcreatecolor c col s).1

pub record HasPair (s : Palette) (id : ℕ) (colors : ℕ × ℕ) : Type 0 where
  pub made : id ≤ s.lastcolid
  pub colored : pair_of id s.pairs ≡ some colors

module _ (c : Curses) (pair_number : ℕ → ℕ) (limit : ℕ) where
  Kept : Palette → ℕ → ℕ → Type 0
  Kept s attr col = (attr ≡ 0) ⊎ HasPair s (pair_number attr) (pair_colors c col)

  -- Each attribute in the palette is of a pair with the colours of its place.
  IsFilled : Palette → Type 0
  unfolding Kept
  IsFilled s = (col : ℕ) → Kept s (s.dospalette col) col

  create-HasPair :
      (col : ℕ) (s : Palette) (id : ℕ) (colors : ℕ × ℕ)
      → HasPair s id colors
      → HasPair (create c col s) id colors
  unfolding create pair_of
  create-HasPair col s id colors h = record {
    made = omega (arith, h.made);
    colored = rw (==_ne id (suc s.lastcolid) (λ e. omega (arith, h.made, e))) h.colored;
  }

  create-new :
      (col : ℕ) (s : Palette) → HasPair (create c col s) (suc s.lastcolid) (pair_colors c col)
  unfolding create pair_of
  create-new col s = record { made = omega arith; colored = ground arith }

  get-HasPair :
      (col : ℕ) (s : Palette) (id : ℕ) (colors : ℕ × ℕ)
      → HasPair s id colors
      → HasPair (getorcreatecolor c col s).1 id colors
  unfolding getorcreatecolor
  get-HasPair col s id colors h = elim (Bool-cases (s.dospalette col == 0)) [
    | inl e ↦ rw e (create-HasPair col s id colors h)
    | inr e ↦ rw e h
  ]

  asked-HasPair :
      (cols : List ℕ) (s : Palette) (id : ℕ) (colors : ℕ × ℕ)
      → HasPair s id colors
      → HasPair (asked c cols s) id colors
  unfolding asked
  asked-HasPair [] s id colors h = h
  asked-HasPair (col ∷ cols) s id colors h =
      asked-HasPair cols _ id colors (get-HasPair col s id colors h)

  get-lastcolid : (col : ℕ) (s : Palette) → s.lastcolid ≤ (getorcreatecolor c col s).1.lastcolid
  unfolding getorcreatecolor create
  get-lastcolid col s = ground arith

  asked-lastcolid : (cols : List ℕ) (s : Palette) → s.lastcolid ≤ (asked c cols s).lastcolid
  unfolding asked
  asked-lastcolid [] s = omega arith
  asked-lastcolid (col ∷ cols) s =
      omega (arith, get-lastcolid col s, asked-lastcolid cols (getorcreatecolor c col s).1)

  module _ (law : (id : ℕ) (st : Style) → id ≤ limit → pair_number (c.attribute id st) ≡ id) where
    create-own :
        (col : ℕ) (s : Palette)
        → s.lastcolid < limit
        → pair_number ((create c col s).dospalette col) ≡ suc s.lastcolid
    unfolding create
    create-own col s h = rw (==_refl col) (law (suc s.lastcolid) (style col) (omega (arith, h)))

    create-Kept :
        (col : ℕ) (s : Palette)
        → s.lastcolid < limit
        → Kept (create c col s) ((create c col s).dospalette col) col
    unfolding Kept
    create-Kept col s h = inr (
        subst (λ n. HasPair (create c col s) n (pair_colors c col)) (sym (create-own col s h))
          (create-new col s))

    Kept-create : (col k attr : ℕ) (s : Palette) → Kept s attr k → Kept (create c col s) attr k
    unfolding Kept
    Kept-create col k attr s (inl e) = inl e
    Kept-create col k attr s (inr h) = inr (create-HasPair col s _ _ h)

    create-IsFilled :
        (col : ℕ) (s : Palette) → s.lastcolid < limit → IsFilled s → IsFilled (create c col s)
    unfolding IsFilled create
    create-IsFilled col s h filled k = elim (Bool-cases (k == col)) [
      | inl e ↦
          subst (λ x. Kept (create c col s) ((create c col s).dospalette x) x) (sym (==→eq k col e))
            (create-Kept col s h)
      | inr e ↦ rw e (Kept-create col k (s.dospalette k) s (filled k))
    ]

    get-IsFilled :
        (col : ℕ) (s : Palette)
        → (getorcreatecolor c col s).1.lastcolid ≤ limit
        → IsFilled s
        → IsFilled (getorcreatecolor c col s).1
    unfolding getorcreatecolor create
    get-IsFilled col s h filled = elim (Bool-cases (s.dospalette col == 0)) [
      | inl e ↦ rw e (create-IsFilled col s (omega (arith, rw e at h)) filled)
      | inr e ↦ rw e filled
    ]

    asked-IsFilled :
        (cols : List ℕ) (s : Palette)
        → (asked c cols s).lastcolid ≤ limit
        → IsFilled s
        → IsFilled (asked c cols s)
    unfolding asked
    asked-IsFilled [] s h filled = filled
    asked-IsFilled (col ∷ cols) s h filled =
        let t = (getorcreatecolor c col s).1 in
        asked-IsFilled cols t h
          (get-IsFilled col s (omega (arith, h, asked-lastcolid cols t)) filled)

    answered :
        (col : ℕ) (s : Palette)
        → (getorcreatecolor c col s).1.lastcolid ≤ limit
        → IsFilled s
        → HasPair
            (getorcreatecolor c col s).1
            (pair_number (getorcreatecolor c col s).0)
            (pair_colors c col)
    unfolding getorcreatecolor create IsFilled Kept
    answered col s h filled = elim (Bool-cases (s.dospalette col == 0)) [
      | inl e ↦
          let room : s.lastcolid < limit = omega (arith, rw e at h) in
          rw e (
            subst (λ n. HasPair (create c col s) n (pair_colors c col))
              (sym (create-own col s room)) (create-new col s))
      | inr e ↦ rw e (elim (filled col) [
        | inl zero_attr ↦ absurd (ground (arith, zero_attr, e))
        | inr has ↦ has
      ])
    ]

-- The colours of a text stay as they are: whatever colours are asked for before and after, the pair of
-- the attribute that getorcreatecolor gives for a colour has the two colours that it stands for, where
-- no more pairs are made up to then than the `limit` of curses, for each of which PAIR_NUMBER gives
-- back the number in an attribute of COLOR_PAIR.
pub getorcreatecolor-kept :
    (c : Curses) (pair_number : ℕ → ℕ) (limit : ℕ)
    → ((id : ℕ) (st : Style) → id ≤ limit → pair_number (c.attribute id st) ≡ id)
    → (before after : List ℕ) (col : ℕ)
    → (getorcreatecolor c col (asked c before initial)).1.lastcolid ≤ limit
    → pair_of
        (pair_number (getorcreatecolor c col (asked c before initial)).0)
        (asked c after (getorcreatecolor c col (asked c before initial)).1).pairs
      ≡ some (pair_colors c col)
unfolding IsFilled Kept initial
getorcreatecolor-kept c pair_number limit law before after col h =
    let s = asked c before initial in
    let room : s.lastcolid ≤ limit = omega (arith, h, get-lastcolid c pair_number limit col s) in
    let filled = asked-IsFilled c pair_number limit law before initial room (λ k. inl refl) in
    let has = answered c pair_number limit law col s h filled in
    (asked-HasPair c pair_number limit after (getorcreatecolor c col s).1 _ _ has).colored
