-- ===== src/Menu/Frame/Selected.antt =====
-- The selected line of a menu on the screen.
use gopherus.Base.{
  ℕ, zero, suc, ◌+◌, ◌-◌, ◌≤◌, ◌<◌, ◌≡◌, refl, Bool, true, Bytes, List, ◌++◌, ltb, Option, none,
  some, get_elem?, arith, Bool-cases, inl, inr, All, All-append, All-map, pos, lt→ltb, ◌==◌,
}
use gopherus.Config.Settings.{Config}
use gopherus.Menu.Item.{Entry, prefix}
use gopherus.Menu.Keys.{Cursor}
use gopherus.Menu.Frame.{
  prefixed, draw_entry, draw_line, draw_lines, draw_menu, description_attr, prefix_attr,
  is_selected,
}
use gopherus.Screen.{Stroke, Size, Shown, draw_urlbar, draw_statusbar}

-- On the row, all is in the colour of the selected line.
abbrev Marked : Config → ℕ → Stroke → Type 0
Marked cfg row s = s.y ≡ row → s.attr ≡ cfg.attr_menucurrent

-- All strokes of a line are on its row.
abbrev OnRow : ℕ → Stroke → Type 0
OnRow y s = s.y ≡ y

prefixed-All :
    (P : Stroke → Type 0) (name : Option Bytes) (attr : Option ℕ) (y : ℕ) (description : ℕ → Stroke)
    → ((text : Bytes) → P (record { text = text; attr = attr; x = 0; y = y; len = 4 }))
    → ((z : ℕ) → P (description z))
    → All P (prefixed name attr y description)
unfolding prefixed
prefixed-All P none attr y description a b = (b 0, tt)
prefixed-All P (some name) attr y description a b = (a name, (b 4, tt))

module _ (size : Size) (cfg : Config) where
  draw_entry-current :
      (row y : ℕ) (o : Option Entry) → All (Marked cfg row) (draw_entry size cfg true y o)
  unfolding draw_entry description_attr prefix_attr
  draw_entry-current row y none = tt
  draw_entry-current row y (some e) =
      prefixed-All (Marked cfg row) (prefix e.line.itemtype) _ y _ (λ t s. refl) (λ z s. refl)

  draw_entry-OnRow :
      (selected : Bool) (y : ℕ) (o : Option Entry)
      → All (OnRow y) (draw_entry size cfg selected y o)
  unfolding draw_entry
  draw_entry-OnRow selected y none = tt
  draw_entry-OnRow selected y (some e) =
      prefixed-All (OnRow y) (prefix e.line.itemtype) _ y _ (λ t. refl) (λ z. refl)

  module _ (lines : List Entry) (linecount n offset : ℕ) (visible : offset ≤ n)
      (counted : n < linecount) where
    abbrev cursor : Cursor
    cursor = record { selectedline = pos n; screenlineoffset = offset }

    abbrev row : ℕ
    row = 1 + (n - offset)

    draw_line-OnRow :
        (i : ℕ) → All (OnRow (1 + (i - offset))) (draw_line size cfg lines linecount cursor i)
    unfolding draw_line
    draw_line-OnRow i = elim (Bool-cases (ltb i linecount)) [
      | inl shown ↦ rw shown (draw_entry-OnRow _ _ (get_elem? lines i))
      | inr blank ↦ rw blank (refl, tt)
    ]

    draw_line-Marked :
        (i : ℕ) → offset ≤ i → All (Marked cfg row) (draw_line size cfg lines linecount cursor i)
    unfolding draw_line is_selected
    draw_line-Marked i h = elim (Bool-cases (i == n)) [
      | inl same ↦
          rw (same, lt→ltb i linecount (ground arith))
            (draw_entry-current row _ (get_elem? lines i))
      | inr other ↦
          let elsewhere : (s : Stroke) → OnRow (1 + (i - offset)) s → Marked cfg row s =
            λ s on e. absurd (ground arith) in
          All-map (OnRow (1 + (i - offset))) (Marked cfg row) _ elsewhere (draw_line-OnRow i)
    ]

    draw_lines-Marked :
        (k i : ℕ)
        → offset ≤ i
        → All (Marked cfg row) (draw_lines k size cfg lines linecount cursor i)
    unfolding draw_lines
    draw_lines-Marked zero i h = tt
    draw_lines-Marked (suc k) i h =
        All-append (Marked cfg row) (draw_line size cfg lines linecount cursor i) _
          (draw_line-Marked i h) (draw_lines-Marked k (i + 1) (omega arith))

-- The row of the selected line is drawn in the colour of the selected line, from its prefix on, for a
-- line that is one of those counted and that is on the screen.
pub draw_menu-selected :
    (size : Size) (cfg : Config) (page : Shown) (lines : List Entry) (linecount n offset : ℕ)
    (bar : Bytes)
    → offset ≤ n
    → n < offset + (size.rowcount - 2)
    → n < linecount
    → let c : Cursor = record { selectedline = pos n; screenlineoffset = offset } in
      All
        (λ s. s.y ≡ 1 + (n - offset) → s.attr ≡ cfg.attr_menucurrent)
        (draw_menu size cfg page lines linecount c bar).0
unfolding draw_menu draw_statusbar draw_urlbar
draw_menu-selected size cfg page lines linecount n offset bar a b k =
    let P : Stroke → Type 0 = Marked cfg (1 + (n - offset)) in
    All-append P
      (draw_lines (size.rowcount - 2) size cfg lines linecount _ offset
        ++ draw_urlbar size cfg page)
      _
      (All-append P (draw_lines (size.rowcount - 2) size cfg lines linecount _ offset) _
        (draw_lines-Marked size cfg lines linecount n offset a k (size.rowcount - 2) offset
          (omega arith))
        (λ e. absurd (omega arith), (λ e. absurd (omega arith), (λ e. absurd (omega arith), tt))))
      (λ e. absurd (omega arith), tt)
