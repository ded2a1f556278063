-- ===== src/Menu/Frame/Cover.antt =====
-- What display_menu draws covers the screen, each cell once.
use gopherus.Base.{
  ℕ, zero, suc, ◌+◌, ◌-◌, ◌≤◌, ◌<◌, ◌≡◌, refl, ◌∙◌, ◌&&◌, List, [], ◌∷◌, ◌++◌, leb, ltb, ◌==◌,
  if◌then◌else◌, Bytes, Option, none, some, get_elem?, length, arith, Bool-cases, inl, inr,
}
use gopherus.Config.Settings.{Config}
use gopherus.Menu.Item.{Entry, prefix}
use gopherus.Menu.Keys.{Cursor}
use gopherus.Menu.Frame.{prefixed, draw_entry, draw_line, draw_lines, draw_menu}
use gopherus.Screen.{Stroke, Size, Shown, draw_urlbar, draw_statusbar}

-- 1 where the stroke draws the cell.
abbrev hit : Stroke → ℕ → ℕ → ℕ
hit s x y = if s.y == y && leb s.x x && ltb x (s.x + s.len) then 1 else 0

-- How many of the strokes draw the cell in column `x` of row `y`.
abbrev pub hits : List Stroke → ℕ → ℕ → ℕ
hits [] x y = 0
hits (s ∷ ss) x y = hit s x y + hits ss x y

hits-append : (ss ts : List Stroke) (x y : ℕ) → hits (ss ++ ts) x y ≡ hits ss x y + hits ts x y
hits-append [] ts x y = omega arith
hits-append (s ∷ ss) ts x y = omega (arith, hits-append ss ts x y)

get_elem?-some :
    {A : Type 0} (xs : List A) (i : ℕ) → i < length xs → (a : A) × (get_elem? xs i ≡ some a)
get_elem?-some [] i h = elim h [ ]
get_elem?-some (x ∷ xs) zero h = (x, refl)
get_elem?-some (x ∷ xs) (suc i) h = get_elem?-some xs i (omega arith)

-- 1 for a cell of the rows from `first` to before `last`.
abbrev in_rows : Size → ℕ → ℕ → ℕ → ℕ → ℕ
in_rows size first last x y = if leb first y && ltb y last && ltb x size.colcount then 1 else 0

module _ (size : Size) (cfg : Config) (wide : 4 < size.colcount) where
  prefixed-hits :
      (name : Option Bytes) (a attr : Option ℕ) (text : Bytes) (row x y : ℕ)
      → hits
          (prefixed name a row
            (λ z. record { text = text; attr = attr; x = z; y = row; len = size.colcount - z }))
          x
          y
        ≡ in_rows size row (row + 1) x y
  unfolding prefixed
  prefixed-hits none a attr text row x y = ground arith
  prefixed-hits (some name) a attr text row x y = ground arith

  module _ (lines : List Entry) (linecount : ℕ) (c : Cursor) (k : linecount ≤ length lines) where
    draw_line-hits :
        (i x y : ℕ)
        → c.screenlineoffset ≤ i
        → hits (draw_line size cfg lines linecount c i) x y
          ≡ in_rows size (1 + (i - c.screenlineoffset)) (1 + (i - c.screenlineoffset) + 1) x y
    unfolding draw_line draw_entry
    draw_line-hits i x y h = elim (Bool-cases (ltb i linecount)) [
      | inl shown ↦
          let (e, there) = get_elem?-some lines i (ground arith) in
          rw (shown, there) (prefixed-hits (prefix e.line.itemtype) _ _ e.description _ x y)
      | inr blank ↦ rw blank (ground arith)
    ]

    draw_lines-hits :
        (n i x y : ℕ)
        → c.screenlineoffset ≤ i
        → hits (draw_lines n size cfg lines linecount c i) x y
          ≡ in_rows size (1 + (i - c.screenlineoffset)) (1 + (i - c.screenlineoffset) + n) x y
    unfolding draw_lines
    draw_lines-hits zero i x y h = ground arith
    draw_lines-hits (suc n) i x y h =
        hits-append (draw_line size cfg lines linecount c i)
          (draw_lines n size cfg lines linecount c (i + 1)) x y
        ∙ rw (draw_line-hits i x y h, draw_lines-hits n (i + 1) x y (omega arith)) (ground arith)

urlbar-hits :
    (size : Size) (cfg : Config) (page : Shown) (x y : ℕ)
    → 4 < size.colcount
    → hits (draw_urlbar size cfg page) x y ≡ in_rows size 0 1 x y
unfolding draw_urlbar
urlbar-hits size cfg page x y wide = ground arith

-- In a turn of the loop the whole screen is drawn, each of its cells by one call, and nothing outside
-- it, whatever the menu, its cursor and the message: for a screen of more than 4 columns and at least 2
-- rows, and no more lines than there are entries.
pub draw_menu-hits :
    (size : Size) (cfg : Config) (page : Shown) (lines : List Entry) (linecount : ℕ) (c : Cursor)
    (bar : Bytes) (x y : ℕ)
    → 4 < size.colcount
    → 2 ≤ size.rowcount
    → linecount ≤ length lines
    → hits (draw_menu size cfg page lines linecount c bar).0 x y
      ≡ (if ltb x size.colcount && ltb y size.rowcount then 1 else 0)
unfolding draw_menu draw_statusbar
draw_menu-hits size cfg page lines linecount c bar x y wide high k =
    hits-append
      (draw_lines (size.rowcount - 2) size cfg lines linecount c c.screenlineoffset
        ++ draw_urlbar size cfg page)
      _ x y
    ∙ rw
        (
          hits-append (draw_lines (size.rowcount - 2) size cfg lines linecount c c.screenlineoffset)
              (draw_urlbar size cfg page) x y,
          draw_lines-hits size cfg wide lines linecount c k (size.rowcount - 2) c.screenlineoffset x
              y (omega arith),
          urlbar-hits size cfg page x y wide,
        )
        (ground arith)
