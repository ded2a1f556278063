-- ===== src/Menu/Frame.antt =====
-- gopherus.c, display_menu: what is drawn in one turn of its loop, from the entries of the arrays
-- and the number of lines that menu_explode returns. The screen has at least 2 rows.
mod Cover
mod Selected
mod Tests
use gopherus.Base.{
  ℕ, zero, suc, ◌+◌, ◌-◌, ◌%◌, Bool, false, ◌&&◌, ◌||◌, List, [], ◌∷◌, ◌++◌, leb, ltb, ◌==◌,
  if◌then◌else◌, Bytes, Option, none, some, get_elem?, ℤ, pos, negsuc,
}
use gopherus.Config.Settings.{Config}
use gopherus.Menu.Item.{Entry, isitemtypeselectable, prefix}
use gopherus.Menu.Keys.{Cursor, maxurllen}
use gopherus.Screen.{Stroke, Size, Shown, draw_urlbar, draw_statusbar, set_statusbar}
use gopherus.Url.Build.{buildgopherurl}
use gopherus.Url.Parse.{parseurl_proto_gopher}

is_selected : ℤ → ℕ → Bool
is_selected (pos n) x = x == n
is_selected (negsuc n) x = false

-- The attribute of a line's prefix.
prefix_attr : Config → Bool → Option ℕ
prefix_attr cfg selected = if selected then cfg.attr_menucurrent else cfg.attr_menutype

-- The attribute of its description.
description_attr : Config → Bool → ℕ → Option ℕ
description_attr cfg selected itemtype =
    let base = itemtype % 128 in
    if selected
    then cfg.attr_menucurrent
    else if base == b'i'
    then cfg.attr_textnorm
    else if base == b'3'
    then cfg.attr_menuerr
    else if isitemtypeselectable base
    then cfg.attr_menuselectable
    else cfg.attr_textnorm

-- The prefix, if there is one, and the description behind it.
prefixed : Option Bytes → Option ℕ → ℕ → (ℕ → Stroke) → List Stroke
prefixed none attr y description = description 0 ∷ []
prefixed (some name) attr y description =
    record { text = name; attr = attr; x = 0; y = y; len = 4 } ∷ description 4 ∷ []

-- A line of the menu, on row `y`.
draw_entry : Size → Config → Bool → ℕ → Option Entry → List Stroke
unfolding prefix_attr description_attr prefixed
draw_entry size cfg selected y none = []
draw_entry size cfg selected y (some e) =
    let attr = description_attr cfg selected e.line.itemtype in
    let description : ℕ → Stroke =
      λ z. record { text = e.description; attr = attr; x = z; y = y; len = size.colcount - z } in
    prefixed (prefix e.line.itemtype) (prefix_attr cfg selected) y description

-- Line `x`, or what is behind the last one.
draw_line : Size → Config → List Entry → ℕ → Cursor → ℕ → List Stroke
unfolding is_selected draw_entry
draw_line size cfg lines linecount c x =
    let y = 1 + (x - c.screenlineoffset) in
    let blank : Stroke = record {
      text = [];
      attr = cfg.attr_textnorm;
      x = 0;
      y = y;
      len = size.colcount;
    } in
    let shown = draw_entry size cfg (is_selected c.selectedline x) y (get_elem? lines x) in
    if ltb x linecount then shown else blank ∷ []

-- The loop over `n` lines, from line `x` on.
draw_lines : ℕ → Size → Config → List Entry → ℕ → Cursor → ℕ → List Stroke
unfolding draw_line
draw_lines zero size cfg lines linecount c x = []
draw_lines (suc n) size cfg lines linecount c x =
    draw_line size cfg lines linecount c x ++ draw_lines n size cfg lines linecount c (x + 1)

-- The URL of the selected line, or an empty string.
cur_url : List Entry → ℤ → Bytes
cur_url lines (negsuc n) = []
cur_url lines (pos n) = elim (get_elem? lines n) [
  | none ↦ []
  | some e ↦
      let l = e.line in
      (buildgopherurl maxurllen parseurl_proto_gopher l.host l.port (l.itemtype % 128)
        l.selector).text
]

-- All that is drawn before a key is read, and `glob_statusbar` then.
unfoldable pub draw_menu :
    Size → Config → Shown → List Entry → ℕ → Cursor → Bytes → List Stroke × Bytes
unfolding draw_lines cur_url
draw_menu size cfg page lines linecount c bar =
    let (row, bar') = draw_statusbar size cfg (set_statusbar (cur_url lines c.selectedline) bar) in
    (
      draw_lines (size.rowcount - 2) size cfg lines linecount c c.screenlineoffset
          ++ draw_urlbar size cfg page
          ++ row ∷ [],
      bar',
    )
