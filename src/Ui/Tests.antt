-- ===== src/Ui/Tests.antt =====
-- Tests of ui, and the theorems at concrete inputs.
use gopherus.Base.{ℕ, ◌+◌, ◌*◌, ◌/◌, ◌≡◌, ◌≤◌, refl, [], ◌∷◌, some, none, arith}
use gopherus.Ui.Curses.{Curses, Style, initial, pair_colors, getorcreatecolor, ui_getkey}
use gopherus.Ui.Curses.Pairs.{asked, pair_of, getorcreatecolor-kept}

abbrev style_bits : Style → ℕ
style_bits Style.normal = 0
style_bits Style.bold = 1
style_bits Style.bold_reverse = 3

abbrev curses : Curses
curses = record {
  black = 0;
  blue = 4;
  green = 2;
  cyan = 6;
  red = 1;
  magenta = 5;
  yellow = 3;
  white = 7;
  attribute = λ id st. id * 4 + style_bits st;
  key_mouse = 409;
  key_left = 260;
  key_right = 261;
  key_up = 259;
  key_down = 258;
  key_backspace = 263;
  key_enter = 343;
  key_ppage = 339;
  key_npage = 338;
  key_home = 262;
  key_end = 360;
  key_dc = 330;
  key_f = λ n. 264 + n;
}

abbrev pair_number : ℕ → ℕ
pair_number attr = attr / 4

pair_number-attribute : (id : ℕ) (st : Style) → id ≤ 63 → pair_number (curses.attribute id st) ≡ id
pair_number-attribute id Style.normal h = omega arith
pair_number-attribute id Style.bold h = omega arith
pair_number-attribute id Style.bold_reverse h = omega arith

three_pairs :
    (getorcreatecolor curses 0x70 (asked curses (7 ∷ 0x2F ∷ 7 ∷ []) initial)).1.lastcolid ≤ 63
unfolding getorcreatecolor asked initial
three_pairs = omega arith

getorcreatecolor-kept_example :
    pair_of
      (pair_number (getorcreatecolor curses 0x70 (asked curses (7 ∷ 0x2F ∷ 7 ∷ []) initial)).0)
      (asked curses
        (0x1E ∷ [])
        (getorcreatecolor curses 0x70 (asked curses (7 ∷ 0x2F ∷ 7 ∷ []) initial)).1).pairs
    ≡ some (pair_colors curses 0x70)
getorcreatecolor-kept_example =
    getorcreatecolor-kept curses pair_number 63 pair_number-attribute (7 ∷ 0x2F ∷ 7 ∷ [])
      (0x1E ∷ []) 0x70 three_pairs

alt_h : ui_getkey curses (none ∷ some 409 ∷ some 27 ∷ some b'h' ∷ []) ≡ some 0x123
unfolding ui_getkey
alt_h = refl

escape : ui_getkey curses (some 27 ∷ none ∷ []) ≡ some 27
unfolding ui_getkey
escape = refl

page_up : ui_getkey curses (some 339 ∷ []) ≡ some 0x149
unfolding ui_getkey
page_up = refl
