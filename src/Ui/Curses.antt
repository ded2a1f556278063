-- ===== src/Ui/Curses.antt =====
-- ui/ui-curse.c: the pairs of colours, and the keys. What curses defines is a record.
pub mod Pairs
use gopherus.Base.{
  ℕ, suc, Bool, true, false, List, [], ◌∷◌, ◌==◌, ◌/◌, ◌%◌, ◌||◌, if◌then◌else◌, Option, none, some,
  get_or,
}

-- How a pair is shown: `A_NORMAL`, `A_BOLD`, or `WA_BOLD | WA_REVERSE`.
pub data Style : Type 0 where
  normal bold bold_reverse : Style

-- The eight colours, the attribute `COLOR_PAIR(n)` in a style, and the codes of keys.
pub record Curses : Type 0 where
  pub black : ℕ
  pub blue : ℕ
  pub green : ℕ
  pub cyan : ℕ
  pub red : ℕ
  pub magenta : ℕ
  pub yellow : ℕ
  pub white : ℕ
  pub attribute : ℕ → Style → ℕ
  pub key_mouse : ℕ
  pub key_left : ℕ
  pub key_right : ℕ
  pub key_up : ℕ
  pub key_down : ℕ
  pub key_backspace : ℕ
  pub key_enter : ℕ
  pub key_ppage : ℕ
  pub key_npage : ℕ
  pub key_home : ℕ
  pub key_end : ℕ
  pub key_dc : ℕ
  pub key_f : ℕ → ℕ

-- A call of init_pair: the number of the pair, and its two colours.
pub record Pair : Type 0 where
  pub number : ℕ
  pub colors : ℕ × ℕ

-- The static variables of getorcreatecolor, and the pairs that it made, the last one first.
pub record Palette : Type 0 where
  pub dospalette : ℕ → ℕ
  pub lastcolid : ℕ
  pub pairs : List Pair

unfoldable pub initial : Palette
initial = record { dospalette = λ col. 0; lastcolid = 0; pairs = [] }

dos_colors : Curses → List ℕ
dos_colors c =
    c.black ∷ c.blue ∷ c.green ∷ c.cyan ∷ c.red ∷ c.magenta ∷ c.yellow ∷ c.white ∷ c.black ∷ c.blue
    ∷ c.green ∷ c.cyan ∷ c.red ∷ c.magenta ∷ c.yellow ∷ c.white ∷ []

abbrev bright_background : ℕ → Bool
bright_background col = col / 128 % 2 == 1

abbrev bright_foreground : ℕ → Bool
bright_foreground col = col / 8 % 2 == 1

style : ℕ → Style
style col =
    if bright_background col
    then Style.bold_reverse
    else if bright_foreground col
    then Style.bold
    else Style.normal

-- The foreground and the background, which a bright background swaps.
pub pair_colors : Curses → ℕ → ℕ × ℕ
unfolding dos_colors
pair_colors c col =
    let low = get_or (dos_colors c) (col % 16) 0 in
    let high = get_or (dos_colors c) (col / 16) 0 in
    if bright_background col then (high, low) else (low, high)

create : Curses → ℕ → Palette → Palette
unfolding style pair_colors
create c col s =
    let id = suc s.lastcolid in
    record {
      dospalette = λ k. if k == col then c.attribute id (style col) else s.dospalette k;
      lastcolid = id;
      pairs = record { number = id; colors = pair_colors c col } ∷ s.pairs;
    }

unfoldable pub getorcreatecolor : Curses → ℕ → Palette → ℕ × Palette
unfolding create
getorcreatecolor c col s =
    let t = if s.dospalette col == 0 then create c col s else s in (t.dospalette col, t)

-- ALT and a letter.
alt_key : ℕ → Option ℕ
alt_key res =
    if res == b'f'
    then some 0x121
    else if res == b'h'
    then some 0x123
    else if res == b'j'
    then some 0x124
    else if res == b's'
    then some 0x11F
    else if res == b'u'
    then some 0x116
    else none

key_codes : Curses → List (ℕ × ℕ)
key_codes c =
    (c.key_left, 0x14B)
    ∷ (c.key_right, 0x14D)
    ∷ (c.key_up, 0x148)
    ∷ (c.key_down, 0x150)
    ∷ (c.key_backspace, 8)
    ∷ (c.key_enter, 13)
    ∷ (c.key_ppage, 0x149)
    ∷ (c.key_npage, 0x151)
    ∷ (c.key_home, 0x147)
    ∷ (c.key_end, 0x14F)
    ∷ (c.key_dc, 0x153)
    ∷ (c.key_f 1, 0x13b)
    ∷ (c.key_f 2, 0x13c)
    ∷ (c.key_f 3, 0x13d)
    ∷ (c.key_f 4, 0x13e)
    ∷ (c.key_f 5, 0x13f)
    ∷ (c.key_f 6, 0x140)
    ∷ (c.key_f 7, 0x141)
    ∷ (c.key_f 8, 0x142)
    ∷ (c.key_f 9, 0x143)
    ∷ (c.key_f 10, 0x144)
    ∷ []

case_of : List (ℕ × ℕ) → ℕ → ℕ
case_of [] res = res
case_of ((k, v) ∷ rest) res = if res == k then v else case_of rest res

switch : Curses → ℕ → ℕ
unfolding case_of key_codes
switch c res = case_of (key_codes c) res

-- What is behind the escape character: a timeout, or a key with ALT.
escaped : Curses → List (Option ℕ) → Option ℕ
unfolding alt_key switch
escaped c [] = none
escaped c (none ∷ more) = some 27
escaped c (some res ∷ more) = elim (alt_key res) [ none ↦ some (switch c res) | some k ↦ some k ]

-- The key that ui_getkey answers for what wgetch gives, where none is ERR; none while it waits.
unfoldable pub ui_getkey : Curses → List (Option ℕ) → Option ℕ
unfolding escaped switch
ui_getkey c [] = none
ui_getkey c (none ∷ more) = ui_getkey c more
ui_getkey c (some res ∷ more) =
    let again = ui_getkey c more in
    if res == c.key_mouse then again else if res == 27 then escaped c more else some (switch c res)
