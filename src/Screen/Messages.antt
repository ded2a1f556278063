-- ===== src/Screen/Messages.antt =====
-- The last row of the screen, over the messages that are set and the times that it is drawn.
use gopherus.Base.{ℕ, ◌-◌, ◌≡◌, refl, ap, ap₂, List, [], ◌∷◌, Bytes, take, map, if◌then◌else◌}
use gopherus.Config.Settings.{Config}
use gopherus.Screen.{
  Size, Stroke, statusbar_size, set_statusbar, draw_statusbar, stripped, is_warning,
}

-- The messages that are set, in order.
set_all : List Bytes → Bytes → Bytes
set_all [] bar = bar
set_all (m ∷ ms) bar = set_all ms (set_statusbar m bar)

-- The rows that are drawn, each behind the messages of a list.
pub rows : Size → Config → List (List Bytes) → Bytes → List Stroke
unfolding set_all
rows size cfg [] bar = []
rows size cfg (ms ∷ mss) bar =
    let r = draw_statusbar size cfg (set_all ms bar) in r.0 ∷ rows size cfg mss r.1

-- The first message that is not empty.
abbrev pub first_message : List Bytes → Bytes
first_message [] = []
first_message ([] ∷ ms) = first_message ms
first_message ((c ∷ m) ∷ ms) = c ∷ m

-- The row that shows a message, from the second character on if the first one is '!'.
abbrev pub message_row : Size → Config → Bytes → Stroke
message_row size cfg m = record {
  text = stripped m;
  attr = if is_warning m then cfg.attr_statusbarwarn else cfg.attr_statusbarinfo;
  x = 0;
  y = size.rowcount - 1;
  len = size.colcount;
}

set_all-full : (ms : List Bytes) (c : ℕ) (m : Bytes) → set_all ms (c ∷ m) ≡ c ∷ m
unfolding set_all set_statusbar
set_all-full [] c m = refl
set_all-full (x ∷ ms) c m = set_all-full ms c m

set_all-first : (ms : List Bytes) → set_all ms [] ≡ take (statusbar_size - 1) (first_message ms)
unfolding set_all set_statusbar
set_all-first [] = refl
set_all-first ([] ∷ ms) = set_all-first ms
set_all-first ((c ∷ m) ∷ ms) = set_all-full ms c (take 126 m)

-- Each time the last row is drawn, it shows the first message since the last time, up to 127 bytes of
-- it, and in the colour of warnings just where it begins with '!'; an empty message is none.
pub rows-first :
    (size : Size) (cfg : Config) (mss : List (List Bytes))
    → rows size cfg mss []
      ≡ map (λ ms. message_row size cfg (take (statusbar_size - 1) (first_message ms))) mss
unfolding rows draw_statusbar
rows-first size cfg [] = refl
rows-first size cfg (ms ∷ mss) =
    ap₂ (λ r rs. r ∷ rs) (ap (message_row size cfg) (set_all-first ms)) (rows-first size cfg mss)
