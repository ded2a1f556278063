-- ===== src/Screen.antt =====
-- gopherus.c: the strings that are drawn on the screen, its first row with the URL (draw_urlbar) and
-- its last row with the messages (set_statusbar, draw_statusbar, status_msg, askQuitConfirmation).
pub mod Messages
mod Tests
use gopherus.Base.{
  ℕ, zero, suc, ◌+◌, ◌-◌, Bool, true, false, ◌&&◌, ◌||◌, not, List, [], ◌∷◌, leb, ltb, ◌==◌,
  if◌then◌else◌, Bytes, Option, none, some, take, codes, ltb_ℤ, pos,
}
use gopherus.Config.Settings.{Config}
use gopherus.Url.Build.{Built, buildgopherurl}

-- A call of `drawstr`, or of `ui_putchar` for a single character: the cells from column `x` to
-- `x + len` of row `y`. An attribute of the configuration may be none.
pub record Stroke : Type 0 where
  pub text : Bytes
  pub attr : Option ℕ
  pub x : ℕ
  pub y : ℕ
  pub len : ℕ

pub record Size : Type 0 where
  pub colcount : ℕ
  pub rowcount : ℕ

-- `urlstr` and its size; `maxlen` is one less.
abbrev urlstr_size : ℕ
urlstr_size = 256

-- The page that is shown; `stale` is what `urlstr` holds before, which is drawn where buildgopherurl
-- refuses and writes nothing.
pub record Shown : Type 0 where
  pub protocol : ℕ
  pub host : Bytes
  pub port : ℕ
  pub itemtype : ℕ
  pub selector : Bytes
  pub stale : Bytes

unfoldable pub draw_urlbar : Size → Config → Shown → List Stroke
draw_urlbar size cfg p =
    let url = buildgopherurl (urlstr_size - 1) p.protocol p.host p.port p.itemtype p.selector in
    let text = if ltb_ℤ url.result (pos 0) then p.stale else url.text in
    record { text = codes "["; attr = cfg.attr_urlbardeco; x = 0; y = 0; len = 1 }
    ∷ record { text = text; attr = cfg.attr_urlbar; x = 1; y = 0; len = size.colcount - 2 }
    ∷ record { text = codes "]"; attr = cfg.attr_urlbardeco; x = size.colcount - 1; y = 0; len = 1 }
    ∷ []

-- `sizeof(glob_statusbar)`
abbrev pub statusbar_size : ℕ
statusbar_size = 128

-- `glob_statusbar` behind the call: the message, unless there is one.
unfoldable pub set_statusbar : Bytes → Bytes → Bytes
set_statusbar msg [] = take (statusbar_size - 1) msg
set_statusbar msg (c ∷ bar) = c ∷ bar

-- What the message says, and whether it is an important one.
abbrev pub stripped : Bytes → Bytes
stripped [] = []
stripped (c ∷ msg) = if c == b'!' then msg else c ∷ msg

abbrev pub is_warning : Bytes → Bool
is_warning [] = false
is_warning (c ∷ msg) = c == b'!'

-- The row that is drawn, and `glob_statusbar` behind the call.
unfoldable pub draw_statusbar : Size → Config → Bytes → Stroke × Bytes
draw_statusbar size cfg bar = (
  record {
    text = stripped bar;
    attr = if is_warning bar then cfg.attr_statusbarwarn else cfg.attr_statusbarinfo;
    x = 0;
    y = size.rowcount - 1;
    len = size.colcount;
  },
  [],
)

-- What a message of loadfile_buff does to `glob_statusbar`, and the text for the console: there is
-- one without the user interface.
unfoldable pub status_msg : Bool → Bytes → Bytes → Option Bytes × Bytes
unfolding set_statusbar
status_msg notui s bar =
    let shown : Bytes → Option Bytes = λ t. elim t [ [] ↦ none | c ∷ u ↦ some (c ∷ u) ] in
    if notui then (shown (stripped s), bar) else (none, set_statusbar s bar)

abbrev key_esc : ℕ
key_esc = 6

-- The first key that getfunckey knows, of those that are pressed; none where it waits for more.
first_key : List ℕ → Option ℕ
first_key [] = none
first_key (k ∷ keys) = if k == 0 then first_key keys else some k

-- The question, the row that asks it, and the answer.
unfoldable pub ask_quit_confirmation : Size → Config → List ℕ → Bytes → Option Bool × Stroke × Bytes
unfolding set_statusbar draw_statusbar first_key
ask_quit_confirmation size cfg keys bar =
    let question =
      codes "!YOU ARE ABOUT TO QUIT. PRESS ESC TO CONFIRM, OR ANY OTHER KEY TO ABORT." in
    let (row, bar') = draw_statusbar size cfg (set_statusbar question bar) in
    let answer : Option Bool = elim (first_key keys) [
      | none ↦ none
      | some k ↦ some (k == key_esc || k == 0xff)
    ] in
    (answer, row, bar')
