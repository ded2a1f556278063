-- ===== src/TextView/Screen.antt =====
-- gopherus.c, display_text: the lines of the text on the screen, and what a key does. The screen has
-- at least 4 rows, so `lastline` is not below 0.
pub mod Window
pub mod Session
use mathlib.Core.Option
use gopherus.Base.{
  ℕ, suc, zero, ◌+◌, ◌-◌, Bool, true, false, not, ◌&&◌, List, [], ◌∷◌, ◌++◌, ltb, leb, ◌==◌,
  if◌then◌else◌, Bytes, Option, none, some, length, get_or, codes, min,
}
use gopherus.Menu.Keys.{maxhostlen, maxsellen}
use gopherus.Url.Parse.{UrlParts, parsegopherurl, parseurl_proto_gopher, parseurl_error}
use gopherus.Wordwrap.{wordwrap}

-- A call of `drawstr`: its row and its text.
pub record Row : Type 0 where
  pub row : ℕ
  pub text : Bytes

pub record View : Type 0 where
  pub firstline : ℕ
  pub lastline : ℕ

drawn : View → ℕ → Bytes → List Row
drawn v y line =
    if leb v.firstline y then record { row = y + 1 - v.firstline; text = line } ∷ [] else []

-- The loop over the lines from the one of number `y` on, with fuel; it leaves `y` behind the last one.
pub draw_lines : ℕ → ℕ → View → ℕ → Bytes → Option (List Row × ℕ)
unfolding drawn
draw_lines zero screenw v y txtptr = none
draw_lines (suc fuel) screenw v y txtptr =
    let w = wordwrap txtptr screenw in
    let rows = drawn v y w.line in
    let more : Option (List Row × ℕ) = elim w.next [
      | none ↦ some (rows, y + 1)
      | some rest ↦ Option.map (λ r. (rows ++ r.0, r.1)) (draw_lines fuel screenw v (y + 1) rest)
    ] in
    if ltb v.lastline (y + 1) then some (rows, y + 1) else more

-- `for (; y <= lastline; y++)`, `n` times
blanks : ℕ → View → ℕ → List Row
blanks zero v y = []
blanks (suc n) v y = record { row = y + 1 - v.firstline; text = [] } ∷ blanks n v (y + 1)

-- The rows that are drawn, and `eof_flag`.
filled : View → List Row × ℕ → List Row × Bool
unfolding blanks
filled v r = (r.0 ++ blanks (v.lastline + 1 - r.1) v r.1, leb r.1 v.lastline)

unfoldable pub draw : ℕ → View → Bytes → Option (List Row × Bool)
unfolding draw_lines filled
draw screenw v buffer = Option.map (filled v) (draw_lines (length buffer + 1) screenw v 0 buffer)

-- `linebuff` holds 127 bytes and a nul
unfoldable pub text_width : ℕ → ℕ
text_width colcount = min colcount 127

-- What is known of the page, and the number of rows of the screen.
pub record Place : Type 0 where
  pub protocol : ℕ
  pub host : Bytes
  pub port : ℕ
  pub selector : Bytes
  pub rowcount : ℕ

pub data Key : Type 0 where
  backspc bookmark help jmp_home jmp_main refresh save_as up down home pgup end pgdown other : Key
  tab : Option Bytes → Key
  esc : Bool → Key

pub data Turn : Type 0 where
  stay : View → Turn
  back refr quit add_bookmark : Turn
  top_reached end_reached : Turn
  push : UrlParts → Turn

go : ℕ → Bytes → ℕ → ℕ → Bytes → Turn
go protocol host port itemtype selector = Turn.push (record {
  protocol = protocol;
  host = host;
  port = port;
  itemtype = itemtype;
  selector = selector;
})

-- The text of the user, if there is one, is a new location unless it is no URL.
edited : View → Option Bytes → Turn
edited v text = elim text [
  | none ↦ Turn.stay v
  | some url ↦
      let p = parsegopherurl url maxhostlen maxsellen in
      if p.protocol == parseurl_error then Turn.stay v else Turn.push p
]

key_up : View → Turn
key_up v =
    if ltb 0 v.firstline
    then Turn.stay (record { firstline = v.firstline - 1; lastline = v.lastline - 1 })
    else Turn.top_reached

key_down : Bool → View → Turn
key_down eof v =
    if eof
    then Turn.end_reached
    else Turn.stay (record { firstline = v.firstline + 1; lastline = v.lastline + 1 })

key_pgup : ℕ → View → Turn
key_pgup rowcount v =
    let first = v.firstline - (rowcount - 3) in
    if ltb 0 v.firstline
    then Turn.stay (record { firstline = first; lastline = first + rowcount - 3 })
    else Turn.top_reached

key_pgdown : ℕ → Bool → View → Turn
key_pgdown rowcount eof v =
    if eof
    then Turn.end_reached
    else Turn.stay (record {
      firstline = v.firstline + (rowcount - 3);
      lastline = v.lastline + (rowcount - 3);
    })

-- One turn of the loop, for a key that was pressed.
unfoldable pub press : Place → Bool → View → Key → Turn
unfolding go edited key_up key_down key_pgup key_pgdown
press p eof v Key.backspc = Turn.back
press p eof v (Key.tab text) = edited v text
press p eof v Key.bookmark = Turn.add_bookmark
press p eof v (Key.esc confirmed) = if confirmed then Turn.quit else Turn.stay v
press p eof v Key.help = go parseurl_proto_gopher (codes "#manual") 70 b'0' []
press p eof v Key.jmp_home = go parseurl_proto_gopher (codes "#welcome") 70 b'1' []
press p eof v Key.jmp_main =
    if p.protocol == parseurl_proto_gopher && not (get_or p.host 0 0 == b'#')
    then go parseurl_proto_gopher p.host p.port b'1' []
    else Turn.stay v
press p eof v Key.refresh = Turn.refr
press p eof v Key.save_as = go p.protocol p.host p.port b'9' p.selector
press p eof v Key.up = key_up v
press p eof v Key.down = key_down eof v
press p eof v Key.home = Turn.stay (record { firstline = 0; lastline = v.lastline - v.firstline })
press p eof v Key.pgup = key_pgup p.rowcount v
press p eof v Key.end = Turn.stay v
press p eof v Key.pgdown = key_pgdown p.rowcount eof v
press p eof v Key.other = Turn.stay v

unfoldable pub start : ℕ → View
start rowcount = record { firstline = 0; lastline = rowcount - 3 }
