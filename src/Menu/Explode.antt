-- ===== src/Menu/Explode.antt =====
-- gopherus.c, menu_explode: the lines of a menu. The buffer is a list of bytes, of which the code
-- overwrites some with nuls, and a pointer into it is an index. The screen is more than 4 columns
-- wide.
pub mod Pieces
pub mod Marks
pub mod Links
pub mod Columns
pub mod Stored
pub mod Reading
pub mod Wrapping
pub mod Marker
pub mod Lines
pub mod RoundTrip
mod Tests
use mathlib.Core.Option
use gopherus.Base.{
  ℕ, suc, zero, ◌+◌, ◌-◌, ◌%◌, Bool, true, false, ◌&&◌, List, [], ◌∷◌, ◌++◌, ltb, leb, ◌==◌,
  if◌then◌else◌, Bytes, Option, none, some, length, get_or, get_elem?, set, drop, up_to_nul, map,
  take, ℤ, pos, negsuc, minus_one, sub_ℕ, ltb_ℤ, atoi, to_ushort,
}
use gopherus.Menu.Item.{Line, Entry, isitemtypeselectable}
use gopherus.Menu.Keys.{Page}
use gopherus.Wordwrap.{Wrapped, wordwrap}

-- The string at an index of the buffer.
pub string_at : Bytes → ℕ → Bytes
string_at buffer p = up_to_nul (drop p buffer)

pub record Split : Type 0 where
  pub buffer : Bytes
  pub cursor : ℕ
  pub colid : ℕ
  pub selector : Option ℕ
  pub host : Option ℕ
  pub port : Option ℕ

-- A TAB becomes a nul, and the column behind it starts; `colid` is an unsigned char.
at_tab : Split → Split
at_tab s =
    let column : ℕ → Option ℕ → Option ℕ =
      λ n old. if s.colid == n then some (s.cursor + 1) else old in
    if get_or s.buffer s.cursor 0 == b'\t'
    then record s {
      buffer = set s.buffer s.cursor 0;
      colid = (s.colid + 1) % 256;
      selector = column 0 s.selector;
      host = column 1 s.host;
      port = column 2 s.port;
    }
    else s

-- A CR becomes a nul.
without_cr : Bytes → ℕ → Bytes
without_cr buffer p = if get_or buffer p 0 == b'\r' then set buffer p 0 else buffer

-- The loop that advances to the next line, for `bufferlen` bytes, and what is left of them.
pub advance : ℕ → Split → ℕ × Split
unfolding at_tab without_cr
advance zero s = (zero, s)
advance (suc bufferlen) s =
    let t = at_tab s in
    let buffer = without_cr t.buffer (t.cursor + 1) in
    let u = record t { buffer = buffer; cursor = t.cursor + 1 } in
    let more = advance bufferlen u in
    if get_or buffer t.cursor 0 == b'\n'
    then (bufferlen, record u { buffer = set buffer t.cursor 0 })
    else more

-- One entry of the arrays: the address of the description, and the offsets from it.
pub record Row : Type 0 where
  pub itemtype : ℕ
  pub description : ℕ
  pub selector : ℕ
  pub host : ℕ
  pub port : ℕ

-- `p - description`, an unsigned short, or 0 where there is no such column
pub offset : ℕ → Option ℕ → ℕ
offset description none = 0
offset description (some p) = to_ushort (sub_ℕ p description)

pub port_of : Bytes → Option ℕ → ℕ
port_of buffer none = 70
port_of buffer (some p) =
    let port = to_ushort (atoi (string_at buffer p)) in if port == 0 then 70 else port

-- `itemtype | 128`
pub continued : ℕ → ℕ
continued itemtype = if leb 128 (itemtype % 256) then itemtype else itemtype + 128

-- What is known of the line that is wrapped.
pub record Item : Type 0 where
  pub itemtype : ℕ
  pub selector : Option ℕ
  pub host : Option ℕ
  pub port : Option ℕ
  pub wraplen : ℕ

pub row_of : Item → Bool → Bytes → ℕ → Row
unfolding offset port_of continued
row_of item firstiteration buffer p = record {
  itemtype = if firstiteration then item.itemtype else continued item.itemtype;
  description = p;
  selector = offset p item.selector;
  host = offset p item.host;
  port = port_of buffer item.port;
}

-- The index of what `wordwrap` leaves of the string at `p`.
next_piece : Bytes → ℕ → Option Bytes → Option ℕ
next_piece str p none = none
next_piece str p (some rest) = some (p + (length str - length rest))

-- The loop that wraps a line, with fuel: its entries, also those past the arrays, for which `finished`
-- below looks, and the buffer with a nul behind each piece.
pub wrap_rows : ℕ → Item → Bool → Bytes → ℕ → Option (List Row × Bytes)
unfolding row_of next_piece
wrap_rows zero item firstiteration buffer p = none
wrap_rows (suc fuel) item firstiteration buffer p =
    let str = string_at buffer p in
    let w = wordwrap str item.wraplen in
    let buffer' = set buffer (p + length w.line) 0 in
    let row = row_of item firstiteration buffer' p in
    elim (next_piece str p w.next) [
      | none ↦ some (row ∷ [], buffer')
      | some q ↦ Option.map (λ r. (row ∷ r.0, r.1)) (wrap_rows fuel item false buffer' q)
    ]

pub record State : Type 0 where
  pub buffer : Bytes
  pub cursor : ℕ
  pub bufferlen : ℕ
  pub rows : List Row
  pub firstlinkline : ℤ
  pub lastlinkline : ℤ

-- `*firstlinkline` and `*lastlinkline` behind the test of the line's type
pub link_first : ℕ → State → ℤ
link_first itemtype s =
    if isitemtypeselectable itemtype && ltb_ℤ s.firstlinkline (pos 0)
    then pos (length s.rows)
    else s.firstlinkline

pub link_last : ℕ → State → ℤ
link_last itemtype s = if isitemtypeselectable itemtype then pos (length s.rows) else s.lastlinkline

-- An empty line is informational.
pub type_of : ℕ → ℕ
type_of c = if c == 0 then b'i' else c

pub wraplen : ℕ → ℕ → ℕ
wraplen screenw itemtype = if itemtype == b'i' then screenw else screenw - 4

-- Behind the loop that advances, which left `bufferlen` bytes.
pub wrap_line : ℕ → State → ℕ × Split → Option State
unfolding wrap_rows link_first link_last type_of wraplen
wrap_line screenw s split =
    let t = split.1 in
    let itemtype = type_of (get_or t.buffer s.cursor 0) in
    let item : Item = record {
      itemtype = itemtype;
      selector = t.selector;
      host = t.host;
      port = t.port;
      wraplen = wraplen screenw itemtype;
    } in
    Option.map
      (λ r. record {
        buffer = r.1;
        cursor = t.cursor;
        bufferlen = split.0;
        rows = s.rows ++ r.0;
        firstlinkline = link_first itemtype s;
        lastlinkline = link_last itemtype s;
      })
      (wrap_rows (length t.buffer + 1) item true t.buffer (s.cursor + 1))

-- One line of the menu.
pub one_line : ℕ → State → Option State
unfolding advance wrap_line
one_line screenw s = wrap_line screenw s (
    advance s.bufferlen (record {
      buffer = s.buffer;
      cursor = s.cursor;
      colid = 0;
      selector = none;
      host = none;
      port = none;
    }))

-- The loop over the lines, with fuel.
pub explode_loop : ℕ → ℕ → ℕ → State → Option State
unfolding one_line
explode_loop zero screenw maxlines s = none
explode_loop (suc fuel) screenw maxlines s =
    if s.bufferlen == 0
    then some s
    else if leb maxlines (length s.rows)
    then some s
    else elim (one_line screenw s) [ none ↦ none | some t ↦ explode_loop fuel screenw maxlines t ]

-- Without the last line if it is the end marker.
pub trim_marker : List Row → ℕ → ℕ
trim_marker rows zero = zero
trim_marker rows (suc n) = elim (get_elem? rows n) [
  | none ↦ suc n
  | some r ↦ if r.itemtype == b'.' then n else suc n
]

-- Without the empty lines at the end.
pub trim_empty : List Row → Bytes → ℕ → ℕ
trim_empty rows buffer zero = zero
trim_empty rows buffer (suc n) =
    let fewer = trim_empty rows buffer n in
    elim (get_elem? rows n) [
      | none ↦ suc n
      | some r ↦ if get_or buffer r.description 0 == 0 then fewer else suc n
    ]

pub record Exploded : Type 0 where
  pub buffer : Bytes
  pub rows : List Row
  pub linecount : ℕ
  pub firstlinkline : ℤ
  pub lastlinkline : ℤ

pub trimmed : State → Exploded
unfolding trim_marker trim_empty
trimmed s = record {
  buffer = s.buffer;
  rows = s.rows;
  linecount = trim_empty s.rows s.buffer (trim_marker s.rows (length s.rows));
  firstlinkline = s.firstlinkline;
  lastlinkline = s.lastlinkline;
}

pub initial : Bytes → State
initial content = record {
  buffer = content ++ 0 ∷ [];
  cursor = 0;
  bufferlen = length content;
  rows = [];
  firstlinkline = minus_one;
  lastlinkline = minus_one;
}

-- What comes out: writes past the arrays, which have `maxlines` entries, or a menu.
pub data Exploding : Type 0 where
  overrun : Exploding
  exploded : Exploded → Exploding

-- The code asks for room once for each line of the menu, so the entries of a wrapped line may be more
-- than fit. Then the loop goes on no more, so that it is known at its end.
pub finished : ℕ → State → Exploding
unfolding trimmed
finished maxlines s = if ltb maxlines (length s.rows) then overrun else exploded (trimmed s)

-- The menu in `content`; none without fuel.
unfoldable pub menu_explode : ℕ → ℕ → Bytes → Option Exploding
unfolding explode_loop finished initial
menu_explode screenw maxlines content =
    Option.map (finished maxlines)
      (explode_loop (length content + 1) screenw maxlines (initial content))

-- What `display_menu` reads of an entry.
pub line_of : Bytes → Row → Line
line_of buffer r = record {
  itemtype = r.itemtype;
  host = string_at buffer (r.description + r.host);
  port = r.port;
  selector = string_at buffer (r.description + r.selector);
}

pub lines_of : Bytes → List Row → List Line
unfolding line_of
lines_of buffer [] = []
lines_of buffer (r ∷ rs) = line_of buffer r ∷ lines_of buffer rs

unfoldable pub page_of : Exploded → ℕ → Bytes → ℕ → ℕ → Page
unfolding lines_of
page_of e rowcount host protocol port = record {
  lines = lines_of e.buffer e.rows;
  linecount = e.linecount;
  firstlinkline = e.firstlinkline;
  lastlinkline = e.lastlinkline;
  rowcount = rowcount;
  host = host;
  protocol = protocol;
  port = port;
}

-- What `display_menu` reads of an entry: the strings in the buffer.
abbrev pub entry_of : Bytes → Row → Entry
entry_of buffer r = record { description = string_at buffer r.description; line = line_of buffer r }

abbrev pub entries_of : Bytes → List Row → List Entry
entries_of buffer [] = []
entries_of buffer (r ∷ rs) = entry_of buffer r ∷ entries_of buffer rs

-- What `display_menu` shows of the menu, where the entries fit the arrays.
abbrev pub listing : Exploding → Option (List Entry)
listing overrun = none
listing (exploded x) = some (take x.linecount (entries_of x.buffer x.rows))
