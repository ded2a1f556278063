-- ===== src/Menu/Item.antt =====
-- gopherus.c: the lines of a menu that `display_menu` works on, and what their types allow.
use gopherus.Base.{
  ℕ, ◌%◌, Bool, false, not, ◌||◌, leb, ◌==◌, if◌then◌else◌, Bytes, Option, none, some, codes,
}

-- One entry of `line_itemtype`, `line_host_off`, `line_port` and `line_selector_off`; the offsets
-- stand for the strings that they lead to.
pub record Line : Type 0 where
  pub itemtype : ℕ
  pub host : Bytes
  pub port : ℕ
  pub selector : Bytes

-- A line with its description, as it is shown.
pub record Entry : Type 0 where
  pub description : Bytes
  pub line : Line

-- The type is a byte; its highest bit marks the continuation of a wrapped line.
abbrev pub isitemtypeselectable : ℕ → Bool
isitemtypeselectable itemtype =
    if leb 128 (itemtype % 256)
    then false
    else not (itemtype == b'i' || itemtype == b'3' || itemtype == b'.')

abbrev pub isitemtypedownloadable : ℕ → Bool
isitemtypedownloadable itemtype =
    if not (isitemtypeselectable itemtype) then false else not (itemtype == b'8')

-- The prefix of the line on the screen; none for a message.
unfoldable pub prefix : ℕ → Option Bytes
prefix itemtype =
    let base = itemtype % 128 in
    let name =
      if base == b'h'
      then some (codes "HTM")
      else if base == b'0'
      then some (codes "TXT")
      else if base == b'1'
      then some (codes "DIR")
      else if base == b'3'
      then some (codes "ERR")
      else if base == b'5' || base == b'9'
      then some (codes "BIN")
      else if base == b'7'
      then some (codes "ASK")
      else if base == b'8'
      then some (codes "TLN")
      else if base == b'I' || base == b'g'
      then some (codes "IMG")
      else if base == b'P' || base == b'd'
      then some (codes "PDF")
      else some (codes "UNK") in
    if base == b'i' then none else if leb 128 (itemtype % 256) then some (codes "   ") else name
