-- ===== src/Menu/Explode/Pieces.antt =====
-- menu_explode: its loops end, and keep within the buffer.
use mathlib.Core.Option
use gopherus.Base.{
  length-drop, length-set, up_to_nul, ℕ, suc, zero, ◌+◌, ◌-◌, ◌≤◌, ◌<◌, ◌≡◌, refl, ap, ◌∙◌, inl,
  inr, Bool, ◌&&◌, true, false, List, [], ◌∷◌, ◌++◌, ◌==◌, Bytes, Option, none, some, length, All,
  get_or, set, drop, arith, Option-cases, Bool-cases,
}
use gopherus.Menu.Item.{isitemtypeselectable}
use gopherus.Menu.Explode.{
  string_at, Split, at_tab, without_cr, advance, Row, continued, Item, row_of, next_piece,
  wrap_rows, State, wraplen, wrap_line, one_line, link_first, link_last, type_of,
}
use gopherus.Wordwrap.{wordwrap}
use gopherus.Wordwrap.Text.{wordwrap-next}

length-up_to_nul : (s : Bytes) → length (up_to_nul s) ≤ length s
length-up_to_nul [] = omega arith
length-up_to_nul (c ∷ s) = ground (arith, length-up_to_nul s)

-- A string that starts in the buffer ends in it.
pub length-string_at : (buffer : Bytes) (p : ℕ) → length (string_at buffer p) ≤ length buffer - p
unfolding string_at
length-string_at buffer p = omega (arith, length-up_to_nul (drop p buffer), length-drop p buffer)

length-without_cr : (buffer : Bytes) (p : ℕ) → length (without_cr buffer p) ≡ length buffer
unfolding without_cr
length-without_cr buffer p = ground (arith, length-set buffer p 0)

length-at_tab : (s : Split) → length (at_tab s).buffer ≡ length s.buffer
unfolding at_tab
length-at_tab s = elim (Bool-cases (get_or s.buffer s.cursor 0 == b'\t')) [
  | inl tab ↦ rw tab (length-set s.buffer s.cursor 0)
  | inr other ↦ rw other refl
]

-- What is left of the bytes, and the buffer, behind the loop that advances.
Advanced : ℕ → Bytes → ℕ × Split → Type 0
Advanced n buffer r = (r.0 ≤ n - 1) × (length r.1.buffer ≡ length buffer)

advance-Advanced : (n : ℕ) (s : Split) → Advanced n s.buffer (advance n s)
unfolding advance Advanced
advance-Advanced zero s = (omega arith, refl)
advance-Advanced (suc n) s =
    let t = at_tab s in
    let buffer = without_cr t.buffer (t.cursor + 1) in
    let kept : length buffer ≡ length s.buffer =
      length-without_cr t.buffer (t.cursor + 1) ∙ length-at_tab s in
    let more = advance-Advanced n (record t { buffer = buffer; cursor = t.cursor + 1 }) in
    elim (Bool-cases (get_or buffer t.cursor 0 == b'\n')) [
      | inl lf ↦ rw lf (omega arith, length-set buffer t.cursor 0 ∙ kept)
      | inr other ↦ rw other (omega (arith, more.0), more.1 ∙ kept)
    ]

abbrev pub Unselectable : Row → Type 0
Unselectable r = isitemtypeselectable r.itemtype ≡ false

continued-high : (t : ℕ) → isitemtypeselectable (continued t) ≡ false
unfolding continued
continued-high t = ground arith

row_of-selectable :
    (item : Item) (b : Bool) (buffer : Bytes) (p : ℕ)
    → isitemtypeselectable (row_of item b buffer p).itemtype
      ≡ (b && isitemtypeselectable item.itemtype)
unfolding row_of
row_of-selectable item true buffer p = refl
row_of-selectable item false buffer p = continued-high item.itemtype

-- The entries of a line: a first one, which may be a link, and then ones that are not.
record Entries (link : Bool) (buffer : Bytes) (result : Option (List Row × Bytes)) : Type 0 where
  pub head : Row
  pub tail : List Row
  pub written : Bytes
  pub result_is : result ≡ some (head ∷ tail, written)
  pub linked : isitemtypeselectable head.itemtype ≡ link
  pub rest : All Unselectable tail
  pub kept : length written ≡ length buffer

wrap_rows_total :
    (fuel : ℕ) (item : Item) (b : Bool) (buffer : Bytes) (p : ℕ)
    → 0 < item.wraplen
    → length buffer - p < fuel
    → Entries (b && isitemtypeselectable item.itemtype) buffer (wrap_rows fuel item b buffer p)
unfolding wrap_rows next_piece
wrap_rows_total zero item b buffer p h k = absurd (omega arith)
wrap_rows_total (suc fuel) item b buffer p h k =
    let str = string_at buffer p in
    let w = wordwrap str item.wraplen in
    let buffer' = set buffer (p + length w.line) 0 in
    let same = length-set buffer (p + length w.line) 0 in
    elim (Option-cases w.next) [
      | inl end ↦ record {
        head = row_of item b buffer' p;
        tail = [];
        written = buffer';
        result_is = rw (end, wrap_rows) refl;
        linked = row_of-selectable item b buffer' p;
        rest = tt;
        kept = same;
      }
      | inr (s, more) ↦
          let q = p + (length str - length s) in
          let shorter = wordwrap-next str item.wraplen s h more in
          let inside = length-string_at buffer p in
          let r = wrap_rows_total fuel item false buffer' q h (omega (arith, same)) in
          record {
            head = row_of item b buffer' p;
            tail = r.head ∷ r.tail;
            written = r.written;
            result_is = rw (more, wrap_rows) (rw r.result_is refl);
            linked = row_of-selectable item b buffer' p;
            rest = (r.linked, r.rest);
            kept = r.kept ∙ same;
          }
    ]

-- One more line of the menu: fewer bytes are left, and its entries stand behind the others.
pub record Step (s : State) (result : Option State) : Type 0 where
  pub after : State
  pub head : Row
  pub tail : List Row
  pub itemtype : ℕ
  pub result_is : result ≡ some after
  pub shorter : after.bufferlen ≤ s.bufferlen - 1
  pub rows_are : after.rows ≡ s.rows ++ head ∷ tail
  pub linked : isitemtypeselectable head.itemtype ≡ isitemtypeselectable itemtype
  pub rest : All Unselectable tail
  pub first_is : after.firstlinkline ≡ link_first itemtype s
  pub last_is : after.lastlinkline ≡ link_last itemtype s

wraplen-pos : (screenw t : ℕ) → 4 < screenw → 0 < wraplen screenw t
unfolding wraplen
wraplen-pos screenw t h = ground arith

wrap_line-Step :
    (screenw : ℕ) (s : State) (split : ℕ × Split)
    → 4 < screenw
    → split.0 ≤ s.bufferlen - 1
    → Step s (wrap_line screenw s split)
unfolding wrap_line
wrap_line-Step screenw s split h k =
    let t = split.1 in
    let itemtype = type_of (get_or t.buffer s.cursor 0) in
    let item : Item = record {
      itemtype = itemtype;
      selector = t.selector;
      host = t.host;
      port = t.port;
      wraplen = wraplen screenw itemtype;
    } in
    let r =
      wrap_rows_total (length t.buffer + 1) item true t.buffer (s.cursor + 1)
        (wraplen-pos screenw itemtype h) (omega arith) in
    record {
      after = _;
      head = r.head;
      tail = r.tail;
      itemtype = itemtype;
      result_is = ap (Option.map _) r.result_is;
      shorter = k;
      rows_are = refl;
      linked = r.linked;
      rest = r.rest;
      first_is = refl;
      last_is = refl;
    }

pub one_line-Step : (screenw : ℕ) (s : State) → 4 < screenw → Step s (one_line screenw s)
unfolding one_line Advanced
one_line-Step screenw s h =
    let start : Split = record {
      buffer = s.buffer;
      cursor = s.cursor;
      colid = 0;
      selector = none;
      host = none;
      port = none;
    } in
    wrap_line-Step screenw s (advance s.bufferlen start) h (advance-Advanced s.bufferlen start).0
