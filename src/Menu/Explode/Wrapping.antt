-- ===== src/Menu/Explode/Wrapping.antt =====
-- menu_explode: a printed line that fits the screen becomes one entry, which reads as the line.
use mathlib.Core.Option
use native.Mathlib.Numerals.{add-one}
use gopherus.Base.{
  ℕ, suc, ◌+◌, ◌-◌, ◌<◌, ◌≤◌, ◌≡◌, ◌≢◌, refl, ap, ◌∙◌, [], ◌∷◌, ◌++◌, ==_ne, Bytes, none, some,
  length, length-append, All, All-map, set, arith, print_u, to_ushort, to_ushort-print_u, sub_ℕ,
  true,
}
use gopherus.Wordwrap.{Wrapped, wordwrap}
use gopherus.Wordwrap.Fitting.{wordwrap-fits}
use gopherus.Wordwrap.Text.{InLine}
use gopherus.Menu.Item.{Entry}
use gopherus.Menu.Explode.{
  entry_of, string_at, Row, Item, offset, port_of, row_of, next_piece, wrap_rows, State, wraplen,
  wrap_line, link_first, link_last, type_of, line_of,
}
use gopherus.Menu.Explode.Columns.{Plain, at, ahead}
use gopherus.Menu.Explode.Stored.{left, IsPlain, described, selected, hosted, stored}
use gopherus.Menu.Explode.Reading.{stored-Reads}

-- What is asked of a line: its description fits the screen, its offsets an unsigned short, and it
-- has a port that is not 0.
pub record Fits (screenw : ℕ) (e : Entry) : Type 0 where
  pub plain : IsPlain e
  pub width : length e.description ≤ wraplen screenw e.line.itemtype
  pub short : left e 0 < 65536
  pub port : 0 < e.line.port
  pub port_bound : e.line.port < 65536

pub wrap_rows-fits :
    (fuel : ℕ) (item : Item) (buffer : Bytes) (p : ℕ) (d : Bytes)
    → string_at buffer p ≡ d
    → length d ≤ item.wraplen
    → All InLine d
    → set buffer (p + length d) 0 ≡ buffer
    → wrap_rows (suc fuel) item true buffer p ≡ some (row_of item true buffer p ∷ [], buffer)
unfolding wrap_rows next_piece
wrap_rows-fits fuel item buffer p d e h a same =
    let w : wordwrap (string_at buffer p) item.wraplen ≡ record { line = d; next = none } =
      ap (λ str. wordwrap str item.wraplen) e ∙ wordwrap-fits d item.wraplen h a in
    let same' : set buffer (p + length (wordwrap (string_at buffer p) item.wraplen).line) 0
        ≡ buffer =
      ap (λ (v : Wrapped). set buffer (p + length v.line) 0) w ∙ same in
    rw (wrap_rows, w, same') refl

-- The entry of the arrays for the line.
pub entry_row : Bytes → Entry → Row
entry_row pre e =
    let p = length pre + 1 in
    record {
      itemtype = e.line.itemtype;
      description = p;
      selector = to_ushort (sub_ℕ (length (described pre e) + 1) p);
      host = to_ushort (sub_ℕ (length (selected pre e) + 1) p);
      port = e.line.port;
    }

port_of-digits :
    (buffer : Bytes) (p n : ℕ)
    → string_at buffer p ≡ print_u n
    → 0 < n
    → n < 65536
    → port_of buffer (some p) ≡ n
unfolding port_of
port_of-digits buffer p n e h k = rw (e, to_ushort-print_u n k, ==_ne n 0 (λ z. omega arith)) refl

pub type_of-ne : (c : ℕ) → c ≢ 0 → type_of c ≡ c
unfolding type_of
type_of-ne c h = rw (==_ne c 0 h) refl

-- The line becomes one entry.
pub wrap_line-Fits :
    (screenw m : ℕ) (pre rest : Bytes) (e : Entry) (s : State)
    → Fits screenw e
    → s.cursor ≡ length pre
    → wrap_line screenw s (
      m,
      at
          (stored pre e)
          rest
          3
          (some (length (described pre e) + 1))
          (some (length (selected pre e) + 1))
          (some (length (hosted pre e) + 1)),
    )
      ≡ some (record {
        buffer = stored pre e ++ ahead rest;
        cursor = length (stored pre e);
        bufferlen = m;
        rows = s.rows ++ entry_row pre e ∷ [];
        firstlinkline = link_first e.line.itemtype s;
        lastlinkline = link_last e.line.itemtype s;
      })
unfolding wrap_line at row_of offset entry_row
wrap_line-Fits screenw m pre rest e s h c =
    let r = stored-Reads pre e h.plain in
    let more = ahead rest in
    let inline = All-map Plain InLine e.description (λ c k. (k.2, k.1)) h.plain.description in
    let item : Item = record {
      itemtype = e.line.itemtype;
      selector = some (length (described pre e) + 1);
      host = some (length (selected pre e) + 1);
      port = some (length (hosted pre e) + 1);
      wraplen = wraplen screenw e.line.itemtype;
    } in
    let p = port_of-digits (stored pre e ++ more) _ e.line.port (r.port more) h.port h.port_bound in
    rw (c, r.itemtype more, type_of-ne e.line.itemtype h.plain.itemtype.0, add-one)
      (ap (Option.map _) (
          wrap_rows-fits (length (stored pre e ++ more)) item (stored pre e ++ more)
            (length pre + 1) e.description (r.description more) h.width inline (r.ended more))
        ∙ rw p refl)

offset-back : (d p : ℕ) → d ≤ p → p - d < 65536 → d + to_ushort (sub_ℕ p d) ≡ p
offset-back d p h k = ground arith

module _ (pre : Bytes) (e : Entry) where
  length-described : length (described pre e) ≡ length pre + suc (length e.description)
  length-described = length-append pre (e.line.itemtype ∷ e.description)

  length-selected : length (selected pre e) ≡ length (described pre e) + 1 + length e.line.selector
  length-selected =
      length-append (described pre e ++ 0 ∷ []) e.line.selector
      ∙ omega (arith, length-append (described pre e) (0 ∷ []))

pub entry_of-row :
    (screenw : ℕ) (pre r : Bytes) (e : Entry)
    → Fits screenw e
    → entry_of (stored pre e ++ r) (entry_row pre e) ≡ e
unfolding line_of entry_row
entry_of-row screenw pre r e h =
    let reads = stored-Reads pre e h.plain in
    let short : left e 0 < 65536 = h.short in
    let p = length pre + 1 in
    let buffer = stored pre e ++ r in
    let selector = length (described pre e) + 1 in
    let host = length (selected pre e) + 1 in
    let at_selector : p + to_ushort (sub_ℕ selector p) ≡ selector =
      offset-back p selector (omega (arith, length-described pre e))
        (omega (arith, length-described pre e)) in
    let at_host : p + to_ushort (sub_ℕ host p) ≡ host =
      offset-back p host (omega (arith, length-described pre e, length-selected pre e))
        (omega (arith, length-described pre e, length-selected pre e)) in
    rw (at_selector, at_host, reads.description r, reads.selector r, reads.host r) refl
