-- ===== src/Menu/Explode/Marker.antt =====
-- menu_explode: the line `.` at the end of a menu.
use mathlib.Core.Option
use native.Mathlib.Numerals.{add-one}
use gopherus.Base.{
  ℕ, ◌+◌, ◌≡◌, ap, subst, append-nil, ◌∙◌, [], ◌∷◌, ◌++◌, Bytes, none, some, length, arith,
}
use gopherus.Menu.Explode.{
  advance, Row, Item, row_of, offset, port_of, State, wraplen, type_of, wrap_line, link_first,
  link_last,
}
use gopherus.Menu.Explode.Columns.{at, ahead-nul, advance-text, advance-cr, advance-lf}
use gopherus.Menu.Explode.Reading.{
  Str, Str-append, Str-here, Ended, Ended-append, Ended-here, Has, Has-append, Has-here, Str-at,
  length-snoc,
}
use gopherus.Menu.Explode.Wrapping.{wrap_rows-fits}

-- The line, with the nul behind the menu.
abbrev pub end_marker : Bytes
end_marker = b'.' ∷ b'\r' ∷ b'\n' ∷ 0 ∷ []

abbrev dotted : Bytes → Bytes
dotted pre = pre ++ b'.' ∷ []

abbrev pub ended : Bytes → Bytes
ended pre = (dotted pre ++ 0 ∷ []) ++ 0 ∷ []

pub advance-marker :
    (pre : Bytes)
    → advance 3 (at pre end_marker 0 none none none) ≡ (0, at (ended pre) (0 ∷ []) 0 none none none)
advance-marker pre =
    advance-text (b'.' ∷ []) pre (b'\r' ∷ b'\n' ∷ 0 ∷ []) 2 0 none none none (ground arith, tt)
    ∙ advance-cr (dotted pre) (b'\n' ∷ 0 ∷ []) 1 0 none none none
    ∙ advance-lf (dotted pre ++ 0 ∷ []) (0 ∷ []) 0 0 none none none

abbrev pub marker_row : Bytes → Row
marker_row pre = record {
  itemtype = b'.';
  description = length pre + 1;
  selector = 0;
  host = 0;
  port = 70;
}

module _ (pre : Bytes) where
  dot_here : Has (ended pre) (length pre) b'.'
  dot_here =
      Has-append (dotted pre ++ 0 ∷ []) (0 ∷ []) (length pre) b'.'
        (Has-append (dotted pre) (0 ∷ []) (length pre) b'.' (Has-here pre [] b'.'))

  nothing_behind : Str (ended pre) (length pre + 1) []
  nothing_behind = Str-append (dotted pre ++ 0 ∷ []) (0 ∷ []) (length pre + 1) [] (
      Str-at _ [] (length-snoc pre b'.') (
        subst (λ b. Str (b ++ 0 ∷ []) (length (dotted pre)) []) (append-nil (dotted pre))
          (Str-here (dotted pre) [] tt)))

  nul_there : Ended (ended pre) (length pre + 1 + 0)
  nul_there = Ended-append (dotted pre ++ 0 ∷ []) (0 ∷ []) (length pre + 1 + 0) (
      subst (Ended (dotted pre ++ 0 ∷ [])) (omega (arith, length-snoc pre b'.'))
        (Ended-here (dotted pre)))

-- The marker becomes one more entry, and the buffer is left alone.
pub wrap_line-marker :
    (screenw : ℕ) (pre : Bytes) (s : State)
    → s.cursor ≡ length pre
    → wrap_line screenw s (0, at (ended pre) (0 ∷ []) 0 none none none)
      ≡ some (record {
        buffer = ended pre ++ 0 ∷ [];
        cursor = length (ended pre);
        bufferlen = 0;
        rows = s.rows ++ marker_row pre ∷ [];
        firstlinkline = link_first b'.' s;
        lastlinkline = link_last b'.' s;
      })
unfolding wrap_line type_of at row_of offset port_of
wrap_line-marker screenw pre s c =
    let item : Item = record {
      itemtype = b'.';
      selector = none;
      host = none;
      port = none;
      wraplen = wraplen screenw b'.';
    } in
    let nul : Bytes = 0 ∷ [] in
    rw (c, ahead-nul [], dot_here pre nul, add-one)
      (ap (Option.map _) (
        wrap_rows-fits (length (ended pre ++ nul)) item (ended pre ++ nul) (length pre + 1) []
          (nothing_behind pre nul) (omega arith) tt (nul_there pre nul)))
