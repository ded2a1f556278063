-- ===== src/Wordwrap.antt =====
-- wordwrap.c: one screen line cut off the front of a text. Strings are lists without their nul;
-- a pointer into the text is the rest of the text from there, and NULL is `none`. `width` is at
-- least 0 here.
mod Shape
pub mod Fitting
pub mod Text
mod Tests
use mathlib.Core.Option
use gopherus.Base.{
  ℕ, suc, zero, ◌+◌, ◌-◌, Bool, true, false, ◌&&◌, Option, none, some, List, [], ◌∷◌, ◌++◌, ltb,
  ◌==◌, if◌then◌else◌, take, drop, Bytes,
}

pub record Wrapped : Type 0 where
  pub line : Bytes
  pub next : Option Bytes

-- TABs are replaced by spaces
abbrev pub detab : ℕ → ℕ
detab c = if c == b'\t' then b' ' else c

-- `while (*str == ' ') str += 1;` and NULL at the end of the text
pub skip_spaces : Bytes → Option Bytes
skip_spaces [] = none
skip_spaces (c ∷ rest) = if c == b' ' then skip_spaces rest else some (c ∷ rest)

-- The loop was left at `x == width`.
cut : Bytes → ℕ → ℕ → Bytes → Wrapped
unfolding skip_spaces
cut str lastspace x line =
    if lastspace == 0
    then record { line = take x line; next = some (drop x str) }
    else record { line = take lastspace line; next = skip_spaces (drop lastspace str) }

-- `prev` is `str[x - 1]`, if `x > 0`. The CR of a CR/LF couple is deleted with the LF.
ends_at : ℕ → ℕ → Bytes → Bytes
ends_at x prev line = if ltb 0 x && prev == b'\r' then take (x - 1) line else line

-- The loop; `line` holds the bytes below `x`, and the last argument is the text from `str[x]`.
pub scan : Bytes → ℕ → ℕ → ℕ → ℕ → Bytes → Bytes → Wrapped
unfolding cut ends_at
scan str width x lastspace prev line [] = record { line = line; next = none }
scan str width x lastspace prev line (c ∷ rest) =
    let lastspace' = if detab c == b' ' then x else lastspace in
    let line' = line ++ detab c ∷ [] in
    let more = scan str width (suc x) lastspace' c line' rest in
    if x == width
    then cut str lastspace' x line'
    else if c == b'\n'
    then record { line = ends_at x prev line; next = some rest }
    else more

unfoldable pub wordwrap : Bytes → ℕ → Wrapped
unfolding scan
wordwrap str width = scan str width 0 0 0 [] str

-- The loop of `display_text` over the lines of a text (and of tests/wraptest.c), with fuel.
unfoldable pub wrap_lines : ℕ → ℕ → Bytes → Option (List Bytes)
wrap_lines zero width str = none
wrap_lines (suc fuel) width str =
    let w = wordwrap str width in
    elim w.next [
      | none ↦ some (w.line ∷ [])
      | some rest ↦ Option.map (w.line ∷◌) (wrap_lines fuel width rest)
    ]
