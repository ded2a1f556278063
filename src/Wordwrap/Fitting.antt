-- ===== src/Wordwrap/Fitting.antt =====
-- wordwrap.c: a text that fits the width, with no TAB and no LF, is its own line.
use gopherus.Base.{
  ℕ, suc, ◌+◌, ◌≤◌, ◌≡◌, refl, ap, ◌∙◌, [], ◌∷◌, ◌++◌, none, length, All, Bytes, append-nil,
  append_assoc, arith, ◌==◌, ==_ne, if◌then◌else◌,
}
use gopherus.Wordwrap.{Wrapped, scan, wordwrap}
use gopherus.Wordwrap.Text.{InLine}

whole : Bytes → Wrapped
whole line = record { line = line; next = none }

scan-fits :
    (str : Bytes) (width x lastspace prev : ℕ) (line rest : Bytes)
    → x + length rest ≤ width
    → All InLine rest
    → scan str width x lastspace prev line rest ≡ record { line = line ++ rest; next = none }
unfolding scan whole
scan-fits str width x lastspace prev line [] h a = rw append-nil refl
scan-fits str width x lastspace prev line (c ∷ rest) h a =
    let shorter =
      scan-fits str width (suc x)
        (if (if c == b'\t' then b' ' else c) == b' ' then x else lastspace) c
        (line ++ (if c == b'\t' then b' ' else c) ∷ []) rest (omega arith) a.1 in
    rw (==_ne x width (λ e. omega arith), ==_ne c b'\n' a.0.0, ==_ne c b'\t' a.0.1)
      (rw (==_ne c b'\t' a.0.1) at shorter ∙ ap whole (append_assoc line (c ∷ []) rest))

pub wordwrap-fits :
    (str : Bytes) (width : ℕ)
    → length str ≤ width
    → All InLine str
    → wordwrap str width ≡ record { line = str; next = none }
unfolding wordwrap
wordwrap-fits str width h a = scan-fits str width 0 0 0 [] str (omega arith) a
