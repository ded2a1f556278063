-- ===== src/Wordwrap/Text.antt =====
-- What `wordwrap` and the loop over it promise: lines that fit, no text lost, and an end.

use gopherus.Base.{
  All-left, ℕ, suc, zero, ◌≤◌, ◌<◌, ◌≡◌, ◌≢◌, refl, sym, ap, ◌∙◌, inl, inr, Bool, ◌||◌, Option,
  none, some, List, [], ◌∷◌, ◌++◌, map, append-nil, append_assoc, arith, ◌==◌, if◌then◌else◌,
  length, length-append, All, Bytes, Option-cases,
}
use gopherus.Wordwrap.{Wrapped, detab, skip_spaces, wordwrap, wrap_lines}
use gopherus.Wordwrap.Shape.{Shape, ended, at_width, at_space, at_newline, NotLf, wordwrap-Shape}

-- The text with blanks left out: spaces, TABs, CRs and LFs.
abbrev pub is_blank : ℕ → Bool
is_blank c = c == b' ' || c == b'\t' || c == b'\r' || c == b'\n'

abbrev pub solid : Bytes → Bytes
solid [] = []
solid (c ∷ cs) = let rest = solid cs in if is_blank c then rest else c ∷ rest

abbrev pub rest_of : Option Bytes → Bytes
rest_of none = []
rest_of (some s) = s

abbrev pub flat : List Bytes → Bytes
flat [] = []
flat (l ∷ ls) = l ++ flat ls

solid-append : (xs ys : Bytes) → solid (xs ++ ys) ≡ solid xs ++ solid ys
solid-append [] ys = refl
solid-append (x ∷ xs) ys = ground (arith, solid-append xs ys)

solid-detab : (xs : Bytes) → solid (map detab xs) ≡ solid xs
solid-detab [] = refl
solid-detab (x ∷ xs) = ground (arith, solid-detab xs)

solid-skip_spaces : (xs : Bytes) → solid (rest_of (skip_spaces xs)) ≡ solid xs
unfolding skip_spaces
solid-skip_spaces [] = refl
solid-skip_spaces (x ∷ xs) = ground (arith, solid-skip_spaces xs)

length-skip_spaces : (xs s : Bytes) → skip_spaces xs ≡ some s → length s ≤ length xs
unfolding skip_spaces
length-skip_spaces [] s h = cc
length-skip_spaces (x ∷ xs) s h = ground (arith, length-skip_spaces xs s)

length-detab : (xs : Bytes) → length (map detab xs) ≡ length xs
length-detab [] = refl
length-detab (x ∷ xs) = ap suc (length-detab xs)

-- A byte that may stand in a line.
abbrev pub InLine : ℕ → Type 0
InLine c = (c ≢ b'\n') × (c ≢ b'\t')

detab-InLine : (xs : Bytes) → All NotLf xs → All InLine (map detab xs)
detab-InLine [] h = tt
detab-InLine (x ∷ xs) h = ((λ e. ground arith, λ e. ground arith), detab-InLine xs h.1)

-- A line for the screen: short enough, with no LF and no TAB.
pub record IsLine (width : ℕ) (line : Bytes) : Type 0 where
  pub fits : length line ≤ width
  pub plain : All InLine line

IsLine-detab :
    (width : ℕ) (xs line : Bytes)
    → length xs ≤ width
    → All NotLf xs
    → line ≡ map detab xs
    → IsLine width line
IsLine-detab width xs line h a e =
    rw e (record { fits = omega (arith, length-detab xs); plain = detab-InLine xs a })

Shape-IsLine : (width : ℕ) (str : Bytes) (w : Wrapped) → Shape width str w → IsLine width w.line
Shape-IsLine width str w (ended h a l n) = IsLine-detab width str w.line h a l
Shape-IsLine width str w (at_width b r s h a l n) = IsLine-detab width b w.line (omega arith) a l
Shape-IsLine width str w (at_space b r s p h a l n) = IsLine-detab width b w.line h a l
Shape-IsLine width str w (at_newline b r s h a (inl l) n) =
    IsLine-detab width b w.line (omega arith) a l
Shape-IsLine width str w (at_newline b r s h a (inr (t, c, l)) n) =
    IsLine-detab width t w.line (omega (arith, ap length c, length-append t (b'\r' ∷ [])))
      (All-left NotLf t (b'\r' ∷ []) (rw c at a)) l

-- A line is never longer than the width, and holds no LF and no TAB.
pub wordwrap-IsLine : (str : Bytes) (width : ℕ) → IsLine width (wordwrap str width).line
wordwrap-IsLine str width = Shape-IsLine width str (wordwrap str width) (wordwrap-Shape str width)

solid_parts :
    (str before after line : Bytes)
    → str ≡ before ++ after
    → line ≡ map detab before
    → solid str ≡ solid line ++ solid after
solid_parts str b r line s l = rw (s, l, solid-append, solid-detab)

Shape-solid :
    (width : ℕ) (str : Bytes) (w : Wrapped)
    → Shape width str w
    → solid str ≡ solid w.line ++ solid (rest_of w.next)
Shape-solid width str w (ended h a l n) = rw (l, n, solid-detab, append-nil)
Shape-solid width str w (at_width b r s h a l n) = rw n (solid_parts str b r w.line s l)
Shape-solid width str w (at_space b r s p h a l n) =
    rw (n, solid-skip_spaces) (solid_parts str b r w.line s l)
Shape-solid width str w (at_newline b r s h a (inl l) n) =
    rw n (solid_parts str b (b'\n' ∷ r) w.line s l)
Shape-solid width str w (at_newline b r s h a (inr (t, c, l)) n) =
    rw n (solid_parts str t (b'\r' ∷ b'\n' ∷ r) w.line (rw (s, c, append_assoc)) l)

-- No text is lost and none is invented: but for blanks, the line and the rest are the text.
pub wordwrap-solid :
    (str : Bytes) (width : ℕ)
    → solid str ≡ solid (wordwrap str width).line ++ solid (rest_of (wordwrap str width).next)
wordwrap-solid str width = Shape-solid width str (wordwrap str width) (wordwrap-Shape str width)

Shape-next :
    (width : ℕ) (str s : Bytes) (w : Wrapped)
    → 0 < width
    → Shape width str w
    → w.next ≡ some s
    → length s < length str
Shape-next width str s w p (ended h a l n) e = cc
Shape-next width str s w p (at_width b r q h a l n) e =
    let same : r ≡ s = ground arith in omega (arith, ap length q, length-append b r, ap length same)
Shape-next width str s w p (at_space b r q o h a l n) e =
    omega (arith, ap length q, length-append b r, length-skip_spaces r s (sym n ∙ e))
Shape-next width str s w p (at_newline b r q h a l n) e =
    let same : r ≡ s = ground arith in
    omega (arith, ap length q, length-append b (b'\n' ∷ r), ap length same)

-- With a width above 0 every call makes progress.
pub wordwrap-next :
    (str : Bytes) (width : ℕ) (s : Bytes)
    → 0 < width
    → (wordwrap str width).next ≡ some s
    → length s < length str
wordwrap-next str width s h =
    Shape-next width str s (wordwrap str width) h (wordwrap-Shape str width)

-- The loop over the lines of a text ends, with fuel for one step more than the text is long and a
-- width above 0. Every line fits, and but for blanks the lines together are the text.
pub wrap_lines_total :
    (fuel width : ℕ) (str : Bytes)
    → 0 < width
    → length str < fuel
    → (lines : List Bytes) × (wrap_lines fuel width str ≡ some lines)
      × All (IsLine width) lines
      × (solid (flat lines) ≡ solid str)
unfolding wrap_lines
wrap_lines_total zero width str h k = absurd (omega arith)
wrap_lines_total (suc fuel) width str h k = elim (Option-cases (wordwrap str width).next) [
  | inl end ↦ (
    (wordwrap str width).line ∷ [],
    rw (end, wrap_lines),
    (wordwrap-IsLine str width, tt),
    rw append-nil (sym (wordwrap-solid str width ∙ rw end (append-nil _))),
  )
  | inr (rest, more) ↦
      let (ls, e, a, t) =
        wrap_lines_total fuel width rest h (omega (arith, wordwrap-next str width rest h more)) in
      (
        (wordwrap str width).line ∷ ls,
        rw (more, wrap_lines) (rw e),
        (wordwrap-IsLine str width, a),
        rw (solid-append, t) (sym (wordwrap-solid str width ∙ rw more)),
      )
]
