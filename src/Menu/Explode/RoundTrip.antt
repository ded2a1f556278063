-- ===== src/Menu/Explode/RoundTrip.antt =====
-- menu_explode reads back a menu that was printed.
use mathlib.Core.Option
use gopherus.Base.{
  ltb, ℕ, suc, zero, ◌+◌, ◌-◌, ◌<◌, ◌≤◌, ◌≡◌, ◌≢◌, refl, ap, ap₂, sym, ◌∙◌, List, [], ◌∷◌, ◌++◌,
  append_assoc, ◌==◌, ==→eq, Bytes, Option, some, length, length-append, All, get_or, get_elem?,
  take, take-prefix, arith, false, inl, inr, Bool-cases, print_u,
}
use gopherus.Menu.Item.{Entry}
use gopherus.Menu.Explode.{
  entry_of, entries_of, listing, string_at, Row, State, explode_loop, finished, trim_marker,
  trim_empty, trimmed, initial, menu_explode,
}
use gopherus.Menu.Explode.Columns.{ahead, ahead-plain}
use gopherus.Menu.Explode.Wrapping.{Fits}
use gopherus.Menu.Explode.Marker.{end_marker, ended, advance-marker, marker_row, wrap_line-marker}
use gopherus.Menu.Explode.Lines.{
  print, lefts, Kept-append, Reached, one_line-eq, Reached-length, explode_step,
  explode_loop-Reached, entries_of-append,
}

-- The menu as a server sends it, with the marker at its end.
abbrev pub menu_of : List Entry → Bytes
menu_of es = print es (b'.' ∷ b'\r' ∷ b'\n' ∷ [])

print-nul : (es : List Entry) (rest : Bytes) → print es rest ++ 0 ∷ [] ≡ print es (rest ++ 0 ∷ [])
print-nul [] rest = refl
print-nul (e ∷ es) rest =
    let l = e.line in
    let in_line : (s t u : Bytes) (c : ℕ) → t ++ 0 ∷ [] ≡ u → (s ++ c ∷ t) ++ 0 ∷ [] ≡ s ++ c ∷ u =
      λ s t u c h. append_assoc s (c ∷ t) (0 ∷ []) ∙ ap (λ v. s ++ c ∷ v) h in
    in_line (l.itemtype ∷ e.description) _ _ b'\t' (
      in_line l.selector _ _ b'\t' (
        in_line l.host _ _ b'\t'
          (in_line (print_u l.port) _ _ b'\r' (ap (b'\n' ∷◌) (print-nul es rest)))))

length-print : (es : List Entry) (rest : Bytes) → length (print es rest) ≡ lefts es (length rest)
length-print [] rest = refl
length-print (e ∷ es) rest =
    let l = e.line in
    let in_line : (s t : Bytes) (c n : ℕ) → length t ≡ n → length (s ++ c ∷ t) ≡ length s + suc n =
      λ s t c n h. length-append s (c ∷ t) ∙ omega arith in
    in_line (l.itemtype ∷ e.description) _ b'\t' _ (
      in_line l.selector _ b'\t' _ (
        in_line l.host _ b'\t' _
          (in_line (print_u l.port) _ b'\r' _ (ap suc (length-print es rest)))))

lefts-le : (es : List Entry) (m : ℕ) → length es + m ≤ lefts es m
lefts-le [] m = omega arith
lefts-le (e ∷ es) m = omega (arith, lefts-le es m)

ahead-print :
    (screenw : ℕ) (es : List Entry)
    → All (Fits screenw) es
    → ahead (print es end_marker) ≡ print es end_marker
ahead-print screenw [] h = ahead-plain b'.' _ (λ e. ground arith)
ahead-print screenw (e ∷ es) h =
    let fits : Fits screenw e = h.0 in ahead-plain e.line.itemtype _ fits.plain.itemtype.3

start-Reached :
    (screenw : ℕ) (es : List Entry)
    → All (Fits screenw) es
    → Reached [] (print es end_marker) (lefts es 3) [] (initial (menu_of es))
unfolding initial
start-Reached screenw es h = record {
  buffer = print-nul es _ ∙ sym (ahead-print screenw es h);
  cursor = refl;
  bufferlen = length-print es _;
  rows = λ r. refl;
}

get_elem?-snoc : {A : Type 0} (xs : List A) (x : A) → get_elem? (xs ++ x ∷ []) (length xs) ≡ some x
get_elem?-snoc [] x = refl
get_elem?-snoc (y ∷ xs) x = get_elem?-snoc xs x

last_row :
    (buffer : Bytes) (es : List Entry) (last : Entry) (rows more : List Row)
    → entries_of buffer rows ≡ es ++ last ∷ []
    → (r : Row) × (get_elem? (rows ++ more) (length es) ≡ some r) × (entry_of buffer r ≡ last)
last_row buffer [] last [] more e = cc
last_row buffer [] last (r ∷ rows) more e = (r, refl, cc)
last_row buffer (x ∷ es) last [] more e = cc
last_row buffer (x ∷ es) last (r ∷ rows) more e = last_row buffer es last rows more cc

string_at-nul : (buffer : Bytes) (p : ℕ) → get_or buffer p 0 ≡ 0 → string_at buffer p ≡ []
unfolding string_at
string_at-nul [] zero h = refl
string_at-nul [] (suc p) h = refl
string_at-nul (c ∷ buffer) zero h = rw h refl
string_at-nul (c ∷ buffer) (suc p) h = string_at-nul buffer p h

-- Without its marker, a menu that ends with a line that has a description is as long as its lines.
trim-marker :
    (buffer pre : Bytes) (es : List Entry) (last : Entry) (rows : List Row)
    → entries_of buffer rows ≡ es ++ last ∷ []
    → last.description ≢ []
    → length rows ≡ suc (length es)
    → let all = rows ++ marker_row pre ∷ [] in
      trim_empty all buffer (trim_marker all (length all)) ≡ suc (length es)
unfolding trim_empty trim_marker
trim-marker buffer pre es last rows e h n =
    let all = rows ++ marker_row pre ∷ [] in
    let (r, there, same) = last_row buffer es last rows (marker_row pre ∷ []) e in
    let shown : (get_or buffer r.description 0 == 0) ≡ false =
      elim (Bool-cases (get_or buffer r.description 0 == 0)) [
        | inl nul ↦ absurd (
            h (
              sym (ap (λ (x : Entry). x.description) same)
              ∙ string_at-nul buffer r.description (==→eq _ 0 nul)))
        | inr other ↦ other
      ] in
    let size : length all ≡ suc (suc (length es)) =
      length-append rows (marker_row pre ∷ []) ∙ omega arith in
    let marker : get_elem? all (suc (length es)) ≡ some (marker_row pre) =
      ap (get_elem? all) (sym n) ∙ get_elem?-snoc rows (marker_row pre) in
    rw (size, trim_marker, marker, trim_empty, there, shown) refl

-- Behind the last line: the marker, and the end.
explode_loop-marker :
    (screenw maxlines k : ℕ) (pre : Bytes) (es : List Entry) (last : Entry) (s : State)
    → Reached pre end_marker 3 (es ++ last ∷ []) s
    → last.description ≢ []
    → length es + 1 < maxlines
    → Option.map listing
        (Option.map (finished maxlines) (explode_loop (suc (suc k)) screenw maxlines s))
      ≡ some (some (es ++ last ∷ []))
unfolding finished trimmed explode_loop
explode_loop-marker screenw maxlines k pre es last s r h n =
    let one =
      one_line-eq screenw pre end_marker 3 0 s _ r.buffer r.cursor r.bufferlen (advance-marker pre)
      ∙ wrap_line-marker screenw pre s r.cursor in
    let size =
      Reached-length pre end_marker 3 (es ++ last ∷ []) s r ∙ length-append es (last ∷ []) in
    let step =
      explode_step (suc k) screenw maxlines s _ (omega (arith, r.bufferlen)) (omega (arith, size))
        one in
    let buffer = ended pre ++ 0 ∷ [] in
    let kept : entries_of buffer s.rows ≡ es ++ last ∷ [] =
      Kept-append s.rows (es ++ last ∷ []) _ (0 ∷ [])
        (Kept-append s.rows (es ++ last ∷ []) _ (0 ∷ [])
          (Kept-append s.rows (es ++ last ∷ []) pre (b'.' ∷ []) r.rows))
        (0 ∷ []) in
    let count = trim-marker buffer pre es last s.rows kept h (omega (arith, size)) in
    let all : entries_of buffer (s.rows ++ marker_row pre ∷ [])
        ≡ (es ++ last ∷ []) ++ entry_of buffer (marker_row pre) ∷ [] =
      entries_of-append buffer s.rows (marker_row pre ∷ [])
      ∙ ap (λ l. l ++ entry_of buffer (marker_row pre) ∷ []) kept in
    let whole : suc (length es) ≡ length (es ++ last ∷ []) =
      omega (arith, length-append es (last ∷ [])) in
    let room : ltb maxlines (length (s.rows ++ marker_row pre ∷ [])) ≡ false =
      ground (arith, length-append s.rows (marker_row pre ∷ []), size) in
    rw (step, room)
      (ap (λ l. some (some l)) (ap₂ take (count ∙ whole) all ∙ take-prefix (es ++ last ∷ []) _))

-- A menu that was printed is read back: each line gives one entry, with its type, its description,
-- its selector, its host and its port, in order, and the marker at the end is not shown. The columns
-- hold no nul, TAB, CR or LF, every description fits the screen, a line is shorter than 64 KiB, no port
-- is 0, the last line has a description, and there is an entry of the arrays for each line and one more.
-- Nothing is written past the arrays.
pub menu_explode-menu_of :
    (screenw maxlines : ℕ) (es : List Entry) (last : Entry)
    → All (Fits screenw) (es ++ last ∷ [])
    → last.description ≢ []
    → length es + 1 < maxlines
    → Option.map listing (menu_explode screenw maxlines (menu_of (es ++ last ∷ [])))
      ≡ some (some (es ++ last ∷ []))
unfolding menu_explode
menu_explode-menu_of screenw maxlines es last h d n =
    let lines = es ++ last ∷ [] in
    let start = start-Reached screenw lines h in
    let (t, pre, run, r) =
      explode_loop-Reached lines screenw maxlines (suc (suc (lefts lines 3 - length lines - 1))) 3
        [] end_marker [] (initial (menu_of lines)) h (omega (arith, length-append es (last ∷ [])))
        start in
    let fuel : length (menu_of lines) + 1
        ≡ length lines + suc (suc (lefts lines 3 - length lines - 1)) =
      omega (arith, length-print lines (b'.' ∷ b'\r' ∷ b'\n' ∷ []), lefts-le lines 3) in
    let shown : Option State → Option (Option (List Entry)) =
      λ o. Option.map listing (Option.map (finished maxlines) o) in
    ap (λ k. shown (explode_loop k screenw maxlines (initial (menu_of lines)))) fuel
    ∙ ap shown run
    ∙ explode_loop-marker screenw maxlines _ pre es last t r d n
