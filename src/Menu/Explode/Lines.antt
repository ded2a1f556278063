-- ===== src/Menu/Explode/Lines.antt =====
-- menu_explode: the loop over the lines of a menu that was printed.

use gopherus.Base.{
  ℕ, suc, ◌+◌, ◌<◌, ◌≤◌, ◌≡◌, refl, ap, ap₂, sym, subst, ◌∙◌, List, [], ◌∷◌, ◌++◌, append_assoc,
  append-nil, ==_ne, Bytes, none, some, length, length-append, All, arith, false, leb,
}
use gopherus.Menu.Item.{Entry}
use gopherus.Menu.Explode.{
  entry_of, entries_of, listing, string_at, advance, Row, State, wrap_line, one_line, explode_loop,
  trim_marker, trim_empty, trimmed, initial, Exploded, menu_explode, line_of, link_first, link_last,
}
use gopherus.Menu.Explode.Columns.{at, ahead}
use gopherus.Menu.Explode.Stored.{print_line, left, stored, advance-line}
use gopherus.Menu.Explode.Reading.{behind_described}
use gopherus.Menu.Explode.Wrapping.{Fits, entry_row, wrap_line-Fits, entry_of-row}

abbrev pub print : List Entry → Bytes → Bytes
print [] rest = rest
print (e ∷ es) rest = print_line e (print es rest)

-- The bytes of the lines, and `m` more.
abbrev pub lefts : List Entry → ℕ → ℕ
lefts [] m = m
lefts (e ∷ es) m = left e (lefts es m)

pub entries_of-append :
    (buffer : Bytes) (rs more : List Row)
    → entries_of buffer (rs ++ more) ≡ entries_of buffer rs ++ entries_of buffer more
entries_of-append buffer [] more = refl
entries_of-append buffer (r ∷ rs) more =
    ap (entry_of buffer r ∷◌) (entries_of-append buffer rs more)

-- The entries that are read of a start of the buffer stay when it grows.
abbrev pub Kept : List Row → List Entry → Bytes → Type 0
Kept rows done buffer = (r : Bytes) → entries_of (buffer ++ r) rows ≡ done

pub Kept-append :
    (rows : List Row) (done : List Entry) (b c : Bytes) → Kept rows done b → Kept rows done (b ++ c)
Kept-append rows done b c h r = ap (λ x. entries_of x rows) (append_assoc b c r) ∙ h (c ++ r)

-- The loop is behind the lines of `done`, with the buffer divided at the cursor; `m` bytes are left.
pub record Reached (pre rest : Bytes) (m : ℕ) (done : List Entry) (s : State) : Type 0 where
  pub buffer : s.buffer ≡ pre ++ ahead rest
  pub cursor : s.cursor ≡ length pre
  pub bufferlen : s.bufferlen ≡ m
  pub rows : Kept s.rows done pre

pub one_line-eq :
    (screenw : ℕ) (pre todo : Bytes) (n m : ℕ) (s : State) (split : ℕ × gopherus.Menu.Explode.Split)
    → s.buffer ≡ pre ++ ahead todo
    → s.cursor ≡ length pre
    → s.bufferlen ≡ n
    → advance n (at pre todo 0 none none none) ≡ split
    → one_line screenw s ≡ wrap_line screenw s split
unfolding one_line at
one_line-eq screenw pre todo n m s split b c l e = rw (b, c, l, e) refl

one_line-Reached :
    (screenw m : ℕ) (pre rest : Bytes) (done : List Entry) (e : Entry) (s : State)
    → Fits screenw e
    → Reached pre (print_line e rest) (left e m) done s
    → (t : State) × (one_line screenw s ≡ some t) × Reached (stored pre e) rest m (done ++ e ∷ []) t
one_line-Reached screenw m pre rest done e s h reached = (
  _,
  one_line-eq screenw pre (print_line e rest) (left e m) m s _ reached.buffer reached.cursor
        reached.bufferlen (advance-line pre rest e m h.plain)
      ∙ wrap_line-Fits screenw m pre rest e s h reached.cursor,
  record {
    buffer = refl;
    cursor = refl;
    bufferlen = refl;
    rows = λ r.
        entries_of-append (stored pre e ++ r) s.rows (entry_row pre e ∷ [])
        ∙ ap₂ (λ a b. a ++ b ∷ [])
            (behind_described pre e (Kept s.rows done) (Kept-append s.rows done)
              (Kept-append s.rows done _ (0 ∷ [])
                (Kept-append s.rows done pre (e.line.itemtype ∷ e.description) reached.rows))
              r)
            (entry_of-row screenw pre r e h);
  },
)

pub length-entries_of : (buffer : Bytes) (rs : List Row) → length (entries_of buffer rs) ≡ length rs
length-entries_of buffer [] = refl
length-entries_of buffer (r ∷ rs) = ap suc (length-entries_of buffer rs)

pub Reached-length :
    (pre rest : Bytes) (m : ℕ) (done : List Entry) (s : State)
    → Reached pre rest m done s
    → length s.rows ≡ length done
Reached-length pre rest m done s r =
    sym (length-entries_of (pre ++ []) s.rows) ∙ ap length (r.rows [])

pub explode_step :
    (fuel screenw maxlines : ℕ) (s t : State)
    → 0 < s.bufferlen
    → length s.rows < maxlines
    → one_line screenw s ≡ some t
    → explode_loop (suc fuel) screenw maxlines s ≡ explode_loop fuel screenw maxlines t
unfolding explode_loop
explode_step fuel screenw maxlines s t b k e =
    let more : leb maxlines (length s.rows) ≡ false = ground arith in
    rw (==_ne s.bufferlen 0 (λ z. omega arith), more, e) refl

-- The loop over all lines of a menu.
pub explode_loop-Reached :
    (es : List Entry) (screenw maxlines fuel m : ℕ) (pre rest : Bytes) (done : List Entry)
    (s : State)
    → All (Fits screenw) es
    → length done + length es ≤ maxlines
    → Reached pre (print es rest) (lefts es m) done s
    → (t : State) × (pre' : Bytes) × (explode_loop (length es + fuel) screenw maxlines s
        ≡ explode_loop fuel screenw maxlines t)
      × Reached pre' rest m (done ++ es) t
explode_loop-Reached [] screenw maxlines fuel m pre rest done s h k r = (
  s,
  pre,
  ap (λ n. explode_loop n screenw maxlines s) (omega arith),
  subst (λ d. Reached pre rest m d s) (sym (append-nil done)) r,
)
explode_loop-Reached (e ∷ es) screenw maxlines fuel m pre rest done s h k r =
    let (t, one, there) =
      one_line-Reached screenw (lefts es m) pre (print es rest) done e s h.0 r in
    let (u, pre', run, last) =
      explode_loop-Reached es screenw maxlines fuel m (stored pre e) rest (done ++ e ∷ []) t h.1
        (omega (arith, length-append done (e ∷ []))) there in
    (
      u,
      pre',
      ap (λ n. explode_loop n screenw maxlines s) (omega arith)
          ∙ explode_step (length es + fuel) screenw maxlines s t (rw r.bufferlen (omega arith))
              (omega (arith, Reached-length pre (print (e ∷ es) rest) (lefts (e ∷ es) m) done s r))
              one
          ∙ run,
      subst (λ d. Reached pre' rest m d u) (append_assoc done (e ∷ []) es) last,
    )
