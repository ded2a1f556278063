-- ===== src/Menu/Explode/Links.antt =====
-- menu_explode: the first and the last link that it gives, for every buffer, are those that the keys
-- of the menu work with.
use mathlib.Core.Option
use gopherus.Base.{
  ℕ, suc, zero, ◌+◌, ◌≤◌, ◌<◌, ◌≡◌, ◌≢◌, refl, sym, ap, ◌∙◌, inl, inr, List, [], ◌∷◌, leb, ltb,
  subst, ◌==◌, Bytes, Option, some, length, All, arith, Bool-cases, minus_one,
}
use gopherus.Menu.Keys.{link_at, Cursor, Key, start}
use gopherus.Menu.Keys.Links.{Links, Menu, no_links, links, Safe}
use gopherus.Menu.Keys.Session.{run, run-Safe}
use gopherus.Menu.Explode.{
  Row, State, one_line, explode_loop, menu_explode, initial, Exploded, trimmed, trim_marker,
  trim_empty, Exploding, overrun, exploded, finished, line_of, lines_of, page_of,
}
use gopherus.Menu.Explode.Pieces.{one_line-Step}
use gopherus.Menu.Explode.Marks.{link_in, Marks, unmarked, marked, Marked, Step-Marked}

explode_loop_total :
    (fuel screenw maxlines : ℕ) (s : State)
    → 4 < screenw
    → s.bufferlen < fuel
    → Marked s
    → (t : State) × (explode_loop fuel screenw maxlines s ≡ some t) × Marked t
unfolding explode_loop
explode_loop_total zero screenw maxlines s h k m = absurd (omega arith)
explode_loop_total (suc fuel) screenw maxlines s h k m = elim (Bool-cases (s.bufferlen == 0)) [
  | inl end ↦ (s, rw end refl, m)
  | inr more ↦ elim (Bool-cases (leb maxlines (length s.rows))) [
    | inl full ↦ (s, rw (more, full) refl, m)
    | inr room ↦
        let r = one_line-Step screenw s h in
        let bound = r.shorter in
        let (t, e, n) =
          explode_loop_total fuel screenw maxlines r.after h (ground arith)
            (Step-Marked s (one_line screenw s) r m) in
        (t, rw (more, room, r.result_is) e, n)
  ]
]

lines_of-link :
    (buffer : Bytes) (rows : List Row) (i : ℕ) → link_at (lines_of buffer rows) i ≡ link_in rows i
unfolding lines_of line_of link_in
lines_of-link buffer [] i = refl
lines_of-link buffer (r ∷ rs) zero = refl
lines_of-link buffer (r ∷ rs) (suc i) = lines_of-link buffer rs i

page_of-Links :
    (e : Exploded) (rowcount : ℕ) (host : Bytes) (protocol port : ℕ)
    → Marks e.rows e.firstlinkline e.lastlinkline
    → Links (page_of e rowcount host protocol port)
unfolding page_of
page_of-Links e rowcount host protocol port (unmarked a b n) =
    no_links a b (λ i. lines_of-link e.buffer e.rows i ∙ n i)
page_of-Links e rowcount host protocol port (marked f l a b u v w) =
    links f l a b (lines_of-link e.buffer e.rows f ∙ u) (lines_of-link e.buffer e.rows l ∙ v)
      (λ i k. w i (sym (lines_of-link e.buffer e.rows i) ∙ k))

trim_marker-le : (rows : List Row) (n : ℕ) → trim_marker rows n ≤ n
unfolding trim_marker
trim_marker-le rows zero = omega arith
trim_marker-le rows (suc n) = ground arith

trim_empty-le : (rows : List Row) (buffer : Bytes) (n : ℕ) → trim_empty rows buffer n ≤ n
unfolding trim_empty
trim_empty-le rows buffer zero = omega arith
trim_empty-le rows buffer (suc n) = ground (arith, trim_empty-le rows buffer n)

length-lines_of : (buffer : Bytes) (rows : List Row) → length (lines_of buffer rows) ≡ length rows
unfolding lines_of
length-lines_of buffer [] = refl
length-lines_of buffer (r ∷ rs) = ap suc (length-lines_of buffer rs)

page_of-Menu :
    (s : State) (rowcount : ℕ) (host : Bytes) (protocol port : ℕ)
    → Marked s
    → Menu (page_of (trimmed s) rowcount host protocol port)
unfolding page_of trimmed Marked
page_of-Menu s rowcount host protocol port m = record {
  linked = page_of-Links (trimmed s) rowcount host protocol port m;
  counted = omega (
    arith,
    trim_empty-le s.rows s.buffer (trim_marker s.rows (length s.rows)),
    trim_marker-le s.rows (length s.rows),
    length-lines_of s.buffer s.rows,
  );
}

-- What menu_explode may come to: no more entries are written than the arrays have, and they make a
-- menu, or there are more.
pub data Explosion (maxlines : ℕ) (s : State) (result : Option Exploding) : Type 0 where
  bursts : result ≡ some overrun → maxlines < length s.rows → Explosion maxlines s result
  fits :
      (e : Exploded)
      → result ≡ some (exploded e)
      → length e.rows ≤ maxlines
      → ((rowcount : ℕ) (host : Bytes) (protocol port : ℕ)
          → Menu (page_of e rowcount host protocol port))
      → Explosion maxlines s result

finished-Explosion :
    (maxlines : ℕ) (s : State) → Marked s → Explosion maxlines s (some (finished maxlines s))
unfolding finished
finished-Explosion maxlines s m = elim (Bool-cases (ltb maxlines (length s.rows))) [
  | inl over ↦ rw over (bursts refl (ground arith))
  | inr few ↦
      rw few (
        fits (trimmed s) refl (unfold trimmed in ground arith)
          (λ r n p q. page_of-Menu s r n p q m))
]

initial-Marked : (content : Bytes) → Marked (initial content)
unfolding Marked initial link_in
initial-Marked content = unmarked refl refl (λ i. refl)

-- On a screen of more than 4 columns the loops end for every buffer, whatever bytes it holds. Writes go
-- past the arrays only where the loops made more entries than the arrays have. Otherwise the first
-- and the last link that come out are the least and the greatest entry of a type that can be
-- selected, or both are -1 and there is no such entry, and there is an entry for each line.
pub menu_explode-Links :
    (screenw maxlines : ℕ) (content : Bytes)
    → 4 < screenw
    → (s : State) × (explode_loop (length content + 1) screenw maxlines (initial content) ≡ some s)
      × Explosion maxlines s (menu_explode screenw maxlines content)
unfolding menu_explode
menu_explode-Links screenw maxlines content h =
    let (s, e, m) =
      explode_loop_total (length content + 1) screenw maxlines (initial content) h (omega arith)
        (initial-Marked content) in
    (
      s,
      e,
      subst (λ r. Explosion maxlines s (Option.map (finished maxlines) r)) (sym e)
          (finished-Explosion maxlines s m),
    )

-- Whatever bytes a server sends for a menu: on a screen of more than 4 columns, and unless its entries
-- are written past the arrays, the menu that comes of them is one in which no keys make the loop of
-- `display_menu` read an entry outside the arrays, and where the loop goes on a link is selected, or
-- there is none. The menu is shown for the first time, and the key that deletes a bookmark is pressed
-- only in a menu with a link.
pub menu_explode-Safe :
    (screenw maxlines rowcount : ℕ) (content host : Bytes) (protocol port : ℕ) (c : Cursor)
    (keys : List Key)
    → 4 < screenw
    → menu_explode screenw maxlines content ≢ some overrun
    → c.selectedline ≡ minus_one
    → ((e : Exploded)
        → menu_explode screenw maxlines content ≡ some (exploded e)
        → All (λ key. key ≡ Key.del → e.firstlinkline ≢ minus_one) keys)
    → (e : Exploded) × (menu_explode screenw maxlines content ≡ some (exploded e))
      × Safe (page_of e rowcount host protocol port) (
          run
            (page_of e rowcount host protocol port)
            (start (page_of e rowcount host protocol port) c)
            keys)
menu_explode-Safe screenw maxlines rowcount content host protocol port c keys h room d k =
    let (s, ends, explosion) = menu_explode-Links screenw maxlines content h in
    elim explosion [
      | bursts result more ↦ absurd (room result)
      | fits e result few menus ↦
          let page = page_of e rowcount host protocol port in
          (
            e,
            result,
            run-Safe page c keys (menus rowcount host protocol port) d
                (unfold page_of in k e result),
          )
    ]
