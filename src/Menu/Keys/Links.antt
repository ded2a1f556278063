-- ===== src/Menu/Keys/Links.antt =====
-- The selection of a menu: it is always a link, no key makes the code look outside the menu's lines,
-- and the searches for the next link end.
use gopherus.Base.{
  ◌≢◌, ℕ, suc, zero, ◌+◌, ◌-◌, ◌≤◌, ◌<◌, ◌≡◌, refl, sym, ap, ◌∙◌, inl, inr, Bool, true, false, List,
  [], ◌∷◌, ◌≢◌, arith, leb, length, get_elem?, if◌then◌else◌, some, drop, Bool-cases, ℤ, pos,
  minus_one, pos_part, ◌+ℤ◌, ltb→lt, ltb_ℤ, leb_ℤ,
}
use gopherus.Menu.Item.{Line, isitemtypeselectable}
use gopherus.Menu.Keys.{
  Page, Cursor, Turn, link_at, prev_link, next_link, on_screen, up_to, key_up, scrolled, down_to,
  key_down, jump, select,
}

-- What `menu_explode` says of the links: there are none, or they are between the first and the last.
pub data Links (page : Page) : Type 0 where
  no_links :
      page.firstlinkline ≡ minus_one
      → page.lastlinkline ≡ minus_one
      → ((i : ℕ) → link_at page.lines i ≡ false)
      → Links page
  links :
      (f l : ℕ)
      → page.firstlinkline ≡ pos f
      → page.lastlinkline ≡ pos l
      → link_at page.lines f ≡ true
      → link_at page.lines l ≡ true
      → ((i : ℕ) → link_at page.lines i ≡ true → (f ≤ i) × (i ≤ l))
      → Links page

-- A menu as `menu_explode` gives it: there is an entry of the arrays for each of its lines.
pub record Menu (page : Page) : Type 0 where
  pub linked : Links page
  pub counted : page.linecount ≤ length page.lines

-- The selected line is a link, or it is -1 and the menu has no link.
pub data Selected (page : Page) (line : ℤ) : Type 0 where
  nothing :
      line ≡ minus_one
      → page.firstlinkline ≡ minus_one
      → page.lastlinkline ≡ minus_one
      → Selected page line
  link : (n : ℕ) → line ≡ pos n → link_at page.lines n ≡ true → Selected page line

pub line_at :
    (lines : List Line) (i : ℕ)
    → i < length lines
    → (l : Line) × (get_elem? lines i ≡ some l)
      × (link_at lines i ≡ isitemtypeselectable l.itemtype)
line_at [] i h = absurd (omega arith)
line_at (l ∷ ls) zero h = (l, refl, refl)
line_at (l ∷ ls) (suc i) h = line_at ls i (omega arith)

pub link_at-lt : (lines : List Line) (i : ℕ) → link_at lines i ≡ true → i < length lines
link_at-lt [] i h = cc
link_at-lt (l ∷ ls) zero h = omega arith
link_at-lt (l ∷ ls) (suc i) h = omega (arith, link_at-lt ls i h)

distinct : (lines : List Line) (n f : ℕ) → link_at lines n ≡ false → link_at lines f ≡ true → f ≢ n
distinct lines n f h e same = cc

prev_link-found :
    (lines : List Line) (n f : ℕ)
    → n ≤ length lines
    → f < n
    → link_at lines f ≡ true
    → (k : ℕ) × (prev_link lines n ≡ some k) × (link_at lines k ≡ true)
unfolding prev_link
prev_link-found lines zero f b h e = absurd (omega arith)
prev_link-found lines (suc n) f b h e =
    let (l, here, same) = line_at lines n (omega arith) in
    rw (here, prev_link)
      (elim (Bool-cases (isitemtypeselectable l.itemtype)) [
        | inl good ↦ rw good (n, refl, same ∙ good)
        | inr other ↦
            let earlier : link_at lines n ≡ false = same ∙ other in
            rw other (
              prev_link-found lines n f (omega arith)
                (omega (arith, h, distinct lines n f earlier e)) e)
      ])

link_at-drop : (lines : List Line) (n i : ℕ) → link_at (drop n lines) i ≡ link_at lines (n + i)
link_at-drop lines zero i = ap (link_at lines) (omega arith)
link_at-drop [] (suc n) i = refl
link_at-drop (l ∷ ls) (suc n) i =
    let e : suc (n + i) ≡ suc n + i = omega arith in link_at-drop ls n i ∙ ap (link_at (l ∷ ls)) e

next_link-found :
    (ls : List Line) (i j : ℕ)
    → link_at ls j ≡ true
    → (k : ℕ) × (next_link ls i ≡ some (i + k)) × (link_at ls k ≡ true)
unfolding next_link
next_link-found [] i j e = cc
next_link-found (l ∷ ls) i zero e = rw e (0, ap some (omega arith), e)
next_link-found (l ∷ ls) i (suc j) e = elim (Bool-cases (isitemtypeselectable l.itemtype)) [
  | inl here ↦ rw here (0, ap some (omega arith), here)
  | inr other ↦
      let (k, f, g) = next_link-found ls (suc i) j e in
      rw other (suc k, f ∙ ap some (omega arith), g)
]

-- What a turn may be: the selection stays a link, and nothing outside the arrays is read.
unfoldable pub Safe : Page → Turn → Type 0
Safe page (Turn.stay c) = Selected page c.selectedline
Safe page Turn.fault = ⊥
Safe page _ = Unit

Selected-if :
    (b : Bool) (page : Page) (c d : Cursor)
    → Selected page c.selectedline
    → Selected page d.selectedline
    → Selected page (if b then c else d).selectedline
Selected-if true page c d h k = h
Selected-if false page c d h k = k

select-Selected :
    (page : Page) (c : Cursor) (n : ℕ)
    → link_at page.lines n ≡ true
    → Selected page (select c n).selectedline
unfolding select
select-Selected page c n e = link n refl e

up_to-Selected :
    (page : Page) (c : Cursor) (n : ℕ)
    → Selected page c.selectedline
    → link_at page.lines n ≡ true
    → Selected page (up_to c n).selectedline
unfolding up_to
up_to-Selected page c n h e =
    let c' = record c { screenlineoffset = c.screenlineoffset - 1 } in
    Selected-if (leb c.screenlineoffset n) page (select c n) _ (select-Selected page c n e) (
      Selected-if (leb (c.screenlineoffset - 1) n) page (select c' n) c'
        (select-Selected page c' n e) h)

scrolled-Selected :
    (page : Page) (c : Cursor)
    → Selected page c.selectedline
    → Selected page (scrolled page c).selectedline
unfolding scrolled
scrolled-Selected page c h =
    Selected-if _ page (record c { screenlineoffset = c.screenlineoffset + 1 }) c h h

down_to-Selected :
    (page : Page) (c : Cursor) (n : ℕ)
    → Selected page c.selectedline
    → link_at page.lines n ≡ true
    → Selected page (down_to page c n).selectedline
unfolding down_to
down_to-Selected page c n h e =
    let c' = scrolled page c in
    Selected-if (on_screen page c.screenlineoffset n) page (select c n) _
      (select-Selected page c n e)
      (Selected-if (on_screen page c'.screenlineoffset n) page (select c' n) c'
        (select-Selected page c' n e) (scrolled-Selected page c h))

pub jump-Selected :
    (page : Page) (c : Cursor) (line : ℤ) (offset : ℕ)
    → Selected page c.selectedline
    → Selected page line
    → Selected page (jump c line offset).selectedline
unfolding jump
jump-Selected page c line offset h k = elim (Bool-cases (leb_ℤ (pos 0) c.selectedline)) [
  | inl some_line ↦ rw some_line k
  | inr no_line ↦ rw no_line h
]

pub first-Selected : (page : Page) → Links page → Selected page page.firstlinkline
first-Selected page (no_links f l n) = nothing f f l
first-Selected page (links f l e k u v w) = link f e u

pub last-Selected : (page : Page) → Links page → Selected page page.lastlinkline
last-Selected page (no_links f l n) = nothing l f l
last-Selected page (links f l e k u v w) = link l k v

above-first :
    (page : Page) (line : ℤ)
    → Links page
    → Selected page line
    → ltb_ℤ page.firstlinkline line ≡ true
    → (f n : ℕ) × (line ≡ pos n) × (f < n) × (n ≤ length page.lines) × (link_at page.lines f ≡ true)
above-first page line (no_links f l n) (nothing e a b) h = cc (rw (f, e) at h)
above-first page line (no_links f l n) (link k e u) h = cc (n k, u)
above-first page line (links f l e k u v w) (nothing d a b) h = cc
above-first page line (links f l e k u v w) (link n d o) h = (
  f,
  n,
  d,
  ltb→lt f n (ground (arith, rw (e, d) at h)),
  omega (arith, link_at-lt page.lines n o),
  u,
)

below-last :
    (page : Page) (line : ℤ)
    → Links page
    → Selected page line
    → ltb_ℤ line page.lastlinkline ≡ true
    → (l n : ℕ) × (line ≡ pos n) × (n < l) × (link_at page.lines l ≡ true)
below-last page line (no_links f l n) (nothing e a b) h = cc (rw (l, e) at h)
below-last page line (no_links f l n) (link k e u) h = cc (n k, u)
below-last page line (links f l e k u v w) (nothing d a b) h = cc
below-last page line (links f l e k u v w) (link n d o) h =
    (l, n, d, ltb→lt n l (ground (arith, rw (k, d) at h)), v)

pub key_up-Safe :
    (page : Page) (c : Cursor)
    → Links page
    → Selected page c.selectedline
    → Safe page (key_up page c)
unfolding key_up Safe
key_up-Safe page c m h = elim (Bool-cases (ltb_ℤ page.firstlinkline c.selectedline)) [
  | inr first ↦ rw first h
  | inl more ↦
      let (f, n, e, lt, b, u) = above-first page c.selectedline m h more in
      let (k, found, o) = prev_link-found page.lines n f b lt u in
      rw more (rw (ap pos_part e, found) (up_to-Selected page c k h o))
]

pub key_down-Safe :
    (page : Page) (c : Cursor)
    → Links page
    → Selected page c.selectedline
    → Safe page (key_down page c)
unfolding key_down Safe
key_down-Safe page c m h =
    elim (Bool-cases (ltb_ℤ (pos (c.screenlineoffset + (page.rowcount - 3))) c.selectedline)) [
      | inl below ↦ rw below h
      | inr other ↦ rw other (elim (Bool-cases (ltb_ℤ c.selectedline page.lastlinkline)) [
        | inr last ↦ rw last (scrolled-Selected page c h)
        | inl more ↦
            let (l, n, e, lt, v) = below-last page c.selectedline m h more in
            let j : suc n + (l - suc n) ≡ l = omega arith in
            let (k, found, o) =
              next_link-found (drop (suc n) page.lines) (suc n) (l - suc n)
                (link_at-drop page.lines (suc n) (l - suc n) ∙ ap (link_at page.lines) j ∙ v) in
            let from : pos_part (c.selectedline +ℤ pos 1) ≡ suc n = rw e (ground arith) in
            rw more (
              rw (from, found)
                (down_to-Selected page c (suc n + k) h
                  (sym (link_at-drop page.lines (suc n) k) ∙ o)))
      ])
    ]
