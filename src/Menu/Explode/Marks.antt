-- ===== src/Menu/Explode/Marks.antt =====
-- menu_explode: the first and the last link among the entries, line by line.

use gopherus.Base.{
  ℕ, suc, zero, ◌≤◌, ◌<◌, ◌≡◌, refl, ap, ◌∙◌, ◌⊎◌, inl, inr, Bool, true, false, List, [], ◌∷◌, ◌++◌,
  ltb_ℤ, if◌then◌else◌, Option, length, All, arith, Bool-cases, ℤ, pos, minus_one,
}
use gopherus.Menu.Item.{isitemtypeselectable}
use gopherus.Menu.Explode.{Row, State, link_first, link_last}
use gopherus.Menu.Explode.Pieces.{Step, Unselectable}

unfoldable pub link_in : List Row → ℕ → Bool
link_in [] i = false
link_in (r ∷ rs) zero = isitemtypeselectable r.itemtype
link_in (r ∷ rs) (suc i) = link_in rs i

-- The first and the last link of the entries, or -1.
pub data Marks (rows : List Row) (first last : ℤ) : Type 0 where
  unmarked :
      first ≡ minus_one
      → last ≡ minus_one
      → ((i : ℕ) → link_in rows i ≡ false)
      → Marks rows first last
  marked :
      (f l : ℕ)
      → first ≡ pos f
      → last ≡ pos l
      → link_in rows f ≡ true
      → link_in rows l ≡ true
      → ((i : ℕ) → link_in rows i ≡ true → (f ≤ i) × (i ≤ l))
      → Marks rows first last

link_in-Unselectable : (rows : List Row) (i : ℕ) → All Unselectable rows → link_in rows i ≡ false
unfolding link_in
link_in-Unselectable [] i h = refl
link_in-Unselectable (r ∷ rs) zero h = h.0
link_in-Unselectable (r ∷ rs) (suc i) h = link_in-Unselectable rs i h.1

link_in-length : (rows : List Row) (i : ℕ) → link_in rows i ≡ true → i < length rows
unfolding link_in
link_in-length [] i h = cc
link_in-length (r ∷ rs) zero h = omega arith
link_in-length (r ∷ rs) (suc i) h = omega (arith, link_in-length rs i h)

-- What the entries of one more line change.
module _ (head : Row) (tail : List Row) (h : All Unselectable tail) where
  before :
      (rows : List Row) (i : ℕ) → link_in rows i ≡ true → link_in (rows ++ head ∷ tail) i ≡ true
  unfolding link_in
  before [] i e = cc
  before (r ∷ rs) zero e = e
  before (r ∷ rs) (suc i) e = before rs i e

  here :
      (rows : List Row)
      → link_in (rows ++ head ∷ tail) (length rows) ≡ isitemtypeselectable head.itemtype
  unfolding link_in
  here [] = refl
  here (r ∷ rs) = here rs

  after :
      (rows : List Row) (i : ℕ)
      → link_in (rows ++ head ∷ tail) i ≡ true
      → (link_in rows i ≡ true) ⊎ ((i ≡ length rows) × (isitemtypeselectable head.itemtype ≡ true))
  unfolding link_in
  after [] zero e = inr (refl, e)
  after [] (suc i) e = ground (arith, link_in-Unselectable tail i h)
  after (r ∷ rs) zero e = inl e
  after (r ∷ rs) (suc i) e = elim (after rs i e) [
    | inl there ↦ inl there
    | inr (same, link) ↦ inr (ap suc same, link)
  ]

  unlinked-Marks :
      (rows : List Row) (f l : ℤ)
      → isitemtypeselectable head.itemtype ≡ false
      → Marks rows f l
      → Marks (rows ++ head ∷ tail) f l
  unlinked-Marks rows f l e (unmarked a b n) = unmarked a b (λ i.
      elim (Bool-cases (link_in (rows ++ head ∷ tail) i)) [
        | inr other ↦ other
        | inl link_there ↦ elim (after rows i link_there) [
          | inl there ↦ cc (n i)
          | inr (same, link) ↦ cc
        ]
      ])
  unlinked-Marks rows f l e (marked n m a b u v w) =
      marked n m a b (before rows n u) (before rows m v)
        (λ i k. elim (after rows i k) [ inl there ↦ w i there | inr (same, link) ↦ cc ])

  first-Marks :
      (rows : List Row) (f l : ℤ)
      → isitemtypeselectable head.itemtype ≡ true
      → Marks rows f l
      → Marks
          (rows ++ head ∷ tail)
          (if ltb_ℤ f (pos 0) then pos (length rows) else f)
          (pos (length rows))
  first-Marks rows f l e (unmarked a b n) = rw a (
      marked (length rows) (length rows) refl refl (here rows ∙ e) (here rows ∙ e)
        (λ i k. elim (after rows i k) [ inl there ↦ cc (n i) | inr (same, link) ↦ omega arith ]))
  first-Marks rows f l e (marked n m a b u v w) = rw a (
      marked n (length rows) (ground arith) refl (before rows n u) (here rows ∙ e) (λ i k.
        elim (after rows i k) [
          | inl there ↦ omega (arith, (w i there).0, link_in-length rows i there)
          | inr (same, link) ↦ omega (arith, link_in-length rows n u)
        ]))

unfoldable pub Marked : State → Type 0
Marked s = Marks s.rows s.firstlinkline s.lastlinkline

pub Step-Marked :
    (s : State) (result : Option State) (r : Step s result) → Marked s → Marked r.after
unfolding Marked link_first link_last
Step-Marked s result r m = elim (Bool-cases (isitemtypeselectable r.itemtype)) [
  | inl link ↦
      rw (r.rows_are, r.first_is, r.last_is, link)
        (first-Marks r.head r.tail r.rest s.rows s.firstlinkline s.lastlinkline (r.linked ∙ link) m)
  | inr other ↦
      rw (r.rows_are, r.first_is, r.last_is, other)
        (unlinked-Marks r.head r.tail r.rest s.rows s.firstlinkline s.lastlinkline
          (r.linked ∙ other) m)
]
