-- ===== src/Menu/Keys/Visible.antt =====
-- The keys of a menu that look through its lines: Page Up, Page Down and the download of all lines.
use gopherus.Base.{
  ℕ, suc, zero, ◌+◌, ◌-◌, ◌≤◌, ◌≡◌, refl, ◌∙◌, inl, inr, Bool, true, false, List, [], ◌∷◌, arith,
  leb, ltb, length, Option, if◌then◌else◌, some, Bool-cases, ℤ, pos, pos_part, ◌+ℤ◌, ltb_ℤ, leb_ℤ,
}
use gopherus.Menu.Item.{Line, isitemtypeselectable, isitemtypedownloadable}
use gopherus.Menu.Keys.{
  Page, Cursor, Turn, last_visible, first_visible, key_pgup, key_pgdown, selected, downloads_from,
  all_downloads,
}
use gopherus.Menu.Keys.Links.{Links, no_links, links, Selected, link, Safe, line_at, link_at-lt}

-- A search on the screen reads inside the arrays, and what it selects is a link.
Found : Page → Option ℤ → Type 0
Found page r = (sel : ℤ) × (r ≡ some sel) × Selected page sel

module _ (page : Page) (counted : page.linecount ≤ length page.lines) where
  last_visible-Found :
      (n i : ℕ) (sel : ℤ) → Selected page sel → Found page (last_visible n page i sel)
  unfolding last_visible Found
  last_visible-Found zero i sel h = (sel, refl, h)
  last_visible-Found (suc n) i sel h = elim (Bool-cases (leb page.linecount i)) [
    | inl over ↦ rw over (sel, refl, h)
    | inr within ↦
        let (l, here, same) = line_at page.lines i (ground arith) in
        rw (within, here)
          (elim (Bool-cases (isitemtypeselectable l.itemtype)) [
            | inl good ↦ rw good (last_visible-Found n (i + 1) (pos i) (link i refl (same ∙ good)))
            | inr other ↦ rw other (last_visible-Found n (i + 1) sel h)
          ])
  ]

  first_visible-Found :
      (n i : ℕ) (sel : ℤ) → Selected page sel → Found page (first_visible n page i sel)
  unfolding first_visible Found
  first_visible-Found zero i sel h = (sel, refl, h)
  first_visible-Found (suc n) i sel h = elim (Bool-cases (leb page.linecount i)) [
    | inl over ↦ rw over (sel, refl, h)
    | inr within ↦
        let (l, here, same) = line_at page.lines i (ground arith) in
        rw (within, here)
          (elim (Bool-cases (isitemtypeselectable l.itemtype)) [
            | inl good ↦ rw good (pos i, refl, link i refl (same ∙ good))
            | inr other ↦ rw other (first_visible-Found n (i + 1) sel h)
          ])
  ]

  selected-Safe : (off : ℕ) (r : Option ℤ) → Found page r → Safe page (selected off r)
  unfolding selected Safe Found
  selected-Safe off r (sel, e, h) = rw e h

  either_way : (b : Bool) (s t : Turn) → Safe page s → Safe page t → Safe page (if b then s else t)
  either_way true s t h k = h
  either_way false s t h k = k

  pub key_pgup-Safe : (c : Cursor) → Selected page c.selectedline → Safe page (key_pgup page c)
  unfolding key_pgup Safe
  key_pgup-Safe c h =
      let height = page.rowcount - 2 in
      let off = if leb height c.screenlineoffset then c.screenlineoffset - height else 0 in
      either_way (leb_ℤ (pos (off + height)) c.selectedline) _ _
        (selected-Safe off _ (last_visible-Found height off c.selectedline h)) h

  pub key_pgdown-Safe : (c : Cursor) → Selected page c.selectedline → Safe page (key_pgdown page c)
  unfolding key_pgdown Safe
  key_pgdown-Safe c h =
      let height = page.rowcount - 2 in
      let off =
        if ltb c.screenlineoffset (page.linecount - height)
        then c.screenlineoffset + height
        else c.screenlineoffset in
      either_way (ltb_ℤ c.selectedline (pos off)) _ _
        (selected-Safe off _ (first_visible-Found height off c.selectedline h)) h

downloads_from_total :
    (n : ℕ) (lines : List Line) (i : ℕ)
    → n + i ≤ length lines
    → (ls : List Line) × (downloads_from n lines i ≡ some ls)
unfolding downloads_from
downloads_from_total zero lines i h = ([], refl)
downloads_from_total (suc n) lines i h =
    let (l, here, same) = line_at lines i (omega arith) in
    let (ls, e) = downloads_from_total n lines (i + 1) (omega arith) in
    (if isitemtypedownloadable l.itemtype then l ∷ ls else ls, rw (downloads_from, here, e) refl)

pub all_downloads-Safe : (page : Page) → Links page → Safe page (all_downloads page)
unfolding all_downloads Safe
all_downloads-Safe page (no_links a b n) = rw a tt
all_downloads-Safe page (links f l a b u v w) =
    let low = link_at-lt page.lines l v in
    let past : pos_part (pos l +ℤ pos 1) ≡ suc l = ground arith in
    let (ls, e) = downloads_from_total (suc l - f) page.lines f (omega (arith, low, (w l v).0)) in
    rw (all_downloads, a, b, past, e) tt
