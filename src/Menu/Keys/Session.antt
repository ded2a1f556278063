-- ===== src/Menu/Keys/Session.antt =====
-- The keys of a menu, one after the other.
use gopherus.Base.{
  ℕ, suc, zero, ◌-◌, All, Option-cases, leb_ℤ, ltb_ℤ, ◌≡◌, ◌≢◌, refl, subst, Bool, true, false, not,
  ◌&&◌, ◌||◌, List, [], ◌∷◌, ◌==◌, if◌then◌else◌, Bytes, Option, none, some, get_elem?, Bool-cases,
  inl, inr, ℤ, pos, minus_one, arith, ◌%◌,
}
use gopherus.Menu.Item.{Line, isitemtypedownloadable}
use gopherus.Menu.Keys.{
  Page, Cursor, Key, Turn, Message, start, parsed, location, maxhostlen, maxsellen, link_at,
  with_line, go_to, follow, download, ask, edit_url, press, byte_at,
}
use gopherus.Menu.Keys.Links.{
  Links, Menu, Selected, nothing, link, no_links, links, Safe, jump-Selected, first-Selected,
  last-Selected, key_up-Safe, key_down-Safe,
}
use gopherus.Menu.Keys.Visible.{key_pgup-Safe, key_pgdown-Safe, all_downloads-Safe}
use gopherus.Url.Parse.{
  UrlParts, parsegopherurl, parseurl_error, parseurl_proto_gopher, parseurl_proto_http,
}

Safe-if :
    (b : Bool) (page : Page) (s t : Turn)
    → Safe page s
    → Safe page t
    → Safe page (if b then s else t)
Safe-if true page s t h k = h
Safe-if false page s t h k = k

line-found :
    (lines : List Line) (n : ℕ) → link_at lines n ≡ true → (l : Line) × (get_elem? lines n ≡ some l)
line-found [] n h = cc
line-found (l ∷ ls) zero h = (l, refl)
line-found (l ∷ ls) (suc n) h = line-found ls n h

pub with_line-pos :
    (page : Page) (n : ℕ) (l : Line) (f : Line → Turn) (otherwise : Turn)
    → get_elem? page.lines n ≡ some l
    → with_line page (pos n) f otherwise ≡ f l
unfolding with_line
with_line-pos page n l f otherwise h = rw (h, with_line) refl

with_line-Safe :
    (page : Page) (line : ℤ) (f : Line → Turn) (otherwise : Turn)
    → Selected page line
    → ((l : Line) → Safe page (f l))
    → (page.firstlinkline ≡ minus_one → Safe page otherwise)
    → Safe page (with_line page line f otherwise)
with_line-Safe page line f otherwise (nothing e a b) h k = rw e (unfold with_line in k a)
with_line-Safe page line f otherwise (link n e u) h k =
    let (l, g) = line-found page.lines n u in rw (e, with_line-pos page n l f otherwise g) (h l)

go_to-Safe : (page : Page) (p : UrlParts) → Safe page (go_to p)
unfolding go_to Safe
go_to-Safe page p = elim (Bool-cases (p.protocol == parseurl_error)) [
  | inl bad ↦ rw bad tt
  | inr good ↦
      let known = p.protocol == parseurl_proto_gopher || p.protocol == parseurl_proto_http in
      rw good (Safe-if known page (Turn.push p) (Turn.say Message.unsupported_protocol) tt tt)
]

download-Safe : (page : Page) (l : Line) → Safe page (download l)
unfolding download
download-Safe page l =
    let p = parsed l in
    let forced = record p { itemtype = b'9' } in
    Safe-if (isitemtypedownloadable p.itemtype) page (go_to forced)
      (Turn.say Message.not_downloadable) (go_to-Safe page forced) (unfold Safe in tt)

module _ (page : Page) (c : Cursor) (h : Selected page c.selectedline) where
  ask-Safe :
      (l : Line) (query : Option Bytes) (allocated : Bool) → Safe page (ask c l query allocated)
  unfolding ask Safe
  ask-Safe l none allocated = h
  ask-Safe l (some q) true = tt
  ask-Safe l (some q) false = tt

  edit_url-Safe : (edited : Option Bytes) → Safe page (edit_url c edited)
  unfolding edit_url Safe
  edit_url-Safe none = h
  edit_url-Safe (some url) =
      let p = parsegopherurl url maxhostlen maxsellen in
      elim (Bool-cases (p.protocol == parseurl_error)) [
        | inl bad ↦ rw bad h
        | inr good ↦ rw good tt
      ]

  enter-Safe :
      (l : Line) (query : Option Bytes) (allocated : Bool)
      → Safe page (if l.itemtype % 128 == b'7' then ask c l query allocated else follow l)
  unfolding follow
  enter-Safe l query allocated =
      Safe-if (l.itemtype % 128 == b'7') page (ask c l query allocated) (go_to (parsed l))
        (ask-Safe l query allocated) (go_to-Safe page (parsed l))

-- For a menu whose first and last link are as `menu_explode` gives them, with an entry of the arrays for
-- each line, and a selection that is a
-- link, or -1 where there is none, every key keeps the selection so and reads no entry outside the
-- arrays: the searches for the previous and the next link end at a link. The key that deletes a
-- bookmark needs a menu with a link.
pub press-Safe :
    (page : Page) (c : Cursor) (key : Key)
    → Menu page
    → Selected page c.selectedline
    → (key ≡ Key.del → page.firstlinkline ≢ minus_one)
    → Safe page (press page c key)
unfolding press Safe
press-Safe page c Key.backspc m h d = tt
press-Safe page c (Key.tab edited) m h d = edit_url-Safe page c h edited
press-Safe page c Key.bookmark m h d = tt
press-Safe page c Key.save_as m h d =
    with_line-Safe page c.selectedline _ _ h (download-Safe page) (λ e. h)
press-Safe page c (Key.enter query allocated) m h d =
    with_line-Safe page c.selectedline _ _ h (λ l. enter-Safe page c h l query allocated) (λ e. h)
press-Safe page c Key.down_all m h d = all_downloads-Safe page m.linked
press-Safe page c Key.del m h d =
    Safe-if (byte_at page.host 0 == b'#' && byte_at page.host 1 == b'w') page
      (with_line page c.selectedline Turn.del_bookmark Turn.fault) (Turn.stay c)
      (with_line-Safe page c.selectedline Turn.del_bookmark Turn.fault h (λ l. tt)
        (λ e. absurd (d refl e)))
      h
press-Safe page c (Key.esc true) m h d = tt
press-Safe page c (Key.esc false) m h d = h
press-Safe page c Key.help m h d = tt
press-Safe page c Key.jmp_home m h d = tt
press-Safe page c Key.jmp_main m h d =
    Safe-if (page.protocol == parseurl_proto_gopher && not (byte_at page.host 0 == b'#')) page
      (Turn.push (location page.host page.port b'1')) (Turn.stay c) tt h
press-Safe page c Key.refresh m h d = tt
press-Safe page c Key.home m h d = jump-Selected page c _ 0 h (first-Selected page m.linked)
press-Safe page c Key.up m h d = key_up-Safe page c m.linked h
press-Safe page c Key.pgup m h d = key_pgup-Safe page m.counted c h
press-Safe page c Key.end m h d =
    jump-Selected page c _ (page.linecount - (page.rowcount - 3)) h (last-Selected page m.linked)
press-Safe page c Key.down m h d = key_down-Safe page c m.linked h
press-Safe page c Key.pgdown m h d = key_pgdown-Safe page m.counted c h
press-Safe page c Key.other m h d = h

-- The cursor of the next turn of the loop, if there is one. A message, a bookmark and a download of
-- all lines end a turn and not the loop.
unfoldable pub next_turn : Cursor → Turn → Option Cursor
next_turn c (Turn.stay c') = some c'
next_turn c (Turn.say m) = some c
next_turn c Turn.add_bookmark = some c
next_turn c (Turn.downloads ls) = some c
next_turn c t = none

-- The loop of `display_menu` over the keys of a user: the turn at which it is left, or the last one.
unfoldable pub run : Page → Cursor → List Key → Turn
run page c [] = Turn.stay c
run page c (k ∷ ks) = elim (next_turn c (press page c k)) [
  | some c' ↦ run page c' ks
  | none ↦ press page c k
]

-- The cursor with which the loop is left, or the one that it goes on with.
unfoldable pub left_at : Page → Cursor → List Key → Cursor
left_at page c [] = c
left_at page c (k ∷ ks) = elim (next_turn c (press page c k)) [
  | some c' ↦ left_at page c' ks
  | none ↦ c
]

unselected :
    (page : Page) (c : Cursor)
    → Links page
    → c.selectedline ≡ minus_one
    → (leb_ℤ (pos 0) page.firstlinkline && ltb_ℤ c.selectedline (pos 0)) ≡ false
    → Selected page c.selectedline
unselected page c (no_links f l n) d e = nothing d f l
unselected page c (links f l g k u v w) d e = absurd (ground (arith, rw (g, d) at e))

start-Selected :
    (page : Page) (c : Cursor)
    → Links page
    → c.selectedline ≡ minus_one
    → Selected page (start page c).selectedline
unfolding start
start-Selected page c m d =
    elim (Bool-cases (leb_ℤ (pos 0) page.firstlinkline && ltb_ℤ c.selectedline (pos 0))) [
      | inl first ↦ rw first (first-Selected page m)
      | inr kept ↦ rw kept (unselected page c m d kept)
    ]

next_turn-Selected :
    (page : Page) (c d : Cursor) (t : Turn)
    → Selected page c.selectedline
    → Safe page t
    → next_turn c t ≡ some d
    → Selected page d.selectedline
unfolding next_turn Safe
next_turn-Selected page c d (Turn.stay c') h k e =
    let same : c' ≡ d = cc in subst (λ x. Selected page x.selectedline) same k
next_turn-Selected page c d (Turn.say m) h k e =
    let same : c ≡ d = cc in subst (λ x. Selected page x.selectedline) same h
next_turn-Selected page c d Turn.add_bookmark h k e =
    let same : c ≡ d = cc in subst (λ x. Selected page x.selectedline) same h
next_turn-Selected page c d (Turn.downloads ls) h k e =
    let same : c ≡ d = cc in subst (λ x. Selected page x.selectedline) same h
next_turn-Selected page c d t h k e = cc

run-more :
    (page : Page) (c c' : Cursor) (k : Key) (ks : List Key)
    → next_turn c (press page c k) ≡ some c'
    → run page c (k ∷ ks) ≡ run page c' ks
unfolding run
run-more page c c' k ks h = rw (h, run) refl

run-end :
    (page : Page) (c : Cursor) (k : Key) (ks : List Key)
    → next_turn c (press page c k) ≡ none
    → run page c (k ∷ ks) ≡ press page c k
unfolding run
run-end page c k ks h = rw (h, run) refl

run-Safe_from :
    (page : Page) (c : Cursor) (keys : List Key)
    → Menu page
    → Selected page c.selectedline
    → All (λ key. key ≡ Key.del → page.firstlinkline ≢ minus_one) keys
    → Safe page (run page c keys)
run-Safe_from page c [] m h d = unfold run Safe in h
run-Safe_from page c (k ∷ ks) m h d =
    let safe = press-Safe page c k m h d.0 in
    elim (Option-cases (next_turn c (press page c k))) [
      | inl end ↦ rw (run-end page c k ks end) safe
      | inr (c', more) ↦
          rw (run-more page c c' k ks more)
            (run-Safe_from page c' ks m (next_turn-Selected page c c' _ h safe more) d.1)
    ]

-- A menu that is shown for the first time, with whatever keys: the loop reads no entry outside the
-- arrays, whatever it ends with, and where it goes on a link is selected, or the menu has none. The
-- menu's first and last link are as `menu_explode` gives them, there is an entry of the arrays for each
-- of its lines, and the key that deletes a bookmark is pressed only in a menu with a link.
pub run-Safe :
    (page : Page) (c : Cursor) (keys : List Key)
    → Menu page
    → c.selectedline ≡ minus_one
    → All (λ key. key ≡ Key.del → page.firstlinkline ≢ minus_one) keys
    → Safe page (run page (start page c) keys)
run-Safe page c keys m e d =
    run-Safe_from page (start page c) keys m (start-Selected page c m.linked e) d
