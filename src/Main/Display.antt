-- ===== src/Main/Display.antt =====
-- gopherus.c, main: the page that is shown, by display_menu or display_text.
use gopherus.Base.{
  ℕ, ◌-◌, ◌*◌, ◌||◌, List, [], ◌==◌, if◌then◌else◌, Bytes, Option, none, some, ℤ, pos, pos_part,
  take,
}
use gopherus.History.{Node, Request}
use gopherus.Menu.Explode.{Exploded, overrun, exploded, menu_explode, page_of}
use gopherus.Menu.Keys as Menu
use gopherus.Menu.Keys.Session as MenuLoop
use gopherus.TextView.{content, txt_format_htm, txt_format_raw}
use gopherus.TextView.Screen as Text
use gopherus.TextView.Screen.Session as TextLoop
use gopherus.Url.Parse.{UrlParts}

pub record Screen : Type 0 where
  pub rowcount : ℕ
  pub colcount : ℕ

-- The keys of the user, for a page of either kind.
pub record Keys : Type 0 where
  pub menu : List Menu.Key
  pub text : List Text.Key

pub data Order : Type 0 where
  no_order back refr quit : Order

-- What a display function does: its order, the page that it pushes, and the line and the offset that it
-- leaves in the page.
pub data Shown : Type 0 where
  left : Order → Option Request → ℤ → ℤ → Shown
  waiting fault : Shown

-- PAGEBUFSZ and MAXMENULINES
abbrev pub page_buf_size : ℕ
page_buf_size = 1024 * 1024

abbrev pub max_menu_lines : ℕ
max_menu_lines = 4096

request_of : UrlParts → Request
request_of p = record {
  protocol = p.protocol;
  host = p.host;
  port = p.port;
  itemtype = p.itemtype;
  selector = p.selector;
}

-- How display_menu returns; it goes on behind a message, a bookmark and the downloads.
menu_shown : ℤ → ℤ → Menu.Turn → Shown
unfolding request_of
menu_shown line offset Menu.Turn.back = Shown.left Order.back none line offset
menu_shown line offset Menu.Turn.refr = Shown.left Order.refr none line offset
menu_shown line offset Menu.Turn.quit = Shown.left Order.quit none line offset
menu_shown line offset (Menu.Turn.push p) =
    Shown.left Order.no_order (some (request_of p)) line offset
menu_shown line offset (Menu.Turn.del_bookmark l) = Shown.left Order.refr none line offset
menu_shown line offset Menu.Turn.fault = Shown.fault
menu_shown line offset turn = Shown.waiting

-- display_menu, from the line and the offset that it left in the page the last time.
menu_page : Screen → List Menu.Key → Node → Exploded → Shown
unfolding menu_shown
menu_page screen keys n e =
    let page = page_of e screen.rowcount n.host n.protocol n.port in
    let cursor : Menu.Cursor = record {
      selectedline = n.selected_line;
      screenlineoffset = pos_part n.screen_offset;
    } in
    let first = Menu.start page cursor in
    let c = MenuLoop.left_at page first keys in
    menu_shown c.selectedline (pos c.screenlineoffset) (MenuLoop.run page first keys)

cache_of : Node → Bytes
cache_of n = elim n.cache [ none ↦ [] | some page ↦ page ]

display_menu : Screen → List Menu.Key → Node → Shown
unfolding menu_page cache_of
display_menu screen keys n =
    elim (menu_explode screen.colcount max_menu_lines (take (page_buf_size - 1) (cache_of n))) [
      | none ↦ Shown.fault
      | some overrun ↦ Shown.fault
      | some (exploded e) ↦ menu_page screen keys n e
    ]

-- How display_text returns.
text_shown : Node → Option Text.Turn → Shown
unfolding request_of
text_shown n none = Shown.waiting
text_shown n (some Text.Turn.back) = Shown.left Order.back none n.selected_line n.screen_offset
text_shown n (some Text.Turn.refr) = Shown.left Order.refr none n.selected_line n.screen_offset
text_shown n (some Text.Turn.quit) = Shown.left Order.quit none n.selected_line n.screen_offset
text_shown n (some (Text.Turn.push p)) =
    Shown.left Order.no_order (some (request_of p)) n.selected_line n.screen_offset
text_shown n (some turn) = Shown.waiting

display_text : Screen → List Text.Key → Node → ℕ → Shown
unfolding text_shown cache_of
display_text screen keys n txtformat =
    let place : Text.Place = record {
      protocol = n.protocol;
      host = n.host;
      port = n.port;
      selector = n.selector;
      rowcount = screen.rowcount;
    } in
    elim (content txtformat page_buf_size (cache_of n)) [
      | none ↦ Shown.fault
      | some buffer ↦ text_shown n (
          TextLoop.leave place (Text.text_width screen.colcount) buffer (Text.start screen.rowcount)
            keys)
    ]

-- The switch over the type of the page.
unfoldable pub show : Screen → Keys → Node → Shown
unfolding display_menu display_text
show screen keys n =
    if n.itemtype == b'0'
    then display_text screen keys.text n txt_format_raw
    else if n.itemtype == b'h'
    then display_text screen keys.text n txt_format_htm
    else if n.itemtype == b'1' || n.itemtype == b'7'
    then display_menu screen keys.menu n
    else Shown.left Order.quit none n.selected_line n.screen_offset
