-- ===== src/Menu/Keys/Follow.antt =====
-- Enter on a link: where it leads.
use gopherus.Base.{
  ℕ, ◌≡◌, ◌≢◌, refl, ap, ◌∙◌, Option, some, Bytes, Bool, pos, get_elem?, ==_ne, ◌%◌, ◌==◌,
  if◌then◌else◌,
}
use native.Mathlib.Nat.{mod-eq_of_lt}
use gopherus.Menu.Item.{Line}
use gopherus.Menu.Keys.{Page, Cursor, Key, Turn, press, with_line, follow, go_to, parsed, ask}
use gopherus.Menu.Keys.Session.{with_line-pos}
use gopherus.Url.Parse.{UrlParts}
use gopherus.Url.Parse.Reading.{Readable}
use gopherus.Url.Build.Writing.{Writable}
use gopherus.Url.RoundTrip.{parsegopherurl-buildgopherurl}

unfoldable pub location_of : Line → UrlParts
location_of l = record {
  protocol = 1;
  host = l.host;
  port = l.port;
  itemtype = l.itemtype;
  selector = l.selector;
}

entered : Cursor → Option Bytes → Bool → Line → Turn
entered c query allocated l = if l.itemtype % 128 == b'7' then ask c l query allocated else follow l

press_enter :
    (page : Page) (c : Cursor) (query : Option Bytes) (allocated : Bool)
    → press page c (Key.enter query allocated)
      ≡ with_line page c.selectedline (entered c query allocated) (Turn.stay c)
unfolding press entered
press_enter page c query allocated = refl

entered_lem :
    (c : Cursor) (query : Option Bytes) (allocated : Bool) (l : Line)
    → l.itemtype ≢ b'7'
    → Writable 256 l.host l.port l.itemtype l.selector
    → Readable 64 256 l.host l.port l.selector
    → entered c query allocated l ≡ Turn.push (location_of l)
unfolding entered follow parsed go_to location_of
entered_lem c query allocated l q w r =
    rw
      (
        mod-eq_of_lt w.type_high,
        ==_ne l.itemtype b'7' q,
        parsegopherurl-buildgopherurl 256 64 256 l.host l.port l.itemtype l.selector w r,
      )
      refl

-- Enter on a link leads to the host, port, type and selector of its line, though the code writes
-- them as a URL and parses it again: for a line whose location fits the URL's buffers and is one
-- that its URL names, and that is no query.
pub press-enter :
    (page : Page) (c : Cursor) (query : Option Bytes) (allocated : Bool) (n : ℕ) (l : Line)
    → c.selectedline ≡ pos n
    → get_elem? page.lines n ≡ some l
    → l.itemtype ≢ b'7'
    → Writable 256 l.host l.port l.itemtype l.selector
    → Readable 64 256 l.host l.port l.selector
    → press page c (Key.enter query allocated) ≡ Turn.push (location_of l)
press-enter page c query allocated n l e g q w r =
    press_enter page c query allocated
    ∙ ap (λ s. with_line page s (entered c query allocated) (Turn.stay c)) e
    ∙ with_line-pos page n l (entered c query allocated) (Turn.stay c) g
    ∙ entered_lem c query allocated l q w r
