-- ===== src/Menu/Keys.antt =====
-- gopherus.c, display_menu: one turn of its loop, for the key that was pressed. What the rest of
-- the program does in that turn (the user's text, the allocator) comes with the key.
pub mod Links
pub mod Visible
pub mod Session
pub mod Follow
use gopherus.Base.{
  ℕ, suc, zero, ◌+◌, ◌-◌, ◌%◌, Bool, true, false, not, ◌&&◌, ◌||◌, List, [], ◌∷◌, ◌++◌, ltb, leb,
  ◌==◌, if◌then◌else◌, Bytes, Option, none, some, codes, ℤ, pos, negsuc, minus_one, ltb_ℤ, leb_ℤ,
  get_elem?, get_or, take, drop, pos_part, ◌+ℤ◌,
}
use gopherus.Menu.Item.{Line, isitemtypeselectable, isitemtypedownloadable}
use gopherus.Url.Parse.{
  UrlParts, parsegopherurl, parseurl_proto_gopher, parseurl_proto_http, parseurl_error,
}
use gopherus.Url.Build.{buildgopherurl}

-- The menu as `menu_explode` leaves it, with the screen's rows, of which there are at least 3.
pub record Page : Type 0 where
  pub lines : List Line
  pub linecount : ℕ
  pub firstlinkline : ℤ
  pub lastlinkline : ℤ
  pub rowcount : ℕ
  pub host : Bytes
  pub protocol : ℕ
  pub port : ℕ

-- `displaymemory` of the history's page.
pub record Cursor : Type 0 where
  pub selectedline : ℤ
  pub screenlineoffset : ℕ

pub data Key : Type 0 where
  backspc bookmark down_all del help jmp_home jmp_main refresh home up pgup end down pgdown other :
      Key
  tab : Option Bytes → Key
  save_as : Key
  enter : Option Bytes → Bool → Key
  esc : Bool → Key

pub data Message : Type 0 where
  out_of_memory not_downloadable bad_url unsupported_protocol : Message

-- How a turn ends: with the next turn, with an order, or with a page to go to.
pub data Turn : Type 0 where
  stay : Cursor → Turn
  say : Message → Turn
  back refr quit : Turn
  push : UrlParts → Turn
  add_bookmark : Turn
  del_bookmark : Line → Turn
  downloads : List Line → Turn
  fault : Turn

-- Before the loop: the first link is selected where nothing is.
unfoldable pub start : Page → Cursor → Cursor
start page c =
    if leb_ℤ (pos 0) page.firstlinkline && ltb_ℤ c.selectedline (pos 0)
    then record c { selectedline = page.firstlinkline }
    else c

abbrev pub link_at : List Line → ℕ → Bool
link_at [] i = false
link_at (l ∷ ls) zero = isitemtypeselectable l.itemtype
link_at (l ∷ ls) (suc i) = link_at ls i

-- `while (isitemtypeselectable(line_itemtype[--prevlink]) == 0);` from `n`; none where an entry outside the array
-- is read
unfoldable pub prev_link : List Line → ℕ → Option ℕ
prev_link lines zero = none
prev_link lines (suc n) = elim (get_elem? lines n) [
  | none ↦ none
  | some l ↦
      (let more = prev_link lines n in if isitemtypeselectable l.itemtype then some n else more)
]

-- `while (isitemtypeselectable(line_itemtype[++nextlink]) == 0);` on the entries from `i` on
unfoldable pub next_link : List Line → ℕ → Option ℕ
next_link [] i = none
next_link (l ∷ ls) i =
    let more = next_link ls (suc i) in if isitemtypeselectable l.itemtype then some i else more

select : Cursor → ℕ → Cursor
select c n = record c { selectedline = pos n }

up_to : Cursor → ℕ → Cursor
unfolding select
up_to c prevlink =
    let c' = record c { screenlineoffset = c.screenlineoffset - 1 } in
    if leb c.screenlineoffset prevlink
    then select c prevlink
    else if leb c'.screenlineoffset prevlink
    then select c' prevlink
    else c'

pub key_up : Page → Cursor → Turn
unfolding prev_link up_to
key_up page c =
    if ltb_ℤ page.firstlinkline c.selectedline
    then elim (prev_link page.lines (pos_part c.selectedline)) [
      | none ↦ fault
      | some prevlink ↦ stay (up_to c prevlink)
    ]
    else stay (record c { screenlineoffset = c.screenlineoffset - 1 })

-- Whether line `n` is on the screen.
on_screen : Page → ℕ → ℕ → Bool
on_screen page offset n = leb offset n && leb n (offset + (page.rowcount - 3))

scrolled : Page → Cursor → Cursor
scrolled page c =
    if ltb c.screenlineoffset (page.linecount - (page.rowcount - 3))
    then record c { screenlineoffset = c.screenlineoffset + 1 }
    else c

down_to : Page → Cursor → ℕ → Cursor
unfolding select on_screen scrolled
down_to page c nextlink =
    let c' = scrolled page c in
    if on_screen page c.screenlineoffset nextlink
    then select c nextlink
    else if on_screen page c'.screenlineoffset nextlink
    then select c' nextlink
    else c'

pub key_down : Page → Cursor → Turn
unfolding next_link down_to
key_down page c =
    if ltb_ℤ (pos (c.screenlineoffset + (page.rowcount - 3))) c.selectedline
    then stay (record c { screenlineoffset = c.screenlineoffset + 1 })
    else if ltb_ℤ c.selectedline page.lastlinkline
    then (let from = pos_part (c.selectedline +ℤ pos 1) in
        elim (next_link (drop from page.lines) from) [
          | none ↦ fault
          | some nextlink ↦ stay (down_to page c nextlink)
        ])
    else stay (scrolled page c)

-- The last link on the screen from line `i`, of `n` lines; none where a line outside the array is read.
last_visible : ℕ → Page → ℕ → ℤ → Option ℤ
last_visible zero page i sel = some sel
last_visible (suc n) page i sel =
    let more : Option ℤ = elim (get_elem? page.lines i) [
      | none ↦ none
      | some l ↦
          last_visible n page (i + 1) (if isitemtypeselectable l.itemtype then pos i else sel)
    ] in
    if leb page.linecount i then some sel else more

selected : ℕ → Option ℤ → Turn
selected off none = fault
selected off (some sel) = stay (record { selectedline = sel; screenlineoffset = off })

pub key_pgup : Page → Cursor → Turn
unfolding last_visible selected
key_pgup page c =
    let height = page.rowcount - 2 in
    let off = if leb height c.screenlineoffset then c.screenlineoffset - height else 0 in
    if leb_ℤ (pos (off + height)) c.selectedline
    then selected off (last_visible height page off c.selectedline)
    else stay (record c { screenlineoffset = off })

-- The first link on the screen, likewise.
first_visible : ℕ → Page → ℕ → ℤ → Option ℤ
first_visible zero page i sel = some sel
first_visible (suc n) page i sel =
    let rest = first_visible n page (i + 1) sel in
    let more : Option ℤ = elim (get_elem? page.lines i) [
      | none ↦ none
      | some l ↦ if isitemtypeselectable l.itemtype then some (pos i) else rest
    ] in
    if leb page.linecount i then some sel else more

pub key_pgdown : Page → Cursor → Turn
unfolding first_visible selected
key_pgdown page c =
    let height = page.rowcount - 2 in
    let off =
      if ltb c.screenlineoffset (page.linecount - height)
      then c.screenlineoffset + height
      else c.screenlineoffset in
    if ltb_ℤ c.selectedline (pos off)
    then selected off (first_visible height page off c.selectedline)
    else stay (record c { screenlineoffset = off })

pub jump : Cursor → ℤ → ℕ → Cursor
jump c line offset = record {
  selectedline = if leb_ℤ (pos 0) c.selectedline then line else c.selectedline;
  screenlineoffset = offset;
}

-- Run with the line that is selected.
pub with_line : Page → ℤ → (Line → Turn) → Turn → Turn
with_line page line f otherwise = elim line [
  | pos n ↦ elim (get_elem? page.lines n) [ none ↦ fault | some l ↦ f l ]
  | negsuc n ↦ otherwise
]

-- MAXURLLEN, MAXHOSTLEN and MAXSELLEN
abbrev pub maxurllen : ℕ
maxurllen = 256

abbrev pub maxhostlen : ℕ
maxhostlen = 64

abbrev pub maxsellen : ℕ
maxsellen = 256

-- `curURL`, parsed again
parsed : Line → UrlParts
parsed l =
    parsegopherurl
      (buildgopherurl maxurllen parseurl_proto_gopher l.host l.port (l.itemtype % 128)
        l.selector).text
      maxhostlen maxsellen

pub go_to : UrlParts → Turn
go_to p =
    if p.protocol == parseurl_error
    then say bad_url
    else if p.protocol == parseurl_proto_gopher || p.protocol == parseurl_proto_http
    then push p
    else say unsupported_protocol

follow : Line → Turn
unfolding go_to
follow l = go_to (parsed l)

download : Line → Turn
unfolding go_to
download l =
    let p = parsed l in
    if isitemtypedownloadable p.itemtype
    then go_to (record p { itemtype = b'9' })
    else say not_downloadable

ask : Cursor → Line → Option Bytes → Bool → Turn
ask c l query allocated = elim query [
  | none ↦ stay c
  | some q ↦
      if allocated
      then push (record {
        protocol = parseurl_proto_gopher;
        host = l.host;
        port = l.port;
        itemtype = l.itemtype % 128;
        selector = l.selector ++ (b'\t' ∷ q);
      })
      else say out_of_memory
]

-- The lines to download, of `n` lines from line `i`; none where a line outside the array is read.
downloads_from : ℕ → List Line → ℕ → Option (List Line)
downloads_from zero lines i = some []
downloads_from (suc n) lines i = elim (get_elem? lines i) [
  | none ↦ none
  | some l ↦ elim (downloads_from n lines (i + 1)) [
    | none ↦ none
    | some more ↦ some (if isitemtypedownloadable l.itemtype then l ∷ more else more)
  ]
]

pub all_downloads : Page → Turn
unfolding downloads_from
all_downloads page = elim page.firstlinkline [
  | pos n ↦ elim (downloads_from (pos_part (page.lastlinkline +ℤ pos 1) - n) page.lines n) [
    | none ↦ fault
    | some ls ↦ downloads ls
  ]
  | negsuc n ↦ downloads []
]

edit_url : Cursor → Option Bytes → Turn
edit_url c edited = elim edited [
  | none ↦ stay c
  | some url ↦
      let p = parsegopherurl url maxhostlen maxsellen in
      if p.protocol == parseurl_error then stay c else push p
]

location : Bytes → ℕ → ℕ → UrlParts
location host port itemtype = record {
  protocol = parseurl_proto_gopher;
  host = host;
  port = port;
  itemtype = itemtype;
  selector = [];
}

byte_at : Bytes → ℕ → ℕ
byte_at s i = get_or s i 0

unfoldable pub press : Page → Cursor → Key → Turn
unfolding key_up key_down key_pgup key_pgdown jump with_line parsed follow download ask
    all_downloads edit_url location byte_at
press page c backspc = back
press page c (tab edited) = edit_url c edited
press page c bookmark = add_bookmark
press page c save_as = with_line page c.selectedline download (stay c)
press page c (enter query allocated) =
    with_line page c.selectedline
      (λ l. if l.itemtype % 128 == b'7' then ask c l query allocated else follow l) (stay c)
press page c down_all = all_downloads page
press page c del =
    if byte_at page.host 0 == b'#' && byte_at page.host 1 == b'w'
    then with_line page c.selectedline del_bookmark fault
    else stay c
press page c (esc confirmed) = if confirmed then quit else stay c
press page c help = push (location (codes "#manual") 70 b'0')
press page c jmp_home = push (location (codes "#welcome") 70 b'1')
press page c jmp_main =
    if page.protocol == parseurl_proto_gopher && not (byte_at page.host 0 == b'#')
    then push (location page.host page.port b'1')
    else stay c
press page c refresh = refr
press page c home = stay (jump c page.firstlinkline 0)
press page c up = key_up page c
press page c pgup = key_pgup page c
press page c end = stay (jump c page.lastlinkline (page.linecount - (page.rowcount - 3)))
press page c down = key_down page c
press page c pgdown = key_pgdown page c
press page c other = stay c
