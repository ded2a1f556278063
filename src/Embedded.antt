-- ===== src/Embedded.antt =====
-- The embedded pages: startpg.c, which unpacks them, and idoc/idocgen.c, which packs them when the
-- program is built. The dictionary of 4-byte grams and the packed pages are generated, so they are
-- arguments.
mod Grams
mod Bookmarks
mod Tests
use gopherus.Base.{
  ℕ, suc, zero, ◌+◌, ◌-◌, ◌*◌, ◌%◌, Bool, true, false, ◌&&◌, List, [], ◌∷◌, ◌++◌, ltb, leb, ◌==◌,
  if◌then◌else◌, Bytes, Option, none, some, codes, length, get_or,
}
use gopherus.ReadLine.{readfline}

-- idocgen.c: the code of the gram `a b c d`, from the gram at index `i` of the dictionary
unfoldable pub gramlookup : Bytes → ℕ → ℕ → ℕ → ℕ → ℕ → Option ℕ
gramlookup [] i a b c d = none
gramlookup (p ∷ []) i a b c d = none
gramlookup (p ∷ q ∷ []) i a b c d = none
gramlookup (p ∷ q ∷ r ∷ []) i a b c d = none
gramlookup (p ∷ q ∷ r ∷ s ∷ dict) i a b c d =
    let more = gramlookup dict (suc i) a b c d in
    if p == a && q == b && r == c && s == d then some (128 + i) else more

-- The code of a gram and what follows it, or one byte and what follows that.
abbrev pub packed : Option ℕ → ℕ → Bytes → Bytes → Bytes
packed (some g) a behind_gram behind_byte = g ∷ behind_gram
packed none a behind_gram behind_byte = a ∷ behind_byte

-- The bytes that processfile prints.
unfoldable pub processfile : Bytes → Bytes → Bytes
unfolding gramlookup
processfile dict (a ∷ b ∷ c ∷ d ∷ fdata) =
    packed (gramlookup dict 0 a b c d) a (processfile dict fdata)
      (processfile dict (b ∷ c ∷ d ∷ fdata))
processfile dict (a ∷ fdata) = a ∷ processfile dict fdata
processfile dict [] = []

-- Byte `k` of the gram of `code`.
abbrev pub gram : Bytes → ℕ → ℕ → ℕ
gram dict code k = get_or dict (4 * (code % 128) + k) 0

-- What is written from index `y` of the buffer on, but for the nul.
unfoldable pub unpack_from : Bytes → ℕ → ℕ → Bytes → Bytes
unpack_from dict bufsz y [] = []
unpack_from dict bufsz y (code ∷ idoc) =
    let behind_byte = unpack_from dict bufsz (y + 1) idoc in
    let behind_gram = unpack_from dict bufsz (y + 4) idoc in
    if ltb code 128
    then code ∷ (if leb bufsz (y + 1 + 1) then [] else behind_byte)
    else if leb bufsz (y + 5)
    then []
    else gram dict code 0 ∷ gram dict code 1 ∷ gram dict code 2 ∷ gram dict code 3 ∷ behind_gram

unfoldable pub idoc_unpack : Bytes → ℕ → Bytes → Bytes
unfolding unpack_from
idoc_unpack dict bufsz idoc = unpack_from dict bufsz 0 idoc

-- 2 * (MAXHOSTLEN + MAXSELLEN + 8)
abbrev pub max_bookmark : ℕ
max_bookmark = 656

-- The lines of the bookmarks' file, with fuel, at `res` bytes of the buffer.
unfoldable pub insert_bookmarks : ℕ → ℕ → ℕ → Bytes → Bytes
insert_bookmarks zero buffer_max res file = []
insert_bookmarks (suc fuel) buffer_max res file =
    let r = readfline max_bookmark file in
    let skipped = insert_bookmarks fuel buffer_max res r.rest in
    let more = insert_bookmarks fuel buffer_max (res + length r.text + 1) r.rest in
    if ltb buffer_max (res + max_bookmark)
    then []
    else if r.result == 0
    then []
    else if r.result == 1
    then skipped
    else r.text ++ b'\n' ∷ more

unfoldable pub no_bookmarks : Bytes
no_bookmarks = codes "ino bookmarks defined yet\n"

-- The packed pages.
pub record Pages : Type 0 where
  pub gramdict : Bytes
  pub manual : Bytes
  pub welcome : Bytes
  pub welcome2 : Bytes

bookmarks_part : ℕ → ℕ → Option Bytes → Bytes
unfolding readfline insert_bookmarks no_bookmarks
bookmarks_part buffer_max res none = no_bookmarks
bookmarks_part buffer_max res (some file) =
    let favs = insert_bookmarks (length file + 1) buffer_max res file in
    if length favs == 0 then no_bookmarks else favs

welcome_page : Pages → ℕ → Option Bytes → Bytes
unfolding idoc_unpack bookmarks_part
welcome_page pages buffer_max file =
    let start = idoc_unpack pages.gramdict buffer_max pages.welcome in
    let favs = bookmarks_part buffer_max (length start) file in
    start
    ++ (favs
        ++ idoc_unpack pages.gramdict (buffer_max - (length start + length favs)) pages.welcome2)

unfoldable pub loadembeddedstartpage : Pages → ℕ → Bytes → Option Bytes → Bytes
unfolding welcome_page
loadembeddedstartpage pages buffer_max token file =
    if get_or token 0 0 == b'm'
    then idoc_unpack pages.gramdict buffer_max pages.manual
    else welcome_page pages buffer_max file
