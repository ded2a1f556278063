-- ===== src/Bookmarks.antt =====
-- gopherus.c: the file of bookmarks, which is added to by addbookmarkifnotexist and rewritten by
-- delbookmark; menuline_explode takes its lines apart. A line holds no nul byte; a file that does not
-- exist is `none`.
mod Copy
mod Lines
mod Session
mod Tests
use gopherus.Base.{
  ℕ, suc, zero, ◌+◌, ◌-◌, Bool, true, false, not, ◌&&◌, ◌||◌, List, [], ◌∷◌, ◌++◌, ◌==◌,
  if◌then◌else◌, Bytes, Option, none, some, codes, length, take, drop, get_elem?, strcmp_eq,
  strcasecmp_eq, ℤ, pos, negsuc, atoi, to_ushort, print_u,
}
use gopherus.ReadLine.{readfline}

-- The strings between the TABs of a line, up to its LF; `cur` is what the current one holds.
unfoldable pub columns : Bytes → Bytes → List Bytes
columns cur [] = cur ∷ []
columns cur (c ∷ s) =
    let next = columns [] s in
    let more = columns (cur ++ c ∷ []) s in
    if c == b'\n' then cur ∷ [] else if c == b'\t' then cur ∷ next else more

-- What the pointers lead to, NULL being `none`.
pub record Fields : Type 0 where
  pub selector : Option Bytes
  pub host : Option Bytes
  pub port : Option Bytes

no_fields : Fields
no_fields = record { selector = none; host = none; port = none }

-- Its first byte, the item's type, is passed over.
unfoldable pub menuline_explode : Bytes → Fields
unfolding columns no_fields
menuline_explode [] = no_fields
menuline_explode (itemtype ∷ line) =
    let cs = columns [] line in
    record { selector = get_elem? cs 1; host = get_elem? cs 2; port = get_elem? cs 3 }

-- The location of a page of the history.
pub record Location : Type 0 where
  pub itemtype : ℕ
  pub host : Bytes
  pub port : ℕ
  pub selector : Bytes

-- `sizeof(lbuf)`
abbrev pub lbuf_size : ℕ
lbuf_size = 656

pub port_or_70 : Option Bytes → ℤ
port_or_70 none = pos 70
port_or_70 (some s) = atoi s

pub same_host : Bytes → Option Bytes → Bool
same_host h none = false
same_host h (some s) = strcasecmp_eq h s

pub same_selector : Bytes → Option Bytes → Bool
same_selector h none = length h == 0
same_selector h (some s) = strcmp_eq h s

unfoldable pub is_location : Location → Fields → Bool
unfolding port_or_70 same_host same_selector
is_location h f =
    to_ushort (port_or_70 f.port) == h.port
    && (same_host h.host f.host && same_selector h.selector f.selector)

-- The loop that looks for the location, with fuel.
pub is_known : ℕ → Location → Bytes → Bool
is_known zero h file = false
is_known (suc fuel) h file =
    let r = readfline lbuf_size file in
    let more = is_known fuel h r.rest in
    if r.result == 0 then false else if is_location h (menuline_explode r.text) then true else more

-- `host` or `host:port`
pub address : Location → Bytes
unfolding print_u
address h = if h.port == 70 then h.host else h.host ++ (b':' ∷ print_u h.port)

-- What fprintf writes, but for the LF.
unfoldable pub bookmark_line : Location → Bytes
unfolding address
bookmark_line h =
    let target = b'\t' ∷ (h.selector ++ (b'\t' ∷ (h.host ++ (b'\t' ∷ print_u h.port)))) in
    if length h.selector == 0
    then h.itemtype ∷ (address h ++ target)
    else h.itemtype ∷ (address h ++ (b'/' ∷ h.itemtype ∷ (h.selector ++ target)))

pub data Message : Type 0 where
  already_bookmarked access_error saved : Message

pub contents : Option Bytes → Bytes
contents none = []
contents (some s) = s

-- `opens` is whether the file opens for appending.
unfoldable pub addbookmarkifnotexist : Bool → Location → Option Bytes → Option Bytes × Message
unfolding readfline menuline_explode is_location is_known bookmark_line contents
addbookmarkifnotexist opens h file =
    if is_known (length (contents file) + 1) h (contents file)
    then (file, already_bookmarked)
    else if opens
    then (some (contents file ++ (bookmark_line h ++ b'\n' ∷ [])), saved)
    else (file, access_error)

pub equal_ℤ : ℤ → ℤ → Bool
equal_ℤ (pos m) (pos n) = m == n
equal_ℤ (negsuc m) (negsuc n) = m == n
equal_ℤ m n = false

pub equal_hosts : Option Bytes → Option Bytes → Bool
equal_hosts none none = true
equal_hosts (some h) (some b) = strcasecmp_eq h b
equal_hosts h b = false

-- A selector that is missing is an empty one.
pub equal_selectors : Option Bytes → Option Bytes → Bool
equal_selectors (some s) (some b) = strcmp_eq s b
equal_selectors none (some b) = length b == 0
equal_selectors (some s) none = length s == 0
equal_selectors none none = true

unfoldable pub is_match : Option Bytes → ℕ → Option Bytes → Fields → Bool
unfolding port_or_70 equal_ℤ equal_hosts equal_selectors
is_match bhost bport bsel f =
    equal_ℤ (port_or_70 f.port) (pos bport)
    && (equal_hosts f.host bhost && equal_selectors f.selector bsel)

-- The loop up to the match, with fuel: the places in the file before and behind the line.
pub find_match : ℕ → (Fields → Bool) → ℕ → Bytes → Option (ℕ × ℕ)
find_match zero matches woff rest = none
find_match (suc fuel) matches woff rest =
    let r = readfline lbuf_size rest in
    let roff = woff + (length rest - length r.rest) in
    let more = find_match fuel matches roff r.rest in
    if r.result == 0
    then none
    else if matches (menuline_explode r.text)
    then some (woff, roff)
    else more

-- fwrite at `woff`
write_at : Bytes → ℕ → Bytes → Bytes
write_at file woff chunk = take woff file ++ (chunk ++ drop (woff + length chunk) file)

-- The loop that copies the rest of the file, and then cuts it, with fuel.
pub copy_down : ℕ → ℕ → ℕ → Bytes → Bytes
unfolding write_at
copy_down zero woff roff file = file
copy_down (suc fuel) woff roff file =
    let chunk = take lbuf_size (drop roff file) in
    let more =
      copy_down fuel (woff + length chunk) (roff + length chunk) (write_at file woff chunk) in
    if length chunk == 0 then take woff file else more

pub without : Option (ℕ × ℕ) → Bytes → Bytes
unfolding copy_down
without none file = file
without (some (woff, roff)) file = copy_down (length file + 1) woff roff file

pub delete_in : (Fields → Bool) → Bytes → Bytes
unfolding find_match without
delete_in matches file = without (find_match (length file + 1) matches 0 file) file

unfoldable pub delbookmark : Option Bytes → ℕ → Option Bytes → Option Bytes → Option Bytes
unfolding readfline menuline_explode is_match delete_in
delbookmark bhost bport bsel none = none
delbookmark bhost bport bsel (some file) = some (delete_in (is_match bhost bport bsel) file)

unfoldable pub default_bookmarks : Bytes
default_bookmarks =
    codes "1gopher.viste.fr (Gopherus author's gopher home)\t\tgopher.viste.fr\n"
    ++ (codes "1gopherpedia.com\t\tgopherpedia.com\n"
        ++ codes "1gopher.floodgap.com\t\tgopher.floodgap.com\n")

-- `name` is whether there is a file name, `opens` whether the file can be written.
unfoldable pub bookmarkfile_createifnone : Bool → Bool → Option Bytes → Option Bytes
unfolding default_bookmarks
bookmarkfile_createifnone name opens (some file) = some file
bookmarkfile_createifnone name opens none = if name && opens then some default_bookmarks else none
