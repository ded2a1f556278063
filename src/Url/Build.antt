-- ===== src/Url/Build.antt =====
-- `buildgopherurl` of parseurl.c. `maxlen` is the size of the buffer `res`, at least 1, and no
-- pointer is NULL. A write past the buffer is a fault, which is remembered; every `snprintf` returns
-- the length that it would have written, so `x` may pass `maxlen`.
pub mod Writing
pub mod Limits
use gopherus.Base.{
  ℕ, suc, zero, ◌+◌, ◌-◌, ◌/◌, ◌%◌, Bool, true, false, ◌&&◌, ◌||◌, List, [], ◌∷◌, ◌++◌, ltb, leb,
  ◌==◌, if◌then◌else◌, length, take, get_or, Bytes, codes, print_u, ℤ, pos, minus_one,
}
use gopherus.Url.Parse.{parseurl_proto_http}

-- `text` is the string in `res`.
pub record Built : Type 0 where
  pub result : ℤ
  pub text : Bytes
  pub fault : Bool

-- The buffer while a gopher URL is written into it.
pub record Writer : Type 0 where
  pub x : ℕ
  pub text : Bytes
  pub fault : Bool

-- `x += snprintf(res + x, maxlen - x, "%s", s)`, with `maxlen` already decremented. A negative
-- size is a huge size_t: then the text is written past the buffer.
pub print_at : ℕ → Bytes → Writer → Writer
print_at maxlen s w =
    if leb w.x maxlen
    then record w { x = w.x + length s; text = w.text ++ take (maxlen - w.x - 1) s }
    else record w { x = w.x + length s; fault = true }

-- `res[x++] = c`, in a buffer of `maxlen + 1` bytes
put : ℕ → ℕ → Writer → Writer
put maxlen c w =
    if ltb w.x (maxlen + 1)
    then record w { x = w.x + 1; text = w.text ++ c ∷ [] }
    else record w { x = w.x + 1; fault = true }

-- `res[x] = 0; return(x);`
terminated : ℕ → Writer → Built
terminated maxlen w = record { result = pos w.x; text = w.text; fault = w.fault || ltb maxlen w.x }

returned : Writer → Built
returned w = record { result = pos w.x; text = w.text; fault = w.fault }

is_unsafe : ℕ → Bool
is_unsafe c = leb c 0x1f || leb 0x80 c

-- `'0' + (c >> 4)` of a signed char: the shift of a negative number is arithmetic
high_digit : ℕ → ℕ
high_digit c = if ltb c 128 then b'0' + c / 16 else b'0' + c / 16 - 16

-- `'0' + (c & 0x0F)`
low_digit : ℕ → ℕ
low_digit c = b'0' + c % 16

-- The loop over the selector.
encode : ℕ → Bytes → Writer → Built
unfolding put terminated is_unsafe high_digit low_digit
encode maxlen [] w = terminated maxlen w
encode maxlen (c ∷ selector) w =
    let escaped = put maxlen (low_digit c) (put maxlen (high_digit c) (put maxlen b'%' w)) in
    let more = encode maxlen selector (if is_unsafe c then escaped else put maxlen c w) in
    if w.x == maxlen
    then terminated maxlen w
    else if is_unsafe c && ltb maxlen (w.x + 3)
    then terminated maxlen w
    else more

-- A selector that begins with `prefix`.
pub starts_with : Bytes → Bytes → Bool
starts_with [] s = true
starts_with (p ∷ prefix) [] = false
starts_with (p ∷ prefix) (c ∷ s) = p == c && starts_with prefix s

abbrev pub is_hurl : Bytes → Bool
is_hurl selector = starts_with (codes "URL:") selector || starts_with (codes "/URL:") selector

-- The URL of a hURL link.
drop_url : Bytes → Bytes
drop_url (_ ∷ _ ∷ _ ∷ _ ∷ url) = url
drop_url _ = []

hurl_target : Bytes → Bytes
unfolding drop_url
hurl_target [] = []
hurl_target (c ∷ selector) = if c == b'/' then drop_url selector else drop_url (c ∷ selector)

-- A single snprintf into the whole buffer.
printed : ℕ → Bytes → Built
printed maxlen s = record { result = pos (length s); text = take (maxlen - 1) s; fault = false }

-- `:port`, unless it is the default
unfoldable pub port_part : ℕ → ℕ → Bytes
port_part default port = if port == default then [] else b':' ∷ print_u port

-- behind `gopher://host`
path_part : ℕ → ℕ → Bytes → Writer → Built
path_part maxlen itemtype selector w =
    if itemtype == b'1' && length selector == 0
    then returned w
    else (let typed = print_at maxlen (b'/' ∷ itemtype ∷ []) w in
        if typed.x == maxlen then terminated maxlen typed else encode maxlen selector typed)

gopher_url : ℕ → Bytes → ℕ → ℕ → Bytes → Built
gopher_url maxlen host port itemtype selector =
    let named =
      print_at maxlen (codes "gopher://" ++ host) (record { x = 0; text = []; fault = false }) in
    if length host == 0
    then returned named
    else path_part maxlen itemtype selector
        (if port == 70 then named else print_at maxlen (port_part 70 port) named)

refused : Built
refused = record { result = minus_one; text = []; fault = false }

pub build : ℕ → ℕ → Bytes → ℕ → ℕ → Bytes → Built
build maxlen protocol host port itemtype selector =
    if protocol == parseurl_proto_http
    then printed maxlen (codes "http://" ++ (host ++ (port_part 80 port ++ (b'/' ∷ selector))))
    else if ltb maxlen 2
    then refused
    else if ltb port 1
    then refused
    else if ltb itemtype 33 || leb 128 itemtype
    then refused
    else if itemtype == b'h' && is_hurl selector
    then printed maxlen (hurl_target selector)
    else if itemtype == b'8'
    then printed maxlen (codes "telnet://" ++ (host ++ (b':' ∷ print_u port)))
    else gopher_url maxlen host port itemtype selector

unfoldable pub buildgopherurl : ℕ → ℕ → Bytes → ℕ → ℕ → Bytes → Built
unfolding build print_u gopher_url printed hurl_target refused starts_with port_part path_part
    print_at encode terminated returned
buildgopherurl maxlen = build (maxlen - 1)
