-- ===== src/Edit.antt =====
-- gopherus.c, editstring: the line editor on the URL bar. `url` is the whole array, of which the
-- first `urllen` bytes are the text; the keys that are pressed are a list.
mod Shift
mod Zipper
mod Session
mod Tests
use gopherus.Base.{
  ℕ, suc, zero, ◌+◌, ◌-◌, Bool, true, false, ◌&&◌, ◌||◌, List, [], ◌∷◌, ◌==◌, ltb, if◌then◌else◌,
  get_or, set, take, Bytes, Option, none, some,
}

pub record State : Type 0 where
  pub url : Bytes
  pub urllen : ℕ
  pub cursorpos : ℕ

-- `for (...; y++) url[y] = url[y + 1]`, `n` times
pub shift_left : ℕ → ℕ → Bytes → Bytes
shift_left zero y url = url
shift_left (suc n) y url = shift_left n (y + 1) (set url y (get_or url (y + 1) 0))

-- `for (...; y--) url[y] = url[y - 1]`, `n` times
pub shift_right : ℕ → ℕ → Bytes → Bytes
shift_right zero y url = url
shift_right (suc n) y url = shift_right n (y - 1) (set url y (get_or url (y - 1) 0))

pub backspace : State → State
backspace s =
    if ltb 0 s.cursorpos
    then record {
      url = shift_left (s.urllen - 1 - (s.cursorpos - 1)) (s.cursorpos - 1) s.url;
      urllen = s.urllen - 1;
      cursorpos = s.cursorpos - 1;
    }
    else s

pub del : State → State
del s =
    if ltb s.cursorpos s.urllen
    then record {
      url = shift_left (s.urllen - s.cursorpos) s.cursorpos s.url;
      urllen = s.urllen - 1;
      cursorpos = s.cursorpos;
    }
    else s

pub insert : ℕ → ℕ → State → State
insert maxlen key s =
    if ltb s.urllen (maxlen - 1)
    then record {
      url = set (shift_right (s.urllen - s.cursorpos) s.urllen s.url) s.cursorpos key;
      urllen = s.urllen + 1;
      cursorpos = s.cursorpos + 1;
    }
    else s

pub move_to : ℕ → State → State
move_to c s = record { url = s.url; urllen = s.urllen; cursorpos = c }

pub left : State → State
left s = if ltb 0 s.cursorpos then move_to (s.cursorpos - 1) s else s

pub right : State → State
right s = if ltb s.cursorpos s.urllen then move_to (s.cursorpos + 1) s else s

abbrev pub key_esc : ℕ
key_esc = 27

abbrev pub key_tab : ℕ
key_tab = 9

abbrev pub key_home : ℕ
key_home = 327

abbrev pub key_end : ℕ
key_end = 335

abbrev pub key_enter : ℕ
key_enter = 13

abbrev pub key_left : ℕ
key_left = 331

abbrev pub key_right : ℕ
key_right = 333

abbrev pub key_backspace : ℕ
key_backspace = 8

abbrev pub key_del : ℕ
key_del = 339

-- A key that does not end the loop.
pub press : ℕ → ℕ → State → State
unfolding backspace del insert move_to left right
press maxlen key s =
    if key == key_home
    then move_to 0 s
    else if key == key_end
    then move_to s.urllen s
    else if key == key_left
    then left s
    else if key == key_right
    then right s
    else if key == key_backspace
    then backspace s
    else if key == key_del
    then del s
    else if ltb 31 key && ltb key 127
    then insert maxlen key s
    else s

-- `url[urllen] = 0`
pub terminate : State → State
terminate s = record { url = set s.url s.urllen 0; urllen = s.urllen; cursorpos = s.cursorpos }

-- The first column of the text that is on the screen.
unfoldable pub displayoffset : ℕ → State → ℕ
displayoffset maxdisplaylen s =
    let off = s.urllen - (maxdisplaylen - 1) in
    if ltb s.cursorpos (off + 8) then s.cursorpos - 8 else off

-- The loop; `none` while it waits for a key. The result is whether the text was confirmed.
pub edit_loop : ℕ → State → List ℕ → Option (Bool × State)
edit_loop maxlen s [] = none
edit_loop maxlen s (key ∷ keys) =
    let t = terminate s in
    let more = edit_loop maxlen (press maxlen key t) keys in
    if key == key_esc || key == key_tab
    then some (false, t)
    else if key == key_enter
    then some (true, t)
    else more

-- strlen of what an array holds; its size where there is no nul
unfoldable pub strlen : Bytes → ℕ
strlen [] = 0
strlen (c ∷ cs) = if c == 0 then 0 else suc (strlen cs)

pub initial : Bytes → State
initial url = record { url = url; urllen = strlen url; cursorpos = strlen url }

unfoldable pub editstring : ℕ → Bytes → List ℕ → Option (Bool × State)
unfolding strlen initial shift_left shift_right press terminate edit_loop
editstring maxlen url keys = edit_loop maxlen (initial url) keys
