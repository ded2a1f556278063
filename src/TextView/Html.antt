-- ===== src/TextView/Html.antt =====
-- gopherus.c, display_text: a text in HTML, as it is put into the buffer of the screen. The bytes of
-- the cache are signed, so those from 128 on are below 0; here they are 0 to 255. An index into
-- `token` or `specialchar` is the length of what is stored there, and none where it is -1.
pub mod Bounds
pub mod Script
use gopherus.Base.{
  ℕ, suc, zero, ◌+◌, Bool, true, false, ◌&&◌, ◌||◌, not, List, [], ◌∷◌, ◌++◌, ltb, leb, ◌==◌,
  if◌then◌else◌, Bytes, Option, none, some, length, codes, strcasecmp_eq, up_to_nul,
}

pub record Html : Type 0 where
  pub lastcharwasaspace : Bool
  pub insidetoken : Option Bytes
  pub insidescript : Bool
  pub insidebody : Bool
  pub insidespecialchar : Option Bytes

-- `if (insidetoken < 7) token[insidetoken++] = c;`
unfoldable pub store : Bytes → ℕ → Bytes
store token c = if ltb (length token) 7 then token ++ c ∷ [] else token

unfoldable pub is_space : ℕ → Bool
is_space c = c == b'\t' || c == b'\n' || c == b'\r' || c == b' '

-- White space: the end of a word of a tag, or one space for any number of them.
at_space : Html → Html × Bytes
unfolding store
at_space h = elim h.insidetoken [
  | some token ↦ (record h { insidetoken = some (store token 0) }, [])
  | none ↦
      if h.lastcharwasaspace then (h, []) else (record h { lastcharwasaspace = true }, b' ' ∷ [])
]

is_break : Bytes → Bool
is_break token =
    strcasecmp_eq token (codes "/p")
    || strcasecmp_eq token (codes "br")
    || strcasecmp_eq token (codes "/tr")
    || strcasecmp_eq token (codes "/title")

-- The end of a tag of the name `token`.
pub close : Html → Bytes → Html × Bytes
unfolding is_break
close h token =
    if is_break token
    then (h, b'\n' ∷ [])
    else if strcasecmp_eq token (codes "script")
    then (record h { insidescript = true }, [])
    else if strcasecmp_eq token (codes "body")
    then (record h { insidebody = true }, [])
    else if strcasecmp_eq token (codes "/script")
    then (record h { insidescript = false }, [])
    else (h, [])

at_gt : Html → Html × Bytes
unfolding close
at_gt h = elim h.insidetoken [
  | none ↦ (h, [])
  | some token ↦ close (record h { insidetoken = none }) (up_to_nul token)
]

-- Control characters are ignored, and everything before `<body>`.
plain : Html → ℕ → Html × Bytes
plain h c =
    if leb 128 c || ltb c 32 then (h, []) else if not h.insidebody then (h, []) else (h, c ∷ [])

-- A byte of an entity: `&nbsp;` is a space, and any other one a `_`.
at_special : Html → Bytes → ℕ → Html × Bytes
unfolding plain
at_special h specialchar c =
    if not (ltb (length specialchar) 7)
    then plain h c
    else if not (c == b';')
    then (record h { insidespecialchar = some (specialchar ++ c ∷ []) }, [])
    else (
      record h { insidespecialchar = none },
      (if strcasecmp_eq (up_to_nul specialchar) (codes "nbsp") then b' ' else b'_') ∷ [],
    )

at_other : Html → ℕ → Html × Bytes
unfolding store plain at_special
at_other h c = elim h.insidetoken [
  | some token ↦ (record h { insidetoken = some (store token c) }, [])
  | none ↦ elim h.insidespecialchar [
    | none ↦ if c == b'&' then (record h { insidespecialchar = some [] }, []) else plain h c
    | some specialchar ↦ at_special h specialchar c
  ]
]

outside : Option Bytes → Bool
outside none = true
outside (some token) = false

-- One turn of the loop: the state behind it, and what it writes.
pub step : Html → ℕ → Html × Bytes
unfolding is_space at_space at_gt at_other outside
step h c =
    let word = record h { lastcharwasaspace = false } in
    if h.insidescript && outside h.insidetoken && not (c == b'<')
    then (h, [])
    else if is_space c
    then at_space h
    else if c == b'<'
    then (record word { insidetoken = some [] }, [])
    else if c == b'>'
    then at_gt word
    else at_other word c

-- The loop, with `bufferlen` bytes in a buffer of `buffersize`: the bytes that follow them.
pub html_loop : ℕ → ℕ → Html → Bytes → Bytes
unfolding step
html_loop buffersize bufferlen h [] = []
html_loop buffersize bufferlen h (c ∷ cs) =
    let (h', written) = step h c in
    let more = html_loop buffersize (bufferlen + length written) h' cs in
    if ltb buffersize (bufferlen + 4) then [] else written ++ more

abbrev pub initial : Html
initial = record {
  lastcharwasaspace = false;
  insidetoken = none;
  insidescript = false;
  insidebody = false;
  insidespecialchar = none;
}

-- The bytes before the nul.
unfoldable pub html_text : ℕ → Bytes → Bytes
unfolding html_loop
html_text buffersize cache = html_loop buffersize 0 initial cache
