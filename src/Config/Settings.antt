-- ===== src/Config/Settings.antt =====
-- gopherus.c: the configuration file as a whole, and what the program's settings are.
pub mod Loaded
use gopherus.Base.{
  ℕ, suc, zero, ◌+◌, ◌*◌, Bool, true, false, ◌&&◌, ◌||◌, not, List, [], ◌∷◌, ◌==◌, if◌then◌else◌,
  Bytes, Option, none, some, ℤ, pos, negsuc, codes, length, drop, set, get_or, all, leb_ℤ,
  strcmp_eq, up_to_nul, atoi, to_ushort,
}
use gopherus.Config.{hex2int, strstartswith, cfg_tokvaldelim}
use gopherus.ReadLine.{read_all}

-- The names of the keys, in the order of the enum KEYS.
abbrev pub keydef : List Bytes
keydef =
    []
    ∷ codes "home"
    ∷ codes "end"
    ∷ codes "enter"
    ∷ codes "backspc"
    ∷ codes "del"
    ∷ codes "esc"
    ∷ codes "tab"
    ∷ codes "bookmark"
    ∷ codes "up"
    ∷ codes "down"
    ∷ codes "left"
    ∷ codes "right"
    ∷ codes "pgup"
    ∷ codes "pgdown"
    ∷ codes "help"
    ∷ codes "jmp_home"
    ∷ codes "jmp_main"
    ∷ codes "refresh"
    ∷ codes "save_as"
    ∷ codes "down_all"
    ∷ []

-- KEY_COUNT
abbrev pub key_count : ℕ
key_count = 21

pub record Settings : Type 0 where
  pub keys : List ℕ
  pub colorstring : Bytes
  pub errflag : Bool

failed : Settings → Settings
failed s = record s { errflag = true }

-- The loop over the names of the keys, from number `i` on, and the number at its end. A message
-- replaces the line in its buffer; `after` is what the token and the value are then.
pub key_loop : Bytes × Bytes → Bytes → Bytes → ℕ → List Bytes → Settings → Settings × ℕ
unfolding failed
key_loop after tok val i [] s = (s, i)
key_loop after tok val i (name ∷ names) s =
    let k = to_ushort (atoi val) in
    let stored = record s { keys = set s.keys i k } in
    let good = key_loop after tok val (i + 1) names stored in
    let bad = key_loop after after.0 after.1 (i + 1) names (failed stored) in
    let other = key_loop after tok val (i + 1) names s in
    if strcmp_eq tok name then if k == 0 then bad else good else other

-- `if (i != KEY_COUNT)`
behind_loop : Settings × ℕ → Settings
unfolding failed
behind_loop r = if not (r.1 == key_count) then failed r.0 else r.0

-- The name of a key without its prefix.
pub cfg_key : Bytes × Bytes → Bytes → Bytes → Settings → Settings
unfolding key_loop behind_loop
cfg_key after tok val s = behind_loop (key_loop after tok val 1 (drop 1 keydef) s)

abbrev pub is_hex : ℕ → Bool
is_hex c = leb_ℤ (pos 0) (hex2int c)

cfg_colors : Bytes → Settings → Settings
unfolding failed
cfg_colors val s =
    if length val == 18
    then if all is_hex val
      then record s { colorstring = val }
      else failed (record s { colorstring = val })
    else failed s

-- A token and its value.
cfg_token : Bytes × Bytes → Bytes → Bytes → Settings → Settings
unfolding cfg_key cfg_colors failed
cfg_token after tok val s =
    if strcmp_eq tok (codes "colors")
    then cfg_colors val s
    else if strstartswith (codes "key.") tok
    then cfg_key after (drop 4 tok) val s
    else failed s

-- One line, as readfline gives it.
cfg_line : Bytes × Bytes → Bytes → Settings → Settings
unfolding cfg_token failed
cfg_line after line s =
    if length line == 0 || get_or line 0 0 == b'#'
    then s
    else elim (cfg_tokvaldelim (up_to_nul line)) [
      | none ↦ failed s
      | some (tok, val) ↦ cfg_token after tok val s
    ]

-- The lines from number `linecount` on.
cfg_lines : (ℕ → Bytes × Bytes) → ℕ → List Bytes → Settings → Settings
unfolding cfg_line
cfg_lines after linecount [] s = s
cfg_lines after linecount (line ∷ lines) s =
    cfg_lines after (linecount + 1) lines (cfg_line (after linecount) line s)

-- A file that is missing is no error.
pub cfgfileread : (ℕ → Bytes × Bytes) → Option Bytes → Settings → Settings
unfolding cfg_lines
cfgfileread after none s = s
cfgfileread after (some file) s = cfg_lines after 1 (read_all (length file + 1) 128 file) s

abbrev pub default_keys : List ℕ
default_keys =
    0 ∷ 327 ∷ 335 ∷ 13 ∷ 8 ∷ 339 ∷ 27 ∷ 9 ∷ 98 ∷ 328 ∷ 336 ∷ 331 ∷ 333 ∷ 329 ∷ 337 ∷ 315 ∷ 316 ∷ 318
    ∷ 319 ∷ 323 ∷ 324 ∷ []

-- The settings before the file is read.
abbrev pub defaults : Settings
defaults = record { keys = default_keys; colorstring = codes "177047707818141220"; errflag = false }

-- `(hex2int(colorstring[i]) << 4) | hex2int(colorstring[i + 1])`; none for what is no digit.
nibbles : ℤ → ℤ → Option ℕ
nibbles (pos a) (pos b) = some (a * 16 + b)
nibbles a b = none

abbrev pub attr : Bytes → ℕ → Option ℕ
unfolding nibbles
attr s i = nibbles (hex2int (get_or s i 0)) (hex2int (get_or s (i + 1) 0))

pub record Config : Type 0 where
  pub attr_textnorm : Option ℕ
  pub attr_statusbarinfo : Option ℕ
  pub attr_statusbarwarn : Option ℕ
  pub attr_urlbar : Option ℕ
  pub attr_urlbardeco : Option ℕ
  pub attr_menutype : Option ℕ
  pub attr_menuerr : Option ℕ
  pub attr_menuselectable : Option ℕ
  pub attr_menucurrent : Option ℕ
  pub keys : List ℕ

config_of : Settings → Config
unfolding attr
config_of s = record {
  attr_textnorm = attr s.colorstring 0;
  attr_statusbarinfo = attr s.colorstring 2;
  attr_statusbarwarn = attr s.colorstring 4;
  attr_urlbar = attr s.colorstring 6;
  attr_urlbardeco = attr s.colorstring 8;
  attr_menutype = attr s.colorstring 10;
  attr_menuerr = attr s.colorstring 12;
  attr_menuselectable = attr s.colorstring 14;
  attr_menucurrent = attr s.colorstring 16;
  keys = s.keys;
}

-- The configuration; none if the file has an error.
unfoldable pub loadcfg : (ℕ → Bytes × Bytes) → Option Bytes → Option Config
unfolding cfgfileread config_of
loadcfg after file =
    let s = cfgfileread after file defaults in if s.errflag then none else some (config_of s)

-- The command of a key, from number `i` on, or KEY_NONE.
key_from : ℕ → ℕ → List ℕ → ℕ
key_from k i [] = 0
key_from k i (bound ∷ keys) = let more = key_from k (i + 1) keys in if bound == k then i else more

unfoldable pub getfunckey : ℕ → Config → ℕ
unfolding key_from
getfunckey k cfg = key_from k 0 cfg.keys
