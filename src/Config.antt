-- ===== src/Config.antt =====
-- gopherus.c: the lines of the configuration file. A line is its bytes before the nul.
mod Pairs
pub mod Settings
mod Tests
use gopherus.Base.{
  ℕ, suc, zero, ◌+◌, ◌-◌, Bool, true, false, ◌&&◌, ◌||◌, List, [], ◌∷◌, ◌++◌, ◌==◌, within,
  if◌then◌else◌, Bytes, Option, none, some, take, ℤ, pos, minus_one,
}

-- The value of a hexadecimal digit, or -1.
unfoldable pub hex2int : ℕ → ℤ
hex2int c =
    if within b'0' b'9' c
    then pos (c - b'0')
    else if within b'a' b'f' c
    then pos (c - b'a' + 10)
    else if within b'A' b'F' c
    then pos (c - b'A' + 10)
    else minus_one

-- strstartswith(prefix, s) == 0
unfoldable pub strstartswith : Bytes → Bytes → Bool
strstartswith [] s = true
strstartswith (p ∷ prefix) [] = false
strstartswith (p ∷ prefix) (c ∷ s) = p == c && strstartswith prefix s

abbrev pub is_blank : ℕ → Bool
is_blank c = c == b' ' || c == b'\t'

-- The place behind the last byte that is no blank, from index `i`.
last_char : Bytes → ℕ → Option ℕ → Option ℕ
last_char [] i found = found
last_char (c ∷ s) i found = last_char s (suc i) (if is_blank c then found else some (suc i))

cut_at : Bytes → Option ℕ → Bytes
cut_at s none = s
cut_at s (some n) = take n s

rtrim : Bytes → Bytes
unfolding last_char cut_at
rtrim s = cut_at s (last_char s 0 none)

skip_blanks : Bytes → Bytes
skip_blanks [] = []
skip_blanks (c ∷ s) = if is_blank c then skip_blanks s else c ∷ s

-- Up to the first blank or '=', and from there.
token : Bytes → Bytes → Bytes × Bytes
token tok [] = (tok, [])
token tok (c ∷ s) =
    let more = token (tok ++ c ∷ []) s in if is_blank c || c == b'=' then (tok, c ∷ s) else more

-- Behind the token, and the blanks there, where no '=' ended it.
after_blank : Bytes → Bytes → Option (Bytes × Bytes)
unfolding skip_blanks rtrim
after_blank tok [] = none
after_blank tok (c ∷ s) = if c == b'=' then some (tok, rtrim (skip_blanks s)) else none

after_token : Bytes → Bytes → Option (Bytes × Bytes)
unfolding after_blank skip_blanks rtrim
after_token tok [] = none
after_token tok (c ∷ s) =
    if c == b'=' then some (tok, rtrim (skip_blanks s)) else after_blank tok (skip_blanks s)

from_token : Bytes → Option (Bytes × Bytes)
unfolding token after_token
from_token [] = none
from_token (c ∷ s) = after_token (token [] (c ∷ s)).0 (token [] (c ∷ s)).1

-- The token and the value, or `none` where the C function returns NULL.
unfoldable pub cfg_tokvaldelim : Bytes → Option (Bytes × Bytes)
unfolding from_token skip_blanks
cfg_tokvaldelim line = from_token (skip_blanks line)
