-- ===== src/FileName.antt =====
-- gopherus.c, genfnamefromselector: the file name that is offered for a download. A selector is shorter
-- than 65535 bytes, so that its indices fit an unsigned short and none is 0xffff, which stands for no
-- dot and is none here. The system has long file names (NOLFN is not defined).
pub mod Harmless
pub mod Dots
pub mod Safe
mod Tests
use gopherus.Base.{
  ℕ, suc, zero, ◌+◌, ◌-◌, ◌%◌, Bool, true, false, ◌||◌, ◌&&◌, List, [], ◌∷◌, ◌++◌, ltb, ◌==◌,
  within, if◌then◌else◌, Bytes, Option, none, some, length, take, drop, map,
}

-- Where the file's name starts, its length, and the last dot in it.
pub record Found : Type 0 where
  pub selector : Bytes
  pub i : ℕ
  pub lastdot : Option ℕ

-- The loop over the selector, whose bytes from index `i` on are the last argument. Behind a `/` it goes
-- on at index 1, so that none is the result where it reads behind the selector's nul.
pub scan : Bytes → ℕ → Option ℕ → Bytes → Option Found
scan selector i lastdot [] = some (record { selector = selector; i = i; lastdot = lastdot })
scan selector i lastdot (c ∷ []) =
    let dot = if c == b'.' then some i else lastdot in
    let last = scan selector (i + 1) dot [] in if c == b'/' then none else last
scan selector i lastdot (c ∷ d ∷ rest) =
    let dot = if c == b'.' then some i else lastdot in
    let name = scan (d ∷ rest) 1 none rest in
    let more = scan selector (i + 1) dot (d ∷ rest) in if c == b'/' then name else more

-- `flen` and `extlen`, which counts the dot
lengths : Found → ℕ × ℕ
lengths f = elim f.lastdot [
  | none ↦ (f.i, 0)
  | some lastdot ↦ (lastdot, if f.i - lastdot - 1 == 0 then 0 else f.i - lastdot)
]

-- `flen` for a name of at most `maxlen` bytes, in an unsigned short
fitted : ℕ → ℕ → ℕ → ℕ
fitted maxlen flen extlen =
    if ltb maxlen (flen + extlen) then (maxlen + 65536 - extlen) % 65536 else flen

pub is_safe : ℕ → Bool
is_safe c =
    within b'a' b'z' c
    || within b'A' b'Z' c
    || within b'0' b'9' c
    || c == b'_'
    || c == b'-'
    || c == b'@'
    || c == b'$'
    || c == b'('
    || c == b')'
    || c == b'.'
    || c == b'!'
    || c == b'&'

underscored : ℕ → ℕ
unfolding is_safe
underscored c = if is_safe c then c else b'_'

extension : Found → ℕ → Bytes
extension f extlen = elim f.lastdot [
  | none ↦ []
  | some lastdot ↦ take extlen (drop lastdot f.selector)
]

-- The name in `fname`, which has room for `maxlen` bytes and a nul; none where more is written.
fill : ℕ → Found → ℕ → ℕ → Option Bytes
unfolding extension underscored
fill maxlen f flen extlen =
    if flen == 0
    then some []
    else if ltb maxlen (flen + extlen)
    then none
    else some (map underscored (take flen f.selector ++ extension f extlen))

-- For a buffer of `maxlen` bytes, at least 1.
unfoldable pub genfnamefromselector : ℕ → Bytes → Option Bytes
unfolding scan lengths fitted fill
genfnamefromselector maxlen selector = elim (scan selector 0 none selector) [
  | none ↦ none
  | some f ↦
      let (flen, extlen) = lengths f in fill (maxlen - 1) f (fitted (maxlen - 1) flen extlen) extlen
]
