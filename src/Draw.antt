-- ===== src/Draw.antt =====
-- gopherus.c, utf8toint and drawstr: a UTF-8 string on a row of the screen. The decoder's static
-- variables are a state that every call takes and returns.
mod Utf8
mod Tests
use gopherus.Base.{
  ℕ, suc, zero, ◌+◌, ◌-◌, ◌*◌, ◌%◌, ◌^◌, Bool, ◌||◌, List, [], ◌∷◌, ltb, ◌==◌, if◌then◌else◌, Bytes,
  replicate,
}

pub record Decoder : Type 0 where
  pub buff : ℕ
  pub waitfor : ℕ

pub record Decoded : Type 0 where
  pub value : ℕ
  pub next : Decoder

-- the label DECODE_ERR
decode_err : Decoded
decode_err = record { value = b'.'; next = record { buff = 0; waitfor = 0 } }

-- The first byte of a sequence, with `waitfor` more to come.
starts : Decoder → ℕ → ℕ → Decoded
unfolding decode_err
starts d buff waitfor =
    if d.waitfor == 0
    then record { value = 0; next = record { buff = buff; waitfor = waitfor } }
    else decode_err

continues : Decoder → ℕ → Decoded
unfolding decode_err
continues d s =
    let buff = (d.buff * 64 + s % 64) % 2 ^ 32 in
    if d.waitfor == 0 then decode_err else record {
      value = if d.waitfor == 1 then buff else 0;
      next = record { buff = buff; waitfor = d.waitfor - 1 };
    }

single : Decoder → ℕ → Decoded
unfolding decode_err
single d s =
    if d.waitfor == 0
    then record { value = s; next = record { buff = 0; waitfor = 0 } }
    else decode_err

-- `s` is an unsigned char.
unfoldable pub utf8toint : Decoder → ℕ → Decoded
unfolding single continues starts decode_err
utf8toint d s =
    if ltb s 128
    then single d s
    else if ltb s 192
    then continues d s
    else if ltb s 224
    then starts d (s % 32) 1
    else if ltb s 240
    then starts d (s % 16) 2
    else if ltb s 248
    then starts d (s % 8) 3
    else decode_err

-- TABs are spaces, and control characters dots.
abbrev pub shown : ℕ → ℕ
shown wchar = if wchar == b'\t' then b' ' else if ltb wchar 32 then b'.' else wchar

pub record Drawn : Type 0 where
  pub cells : List ℕ
  pub decoder : Decoder

-- The characters put on the row, from `len` cells before its end.
unfoldable pub drawstr : Decoder → ℕ → Bytes → Drawn
drawstr d zero s = record { cells = []; decoder = d }
drawstr d (suc len) [] = record { cells = replicate (suc len) b' '; decoder = d }
drawstr d (suc len) (b ∷ s) =
    let r = utf8toint d b in
    let skipped = drawstr r.next (suc len) s in
    let more = drawstr r.next len s in
    if r.value == 0
    then skipped
    else record { cells = shown r.value ∷ more.cells; decoder = more.decoder }
