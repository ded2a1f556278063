-- ===== src/ReadLine.antt =====
-- readflin.c: one line read from a file into a buffer of `blen` bytes. The file is the bytes that
-- are still to be read; a read returns what was stored before the nul, the result and the rest.
pub mod Lines
mod Tests
use gopherus.Base.{
  ℕ, suc, zero, ◌+◌, ◌-◌, Bool, true, false, ◌&&◌, List, [], ◌∷◌, ◌++◌, ◌==◌, if◌then◌else◌, length,
  Bytes,
}

pub record Line : Type 0 where
  pub result : ℕ
  pub text : Bytes
  pub rest : Bytes

-- `b` without a CR at its end
pub strip_cr : Bytes → Bytes
strip_cr [] = []
strip_cr (c ∷ []) = if c == b'\r' then [] else c ∷ []
strip_cr (c ∷ d ∷ cs) = c ∷ strip_cr (d ∷ cs)

-- Behind the loop; the result counts the nul.
finish : Bytes → Bytes → Line
unfolding strip_cr
finish b rest = record { result = length (strip_cr b) + 1; text = strip_cr b; rest = rest }

too_long : Bytes → Bytes → Line
too_long b rest = record { result = 0; text = b; rest = rest }

-- The loop over `fgetc`; `b` is what the buffer holds, `l` bytes of it.
read_loop : ℕ → ℕ → Bytes → Bytes → Line
unfolding finish too_long
read_loop blen l b [] =
    if l == blen then too_long b [] else if l == 0 then too_long b [] else finish b []
read_loop blen l b (c ∷ rest) =
    let more = read_loop blen (l + 1) (b ++ c ∷ []) rest in
    if l == blen then too_long b (c ∷ rest) else if c == b'\n' then finish b rest else more

unfoldable pub readfline : ℕ → Bytes → Line
unfolding read_loop
readfline blen file = read_loop blen 0 [] file

-- `for (;;) { r = readfline(...); if (r == 0) break; ... }`: the lines that a loop over a file gets,
-- with fuel.
unfoldable pub read_all : ℕ → ℕ → Bytes → List Bytes
unfolding readfline
read_all zero blen file = []
read_all (suc fuel) blen file =
    let r = readfline blen file in
    elim (r.result == 0) [ true ↦ [] | false ↦ r.text ∷ read_all fuel blen r.rest ]
