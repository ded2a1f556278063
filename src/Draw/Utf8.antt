-- ===== src/Draw/Utf8.antt =====
-- What is drawn: exactly the cells of the row, and the characters that UTF-8 encodes.
use gopherus.Base.{
  ℕ, suc, zero, ◌+◌, ◌/◌, ◌%◌, ◌≤◌, ◌<◌, ◌≡◌, refl, ap, List, [], ◌∷◌, ◌++◌, ltb, ◌==◌,
  if◌then◌else◌, Bytes, length, replicate, Bool-cases, inl, inr,
}
use gopherus.Draw.{Decoder, utf8toint, drawstr}

length-replicate : (n a : ℕ) → length (replicate n a) ≡ n
length-replicate zero a = refl
length-replicate (suc n) a = ap suc (length-replicate n a)

-- Whatever the bytes, and whatever state the decoder is in, exactly `len` cells of the row are drawn.
pub length-drawstr : (d : Decoder) (len : ℕ) (s : Bytes) → length (drawstr d len s).cells ≡ len
unfolding drawstr
length-drawstr d zero s = refl
length-drawstr d (suc len) [] = length-replicate (suc len) b' '
length-drawstr d (suc len) (b ∷ s) = elim (Bool-cases ((utf8toint d b).value == 0)) [
  | inl skip ↦ rw skip (length-drawstr (utf8toint d b).next (suc len) s)
  | inr put ↦ rw put (ap suc (length-drawstr (utf8toint d b).next len s))
]

-- The UTF-8 encoding of a code point.
unfoldable pub encode : ℕ → Bytes
encode c =
    if ltb c 128
    then c ∷ []
    else if ltb c 2048
    then (192 + c / 64) ∷ (128 + c % 64) ∷ []
    else if ltb c 65536
    then (224 + c / 4096) ∷ (128 + c / 64 % 64) ∷ (128 + c % 64) ∷ []
    else (240 + c / 262144) ∷ (128 + c / 4096 % 64) ∷ (128 + c / 64 % 64) ∷ (128 + c % 64) ∷ []

unfoldable pub encoded : List ℕ → Bytes
unfolding encode
encoded [] = []
encoded (c ∷ cs) = encode c ++ encoded cs

state : ℕ → ℕ → Decoder
state buff waitfor = record { buff = buff; waitfor = waitfor }

-- A code point that is no control character.
abbrev pub Printable : ℕ → Type 0
Printable c = (32 ≤ c) × (c < 1114112)

-- What `encode c` draws, followed by any bytes: `c`, with the decoder between two sequences.
DrawsOne : ℕ → ℕ → ℕ → Bytes → Bytes → Type 0
DrawsOne b len c bs s =
    (b' : ℕ) × ((drawstr (state b 0) (suc len) (bs ++ s)).cells
      ≡ c ∷ (drawstr (state b' 0) len s).cells)
