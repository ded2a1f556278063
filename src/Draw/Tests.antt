-- ===== src/Draw/Tests.antt =====
-- Tests of the drawing of strings, and the theorems at concrete inputs.
use gopherus.Base.{◌≡◌, refl, [], ◌∷◌}
use gopherus.Draw.{Decoder, drawstr, utf8toint}

abbrev fresh : Decoder
fresh = record { buff = 0; waitfor = 0 }

euro : (drawstr fresh 4 (0xe2 ∷ 0x82 ∷ 0xac ∷ 9 ∷ 7 ∷ [])).cells ≡ 0x20ac ∷ b' ' ∷ b'.' ∷ b' ' ∷ []
unfolding drawstr utf8toint
euro = refl
