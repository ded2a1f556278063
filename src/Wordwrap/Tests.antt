-- ===== src/Wordwrap/Tests.antt =====
-- Tests of the wrapping, and the theorems at concrete inputs.
use gopherus.Base.{◌≡◌, ◌<◌, refl, some, List, [], ◌∷◌, codes, Bytes, arith, length, All, ap}
use gopherus.Wordwrap.{wordwrap, wrap_lines}
use gopherus.Wordwrap.Text.{IsLine, solid, flat, wordwrap-IsLine, wordwrap-next, wrap_lines_total}

at_word :
    wordwrap (codes "the quick brown fox") 9
    ≡ record { line = codes "the quick"; next = some (codes "brown fox") }
unfolding wordwrap
at_word = refl

-- A full line that ends by CR LF is followed by an empty one.
lines :
    wrap_lines 9 5 (codes "the quick\r\nbrownfox")
    ≡ some (codes "the" ∷ codes "quick" ∷ [] ∷ codes "brown" ∷ codes "fox" ∷ [])
unfolding wordwrap wrap_lines
lines = refl

wordwrap-IsLine_example : IsLine 9 (wordwrap (codes "the quick brown fox") 9).line
wordwrap-IsLine_example = wordwrap-IsLine (codes "the quick brown fox") 9

wordwrap-next_example : length (codes "brown fox") < length (codes "the quick brown fox")
wordwrap-next_example =
    wordwrap-next (codes "the quick brown fox") 9 (codes "brown fox") (omega arith)
      (ap (λ w. w.next) at_word)

wrap_lines_total_example :
    (ls : List Bytes) × (wrap_lines 20 5 (codes "the quick\r\nbrownfox") ≡ some ls)
    × All (IsLine 5) ls
    × (solid (flat ls) ≡ solid (codes "the quick\r\nbrownfox"))
wrap_lines_total_example =
    wrap_lines_total 20 5 (codes "the quick\r\nbrownfox") (omega arith) (omega arith)
