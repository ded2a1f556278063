-- ===== src/Edit/Tests.antt =====
-- Tests of the editor, and the theorems at concrete inputs.
use gopherus.Base.{◌≡◌, refl, true, some, List, [], ◌∷◌, ℕ, codes, arith, replicate, ◌++◌}
use gopherus.Edit.{State, editstring}
use gopherus.Edit.Zipper.{at, step_end}
use gopherus.Edit.Session.{observe, edit_text, editstring-edit_text}

-- LEFT, 'x', DEL, BACKSPACE, HOME, 'y', END, 'z', ENTER
abbrev keys : List ℕ
keys = 331 ∷ b'x' ∷ 339 ∷ 8 ∷ 327 ∷ b'y' ∷ 335 ∷ b'z' ∷ 13 ∷ []

edited :
    observe (editstring 8 (codes "ab" ++ 0 ∷ replicate 5 9) keys)
    ≡ some (true, codes "yaz" ++ 0 ∷ [])
unfolding editstring observe
edited = refl

editstring-edit_text_example :
    observe (editstring 8 (codes "ab" ++ 0 ∷ replicate 5 9) keys)
    ≡ edit_text 8 (step_end (at [] (codes "ab"))) keys
editstring-edit_text_example =
    editstring-edit_text 8 (codes "ab") (replicate 5 9) keys
      (λ e. omega arith, (λ e. omega arith, tt)) refl

abbrev long_line : State
long_line = record { url = replicate 90 b'a'; urllen = 90; cursorpos = 80 }
