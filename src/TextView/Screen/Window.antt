-- ===== src/TextView/Screen/Window.antt =====
-- display_text: the rows of the screen are a window of the wrapped text.
use mathlib.Core.Option
use gopherus.Base.{
  ℕ, suc, zero, ◌+◌, ◌-◌, ◌≤◌, ◌<◌, ◌≡◌, refl, sym, ap, ap₂, ◌∙◌, inl, inr, true, false, List, [],
  ◌∷◌, ◌++◌, ltb, leb, Bytes, Option, none, some, length, take, drop, replicate, arith, Bool-cases,
  Option-cases, append-nil, length-take, length-drop, min,
}
use gopherus.TextView.Screen.{Row, View, drawn, draw_lines, blanks, filled, draw}
use gopherus.Wordwrap.{wordwrap, wrap_lines}

-- The rows of the lines from number `y` on.
rows_from : View → ℕ → List Bytes → List Row
unfolding drawn
rows_from v y [] = []
rows_from v y (l ∷ ls) = drawn v y l ++ rows_from v (y + 1) ls

module _ (fuel screenw : ℕ) (v : View) (y : ℕ) (txt : Bytes) where
  draw_last :
      (wordwrap txt screenw).next ≡ none
      → draw_lines (suc fuel) screenw v y txt ≡ some (drawn v y (wordwrap txt screenw).line, y + 1)
  unfolding draw_lines
  draw_last e =
      rw (e, draw_lines)
        (elim (Bool-cases (ltb v.lastline (y + 1))) [
          | inl full ↦ rw full refl
          | inr room ↦ rw room refl
        ])

  draw_stop :
      v.lastline < y + 1
      → draw_lines (suc fuel) screenw v y txt ≡ some (drawn v y (wordwrap txt screenw).line, y + 1)
  unfolding draw_lines
  draw_stop h =
      let full : ltb v.lastline (y + 1) ≡ true = ground arith in rw (full, draw_lines) refl

  draw_more :
      (rest : Bytes) (r : List Row × ℕ)
      → y + 1 ≤ v.lastline
      → (wordwrap txt screenw).next ≡ some rest
      → draw_lines fuel screenw v (y + 1) rest ≡ some r
      → draw_lines (suc fuel) screenw v y txt
        ≡ some (drawn v y (wordwrap txt screenw).line ++ r.0, r.1)
  unfolding draw_lines
  draw_more rest r h e d =
      let room : ltb v.lastline (y + 1) ≡ false = ground arith in
      rw (room, e, draw_lines) (rw d refl)

  wrap_last :
      (ls : List Bytes)
      → wrap_lines (suc fuel) screenw txt ≡ some ls
      → (wordwrap txt screenw).next ≡ none
      → ls ≡ (wordwrap txt screenw).line ∷ []
  unfolding wrap_lines
  wrap_last ls h e =
      let value : wrap_lines (suc fuel) screenw txt ≡ some ((wordwrap txt screenw).line ∷ []) =
        rw (e, wrap_lines) refl in
      cc

  wrap_more :
      (ls : List Bytes) (rest : Bytes)
      → wrap_lines (suc fuel) screenw txt ≡ some ls
      → (wordwrap txt screenw).next ≡ some rest
      → (ls' : List Bytes) × (wrap_lines fuel screenw rest ≡ some ls')
        × (ls ≡ (wordwrap txt screenw).line ∷ ls')
  unfolding wrap_lines
  wrap_more ls rest h e = elim (Option-cases (wrap_lines fuel screenw rest)) [
    | inl bad ↦
        let value : wrap_lines (suc fuel) screenw txt ≡ none = rw (e, wrap_lines) (rw bad refl) in
        cc
    | inr (ls', good) ↦
        let value : wrap_lines (suc fuel) screenw txt ≡ some ((wordwrap txt screenw).line ∷ ls') =
          rw (e, wrap_lines) (rw good refl) in
        (ls', good, cc)
  ]

pub wrap_lines-pos :
    (fuel screenw : ℕ) (txt : Bytes) (ls : List Bytes)
    → wrap_lines fuel screenw txt ≡ some ls
    → 0 < length ls
unfolding wrap_lines
wrap_lines-pos zero screenw txt ls e = cc
wrap_lines-pos (suc fuel) screenw txt ls e =
    let v : View = record { firstline = 0; lastline = 0 } in
    elim (Option-cases (wordwrap txt screenw).next) [
      | inl end ↦ rw (wrap_last fuel screenw v 0 txt ls e end) (omega arith)
      | inr (rest, more) ↦
          let (ls', f, same) = wrap_more fuel screenw v 0 txt ls rest e more in
          rw same (omega arith)
    ]

take_nil : (n : ℕ) → take {A = Bytes} n [] ≡ []
take_nil zero = refl
take_nil (suc n) = refl

rows_last : (v : View) (y n : ℕ) (l : Bytes) → drawn v y l ≡ rows_from v y (take (suc n) (l ∷ []))
unfolding rows_from
rows_last v y n l =
    sym (ap (λ ls. drawn v y l ++ rows_from v (y + 1) ls) (take_nil n) ∙ append-nil (drawn v y l))

rows_full :
    (v : View) (y : ℕ) (l : Bytes) (ls : List Bytes) → drawn v y l ≡ rows_from v y (take 1 (l ∷ ls))
unfolding rows_from
rows_full v y l ls = sym (append-nil (drawn v y l))

drawn_eq :
    (a b : List Row) (m n : ℕ)
    → a ≡ b
    → m ≡ n
    → ◌≡◌ {A = Option (List Row × ℕ)} (some (a, m)) (some (b, n))
drawn_eq a b m n e f = rw (e, f) refl

draw_lines-rows :
    (fuel screenw : ℕ) (v : View) (y : ℕ) (txt : Bytes) (ls : List Bytes)
    → wrap_lines fuel screenw txt ≡ some ls
    → y ≤ v.lastline
    → draw_lines fuel screenw v y txt
      ≡ some (rows_from v y (take (v.lastline + 1 - y) ls), min (y + length ls) (v.lastline + 1))
unfolding rows_from wrap_lines
draw_lines-rows zero screenw v y txt ls e h = cc
draw_lines-rows (suc fuel) screenw v y txt ls e h =
    let w = wordwrap txt screenw in
    let one : v.lastline + 1 - y ≡ suc (v.lastline - y) = omega arith in
    elim (Option-cases w.next) [
      | inl end ↦
          let only = wrap_last fuel screenw v y txt ls e end in
          draw_last fuel screenw v y txt end
          ∙ rw (only, one) (drawn_eq _ _ _ _ (rows_last v y (v.lastline - y) w.line) (omega arith))
      | inr (rest, more) ↦
          let (ls', e', same) = wrap_more fuel screenw v y txt ls rest e more in
          elim (Bool-cases (ltb y v.lastline)) [
            | inr full ↦
                let end : v.lastline - y ≡ 0 = ground arith in
                draw_stop fuel screenw v y txt (ground arith)
                ∙ rw (same, one, end) (drawn_eq _ _ _ _ (rows_full v y w.line ls') (ground arith))
            | inl room ↦
                let left : v.lastline + 1 - (y + 1) ≡ v.lastline - y = omega arith in
                draw_more fuel screenw v y txt rest _ (ground arith) more
                  (draw_lines-rows fuel screenw v (y + 1) rest ls' e' (ground arith))
                ∙ rw (same, one)
                    (drawn_eq _ _ _ _
                      (ap (λ a. drawn v y w.line ++ rows_from v (y + 1) (take a ls')) left)
                      (omega arith))
          ]
    ]

-- Rows from number `k` on.
abbrev pub numbered : ℕ → List Bytes → List Row
numbered k [] = []
numbered k (l ∷ ls) = record { row = k; text = l } ∷ numbered (k + 1) ls

-- The lines from number `first` on, as many as there are rows for, and then empty ones.
abbrev pub window : ℕ → ℕ → List Bytes → List Bytes
window first height ls = take height (drop first ls) ++ replicate (height - (length ls - first)) []

numbered-append :
    (k : ℕ) (xs ys : List Bytes)
    → numbered k (xs ++ ys) ≡ numbered k xs ++ numbered (k + length xs) ys
numbered-append k [] ys = ap (λ n. numbered n ys) (omega arith)
numbered-append k (x ∷ xs) ys =
    let e : k + 1 + length xs ≡ k + suc (length xs) = omega arith in
    ap (record { row = k; text = x } ∷◌)
      (numbered-append (k + 1) xs ys ∙ ap (λ n. numbered (k + 1) xs ++ numbered n ys) e)

rows_from-numbered :
    (v : View) (y : ℕ) (ls : List Bytes)
    → v.firstline ≤ y
    → rows_from v y ls ≡ numbered (y + 1 - v.firstline) ls
unfolding rows_from drawn
rows_from-numbered v y [] h = refl
rows_from-numbered v y (l ∷ ls) h =
    let on : leb v.firstline y ≡ true = ground arith in
    let next : y + 1 + 1 - v.firstline ≡ y + 1 - v.firstline + 1 = omega arith in
    rw on (
      ap (record { row = y + 1 - v.firstline; text = l } ∷◌)
        (rows_from-numbered v (y + 1) ls (omega arith) ∙ ap (λ n. numbered n ls) next))

-- The lines above the screen are not drawn.
rows_from-drop :
    (v : View) (y k height : ℕ) (ls : List Bytes)
    → v.firstline ≡ y + k
    → rows_from v y (take (k + height) ls) ≡ numbered 1 (take height (drop k ls))
unfolding rows_from drawn
rows_from-drop v y zero height ls h =
    let all : 0 + height ≡ height = omega arith in
    let one : y + 1 - v.firstline ≡ 1 = omega arith in
    rows_from-numbered v y (take (0 + height) ls) (omega arith)
    ∙ ap₂ (λ a b. numbered a (take b ls)) one all
rows_from-drop v y (suc k) height [] h =
    let e : suc k + height ≡ suc (k + height) = omega arith in
    ap (rows_from v y) (take_nil (suc k + height)) ∙ ap (numbered 1) (sym (take_nil height))
rows_from-drop v y (suc k) height (l ∷ ls) h =
    let e : suc k + height ≡ suc (k + height) = omega arith in
    let off : leb v.firstline y ≡ false = ground arith in
    rw (e, off) (rows_from-drop v (y + 1) k height ls (omega arith))

blanks-numbered :
    (n : ℕ) (v : View) (y : ℕ)
    → v.firstline ≤ y
    → blanks n v y ≡ numbered (y + 1 - v.firstline) (replicate n [])
unfolding blanks
blanks-numbered zero v y h = refl
blanks-numbered (suc n) v y h =
    let next : y + 1 + 1 - v.firstline ≡ y + 1 - v.firstline + 1 = omega arith in
    ap (record { row = y + 1 - v.firstline; text = [] } ∷◌)
      (blanks-numbered n v (y + 1) (omega arith) ∙ ap (λ m. numbered m (replicate n [])) next)

-- Where the first line of the screen is one of the wrapped text, the rows from 1 on get the lines from
-- it on, each row once and in order, and the rows that are left get empty strings. The end counts as
-- reached where no line is below the screen and its last row is empty.
pub draw-window :
    (screenw : ℕ) (v : View) (buffer : Bytes) (ls : List Bytes)
    → wrap_lines (length buffer + 1) screenw buffer ≡ some ls
    → v.firstline ≤ v.lastline
    → v.firstline < length ls
    → draw screenw v buffer
      ≡ some (
        numbered 1 (window v.firstline (v.lastline + 1 - v.firstline) ls),
        leb (length ls) v.lastline,
      )
unfolding draw filled
draw-window screenw v buffer ls e h k =
    let f = v.firstline in
    let height = v.lastline + 1 - f in
    let y = min (0 + length ls) (v.lastline + 1) in
    let shown = take height (drop f ls) in
    let all : v.lastline + 1 - 0 ≡ f + height = omega arith in
    let rows : rows_from v 0 (take (v.lastline + 1 - 0) ls) ≡ numbered 1 shown =
      ap (λ n. rows_from v 0 (take n ls)) all ∙ rows_from-drop v 0 f height ls (omega arith) in
    let count : v.lastline + 1 - y ≡ height - (length ls - f) = omega arith in
    let next : y + 1 - f ≡ 1 + length shown =
      omega (arith, length-take height (drop f ls), length-drop f ls) in
    let rest : blanks (v.lastline + 1 - y) v y
        ≡ numbered (1 + length shown) (replicate (height - (length ls - f)) []) =
      blanks-numbered _ v y (omega arith) ∙ ap₂ (λ a b. numbered a (replicate b [])) next count in
    let eof : leb y v.lastline ≡ leb (length ls) v.lastline = ground arith in
    ap (Option.map (filled v))
      (draw_lines-rows (length buffer + 1) screenw v 0 buffer ls e (omega arith))
    ∙ ap₂ (λ a b. some (a, b)) (ap₂ (λ a b. a ++ b) rows rest ∙ sym (numbered-append 1 shown _)) eof
