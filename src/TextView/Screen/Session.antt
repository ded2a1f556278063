-- ===== src/TextView/Screen/Session.antt =====
-- display_text: the keys, one after the other.
use gopherus.Base.{
  ℕ, suc, zero, ◌+◌, ◌-◌, ◌*◌, ◌≤◌, ◌<◌, ◌≡◌, refl, sym, ap, ◌∙◌, subst, inl, inr, Bool, true,
  false, not, ◌&&◌, List, [], ◌∷◌, ltb, leb, ◌==◌, if◌then◌else◌, Bytes, Option, none, some, length,
  get_or, replicate, arith, Bool-cases, Option-cases,
}
use gopherus.Menu.Keys.{maxhostlen, maxsellen}
use gopherus.TextView.Screen.{
  View, Place, Key, Turn, go, edited, key_up, key_down, key_pgup, key_pgdown, press, start, draw,
}
use gopherus.TextView.Screen.Window.{numbered, window, draw-window, wrap_lines-pos}
use gopherus.Url.Parse.{parsegopherurl, parseurl_proto_gopher, parseurl_error}
use gopherus.Wordwrap.{wrap_lines}
use gopherus.Wordwrap.Text.{wrap_lines_total}

-- The view of the next turn of the loop, if there is one; a message or a bookmark does not end it.
unfoldable pub next_view : View → Turn → Option View
next_view v (Turn.stay v') = some v'
next_view v Turn.add_bookmark = some v
next_view v Turn.top_reached = some v
next_view v Turn.end_reached = some v
next_view v t = none

-- The loop over the keys of a user, for a text of `n` lines: the last view that is shown.
unfoldable pub run : Place → ℕ → View → List Key → View
run p n v [] = v
run p n v (k ∷ ks) = elim (next_view v (press p (leb n v.lastline) v k)) [
  | none ↦ v
  | some v' ↦ run p n v' ks
]

-- The turn at which the loop is left, with what is drawn; none while it goes on.
unfoldable pub leave : Place → ℕ → Bytes → View → List Key → Option Turn
leave p screenw buffer v [] = none
leave p screenw buffer v (k ∷ ks) = elim (draw screenw v buffer) [
  | none ↦ none
  | some r ↦ elim (next_view v (press p r.1 v k)) [
    | none ↦ some (press p r.1 v k)
    | some v' ↦ leave p screenw buffer v' ks
  ]
]

-- The screen shows its number of lines, the first of which is one of the text.
pub record Paged (rowcount n : ℕ) (v : View) : Type 0 where
  pub ends : v.lastline ≡ v.firstline + (rowcount - 3)
  pub shows : v.firstline < n

Kept : ℕ → ℕ → View → Turn → Type 0
Kept rowcount n v t = (v' : View) → next_view v t ≡ some v' → Paged rowcount n v'

module _ (p : Place) (n : ℕ) (v : View) (h : 3 < p.rowcount) (i : Paged p.rowcount n v) where
  Kept-same : (t : Turn) → next_view v t ≡ some v → Kept p.rowcount n v t
  unfolding Kept
  Kept-same t e v' d = let same : v ≡ v' = cc in subst (Paged p.rowcount n) same i

  Kept-stay : (v' : View) → Paged p.rowcount n v' → Kept p.rowcount n v (Turn.stay v')
  unfolding Kept next_view
  Kept-stay v' j v'' d = let same : v' ≡ v'' = cc in subst (Paged p.rowcount n) same j

  Kept-leave : (t : Turn) → next_view v t ≡ none → Kept p.rowcount n v t
  unfolding Kept
  Kept-leave t e v' d = cc

  Kept-if :
      (b : Bool) (t u : Turn)
      → (b ≡ true → Kept p.rowcount n v t)
      → (b ≡ false → Kept p.rowcount n v u)
      → Kept p.rowcount n v (if b then t else u)
  Kept-if true t u a b = a refl
  Kept-if false t u a b = b refl

  edited-Kept : (text : Option Bytes) → Kept p.rowcount n v (edited v text)
  unfolding edited next_view
  edited-Kept none = Kept-stay v i
  edited-Kept (some url) =
      let parts = parsegopherurl url maxhostlen maxsellen in
      Kept-if (parts.protocol == parseurl_error) (Turn.stay v) (Turn.push parts)
        (λ e. Kept-stay v i) (λ e. Kept-leave (Turn.push parts) refl)

  -- A key keeps the screen on the text.
  press-Paged : (k : Key) → Kept p.rowcount n v (press p (leb n v.lastline) v k)
  unfolding press go key_up key_down key_pgup key_pgdown next_view
  press-Paged Key.backspc = Kept-leave Turn.back refl
  press-Paged (Key.tab text) = edited-Kept text
  press-Paged Key.bookmark = Kept-same Turn.add_bookmark refl
  press-Paged (Key.esc true) = Kept-leave Turn.quit refl
  press-Paged (Key.esc false) = Kept-stay v i
  press-Paged Key.help = Kept-leave _ refl
  press-Paged Key.jmp_home = Kept-leave _ refl
  press-Paged Key.jmp_main =
      let main = go parseurl_proto_gopher p.host p.port b'1' [] in
      Kept-if (p.protocol == parseurl_proto_gopher && not (get_or p.host 0 0 == b'#')) main
        (Turn.stay v) (λ e. Kept-leave main refl) (λ e. Kept-stay v i)
  press-Paged Key.refresh = Kept-leave Turn.refr refl
  press-Paged Key.save_as = Kept-leave _ refl
  press-Paged Key.up =
      let ends = i.ends in
      let shows = i.shows in
      Kept-if (ltb 0 v.firstline) _ Turn.top_reached
        (λ e. Kept-stay _ (record { ends = ground arith; shows = ground arith }))
        (λ e. Kept-same Turn.top_reached refl)
  press-Paged Key.down =
      let ends = i.ends in
      let shows = i.shows in
      Kept-if (leb n v.lastline) Turn.end_reached _ (λ e. Kept-same Turn.end_reached refl)
        (λ e. Kept-stay _ (record { ends = ground arith; shows = ground arith }))
  press-Paged Key.home =
      let ends = i.ends in
      let shows = i.shows in Kept-stay _ (record { ends = ground arith; shows = ground arith })
  press-Paged Key.pgup =
      let ends = i.ends in
      let shows = i.shows in
      Kept-if (ltb 0 v.firstline) _ Turn.top_reached
        (λ e. Kept-stay _ (record { ends = ground arith; shows = ground arith }))
        (λ e. Kept-same Turn.top_reached refl)
  press-Paged Key.end = Kept-stay v i
  press-Paged Key.pgdown =
      let ends = i.ends in
      let shows = i.shows in
      Kept-if (leb n v.lastline) Turn.end_reached _ (λ e. Kept-same Turn.end_reached refl)
        (λ e. Kept-stay _ (record { ends = ground arith; shows = ground arith }))
  press-Paged Key.other = Kept-stay v i

run-more :
    (p : Place) (n : ℕ) (v v' : View) (k : Key) (ks : List Key)
    → next_view v (press p (leb n v.lastline) v k) ≡ some v'
    → run p n v (k ∷ ks) ≡ run p n v' ks
unfolding run
run-more p n v v' k ks h = rw (h, run) refl

run-end :
    (p : Place) (n : ℕ) (v : View) (k : Key) (ks : List Key)
    → next_view v (press p (leb n v.lastline) v k) ≡ none
    → run p n v (k ∷ ks) ≡ v
unfolding run
run-end p n v k ks h = rw (h, run) refl

run-Paged :
    (p : Place) (n : ℕ) (v : View) (keys : List Key)
    → 3 < p.rowcount
    → Paged p.rowcount n v
    → Paged p.rowcount n (run p n v keys)
unfolding Kept
run-Paged p n v [] h i = unfold run in i
run-Paged p n v (k ∷ ks) h i =
    let t = press p (leb n v.lastline) v k in
    elim (Option-cases (next_view v t)) [
      | inl end ↦ subst (Paged p.rowcount n) (sym (run-end p n v k ks end)) i
      | inr (v', more) ↦
          subst (Paged p.rowcount n) (sym (run-more p n v v' k ks more))
            (run-Paged p n v' ks h (press-Paged p n v h i k v' more))
    ]

start-Paged : (rowcount n : ℕ) → 0 < n → Paged rowcount n (start rowcount)
unfolding start
start-Paged rowcount n h = record { ends = omega arith; shows = h }

-- On a screen of at least 4 rows and 1 column, for every text and whatever keys lead there: the loop that
-- draws ends, and the screen is a window of the wrapped text. The rows below the first one of the
-- screen get its lines from `firstline` on, which is the number of one of them, each row once and in
-- order, and then empty strings.
pub draw-run :
    (screenw : ℕ) (p : Place) (buffer : Bytes) (keys : List Key)
    → 0 < screenw
    → 3 < p.rowcount
    → (ls : List Bytes) × (wrap_lines (length buffer + 1) screenw buffer ≡ some ls)
      × ((run p (length ls) (start p.rowcount) keys).firstline < length ls)
      × (draw screenw (run p (length ls) (start p.rowcount) keys) buffer
          ≡ some (
            numbered 1
                (window (run p (length ls) (start p.rowcount) keys).firstline (p.rowcount - 2) ls),
            leb (length ls) (run p (length ls) (start p.rowcount) keys).lastline,
          ))
draw-run screenw p buffer keys w h =
    let (ls, e, fit, all) = wrap_lines_total (length buffer + 1) screenw buffer w (omega arith) in
    let n = length ls in
    let v = run p n (start p.rowcount) keys in
    let first = start-Paged p.rowcount n (wrap_lines-pos (length buffer + 1) screenw buffer ls e) in
    let paged = run-Paged p n (start p.rowcount) keys h first in
    let ends = paged.ends in
    let height : v.lastline + 1 - v.firstline ≡ p.rowcount - 2 = omega arith in
    (
      ls,
      e,
      paged.shows,
      draw-window screenw v buffer ls e (omega arith) paged.shows
          ∙ ap (λ m. some (numbered 1 (window v.firstline m ls), leb n v.lastline)) height,
    )

pgdown-more :
    (p : Place) (n : ℕ) (v : View)
    → n ≤ v.lastline
    → (k : ℕ) → run p n v (replicate k Key.pgdown) ≡ v
unfolding press key_pgdown next_view run
pgdown-more p n v h zero = refl
pgdown-more p n v h (suc k) =
    let eof : leb n v.lastline ≡ true = ground arith in
    run-more p n v v Key.pgdown (replicate k Key.pgdown) (rw eof refl) ∙ pgdown-more p n v h k

pgdown-end :
    (p : Place) (n k : ℕ) (v : View)
    → n ≤ v.lastline + k * (p.rowcount - 3)
    → n ≤ (run p n v (replicate k Key.pgdown)).lastline
unfolding press key_pgdown next_view run
pgdown-end p n zero v e = unfold run in omega arith
pgdown-end p n (suc k) v e = elim (Bool-cases (leb n v.lastline)) [
  | inl eof ↦
      subst (λ w. n ≤ w.lastline) (sym (pgdown-more p n v (ground arith) (suc k))) (ground arith)
  | inr more ↦
      let v' : View = record {
        firstline = v.firstline + (p.rowcount - 3);
        lastline = v.lastline + (p.rowcount - 3);
      } in
      subst (λ w. n ≤ w.lastline)
        (sym (run-more p n v v' Key.pgdown (replicate k Key.pgdown) (rw more refl)))
        (pgdown-end p n k v' (ground arith))
]

-- Page Down comes to the end of every text, on a screen of at least 4 rows and 1 column: each press
-- shows all rows of the screen but one anew, so that `k` presses are enough for a text of at most
-- `k + 1` times as many lines. Then the screen is drawn with lines of the text up to the last one, and
-- the end counts as reached.
pub run-pgdown :
    (screenw k : ℕ) (p : Place) (buffer : Bytes) (ls : List Bytes)
    → 0 < screenw
    → 3 < p.rowcount
    → wrap_lines (length buffer + 1) screenw buffer ≡ some ls
    → length ls ≤ suc k * (p.rowcount - 3)
    → (first : ℕ) × (first < length ls)
      × (length ls ≤ first + (p.rowcount - 2))
      × (draw screenw (run p (length ls) (start p.rowcount) (replicate k Key.pgdown)) buffer
          ≡ some (numbered 1 (window first (p.rowcount - 2) ls), true))
unfolding start
run-pgdown screenw k p buffer ls w h e few =
    let (ls', e', shows, drawn) = draw-run screenw p buffer (replicate k Key.pgdown) w h in
    let same : ls' ≡ ls = cc in
    let keys = replicate k Key.pgdown in
    let Drawn : List Bytes → Type 0 = λ m.
      let u = run p (length m) (start p.rowcount) keys in
      draw screenw u buffer
      ≡ some (numbered 1 (window u.firstline (p.rowcount - 2) m), leb (length m) u.lastline) in
    let n = length ls in
    let v = run p n (start p.rowcount) (replicate k Key.pgdown) in
    let paged =
      run-Paged p n (start p.rowcount) (replicate k Key.pgdown) h
        (start-Paged p.rowcount n (wrap_lines-pos (length buffer + 1) screenw buffer ls e)) in
    let ends = paged.ends in
    let end : n ≤ v.lastline =
      pgdown-end p n k (start p.rowcount) (unfold start in omega (arith, few)) in
    let eof : leb n v.lastline ≡ true = ground arith in
    (
      v.firstline,
      paged.shows,
      omega arith,
      subst Drawn same drawn
          ∙ ap (λ b. some (numbered 1 (window v.firstline (p.rowcount - 2) ls), b)) eof,
    )

-- Page Up takes back what Page Down did where it did something.
pub run-pgdown-pgup :
    (p : Place) (n : ℕ) (v : View)
    → 3 < p.rowcount
    → Paged p.rowcount n v
    → v.lastline < n
    → run p n v (Key.pgdown ∷ Key.pgup ∷ []) ≡ v
unfolding press key_pgdown key_pgup next_view run
run-pgdown-pgup p n v h i k =
    let ends = i.ends in
    let v' : View = record {
      firstline = v.firstline + (p.rowcount - 3);
      lastline = v.lastline + (p.rowcount - 3);
    } in
    let more : leb n v.lastline ≡ false = ground arith in
    let below : ltb 0 (v.firstline + (p.rowcount - 3)) ≡ true = ground arith in
    let first : v.firstline + (p.rowcount - 3) - (p.rowcount - 3) ≡ v.firstline = omega arith in
    let last : v.firstline + p.rowcount - 3 ≡ v.lastline = omega arith in
    run-more p n v v' Key.pgdown (Key.pgup ∷ []) (rw more refl)
    ∙ run-more p n v' v Key.pgup [] (rw (below, first, last) refl)
