-- ===== src/TextView/Tests.antt =====
-- Tests of display_text, and the theorems at concrete inputs.
use gopherus.Base.{
  ℕ, true, ◌+◌, ◌≤◌, ◌<◌, ◌≡◌, refl, inr, List, [], ◌∷◌, ◌++◌, Bytes, some, codes, arith, All,
  length, leb, replicate,
}
use gopherus.TextView.{content, txt_format_htm, txt_format_raw}
use gopherus.TextView.Raw.{raw_text, raw_loop, raw_text-Outcome, Outcome, Shown}
use gopherus.TextView.Html.{html_text, store, is_space}
use gopherus.TextView.Html.Bounds.{html_text-Ascii, Ascii}
use gopherus.TextView.Html.Script.{name_of, Called, script_of, tag_of, html_text-script}
use gopherus.TextView.Screen.{Place, Key, draw, start}
use gopherus.TextView.Screen.Window.{numbered, window}
use gopherus.TextView.Screen.Session.{run, draw-run, run-pgdown}
use gopherus.Wordwrap.{wrap_lines}

-- A TAB is dropped, and a backspace becomes 8 spaces.
backspace :
    content txt_format_raw 40 (codes "a\tb" ++ 8 ∷ 13 ∷ 10 ∷ []) ≡ some (codes "ab        \n")
unfolding content raw_text
backspace = refl

-- The full stop of a last sentence is taken for the end marker.
full_stop : content txt_format_raw 40 (codes "Bye.\n") ≡ some (codes "Bye")
unfolding content raw_text
full_stop = refl

entity : content txt_format_htm 40 (codes "<body>a&nbsp;b<br>") ≡ some (codes "a b\n")
unfolding content html_text
entity = refl

-- A long word behind an ampersand is the last entity that is read.
stuck : content txt_format_htm 40 (codes "<body>&abcdefgh;&lt;") ≡ some (codes "h;&lt;")
unfolding content html_text
stuck = refl

bye-Shown : All Shown (codes "Bye")
bye-Shown = (
  inr (omega arith, λ e. omega arith),
  (inr (omega arith, λ e. omega arith), (inr (omega arith, λ e. omega arith), tt)),
)

raw_text-Outcome_example : Outcome 40 (raw_loop 40 0 (codes "a\tb")) (raw_text 40 (codes "a\tb"))
raw_text-Outcome_example = raw_text-Outcome 40 (codes "a\tb") (omega arith)

html_text-Ascii_example :
    All Ascii (html_text 40 (codes "<p>a</p>")) × (length (html_text 40 (codes "<p>a</p>")) < 40)
html_text-Ascii_example = html_text-Ascii 40 (codes "<p>a</p>") (omega arith)

abbrev head : Bytes
head = codes "Script a=b"

abbrev body : Bytes
body = codes "x>1;"

abbrev tail : Bytes
tail = codes "/script"

named : Called (codes "script") head
unfolding name_of store is_space
named = refl

ended : Called (codes "/script") tail
unfolding name_of store is_space
ended = refl

html_text-script_example :
    html_text 90 (codes "<body>a" ++ (script_of head body tail ++ codes "b"))
    ≡ html_text 90 (codes "<body>a" ++ (tag_of tail ++ codes "b"))
html_text-script_example =
    html_text-script head body tail (omega arith) (omega arith) (omega arith) named ended 90
      (codes "<body>a") (codes "b") (omega arith)

abbrev place : Place
place = record {
  protocol = 1;
  host = codes "a.org";
  port = 70;
  selector = codes "/t";
  rowcount = 5;
}

abbrev text : Bytes
text = codes "a\nb\nc\nd\ne"

draw-run_example :
    (ls : List Bytes) × (wrap_lines (length text + 1) 20 text ≡ some ls)
    × ((run place (length ls) (start 5) (Key.down ∷ Key.pgdown ∷ [])).firstline < length ls)
    × (draw 20 (run place (length ls) (start 5) (Key.down ∷ Key.pgdown ∷ [])) text
        ≡ some (
          numbered 1 (
              window (run place (length ls) (start 5) (Key.down ∷ Key.pgdown ∷ [])).firstline 3 ls),
          leb (length ls) (run place (length ls) (start 5) (Key.down ∷ Key.pgdown ∷ [])).lastline,
        ))
draw-run_example = draw-run 20 place text (Key.down ∷ Key.pgdown ∷ []) (omega arith) (omega arith)

abbrev letters : List Bytes
letters = codes "a" ∷ codes "b" ∷ codes "c" ∷ codes "d" ∷ codes "e" ∷ []

five_lines : wrap_lines (length text + 1) 20 text ≡ some letters
unfolding wrap_lines gopherus.Wordwrap.wordwrap
five_lines = refl

run-pgdown_example :
    (first : ℕ) × (first < length letters)
    × (length letters ≤ first + 3)
    × (draw 20 (run place (length letters) (start 5) (replicate 2 Key.pgdown)) text
        ≡ some (numbered 1 (window first 3 letters), true))
run-pgdown_example =
    run-pgdown 20 2 place text letters (omega arith) (omega arith) five_lines (omega arith)
