-- ===== src/TextView/Html/Script.antt =====
-- display_text on HTML: its tags, and the scripts, which are not shown.
use gopherus.Base.{
  ℕ, ◌+◌, ◌≤◌, ◌≡◌, ◌≢◌, refl, sym, ap, ap₂, ◌∙◌, inl, inr, Bool, true, false, ◌&&◌, [], ◌∷◌, ◌++◌,
  ltb, ==_ne, if◌then◌else◌, Bytes, none, some, length, length-append, All, append_assoc,
  append-nil, arith, Bool-cases, codes, strcasecmp_eq, strcasecmp_eq_iff, lower, up_to_nul,
}
use gopherus.TextView.Html.{
  Html, store, is_space, at_space, is_break, close, at_gt, at_other, outside, step, html_loop,
  initial, html_text,
}
use gopherus.TextView.Html.Bounds.{Indexed, step-Written}

-- The loop without its bound: the state that it leaves, and what it writes.
unfoldable pub run : Html → Bytes → Html × Bytes
run h [] = (h, [])
run h (c ∷ cs) = let r = run (step h c).0 cs in (r.0, (step h c).1 ++ r.1)

run-append :
    (h : Html) (xs ys : Bytes)
    → run h (xs ++ ys) ≡ ((run (run h xs).0 ys).0, (run h xs).1 ++ (run (run h xs).0 ys).1)
unfolding run
run-append h [] ys = refl
run-append h (x ∷ xs) ys =
    let e = run-append (step h x).0 xs ys in
    ap (λ r. (r.0, (step h x).1 ++ r.1)) e
    ∙ ap (λ s. ((run (run (step h x).0 xs).0 ys).0, s)) (sym (append_assoc (step h x).1 _ _))

-- The indices into the arrays stay below their sizes.
pub run-Indexed : (h : Html) (cs : Bytes) → Indexed h → Indexed (run h cs).0
unfolding run
run-Indexed h [] i = i
run-Indexed h (c ∷ cs) i = run-Indexed (step h c).0 cs (step-Written h c i).index

html_loop-run :
    (size n : ℕ) (h : Html) (cs : Bytes)
    → Indexed h
    → n + length cs + 4 ≤ size
    → html_loop size n h cs ≡ (run h cs).1
unfolding html_loop run
html_loop-run size n h [] i k = refl
html_loop-run size n h (c ∷ cs) i k =
    let w = step-Written h c i in
    let few = w.one in
    let room : ltb size (n + 4) ≡ false = ground arith in
    rw (room, html_loop)
      (ap (λ s. (step h c).1 ++ s)
        (html_loop-run size (n + length (step h c).1) (step h c).0 cs w.index (omega arith)))

html_text-run :
    (size : ℕ) (cache : Bytes)
    → length cache + 4 ≤ size
    → html_text size cache ≡ (run initial cache).1
unfolding html_text
html_text-run size cache h =
    html_loop-run size 0 initial cache (record { token = tt; special = tt }) (omega arith)

-- A byte inside a tag.
abbrev pub InTag : ℕ → Type 0
InTag c = (c ≢ b'<') × (c ≢ b'>')

-- What is stored of a tag, from what is stored already.
stored : Bytes → Bytes → Bytes
stored token [] = token
stored token (c ∷ cs) = stored (store token (if is_space c then 0 else c)) cs

-- The name that a tag is known by: 7 bytes at most, up to white space.
unfoldable pub name_of : Bytes → Bytes
unfolding stored
name_of tag = up_to_nul (stored [] tag)

inside : Html → Bytes → Html
inside h token = record h { insidetoken = some token; lastcharwasaspace = false }

and_false : (b : Bool) → (b && false) ≡ false
and_false true = refl
and_false false = refl

step-inside :
    (h : Html) (token : Bytes) (c : ℕ)
    → InTag c
    → step (inside h token) c ≡ (inside h (store token (if is_space c then 0 else c)), [])
unfolding step inside at_space at_other outside
step-inside h token c a =
    rw (and_false h.insidescript, ==_ne c b'<' a.0, ==_ne c b'>' a.1)
      (elim (Bool-cases (is_space c)) [ inl space ↦ rw space refl | inr other ↦ rw other refl ])

run-inside :
    (h : Html) (token tag : Bytes)
    → All InTag tag
    → run (inside h token) tag ≡ (inside h (stored token tag), [])
unfolding run stored
run-inside h token [] a = refl
run-inside h token (c ∷ cs) a =
    let e = step-inside h token c a.0 in
    ap (λ r. ((run r.0 cs).0, r.1 ++ (run r.0 cs).1)) e
    ∙ run-inside h (store token (if is_space c then 0 else c)) cs a.1

-- The state behind a tag that does nothing.
calm : Html → Html
calm h = record h { lastcharwasaspace = false; insidetoken = none }

abbrev pub tag_of : Bytes → Bytes
tag_of tag = b'<' ∷ (tag ++ b'>' ∷ [])

step-lt : (h : Html) → step h b'<' ≡ (inside h [], [])
unfolding step inside
step-lt h = rw (and_false (h.insidescript && outside h.insidetoken)) refl

step-gt : (h : Html) (token : Bytes) → step (inside h token) b'>' ≡ close (calm h) (up_to_nul token)
unfolding step inside at_gt outside calm
step-gt h token = rw (and_false h.insidescript) refl

-- A whole tag, from any state.
run-tag :
    (h : Html) (tag : Bytes) → All InTag tag → run h (tag_of tag) ≡ close (calm h) (name_of tag)
unfolding run name_of
run-tag h tag a =
    let first =
      ap (λ r. ((run r.0 (tag ++ b'>' ∷ [])).0, r.1 ++ (run r.0 (tag ++ b'>' ∷ [])).1))
        (step-lt h) in
    let middle = run-inside h [] tag a in
    let last = step-gt h (stored [] tag) in
    first
    ∙ run-append (inside h []) tag (b'>' ∷ [])
    ∙ ap (λ r. ((run r.0 (b'>' ∷ [])).0, r.1 ++ (run r.0 (b'>' ∷ [])).1)) middle
    ∙ ap (λ r. (r.0, r.1 ++ [])) last
    ∙ ap₂ (λ a b. (a, b)) refl (append-nil _)

-- A tag is called `name`, in whatever case.
abbrev pub Called : Bytes → Bytes → Type 0
Called name tag = strcasecmp_eq (name_of tag) name ≡ true

abbrev pub InScript : ℕ → Type 0
InScript c = c ≢ b'<'

close-script :
    (h : Html) (t : Bytes)
    → lower t ≡ codes "script"
    → close h t ≡ (record h { insidescript = true }, [])
unfolding close is_break
close-script h t e = rw e refl

close-end :
    (h : Html) (t : Bytes)
    → lower t ≡ codes "/script"
    → close h t ≡ (record h { insidescript = false }, [])
unfolding close is_break
close-end h t e = rw e refl

scripting : Html → Html
scripting h = record h { insidetoken = none; insidescript = true }

step-script : (h : Html) (c : ℕ) → c ≢ b'<' → step (scripting h) c ≡ (scripting h, [])
unfolding step scripting outside
step-script h c a = rw (==_ne c b'<' a) refl

run-scripting :
    (h : Html) (body : Bytes) → All InScript body → run (scripting h) body ≡ (scripting h, [])
unfolding run
run-scripting h [] a = refl
run-scripting h (c ∷ cs) a =
    ap (λ r. ((run r.0 cs).0, r.1 ++ (run r.0 cs).1)) (step-script h c a.0) ∙ run-scripting h cs a.1

-- Two parts after each other, the first of which writes nothing.
run-silent : (h h' : Html) (xs ys : Bytes) → run h xs ≡ (h', []) → run h (xs ++ ys) ≡ run h' ys
run-silent h h' xs ys e = run-append h xs ys ∙ ap (λ r. ((run r.0 ys).0, r.1 ++ (run r.0 ys).1)) e

abbrev pub script_of : Bytes → Bytes → Bytes → Bytes
script_of head body tail = tag_of head ++ (body ++ tag_of tail)

module _ (head body tail : Bytes) (in_head : All InTag head) (in_tail : All InTag tail)
    (in_body : All InScript body) (script : Called (codes "script") head)
    (end : Called (codes "/script") tail) where
  -- The script and its tags leave the state that the last tag leaves alone.
  run-whole : (h : Html) → run h (script_of head body tail) ≡ run h (tag_of tail)
  unfolding scripting calm
  run-whole h =
      let opened =
        run-tag h head in_head
        ∙ close-script (calm h) (name_of head)
            ((strcasecmp_eq_iff (name_of head) (codes "script")).0 script) in
      let s = record (calm h) { insidescript = true } in
      let closes : (g : Html)
          → run g (tag_of tail) ≡ (record (calm g) { insidescript = false }, []) =
        λ g.
          run-tag g tail in_tail
          ∙ close-end (calm g) (name_of tail)
              ((strcasecmp_eq_iff (name_of tail) (codes "/script")).0 end) in
      run-silent h s (tag_of head) (body ++ tag_of tail) opened
      ∙ run-silent s s body (tag_of tail) (run-scripting s body in_body)
      ∙ closes s
      ∙ sym (closes h)

  run-around :
      (h : Html) (post : Bytes)
      → run h (script_of head body tail ++ post) ≡ run h (tag_of tail ++ post)
  run-around h post =
      run-append h (script_of head body tail) post
      ∙ ap (λ r. ((run r.0 post).0, r.1 ++ (run r.0 post).1)) (run-whole h)
      ∙ sym (run-append h (tag_of tail) post)

  -- In a buffer with at least 4 bytes more than the text, a script shows nothing, wherever it stands:
  -- what is shown is what would be shown with its closing tag alone. Its tags are known by their names,
  -- in whatever case and with whatever attributes, and no `<` stands between the tags.
  pub html_text-script :
      (size : ℕ) (pre post : Bytes)
      → length (pre ++ (script_of head body tail ++ post)) + 4 ≤ size
      → html_text size (pre ++ (script_of head body tail ++ post))
        ≡ html_text size (pre ++ (tag_of tail ++ post))
  html_text-script size pre post h =
      let shorter : length (pre ++ (tag_of tail ++ post)) + 4 ≤ size = omega (
        arith,
        length-append pre (script_of head body tail ++ post),
        length-append pre (tag_of tail ++ post),
        length-append (script_of head body tail) post,
        length-append (tag_of tail) post,
        length-append (tag_of head) (body ++ tag_of tail),
        length-append body (tag_of tail),
      ) in
      html_text-run size (pre ++ (script_of head body tail ++ post)) h
      ∙ ap (λ r. r.1) (run-append initial pre (script_of head body tail ++ post))
      ∙ ap (λ r. (run initial pre).1 ++ r.1) (run-around (run initial pre).0 post)
      ∙ ap (λ r. r.1) (sym (run-append initial pre (tag_of tail ++ post)))
      ∙ sym (html_text-run size (pre ++ (tag_of tail ++ post)) shorter)
