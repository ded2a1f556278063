-- ===== src/Edit/Session.antt =====
-- A whole session of the editor, on the text before and after the cursor.
use gopherus.Base.{
  take-prefix, ℕ, suc, ◌+◌, ◌≡◌, ◌≢◌, refl, sym, ap, ◌∙◌, subst, Bool, true, false, ◌&&◌, ◌||◌,
  List, [], ◌∷◌, ◌++◌, append_assoc, arith, ◌==◌, ltb, if◌then◌else◌, length, length-append, take,
  All, Bytes, Option, none, some, ==_ne,
}
use gopherus.Edit.{
  State, left, right, move_to, backspace, del, press, terminate, edit_loop, strlen, initial,
  editstring, key_home, key_end, key_left, key_right, key_backspace, key_del, key_esc, key_tab,
  key_enter,
}
use gopherus.Edit.Shift.{set-append}
use gopherus.Edit.Zipper.{
  Zipper, at, state, rev, text, state_of, Held, step_left, step_right, step_home, step_end,
  step_backspace, step_del, step_insert, left_lem, right_lem, home_lem, end_lem, backspace_lem,
  del_lem, insert_lem, length-rev, rev-onto, length-onto, state_ext,
}

step_press : ℕ → ℕ → Zipper → Zipper
step_press maxlen key z =
    if key == key_home
    then step_home z
    else if key == key_end
    then step_end z
    else if key == key_left
    then step_left z
    else if key == key_right
    then step_right z
    else if key == key_backspace
    then step_backspace z
    else if key == key_del
    then step_del z
    else if ltb 31 key && ltb key 127
    then step_insert maxlen key z
    else z

-- The editor as a user sees it: what is in the array when the session ends, up to the nul.
unfoldable pub edit_text : ℕ → Zipper → List ℕ → Option (Bool × Bytes)
unfolding step_press
edit_text maxlen z [] = none
edit_text maxlen z (key ∷ keys) =
    let more = edit_text maxlen (step_press maxlen key z) keys in
    if key == key_esc || key == key_tab
    then some (false, text z ++ 0 ∷ [])
    else if key == key_enter
    then some (true, text z ++ 0 ∷ [])
    else more

-- The first `urllen + 1` bytes of the array.
unfoldable pub observe : Option (Bool × State) → Option (Bool × Bytes)
observe none = none
observe (some (ok, s)) = some (ok, take (s.urllen + 1) s.url)

Held-if :
    (c : Bool) (m : ℕ) (z y : Zipper) (s t : State)
    → Held m z s
    → Held m y t
    → Held m (if c then z else y) (if c then s else t)
Held-if true m z y s t h k = h
Held-if false m z y s t h k = k

Held-same :
    (m : ℕ) (z : Zipper) (s : State) (n : ℕ) (r : Bytes)
    → length s.url ≡ m
    → s ≡ state_of z n r
    → Held m z s
unfolding Held
Held-same m z s n r h e = (n, r, e, ap (λ t. length t.url) (sym e) ∙ h)

Held-size : (l m : ℕ) (z : Zipper) (s : State) → l ≡ m → Held l z s → Held m z s
Held-size l m z s e h = subst (λ k. Held k z s) e h

left-url : (s : State) → (left s).url ≡ s.url
unfolding left move_to
left-url s = ground arith

right-url : (s : State) → (right s).url ≡ s.url
unfolding right move_to
right-url s = ground arith

module _ (maxlen : ℕ) (z : Zipper) (r : Bytes) (h : length (state_of z 0 r).url ≡ maxlen) where
  press_lem : (key : ℕ) → Held maxlen (step_press maxlen key z) (press maxlen key (state_of z 0 r))
  unfolding step_press press
  press_lem key =
      let s = state_of z 0 r in
      Held-if (key == key_home) maxlen _ _ _ _
        (Held-same maxlen (step_home z) (move_to 0 s) 0 r (unfold move_to in h) (home_lem z 0 r))
        (Held-if (key == key_end) maxlen _ _ _ _
          (Held-same maxlen (step_end z) (move_to s.urllen s) 0 r (unfold move_to in h)
            (end_lem z 0 r))
          (Held-if (key == key_left) maxlen _ _ _ _
            (Held-same maxlen (step_left z) (left s) 0 r (ap length (left-url s) ∙ h)
              (left_lem z 0 r))
            (Held-if (key == key_right) maxlen _ _ _ _
              (Held-same maxlen (step_right z) (right s) 0 r (ap length (right-url s) ∙ h)
                (right_lem z 0 r))
              (Held-if (key == key_backspace) maxlen (step_backspace z) _ (backspace s) _
                (Held-size _ maxlen _ _ h (backspace_lem z 0 r))
                (Held-if (key == key_del) maxlen (step_del z) _ (del s) _
                  (Held-size _ maxlen _ _ h (del_lem z 0 r))
                  (Held-if (ltb 31 key && ltb key 127) maxlen _ _ _ _
                    (insert_lem maxlen key z 0 r h) (Held-same maxlen z s 0 r h refl)))))))

length-text : (b a : Bytes) → length (rev b ++ a) ≡ length b + length a
length-text b a = omega (arith, length-rev b, length-append (rev b) a)

terminate_lem : (z : Zipper) (n : ℕ) (r : Bytes) → terminate (state_of z n r) ≡ state_of z 0 r
unfolding terminate state_of state
terminate_lem (at b a) n r =
    rw
      (
        sym (append_assoc (rev b) a (n ∷ r)),
        sym (append_assoc (rev b) a (0 ∷ r)),
        sym (length-text b a),
        set-append (rev b ++ a) n 0 r,
      )
      refl

length-state_of :
    (z : Zipper) (n m : ℕ) (r : Bytes) → length (state_of z n r).url ≡ length (state_of z m r).url
unfolding state_of
length-state_of (at b a) n m r = grind (arith, length-append)

observe_lem :
    (ok : Bool) (z : Zipper) (r : Bytes)
    → observe (some (ok, state_of z 0 r)) ≡ some (ok, text z ++ 0 ∷ [])
unfolding observe text state_of
observe_lem ok (at b a) r =
    let e : length b + length a + 1 ≡ length ((rev b ++ a) ++ 0 ∷ []) =
      omega (arith, length-text b a, length-append (rev b ++ a) (0 ∷ [])) in
    let f = append_assoc (rev b ++ a) (0 ∷ []) r ∙ append_assoc (rev b) a (0 ∷ r) in
    rw (e, sym f, take-prefix ((rev b ++ a) ++ 0 ∷ []) r) refl

edit_loop_cons :
    (maxlen : ℕ) (s : State) (key : ℕ) (keys : List ℕ)
    → edit_loop maxlen s (key ∷ keys) ≡ (
        if key == key_esc || key == key_tab
        then some (false, terminate s)
        else if key == key_enter
        then some (true, terminate s)
        else edit_loop maxlen (press maxlen key (terminate s)) keys)
unfolding edit_loop
edit_loop_cons maxlen s key keys = refl

edit_text_cons :
    (maxlen : ℕ) (z : Zipper) (key : ℕ) (keys : List ℕ)
    → edit_text maxlen z (key ∷ keys) ≡ (
        if key == key_esc || key == key_tab
        then some (false, text z ++ 0 ∷ [])
        else if key == key_enter
        then some (true, text z ++ 0 ∷ [])
        else edit_text maxlen (step_press maxlen key z) keys)
unfolding edit_text
edit_text_cons maxlen z key keys = refl

observe-if :
    (c d : Bool) (t : State) (x : Bytes) (u : Option (Bool × State)) (v : Option (Bool × Bytes))
    → ((ok : Bool) → observe (some (ok, t)) ≡ some (ok, x))
    → observe u ≡ v
    → observe (if c then some (false, t) else if d then some (true, t) else u)
      ≡ (if c then some (false, x) else if d then some (true, x) else v)
observe-if true d t x u v h e = h false
observe-if false true t x u v h e = h true
observe-if false false t x u v h e = e

edit_loop_lem :
    (maxlen : ℕ) (z : Zipper) (n : ℕ) (r : Bytes) (keys : List ℕ)
    → length (state_of z n r).url ≡ maxlen
    → observe (edit_loop maxlen (state_of z n r) keys) ≡ edit_text maxlen z keys
unfolding Held
edit_loop_lem maxlen z n r [] h = unfold edit_loop observe edit_text in refl
edit_loop_lem maxlen z n r (key ∷ keys) h =
    let p = press_lem maxlen z r (length-state_of z 0 n r ∙ h) key in
    let more = edit_loop_lem maxlen (step_press maxlen key z) p.0 p.1 keys p.3 in
    rw
      (
        edit_loop_cons maxlen (state_of z n r) key keys,
        terminate_lem z n r,
        edit_text_cons maxlen z key keys,
      )
      (observe-if (key == key_esc || key == key_tab) (key == key_enter) _ _ _ _
        (λ ok. observe_lem ok z r) (ap (λ t. observe (edit_loop maxlen t keys)) p.2 ∙ more))

strlen-append : (s r : Bytes) → All (λ c. c ≢ 0) s → strlen (s ++ 0 ∷ r) ≡ length s
unfolding strlen
strlen-append [] r a = refl
strlen-append (c ∷ s) r a = rw (==_ne c 0 a.0) (ap suc (strlen-append s r a.1))

initial_lem :
    (s r : Bytes) → All (λ c. c ≢ 0) s → initial (s ++ 0 ∷ r) ≡ state_of (step_end (at [] s)) 0 r
unfolding initial state_of step_end
initial_lem s r a =
    rw (strlen-append s r a, rev-onto s [], length-onto s [])
      (state_ext _ _ _ _ _ _ refl (omega arith) (omega arith))

length-initial :
    (s r : Bytes) → length (state_of (step_end (at [] s)) 0 r).url ≡ length (s ++ 0 ∷ r)
unfolding state_of step_end
length-initial s r = rw (rev-onto s []) refl

-- A session on an array that holds the text `s`, a nul and more bytes ends when, and as, the
-- session on the text before and after the cursor ends, from the cursor behind `s`: with the same
-- confirmation, and the array then starts with the same text and a nul. So the loops that shift the
-- array lose no byte, and no text grows beyond the array.
pub editstring-edit_text :
    (maxlen : ℕ) (s r : Bytes) (keys : List ℕ)
    → All (λ c. c ≢ 0) s
    → length (s ++ 0 ∷ r) ≡ maxlen
    → observe (editstring maxlen (s ++ 0 ∷ r) keys) ≡ edit_text maxlen (step_end (at [] s)) keys
unfolding editstring
editstring-edit_text maxlen s r keys a h =
    ap (λ t. observe (edit_loop maxlen t keys)) (initial_lem s r a)
    ∙ edit_loop_lem maxlen (step_end (at [] s)) 0 r keys (length-initial s r ∙ h)
