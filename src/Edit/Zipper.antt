-- ===== src/Edit/Zipper.antt =====
-- The editor on the text before and after its cursor: what a user sees of `editstring`, and that
-- the array loops implement it.
use gopherus.Base.{
  ℕ, suc, ◌+◌, ◌-◌, ◌≤◌, ◌<◌, ◌≡◌, refl, sym, ◌∙◌, true, false, [], ◌∷◌, ◌++◌, append_assoc,
  append-nil, arith, ltb, lt→ltb, if◌then◌else◌, length, length-append, set, Bytes, Bool-cases, inl,
  inr,
}
use native.Mathlib.Numerals.{add-one}
use gopherus.Edit.{
  State, shift_left, shift_right, backspace, del, insert, move_to, left, right, displayoffset,
}
use gopherus.Edit.Shift.{set-append, shift_left-pieces, shift_right-pieces}

-- The bytes before the cursor, the nearest first, and those behind it.
pub data Zipper : Type 0 where
  at : Bytes → Bytes → Zipper

unfoldable pub rev : Bytes → Bytes
rev [] = []
rev (x ∷ xs) = rev xs ++ x ∷ []

unfoldable pub onto : Bytes → Bytes → Bytes
onto [] ys = ys
onto (x ∷ xs) ys = onto xs (x ∷ ys)

unfoldable pub text : Zipper → Bytes
unfolding rev
text (at b a) = rev b ++ a

unfoldable pub state : Bytes → ℕ → ℕ → State
state u l c = record { url = u; urllen = l; cursorpos = c }

-- The array of which the first bytes are the text, with `next` and `spare` behind it.
unfoldable pub state_of : Zipper → ℕ → Bytes → State
unfolding rev state
state_of (at b a) next spare = state (rev b ++ (a ++ next ∷ spare)) (length b + length a) (length b)

pub state_ext : (u v : Bytes) (l m c d : ℕ) → u ≡ v → l ≡ m → c ≡ d → state u l c ≡ state v m d
state_ext u v l m c d e f g = rw e (rw f (rw g refl))

unfoldable pub step_left : Zipper → Zipper
step_left (at [] a) = at [] a
step_left (at (c ∷ b) a) = at b (c ∷ a)

pub left_lem : (z : Zipper) (n : ℕ) (r : Bytes) → left (state_of z n r) ≡ state_of (step_left z) n r
unfolding left move_to state_of rev step_left
left_lem (at [] a) n r = ground arith
left_lem (at (c ∷ b) a) n r = ground (arith, append_assoc (rev b) (c ∷ []) (a ++ n ∷ r))

unfoldable pub step_right : Zipper → Zipper
step_right (at b []) = at b []
step_right (at b (c ∷ a)) = at (c ∷ b) a

pub right_lem :
    (z : Zipper) (n : ℕ) (r : Bytes) → right (state_of z n r) ≡ state_of (step_right z) n r
unfolding right move_to state_of rev step_right
right_lem (at b []) n r = ground arith
right_lem (at b (c ∷ a)) n r = ground (arith, append_assoc (rev b) (c ∷ []) (a ++ n ∷ r))

pub length-rev : (b : Bytes) → length (rev b) ≡ length b
unfolding rev
length-rev [] = refl
length-rev (c ∷ b) = omega (arith, length-rev b, length-append (rev b) (c ∷ []))

pub rev-onto : (a b : Bytes) → rev (onto a b) ≡ rev b ++ a
unfolding rev onto
rev-onto [] b = sym (append-nil (rev b))
rev-onto (c ∷ a) b = rev-onto a (c ∷ b) ∙ append_assoc (rev b) (c ∷ []) a

pub length-onto : (a b : Bytes) → length (onto a b) ≡ length b + length a
unfolding onto
length-onto [] b = omega arith
length-onto (c ∷ a) b = omega (arith, length-onto a (c ∷ b))

unfoldable pub step_home : Zipper → Zipper
unfolding rev
step_home (at b a) = at [] (rev b ++ a)

unfoldable pub step_end : Zipper → Zipper
unfolding onto
step_end (at b a) = at (onto a b) []

pub home_lem :
    (z : Zipper) (n : ℕ) (r : Bytes) → move_to 0 (state_of z n r) ≡ state_of (step_home z) n r
unfolding move_to state_of step_home
home_lem (at b a) n r =
    state_ext _ _ _ _ 0 0 (sym (append_assoc (rev b) a (n ∷ r)))
      (omega (arith, length-rev b, length-append (rev b) a)) refl

pub end_lem :
    (z : Zipper) (n : ℕ) (r : Bytes)
    → move_to (state_of z n r).urllen (state_of z n r) ≡ state_of (step_end z) n r
unfolding move_to state_of step_end
end_lem (at b a) n r =
    state_ext _ _ _ _ _ _ (rw (rev-onto a b) (sym (append_assoc (rev b) a (n ∷ r))))
      (omega (arith, length-onto a b)) (sym (length-onto a b))

-- `s` is an array of `maxlen` bytes that holds the text of `z`.
unfoldable pub Held : ℕ → Zipper → State → Type 0
unfolding state_of
Held maxlen z s =
    (n : ℕ) × (r : Bytes) × (s ≡ state_of z n r) × (length (state_of z n r).url ≡ maxlen)

unfoldable pub step_backspace : Zipper → Zipper
step_backspace (at [] a) = at [] a
step_backspace (at (c ∷ b) a) = at b a

backspace_pos :
    (u : Bytes) (k m : ℕ)
    → backspace (state u (suc k + m) (suc k)) ≡ state (shift_left m k u) (k + m) k
unfolding backspace state
backspace_pos u k m =
    let e : suc k - 1 ≡ k = omega arith in
    let f : suc k + m - 1 - k ≡ m = omega arith in
    let g : suc k + m - 1 ≡ k + m = omega arith in rw (lt→ltb 0 (suc k) (omega arith), e, f, g) refl

pub backspace_lem :
    (z : Zipper) (n : ℕ) (r : Bytes)
    → Held (length (state_of z n r).url) (step_backspace z) (backspace (state_of z n r))
unfolding backspace Held state_of step_backspace
backspace_lem (at [] a) n r = (n, r, ground arith, refl)
backspace_lem (at (c ∷ b) a) n r =
    let moved = shift_left-pieces (rev b) c a (n ∷ r) in
    (
      moved.0,
      n ∷ r,
      backspace_pos _ (length b) (length a)
          ∙ state_ext _ _ _ _ _ _
              (rw (append_assoc (rev b) (c ∷ []) (a ++ n ∷ r), sym (length-rev b)) moved.1) refl
              refl,
      grind (arith, length-append),
    )

unfoldable pub step_del : Zipper → Zipper
step_del (at b []) = at b []
step_del (at b (c ∷ a)) = at b a

del_pos :
    (u : Bytes) (k m : ℕ) → del (state u (k + suc m) k) ≡ state (shift_left (suc m) k u) (k + m) k
unfolding del state
del_pos u k m =
    let f : k + suc m - k ≡ suc m = omega arith in
    let g : k + suc m - 1 ≡ k + m = omega arith in
    rw (lt→ltb k (k + suc m) (omega arith), f, g) refl

pub del_lem :
    (z : Zipper) (n : ℕ) (r : Bytes)
    → Held (length (state_of z n r).url) (step_del z) (del (state_of z n r))
unfolding Held state_of step_del
del_lem (at b []) n r = (n, r, unfold del in ground arith, refl)
del_lem (at b (c ∷ a)) n r =
    let moved = shift_left-pieces (rev b) c (a ++ n ∷ []) r in
    let whole =
      rw
        (
          append_assoc a (n ∷ []) r,
          append_assoc a (n ∷ []) (moved.0 ∷ r),
          length-append a (n ∷ []),
          add-one,
          length-rev b,
        )
        at moved.1 in
    (
      n,
      moved.0 ∷ r,
      del_pos _ (length b) (length a) ∙ state_ext _ _ _ _ _ _ whole refl refl,
      grind (arith, length-append),
    )

unfoldable pub step_insert : ℕ → ℕ → Zipper → Zipper
step_insert maxlen key (at b a) =
    if ltb (length b + length a) (maxlen - 1) then at (key ∷ b) a else at b a

insert_room :
    (maxlen key : ℕ) (u : Bytes) (k m : ℕ)
    → ltb (k + m) (maxlen - 1) ≡ true
    → insert maxlen key (state u (k + m) k)
      ≡ state (set (shift_right m (k + m) u) k key) (suc k + m) (suc k)
unfolding insert state
insert_room maxlen key u k m h =
    let f : k + m - k ≡ m = omega arith in
    let g : k + m + 1 ≡ suc k + m = omega arith in rw (h, f, g, add-one) refl

insert_full :
    (maxlen key : ℕ) (u : Bytes) (k m : ℕ)
    → ltb (k + m) (maxlen - 1) ≡ false
    → insert maxlen key (state u (k + m) k) ≡ state u (k + m) k
unfolding insert state
insert_full maxlen key u k m h = rw h refl

pub insert_lem :
    (maxlen key : ℕ) (z : Zipper) (n : ℕ) (r : Bytes)
    → length (state_of z n r).url ≡ maxlen
    → Held maxlen (step_insert maxlen key z) (insert maxlen key (state_of z n r))
unfolding Held state_of step_insert
insert_lem maxlen key (at b a) n [] h =
    let full : ltb (length b + length a) (maxlen - 1) ≡ false =
      grind (arith, length-append, length-rev) in
    rw full (n, [], insert_full maxlen key _ (length b) (length a) full, h)
insert_lem maxlen key (at b a) n (x ∷ r) h =
    elim (Bool-cases (ltb (length b + length a) (maxlen - 1))) [
      | inr full ↦ rw full (n, x ∷ r, insert_full maxlen key _ (length b) (length a) full, h)
      | inl room ↦
          let moved = shift_right-pieces (rev b) a n (x ∷ r) in
          rw room (
            x,
            r,
            insert_room maxlen key _ (length b) (length a) room
                ∙ state_ext _ _ _ _ _ _
                    (rw (sym (length-rev b), moved.1, set-append (rev b) moved.0 key (a ++ x ∷ r))
                      (sym (append_assoc (rev b) (key ∷ []) (a ++ x ∷ r))))
                    refl refl,
            grind (arith, length-append),
          )
    ]

-- On a screen of more than 8 columns the cursor, which is within the text, is drawn within the
-- columns, whatever the length of the text.
pub displayoffset-lt :
    (maxdisplaylen : ℕ) (s : State)
    → 8 < maxdisplaylen
    → s.cursorpos ≤ s.urllen
    → (displayoffset maxdisplaylen s ≤ s.cursorpos)
      × (s.cursorpos - displayoffset maxdisplaylen s < maxdisplaylen)
unfolding displayoffset
displayoffset-lt maxdisplaylen s h c = ground arith
