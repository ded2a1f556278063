-- ===== src/TextView/Html/Bounds.antt =====
-- display_text on HTML: the indices into its arrays, and what it writes.
use gopherus.Base.{
  ℕ, ◌+◌, ◌≤◌, ◌<◌, ◌≡◌, refl, subst, inl, inr, ◌⊎◌, Bool, true, false, ◌&&◌, ◌||◌, not, [], ◌∷◌,
  ◌++◌, ltb, leb, ◌==◌, if◌then◌else◌, Bytes, Option, none, some, length, length-append, All,
  All-append, arith, Bool-cases, codes, strcasecmp_eq, up_to_nul,
}
use gopherus.TextView.Html.{
  Html, store, is_space, at_space, is_break, close, at_gt, plain, at_special, at_other, outside,
  step, html_loop, initial, html_text,
}

-- An index is below the size of its array, also where the nul is written.
abbrev pub InArray : Option Bytes → Type 0
InArray none = Unit
InArray (some s) = length s < 8

pub record Indexed (h : Html) : Type 0 where
  pub token : InArray h.insidetoken
  pub special : InArray h.insidespecialchar

-- A byte that the screen gets: an end of line, or ASCII that is no control character but perhaps DEL.
abbrev pub Ascii : ℕ → Type 0
Ascii c = (c ≡ b'\n') ⊎ ((32 ≤ c) × (c < 128))

pub record Written (r : Html × Bytes) : Type 0 where
  pub index : Indexed r.0
  pub ascii : All Ascii r.1
  pub one : length r.1 ≤ 1

Written-if : (b : Bool) (r s : Html × Bytes) → Written r → Written s → Written (if b then r else s)
Written-if true r s h k = h
Written-if false r s h k = k

nothing : (h : Html) → Indexed h → Written (h, [])
nothing h i = record { index = i; ascii = tt; one = omega arith }

one_byte : (h : Html) (c : ℕ) → Indexed h → Ascii c → Written (h, c ∷ [])
one_byte h c i a = record { index = i; ascii = (a, tt); one = omega arith }

store-lt : (t : Bytes) (c : ℕ) → length t < 8 → length (store t c) < 8
unfolding store
store-lt t c h = ground (arith, length-append t (c ∷ []))

plain-Written : (h : Html) (c : ℕ) → Indexed h → Written (plain h c)
unfolding plain
plain-Written h c i = elim (Bool-cases (leb 128 c || ltb c 32)) [
  | inl control ↦ rw control (nothing h i)
  | inr other ↦ rw other (
      Written-if (not h.insidebody) (h, []) (h, c ∷ []) (nothing h i)
        (one_byte h c i (inr (ground arith, ground arith))))
]

close-Written : (h : Html) (t : Bytes) → Indexed h → Written (close h t)
unfolding close
close-Written h t i =
    let kept : (b : Bool) → Written (record h { insidescript = b }, []) = λ b.
      nothing (record h { insidescript = b }) (record { token = i.token; special = i.special }) in
    let body = record h { insidebody = true } in
    Written-if (is_break t) (h, b'\n' ∷ []) _ (one_byte h b'\n' i (inl refl))
      (Written-if (strcasecmp_eq t (codes "script")) (record h { insidescript = true }, []) _
        (kept true)
        (Written-if (strcasecmp_eq t (codes "body")) (body, []) _
          (nothing body (record { token = i.token; special = i.special }))
          (Written-if (strcasecmp_eq t (codes "/script")) (record h { insidescript = false }, [])
            (h, []) (kept false) (nothing h i))))

with_token :
    (h : Html) (t : Option Bytes) → Indexed h → InArray t → Indexed (record h { insidetoken = t })
with_token h t i k = record { token = k; special = i.special }

with_special :
    (h : Html) (t : Option Bytes)
    → Indexed h
    → InArray t
    → Indexed (record h { insidespecialchar = t })
with_special h t i k = record { token = i.token; special = k }

with_space : (h : Html) (b : Bool) → Indexed h → Indexed (record h { lastcharwasaspace = b })
with_space h b i = record { token = i.token; special = i.special }

at_space-Written : (h : Html) → Indexed h → Written (at_space h)
unfolding at_space
at_space-Written h i =
    elim h.insidetoken as (λ t. h.insidetoken ≡ t → Written (at_space h)) [
      | some token ↦ λ e.
          let longer = store-lt token 0 (subst InArray e i.token) in
          rw e (nothing _ (with_token h (some (store token 0)) i longer))
      | none ↦ λ e. rw e (
          Written-if h.lastcharwasaspace (record h { insidetoken = none }, []) _
            (nothing _ (with_token h none i tt))
            (one_byte _ b' ' (with_space _ true (with_token h none i tt))
              (inr (omega arith, omega arith))))
    ]
      refl

at_gt-Written : (h : Html) → Indexed h → Written (at_gt h)
unfolding at_gt
at_gt-Written h i =
    elim h.insidetoken as (λ t. h.insidetoken ≡ t → Written (at_gt h)) [
      | some token ↦ λ e. rw e (
          close-Written (record h { insidetoken = none }) (up_to_nul token)
            (with_token h none i tt))
      | none ↦ λ e. rw e (nothing _ (with_token h none i tt))
    ]
      refl

at_special-Written :
    (h : Html) (s : Bytes) (c : ℕ) → Indexed h → length s < 8 → Written (at_special h s c)
unfolding at_special
at_special-Written h s c i k = elim (Bool-cases (ltb (length s) 7)) [
  | inr full ↦ rw full (plain-Written h c i)
  | inl room ↦
      let longer : length (s ++ c ∷ []) < 8 = ground (arith, length-append s (c ∷ [])) in
      let entity : ℕ = if strcasecmp_eq (up_to_nul s) (codes "nbsp") then b' ' else b'_' in
      rw room (
        Written-if (not (c == b';')) _ (record h { insidespecialchar = none }, entity ∷ [])
          (nothing _ (with_special h (some (s ++ c ∷ [])) i longer))
          (one_byte _ entity (with_special h none i tt) (inr (ground arith, ground arith))))
]

at_other-Written : (h : Html) (c : ℕ) → Indexed h → Written (at_other h c)
unfolding at_other
at_other-Written h c i =
    elim h.insidetoken as (λ t. h.insidetoken ≡ t → Written (at_other h c)) [
      | some token ↦ λ e.
          let longer = store-lt token c (subst InArray e i.token) in
          rw e (nothing _ (with_token h (some (store token c)) i longer))
      | none ↦ λ e.
          elim h.insidespecialchar as (λ s. h.insidespecialchar ≡ s → Written (at_other h c)) [
            | some s ↦ λ f.
                rw (e, f)
                  (at_special-Written _ s c (with_token h none i tt) (subst InArray f i.special))
            | none ↦ λ f.
                rw (e, f)
                  (Written-if (c == b'&') _ _
                    (nothing _ (with_special _ (some []) (with_token h none i tt) (omega arith)))
                    (plain-Written _ c (with_token h none i tt)))
          ]
            refl
    ]
      refl

-- One turn writes at most one byte, and keeps the indices.
pub step-Written : (h : Html) (c : ℕ) → Indexed h → Written (step h c)
unfolding step
step-Written h c i =
    let word = record h { lastcharwasaspace = false } in
    let j = with_space h false i in
    Written-if (h.insidescript && outside h.insidetoken && not (c == b'<')) (h, []) _ (nothing h i)
      (Written-if (is_space c) (at_space h) _ (at_space-Written h i) (
        Written-if (c == b'<') (record word { insidetoken = some [] }, []) _
          (nothing _ (with_token word (some []) j (omega arith)))
          (Written-if (c == b'>') (at_gt word) (at_other word c) (at_gt-Written word j)
            (at_other-Written word c j))))

html_loop-Written :
    (size n : ℕ) (h : Html) (cs : Bytes)
    → n < size
    → Indexed h
    → All Ascii (html_loop size n h cs) × (n + length (html_loop size n h cs) < size)
unfolding html_loop
html_loop-Written size n h [] k i = (tt, omega arith)
html_loop-Written size n h (c ∷ cs) k i = elim (Bool-cases (ltb size (n + 4))) [
  | inl full ↦ rw full (tt, omega arith)
  | inr room ↦
      let w = step-Written h c i in
      let written = (step h c).1 in
      let more = html_loop size (n + length written) (step h c).0 cs in
      let few = w.one in
      let rest =
        html_loop-Written size (n + length written) (step h c).0 cs (ground arith) w.index in
      rw room (
        All-append Ascii written more w.ascii rest.0,
        omega (arith, length-append written more, rest.1),
      )
]

-- Every text in HTML, in a buffer of at least 1 byte: the screen gets ends of lines and bytes from 32
-- to 127, and they fit with a nul behind them.
pub html_text-Ascii :
    (size : ℕ) (cache : Bytes)
    → 0 < size
    → All Ascii (html_text size cache) × (length (html_text size cache) < size)
unfolding html_text
html_text-Ascii size cache h =
    let (ascii, room) =
      html_loop-Written size 0 initial cache h (record { token = tt; special = tt }) in
    (ascii, omega (arith, room))
