-- ===== src/Bookmarks/Lines.antt =====
-- The loops over the lines of the bookmarks' file.
use gopherus.Base.{
  ℕ, suc, zero, ◌+◌, ◌-◌, ◌≤◌, ◌<◌, ◌≡◌, refl, sym, ap, ◌∙◌, Bool, true, false, List, [], ◌∷◌, ◌++◌,
  append_assoc, arith, ◌==◌, if◌then◌else◌, length, Bytes, none, some, length-append, All,
}
use gopherus.ReadLine.{Line, readfline}
use gopherus.ReadLine.Lines.{TextLine, Storable, stored, file_of, readfline-line, readfline-end}
use gopherus.Bookmarks.{
  Fields, Location, lbuf_size, menuline_explode, is_location, is_known, find_match, without,
  delete_in,
}
use gopherus.Bookmarks.Copy.{copy_down-pieces}

pub file_of-append : (ts us : List TextLine) → file_of (ts ++ us) ≡ file_of ts ++ file_of us
file_of-append [] us = refl
file_of-append (t ∷ ts) us =
    ap (λ s. stored t ++ (b'\n' ∷ s)) (file_of-append ts us)
    ∙ sym (append_assoc (stored t) (b'\n' ∷ file_of ts) (file_of us))

-- what a line takes in the file
pub whole : TextLine → Bytes
whole t = stored t ++ b'\n' ∷ []

find_step :
    (fuel : ℕ) (m : Fields → Bool) (woff : ℕ) (rest : Bytes) (r : Line)
    → readfline lbuf_size rest ≡ r
    → (r.result == 0) ≡ false
    → find_match (suc fuel) m woff rest ≡ (
        if m (menuline_explode r.text)
        then some (woff, woff + (length rest - length r.rest))
        else find_match fuel m (woff + (length rest - length r.rest)) r.rest)
unfolding find_match
find_step fuel m woff rest r e n = rw (e, n) refl

find_line :
    (fuel : ℕ) (m : Fields → Bool) (woff : ℕ) (t : TextLine) (rest : Bytes)
    → Storable lbuf_size t
    → find_match (suc fuel) m woff (stored t ++ (b'\n' ∷ rest)) ≡ (
        if m (menuline_explode t.text)
        then some (woff, woff + length (whole t))
        else find_match fuel m (woff + length (whole t)) rest)
unfolding whole
find_line fuel m woff t rest h =
    let n : (length t.text + 1 == 0) ≡ false = ground arith in
    let e : length (stored t ++ (b'\n' ∷ rest)) - length rest ≡ length (stored t ++ b'\n' ∷ []) =
      omega
        (arith, length-append (stored t) (b'\n' ∷ rest), length-append (stored t) (b'\n' ∷ [])) in
    find_step fuel m woff _ _ (readfline-line lbuf_size t rest h) n ∙ rw e refl

find_end : (fuel : ℕ) (m : Fields → Bool) (woff : ℕ) → find_match (suc fuel) m woff [] ≡ none
unfolding find_match
find_end fuel m woff = rw (readfline-end lbuf_size) refl

delete_in-eq :
    (m : Fields → Bool) (file : Bytes)
    → delete_in m file ≡ without (find_match (length file + 1) m 0 file) file
unfolding delete_in
delete_in-eq m file = refl

without-some :
    (a b c : Bytes) → without (some (length a, length a + length b)) (a ++ (b ++ c)) ≡ a ++ c
unfolding without
without-some a b c =
    copy_down-pieces (length (a ++ (b ++ c)) + 1) a b c
      (omega (arith, length-append a (b ++ c), length-append b c))

without-none : (file : Bytes) → without none file ≡ file
unfolding without
without-none file = refl

abbrev pub Matches : (Fields → Bool) → TextLine → Type 0
Matches m t = m (menuline_explode t.text) ≡ true

abbrev pub Differs : (Fields → Bool) → TextLine → Type 0
Differs m t = m (menuline_explode t.text) ≡ false

pub length-file_of : (ts : List TextLine) → length ts ≤ length (file_of ts)
length-file_of [] = omega arith
length-file_of (t ∷ ts) =
    omega (arith, length-file_of ts, length-append (stored t) (b'\n' ∷ file_of ts))

whole-append : (t : TextLine) (rest : Bytes) → stored t ++ (b'\n' ∷ rest) ≡ whole t ++ rest
unfolding whole
whole-append t rest = sym (append_assoc (stored t) (b'\n' ∷ []) rest)

module _ (m : Fields → Bool) where
  find-first :
      (fuel woff : ℕ) (ts : List TextLine) (t : TextLine) (rest : Bytes)
      → length ts < fuel
      → All (Storable lbuf_size) ts
      → All (Differs m) ts
      → Storable lbuf_size t
      → Matches m t
      → find_match fuel m woff (file_of ts ++ (whole t ++ rest))
        ≡ some (woff + length (file_of ts), woff + length (file_of ts) + length (whole t))
  find-first zero woff ts t rest f a d h e = absurd (omega arith)
  find-first (suc fuel) woff [] t rest f a d h e =
      let z : woff + 0 ≡ woff = omega arith in
      rw z (
        ap (find_match (suc fuel) m woff) (sym (whole-append t rest))
        ∙ find_line fuel m woff t rest h
        ∙ rw e refl)
  find-first (suc fuel) woff (u ∷ us) t rest f a d h e =
      let more = file_of us ++ (whole t ++ rest) in
      let n : woff + length (whole u) + length (file_of us) ≡ woff + length (file_of (u ∷ us)) =
        omega
          (arith, ap length (whole-append u (file_of us)), length-append (whole u) (file_of us)) in
      ap (find_match (suc fuel) m woff)
        (append_assoc (stored u) (b'\n' ∷ file_of us) (whole t ++ rest))
      ∙ find_line fuel m woff u more a.0
      ∙ rw d.0 (find-first fuel (woff + length (whole u)) us t rest (omega arith) a.1 d.1 h e)
      ∙ ap (λ k. some (k, k + length (whole t))) n

  find-none :
      (fuel woff : ℕ) (ts : List TextLine)
      → All (Storable lbuf_size) ts
      → All (Differs m) ts
      → find_match fuel m woff (file_of ts) ≡ none
  find-none zero woff ts a d = unfold find_match in refl
  find-none (suc fuel) woff [] a d = find_end fuel m woff
  find-none (suc fuel) woff (u ∷ us) a d =
      find_line fuel m woff u (file_of us) a.0
      ∙ rw d.0 (find-none fuel (woff + length (whole u)) us a.1 d.1)

  -- Exactly the first line that matches is taken out of the file; the others stay as they are, in
  -- their order.
  pub delete_in-first :
      (ts us : List TextLine) (t : TextLine)
      → All (Storable lbuf_size) ts
      → All (Differs m) ts
      → Storable lbuf_size t
      → Matches m t
      → delete_in m (file_of (ts ++ t ∷ us)) ≡ file_of (ts ++ us)
  delete_in-first ts us t a d h e =
      let parts : file_of (ts ++ t ∷ us) ≡ file_of ts ++ (whole t ++ file_of us) =
        file_of-append ts (t ∷ us) ∙ ap (file_of ts ++◌) (whole-append t (file_of us)) in
      let file = file_of ts ++ (whole t ++ file_of us) in
      let fuel : length ts < length file + 1 =
        omega (arith, length-file_of ts, length-append (file_of ts) (whole t ++ file_of us)) in
      let z : 0 + length (file_of ts) ≡ length (file_of ts) = omega arith in
      rw (parts, file_of-append ts us)
        (delete_in-eq m file
          ∙ ap (λ x. without x file)
              (find-first (length file + 1) 0 ts t (file_of us) fuel a d h e
                ∙ ap (λ k. some (k, k + length (whole t))) z)
          ∙ without-some (file_of ts) (whole t) (file_of us))

  pub delete_in-none :
      (ts : List TextLine)
      → All (Storable lbuf_size) ts
      → All (Differs m) ts
      → delete_in m (file_of ts) ≡ file_of ts
  delete_in-none ts a d =
      delete_in-eq m (file_of ts)
      ∙ ap (λ x. without x (file_of ts)) (find-none (length (file_of ts) + 1) 0 ts a d)
      ∙ without-none (file_of ts)

if_true : (b : Bool) {c : Bool} → c ≡ true → (if b then true else c) ≡ true
if_true true e = refl
if_true false e = e

known_step :
    (fuel : ℕ) (h : Location) (file : Bytes) (r : Line)
    → readfline lbuf_size file ≡ r
    → (r.result == 0) ≡ false
    → is_known (suc fuel) h file
      ≡ (if is_location h (menuline_explode r.text) then true else is_known fuel h r.rest)
unfolding is_known
known_step fuel h file r e n = rw (e, n) refl

-- A location that some line has is found, with fuel for the lines up to it.
pub is_known-found :
    (fuel : ℕ) (h : Location) (ts us : List TextLine) (t : TextLine)
    → length ts < fuel
    → All (Storable lbuf_size) (ts ++ t ∷ us)
    → Matches (is_location h) t
    → is_known fuel h (file_of (ts ++ t ∷ us)) ≡ true
is_known-found zero h ts us t f a e = absurd (omega arith)
is_known-found (suc fuel) h [] us t f a e =
    let n : (length t.text + 1 == 0) ≡ false = ground arith in
    known_step fuel h _ _ (readfline-line lbuf_size t (file_of us) a.0) n ∙ rw e refl
is_known-found (suc fuel) h (u ∷ ts) us t f a e =
    let n : (length u.text + 1 == 0) ≡ false = ground arith in
    known_step fuel h _ _ (readfline-line lbuf_size u (file_of (ts ++ t ∷ us)) a.0) n
    ∙ if_true (is_location h (menuline_explode u.text))
        (is_known-found fuel h ts us t (omega arith) a.1 e)

-- A location that no line has is not found.
pub is_known-none :
    (fuel : ℕ) (h : Location) (ts : List TextLine)
    → All (Storable lbuf_size) ts
    → All (Differs (is_location h)) ts
    → is_known fuel h (file_of ts) ≡ false
is_known-none zero h ts a d = unfold is_known in refl
is_known-none (suc fuel) h [] a d = unfold is_known in (rw (readfline-end lbuf_size) refl)
is_known-none (suc fuel) h (u ∷ ts) a d =
    let n : (length u.text + 1 == 0) ≡ false = ground arith in
    known_step fuel h _ _ (readfline-line lbuf_size u (file_of ts) a.0) n
    ∙ rw d.0 (is_known-none fuel h ts a.1 d.1)
