-- ===== src/Wordwrap/Shape.antt =====
-- The three ways in which `wordwrap` ends a line, by induction on the loop.
use gopherus.Base.{
  All-left, ℕ, suc, zero, ◌≤◌, ◌<◌, ◌≡◌, ◌≢◌, refl, ap, ◌⊎◌, inl, inr, false, none, some, List, [],
  ◌∷◌, ◌++◌, map, append-nil, append_assoc, arith, ◌==◌, if◌then◌else◌, take, drop, length,
  length-append, All, Bytes, Bool-cases, ==→eq,
}
use gopherus.Wordwrap.{Wrapped, detab, skip_spaces, cut, ends_at, scan, wordwrap}

abbrev pub NotLf : ℕ → Type 0
NotLf c = c ≢ b'\n'

-- How the line and the rest divide a text; `n` bytes of it stand before the cut.
pub data Shape (width : ℕ) (str : Bytes) (w : Wrapped) : Type 0 where
  ended :
      length str ≤ width
      → All NotLf str
      → w.line ≡ map detab str
      → w.next ≡ none
      → Shape width str w
  at_width :
      (before after : Bytes)
      → str ≡ before ++ after
      → length before ≡ width
      → All NotLf before
      → w.line ≡ map detab before
      → w.next ≡ some after
      → Shape width str w
  at_space :
      (before after : Bytes)
      → str ≡ before ++ after
      → 0 < length before
      → length before ≤ width
      → All NotLf before
      → w.line ≡ map detab before
      → w.next ≡ skip_spaces after
      → Shape width str w
  at_newline :
      (before after : Bytes)
      → str ≡ before ++ b'\n' ∷ after
      → length before < width
      → All NotLf before
      → (w.line ≡ map detab before)
        ⊎ ((text : Bytes) × (before ≡ text ++ b'\r' ∷ []) × (w.line ≡ map detab text))
      → w.next ≡ some after
      → Shape width str w

take-append {ℓ} : {A : Type ℓ} (xs ys : List A) → take (length xs) (xs ++ ys) ≡ xs
take-append [] ys = refl
take-append (x ∷ xs) ys = ap (x ∷◌) (take-append xs ys)

drop-append {ℓ} : {A : Type ℓ} (xs ys : List A) → drop (length xs) (xs ++ ys) ≡ ys
drop-append [] ys = refl
drop-append (x ∷ xs) ys = drop-append xs ys

map-concat {ℓ κ} :
    {A : Type ℓ} {B : Type κ} (f : A → B) (xs : List A) (c : A)
    → map f (xs ++ c ∷ []) ≡ map f xs ++ f c ∷ []
map-concat f [] c = refl
map-concat f (x ∷ xs) c = ap (f x ∷◌) (map-concat f xs c)

All-concat {ℓ κ} :
    {A : Type ℓ} (P : A → Type κ) (xs : List A) (c : A) → All P xs → P c → All P (xs ++ c ∷ [])
All-concat P [] c h p = (p, tt)
All-concat P (x ∷ xs) c h p = (h.0, All-concat P xs c h.1 p)

-- A list splits at every index within it.
pub split_at :
    {A : Type 0} (n : ℕ) (xs : List A)
    → n ≤ length xs
    → (before : List A) × (after : List A) × (xs ≡ before ++ after) × (length before ≡ n)
split_at zero xs h = ([], xs, refl, refl)
split_at (suc n) [] h = absurd (omega arith)
split_at (suc n) (x ∷ xs) h =
    let (b, a, e, l) = split_at n xs (omega arith) in (x ∷ b, a, ap (x ∷◌) e, ap suc l)

take-map {ℓ κ} :
    {A : Type ℓ} {B : Type κ} (f : A → B) (n : ℕ) (xs : List A)
    → take n (map f xs) ≡ map f (take n xs)
take-map f zero xs = refl
take-map f (suc n) [] = refl
take-map f (suc n) (x ∷ xs) = ap (f x ∷◌) (take-map f n xs)

-- The first part of a text that splits is what `take` gives of the line, and the rest `drop`.
take_line :
    (before after : Bytes) → take (length before) (map detab (before ++ after)) ≡ map detab before
take_line before after = rw (take-map detab, take-append)

module _ (before after pre : Bytes) (c : ℕ) (rest : Bytes) (n : ℕ) (splits : pre ≡ before ++ after)
    (at : length before ≡ n) where
  cut-line : take n (map detab (pre ++ c ∷ [])) ≡ map detab before
  cut-line = rw (splits, append_assoc, ← at) (take_line before (after ++ c ∷ []))

  cut-rest : drop n (pre ++ c ∷ rest) ≡ after ++ c ∷ rest
  cut-rest = rw (splits, append_assoc, ← at) (drop-append before (after ++ c ∷ rest))

  cut-text : pre ++ c ∷ rest ≡ before ++ (after ++ c ∷ rest)
  cut-text = rw (splits, append_assoc)

cut-Shape :
    (width : ℕ) (pre : Bytes) (c : ℕ) (rest : Bytes) (lastspace : ℕ)
    → lastspace ≤ length pre
    → length pre ≡ width
    → All NotLf pre
    → Shape width
        (pre ++ c ∷ rest)
        (cut (pre ++ c ∷ rest) lastspace (length pre) (map detab (pre ++ c ∷ [])))
unfolding cut
cut-Shape width pre c rest zero h e a =
    at_width pre (c ∷ rest) refl e a (take_line pre (c ∷ [])) (ap some (drop-append pre (c ∷ rest)))
cut-Shape width pre c rest (suc n) h e a =
    let (b, r, s, l) = split_at (suc n) pre h in
    at_space b (r ++ c ∷ rest) (cut-text b r pre c rest (suc n) s l) (omega arith) (omega arith)
      (All-left NotLf b r (rw s at a)) (ground (arith, cut-line b r pre c rest (suc n) s l))
      (ground (arith, cut-rest b r pre c rest (suc n) s l))

-- `prev` is the last byte before the loop's place.
abbrev LastIs : ℕ → Bytes → Type 0
LastIs prev pre = (pre ≡ []) ⊎ ((text : Bytes) × (pre ≡ text ++ prev ∷ []))

abbrev EndsAt : Bytes → Bytes → Type 0
EndsAt pre line =
    (line ≡ map detab pre) ⊎ ((text : Bytes) × (pre ≡ text ++ b'\r' ∷ []) × (line ≡ map detab text))

length-concat : (xs : Bytes) (c : ℕ) → length (xs ++ c ∷ []) ≡ suc (length xs)
length-concat xs c = omega (arith, length-append xs (c ∷ []))

ends_at_cr :
    (pre text : Bytes)
    → pre ≡ text ++ b'\r' ∷ []
    → ends_at (length pre) b'\r' (map detab pre) ≡ map detab text
unfolding ends_at
ends_at_cr pre text e = rw e (ground (arith, length-concat text b'\r', take_line text (b'\r' ∷ [])))

-- The CR before the LF is dropped, or nothing is.
ends_at-EndsAt :
    (prev : ℕ) (pre : Bytes)
    → LastIs prev pre
    → EndsAt pre (ends_at (length pre) prev (map detab pre))
ends_at-EndsAt prev pre (inl e) = rw e (unfold ends_at in inl refl)
ends_at-EndsAt prev pre (inr (text, e)) = elim (Bool-cases (prev == b'\r')) [
  | inl cr ↦
      let p = ==→eq prev b'\r' cr in rw p (inr (text, rw p at e, ends_at_cr pre text (rw p at e)))
  | inr other ↦ inl (keeps other)
]
  where
    keeps : (prev == b'\r') ≡ false → ends_at (length pre) prev (map detab pre) ≡ map detab pre
    keeps h = unfold ends_at in ground arith

scan-Shape :
    (width lastspace prev : ℕ) (pre rest : Bytes)
    → lastspace ≤ length pre
    → length pre ≤ width
    → LastIs prev pre
    → All NotLf pre
    → Shape width
        (pre ++ rest)
        (scan (pre ++ rest) width (length pre) lastspace prev (map detab pre) rest)
unfolding scan
scan-Shape width lastspace prev pre [] hl hw last a = rw append-nil (ended hw a refl refl)
scan-Shape width lastspace prev pre (c ∷ rest) hl hw last a =
    elim (Bool-cases (length pre == width)) [
      | inl full ↦
          rw (full, ← map-concat detab pre c)
            (cut-Shape width pre c rest (if detab c == b' ' then length pre else lastspace)
              (ground arith) (==→eq (length pre) width full) a)
      | inr room ↦ elim (Bool-cases (c == b'\n')) [
        | inl lf ↦
            rw (room, lf, ==→eq c b'\n' lf)
              (at_newline pre rest refl (ground arith) a (ends_at-EndsAt prev pre last) refl)
        | inr other ↦
            rw (room, other)
              (rw (append_assoc pre (c ∷ []) rest, length-concat pre c, map-concat detab pre c) at
                (scan-Shape width (if detab c == b' ' then length pre else lastspace) c
                  (pre ++ c ∷ []) rest (ground (arith, length-concat pre c))
                  (ground (arith, length-concat pre c)) (inr (pre, refl))
                  (All-concat NotLf pre c a (λ e. ground arith))))
      ]
    ]

-- Every call of `wordwrap` ends in one of these ways.
pub wordwrap-Shape : (str : Bytes) (width : ℕ) → Shape width str (wordwrap str width)
unfolding wordwrap
wordwrap-Shape str width = scan-Shape width 0 0 [] str (omega arith) (omega arith) (inl refl) tt
