-- ===== src/FileName/Dots.antt =====
-- genfnamefromselector: what its loop over the selector finds.
use gopherus.Base.{
  ◌≢◌, ◌∙◌, sym, append_assoc, All-append, ==→eq, ℕ, suc, ◌+◌, ◌≤◌, ◌<◌, ◌≡◌, refl, ap, inl, inr,
  Bool, true, false, [], ◌∷◌, ◌++◌, ◌==◌, if◌then◌else◌, Bytes, Option, none, some, length,
  length-append, All, arith, Bool-cases,
}
use gopherus.FileName.{Found, scan}

-- The last dot is one of the bytes below an index.
unfoldable pub Below : Option ℕ → ℕ → Type 0
Below none i = Unit
Below (some d) i = d < i

Below-more : (dot : Option ℕ) (i : ℕ) → Below dot i → Below dot (i + 1)
unfolding Below
Below-more none i h = tt
Below-more (some d) i h = omega arith

Below-next :
    (b : Bool) (dot : Option ℕ) (i : ℕ) → Below dot i → Below (if b then some i else dot) (i + 1)
unfolding Below
Below-next true dot i h = omega arith
Below-next false dot i h = Below-more dot i h

abbrev pub ends_in_slash : Bytes → Bool
ends_in_slash [] = false
ends_in_slash (c ∷ []) = c == b'/'
ends_in_slash (c ∷ d ∷ rest) = ends_in_slash (d ∷ rest)

slash-tail : (d : ℕ) (rest : Bytes) → ends_in_slash (d ∷ rest) ≡ false → ends_in_slash rest ≡ false
slash-tail d [] h = refl
slash-tail d (c ∷ rest) h = h

-- A byte that ends neither a directory nor a stem.
abbrev pub Plain : ℕ → Type 0
Plain c = (c ≢ b'.') × (c ≢ b'/')

-- Where index `i` and the last dot are in the whole selector, of which `rest` is still to be read.
unfoldable pub Dotted : Bytes → Option ℕ → ℕ → Bytes → Type 0
Dotted whole none i rest = (pre : Bytes) × (whole ≡ pre ++ rest)
Dotted whole (some d) i rest =
    (pre ext : Bytes) × (whole ≡ pre ++ b'.' ∷ (ext ++ rest))
    × All Plain ext
    × (i ≡ d + 1 + length ext)

module _ (whole : Bytes) where
  Dotted-rest :
      (dot : Option ℕ) (i : ℕ) (rest : Bytes)
      → Dotted whole dot i rest
      → (pre : Bytes) × (whole ≡ pre ++ rest)
  unfolding Dotted
  Dotted-rest none i rest h = h
  Dotted-rest (some d) i rest (pre, ext, e, plain, at) =
      (pre ++ b'.' ∷ ext, e ∙ sym (append_assoc pre (b'.' ∷ ext) rest))

  behind :
      (pre : Bytes) (c : ℕ) (rest : Bytes)
      → whole ≡ pre ++ c ∷ rest
      → whole ≡ (pre ++ c ∷ []) ++ rest
  behind pre c rest e = e ∙ sym (append_assoc pre (c ∷ []) rest)

  Dotted-slash :
      (dot : Option ℕ) (i c d : ℕ) (rest : Bytes)
      → Dotted whole dot i (c ∷ d ∷ rest)
      → Dotted whole none 1 rest
  unfolding Dotted
  Dotted-slash dot i c d rest h =
      let (pre, e) = Dotted-rest dot i (c ∷ d ∷ rest) h in
      ((pre ++ c ∷ []) ++ d ∷ [], behind (pre ++ c ∷ []) d rest (behind pre c (d ∷ rest) e))

  Dotted-next :
      (dot : Option ℕ) (i c : ℕ) (rest : Bytes)
      → c ≢ b'/'
      → Dotted whole dot i (c ∷ rest)
      → Dotted whole (if c == b'.' then some i else dot) (i + 1) rest
  unfolding Dotted Plain
  Dotted-next dot i c rest n h = elim (Bool-cases (c == b'.')) [
    | inl is_dot ↦
        let (pre, e) = Dotted-rest dot i (c ∷ rest) h in
        rw is_dot (pre, [], e ∙ ap (λ x. pre ++ x ∷ rest) (==→eq c b'.' is_dot), tt, omega arith)
    | inr other ↦ rw other (
        elim dot as (λ o. Dotted whole o i (c ∷ rest) → Dotted whole o (i + 1) rest) [
          | none ↦ λ (pre, e). (pre ++ c ∷ [], behind pre c rest e)
          | some d ↦ λ (pre, ext, e, plain, at). (
            pre,
            ext ++ c ∷ [],
            e ∙ ap (λ t. pre ++ b'.' ∷ t) (sym (append_assoc ext (c ∷ []) rest)),
            All-append Plain ext (c ∷ []) plain (((λ x. ground (arith, x, other)), n), tt),
            omega (arith, at, length-append ext (c ∷ [])),
          )
        ]
          h)
  ]

-- What the loop finds: a name that is no longer than what it was given, with the dot inside.
pub record IsFound (whole : Bytes) (size : ℕ) (result : Option Found) : Type 0 where
  pub found : Found
  pub result_is : result ≡ some found
  pub long : found.i ≤ size
  pub dot : Below found.lastdot found.i
  pub dotted : Dotted whole found.lastdot found.i []

IsFound-le :
    (whole : Bytes) (m n : ℕ) (r : Option Found) → m ≤ n → IsFound whole m r → IsFound whole n r
IsFound-le whole m n r h f = record {
  found = f.found;
  result_is = f.result_is;
  long = omega (arith, f.long);
  dot = f.dot;
  dotted = f.dotted;
}

pub scan-IsFound :
    (whole s : Bytes) (i : ℕ) (dot : Option ℕ) (rest : Bytes)
    → Below dot i
    → Dotted whole dot i rest
    → ends_in_slash rest ≡ false
    → IsFound whole (i + length rest) (scan s i dot rest)
unfolding scan
scan-IsFound whole s i dot [] h k e = record {
  found = _;
  result_is = refl;
  long = omega arith;
  dot = h;
  dotted = k;
}
scan-IsFound whole s i dot (c ∷ []) h k e = rw e (
    IsFound-le whole (i + 1 + 0) (i + 1) _ (omega arith) (
      scan-IsFound whole s (i + 1) _ [] (Below-next (c == b'.') dot i h)
        (Dotted-next whole dot i c [] (λ x. ground (arith, x, e)) k) refl))
scan-IsFound whole s i dot (c ∷ d ∷ rest) h k e = elim (Bool-cases (c == b'/')) [
  | inl slash ↦ rw slash (
      IsFound-le whole (1 + length rest) _ _ (omega arith) (
        scan-IsFound whole (d ∷ rest) 1 none rest (unfold Below in tt)
          (Dotted-slash whole dot i c d rest k) (slash-tail d rest e)))
  | inr other ↦ rw other (
      IsFound-le whole (i + 1 + suc (length rest)) _ _ (omega arith) (
        scan-IsFound whole s (i + 1) _ (d ∷ rest) (Below-next (c == b'.') dot i h)
          (Dotted-next whole dot i c (d ∷ rest) (λ x. ground (arith, x, other)) k) e))
]
