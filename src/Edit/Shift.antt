-- ===== src/Edit/Shift.antt =====
-- The two loops that move the text after the cursor, on an array in pieces.
use gopherus.Base.{
  ℕ, suc, zero, ◌+◌, ◌-◌, ◌≡◌, refl, ap, ◌∙◌, [], ◌∷◌, ◌++◌, append_assoc, arith, length,
  length-append, get_or, set, Bytes,
}
use native.Mathlib.Numerals.{add-one}
use gopherus.Edit.{shift_left, shift_right}

pub get_or-append : (p : Bytes) (x : ℕ) (q : Bytes) → get_or (p ++ x ∷ q) (length p) 0 ≡ x
get_or-append [] x q = refl
get_or-append (y ∷ p) x q = get_or-append p x q

get_or-append_next :
    (p : Bytes) (x z : ℕ) (q : Bytes) → get_or (p ++ x ∷ z ∷ q) (suc (length p)) 0 ≡ z
get_or-append_next [] x z q = refl
get_or-append_next (y ∷ p) x z q = get_or-append_next p x z q

pub set-append : (p : Bytes) (x v : ℕ) (q : Bytes) → set (p ++ x ∷ q) (length p) v ≡ p ++ v ∷ q
set-append [] x v q = refl
set-append (y ∷ p) x v q = ap (y ∷◌) (set-append p x v q)

shift_left-step :
    (p : Bytes) (x z : ℕ) (q : Bytes) (n : ℕ)
    → shift_left (suc n) (length p) (p ++ x ∷ z ∷ q)
      ≡ shift_left n (length (p ++ z ∷ [])) ((p ++ z ∷ []) ++ z ∷ q)
unfolding shift_left
shift_left-step p x z q n =
    rw
      (
        length-append p (z ∷ []),
        add-one,
        get_or-append_next p x z q,
        set-append p x z (z ∷ q),
        append_assoc p (z ∷ []) (z ∷ q),
      )
      refl

-- After the loop the text is one place to the left, and a byte stands before the rest.
pub shift_left-pieces :
    (p : Bytes) (x : ℕ) (q r : Bytes)
    → (w : ℕ) × (shift_left (length q) (length p) (p ++ x ∷ (q ++ r)) ≡ p ++ (q ++ w ∷ r))
unfolding shift_left
shift_left-pieces p x [] r = (x, refl)
shift_left-pieces p x (z ∷ q) r =
    let more = shift_left-pieces (p ++ z ∷ []) z q r in
    (
      more.0,
      shift_left-step p x z (q ++ r) (length q)
          ∙ more.1
          ∙ append_assoc p (z ∷ []) (q ++ more.0 ∷ r),
    )

set-append_next :
    (p : Bytes) (y x v : ℕ) (q : Bytes) → set (p ++ y ∷ x ∷ q) (suc (length p)) v ≡ p ++ y ∷ v ∷ q
set-append_next [] y x v q = refl
set-append_next (c ∷ p) y x v q = ap (c ∷◌) (set-append_next p y x v q)

shift_right-suc :
    (n y : ℕ) (b : Bytes)
    → shift_right (suc n) y b ≡ shift_right n (y - 1) (set b y (get_or b (y - 1) 0))
unfolding shift_right
shift_right-suc n y b = refl

shift_right-last :
    (n k : ℕ) (b : Bytes)
    → shift_right (suc n) (k + suc n) b
      ≡ set (shift_right n (k + suc n) b) (suc k) (get_or (shift_right n (k + suc n) b) k 0)
shift_right-last zero k b =
    unfold shift_right in
    let e : k + 1 ≡ suc k = omega arith in let d : suc k - 1 ≡ k = omega arith in rw e (rw d refl)
shift_right-last (suc n) k b =
    let e : k + suc (suc n) - 1 ≡ k + suc n = omega arith in
    rw (shift_right-suc (suc n) (k + suc (suc n)) b, shift_right-suc n (k + suc (suc n)) b, e)
      (shift_right-last n k _)

-- After the loop the text is one place to the right, and a byte stands in its place.
pub shift_right-pieces :
    (p q : Bytes) (x : ℕ) (r : Bytes)
    → (w : ℕ) × (shift_right (length q) (length p + length q) (p ++ (q ++ x ∷ r))
        ≡ p ++ w ∷ (q ++ r))
shift_right-pieces p [] x r = (x, unfold shift_right in refl)
shift_right-pieces p (z ∷ q) x r =
    let more = shift_right-pieces (p ++ z ∷ []) q x r in
    let e : length (p ++ z ∷ []) + length q ≡ length p + suc (length q) =
      omega (arith, length-append p (z ∷ [])) in
    let moved = rw (e, append_assoc p (z ∷ []), append_assoc p (z ∷ [])) at more.1 in
    (
      z,
      rw
          (
            shift_right-last (length q) (length p) (p ++ z ∷ (q ++ x ∷ r)),
            moved,
            get_or-append p z (more.0 ∷ (q ++ r)),
            set-append_next p z more.0 z (q ++ r),
          )
          refl,
    )
