-- ===== src/Base/Number.antt =====
-- The C library's decimal numbers: `atoi` and the `%u` of printf.
use Prim.Native.Nat.{ℕ, zero, suc, ◌+◌, ◌-◌, ◌*◌, ◌/◌, ◌%◌, ◌≤◌, ◌<◌}
use mathlib.Core.Path.{◌≡◌, refl, ap, ◌∙◌}
use mathlib.Core.Logic.{◌≢◌}
use mathlib.Core.Bool.{Bool, ◌||◌}
use mathlib.Core.List.{[], ◌∷◌, ◌++◌}
use mathlib.Core.Logic.{inl, inr}
use mathlib.Core.List.{concat-ne-nil}
use native.Mathlib.Numerals.{add-one}
use native.Mathlib.Omega.{arith}
use gopherus.Base.Tests.{ltb, ◌==◌, within, Bool-cases, if◌then◌else◌}
use gopherus.Base.Lists.{All, All-append}
use gopherus.Base.Strings.{Bytes}
use gopherus.Base.Int.{ℤ, pos, sub_ℕ}

abbrev pub is_digit : ℕ → Bool
is_digit c = within b'0' b'9' c

-- The digits up to the first other byte. (`atoi` defines no result beyond an int.)
unfoldable pub digits_value : ℕ → Bytes → ℕ
digits_value acc [] = acc
digits_value acc (c ∷ cs) =
    let more = digits_value (acc * 10 + (c - b'0')) cs in if is_digit c then more else acc

signed_value : Bytes → ℤ
signed_value [] = pos 0
signed_value (c ∷ cs) =
    if c == b'-'
    then sub_ℕ 0 (digits_value 0 cs)
    else if c == b'+'
    then pos (digits_value 0 cs)
    else pos (digits_value 0 (c ∷ cs))

abbrev is_space : ℕ → Bool
is_space c = c == b' ' || within 9 13 c

skip_white : Bytes → Bytes
skip_white [] = []
skip_white (c ∷ cs) = if is_space c then skip_white cs else c ∷ cs

unfoldable pub atoi : Bytes → ℤ
unfolding digits_value signed_value skip_white
atoi s = signed_value (skip_white s)

-- The conversion to an unsigned short.
abbrev pub to_ushort : ℤ → ℕ
to_ushort (pos n) = n % 65536
to_ushort (ℤ.negsuc n) = 65535 - n % 65536

print_digits : ℕ → ℕ → Bytes
print_digits zero n = []
print_digits (suc f) n =
    let more = print_digits f (n / 10) ++ (b'0' + n % 10) ∷ [] in
    if ltb n 10 then (b'0' + n) ∷ [] else more

-- `%u`; the fuel is above the number of digits
unfoldable pub print_u : ℕ → Bytes
unfolding print_digits
print_u n = print_digits (n + 1) n

abbrev pub Digit : ℕ → Type 0
Digit c = (b'0' ≤ c) × (c ≤ b'9')

digits_value-append :
    (acc : ℕ) (xs ys : Bytes)
    → All Digit xs
    → digits_value acc (xs ++ ys) ≡ digits_value (digits_value acc xs) ys
unfolding digits_value
digits_value-append acc [] ys h = refl
digits_value-append acc (x ∷ xs) ys h =
    ground (arith, digits_value-append (acc * 10 + (x - b'0')) xs ys)

print_digits-Digit : (f n : ℕ) → All Digit (print_digits f n)
unfolding print_digits
print_digits-Digit zero n = tt
print_digits-Digit (suc f) n = ground (
  arith,
  All-append Digit (print_digits f (n / 10)) ((b'0' + n % 10) ∷ []) (print_digits-Digit f (n / 10))
      (omega arith, tt),
)

digits_value-print_digits : (f n : ℕ) → n < f → digits_value 0 (print_digits f n) ≡ n
unfolding print_digits
digits_value-print_digits zero n h = absurd (omega arith)
digits_value-print_digits (suc f) n h = elim (Bool-cases (ltb n 10)) [
  | inl small ↦ rw small (unfold digits_value in ground arith)
  | inr large ↦ rw large (
      digits_value-append 0 (print_digits f (n / 10)) _ (print_digits-Digit f (n / 10))
      ∙ rw (digits_value-print_digits f (n / 10) (ground arith))
          (unfold digits_value in ground arith))
]

-- No byte that `atoi` skips, and no sign, starts the digits.
atoi-Digit : (s : Bytes) → All Digit s → s ≢ [] → atoi s ≡ pos (digits_value 0 s)
unfolding skip_white signed_value atoi
atoi-Digit [] a h = absurd (h refl)
atoi-Digit (c ∷ cs) a h = ground arith

print_digits-ne-nil : (f n : ℕ) → print_digits (suc f) n ≢ []
unfolding print_digits
print_digits-ne-nil f n e = elim (Bool-cases (ltb n 10)) [
  | inl small ↦ cc (rw small at e)
  | inr large ↦ concat-ne-nil _ _ (rw large at e)
]

-- A printed number is read back.
pub atoi-print_u : (n : ℕ) → atoi (print_u n) ≡ pos n
unfolding print_u
atoi-print_u n = rw add-one (
    atoi-Digit _ (print_digits-Digit (suc n) n) (print_digits-ne-nil n n)
    ∙ ap pos (digits_value-print_digits (suc n) n (omega arith)))

pub print_u-Digit : (n : ℕ) → All Digit (print_u n)
unfolding print_u
print_u-Digit n = print_digits-Digit (n + 1) n

pub to_ushort-print_u : (n : ℕ) → n < 65536 → to_ushort (atoi (print_u n)) ≡ n
to_ushort-print_u n h = rw atoi-print_u (omega arith)
