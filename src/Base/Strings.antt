-- ===== src/Base/Strings.antt =====
-- Bytes, and the C library's functions on nul-terminated strings. A string is the list of the
-- bytes before its terminator.
use Prim.Native.Nat.{ℕ, ◌+◌}
use Prim.Native.Char.{code}
use Prim.Native.String.{String}
use mathlib.Core.Path.{◌≡◌, refl}
use mathlib.Core.Logic.{◌↔◌}
use mathlib.Core.Bool.{Bool, true, false, ◌&&◌}
use mathlib.Core.List.{List, [], ◌∷◌, map}
use native.Mathlib.Omega.{arith}
use gopherus.Base.Tests.{leb, ◌==◌, if◌then◌else◌}

abbrev pub Bytes : Type 0
Bytes = List ℕ

-- The bytes of an ASCII literal.
abbrev pub codes : String → Bytes
codes String.[] = []
codes (String.◌∷◌ c s) = code c ∷ codes s

-- The bytes before the first nul.
abbrev pub up_to_nul : Bytes → Bytes
up_to_nul [] = []
up_to_nul (c ∷ s) = let more = up_to_nul s in if c == 0 then [] else c ∷ more

-- strcmp(a, b) == 0
abbrev pub strcmp_eq : Bytes → Bytes → Bool
strcmp_eq [] [] = true
strcmp_eq [] (y ∷ ys) = false
strcmp_eq (x ∷ xs) [] = false
strcmp_eq (x ∷ xs) (y ∷ ys) = x == y && strcmp_eq xs ys

abbrev pub tolower : ℕ → ℕ
tolower c = if leb b'A' c && leb c b'Z' then c + 32 else c

abbrev pub lower : Bytes → Bytes
lower = map tolower

-- strcasecmp(a, b) == 0
abbrev pub strcasecmp_eq : Bytes → Bytes → Bool
strcasecmp_eq a b = strcmp_eq (lower a) (lower b)

pub strcmp_eq_iff : (a b : Bytes) → (strcmp_eq a b ≡ true) ↔ (a ≡ b)
strcmp_eq_iff (x ∷ a) (y ∷ b) = ground (arith, strcmp_eq_iff a b)
strcmp_eq_iff _ _ = ground arith

pub strcmp_eq_refl : (a : Bytes) → strcmp_eq a a ≡ true
strcmp_eq_refl a = (strcmp_eq_iff a a).1 refl

pub strcasecmp_eq_refl : (a : Bytes) → strcasecmp_eq a a ≡ true
strcasecmp_eq_refl a = strcmp_eq_refl (lower a)

pub strcasecmp_eq_iff : (a b : Bytes) → (strcasecmp_eq a b ≡ true) ↔ (lower a ≡ lower b)
strcasecmp_eq_iff a b = strcmp_eq_iff (lower a) (lower b)

strcmp_eq_comm : (a b : Bytes) → strcmp_eq a b ≡ strcmp_eq b a
strcmp_eq_comm [] [] = refl
strcmp_eq_comm [] (y ∷ b) = refl
strcmp_eq_comm (x ∷ a) [] = refl
strcmp_eq_comm (x ∷ a) (y ∷ b) = ground (arith, strcmp_eq_comm a b)

pub strcasecmp_eq_comm : (a b : Bytes) → strcasecmp_eq a b ≡ strcasecmp_eq b a
strcasecmp_eq_comm a b = strcmp_eq_comm (lower a) (lower b)
