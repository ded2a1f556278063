-- ===== src/Grams/Removal.antt =====
-- Behind removegram the gram stands at none of the positions that are counted.
use gopherus.Base.{
  ℕ, zero, suc, ◌-◌, ◌<◌, ◌≡◌, ◌≢◌, refl, sym, ap₂, ◌∙◌, inl, inr, [], ◌∷◌, Bytes, length, All,
  arith, Bool-cases, take, drop, strcmp_eq, strcmp_eq_iff,
}
use gopherus.Grams.{remove_at, removegram}

-- The bytes start with the gram.
abbrev pub Starts : Bytes → Bytes → Type 0
Starts [] s = Unit
Starts (x ∷ p) [] = ⊥
Starts (x ∷ p) (y ∷ s) = (x ≡ y) × Starts p s

-- A byte that is not taken away.
abbrev pub Present : ℕ → Type 0
Present c = c ≢ 0xff

Starts-take : (p s : Bytes) → Starts p s → take (length p) s ≡ p
Starts-take [] s h = refl
Starts-take (x ∷ p) [] h = absurd h
Starts-take (x ∷ p) (y ∷ s) h = ap₂ (λ c t. c ∷ t) (sym h.0) (Starts-take p s h.1)

-- Taking a gram away makes no other bytes.
remove_at-Starts :
    (n : ℕ) (gram buf p : Bytes)
    → 0 < length gram
    → All Present p
    → Starts p (remove_at n gram buf)
    → Starts p buf
unfolding remove_at
remove_at-Starts n gram buf [] l h s = tt
remove_at-Starts zero gram buf (x ∷ p) l h s = s
remove_at-Starts (suc n) gram [] (x ∷ p) l h s = s
remove_at-Starts (suc n) (g ∷ gram) (c ∷ buf) (x ∷ p) l h s =
    elim (Bool-cases (strcmp_eq (take (length (g ∷ gram)) (c ∷ buf)) (g ∷ gram))) [
      | inl found ↦ absurd (h.0 (rw (remove_at, found) at s).0)
      | inr other ↦
          let r = rw (remove_at, other) at s in (r.0, remove_at-Starts n (g ∷ gram) buf p l h.1 r.1)
    ]
remove_at-Starts (suc n) [] (c ∷ buf) (x ∷ p) l h s = absurd (omega arith)

remove_at-none :
    (n i : ℕ) (g : ℕ) (gram buf : Bytes)
    → All Present (g ∷ gram)
    → i < n
    → Starts (g ∷ gram) (drop i (remove_at n (g ∷ gram) buf))
    → ⊥
unfolding remove_at
remove_at-none zero i g gram buf a h s = omega arith
remove_at-none (suc n) zero g gram [] a h s = s
remove_at-none (suc n) (suc i) g gram [] a h s = s
remove_at-none (suc n) zero g gram (c ∷ buf) a h s =
    elim (Bool-cases (strcmp_eq (take (length (g ∷ gram)) (c ∷ buf)) (g ∷ gram))) [
      | inl found ↦ a.0 (rw (remove_at, found) at s).0
      | inr other ↦
          let r = rw (remove_at, other) at s in
          let there : Starts (g ∷ gram) (c ∷ buf) =
            (r.0, remove_at-Starts n (g ∷ gram) buf gram (omega arith) a.1 r.1) in
          let equal =
            (strcmp_eq_iff (take (length (g ∷ gram)) (c ∷ buf)) (g ∷ gram)).1
              (Starts-take (g ∷ gram) (c ∷ buf) there) in
          cc (sym other ∙ equal)
    ]
remove_at-none (suc n) (suc i) g gram (c ∷ buf) a h s =
    elim (Bool-cases (strcmp_eq (take (length (g ∷ gram)) (c ∷ buf)) (g ∷ gram))) [
      | inl found ↦ remove_at-none n i g gram _ a (omega arith) (rw (remove_at, found) at s)
      | inr other ↦ remove_at-none n i g gram buf a (omega arith) (rw (remove_at, other) at s)
    ]

-- Behind removegram a gram stands at none of the positions that bestgram looks at, not even where
-- bytes of it were taken away: so no gram is found twice. The gram has at least a byte, and none of its
-- bytes is 0xff. (The last position of the text is looked at by neither.)
pub removegram-none :
    (buf gram : Bytes) (i : ℕ)
    → 0 < length gram
    → All Present gram
    → i < length buf - length gram
    → ¬ Starts gram (drop i (removegram buf gram))
unfolding removegram
removegram-none buf [] i l a h s = omega arith
removegram-none buf (g ∷ gram) i l a h s = remove_at-none _ i g gram buf a h s
