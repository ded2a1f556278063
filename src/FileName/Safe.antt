-- ===== src/FileName/Safe.antt =====
-- genfnamefromselector: what it offers is a safe file name.
use gopherus.Base.{
  ◌≢◌, get_or, ℕ, ◌+◌, ◌<◌, ◌≡◌, ap, [], ◌∷◌, ◌++◌, Bytes, length, length-append, drop, All, arith,
}
use gopherus.FileName.Dots.{Plain}

-- Every extension that the selector has is shorter than `maxlen`, with its dot.
unfoldable pub Short : ℕ → Bytes → Type 0
Short maxlen whole =
    (pre ext : Bytes) → whole ≡ pre ++ b'.' ∷ ext → All Plain ext → length ext + 1 < maxlen

pub Short-length : (maxlen : ℕ) (whole : Bytes) → length whole < maxlen → Short maxlen whole
unfolding Short
Short-length maxlen whole h pre ext e plain =
    omega (arith, h, ap length e, length-append pre (b'.' ∷ ext))

pub Short-cons :
    (maxlen c : ℕ) (whole : Bytes) → c ≢ b'.' → Short maxlen whole → Short maxlen (c ∷ whole)
unfolding Short
Short-cons maxlen c whole n h [] ext e plain = absurd (n (ap (λ s. get_or s 0 0) e))
Short-cons maxlen c whole n h (x ∷ pre) ext e plain = h pre ext (ap (drop 1) e) plain
