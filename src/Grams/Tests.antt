-- ===== src/Grams/Tests.antt =====
-- Tests of the grams, and the theorems at a concrete text.
use gopherus.Base.{ℕ, ◌-◌, ◌≡◌, ◌≤◌, refl, ◌∷◌, codes, length}
use gopherus.Grams.{grams_at, bestgram, removegram, sgram}
use gopherus.Grams.Counts.{occurrences, bestgram-occurrences}

-- The last gram of the text is not counted, and not taken away.
counted : bestgram (codes "abcabab") 2 ≡ record { trigram = 24930; count = 2 }
unfolding bestgram
counted = refl

taken : removegram (codes "abcabab") (sgram 2 24930) ≡ 255 ∷ 255 ∷ b'c' ∷ 255 ∷ 255 ∷ codes "ab"
unfolding removegram sgram
taken = refl

bestgram-occurrences_example :
    let grams = grams_at (length (codes "abcabab") - 2) 2 (codes "abcabab") in
    (occurrences (bestgram (codes "abcabab") 2).trigram grams
      ≡ (bestgram (codes "abcabab") 2).count)
    × ((g : ℕ) → occurrences g grams ≤ (bestgram (codes "abcabab") 2).count)
bestgram-occurrences_example = bestgram-occurrences (codes "abcabab") 2
