-- ===== src/Grams.antt =====
-- idoc/grams.c: the tool that finds the most common grams of a text, for the dictionary of the
-- embedded pages. No allocation fails; a gram has 1 to 4 bytes, and 0xff stands for a byte that is
-- taken away.
pub mod Counts
pub mod Removal
mod Tests
use mathlib.Core.Option
use gopherus.Base.{
  ℕ, zero, suc, ◌+◌, ◌-◌, ◌*◌, ◌/◌, ◌%◌, ◌^◌, Bool, true, false, ◌&&◌, List, [], ◌∷◌, ◌++◌, ltb,
  ◌==◌, if◌then◌else◌, Bytes, Option, none, some, length, take, drop, replicate, strcmp_eq, ℤ, pos,
  sub_ℕ, ◌-ℤ◌,
}

-- The gram at the start of the bytes, or none where a byte of it is taken away.
pub gram_from : ℕ → ℕ → Bytes → Option ℕ
gram_from zero tg s = some tg
gram_from (suc n) tg [] = none
gram_from (suc n) tg (c ∷ s) =
    let more = gram_from n ((tg * 256) % 2 ^ 32 + c) s in if c == 0xff then none else more

-- The grams at the first `n` positions, in order.
pub grams_at : ℕ → ℕ → Bytes → List ℕ
unfolding gram_from
grams_at zero gramlen fdata = []
grams_at (suc n) gramlen [] = []
grams_at (suc n) gramlen (c ∷ fdata) =
    let rest = grams_at n gramlen fdata in
    elim (gram_from gramlen 0 (c ∷ fdata)) [ none ↦ rest | some tg ↦ tg ∷ rest ]

-- A node of the list, struct trigramlist.
pub record Node : Type 0 where
  pub trigram : ℕ
  pub count : ℕ

-- The list with one more for a gram that is in it.
pub bumped : ℕ → List Node → Option (List Node)
bumped tg [] = none
bumped tg (n ∷ tlist) =
    let rest = Option.map (n ∷◌) (bumped tg tlist) in
    if n.trigram == tg then some (record n { count = n.count + 1 } ∷ tlist) else rest

pub count_gram : ℕ → List Node → List Node
unfolding bumped
count_gram tg tlist = elim (bumped tg tlist) [
  | none ↦ record { trigram = tg; count = 1 } ∷ tlist
  | some counted ↦ counted
]

pub count_all : List ℕ → List Node → List Node
unfolding count_gram
count_all [] tlist = tlist
count_all (tg ∷ tgs) tlist = count_all tgs (count_gram tg tlist)

-- The node with the greatest count, the first one of several.
pub greatest : Node → List Node → Node
greatest tgreatest [] = tgreatest
greatest tgreatest (n ∷ tlist) =
    greatest (if ltb tgreatest.count n.count then n else tgreatest) tlist

best_of : List Node → Node
unfolding greatest
best_of [] = record { trigram = 0; count = 0 }
best_of (n ∷ tlist) = greatest n (n ∷ tlist)

-- The most common gram, with its count.
unfoldable pub bestgram : Bytes → ℕ → Node
unfolding best_of count_all grams_at
bestgram fdata gramlen = best_of (count_all (grams_at (length fdata - gramlen) gramlen fdata) [])

-- The gram's bytes, `gram & 0xff` last.
unfoldable pub sgram : ℕ → ℕ → Bytes
sgram zero gram = []
sgram (suc n) gram = sgram n (gram / 256) ++ gram % 256 ∷ []

-- The bytes without the gram, at the first `n` positions.
remove_at : ℕ → Bytes → Bytes → Bytes
remove_at zero gram buf = buf
remove_at (suc n) gram [] = []
remove_at (suc n) gram (c ∷ buf) =
    let blank = replicate (length gram) 0xff ++ drop (length gram) (c ∷ buf) in
    let here = if strcmp_eq (take (length gram) (c ∷ buf)) gram then blank else c ∷ buf in
    elim here [ [] ↦ [] | d ∷ rest ↦ d ∷ remove_at n gram rest ]

unfoldable pub removegram : Bytes → Bytes → Bytes
unfolding remove_at
removegram buf gram = remove_at (length buf - length gram) gram buf

-- The loop of main, with at most `n` grams to come: the dictionary, and `totbytes`.
unfoldable pub dictionary : ℕ → ℕ → Bytes → List Node × Bytes
unfolding bestgram removegram sgram
dictionary zero glen fbuf = ([], fbuf)
dictionary (suc n) glen fbuf =
    let best = bestgram fbuf glen in
    let more = dictionary n glen (removegram fbuf (sgram glen best.trigram)) in
    if ltb best.count 2 then ([], fbuf) else (best ∷ more.0, more.1)

-- `totbytes`, over the grams of the dictionary.
unfoldable pub totbytes : ℕ → List Node → ℕ
totbytes glen [] = 0
totbytes glen (n ∷ dict) = n.count * (glen - 1) + totbytes glen dict

-- `realgain`: what the dictionary itself takes is taken off.
unfoldable pub realgain : ℕ → List Node → ℤ
unfolding totbytes
realgain glen dict = sub_ℕ (totbytes glen dict) (length dict * glen)
