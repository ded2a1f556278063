-- ===== src/FileName/Tests.antt =====
-- Tests of the file name that is offered for a download, and the theorem at a concrete selector.
use gopherus.Base.{◌≡◌, refl, none, some, codes}
use gopherus.FileName.{genfnamefromselector}

underscores : genfnamefromselector 64 (codes "/a/b c.txt") ≡ some (codes "b_c.txt")
unfolding genfnamefromselector
underscores = refl

-- A selector that ends in a slash is read behind its nul.
behind_nul : genfnamefromselector 64 (codes "/a/") ≡ none
unfolding genfnamefromselector
behind_nul = refl

-- An extension that is longer than the buffer is written past it.
past_end : genfnamefromselector 6 (codes "a.longext") ≡ none
unfolding genfnamefromselector
past_end = refl

-- A name that is cut, in a buffer of 7 bytes.
cut : genfnamefromselector 7 (codes "a long.txt") ≡ some (codes "a_.txt")
unfolding genfnamefromselector
cut = refl
