-- ===== src/Grams/Counts.antt =====
-- The counts of bestgram are the numbers of positions, and it returns the greatest.

use gopherus.Base.{
  ℕ, suc, ◌+◌, ◌-◌, ◌≤◌, ◌≡◌, ◌≢◌, refl, sym, subst, ◌∙◌, ◌⊎◌, inl, inr, List, [], ◌∷◌, ltb, ◌==◌,
  ==→eq, ==_ne, if◌then◌else◌, Bytes, none, some, length, All, arith, Bool-cases, Option-cases,
}
use gopherus.Grams.{Node, grams_at, bumped, count_gram, count_all, greatest, bestgram, best_of}

-- How often a gram is among those of the positions.
abbrev pub occurrences : ℕ → List ℕ → ℕ
occurrences g [] = 0
occurrences g (x ∷ xs) = let rest = occurrences g xs in if g == x then suc rest else rest

-- The count of a gram, or 0 where there is no node for it.
abbrev count_of : ℕ → List Node → ℕ
count_of g [] = 0
count_of g (n ∷ ns) = let rest = count_of g ns in if n.trigram == g then n.count else rest

bumped-none : (g : ℕ) (ns : List Node) → bumped g ns ≡ none → count_of g ns ≡ 0
unfolding bumped
bumped-none g [] e = refl
bumped-none g (n ∷ ns) e = elim (Bool-cases (n.trigram == g)) [
  | inl same ↦ cc (rw same at e)
  | inr other ↦ elim (Option-cases (bumped g ns)) [
    | inl absent ↦ rw other (bumped-none g ns absent)
    | inr (u, found) ↦ cc (rw (other, found) at e)
  ]
]

-- One more for `g`, and the others as they were.
plus : ℕ → ℕ → ℕ → ℕ
plus g h n = if h == g then suc n else n

bumped-some :
    (g h : ℕ) (ns us : List Node) → bumped g ns ≡ some us → count_of h us ≡ plus g h (count_of h ns)
unfolding bumped plus
bumped-some g h [] us e = cc
bumped-some g h (n ∷ ns) us e = elim (Bool-cases (n.trigram == g)) [
  | inl same ↦
      let us_are : record n { count = n.count + 1 } ∷ ns ≡ us = cc (rw same at e) in
      subst (λ v. count_of h v ≡ plus g h (count_of h (n ∷ ns))) us_are (ground arith)
  | inr other ↦ elim (Option-cases (bumped g ns)) [
    | inl absent ↦ cc (rw (other, absent) at e)
    | inr (u, found) ↦
        let us_are : n ∷ u ≡ us = cc (rw (other, found) at e) in
        subst (λ v. count_of h v ≡ plus g h (count_of h (n ∷ ns))) us_are
          (ground (arith, bumped-some g h ns u found))
  ]
]

count_of-count_gram :
    (g h : ℕ) (ns : List Node) → count_of h (count_gram g ns) ≡ plus g h (count_of h ns)
unfolding count_gram plus
count_of-count_gram g h ns = elim (Option-cases (bumped g ns)) [
  | inl absent ↦ rw (count_gram, absent) (grind (arith, bumped-none g ns absent))
  | inr (u, found) ↦ rw (count_gram, found) (bumped-some g h ns u found)
]

count_of-count_all :
    (h : ℕ) (gs : List ℕ) (ns : List Node)
    → count_of h (count_all gs ns) ≡ count_of h ns + occurrences h gs
unfolding count_all plus
count_of-count_all h [] ns = omega arith
count_of-count_all h (g ∷ gs) ns =
    count_of-count_all h gs (count_gram g ns) ∙ rw (count_of-count_gram g h ns) (ground arith)

-- No gram has two nodes.
abbrev Absent : ℕ → List Node → Type 0
Absent g = All (λ n. n.trigram ≢ g)

abbrev Unique : List Node → Type 0
Unique [] = Unit
Unique (n ∷ ns) = Absent n.trigram ns × Unique ns

bumped-Absent : (g x : ℕ) (ns us : List Node) → Absent x ns → bumped g ns ≡ some us → Absent x us
unfolding bumped
bumped-Absent g x [] us h e = cc
bumped-Absent g x (n ∷ ns) us h e = elim (Bool-cases (n.trigram == g)) [
  | inl same ↦
      let us_are : record n { count = n.count + 1 } ∷ ns ≡ us = cc (rw same at e) in
      subst (Absent x) us_are h
  | inr other ↦ elim (Option-cases (bumped g ns)) [
    | inl absent ↦ cc (rw (other, absent) at e)
    | inr (u, found) ↦
        let us_are : n ∷ u ≡ us = cc (rw (other, found) at e) in
        subst (Absent x) us_are (h.0, bumped-Absent g x ns u h.1 found)
  ]
]

bumped-Unique : (g : ℕ) (ns us : List Node) → Unique ns → bumped g ns ≡ some us → Unique us
unfolding bumped
bumped-Unique g [] us h e = cc
bumped-Unique g (n ∷ ns) us h e = elim (Bool-cases (n.trigram == g)) [
  | inl same ↦
      let us_are : record n { count = n.count + 1 } ∷ ns ≡ us = cc (rw same at e) in
      subst Unique us_are h
  | inr other ↦ elim (Option-cases (bumped g ns)) [
    | inl absent ↦ cc (rw (other, absent) at e)
    | inr (u, found) ↦
        let us_are : n ∷ u ≡ us = cc (rw (other, found) at e) in
        subst Unique us_are
          (bumped-Absent g n.trigram ns u h.0 found, bumped-Unique g ns u h.1 found)
  ]
]

none-Absent : (g : ℕ) (ns : List Node) → bumped g ns ≡ none → Absent g ns
unfolding bumped
none-Absent g [] e = tt
none-Absent g (n ∷ ns) e = elim (Bool-cases (n.trigram == g)) [
  | inl same ↦ cc (rw same at e)
  | inr other ↦ elim (Option-cases (bumped g ns)) [
    | inl absent ↦ (λ k. ground arith, none-Absent g ns absent)
    | inr (u, found) ↦ cc (rw (other, found) at e)
  ]
]

count_gram-Unique : (g : ℕ) (ns : List Node) → Unique ns → Unique (count_gram g ns)
unfolding count_gram
count_gram-Unique g ns h = elim (Option-cases (bumped g ns)) [
  | inl absent ↦ rw (count_gram, absent) (none-Absent g ns absent, h)
  | inr (u, found) ↦ rw (count_gram, found) (bumped-Unique g ns u h found)
]

count_all-Unique : (gs : List ℕ) (ns : List Node) → Unique ns → Unique (count_all gs ns)
unfolding count_all
count_all-Unique [] ns h = h
count_all-Unique (g ∷ gs) ns h = count_all-Unique gs (count_gram g ns) (count_gram-Unique g ns h)

-- The node that `greatest` gives is one of the list, and none has a greater count.
record Greatest (b : Node) (ns : List Node) (m : Node) : Type 0 where
  start : b.count ≤ m.count
  all_le : All (λ n. n.count ≤ m.count) ns
  own :
      ((m.trigram ≡ b.trigram) × (m.count ≡ b.count))
      ⊎ (Unique ns → count_of m.trigram ns ≡ m.count)

Absent-count : (g : ℕ) (ns : List Node) → Absent g ns → count_of g ns ≡ 0
Absent-count g [] h = refl
Absent-count g (n ∷ ns) h = rw (==_ne n.trigram g h.0) (Absent-count g ns h.1)

own_cons :
    (m n : Node) (ns : List Node)
    → n.count ≤ m.count
    → (Unique ns → count_of m.trigram ns ≡ m.count)
    → Unique (n ∷ ns)
    → count_of m.trigram (n ∷ ns) ≡ m.count
own_cons m n ns h own u = elim (Bool-cases (n.trigram == m.trigram)) [
  | inl same ↦
      let none_behind : count_of m.trigram ns ≡ 0 =
        subst (λ g. count_of g ns ≡ 0) (==→eq n.trigram m.trigram same)
          (Absent-count n.trigram ns u.0) in
      let own' = own u.1 in rw same (omega arith)
  | inr other ↦ rw other (own u.1)
]

own_head :
    (m n : Node) (ns : List Node)
    → m.trigram ≡ n.trigram
    → m.count ≡ n.count
    → count_of m.trigram (n ∷ ns) ≡ m.count
own_head m n ns t c = ground arith

greatest-Greatest : (b : Node) (ns : List Node) → Greatest b ns (greatest b ns)
unfolding greatest
greatest-Greatest b [] = record { start = omega arith; all_le = tt; own = inl (refl, refl) }
greatest-Greatest b (n ∷ ns) = elim (Bool-cases (ltb b.count n.count)) [
  | inl more ↦
      let r = greatest-Greatest n ns in
      let ge = r.start in
      rw more (record {
        start = ground arith;
        all_le = (ge, r.all_le);
        own = inr (λ u. elim r.own [
          | inl (t, c) ↦ own_head (greatest n ns) n ns t c
          | inr own ↦ own_cons (greatest n ns) n ns ge own u
        ]);
      })
  | inr less ↦
      let r = greatest-Greatest b ns in
      let ge = r.start in
      let le : n.count ≤ (greatest b ns).count = ground arith in
      rw less (record {
        start = ge;
        all_le = (le, r.all_le);
        own = elim r.own [
          | inl same ↦ inl same
          | inr own ↦ inr (own_cons (greatest b ns) n ns le own)
        ];
      })
]

all-count_of : (g m : ℕ) (ns : List Node) → All (λ n. n.count ≤ m) ns → count_of g ns ≤ m
all-count_of g m [] h = omega arith
all-count_of g m (n ∷ ns) h = ground (arith, all-count_of g m ns h.1)

best_of-count :
    (ns : List Node)
    → Unique ns
    → (count_of (best_of ns).trigram ns ≡ (best_of ns).count)
      × ((g : ℕ) → count_of g ns ≤ (best_of ns).count)
unfolding best_of
best_of-count [] u = (refl, λ g. omega arith)
best_of-count (n ∷ ns) u =
    let r = greatest-Greatest n (n ∷ ns) in
    (
      elim r.own [ inl (t, c) ↦ own_head (greatest n (n ∷ ns)) n ns t c | inr own ↦ own u ],
      λ g. all-count_of g _ (n ∷ ns) r.all_le,
    )

-- The gram that bestgram returns stands at as many positions as it says, and no gram stands at more.
-- The positions are those before the last gram of the text.
pub bestgram-occurrences :
    (fdata : Bytes) (gramlen : ℕ)
    → let best = bestgram fdata gramlen in
      let grams = grams_at (length fdata - gramlen) gramlen fdata in
      (occurrences best.trigram grams ≡ best.count) × ((g : ℕ) → occurrences g grams ≤ best.count)
unfolding bestgram
bestgram-occurrences fdata gramlen =
    let grams = grams_at (length fdata - gramlen) gramlen fdata in
    let table = count_all grams [] in
    let counted : (g : ℕ) → count_of g table ≡ occurrences g grams =
      λ g. omega (arith, count_of-count_all g grams []) in
    let best = best_of-count table (count_all-Unique grams [] tt) in
    (sym (counted _) ∙ best.0, λ g. rw (sym (counted g)) (best.1 g))
