-- ===== src/FileName/Harmless.antt =====
-- genfnamefromselector: what it writes into the buffer is a harmless name.
use gopherus.Base.{
  ◌≢◌, ℕ, suc, ◌+◌, ◌-◌, ◌≤◌, ◌<◌, ◌≡◌, refl, ap, subst, inl, inr, true, false, [], ◌∷◌, ◌++◌, ltb,
  ◌==◌, Bytes, none, some, length, length-append, length-take, take, drop, map, All, arith,
  Bool-cases, Option-cases,
}
use gopherus.FileName.{
  Found, scan, lengths, fitted, is_safe, underscored, extension, fill, genfnamefromselector,
}

abbrev pub Safe : ℕ → Type 0
Safe c = is_safe c ≡ true

underscored-Safe : (c : ℕ) → Safe (underscored c)
unfolding underscored is_safe
underscored-Safe c = elim (Bool-cases (is_safe c)) [
  | inl safe ↦ rw safe safe
  | inr shady ↦ rw shady refl
]

length-underscored : (s : Bytes) → length (map underscored s) ≡ length s
length-underscored [] = refl
length-underscored (c ∷ s) = ap suc (length-underscored s)

map-Safe : (s : Bytes) → All Safe (map underscored s)
map-Safe [] = tt
map-Safe (c ∷ s) = (underscored-Safe c, map-Safe s)

-- A byte that no file system takes for anything but a part of a name.
pub record Harmless (c : ℕ) : Type 0 where
  pub above : 32 < c
  pub below : c < 127
  pub slash : c ≢ b'/'
  pub backslash : c ≢ 92
  pub colon : c ≢ b':'
  pub star : c ≢ b'*'
  pub question : c ≢ b'?'
  pub quote : c ≢ 34
  pub pipe : c ≢ b'|'
  pub less : c ≢ b'<'
  pub more : c ≢ b'>'

Safe-ne : (c x : ℕ) → Safe c → is_safe x ≡ false → c ≢ x
Safe-ne c x h k e = cc (ap is_safe e)

Safe-Harmless : (c : ℕ) → Safe c → Harmless c
unfolding is_safe
Safe-Harmless c h = record {
  above = ground arith;
  below = ground arith;
  slash = Safe-ne c b'/' h refl;
  backslash = Safe-ne c 92 h refl;
  colon = Safe-ne c b':' h refl;
  star = Safe-ne c b'*' h refl;
  question = Safe-ne c b'?' h refl;
  quote = Safe-ne c 34 h refl;
  pipe = Safe-ne c b'|' h refl;
  less = Safe-ne c b'<' h refl;
  more = Safe-ne c b'>' h refl;
}

All-Harmless : (s : Bytes) → All Safe s → All Harmless s
All-Harmless [] h = tt
All-Harmless (c ∷ s) h = (Safe-Harmless c h.0, All-Harmless s h.1)

-- A harmless name with room for a nul in `maxlen` bytes.
pub record IsName (maxlen : ℕ) (name : Bytes) : Type 0 where
  pub fits : length name < maxlen
  pub safe : All Harmless name

extension-le : (f : Found) (n : ℕ) → length (extension f n) ≤ n
unfolding extension
extension-le f n = elim (Option-cases f.lastdot) [
  | inl e ↦ rw e (omega arith)
  | inr (d, e) ↦ rw e (omega (arith, length-take n (drop d f.selector)))
]

fill-IsName :
    (maxlen : ℕ) (f : Found) (flen extlen : ℕ) (name : Bytes)
    → 0 < maxlen
    → fill (maxlen - 1) f flen extlen ≡ some name
    → IsName maxlen name
unfolding fill
fill-IsName maxlen f flen extlen name h e = elim (Bool-cases (flen == 0)) [
  | inl empty ↦
      let same : [] ≡ name = cc (rw empty at e) in
      subst (IsName maxlen) same (record { fits = h; safe = tt })
  | inr filled ↦ elim (Bool-cases (ltb (maxlen - 1) (flen + extlen))) [
    | inl over ↦ cc (rw (filled, over) at e)
    | inr room ↦
        let s = take flen f.selector ++ extension f extlen in
        let same : map underscored s ≡ name = cc (rw (filled, room) at e) in
        let long : length s ≤ flen + extlen = omega (
          arith,
          length-append (take flen f.selector) (extension f extlen),
          length-take flen f.selector,
          extension-le f extlen,
        ) in
        let bound : flen + extlen ≤ maxlen - 1 = ground arith in
        subst (IsName maxlen) same (record {
          fits = omega (arith, length-underscored s, long);
          safe = All-Harmless _ (map-Safe s);
        })
  ]
]

-- What is offered for a download fits its buffer with a nul behind it, and holds harmless bytes only.
pub genfnamefromselector-IsName :
    (maxlen : ℕ) (selector name : Bytes)
    → 0 < maxlen
    → genfnamefromselector maxlen selector ≡ some name
    → IsName maxlen name
unfolding genfnamefromselector
genfnamefromselector-IsName maxlen selector name h e =
    elim (Option-cases (scan selector 0 none selector)) [
      | inl bad ↦ cc (rw (bad, genfnamefromselector) at e)
      | inr (f, found) ↦
          let l = lengths f in
          fill-IsName maxlen f (fitted (maxlen - 1) l.0 l.1) l.1 name h
            (rw (found, genfnamefromselector) at e)
    ]
