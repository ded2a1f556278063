-- ===== src/Embedded/Grams.antt =====
-- Packing and unpacking of the embedded pages.
use gopherus.Base.{
  ℕ, suc, ◌+◌, ◌*◌, ◌%◌, ◌≤◌, ◌<◌, ◌≡◌, refl, ap, ◌∙◌, true, false, ◌&&◌, [], ◌∷◌, arith, ltb, leb,
  ◌==◌, Bytes, Option, none, some, length, get_or, All, Bool-cases, inl, inr,
}
use gopherus.Embedded.{gramlookup, packed, processfile, unpack_from, idoc_unpack}

-- Gram `j` of the dictionary is `a b c d`.
pub record IsGram (dict : Bytes) (j a b c d : ℕ) : Type 0 where
  pub within : 4 * j + 3 < length dict
  pub first : get_or dict (4 * j) 0 ≡ a
  pub second : get_or dict (4 * j + 1) 0 ≡ b
  pub third : get_or dict (4 * j + 2) 0 ≡ c
  pub fourth : get_or dict (4 * j + 3) 0 ≡ d

IsGram-later :
    (p q r s : ℕ) (dict : Bytes) (j a b c d : ℕ)
    → IsGram dict j a b c d
    → IsGram (p ∷ q ∷ r ∷ s ∷ dict) (suc j) a b c d
IsGram-later p q r s dict j a b c d h =
    let e : (k : ℕ) → 4 * suc j + k ≡ suc (suc (suc (suc (4 * j + k)))) = λ k. omega arith in
    let z : 4 * suc j ≡ suc (suc (suc (suc (4 * j)))) = omega arith in
    record {
      within = omega (arith, h.within);
      first = rw z h.first;
      second = rw (e 1) h.second;
      third = rw (e 2) h.third;
      fourth = rw (e 3) h.fourth;
    }

gramlookup-found :
    (dict : Bytes) (i a b c d g : ℕ)
    → gramlookup dict i a b c d ≡ some g
    → (j : ℕ) × (g ≡ 128 + i + j) × IsGram dict j a b c d
unfolding gramlookup
gramlookup-found (p ∷ q ∷ r ∷ s ∷ dict) i a b c d g h =
    elim (Bool-cases (p == a && q == b && r == c && s == d)) [
      | inl same ↦ (
        0,
        ground (arith, rw same at h),
        record {
          within = omega arith;
          first = ground (arith, same);
          second = ground (arith, same);
          third = ground (arith, same);
          fourth = ground (arith, same);
        },
      )
      | inr other ↦
          let (j, e, f) = gramlookup-found dict (suc i) a b c d g (rw other at h) in
          (suc j, omega (arith, e), IsGram-later p q r s dict j a b c d f)
    ]
gramlookup-found _ i a b c d g h = cc

unpack-byte :
    (dict : Bytes) (bufsz y a : ℕ) (idoc : Bytes)
    → a < 128
    → y + 2 < bufsz
    → unpack_from dict bufsz y (a ∷ idoc) ≡ a ∷ unpack_from dict bufsz (y + 1) idoc
unfolding unpack_from
unpack-byte dict bufsz y a idoc h k =
    let low : ltb a 128 ≡ true = ground arith in
    let room : leb bufsz (y + 1 + 1) ≡ false = ground arith in rw (low, room) refl

unpack-gram :
    (dict : Bytes) (bufsz y g j a b c d : ℕ) (idoc : Bytes)
    → g ≡ 128 + j
    → j < 128
    → IsGram dict j a b c d
    → y + 5 < bufsz
    → unpack_from dict bufsz y (g ∷ idoc) ≡ a ∷ b ∷ c ∷ d ∷ unpack_from dict bufsz (y + 4) idoc
unfolding unpack_from
unpack-gram dict bufsz y g j a b c d idoc e l h k =
    let high : ltb g 128 ≡ false = ground arith in
    let room : leb bufsz (y + 5) ≡ false = ground arith in
    let index : g % 128 ≡ j = omega arith in
    let zeroth : 4 * j + 0 ≡ 4 * j = omega arith in
    rw (high, room, index, zeroth, h.first, h.second, h.third, h.fourth) refl

packed-unpacked :
    (dict : Bytes) (bufsz y a b c d : ℕ) (code : Option ℕ) (idoc_gram idoc_byte rest : Bytes)
    → gramlookup dict 0 a b c d ≡ code
    → length dict ≤ 512
    → a < 128
    → y + 5 < bufsz
    → unpack_from dict bufsz (y + 4) idoc_gram ≡ rest
    → unpack_from dict bufsz (y + 1) idoc_byte ≡ b ∷ c ∷ d ∷ rest
    → unpack_from dict bufsz y (packed code a idoc_gram idoc_byte) ≡ a ∷ b ∷ c ∷ d ∷ rest
packed-unpacked dict bufsz y a b c d none ig ib rest e l h k u v =
    unpack-byte dict bufsz y a ib h (omega arith) ∙ ap (a ∷◌) v
packed-unpacked dict bufsz y a b c d (some g) ig ib rest e l h k u v =
    let (j, code, here) = gramlookup-found dict 0 a b c d g e in
    unpack-gram dict bufsz y g j a b c d ig (omega (arith, code)) (omega (arith, here.within)) here
      k
    ∙ ap (λ t. a ∷ b ∷ c ∷ d ∷ t) u

abbrev pub Ascii : ℕ → Type 0
Ascii c = c < 128

unpack_from-processfile :
    (dict : Bytes) (bufsz y : ℕ) (fdata : Bytes)
    → All Ascii fdata
    → length dict ≤ 512
    → y + length fdata + 5 < bufsz
    → unpack_from dict bufsz y (processfile dict fdata) ≡ fdata
unfolding processfile
unpack_from-processfile dict bufsz y [] a l h = unfold unpack_from in refl
unpack_from-processfile dict bufsz y (a ∷ []) h l k =
    unpack-byte dict bufsz y a _ h.0 (omega arith)
    ∙ ap (a ∷◌) (unpack_from-processfile dict bufsz (y + 1) [] tt l (omega arith))
unpack_from-processfile dict bufsz y (a ∷ b ∷ []) h l k =
    unpack-byte dict bufsz y a _ h.0 (omega arith)
    ∙ ap (a ∷◌) (unpack_from-processfile dict bufsz (y + 1) (b ∷ []) h.1 l (omega arith))
unpack_from-processfile dict bufsz y (a ∷ b ∷ c ∷ []) h l k =
    unpack-byte dict bufsz y a _ h.0 (omega arith)
    ∙ ap (a ∷◌) (unpack_from-processfile dict bufsz (y + 1) (b ∷ c ∷ []) h.1 l (omega arith))
unpack_from-processfile dict bufsz y (a ∷ b ∷ c ∷ d ∷ rest) h l k =
    packed-unpacked dict bufsz y a b c d (gramlookup dict 0 a b c d) _ _ rest refl l h.0
      (omega arith) (unpack_from-processfile dict bufsz (y + 4) rest h.1.1.1.1 l (omega arith))
      (unpack_from-processfile dict bufsz (y + 1) (b ∷ c ∷ d ∷ rest) h.1 l (omega arith))

-- A page of 7-bit ASCII that was packed with a dictionary of at most 128 grams is unpacked to itself,
-- in a buffer that has 6 bytes more than the page.
pub idoc_unpack-processfile :
    (dict : Bytes) (bufsz : ℕ) (fdata : Bytes)
    → All Ascii fdata
    → length dict ≤ 512
    → length fdata + 5 < bufsz
    → idoc_unpack dict bufsz (processfile dict fdata) ≡ fdata
unfolding idoc_unpack
idoc_unpack-processfile dict bufsz fdata a l h =
    unpack_from-processfile dict bufsz 0 fdata a l (omega arith)

unpack_from-lt :
    (dict : Bytes) (bufsz y : ℕ) (idoc : Bytes)
    → y + 1 < bufsz
    → y + length (unpack_from dict bufsz y idoc) < bufsz
unfolding unpack_from
unpack_from-lt dict bufsz y [] h = omega arith
unpack_from-lt dict bufsz y (code ∷ idoc) h =
    ground (arith, unpack_from-lt dict bufsz (y + 1) idoc, unpack_from-lt dict bufsz (y + 4) idoc)

-- Whatever is unpacked, the text and its nul fit a buffer of at least two bytes.
pub idoc_unpack-lt :
    (dict : Bytes) (bufsz : ℕ) (idoc : Bytes)
    → 1 < bufsz
    → length (idoc_unpack dict bufsz idoc) < bufsz
unfolding idoc_unpack
idoc_unpack-lt dict bufsz idoc h = omega (arith, unpack_from-lt dict bufsz 0 idoc h)
