-- ===== src/Config/Pairs.antt =====
-- Lines of a token and a value.
use gopherus.Base.{
  take-prefix, ℕ, suc, ◌+◌, ◌≡◌, refl, ap, ◌∙◌, true, false, ◌||◌, [], ◌∷◌, ◌++◌, append_assoc,
  append-nil, arith, ◌==◌, Bytes, Option, none, some, length, All,
}
use gopherus.Config.{
  is_blank, last_char, cut_at, rtrim, skip_blanks, token, after_blank, after_token, from_token,
  cfg_tokvaldelim,
}

abbrev pub Blank : ℕ → Type 0
Blank c = is_blank c ≡ true

abbrev pub Solid : ℕ → Type 0
Solid c = is_blank c ≡ false

abbrev pub Word : ℕ → Type 0
Word c = (is_blank c || c == b'=') ≡ false

skip_blanks-append : (b s : Bytes) → All Blank b → skip_blanks (b ++ s) ≡ skip_blanks s
unfolding skip_blanks
skip_blanks-append [] s h = refl
skip_blanks-append (c ∷ b) s h = rw h.0 (skip_blanks-append b s h.1)

skip_blanks-Solid : (c : ℕ) (s : Bytes) → Solid c → skip_blanks (c ∷ s) ≡ c ∷ s
unfolding skip_blanks
skip_blanks-Solid c s h = rw h refl

skip_blanks-All : (b : Bytes) → All Blank b → skip_blanks b ≡ []
unfolding skip_blanks
skip_blanks-All [] h = refl
skip_blanks-All (c ∷ b) h = rw h.0 (skip_blanks-All b h.1)

last_char-blanks : (b : Bytes) (i : ℕ) (f : Option ℕ) → All Blank b → last_char b i f ≡ f
unfolding last_char
last_char-blanks [] i f h = refl
last_char-blanks (c ∷ b) i f h = rw h.0 (last_char-blanks b (suc i) f h.1)

last_char-step :
    (c : ℕ) (s : Bytes) (i : ℕ) (f : Option ℕ)
    → Solid c
    → last_char (c ∷ s) i f ≡ last_char s (suc i) (some (suc i))
unfolding last_char
last_char-step c s i f h = rw h refl

last_char-Solid :
    (c : ℕ) (s b : Bytes) (i : ℕ) (f : Option ℕ)
    → All Solid (c ∷ s)
    → All Blank b
    → last_char ((c ∷ s) ++ b) i f ≡ some (i + length (c ∷ s))
last_char-Solid c [] b i f h k =
    let e : suc i ≡ i + 1 = omega arith in
    last_char-step c b i f h.0 ∙ last_char-blanks b (suc i) (some (suc i)) k ∙ ap some e
last_char-Solid c (d ∷ s) b i f h k =
    let e : suc i + suc (length s) ≡ i + suc (suc (length s)) = omega arith in
    last_char-step c (d ∷ (s ++ b)) i f h.0
    ∙ last_char-Solid d s b (suc i) (some (suc i)) h.1 k
    ∙ ap some e

-- a value of solid bytes, between blanks
value_lem :
    (left val right : Bytes)
    → All Blank left
    → All Solid val
    → All Blank right
    → rtrim (skip_blanks (left ++ (val ++ right))) ≡ val
unfolding rtrim
value_lem left [] right a v b =
    rw (skip_blanks-append left right a, skip_blanks-All right b) (unfold last_char cut_at in refl)
value_lem left (c ∷ s) right a v b =
    let e : 0 + suc (length s) ≡ suc (length s) = omega arith in
    ap (λ x. cut_at x (last_char x 0 none))
      (skip_blanks-append left (c ∷ (s ++ right)) a ∙ skip_blanks-Solid c (s ++ right) v.0)
    ∙ ap (cut_at (c ∷ (s ++ right))) (last_char-Solid c s right 0 none v b ∙ ap some e)
    ∙ (unfold cut_at in take-prefix (c ∷ s) right)

token-Word :
    (tok w : Bytes) (c : ℕ) (s : Bytes)
    → All Word w
    → (is_blank c || c == b'=') ≡ true
    → token tok (w ++ c ∷ s) ≡ (tok ++ w, c ∷ s)
unfolding token
token-Word tok [] c s h k = rw (k, append-nil tok) refl
token-Word tok (x ∷ w) c s h k =
    rw h.0 (token-Word (tok ++ x ∷ []) w c s h.1 k ∙ rw (append_assoc tok (x ∷ []) w) refl)

from_token-Word :
    (w : Bytes) (x c : ℕ) (s : Bytes)
    → All Word (x ∷ w)
    → (is_blank c || c == b'=') ≡ true
    → from_token (x ∷ (w ++ c ∷ s)) ≡ after_token (x ∷ w) (c ∷ s)
from_token-Word w x c s h k =
    unfold from_token in (ap (λ t. after_token t.0 t.1) (token-Word [] (x ∷ w) c s h k))

Word-Solid : (c : ℕ) → Word c → Solid c
Word-Solid c h = ground (arith, h)

Blank-ends : (c : ℕ) → Blank c → (is_blank c || c == b'=') ≡ true
Blank-ends c h = rw h refl

cfg_lem : (line : Bytes) → cfg_tokvaldelim line ≡ from_token (skip_blanks line)
unfolding cfg_tokvaldelim
cfg_lem line = refl

after_token-eq : (tok s : Bytes) → after_token tok (b'=' ∷ s) ≡ some (tok, rtrim (skip_blanks s))
unfolding after_token
after_token-eq tok s = refl

after_blank-eq : (tok s : Bytes) → after_blank tok (b'=' ∷ s) ≡ some (tok, rtrim (skip_blanks s))
unfolding after_blank
after_blank-eq tok s = refl

after_token-Blank :
    (tok : Bytes) (c : ℕ) (s : Bytes)
    → Blank c
    → after_token tok (c ∷ s) ≡ after_blank tok (skip_blanks s)
unfolding after_token
after_token-Blank tok c s h = let other : (c == b'=') ≡ false = ground (arith, h) in rw other refl

-- A line of a token, '=' and a value, with blanks before the token and around '=' and the value, gives
-- the token and the value. The token is not empty and holds no blank and no '=', the value holds no
-- blank.
pub cfg_tokvaldelim-line :
    (b₀ : Bytes) (x : ℕ) (w b₁ b₂ val b₃ : Bytes)
    → All Blank b₀
    → All Word (x ∷ w)
    → All Blank b₁
    → All Blank b₂
    → All Solid val
    → All Blank b₃
    → cfg_tokvaldelim (b₀ ++ (x ∷ (w ++ (b₁ ++ b'=' ∷ (b₂ ++ (val ++ b₃)))))) ≡ some (x ∷ w, val)
cfg_tokvaldelim-line b₀ x w [] b₂ val b₃ h₀ hw h₁ h₂ hv h₃ =
    cfg_lem _
    ∙ ap from_token (skip_blanks-append b₀ _ h₀ ∙ skip_blanks-Solid x _ (Word-Solid x hw.0))
    ∙ from_token-Word w x b'=' (b₂ ++ (val ++ b₃)) hw refl
    ∙ after_token-eq (x ∷ w) (b₂ ++ (val ++ b₃))
    ∙ ap (λ v. some (x ∷ w, v)) (value_lem b₂ val b₃ h₂ hv h₃)
cfg_tokvaldelim-line b₀ x w (c ∷ b₁) b₂ val b₃ h₀ hw h₁ h₂ hv h₃ =
    cfg_lem _
    ∙ ap from_token (skip_blanks-append b₀ _ h₀ ∙ skip_blanks-Solid x _ (Word-Solid x hw.0))
    ∙ from_token-Word w x c (b₁ ++ b'=' ∷ (b₂ ++ (val ++ b₃))) hw (Blank-ends c h₁.0)
    ∙ after_token-Blank (x ∷ w) c (b₁ ++ b'=' ∷ (b₂ ++ (val ++ b₃))) h₁.0
    ∙ ap (after_blank (x ∷ w)) (
        skip_blanks-append b₁ (b'=' ∷ (b₂ ++ (val ++ b₃))) h₁.1
        ∙ skip_blanks-Solid b'=' (b₂ ++ (val ++ b₃)) refl)
    ∙ after_blank-eq (x ∷ w) (b₂ ++ (val ++ b₃))
    ∙ ap (λ v. some (x ∷ w, v)) (value_lem b₂ val b₃ h₂ hv h₃)
