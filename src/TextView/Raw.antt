-- ===== src/TextView/Raw.antt =====
-- gopherus.c, display_text: a text that is no HTML, as it is put into the buffer of the screen. The
-- bytes of the cache are signed, so those from 128 on are below 0; here they are 0 to 255.
use gopherus.Base.{
  ℕ, suc, zero, ◌+◌, ◌-◌, ◌≤◌, ◌<◌, ◌≡◌, ◌≢◌, refl, ap, ◌∙◌, inl, inr, ◌⊎◌, false, ◌||◌, [], ◌∷◌,
  ◌++◌, ltb, ◌==◌, if◌then◌else◌, Bytes, Option, none, some, length, length-append, All, All-append,
  take, replicate, get_or, arith, Bool-cases, take-prefix, length-take, ==→eq,
}

-- What one byte of the text becomes.
raw_char : ℕ → Bytes
raw_char c =
    if c == 8
    then replicate 8 b' '
    else if c == b'\n'
    then b'\n' ∷ []
    else if c == b'\r' || c == 127
    then []
    else if ltb c 32
    then []
    else c ∷ []

-- The loop, with `bufferlen` bytes in a buffer of `buffersize`: the bytes that follow them.
unfoldable pub raw_loop : ℕ → ℕ → Bytes → Bytes
unfolding raw_char
raw_loop buffersize bufferlen [] = []
raw_loop buffersize bufferlen (c ∷ cs) =
    let more = raw_loop buffersize (bufferlen + length (raw_char c)) cs in
    if ltb buffersize (bufferlen + 10) then [] else raw_char c ++ more

-- Without a dot and a LF at the end; none where the code reads a byte before the buffer.
without_dot : Bytes → Option Bytes
without_dot buffer =
    let n = length buffer in
    if n == 0
    then none
    else if get_or buffer (n - 1) 0 == b'\n'
    then if n == 1
      then none
      else if get_or buffer (n - 2) 0 == b'.'
      then some (take (n - 2) buffer)
      else some buffer
    else some buffer

-- The bytes before the nul.
unfoldable pub raw_text : ℕ → Bytes → Option Bytes
unfolding raw_loop without_dot
raw_text buffersize cache = without_dot (raw_loop buffersize 0 cache)

-- A byte that the screen gets as it is.
abbrev pub Shown : ℕ → Type 0
Shown c = (c ≡ b'\n') ⊎ ((32 ≤ c) × (c ≢ 127))

raw_char-Shown : (c : ℕ) → All Shown (raw_char c)
unfolding raw_char
raw_char-Shown c = ground arith

raw_char_plain : (c : ℕ) → Shown c → raw_char c ≡ c ∷ []
unfolding raw_char
raw_char_plain c h = ground arith

length-raw_char : (c : ℕ) → length (raw_char c) ≤ 8
unfolding raw_char
length-raw_char c = ground arith

raw_loop-Shown : (size n : ℕ) (cs : Bytes) → All Shown (raw_loop size n cs)
unfolding raw_loop
raw_loop-Shown size n [] = tt
raw_loop-Shown size n (c ∷ cs) = elim (Bool-cases (ltb size (n + 10))) [
  | inl full ↦ rw full tt
  | inr room ↦ rw room (
      All-append Shown (raw_char c) _ (raw_char-Shown c)
        (raw_loop-Shown size (n + length (raw_char c)) cs))
]

-- There is room for the nul.
raw_loop-lt : (size n : ℕ) (cs : Bytes) → n < size → n + length (raw_loop size n cs) < size
unfolding raw_loop
raw_loop-lt size n [] h = omega arith
raw_loop-lt size n (c ∷ cs) h = elim (Bool-cases (ltb size (n + 10))) [
  | inl full ↦ rw full (omega arith)
  | inr room ↦
      let more = raw_loop size (n + length (raw_char c)) cs in
      let few = length-raw_char c in
      let rest = raw_loop-lt size (n + length (raw_char c)) cs (ground arith) in
      rw room (omega (arith, length-append (raw_char c) more, rest))
]

raw_loop_plain :
    (size n : ℕ) (cs : Bytes) → All Shown cs → n + length cs + 9 ≤ size → raw_loop size n cs ≡ cs
unfolding raw_loop
raw_loop_plain size n [] h k = refl
raw_loop_plain size n (c ∷ cs) h k =
    let room : ltb size (n + 10) ≡ false = ground arith in
    rw (room, raw_char_plain c h.0) (ap (c ∷◌) (raw_loop_plain size (n + 1) cs h.1 (omega arith)))

get_or-end :
    (text : Bytes) (a b d : ℕ)
    → (get_or (text ++ a ∷ b ∷ []) (length text) d ≡ a)
      × (get_or (text ++ a ∷ b ∷ []) (length text + 1) d ≡ b)
get_or-end [] a b d = (refl, refl)
get_or-end (c ∷ cs) a b d =
    let e : suc (length cs) + 1 ≡ suc (length cs + 1) = omega arith in
    let more = get_or-end cs a b d in
    (more.0, ap (λ i. get_or (c ∷ (cs ++ a ∷ b ∷ [])) i d) e ∙ more.1)

without_dot-marker : (text : Bytes) → without_dot (text ++ b'.' ∷ b'\n' ∷ []) ≡ some text
unfolding without_dot
without_dot-marker text =
    let n : length (text ++ b'.' ∷ b'\n' ∷ []) ≡ suc (suc (length text)) =
      length-append text (b'.' ∷ b'\n' ∷ []) ∙ omega arith in
    let one : suc (suc (length text)) - 1 ≡ length text + 1 = omega arith in
    let two : suc (suc (length text)) - 2 ≡ length text = omega arith in
    let (dot, lf) = get_or-end text b'.' b'\n' 0 in
    rw (n, one, two, lf, dot, take-prefix text (b'.' ∷ b'\n' ∷ [])) (ground arith)

-- What the buffer holds where a byte before it is read: nothing, or an end of line.
abbrev pub Blank : Bytes → Type 0
Blank text = (text ≡ []) ⊎ (text ≡ b'\n' ∷ [])

-- A text for the screen, with room for the nul.
pub record Fits (size : ℕ) (text : Bytes) : Type 0 where
  pub plain : All Shown text
  pub room : length text < size

one_lf : (b : Bytes) → length b ≡ 1 → get_or b (length b - 1) 0 ≡ b'\n' → b ≡ b'\n' ∷ []
one_lf [] h k = cc
one_lf (c ∷ []) h k = ap (λ x. x ∷ []) k
one_lf (c ∷ d ∷ cs) h k = absurd (omega arith)

All-take : (P : ℕ → Type 0) (n : ℕ) (xs : Bytes) → All P xs → All P (take n xs)
All-take P zero xs h = tt
All-take P (suc n) [] h = tt
All-take P (suc n) (x ∷ xs) h = (h.0, All-take P n xs h.1)

-- A text that is empty or a single end of line makes the code read before the buffer, and only such.
pub data Outcome (size : ℕ) (buffer : Bytes) (result : Option Bytes) : Type 0 where
  outside : Blank buffer → result ≡ none → Outcome size buffer result
  inside :
      (text : Bytes)
      → ¬ Blank buffer
      → result ≡ some text
      → Fits size text
      → Outcome size buffer result

no_lf : (c : ℕ) (cs : Bytes) → get_or (c ∷ cs) (length (c ∷ cs) - 1) 0 ≢ b'\n' → ¬ Blank (c ∷ cs)
no_lf c cs h (inl e) = cc
no_lf c cs h (inr e) = h (ap (λ b. get_or b (length b - 1) 0) e)

longer : (c : ℕ) (cs : Bytes) → length (c ∷ cs) ≢ 1 → ¬ Blank (c ∷ cs)
longer c cs h (inl e) = cc
longer c cs h (inr e) = h (ap length e)

==_false→ne : (a b : ℕ) → (a == b) ≡ false → a ≢ b
==_false→ne a b h e = ground arith

without_dot-Outcome : (size : ℕ) (b : Bytes) → Fits size b → Outcome size b (without_dot b)
unfolding without_dot
without_dot-Outcome size [] h = outside (inl refl) refl
without_dot-Outcome size (c ∷ cs) h =
    let b = c ∷ cs in
    let n = length b in
    let filled : (n == 0) ≡ false = ground arith in
    rw filled (elim (Bool-cases (get_or b (n - 1) 0 == b'\n')) [
      | inr other ↦
          rw other (inside b (no_lf c cs (==_false→ne (get_or b (n - 1) 0) b'\n' other)) refl h)
      | inl lf ↦ rw lf (elim (Bool-cases (n == 1)) [
        | inl one ↦
            rw one
              (outside (inr (one_lf b (ground arith) (==→eq (get_or b (n - 1) 0) b'\n' lf))) refl)
        | inr more ↦
            let long = longer c cs (==_false→ne n 1 more) in
            rw more (elim (Bool-cases (get_or b (n - 2) 0 == b'.')) [
              | inr other ↦ rw other (inside b long refl h)
              | inl dot ↦ rw dot (
                  inside (take (n - 2) b) long refl (record {
                    plain = All-take Shown (n - 2) b h.plain;
                    room = omega (arith, length-take (n - 2) b, h.room);
                  }))
            ])
      ])
    ])

-- Every text, in a buffer of at least 1 byte. Unless it leaves nothing, or a single end of line, in the
-- buffer, the screen gets bytes that are printable or ends of lines, and they fit with a nul behind
-- them. Where it leaves no more, and only there, a byte before the buffer is read.
pub raw_text-Outcome :
    (size : ℕ) (cache : Bytes)
    → 0 < size
    → Outcome size (raw_loop size 0 cache) (raw_text size cache)
unfolding raw_text
raw_text-Outcome size cache h = without_dot-Outcome size (raw_loop size 0 cache) (record {
  plain = raw_loop-Shown size 0 cache;
  room = omega (arith, raw_loop-lt size 0 cache h);
})

-- A text of printable bytes and ends of lines that ends in a dot and an end of line is shown without
-- these two and otherwise as it is, whatever stands before the dot, in a buffer with 11 bytes more
-- than the rest of the text.
pub raw_text-marker :
    (size : ℕ) (text : Bytes)
    → All Shown text
    → length text + 11 ≤ size
    → raw_text size (text ++ b'.' ∷ b'\n' ∷ []) ≡ some text
unfolding raw_text
raw_text-marker size text h k =
    let marker = b'.' ∷ b'\n' ∷ [] in
    let same =
      raw_loop_plain size 0 (text ++ marker)
        (All-append Shown text marker h (inr (omega arith, omega arith), (inl refl, tt)))
        (omega (arith, length-append text marker)) in
    rw same (without_dot-marker text)
