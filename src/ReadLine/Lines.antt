-- ===== src/ReadLine/Lines.antt =====
-- What `readfline` returns: bounds, and the lines of a file that was written line by line.
use gopherus.Base.{
  ℕ, suc, zero, ◌+◌, ◌≤◌, ◌<◌, ◌≡◌, ◌≢◌, refl, ap, ◌∙◌, Bool, List, [], ◌∷◌, ◌++◌, append-nil,
  append_assoc, arith, if◌then◌else◌, length, length-append, All, Bytes, Bool-cases, inl, inr,
}
use gopherus.ReadLine.{Line, strip_cr, finish, too_long, read_loop, readfline, read_all}

abbrev pub NotLf : ℕ → Type 0
NotLf c = c ≢ b'\n'

length-strip_cr : (b : Bytes) → length (strip_cr b) ≤ length b
unfolding strip_cr
length-strip_cr [] = omega arith
length-strip_cr (c ∷ []) = ground arith
length-strip_cr (c ∷ d ∷ cs) = omega (arith, length-strip_cr (d ∷ cs))

-- A result above 0 is the length of the text and its nul, and the buffer holds both.
abbrev pub Fits : ℕ → Line → Type 0
Fits blen r = 0 < r.result → (r.result ≡ length r.text + 1) × (r.result ≤ blen)

read_loop-Fits :
    (blen l : ℕ) (b file : Bytes) → l ≡ length b → l ≤ blen → Fits blen (read_loop blen l b file)
unfolding read_loop
read_loop-Fits blen l b [] e h = ground (arith, length-strip_cr b)
read_loop-Fits blen l b (c ∷ rest) e h = ground (
  arith,
  length-strip_cr b,
  length-append b (c ∷ []),
  read_loop-Fits blen (l + 1) (b ++ c ∷ []) rest,
)

-- Where the result is above 0 it is the length of the text plus 1, and it is at most `blen`: the
-- nul, too, is written within the buffer.
pub readfline-le :
    (blen : ℕ) (file : Bytes)
    → 0 < (readfline blen file).result
    → ((readfline blen file).result ≡ length (readfline blen file).text + 1)
      × ((readfline blen file).result ≤ blen)
unfolding readfline
readfline-le blen file = read_loop-Fits blen 0 [] file refl (omega arith)

read_loop-line :
    (blen l : ℕ) (b s rest : Bytes)
    → l ≡ length b
    → All NotLf s
    → length b + length s < blen
    → read_loop blen l b (s ++ b'\n' ∷ rest) ≡ finish (b ++ s) rest
unfolding read_loop
read_loop-line blen l b [] rest e a h = rw append-nil (ground arith)
read_loop-line blen l b (c ∷ s) rest e a h = ground (
  arith,
  append_assoc b (c ∷ []) s,
  length-append b (c ∷ []),
  read_loop-line blen (l + 1) (b ++ c ∷ []) s rest,
)

strip_cr-crlf : (s : Bytes) → strip_cr (s ++ b'\r' ∷ []) ≡ s
unfolding strip_cr
strip_cr-crlf [] = refl
strip_cr-crlf (c ∷ []) = refl
strip_cr-crlf (c ∷ d ∷ cs) = ap (c ∷◌) (strip_cr-crlf (d ∷ cs))

strip_cr-text : (s : Bytes) → All (λ c. c ≢ b'\r') s → strip_cr s ≡ s
unfolding strip_cr
strip_cr-text [] a = refl
strip_cr-text (c ∷ []) a = ground arith
strip_cr-text (c ∷ d ∷ cs) a = ap (c ∷◌) (strip_cr-text (d ∷ cs) a.1)

-- A line of a file, ended by CR LF or by LF alone.
pub record TextLine : Type 0 where
  pub crlf : Bool
  pub text : Bytes

abbrev pub stored : TextLine → Bytes
stored t = if t.crlf then t.text ++ b'\r' ∷ [] else t.text

abbrev pub file_of : List TextLine → Bytes
file_of [] = []
file_of (t ∷ ts) = stored t ++ (b'\n' ∷ file_of ts)

abbrev pub texts : List TextLine → List Bytes
texts [] = []
texts (t ∷ ts) = t.text ∷ texts ts

-- The line has no CR or LF of its own, and fits the buffer with its CR and a nul.
pub record Storable (blen : ℕ) (t : TextLine) : Type 0 where
  pub no_lf : All NotLf t.text
  pub no_cr : All (λ c. c ≢ b'\r') t.text
  pub fits : length t.text + 1 < blen

All-concat {ℓ κ} :
    {A : Type ℓ} (P : A → Type κ) (xs : List A) (c : A) → All P xs → P c → All P (xs ++ c ∷ [])
All-concat P [] c h p = (p, tt)
All-concat P (x ∷ xs) c h p = (h.0, All-concat P xs c h.1 p)

-- what is in the buffer before the CR is stripped
stored-line :
    (blen : ℕ) (t : TextLine) (rest : Bytes)
    → Storable blen t
    → readfline blen (stored t ++ (b'\n' ∷ rest)) ≡ finish (stored t) rest
unfolding readfline
stored-line blen t rest h = elim (Bool-cases t.crlf) [
  | inl cr ↦ rw cr (
      read_loop-line blen 0 [] (t.text ++ b'\r' ∷ []) rest refl
        (All-concat NotLf t.text b'\r' h.no_lf (λ e. omega arith))
        (omega (arith, h.fits, length-append t.text (b'\r' ∷ []))))
  | inr lf ↦ rw lf (read_loop-line blen 0 [] t.text rest refl h.no_lf (omega (arith, h.fits)))
]

strip_cr-stored : (blen : ℕ) (t : TextLine) → Storable blen t → strip_cr (stored t) ≡ t.text
strip_cr-stored blen t h = elim (Bool-cases t.crlf) [
  | inl cr ↦ rw cr (strip_cr-crlf t.text)
  | inr lf ↦ rw lf (strip_cr-text t.text h.no_cr)
]

-- Reading a line, of either ending, gives its text, its length with the nul, and the next lines.
pub readfline-line :
    (blen : ℕ) (t : TextLine) (rest : Bytes)
    → Storable blen t
    → readfline blen (stored t ++ (b'\n' ∷ rest))
      ≡ record { result = length t.text + 1; text = t.text; rest = rest }
readfline-line blen t rest h =
    stored-line blen t rest h ∙ (unfold finish in rw (strip_cr-stored blen t h))

-- At the end of a file.
pub readfline-end : (blen : ℕ) → readfline blen [] ≡ record { result = 0; text = []; rest = [] }
unfolding readfline read_loop too_long
readfline-end blen = ground arith

-- A loop over a file of lines that fit the buffer gets exactly the texts of the lines, in order,
-- whichever of CR LF and LF ends each, with fuel for one call more than there are lines.
read_all-file_of :
    (fuel blen : ℕ) (ts : List TextLine)
    → All (Storable blen) ts
    → length ts < fuel
    → 0 < blen
    → read_all fuel blen (file_of ts) ≡ texts ts
unfolding read_all
read_all-file_of zero blen ts a h p = absurd (omega arith)
read_all-file_of (suc fuel) blen [] a h p = unfold readfline read_loop too_long in ground arith
read_all-file_of (suc fuel) blen (t ∷ ts) a h p =
    ground (arith, readfline-line blen t (file_of ts) a.0, read_all-file_of fuel blen ts a.1)
