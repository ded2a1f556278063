-- ===== src/Load/Headers.antt =====
-- The search for the end of HTTP headers.
use gopherus.Base.{
  ℕ, ◌≤◌, ◌<◌, ◌≡◌, ◌≢◌, refl, ◌∙◌, subst, false, List, [], ◌∷◌, ◌++◌, arith, length, length-append,
  ltb, leb, ◌-◌, All, Bytes, some, ==_ne,
}
use gopherus.Load.{find_body, bytes, Header, body, http_skip_headers}

abbrev pub Plain : ℕ → Type 0
Plain c = (c ≢ b'\n') × (c ≢ b'\r')

-- A header: at least one byte, and no line end of its own.
pub record HeaderLine (h : Bytes) : Type 0 where
  pub first : ℕ
  pub others : Bytes
  pub whole : h ≡ first ∷ others
  pub plain : All Plain h

-- Headers, each ended by CR LF, and the blank line.
abbrev pub response : List Bytes → Bytes → Bytes
response [] tail = b'\r' ∷ b'\n' ∷ tail
response (h ∷ hs) tail = h ++ b'\r' ∷ b'\n' ∷ response hs tail

find_body-Plain :
    (h : Bytes) (a b : ℕ) (rest : Bytes)
    → All Plain h
    → find_body (h ++ (a ∷ b ∷ rest)) ≡ find_body (a ∷ b ∷ rest)
unfolding find_body
find_body-Plain [] a b rest p = refl
find_body-Plain (c ∷ []) a b rest p = rw (==_ne c b'\n' p.0.0) refl
find_body-Plain (c ∷ d ∷ []) a b rest p =
    rw (==_ne c b'\n' p.0.0) (find_body-Plain (d ∷ []) a b rest p.1)
find_body-Plain (c ∷ d ∷ e ∷ h) a b rest p =
    rw (==_ne c b'\n' p.0.0) (find_body-Plain (d ∷ e ∷ h) a b rest p.1)

find_body-skip :
    (a b c : ℕ) (rest : Bytes) → a ≢ b'\n' → find_body (a ∷ b ∷ c ∷ rest) ≡ find_body (b ∷ c ∷ rest)
unfolding find_body
find_body-skip a b c rest n = rw (==_ne a b'\n' n) refl

find_body-next :
    (b c : ℕ) (rest : Bytes) → Plain b → find_body (b'\n' ∷ b ∷ c ∷ rest) ≡ find_body (b ∷ c ∷ rest)
unfolding find_body
find_body-next b c rest p = rw (==_ne b b'\r' p.1, ==_ne b b'\n' p.0) refl

response-starts :
    (hs : List Bytes) (tail : Bytes)
    → All HeaderLine hs
    → (c : ℕ) × (rest : Bytes) × (response hs tail ≡ c ∷ rest)
response-starts [] tail a = (b'\r', b'\n' ∷ tail, refl)
response-starts (h ∷ hs) tail a =
    (a.0.first, a.0.others ++ b'\r' ∷ b'\n' ∷ response hs tail, rw a.0.whole refl)

-- from a header's LF
find_body-header :
    (first : ℕ) (others : Bytes) (rest : Bytes)
    → All Plain (first ∷ others)
    → find_body (b'\n' ∷ ((first ∷ others) ++ b'\r' ∷ b'\n' ∷ rest))
      ≡ find_body (b'\r' ∷ b'\n' ∷ rest)
find_body-header first [] rest p =
    find_body-next first b'\r' (b'\n' ∷ rest) p.0 ∙ find_body-Plain (first ∷ []) b'\r' b'\n' rest p
find_body-header first (o ∷ os) rest p =
    find_body-next first o (os ++ b'\r' ∷ b'\n' ∷ rest) p.0
    ∙ find_body-Plain (first ∷ o ∷ os) b'\r' b'\n' rest p

find_body-after :
    (hs : List Bytes) (tail : Bytes)
    → All HeaderLine hs
    → find_body (b'\r' ∷ b'\n' ∷ response hs tail) ≡ find_body (b'\n' ∷ response hs tail)
find_body-after hs tail a =
    let (c, rest, e) = response-starts hs tail a in
    rw e (find_body-skip b'\r' b'\n' c rest (λ f. omega arith))

find_body-response :
    (hs : List Bytes) (tail : Bytes)
    → All HeaderLine hs
    → find_body (b'\n' ∷ response hs tail) ≡ some tail
find_body-response [] tail a = unfold find_body in refl
find_body-response (h ∷ hs) tail a =
    let first = a.0.first in
    let others = a.0.others in
    let plain : All Plain (first ∷ others) = subst (All Plain) a.0.whole a.0.plain in
    rw a.0.whole (find_body-header first others (response hs tail) plain)
    ∙ find_body-after hs tail a.1
    ∙ find_body-response hs tail a.1

http_skip_headers-found :
    (buffersz timeout elapsed : ℕ) (bs rest : Bytes) (later : List Header)
    → elapsed ≤ timeout
    → 0 < buffersz
    → length bs ≤ buffersz
    → find_body bs ≡ some rest
    → http_skip_headers buffersz timeout []
        (record { elapsed = elapsed; received = bytes bs } ∷ later)
      ≡ body rest
unfolding http_skip_headers
http_skip_headers-found buffersz timeout elapsed bs rest later t p f e =
    let on_time : ltb timeout elapsed ≡ false = ground arith in
    let room : leb buffersz 0 ≡ false = ground arith in
    let fits : ltb (buffersz - 0) (length bs) ≡ false = ground arith in
    rw (on_time, room, fits, e) refl

-- One reception that holds a status line and headers, each ended by CR LF, the blank line and the
-- start of the body: what is left for the caller is the start of the body, all of it. No line is
-- empty or holds a line end, the reception fits the buffer, and it is no later than the limit.
pub http_skip_headers-body :
    (buffersz timeout elapsed : ℕ) (h : Bytes) (hs : List Bytes) (rest : Bytes)
    (later : List Header)
    → All HeaderLine (h ∷ hs)
    → elapsed ≤ timeout
    → length (response (h ∷ hs) rest) ≤ buffersz
    → http_skip_headers buffersz timeout []
        (record { elapsed = elapsed; received = bytes (response (h ∷ hs) rest) } ∷ later)
      ≡ body rest
http_skip_headers-body buffersz timeout elapsed h hs rest later a t f =
    http_skip_headers-found buffersz timeout elapsed (response (h ∷ hs) rest) rest later t
      (omega (arith, f, length-append h (b'\r' ∷ b'\n' ∷ response hs rest))) f
      (find_body-Plain h b'\r' b'\n' (response hs rest) a.0.plain
        ∙ find_body-after hs rest a.1
        ∙ find_body-response hs rest a.1)
