-- ===== src/Menu/Explode/Columns.antt =====
-- menu_explode: the loop that advances over a line of a menu, a byte at a time, and what stands in
-- the buffer behind it.
use gopherus.Base.{
  ℕ, suc, ◌+◌, ◌%◌, ◌≡◌, ◌≢◌, refl, ap, ap₂, ==_ne, sym, ◌∙◌, [], ◌∷◌, ◌++◌, append_assoc,
  append-nil, ◌==◌, if◌then◌else◌, Bytes, Option, some, length, length-append, All, get_or, set,
  arith,
}
use gopherus.Menu.Explode.{Split, at_tab, without_cr, advance}

-- A byte that ends no column and no line.
abbrev pub Plain : ℕ → Type 0
Plain c = (c ≢ 0) × (c ≢ b'\t') × (c ≢ b'\n') × (c ≢ b'\r')

get_or-here : (pre r : Bytes) (c d : ℕ) → get_or (pre ++ c ∷ r) (length pre) d ≡ c
get_or-here [] r c d = refl
get_or-here (x ∷ pre) r c d = get_or-here pre r c d

get_or-next : (pre r : Bytes) (c d : ℕ) → get_or (pre ++ c ∷ r) (length pre + 1) d ≡ get_or r 0 d
get_or-next [] r c d = refl
get_or-next (x ∷ pre) r c d =
    let e : suc (length pre) + 1 ≡ suc (length pre + 1) = omega arith in
    ap (λ k. get_or (x ∷ (pre ++ c ∷ r)) k d) e ∙ get_or-next pre r c d

set-here : (pre r : Bytes) (c v : ℕ) → set (pre ++ c ∷ r) (length pre) v ≡ pre ++ v ∷ r
set-here [] r c v = refl
set-here (x ∷ pre) r c v = ap (x ∷◌) (set-here pre r c v)

set-next : (pre r : Bytes) (c v : ℕ) → set (pre ++ c ∷ r) (length pre + 1) v ≡ pre ++ c ∷ set r 0 v
set-next [] r c v = refl
set-next (x ∷ pre) r c v =
    let e : suc (length pre) + 1 ≡ suc (length pre + 1) = omega arith in
    ap (λ k. set (x ∷ (pre ++ c ∷ r)) k v) e ∙ ap (x ∷◌) (set-next pre r c v)

-- What is ahead of the cursor: a CR there is a nul already.
pub ahead : Bytes → Bytes
unfolding without_cr
ahead r = without_cr r 0

pub ahead-plain : (c : ℕ) (r : Bytes) → c ≢ b'\r' → ahead (c ∷ r) ≡ c ∷ r
unfolding ahead without_cr
ahead-plain c r h = ground arith

pub ahead-nul : (r : Bytes) → ahead (0 ∷ r) ≡ 0 ∷ r
unfolding ahead without_cr
ahead-nul r = refl

ahead-cr : (r : Bytes) → ahead (b'\r' ∷ r) ≡ 0 ∷ r
unfolding ahead without_cr
ahead-cr r = refl

without_cr-next :
    (pre r : Bytes) (c : ℕ) → without_cr (pre ++ c ∷ r) (length pre + 1) ≡ pre ++ c ∷ ahead r
unfolding ahead without_cr
without_cr-next pre r c = rw (get_or-next pre r c 0, set-next pre r c 0) (ground arith)

-- The cursor between the bytes before it and those ahead.
unfoldable pub at : Bytes → Bytes → ℕ → Option ℕ → Option ℕ → Option ℕ → Split
at pre r colid selector host port = record {
  buffer = pre ++ ahead r;
  cursor = length pre;
  colid = colid;
  selector = selector;
  host = host;
  port = port;
}

-- The same with the next byte apart, and behind the bytes that are done.
raw : Bytes → ℕ → Bytes → ℕ → Option ℕ → Option ℕ → Option ℕ → Split
raw pre c r colid selector host port = record {
  buffer = pre ++ c ∷ r;
  cursor = length pre;
  colid = colid;
  selector = selector;
  host = host;
  port = port;
}

-- The step of the loop behind the test for a TAB.
step : ℕ → Split → ℕ × Split
step n t =
    let buffer = without_cr t.buffer (t.cursor + 1) in
    let u = record t { buffer = buffer; cursor = t.cursor + 1 } in
    if get_or buffer t.cursor 0 == b'\n'
    then (n, record u { buffer = set buffer t.cursor 0 })
    else advance n u

advance-step : (n : ℕ) (s : Split) → advance (suc n) s ≡ step n (at_tab s)
unfolding advance step
advance-step n s = refl

module _ (pre r : Bytes) (n colid : ℕ) (selector host port : Option ℕ) where
  moved : Bytes → ℕ → Split
  moved buffer cursor = record {
    buffer = buffer;
    cursor = cursor;
    colid = colid;
    selector = selector;
    host = host;
    port = port;
  }

  at-moved :
      (c : ℕ)
      → moved (pre ++ c ∷ ahead r) (length pre + 1) ≡ at (pre ++ c ∷ []) r colid selector host port
  unfolding at moved
  at-moved c =
      ap₂ moved (sym (append_assoc pre (c ∷ []) (ahead r))) (sym (length-append pre (c ∷ [])))

  step-raw :
      (c : ℕ)
      → c ≢ b'\n'
      → step n (raw pre c r colid selector host port)
        ≡ advance n (at (pre ++ c ∷ []) r colid selector host port)
  unfolding step raw moved
  step-raw c h =
      rw (without_cr-next pre r c, get_or-here pre (ahead r) c 0, ==_ne c b'\n' h)
        (ap (advance n) (at-moved c))

  step-lf :
      step n (raw pre b'\n' r colid selector host port)
      ≡ (n, at (pre ++ 0 ∷ []) r colid selector host port)
  unfolding step raw moved
  step-lf =
      rw
        (
          without_cr-next pre r b'\n',
          get_or-here pre (ahead r) b'\n' 0,
          set-here pre (ahead r) b'\n' 0,
        )
        (ap (λ s. (n, s)) (at-moved 0))

  at-plain :
      (c : ℕ)
      → c ≢ b'\r'
      → at pre (c ∷ r) colid selector host port ≡ raw pre c r colid selector host port
  unfolding at raw
  at-plain c h = rw (ahead-plain c r h) refl

  at_tab-raw :
      (c : ℕ)
      → c ≢ b'\t'
      → at_tab (raw pre c r colid selector host port) ≡ raw pre c r colid selector host port
  unfolding at_tab raw
  at_tab-raw c h = rw (get_or-here pre r c 0, ==_ne c b'\t' h) refl

  -- One step of the loop, over a byte that is no TAB.
  advance-other :
      (c : ℕ)
      → c ≢ b'\t'
      → c ≢ b'\n'
      → c ≢ b'\r'
      → advance (suc n) (at pre (c ∷ r) colid selector host port)
        ≡ advance n (at (pre ++ c ∷ []) r colid selector host port)
  advance-other c tab lf cr =
      advance-step n (at pre (c ∷ r) colid selector host port)
      ∙ ap (step n) (ap at_tab (at-plain c cr) ∙ at_tab-raw c tab)
      ∙ step-raw c lf

  pub advance-cr :
      advance (suc n) (at pre (b'\r' ∷ r) colid selector host port)
      ≡ advance n (at (pre ++ 0 ∷ []) r colid selector host port)
  unfolding at raw
  advance-cr =
      advance-step n (at pre (b'\r' ∷ r) colid selector host port)
      ∙ ap (step n) (rw (ahead-cr r) (at_tab-raw 0 (λ e. omega arith)))
      ∙ step-raw 0 (λ e. omega arith)

  pub advance-lf :
      advance (suc n) (at pre (b'\n' ∷ r) colid selector host port)
      ≡ (n, at (pre ++ 0 ∷ []) r colid selector host port)
  advance-lf =
      advance-step n (at pre (b'\n' ∷ r) colid selector host port)
      ∙ ap (step n)
          (ap at_tab (at-plain b'\n' (λ e. omega arith)) ∙ at_tab-raw b'\n' (λ e. omega arith))
      ∙ step-lf

-- The column that the TAB at `cursor` begins, if it is the one of number `n`.
abbrev pub column : ℕ → ℕ → ℕ → Option ℕ → Option ℕ
column cursor colid n old = if colid == n then some (cursor + 1) else old

module _ (pre r : Bytes) (n colid : ℕ) (selector host port : Option ℕ) where
  pub advance-tab :
      advance (suc n) (at pre (b'\t' ∷ r) colid selector host port)
      ≡ advance n (
          at
            (pre ++ 0 ∷ [])
            r
            ((colid + 1) % 256)
            (column (length pre) colid 0 selector)
            (column (length pre) colid 1 host)
            (column (length pre) colid 2 port))
  unfolding at_tab raw
  advance-tab =
      let written : at_tab (raw pre b'\t' r colid selector host port)
          ≡ raw pre 0 r ((colid + 1) % 256) (column (length pre) colid 0 selector)
              (column (length pre) colid 1 host) (column (length pre) colid 2 port) =
        rw (get_or-here pre r b'\t' 0, set-here pre r b'\t' 0) refl in
      advance-step n (at pre (b'\t' ∷ r) colid selector host port)
      ∙ ap (step n)
          (ap at_tab (at-plain pre r n colid selector host port b'\t' (λ e. omega arith)) ∙ written)
      ∙ step-raw pre r n ((colid + 1) % 256) (column (length pre) colid 0 selector)
          (column (length pre) colid 1 host) (column (length pre) colid 2 port) 0 (λ e. omega arith)

-- The loop over bytes that end no column.
pub advance-text :
    (cs pre r : Bytes) (n colid : ℕ) (selector host port : Option ℕ)
    → All Plain cs
    → advance (length cs + n) (at pre (cs ++ r) colid selector host port)
      ≡ advance n (at (pre ++ cs) r colid selector host port)
advance-text [] pre r n colid selector host port h =
    ap₂ (λ k p. advance k (at p r colid selector host port)) (omega arith) (sym (append-nil pre))
advance-text (c ∷ cs) pre r n colid selector host port h =
    ap (λ k. advance k (at pre (c ∷ (cs ++ r)) colid selector host port)) (omega arith)
    ∙ advance-other pre (cs ++ r) (length cs + n) colid selector host port c h.0.1 h.0.2 h.0.3
    ∙ advance-text cs (pre ++ c ∷ []) r n colid selector host port h.1
    ∙ ap (λ p. advance n (at p r colid selector host port)) (append_assoc pre (c ∷ []) cs)
