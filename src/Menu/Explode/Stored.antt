-- ===== src/Menu/Explode/Stored.antt =====
-- menu_explode: one line of a menu, as it is printed and as it stands in the buffer behind the loop
-- that advances over it.
use gopherus.Base.{
  ℕ, suc, ◌+◌, ◌≡◌, ◌∙◌, [], ◌∷◌, ◌++◌, Bytes, none, some, length, All, arith, print_u,
  print_u-Digit, Digit, All-map,
}
use gopherus.Menu.Item.{Entry}
use gopherus.Menu.Explode.{advance}
use gopherus.Menu.Explode.Columns.{Plain, at, advance-text, advance-tab, advance-cr, advance-lf}

-- The line as a server sends it, before the `rest` of the menu.
abbrev pub print_line : Entry → Bytes → Bytes
print_line e rest =
    let l = e.line in
    (l.itemtype ∷ e.description)
    ++ b'\t' ∷ (l.selector ++ b'\t' ∷ (l.host ++ b'\t' ∷ (print_u l.port ++ b'\r' ∷ b'\n' ∷ rest)))

-- The bytes of the line, and `m` more.
abbrev pub left : Entry → ℕ → ℕ
left e m =
    let l = e.line in
    length (l.itemtype ∷ e.description)
    + suc (length l.selector + suc (length l.host + suc (length (print_u l.port) + suc (suc m))))

-- What a line is made of.
pub record IsPlain (e : Entry) : Type 0 where
  pub itemtype : Plain e.line.itemtype
  pub description : All Plain e.description
  pub selector : All Plain e.line.selector
  pub host : All Plain e.line.host

-- The buffer up to the end of each column, with nuls behind them.
module _ (pre : Bytes) (e : Entry) where
  abbrev pub described : Bytes
  described = pre ++ e.line.itemtype ∷ e.description

  abbrev pub selected : Bytes
  selected = (described ++ 0 ∷ []) ++ e.line.selector

  abbrev pub hosted : Bytes
  hosted = (selected ++ 0 ∷ []) ++ e.line.host

  abbrev pub ported : Bytes
  ported = (hosted ++ 0 ∷ []) ++ print_u e.line.port

  abbrev pub stored : Bytes
  stored = (ported ++ 0 ∷ []) ++ 0 ∷ []

pub print_u-Plain : (n : ℕ) → All Plain (print_u n)
print_u-Plain n = All-map Digit Plain (print_u n) (λ c h. ground arith) (print_u-Digit n)

-- The loop takes the whole line.
pub advance-line :
    (pre rest : Bytes) (e : Entry) (m : ℕ)
    → IsPlain e
    → advance (left e m) (at pre (print_line e rest) 0 none none none) ≡ (
      m,
      at
          (stored pre e)
          rest
          3
          (some (length (described pre e) + 1))
          (some (length (selected pre e) + 1))
          (some (length (hosted pre e) + 1)),
    )
advance-line pre rest e m h =
    let s = some (length (described pre e) + 1) in
    let t = some (length (selected pre e) + 1) in
    let p = some (length (hosted pre e) + 1) in
    let digits = print_u e.line.port in
    let last = b'\r' ∷ b'\n' ∷ rest in
    let third = b'\t' ∷ (digits ++ last) in
    let second = b'\t' ∷ (e.line.host ++ third) in
    let first = b'\t' ∷ (e.line.selector ++ second) in
    advance-text (e.line.itemtype ∷ e.description) pre first _ 0 none none none
      (h.itemtype, h.description)
    ∙ advance-tab (described pre e) (e.line.selector ++ second) _ 0 none none none
    ∙ advance-text e.line.selector _ second _ 1 s none none h.selector
    ∙ advance-tab (selected pre e) (e.line.host ++ third) _ 1 s none none
    ∙ advance-text e.line.host _ third _ 2 s t none h.host
    ∙ advance-tab (hosted pre e) (digits ++ last) _ 2 s t none
    ∙ advance-text digits _ last _ 3 s t p (print_u-Plain e.line.port)
    ∙ advance-cr (ported pre e) (b'\n' ∷ rest) _ 3 s t p
    ∙ advance-lf (ported pre e ++ 0 ∷ []) rest m 3 s t p
