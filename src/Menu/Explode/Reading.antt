-- ===== src/Menu/Explode/Reading.antt =====
-- menu_explode: what is read of a line in the buffer, whatever stands behind the line.
use gopherus.Base.{
  ℕ, ◌+◌, ◌≡◌, refl, ap, subst, sym, ◌∙◌, [], ◌∷◌, ◌++◌, append_assoc, ==_ne, Bytes, length,
  length-append, All, get_or, set, drop, up_to_nul, arith, print_u, drop-prefix,
}
use gopherus.Menu.Item.{Entry}
use gopherus.Menu.Explode.{string_at}
use gopherus.Menu.Explode.Stored.{
  IsPlain, described, selected, hosted, ported, stored, print_u-Plain,
}
use gopherus.Menu.Explode.Columns.{Plain}

-- The string at an index of the buffer is `s`, whatever is added to the buffer.
abbrev pub Str : Bytes → ℕ → Bytes → Type 0
Str buffer i s = (r : Bytes) → string_at (buffer ++ r) i ≡ s

-- A nul that is written at the index changes nothing.
abbrev pub Ended : Bytes → ℕ → Type 0
Ended buffer i = (r : Bytes) → set (buffer ++ r) i 0 ≡ buffer ++ r

abbrev pub Has : Bytes → ℕ → ℕ → Type 0
Has buffer i c = (r : Bytes) → get_or (buffer ++ r) i 0 ≡ c

pub Str-append :
    (buffer more : Bytes) (i : ℕ) (s : Bytes) → Str buffer i s → Str (buffer ++ more) i s
Str-append buffer more i s h r =
    ap (λ b. string_at b i) (append_assoc buffer more r) ∙ h (more ++ r)

pub Ended-append : (buffer more : Bytes) (i : ℕ) → Ended buffer i → Ended (buffer ++ more) i
Ended-append buffer more i h r =
    ap (λ b. set b i 0) (append_assoc buffer more r)
    ∙ h (more ++ r)
    ∙ sym (append_assoc buffer more r)

pub Has-append : (buffer more : Bytes) (i c : ℕ) → Has buffer i c → Has (buffer ++ more) i c
Has-append buffer more i c h r = ap (λ b. get_or b i 0) (append_assoc buffer more r) ∙ h (more ++ r)

pub up_to_nul-plain : (s r : Bytes) → All Plain s → up_to_nul (s ++ 0 ∷ r) ≡ s
up_to_nul-plain [] r h = refl
up_to_nul-plain (c ∷ s) r h = rw (==_ne c 0 h.0.0) (ap (c ∷◌) (up_to_nul-plain s r h.1))

pub Str-here : (buffer s : Bytes) → All Plain s → Str ((buffer ++ s) ++ 0 ∷ []) (length buffer) s
unfolding string_at
Str-here buffer s h r =
    let shape : ((buffer ++ s) ++ 0 ∷ []) ++ r ≡ buffer ++ (s ++ 0 ∷ r) =
      append_assoc (buffer ++ s) (0 ∷ []) r ∙ append_assoc buffer s (0 ∷ r) in
    let behind : drop (length buffer) (buffer ++ (s ++ 0 ∷ r)) ≡ s ++ 0 ∷ r =
      ap (λ k. drop k (buffer ++ (s ++ 0 ∷ r))) (omega arith) ∙ drop-prefix buffer (s ++ 0 ∷ r) 0 in
    rw (shape, behind) (up_to_nul-plain s r h)

set-nul : (buffer r : Bytes) → set (buffer ++ 0 ∷ r) (length buffer) 0 ≡ buffer ++ 0 ∷ r
set-nul [] r = refl
set-nul (c ∷ buffer) r = ap (c ∷◌) (set-nul buffer r)

pub Ended-here : (buffer : Bytes) → Ended (buffer ++ 0 ∷ []) (length buffer)
Ended-here buffer r = rw (append_assoc buffer (0 ∷ []) r) (set-nul buffer r)

has-here : (buffer : Bytes) (c : ℕ) (r : Bytes) → get_or (buffer ++ c ∷ r) (length buffer) 0 ≡ c
has-here [] c r = refl
has-here (x ∷ buffer) c r = has-here buffer c r

pub Has-here : (buffer s : Bytes) (c : ℕ) → Has (buffer ++ c ∷ s) (length buffer) c
Has-here buffer s c r = rw (append_assoc buffer (c ∷ s) r) (has-here buffer c (s ++ r))

-- The strings of the stored line, at the indices that the code keeps.
pub record Reads (pre : Bytes) (e : Entry) : Type 0 where
  pub itemtype : Has (stored pre e) (length pre) e.line.itemtype
  pub description : Str (stored pre e) (length pre + 1) e.description
  pub ended : Ended (stored pre e) (length pre + 1 + length e.description)
  pub selector : Str (stored pre e) (length (described pre e) + 1) e.line.selector
  pub host : Str (stored pre e) (length (selected pre e) + 1) e.line.host
  pub port : Str (stored pre e) (length (hosted pre e) + 1) (print_u e.line.port)

pub length-snoc : (s : Bytes) (c : ℕ) → length (s ++ c ∷ []) ≡ length s + 1
length-snoc s c = length-append s (c ∷ [])

-- What holds of a start of the stored line, and of all that is longer, holds of the line.
module _ (pre : Bytes) (e : Entry) (P : Bytes → Type 0)
    (more : (b c : Bytes) → P b → P (b ++ c)) where
  behind_ported : P (ported pre e ++ 0 ∷ []) → P (stored pre e)
  behind_ported h = more (ported pre e ++ 0 ∷ []) (0 ∷ []) h

  behind_hosted : P (hosted pre e ++ 0 ∷ []) → P (stored pre e)
  behind_hosted h =
      behind_ported
        (more (ported pre e) (0 ∷ []) (more (hosted pre e ++ 0 ∷ []) (print_u e.line.port) h))

  behind_selected : P (selected pre e ++ 0 ∷ []) → P (stored pre e)
  behind_selected h =
      behind_hosted (more (hosted pre e) (0 ∷ []) (more (selected pre e ++ 0 ∷ []) e.line.host h))

  pub behind_described : P (described pre e ++ 0 ∷ []) → P (stored pre e)
  behind_described h =
      behind_selected
        (more (selected pre e) (0 ∷ []) (more (described pre e ++ 0 ∷ []) e.line.selector h))

pub Str-at : (buffer : Bytes) {i j : ℕ} (s : Bytes) → i ≡ j → Str buffer i s → Str buffer j s
Str-at buffer s e h = subst (λ k. Str buffer k s) e h

pub stored-Reads : (pre : Bytes) (e : Entry) → IsPlain e → Reads pre e
stored-Reads pre e plain =
    let strs : (i : ℕ) (s b c : Bytes) → Str b i s → Str (b ++ c) i s =
      λ i s b c h. Str-append b c i s h in
    let itemtype = e.line.itemtype in
    let described' = described pre e in
    record {
      itemtype =
          behind_described pre e (λ b. Has b (length pre) itemtype)
            (λ b c h. Has-append b c (length pre) itemtype h)
            (Has-append described' (0 ∷ []) (length pre) itemtype
              (Has-here pre e.description itemtype));
      description =
          behind_described pre e (λ b. Str b (length pre + 1) e.description)
            (strs (length pre + 1) e.description)
            (subst (λ b. Str (b ++ 0 ∷ []) (length pre + 1) e.description)
              (append_assoc pre (itemtype ∷ []) e.description)
              (Str-at _ e.description (length-snoc pre itemtype)
                (Str-here (pre ++ itemtype ∷ []) e.description plain.description)));
      ended =
          behind_described pre e (λ b. Ended b (length pre + 1 + length e.description))
            (λ b c h. Ended-append b c _ h)
            (subst (Ended (described' ++ 0 ∷ []))
              (omega (arith, length-append pre (itemtype ∷ e.description)))
              (Ended-here described'));
      selector =
          behind_selected pre e (λ b. Str b (length described' + 1) e.line.selector)
            (strs (length described' + 1) e.line.selector)
            (Str-at _ e.line.selector (length-snoc described' 0)
              (Str-here (described' ++ 0 ∷ []) e.line.selector plain.selector));
      host =
          behind_hosted pre e (λ b. Str b (length (selected pre e) + 1) e.line.host)
            (strs (length (selected pre e) + 1) e.line.host)
            (Str-at _ e.line.host (length-snoc (selected pre e) 0)
              (Str-here (selected pre e ++ 0 ∷ []) e.line.host plain.host));
      port =
          behind_ported pre e (λ b. Str b (length (hosted pre e) + 1) (print_u e.line.port))
            (strs (length (hosted pre e) + 1) (print_u e.line.port))
            (Str-at _ (print_u e.line.port) (length-snoc (hosted pre e) 0) (
              Str-here (hosted pre e ++ 0 ∷ []) (print_u e.line.port) (print_u-Plain e.line.port)));
    }
