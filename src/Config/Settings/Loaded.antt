-- ===== src/Config/Settings/Loaded.antt =====
-- loadcfg: what is sure of a configuration that was loaded.
use gopherus.Base.{
  ℕ, suc, zero, ◌+◌, ◌*◌, ◌<◌, ◌≡◌, refl, ap, ◌∙◌, subst, inl, inr, Bool, true, false, ◌||◌, not,
  List, [], ◌∷◌, ◌==◌, if◌then◌else◌, Bytes, Option, none, some, ℤ, pos, negsuc, codes, length,
  length-set, drop, set, get_or, all, All, within, ◌-◌, strcmp_eq, up_to_nul, atoi, to_ushort,
  arith, Bool-cases, Option-cases,
}
use gopherus.Config.{hex2int, strstartswith, cfg_tokvaldelim}
use gopherus.Config.Settings.{
  Settings, keydef, key_count, failed, key_loop, behind_loop, cfg_key, is_hex, cfg_colors,
  cfg_token, cfg_line, cfg_lines, cfgfileread, defaults, nibbles, attr, Config, config_of, loadcfg,
}
use gopherus.ReadLine.{read_all}

abbrev pub Bound : ℕ → Type 0
Bound k = (0 < k) × (k < 65536)

-- Colours and keys as they should be.
record Sound (s : Settings) : Type 0 where
  pub width : length s.colorstring ≡ 18
  pub hex : all is_hex s.colorstring ≡ true
  pub count : length s.keys ≡ key_count
  pub bound : All Bound (drop 1 s.keys)

-- Unless an error was found.
Fine : Settings → Type 0
Fine s = s.errflag ≡ false → Sound s

failed-Fine : (s : Settings) → Fine (failed s)
unfolding Fine failed
failed-Fine s e = cc

Fine-if : (b : Bool) (s t : Settings) → Fine s → Fine t → Fine (if b then s else t)
Fine-if true s t h k = h
Fine-if false s t h k = k

All-set : (xs : List ℕ) (i k : ℕ) → All Bound xs → Bound k → All Bound (set xs i k)
All-set [] i k h b = tt
All-set (x ∷ xs) zero k h b = (b, h.1)
All-set (x ∷ xs) (suc i) k h b = (h.0, All-set xs i k h.1 b)

All-drop-set :
    (xs : List ℕ) (i k : ℕ)
    → 0 < i
    → All Bound (drop 1 xs)
    → Bound k
    → All Bound (drop 1 (set xs i k))
All-drop-set [] i k p h b = tt
All-drop-set (x ∷ xs) zero k p h b = absurd (omega arith)
All-drop-set (x ∷ xs) (suc i) k p h b = All-set xs i k h b

to_ushort-lt : (n : ℤ) → to_ushort n < 65536
to_ushort-lt (pos n) = omega arith
to_ushort-lt (negsuc n) = omega arith

stored-Fine :
    (s : Settings) (i k : ℕ) → 0 < i → Bound k → Fine s → Fine (record s { keys = set s.keys i k })
unfolding Fine
stored-Fine s i k p b h e =
    let sound = h e in
    record {
      width = sound.width;
      hex = sound.hex;
      count = length-set s.keys i k ∙ sound.count;
      bound = All-drop-set s.keys i k p sound.bound b;
    }

key_loop-Fine :
    (after : Bytes × Bytes) (tok val : Bytes) (i : ℕ) (names : List Bytes) (s : Settings)
    → 0 < i
    → Fine s
    → Fine (key_loop after tok val i names s).0
unfolding key_loop
key_loop-Fine after tok val i [] s p h = h
key_loop-Fine after tok val i (name ∷ names) s p h =
    let k = to_ushort (atoi val) in
    let stored = record s { keys = set s.keys i k } in
    let small = to_ushort-lt (atoi val) in
    let next : 0 < i + 1 = omega arith in
    elim (Bool-cases (strcmp_eq tok name)) [
      | inr other ↦ rw other (key_loop-Fine after tok val (i + 1) names s next h)
      | inl same ↦ rw same (elim (Bool-cases (k == 0)) [
        | inl bad ↦ rw bad (
            key_loop-Fine after after.0 after.1 (i + 1) names (failed stored) next
              (failed-Fine stored))
        | inr good ↦ rw good (
            key_loop-Fine after tok val (i + 1) names stored next
              (stored-Fine s i k p (ground arith, small) h))
      ])
    ]

cfg_key-Fine :
    (after : Bytes × Bytes) (tok val : Bytes) (s : Settings)
    → Fine s
    → Fine (cfg_key after tok val s)
unfolding cfg_key behind_loop
cfg_key-Fine after tok val s h =
    let r = key_loop after tok val 1 (drop 1 keydef) s in
    Fine-if (not (r.1 == key_count)) (failed r.0) r.0 (failed-Fine r.0)
      (key_loop-Fine after tok val 1 (drop 1 keydef) s (omega arith) h)

cfg_colors-Fine : (val : Bytes) (s : Settings) → Fine s → Fine (cfg_colors val s)
unfolding cfg_colors Fine
cfg_colors-Fine val s h = elim (Bool-cases (length val == 18)) [
  | inr other ↦ rw other (failed-Fine s)
  | inl right ↦ rw right (elim (Bool-cases (all is_hex val)) [
    | inr bad ↦ rw bad (failed-Fine (record s { colorstring = val }))
    | inl good ↦ rw good (λ e.
        let sound = h e in
        record { width = ground arith; hex = good; count = sound.count; bound = sound.bound })
  ])
]

cfg_token-Fine :
    (after : Bytes × Bytes) (tok val : Bytes) (s : Settings)
    → Fine s
    → Fine (cfg_token after tok val s)
unfolding cfg_token
cfg_token-Fine after tok val s h =
    Fine-if (strcmp_eq tok (codes "colors")) (cfg_colors val s) _ (cfg_colors-Fine val s h) (
      Fine-if (strstartswith (codes "key.") tok) (cfg_key after (drop 4 tok) val s) (failed s)
        (cfg_key-Fine after (drop 4 tok) val s h) (failed-Fine s))

cfg_line-Fine :
    (after : Bytes × Bytes) (line : Bytes) (s : Settings) → Fine s → Fine (cfg_line after line s)
unfolding cfg_line
cfg_line-Fine after line s h =
    Fine-if (length line == 0 || get_or line 0 0 == b'#') s _ h
      (elim (Option-cases (cfg_tokvaldelim (up_to_nul line))) [
        | inl e ↦ rw e (failed-Fine s)
        | inr (tv, e) ↦ rw e (cfg_token-Fine after tv.0 tv.1 s h)
      ])

cfg_lines-Fine :
    (after : ℕ → Bytes × Bytes) (n : ℕ) (lines : List Bytes) (s : Settings)
    → Fine s
    → Fine (cfg_lines after n lines s)
unfolding cfg_lines
cfg_lines-Fine after n [] s h = h
cfg_lines-Fine after n (line ∷ lines) s h =
    cfg_lines-Fine after (n + 1) lines (cfg_line (after n) line s)
      (cfg_line-Fine (after n) line s h)

cfgfileread-Fine :
    (after : ℕ → Bytes × Bytes) (file : Option Bytes) (s : Settings)
    → Fine s
    → Fine (cfgfileread after file s)
unfolding cfgfileread
cfgfileread-Fine after none s h = h
cfgfileread-Fine after (some file) s h =
    cfg_lines-Fine after 1 (read_all (length file + 1) 128 file) s h

defaults-Fine : Fine defaults
unfolding Fine hex2int
defaults-Fine e = record { width = refl; hex = refl; count = refl; bound = omega arith }

-- An attribute of one byte.
abbrev pub Attr : Option ℕ → Type 0
Attr o = (n : ℕ) × (o ≡ some n) × (n < 256)

hex2int-hex : (c : ℕ) → is_hex c ≡ true → (n : ℕ) × (hex2int c ≡ pos n) × (n < 16)
unfolding hex2int
hex2int-hex c h = elim (Bool-cases (within b'0' b'9' c)) [
  | inl digit ↦ (c - b'0', rw digit refl, ground arith)
  | inr no_digit ↦ elim (Bool-cases (within b'a' b'f' c)) [
    | inl small ↦ (c - b'a' + 10, rw (no_digit, small) refl, ground arith)
    | inr no_small ↦ elim (Bool-cases (within b'A' b'F' c)) [
      | inl large ↦ (c - b'A' + 10, rw (no_digit, no_small, large) refl, ground arith)
      | inr no_large ↦ absurd (ground (arith, rw (no_digit, no_small, no_large) at h))
    ]
  ]
]

get_or-all :
    (p : ℕ → Bool) (s : Bytes) (i : ℕ) → all p s ≡ true → i < length s → p (get_or s i 0) ≡ true
get_or-all p [] i h k = absurd (omega arith)
get_or-all p (c ∷ s) zero h k = ground arith
get_or-all p (c ∷ s) (suc i) h k = get_or-all p s i (ground arith) (omega arith)

attr-Attr : (s : Bytes) (i : ℕ) → all is_hex s ≡ true → i + 1 < length s → Attr (attr s i)
unfolding nibbles
attr-Attr s i h k =
    let (a, e, u) = hex2int-hex (get_or s i 0) (get_or-all is_hex s i h (omega arith)) in
    let (b, f, v) = hex2int-hex (get_or s (i + 1) 0) (get_or-all is_hex s (i + 1) h k) in
    (a * 16 + b, rw (e, f) refl, omega arith)

-- Every colour is an attribute of one byte, and every command has a key.
pub record IsConfig (c : Config) : Type 0 where
  pub textnorm : Attr c.attr_textnorm
  pub statusbarinfo : Attr c.attr_statusbarinfo
  pub statusbarwarn : Attr c.attr_statusbarwarn
  pub urlbar : Attr c.attr_urlbar
  pub urlbardeco : Attr c.attr_urlbardeco
  pub menutype : Attr c.attr_menutype
  pub menuerr : Attr c.attr_menuerr
  pub menuselectable : Attr c.attr_menuselectable
  pub menucurrent : Attr c.attr_menucurrent
  pub count : length c.keys ≡ key_count
  pub bound : All Bound (drop 1 c.keys)

config_of-IsConfig : (s : Settings) → Sound s → IsConfig (config_of s)
unfolding config_of
config_of-IsConfig s sound =
    let width = sound.width in
    record {
      textnorm = attr-Attr s.colorstring 0 sound.hex (omega arith);
      statusbarinfo = attr-Attr s.colorstring 2 sound.hex (omega arith);
      statusbarwarn = attr-Attr s.colorstring 4 sound.hex (omega arith);
      urlbar = attr-Attr s.colorstring 6 sound.hex (omega arith);
      urlbardeco = attr-Attr s.colorstring 8 sound.hex (omega arith);
      menutype = attr-Attr s.colorstring 10 sound.hex (omega arith);
      menuerr = attr-Attr s.colorstring 12 sound.hex (omega arith);
      menuselectable = attr-Attr s.colorstring 14 sound.hex (omega arith);
      menucurrent = attr-Attr s.colorstring 16 sound.hex (omega arith);
      count = sound.count;
      bound = sound.bound;
    }

-- Whatever bytes a configuration file holds, or if there is none: where loading it reports no error, no
-- digit of a colour was negative, every colour is a byte, and every command has a key from 1 to 65535.
pub loadcfg-IsConfig :
    (after : ℕ → Bytes × Bytes) (file : Option Bytes) (c : Config)
    → loadcfg after file ≡ some c
    → IsConfig c
unfolding loadcfg Fine
loadcfg-IsConfig after file c h =
    let s = cfgfileread after file defaults in
    let fine = cfgfileread-Fine after file defaults defaults-Fine in
    elim (Bool-cases s.errflag) [
      | inl bad ↦ cc (rw bad at h)
      | inr good ↦
          let same : config_of s ≡ c = cc (rw good at h) in
          subst IsConfig same (config_of-IsConfig s (fine good))
    ]

key_loop-unknown :
    (after : Bytes × Bytes) (tok val : Bytes) (i : ℕ) (names : List Bytes) (s : Settings)
    → All (λ name. strcmp_eq tok name ≡ false) names
    → key_loop after tok val i names s ≡ (s, i + length names)
unfolding key_loop
key_loop-unknown after tok val i [] s h = ap (λ n. (s, n)) (omega arith)
key_loop-unknown after tok val i (name ∷ names) s h =
    rw h.0 (key_loop-unknown after tok val (i + 1) names s h.1 ∙ ap (λ n. (s, n)) (omega arith))

behind_loop_all : (s : Settings) → behind_loop (s, 21) ≡ s
unfolding behind_loop
behind_loop_all s = refl

-- The name of a key that is none of the names known is no error, and changes nothing.
pub cfg_key-unknown :
    (after : Bytes × Bytes) (tok val : Bytes) (s : Settings)
    → All (λ name. strcmp_eq tok name ≡ false) (drop 1 keydef)
    → cfg_key after tok val s ≡ s
unfolding cfg_key
cfg_key-unknown after tok val s h =
    ap behind_loop (key_loop-unknown after tok val 1 (drop 1 keydef) s h) ∙ behind_loop_all s
