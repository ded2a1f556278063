-- ===== src/Url/Build/Writing.antt =====
-- What `buildgopherurl` writes for a plain gopher location.
use gopherus.Base.{
  ℕ, ◌+◌, ◌-◌, ◌≤◌, ◌<◌, ◌≡◌, ◌≢◌, refl, ap, ◌∙◌, false, ◌&&◌, [], ◌∷◌, ◌++◌, append-nil,
  append_assoc, arith, ◌==◌, if◌then◌else◌, length, length-append, take-all, All, Bytes, codes, pos,
  Bool-cases, inl, inr,
}
use gopherus.Url.Build.{
  Built, Writer, print_at, returned, encode, is_hurl, port_part, path_part, gopher_url, build,
  buildgopherurl,
}

-- A byte that stands for itself in a URL.
abbrev pub Plain : ℕ → Type 0
Plain c = (0x20 ≤ c) × (c < 0x80)

abbrev pub writer : ℕ → Bytes → Writer
writer x text = record { x = x; text = text; fault = false }

print_at-writer :
    (maxlen x : ℕ) (text s : Bytes)
    → x + length s < maxlen
    → print_at maxlen s (writer x text) ≡ writer (x + length s) (text ++ s)
unfolding print_at
print_at-writer maxlen x text s h = ground (arith, take-all (maxlen - x - 1) s)

encode-writer :
    (maxlen x : ℕ) (text s : Bytes)
    → All Plain s
    → x + length s ≤ maxlen
    → encode maxlen s (writer x text)
      ≡ record { result = pos (x + length s); text = text ++ s; fault = false }
unfolding encode
encode-writer maxlen x text [] a h = rw append-nil (ground arith)
encode-writer maxlen x text (c ∷ s) a h =
    ground (arith, encode-writer maxlen (x + 1) (text ++ c ∷ []) s, append_assoc text (c ∷ []) s)

-- The path of a URL: the type and the selector, or nothing for the main menu.
abbrev pub path_of : ℕ → Bytes → Bytes
path_of itemtype selector =
    if itemtype == b'1' && length selector == 0 then [] else b'/' ∷ itemtype ∷ selector

path_part-writer :
    (maxlen x itemtype : ℕ) (text selector : Bytes)
    → All Plain selector
    → x + 2 + length selector < maxlen
    → path_part maxlen itemtype selector (writer x text) ≡ record {
      result = pos (x + length (path_of itemtype selector));
      text = text ++ path_of itemtype selector;
      fault = false;
    }
unfolding path_part
path_part-writer maxlen x itemtype text selector a h =
    elim (Bool-cases (itemtype == b'1' && length selector == 0)) [
      | inl main ↦ rw (main, append-nil) (unfold returned in ground arith)
      | inr other ↦
          rw (other, print_at-writer maxlen x text (b'/' ∷ itemtype ∷ []) (omega arith))
            (unfold encode in
              (ground (
                arith,
                encode-writer maxlen (x + 2) (text ++ b'/' ∷ itemtype ∷ []) selector,
                append_assoc text (b'/' ∷ itemtype ∷ []) selector,
              )))
    ]

-- A location whose gopher URL is short enough, with plain bytes in the selector and a type that is
-- printed as it stands.
pub record Writable (maxlen : ℕ) (host : Bytes) (port itemtype : ℕ) (selector : Bytes)
    : Type 0 where
  pub named : 0 < length host
  pub port_pos : 0 < port
  pub type_low : 33 ≤ itemtype
  pub type_high : itemtype < 128
  pub no_telnet : itemtype ≢ b'8'
  pub no_hurl : (itemtype == b'h' && is_hurl selector) ≡ false
  pub plain : All Plain selector
  pub fits : 9 + length host + length (port_part 70 port) + 3 + length selector < maxlen

unfoldable pub url_of : Bytes → ℕ → ℕ → Bytes → Bytes
url_of host port itemtype selector =
    codes "gopher://" ++ (host ++ (port_part 70 port ++ path_of itemtype selector))

port_step :
    (maxlen x port : ℕ) (text : Bytes)
    → x + length (port_part 70 port) < maxlen
    → (if port == 70 then writer x text else print_at maxlen (port_part 70 port) (writer x text))
      ≡ writer (x + length (port_part 70 port)) (text ++ port_part 70 port)
port_step maxlen x port text h = elim (Bool-cases (port == 70)) [
  | inl default ↦
      unfold port_part in rw (default, append-nil) (ap (λ n. writer n text) (omega arith))
  | inr other ↦ rw other (print_at-writer maxlen x text (port_part 70 port) h)
]

gopher_url-url_of :
    (maxlen : ℕ) (host : Bytes) (port itemtype : ℕ) (selector : Bytes)
    → 0 < length host
    → All Plain selector
    → 9 + length host + length (port_part 70 port) + 2 + length selector < maxlen
    → gopher_url maxlen host port itemtype selector ≡ record {
      result = pos (length (url_of host port itemtype selector));
      text = url_of host port itemtype selector;
      fault = false;
    }
unfolding gopher_url
gopher_url-url_of maxlen host port itemtype selector n a h =
    let start = codes "gopher://" ++ host in
    let x = 0 + length start in
    let named =
      print_at-writer maxlen 0 [] start (omega (arith, length-append (codes "gopher://") host)) in
    let ported =
      port_step maxlen x port start (omega (arith, length-append (codes "gopher://") host)) in
    let pathed =
      path_part-writer maxlen (x + length (port_part 70 port)) itemtype (start ++ port_part 70 port)
        selector a (omega (arith, length-append (codes "gopher://") host)) in
    rw named (rw (nonzero, ported) (pathed ∙ same))
  where
    nonzero : (length host == 0) ≡ false
    nonzero = ground arith

    port_text : Bytes
    port_text = port_part 70 port

    path : Bytes
    path = path_of itemtype selector

    same :
        ◌≡◌ {A = Built}
          (record {
            result = pos (0 + length (codes "gopher://" ++ host) + length port_text + length path);
            text = (codes "gopher://" ++ host) ++ port_text ++ path;
            fault = false;
          })
          (record {
            result = pos (length (url_of host port itemtype selector));
            text = url_of host port itemtype selector;
            fault = false;
          })
    same =
        unfold url_of in
        (ground (
          arith,
          append_assoc host port_text path,
          length-append host (port_text ++ path),
          length-append port_text path,
        ))

pub buildgopherurl_lem : (maxlen : ℕ) → buildgopherurl maxlen ≡ build (maxlen - 1)
unfolding buildgopherurl
buildgopherurl_lem maxlen = refl

pub buildgopherurl-url_of :
    (maxlen : ℕ) (host : Bytes) (port itemtype : ℕ) (selector : Bytes)
    → Writable maxlen host port itemtype selector
    → buildgopherurl maxlen 1 host port itemtype selector ≡ record {
      result = pos (length (url_of host port itemtype selector));
      text = url_of host port itemtype selector;
      fault = false;
    }
buildgopherurl-url_of maxlen host port itemtype selector h =
    rw buildgopherurl_lem
      (unfold build in (ground (arith, gopher_url-url_of (maxlen - 1) host port itemtype selector)))
