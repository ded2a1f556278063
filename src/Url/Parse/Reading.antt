-- ===== src/Url/Parse/Reading.antt =====
-- The parser run over one piece of a URL, with any `rest` behind it.
use gopherus.Base.{
  ℕ, ◌+◌, ◌-◌, ◌<◌, ◌≡◌, ◌≢◌, refl, ap, ◌∙◌, [], ◌∷◌, ◌++◌, append-nil, append_assoc, arith, ◌==◌,
  length, All, Bytes, codes, print_u, print_u-Digit, Digit, atoi, to_ushort-print_u, to_ushort,
  Bool-cases, inl, inr,
}
use gopherus.Url.Build.{port_part}
use gopherus.Url.Build.Writing.{path_of, url_of}
use gopherus.Url.Parse.{
  UrlParts, default_parts, pred_ushort, read_selector, read_type, read_port, read_host,
  parsegopherurl,
}

-- A byte that may stand in the host of a URL.
abbrev pub HostByte : ℕ → Type 0
HostByte c = (c ≢ b':') × (c ≢ b'/')

pub read_host-append :
    (p : UrlParts) (left hostlen selectorlen : ℕ) (s rest : Bytes)
    → All HostByte s
    → hostlen ≡ left + length s
    → 0 < left
    → hostlen < 65536
    → read_host p hostlen selectorlen (s ++ rest)
      ≡ read_host (record p { host = p.host ++ s }) left selectorlen rest
unfolding read_host
read_host-append p left hostlen selectorlen [] rest a e h k = rw append-nil (ground arith)
read_host-append p left hostlen selectorlen (c ∷ s) rest a e h k = ground (
  arith,
  read_host-append (record p { host = p.host ++ c ∷ [] }) left (pred_ushort hostlen) selectorlen s
      rest,
  append_assoc p.host (c ∷ []) s,
)

pub read_selector-all :
    (p : UrlParts) (selectorlen : ℕ) (s : Bytes)
    → length s < selectorlen
    → selectorlen < 65536
    → read_selector p selectorlen s ≡ record p { selector = p.selector ++ s }
unfolding read_selector
read_selector-all p selectorlen [] h k = rw append-nil
read_selector-all p selectorlen (c ∷ s) h k = ground (
  arith,
  read_selector-all (record p { selector = p.selector ++ c ∷ [] }) (pred_ushort selectorlen) s,
  append_assoc p.selector (c ∷ []) s,
)

read_port-append :
    (p : UrlParts) (selectorlen : ℕ) (token s rest : Bytes)
    → All Digit s
    → read_port p selectorlen token (s ++ rest) ≡ read_port p selectorlen (token ++ s) rest
unfolding read_port
read_port-append p selectorlen token [] rest a = rw append-nil
read_port-append p selectorlen token (c ∷ s) rest a =
    ground (
      arith,
      read_port-append p selectorlen (token ++ c ∷ []) s rest,
      append_assoc token (c ∷ []) s,
    )

-- A selector behind its type ends the URL.
read_type-path :
    (p : UrlParts) (selectorlen itemtype : ℕ) (selector : Bytes)
    → p.protocol ≡ 1
    → p.selector ≡ []
    → length selector < selectorlen
    → selectorlen < 65536
    → read_type p selectorlen (itemtype ∷ selector)
      ≡ record p { itemtype = itemtype; selector = selector }
unfolding read_type
read_type-path p selectorlen itemtype selector g e h k =
    ground (arith, read_selector-all (record p { itemtype = itemtype }) selectorlen selector)

module _ (p : UrlParts) (selectorlen itemtype : ℕ) (selector : Bytes) (gopher : p.protocol ≡ 1)
    (empty : p.selector ≡ []) (menu : p.itemtype ≡ b'1') (fits : length selector < selectorlen)
    (ushort : selectorlen < 65536) where
  read_host-path :
      (hostlen : ℕ)
      → read_host p hostlen selectorlen (path_of itemtype selector)
        ≡ record p { itemtype = itemtype; selector = selector }
  unfolding read_host
  read_host-path hostlen =
      ground (arith, read_type-path p selectorlen itemtype selector gopher empty fits ushort)

  read_port-path :
      (token : Bytes)
      → read_port p selectorlen token (path_of itemtype selector)
        ≡ record p { port = to_ushort (atoi token); itemtype = itemtype; selector = selector }
  unfolding read_port
  read_port-path token = ground (
    arith,
    read_type-path (record p { port = to_ushort (atoi token) }) selectorlen itemtype selector gopher
        empty fits ushort,
  )

  read_host-port_path :
      (hostlen port : ℕ)
      → port < 65536
      → p.port ≡ 70
      → read_host p hostlen selectorlen (port_part 70 port ++ path_of itemtype selector)
        ≡ record p { port = port; itemtype = itemtype; selector = selector }
  unfolding read_host port_part
  read_host-port_path hostlen port h d = elim (Bool-cases (port == 70)) [
    | inl default ↦ rw default (read_host-path hostlen ∙ ground arith)
    | inr other ↦ rw other (
        read_port-append p selectorlen [] (print_u port) (path_of itemtype selector)
          (print_u-Digit port)
        ∙ read_port-path (print_u port)
        ∙ ap (λ (n : ℕ). record p { port = n; itemtype = itemtype; selector = selector })
            (to_ushort-print_u port h))
  ]

gopher_protocol :
    (rest : Bytes) (hostlen selectorlen : ℕ)
    → parsegopherurl (codes "gopher://" ++ rest) hostlen selectorlen
      ≡ read_host default_parts hostlen selectorlen rest
unfolding parsegopherurl
gopher_protocol rest hostlen selectorlen = refl

-- A location that fits the buffers of `parsegopherurl`, with no delimiter in the host.
pub record Readable (hostlen selectorlen : ℕ) (host : Bytes) (port : ℕ) (selector : Bytes)
    : Type 0 where
  pub host_bytes : All HostByte host
  pub host_fits : length host < hostlen
  pub host_ushort : hostlen < 65536
  pub port_ushort : port < 65536
  pub selector_fits : length selector < selectorlen
  pub selector_ushort : selectorlen < 65536

pub parsegopherurl-url_of :
    (hostlen selectorlen : ℕ) (host : Bytes) (port itemtype : ℕ) (selector : Bytes)
    → Readable hostlen selectorlen host port selector
    → parsegopherurl (url_of host port itemtype selector) hostlen selectorlen
      ≡ record { protocol = 1; host = host; port = port; itemtype = itemtype; selector = selector }
unfolding url_of
parsegopherurl-url_of hostlen selectorlen host port itemtype selector h =
    gopher_protocol (host ++ (port_part 70 port ++ path_of itemtype selector)) hostlen selectorlen
    ∙ read_host-append default_parts (hostlen - length host) hostlen selectorlen host _ h.host_bytes
        (omega (arith, h.host_fits)) (omega (arith, h.host_fits)) h.host_ushort
    ∙ read_host-port_path (record default_parts { host = host }) selectorlen itemtype selector refl
        refl refl h.selector_fits h.selector_ushort (hostlen - length host) port h.port_ushort refl
