-- ===== src/Url/Parse.antt =====
-- `parsegopherurl` of parseurl.c. The URL is a string without its nul; what the function writes
-- through its pointers is a record. The states of the parser are functions: each is the loop while
-- `parserstate` has that value. (The C code also puts a nul over the colon behind a protocol in the
-- caller's URL.)
pub mod Reading
use gopherus.Base.{
  ℕ, suc, zero, ◌+◌, ◌-◌, ◌%◌, Bool, true, false, ◌&&◌, Option, none, some, List, [], ◌∷◌, ◌++◌,
  ◌==◌, if◌then◌else◌, Bytes, codes, strcasecmp_eq, atoi, to_ushort,
}

abbrev pub parseurl_proto_gopher : ℕ
parseurl_proto_gopher = 1

abbrev pub parseurl_proto_http : ℕ
parseurl_proto_http = 2

abbrev pub parseurl_proto_telnet : ℕ
parseurl_proto_telnet = 3

abbrev pub parseurl_error : ℕ
parseurl_error = 0xff

-- The result and the out-parameters; on an error they hold what was written so far.
pub record UrlParts : Type 0 where
  pub protocol : ℕ
  pub host : Bytes
  pub port : ℕ
  pub itemtype : ℕ
  pub selector : Bytes

abbrev pub default_parts : UrlParts
default_parts = record {
  protocol = parseurl_proto_gopher;
  host = [];
  port = 70;
  itemtype = b'1';
  selector = [];
}

abbrev failed : UrlParts → UrlParts
failed p = record p { protocol = parseurl_error }

-- the decrement of an unsigned short
abbrev pub pred_ushort : ℕ → ℕ
pred_ushort n = (n + 65535) % 65536

-- `case 3`
pub read_selector : UrlParts → ℕ → Bytes → UrlParts
read_selector p selectorlen [] = p
read_selector p selectorlen (c ∷ url) =
    let p' = record p { selector = p.selector ++ c ∷ [] } in
    let more = read_selector p' (pred_ushort selectorlen) url in
    if pred_ushort selectorlen == 0 then failed p' else more

-- `case 2`, which goes on to `case 3` in the same round
pub read_type : UrlParts → ℕ → Bytes → UrlParts
unfolding read_selector
read_type p selectorlen [] = read_selector p selectorlen []
read_type p selectorlen (c ∷ url) =
    if p.protocol == parseurl_proto_gopher
    then read_selector (record p { itemtype = c }) selectorlen url
    else read_selector p selectorlen (c ∷ url)

-- `case 1`; `token` is what stands from `curtoken` on
pub read_port : UrlParts → ℕ → Bytes → Bytes → UrlParts
unfolding read_type atoi
read_port p selectorlen token [] = record p { port = to_ushort (atoi token) }
read_port p selectorlen token (c ∷ url) =
    let more = read_port p selectorlen (token ++ c ∷ []) url in
    if c == b'/'
    then read_type (record p { port = to_ushort (atoi token) }) selectorlen url
    else more

-- `case 0`
pub read_host : UrlParts → ℕ → ℕ → Bytes → UrlParts
unfolding read_port read_type
read_host p hostlen selectorlen [] = p
read_host p hostlen selectorlen (c ∷ url) =
    let p' = record p { host = p.host ++ c ∷ [] } in
    let more = read_host p' (pred_ushort hostlen) selectorlen url in
    if c == b':'
    then read_port p selectorlen [] url
    else if c == b'/'
    then read_type p selectorlen url
    else if pred_ushort hostlen == 0
    then failed p'
    else more

-- What follows the first colon, if that ends a protocol's name.
after_colon : Bytes → Bytes → Option (Bytes × Bytes)
after_colon name (a ∷ b ∷ url) = if a == b'/' && b == b'/' then some (name, url) else none
after_colon name _ = none

-- The first loop: the protocol's name and what follows `://`, or `none` without a protocol.
pub split_protocol : Bytes → Bytes → Option (Bytes × Bytes)
unfolding after_colon
split_protocol name [] = none
split_protocol name (c ∷ url) =
    let more = split_protocol (name ++ c ∷ []) url in
    if c == b'/' then none else if c == b':' then after_colon name url else more

with_protocol : Bytes → Bytes → ℕ → ℕ → UrlParts
unfolding read_host
with_protocol name url hostlen selectorlen =
    if strcasecmp_eq name (codes "gopher")
    then read_host default_parts hostlen selectorlen url
    else if strcasecmp_eq name (codes "http")
    then read_host
        (record default_parts { protocol = parseurl_proto_http; port = 80; itemtype = b'h' })
        hostlen selectorlen url
    else if strcasecmp_eq name (codes "telnet")
    then read_host
        (record default_parts { protocol = parseurl_proto_telnet; port = 23; itemtype = b'8' })
        hostlen selectorlen url
    else failed default_parts

unfoldable pub parsegopherurl : Bytes → ℕ → ℕ → UrlParts
unfolding split_protocol with_protocol
parsegopherurl url hostlen selectorlen = elim (split_protocol [] url) [
  | none ↦ read_host default_parts hostlen selectorlen url
  | some (name, rest) ↦ with_protocol name rest hostlen selectorlen
]
