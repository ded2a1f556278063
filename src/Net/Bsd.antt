-- ===== src/Net/Bsd.antt =====
-- net/net-bsd.c on a POSIX system: the wrappers of its sockets. What the calls of the system give is
-- an argument.
pub mod Address
use gopherus.Base.{
  ℕ, suc, ◌+◌, ◌-◌, ◌≡◌, refl, Bool, true, false, not, ◌&&◌, ◌||◌, List, [], ◌∷◌, ◌==◌,
  if◌then◌else◌, Bytes, Option, none, some, ℤ, pos, negsuc, minus_one, ltb_ℤ, is_zero, ap, ap₂,
  arith, Bool-cases, inl, inr, Option-cases, ◌↔◌,
}
use gopherus.Net.{
  Resources, Fitting, Fitting-if, Fitting-nothing, Fitting-made, Fitting-block, Fitting-both,
  both_back, Backend,
}

pub data Family : Type 0 where
  inet inet6 : Family

pub data Errno : Type 0 where
  einprogress eagain ewouldblock enoprotoopt other : Errno

abbrev is_minus_one : ℤ → Bool
is_minus_one (pos n) = false
is_minus_one (negsuc n) = n == 0

abbrev is_einprogress : Errno → Bool
is_einprogress Errno.einprogress = true
is_einprogress _ = false

abbrev is_again : Errno → Bool
is_again Errno.eagain = true
is_again Errno.ewouldblock = true
is_again _ = false

abbrev is_enoprotoopt : Errno → Bool
is_enoprotoopt Errno.enoprotoopt = true
is_enoprotoopt _ = false

-- The loop that detects the family; none at the end of the string.
unfoldable pub family_of : Bytes → Option Family
family_of [] = none
family_of (c ∷ ip) =
    let more = family_of ip in
    if c == b'.'
    then some Family.inet
    else if c == b':'
    then some Family.inet6
    else if c == 0
    then none
    else more

-- getaddrinfo's result and the family of its first address, none for another one; `ntop` is what
-- inet_ntop writes, or none.
pub record Lookup : Type 0 where
  pub getaddrinfo : ℤ
  pub ai_family : Option Family
  pub ntop : Family → Option Bytes

-- The address in `ip`; none is the result -1.
unfoldable pub net_dnsresolve : Lookup → Option Bytes
net_dnsresolve l =
    let converted : Option Bytes = elim l.ai_family [ none ↦ none | some f ↦ l.ntop f ] in
    if not (is_zero l.getaddrinfo) then none else converted

-- What the calls of net_connect give: `pton` tells whether inet_pton returns 1, and `connect` has
-- the address and the port as arguments.
pub record Outcome : Type 0 where
  pub pton : Family → Bytes → Bool
  pub malloc : Bool
  pub socket : ℤ
  pub connect : Family → Bytes → ℕ → ℤ
  pub errno : Errno

-- The socket, from the test of its number on; a block is allocated, and `connect` is what connecting
-- gives.
opened : Outcome → ℤ → Resources → Bool × Resources
opened o connect r =
    let held : Resources = record r { sockets = r.sockets + 1 } in
    if ltb_ℤ o.socket (pos 0)
    then (false, record r { blocks = r.blocks - 1 })
    else if ltb_ℤ connect (pos 0) && not (is_einprogress o.errno)
    then (false, record { blocks = held.blocks - 1; sockets = held.sockets - 1 })
    else (true, held)

-- Whether a socket is returned, and what is allocated then.
unfoldable pub net_connect : Outcome → Bytes → ℕ → Resources → Bool × Resources
unfolding opened family_of
net_connect o ipaddr port r = elim (family_of ipaddr) [
  | none ↦ (false, r)
  | some af ↦
      if not (o.pton af ipaddr)
      then (false, r)
      else if not o.malloc
      then (false, r)
      else opened o (o.connect af ipaddr port) (record r { blocks = r.blocks + 1 })
]

-- net_close, and net_abort, which calls it
unfoldable pub net_close : Resources → Resources
net_close r = record { blocks = r.blocks - 1; sockets = r.sockets - 1 }

-- `select` is its result for writing; `rc` and `so_error` are what getsockopt gives.
unfoldable pub net_isconnected : ℤ → ℤ → ℤ → Errno → ℤ
net_isconnected select rc so_error errno =
    if ltb_ℤ select (pos 0)
    then minus_one
    else if is_zero select
    then pos 0
    else if is_minus_one rc && is_enoprotoopt errno
    then pos 1
    else if not (is_zero so_error) || not (is_zero rc)
    then minus_one
    else pos 1

-- `select` is its result for reading, `recv` that of recv.
unfoldable pub net_recv : ℤ → ℤ → Errno → ℤ
net_recv select recv errno =
    if ltb_ℤ select (pos 0)
    then minus_one
    else if is_zero select
    then pos 0
    else if ltb_ℤ recv (pos 0) && is_again errno
    then pos 0
    else if is_zero recv
    then minus_one
    else recv

opened-Fitting :
    (o : Outcome) (connect : ℤ) (r : Resources)
    → Fitting r (opened o connect (record r { blocks = r.blocks + 1 }))
unfolding opened
opened-Fitting o connect r =
    Fitting-if r _ _ _ (Fitting-block r) (Fitting-if r _ _ _ (Fitting-both r) (Fitting-made r))

pub net_connect-Fitting :
    (o : Outcome) (ipaddr : Bytes) (port : ℕ) (r : Resources)
    → Fitting r (net_connect o ipaddr port r)
unfolding net_connect
net_connect-Fitting o ipaddr port r = elim (Option-cases (family_of ipaddr)) [
  | inl unknown ↦ rw (net_connect, unknown) (Fitting-nothing r)
  | inr (af, known) ↦
      rw (net_connect, known)
        (Fitting-if r _ _ _ (Fitting-nothing r)
          (Fitting-if r _ _ _ (Fitting-nothing r) (opened-Fitting o (o.connect af ipaddr port) r)))
]

pub net_close-both :
    (r : Resources) → net_close (record { blocks = r.blocks + 1; sockets = r.sockets + 1 }) ≡ r
unfolding net_close
net_close-both r = both_back r

-- The backend of the BSD sockets.
unfoldable pub bsd : Backend
bsd = record {
  Outcome = Outcome;
  net_connect = net_connect;
  net_close = net_close;
  connect_law = net_connect-Fitting;
  close_law = net_close-both;
}
