-- ===== src/Net/Watt.antt =====
-- net/net-w32.c: the wrappers of the Watt-32 stack. What its calls give is an argument.
use gopherus.Base.{
  ℕ, ◌+◌, ◌-◌, ◌≡◌, Bool, true, false, not, ◌==◌, if◌then◌else◌, Bytes, Option, none, some, ℤ, pos,
  minus_one,
}
use gopherus.Net.{
  Resources, Fitting, Fitting-if, Fitting-nothing, Fitting-made, Fitting-both, both_back, Backend,
}

-- The address that `resolve` gives, as `_inet_ntoa` writes it; none is the result -1.
unfoldable pub net_dnsresolve : (ℕ → Bytes) → ℕ → Option Bytes
net_dnsresolve inet_ntoa ipnum = if ipnum == 0 then none else some (inet_ntoa ipnum)

-- `inet_addr` reads an address, or gives 0.
pub record Outcome : Type 0 where
  pub inet_addr : Bytes → ℕ
  pub calloc : Bool
  pub tcp_open : Bool

-- Whether a socket is returned, and what is allocated then. The socket of the stack is a part of the
-- block, which is in use from tcp_open to sock_abort.
unfoldable pub net_connect : Outcome → Bytes → ℕ → Resources → Bool × Resources
net_connect o ipstr port r =
    let held : Resources = record { blocks = r.blocks + 1; sockets = r.sockets + 1 } in
    if o.inet_addr ipstr == 0
    then (false, r)
    else if not o.calloc
    then (false, r)
    else if not o.tcp_open
    then (false, record { blocks = held.blocks - 1; sockets = held.sockets - 1 })
    else (true, held)

-- net_abort, and net_close, which calls it
unfoldable pub net_abort : Resources → Resources
net_abort r = record { blocks = r.blocks - 1; sockets = r.sockets - 1 }

-- `tick` and `established` are what tcp_tick and sock_established give.
unfoldable pub net_isconnected : ℕ → ℕ → ℤ
net_isconnected tick established =
    if tick == 0 then minus_one else if established == 0 then pos 0 else pos 1

-- `written` is the result of sock_write.
unfoldable pub net_send : ℕ → ℤ → ℤ
net_send tick written = if tick == 0 then minus_one else written

-- `read` is the result of sock_fastread.
unfoldable pub net_recv : ℕ → ℤ → ℤ
net_recv tick read = if tick == 0 then minus_one else read

pub net_connect-Fitting :
    (o : Outcome) (ipstr : Bytes) (port : ℕ) (r : Resources)
    → Fitting r (net_connect o ipstr port r)
unfolding net_connect
net_connect-Fitting o ipstr port r = Fitting-if r (o.inet_addr ipstr == 0) _ _ (Fitting-nothing r) (
    Fitting-if r (not o.calloc) _ _ (Fitting-nothing r)
      (Fitting-if r (not o.tcp_open) _ _ (Fitting-both r) (Fitting-made r)))

pub net_abort-both :
    (r : Resources) → net_abort (record { blocks = r.blocks + 1; sockets = r.sockets + 1 }) ≡ r
unfolding net_abort
net_abort-both r = both_back r

-- The backend of Watt-32.
unfoldable pub watt : Backend
watt = record {
  Outcome = Outcome;
  net_connect = net_connect;
  net_close = net_abort;
  connect_law = net_connect-Fitting;
  close_law = net_abort-both;
}
