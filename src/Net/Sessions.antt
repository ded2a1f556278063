-- ===== src/Net/Sessions.antt =====
-- Sessions of connections over the two backends.
use gopherus.Base.{List}
use gopherus.Net.{Resources, Call, Client, run, Balanced, run-Balanced}
use gopherus.Net.Bsd.{bsd}
use gopherus.Net.Watt.{watt}

-- Whatever a client connects to and closes, and whatever the calls of the system or the stack give,
-- it holds a block and a socket for each of its sockets, and those of others (`r`) are left alone: over
-- the BSD sockets and over Watt-32, for a client that starts with a block and a socket for each.
pub run-backends :
    (r : Resources) (xs : List (Call bsd)) (c : Client bsd) (ys : List (Call watt))
    (d : Client watt)
    → Balanced bsd r c
    → Balanced watt r d
    → Balanced bsd r (run bsd xs c) × Balanced watt r (run watt ys d)
run-backends r xs c ys d h k = (run-Balanced bsd r xs c h, run-Balanced watt r ys d k)
