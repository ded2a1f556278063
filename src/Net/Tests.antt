-- ===== src/Net/Tests.antt =====
-- Tests of the network backends, and the theorems at concrete runs.
use gopherus.Base.{◌≡◌, refl, List, [], ◌∷◌, codes, true, false, pos, negsuc, minus_one}
use gopherus.Net.{Resources, Call, run, Balanced}
use gopherus.Net.Sessions.{run-backends}
use gopherus.Net.Watt.{watt}
use gopherus.Net.Bsd.{bsd, Outcome, Errno, net_recv, net_isconnected, net_connect, family_of}

-- A pause is no end of the connection, and an end of the connection no pause.
would_block : net_recv (pos 1) (negsuc 0) Errno.eagain ≡ pos 0
unfolding net_recv
would_block = refl

shut_down : net_recv (pos 1) (pos 0) Errno.other ≡ minus_one
unfolding net_recv
shut_down = refl

refused : net_isconnected (pos 1) (pos 0) (pos 111) Errno.other ≡ minus_one
unfolding net_isconnected
refused = refl

-- A socket that connects later, and one that is refused at once.
abbrev later : Outcome
later = record {
  pton = λ f ip. true;
  malloc = true;
  socket = pos 3;
  connect = λ f ip port. minus_one;
  errno = Errno.einprogress;
}

abbrev unreachable : Outcome
unreachable = record later { errno = Errno.other }

abbrev none_held : Resources
none_held = record { blocks = 0; sockets = 0 }

fails : net_connect unreachable (codes "::1") 70 none_held ≡ (false, none_held)
unfolding net_connect family_of
fails = refl

abbrev calls : List (Call bsd)
unfolding bsd
calls =
    Call.connect later (codes "10.0.0.1") 70
    ∷ Call.connect unreachable (codes "::1") 70
    ∷ Call.close
    ∷ []

abbrev refused_there : List (Call watt)
unfolding watt
refused_there =
    Call.connect (record { inet_addr = λ ip. 1; calloc = true; tcp_open = false })
      (codes "10.0.0.1") 70
    ∷ []

run-backends_example :
    Balanced bsd none_held (run bsd calls (record { sockets = 0; held = none_held }))
    × Balanced watt none_held (run watt refused_there (record { sockets = 0; held = none_held }))
run-backends_example =
    run-backends none_held calls (record { sockets = 0; held = none_held }) refused_there
      (record { sockets = 0; held = none_held }) (record { blocks = refl; opens = refl })
      (record { blocks = refl; opens = refl })
