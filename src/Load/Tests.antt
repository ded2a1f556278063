-- ===== src/Load/Tests.antt =====
-- Tests of the transfers, and the theorems at concrete inputs.
use gopherus.Base.{
  ◌≡◌, refl, true, false, some, none, List, [], ◌∷◌, ◌++◌, take, codes, arith, minus_one, Bytes,
}
use gopherus.DnsCache.{dnscache_ask}
use gopherus.Load.{
  got, fail, bytes, nothing, closed, http_skip_headers, body, Socket, Loaded, Event, Progress,
  receive, done, established, pending, Outside, loadfile_buff, timed_out, aborted,
}
use gopherus.Load.Messages.{loadfile_bar}
use gopherus.Load.Messages.Hidden.{loadfile_bar-resolving}
use gopherus.Load.Headers.{http_skip_headers-body}
use gopherus.Load.Transfer.{Tidy, loadfile_buff-Tidy}
use gopherus.Load.Content.{
  Brings, brings, idles, ends, memory, writing, on_disk, receive-memory, receive-file,
}

abbrev chunk : Bytes → Event
chunk bs = record { abort_key = false; received = bytes bs; time = 5; writable = true }

abbrev idle : Event
idle = record { abort_key = false; received = nothing; time = 9; writable = true }

abbrev close : Event
close = record { abort_key = false; received = closed; time = 9; writable = true }

abbrev events : List Event
events = chunk (codes "ab") ∷ idle ∷ chunk (codes "c") ∷ close ∷ []

events-Brings : Brings 16 0 events (codes "abc")
events-Brings =
    brings 0 (chunk (codes "ab")) (idle ∷ chunk (codes "c") ∷ close ∷ []) (codes "ab") (codes "c")
      refl refl refl (omega arith)
      (idles 5 idle (chunk (codes "c") ∷ close ∷ []) (codes "c") refl refl (omega arith) (
        brings 5 (chunk (codes "c")) (close ∷ []) (codes "c") [] refl refl refl (omega arith)
          (ends 5 close [] refl refl)))

abbrev at_start : Progress
at_start = record {
  buffer = codes "<";
  totlen = 0;
  lastactivity = 0;
  held = record { fd = false; file = none; sock = Socket.connected };
}

-- One byte was kept of the headers: four are in the buffer, and the result is 3.
receive-memory_example : receive 16 at_start events ≡ done (memory 3 (codes "<abc") at_start.held)
receive-memory_example =
    receive-memory 16 16 0 at_start events (codes "abc") events-Brings refl refl (omega arith)
      (omega arith)

receive-file_example : receive 16 (writing [] 0 0) events ≡ done (on_disk 3 (codes "abc"))
receive-file_example =
    receive-file 16 0 [] 0 events (codes "abc") events-Brings (omega arith) (omega arith)

abbrev outside : Outside
outside = record {
  file_exists = false;
  file_created = true;
  embedded = [];
  now = 1000;
  resolved = some (codes "10.0.0.1");
  socket_made = true;
  connections = pending ∷ established ∷ [];
  all_sent = true;
  started = 0;
  headers = [];
  events =
      chunk (codes "ab")
      ∷ record { abort_key = false; received = nothing; time = 26; writable = true }
      ∷ [];
}

abbrev timeout : Loaded
timeout = record {
  result = minus_one;
  buffer = [];
  held = record { fd = false; file = none; sock = aborted };
  status = timed_out;
}

stopped : (loadfile_buff 1 (codes "a.org") 16 true outside []).0 ≡ done timeout
unfolding loadfile_buff dnscache_ask got fail
stopped = refl

loadfile_buff-Tidy_example : Tidy timeout
loadfile_buff-Tidy_example = loadfile_buff-Tidy 1 (codes "a.org") 16 true outside [] timeout stopped

http_skip_headers-body_example :
    http_skip_headers 64 2 []
      (record { elapsed = 1; received = bytes (codes "OK\r\nA: b\r\n\r\n\nx") } ∷ [])
    ≡ body (codes "\nx")
http_skip_headers-body_example =
    http_skip_headers-body 64 2 1 (codes "OK") (codes "A: b" ∷ []) (codes "\nx") []
      (
        record { first = b'O'; others = codes "K"; whole = refl; plain = omega arith },
        (record { first = b'A'; others = codes ": b"; whole = refl; plain = omega arith }, tt),
      )
      (omega arith) (omega arith)

-- The name is not known, and the row still says that it is looked for.
abbrev unknown : Outside
unknown = record outside { resolved = none; events = [] }

loadfile_bar-resolving_example :
    loadfile_bar 1 (codes "a.org") 100 false unknown [] []
    ≡ take 127 (codes "Resolving '" ++ (codes "a.org" ++ codes "'..."))
loadfile_bar-resolving_example =
    loadfile_bar-resolving 1 (codes "a.org") 100 unknown [] (λ e. ground arith)
      (unfold dnscache_ask in refl) refl

-- A transfer that ends at once says so only behind a row that was drawn.
drawn_first :
    loadfile_bar 1 (codes "a.org") 100 false (record outside { events = close ∷ [] }) [] []
    ≡ codes "!Error: selector does not exist"
unfolding loadfile_bar dnscache_ask gopherus.Screen.status_msg
drawn_first = refl
