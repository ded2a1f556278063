-- ===== src/Load/Transfer.antt =====
-- What a call of `loadfile_buff` leaves open, and on the disk.
use gopherus.Base.{
  ℕ, ◌+◌, ◌-◌, ◌≡◌, ◌≢◌, refl, subst, Bool, true, false, not, ◌&&◌, List, [], ◌∷◌, length, ltb, leb,
  ◌==◌, Bytes, Option, some, none, if◌then◌else◌, Bool-cases, inl, inr, minus_one, get_or,
}
use gopherus.DnsCache.{Entry, dnscache_ask}
use gopherus.Url.Parse.{parseurl_proto_http}
use gopherus.Load.{
  Received, bytes, nothing, closed, Skipped, Socket, connected, no_socket, closed_socket, aborted,
  Held, Status, on_received, pending, refused, key_pressed, established, connection_error,
  send_error, bad_headers, dns_failed, not_created, exists, silent, no_selector, aborted_by_user,
  too_long, timed_out, write_error, abort_socket, Loaded, fail, Event, Progress, got, finish,
  Outcome, done, more_to_come, overflow, receive, Connection, Outside, received_payload, payload,
  after_headers, resolved_host, body, failed, waiting, overrun, connecting, connect, from_host,
  embedded_page, loadfile_buff, http_skip_headers,
}

-- No file is open and no socket connected, and a call that fails has removed its file.
pub record Tidy (l : Loaded) : Type 0 where
  pub file_closed : l.held.fd ≡ false
  pub socket_closed : l.held.sock ≢ connected
  pub removed : l.result ≡ minus_one → l.held.file ≡ none

Ok : Outcome → Type 0
Ok (done l) = Tidy l
Ok more_to_come = Unit
Ok overflow = Unit

-- A file is there only while it is open.
Fine : Held → Type 0
Fine h = h.fd ≡ false → h.file ≡ none

abort_socket-closed : (s : Socket) → abort_socket s ≢ connected
unfolding abort_socket
abort_socket-closed no_socket = λ e. cc
abort_socket-closed connected = λ e. cc
abort_socket-closed closed_socket = λ e. cc
abort_socket-closed aborted = λ e. cc

file-removed :
    (b : Bool) (f : Option Bytes) → (b ≡ false → f ≡ none) → (if b then none else f) ≡ none
file-removed true f h = refl
file-removed false f h = h refl

fail-Tidy : (s : Status) (b : Bytes) (h : Held) → Fine h → Tidy (fail s b h)
unfolding fail Fine
fail-Tidy s b h f = record {
  file_closed = refl;
  socket_closed = abort_socket-closed h.sock;
  removed = λ e. file-removed h.fd h.file f;
}

got-Fine : (p : Progress) (bs : Bytes) (time : ℕ) → Fine p.held → Fine (got p bs time).held
unfolding Fine got
got-Fine p bs time f = elim (Bool-cases p.held.fd) [
  | inl used ↦ rw used (λ e. cc)
  | inr shut ↦ rw shut (λ e. f shut)
]

finish-Tidy :
    (sock : Socket) (s : Status) (p : Progress)
    → sock ≢ connected
    → Fine p.held
    → Tidy (finish sock s p)
unfolding finish Fine
finish-Tidy sock s p n f = elim (Bool-cases (p.totlen == 0)) [
  | inl empty ↦ rw empty (fail-Tidy no_selector p.buffer (record p.held { sock = sock }) f)
  | inr some_bytes ↦
      rw some_bytes (record { file_closed = refl; socket_closed = n; removed = λ e. cc })
]

Ok-if : (b : Bool) (x y : Outcome) → Ok x → Ok y → Ok (if b then x else y)
Ok-if true x y h k = h
Ok-if false x y h k = k

on_received-Ok :
    (r : Received) (idle end : Outcome) (more : Bytes → Outcome)
    → Ok idle
    → Ok end
    → ((bs : Bytes) → Ok (more bs))
    → Ok (on_received r idle end more)
on_received-Ok (bytes bs) idle end more a b c = c bs
on_received-Ok nothing idle end more a b c = a
on_received-Ok closed idle end more a b c = b

receive-Ok :
    (buffer_max : ℕ) (p : Progress) (es : List Event) → Fine p.held → Ok (receive buffer_max p es)
unfolding receive Ok
receive-Ok buffer_max p [] f = tt
receive-Ok buffer_max p (e ∷ es) f =
    let failed : (s : Status) → Tidy (fail s p.buffer p.held) =
      λ s. fail-Tidy s p.buffer p.held f in
    Ok-if e.abort_key (done (fail aborted_by_user p.buffer p.held)) _ (failed aborted_by_user) (
      Ok-if (leb buffer_max (length p.buffer)) (done (finish aborted too_long p)) _
        (finish-Tidy aborted too_long p (λ x. cc) f)
        (on_received-Ok e.received _ (done (finish closed_socket silent p)) _
          (Ok-if (ltb (p.lastactivity + 20) e.time) (done (fail timed_out p.buffer p.held))
            (receive buffer_max p es) (failed timed_out) (receive-Ok buffer_max p es f))
          (finish-Tidy closed_socket silent p (λ x. cc) f)
          (λ bs. Ok-if (ltb (buffer_max - length p.buffer) (length bs)) overflow _ tt (
            Ok-if (p.held.fd && not e.writable) (done (fail write_error p.buffer p.held))
              (receive buffer_max (got p bs e.time) es) (failed write_error)
              (receive-Ok buffer_max (got p bs e.time) es (got-Fine p bs e.time f))))))

payload-Ok :
    (buffer_max : ℕ) (o : Outside) (h : Held) (kept : Bytes)
    → Fine h
    → Ok (payload buffer_max o h kept)
unfolding payload
payload-Ok buffer_max o h kept f = receive-Ok buffer_max _ o.events f

after_headers-Ok :
    (buffer_max : ℕ) (o : Outside) (h : Held) (s : Skipped)
    → Fine h
    → Ok (after_headers buffer_max o h s)
unfolding after_headers Ok
after_headers-Ok buffer_max o h (body kept) f = payload-Ok buffer_max o h kept f
after_headers-Ok buffer_max o h failed f = fail-Tidy bad_headers [] h f
after_headers-Ok buffer_max o h waiting f = tt
after_headers-Ok buffer_max o h overrun f = tt

received_payload-Ok :
    (protocol buffer_max : ℕ) (o : Outside) (h : Held)
    → Fine h
    → Ok (received_payload protocol buffer_max o h)
unfolding received_payload
received_payload-Ok protocol buffer_max o h f =
    Ok-if (protocol == parseurl_proto_http)
      (after_headers buffer_max o h (http_skip_headers buffer_max 2 [] o.headers))
      (payload buffer_max o h []) (after_headers-Ok buffer_max o h _ f)
      (payload-Ok buffer_max o h [] f)

connecting-Ok :
    (protocol buffer_max : ℕ) (o : Outside) (h : Held) (cs : List Connection)
    → Fine h
    → Ok (connecting protocol buffer_max o h cs)
unfolding connecting Ok
connecting-Ok protocol buffer_max o h [] f = tt
connecting-Ok protocol buffer_max o h (pending ∷ cs) f = connecting-Ok protocol buffer_max o h cs f
connecting-Ok protocol buffer_max o h (refused ∷ cs) f = fail-Tidy connection_error [] h f
connecting-Ok protocol buffer_max o h (key_pressed ∷ cs) f = fail-Tidy aborted_by_user [] h f
connecting-Ok protocol buffer_max o h (established ∷ cs) f =
    Ok-if o.all_sent (received_payload protocol buffer_max o h) (done (fail send_error [] h))
      (received_payload-Ok protocol buffer_max o h f) (fail-Tidy send_error [] h f)

connect-Ok :
    (protocol buffer_max : ℕ) (o : Outside) (h : Held)
    → Fine h
    → Ok (connect protocol buffer_max o h)
unfolding connect Ok Fine
connect-Ok protocol buffer_max o h f =
    Ok-if o.socket_made
      (connecting protocol buffer_max o (record h { sock = connected }) o.connections)
      (done (fail connection_error [] h))
      (connecting-Ok protocol buffer_max o (record h { sock = connected }) o.connections f)
      (fail-Tidy connection_error [] h f)

resolved_host-Ok :
    (protocol buffer_max : ℕ) (o : Outside) (host : Bytes) (table : List Entry) (h : Held)
    (cached answer : Option Bytes)
    → Fine h
    → Ok (resolved_host protocol buffer_max o host table h cached answer).0
unfolding resolved_host Ok
resolved_host-Ok protocol buffer_max o host table h (some addr) answer f =
    connect-Ok protocol buffer_max o h f
resolved_host-Ok protocol buffer_max o host table h none none f = fail-Tidy dns_failed [] h f
resolved_host-Ok protocol buffer_max o host table h none (some addr) f =
    connect-Ok protocol buffer_max o h f

Ok-if_pair : (b : Bool) (x y : Outcome × List Entry) → Ok x.0 → Ok y.0 → Ok (if b then x else y).0
Ok-if_pair true x y h k = h
Ok-if_pair false x y h k = k

from_host-Ok :
    (protocol buffer_max : ℕ) (o : Outside) (host : Bytes) (table : List Entry) (h : Held)
    → Fine h
    → Ok (from_host protocol buffer_max o host table h).0
unfolding from_host
from_host-Ok protocol buffer_max o host table h f =
    resolved_host-Ok protocol buffer_max o host table h (dnscache_ask o.now host table) o.resolved f

loadfile_buff-Ok :
    (protocol : ℕ) (host : Bytes) (buffer_max : ℕ) (to_file : Bool) (o : Outside)
    (table : List Entry)
    → Ok (loadfile_buff protocol host buffer_max to_file o table).0
unfolding loadfile_buff Ok Fine
loadfile_buff-Ok protocol host buffer_max false o table =
    let h : Held = record { fd = false; file = none; sock = no_socket } in
    Ok-if_pair (get_or host 0 0 == b'#') (done (embedded_page o h), table)
      (from_host protocol buffer_max o host table h)
      (record { file_closed = refl; socket_closed = λ e. cc; removed = λ e. cc })
      (from_host-Ok protocol buffer_max o host table h (λ e. refl))
loadfile_buff-Ok protocol host buffer_max true o table =
    let idle : Held = record { fd = false; file = none; sock = no_socket } in
    let h : Held = record { fd = true; file = some []; sock = no_socket } in
    let kept : Loaded = record { result = minus_one; buffer = []; held = idle; status = exists } in
    Ok-if_pair o.file_exists (done kept, table) _
      (record { file_closed = refl; socket_closed = λ e. cc; removed = λ e. refl })
      (Ok-if_pair (not o.file_created) (done (fail not_created [] idle), table) _
        (fail-Tidy not_created [] idle (λ e. refl))
        (Ok-if_pair (get_or host 0 0 == b'#') (done (embedded_page o h), table)
          (from_host protocol buffer_max o host table h)
          (record { file_closed = refl; socket_closed = λ e. cc; removed = λ e. cc })
          (from_host-Ok protocol buffer_max o host table h (λ e. cc))))

-- Whatever the network, the user, the clock and the disk do, a call that returns leaves no open file
-- and no connected socket, and where it returns -1 it leaves no file of its own on the disk.
pub loadfile_buff-Tidy :
    (protocol : ℕ) (host : Bytes) (buffer_max : ℕ) (to_file : Bool) (o : Outside)
    (table : List Entry) (l : Loaded)
    → (loadfile_buff protocol host buffer_max to_file o table).0 ≡ done l
    → Tidy l
unfolding Ok
loadfile_buff-Tidy protocol host buffer_max to_file o table l e =
    subst Ok e (loadfile_buff-Ok protocol host buffer_max to_file o table)
