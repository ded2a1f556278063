-- ===== src/Load.antt =====
-- gopherus.c, loadfile_buff and http_skip_headers: one resource fetched into a buffer or a file. What
-- the network, the clock, the user and the disk do comes as a record and as lists of events.
mod Headers
mod Transfer
mod Content
pub mod Messages
mod Tests
use gopherus.Base.{
  ℕ, suc, zero, ◌+◌, ◌-◌, Bool, true, false, not, ◌&&◌, ◌||◌, List, [], ◌∷◌, ◌++◌, ltb, leb, ◌==◌,
  if◌then◌else◌, Bytes, Option, none, some, codes, ℤ, pos, minus_one, length, take, get_or,
}
use gopherus.Url.Parse.{parseurl_proto_http}
use gopherus.DnsCache.{Entry, dnscache_ask, dnscache_add}

-- What one call of `net_recv` brings.
pub data Received : Type 0 where
  bytes : Bytes → Received
  nothing : Received
  closed : Received

-- A search for the blank line behind the headers, from `buffer + i` to `buffer + res`: the bytes
-- behind it. `i < res - 2` leaves three bytes to look at.
pub find_body : Bytes → Option Bytes
find_body [] = none
find_body (a ∷ []) = none
find_body (a ∷ b ∷ []) = none
find_body (a ∷ b ∷ c ∷ rest) =
    let from_b = find_body (b ∷ c ∷ rest) in
    let from_c = find_body (c ∷ rest) in
    if not (a == b'\n')
    then from_b
    else if b == b'\r'
    then (if c == b'\n' then some rest else from_c)
    else if b == b'\n'
    then some (c ∷ rest)
    else from_b

pub data Skipped : Type 0 where
  failed waiting overrun : Skipped
  body : Bytes → Skipped

-- A turn of the loop of http_skip_headers: the seconds since its start, and what is received.
pub record Header : Type 0 where
  pub elapsed : ℕ
  pub received : Received

-- `buffer` holds the bytes received so far; a reception with no room for it is an overrun.
unfoldable pub http_skip_headers : ℕ → ℕ → Bytes → List Header → Skipped
unfolding find_body
http_skip_headers buffersz timeout buffer [] = waiting
http_skip_headers buffersz timeout buffer (h ∷ hs) =
    if ltb timeout h.elapsed
    then failed
    else if leb buffersz (length buffer)
    then failed
    else elim h.received [
      | nothing ↦ http_skip_headers buffersz timeout buffer hs
      | closed ↦ failed
      | bytes bs ↦
          if ltb (buffersz - length buffer) (length bs)
          then overrun
          else elim (find_body (buffer ++ bs)) [
            | some rest ↦ body rest
            | none ↦ http_skip_headers buffersz timeout (buffer ++ bs) hs
          ]
    ]

pub data Socket : Type 0 where
  no_socket connected closed_socket aborted : Socket

-- What the call holds: whether `fd` is open, what the file on disk is, and the socket.
pub record Held : Type 0 where
  pub fd : Bool
  pub file : Option Bytes
  pub sock : Socket

pub data Status : Type 0 where
  silent exists not_created dns_failed connection_error aborted_by_user send_error bad_headers
        too_long timed_out write_error no_selector saved :
      Status

-- What the call returns: the size or -1, what the buffer holds, and the last status message.
pub record Loaded : Type 0 where
  pub result : ℤ
  pub buffer : Bytes
  pub held : Held
  pub status : Status

-- `if (sock != NULL) net_abort(&sock);`
abort_socket : Socket → Socket
abort_socket connected = aborted
abort_socket s = s

-- The label FAIL: the file is closed and removed, and the connection aborted.
unfoldable pub fail : Status → Bytes → Held → Loaded
unfolding abort_socket
fail status buffer h = record {
  result = minus_one;
  buffer = buffer;
  held = record { fd = false; file = if h.fd then none else h.file; sock = abort_socket h.sock };
  status = status;
}

-- One turn of the loop that receives the payload.
pub record Event : Type 0 where
  pub abort_key : Bool
  pub received : Received
  pub time : ℕ
  pub writable : Bool

-- The variables of the loop; `reslength` bytes of `buffer` are kept.
pub record Progress : Type 0 where
  pub buffer : Bytes
  pub totlen : ℕ
  pub lastactivity : ℕ
  pub held : Held

-- `fwrite(buffer, 1, byteread, fd)` with `byteread` bytes received behind those kept
append_to : Option Bytes → Bytes → Bytes → Option Bytes
append_to file buffer bs = elim file [
  | none ↦ none
  | some written ↦ some (written ++ take (length bs) (buffer ++ bs))
]

unfoldable pub got : Progress → Bytes → ℕ → Progress
unfolding append_to
got p bs time =
    if p.held.fd
    then record p {
      totlen = p.totlen + length bs;
      lastactivity = time;
      held = record p.held { file = append_to p.held.file p.buffer bs };
    }
    else record p { buffer = p.buffer ++ bs; totlen = p.totlen + length bs; lastactivity = time }

-- Behind the loop.
pub finish : Socket → Status → Progress → Loaded
unfolding fail
finish sock status p =
    let h = record p.held { sock = sock } in
    if p.totlen == 0 then fail no_selector p.buffer h else record {
      result = pos p.totlen;
      buffer = p.buffer;
      held = record h { fd = false };
      status = if p.held.fd then saved else status;
    }

pub data Outcome : Type 0 where
  done : Loaded → Outcome
  more_to_come : Outcome
  overflow : Outcome

-- `byteread == 0`, `byteread < 0` and `byteread > 0`
abbrev pub on_received : Received → Outcome → Outcome → (Bytes → Outcome) → Outcome
on_received (bytes bs) idle end more = more bs
on_received nothing idle end more = idle
on_received closed idle end more = end

-- The loop; it waits at the end of the events.
unfoldable pub receive : ℕ → Progress → List Event → Outcome
receive buffer_max p [] = more_to_come
receive buffer_max p (e ∷ es) =
    if e.abort_key
    then done (fail aborted_by_user p.buffer p.held)
    else if leb buffer_max (length p.buffer)
    then done (finish aborted too_long p)
    else on_received e.received
        (if ltb (p.lastactivity + 20) e.time
          then done (fail timed_out p.buffer p.held)
          else receive buffer_max p es)
        (done (finish closed_socket silent p))
        (λ bs.
          if ltb (buffer_max - length p.buffer) (length bs)
          then overflow
          else if p.held.fd && not e.writable
          then done (fail write_error p.buffer p.held)
          else receive buffer_max (got p bs e.time) es)

-- The loop that waits for the connection.
pub data Connection : Type 0 where
  established refused key_pressed pending : Connection

pub record Outside : Type 0 where
  pub file_exists : Bool
  pub file_created : Bool
  pub embedded : Bytes
  pub now : ℕ
  pub resolved : Option Bytes
  pub socket_made : Bool
  pub connections : List Connection
  pub all_sent : Bool
  pub started : ℕ
  pub headers : List Header
  pub events : List Event

payload : ℕ → Outside → Held → Bytes → Outcome
payload buffer_max o h kept =
    receive buffer_max (record { buffer = kept; totlen = 0; lastactivity = o.started; held = h })
      o.events

after_headers : ℕ → Outside → Held → Skipped → Outcome
unfolding payload
after_headers buffer_max o h (body kept) = payload buffer_max o h kept
after_headers buffer_max o h failed = done (fail bad_headers [] h)
after_headers buffer_max o h waiting = more_to_come
after_headers buffer_max o h overrun = overflow

received_payload : ℕ → ℕ → Outside → Held → Outcome
unfolding after_headers
received_payload protocol buffer_max o h =
    if protocol == parseurl_proto_http
    then after_headers buffer_max o h (http_skip_headers buffer_max 2 [] o.headers)
    else payload buffer_max o h []

connecting : ℕ → ℕ → Outside → Held → List Connection → Outcome
unfolding received_payload
connecting protocol buffer_max o h [] = more_to_come
connecting protocol buffer_max o h (pending ∷ cs) = connecting protocol buffer_max o h cs
connecting protocol buffer_max o h (refused ∷ cs) = done (fail connection_error [] h)
connecting protocol buffer_max o h (key_pressed ∷ cs) = done (fail aborted_by_user [] h)
connecting protocol buffer_max o h (established ∷ cs) =
    if o.all_sent then received_payload protocol buffer_max o h else done (fail send_error [] h)

-- The request that is sent, but for the cut at the end of the buffer.
unfoldable pub request : ℕ → Bytes → Bytes → Bytes
request protocol host selector =
    if protocol == parseurl_proto_http
    then codes "GET /"
      ++ (selector
          ++ (codes " HTTP/1.0\r\nHOST: " ++ (host ++ codes "\r\nUSER-AGENT: Gopherus\r\n\r\n")))
    else selector ++ codes "\r\n"

connect : ℕ → ℕ → Outside → Held → Outcome
unfolding connecting
connect protocol buffer_max o h =
    if o.socket_made
    then connecting protocol buffer_max o (record h { sock = connected }) o.connections
    else done (fail connection_error [] h)

-- With what the cache and, if it is asked, the resolver answer.
resolved_host :
    ℕ → ℕ → Outside → Bytes → List Entry → Held → Option Bytes → Option Bytes → Outcome × List Entry
unfolding connect
resolved_host protocol buffer_max o host table h (some addr) answer =
    (connect protocol buffer_max o h, table)
resolved_host protocol buffer_max o host table h none none = (done (fail dns_failed [] h), table)
resolved_host protocol buffer_max o host table h none (some addr) =
    (connect protocol buffer_max o h, dnscache_add o.now host addr table)

from_host : ℕ → ℕ → Outside → Bytes → List Entry → Held → Outcome × List Entry
unfolding resolved_host
from_host protocol buffer_max o host table h =
    resolved_host protocol buffer_max o host table h (dnscache_ask o.now host table) o.resolved

-- An embedded page, which is written to the file where there is one.
embedded_page : Outside → Held → Loaded
embedded_page o h = record {
  result = pos (length o.embedded);
  buffer = o.embedded;
  held = record h { fd = false; file = if h.fd then some o.embedded else h.file };
  status = silent;
}

-- The call, with the DNS cache that it leaves; `to_file` is whether `filename` is not NULL.
unfoldable pub loadfile_buff : ℕ → Bytes → ℕ → Bool → Outside → List Entry → Outcome × List Entry
unfolding from_host embedded_page receive http_skip_headers
loadfile_buff protocol host buffer_max to_file o table =
    let idle : Held = record { fd = false; file = none; sock = no_socket } in
    let h = record idle { fd = to_file; file = if to_file then some [] else none } in
    if to_file && o.file_exists
    then (done (record { result = minus_one; buffer = []; held = idle; status = exists }), table)
    else if to_file && not o.file_created
    then (done (fail not_created [] idle), table)
    else if get_or host 0 0 == b'#'
    then (done (embedded_page o h), table)
    else from_host protocol buffer_max o host table h
