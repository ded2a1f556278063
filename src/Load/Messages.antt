-- ===== src/Load/Messages.antt =====
-- gopherus.c, loadfile_buff: its messages in the status row, where the program has its user interface.
-- Each function gives what is in `glob_statusbar` behind the part of the call that it is named for.
pub mod Hidden
use gopherus.Base.{
  ℕ, zero, suc, ◌+◌, ◌-◌, ◌≡◌, ◌≢◌, refl, sym, ap, ◌∙◌, Bool, true, false, not, ◌&&◌, ◌||◌, List,
  [], ◌∷◌, ◌++◌, ltb, leb, ◌==◌, if◌then◌else◌, Bytes, Option, none, some, codes, length, take,
  get_or, print_u, arith, Option-cases, ==_ne, inl, inr,
}
use gopherus.Url.Parse.{parseurl_proto_http}
use gopherus.DnsCache.{Entry, dnscache_ask}
use gopherus.Screen.{status_msg, set_statusbar}
use gopherus.Load.{
  Received, bytes, nothing, closed, Skipped, failed, waiting, overrun, body, Held, connected,
  no_socket, Event, Progress, got, Connection, established, refused, key_pressed, pending, Outside,
  http_skip_headers,
}

-- `snprintf(statusmsg, sizeof(statusmsg), ...)`
pub printed : Bytes → Bytes
printed = take 127

pub say : Bytes → Bytes → Bytes
say msg bar = (status_msg false msg bar).1

pub resolving : Bytes → Bytes
unfolding printed
resolving hostaddr = printed (codes "Resolving '" ++ (hostaddr ++ codes "'..."))

connecting_to : Bytes → Bytes
unfolding printed
connecting_to ipaddr = printed (codes "Connecting to " ++ (ipaddr ++ codes "..."))

truncated : ℕ → Bytes
unfolding printed
truncated reslength = printed (
    codes "!Error: Server's answer is too long! (truncated to "
    ++ (print_u reslength ++ codes " bytes)"))

saved_text : ℕ → Bytes
unfolding printed
saved_text totlen = printed (codes "Saved " ++ (print_u totlen ++ codes " bytes on disk"))

-- Behind the loop that receives.
finish_bar : Progress → Bytes → Bytes
unfolding say saved_text
finish_bar p bar =
    if p.totlen == 0
    then say (codes "!Error: selector does not exist") bar
    else if p.held.fd
    then say (saved_text p.totlen) bar
    else bar

is_closed : Received → Bool
is_closed closed = true
is_closed _ = false

-- The progress is drawn once a second, which leaves the row empty.
refreshed : Event → ℕ → Bytes → Bytes
unfolding is_closed
refreshed e lastrefresh bar =
    if not (e.time == lastrefresh) || is_closed e.received then [] else bar

next_refresh : Event → ℕ → ℕ
unfolding is_closed
next_refresh e lastrefresh =
    if not (e.time == lastrefresh) || is_closed e.received then e.time else lastrefresh

pub receive_bar : ℕ → Progress → ℕ → List Event → Bytes → Bytes
unfolding say truncated finish_bar refreshed next_refresh
receive_bar buffer_max p lastrefresh [] bar = bar
receive_bar buffer_max p lastrefresh (e ∷ es) bar =
    let bar' = refreshed e lastrefresh bar in
    let last' = next_refresh e lastrefresh in
    let idle = receive_bar buffer_max p last' es bar' in
    let received : Bytes = elim e.received [
      | nothing ↦
          if ltb (p.lastactivity + 20) e.time
          then say (codes "!Timeout while waiting for data!") bar'
          else idle
      | closed ↦ finish_bar p bar'
      | bytes bs ↦
          if ltb (buffer_max - length p.buffer) (length bs)
          then bar'
          else if p.held.fd && not e.writable
          then say (codes "!Error while writing data to disk") bar'
          else receive_bar buffer_max (got p bs e.time) last' es bar'
    ] in
    if e.abort_key
    then say (codes "Connection aborted by the user.") bar
    else if leb buffer_max (length p.buffer)
    then finish_bar p (say (truncated (length p.buffer)) bar)
    else received

pub payload_bar : ℕ → Outside → Held → Bytes → Bytes → Bytes
unfolding receive_bar
payload_bar buffer_max o h kept bar =
    receive_bar buffer_max
      (record { buffer = kept; totlen = 0; lastactivity = o.started; held = h }) o.started o.events
      bar

pub headers_bar : ℕ → Outside → Held → Skipped → Bytes → Bytes
unfolding payload_bar say
headers_bar buffer_max o h (body kept) bar = payload_bar buffer_max o h kept bar
headers_bar buffer_max o h failed bar =
    say (codes "!Error: Failed to fetch or parse HTTP headers") bar
headers_bar buffer_max o h waiting bar = bar
headers_bar buffer_max o h overrun bar = bar

pub sent_bar : ℕ → ℕ → Outside → Held → Bytes → Bytes
unfolding headers_bar payload_bar say
sent_bar protocol buffer_max o h bar =
    if not o.all_sent
    then say (codes "!send() error!") bar
    else if protocol == parseurl_proto_http
    then headers_bar buffer_max o h (http_skip_headers buffer_max 2 [] o.headers) bar
    else payload_bar buffer_max o h [] bar

pub connecting_bar : ℕ → ℕ → Outside → Held → List Connection → Bytes → Bytes
unfolding sent_bar say
connecting_bar protocol buffer_max o h [] bar = bar
connecting_bar protocol buffer_max o h (pending ∷ cs) bar =
    connecting_bar protocol buffer_max o h cs bar
connecting_bar protocol buffer_max o h (refused ∷ cs) bar = say (codes "!Connection error!") bar
connecting_bar protocol buffer_max o h (key_pressed ∷ cs) bar =
    say (codes "Connection aborted by user") bar
connecting_bar protocol buffer_max o h (established ∷ cs) bar = sent_bar protocol buffer_max o h bar

pub connect_bar : ℕ → ℕ → Outside → Held → Bytes → Bytes → Bytes
unfolding connecting_bar connecting_to say
connect_bar protocol buffer_max o h ipaddr bar =
    let said = say (connecting_to ipaddr) bar in
    let held : Held = record h { sock = connected } in
    if o.socket_made
    then connecting_bar protocol buffer_max o held o.connections said
    else say (codes "!Connection error!") said

pub host_bar : ℕ → Bytes → ℕ → Outside → Held → Option Bytes → Bytes → Bytes
unfolding connect_bar resolving say
host_bar protocol host buffer_max o h (some ipaddr) bar =
    connect_bar protocol buffer_max o h ipaddr bar
host_bar protocol host buffer_max o h none bar =
    let said = say (resolving host) bar in
    elim o.resolved [
      | none ↦ say (codes "!DNS resolution failed!") said
      | some ipaddr ↦ connect_bar protocol buffer_max o h ipaddr said
    ]

-- The whole call.
unfoldable pub loadfile_bar : ℕ → Bytes → ℕ → Bool → Outside → List Entry → Bytes → Bytes
unfolding host_bar say
loadfile_bar protocol host buffer_max to_file o table bar =
    let h : Held = record {
      fd = to_file;
      file = if to_file then some [] else none;
      sock = no_socket;
    } in
    if to_file && o.file_exists
    then say (codes "!File already exists! Operation aborted.") bar
    else if to_file && not o.file_created
    then say (codes "!Error: could not create the file on disk!") bar
    else if get_or host 0 0 == b'#'
    then bar
    else host_bar protocol host buffer_max o h (dnscache_ask o.now host table) bar
