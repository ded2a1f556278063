-- ===== src/Load/Messages/Hidden.antt =====
-- gopherus.c, loadfile_buff: a message in the status row hides those behind it.
use gopherus.Base.{
  ℕ, zero, suc, ◌≡◌, ◌≢◌, refl, ap, ◌∙◌, Bool, true, false, not, List, [], ◌∷◌, ◌++◌, ◌==◌,
  if◌then◌else◌, Bytes, none, codes, take, get_or, Option-cases, ==_ne, inl, inr,
}
use gopherus.Url.Parse.{parseurl_proto_http}
use gopherus.DnsCache.{Entry, dnscache_ask}
use gopherus.Screen.{status_msg, set_statusbar}
use gopherus.Load.{
  Skipped, failed, waiting, overrun, body, Held, connected, no_socket, Connection, established,
  refused, key_pressed, pending, Outside, http_skip_headers,
}
use gopherus.Load.Messages.{
  printed, say, resolving, receive_bar, payload_bar, headers_bar, sent_bar, connecting_bar,
  connect_bar, host_bar, loadfile_bar,
}

-- A message in the row stays until the row is drawn, which the loop that receives does.
module _ (buffer_max : ℕ) (o : Outside) (quiet : o.events ≡ []) (c : ℕ) (bar : Bytes) where
  say-full : (msg : Bytes) → say msg (c ∷ bar) ≡ c ∷ bar
  unfolding say status_msg set_statusbar
  say-full msg = refl

  payload_bar-full : (h : Held) (kept : Bytes) → payload_bar buffer_max o h kept (c ∷ bar) ≡ c ∷ bar
  unfolding payload_bar receive_bar
  payload_bar-full h kept = rw quiet refl

  headers_bar-full : (h : Held) (s : Skipped) → headers_bar buffer_max o h s (c ∷ bar) ≡ c ∷ bar
  unfolding headers_bar
  headers_bar-full h (body kept) = payload_bar-full h kept
  headers_bar-full h failed = say-full _
  headers_bar-full h waiting = refl
  headers_bar-full h overrun = refl

  either : {A : Type 0} (b : Bool) (x y z : A) → x ≡ z → y ≡ z → (if b then x else y) ≡ z
  either true x y z h k = h
  either false x y z h k = k

  connecting_bar-full :
      (protocol : ℕ) (h : Held) (cs : List Connection)
      → connecting_bar protocol buffer_max o h cs (c ∷ bar) ≡ c ∷ bar
  unfolding connecting_bar sent_bar
  connecting_bar-full protocol h [] = refl
  connecting_bar-full protocol h (pending ∷ cs) = connecting_bar-full protocol h cs
  connecting_bar-full protocol h (refused ∷ cs) = say-full _
  connecting_bar-full protocol h (key_pressed ∷ cs) = say-full _
  connecting_bar-full protocol h (established ∷ cs) =
      either (not o.all_sent) _ _ _ (say-full (codes "!send() error!")) (
        either (protocol == parseurl_proto_http) _ _ _
          (headers_bar-full h (http_skip_headers buffer_max 2 [] o.headers))
          (payload_bar-full h []))

  connect_bar-full :
      (protocol : ℕ) (h : Held) (ipaddr : Bytes)
      → connect_bar protocol buffer_max o h ipaddr (c ∷ bar) ≡ c ∷ bar
  unfolding connect_bar say status_msg set_statusbar
  connect_bar-full protocol h ipaddr =
      either o.socket_made _ _ _
        (connecting_bar-full protocol (record h { sock = connected }) o.connections) refl

take-take : (n : ℕ) (s : Bytes) → take n (take n s) ≡ take n s
take-take zero s = refl
take-take (suc n) [] = refl
take-take (suc n) (c ∷ s) = ap (c ∷◌) (take-take n s)

-- The errors of the resolver, of the connection, of sending and of the headers are not shown behind a
-- resolution: with a row that is empty, a host that is not in the cache and no embedded page, the row
-- says `Resolving` at the end of a call that fails before it receives, whatever happens in it.
pub loadfile_bar-resolving :
    (protocol : ℕ) (host : Bytes) (buffer_max : ℕ) (o : Outside) (table : List Entry)
    → get_or host 0 0 ≢ b'#'
    → dnscache_ask o.now host table ≡ none
    → o.events ≡ []
    → loadfile_bar protocol host buffer_max false o table []
      ≡ take 127 (codes "Resolving '" ++ (host ++ codes "'..."))
unfolding loadfile_bar host_bar resolving printed say status_msg set_statusbar
loadfile_bar-resolving protocol host buffer_max o table page miss quiet =
    let twice = take-take 127 (codes "Resolving '" ++ (host ++ codes "'...")) in
    rw (==_ne (get_or host 0 0) b'#' page, miss)
      (elim (Option-cases o.resolved) [
        | inl unknown ↦ rw (host_bar, unknown) twice
        | inr (ipaddr, found) ↦
            rw (host_bar, found)
              (connect_bar-full buffer_max o quiet b'R' _ protocol
                  (record { fd = false; file = none; sock = no_socket }) ipaddr
                ∙ twice)
      ])
