-- ===== src/Load/Content.antt =====
-- A transfer that goes well: what is in the buffer or the file at its end.
use gopherus.Base.{
  ℕ, ◌+◌, ◌-◌, ◌≤◌, ◌<◌, ◌≡◌, refl, sym, ap, ◌∙◌, Bool, true, false, not, ◌&&◌, List, [], ◌∷◌, ◌++◌,
  append_assoc, append-nil, arith, length, length-append, take-all, ltb, leb, ◌==◌, Bytes, some,
  pos,
}
use gopherus.Load.{
  bytes, nothing, closed, closed_socket, connected, Held, silent, saved, Loaded, Event, Progress,
  got, finish, done, receive, append_to,
}

-- The events of a transfer that brings `content`, and is then closed by the server: no key that
-- aborts it, never more than 20 seconds without a byte, no
-- failing write, and never more than `limit` bytes at once.
pub data Brings (limit : ℕ) : ℕ → List Event → Bytes → Type 0 where
  ends :
      (last : ℕ) (e : Event) (es : List Event)
      → e.abort_key ≡ false
      → e.received ≡ closed
      → Brings limit last (e ∷ es) []
  idles :
      (last : ℕ) (e : Event) (es : List Event) (content : Bytes)
      → e.abort_key ≡ false
      → e.received ≡ nothing
      → e.time ≤ last + 20
      → Brings limit last es content
      → Brings limit last (e ∷ es) content
  brings :
      (last : ℕ) (e : Event) (es : List Event) (bs content : Bytes)
      → e.abort_key ≡ false
      → e.received ≡ bytes bs
      → e.writable ≡ true
      → length bs ≤ limit
      → Brings limit e.time es content
      → Brings limit last (e ∷ es) (bs ++ content)

never_stuck : (fd w : Bool) → w ≡ true → (fd && not w) ≡ false
never_stuck true w h = rw h refl
never_stuck false w h = refl

module _ (buffer_max : ℕ) (p : Progress) (e : Event) (es : List Event)
    (no_key : e.abort_key ≡ false) (room : length p.buffer < buffer_max) where
  open_room : leb buffer_max (length p.buffer) ≡ false
  open_room = ground arith

  receive-closed :
      e.received ≡ closed → receive buffer_max p (e ∷ es) ≡ done (finish closed_socket silent p)
  unfolding receive
  receive-closed c = rw (no_key, open_room, c) refl

  receive-nothing :
      e.received ≡ nothing
      → e.time ≤ p.lastactivity + 20
      → receive buffer_max p (e ∷ es) ≡ receive buffer_max p es
  unfolding receive
  receive-nothing c t =
      let on_time : ltb (p.lastactivity + 20) e.time ≡ false = ground arith in
      rw (no_key, open_room, c, on_time) refl

  receive-bytes :
      (bs : Bytes)
      → e.received ≡ bytes bs
      → length bs ≤ buffer_max - length p.buffer
      → e.writable ≡ true
      → receive buffer_max p (e ∷ es) ≡ receive buffer_max (got p bs e.time) es
  unfolding receive
  receive-bytes bs c f w =
      let fits : ltb (buffer_max - length p.buffer) (length bs) ≡ false = ground arith in
      rw (no_key, open_room, c, fits, never_stuck p.held.fd e.writable w) refl

unfoldable pub memory : ℕ → Bytes → Held → Loaded
memory n buffer h = record {
  result = pos n;
  buffer = buffer;
  held = record h { fd = false; sock = closed_socket };
  status = silent;
}

memory_eq :
    (m n : ℕ) (a b : Bytes) (h : Held) → m ≡ n → a ≡ b → done (memory m a h) ≡ done (memory n b h)
memory_eq m n a b h e f = rw (e, f) refl

finish-memory :
    (p : Progress) (n : ℕ)
    → p.held.fd ≡ false
    → p.totlen ≡ n
    → 0 < n
    → finish closed_socket silent p ≡ memory n p.buffer p.held
unfolding finish memory
finish-memory p n f t h =
    let some_bytes : (n == 0) ≡ false = ground arith in rw (f, t, some_bytes) refl

got-memory :
    (p : Progress) (bs : Bytes) (time : ℕ)
    → p.held.fd ≡ false
    → got p bs time
      ≡ record p { buffer = p.buffer ++ bs; totlen = p.totlen + length bs; lastactivity = time }
unfolding got
got-memory p bs time f = rw f refl

-- A transfer into memory that the server closes, of `content` behind the bytes that were kept of the
-- headers, which fit the buffer together with it: the buffer holds the kept bytes and the content.
-- The result is the length of the content alone, without the kept bytes.
pub receive-memory :
    (buffer_max limit last : ℕ) (p : Progress) (es : List Event) (content : Bytes)
    → Brings limit last es content
    → p.lastactivity ≡ last
    → p.held.fd ≡ false
    → length p.buffer + length content < buffer_max
    → 0 < p.totlen + length content
    → receive buffer_max p es
      ≡ done (memory (p.totlen + length content) (p.buffer ++ content) p.held)
receive-memory buffer_max limit last p es content (ends l e es' k c) t f r n =
    receive-closed buffer_max p e es' k (omega arith) c
    ∙ ap done (finish-memory p (p.totlen + 0) f (omega arith) n)
    ∙ ap (λ b. done (memory (p.totlen + 0) b p.held)) (sym (append-nil p.buffer))
receive-memory buffer_max limit last p es content (idles l e es' co k c o b) t f r n =
    receive-nothing buffer_max p e es' k (omega arith) c (omega arith)
    ∙ receive-memory buffer_max limit last p es' content b t f r n
receive-memory buffer_max limit last p es content (brings l e es' bs co k c w m b) t f r n =
    receive-bytes buffer_max p e es' k (omega (arith, length-append bs co)) bs c
      (omega (arith, length-append bs co)) w
    ∙ ap (λ q. receive buffer_max q es') (got-memory p bs e.time f)
    ∙ receive-memory buffer_max limit e.time _ es' co b refl f
        (omega (arith, length-append p.buffer bs, length-append bs co))
        (omega (arith, length-append bs co))
    ∙ memory_eq _ _ _ _ p.held (omega (arith, length-append bs co)) (append_assoc p.buffer bs co)

unfoldable pub writing : Bytes → ℕ → ℕ → Progress
writing written totlen last = record {
  buffer = [];
  totlen = totlen;
  lastactivity = last;
  held = record { fd = true; file = some written; sock = connected };
}

unfoldable pub on_disk : ℕ → Bytes → Loaded
on_disk n written = record {
  result = pos n;
  buffer = [];
  held = record { fd = false; file = some written; sock = closed_socket };
  status = saved;
}

got-writing :
    (written : Bytes) (totlen last : ℕ) (bs : Bytes) (time : ℕ)
    → got (writing written totlen last) bs time ≡ writing (written ++ bs) (totlen + length bs) time
unfolding got append_to writing
got-writing written totlen last bs time = rw (take-all (length bs) bs (omega arith)) refl

finish-writing :
    (written : Bytes) (totlen last : ℕ)
    → 0 < totlen
    → finish closed_socket silent (writing written totlen last) ≡ on_disk totlen written
unfolding finish writing on_disk
finish-writing written totlen last h =
    let some_bytes : (totlen == 0) ≡ false = ground arith in rw some_bytes refl

on_disk_eq : (m n : ℕ) (a b : Bytes) → m ≡ n → a ≡ b → done (on_disk m a) ≡ done (on_disk n b)
on_disk_eq m n a b e f = rw (e, f) refl

writing-room :
    (w : Bytes) (n l buffer_max : ℕ) → 0 < buffer_max → length (writing w n l).buffer < buffer_max
unfolding writing
writing-room w n l buffer_max h = h

-- A download to a file that the server closes, with nothing kept of headers: the file holds the
-- content, in order, behind what it held, it is closed, and the result is the number of bytes
-- received. No reception is larger than the buffer, and at least a byte is received.
pub receive-file :
    (buffer_max last : ℕ) (written : Bytes) (totlen : ℕ) (es : List Event) (content : Bytes)
    → Brings buffer_max last es content
    → 0 < buffer_max
    → 0 < totlen + length content
    → receive buffer_max (writing written totlen last) es
      ≡ done (on_disk (totlen + length content) (written ++ content))
receive-file buffer_max last w n es content (ends l e es' k c) r h =
    receive-closed buffer_max (writing w n l) e es' k (writing-room w n l buffer_max r) c
    ∙ ap done (finish-writing w n l (omega arith))
    ∙ on_disk_eq _ _ _ _ (omega arith) (sym (append-nil w))
receive-file buffer_max last w n es content (idles l e es' co k c o b) r h =
    receive-nothing buffer_max (writing w n l) e es' k (writing-room w n l buffer_max r) c
      (unfold writing in o)
    ∙ receive-file buffer_max l w n es' co b r h
receive-file buffer_max last w n es content (brings l e es' bs co k c wr m b) r h =
    receive-bytes buffer_max (writing w n l) e es' k (writing-room w n l buffer_max r) bs c
      (unfold writing in (omega arith)) wr
    ∙ ap (λ q. receive buffer_max q es') (got-writing w n l bs e.time)
    ∙ receive-file buffer_max e.time (w ++ bs) (n + length bs) es' co b r
        (omega (arith, length-append bs co))
    ∙ on_disk_eq _ _ _ _ (omega (arith, length-append bs co)) (append_assoc w bs co)
