-- ===== src/Url/Build/Limits.antt =====
-- Where `buildgopherurl` writes past its buffer, and where it does not.
use gopherus.Base.{
  ℕ, ◌+◌, ◌-◌, ◌≤◌, ◌<◌, ◌≡◌, ◌≢◌, refl, true, false, ◌&&◌, [], ◌∷◌, ◌++◌, arith, ltb, ◌==◌,
  if◌then◌else◌, length, length-append, Bytes, codes, Bool-cases, inl, inr,
}
use gopherus.Url.Build.{
  Writer, print_at, put, terminated, returned, is_unsafe, high_digit, low_digit, encode, is_hurl,
  port_part, path_part, gopher_url, build, buildgopherurl, printed, refused,
}
use gopherus.Url.Build.Writing.{buildgopherurl_lem}

-- The place in the buffer is within it, and nothing was written past it.
record Inside (maxlen : ℕ) (w : Writer) : Type 0 where
  place : w.x ≤ maxlen
  sound : w.fault ≡ false

put-Inside :
    (maxlen c : ℕ) (w : Writer) → w.x < maxlen → Inside maxlen w → Inside maxlen (put maxlen c w)
unfolding put
put-Inside maxlen c w h i = ground arith

put-x : (maxlen c : ℕ) (w : Writer) → (put maxlen c w).x ≡ w.x + 1
unfolding put
put-x maxlen c w = ground arith

put_three-Inside :
    (maxlen a b c : ℕ) (w : Writer)
    → w.x + 3 ≤ maxlen
    → Inside maxlen w
    → Inside maxlen (put maxlen c (put maxlen b (put maxlen a w)))
put_three-Inside maxlen a b c w h i =
    put-Inside maxlen c _ (omega (arith, put-x maxlen b (put maxlen a w), put-x maxlen a w)) (
      put-Inside maxlen b _ (omega (arith, put-x maxlen a w))
        (put-Inside maxlen a w (omega arith) i))

terminated_sound : (maxlen : ℕ) (w : Writer) → Inside maxlen w → (terminated maxlen w).fault ≡ false
unfolding terminated
terminated_sound maxlen w h = ground arith

encode_sound :
    (maxlen : ℕ) (s : Bytes) (w : Writer) → Inside maxlen w → (encode maxlen s w).fault ≡ false
unfolding encode
encode_sound maxlen [] w h = terminated_sound maxlen w h
encode_sound maxlen (c ∷ s) w h = elim (Bool-cases (w.x == maxlen)) [
  | inl full ↦ rw full (terminated_sound maxlen w h)
  | inr room ↦ elim (Bool-cases (is_unsafe c)) [
    | inl unsafe ↦ elim (Bool-cases (ltb maxlen (w.x + 3))) [
      | inl short ↦ rw (room, unsafe, short) (terminated_sound maxlen w h)
      | inr fits ↦
          rw (room, unsafe, fits)
            (encode_sound maxlen s _
              (put_three-Inside maxlen b'%' (high_digit c) (low_digit c) w (ground arith) h))
    ]
    | inr safe ↦ rw (room, safe) (encode_sound maxlen s _ (put-Inside maxlen c w (ground arith) h))
  ]
]

print_at-place :
    (maxlen : ℕ) (s : Bytes) (w : Writer)
    → w.x + length s ≤ maxlen
    → w.fault ≡ false
    → ((print_at maxlen s w).x ≡ w.x + length s) × ((print_at maxlen s w).fault ≡ false)
unfolding print_at
print_at-place maxlen s w h f = ground arith

path_part_sound :
    (maxlen itemtype : ℕ) (s : Bytes) (w : Writer)
    → w.x + 2 ≤ maxlen
    → w.fault ≡ false
    → (path_part maxlen itemtype s w).fault ≡ false
unfolding path_part
path_part_sound maxlen itemtype s w h f =
    let (x, fault) = print_at-place maxlen (b'/' ∷ itemtype ∷ []) w (omega arith) f in
    let inside : Inside maxlen (print_at maxlen (b'/' ∷ itemtype ∷ []) w) = record {
      place = omega arith;
      sound = fault;
    } in
    unfold returned in
    (ground (arith, terminated_sound maxlen _ inside, encode_sound maxlen s _ inside))

-- The writer behind the port.
abbrev ported : ℕ → ℕ → Writer → Writer
ported maxlen port w = if port == 70 then w else print_at maxlen (port_part 70 port) w

ported-place :
    (maxlen port : ℕ) (w : Writer)
    → w.x + length (port_part 70 port) + 2 ≤ maxlen
    → w.fault ≡ false
    → ((ported maxlen port w).x + 2 ≤ maxlen) × ((ported maxlen port w).fault ≡ false)
ported-place maxlen port w h f =
    let (x, sound) = print_at-place maxlen (port_part 70 port) w (omega arith) f in ground arith

abbrev named : ℕ → Bytes → Writer
named maxlen host =
    print_at maxlen (codes "gopher://" ++ host) (record { x = 0; text = []; fault = false })

gopher_url_lem :
    (maxlen : ℕ) (host : Bytes) (port itemtype : ℕ) (s : Bytes)
    → gopher_url maxlen host port itemtype s ≡ (
        if length host == 0
        then returned (named maxlen host)
        else path_part maxlen itemtype s (ported maxlen port (named maxlen host)))
unfolding gopher_url
gopher_url_lem maxlen host port itemtype s = refl

gopher_url_sound :
    (maxlen : ℕ) (host : Bytes) (port itemtype : ℕ) (s : Bytes)
    → 9 + length host + length (port_part 70 port) + 2 ≤ maxlen
    → (gopher_url maxlen host port itemtype s).fault ≡ false
gopher_url_sound maxlen host port itemtype s h =
    let (x, sound) =
      print_at-place maxlen (codes "gopher://" ++ host) (record { x = 0; text = []; fault = false })
        (omega (arith, length-append (codes "gopher://") host)) refl in
    let (y, safe) = ported-place maxlen port (named maxlen host) (omega arith) sound in
    rw gopher_url_lem (elim (Bool-cases (length host == 0)) [
      | inl empty ↦ rw empty (unfold returned in sound)
      | inr other ↦ rw other (path_part_sound maxlen itemtype s _ y safe)
    ])

-- With room for the host, the port and the type, `buildgopherurl` writes nothing past a buffer of
-- `maxlen` bytes, whatever the protocol and however long the selector.
pub buildgopherurl_sound :
    (maxlen protocol : ℕ) (host : Bytes) (port itemtype : ℕ) (selector : Bytes)
    → 9 + length host + length (port_part 70 port) + 2 < maxlen
    → (buildgopherurl maxlen protocol host port itemtype selector).fault ≡ false
buildgopherurl_sound maxlen protocol host port itemtype selector h = rw buildgopherurl_lem (
    unfold build printed refused in
    (ground (arith, gopher_url_sound (maxlen - 1) host port itemtype selector (omega arith))))

-- What was written past the buffer stays written.
encode-fault :
    (maxlen : ℕ) (s : Bytes) (w : Writer) → w.fault ≡ true → (encode maxlen s w).fault ≡ true
unfolding encode put terminated
encode-fault maxlen [] w h = ground arith
encode-fault maxlen (c ∷ s) w h = ground (
  arith,
  encode-fault maxlen s (put maxlen (low_digit c) (put maxlen (high_digit c) (put maxlen b'%' w))),
  encode-fault maxlen s (put maxlen c w),
)

print_at-fault :
    (maxlen : ℕ) (s : Bytes) (w : Writer)
    → maxlen < w.x
    → (maxlen < (print_at maxlen s w).x) × ((print_at maxlen s w).fault ≡ true)
unfolding print_at
print_at-fault maxlen s w h = ground arith

path_part-fault :
    (maxlen itemtype : ℕ) (s : Bytes) (w : Writer)
    → maxlen < w.x
    → (itemtype == b'1' && length s == 0) ≡ false
    → (path_part maxlen itemtype s w).fault ≡ true
unfolding path_part
path_part-fault maxlen itemtype s w h m =
    let (x, fault) = print_at-fault maxlen (b'/' ∷ itemtype ∷ []) w h in
    ground (arith, encode-fault maxlen s (print_at maxlen (b'/' ∷ itemtype ∷ []) w))

ported-x : (maxlen port : ℕ) (w : Writer) → maxlen < w.x → maxlen < (ported maxlen port w).x
ported-x maxlen port w h =
    let (x, fault) = print_at-fault maxlen (port_part 70 port) w h in ground arith

print_at-x : (maxlen : ℕ) (s : Bytes) (w : Writer) → (print_at maxlen s w).x ≡ w.x + length s
unfolding print_at
print_at-x maxlen s w = ground arith

gopher_url-fault :
    (maxlen : ℕ) (host : Bytes) (port itemtype : ℕ) (s : Bytes)
    → 0 < length host
    → maxlen < 9 + length host
    → (itemtype == b'1' && length s == 0) ≡ false
    → (gopher_url maxlen host port itemtype s).fault ≡ true
gopher_url-fault maxlen host port itemtype s h k w =
    let x =
      print_at-x maxlen (codes "gopher://" ++ host) (record { x = 0; text = []; fault = false }) in
    let past =
      path_part-fault maxlen itemtype s (ported maxlen port (named maxlen host))
        (ported-x maxlen port (named maxlen host)
          (omega (arith, x, length-append (codes "gopher://") host)))
        w in
    rw (gopher_url_lem, nonzero) past
  where
    nonzero : (length host == 0) ≡ false
    nonzero = ground arith

-- A host that leaves no room for itself in the buffer: for a gopher location that is not the main
-- menu, `buildgopherurl` writes past the buffer. (Its type is printable, no telnet link and no
-- hURL; its port is not 0.)
pub buildgopherurl-fault :
    (maxlen : ℕ) (host : Bytes) (port itemtype : ℕ) (selector : Bytes)
    → 2 < maxlen
    → 0 < length host
    → maxlen < 10 + length host
    → 0 < port
    → 33 ≤ itemtype
    → itemtype < 128
    → itemtype ≢ b'8'
    → (itemtype == b'h' && is_hurl selector) ≡ false
    → (itemtype == b'1' && length selector == 0) ≡ false
    → (buildgopherurl maxlen 1 host port itemtype selector).fault ≡ true
buildgopherurl-fault maxlen host port itemtype selector m g h p l u t n w =
    let past = gopher_url-fault (maxlen - 1) host port itemtype selector g (omega arith) w in
    rw buildgopherurl_lem (unfold build in (ground (arith, past)))
