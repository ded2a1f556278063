-- ===== src/Bookmarks/Session.antt =====
-- What is added to the bookmarks is found again, and is deleted again.
use gopherus.Base.{
  ℕ, ◌+◌, ◌<◌, ◌≡◌, ◌≢◌, refl, ap, ◌∙◌, true, false, List, ◌∷◌, ◌++◌, ◌==◌, ==_refl, if◌then◌else◌,
  length, Bytes, Option, some, All, All-left, All-right, print_u, to_ushort-print_u, strcmp_eq_refl,
  strcasecmp_eq_refl,
}
use gopherus.ReadLine.Lines.{TextLine, Storable, file_of}
use gopherus.Bookmarks.{
  Fields, Location, lbuf_size, is_location, address, bookmark_line, is_match, port_or_70, same_host,
  same_selector, delbookmark, delete_in,
}
use gopherus.Bookmarks.Lines.{Matches, Differs, delete_in-first}

abbrev pub Plain : ℕ → Type 0
Plain c = (c ≢ b'\t') × (c ≢ b'\n') × (c ≢ b'\r')

-- A location that a line of the file can hold.
pub record Markable (h : Location) : Type 0 where
  pub plain_type : Plain h.itemtype
  pub plain_host : All Plain h.host
  pub plain_selector : All Plain h.selector
  pub ushort : h.port < 65536
  pub fits : length (bookmark_line h) + 1 < lbuf_size

-- the description in the line
described : Location → Bytes
described h =
    if length h.selector == 0 then address h else address h ++ (b'/' ∷ h.itemtype ∷ h.selector)

target : Location → Bytes
target h = b'\t' ∷ (h.selector ++ (b'\t' ∷ (h.host ++ (b'\t' ∷ print_u h.port))))

fields_of : Location → Fields
fields_of h = record {
  selector = some h.selector;
  host = some h.host;
  port = some (print_u h.port);
}

is_location-fields_of : (h : Location) → h.port < 65536 → is_location h (fields_of h) ≡ true
unfolding is_location fields_of port_or_70 same_host same_selector
is_location-fields_of h p =
    rw
      (
        to_ushort-print_u h.port p,
        ==_refl h.port,
        strcasecmp_eq_refl h.host,
        strcmp_eq_refl h.selector,
      )
      refl

abbrev pub mark : Location → TextLine
mark h = record { crlf = false; text = bookmark_line h }

delbookmark_lem :
    (bhost : Option Bytes) (bport : ℕ) (bsel : Option Bytes) (file : Bytes)
    → delbookmark bhost bport bsel (some file) ≡ some (delete_in (is_match bhost bport bsel) file)
unfolding delbookmark
delbookmark_lem bhost bport bsel file = refl

-- Only the first line that matches is deleted; the other lines stay as they are, in their order.
pub delbookmark-first :
    (bhost : Option Bytes) (bport : ℕ) (bsel : Option Bytes) (ts us : List TextLine) (t : TextLine)
    → All (Storable lbuf_size) (ts ++ t ∷ us)
    → All (Differs (is_match bhost bport bsel)) ts
    → Matches (is_match bhost bport bsel) t
    → delbookmark bhost bport bsel (some (file_of (ts ++ t ∷ us))) ≡ some (file_of (ts ++ us))
delbookmark-first bhost bport bsel ts us t a d e =
    delbookmark_lem bhost bport bsel (file_of (ts ++ t ∷ us))
    ∙ ap some (
        delete_in-first (is_match bhost bport bsel) ts us t
          (All-left (Storable lbuf_size) ts (t ∷ us) a) d
          (All-right (Storable lbuf_size) ts (t ∷ us) a).0 e)
