-- ===== src/Embedded/Tests.antt =====
-- Tests of the embedded pages, and the theorems at concrete inputs.
use gopherus.Base.{
  ◌<◌, ◌≡◌, refl, true, false, none, List, [], ◌∷◌, codes, arith, length, All, Bytes,
}
use gopherus.ReadLine.Lines.{TextLine, Storable, file_of}
use gopherus.Embedded.{Pages, processfile, idoc_unpack, insert_bookmarks, loadembeddedstartpage}
use gopherus.Embedded.Grams.{idoc_unpack-processfile, idoc_unpack-lt}
use gopherus.Embedded.Bookmarks.{insert_bookmarks-listing}

abbrev dict : Bytes
dict = codes "the  and"

packed_text : processfile dict (codes "x and the y") ≡ b'x' ∷ 129 ∷ b' ' ∷ 128 ∷ b'y' ∷ []
unfolding processfile
packed_text = refl

idoc_unpack-processfile_example :
    idoc_unpack dict 64 (processfile dict (codes "x and the y")) ≡ codes "x and the y"
idoc_unpack-processfile_example =
    idoc_unpack-processfile dict 64 (codes "x and the y") (omega arith) (omega arith) (omega arith)

idoc_unpack-lt_example : length (idoc_unpack dict 4 (129 ∷ 128 ∷ [])) < 4
idoc_unpack-lt_example = idoc_unpack-lt dict 4 (129 ∷ 128 ∷ []) (omega arith)

abbrev pages : Pages
pages = record { gramdict = dict; manual = 128 ∷ []; welcome = codes "hi "; welcome2 = 129 ∷ [] }

no_file :
    loadembeddedstartpage pages 2000 (codes "welcome") none
    ≡ codes "hi ino bookmarks defined yet\n and"
unfolding loadembeddedstartpage
no_file = refl

abbrev bookmarks : List TextLine
bookmarks =
    record { crlf = true; text = codes "1a" }
    ∷ record { crlf = false; text = [] }
    ∷ record { crlf = false; text = codes "b" }
    ∷ []

bookmarks-Storable : All (Storable 656) bookmarks
bookmarks-Storable = (
  record {
    no_lf = (λ e. omega arith, (λ e. omega arith, tt));
    no_cr = (λ e. omega arith, (λ e. omega arith, tt));
    fits = omega arith;
  },
  (
    record { no_lf = tt; no_cr = tt; fits = omega arith },
    (
      record { no_lf = (λ e. omega arith, tt); no_cr = (λ e. omega arith, tt); fits = omega arith },
      tt,
    ),
  ),
)

insert_bookmarks-listing_example : insert_bookmarks 9 2000 3 (file_of bookmarks) ≡ codes "1a\nb\n"
insert_bookmarks-listing_example =
    insert_bookmarks-listing 9 2000 3 bookmarks bookmarks-Storable (omega arith) (omega arith)
