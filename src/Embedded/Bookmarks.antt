-- ===== src/Embedded/Bookmarks.antt =====
-- The bookmarks on the welcome page.
use gopherus.Base.{
  ℕ, suc, zero, ◌+◌, ◌≤◌, ◌<◌, ◌≡◌, refl, ap, ◌∙◌, true, false, List, [], ◌∷◌, ◌++◌, arith, ltb,
  ◌==◌, if◌then◌else◌, Bytes, length, length-append, All, Bool-cases, inl, inr,
}
use gopherus.ReadLine.{Line, readfline}
use gopherus.ReadLine.Lines.{TextLine, Storable, file_of, readfline-line, readfline-end}
use gopherus.Embedded.{insert_bookmarks, max_bookmark}

-- The lines of the file that are not empty, each with a LF.
abbrev pub listing : List TextLine → Bytes
listing [] = []
listing (t ∷ ts) =
    let more = listing ts in if length t.text == 0 then more else t.text ++ b'\n' ∷ more

insert_equation :
    (fuel buffer_max res : ℕ) (file : Bytes)
    → insert_bookmarks (suc fuel) buffer_max res file ≡ (
        let r = readfline max_bookmark file in
        if ltb buffer_max (res + max_bookmark)
        then []
        else if r.result == 0
        then []
        else if r.result == 1
        then insert_bookmarks fuel buffer_max res r.rest
        else r.text ++ b'\n' ∷ insert_bookmarks fuel buffer_max (res + length r.text + 1) r.rest)
unfolding insert_bookmarks
insert_equation fuel buffer_max res file = refl

insert_step :
    (fuel buffer_max res : ℕ) (file : Bytes) (r : Line)
    → readfline max_bookmark file ≡ r
    → res + max_bookmark ≤ buffer_max
    → insert_bookmarks (suc fuel) buffer_max res file ≡ (
        if r.result == 0
        then []
        else if r.result == 1
        then insert_bookmarks fuel buffer_max res r.rest
        else r.text ++ b'\n' ∷ insert_bookmarks fuel buffer_max (res + length r.text + 1) r.rest)
insert_step fuel buffer_max res file r e h =
    let room : ltb buffer_max (res + max_bookmark) ≡ false = ground arith in
    insert_equation fuel buffer_max res file ∙ rw (room, e) refl

-- The file's lines that are not empty are listed, in order and each once: for a file of lines that
-- fit `readfline`'s buffer, and a page that has room for them and for one more line. The fuel is one
-- more than the lines.
pub insert_bookmarks-listing :
    (fuel buffer_max res : ℕ) (ts : List TextLine)
    → All (Storable max_bookmark) ts
    → length ts < fuel
    → res + length (listing ts) + max_bookmark ≤ buffer_max
    → insert_bookmarks fuel buffer_max res (file_of ts) ≡ listing ts
insert_bookmarks-listing zero buffer_max res ts a f h = absurd (omega arith)
insert_bookmarks-listing (suc fuel) buffer_max res [] a f h =
    insert_step fuel buffer_max res [] _ (readfline-end max_bookmark) (omega arith)
insert_bookmarks-listing (suc fuel) buffer_max res (t ∷ ts) a f h =
    insert_step fuel buffer_max res _ _ (readfline-line max_bookmark t (file_of ts) a.0)
      (omega arith)
    ∙ (let not_end : (length t.text + 1 == 0) ≡ false = ground arith in
        elim (Bool-cases (length t.text == 0)) [
          | inl empty ↦
              let one : (length t.text + 1 == 1) ≡ true = ground arith in
              rw (not_end, one, empty)
                (insert_bookmarks-listing fuel buffer_max res ts a.1 (omega arith) (rw empty at h))
          | inr full ↦
              let more : (length t.text + 1 == 1) ≡ false = ground arith in
              let room = rw (full, length-append t.text (b'\n' ∷ listing ts)) at h in
              rw (not_end, more, full)
                (ap (λ s. t.text ++ b'\n' ∷ s)
                  (insert_bookmarks-listing fuel buffer_max (res + length t.text + 1) ts a.1
                    (omega arith) (omega (arith, room))))
        ])
