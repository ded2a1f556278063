-- ===== src/ReadLine/Tests.antt =====
-- Tests of the line reader.
use gopherus.Base.{◌≡◌, refl, codes}
use gopherus.ReadLine.{readfline}

crlf_line :
    readfline 8 (codes "abc\r\nd") ≡ record { result = 4; text = codes "abc"; rest = codes "d" }
unfolding readfline
crlf_line = refl

-- A line that does not fit is an end of the file to the caller.
line_too_long :
    readfline 3 (codes "abc\nd") ≡ record { result = 0; text = codes "abc"; rest = codes "\nd" }
unfolding readfline
line_too_long = refl
