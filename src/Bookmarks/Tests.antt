-- ===== src/Bookmarks/Tests.antt =====
-- Tests of the bookmarks, and the theorems at concrete inputs.
use gopherus.Base.{◌≡◌, refl, true, some, none, [], codes}
use gopherus.ReadLine.Lines.{TextLine}
use gopherus.Bookmarks.Lines.{Matches}
use gopherus.Bookmarks.{
  is_match, Location, Message, addbookmarkifnotexist, bookmarkfile_createifnone, menuline_explode,
}

abbrev here : Location
here = record { itemtype = b'1'; host = codes "a.org"; port = 7070; selector = codes "/x" }

added :
    addbookmarkifnotexist true here none
    ≡ (some (codes "1a.org:7070/1/x\t/x\ta.org\t7070\n"), Message.saved)
unfolding addbookmarkifnotexist
added = refl

no_port :
    menuline_explode (codes "1b\t\tb.org")
    ≡ record { selector = some []; host = some (codes "b.org"); port = none }
unfolding menuline_explode
no_port = refl

kept : bookmarkfile_createifnone true true (some []) ≡ some []
unfolding bookmarkfile_createifnone
kept = refl

abbrev other : TextLine
other = record { crlf = true; text = codes "1b\t\tb" }

match_b : Matches (is_match (some (codes "B")) 70 none) other
unfolding is_match menuline_explode
match_b = refl
