-- ===== src/Lib.antt =====
-- Gopherus, a console-mode gopher client.
--
-- The program shows one page at a time: main takes the page on top of the history, loads it where
-- its cache is empty, and shows it as a menu or as a text until a key asks for another page. The
-- parts that this library models are the following.
--
--   Base       the helpers: Boolean tests and lists over the native numbers, nul-terminated strings
--              as lists of bytes (strcmp, strcasecmp), integers, atoi and %u.
--   History    history.c and the part of main in gopherus.c that fills and drops caches: the list of
--              pages, with the outcome of every malloc as an argument and the number of live blocks
--              in the state. Ledger says that no block is lost, Back what going back does, Cache what
--              the cleanup keeps.
--   Url        parseurl.c: Parse is parsegopherurl, a function per state of its loop; Build is
--              buildgopherurl, which writes into a buffer of a given size and records a write past
--              it as a fault; RoundTrip joins them.
--   DnsCache   dnscache.c: the table of 16 entries, with the clock as an argument.
--   Wordwrap   wordwrap.c, and the loop over it of tests/wraptest.c and the text screen.
--   ReadLine   readflin.c: readfline over the bytes of a file that are left.
--   Edit       editstring in gopherus.c: the array with its loops (Shift), and the text before and
--              after the cursor that it stands for (Zipper, Session).
--   Bookmarks  addbookmarkifnotexist, delbookmark, bookmarkfile_createifnone and menuline_explode in
--              gopherus.c, on the bytes of the file: Copy is the loop that moves the rest of the
--              file, Lines the loops over its lines, Session what additions and deletions do.
--   FileName   genfnamefromselector in gopherus.c: the file name that is offered for a download.
--   Main       main in gopherus.c: Arguments is the command line, Display the page that is shown,
--              over Menu and TextView, Program the setup, the exit and -keycodes, and the file itself
--              the loop over the pages, over History. What comes from outside in one turn of the
--              loop, and in the setup, is a record.
--   Config     loadcfg and cfgfileread in gopherus.c: the split of a line into token and value, and in
--              Settings the keys and the colours. What stands in the line's buffer behind a message
--              is an argument.
--   Net        net/net.h and its backends: Bsd is net/net-bsd.c on a POSIX system, Watt net/net-w32.c,
--              over what the calls of the system give. Both fill the interface Backend, whose client
--              is a session of connections.
--   Grams      idoc/grams.c: the counts of grams (Counts) and their removal (Removal).
--   Draw       utf8toint and drawstr in gopherus.c: the characters that a row of the screen gets.
--   Load       loadfile_buff and http_skip_headers in gopherus.c: the network, the clock, the user
--              and the disk are records and lists of events. It uses DnsCache. Messages is what the
--              messages of a call leave in the status row of Screen.
--   Embedded   startpg.c and idoc/idocgen.c: the packed pages and the bookmarks on the welcome
--              page, which ReadLine reads.
--   Menu       menu_explode and display_menu in gopherus.c: Explode splits the bytes into lines, on an
--              array with indices for the pointers (RoundTrip says what a menu that was printed gives,
--              over Columns, Stored, Reading, Wrapping, Marker and Lines), Item has the types of a
--              menu's lines, Keys the turn of the loop for each key, Frame what is drawn in a turn.
--              A link is followed through Url, as the code does it.
--   Ui         ui/ui-curse.c: Curses makes the pairs of colours and reads the keys; what curses itself
--              defines and reads is an argument.
--   Screen     the first and the last row of the screen in gopherus.c: draw_urlbar, set_statusbar,
--              draw_statusbar, status_msg and askQuitConfirmation, as calls of drawstr.
--   TextView   display_text in gopherus.c: Raw and Html fill the buffer, Screen draws the rows and
--              handles the keys, over Wordwrap.
--
-- Names are those of the code. A string is the list of the bytes before its nul, and a buffer's size
-- is an argument where the code has it as one. Pointers into a text are the rest of the text. Numbers
-- are natural numbers; the conversions to unsigned short are written out, and an index that may be -1
-- is an integer. What the code reads or writes outside an array, and a reception larger than the
-- buffer, is an outcome of its own (fault, overrun, overflow).
--
-- Fuel. The loop over a text's lines (Wordwrap) takes a step for each call of wordwrap, which leaves
-- a shorter text, so one more than the length of the text is enough. The loops over a file (ReadLine,
-- Embedded, Bookmarks, Config) take a step for each line and one for the end of the file. The loop
-- over the lines of a menu takes at least one byte a step, and the one that wraps a line moves on in
-- the buffer at each, so one more than the number of bytes is enough for both (Menu). print_u has fuel
-- above the number of digits. All other loops are over the keys, the events or the bytes that they consume.
--
-- Not modelled: the backends of ui and fs apart from the colours and keys of curses, since they are
-- input and output of a platform; the headers under watt32 and libd2sock, which belong to other
-- projects.
mod Base
pub mod FileName
pub mod History
pub mod TextView
pub mod Ui
pub mod Wordwrap
pub mod Grams
pub mod ReadLine
pub mod Net
pub mod Screen
pub mod Config
pub mod Bookmarks
pub mod DnsCache
pub mod Url
pub mod Draw
pub mod Edit
pub mod Embedded
pub mod Load
pub mod Main
pub mod Menu
