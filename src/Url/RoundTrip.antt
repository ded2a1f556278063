-- ===== src/Url/RoundTrip.antt =====
-- A gopher location that fits its buffers is read back from the URL that is built for it.
use gopherus.Base.{ℕ, ◌≡◌, Bytes}
use gopherus.Url.Parse.{parsegopherurl}
use gopherus.Url.Parse.Reading.{Readable, parsegopherurl-url_of}
use gopherus.Url.Build.{buildgopherurl}
use gopherus.Url.Build.Writing.{Writable, buildgopherurl-url_of}

-- `parsegopherurl` gives back the host, port, type and selector of the URL that `buildgopherurl`
-- writes for them: for a gopher location with a host that is not empty and holds no ':' or '/', a
-- port that is not 0, a type that is printable and no telnet link, a selector of plain ASCII that
-- is no hURL, and buffers with room for the parts and for the URL.
pub parsegopherurl-buildgopherurl :
    (maxlen hostlen selectorlen : ℕ) (host : Bytes) (port itemtype : ℕ) (selector : Bytes)
    → Writable maxlen host port itemtype selector
    → Readable hostlen selectorlen host port selector
    → parsegopherurl (buildgopherurl maxlen 1 host port itemtype selector).text hostlen selectorlen
      ≡ record { protocol = 1; host = host; port = port; itemtype = itemtype; selector = selector }
parsegopherurl-buildgopherurl maxlen hostlen selectorlen host port itemtype selector w r =
    rw (buildgopherurl-url_of maxlen host port itemtype selector w)
      (parsegopherurl-url_of hostlen selectorlen host port itemtype selector r)
