-- ===== src/Url/Tests.antt =====
-- Tests of the URLs, and the theorems at concrete inputs.
use gopherus.Base.{◌≡◌, refl, false, [], ◌∷◌, codes, Bytes, pos, arith, print_u}
use gopherus.Url.Parse.{parsegopherurl}
use gopherus.Url.Build.{buildgopherurl, port_part}
use gopherus.Url.Build.Writing.{Writable}
use gopherus.Url.Build.Limits.{buildgopherurl_sound}
use gopherus.Url.Parse.Reading.{Readable}
use gopherus.Url.RoundTrip.{parsegopherurl-buildgopherurl}

parsed : parsegopherurl (codes "gopher://floodgap.com:7070/0/docs/a") 64 256 ≡ record {
  protocol = 1;
  host = codes "floodgap.com";
  port = 7070;
  itemtype = b'0';
  selector = codes "/docs/a";
}
unfolding parsegopherurl
parsed = refl

parsed_http : parsegopherurl (codes "HTTP://a.org/x") 64 256 ≡ record {
  protocol = 2;
  host = codes "a.org";
  port = 80;
  itemtype = b'h';
  selector = codes "x";
}
unfolding parsegopherurl
parsed_http = refl

built :
    buildgopherurl 256 1 (codes "floodgap.com") 7070 b'0' (codes "/docs/a")
    ≡ record { result = pos 35; text = codes "gopher://floodgap.com:7070/0/docs/a"; fault = false }
unfolding buildgopherurl
built = refl

escaped_tab :
    (buildgopherurl 256 1 (codes "a") 70 b'7' (codes "/s\tq")).text ≡ codes "gopher://a/7/s%09q"
unfolding buildgopherurl
escaped_tab = refl

-- The code's escape of 0x1b.
escaped_esc : (buildgopherurl 256 1 (codes "a") 70 b'0' (0x1b ∷ [])).text ≡ codes "gopher://a/0%1;"
unfolding buildgopherurl
escaped_esc = refl

abbrev docs : Bytes
docs = codes "/docs"

docs-Writable : Writable 256 (codes "a.org") 7070 b'0' docs
unfolding port_part print_u
docs-Writable = record {
  named = omega arith;
  port_pos = omega arith;
  type_low = omega arith;
  type_high = omega arith;
  no_telnet = λ e. omega arith;
  no_hurl = refl;
  plain = omega arith;
  fits = omega arith;
}

docs-Readable : Readable 64 256 (codes "a.org") 7070 docs
docs-Readable = record {
  host_bytes = omega arith;
  host_fits = omega arith;
  host_ushort = omega arith;
  port_ushort = omega arith;
  selector_fits = omega arith;
  selector_ushort = omega arith;
}

parsegopherurl-buildgopherurl_example :
    parsegopherurl (buildgopherurl 256 1 (codes "a.org") 7070 b'0' docs).text 64 256
    ≡ record { protocol = 1; host = codes "a.org"; port = 7070; itemtype = b'0'; selector = docs }
parsegopherurl-buildgopherurl_example =
    parsegopherurl-buildgopherurl 256 64 256 (codes "a.org") 7070 b'0' docs docs-Writable
      docs-Readable

buildgopherurl_sound_example : (buildgopherurl 256 1 (codes "a.org") 70 b'0' docs).fault ≡ false
unfolding port_part print_u
buildgopherurl_sound_example = buildgopherurl_sound 256 1 (codes "a.org") 70 b'0' docs (omega arith)
