-- ===== src/Menu/Tests.antt =====
-- Tests of the menu's keys, and the theorems at concrete inputs.
use gopherus.Base.{
  ◌+◌, ℕ, suc, zero, ◌≤◌, ◌≡◌, refl, true, some, none, [], ◌∷◌, codes, arith, pos, minus_one, Bytes,
}
use gopherus.Menu.Item.{Line, prefix}
use gopherus.Menu.Keys.{Page, Cursor, Key, Turn, start, press, link_at, prev_link, next_link}
use gopherus.Menu.Keys.Links.{Links, Menu, links, Safe}
use gopherus.Menu.Keys.Session.{run, next_turn, run-Safe}
use gopherus.Menu.Keys.Follow.{press-enter, location_of}
use gopherus.Url.Build.{port_part}
use gopherus.Url.Build.Writing.{Writable}
use gopherus.Url.Parse.Reading.{Readable}

abbrev line : ℕ → Bytes → Line
line itemtype selector = record {
  itemtype = itemtype;
  host = codes "a.org";
  port = 70;
  selector = selector;
}

abbrev page : Page
page = record {
  lines = line b'i' [] ∷ line b'1' (codes "/docs") ∷ line b'i' [] ∷ line b'0' (codes "/a") ∷ [];
  linecount = 4;
  firstlinkline = pos 1;
  lastlinkline = pos 3;
  rowcount = 25;
  host = codes "a.org";
  protocol = 1;
  port = 70;
}

page-Links : Links page
page-Links = links 1 3 refl refl refl refl bounds
  where
    bounds : (i : ℕ) → link_at page.lines i ≡ true → (1 ≤ i) × (i ≤ 3)
    bounds zero h = cc
    bounds (suc zero) h = omega arith
    bounds (suc (suc zero)) h = cc
    bounds (suc (suc (suc zero))) h = omega arith
    bounds (suc (suc (suc (suc i)))) h = cc

page-Menu : Menu page
page-Menu = record { linked = page-Links; counted = omega arith }

abbrev top : Cursor
top = record { selectedline = minus_one; screenlineoffset = 0 }

abbrev on_docs : Cursor
on_docs = record { selectedline = pos 1; screenlineoffset = 0 }

moved : run page (start page top) (Key.down ∷ Key.down ∷ Key.up ∷ []) ≡ Turn.stay on_docs
unfolding run next_turn start press prev_link next_link
moved = refl

binary : prefix (b'9' + 128) ≡ some (codes "   ")
unfolding prefix
binary = refl

run-Safe_example : Safe page (run page (start page top) (Key.down ∷ Key.up ∷ Key.pgdown ∷ []))
run-Safe_example =
    run-Safe page top (Key.down ∷ Key.up ∷ Key.pgdown ∷ []) page-Menu refl
      (λ e. cc, (λ e. cc, (λ e. cc, tt)))

docs-Writable : Writable 256 (codes "a.org") 70 b'1' (codes "/docs")
unfolding port_part
docs-Writable = record {
  named = omega arith;
  port_pos = omega arith;
  type_low = omega arith;
  type_high = omega arith;
  no_telnet = λ e. omega arith;
  no_hurl = refl;
  plain = omega arith;
  fits = omega arith;
}

docs-Readable : Readable 64 256 (codes "a.org") 70 (codes "/docs")
docs-Readable = record {
  host_bytes = omega arith;
  host_fits = omega arith;
  host_ushort = omega arith;
  port_ushort = omega arith;
  selector_fits = omega arith;
  selector_ushort = omega arith;
}

press-enter_example :
    press page on_docs (Key.enter none true) ≡ Turn.push (location_of (line b'1' (codes "/docs")))
press-enter_example =
    press-enter page on_docs none true 1 (line b'1' (codes "/docs")) refl refl (λ e. omega arith)
      docs-Writable docs-Readable
