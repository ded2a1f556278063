-- ===== src/Menu/Explode/Tests.antt =====
-- Tests of menu_explode, and the theorems at a concrete menu.
use mathlib.Core.Option
use gopherus.Base.{
  ℕ, ◌≡◌, ◌≢◌, ◌+◌, ap, Bool, true, false, length, refl, Bytes, [], ◌∷◌, ◌++◌, some, none, codes,
  arith, pos, minus_one, map, Option, get_elem?, ℤ,
}
use gopherus.Menu.Item.{Entry, Line}
use gopherus.Menu.Keys.{Key, start}
use gopherus.Menu.Keys.Links.{Safe}
use gopherus.Menu.Keys.Session.{run}
use gopherus.Wordwrap.{wordwrap}
use gopherus.Menu.Explode.{
  entry_of, entries_of, listing, menu_explode, Exploded, Exploding, overrun, exploded, State,
  explode_loop, initial, page_of,
}
use gopherus.Menu.Explode.Links.{Explosion, menu_explode-Links, menu_explode-Safe}
use gopherus.Menu.Explode.Wrapping.{Fits}
use gopherus.Menu.Explode.RoundTrip.{menu_of, menu_explode-menu_of}

-- A message, a directory, and the end of the menu.
abbrev menu : Bytes
menu = codes "i\r\n1D\t/d\ta\t7\r\n.\r\n"

abbrev directory : Line
directory = record { itemtype = b'1'; host = codes "a"; port = 7; selector = codes "/d" }

abbrev second_link : Option Exploding → Option Line
second_link none = none
second_link (some overrun) = none
second_link (some (exploded e)) = get_elem? (page_of e 25 [] 1 70).lines 1

fields : second_link (menu_explode 10 100 menu) ≡ some directory
unfolding menu_explode page_of wordwrap gopherus.Menu.Explode.string_at gopherus.Base.atoi
fields = refl

abbrev marks : Option Exploding → Option (ℤ × ℤ)
marks none = none
marks (some overrun) = none
marks (some (exploded e)) = some (e.firstlinkline, e.lastlinkline)

-- Behind an empty line that is a bare LF the next lines are taken for its rest, and two links are one.
swallowed : marks (menu_explode 9 9 (codes "\n1D\n1E\n")) ≡ some (pos 3, pos 3)
unfolding menu_explode wordwrap gopherus.Menu.Explode.string_at
swallowed = refl

-- A long last line goes past the arrays.
burst : menu_explode 9 2 (codes "1abcd efgh ijkl mnop\n") ≡ some overrun
unfolding menu_explode wordwrap gopherus.Menu.Explode.string_at
burst = refl

menu_explode-Links_example :
    (s : State) × (explode_loop (length menu + 1) 10 100 (initial menu) ≡ some s)
    × Explosion 100 s (menu_explode 10 100 menu)
menu_explode-Links_example = menu_explode-Links 10 100 menu (omega arith)

is_overrun : Option Exploding → Bool
is_overrun (some overrun) = true
is_overrun r = false

menu-fits : menu_explode 10 100 menu ≢ some overrun
unfolding menu_explode wordwrap gopherus.Menu.Explode.string_at is_overrun
menu-fits e = let same : false ≡ true = ap is_overrun e in cc

menu_explode-Safe_example :
    (e : Exploded) × (menu_explode 10 100 menu ≡ some (exploded e))
    × Safe (page_of e 25 (codes "b.org") 1 70) (
        run
          (page_of e 25 (codes "b.org") 1 70)
          (start
            (page_of e 25 (codes "b.org") 1 70)
            (record { selectedline = minus_one; screenlineoffset = 0 }))
          (Key.down ∷ Key.pgup ∷ Key.down_all ∷ []))
menu_explode-Safe_example =
    menu_explode-Safe 10 100 25 menu (codes "b.org") 1 70
      (record { selectedline = minus_one; screenlineoffset = 0 })
      (Key.down ∷ Key.pgup ∷ Key.down_all ∷ []) (omega arith) menu-fits refl
      (λ e k. (λ q. cc, (λ q. cc, (λ q. cc, tt))))

abbrev message : Entry
message = record {
  description = codes "Hi";
  line = record { itemtype = b'i'; host = codes "h"; port = 70; selector = [] };
}

abbrev link : Entry
link = record { description = codes "D"; line = directory }

message-Fits : Fits 10 message
unfolding gopherus.Menu.Explode.wraplen gopherus.Base.print_u
message-Fits = record {
  plain = record {
    itemtype = ground arith;
    description = ground arith;
    selector = tt;
    host = ground arith;
  };
  width = omega arith;
  short = omega arith;
  port = omega arith;
  port_bound = omega arith;
}

link-Fits : Fits 10 link
unfolding gopherus.Menu.Explode.wraplen gopherus.Base.print_u
link-Fits = record {
  plain = record {
    itemtype = ground arith;
    description = ground arith;
    selector = ground arith;
    host = ground arith;
  };
  width = omega arith;
  short = omega arith;
  port = omega arith;
  port_bound = omega arith;
}

menu_explode-menu_of_example :
    Option.map listing (menu_explode 10 100 (menu_of (message ∷ link ∷ [])))
    ≡ some (some (message ∷ link ∷ []))
menu_explode-menu_of_example =
    menu_explode-menu_of 10 100 (message ∷ []) link (message-Fits, (link-Fits, tt)) (λ e. cc)
      (omega arith)
