-- ===== src/Menu/Frame/Tests.antt =====
-- Tests of the drawing of a menu, and the theorems at a concrete one.
use gopherus.Base.{◌+◌, ◌-◌, ◌≡◌, List, [], ◌∷◌, some, codes, arith, pos, All}
use gopherus.Config.Settings.{Config, default_keys}
use gopherus.Menu.Item.{Entry}
use gopherus.Menu.Keys.{Cursor}
use gopherus.Menu.Frame.{draw_menu}
use gopherus.Menu.Frame.Cover.{hits, draw_menu-hits}
use gopherus.Menu.Frame.Selected.{draw_menu-selected}
use gopherus.Screen.{Size, Shown}

abbrev colors : Config
colors = record {
  attr_textnorm = some 0x17;
  attr_statusbarinfo = some 0x70;
  attr_statusbarwarn = some 0x47;
  attr_urlbar = some 0x70;
  attr_urlbardeco = some 0x78;
  attr_menutype = some 0x18;
  attr_menuerr = some 0x14;
  attr_menuselectable = some 0x12;
  attr_menucurrent = some 0x20;
  keys = default_keys;
}

abbrev page : Shown
page = record {
  protocol = 0;
  host = codes "a";
  port = 70;
  itemtype = b'1';
  selector = [];
  stale = [];
}

abbrev size : Size
size = record { colcount = 80; rowcount = 25 }

abbrev menu : List Entry
menu =
    record {
      description = codes "Hi";
      line = record { itemtype = b'i'; host = []; port = 70; selector = [] };
    }
    ∷ record {
      description = codes "D";
      line = record { itemtype = b'1'; host = codes "a"; port = 70; selector = codes "/d" };
    }
    ∷ []

abbrev cursor : Cursor
cursor = record { selectedline = pos 1; screenlineoffset = 0 }

draw_menu-hits_example : hits (draw_menu size colors page menu 2 cursor []).0 4 2 ≡ 1
draw_menu-hits_example =
    draw_menu-hits size colors page menu 2 cursor [] 4 2 (omega arith) (omega arith) (omega arith)

draw_menu-selected_example :
    All
      (λ s. s.y ≡ 1 + (1 - 0) → s.attr ≡ some 0x20)
      (draw_menu size colors page menu 2 cursor []).0
draw_menu-selected_example =
    draw_menu-selected size colors page menu 2 1 0 [] (omega arith) (omega arith) (omega arith)
