-- ===== src/Screen/Tests.antt =====
-- Tests of the status row.
use gopherus.Base.{◌≡◌, refl, Bytes, List, [], ◌∷◌, codes, map, some, true, none, take, ◌-◌}
use gopherus.Config.Settings.{Config, default_keys}
use gopherus.Screen.{statusbar_size, status_msg}
use gopherus.Screen.Messages.{rows, first_message, message_row, rows-first}

abbrev plain : Config
plain = record {
  attr_textnorm = some 0x17;
  attr_statusbarinfo = some 0x70;
  attr_statusbarwarn = some 0x47;
  attr_urlbar = some 0x70;
  attr_urlbardeco = some 0x78;
  attr_menutype = some 0x18;
  attr_menuerr = some 0x14;
  attr_menuselectable = some 0x12;
  attr_menucurrent = some 0x20;
  keys = default_keys;
}

-- A warning loses its mark on the console, and an empty message is not shown.
console : status_msg true (codes "!bad") [] ≡ (some (codes "bad"), [])
unfolding status_msg
console = refl

no_text : status_msg true [] [] ≡ (none, [])
unfolding status_msg
no_text = refl

abbrev messages : List (List Bytes)
messages = ([] ∷ codes "!a" ∷ codes "b" ∷ []) ∷ [] ∷ []

rows-first_example :
    rows (record { colcount = 80; rowcount = 25 }) plain messages []
    ≡ map
        (λ ms.
          message_row
            (record { colcount = 80; rowcount = 25 })
            plain
            (take (statusbar_size - 1) (first_message ms)))
        messages
rows-first_example = rows-first (record { colcount = 80; rowcount = 25 }) plain messages
