-- ===== src/Config/Tests.antt =====
-- Tests of the configuration's lines, and the theorem at a concrete input.
use gopherus.Base.{
  ℕ, Bytes, [], set, atoi, All, drop, strcmp_eq, false, ◌≡◌, refl, true, some, none, codes, pos,
  minus_one,
}
use gopherus.Config.{hex2int, strstartswith, cfg_tokvaldelim}
use gopherus.ReadLine.{read_all}
use gopherus.Config.Settings.{Config, default_keys, keydef, loadcfg, getfunckey}
use gopherus.Config.Settings.Loaded.{IsConfig, loadcfg-IsConfig}

hex : hex2int b'c' ≡ pos 12
unfolding hex2int
hex = refl

no_hex : hex2int b'g' ≡ minus_one
unfolding hex2int
no_hex = refl

key : strstartswith (codes "key.") (codes "key.up") ≡ true
unfolding strstartswith
key = refl

no_value : cfg_tokvaldelim (codes " colors") ≡ none
unfolding cfg_tokvaldelim
no_value = refl

abbrev no_message : ℕ → Bytes × Bytes
no_message n = ([], [])

-- The default colours, and the keys with another one for up.
abbrev with_up : Config
with_up = record {
  attr_textnorm = some 23;
  attr_statusbarinfo = some 112;
  attr_statusbarwarn = some 71;
  attr_urlbar = some 112;
  attr_urlbardeco = some 120;
  attr_menutype = some 24;
  attr_menuerr = some 20;
  attr_menuselectable = some 18;
  attr_menucurrent = some 32;
  keys = set default_keys 9 7;
}

abbrev up_file : Bytes
up_file = codes "key.up=7\n"

up_loaded : loadcfg no_message (some up_file) ≡ some with_up
unfolding loadcfg cfg_tokvaldelim hex2int strstartswith read_all atoi
up_loaded = refl

up_pressed : getfunckey 7 with_up ≡ 9
unfolding getfunckey
up_pressed = refl

loadcfg-IsConfig_example : IsConfig with_up
loadcfg-IsConfig_example = loadcfg-IsConfig no_message (some up_file) with_up up_loaded

unknown : All (λ name. strcmp_eq (codes "u") name ≡ false) (drop 1 keydef)
unknown = (
  refl,
  (
    refl,
    (
      refl,
      (
        refl,
        (
          refl,
          (
            refl,
            (
              refl,
              (
                refl,
                (
                  refl,
                  (
                    refl,
                    (
                      refl,
                      (refl, (refl, (refl, (refl, (refl, (refl, (refl, (refl, (refl, tt))))))))),
                    ),
                  ),
                ),
              ),
            ),
          ),
        ),
      ),
    ),
  ),
)
