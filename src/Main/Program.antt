-- ===== src/Main/Program.antt =====
-- gopherus.c, main: the whole program, from its arguments to its exit, and the mode that shows the
-- codes of keys.
pub mod Released
use gopherus.Base.{
  ℕ, ◌+◌, Bool, true, false, not, List, [], ◌∷◌, ◌++◌, ◌==◌, if◌then◌else◌, Bytes, Option, none,
  some, codes, ℤ, is_zero, ◌&&◌, strcasecmp_eq,
}
use gopherus.History.{Store, Allocs}
use gopherus.Main.{Input, Status, gameover, main_loop}
use gopherus.Main.Arguments.{Args, Parsed, parsed, failed, parse_args}
use gopherus.Main.Display.{Screen}

-- What the program holds, and why it stops if it has to.
pub record Held : Type 0 where
  pub buffer : Bool
  pub net : Bool
  pub ui : Bool
  pub store : Store
  pub fatalerr : Option Bytes

-- What comes from outside: the configuration, the outcomes of the allocations and of the setup, and
-- what happens in the turns of the loop; `guarded` is whether the guardian values are still there, and
-- `keys` are those that are pressed under -keycodes.
pub record World : Type 0 where
  pub loadcfg : ℤ
  pub history_ok : Allocs
  pub buffer_ok : Bool
  pub net_init : ℤ
  pub ui_init : ℤ
  pub screen : Screen
  pub inputs : List Input
  pub guarded : Bool
  pub keys : List ℕ

-- How it ends: at once, before the setup, with a code and what is still held then; not yet; by a fault in
-- one of the displays; or at the exit, with a code, the lines that are printed there and what is still
-- held.
pub data Ran : Type 0 where
  refused : ℕ → Held → Ran
  running : Ran
  faulted : Ran
  returned : ℕ → List Bytes → Held → Ran

initial : Store → Held
initial s = record { buffer = false; net = false; ui = false; store = s; fatalerr = none }

said : Bool → Bytes → List Bytes
said true text = text ∷ []
said false text = []

-- `if (cfg.notui == 0) ui_puts(text);`
unless_silent : Bool → Bytes → List Bytes
unfolding said
unless_silent notui text = said (not notui) text

fatal_lines : Option Bytes → List Bytes
fatal_lines none = []
fatal_lines (some text) = text ∷ [] ∷ []

has_pages : Store → Bool
has_pages s = elim s.nodes [ [] ↦ false | n ∷ rest ↦ true ]

-- The label GAMEOVER, behind the lines that are printed `before`: the screen, the buffer, the history
-- and the network are given back.
unfoldable pub game_over : World → Bool → List Bytes → Held → Ran
unfolding fatal_lines unless_silent gameover has_pages said
game_over w notui before h =
    let freed = unless_silent notui (codes "deallocating buffer memory...") in
    let overflow = said (not w.guarded) (codes "WARNING: BUFFER OVERFLOW DETECTED") in
    let flush = unless_silent notui (codes "flushing cache history...") in
    let shut = unless_silent notui (codes "uninitializing TCP/IP...") in
    let done = unless_silent notui (codes "all done, see you later.") in
    let text =
      before
      ++ fatal_lines h.fatalerr
      ++ ((if h.buffer then overflow ++ freed else [])
          ++ ((if has_pages h.store then flush else [])
              ++ ((if h.net then shut else [])
                  ++ elim h.fatalerr [ none ↦ done | some e ↦ [] ]))) in
    returned (elim h.fatalerr [ none ↦ 0 | some e ↦ 1 ]) text
      (record {
        buffer = if h.buffer then false else h.buffer;
        net = if h.net then false else h.net;
        ui = if h.ui then false else h.ui;
        store = gameover h.store;
        fatalerr = h.fatalerr;
      })

-- How the loop over the pages is left.
behind_loop : World → Bool → Held → Store × Status → Ran
unfolding game_over
behind_loop w notui h (s, Status.quit) = game_over w notui [] (record h { store = s })
behind_loop w notui h (s, Status.out_of_memory) =
    game_over w notui [] (record h { store = s; fatalerr = some (codes "Out of memory!") })
behind_loop w notui h (s, Status.next) = running
behind_loop w notui h (s, Status.waiting) = running
behind_loop w notui h (s, Status.fault) = faulted

-- The screen, and the loop.
interactive : World → Args → Held → Ran
unfolding behind_loop game_over
interactive w args h =
    let failed = record h { fatalerr = some (codes "ERROR: ui_init() failure") } in
    if not (is_zero w.ui_init)
    then game_over w args.notui [] failed
    else behind_loop w args.notui (record h { ui = true }) (main_loop w.screen w.inputs h.store)

-- Behind the arguments. With a file name the resource is fetched and no screen is set up; what the
-- transfer does is no matter here.
started : World → Args → Ran
unfolding interactive initial game_over said has_pages
started w args =
    let h = initial args.history in
    let no_url = codes "You must provide an URL when using -o" in
    let no_memory = record h { fatalerr = some (codes "Out of memory!") } in
    let with_buffer = record h { buffer = true } in
    let no_net = record with_buffer {
      fatalerr = some (codes "Network subsystem initialization failed!");
    } in
    let with_net = record with_buffer { net = true } in
    let mode : Ran = elim args.saveas [
      | none ↦ interactive w args with_net
      | some file ↦ game_over w args.notui (said (not (has_pages args.history)) no_url) with_net
    ] in
    if not w.buffer_ok
    then game_over w args.notui [] no_memory
    else if not (is_zero w.net_init)
    then game_over w args.notui [] no_net
    else mode

accepted : World → Parsed → Ran
unfolding started initial
accepted w (parsed args) = started w args
accepted w (failed r s) = refused 1 (initial s)

-- `gopherus -keycodes`
is_keycodes : List Bytes → Bool
is_keycodes [] = false
is_keycodes (arg ∷ []) = strcasecmp_eq arg (codes "-keycodes")
is_keycodes (arg ∷ next ∷ rest) = false

-- The codes that are shown for the keys that are pressed, `lastk` before; none while it waits for more.
keycodes : ℕ → List ℕ → Option (List ℕ)
keycodes lastk [] = none
keycodes lastk (k ∷ keys) =
    let more : Option (List ℕ) = elim (keycodes k keys) [
      | none ↦ none
      | some shown ↦ some (k ∷ shown)
    ] in
    if k == 32 && lastk == 32 then some [] else more

-- The program, from its arguments behind the name, where `base` blocks are live.
unfoldable pub program : World → List Bytes → ℕ → Ran
unfolding accepted is_keycodes keycodes initial
program w argv base =
    let s : Store = record { live = base; nodes = [] } in
    let args : Args = record { notui = false; saveas = none; history = s } in
    let codes_shown : Ran = elim (keycodes 0 w.keys) [
      | none ↦ running
      | some shown ↦ returned 0 [] (initial s)
    ] in
    if is_keycodes argv
    then codes_shown
    else if not (is_zero w.loadcfg)
    then refused 1 (initial s)
    else accepted w (parse_args w.history_ok argv args)
