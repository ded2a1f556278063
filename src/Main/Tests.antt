-- ===== src/Main/Tests.antt =====
-- Tests of main, and the theorems at concrete inputs.
use gopherus.Base.{
  ◌≡◌, refl, true, false, List, [], ◌∷◌, some, none, Option, ℕ, codes, minus_one, pos,
}
use gopherus.TextView.{content}
use gopherus.TextView.Raw.{raw_text}
use gopherus.TextView.Screen.Session.{leave}
use gopherus.History.{main_load, Store, Allocs, Node}
use gopherus.History.Cache.{top_cache}
use gopherus.History.Ledger.{IsValid}
use gopherus.Main.{Input, Status, turn, main_loop}
use gopherus.Main.Arguments.{Args, parse_args, parse_args-output}
use gopherus.Main.Display.{Screen, show}
use gopherus.Main.Exit.{HasContent, turn-HasContent}
use gopherus.Main.Program.{World, Ran, refused, returned, program}
use gopherus.Main.Program.Released.{Released}
use gopherus.TextView.Screen as Text

abbrev screen : Screen
screen = record { rowcount = 5; colcount = 20 }

abbrev all_ok : Allocs
all_ok = record { node_ok = true; selector_ok = true; message_ok = true }

abbrev text_keys : List Text.Key → Input
text_keys keys = record {
  welcome_ok = all_ok;
  cache_ok = true;
  message_ok = true;
  push_ok = all_ok;
  loaded = some (codes "hi");
  keys = record { menu = []; text = keys };
}

abbrev page : Node
page = record {
  cachesize = 0;
  selector = codes "/t";
  cache = none;
  port = 70;
  protocol = 1;
  itemtype = b'0';
  selected_line = minus_one;
  screen_offset = minus_one;
  host = codes "a.org";
}

abbrev history : Store
history = record { live = 2; nodes = page ∷ [] }

history-IsValid : IsValid 0 history
history-IsValid = record { owned = refl; sized = (refl, tt) }

on_screen : (turn screen (text_keys []) history).1 ≡ Status.waiting
unfolding turn main_load show content raw_text leave
on_screen = refl

turn-HasContent_example :
    HasContent
      (top_cache history.nodes)
      (text_keys []).loaded
      (turn screen (text_keys []) history).0.nodes
turn-HasContent_example = turn-HasContent screen (text_keys []) history on_screen

abbrev no_args : Args
no_args = record { notui = false; saveas = none; history = record { live = 0; nodes = [] } }

parse_args-output_example :
    parse_args all_ok (codes "a.org" ∷ codes "-o" ∷ codes "f" ∷ []) no_args
    ≡ parse_args all_ok (codes "-o" ∷ codes "f" ∷ codes "a.org" ∷ []) no_args
parse_args-output_example =
    parse_args-output all_ok (codes "a.org") (codes "f") no_args refl refl refl

-- A page on the command line, that the user leaves at once.
abbrev world : World
world = record {
  loadcfg = pos 0;
  history_ok = all_ok;
  buffer_ok = true;
  net_init = pos 0;
  ui_init = pos 0;
  screen = screen;
  inputs = text_keys (Text.Key.esc true ∷ []) ∷ [];
  guarded = true;
  keys = [];
}

exit_code : Ran → Option ℕ
exit_code (returned code text h) = some code
exit_code ran = none

-- What is left where the arguments are wrong: the node of the page and its selector.
left_live : Ran → Option ℕ
left_live (refused code h) = some h.store.live
left_live ran = none

two_urls : left_live (program world (codes "a.org" ∷ codes "b.org" ∷ []) 3) ≡ some 5
unfolding program left_live parse_args gopherus.Url.Parse.parsegopherurl
    gopherus.History.history_push
two_urls = refl

left : exit_code (program world (codes "a.org/0/t" ∷ []) 3) ≡ some 0
unfolding program exit_code parse_args gopherus.Url.Parse.parsegopherurl
    gopherus.History.history_push main_loop turn main_load show content raw_text leave Text.draw
    Text.start gopherus.Wordwrap.wordwrap Text.text_width gopherus.TextView.Screen.Session.next_view
    Text.press
left = refl

without_url : exit_code (program world (codes "-o" ∷ codes "f" ∷ []) 3) ≡ some 0
unfolding program exit_code parse_args
without_url = refl
