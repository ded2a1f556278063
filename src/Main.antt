-- ===== src/Main.antt =====
-- gopherus.c, main: its arguments, and its loop over the pages. What the network, the user and malloc
-- do in one turn of the loop is a record.
pub mod Arguments
pub mod Display
pub mod Exit
pub mod Program
mod Tests
use gopherus.Base.{
  is_zero, ℕ, ◌+◌, ◌-◌, ◌*◌, Bool, true, false, ◌||◌, List, [], ◌∷◌, ◌==◌, if◌then◌else◌, Bytes,
  Option, none, some, codes, ℤ, pos, negsuc,
}
use gopherus.History.{
  Node, Store, Request, Allocs, is_some, history_pop, history_push, history_clear, main_load,
  main_refresh,
}
use gopherus.Main.Display.{Shown, Order, Screen, Keys, show}
use gopherus.Url.Parse.{parseurl_proto_gopher}

-- What comes from outside in one turn of the loop: the outcomes of malloc for the welcome page, for the
-- cache, for a message of the history and for the page that is pushed; the page that is loaded; the
-- keys.
pub record Input : Type 0 where
  pub welcome_ok : Allocs
  pub cache_ok : Bool
  pub message_ok : Bool
  pub push_ok : Allocs
  pub loaded : Option Bytes
  pub keys : Keys

-- How a turn ends. While the display loop waits for a key there is no next turn, and none is known
-- after a read outside an array.
pub data Status : Type 0 where
  next quit out_of_memory waiting fault : Status

abbrev pub welcome : Request
welcome = record {
  protocol = parseurl_proto_gopher;
  host = codes "#welcome";
  port = 70;
  itemtype = b'1';
  selector = [];
}

is_displayable : ℕ → Bool
is_displayable itemtype =
    itemtype == b'0' || itemtype == b'1' || itemtype == b'7' || itemtype == b'h'

-- `displaymemory` of the current page
remember : ℤ → ℤ → List Node → List Node
remember line offset [] = []
remember line offset (n ∷ rest) = record n { selected_line = line; screen_offset = offset } ∷ rest

push_page : Allocs → Option Request → Store → Store
push_page a none s = s
push_page a (some r) s = (history_push a r s).0

-- The orders of a display function.
obey : Bool → Order → Store → Store × Status
obey message_ok Order.no_order s = (s, Status.next)
obey message_ok Order.back s = (history_pop message_ok s, Status.next)
obey message_ok Order.refr s = (main_refresh s, Status.next)
obey message_ok Order.quit s = (s, Status.quit)

-- What the display of a page does to the history.
shown : Input → Shown → Store → Store × Status
unfolding remember push_page obey
shown i (Shown.left order pushed line offset) s =
    obey i.message_ok order
      (push_page i.push_ok pushed (record s { nodes = remember line offset s.nodes }))
shown i Shown.waiting s = (s, Status.waiting)
shown i Shown.fault s = (s, Status.fault)

-- The current page on the screen.
display : Screen → Input → Store → Store × Status
unfolding shown
display screen i s = elim s.nodes [
  | [] ↦ (s, Status.fault)
  | n ∷ rest ↦ shown i (show screen i.keys n) s
]

-- A page without a cache is loaded first.
load_page : Screen → Input → Store → Store × Status
unfolding display
load_page screen i s = elim i.loaded [
  | none ↦ (history_pop i.message_ok s, Status.next)
  | some page ↦
      let t = main_load i.cache_ok i.message_ok page s in
      if i.cache_ok then display screen i t else (t, Status.next)
]

-- A page of another type is downloaded, which is no matter of the history, and left.
current_page : Screen → Input → Store → Store × Status
unfolding is_displayable display load_page
current_page screen i s = elim s.nodes [
  | [] ↦ (s, Status.fault)
  | n ∷ rest ↦
      if is_displayable n.itemtype
      then if is_some n.cache then display screen i s else load_page screen i s
      else (history_pop i.message_ok s, Status.next)
]

-- One turn of the loop; an empty history starts with the welcome page.
pub turn : Screen → Input → Store → Store × Status
unfolding current_page
turn screen i s = elim s.nodes [
  | [] ↦
      let r = history_push i.welcome_ok welcome s in
      if is_zero r.1 then current_page screen i r.0 else (r.0, Status.out_of_memory)
  | n ∷ rest ↦ current_page screen i s
]

-- Behind the loop: the history is flushed where there is one.
unfoldable pub gameover : Store → Store
gameover s = elim s.nodes [ [] ↦ s | n ∷ rest ↦ history_clear s ]

ended : Status → Bool
ended Status.next = false
ended status = true

-- The loop, for the inputs of its turns: the state in which it is left, or goes on.
pub main_loop : Screen → List Input → Store → Store × Status
unfolding turn ended
main_loop screen [] s = (s, Status.next)
main_loop screen (i ∷ is) s =
    let r = turn screen i s in let more = main_loop screen is r.0 in if ended r.1 then r else more
