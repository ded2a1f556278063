-- ===== src/History/Tests.antt =====
-- Tests of the history, and the theorems at concrete inputs.
use gopherus.Base.{
  get_elem?, ℕ, ◌≡◌, refl, true, false, Option, none, some, List, [], ◌∷◌, arith, length, Bytes,
  codes, pos, minus_one,
}
use gopherus.History.{
  Node, Store, Request, Allocs, history_pop, history_push, history_cleanupcache, main_load,
  query_msg,
}
use gopherus.History.Ledger.{Op, pop, push, cleanup, load, run, IsValid, run-IsValid}
use gopherus.History.Back.{SamePage, request_of, push-push}
use gopherus.History.Cache.{Fate, total_size, history_cleanupcache-Fate, history_cleanupcache_idem}

abbrev to_page : Bytes → ℕ → Bytes → Request
to_page host itemtype selector = record {
  protocol = 1;
  host = host;
  port = 70;
  itemtype = itemtype;
  selector = selector;
}

abbrev page : Bytes → ℕ → Option Bytes → ℕ → Node
page host itemtype cache size = record {
  cachesize = size;
  selector = codes "";
  cache = cache;
  port = 70;
  protocol = 1;
  itemtype = itemtype;
  selected_line = minus_one;
  screen_offset = minus_one;
  host = host;
}

abbrev welcome : Node
welcome = page (codes "#welcome") b'1' (some (codes "ihello")) 6

abbrev floodgap : Node
floodgap = page (codes "gopher.floodgap.com") b'1' (some (codes "1a\n1b")) 5

abbrev search : Node
search = page (codes "veronica") b'7' none 0

abbrev browsing : Store
browsing = record { live = 7; nodes = floodgap ∷ welcome ∷ [] }

abbrev all_ok : Allocs
all_ok = record { node_ok = true; selector_ok = true; message_ok = true }

abbrev no_selector : Allocs
no_selector = record { node_ok = true; selector_ok = false; message_ok = true }

browsing-IsValid : IsValid 1 browsing
browsing-IsValid = record { owned = refl; sized = (refl, (refl, tt)) }

-- A query that is not in the cache gets the message.
pop_to_query : history_pop true (record { live = 5; nodes = floodgap ∷ search ∷ [] }) ≡ record {
  live = 3;
  nodes = record search { cachesize = length query_msg; cache = some query_msg } ∷ [];
}
unfolding history_pop
pop_to_query = refl

embedded_dropped :
    history_cleanupcache browsing
    ≡ record { live = 6; nodes = floodgap ∷ record welcome { cache = none; cachesize = 0 } ∷ [] }
unfolding history_cleanupcache
embedded_dropped = refl

abbrev session : List Op
session =
    push all_ok (to_page (codes "veronica") b'7' (codes "x"))
    ∷ load true true (codes "found")
    ∷ push no_selector (to_page (codes "a") b'0' (codes ""))
    ∷ pop true
    ∷ cleanup
    ∷ []

run-IsValid_example : IsValid 1 (run session browsing)
run-IsValid_example = run-IsValid 1 session browsing browsing-IsValid

hosts_differ : ¬ SamePage (to_page (codes "veronica") b'7' (codes "x")) welcome
hosts_differ h = omega arith

push-push_example :
    (let loaded =
        main_load true true
          (codes "found")
          (history_push all_ok (to_page (codes "veronica") b'7' (codes "x")) browsing).0 in
      let back = history_push all_ok (request_of floodgap) loaded in
      (back.1 ≡ pos 0) × (back.0.nodes ≡ (history_cleanupcache browsing).nodes))
push-push_example =
    push-push all_ok all_ok (to_page (codes "veronica") b'7' (codes "x")) true (codes "found") 7
      floodgap (welcome ∷ []) hosts_differ refl refl refl

no_memory : (history_push no_selector (to_page (codes "a") b'0' (codes "")) browsing).1 ≡ minus_one
unfolding history_push
no_memory = refl

history_cleanupcache-Fate_example :
    Fate (total_size (floodgap ∷ [])) welcome (get_elem? (history_cleanupcache browsing).nodes 1)
history_cleanupcache-Fate_example =
    history_cleanupcache-Fate 1 browsing (floodgap ∷ []) welcome [] browsing-IsValid (omega arith)
      refl

history_cleanupcache_idem_example :
    (history_cleanupcache (history_cleanupcache browsing)).nodes
    ≡ (history_cleanupcache browsing).nodes
history_cleanupcache_idem_example =
    history_cleanupcache_idem 1 browsing browsing-IsValid (omega arith)
