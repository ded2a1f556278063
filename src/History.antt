-- ===== src/History.antt =====
-- history.c and history.h: the pages that were visited, the current one first, and their caches.
-- The `next` pointers are the list itself: nodes are only added and removed at the front, and no
-- other pointer to a node is kept. `live` counts the allocated blocks, and every call of malloc
-- takes its outcome as an argument. The two functions at the end are the parts of `main` in
-- gopherus.c that fill and drop a cache.
pub mod Ledger
mod Back
pub mod Cache
mod Tests
use gopherus.Base.{
  ℕ, ◌+◌, ◌-◌, ◌*◌, ◌%◌, ◌^◌, Bool, true, false, not, ◌&&◌, ◌||◌, Option, none, some, List, [], ◌∷◌,
  ltb, ◌==◌, if◌then◌else◌, length, get_or, Bytes, codes, strcmp_eq, strcasecmp_eq, ℤ, pos,
  minus_one,
}

-- struct historytype
pub record Node : Type 0 where
  pub cachesize : ℕ
  pub selector : Bytes
  pub cache : Option Bytes
  pub port : ℕ
  pub protocol : ℕ
  pub itemtype : ℕ
  pub selected_line : ℤ
  pub screen_offset : ℤ
  pub host : Bytes

pub record Store : Type 0 where
  pub live : ℕ
  pub nodes : List Node

abbrev pub is_some : Option Bytes → Bool
is_some none = false
is_some (some c) = true

history_free_node : ℕ → Node → ℕ
history_free_node live node = (if is_some node.cache then live - 1 else live) - 1 - 1

abbrev pub query_msg : Bytes
query_msg =
    codes
      "3Query not in cache\ni\niThis location is not available in the local cache. Gopherus is not reissuing custom queries automatically. If you wish to force a reload, press F5.\n"

-- The second half of `history_pop`; the block that holds the message has one more byte, a nul.
query_message : Bool → ℕ → List Node → Store
query_message ok live [] = record { live = live; nodes = [] }
query_message ok live (n ∷ rest) =
    if n.itemtype == b'7' && not (is_some n.cache)
    then (if ok
        then record {
          live = live + 1;
          nodes = record n { cachesize = length query_msg; cache = some query_msg } ∷ rest;
        }
        else record { live = live; nodes = record n { cachesize = 0 } ∷ rest })
    else record { live = live; nodes = n ∷ rest }

history_pop_nodes : Bool → ℕ → List Node → Store
history_pop_nodes ok live [] = record { live = live; nodes = [] }
history_pop_nodes ok live (victim ∷ rest) = query_message ok (history_free_node live victim) rest

pub history_pop : Bool → Store → Store
unfolding history_pop_nodes query_message history_free_node
history_pop ok s = history_pop_nodes ok s.live s.nodes

-- What is asked for in a call of `history_push`.
pub record Request : Type 0 where
  pub protocol : ℕ
  pub host : Bytes
  pub port : ℕ
  pub itemtype : ℕ
  pub selector : Bytes

same_page : Request → Node → Bool
same_page r n =
    r.protocol == n.protocol
    && strcasecmp_eq r.host n.host
    && r.port == n.port
    && r.itemtype == n.itemtype
    && strcmp_eq r.selector n.selector

-- The new page is the one before the current one.
pub is_back : Request → List Node → Bool
unfolding same_page
is_back r (current ∷ previous ∷ rest) = same_page r previous
is_back r _ = false

new_node : Request → Node
new_node r = record {
  cachesize = 0;
  selector = r.selector;
  cache = none;
  port = r.port;
  protocol = r.protocol;
  itemtype = r.itemtype;
  selected_line = minus_one;
  screen_offset = minus_one;
  host = r.host;
}

-- The outcomes of malloc for the node, the selector and the message of `history_pop`.
pub record Allocs : Type 0 where
  pub node_ok : Bool
  pub selector_ok : Bool
  pub message_ok : Bool

-- A node whose selector could not be allocated is freed again.
unfoldable pub history_push : Allocs → Request → Store → Store × ℤ
unfolding is_back history_pop new_node
history_push a r s =
    if is_back r s.nodes
    then (history_pop a.message_ok s, pos 0)
    else if not a.node_ok
    then (s, minus_one)
    else if not a.selector_ok
    then (record s { live = s.live + 1 - 1 }, minus_one)
    else (record { live = s.live + 1 + 1; nodes = new_node r ∷ s.nodes }, pos 0)

-- MAXALLOWEDCACHE, and an unsigned long of 64 bits
abbrev pub max_allowed_cache : ℕ
max_allowed_cache = 1024 * 1024 * 2

abbrev pub ulong_mod : ℕ
ulong_mod = 2 ^ 64

abbrev pub is_embedded : Node → Bool
is_embedded n = get_or n.host 0 0 == b'#'

drop_cache : Node → Node
drop_cache n = if is_some n.cache then record n { cache = none; cachesize = 0 } else n

abbrev free_cache : ℕ → Node → ℕ
free_cache live n = if is_some n.cache then live - 1 else live

cleanup_loop : ℕ → ℕ → List Node → Store
unfolding drop_cache
cleanup_loop total live [] = record { live = live; nodes = [] }
cleanup_loop total live (n ∷ rest) =
    let total' = (total + n.cachesize) % ulong_mod in
    let drops = ltb max_allowed_cache total' || is_embedded n in
    let later = cleanup_loop total' (if drops then free_cache live n else live) rest in
    record later { nodes = (if drops then drop_cache n else n) ∷ later.nodes }

pub history_cleanupcache : Store → Store
unfolding cleanup_loop
history_cleanupcache s = cleanup_loop 0 s.live s.nodes

clear_nodes : ℕ → List Node → ℕ
clear_nodes live [] = live
clear_nodes live (victim ∷ rest) = clear_nodes (history_free_node live victim) rest

pub history_clear : Store → Store
unfolding clear_nodes history_free_node
history_clear s = record { live = clear_nodes s.live s.nodes; nodes = [] }

-- `main`: a page that was loaded goes into the cache of the current node, after a cleanup. Without
-- memory for it the node is dropped.
fill_cache : Bool → Bool → Bytes → ℕ → List Node → Store
unfolding history_pop
fill_cache ok message_ok page live [] = record { live = live; nodes = [] }
fill_cache ok message_ok page live (n ∷ rest) =
    if ok
    then record {
      live = live + 1;
      nodes = record n { cache = some page; cachesize = length page } ∷ rest;
    }
    else history_pop message_ok (record { live = live; nodes = n ∷ rest })

load_nodes : Bool → Bool → Bytes → ℕ → List Node → Store
load_nodes ok message_ok page live [] = record { live = live; nodes = [] }
load_nodes ok message_ok page live (n ∷ rest) =
    if is_some n.cache
    then record { live = live; nodes = n ∷ rest }
    else (let t = history_cleanupcache (record { live = live; nodes = n ∷ rest }) in
        fill_cache ok message_ok page t.live t.nodes)

unfoldable pub main_load : Bool → Bool → Bytes → Store → Store
unfolding load_nodes history_cleanupcache fill_cache
main_load ok message_ok page s = load_nodes ok message_ok page s.live s.nodes

-- `main`: DISPLAY_ORDER_REFR; free(NULL) does nothing
refresh_nodes : ℕ → List Node → Store
refresh_nodes live [] = record { live = live; nodes = [] }
refresh_nodes live (n ∷ rest) = record {
  live = free_cache live n;
  nodes =
      record n { cache = none; cachesize = 0; selected_line = minus_one; screen_offset = minus_one }
      ∷ rest;
}

pub main_refresh : Store → Store
unfolding refresh_nodes
main_refresh s = refresh_nodes s.live s.nodes
