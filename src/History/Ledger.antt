-- ===== src/History/Ledger.antt =====
-- The well-formedness of the history over a whole session: sizes of caches, and no block lost.
use gopherus.Base.{
  ℕ, ◌+◌, ◌≡◌, refl, Bool, true, false, ◌||◌, ◌%◌, Option, none, some, List, [], ◌∷◌, arith, ltb,
  if◌then◌else◌, length, All, Bytes, Bool-cases, inl, inr,
}
use gopherus.History.{
  Node, Store, Request, Allocs, history_free_node, query_message, history_pop, history_push,
  cleanup_loop, history_cleanupcache, clear_nodes, history_clear, main_load, main_refresh, is_some,
  fill_cache, load_nodes, refresh_nodes, drop_cache, free_cache, max_allowed_cache, ulong_mod,
  is_embedded, new_node, history_pop_nodes,
}

-- the blocks that a node owns
abbrev pub blocks : Node → ℕ
blocks n = 2 + (if is_some n.cache then 1 else 0)

abbrev pub total_blocks : List Node → ℕ
total_blocks [] = 0
total_blocks (n ∷ rest) = blocks n + total_blocks rest

abbrev pub size_of : Option Bytes → ℕ
size_of none = 0
size_of (some c) = length c

abbrev pub HasSize : Node → Type 0
HasSize n = n.cachesize ≡ size_of n.cache

-- `base` blocks belong to others.
pub record IsValid (base : ℕ) (s : Store) : Type 0 where
  pub owned : s.live ≡ base + total_blocks s.nodes
  pub sized : All HasSize s.nodes

query_message-IsValid :
    (base : ℕ) (ok : Bool) (live : ℕ) (ns : List Node)
    → live ≡ base + total_blocks ns
    → All HasSize ns
    → IsValid base (query_message ok live ns)
unfolding query_message
query_message-IsValid base ok live [] h k = record { owned = h; sized = k }
query_message-IsValid base ok live (n ∷ rest) h k = ground arith

free_node-blocks :
    (base live : ℕ) (n : Node) (rest : List Node)
    → live ≡ base + total_blocks (n ∷ rest)
    → history_free_node live n ≡ base + total_blocks rest
unfolding history_free_node
free_node-blocks base live n rest h = ground arith

history_pop_nodes-IsValid :
    (base : ℕ) (ok : Bool) (live : ℕ) (ns : List Node)
    → live ≡ base + total_blocks ns
    → All HasSize ns
    → IsValid base (history_pop_nodes ok live ns)
unfolding history_pop_nodes
history_pop_nodes-IsValid base ok live [] h k = record { owned = h; sized = k }
history_pop_nodes-IsValid base ok live (n ∷ rest) h k =
    query_message-IsValid base ok _ rest (free_node-blocks base live n rest h) k.1

pub history_pop-IsValid :
    (base : ℕ) (ok : Bool) (s : Store) → IsValid base s → IsValid base (history_pop ok s)
unfolding history_pop
history_pop-IsValid base ok s v = history_pop_nodes-IsValid base ok s.live s.nodes v.owned v.sized

pub history_push-IsValid :
    (base : ℕ) (a : Allocs) (r : Request) (s : Store)
    → IsValid base s
    → IsValid base (history_push a r s).0
unfolding history_push new_node
history_push-IsValid base a r s v = ground (arith, history_pop-IsValid base a.message_ok s v)

-- What the cleanup does to one node, on either decision.
module _ (base : ℕ) (drops : Bool) (live : ℕ) (n : Node) (rest : List Node) where
  dropped : Node
  dropped = if drops then drop_cache n else n

  dropped-blocks :
      live ≡ base + total_blocks (n ∷ rest)
      → (if drops then free_cache live n else live) ≡ base + blocks dropped + total_blocks rest
  unfolding dropped drop_cache
  dropped-blocks h = ground arith

  dropped-HasSize : HasSize n → HasSize dropped
  unfolding dropped drop_cache
  dropped-HasSize h = ground arith

  IsValid-dropped :
      (later : Store)
      → HasSize n
      → IsValid (base + blocks dropped) later
      → IsValid base (record { live = later.live; nodes = dropped ∷ later.nodes })
  IsValid-dropped later h v = record {
    owned = omega (arith, v.owned);
    sized = (dropped-HasSize h, v.sized);
  }

cleanup_loop-IsValid :
    (base total live : ℕ) (ns : List Node)
    → live ≡ base + total_blocks ns
    → All HasSize ns
    → IsValid base (cleanup_loop total live ns)
unfolding cleanup_loop dropped
cleanup_loop-IsValid base total live [] h k = record { owned = h; sized = k }
cleanup_loop-IsValid base total live (n ∷ rest) h k =
    let total' = (total + n.cachesize) % ulong_mod in
    let drops = ltb max_allowed_cache total' || is_embedded n in
    IsValid-dropped base drops live n rest _ k.0 (
      cleanup_loop-IsValid (base + blocks (if drops then drop_cache n else n)) total'
        (if drops then free_cache live n else live) rest (dropped-blocks base drops live n rest h)
        k.1)

pub history_cleanupcache-IsValid :
    (base : ℕ) (s : Store) → IsValid base s → IsValid base (history_cleanupcache s)
unfolding history_cleanupcache
history_cleanupcache-IsValid base s v = cleanup_loop-IsValid base 0 s.live s.nodes v.owned v.sized

clear_nodes-blocks :
    (base live : ℕ) (ns : List Node) → live ≡ base + total_blocks ns → clear_nodes live ns ≡ base
unfolding clear_nodes
clear_nodes-blocks base live [] h = omega arith
clear_nodes-blocks base live (n ∷ rest) h =
    clear_nodes-blocks base (history_free_node live n) rest (free_node-blocks base live n rest h)

-- Flushing a valid history frees every block that it owns, each once, and leaves it empty.
pub history_clear-owned :
    (base : ℕ) (s : Store)
    → IsValid base s
    → ((history_clear s).live ≡ base) × ((history_clear s).nodes ≡ [])
unfolding history_clear
history_clear-owned base s v = (clear_nodes-blocks base s.live s.nodes v.owned, refl)

pub history_clear-IsValid : (base : ℕ) (s : Store) → IsValid base s → IsValid base (history_clear s)
unfolding history_clear
history_clear-IsValid base s v = record {
  owned = omega (arith, clear_nodes-blocks base s.live s.nodes v.owned);
  sized = tt;
}

abbrev Uncached : List Node → Type 0
Uncached [] = Unit
Uncached (n ∷ rest) = is_some n.cache ≡ false

-- The head of a cleaned history holds a cache only if it held one before.
cleanup_loop-Uncached :
    (total live : ℕ) (ns : List Node) → Uncached ns → Uncached (cleanup_loop total live ns).nodes
unfolding cleanup_loop drop_cache
cleanup_loop-Uncached total live [] h = tt
cleanup_loop-Uncached total live (n ∷ rest) h = ground arith

history_cleanupcache-Uncached :
    (s : Store) → Uncached s.nodes → Uncached (history_cleanupcache s).nodes
unfolding history_cleanupcache
history_cleanupcache-Uncached s = cleanup_loop-Uncached 0 s.live s.nodes

fill_cache-IsValid :
    (base : ℕ) (ok message_ok : Bool) (page : Bytes) (live : ℕ) (ns : List Node)
    → IsValid base (record { live = live; nodes = ns })
    → Uncached ns
    → IsValid base (fill_cache ok message_ok page live ns)
unfolding fill_cache
fill_cache-IsValid base ok message_ok page live [] v u = v
fill_cache-IsValid base true message_ok page live (n ∷ rest) v u = ground arith
fill_cache-IsValid base false message_ok page live (n ∷ rest) v u =
    history_pop-IsValid base message_ok _ v

load_nodes-IsValid :
    (base : ℕ) (ok message_ok : Bool) (page : Bytes) (live : ℕ) (ns : List Node)
    → IsValid base (record { live = live; nodes = ns })
    → IsValid base (load_nodes ok message_ok page live ns)
unfolding load_nodes
load_nodes-IsValid base ok message_ok page live [] v = v
load_nodes-IsValid base ok message_ok page live (n ∷ rest) v = elim (Bool-cases (is_some n.cache)) [
  | inl cached ↦ rw cached v
  | inr uncached ↦ rw uncached (
      let t = history_cleanupcache (record { live = live; nodes = n ∷ rest }) in
      fill_cache-IsValid base ok message_ok page t.live t.nodes
        (history_cleanupcache-IsValid base _ v) (history_cleanupcache-Uncached _ uncached))
]

pub main_load-IsValid :
    (base : ℕ) (ok message_ok : Bool) (page : Bytes) (s : Store)
    → IsValid base s
    → IsValid base (main_load ok message_ok page s)
unfolding main_load
main_load-IsValid base ok message_ok page s v =
    load_nodes-IsValid base ok message_ok page s.live s.nodes v

refresh_nodes-IsValid :
    (base live : ℕ) (ns : List Node)
    → live ≡ base + total_blocks ns
    → All HasSize ns
    → IsValid base (refresh_nodes live ns)
unfolding refresh_nodes
refresh_nodes-IsValid base live [] h k = record { owned = h; sized = k }
refresh_nodes-IsValid base live (n ∷ rest) h k = ground arith

pub main_refresh-IsValid : (base : ℕ) (s : Store) → IsValid base s → IsValid base (main_refresh s)
unfolding main_refresh
main_refresh-IsValid base s v = refresh_nodes-IsValid base s.live s.nodes v.owned v.sized

-- What the program does with its history.
pub data Op : Type 0 where
  pop : Bool → Op
  push : Allocs → Request → Op
  cleanup : Op
  load : Bool → Bool → Bytes → Op
  refresh : Op
  clear : Op

abbrev pub act : Op → Store → Store
act (pop ok) s = history_pop ok s
act (push a r) s = (history_push a r s).0
act cleanup s = history_cleanupcache s
act (load ok message_ok page) s = main_load ok message_ok page s
act refresh s = main_refresh s
act clear s = history_clear s

abbrev pub run : List Op → Store → Store
run [] s = s
run (o ∷ os) s = run os (act o s)

act-IsValid : (base : ℕ) (o : Op) (s : Store) → IsValid base s → IsValid base (act o s)
act-IsValid base (pop ok) s v = history_pop-IsValid base ok s v
act-IsValid base (push a r) s v = history_push-IsValid base a r s v
act-IsValid base cleanup s v = history_cleanupcache-IsValid base s v
act-IsValid base (load ok message_ok page) s v = main_load-IsValid base ok message_ok page s v
act-IsValid base refresh s v = main_refresh-IsValid base s v
act-IsValid base clear s v = history_clear-IsValid base s v

-- From a valid history, after any sequence of pops, pushes, cleanups, loads, refreshes and clears,
-- whatever allocations fail, the live blocks are the `base` of others and those that the nodes
-- own, and every `cachesize` is the length of the cache, or 0 where there is none.
pub run-IsValid : (base : ℕ) (os : List Op) (s : Store) → IsValid base s → IsValid base (run os s)
run-IsValid base [] s v = v
run-IsValid base (o ∷ os) s v = run-IsValid base os (act o s) (act-IsValid base o s v)
