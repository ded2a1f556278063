-- ===== src/History/Back.antt =====
-- Going back: `history_pop` after `history_push`, and the shortcut of `history_push`.
use gopherus.Base.{
  ℕ, ◌+◌, ◌-◌, ◌≡◌, ◌↔◌, refl, ◌⊎◌, inl, inr, Bool, true, false, not, ◌&&◌, List, [], ◌∷◌, arith,
  ltb, ◌||◌, ◌%◌, ap, Bytes, length, get_or, some, if◌then◌else◌, sym, subst, ◌==◌, Bool-cases, ◌∙◌,
  lower, strcmp_eq_iff, strcasecmp_eq_iff, ℤ, pos, minus_one,
}
use gopherus.History.{
  Node, Store, Request, Allocs, history_free_node, query_message, history_pop, history_push,
  is_back, same_page, new_node, is_some, main_load, load_nodes, fill_cache, history_cleanupcache,
  cleanup_loop, drop_cache, free_cache, max_allowed_cache, is_embedded, ulong_mod,
}

-- The current page is no query whose answer is not in the cache.
abbrev pub Settled : List Node → Type 0
Settled [] = Unit
Settled (n ∷ rest) = (n.itemtype == b'7' && not (is_some n.cache)) ≡ false

-- The request that leads to a page.
abbrev pub request_of : Node → Request
request_of n = record {
  protocol = n.protocol;
  host = n.host;
  port = n.port;
  itemtype = n.itemtype;
  selector = n.selector;
}

-- Requests and nodes are of one page if they agree in all but the case of the host's letters.
pub record SamePage (r : Request) (n : Node) : Type 0 where
  pub protocol : r.protocol ≡ n.protocol
  pub host : lower r.host ≡ lower n.host
  pub port : r.port ≡ n.port
  pub itemtype : r.itemtype ≡ n.itemtype
  pub selector : r.selector ≡ n.selector

same_page_iff : (r : Request) (n : Node) → (same_page r n ≡ true) ↔ SamePage r n
unfolding same_page
same_page_iff r n = (
  λ e. record {
    protocol = ground arith;
    host = (strcasecmp_eq_iff r.host n.host).0 (ground arith);
    port = ground arith;
    itemtype = ground arith;
    selector = (strcmp_eq_iff r.selector n.selector).0 (ground arith);
  },
  λ h. ground (
    arith,
    (strcasecmp_eq_iff r.host n.host).1 h.host,
    (strcmp_eq_iff r.selector n.selector).1 h.selector,
  ),
)

-- The request is not for the page before the current one.
abbrev pub IsForward : Request → List Node → Type 0
IsForward r (current ∷ previous ∷ rest) = ¬ SamePage r previous
IsForward r _ = Unit

is_back-IsForward : (r : Request) (ns : List Node) → IsForward r ns → is_back r ns ≡ false
unfolding is_back
is_back-IsForward r [] h = refl
is_back-IsForward r (c ∷ []) h = refl
is_back-IsForward r (c ∷ p ∷ rest) h = elim (Bool-cases (same_page r p)) [
  | inl same ↦ absurd (h ((same_page_iff r p).0 same))
  | inr other ↦ other
]

SamePage-refl : (n : Node) → SamePage (request_of n) n
SamePage-refl n = record {
  protocol = refl;
  host = refl;
  port = refl;
  itemtype = refl;
  selector = refl;
}

query_message-Settled :
    (ok : Bool) (live : ℕ) (ns : List Node)
    → Settled ns
    → query_message ok live ns ≡ record { live = live; nodes = ns }
unfolding query_message
query_message-Settled ok live [] h = refl
query_message-Settled ok live (n ∷ rest) h = rw h

history_push-Fresh :
    (a : Allocs) (r : Request) (s : Store)
    → IsForward r s.nodes
    → a.node_ok ≡ true
    → a.selector_ok ≡ true
    → history_push a r s ≡ (record { live = s.live + 1 + 1; nodes = new_node r ∷ s.nodes }, pos 0)
unfolding history_push
history_push-Fresh a r s f h k = rw (is_back-IsForward r s.nodes f, h, k)

history_pop-new_node :
    (ok : Bool) (r : Request) (s : Store)
    → Settled s.nodes
    → history_pop ok (record { live = s.live + 1 + 1; nodes = new_node r ∷ s.nodes }) ≡ s
unfolding history_pop new_node
history_pop-new_node ok r s h =
    query_message-Settled ok _ s.nodes h ∙ (λ i. record { live = back i; nodes = s.nodes })
  where
    back : s.live + 1 + 1 - 1 - 1 ≡ s.live
    back = omega arith

-- From a page that needs no message, a push to a page other than the previous one and then a pop
-- restore the history and the count of blocks.
pub pop-push :
    (a : Allocs) (r : Request) (ok : Bool) (s : Store)
    → IsForward r s.nodes
    → a.node_ok ≡ true
    → a.selector_ok ≡ true
    → Settled s.nodes
    → history_pop ok (history_push a r s).0 ≡ s
pop-push a r ok s f h k settled =
    rw (history_push-Fresh a r s f h k) (history_pop-new_node ok r s settled)

history_push-SamePage :
    (b : Allocs) (r : Request) (live : ℕ) (c p : Node) (rest : List Node)
    → SamePage r p
    → (let s : Store = record { live = live; nodes = c ∷ p ∷ rest } in
        history_push b r s ≡ (history_pop b.message_ok s, pos 0))
unfolding history_push is_back
history_push-SamePage b r live c p rest h = rw ((same_page_iff r p).1 h)

cleanup_loop-live :
    (total live more : ℕ) (ns : List Node)
    → (cleanup_loop total live ns).nodes ≡ (cleanup_loop total more ns).nodes
unfolding cleanup_loop
cleanup_loop-live total live more [] = refl
cleanup_loop-live total live more (n ∷ rest) =
    let total' = (total + n.cachesize) % ulong_mod in
    let drops = ltb max_allowed_cache total' || is_embedded n in
    ap ((if drops then drop_cache n else n) ∷◌) (
      cleanup_loop-live total' (if drops then free_cache live n else live)
        (if drops then free_cache more n else more) rest)

-- The page that a link leads to, once it is loaded, and what the cleanup leaves of the others.
main_load-new_node :
    (message_ok : Bool) (page : Bytes) (r : Request) (live : ℕ) (ns : List Node)
    → (main_load true message_ok page (record { live = live; nodes = new_node r ∷ ns })).nodes
      ≡ record (new_node r) { cache = some page; cachesize = length page }
        ∷ (cleanup_loop 0 live ns).nodes
unfolding main_load load_nodes fill_cache history_cleanupcache cleanup_loop drop_cache new_node
main_load-new_node message_ok page r live ns = elim (Bool-cases (get_or r.host 0 0 == b'#')) [
  | inl own ↦ rw own refl
  | inr other ↦ rw other refl
]

-- The cleanup changes neither the location nor the type of a page.
module _ (drops : Bool) (n : Node) where
  drop_cache-SamePage : SamePage (request_of n) (if drops then drop_cache n else n)
  unfolding drop_cache
  drop_cache-SamePage = record {
    protocol = ground arith;
    host = ground arith;
    port = ground arith;
    itemtype = ground arith;
    selector = ground arith;
  }

-- A push to the previous page, up to the case of the host, returns 0 and leaves that page with its
-- cache on top, provided that it is no query without a cache.
pub history_push-back :
    (b : Allocs) (r : Request) (live : ℕ) (current previous : Node) (rest : List Node)
    → SamePage r previous
    → Settled (previous ∷ rest)
    → (let after : Store × ℤ =
          history_push b r (record { live = live; nodes = current ∷ previous ∷ rest }) in
        (after.1 ≡ pos 0) × (after.0.nodes ≡ previous ∷ rest))
unfolding history_pop
history_push-back b r live c p rest h settled = rw (history_push-SamePage b r live c p rest h) (
  refl,
  λ i. (query_message-Settled b.message_ok (history_free_node live c) (p ∷ rest) settled i).nodes,
)

push_previous :
    (b : Allocs) (r : Request) (t : Store) (top previous : Node) (rest : List Node)
    → t.nodes ≡ top ∷ previous ∷ rest
    → SamePage r previous
    → (previous.itemtype == b'7') ≡ false
    → ((history_push b r t).1 ≡ pos 0) × ((history_push b r t).0.nodes ≡ previous ∷ rest)
push_previous b r t top previous rest e same other =
    subst
      (λ ns.
        ((history_push b r (record { live = t.live; nodes = ns })).1 ≡ pos 0)
        × ((history_push b r (record { live = t.live; nodes = ns })).0.nodes ≡ previous ∷ rest))
      (sym e) (history_push-back b r t.live top previous rest same (rw other refl))

-- Following a link, loading its page and then following the link back to the page where it stood is a
-- step back: the history has the nodes that it had, as a cleanup leaves them, and no other. (The first
-- request is for a page other than the previous one, its allocations succeed, and the page where the
-- link stood is no query.)
pub push-push :
    (a b : Allocs) (r : Request) (message_ok : Bool) (page : Bytes) (live : ℕ) (current : Node)
    (rest : List Node)
    → IsForward r (current ∷ rest)
    → a.node_ok ≡ true
    → a.selector_ok ≡ true
    → (current.itemtype == b'7') ≡ false
    → (let s : Store = record { live = live; nodes = current ∷ rest } in
        let loaded = main_load true message_ok page (history_push a r s).0 in
        let back = history_push b (request_of current) loaded in
        (back.1 ≡ pos 0) × (back.0.nodes ≡ (history_cleanupcache s).nodes))
unfolding history_cleanupcache cleanup_loop
push-push a b r message_ok page live current rest f h k other =
    let s : Store = record { live = live; nodes = current ∷ rest } in
    let t =
      main_load true message_ok page
        (record { live = live + 1 + 1; nodes = new_node r ∷ current ∷ rest }) in
    let total = (0 + current.cachesize) % ulong_mod in
    let drops = ltb max_allowed_cache total || is_embedded current in
    let nodes = main_load-new_node message_ok page r (live + 1 + 1) (current ∷ rest) in
    let (ok, back) =
      push_previous b (request_of current) t _ (if drops then drop_cache current else current) _
        nodes (drop_cache-SamePage drops current)
        (ap (λ ty. ty == b'7') (sym (drop_cache-SamePage drops current).itemtype) ∙ other) in
    rw (history_push-Fresh a r s f h k)
      (ok, back ∙ cleanup_loop-live 0 (live + 1 + 1) live (current ∷ rest))

-- A push returns -1 only for a page that is not the previous one and an allocation that failed,
-- and then the history and the count of blocks are unchanged.
pub history_push-fails :
    (a : Allocs) (r : Request) (s : Store)
    → (history_push a r s).1 ≡ minus_one
    → (is_back r s.nodes ≡ false)
      × ((a.node_ok ≡ false) ⊎ (a.selector_ok ≡ false))
      × ((history_push a r s).0 ≡ s)
unfolding history_push
history_push-fails a r s h = ground arith
