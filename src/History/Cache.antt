-- ===== src/History/Cache.antt =====
-- The bound on the caches: what `history_cleanupcache` keeps and what it drops.
use gopherus.Base.{
  ◌≢◌, ◌++◌, ◌==◌, ==→eq, get_or, get_elem?, length, subst, sym, false, Bool, Bytes, true, refl,
  Bool-cases, inl, inr, ℕ, ◌+◌, ◌%◌, ◌≤◌, ◌<◌, ◌≡◌, ap, ap₂, ◌∙◌, ◌||◌, none, some, Option, List,
  [], ◌∷◌, arith, ltb, if◌then◌else◌, All,
}
use gopherus.History.{
  Node, Store, Allocs, Request, history_push, is_back, new_node, cleanup_loop, main_load,
  load_nodes, fill_cache, history_cleanupcache, drop_cache, is_embedded, max_allowed_cache,
  ulong_mod,
}
use gopherus.History.Ledger.{HasSize, IsValid, history_cleanupcache-IsValid}

abbrev pub total_size : List Node → ℕ
total_size [] = 0
total_size (n ∷ rest) = n.cachesize + total_size rest

-- What the loop does where no sum wraps around.
abbrev trimmed : ℕ → Node → Node
trimmed total n =
    if ltb max_allowed_cache (total + n.cachesize) || is_embedded n
    then record n { cache = none; cachesize = 0 }
    else n

abbrev kept : ℕ → List Node → List Node
kept total [] = []
kept total (n ∷ rest) = trimmed total n ∷ kept (total + n.cachesize) rest

drop_cache_lem : (n : Node) → HasSize n → drop_cache n ≡ record n { cache = none; cachesize = 0 }
unfolding drop_cache
drop_cache_lem n h = ground arith

cleanup_loop-kept :
    (total live : ℕ) (ns : List Node)
    → All HasSize ns
    → total + total_size ns < ulong_mod
    → (cleanup_loop total live ns).nodes ≡ kept total ns
unfolding cleanup_loop
cleanup_loop-kept total live [] k h = refl
cleanup_loop-kept total live (n ∷ rest) k h =
    rw (no_wrap, drop_cache_lem n k.0)
      (ap (trimmed total n ∷◌) (cleanup_loop-kept (total + n.cachesize) _ rest k.1 (omega arith)))
  where
    no_wrap : (total + n.cachesize) % ulong_mod ≡ total + n.cachesize
    no_wrap = grind arith

history_cleanupcache-reference :
    (base : ℕ) (s : Store)
    → IsValid base s
    → total_size s.nodes < ulong_mod
    → (history_cleanupcache s).nodes ≡ kept 0 s.nodes
unfolding history_cleanupcache
history_cleanupcache-reference base s v h = cleanup_loop-kept 0 s.live s.nodes v.sized (omega arith)

-- A page may keep its cache if it is no embedded page, whose host starts with `#`, and if the caches
-- before it, `before` bytes, and its own together have no more than 2 MiB.
pub record MayKeep (before : ℕ) (n : Node) : Type 0 where
  pub within : before + n.cachesize ≤ 2097152
  pub remote : (host : Bytes) → n.host ≢ b'#' ∷ host

pub data Fate (before : ℕ) (n : Node) (result : Option Node) : Type 0 where
  keeps : MayKeep before n → result ≡ some n → Fate before n result
  loses :
      ¬ MayKeep before n
      → result ≡ some (record n { cache = none; cachesize = 0 })
      → Fate before n result

embedded_host : (h : Bytes) → (get_or h 0 0 == b'#') ≡ true → (rest : Bytes) × (h ≡ b'#' ∷ rest)
embedded_host [] e = cc
embedded_host (c ∷ rest) e = (rest, ap (λ x. x ∷ rest) (==→eq c b'#' e))

remote_host : (h : Bytes) → (get_or h 0 0 == b'#') ≡ false → (rest : Bytes) → h ≢ b'#' ∷ rest
remote_host h e rest same = cc (rw same at e)

trimmed-Fate : (before : ℕ) (n : Node) → Fate before n (some (trimmed before n))
trimmed-Fate before n = elim (Bool-cases (ltb max_allowed_cache (before + n.cachesize))) [
  | inl over ↦ rw over (loses (λ m. ground (arith, over, m.within)) refl)
  | inr within ↦ rw within (elim (Bool-cases (is_embedded n)) [
    | inl own ↦
        let (rest, same) = embedded_host n.host own in rw own (loses (λ m. m.remote rest same) refl)
    | inr other ↦
        rw other (keeps (record { within = ground arith; remote = remote_host n.host other }) refl)
  ])
]

get_elem?-kept :
    (total : ℕ) (pre : List Node) (n : Node) (post : List Node)
    → get_elem? (kept total (pre ++ n ∷ post)) (length pre)
      ≡ some (trimmed (total + total_size pre) n)
get_elem?-kept total [] n post = ap (λ t. some (trimmed t n)) (omega arith)
get_elem?-kept total (m ∷ pre) n post =
    get_elem?-kept (total + m.cachesize) pre n post ∙ ap (λ t. some (trimmed t n)) (omega arith)

-- Whether a page keeps its cache in a cleanup is the matter of the caches from the current page to it: it
-- keeps it, and is as it was, if they have no more than 2 MiB together and it is no embedded page, and
-- it is without one otherwise. All sizes together fit an unsigned long.
pub history_cleanupcache-Fate :
    (base : ℕ) (s : Store) (pre : List Node) (n : Node) (post : List Node)
    → IsValid base s
    → total_size s.nodes < ulong_mod
    → s.nodes ≡ pre ++ n ∷ post
    → Fate (total_size pre) n (get_elem? (history_cleanupcache s).nodes (length pre))
history_cleanupcache-Fate base s pre n post v h e =
    let here : get_elem? (history_cleanupcache s).nodes (length pre)
        ≡ some (trimmed (total_size pre) n) =
      ap (λ ns. get_elem? ns (length pre))
        (history_cleanupcache-reference base s v h ∙ ap (kept 0) e)
      ∙ get_elem?-kept 0 pre n post
      ∙ ap (λ t. some (trimmed t n)) (omega arith) in
    subst (Fate (total_size pre) n) (sym here) (trimmed-Fate (total_size pre) n)

total_size-kept_full :
    (total : ℕ) (ns : List Node) → max_allowed_cache < total → total_size (kept total ns) ≡ 0
total_size-kept_full total [] h = refl
total_size-kept_full total (n ∷ rest) h =
    ground (arith, total_size-kept_full (total + n.cachesize) rest)

total_size-kept :
    (total : ℕ) (ns : List Node)
    → total ≤ max_allowed_cache
    → total + total_size (kept total ns) ≤ max_allowed_cache
total_size-kept total [] h = omega arith
total_size-kept total (n ∷ rest) h = ground (
  arith,
  total_size-kept (total + n.cachesize) rest,
  total_size-kept_full (total + n.cachesize) rest,
)

trimmed-trimmed : (a b : ℕ) (n : Node) → a ≤ b → trimmed a (trimmed b n) ≡ trimmed b n
trimmed-trimmed a b n h = ground arith

trimmed-size : (a b : ℕ) (n : Node) → a ≤ b → a + (trimmed b n).cachesize ≤ b + n.cachesize
trimmed-size a b n h = ground arith

kept-kept : (a b : ℕ) (ns : List Node) → a ≤ b → kept a (kept b ns) ≡ kept b ns
kept-kept a b [] h = refl
kept-kept a b (n ∷ rest) h =
    ap₂ ◌∷◌ (trimmed-trimmed a b n h)
      (kept-kept (a + (trimmed b n).cachesize) (b + n.cachesize) rest (trimmed-size a b n h))

-- After a cleanup the caches together are within the limit, if all sizes together fit an unsigned
-- long.
pub history_cleanupcache-le :
    (base : ℕ) (s : Store)
    → IsValid base s
    → total_size s.nodes < ulong_mod
    → total_size (history_cleanupcache s).nodes ≤ max_allowed_cache
history_cleanupcache-le base s v h =
    rw (history_cleanupcache-reference base s v h)
      (omega (arith, total_size-kept 0 s.nodes (omega arith)))

-- A second cleanup changes no node, if all sizes together fit an unsigned long.
pub history_cleanupcache_idem :
    (base : ℕ) (s : Store)
    → IsValid base s
    → total_size s.nodes < ulong_mod
    → (history_cleanupcache (history_cleanupcache s)).nodes ≡ (history_cleanupcache s).nodes
history_cleanupcache_idem base s v h =
    history_cleanupcache-reference base (history_cleanupcache s)
      (history_cleanupcache-IsValid base s v) (omega (arith, history_cleanupcache-le base s v h))
    ∙ rw (history_cleanupcache-reference base s v h) (kept-kept 0 0 s.nodes (omega arith))

-- The cache of the current page.
abbrev pub top_cache : List Node → Option Bytes
top_cache [] = none
top_cache (n ∷ rest) = n.cache

-- A page that is loaded with memory for its cache is in the cache.
pub main_load-top_cache :
    (message_ok : Bool) (page : Bytes) (s : Store) (n : Node) (rest : List Node)
    → s.nodes ≡ n ∷ rest
    → n.cache ≡ none
    → top_cache (main_load true message_ok page s).nodes ≡ some page
unfolding main_load load_nodes fill_cache history_cleanupcache cleanup_loop
main_load-top_cache message_ok page s n rest h e = rw (h, e) refl

-- The first page of a history comes without a cache.
pub history_push-top_cache :
    (a : Allocs) (r : Request) (s : Store)
    → s.nodes ≡ []
    → top_cache (history_push a r s).0.nodes ≡ none
unfolding history_push is_back new_node
history_push-top_cache a r s e = rw (e, history_push) (ground (arith, e))
