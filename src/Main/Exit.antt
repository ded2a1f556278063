-- ===== src/Main/Exit.antt =====
-- main: what its loop does to the history, and what is left behind it.
use gopherus.Base.{
  true, is_zero, ℕ, ◌≡◌, ◌⊎◌, refl, Bytes, subst, inl, inr, List, [], ◌∷◌, Option, none, some,
  Bool-cases, Option-cases, List-cases, ℤ, ◌+◌, arith,
}
use gopherus.History.{main_load, Node, Store, Request, is_some, history_push}
use gopherus.History.Cache.{top_cache, main_load-top_cache, history_push-top_cache}
use gopherus.History.Ledger.{
  IsValid, total_blocks, history_pop-IsValid, history_push-IsValid, history_clear-owned,
  main_load-IsValid, main_refresh-IsValid,
}
use gopherus.Main.{
  Input, Status, welcome, is_displayable, remember, push_page, obey, shown, display, load_page,
  current_page, turn, gameover, ended, main_loop,
}
use gopherus.Main.Display.{Screen, Shown, Order, show}

module _ (base : ℕ) (screen : Screen) (i : Input) where
  remember-IsValid :
      (line offset : ℤ) (live : ℕ) (ns : List Node)
      → IsValid base (record { live = live; nodes = ns })
      → IsValid base (record { live = live; nodes = remember line offset ns })
  unfolding remember
  remember-IsValid line offset live [] v = v
  remember-IsValid line offset live (n ∷ rest) v = record { owned = v.owned; sized = v.sized }

  push_page-IsValid :
      (r : Option Request) (s : Store) → IsValid base s → IsValid base (push_page i.push_ok r s)
  unfolding push_page
  push_page-IsValid none s v = v
  push_page-IsValid (some r) s v = history_push-IsValid base i.push_ok r s v

  obey-IsValid : (o : Order) (s : Store) → IsValid base s → IsValid base (obey i.message_ok o s).0
  unfolding obey
  obey-IsValid Order.no_order s v = v
  obey-IsValid Order.back s v = history_pop-IsValid base i.message_ok s v
  obey-IsValid Order.refr s v = main_refresh-IsValid base s v
  obey-IsValid Order.quit s v = v

  shown-IsValid : (d : Shown) (s : Store) → IsValid base s → IsValid base (shown i d s).0
  unfolding shown
  shown-IsValid (Shown.left o r line offset) s v =
      obey-IsValid o _ (push_page-IsValid r _ (remember-IsValid line offset s.live s.nodes v))
  shown-IsValid Shown.waiting s v = v
  shown-IsValid Shown.fault s v = v

  display-IsValid : (s : Store) → IsValid base s → IsValid base (display screen i s).0
  unfolding display
  display-IsValid s v = elim (List-cases s.nodes) [
    | inl e ↦ rw (e, display) v
    | inr (n, rest, e) ↦ rw (e, display) (shown-IsValid (show screen i.keys n) s v)
  ]

  load_page-IsValid : (s : Store) → IsValid base s → IsValid base (load_page screen i s).0
  unfolding load_page
  load_page-IsValid s v = elim (Option-cases i.loaded) [
    | inl e ↦ rw (e, load_page) (history_pop-IsValid base i.message_ok s v)
    | inr (page, e) ↦
        let w = main_load-IsValid base i.cache_ok i.message_ok page s v in
        rw (e, load_page)
          (elim (Bool-cases i.cache_ok) [
            | inl room ↦ rw room (display-IsValid _ (rw room at w))
            | inr full ↦ rw full (rw full at w)
          ])
  ]

  current_page-IsValid : (s : Store) → IsValid base s → IsValid base (current_page screen i s).0
  unfolding current_page
  current_page-IsValid s v = elim (List-cases s.nodes) [
    | inl e ↦ rw (e, current_page) v
    | inr (n, rest, e) ↦
        rw (e, current_page)
          (elim (Bool-cases (is_displayable n.itemtype)) [
            | inr other ↦ rw other (history_pop-IsValid base i.message_ok s v)
            | inl yes_shown ↦ rw yes_shown (elim (Bool-cases (is_some n.cache)) [
              | inl cached ↦ rw cached (display-IsValid s v)
              | inr empty ↦ rw empty (load_page-IsValid s v)
            ])
          ])
  ]

  turn-IsValid : (s : Store) → IsValid base s → IsValid base (turn screen i s).0
  unfolding turn
  turn-IsValid s v = elim (List-cases s.nodes) [
    | inr (n, rest, e) ↦ rw (e, turn) (current_page-IsValid s v)
    | inl e ↦
        let w = history_push-IsValid base i.welcome_ok welcome s v in
        rw (e, turn)
          (elim (Bool-cases (is_zero (history_push i.welcome_ok welcome s).1)) [
            | inl pushed ↦
                rw pushed (current_page-IsValid (history_push i.welcome_ok welcome s).0 w)
            | inr failed ↦ rw failed w
          ])
  ]

pub main_loop-IsValid :
    (base : ℕ) (screen : Screen) (inputs : List Input) (s : Store)
    → IsValid base s
    → IsValid base (main_loop screen inputs s).0
unfolding main_loop
main_loop-IsValid base screen [] s v = v
main_loop-IsValid base screen (i ∷ is) s v =
    let w = turn-IsValid base screen i s v in
    elim (Bool-cases (ended (turn screen i s).1)) [
      | inl end ↦ rw end w
      | inr more ↦ rw more (main_loop-IsValid base screen is (turn screen i s).0 w)
    ]

empty-owned : (base : ℕ) (s : Store) → IsValid base s → s.nodes ≡ [] → s.live ≡ base
empty-owned base s v e =
    let owned : s.live ≡ base + total_blocks [] =
      subst (λ ns. s.live ≡ base + total_blocks ns) e v.owned in
    omega (arith, owned)

pub gameover-owned :
    (base : ℕ) (s : Store) → IsValid base s → ((gameover s).live ≡ base) × ((gameover s).nodes ≡ [])
unfolding gameover
gameover-owned base s v = elim (List-cases s.nodes) [
  | inl e ↦ rw (gameover, e) (empty-owned base s v e, e)
  | inr (n, rest, e) ↦ rw (gameover, e) (history_clear-owned base s v)
]

-- However the loop over the pages is left, and whatever the network, the user and malloc did in it: the
-- flush behind it frees every block of the history, each once, and leaves it empty, and with a valid
-- history at the start no block is lost.
main_loop-gameover :
    (base : ℕ) (screen : Screen) (inputs : List Input) (s : Store)
    → IsValid base s
    → ((gameover (main_loop screen inputs s).0).live ≡ base)
      × ((gameover (main_loop screen inputs s).0).nodes ≡ [])
main_loop-gameover base screen inputs s v =
    gameover-owned base (main_loop screen inputs s).0 (main_loop-IsValid base screen inputs s v)

-- A turn that leaves a page on the screen leaves a history that has the property.
OnScreen : (List Node → Type 0) → Store × Status → Type 0
OnScreen P r = r.1 ≡ Status.waiting → P r.0.nodes

-- The cache of the current page holds what it held before, or if that is nothing what was loaded.
pub record HasContent (before loaded : Option Bytes) (ns : List Node) : Type 0 where
  pub page : Bytes
  pub in_cache : top_cache ns ≡ some page
  pub origin : (before ≡ some page) ⊎ ((before ≡ none) × (loaded ≡ some page))

module _ (screen : Screen) (i : Input) where
  module _ (P : List Node → Type 0) where
    obey-OnScreen : (o : Order) (s : Store) → OnScreen P (obey i.message_ok o s)
    unfolding obey OnScreen
    obey-OnScreen Order.no_order s e = cc
    obey-OnScreen Order.back s e = cc
    obey-OnScreen Order.refr s e = cc
    obey-OnScreen Order.quit s e = cc

    shown-OnScreen : (d : Shown) (s : Store) → P s.nodes → OnScreen P (shown i d s)
    unfolding shown
    shown-OnScreen (Shown.left o r line offset) s c = obey-OnScreen o _
    shown-OnScreen Shown.waiting s c = unfold OnScreen in λ e. c
    shown-OnScreen Shown.fault s c = unfold OnScreen in λ e. c

    display-OnScreen : (s : Store) → P s.nodes → OnScreen P (display screen i s)
    unfolding display
    display-OnScreen s c = elim (List-cases s.nodes) [
      | inl e ↦ rw (e, display) (unfold OnScreen in λ d. cc)
      | inr (n, rest, e) ↦ rw (e, display) (shown-OnScreen (show screen i.keys n) s c)
    ]

  load_page-OnScreen :
      (s : Store) (n : Node) (rest : List Node)
      → s.nodes ≡ n ∷ rest
      → n.cache ≡ none
      → OnScreen (HasContent n.cache i.loaded) (load_page screen i s)
  unfolding load_page
  load_page-OnScreen s n rest h empty = elim (Option-cases i.loaded) [
    | inl e ↦ rw (e, load_page) (unfold OnScreen in λ d. cc)
    | inr (page, e) ↦
        let content : HasContent n.cache (some page) (main_load true i.message_ok page s).nodes =
          record {
            page = page;
            in_cache = main_load-top_cache i.message_ok page s n rest h empty;
            origin = inr (empty, refl);
          } in
        rw (e, load_page)
          (elim (Bool-cases i.cache_ok) [
            | inl room ↦ rw room (display-OnScreen (HasContent n.cache (some page)) _ content)
            | inr full ↦ rw full (unfold OnScreen in λ d. cc)
          ])
  ]

  current_page-OnScreen :
      (s : Store) → OnScreen (HasContent (top_cache s.nodes) i.loaded) (current_page screen i s)
  unfolding current_page
  current_page-OnScreen s = elim (List-cases s.nodes) [
    | inl e ↦ rw (e, current_page) (unfold OnScreen in λ d. cc)
    | inr (n, rest, e) ↦
        rw (e, current_page)
          (elim (Bool-cases (is_displayable n.itemtype)) [
            | inr other ↦ rw other (unfold OnScreen in λ d. cc)
            | inl yes_shown ↦ rw yes_shown (elim (Option-cases n.cache) [
              | inr (c, there) ↦
                  let content : HasContent n.cache i.loaded s.nodes = record {
                    page = c;
                    in_cache = rw e there;
                    origin = inl there;
                  } in
                  rw there (display-OnScreen (HasContent (some c) i.loaded) s (rw there at content))
              | inl empty ↦
                  let loaded = load_page-OnScreen s n rest e empty in rw empty (rw empty at loaded)
            ])
          ])
  ]

-- Where a turn ends with a page on the screen, whichever page it is and however it came there, the cache
-- of the history's first page holds its content: what it held before the turn, or the page that was
-- loaded in the turn if it held nothing.
pub turn-HasContent :
    (screen : Screen) (i : Input) (s : Store)
    → (turn screen i s).1 ≡ Status.waiting
    → HasContent (top_cache s.nodes) i.loaded (turn screen i s).0.nodes
unfolding turn OnScreen
turn-HasContent screen i s = elim (List-cases s.nodes) [
  | inr (n, rest, e) ↦
      rw (e, turn)
        (subst (λ ns. OnScreen (HasContent (top_cache ns) i.loaded) (current_page screen i s)) e
          (current_page-OnScreen screen i s))
  | inl e ↦
      rw (e, turn)
        (elim (Bool-cases (is_zero (history_push i.welcome_ok welcome s).1)) [
          | inl pushed ↦
              let first = (history_push i.welcome_ok welcome s).0 in
              rw pushed (
                subst (λ b. OnScreen (HasContent b i.loaded) (current_page screen i first))
                  (history_push-top_cache i.welcome_ok welcome s e)
                  (current_page-OnScreen screen i first))
          | inr failed ↦ rw failed (λ d. cc)
        ])
]
