-- ===== src/Net.antt =====
-- net/net.h: what a backend of the network does for its client, and sessions of connections over it.
pub mod Bsd
pub mod Watt
pub mod Sessions
mod Tests
use gopherus.Base.{
  ℕ, zero, suc, ◌+◌, ◌-◌, ◌≡◌, ◌∙◌, sym, ◌<◌, ap, ap₂, refl, if◌then◌else◌, ◌==◌, Bool-cases, inl,
  inr, ==→eq, Bool, true, false, List, [], ◌∷◌, Bytes, arith,
}

-- What is allocated: the blocks of struct net_tcpsocket, and the sockets of the system.
pub record Resources : Type 0 where
  pub blocks : ℕ
  pub sockets : ℕ

-- The resources behind a call that returns a socket, or NULL.
abbrev pub with_socket : Bool → Resources → Resources
with_socket false r = r
with_socket true r = record { blocks = r.blocks + 1; sockets = r.sockets + 1 }

-- What is allocated fits what is returned.
pub Fitting : Resources → Bool × Resources → Type 0
Fitting r res = res.1 ≡ with_socket res.0 r

pub Fitting-if :
    (r : Resources) (b : Bool) (x y : Bool × Resources)
    → Fitting r x
    → Fitting r y
    → Fitting r (if b then x else y)
Fitting-if r true x y h k = h
Fitting-if r false x y h k = k

module _ (r : Resources) where
  restored : (b s : ℕ) → b ≡ r.blocks → s ≡ r.sockets → record { blocks = b; sockets = s } ≡ r
  restored b s h k = ap₂ (λ m n. record { blocks = m; sockets = n }) h k

  pub Fitting-nothing : Fitting r (false, r)
  unfolding Fitting
  Fitting-nothing = refl

  pub Fitting-made : Fitting r (true, record { blocks = r.blocks + 1; sockets = r.sockets + 1 })
  unfolding Fitting
  Fitting-made = refl

  pub Fitting-block : Fitting r (false, record { blocks = r.blocks + 1 - 1; sockets = r.sockets })
  unfolding Fitting
  Fitting-block = restored _ _ (omega arith) refl

  pub both_back : record { blocks = r.blocks + 1 - 1; sockets = r.sockets + 1 - 1 } ≡ r
  both_back = restored _ _ (omega arith) (omega arith)

  pub Fitting-both :
      Fitting r (false, record { blocks = r.blocks + 1 - 1; sockets = r.sockets + 1 - 1 })
  unfolding Fitting
  Fitting-both = both_back

-- A backend: how it connects to an address and a port and how it closes, where `Outcome` is what the
-- calls of the system give. A connection that fails keeps nothing, one that is made keeps a block and a
-- socket, and closing gives both back.
pub record Backend : Type 1 where
  pub Outcome : Type 0
  pub net_connect : Outcome → Bytes → ℕ → Resources → Bool × Resources
  pub net_close : Resources → Resources
  pub connect_law :
      (o : Outcome) (ip : Bytes) (port : ℕ) (r : Resources) → Fitting r (net_connect o ip port r)
  pub close_law : (r : Resources) → net_close (with_socket true r) ≡ r

module _ (net : Backend) where
  pub data Call : Type 0 where
    connect : net.Outcome → Bytes → ℕ → Call
    close : Call

  -- A client with its number of sockets; it closes none that it does not have.
  pub record Client : Type 0 where
    pub sockets : ℕ
    pub held : Resources

  opened : Client → Bool × Resources → Client
  opened c (true, r) = record { sockets = c.sockets + 1; held = r }
  opened c (false, r) = record { sockets = c.sockets; held = r }

  step : Call → Client → Client
  unfolding opened
  step (connect o ip port) c = opened c (net.net_connect o ip port c.held)
  step close c =
      let closed : Client = record { sockets = c.sockets - 1; held = net.net_close c.held } in
      if c.sockets == 0 then c else closed

  pub run : List Call → Client → Client
  unfolding step
  run [] c = c
  run (x ∷ xs) c = run xs (step x c)

  -- The client has a block and a socket for each of its sockets, and `r` is that of others.
  pub record Balanced (r : Resources) (c : Client) : Type 0 where
    pub blocks : c.held.blocks ≡ r.blocks + c.sockets
    pub opens : c.held.sockets ≡ r.sockets + c.sockets

  opened-Balanced :
      (r : Resources) (c : Client) (res : Bool × Resources)
      → Balanced r c
      → Fitting c.held res
      → Balanced r (opened c res)
  unfolding opened Fitting
  opened-Balanced r c (true, s) h k = record {
    blocks = ap (λ (x : Resources). x.blocks) k ∙ omega (arith, h.blocks);
    opens = ap (λ (x : Resources). x.sockets) k ∙ omega (arith, h.opens);
  }
  opened-Balanced r c (false, s) h k = record {
    blocks = ap (λ (x : Resources). x.blocks) k ∙ h.blocks;
    opens = ap (λ (x : Resources). x.sockets) k ∙ h.opens;
  }

  step-Balanced : (r : Resources) (x : Call) (c : Client) → Balanced r c → Balanced r (step x c)
  unfolding step
  step-Balanced r (connect o ip port) c h =
      opened-Balanced r c (net.net_connect o ip port c.held) h (net.connect_law o ip port c.held)
  step-Balanced r close c h = elim (Bool-cases (c.sockets == 0)) [
    | inl no_socket ↦ rw no_socket h
    | inr more ↦
        let below : Resources = record {
          blocks = c.held.blocks - 1;
          sockets = c.held.sockets - 1;
        } in
        let some_socket : 0 < c.sockets = ground arith in
        let same : c.held ≡ with_socket true below = sym (
          restored c.held (c.held.blocks - 1 + 1) (c.held.sockets - 1 + 1) (omega (arith, h.blocks))
            (omega (arith, h.opens))) in
        let e : net.net_close c.held ≡ below = ap net.net_close same ∙ net.close_law below in
        rw (more, e) (record { blocks = omega (arith, h.blocks); opens = omega (arith, h.opens) })
  ]

  pub run-Balanced :
      (r : Resources) (xs : List Call) (c : Client) → Balanced r c → Balanced r (run xs c)
  unfolding run
  run-Balanced r [] c h = h
  run-Balanced r (x ∷ xs) c h = run-Balanced r xs (step x c) (step-Balanced r x c h)
