-- ===== src/Main/Program/Released.antt =====
-- main gives back all that it holds, on every way out.
use gopherus.Base.{ℕ, ◌≡◌, refl, ◌↔◌, Bool, true, false, [], if◌then◌else◌, none}
use gopherus.History.Ledger.{IsValid}
use gopherus.Main.Program.{Held, Ran, refused, running, faulted, returned}

-- Nothing is held at the exit, no block of the history but the `base` of others is live, and the code
-- is 0 where there is no fatal error.
pub record Freed (base exit : ℕ) (h : Held) : Type 0 where
  pub buffer : h.buffer ≡ false
  pub net : h.net ≡ false
  pub ui : h.ui ≡ false
  pub nodes : h.store.nodes ≡ []
  pub live : h.store.live ≡ base
  pub code : (exit ≡ 0) ↔ (h.fatalerr ≡ none)

-- Where the program returns before the setup: nothing is held but a history, which is valid and is left
-- as it is, and the code is 1.
pub record Left (base exit : ℕ) (h : Held) : Type 0 where
  pub buffer : h.buffer ≡ false
  pub net : h.net ≡ false
  pub ui : h.ui ≡ false
  pub history : IsValid base h.store
  pub failure : exit ≡ 1

abbrev pub Released : ℕ → Ran → Type 0
Released base (refused code h) = Left base code h
Released base running = Unit
Released base faulted = Unit
Released base (returned code text h) = Freed base code h

dropped : (b : Bool) → (if b then false else b) ≡ false
dropped true = refl
dropped false = refl
