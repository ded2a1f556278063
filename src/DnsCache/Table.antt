-- ===== src/DnsCache/Table.antt =====
-- The slot that `dnscache_add` chooses, and the well-formedness of the table.
use gopherus.Base.{
  ℕ, suc, zero, ◌+◌, ◌≤◌, ◌<◌, ◌≡◌, refl, ◌⊎◌, inl, inr, Bool, true, false, some, List, [], ◌∷◌,
  arith, ltb, if◌then◌else◌, length, set, take, get_elem?, length-set, All, Bytes, Bool-cases,
}
use gopherus.DnsCache.{Entry, dns_maxhostlen, is_known, find_slot, slot_for, dnscache_add}

-- The entry is not one of this host.
abbrev pub Unknown : Bytes → Entry → Type 0
Unknown host e = is_known host e ≡ false

-- Where the search ends: at the first known entry of the host, or past entries of other hosts.
abbrev Place : Bytes → ℕ → ℕ → List Entry → ℕ → Type 0
Place host x oldest table slot =
    ((slot ≡ oldest) × All (Unknown host) table)
    ⊎ ((k : ℕ) × (slot ≡ x + k) × (k < length table) × All (Unknown host) (take k table))

Place-cons :
    (host : Bytes) (x oldest : ℕ) (older : Bool) (e : Entry) (table : List Entry) (slot : ℕ)
    → Unknown host e
    → Place host (suc x) (if older then x else oldest) table slot
    → Place host x oldest (e ∷ table) slot
Place-cons host x oldest true e table slot u (inl (s, a)) = inr (0, omega arith, omega arith, tt)
Place-cons host x oldest false e table slot u (inl (s, a)) = inl (s, (u, a))
Place-cons host x oldest older e table slot u (inr (k, s, h, a)) =
    inr (suc k, omega arith, omega arith, (u, a))

Place-if :
    (host : Bytes) (x oldest : ℕ) (older known : Bool) (e : Entry) (table : List Entry) (later : ℕ)
    → is_known host e ≡ known
    → Place host (suc x) (if older then x else oldest) table later
    → Place host x oldest (e ∷ table) (if known then x else later)
Place-if host x oldest older true e table later k p = inr (0, omega arith, omega arith, tt)
Place-if host x oldest older false e table later k p =
    Place-cons host x oldest older e table later k p

find_slot-Place :
    (host : Bytes) (x oldest t : ℕ) (table : List Entry)
    → Place host x oldest table (find_slot host x oldest t table)
unfolding find_slot
find_slot-Place host x oldest t [] = inl (refl, tt)
find_slot-Place host x oldest t (e ∷ table) =
    let older = ltb e.inserttime t in
    Place-if host x oldest older (is_known host e) e table _ refl (
      find_slot-Place host (suc x) (if older then x else oldest) (if older then e.inserttime else t)
        table)

slot_of_Place :
    (host : Bytes) (table : List Entry) (slot : ℕ)
    → 0 < length table
    → Place host 0 0 table slot
    → (slot < length table) × All (Unknown host) (take slot table)
slot_of_Place host table slot h (inl (s, a)) = (omega arith, rw s tt)
slot_of_Place host table slot h (inr (k, s, l, a)) =
    let same : slot ≡ k = omega arith in (omega arith, rw same a)

pub slot_for-place :
    (host : Bytes) (table : List Entry)
    → 0 < length table
    → (slot_for host table < length table) × All (Unknown host) (take (slot_for host table) table)
unfolding slot_for
slot_for-place host [] h = absurd (omega arith)
slot_for-place host (e ∷ table) h =
    slot_of_Place host (e ∷ table) _ h (find_slot-Place host 0 0 e.inserttime (e ∷ table))

-- Without an entry of the host, the slot is that of an oldest entry.
abbrev Oldest : ℕ → ℕ → ℕ → List Entry → ℕ → Type 0
Oldest x oldest t table slot =
    ((slot ≡ oldest) × All (λ e. t ≤ e.inserttime) table)
    ⊎ ((k : ℕ) × (e : Entry) × (slot ≡ x + k)
        × (get_elem? table k ≡ some e)
        × (e.inserttime < t)
        × All (λ f. e.inserttime ≤ f.inserttime) table)

Oldest-cons :
    (x oldest t : ℕ) (older : Bool) (e : Entry) (table : List Entry) (slot : ℕ)
    → ltb e.inserttime t ≡ older
    → Oldest (suc x) (if older then x else oldest) (if older then e.inserttime else t) table slot
    → Oldest x oldest t (e ∷ table) slot
Oldest-cons x oldest t true e table slot o (inl (s, a)) =
    inr (0, e, omega arith, refl, ground arith, (omega arith, a))
Oldest-cons x oldest t false e table slot o (inl (s, a)) = inl (s, (ground arith, a))
Oldest-cons x oldest t true e table slot o (inr (k, f, s, g, l, a)) =
    inr (suc k, f, omega arith, g, ground arith, (ground arith, a))
Oldest-cons x oldest t false e table slot o (inr (k, f, s, g, l, a)) =
    inr (suc k, f, omega arith, g, l, (ground arith, a))

find_slot-Oldest :
    (host : Bytes) (x oldest t : ℕ) (table : List Entry)
    → All (Unknown host) table
    → Oldest x oldest t table (find_slot host x oldest t table)
unfolding find_slot
find_slot-Oldest host x oldest t [] a = inl (refl, tt)
find_slot-Oldest host x oldest t (e ∷ table) a =
    let older = ltb e.inserttime t in
    rw a.0 (
      Oldest-cons x oldest t older e table _ refl (
        find_slot-Oldest host (suc x) (if older then x else oldest)
          (if older then e.inserttime else t) table a.1))

slot_for-oldest :
    (host : Bytes) (e : Entry) (table : List Entry)
    → All (Unknown host) (e ∷ table)
    → (f : Entry) × (get_elem? (e ∷ table) (slot_for host (e ∷ table)) ≡ some f)
      × All (λ g. f.inserttime ≤ g.inserttime) (e ∷ table)
unfolding slot_for
slot_for-oldest host e table a =
    go (find_slot host 0 0 e.inserttime (e ∷ table))
      (find_slot-Oldest host 0 0 e.inserttime (e ∷ table) a)
  where
    go :
        (slot : ℕ)
        → Oldest 0 0 e.inserttime (e ∷ table) slot
        → (f : Entry) × (get_elem? (e ∷ table) slot ≡ some f)
          × All (λ g. f.inserttime ≤ g.inserttime) (e ∷ table)
    go slot (inl (s, b)) = (e, rw s, b)
    go slot (inr (k, f, s, g, l, b)) = let same : slot ≡ k = omega arith in (f, rw same g, b)

-- Without an entry of the host, the entry that is replaced is no younger than any other.
pub dnscache_add-oldest :
    (now : ℕ) (host addr : Bytes) (e : Entry) (table : List Entry)
    → length host ≤ dns_maxhostlen
    → All (Unknown host) (e ∷ table)
    → (slot : ℕ) × (f : Entry) × (get_elem? (e ∷ table) slot ≡ some f)
      × All (λ g. f.inserttime ≤ g.inserttime) (e ∷ table)
      × (dnscache_add now host addr (e ∷ table)
          ≡ set (e ∷ table) slot (record { host = host; addr = addr; inserttime = now }))
unfolding dnscache_add
dnscache_add-oldest now host addr e table h a =
    let (f, g, b) = slot_for-oldest host e table a in
    (slot_for host (e ∷ table), f, g, b, ground arith)

-- The strings fit their arrays with a nul.
pub record HasRoom (e : Entry) : Type 0 where
  pub host_fits : length e.host < dns_maxhostlen + 1
  pub addr_fits : length e.addr < 64

All-set {ℓ κ} :
    {A : Type ℓ} (P : A → Type κ) (xs : List A) (i : ℕ) (v : A)
    → All P xs
    → P v
    → All P (set xs i v)
All-set P [] i v a p = tt
All-set P (x ∷ xs) zero v a p = (p, a.1)
All-set P (x ∷ xs) (suc i) v a p = (a.0, All-set P xs i v a.1 p)

-- An addition keeps the number of slots, and what fits its arrays keeps fitting, for an address of
-- less than 64 bytes and a host of any length.
pub dnscache_add-HasRoom :
    (now : ℕ) (host addr : Bytes) (table : List Entry)
    → All HasRoom table
    → length addr < 64
    → (length (dnscache_add now host addr table) ≡ length table)
      × All HasRoom (dnscache_add now host addr table)
unfolding dnscache_add
dnscache_add-HasRoom now host addr table a h =
    elim (Bool-cases (ltb dns_maxhostlen (length host))) [
      | inl long ↦ rw long (refl, a)
      | inr short ↦ rw short (
        length-set table (slot_for host table) _,
        All-set HasRoom table (slot_for host table) _ a
            (record { host_fits = ground arith; addr_fits = h }),
      )
    ]
