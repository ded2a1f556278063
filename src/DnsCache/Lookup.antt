-- ===== src/DnsCache/Lookup.antt =====
-- What a look-up returns after an addition, and over a whole sequence of additions.
use gopherus.Base.{
  ℕ, suc, zero, ◌+◌, ◌≤◌, ◌<◌, ◌≡◌, refl, ◌⊎◌, inl, inr, true, false, some, List, [], ◌∷◌, arith,
  ltb, length, set, take, replicate, All, Bytes, Bool-cases, lower, strcasecmp_eq,
  strcasecmp_eq_iff, strcasecmp_eq_refl, strcasecmp_eq_comm,
}
use gopherus.DnsCache.{
  Entry, dns_maxhostlen, dns_maxentries, dns_cachetime, is_expired, is_known, slot_for,
  dnscache_ask, dnscache_add, initial,
}
use gopherus.DnsCache.Table.{Unknown, slot_for-place}

-- An entry that is not one of the host, or holds no time, answers no question after the first two
-- minutes of the clock.
Unknown-answer :
    (now : ℕ) (host : Bytes) (e : Entry)
    → Unknown host e
    → dns_cachetime < now
    → (is_expired now e ≡ true) ⊎ (strcasecmp_eq host e.host ≡ false)
unfolding is_known
Unknown-answer now host e u h = ground (arith, strcasecmp_eq_comm host e.host)

ask-set :
    (now : ℕ) (host : Bytes) (v : Entry) (slot : ℕ) (table : List Entry)
    → dns_cachetime < now
    → slot < length table
    → All (Unknown host) (take slot table)
    → is_expired now v ≡ false
    → strcasecmp_eq host v.host ≡ true
    → dnscache_ask now host (set table slot v) ≡ some v.addr
unfolding dnscache_ask
ask-set now host v slot [] t h a e s = absurd (omega arith)
ask-set now host v zero (f ∷ table) t h a e s = rw (e, s)
ask-set now host v (suc k) (f ∷ table) t h a e s =
    ground (arith, Unknown-answer now host f, ask-set now host v k table)

-- A host that was added is found again for two minutes, with its address, in a table of at least
-- one slot and for a clock past its first two minutes.
pub ask-add :
    (then_ now : ℕ) (host addr : Bytes) (table : List Entry)
    → length host ≤ dns_maxhostlen
    → 0 < length table
    → dns_cachetime < now
    → now ≤ then_ + dns_cachetime
    → dnscache_ask now host (dnscache_add then_ host addr table) ≡ some addr
unfolding dnscache_add
ask-add then_ now host addr table l p c h =
    let (place, others) = slot_for-place host table p in
    let v : Entry = record { host = host; addr = addr; inserttime = then_ } in
    let found =
      ask-set now host v (slot_for host table) table c place others (ground arith)
        (strcasecmp_eq_refl host) in
    ground arith

-- The entry is one of the list.
abbrev pub Among : Entry → List Entry → Type 0
Among e [] = ⊥
Among e (f ∷ log) = (e ≡ f) ⊎ Among e log

-- The additions in order; each is the entry that it asks to store.
abbrev pub add_all : List Entry → List Entry → List Entry
add_all [] table = table
add_all (a ∷ adds) table = add_all adds (dnscache_add a.inserttime a.host a.addr table)

abbrev Backed : List Entry → Entry → Type 0
Backed log e = (e.inserttime ≡ 0) ⊎ Among e log

All-set {ℓ κ} :
    {A : Type ℓ} (P : A → Type κ) (xs : List A) (i : ℕ) (v : A)
    → All P xs
    → P v
    → All P (set xs i v)
All-set P [] i v a p = tt
All-set P (x ∷ xs) zero v a p = (p, a.1)
All-set P (x ∷ xs) (suc i) v a p = (a.0, All-set P xs i v a.1 p)

add-Backed :
    (log : List Entry) (a : Entry) (table : List Entry)
    → Among a log
    → All (Backed log) table
    → All (Backed log) (dnscache_add a.inserttime a.host a.addr table)
unfolding dnscache_add
add-Backed log a table m b = elim (Bool-cases (ltb dns_maxhostlen (length a.host))) [
  | inl long ↦ rw long b
  | inr short ↦ rw short (All-set (Backed log) table (slot_for a.host table) a b (inr m))
]

-- The log is a list that holds all the additions.
abbrev Holds : List Entry → List Entry → Type 0
Holds log [] = Unit
Holds log (a ∷ adds) = Among a log × Holds log adds

add_all-Backed :
    (log adds : List Entry) (table : List Entry)
    → Holds log adds
    → All (Backed log) table
    → All (Backed log) (add_all adds table)
add_all-Backed log [] table h b = b
add_all-Backed log (a ∷ adds) table h b =
    add_all-Backed log adds _ h.1 (add-Backed log a table h.0 b)

Holds-cons : (log adds : List Entry) (e : Entry) → Holds log adds → Holds (e ∷ log) adds
Holds-cons log [] e h = tt
Holds-cons log (a ∷ adds) e h = (inr h.0, Holds-cons log adds e h.1)

Holds-refl : (log : List Entry) → Holds log log
Holds-refl [] = tt
Holds-refl (e ∷ log) = (inl refl, Holds-cons log log e (Holds-refl log))

-- Why an answer is right: the entry that it comes from.
abbrev pub Answer : (Entry → Type 0) → ℕ → Bytes → Bytes → Type 0
Answer P now host addr =
    (e : Entry) × P e
    × (e.addr ≡ addr)
    × (lower host ≡ lower e.host)
    × (now ≤ e.inserttime + dns_cachetime)

ask-Answer :
    (P : Entry → Type 0) (now : ℕ) (host addr : Bytes) (table : List Entry)
    → All P table
    → dnscache_ask now host table ≡ some addr
    → Answer P now host addr
unfolding dnscache_ask
ask-Answer P now host addr [] a h = cc
ask-Answer P now host addr (e ∷ table) a h = elim (Bool-cases (is_expired now e)) [
  | inl old ↦ ask-Answer P now host addr table a.1 (rw old at h)
  | inr fresh ↦ elim (Bool-cases (strcasecmp_eq host e.host)) [
    | inl same ↦ (e, a.0, ground arith, (strcasecmp_eq_iff host e.host).0 same, ground arith)
    | inr other ↦ ask-Answer P now host addr table a.1 (rw (fresh, other) at h)
  ]
]

All-replicate {ℓ κ} : {A : Type ℓ} (P : A → Type κ) (n : ℕ) (v : A) → P v → All P (replicate n v)
All-replicate P zero v p = tt
All-replicate P (suc n) v p = (p, All-replicate P n v p)

-- After any sequence of additions to the empty table, an answer is the address of an addition for
-- that host, up to case, that was made at most two minutes ago (for a clock past its first two
-- minutes).
pub ask-add_all :
    (adds : List Entry) (now : ℕ) (host addr : Bytes)
    → dns_cachetime < now
    → dnscache_ask now host (add_all adds initial) ≡ some addr
    → Answer (λ e. Among e adds) now host addr
ask-add_all adds now host addr c h = go (
    ask-Answer (Backed adds) now host addr (add_all adds initial)
      (add_all-Backed adds adds initial (Holds-refl adds)
        (All-replicate (Backed adds) dns_maxentries _ (inl refl)))
      h)
  where
    go : Answer (Backed adds) now host addr → Answer (λ e. Among e adds) now host addr
    go (e, inl z, a, l, t) = absurd (omega arith)
    go (e, inr m, a, l, t) = (e, m, a, l, t)
