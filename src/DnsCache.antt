-- ===== src/DnsCache.antt =====
-- dnscache.c: the table of resolved hosts. `time(NULL)` is an argument, in seconds and at least 0.
-- Strings are lists without their nul.
mod Table
mod Lookup
mod Tests
use gopherus.Base.{
  ℕ, suc, zero, ◌+◌, ◌-◌, Bool, true, false, not, ◌&&◌, Option, none, some, List, [], ◌∷◌, ltb,
  ◌==◌, if◌then◌else◌, length, set, replicate, get_elem?, Bytes, strcasecmp_eq,
}

-- struct dnscache_t
pub record Entry : Type 0 where
  pub host : Bytes
  pub addr : Bytes
  pub inserttime : ℕ

-- DNS_MAXENTRIES, DNS_MAXHOSTLEN and DNS_CACHETIME of config.h
abbrev pub dns_maxentries : ℕ
dns_maxentries = 16

abbrev pub dns_maxhostlen : ℕ
dns_maxhostlen = 31

abbrev pub dns_cachetime : ℕ
dns_cachetime = 120

-- static data is zeroed
abbrev pub initial : List Entry
initial = replicate dns_maxentries (record { host = []; addr = []; inserttime = 0 })

-- `inserttime < oldlimit`, where `oldlimit` is `time(NULL) - DNS_CACHETIME` and may be negative
abbrev pub is_expired : ℕ → Entry → Bool
is_expired now e = ltb (e.inserttime + dns_cachetime) now

-- The address, or `none` where the C function returns -1.
unfoldable pub dnscache_ask : ℕ → Bytes → List Entry → Option Bytes
dnscache_ask now host [] = none
dnscache_ask now host (e ∷ table) =
    let later = dnscache_ask now host table in
    if is_expired now e then later else if strcasecmp_eq host e.host then some e.addr else later

pub is_known : Bytes → Entry → Bool
is_known host e = ltb 0 e.inserttime && strcasecmp_eq e.host host

-- The search for a slot, from index `x`: the index of the oldest entry so far and its time.
find_slot : Bytes → ℕ → ℕ → ℕ → List Entry → ℕ
unfolding is_known
find_slot host x oldest oldest_time [] = oldest
find_slot host x oldest oldest_time (e ∷ table) =
    let older = ltb e.inserttime oldest_time in
    let later =
      find_slot host (suc x) (if older then x else oldest)
        (if older then e.inserttime else oldest_time) table in
    if is_known host e then x else later

pub slot_for : Bytes → List Entry → ℕ
unfolding find_slot
slot_for host [] = 0
slot_for host (e ∷ table) = find_slot host 0 0 e.inserttime (e ∷ table)

pub dnscache_add : ℕ → Bytes → Bytes → List Entry → List Entry
unfolding slot_for
dnscache_add now host addr table =
    if ltb dns_maxhostlen (length host)
    then table
    else set table (slot_for host table) (record { host = host; addr = addr; inserttime = now })
