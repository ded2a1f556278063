-- ===== src/DnsCache/Tests.antt =====
-- Tests of the DNS cache, and the theorems at concrete inputs.
use gopherus.Base.{ℕ, ◌≡◌, refl, some, none, List, [], ◌∷◌, codes, Bytes, arith}
use gopherus.DnsCache.{Entry, initial, dnscache_ask, dnscache_add}
use gopherus.DnsCache.Lookup.{Among, Answer, add_all, ask-add, ask-add_all}

abbrev entry : Bytes → Bytes → ℕ → Entry
entry host addr at = record { host = host; addr = addr; inserttime = at }

abbrev two_hosts : List Entry
two_hosts =
    entry (codes "a.org") (codes "1.2.3.4") 900 ∷ entry (codes "b.org") (codes "::1") 1000 ∷ []

found_any_case : dnscache_ask 1010 (codes "B.Org") (add_all two_hosts initial) ≡ some (codes "::1")
unfolding dnscache_ask dnscache_add
found_any_case = refl

gone : dnscache_ask 1021 (codes "a.org") (add_all two_hosts initial) ≡ none
unfolding dnscache_ask dnscache_add
gone = refl

ask-add_example :
    dnscache_ask 1050
      (codes "c.org")
      (dnscache_add 1000 (codes "c.org") (codes "9.9.9.9") two_hosts)
    ≡ some (codes "9.9.9.9")
ask-add_example =
    ask-add 1000 1050 (codes "c.org") (codes "9.9.9.9") two_hosts (omega arith) (omega arith)
      (omega arith) (omega arith)

ask-add_all_example : Answer (λ e. Among e two_hosts) 1010 (codes "B.Org") (codes "::1")
ask-add_all_example =
    ask-add_all two_hosts 1010 (codes "B.Org") (codes "::1") (omega arith) found_any_case
