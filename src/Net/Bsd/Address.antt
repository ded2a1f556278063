-- ===== src/Net/Bsd/Address.antt =====
-- An address that net_dnsresolve writes is one that net_connect understands.
use gopherus.Base.{
  ℕ, ◌≡◌, ◌≤◌, refl, sym, ◌∙◌, ◌⊎◌, inl, inr, [], ◌∷◌, ◌++◌, Bytes, some, is_zero, All, All-map,
  Digit, print_u, print_u-Digit, arith, Bool-cases, Option-cases,
}
use gopherus.Net.Bsd.{Family, family_of, Lookup, net_dnsresolve}

-- A digit of a group of an IPv6 address.
abbrev pub HexDigit : ℕ → Type 0
HexDigit c = Digit c ⊎ ((b'a' ≤ c) × (c ≤ b'f'))

-- The forms of addresses that inet_ntop writes: four decimal numbers with dots, and groups of
-- hexadecimal digits with colons, the first of which may be empty.
pub data Written : Family → Bytes → Type 0 where
  dotted :
      (a b c d : ℕ)
      → Written Family.inet
          (print_u a ++ b'.' ∷ (print_u b ++ b'.' ∷ (print_u c ++ b'.' ∷ print_u d)))
  groups : (group rest : Bytes) → All HexDigit group → Written Family.inet6 (group ++ b':' ∷ rest)

family_of-hex :
    (group : Bytes) (c : ℕ) (rest : Bytes)
    → All HexDigit group
    → family_of (group ++ c ∷ rest) ≡ family_of (c ∷ rest)
unfolding family_of
family_of-hex [] c rest h = refl
family_of-hex (x ∷ group) c rest h = ground (arith, family_of-hex group c rest h.1)

family_of-Written : (f : Family) (ip : Bytes) → Written f ip → family_of ip ≡ some f
unfolding family_of
family_of-Written _ _ (dotted a b c d) =
    family_of-hex (print_u a) b'.' _
      (All-map Digit HexDigit (print_u a) (λ x h. inl h) (print_u-Digit a))
family_of-Written _ _ (groups group rest h) = family_of-hex group b':' rest h

-- The address that net_dnsresolve gives for a name is one of the family that was found, for
-- net_connect too, which looks for it in the text of the address. What inet_ntop writes is an address of
-- four decimal numbers, or of groups of hexadecimal digits.
pub net_dnsresolve-family_of :
    (l : Lookup) (ip : Bytes)
    → ((f : Family) (text : Bytes) → l.ntop f ≡ some text → Written f text)
    → net_dnsresolve l ≡ some ip
    → family_of ip ≡ l.ai_family
unfolding net_dnsresolve
net_dnsresolve-family_of l ip ntop e = elim (Bool-cases (is_zero l.getaddrinfo)) [
  | inl found ↦ elim (Option-cases l.ai_family) [
    | inl other ↦ cc (rw (found, other) at e)
    | inr (f, known) ↦ family_of-Written f ip (ntop f ip (rw (found, known) at e)) ∙ sym known
  ]
  | inr failed ↦ cc (rw failed at e)
]
