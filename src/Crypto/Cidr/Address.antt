-- ===== src/Crypto/Cidr/Address.antt =====
-- The byte strings that `parseIpAddress` and `parseCidr` of packages/crypto/src/cidr.ts return.
use mathlib.Core.Path.{subst}
use mathlib.Core.Option
use mathlib.Core.Option.{some-injective}
use keevault.Base.{
  ℕ, zero, suc, ◌+◌, ◌-◌, ◌*◌, ◌≤◌, Option, none, some, [], ◌∷◌, any, ◌==◌, length, All, ◌≡◌, refl,
  arith, Bool-cases, inl, inr, ◌⊎◌, else-eq-some, then-eq, else-eq,
}
use keevault.Crypto.Text.{Text, Bytes, IsByte, codes, drop, take}
use keevault.Crypto.Cidr.{
  find_last_text, is_ipv4_mapped, unmap, parse_ipv6, parse_ip_address, ParsedCidr, with_prefix,
  cidr_at, at_most, bad_digits, parse_cidr, read_digits,
}
use keevault.Crypto.Cidr.Ipv4.{parse_ipv4_iff}
use keevault.Crypto.Cidr.Ipv6.{IsIpv6, parse_ipv6-IsIpv6}

-- Four or sixteen bytes.
abbrev pub IsAddress : Bytes → Type 0
IsAddress bytes = ((length bytes ≡ 4) ⊎ (length bytes ≡ 16)) × All IsByte bytes

All-drop : (n : ℕ) (bytes : Bytes) → All IsByte bytes → All IsByte (drop n bytes)
All-drop zero bytes h = h
All-drop (suc n) [] h = tt
All-drop (suc n) (b ∷ bytes) (hb, h) = All-drop n bytes h

length-drop : (n : ℕ) (bytes : Bytes) → length (drop n bytes) ≡ length bytes - n
length-drop zero bytes = omega arith
length-drop (suc n) [] = omega arith
length-drop (suc n) (b ∷ bytes) = omega (arith, length-drop n bytes)

unmap-IsAddress :
    (o : Option Bytes) (bytes : Bytes)
    → ((b : Bytes) → o ≡ some b → IsIpv6 b)
    → unmap o ≡ some bytes
    → IsAddress bytes
unmap-IsAddress none bytes ok h = cc
unmap-IsAddress (some b) bytes ok h =
    let (size, small) = ok b refl in
    subst IsAddress (some-injective _ _ h) (elim (Bool-cases (is_ipv4_mapped b)) [
      | inl e ↦ rw e (inl (omega (arith, length-drop 12 b)), All-drop 12 b small)
      | inr e ↦ rw e (inr size, small)
    ])

-- An address that is parsed has four or sixteen bytes.
pub parse_ip_address-IsAddress :
    (text : Text) (bytes : Bytes) → parse_ip_address text ≡ some bytes → IsAddress bytes
unfolding parse_ip_address
parse_ip_address-IsAddress text bytes h = elim (Bool-cases (any (λ c. c == b':') text)) [
  | inl e ↦
      unmap-IsAddress (parse_ipv6 text) bytes (parse_ipv6-IsIpv6 text)
        (then-eq (any (λ c. c == b':') text) _ _ e h)
  | inr e ↦
      let (_, size, small) =
        (parse_ipv4_iff text bytes).0 (else-eq (any (λ c. c == b':') text) _ _ e h) in
      (inl size, small)
]

-- An address and a prefix that does not exceed it.
abbrev pub IsCidr : ParsedCidr → Type 0
IsCidr network = IsAddress network.address × (network.prefix_length ≤ length network.address * 8)

at_most-bound : (limit : ℕ) (o : Option ℕ) {n : ℕ} → at_most limit o ≡ some n → n ≤ limit
at_most-bound limit none h = cc
at_most-bound limit (some v) h = ground arith

with_prefix-IsCidr :
    (text : Text) (o : Option Bytes) (network : ParsedCidr)
    → ((b : Bytes) → o ≡ some b → IsAddress b)
    → with_prefix text o ≡ some network
    → IsCidr network
with_prefix-IsCidr text none network ok h = cc
with_prefix-IsCidr text (some address) network ok h =
    let (_, made) = else-eq-some (bad_digits 3 text) _ h in
    let (n, bounded, e) = (Option.map-eq-some_iff _ _).0 made in
    subst IsCidr e
      (ok address refl, at_most-bound (length address * 8) (read_digits text 0) bounded)

cidr_at-IsCidr :
    (text : Text) (o : Option ℕ) (network : ParsedCidr)
    → cidr_at text o ≡ some network
    → IsCidr network
cidr_at-IsCidr text none network h = cc
cidr_at-IsCidr text (some slash) network h =
    with_prefix-IsCidr (drop (slash + 1) text) (parse_ip_address (take slash text)) network
      (parse_ip_address-IsAddress (take slash text)) h

-- A block that is parsed is an address with a prefix of at most its length.
pub parse_cidr-IsCidr :
    (text : Text) (network : ParsedCidr) → parse_cidr text ≡ some network → IsCidr network
unfolding parse_cidr
parse_cidr-IsCidr text network h = cidr_at-IsCidr text (find_last_text (codes "/") text) network h
