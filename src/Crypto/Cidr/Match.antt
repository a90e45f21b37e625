-- ===== src/Crypto/Cidr/Match.antt =====
-- `bytesInPrefix` and `ipInCidr` of packages/crypto/src/cidr.ts against the leading bits of addresses.
use Prim.Native.Nat.{bit_and}
use mathlib.Core.Path.{subst}
use mathlib.Core.List.{Memᴰ}
use mathlib.Core.Option.{some-injective}
use keevault.Base.{
  ℕ, zero, suc, ◌+◌, ◌*◌, ◌/◌, ◌%◌, ◌<◌, Bool, true, false, not, Option, none, some, List, [], ◌∷◌,
  ◌==◌, if◌then◌else◌, length, All, ◌≡◌, ◌↔◌, refl, sym, ◌∙◌, arith, ==_iff, inl, inr, ◌⊎◌,
  any-true, any_of_mem, else-eq, any, &&-split,
}
use keevault.Crypto.Text.{Text, Bytes, IsByte, get_or}
use keevault.Crypto.Cidr.{
  ParsedCidr, same_bytes, mask, bytes_in_prefix, parse_ip_address, parse_cidr, ip_in_cidr,
  both_in_prefix, ip_allowed,
}
use keevault.Crypto.Cidr.Address.{IsAddress, IsCidr, parse_ip_address-IsAddress, parse_cidr-IsCidr}
use keevault.Crypto.Cidr.Bits.{AgreeOn, AgreeOn-cons, masked_iff, bit_at_head}

-- The bits of the byte after the whole ones agree.
abbrev SpareAgree : ℕ → ℕ → Bytes → Bytes → Type 0
SpareAgree n s cs rest = bit_and (get_or cs n 0) (mask s) ≡ bit_and (get_or rest n 0) (mask s)

prefix_zero_iff :
    (s c a : ℕ) (cs rest : Bytes)
    → s < 8
    → c < 256
    → a < 256
    → SpareAgree 0 s (c ∷ cs) (a ∷ rest) ↔ AgreeOn s (c ∷ cs) (a ∷ rest)
prefix_zero_iff s c a cs rest hs hc ha =
    let (to, from) = masked_iff s c a hs hc ha in
    (
      λ h i lt.
          bit_at_head c cs i (omega arith) ∙ to h i lt ∙ sym (bit_at_head a rest i (omega arith)),
      λ h. from (λ j lt.
          sym (bit_at_head c cs j (omega arith)) ∙ h j lt ∙ bit_at_head a rest j (omega arith)),
    )

prefix_iff :
    (n s : ℕ) (cs rest : Bytes)
    → s < 8
    → length cs ≡ length rest
    → All IsByte cs
    → All IsByte rest
    → ((same_bytes n cs rest ≡ true) × SpareAgree n s cs rest) ↔ AgreeOn (n * 8 + s) cs rest
unfolding same_bytes
prefix_iff zero s [] [] hs e hc ha = (λ h i lt. refl, λ h. (refl, refl))
prefix_iff (suc n) s [] [] hs e hc ha = (λ h i lt. refl, λ h. (refl, refl))
prefix_iff n s [] (a ∷ rest) hs e hc ha = absurd (omega arith)
prefix_iff n s (c ∷ cs) [] hs e hc ha = absurd (omega arith)
prefix_iff zero s (c ∷ cs) (a ∷ rest) hs e (hc, _) (ha, _) =
    let (to, from) = prefix_zero_iff s c a cs rest hs hc ha in
    (λ h i lt. to h.1 i (omega arith), λ h. (refl, from (λ i lt. h i (omega arith))))
prefix_iff (suc n) s (c ∷ cs) (a ∷ rest) hs e (hc, hcs) (ha, has) =
    let (to, from) = prefix_iff n s cs rest hs (omega arith) hcs has in
    let (part, join) = AgreeOn-cons (n * 8 + s) c a cs rest hc ha in
    (
      λ h.
          let (byte, later) = &&-split (c == a) (same_bytes n cs rest) h.0 in
          λ i lt. join ((==_iff c a).0 byte, to (later, h.1)) i (omega arith),
      λ h.
          let (byte, agree) = part (λ i lt. h i (omega arith)) in
          let (later, spare) = from agree in (rw ((==_iff c a).1 byte, later) refl, spare),
    )

get_or-lt : (bytes : Bytes) (n : ℕ) → All IsByte bytes → get_or bytes n 0 < 256
get_or-lt [] n h = omega arith
get_or-lt (b ∷ bytes) zero (hb, h) = hb
get_or-lt (b ∷ bytes) (suc n) (hb, h) = get_or-lt bytes n h

-- With no bit left over, nothing is left to compare.
SpareAgree-zero :
    (n s : ℕ) (cs rest : Bytes) → s ≡ 0 → All IsByte cs → All IsByte rest → SpareAgree n s cs rest
SpareAgree-zero n s cs rest e hc ha = rw e (
    (masked_iff 0 (get_or cs n 0) (get_or rest n 0) (omega arith) (get_or-lt cs n hc)
        (get_or-lt rest n ha)).1
      (λ j lt. absurd (omega arith)))

-- The shape of the code's tests, where the second return needs no comparison.
returns_iff :
    (same whole spare : Bool)
    → (whole ≡ true → spare ≡ true)
    → ((if not same then false else if whole then true else spare) ≡ true)
      ↔ ((same ≡ true) × (spare ≡ true))
returns_iff false whole spare h = (λ e. cc, λ e. cc e.0)
returns_iff true true spare h = (λ e. (refl, h refl), λ e. refl)
returns_iff true false spare h = (λ e. (refl, e), λ e. e.1)

-- Two addresses of one family are in one block exactly when they agree on its leading bits.
pub bytes_in_prefix_iff :
    (candidate : Bytes) (network : ParsedCidr)
    → length candidate ≡ length network.address
    → All IsByte candidate
    → All IsByte network.address
    → (bytes_in_prefix candidate network ≡ true)
      ↔ AgreeOn network.prefix_length candidate network.address
unfolding bytes_in_prefix
bytes_in_prefix_iff candidate network size hc ha =
    let n = network.prefix_length / 8 in
    let s = network.prefix_length % 8 in
    let whole : n * 8 + s ≡ network.prefix_length = omega arith in
    let spare =
      ==_iff (bit_and (get_or candidate n 0) (mask s))
        (bit_and (get_or network.address n 0) (mask s)) in
    let (test, returns) =
      returns_iff (same_bytes n candidate network.address) (s == 0)
        (bit_and (get_or candidate n 0) (mask s) == bit_and (get_or network.address n 0) (mask s))
        (λ e. spare.1 (SpareAgree-zero n s candidate network.address ((==_iff s 0).0 e) hc ha)) in
    let (agree, back) = prefix_iff n s candidate network.address (omega arith) size hc ha in
    (
      λ h i lt. agree ((test h).0, spare.0 (test h).1) i (omega arith),
      λ h. let (same, bits) = back (λ i lt. h i (omega arith)) in returns (same, spare.1 bits),
    )

-- What it means that an address lies in a block.
abbrev pub InBlock : Bytes → ParsedCidr → Type 0
InBlock candidate network =
    (length candidate ≡ length network.address)
    × AgreeOn network.prefix_length candidate network.address

guard_iff : (b r : Bool) → ((if not b then false else r) ≡ true) ↔ ((b ≡ true) × (r ≡ true))
guard_iff true r = (λ h. (refl, h), λ h. h.1)
guard_iff false r = (λ h. cc, λ h. cc h.0)

InBlock-iff :
    (candidate : Bytes) (network : ParsedCidr)
    → IsAddress candidate
    → IsCidr network
    → (both_in_prefix (some candidate) (some network) ≡ true) ↔ InBlock candidate network
InBlock-iff candidate network ok cidr =
    let sizes = ==_iff (length candidate) (length network.address) in
    let (to, from) =
      guard_iff (length candidate == length network.address) (bytes_in_prefix candidate network) in
    (
      λ h.
          let same = sizes.0 (to h).0 in
          (same, (bytes_in_prefix_iff candidate network same ok.1 cidr.0.1).0 (to h).1),
      λ (same, agree).
          from (sizes.1 same, (bytes_in_prefix_iff candidate network same ok.1 cidr.0.1).1 agree),
    )

both_in_prefix_iff :
    (o : Option Bytes) (p : Option ParsedCidr)
    → ((b : Bytes) → o ≡ some b → IsAddress b)
    → ((n : ParsedCidr) → p ≡ some n → IsCidr n)
    → (both_in_prefix o p ≡ true) ↔ (
        (candidate : Bytes) × (network : ParsedCidr) × (o ≡ some candidate)
        × (p ≡ some network)
        × InBlock candidate network)
both_in_prefix_iff none p ok cidr = (λ h. cc, λ h. cc h.2)
both_in_prefix_iff (some c) none ok cidr = (λ h. cc, λ h. cc h.3)
both_in_prefix_iff (some c) (some n) ok cidr =
    let (to, from) = InBlock-iff c n (ok c refl) (cidr n refl) in
    (
      λ h. (c, n, refl, refl, to h),
      λ (candidate, network, e, f, inside). from (
          subst (λ b. InBlock b n) (sym (some-injective _ _ e))
            (subst (InBlock candidate) (sym (some-injective _ _ f)) inside)),
    )

-- The texts are an address and a block of one family that has its leading bits.
abbrev pub InCidr : Text → Text → Type 0
InCidr ip cidr =
    (candidate : Bytes) × (network : ParsedCidr) × (parse_ip_address ip ≡ some candidate)
    × (parse_cidr cidr ≡ some network)
    × InBlock candidate network

-- The code's test holds exactly when the first text is an address, the second one a block, they are
-- of one family and the address has the leading bits of the block.
pub ip_in_cidr_iff : (ip cidr : Text) → (ip_in_cidr ip cidr ≡ true) ↔ InCidr ip cidr
unfolding ip_in_cidr
ip_in_cidr_iff ip cidr =
    both_in_prefix_iff (parse_ip_address ip) (parse_cidr cidr) (parse_ip_address-IsAddress ip)
      (parse_cidr-IsCidr cidr)

-- An address is allowed exactly when the list is empty or one of its blocks has the address.
pub ip_allowed_iff :
    (ip : Text) (cidrs : List Text)
    → (ip_allowed ip cidrs ≡ true)
      ↔ ((cidrs ≡ []) ⊎ ((cidr : Text) × Memᴰ cidr cidrs × InCidr ip cidr))
unfolding ip_allowed
ip_allowed_iff ip [] = (λ h. inl refl, λ h. refl)
ip_allowed_iff ip (c ∷ cidrs) =
    let tests = any (λ cidr. ip_in_cidr ip cidr) (c ∷ cidrs) in
    let some_block : (length (c ∷ cidrs) == 0) ≡ false = ground arith in
    (
      λ h.
          let (cidr, m, inside) =
            any-true (λ cidr. ip_in_cidr ip cidr) (c ∷ cidrs)
              (else-eq (length (c ∷ cidrs) == 0) true tests some_block h) in
          inr (cidr, m, (ip_in_cidr_iff ip cidr).0 inside),
      elim [
        | inl e ↦ cc
        | inr (cidr, m, inside) ↦ rw some_block (
            any_of_mem (λ cidr. ip_in_cidr ip cidr) (c ∷ cidrs) m
              ((ip_in_cidr_iff ip cidr).1 inside))
      ],
    )
