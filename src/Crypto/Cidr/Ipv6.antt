-- ===== src/Crypto/Cidr/Ipv6.antt =====
-- The byte strings that `parseIpv6` of packages/crypto/src/cidr.ts returns.
use mathlib.Core.Path.{subst}
use mathlib.Core.Option.{some-injective}
use keevault.Base.{
  ℕ, zero, suc, ◌+◌, ◌-◌, ◌*◌, false, not, Option, none, some, List, [], ◌∷◌, ◌++◌, any, is_empty,
  ltb, ◌==◌, length, length-append, All, ◌≡◌, refl, ap, arith, Bool-cases, Option-cases, inl, inr,
  else-eq-some, then-eq, else-eq,
}
use keevault.Crypto.Text.{Text, Bytes, IsByte, codes, drop, take}
use keevault.Crypto.Text.Lines.{split}
use keevault.Crypto.Cidr.{
  group_bytes, Section, push_group, end_with_ipv4, read_pieces, read_section, option_bytes,
  expected_groups, trailing_bytes, zeros, full_address, compressed_address, after_head, address_at,
  has_text, find_text, find_last_text, same_index, parse_ipv4, parse_ipv6, parse_hex_group,
}
use keevault.Crypto.Cidr.Ipv4.{parse_ipv4_iff}

-- An embedded IPv4 address has four bytes.
abbrev IsTrailing : Option Bytes → Type 0
IsTrailing none = Unit {0}
IsTrailing (some bytes) = (length bytes ≡ 4) × All IsByte bytes

pub All-append : (xs ys : Bytes) → All IsByte xs → All IsByte ys → All IsByte (xs ++ ys)
All-append [] ys hx hy = hy
All-append (x ∷ xs) ys (h, hx) hy = (h, All-append xs ys hx hy)

length-group_bytes : (groups : List ℕ) → length (group_bytes groups) ≡ length groups * 2
unfolding group_bytes
length-group_bytes [] = refl
length-group_bytes (group ∷ groups) = omega (arith, length-group_bytes groups)

All-group_bytes : (groups : List ℕ) → All IsByte (group_bytes groups)
unfolding group_bytes
All-group_bytes [] = tt
All-group_bytes (group ∷ groups) = (omega arith, (omega arith, All-group_bytes groups))

length-zeros : (n : ℕ) → length (zeros n) ≡ n
length-zeros zero = refl
length-zeros (suc n) = omega (arith, length-zeros n)

All-zeros : (n : ℕ) → All IsByte (zeros n)
All-zeros zero = tt
All-zeros (suc n) = (omega arith, All-zeros n)

length-option_bytes : (o : Option Bytes) → IsTrailing o → length (option_bytes o) ≡ trailing_bytes o
length-option_bytes none h = refl
length-option_bytes (some bytes) h = h.0

All-option_bytes : (o : Option Bytes) → IsTrailing o → All IsByte (option_bytes o)
All-option_bytes none h = tt
All-option_bytes (some bytes) h = h.1

push_group-trailing :
    (group : Option ℕ) (o : Option Section) (s : Section)
    → push_group group o ≡ some s
    → (s' : Section) × (o ≡ some s') × (s'.trailing_ipv4 ≡ s.trailing_ipv4)
push_group-trailing none o s h = cc
push_group-trailing (some group) none s h = cc
push_group-trailing (some group) (some s') s h =
    (s', refl, ap (λ (x : Section). x.trailing_ipv4) (some-injective _ _ h))

end_with_ipv4-IsTrailing :
    (piece : Text) (s : Section)
    → end_with_ipv4 (parse_ipv4 piece) ≡ some s
    → IsTrailing s.trailing_ipv4
end_with_ipv4-IsTrailing piece s h = elim (Option-cases (parse_ipv4 piece)) [
  | inl e ↦ refuse (subst (λ o. end_with_ipv4 o ≡ some s) e h)
  | inr (bytes, e) ↦
      let (_, size, small) = (parse_ipv4_iff piece bytes).0 e in
      subst (λ (x : Section). IsTrailing x.trailing_ipv4)
        (some-injective _ _ (subst (λ o. end_with_ipv4 o ≡ some s) e h)) (size, small)
]
  where
    refuse : ◌≡◌ {A = Option Section} none (some s) → IsTrailing s.trailing_ipv4
    refuse h = cc

-- Whichever way a section ends, its embedded address is the one before it or one that was read.
read_pieces-IsTrailing :
    (pieces : List Text) (trailing : Option Bytes) (s : Section)
    → IsTrailing trailing
    → read_pieces pieces trailing ≡ some s
    → IsTrailing s.trailing_ipv4
unfolding read_pieces
read_pieces-IsTrailing [] trailing s ok h =
    subst (λ (x : Section). IsTrailing x.trailing_ipv4) (some-injective _ _ h) ok
read_pieces-IsTrailing (piece ∷ pieces) trailing s ok h =
    elim (Bool-cases (any (λ c. c == b'.') piece)) [
      | inl dot ↦
          let (last, read) =
            else-eq-some (not (is_empty pieces)) (end_with_ipv4 (parse_ipv4 piece))
              (then-eq (any (λ c. c == b'.') piece) _ _ dot h) in
          end_with_ipv4-IsTrailing piece s read
      | inr group ↦
          let (s', rest, same) =
            push_group-trailing (parse_hex_group piece) (read_pieces pieces trailing) s
              (else-eq (any (λ c. c == b'.') piece) _ _ group h) in
          subst IsTrailing same (read_pieces-IsTrailing pieces trailing s' ok rest)
    ]

read_section-IsTrailing :
    (section : Text) (trailing : Option Bytes) (s : Section)
    → IsTrailing trailing
    → read_section section trailing ≡ some s
    → IsTrailing s.trailing_ipv4
unfolding read_section
read_section-IsTrailing section trailing s ok h = elim (Bool-cases (length section == 0)) [
  | inl e ↦
      subst (λ (x : Section). IsTrailing x.trailing_ipv4)
        (some-injective _ _ (then-eq (length section == 0) _ _ e h)) ok
  | inr e ↦
      read_pieces-IsTrailing (split b':' section) trailing s ok
        (else-eq (length section == 0) _ _ e h)
]

-- Sixteen bytes.
abbrev pub IsIpv6 : Bytes → Type 0
IsIpv6 bytes = (length bytes ≡ 16) × All IsByte bytes

expected_groups-bytes :
    (n : ℕ) (o : Option Bytes)
    → not (n == expected_groups o) ≡ false
    → n * 2 + trailing_bytes o ≡ 16
expected_groups-bytes n none h = ground arith
expected_groups-bytes n (some bytes) h = ground arith

full_address-IsIpv6 :
    (o : Option Section) (bytes : Bytes)
    → ((s : Section) → o ≡ some s → IsTrailing s.trailing_ipv4)
    → full_address o ≡ some bytes
    → IsIpv6 bytes
full_address-IsIpv6 none bytes ok h = cc
full_address-IsIpv6 (some s) bytes ok h =
    let trailing = ok s refl in
    let (count, made) =
      else-eq-some (not (length s.groups == expected_groups s.trailing_ipv4)) _ h in
    let bytes_ok =
      All-append (group_bytes s.groups) (option_bytes s.trailing_ipv4) (All-group_bytes s.groups)
        (All-option_bytes s.trailing_ipv4 trailing) in
    let size : length (group_bytes s.groups ++ option_bytes s.trailing_ipv4) ≡ 16 = omega (
      arith,
      length-append (group_bytes s.groups) (option_bytes s.trailing_ipv4),
      length-group_bytes s.groups,
      length-option_bytes s.trailing_ipv4 trailing,
      expected_groups-bytes (length s.groups) s.trailing_ipv4 count,
    ) in
    subst IsIpv6 (some-injective _ _ made) (size, bytes_ok)

compressed_address-IsIpv6 :
    (head : List ℕ) (o : Option Section) (bytes : Bytes)
    → ((s : Section) → o ≡ some s → IsTrailing s.trailing_ipv4)
    → compressed_address head o ≡ some bytes
    → IsIpv6 bytes
compressed_address-IsIpv6 head none bytes ok h = cc
compressed_address-IsIpv6 head (some s) bytes ok h =
    let trailing = ok s refl in
    let used = length head * 2 + (length s.groups * 2 + trailing_bytes s.trailing_ipv4) in
    let (fits, made) = else-eq-some (ltb 14 used) _ h in
    let back = group_bytes s.groups ++ option_bytes s.trailing_ipv4 in
    let middle = zeros (16 - used) ++ back in
    let size : length (group_bytes head ++ middle) ≡ 16 = ground (
      arith,
      length-append (group_bytes head) middle,
      length-append (zeros (16 - used)) back,
      length-append (group_bytes s.groups) (option_bytes s.trailing_ipv4),
      length-group_bytes head,
      length-group_bytes s.groups,
      length-zeros (16 - used),
      length-option_bytes s.trailing_ipv4 trailing,
    ) in
    let bytes_ok = All-append (group_bytes head) middle (All-group_bytes head) (
      All-append (zeros (16 - used)) back (All-zeros (16 - used)) (
        All-append (group_bytes s.groups) (option_bytes s.trailing_ipv4) (All-group_bytes s.groups)
          (All-option_bytes s.trailing_ipv4 trailing))) in
    subst IsIpv6 (some-injective _ _ made) (size, bytes_ok)

after_head-IsIpv6 :
    (tail : Text) (o : Option Section) (bytes : Bytes)
    → ((s : Section) → o ≡ some s → IsTrailing s.trailing_ipv4)
    → after_head tail o ≡ some bytes
    → IsIpv6 bytes
after_head-IsIpv6 tail none bytes ok h = cc
after_head-IsIpv6 tail (some head) bytes ok h =
    compressed_address-IsIpv6 head.groups (read_section tail head.trailing_ipv4) bytes
      (λ s e. read_section-IsTrailing tail head.trailing_ipv4 s (ok head refl) e) h

address_at-IsIpv6 :
    (text : Text) (o : Option ℕ) (bytes : Bytes) → address_at text o ≡ some bytes → IsIpv6 bytes
address_at-IsIpv6 text none bytes h =
    full_address-IsIpv6 (read_section text none) bytes
      (λ s e. read_section-IsTrailing text none s tt e) h
address_at-IsIpv6 text (some i) bytes h =
    after_head-IsIpv6 (drop (i + 2) text) (read_section (take i text) none) bytes
      (λ s e. read_section-IsTrailing (take i text) none s tt e) h

pub parse_ipv6-IsIpv6 : (text : Text) (bytes : Bytes) → parse_ipv6 text ≡ some bytes → IsIpv6 bytes
unfolding parse_ipv6
parse_ipv6-IsIpv6 text bytes h =
    let (_, h1) = else-eq-some (has_text (codes ":::") text) _ h in
    let (_, h2) =
      else-eq-some
        (not (same_index (find_text (codes "::") text) (find_last_text (codes "::") text))) _ h1 in
    address_at-IsIpv6 text (find_text (codes "::") text) bytes h2
