-- ===== src/Crypto/Cidr.antt =====
-- packages/crypto/src/cidr.ts: IPv4 and IPv6 addresses and CIDR blocks. `null` is `none`.
pub mod Format
pub mod Bits
pub mod Ipv4
pub mod Ipv6
pub mod Address
pub mod Match
use Prim.Native.Nat.{bit_and}
use mathlib.Core.Option
use keevault.Base.{
  ℕ, zero, suc, ◌+◌, ◌-◌, ◌*◌, ◌/◌, ◌%◌, ◌^◌, Bool, true, false, not, ◌&&◌, ◌||◌, Option, none,
  some, List, [], ◌∷◌, ◌++◌, ltb, leb, ◌==◌, if◌then◌else◌, length, any, is_empty,
}
use keevault.Crypto.Text.{Text, Bytes, codes, index_of, starts_with, drop, take, get_or}
use keevault.Crypto.Text.Lines.{split}

abbrev pub ipv4_bytes : ℕ
ipv4_bytes = 4

abbrev pub ipv6_bytes : ℕ
ipv6_bytes = 16

-- `"0123456789".indexOf(character)`, `none` for -1.
unfoldable pub decimal_digit : ℕ → Option ℕ
unfolding index_of
decimal_digit c = index_of (codes "0123456789") c

-- The loops over the characters, from the most significant digit.
abbrev pub next_digit : ℕ → Option ℕ → ℕ → (ℕ → Option ℕ) → Option ℕ
next_digit base none value rest = none
next_digit base (some digit) value rest = rest (value * base + digit)

unfoldable pub read_digits : Text → ℕ → Option ℕ
read_digits [] value = some value
read_digits (c ∷ t) value = next_digit 10 (decimal_digit c) value (read_digits t)

-- A length out of range, or a leading zero before other digits.
abbrev pub bad_digits : ℕ → Text → Bool
bad_digits limit text =
    length text == 0
    || ltb limit (length text)
    || (ltb 1 (length text) && starts_with (b'0' ∷ []) text)

abbrev pub at_most : ℕ → Option ℕ → Option ℕ
at_most limit none = none
at_most limit (some value) = if ltb limit value then none else some value

unfoldable pub parse_decimal_octet : Text → Option ℕ
unfolding starts_with
parse_decimal_octet text = if bad_digits 3 text then none else at_most 255 (read_digits text 0)

-- `character.toLowerCase()` on ASCII.
abbrev pub lower_ascii : ℕ → ℕ
lower_ascii c = if leb b'A' c && leb c b'Z' then c + 32 else c

unfoldable pub hex_digit : ℕ → Option ℕ
unfolding index_of
hex_digit c = index_of (codes "0123456789abcdef") (lower_ascii c)

unfoldable pub read_hex_digits : Text → ℕ → Option ℕ
read_hex_digits [] value = some value
read_hex_digits (c ∷ t) value = next_digit 16 (hex_digit c) value (read_hex_digits t)

unfoldable pub parse_hex_group : Text → Option ℕ
parse_hex_group text =
    if length text == 0 || ltb 4 (length text) then none else read_hex_digits text 0

-- The loop over the four parts.
abbrev pub push_octet : Option ℕ → Option Bytes → Option Bytes
push_octet none rest = none
push_octet (some octet) rest = Option.map (λ bytes. octet ∷ bytes) rest

unfoldable pub parse_octets : List Text → Option Bytes
parse_octets [] = some []
parse_octets (part ∷ parts) = push_octet (parse_decimal_octet part) (parse_octets parts)

unfoldable pub parse_ipv4 : Text → Option Bytes
parse_ipv4 text =
    let parts = split b'.' text in
    if not (length parts == ipv4_bytes) then none else parse_octets parts

unfoldable pub group_bytes : List ℕ → Bytes
group_bytes [] = []
group_bytes (group ∷ groups) = (group / 256 % 256) ∷ (group % 256) ∷ group_bytes groups

-- `text.indexOf(needle)` and `text.lastIndexOf(needle)` for a needle that is not empty.
unfoldable pub find_text : Text → Text → Option ℕ
unfolding starts_with
find_text needle [] = none
find_text needle (c ∷ t) =
    if starts_with needle (c ∷ t) then some 0 else Option.map suc (find_text needle t)

abbrev pub later_or : Bool → Option ℕ → Option ℕ
later_or here (some i) = some (suc i)
later_or here none = if here then some 0 else none

unfoldable pub find_last_text : Text → Text → Option ℕ
unfolding starts_with
find_last_text needle [] = none
find_last_text needle (c ∷ t) = later_or (starts_with needle (c ∷ t)) (find_last_text needle t)

abbrev pub has_text : Text → Text → Bool
has_text needle text = elim (find_text needle text) [ none ↦ false | some i ↦ true ]

-- What `readSection` adds to its target, and `trailingIpv4`, which both sections share.
pub record Section : Type 0 where
  pub groups : List ℕ
  pub trailing_ipv4 : Option Bytes

abbrev pub push_group : Option ℕ → Option Section → Option Section
push_group none rest = none
push_group (some group) none = none
push_group (some group) (some section) = some (record section { groups = group ∷ section.groups })

abbrev pub end_with_ipv4 : Option Bytes → Option Section
end_with_ipv4 none = none
end_with_ipv4 (some embedded) = some (record { groups = []; trailing_ipv4 = some embedded })

unfoldable pub read_pieces : List Text → Option Bytes → Option Section
read_pieces [] trailing = some (record { groups = []; trailing_ipv4 = trailing })
read_pieces (piece ∷ pieces) trailing =
    let rest = push_group (parse_hex_group piece) (read_pieces pieces trailing) in
    if any (λ c. c == b'.') piece
    then if not (is_empty pieces) then none else end_with_ipv4 (parse_ipv4 piece)
    else rest

unfoldable pub read_section : Text → Option Bytes → Option Section
unfolding read_pieces
read_section section trailing =
    if length section == 0
    then some (record { groups = []; trailing_ipv4 = trailing })
    else read_pieces (split b':' section) trailing

abbrev pub option_bytes : Option Bytes → Bytes
option_bytes none = []
option_bytes (some bytes) = bytes

abbrev pub zeros : ℕ → Bytes
zeros zero = []
zeros (suc n) = 0 ∷ zeros n

abbrev pub expected_groups : Option Bytes → ℕ
expected_groups none = 8
expected_groups (some trailing) = 6

abbrev pub trailing_bytes : Option Bytes → ℕ
trailing_bytes none = 0
trailing_bytes (some trailing) = ipv4_bytes

-- The array without a compression: eight groups, or six and an IPv4 address.
abbrev pub full_address : Option Section → Option Bytes
full_address none = none
full_address (some section) =
    if not (length section.groups == expected_groups section.trailing_ipv4)
    then none
    else some (group_bytes section.groups ++ option_bytes section.trailing_ipv4)

-- The array with a compression: the ranges that are written do not overlap, and what lies between
-- them stays 0.
abbrev pub compressed_address : List ℕ → Option Section → Option Bytes
compressed_address head none = none
compressed_address head (some tail) =
    let tail_bytes = length tail.groups * 2 + trailing_bytes tail.trailing_ipv4 in
    let head_bytes = length head * 2 in
    if ltb (ipv6_bytes - 2) (head_bytes + tail_bytes)
    then none
    else some (
        group_bytes head
        ++ (zeros (ipv6_bytes - (head_bytes + tail_bytes))
            ++ (group_bytes tail.groups ++ option_bytes tail.trailing_ipv4)))

abbrev pub after_head : Text → Option Section → Option Bytes
after_head tail_text none = none
after_head tail_text (some head) =
    compressed_address head.groups (read_section tail_text head.trailing_ipv4)

abbrev pub same_index : Option ℕ → Option ℕ → Bool
same_index none none = true
same_index (some i) (some j) = i == j
same_index none (some j) = false
same_index (some i) none = false

abbrev pub address_at : Text → Option ℕ → Option Bytes
address_at text none = full_address (read_section text none)
address_at text (some i) = after_head (drop (i + 2) text) (read_section (take i text) none)

unfoldable pub parse_ipv6 : Text → Option Bytes
unfolding find_text find_last_text
parse_ipv6 text =
    let compression_index = find_text (codes "::") text in
    if has_text (codes ":::") text
    then none
    else if not (same_index compression_index (find_last_text (codes "::") text))
    then none
    else address_at text compression_index

abbrev pub ipv4_mapped_marker : Bytes
ipv4_mapped_marker = 0 ∷ 0 ∷ 0 ∷ 0 ∷ 0 ∷ 0 ∷ 0 ∷ 0 ∷ 0 ∷ 0 ∷ 0xff ∷ 0xff ∷ []

unfoldable pub is_ipv4_mapped : Bytes → Bool
unfolding starts_with
is_ipv4_mapped bytes =
    if not (length bytes == ipv6_bytes) then false else starts_with ipv4_mapped_marker bytes

abbrev pub unmap : Option Bytes → Option Bytes
unmap none = none
unmap (some bytes) = some (if is_ipv4_mapped bytes then drop 12 bytes else bytes)

unfoldable pub parse_ip_address : Text → Option Bytes
unfolding parse_ipv6 parse_ipv4 is_ipv4_mapped
parse_ip_address text =
    if any (λ c. c == b':') text then unmap (parse_ipv6 text) else parse_ipv4 text

pub record ParsedCidr : Type 0 where
  pub address : Bytes
  pub prefix_length : ℕ

-- The prefix is read after the address.
abbrev pub with_prefix : Text → Option Bytes → Option ParsedCidr
with_prefix prefix_text none = none
with_prefix prefix_text (some address) =
    if bad_digits 3 prefix_text
    then none
    else Option.map (λ n. record { address = address; prefix_length = n })
        (at_most (length address * 8) (read_digits prefix_text 0))

abbrev pub cidr_at : Text → Option ℕ → Option ParsedCidr
cidr_at text none = none
cidr_at text (some slash) = with_prefix (drop (slash + 1) text) (parse_ip_address (take slash text))

unfoldable pub parse_cidr : Text → Option ParsedCidr
unfolding find_last_text parse_ip_address
parse_cidr text = cidr_at text (find_last_text (codes "/") text)

-- `candidate[index] !== network.address[index]` for the whole bytes of the prefix.
unfoldable pub same_bytes : ℕ → Bytes → Bytes → Bool
same_bytes zero candidate address = true
same_bytes (suc n) (c ∷ candidate) (a ∷ address) = c == a && same_bytes n candidate address
same_bytes (suc n) [] [] = true
same_bytes (suc n) [] (a ∷ address) = false
same_bytes (suc n) (c ∷ candidate) [] = false

-- `(0xff << (8 - spareBits)) & 0xff`.
abbrev pub mask : ℕ → ℕ
mask spare_bits = 0xff * 2 ^ (8 - spare_bits) % 256

unfoldable pub bytes_in_prefix : Bytes → ParsedCidr → Bool
unfolding same_bytes
bytes_in_prefix candidate network =
    let full_bytes = network.prefix_length / 8 in
    let spare_bits = network.prefix_length % 8 in
    if not (same_bytes full_bytes candidate network.address)
    then false
    else if spare_bits == 0
    then true
    else bit_and (get_or candidate full_bytes 0) (mask spare_bits)
      == bit_and (get_or network.address full_bytes 0) (mask spare_bits)

abbrev pub both_in_prefix : Option Bytes → Option ParsedCidr → Bool
both_in_prefix none network = false
both_in_prefix (some candidate) none = false
both_in_prefix (some candidate) (some network) =
    if not (length candidate == length network.address)
    then false
    else bytes_in_prefix candidate network

unfoldable pub ip_in_cidr : Text → Text → Bool
unfolding parse_ip_address parse_cidr bytes_in_prefix
ip_in_cidr ip cidr = both_in_prefix (parse_ip_address ip) (parse_cidr cidr)

unfoldable pub ip_allowed : Text → List Text → Bool
ip_allowed ip allowed_cidrs =
    if length allowed_cidrs == 0 then true else any (λ cidr. ip_in_cidr ip cidr) allowed_cidrs
