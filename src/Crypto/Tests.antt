-- ===== src/Crypto/Tests.antt =====
-- The encodings, identifiers, canonical strings and address rules of packages/crypto/src at concrete
-- inputs.
pub mod Sealing
use keevault.Base.{
  ◌^◌, ◌%◌, true, false, none, some, [], ◌∷◌, ◌++◌, map, length, ◌≡◌, ◌↔◌, refl, All, arith,
}
use keevault.Crypto.Text.{Text, Bytes, IsByte, codes, take, drop}
use keevault.Crypto.Text.Decimal.{decimal}
use keevault.Crypto.Text.Lines.{join_parts, split}
use keevault.Crypto.Encoding.{
  b64u_encode, b64u_decode, b64u_char, b64u_value, b64u_loop, b64u_finish, hex_encode, hex_decode,
  constant_time_equal, concat_bytes,
}
use keevault.Crypto.Encoding.Base64.{b64u_decode-b64u_encode}
use keevault.Crypto.Encoding.Canonical.{b64u_encode-b64u_decode, b64u_size, length-b64u_decode}
use keevault.Crypto.Encoding.Hex.{lower, hex_encode-hex_decode}
use keevault.Crypto.Encoding.Compare.{constant_time_equal_iff}
use keevault.Crypto.Ulid.{random_value, generate_ulid}
use keevault.Crypto.Ulid.Laws.{read_crockford, read-generate_ulid}
use keevault.Crypto.Token.{
  Platform, ParsedBootstrapToken, generate_bootstrap_token, parse_bootstrap_token,
  verify_token_secret,
}
use keevault.Crypto.Token.Laws.{parse-generate_bootstrap_token}
use keevault.Crypto.Aad.{SecretValueAadInput, secret_value_aad, canonical_integer}
use keevault.Crypto.Aad.Injective.{
  secret_value, canonical, IsSingleLine, Lacks_of_none, canonical-injective,
}
use keevault.Crypto.Cidr.{
  parse_ipv4, parse_ip_address, ip_in_cidr, read_digits, read_hex_digits, parse_hex_group,
  parse_decimal_octet, parse_octets, decimal_digit, hex_digit, group_bytes, read_section,
}
use keevault.Crypto.Cidr.Format.{format_ipv4, normalize_ip_address}
use keevault.Crypto.Cidr.Ipv4.{parse_ipv4_iff}
use keevault.Crypto.Cidr.Match.{InCidr, ip_in_cidr_iff}

abbrev four_bytes : Bytes
four_bytes = 0 ∷ 127 ∷ 200 ∷ 255 ∷ []

abbrev four_bytes_text : Text
four_bytes_text = codes "AH_I_w"

four_bytes_encoded : b64u_encode four_bytes ≡ four_bytes_text
unfolding b64u_encode b64u_char
four_bytes_encoded = refl

four_bytes_decoded : b64u_decode four_bytes_text ≡ some four_bytes
unfolding b64u_decode b64u_loop b64u_finish b64u_value
four_bytes_decoded = refl

-- Trailing bits that are not 0, an impossible length, a foreign character.
trailing_bits : b64u_decode (codes "AH_I_x") ≡ none
unfolding b64u_decode b64u_loop b64u_finish b64u_value
trailing_bits = refl

one_left : b64u_decode (codes "AH_I_") ≡ none
unfolding b64u_decode
one_left = refl

padding : b64u_decode (codes "AA==") ≡ none
unfolding b64u_decode b64u_loop b64u_finish b64u_value
padding = refl

b64u_decode-b64u_encode_example : b64u_decode (b64u_encode four_bytes) ≡ some four_bytes
b64u_decode-b64u_encode_example = b64u_decode-b64u_encode four_bytes (omega arith)

b64u_encode-b64u_decode_example : (b64u_encode four_bytes ≡ four_bytes_text) × All IsByte four_bytes
b64u_encode-b64u_decode_example =
    b64u_encode-b64u_decode four_bytes_text four_bytes four_bytes_decoded

length-b64u_decode_example : length four_bytes ≡ b64u_size (length four_bytes_text)
length-b64u_decode_example = length-b64u_decode four_bytes_text four_bytes four_bytes_decoded

mixed_case : hex_decode (codes "0aFF") ≡ some (10 ∷ 255 ∷ [])
unfolding hex_decode
mixed_case = refl

hex_encode-hex_decode_example :
    (hex_encode (10 ∷ 255 ∷ []) ≡ map lower (codes "0aFF")) × All IsByte (10 ∷ 255 ∷ [])
hex_encode-hex_decode_example = hex_encode-hex_decode (codes "0aFF") (10 ∷ 255 ∷ []) mixed_case

constant_time_equal_iff_example :
    (constant_time_equal four_bytes four_bytes ≡ true) ↔ (four_bytes ≡ four_bytes)
constant_time_equal_iff_example = constant_time_equal_iff four_bytes four_bytes

joined : concat_bytes ((1 ∷ []) ∷ [] ∷ (2 ∷ 3 ∷ []) ∷ []) ≡ 1 ∷ 2 ∷ 3 ∷ []
unfolding concat_bytes
joined = refl

abbrev ten_bytes : Bytes
ten_bytes = 1 ∷ 2 ∷ 3 ∷ 4 ∷ 5 ∷ 6 ∷ 7 ∷ 8 ∷ 9 ∷ 255 ∷ []

read-generate_ulid_example :
    (read_crockford (take 10 (generate_ulid 1700000000000 ten_bytes)) 0
      ≡ some (1700000000000 % 2 ^ 48))
    × (read_crockford (drop 10 (generate_ulid 1700000000000 ten_bytes)) 0
        ≡ some (random_value ten_bytes 0))
read-generate_ulid_example = read-generate_ulid 1700000000000 ten_bytes refl (omega arith)

-- A platform whose digest is the text itself.
abbrev plain_platform : Platform
plain_platform = record { utf8_encode = λ t. t; sha256 = λ bytes. bytes }

abbrev thirty_two_bytes : Bytes
thirty_two_bytes = ten_bytes ++ ten_bytes ++ ten_bytes ++ 3 ∷ 250 ∷ []

parse-generate_bootstrap_token_example :
    let made = generate_bootstrap_token plain_platform 5 ten_bytes thirty_two_bytes in
    (p : ParsedBootstrapToken) × (parse_bootstrap_token made.token ≡ some p)
    × (p.token_id ≡ made.token_id)
    × (verify_token_secret plain_platform p.secret made.secret_hash ≡ true)
parse-generate_bootstrap_token_example =
    parse-generate_bootstrap_token plain_platform 5 ten_bytes thirty_two_bytes refl (omega arith)

abbrev api_key_aad : SecretValueAadInput
api_key_aad = record {
  project_id = codes "proj_1";
  environment_id = codes "env_1";
  secret_id = codes "sec_1";
  secret_name = codes "API_KEY";
  secret_version = 4;
  environment_key_version = 2;
}

abbrev api_key_text : Text
api_key_text =
    codes
      "vault:secret:v1\nproject=proj_1\nenvironment=env_1\nsecret=sec_1\nname=API_KEY\nversion=4\nenv_key_version=2"

api_key_canonical : canonical (secret_value api_key_aad) ≡ some api_key_text
unfolding canonical secret_value_aad canonical_integer decimal join_parts
api_key_canonical = refl

api_key_single : IsSingleLine (secret_value api_key_aad)
api_key_single = (
  Lacks_of_none (codes "proj_1") refl,
  Lacks_of_none (codes "env_1") refl,
  Lacks_of_none (codes "sec_1") refl,
  Lacks_of_none (codes "API_KEY") refl,
)

canonical-injective_example : secret_value api_key_aad ≡ secret_value api_key_aad
canonical-injective_example =
    canonical-injective (secret_value api_key_aad) (secret_value api_key_aad) api_key_single
      api_key_single api_key_canonical api_key_canonical

abbrev home_address : Bytes
home_address = 203 ∷ 0 ∷ 113 ∷ 44 ∷ []

parse_ipv4_iff_example : (parse_ipv4 (codes "203.0.113.44") ≡ some home_address) ↔ (
    (codes "203.0.113.44" ≡ format_ipv4 home_address)
    × (length home_address ≡ 4)
    × All IsByte home_address)
parse_ipv4_iff_example = parse_ipv4_iff (codes "203.0.113.44") home_address

ip_in_cidr_iff_example :
    (ip_in_cidr (codes "203.0.113.44") (codes "203.0.113.0/25") ≡ true)
    ↔ InCidr (codes "203.0.113.44") (codes "203.0.113.0/25")
ip_in_cidr_iff_example = ip_in_cidr_iff (codes "203.0.113.44") (codes "203.0.113.0/25")

-- Addresses inside and outside a block, and an IPv4-mapped address in an IPv4 block.
in_block :
    (ip_in_cidr (codes "203.0.113.44") (codes "203.0.113.0/25") ≡ true)
    × (ip_in_cidr (codes "203.0.113.144") (codes "203.0.113.0/25") ≡ false)
    × (ip_in_cidr (codes "::ffff:203.0.113.44") (codes "203.0.113.0/25") ≡ true)
    × (ip_in_cidr (codes "2001:db8::1") (codes "2001:DB8::/32") ≡ true)
    × (ip_in_cidr (codes "2001:db8::1") (codes "0.0.0.0/0") ≡ false)
unfolding ip_in_cidr split read_digits read_hex_digits parse_hex_group parse_decimal_octet
    parse_octets decimal_digit hex_digit group_bytes read_section
in_block = (refl, refl, refl, refl, refl)

leading_zero : parse_ipv4 (codes "203.0.113.044") ≡ none
unfolding parse_ipv4 split parse_octets parse_decimal_octet read_digits decimal_digit
leading_zero = refl

normalized :
    (normalize_ip_address (codes "2001:0DB8:0:0:1:0:0:0") ≡ some (codes "2001:db8:0:0:1::"))
    × (normalize_ip_address (codes "::ffff:1.2.3.4") ≡ some (codes "1.2.3.4"))
unfolding normalize_ip_address parse_ip_address split read_digits read_hex_digits parse_hex_group
    parse_decimal_octet parse_octets decimal_digit hex_digit group_bytes read_section join_parts
normalized = (refl, refl)

-- An IPv4 address before the compression is taken for the last four bytes.
ipv4_before_compression :
    parse_ip_address (codes "1.2.3.4::") ≡ parse_ip_address (codes "::1.2.3.4")
unfolding parse_ip_address split read_digits read_hex_digits parse_hex_group parse_decimal_octet
    parse_octets decimal_digit hex_digit group_bytes read_section
ipv4_before_compression = refl

ipv4_before_compression_accepted :
    normalize_ip_address (codes "1.2.3.4::") ≡ some (codes "::102:304")
unfolding normalize_ip_address parse_ip_address split read_digits read_hex_digits parse_hex_group
    parse_decimal_octet parse_octets decimal_digit hex_digit group_bytes read_section join_parts
ipv4_before_compression_accepted = refl
