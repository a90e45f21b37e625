-- ===== src/Crypto/Ulid.antt =====
-- packages/crypto/src/ulid.ts. A `bigint` is a number without bound; the clock and the generator of
-- random bytes are arguments.
pub mod Laws
use keevault.Base.{
  ℕ, zero, suc, ◌+◌, ◌*◌, ◌/◌, ◌%◌, ◌^◌, Bool, true, false, ◌&&◌, ◌||◌, List, [], ◌∷◌, ◌++◌, leb,
  ◌==◌, if◌then◌else◌, length, all,
}
use keevault.Crypto.Text.{Text, Bytes, codes, get_or, starts_with, drop}

abbrev pub crockford : Text
crockford = codes "0123456789ABCDEFGHJKMNPQRSTVWXYZ"

abbrev pub ulid_length : ℕ
ulid_length = 26

-- `CROCKFORD.charAt(digit)`. It stays shut in proofs.
unfoldable pub crockford_char : ℕ → ℕ
crockford_char digit = get_or crockford digit 0

-- `[0-9A-HJKMNP-TV-Z]`.
unfoldable pub is_crockford : ℕ → Bool
is_crockford c =
    leb b'0' c && leb c b'9'
    || leb b'A' c && leb c b'H'
    || c == b'J'
    || c == b'K'
    || c == b'M'
    || c == b'N'
    || leb b'P' c && leb c b'T'
    || leb b'V' c && leb c b'Z'

-- The loop puts each digit in front of `out`.
unfoldable pub encode_loop : ℕ → ℕ → Text → Text
encode_loop remaining zero out = out
encode_loop remaining (suc rounds) out =
    encode_loop (remaining / 32) rounds (crockford_char (remaining % 32) ∷ out)

unfoldable pub encode_crockford : ℕ → ℕ → Text
encode_crockford value length = encode_loop value length []

-- `(randomValue << 8n) | BigInt(byte)` for each byte.
unfoldable pub random_value : Bytes → ℕ → ℕ
random_value [] so_far = so_far
random_value (byte ∷ bytes) so_far = random_value bytes (so_far * 256 + byte)

-- `now` is `Date.now()` and `random` is `randomBytes(10)`.
unfoldable pub generate_ulid : ℕ → Bytes → Text
generate_ulid now random =
    encode_crockford (now % 2 ^ 48) 10 ++ encode_crockford (random_value random 0) 16

unfoldable pub generate_prefixed_ulid : Text → ℕ → Bytes → Text
generate_prefixed_ulid prefix now random = prefix ++ b'_' ∷ generate_ulid now random

-- `ULID_PATTERN.test(value)`.
unfoldable pub is_ulid : Text → Bool
is_ulid value = length value == ulid_length && all is_crockford value

unfoldable pub is_prefixed_ulid : Text → Text → Bool
is_prefixed_ulid prefix value =
    let marker = prefix ++ b'_' ∷ [] in
    starts_with marker value && is_ulid (drop (length marker) value)
