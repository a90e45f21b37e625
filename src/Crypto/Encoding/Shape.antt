-- ===== src/Crypto/Encoding/Shape.antt =====
-- The characters and the length of what `b64uEncode` and `hexEncode` of
-- packages/crypto/src/encoding.ts write.
use keevault.Base.{
  ℕ, ◌+◌, ◌*◌, ◌/◌, ◌%◌, ◌<◌, Bool, true, ◌&&◌, ◌||◌, [], ◌∷◌, leb, ltb, ◌==◌, if◌then◌else◌,
  length, all, All, ◌≡◌, refl, arith, ltb→lt,
}
use keevault.Crypto.Text.{Bytes, IsByte, holds_below, holds_below-at}
use keevault.Crypto.Encoding.{b64u_char, b64u_encode, hex_char, hex_encode}

-- `[A-Za-z0-9_-]`.
unfoldable pub is_b64u : ℕ → Bool
is_b64u c =
    leb b'A' c && leb c b'Z'
    || leb b'a' c && leb c b'z'
    || leb b'0' c && leb c b'9'
    || c == b'_'
    || c == b'-'

b64u_table : holds_below 64 (λ v. is_b64u (b64u_char v)) ≡ true
unfolding holds_below is_b64u b64u_char
b64u_table = refl

is_b64u-b64u_char : (v : ℕ) → v < 64 → is_b64u (b64u_char v) ≡ true
is_b64u-b64u_char v h = holds_below-at 64 _ v b64u_table h

pub all-b64u_encode : (bytes : Bytes) → All IsByte bytes → all is_b64u (b64u_encode bytes) ≡ true
unfolding b64u_encode
all-b64u_encode [] h = refl
all-b64u_encode (a ∷ []) (ha, _) =
    rw (is_b64u-b64u_char (a / 4) (omega arith), is_b64u-b64u_char (a % 4 * 16) (omega arith)) refl
all-b64u_encode (a ∷ b ∷ []) (ha, (hb, _)) =
    rw
      (
        is_b64u-b64u_char (a / 4) (omega arith),
        is_b64u-b64u_char (a % 4 * 16 + b / 16) (omega arith),
        is_b64u-b64u_char (b % 16 * 4) (omega arith),
      )
      refl
all-b64u_encode (a ∷ b ∷ c ∷ rest) (ha, (hb, (hc, h))) =
    rw
      (
        is_b64u-b64u_char (a / 4) (omega arith),
        is_b64u-b64u_char (a % 4 * 16 + b / 16) (omega arith),
        is_b64u-b64u_char (b % 16 * 4 + c / 64) (omega arith),
        is_b64u-b64u_char (c % 64) (omega arith),
      )
      (all-b64u_encode rest h)

pub length-b64u_encode :
    (bytes : Bytes)
    → length (b64u_encode bytes)
      ≡ length bytes / 3 * 4 + (if length bytes % 3 == 0 then 0 else length bytes % 3 + 1)
unfolding b64u_encode
length-b64u_encode [] = refl
length-b64u_encode (a ∷ []) = refl
length-b64u_encode (a ∷ b ∷ []) = refl
length-b64u_encode (a ∷ b ∷ c ∷ rest) = ground (arith, length-b64u_encode rest)

hex_table : holds_below 16 (λ v. ltb (hex_char v) 128) ≡ true
unfolding holds_below hex_char
hex_table = refl

-- Hex text is ASCII.
pub hex_encode-ascii : (bytes : Bytes) → All IsByte bytes → All (λ c. c < 128) (hex_encode bytes)
unfolding hex_encode
hex_encode-ascii [] h = tt
hex_encode-ascii (b ∷ bytes) (hb, h) = (
  ltb→lt _ 128 (holds_below-at 16 _ (b / 16) hex_table (omega arith)),
  (ltb→lt _ 128 (holds_below-at 16 _ (b % 16) hex_table (omega arith)), hex_encode-ascii bytes h),
)

-- Base64url text is ASCII.
ascii_table : holds_below 64 (λ v. ltb (b64u_char v) 128) ≡ true
unfolding holds_below b64u_char
ascii_table = refl

b64u_char-ascii : (v : ℕ) → v < 64 → b64u_char v < 128
b64u_char-ascii v h = ltb→lt (b64u_char v) 128 (holds_below-at 64 _ v ascii_table h)

pub b64u_encode-ascii : (bytes : Bytes) → All IsByte bytes → All (λ c. c < 128) (b64u_encode bytes)
unfolding b64u_encode
b64u_encode-ascii [] h = tt
b64u_encode-ascii (a ∷ []) (ha, h) =
    (b64u_char-ascii (a / 4) (omega arith), (b64u_char-ascii (a % 4 * 16) (omega arith), tt))
b64u_encode-ascii (a ∷ b ∷ []) (ha, (hb, h)) = (
  b64u_char-ascii (a / 4) (omega arith),
  (
    b64u_char-ascii (a % 4 * 16 + b / 16) (omega arith),
    (b64u_char-ascii (b % 16 * 4) (omega arith), tt),
  ),
)
b64u_encode-ascii (a ∷ b ∷ c ∷ bytes) (ha, (hb, (hc, h))) = (
  b64u_char-ascii (a / 4) (omega arith),
  (
    b64u_char-ascii (a % 4 * 16 + b / 16) (omega arith),
    (
      b64u_char-ascii (b % 16 * 4 + c / 64) (omega arith),
      (b64u_char-ascii (c % 64) (omega arith), b64u_encode-ascii bytes h),
    ),
  ),
)
