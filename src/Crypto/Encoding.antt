-- ===== src/Crypto/Encoding.antt =====
-- packages/crypto/src/encoding.ts: base64url without padding, hex, and the comparison in constant
-- time. A byte is a number below 256, so the bit fields that an encoder joins by `|` do not overlap
-- and are added. A decoder that throws returns `none`.
pub mod Hex
pub mod Base64
pub mod Canonical
pub mod Shape
pub mod Compare
use Prim.Native.Nat.{bit_or, bit_xor}
use mathlib.Core.Option
use keevault.Base.{
  ℕ, ◌+◌, ◌-◌, ◌*◌, ◌/◌, ◌%◌, ◌^◌, Bool, true, false, not, ◌&&◌, Option, none, some, List, [], ◌∷◌,
  ◌++◌, ltb, leb, ◌==◌, if◌then◌else◌, length,
}
use keevault.Crypto.Text.{Text, Bytes, codes, get_or, index_of}

abbrev pub b64u_alphabet : Text
b64u_alphabet = codes "ABCDEFGHIJKLMNOPQRSTUVWXYZabcdefghijklmnopqrstuvwxyz0123456789-_"

abbrev pub hex_alphabet : Text
hex_alphabet = codes "0123456789abcdef"

-- `B64U_ALPHABET[value]` and `B64U_VALUES.get(character)`. They stay shut in proofs.
unfoldable pub b64u_char : ℕ → ℕ
b64u_char value = get_or b64u_alphabet value 0

unfoldable pub b64u_value : ℕ → Option ℕ
unfolding index_of
b64u_value c = index_of b64u_alphabet c

unfoldable pub b64u_encode : Bytes → Text
b64u_encode (a ∷ b ∷ c ∷ rest) =
    b64u_char (a / 4)
    ∷ b64u_char (a % 4 * 16 + b / 16)
    ∷ b64u_char (b % 16 * 4 + c / 64)
    ∷ b64u_char (c % 64)
    ∷ b64u_encode rest
b64u_encode (a ∷ b ∷ []) =
    b64u_char (a / 4) ∷ b64u_char (a % 4 * 16 + b / 16) ∷ b64u_char (b % 16 * 4) ∷ []
b64u_encode (a ∷ []) = b64u_char (a / 4) ∷ b64u_char (a % 4 * 16) ∷ []
b64u_encode [] = []

-- `(accumulator << 6) | value` on 32 bits.
abbrev pub shift_in : ℕ → ℕ → ℕ
shift_in accumulator value = accumulator * 64 % 2 ^ 32 + value

-- The loop's variables at its end: the bytes that it wrote, the accumulator and the bits held.
pub record Decoded : Type 0 where
  pub out : Bytes
  pub accumulator : ℕ
  pub bits_held : ℕ

abbrev pub write_byte : Bool → ℕ → Decoded → Decoded
write_byte full byte d = if full then record d { out = byte ∷ d.out } else d

-- One round of the loop; `rest` is the rounds after it.
abbrev pub b64u_round : Option ℕ → ℕ → ℕ → (ℕ → ℕ → Option Decoded) → Option Decoded
b64u_round none accumulator bits_held rest = none
b64u_round (some value) accumulator bits_held rest =
    let next = shift_in accumulator value in
    let held = bits_held + 6 in
    let full = leb 8 held in
    Option.map (write_byte full (next / 2 ^ (held - 8) % 256))
      (rest next (if full then held - 8 else held))

unfoldable pub b64u_loop : Text → ℕ → ℕ → Option Decoded
b64u_loop [] accumulator bits_held =
    some (record { out = []; accumulator = accumulator; bits_held = bits_held })
b64u_loop (c ∷ t) accumulator bits_held =
    b64u_round (b64u_value c) accumulator bits_held (b64u_loop t)

-- The check of the trailing bits.
unfoldable pub b64u_finish : Option Decoded → Option Bytes
b64u_finish none = none
b64u_finish (some d) =
    if ltb 0 d.bits_held && not (d.accumulator % 2 ^ d.bits_held == 0) then none else some d.out

unfoldable pub b64u_decode : Text → Option Bytes
b64u_decode t = if length t % 4 == 1 then none else b64u_finish (b64u_loop t 0 0)

unfoldable pub hex_char : ℕ → ℕ
hex_char value = get_or hex_alphabet value 0

unfoldable pub hex_encode : Bytes → Text
unfolding hex_char
hex_encode [] = []
hex_encode (b ∷ bytes) = hex_char (b / 16) ∷ hex_char (b % 16) ∷ hex_encode bytes

-- `HEX_VALUES.get(character)`: the index among "0123456789abcdefABCDEF", less 6 for an upper case.
unfoldable pub hex_value : ℕ → Option ℕ
unfolding index_of
hex_value c =
    Option.map (λ i. if ltb i 16 then i else i - 6) (index_of (codes "0123456789abcdefABCDEF") c)

abbrev pub hex_pair : Option ℕ → Option ℕ → Option Bytes → Option Bytes
hex_pair none low rest = none
hex_pair (some high) none rest = none
hex_pair (some high) (some low) rest = Option.map (λ bytes. (high * 16 + low) ∷ bytes) rest

-- The digits in pairs; an odd last digit is refused before the loop.
unfoldable pub hex_decode : Text → Option Bytes
unfolding hex_value
hex_decode [] = some []
hex_decode (c ∷ []) = none
hex_decode (c ∷ d ∷ t) = hex_pair (hex_value c) (hex_value d) (hex_decode t)

-- `difference` after the loop; the lists have one length.
unfoldable pub difference : Bytes → Bytes → ℕ → ℕ
difference (l ∷ left) (r ∷ right) so_far = difference left right (bit_or so_far (bit_xor l r))
difference [] right so_far = so_far
difference (l ∷ left) [] so_far = so_far

unfoldable pub constant_time_equal : Bytes → Bytes → Bool
unfolding difference
constant_time_equal left right =
    if not (length left == length right) then false else difference left right 0 == 0

-- `concatBytes`: `out.set(part, offset)` for each part.
unfoldable pub concat_bytes : List Bytes → Bytes
concat_bytes [] = []
concat_bytes (part ∷ parts) = part ++ concat_bytes parts
