-- ===== src/Crypto/Encoding/Base64.antt =====
-- `b64uEncode` and `b64uDecode` of packages/crypto/src/encoding.ts. The loop's bits come back to 0
-- after each four characters.
use mathlib.Core.Option
use mathlib.Core.Option.{some-injective}
use keevault.Base.{
  ℕ, ◌+◌, ◌*◌, ◌/◌, ◌%◌, ◌^◌, ◌<◌, Bool, true, false, not, Option, none, some, [], ◌∷◌, All, length,
  ◌&&◌, ltb, ◌==◌, if◌then◌else◌, ◌≡◌, refl, ap, ◌∙◌, arith, Bool-cases, inl, inr,
}
use keevault.Crypto.Text.{
  Text, Bytes, IsByte, get_or-index_of, holds_below, holds_below-at, is_value, is_value-eq,
}
use keevault.Crypto.Encoding.{
  b64u_alphabet, b64u_char, b64u_value, b64u_encode, Decoded, write_byte, shift_in, b64u_loop,
  b64u_finish, b64u_decode,
}

value_table : holds_below 64 (λ v. is_value (b64u_value (b64u_char v)) v) ≡ true
unfolding holds_below is_value b64u_value b64u_char
value_table = refl

b64u_value-b64u_char : (v : ℕ) → v < 64 → b64u_value (b64u_char v) ≡ some v
b64u_value-b64u_char v h =
    is_value-eq (b64u_value (b64u_char v)) v (holds_below-at 64 _ v value_table h)

pub b64u_char-b64u_value : (c v : ℕ) → b64u_value c ≡ some v → (b64u_char v ≡ c) × (v < 64)
unfolding b64u_value b64u_char
b64u_char-b64u_value c v h = get_or-index_of b64u_alphabet c v h

-- The rest of the decoding after the loop has come to a text with no bits held.
abbrev pub decode_from : Text → ℕ → Option Bytes
decode_from t accumulator = b64u_finish (b64u_loop t accumulator 0)

abbrev pub shift_four : ℕ → ℕ → ℕ → ℕ → ℕ → ℕ
shift_four accumulator p q r s = shift_in (shift_in (shift_in (shift_in accumulator p) q) r) s

-- Bytes that the loop wrote before are in front of the rest.
finish-write_three :
    (w x y z : ℕ) (o : Option Decoded)
    → b64u_finish (
        Option.map (write_byte false w) (
          Option.map
            (write_byte true x)
            (Option.map (write_byte true y) (Option.map (write_byte true z) o))))
      ≡ Option.map (λ (bytes : Bytes). x ∷ y ∷ z ∷ bytes) (b64u_finish o)
unfolding b64u_finish
finish-write_three w x y z none = refl
finish-write_three w x y z (some d) =
    elim (Bool-cases (ltb 0 d.bits_held && not (d.accumulator % 2 ^ d.bits_held == 0))) [
      | inl e ↦ rw e refl
      | inr e ↦ rw e refl
    ]

-- The three bytes, computed on 32 bits, do not depend on what the accumulator held before.
three_bytes :
    (a p q r s : ℕ)
    → p < 64
    → q < 64
    → r < 64
    → s < 64
    → (shift_in (shift_in a p) q / 16 % 256 ≡ p * 4 + q / 16)
      × (shift_in (shift_in (shift_in a p) q) r / 4 % 256 ≡ q % 16 * 16 + r / 4)
      × (shift_four a p q r s / 1 % 256 ≡ r % 4 * 64 + s)
three_bytes a p q r s lp lq lr ls = (omega arith, omega arith, omega arith)

module _ (c d e f : ℕ) {p q r s : ℕ} (hp : b64u_value c ≡ some p) (hq : b64u_value d ≡ some q)
    (hr : b64u_value e ≡ some r) (hs : b64u_value f ≡ some s) (lp : p < 64) (lq : q < 64)
    (lr : r < 64) (ls : s < 64) where
  -- Four characters give three bytes.
  pub decode_four :
      (t : Text) (accumulator : ℕ)
      → decode_from (c ∷ d ∷ e ∷ f ∷ t) accumulator
        ≡ Option.map
            (λ (bytes : Bytes). (p * 4 + q / 16) ∷ (q % 16 * 16 + r / 4) ∷ (r % 4 * 64 + s) ∷ bytes)
            (decode_from t (shift_four accumulator p q r s))
  unfolding b64u_finish b64u_loop
  decode_four t accumulator =
      let (one, two, three) = three_bytes accumulator p q r s lp lq lr ls in
      rw (hp, hq, hr, hs, one, two, three, finish-write_three) refl

  -- The values and the bytes of four characters determine one another.
  pub four_of_bytes :
      (b64u_char ((p * 4 + q / 16) / 4) ≡ b64u_char p)
      × (b64u_char ((p * 4 + q / 16) % 4 * 16 + (q % 16 * 16 + r / 4) / 16) ≡ b64u_char q)
      × (b64u_char ((q % 16 * 16 + r / 4) % 16 * 4 + (r % 4 * 64 + s) / 64) ≡ b64u_char r)
      × (b64u_char ((r % 4 * 64 + s) % 64) ≡ b64u_char s)
  four_of_bytes = (
    ap b64u_char (omega arith),
    ap b64u_char (omega arith),
    ap b64u_char (omega arith),
    ap b64u_char (omega arith),
  )

if_not {ℓ} : {A : Type ℓ} (b : Bool) (x y : A) → (if not b then x else y) ≡ (if b then y else x)
if_not true x y = refl
if_not false x y = refl

-- Two characters at the end give one byte, if the four bits that are left are 0.
pub decode_two :
    (c d : ℕ) {p q : ℕ} (accumulator : ℕ)
    → b64u_value c ≡ some p
    → b64u_value d ≡ some q
    → p < 64
    → q < 64
    → decode_from (c ∷ d ∷ []) accumulator
      ≡ (if q % 16 == 0 then some ((p * 4 + q / 16) ∷ []) else none)
unfolding b64u_finish b64u_loop
decode_two c d {p} {q} accumulator hp hq lp lq =
    let byte : shift_in (shift_in accumulator p) q / 16 % 256 ≡ p * 4 + q / 16 = omega arith in
    let left : shift_in (shift_in accumulator p) q % 16 ≡ q % 16 = omega arith in
    rw (hp, hq, byte, left) (if_not (q % 16 == 0) _ _)

-- Three characters at the end give two bytes, if the two bits that are left are 0.
pub decode_three :
    (c d e : ℕ) {p q r : ℕ} (accumulator : ℕ)
    → b64u_value c ≡ some p
    → b64u_value d ≡ some q
    → b64u_value e ≡ some r
    → p < 64
    → q < 64
    → r < 64
    → decode_from (c ∷ d ∷ e ∷ []) accumulator
      ≡ (if r % 4 == 0 then some ((p * 4 + q / 16) ∷ (q % 16 * 16 + r / 4) ∷ []) else none)
unfolding b64u_finish b64u_loop
decode_three c d e {p} {q} {r} accumulator hp hq hr lp lq lr =
    let (one, two, _) = three_bytes accumulator p q r 0 lp lq lr (omega arith) in
    let left : shift_in (shift_in (shift_in accumulator p) q) r % 4 ≡ r % 4 = omega arith in
    rw (hp, hq, hr, one, two, left) (if_not (r % 4 == 0) _ _)

-- Reading what was written gives the bytes, whatever the accumulator holds.
decode_from-encode :
    (bytes : Bytes) (accumulator : ℕ)
    → All IsByte bytes
    → decode_from (b64u_encode bytes) accumulator ≡ some bytes
unfolding b64u_encode b64u_finish b64u_loop
decode_from-encode [] accumulator h = refl
decode_from-encode (a ∷ []) accumulator (ha, _) =
    let spare : a % 4 * 16 % 16 ≡ 0 = omega arith in
    let byte : a / 4 * 4 + a % 4 * 16 / 16 ≡ a = omega arith in
    decode_two _ _ accumulator (b64u_value-b64u_char (a / 4) (omega arith))
      (b64u_value-b64u_char (a % 4 * 16) (omega arith)) (omega arith) (omega arith)
    ∙ rw (spare, byte) refl
decode_from-encode (a ∷ b ∷ []) accumulator (ha, (hb, _)) =
    let spare : b % 16 * 4 % 4 ≡ 0 = omega arith in
    let first : a / 4 * 4 + (a % 4 * 16 + b / 16) / 16 ≡ a = omega arith in
    let second : (a % 4 * 16 + b / 16) % 16 * 16 + b % 16 * 4 / 4 ≡ b = omega arith in
    decode_three _ _ _ accumulator (b64u_value-b64u_char (a / 4) (omega arith))
      (b64u_value-b64u_char (a % 4 * 16 + b / 16) (omega arith))
      (b64u_value-b64u_char (b % 16 * 4) (omega arith)) (omega arith) (omega arith) (omega arith)
    ∙ rw (spare, first, second) refl
decode_from-encode (a ∷ b ∷ c ∷ rest) accumulator (ha, (hb, (hc, h))) =
    let first : a / 4 * 4 + (a % 4 * 16 + b / 16) / 16 ≡ a = omega arith in
    let second : (a % 4 * 16 + b / 16) % 16 * 16 + (b % 16 * 4 + c / 64) / 4 ≡ b = omega arith in
    let third : (b % 16 * 4 + c / 64) % 4 * 64 + c % 64 ≡ c = omega arith in
    decode_four _ _ _ _ (b64u_value-b64u_char (a / 4) (omega arith))
      (b64u_value-b64u_char (a % 4 * 16 + b / 16) (omega arith))
      (b64u_value-b64u_char (b % 16 * 4 + c / 64) (omega arith))
      (b64u_value-b64u_char (c % 64) (omega arith)) (omega arith) (omega arith) (omega arith)
      (omega arith) (b64u_encode rest) accumulator
    ∙ rw (decode_from-encode rest _ h, first, second, third) refl

length-b64u_encode : (bytes : Bytes) → (length (b64u_encode bytes) % 4 == 1) ≡ false
unfolding b64u_encode
length-b64u_encode [] = refl
length-b64u_encode (a ∷ []) = refl
length-b64u_encode (a ∷ b ∷ []) = refl
length-b64u_encode (a ∷ b ∷ c ∷ rest) = ground (arith, length-b64u_encode rest)

-- Base64url text reads back as the bytes that it was written from.
pub b64u_decode-b64u_encode :
    (bytes : Bytes) → All IsByte bytes → b64u_decode (b64u_encode bytes) ≡ some bytes
unfolding b64u_decode
b64u_decode-b64u_encode bytes h = rw (length-b64u_encode bytes) (decode_from-encode bytes 0 h)
