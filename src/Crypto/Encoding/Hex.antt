-- ===== src/Crypto/Encoding/Hex.antt =====
-- `hexEncode` and `hexDecode` of packages/crypto/src/encoding.ts.
use mathlib.Core.Path.{subst}
use mathlib.Core.Option
use mathlib.Core.Option.{some-injective}
use keevault.Base.{
  ℕ, ◌+◌, ◌-◌, ◌*◌, ◌/◌, ◌%◌, ◌<◌, true, Option, none, some, [], ◌∷◌, map, All, ◌&&◌, leb, ltb,
  ◌==◌, if◌then◌else◌, ◌≡◌, refl, ◌∙◌, sym, ap, arith, ==_iff,
}
use keevault.Crypto.Text.{
  is_value, is_value-eq, codes, get_or, Text, Bytes, IsByte, index_of, get_or-index_of, holds_below,
  holds_below-at,
}
use keevault.Crypto.Encoding.{hex_char, hex_value, hex_encode, hex_pair, hex_decode}

digit_table : holds_below 16 (λ v. is_value (hex_value (hex_char v)) v) ≡ true
unfolding holds_below is_value hex_value hex_char
digit_table = refl

hex_value-hex_char : (v : ℕ) → v < 16 → hex_value (hex_char v) ≡ some v
hex_value-hex_char v h =
    is_value-eq (hex_value (hex_char v)) v (holds_below-at 16 _ v digit_table h)

-- Hex text reads back as the bytes that it was written from.
pub hex_decode-hex_encode :
    (bytes : Bytes) → All IsByte bytes → hex_decode (hex_encode bytes) ≡ some bytes
unfolding hex_encode hex_decode
hex_decode-hex_encode [] h = refl
hex_decode-hex_encode (b ∷ bytes) (h, rest) =
    rw
      (
        hex_value-hex_char (b / 16) (omega arith),
        hex_value-hex_char (b % 16) (omega arith),
        hex_decode-hex_encode bytes rest,
      )
      (ap (λ b. some (b ∷ bytes)) (let e : b / 16 * 16 + b % 16 ≡ b = omega arith in e))

-- `character.toLowerCase()` on the digits.
abbrev pub lower : ℕ → ℕ
lower c = if leb b'A' c && leb c b'F' then c + 32 else c

abbrev both_cases : Text
both_cases = codes "0123456789abcdefABCDEF"

abbrev value_at : ℕ → ℕ
value_at i = if ltb i 16 then i else i - 6

both_table : holds_below 22 (λ i. hex_char (value_at i) == lower (get_or both_cases i 0)) ≡ true
unfolding holds_below hex_char
both_table = refl

value_at-lt : {i v : ℕ} → value_at i ≡ v → i < 22 → v < 16
value_at-lt value inside = ground arith

hex_char_of_value : (c v : ℕ) → hex_value c ≡ some v → (hex_char v ≡ lower c) × (v < 16)
unfolding hex_value
hex_char_of_value c v h =
    let (i, found, value) = (Option.map-eq-some_iff value_at (index_of both_cases c)).0 h in
    let (here, inside) = get_or-index_of both_cases c i found in
    let e = (==_iff (hex_char (value_at i)) (lower (get_or both_cases i 0))).0 (
      holds_below-at 22 (λ i. hex_char (value_at i) == lower (get_or both_cases i 0)) i both_table
        inside) in
    (subst (λ w. hex_char w ≡ lower c) value (e ∙ ap lower here), value_at-lt value inside)

hex_pair-eq-some :
    (o p : Option ℕ) (rest : Option Bytes) {bytes : Bytes}
    → hex_pair o p rest ≡ some bytes
    → (high : ℕ) × (low : ℕ) × (tail : Bytes) × (o ≡ some high)
      × (p ≡ some low)
      × (rest ≡ some tail)
      × ((high * 16 + low) ∷ tail ≡ bytes)
hex_pair-eq-some none p rest h = cc
hex_pair-eq-some (some high) none rest h = cc
hex_pair-eq-some (some high) (some low) none h = cc
hex_pair-eq-some (some high) (some low) (some tail) h =
    (high, low, tail, refl, refl, refl, some-injective _ _ h)

-- A text that is accepted is, but for its case, the text of the bytes that it is read as.
pub hex_encode-hex_decode :
    (t : Text) (bytes : Bytes)
    → hex_decode t ≡ some bytes
    → (hex_encode bytes ≡ map lower t) × All IsByte bytes
unfolding hex_decode hex_encode
hex_encode-hex_decode [] bytes h = rw (sym (some-injective _ _ h)) (refl, tt)
hex_encode-hex_decode (c ∷ []) bytes h = cc
hex_encode-hex_decode (c ∷ d ∷ t) bytes h =
    let (high, low, tail, e, f, g, joined) =
      hex_pair-eq-some (hex_value c) (hex_value d) (hex_decode t) h in
    let (high_char, high_lt) = hex_char_of_value c high e in
    let (low_char, low_lt) = hex_char_of_value d low f in
    let (text, bytes_ok) = hex_encode-hex_decode t tail g in
    let high_eq : (high * 16 + low) / 16 ≡ high = omega arith in
    let low_eq : (high * 16 + low) % 16 ≡ low = omega arith in
    subst (λ bs. (hex_encode bs ≡ map lower (c ∷ d ∷ t)) × All IsByte bs) joined
      (rw (high_eq, low_eq, high_char, low_char, text) refl, (omega arith, bytes_ok))
