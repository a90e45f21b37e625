-- ===== src/Crypto/Cidr/Bits.antt =====
-- The leading bits of an address, and how `bytesInPrefix` of packages/crypto/src/cidr.ts compares
-- them.
use Prim.Native.Nat.{bit_and}
use mathlib.Core.Path.{subst}
use keevault.Base.{
  ℕ, zero, suc, ◌+◌, ◌-◌, ◌*◌, ◌/◌, ◌%◌, ◌^◌, ◌<◌, true, false, [], ◌∷◌, ltb, ◌==◌, if◌then◌else◌,
  ◌≡◌, ◌↔◌, refl, sym, ap, ◌∙◌, arith, ==_iff, Bool-cases, inl, inr, ◌⊎◌, ltb→lt,
}
use keevault.Crypto.Text.{Bytes, holds_below, holds_below-at}
use keevault.Crypto.Cidr.{mask}

-- Bit j of a byte, from the most significant one.
abbrev pub bit : ℕ → ℕ → ℕ
bit b j = b / 2 ^ (7 - j) % 2

-- Bit i of an address, in network order.
unfoldable pub bit_at : Bytes → ℕ → ℕ
bit_at [] i = 0
bit_at (b ∷ bytes) i = if ltb i 8 then bit b i else bit_at bytes (i - 8)

-- The first `n` bits of two addresses are the same.
abbrev pub AgreeOn : ℕ → Bytes → Bytes → Type 0
AgreeOn n left right = (i : ℕ) → i < n → bit_at left i ≡ bit_at right i

-- The value of the first `s` bits of a byte, in place.
abbrev high : ℕ → ℕ → ℕ
high b zero = 0
high b (suc s) = high b s + bit b s * 2 ^ (7 - s)

mask_table : holds_below 8 (λ s. holds_below 256 (λ b. bit_and b (mask s) == high b s)) ≡ true
unfolding holds_below
mask_table = refl

bit_table :
    holds_below 8 (λ s. holds_below s (λ j. holds_below 256 (λ b. bit (high b s) j == bit b j)))
    ≡ true
unfolding holds_below
bit_table = refl

byte_table : holds_below 256 (λ b. high b 8 == b) ≡ true
unfolding holds_below
byte_table = refl

masked-high : (s b : ℕ) → s < 8 → b < 256 → bit_and b (mask s) ≡ high b s
masked-high s b hs hb = (==_iff _ _).0 (
    holds_below-at 256 (λ b. bit_and b (mask s) == high b s) b
      (holds_below-at 8 (λ s. holds_below 256 (λ b. bit_and b (mask s) == high b s)) s mask_table
        hs)
      hb)

bit-high : (s j b : ℕ) → s < 8 → j < s → b < 256 → bit (high b s) j ≡ bit b j
bit-high s j b hs hj hb = (==_iff _ _).0 (
    holds_below-at 256 (λ b. bit (high b s) j == bit b j) b
      (holds_below-at s (λ j. holds_below 256 (λ b. bit (high b s) j == bit b j)) j
        (holds_below-at 8
          (λ s. holds_below s (λ j. holds_below 256 (λ b. bit (high b s) j == bit b j))) s bit_table
          hs)
        hj)
      hb)

high_self : (b : ℕ) → b < 256 → high b 8 ≡ b
high_self b hb = (==_iff _ _).0 (holds_below-at 256 (λ b. high b 8 == b) b byte_table hb)

-- Bytes agree on their first `s` bits exactly when these have the same value.
abbrev pub BitsAgree : ℕ → ℕ → ℕ → Type 0
BitsAgree s c a = (j : ℕ) → j < s → bit c j ≡ bit a j

high_of_bits : (s c a : ℕ) → BitsAgree s c a → high c s ≡ high a s
high_of_bits zero c a h = refl
high_of_bits (suc s) c a h =
    let earlier = high_of_bits s c a (λ j lt. h j (omega arith)) in
    let last = h s (omega arith) in rw (earlier, last) refl

pub masked_iff :
    (s c a : ℕ)
    → s < 8
    → c < 256
    → a < 256
    → (bit_and c (mask s) ≡ bit_and a (mask s)) ↔ BitsAgree s c a
masked_iff s c a hs hc ha =
    let same_c = masked-high s c hs hc in
    let same_a = masked-high s a hs ha in
    (
      λ h j lt.
          sym (bit-high s j c hs lt hc)
          ∙ ap (λ x. bit x j) (sym same_c ∙ h ∙ same_a)
          ∙ bit-high s j a hs lt ha,
      λ h. same_c ∙ high_of_bits s c a h ∙ sym same_a,
    )

byte_of_bits : (c a : ℕ) → c < 256 → a < 256 → BitsAgree 8 c a → c ≡ a
byte_of_bits c a hc ha h = sym (high_self c hc) ∙ high_of_bits 8 c a h ∙ high_self a ha

pub bit_at_head : (b : ℕ) (bytes : Bytes) (i : ℕ) → i < 8 → bit_at (b ∷ bytes) i ≡ bit b i
unfolding bit_at
bit_at_head b bytes i h = ground arith

bit_at_tail : (b : ℕ) (bytes : Bytes) (i : ℕ) → bit_at (b ∷ bytes) (i + 8) ≡ bit_at bytes i
unfolding bit_at
bit_at_tail b bytes i =
    let e : i + 8 - 8 ≡ i = omega arith in
    let late : ltb (i + 8) 8 ≡ false = ground arith in rw (late, e) refl

-- Agreement on eight more bits is agreement on the first byte and on the rest.
pub AgreeOn-cons :
    (n c a : ℕ) (cs rest : Bytes)
    → c < 256
    → a < 256
    → AgreeOn (n + 8) (c ∷ cs) (a ∷ rest) ↔ ((c ≡ a) × AgreeOn n cs rest)
AgreeOn-cons n c a cs rest hc ha = (
  λ h. (
    byte_of_bits c a hc ha
        (λ j lt. sym (bit_at_head c cs j lt) ∙ h j (omega arith) ∙ bit_at_head a rest j lt),
    λ i lt. sym (bit_at_tail c cs i) ∙ h (i + 8) (omega arith) ∙ bit_at_tail a rest i,
  ),
  λ (e, h) i lt. by_place e h i lt (Bool-cases (ltb i 8)),
)
  where
    by_place :
        c ≡ a
        → AgreeOn n cs rest
        → (i : ℕ) → i < n + 8
        → (ltb i 8 ≡ true) ⊎ (ltb i 8 ≡ false)
        → bit_at (c ∷ cs) i ≡ bit_at (a ∷ rest) i
    by_place e h i lt (inl early) =
        bit_at_head c cs i (ltb→lt i 8 early)
        ∙ ap (λ x. bit x i) e
        ∙ sym (bit_at_head a rest i (ltb→lt i 8 early))
    by_place e h i lt (inr late) =
        let back : i - 8 + 8 ≡ i = ground arith in
        subst (λ k. bit_at (c ∷ cs) k ≡ bit_at (a ∷ rest) k) back
          (bit_at_tail c cs (i - 8) ∙ h (i - 8) (ground arith) ∙ sym (bit_at_tail a rest (i - 8)))
