-- ===== src/Crypto/Encoding/Compare.antt =====
-- `constantTimeEqual` of packages/crypto/src/encoding.ts and the bitwise operations that it uses.
use Prim.Native.Nat.{bit_or, bit_xor, bit_or-bitwise, bit_xor-bitwise, digits, differ, max}
use keevault.Base.{
  ℕ, zero, suc, ◌+◌, ◌*◌, ◌/◌, ◌%◌, ◌≤◌, true, false, [], ◌∷◌, ◌==◌, length, ◌≡◌, refl, ◌↔◌, arith,
  ==_iff, Bool-cases, inl, inr, ◌≢◌, ap,
}
use keevault.Crypto.Text.{Bytes}
use keevault.Crypto.Encoding.{difference, constant_time_equal}

module _ (f : ℕ → ℕ → ℕ) where
  abbrev by_digits : ℕ → ℕ → ℕ → ℕ
  by_digits n a b = digits (λ b. b) f n a b

  by_digits_fuel : (n m a b : ℕ) → a ≤ n → a ≤ m → by_digits n a b ≡ by_digits m a b
  by_digits_fuel zero zero a b p q = refl
  by_digits_fuel zero (suc m) zero b p q = refl
  by_digits_fuel zero (suc m) (suc a) b p q = absurd (omega arith)
  by_digits_fuel (suc n) zero zero b p q = refl
  by_digits_fuel (suc n) zero (suc a) b p q = absurd (omega arith)
  by_digits_fuel (suc n) (suc m) zero b p q = refl
  by_digits_fuel (suc n) (suc m) (suc a) b p q =
      omega (arith, by_digits_fuel n m (suc a / 2) (b / 2) (omega arith) (omega arith))

zero-bit_or : (b : ℕ) → bit_or 0 b ≡ b
zero-bit_or b = bit_or-bitwise 0 b

zero-bit_xor : (b : ℕ) → bit_xor 0 b ≡ b
zero-bit_xor b = bit_xor-bitwise 0 b

bit_or_step :
    (a b : ℕ) → bit_or (suc a) b ≡ bit_or (suc a / 2) (b / 2) * 2 + max (suc a % 2) (b % 2)
bit_or_step a b = omega (
  arith,
  bit_or-bitwise (suc a) b,
  bit_or-bitwise (suc a / 2) (b / 2),
  by_digits_fuel max a (suc a / 2) (suc a / 2) (b / 2) (omega arith) (omega arith),
)

bit_xor_step :
    (a b : ℕ) → bit_xor (suc a) b ≡ bit_xor (suc a / 2) (b / 2) * 2 + differ (suc a % 2) (b % 2)
bit_xor_step a b = omega (
  arith,
  bit_xor-bitwise (suc a) b,
  bit_xor-bitwise (suc a / 2) (b / 2),
  by_digits_fuel differ a (suc a / 2) (suc a / 2) (b / 2) (omega arith) (omega arith),
)

differ-eq_zero : (x y : ℕ) → differ x y ≡ 0 → x ≡ y
differ-eq_zero zero y h = omega arith
differ-eq_zero (suc x) zero h = absurd (omega arith)
differ-eq_zero (suc x) (suc y) h = omega (arith, differ-eq_zero x y h)

differ_self : (x : ℕ) → differ x x ≡ 0
differ_self zero = refl
differ_self (suc x) = differ_self x

bit_or-eq_zero_fuel : (n a b : ℕ) → a ≤ n → bit_or a b ≡ 0 → (a ≡ 0) × (b ≡ 0)
bit_or-eq_zero_fuel n zero b le h = omega (arith, zero-bit_or b)
bit_or-eq_zero_fuel zero (suc a) b le h = absurd (omega arith)
bit_or-eq_zero_fuel (suc n) (suc a) b le h = omega (
  arith,
  bit_or_step a b,
  bit_or-eq_zero_fuel n (suc a / 2) (b / 2) (omega arith) (omega (arith, bit_or_step a b)),
)

bit_xor-eq_zero_fuel : (n a b : ℕ) → a ≤ n → bit_xor a b ≡ 0 → a ≡ b
bit_xor-eq_zero_fuel n zero b le h = omega (arith, zero-bit_xor b)
bit_xor-eq_zero_fuel zero (suc a) b le h = absurd (omega arith)
bit_xor-eq_zero_fuel (suc n) (suc a) b le h = omega (
  arith,
  bit_xor-eq_zero_fuel n (suc a / 2) (b / 2) (omega arith) (omega (arith, bit_xor_step a b)),
  differ-eq_zero (suc a % 2) (b % 2) (omega (arith, bit_xor_step a b)),
)

bit_xor_self_fuel : (n a : ℕ) → a ≤ n → bit_xor a a ≡ 0
bit_xor_self_fuel n zero le = zero-bit_xor 0
bit_xor_self_fuel zero (suc a) le = absurd (omega arith)
bit_xor_self_fuel (suc n) (suc a) le = omega (
  arith,
  bit_xor_step a (suc a),
  bit_xor_self_fuel n (suc a / 2) (omega arith),
  differ_self (suc a % 2),
)

difference_iff :
    (left right : Bytes) (so_far : ℕ)
    → length left ≡ length right
    → (difference left right so_far ≡ 0) ↔ ((so_far ≡ 0) × (left ≡ right))
unfolding difference
difference_iff [] [] so_far e = (λ h. (h, refl), λ h. h.0)
difference_iff [] (r ∷ right) so_far e = absurd (omega arith)
difference_iff (l ∷ left) [] so_far e = absurd (omega arith)
difference_iff (l ∷ left) (r ∷ right) so_far e =
    let (to, from) = difference_iff left right (bit_or so_far (bit_xor l r)) (omega arith) in
    (
      λ h.
          let (none_yet, rest) = to h in
          let (before, now) =
            bit_or-eq_zero_fuel so_far so_far (bit_xor l r) (omega arith) none_yet in
          (before, cc (bit_xor-eq_zero_fuel l l r (omega arith) now)),
      λ (before, same).
          let heads : l ≡ r = cc in
          let tails : left ≡ right = cc in
          from (cc (zero-bit_or 0, bit_xor_self_fuel r r (omega arith)), tails),
    )

lengths_differ : (left right : Bytes) → (length left == length right) ≡ false → left ≢ right
lengths_differ left right e h = ground (arith, ap length h)

-- The comparison in constant time accepts exactly equal byte strings.
pub constant_time_equal_iff :
    (left right : Bytes) → (constant_time_equal left right ≡ true) ↔ (left ≡ right)
unfolding constant_time_equal
constant_time_equal_iff left right = elim (Bool-cases (length left == length right)) [
  | inl e ↦
      let (to, from) = difference_iff left right 0 ((==_iff _ _).0 e) in
      rw e (
        λ h. (to ((==_iff (difference left right 0) 0).0 h)).1,
        λ h. (==_iff (difference left right 0) 0).1 (from (refl, h)),
      )
  | inr e ↦ rw e (λ h. cc, λ h. absurd (lengths_differ left right e h))
]
