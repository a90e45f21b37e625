-- ===== src/Crypto/Text/Decimal.antt =====
-- `String(n)` of a whole number, and the number that its digits stand for.
use keevault.Base.{
  ℕ, zero, suc, ◌+◌, ◌-◌, ◌*◌, ◌/◌, ◌%◌, ◌<◌, ◌≤◌, [], ◌∷◌, ltb, if◌then◌else◌, All, ◌≡◌, sym, ap,
  ◌∙◌, arith, Bool-cases, inl, inr,
}
use keevault.Crypto.Text.{Text}

-- A number has fewer digits than its successor counts.
unfoldable pub decimal_loop : ℕ → ℕ → Text → Text
decimal_loop zero n out = out
decimal_loop (suc fuel) n out =
    let rest = decimal_loop fuel (n / 10) ((b'0' + n % 10) ∷ out) in
    if ltb n 10 then (b'0' + n) ∷ out else rest

unfoldable pub decimal : ℕ → Text
unfolding decimal_loop
decimal n = decimal_loop (suc n) n []

abbrev pub IsDigit : ℕ → Type 0
IsDigit c = (b'0' ≤ c) × (c ≤ b'9')

unfoldable pub read_decimal : Text → ℕ → ℕ
read_decimal [] so_far = so_far
read_decimal (c ∷ t) so_far = read_decimal t (so_far * 10 + (c - b'0'))

read-decimal_loop :
    (fuel n : ℕ) (out : Text)
    → n < fuel
    → read_decimal (decimal_loop fuel n out) 0 ≡ read_decimal out n
unfolding decimal_loop read_decimal
read-decimal_loop zero n out h = absurd (omega arith)
read-decimal_loop (suc fuel) n out h = elim (Bool-cases (ltb n 10)) [
  | inl e ↦ ground arith
  | inr e ↦
      let back : n / 10 * 10 + (b'0' + n % 10 - b'0') ≡ n = omega arith in
      rw e (
        read-decimal_loop fuel (n / 10) ((b'0' + n % 10) ∷ out) (ground arith)
        ∙ ap (read_decimal out) back)
]

pub read_decimal-decimal : (n : ℕ) → read_decimal (decimal n) 0 ≡ n
unfolding decimal read_decimal
read_decimal-decimal n = read-decimal_loop (suc n) n [] (omega arith)

pub decimal-injective : {m n : ℕ} → decimal m ≡ decimal n → m ≡ n
decimal-injective {m} {n} h =
    sym (read_decimal-decimal m) ∙ ap (λ t. read_decimal t 0) h ∙ read_decimal-decimal n

All-decimal_loop :
    (fuel n : ℕ) (out : Text) → All IsDigit out → All IsDigit (decimal_loop fuel n out)
unfolding decimal_loop
All-decimal_loop zero n out h = h
All-decimal_loop (suc fuel) n out h = elim (Bool-cases (ltb n 10)) [
  | inl e ↦ rw e ((omega arith, ground arith), h)
  | inr e ↦
      rw e (All-decimal_loop fuel (n / 10) ((b'0' + n % 10) ∷ out) ((omega arith, omega arith), h))
]

-- The text of a number has digits only.
pub All-decimal : (n : ℕ) → All IsDigit (decimal n)
unfolding decimal
All-decimal n = All-decimal_loop (suc n) n [] tt
