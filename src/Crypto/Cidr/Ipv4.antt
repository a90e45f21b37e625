-- ===== src/Crypto/Cidr/Ipv4.antt =====
-- The dotted quads that `parseIpv4` of packages/crypto/src/cidr.ts accepts.
use mathlib.Core.Path.{subst}
use mathlib.Core.Option.{some-injective}
use keevault.Base.{
  ℕ, ◌+◌, ◌*◌, ◌/◌, ◌%◌, ◌<◌, ◌≤◌, true, false, not, Option, none, some, List, [], ◌∷◌, map, ltb,
  ◌==◌, if◌then◌else◌, length, All, ◌≡◌, ◌↔◌, refl, sym, ap, ◌∙◌, arith, ==_iff, Option-cases, inl,
  inr, else-eq-some, length-map,
}
use keevault.Crypto.Text.{
  Text, Bytes, IsByte, codes, get_or, get_or-index_of, holds_below, holds_below-at, same_text,
  same_text-eq, is_value, is_value-eq, starts_with,
}
use keevault.Crypto.Text.Decimal.{decimal, All-decimal, IsDigit}
use keevault.Crypto.Text.Lines.{join_parts, split, Lacks, split-join_parts, join_parts-split}
use keevault.Crypto.Cidr.{
  decimal_digit, next_digit, read_digits, bad_digits, at_most, parse_decimal_octet, push_octet,
  parse_octets, parse_ipv4,
}
use keevault.Crypto.Cidr.Format.{format_ipv4}

octet_table : holds_below 256 (λ v. is_value (parse_decimal_octet (decimal v)) v) ≡ true
unfolding holds_below is_value parse_decimal_octet read_digits decimal_digit decimal
octet_table = refl

-- Each byte's decimal text is read as that byte.
parse_decimal_octet-decimal : (v : ℕ) → v < 256 → parse_decimal_octet (decimal v) ≡ some v
parse_decimal_octet-decimal v h =
    is_value-eq (parse_decimal_octet (decimal v)) v (holds_below-at 256 _ v octet_table h)

abbrev digits_of : ℕ → Text
digits_of v =
    if ltb v 10
    then (b'0' + v) ∷ []
    else if ltb v 100
    then (b'0' + v / 10) ∷ (b'0' + v % 10) ∷ []
    else (b'0' + v / 100) ∷ (b'0' + v / 10 % 10) ∷ (b'0' + v % 10) ∷ []

decimal_table : holds_below 256 (λ v. same_text (digits_of v) (decimal v)) ≡ true
unfolding holds_below same_text decimal
decimal_table = refl

digits_of-eq : (v : ℕ) → v < 256 → digits_of v ≡ decimal v
digits_of-eq v h =
    same_text-eq (digits_of v) (decimal v)
      (holds_below-at 256 (λ v. same_text (digits_of v) (decimal v)) v decimal_table h)

digit_table : holds_below 10 (λ x. get_or (codes "0123456789") x 0 == b'0' + x) ≡ true
unfolding holds_below
digit_table = refl

digit_of_char : (c x : ℕ) → decimal_digit c ≡ some x → (c ≡ b'0' + x) × (x < 10)
unfolding decimal_digit
digit_of_char c x h =
    let (here, inside) = get_or-index_of (codes "0123456789") c x h in
    (
      sym here
          ∙ (==_iff (get_or (codes "0123456789") x 0) (b'0' + x)).0 (
              holds_below-at 10 (λ x. get_or (codes "0123456789") x 0 == b'0' + x) x digit_table
                inside),
      inside,
    )

read_digits-cons :
    (c : ℕ) (t : Text) (a v : ℕ)
    → read_digits (c ∷ t) a ≡ some v
    → (x : ℕ) × (c ≡ b'0' + x) × (x < 10) × (read_digits t (a * 10 + x) ≡ some v)
unfolding read_digits
read_digits-cons c t a v h = elim (Option-cases (decimal_digit c)) [
  | inl e ↦ refuse (subst (λ o. next_digit 10 o a (read_digits t) ≡ some v) e h)
  | inr (x, e) ↦
      let (char, bound) = digit_of_char c x e in
      (x, char, bound, subst (λ o. next_digit 10 o a (read_digits t) ≡ some v) e h)
]
  where
    refuse :
        ◌≡◌ {A = Option ℕ} none (some v)
        → (x : ℕ) × (c ≡ b'0' + x) × (x < 10) × (read_digits t (a * 10 + x) ≡ some v)
    refuse h = cc

read_digits-nil : (a v : ℕ) → read_digits [] a ≡ some v → a ≡ v
unfolding read_digits
read_digits-nil a v h = some-injective _ _ h

at_most-eq-some :
    (limit : ℕ) (o : Option ℕ) (v : ℕ) → at_most limit o ≡ some v → (o ≡ some v) × (v ≤ limit)
at_most-eq-some limit none v h = cc
at_most-eq-some limit (some w) v h = ground arith

-- A text that is read as a number of at most 255 is its decimal text.
decimal_of_digits :
    (t : Text) (v : ℕ) → bad_digits 3 t ≡ false → read_digits t 0 ≡ some v → v < 256 → t ≡ decimal v
unfolding starts_with
decimal_of_digits [] v ok h lt = cc
decimal_of_digits (c ∷ []) v ok h lt =
    let (x, cx, bx, h1) = read_digits-cons c [] 0 v h in
    let value = read_digits-nil (0 * 10 + x) v h1 in
    let text : ◌≡◌ {A = Text} (c ∷ []) (digits_of v) = ground arith in text ∙ digits_of-eq v lt
decimal_of_digits (c ∷ d ∷ []) v ok h lt =
    let (x, cx, bx, h1) = read_digits-cons c (d ∷ []) 0 v h in
    let (y, dy, by, h2) = read_digits-cons d [] (0 * 10 + x) v h1 in
    let value = read_digits-nil ((0 * 10 + x) * 10 + y) v h2 in
    let lead : 0 < x = ground arith in
    let text : ◌≡◌ {A = Text} (c ∷ d ∷ []) (digits_of v) = ground arith in text ∙ digits_of-eq v lt
decimal_of_digits (c ∷ d ∷ e ∷ []) v ok h lt =
    let (x, cx, bx, h1) = read_digits-cons c (d ∷ e ∷ []) 0 v h in
    let (y, dy, by, h2) = read_digits-cons d (e ∷ []) (0 * 10 + x) v h1 in
    let (z, ez, bz, h3) = read_digits-cons e [] ((0 * 10 + x) * 10 + y) v h2 in
    let value = read_digits-nil (((0 * 10 + x) * 10 + y) * 10 + z) v h3 in
    let lead : 0 < x = ground arith in
    let text : ◌≡◌ {A = Text} (c ∷ d ∷ e ∷ []) (digits_of v) = ground arith in
    text ∙ digits_of-eq v lt
decimal_of_digits (c ∷ d ∷ e ∷ f ∷ t) v ok h lt = ground arith

parse_decimal_octet-eq-some :
    (t : Text) (v : ℕ) → parse_decimal_octet t ≡ some v → (t ≡ decimal v) × (v < 256)
unfolding parse_decimal_octet
parse_decimal_octet-eq-some t v h =
    let (shape, value) = else-eq-some (bad_digits 3 t) (at_most 255 (read_digits t 0)) h in
    let (read, small) = at_most-eq-some 255 (read_digits t 0) v value in
    (decimal_of_digits t v shape read (omega arith), omega arith)

parse_octets-decimal :
    (bytes : Bytes) → All IsByte bytes → parse_octets (map decimal bytes) ≡ some bytes
unfolding parse_octets
parse_octets-decimal [] h = refl
parse_octets-decimal (b ∷ bytes) (hb, h) =
    rw (parse_decimal_octet-decimal b hb, parse_octets-decimal bytes h) refl

push_octet-eq-some :
    (o : Option ℕ) (rest : Option Bytes) {bytes : Bytes}
    → push_octet o rest ≡ some bytes
    → (octet : ℕ) × (tail : Bytes) × (o ≡ some octet) × (rest ≡ some tail) × (octet ∷ tail ≡ bytes)
push_octet-eq-some none rest h = cc
push_octet-eq-some (some octet) none h = cc
push_octet-eq-some (some octet) (some tail) h = (octet, tail, refl, refl, some-injective _ _ h)

parse_octets-eq-some :
    (parts : List Text) (bytes : Bytes)
    → parse_octets parts ≡ some bytes
    → (parts ≡ map decimal bytes) × All IsByte bytes
unfolding parse_octets
parse_octets-eq-some [] bytes h =
    subst (λ bs. ([] ≡ map decimal bs) × All IsByte bs) (some-injective _ _ h) (refl, tt)
parse_octets-eq-some (part ∷ parts) bytes h =
    let (octet, tail, e, f, joined) =
      push_octet-eq-some (parse_decimal_octet part) (parse_octets parts) h in
    let (text, small) = parse_decimal_octet-eq-some part octet e in
    let (texts, rest) = parse_octets-eq-some parts tail f in
    subst (λ bs. (◌≡◌ {A = List Text} (part ∷ parts) (map decimal bs)) × All IsByte bs) joined
      (rw (text, texts) refl, (small, rest))

-- The decimal text of a byte has no dot.
decimal-Lacks_dot : (n : ℕ) → Lacks b'.' (decimal n)
decimal-Lacks_dot n = go (decimal n) (All-decimal n)
  where
    go : (t : Text) → All IsDigit t → Lacks b'.' t
    go [] h = tt
    go (c ∷ t) (hc, h) = (ground arith, go t h)

All-Lacks_dot : (bytes : Bytes) → All (Lacks b'.') (map decimal bytes)
All-Lacks_dot [] = tt
All-Lacks_dot (b ∷ bytes) = (decimal-Lacks_dot b, All-Lacks_dot bytes)

split-format :
    (bytes : Bytes)
    → 0 < length bytes
    → split b'.' (join_parts b'.' (map decimal bytes)) ≡ map decimal bytes
split-format [] h = absurd (omega arith)
split-format (b ∷ bytes) h =
    split-join_parts b'.' (decimal b) (map decimal bytes) (decimal-Lacks_dot b)
      (All-Lacks_dot bytes)

not-eq_four : (n : ℕ) → not (n == 4) ≡ false → n ≡ 4
not-eq_four n h = ground arith

-- A text is read as the address `bytes` exactly when it is its dotted quad: four numbers below 256
-- in decimal, with no leading zeros.
pub parse_ipv4_iff :
    (t : Text) (bytes : Bytes)
    → (parse_ipv4 t ≡ some bytes)
      ↔ ((t ≡ format_ipv4 bytes) × (length bytes ≡ 4) × All IsByte bytes)
unfolding parse_ipv4 format_ipv4
parse_ipv4_iff t bytes = (
  λ h.
      let (four, read) =
        else-eq-some (not (length (split b'.' t) == 4)) (parse_octets (split b'.' t)) h in
      let (texts, small) = parse_octets-eq-some (split b'.' t) bytes read in
      (
        sym (join_parts-split b'.' t) ∙ ap (join_parts b'.') texts,
        sym (length-map decimal bytes) ∙ sym (ap length texts) ∙ not-eq_four _ four,
        small,
      ),
  λ (e, size, small).
      let parts = split-format bytes (omega arith) in
      let count : not (length (map decimal bytes) == 4) ≡ false =
        ground (arith, length-map decimal bytes) in
      rw (e, parts, count) (parse_octets-decimal bytes small),
)
