-- ===== src/Crypto/Ulid/Laws.antt =====
-- What the identifiers of packages/crypto/src/ulid.ts are made of, read back by Crockford's digits.
use mathlib.Core.Path.{subst}
use mathlib.Core.List.{append_assoc}
use keevault.Base.{
  ℕ, zero, suc, ◌+◌, ◌*◌, ◌/◌, ◌%◌, ◌^◌, ◌<◌, true, Option, none, some, [], ◌∷◌, ◌++◌, length, all,
  All, ◌≡◌, refl, sym, ◌∙◌, arith, length-append,
}
use keevault.Crypto.Text.{
  Text, Bytes, IsByte, index_of, holds_below, holds_below-at, is_value, is_value-eq, drop, take,
  take-append, drop-append, starts_with-append, all-append,
}
use keevault.Crypto.Ulid.{
  crockford, crockford_char, is_crockford, encode_loop, encode_crockford, random_value,
  generate_ulid, generate_prefixed_ulid, is_ulid, is_prefixed_ulid,
}

-- The number that a text of Crockford digits stands for.
abbrev pub read_digit : Option ℕ → ℕ → (ℕ → Option ℕ) → Option ℕ
read_digit none so_far rest = none
read_digit (some v) so_far rest = rest (so_far * 32 + v)

pub crockford_value : ℕ → Option ℕ
crockford_value c = index_of crockford c

unfoldable pub read_crockford : Text → ℕ → Option ℕ
read_crockford [] so_far = some so_far
read_crockford (c ∷ t) so_far = read_digit (crockford_value c) so_far (read_crockford t)

value_table : holds_below 32 (λ v. is_value (crockford_value (crockford_char v)) v) ≡ true
unfolding holds_below is_value crockford_value crockford_char index_of
value_table = refl

crockford_value-crockford_char : (v : ℕ) → v < 32 → crockford_value (crockford_char v) ≡ some v
crockford_value-crockford_char v h =
    is_value-eq (crockford_value (crockford_char v)) v (holds_below-at 32 _ v value_table h)

char_table : holds_below 32 (λ v. is_crockford (crockford_char v)) ≡ true
unfolding holds_below is_crockford crockford_char
char_table = refl

is_crockford-crockford_char : (v : ℕ) → v < 32 → is_crockford (crockford_char v) ≡ true
is_crockford-crockford_char v h = holds_below-at 32 _ v char_table h

length-encode_loop :
    (value rounds : ℕ) (out : Text) → length (encode_loop value rounds out) ≡ rounds + length out
unfolding encode_loop
length-encode_loop value zero out = omega arith
length-encode_loop value (suc rounds) out =
    omega (arith, length-encode_loop (value / 32) rounds (crockford_char (value % 32) ∷ out))

all-encode_loop :
    (value rounds : ℕ) (out : Text)
    → all is_crockford out ≡ true
    → all is_crockford (encode_loop value rounds out) ≡ true
unfolding encode_loop
all-encode_loop value zero out h = h
all-encode_loop value (suc rounds) out h =
    all-encode_loop (value / 32) rounds (crockford_char (value % 32) ∷ out)
      (rw (is_crockford-crockford_char (value % 32) (omega arith)) h)

-- The loop's digits, then those that stood in `out`.
read-encode_loop :
    (rounds value : ℕ) (out : Text)
    → value < 32 ^ rounds
    → read_crockford (encode_loop value rounds out) 0 ≡ read_crockford out value
unfolding encode_loop read_crockford
read-encode_loop zero value out h = let e : value ≡ 0 = omega arith in rw e refl
read-encode_loop (suc rounds) value out h =
    let bound : value / 32 < 32 ^ rounds = omega arith in
    let joined : value / 32 * 32 + value % 32 ≡ value = omega arith in
    read-encode_loop rounds (value / 32) (crockford_char (value % 32) ∷ out) bound
    ∙ rw (crockford_value-crockford_char (value % 32) (omega arith), joined) refl

random_value-lt :
    (random : Bytes) (so_far n : ℕ)
    → All IsByte random
    → so_far < 256 ^ n
    → random_value random so_far < 256 ^ (length random + n)
unfolding random_value
random_value-lt [] so_far n h lt =
    subst (λ k. so_far < 256 ^ k) (let e : n ≡ 0 + n = omega arith in e) lt
random_value-lt (byte ∷ random) so_far n (hb, h) lt =
    let wider : so_far * 256 + byte < 256 ^ suc n = omega arith in
    let sizes : length random + suc n ≡ suc (length random) + n = omega arith in
    subst (λ k. random_value random (so_far * 256 + byte) < 256 ^ k) sizes
      (random_value-lt random (so_far * 256 + byte) (suc n) h wider)

read-encode_crockford :
    (value n : ℕ) → value < 32 ^ n → read_crockford (encode_crockford value n) 0 ≡ some value
unfolding encode_crockford read_crockford
read-encode_crockford value n h = read-encode_loop n value [] h

length-encode_crockford : (value n : ℕ) → length (encode_crockford value n) ≡ n
unfolding encode_crockford
length-encode_crockford value n = omega (arith, length-encode_loop value n [])

all-encode_crockford : (value n : ℕ) → all is_crockford (encode_crockford value n) ≡ true
unfolding encode_crockford
all-encode_crockford value n = all-encode_loop value n [] refl

-- The first ten characters of an identifier read as the time, the other sixteen as the random bytes.
pub read-generate_ulid :
    (now : ℕ) (random : Bytes)
    → length random ≡ 10
    → All IsByte random
    → (read_crockford (take 10 (generate_ulid now random)) 0 ≡ some (now % 2 ^ 48))
      × (read_crockford (drop 10 (generate_ulid now random)) 0 ≡ some (random_value random 0))
unfolding generate_ulid
read-generate_ulid now random size bytes =
    let time = encode_crockford (now % 2 ^ 48) 10 in
    let rest = encode_crockford (random_value random 0) 16 in
    let ten = length-encode_crockford (now % 2 ^ 48) 10 in
    let wide : random_value random 0 < 256 ^ (length random + 0) =
      random_value-lt random 0 0 bytes (omega arith) in
    let bound : random_value random 0 < 32 ^ 16 =
      subst (λ k. random_value random 0 < 256 ^ k)
        (let e : length random + 0 ≡ 10 = omega arith in e) wide in
    (
      subst (λ k. read_crockford (take k (time ++ rest)) 0 ≡ some (now % 2 ^ 48)) ten
          (rw (take-append time rest) (read-encode_crockford (now % 2 ^ 48) 10 (omega arith))),
      subst (λ k. read_crockford (drop k (time ++ rest)) 0 ≡ some (random_value random 0)) ten
          (rw (drop-append time rest) (read-encode_crockford (random_value random 0) 16 bound)),
    )

-- Every generated identifier has the form of one.
pub is_ulid-generate_ulid : (now : ℕ) (random : Bytes) → is_ulid (generate_ulid now random) ≡ true
unfolding is_ulid generate_ulid
is_ulid-generate_ulid now random =
    let time = encode_crockford (now % 2 ^ 48) 10 in
    let rest = encode_crockford (random_value random 0) 16 in
    ground (
      arith,
      length-append time rest,
      length-encode_crockford (now % 2 ^ 48) 10,
      length-encode_crockford (random_value random 0) 16,
      all-append is_crockford time rest (all-encode_crockford (now % 2 ^ 48) 10)
          (all-encode_crockford (random_value random 0) 16),
    )

append_mark : (prefix rest : Text) → prefix ++ b'_' ∷ rest ≡ (prefix ++ b'_' ∷ []) ++ rest
append_mark prefix rest = sym (append_assoc prefix (b'_' ∷ []) rest)

-- A prefixed identifier is one of its prefix.
pub is_prefixed_ulid-generate_prefixed_ulid :
    (prefix : Text) (now : ℕ) (random : Bytes)
    → is_prefixed_ulid prefix (generate_prefixed_ulid prefix now random) ≡ true
unfolding is_prefixed_ulid generate_prefixed_ulid
is_prefixed_ulid-generate_prefixed_ulid prefix now random =
    let marker = prefix ++ b'_' ∷ [] in
    let id = generate_ulid now random in
    rw (append_mark prefix id, starts_with-append marker id, drop-append marker id)
      (is_ulid-generate_ulid now random)
