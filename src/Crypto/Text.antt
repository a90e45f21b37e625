-- ===== src/Crypto/Text.antt =====
-- Texts as the lists of their code units, for the code of packages/crypto/src that walks them, and
-- what JavaScript's `String` does on them.
pub mod Decimal
pub mod Lines
use Prim.Native.Char.{Char, char, code, IsScalar}
use Prim.Native.Nat.{compare, Ordering}
use mathlib.Core.Logic.{dite}
use mathlib.Core.Option
use native.Mathlib.Decide.{dec_lt}
use keevault.Base.{
  ℕ, zero, suc, String, Bool, true, false, Option, none, some, List, [], ◌∷◌, ◌==◌, ◌++◌, ◌&&◌, inl,
  inr, if◌then◌else◌, arith, ◌≡◌, ◌<◌, ==_iff, Bool-cases, length, all, ap, refl, All,
}

abbrev pub Text : Type 0
Text = List ℕ

abbrev pub Bytes : Type 0
Bytes = List ℕ

abbrev pub IsByte : ℕ → Type 0
IsByte b = b < 256

abbrev pub codes : String → Text
codes String.[] = []
codes (String.◌∷◌ c s) = code c ∷ codes s

IsScalar_of_lt : (n : ℕ) → n < 128 → IsScalar n
IsScalar_of_lt n h = let e : compare n 55296 ≡ Ordering.lt = ground arith in rw e tt

-- `String.fromCharCode` of an ASCII code; another one is replaced by U+FFFD.
from_code : ℕ → Char
from_code n = dite (dec_lt n 128) (λ h. char n (IsScalar_of_lt n h)) (λ _. char 0xfffd tt)

unfoldable pub from_codes : Text → String
unfolding from_code IsScalar_of_lt
from_codes [] = String.[]
from_codes (c ∷ t) = String.◌∷◌ (from_code c) (from_codes t)

code-from_code : (c : ℕ) → c < 128 → code (from_code c) ≡ c
unfolding from_code
code-from_code c h = go (dec_lt c 128)
  where
    go :
        (d : Dec (c < 128))
        → code (dite d (λ p. char c (IsScalar_of_lt c p)) (λ _. char 0xfffd tt)) ≡ c
    go (yes p) = refl
    go (no n) = absurd (n h)

-- An ASCII text is in its string.
pub codes-from_codes : (t : Text) → All (λ c. c < 128) t → codes (from_codes t) ≡ t
unfolding from_codes
codes-from_codes [] h = refl
codes-from_codes (c ∷ t) (hc, h) = rw (code-from_code c hc, codes-from_codes t h) refl

module _ {ℓ} {A : Type ℓ} where
  abbrev pub get_or : List A → ℕ → A → A
  get_or [] i d = d
  get_or (x ∷ xs) zero d = x
  get_or (x ∷ xs) (suc i) d = get_or xs i d

-- `alphabet.indexOf(character)`, or the value of a `Map` from the characters to their indices.
unfoldable pub index_of : Text → ℕ → Option ℕ
index_of [] c = none
index_of (x ∷ xs) c = if x == c then some 0 else Option.map suc (index_of xs c)

-- A character that is found stands at its index.
pub get_or-index_of :
    (alphabet : Text) (c i : ℕ)
    → index_of alphabet c ≡ some i
    → (get_or alphabet i 0 ≡ c) × (i < length alphabet)
unfolding index_of
get_or-index_of [] c i h = cc
get_or-index_of (x ∷ xs) c zero h = elim (Bool-cases (x == c)) [
  | inl e ↦ ((==_iff x c).0 e, omega arith)
  | inr e ↦ ground (arith, get_or-index_of xs c)
]
get_or-index_of (x ∷ xs) c (suc i) h = ground (arith, get_or-index_of xs c i)

-- Over a small range, check every value by evaluation.
unfoldable pub holds_below : ℕ → (ℕ → Bool) → Bool
holds_below zero test = true
holds_below (suc bound) test = holds_below bound test && test bound

pub holds_below-at :
    (bound : ℕ) (test : ℕ → Bool) (at : ℕ)
    → holds_below bound test ≡ true
    → at < bound
    → test at ≡ true
unfolding holds_below
holds_below-at zero test at checked below = absurd (omega arith)
holds_below-at (suc bound) test at checked below = ground (arith, holds_below-at bound test at)

-- `===` of two texts.
unfoldable pub same_text : Text → Text → Bool
same_text [] [] = true
same_text [] (d ∷ t) = false
same_text (c ∷ s) [] = false
same_text (c ∷ s) (d ∷ t) = c == d && same_text s t

pub same_text-eq : (s t : Text) → same_text s t ≡ true → s ≡ t
unfolding same_text
same_text-eq [] [] h = refl
same_text-eq [] (d ∷ t) h = cc
same_text-eq (c ∷ s) [] h = cc
same_text-eq (c ∷ s) (d ∷ t) h = ground (arith, same_text-eq s t)

pub same_text_refl : (t : Text) → same_text t t ≡ true
unfolding same_text
same_text_refl [] = refl
same_text_refl (c ∷ t) = ground (arith, same_text_refl t)

pub same_text_sym : (s t : Text) → same_text s t ≡ same_text t s
unfolding same_text
same_text_sym [] [] = refl
same_text_sym [] (d ∷ t) = refl
same_text_sym (c ∷ s) [] = refl
same_text_sym (c ∷ s) (d ∷ t) = ground (arith, same_text_sym s t)

-- A test of the value that a table lookup finds.
unfoldable pub is_value : Option ℕ → ℕ → Bool
is_value none v = false
is_value (some w) v = w == v

pub is_value-eq : (o : Option ℕ) (v : ℕ) → is_value o v ≡ true → o ≡ some v
unfolding is_value
is_value-eq none v h = cc
is_value-eq (some w) v h = ground arith

-- `text.startsWith(prefix)` and `text.slice(n)`.
unfoldable pub starts_with : Text → Text → Bool
starts_with [] t = true
starts_with (c ∷ prefix) [] = false
starts_with (c ∷ prefix) (d ∷ t) = c == d && starts_with prefix t

module _ {ℓ} {A : Type ℓ} where
  abbrev pub drop : ℕ → List A → List A
  drop zero t = t
  drop (suc n) [] = []
  drop (suc n) (x ∷ t) = drop n t

  abbrev pub take : ℕ → List A → List A
  take zero t = []
  take (suc n) [] = []
  take (suc n) (x ∷ t) = x ∷ take n t

  pub take-append : (xs ys : List A) → take (length xs) (xs ++ ys) ≡ xs
  take-append [] ys = refl
  take-append (x ∷ xs) ys = ap (λ t. x ∷ t) (take-append xs ys)

  pub drop-append : (xs ys : List A) → drop (length xs) (xs ++ ys) ≡ ys
  drop-append [] ys = refl
  drop-append (x ∷ xs) ys = drop-append xs ys

pub starts_with-append : (prefix t : Text) → starts_with prefix (prefix ++ t) ≡ true
unfolding starts_with
starts_with-append [] t = refl
starts_with-append (c ∷ prefix) t = ground (arith, starts_with-append prefix t)

pub all-append :
    (p : ℕ → Bool) (xs ys : Text) → all p xs ≡ true → all p ys ≡ true → all p (xs ++ ys) ≡ true
all-append p [] ys hx hy = hy
all-append p (x ∷ xs) ys hx hy = ground (arith, all-append p xs ys)

pub take-append-drop {ℓ} : {A : Type ℓ} (n : ℕ) (t : List A) → take n t ++ drop n t ≡ t
take-append-drop zero t = refl
take-append-drop (suc n) [] = refl
take-append-drop (suc n) (x ∷ t) = ap (λ u. x ∷ u) (take-append-drop n t)

-- A text that starts with a prefix is the prefix and what follows it.
pub starts_with-split :
    (prefix t : Text) → starts_with prefix t ≡ true → t ≡ prefix ++ drop (length prefix) t
unfolding starts_with
starts_with-split [] t h = refl
starts_with-split (c ∷ prefix) [] h = cc
starts_with-split (c ∷ prefix) (d ∷ t) h = ground (arith, starts_with-split prefix t)
