-- ===== src/Base/Tests.antt =====
-- Boolean tests on the native numbers and on texts, and the conditional.
use Prim.Native.Nat.{ℕ, zero, suc, ◌≤◌, ◌<◌, compare, Ordering}
use Prim.Native.String.{String, compare as text_compare}
use mathlib.Core.Path.{◌≡◌, refl, subst}
use mathlib.Core.Logic.{◌↔◌, ◌⊎◌, inl, inr}
use mathlib.Core.Bool.{Bool, true, false, ◌&&◌}
use mathlib.Core.Option.{Option, none, some, some-injective}
use native.Mathlib.Omega.{arith}
use text.Mathlib.Text.{◌==◌ as text_eq, is_le}
use text.Mathlib.TextEquality.{eq_iff}

abbrev pub ltb : ℕ → ℕ → Bool
ltb a b = elim (compare a b) [ Ordering.lt ↦ true | _ ↦ false ]

abbrev pub leb : ℕ → ℕ → Bool
leb a b = elim (compare a b) [ Ordering.gt ↦ false | _ ↦ true ]

infix 50 ◌==◌
abbrev pub ◌==◌ : ℕ → ℕ → Bool
a == b = elim (compare a b) [ Ordering.eq ↦ true | _ ↦ false ]

infix 1 if◌then◌else◌
abbrev pub if◌then◌else◌ {ℓ} : {A : Type ℓ} → Bool → A → A → A
if true then x else y = x
if false then x else y = y

-- `===` on texts. It stays shut in proofs; `str_eq_iff` says what it decides.
unfoldable pub str_eq : String → String → Bool
str_eq s t = text_eq s t

-- The order of SQLite's BINARY collation: that of the UTF-8 bytes.
pub str_le : String → String → Bool
str_le s t = is_le (text_compare s t)

-- `message.slice(0, n)`.
unfoldable pub take_text : ℕ → String → String
take_text zero s = String.[]
take_text (suc n) String.[] = String.[]
take_text (suc n) (String.◌∷◌ c s) = String.◌∷◌ c (take_text n s)

pub str_eq_iff : (s t : String) → (str_eq s t ≡ true) ↔ (s ≡ t)
unfolding str_eq
str_eq_iff = eq_iff

pub str_eq_refl : (s : String) → str_eq s s ≡ true
str_eq_refl s = (str_eq_iff s s).1 refl

pub leb→le : (a b : ℕ) → leb a b ≡ true → a ≤ b
leb→le a b h = ground arith

pub ltb→lt : (a b : ℕ) → ltb a b ≡ true → a < b
ltb→lt a b h = ground arith

pub ==_iff : (a b : ℕ) → ((a == b) ≡ true) ↔ (a ≡ b)
==_iff a b = ground arith

pub Bool-cases : (b : Bool) → (b ≡ true) ⊎ (b ≡ false)
Bool-cases true = inl refl
Bool-cases false = inr refl

pub Option-cases {ℓ} : {A : Type ℓ} (o : Option A) → (o ≡ none) ⊎ ((a : A) × (o ≡ some a))
Option-cases none = inl refl
Option-cases (some a) = inr (a, refl)

-- Both parts of a conjunction that holds.
pub &&-split : (a b : Bool) → (a && b) ≡ true → (a ≡ true) × (b ≡ true)
&&-split true b h = (refl, h)
&&-split false b h = cc

-- A test that was passed on the way to a result.
pub if-eq-some {ℓ} :
    {A : Type ℓ} (b : Bool) (x y : A) → (if b then some x else none) ≡ some y → (b ≡ true) × (x ≡ y)
if-eq-some true x y h = (refl, some-injective _ _ h)
if-eq-some false x y h = cc

pub six_parts :
    (a b c d e f : Bool)
    → (a && b && c && d && e && f) ≡ true
    → (a ≡ true) × (b ≡ true) × (c ≡ true) × (d ≡ true) × (e ≡ true) × (f ≡ true)
six_parts a b c d e f h =
    let (h5, hf) = &&-split (a && b && c && d && e) f h in
    let (h4, he) = &&-split (a && b && c && d) e h5 in
    let (h3, hd) = &&-split (a && b && c) d h4 in
    let (h2, hc) = &&-split (a && b) c h3 in
    let (ha, hb) = &&-split a b h2 in (ha, hb, hc, hd, he, hf)

-- A test that was not met on the way to a result.
pub else-eq-some {ℓ} :
    {A : Type ℓ} (b : Bool) (o : Option A) {y : A}
    → (if b then none else o) ≡ some y
    → (b ≡ false) × (o ≡ some y)
else-eq-some true o h = cc
else-eq-some false o h = (refl, h)

-- The branch that was taken.
module _ {ℓ} {A : Type ℓ} (b : Bool) (x y : A) {z : A} where
  pub then-eq : b ≡ true → (if b then x else y) ≡ z → x ≡ z
  then-eq e h = subst (λ c. (if c then x else y) ≡ z) e h

  pub else-eq : b ≡ false → (if b then x else y) ≡ z → y ≡ z
  else-eq e h = subst (λ c. (if c then x else y) ≡ z) e h
