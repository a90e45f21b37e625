-- ===== src/Base/Lists.antt =====
-- Lists measured and searched by the program's tests, under the library's names.
use Prim.Native.Nat.{ℕ, suc, ◌+◌}
use mathlib.Core.Path.{◌≡◌, refl, sym, ap, ◌∙◌}
use mathlib.Core.Bool.{Bool, true, false, ◌&&◌, ◌||◌}
use mathlib.Core.List.{Memᴰ, map, List, [], ◌∷◌, ◌++◌}
use mathlib.Core.Option.{Option, none, some}
use native.Mathlib.Omega.{arith}
use keevault.Base.Tests.{if◌then◌else◌}

module _ {ℓ} {A : Type ℓ} where
  abbrev pub length : List A → ℕ
  length [] = 0
  length (x ∷ xs) = suc (length xs)

  -- `Array.prototype.filter`, `find`, `some` and `every`.
  abbrev pub filter : (A → Bool) → List A → List A
  filter p [] = []
  filter p (x ∷ xs) = let rest = filter p xs in if p x then x ∷ rest else rest

  abbrev pub find : (A → Bool) → List A → Option A
  find p [] = none
  find p (x ∷ xs) = if p x then some x else find p xs

  abbrev pub any : (A → Bool) → List A → Bool
  any p [] = false
  any p (x ∷ xs) = p x || any p xs

  abbrev pub all : (A → Bool) → List A → Bool
  all p [] = true
  all p (x ∷ xs) = p x && all p xs

  -- The number of rows that a `SELECT COUNT(*) … WHERE p` counts.
  abbrev pub count : (A → Bool) → List A → ℕ
  count p xs = length (filter p xs)

  abbrev pub is_empty : List A → Bool
  is_empty [] = true
  is_empty (x ∷ xs) = false

  -- `ORDER BY`, as an insertion sort that keeps the order of ties.
  insert_by : (A → A → Bool) → A → List A → List A
  insert_by le x [] = x ∷ []
  insert_by le x (y ∷ ys) = if le x y then x ∷ y ∷ ys else y ∷ insert_by le x ys

  unfoldable pub sort_by : (A → A → Bool) → List A → List A
  unfolding insert_by
  sort_by le [] = []
  sort_by le (x ∷ xs) = insert_by le x (sort_by le xs)

  pub length-append : (xs ys : List A) → length (xs ++ ys) ≡ length xs + length ys
  length-append [] ys = omega arith
  length-append (x ∷ xs) ys = omega (arith, length-append xs ys)

module _ {ℓ κ} {A : Type ℓ} (P : A → Type κ) where
  abbrev pub All : List A → Type κ
  All [] = Unit
  All (x ∷ xs) = P x × All xs

-- What holds of all rows holds of those that a query returns.
module _ {ℓ κ} {A : Type ℓ} (P : A → Type κ) where
  All-insert_by :
      (le : A → A → Bool) (x : A) (xs : List A) → P x → All P xs → All P (insert_by le x xs)
  unfolding insert_by
  All-insert_by le x [] h rest = (h, tt)
  All-insert_by le x (y ∷ ys) h (g, rest) = go (le x y) (All-insert_by le x ys h rest)
    where
      go :
          (b : Bool)
          → All P (insert_by le x ys)
          → All P (if b then x ∷ y ∷ ys else y ∷ insert_by le x ys)
      go true later = (h, (g, rest))
      go false later = (g, later)

  pub All-sort_by : (le : A → A → Bool) (xs : List A) → All P xs → All P (sort_by le xs)
  unfolding sort_by
  All-sort_by le [] h = tt
  All-sort_by le (x ∷ xs) (h, rest) = All-insert_by le x (sort_by le xs) h (All-sort_by le xs rest)

  -- The rows that a filter keeps also pass its test.
  pub All-filter :
      (p : A → Bool) (xs : List A) → All P xs → All (λ x. P x × (p x ≡ true)) (filter p xs)
  All-filter p [] h = tt
  All-filter p (x ∷ xs) (h, rest) = go (p x) refl (All-filter p xs rest)
    where
      go :
          (b : Bool)
          → p x ≡ b
          → All (λ x. P x × (p x ≡ true)) (filter p xs)
          → All (λ x. P x × (p x ≡ true)) (if b then x ∷ filter p xs else filter p xs)
      go true e kept = ((h, e), kept)
      go false e kept = kept

pub All-map {ℓ κ ι} :
    {A : Type ℓ} {B : Type κ} (P : A → Type ι) (Q : B → Type ι) (f : A → B)
    → ((x : A) → P x → Q (f x))
    → (xs : List A) → All P xs
    → All Q (map f xs)
All-map P Q f g [] h = tt
All-map P Q f g (x ∷ xs) (h, rest) = (g x h, All-map P Q f g xs rest)

pub All-Memᴰ {ℓ κ} :
    {A : Type ℓ} (P : A → Type κ) (xs : List A) → ((x : A) → Memᴰ x xs → P x) → All P xs
All-Memᴰ P [] f = tt
All-Memᴰ P (x ∷ xs) f = (f x (Memᴰ.head refl), All-Memᴰ P xs (λ y m. f y (Memᴰ.tail m)))

pub length-map {ℓ κ} :
    {A : Type ℓ} {B : Type κ} (f : A → B) (xs : List A) → length (map f xs) ≡ length xs
length-map f [] = refl
length-map f (x ∷ xs) = omega (arith, length-map f xs)

-- A test that some element passes.
module _ {ℓ} {A : Type ℓ} (p : A → Bool) where
  pub any-true : (xs : List A) → any p xs ≡ true → (x : A) × Memᴰ x xs × (p x ≡ true)
  any-true [] h = cc
  any-true (x ∷ xs) h = go (p x) refl (any-true xs) h
    where
      go :
          (b : Bool)
          → p x ≡ b
          → (any p xs ≡ true → (y : A) × Memᴰ y xs × (p y ≡ true))
          → (b || any p xs) ≡ true
          → (y : A) × Memᴰ y (x ∷ xs) × (p y ≡ true)
      go true e ih h = (x, Memᴰ.head refl, e)
      go false e ih h = let (y, m, g) = ih h in (y, Memᴰ.tail m, g)

  pub any_of_mem : {x : A} (xs : List A) → Memᴰ x xs → p x ≡ true → any p xs ≡ true
  any_of_mem [] m h = elim m [ ]
  any_of_mem (y ∷ xs) (Memᴰ.head e) h = ground (arith, ap p e)
  any_of_mem (y ∷ xs) (Memᴰ.tail m) h = ground (arith, any_of_mem xs m h)

-- A row that a query's test keeps is among its results.
module _ {ℓ} {A : Type ℓ} where
  Memᴰ-insert_by :
      (le : A → A → Bool) (x y : A) (ys : List A) → Memᴰ x (y ∷ ys) → Memᴰ x (insert_by le y ys)
  unfolding insert_by
  Memᴰ-insert_by le x y [] m = m
  Memᴰ-insert_by le x y (z ∷ zs) m = go (le y z) (λ n. Memᴰ-insert_by le x y zs n) m
    where
      go :
          (b : Bool)
          → (Memᴰ x (y ∷ zs) → Memᴰ x (insert_by le y zs))
          → Memᴰ x (y ∷ z ∷ zs)
          → Memᴰ x (if b then y ∷ z ∷ zs else z ∷ insert_by le y zs)
      go true later m = m
      go false later (Memᴰ.head e) = Memᴰ.tail (later (Memᴰ.head e))
      go false later (Memᴰ.tail (Memᴰ.head e)) = Memᴰ.head e
      go false later (Memᴰ.tail (Memᴰ.tail m)) = Memᴰ.tail (later (Memᴰ.tail m))

  pub Memᴰ-sort_by : (le : A → A → Bool) (x : A) (xs : List A) → Memᴰ x xs → Memᴰ x (sort_by le xs)
  unfolding sort_by
  Memᴰ-sort_by le x [] m = elim m [ ]
  Memᴰ-sort_by le x (y ∷ ys) (Memᴰ.head e) = Memᴰ-insert_by le x y (sort_by le ys) (Memᴰ.head e)
  Memᴰ-sort_by le x (y ∷ ys) (Memᴰ.tail m) =
      Memᴰ-insert_by le x y (sort_by le ys) (Memᴰ.tail (Memᴰ-sort_by le x ys m))

  pub Memᴰ-filter :
      (p : A → Bool) (x : A) (xs : List A) → p x ≡ true → Memᴰ x xs → Memᴰ x (filter p xs)
  Memᴰ-filter p x [] h m = elim m [ ]
  Memᴰ-filter p x (y ∷ ys) h (Memᴰ.head e) = rw (sym (ap p e) ∙ h) (Memᴰ.head e)
  Memᴰ-filter p x (y ∷ ys) h (Memᴰ.tail m) = go (p y) (Memᴰ-filter p x ys h m)
    where
      go : (b : Bool) → Memᴰ x (filter p ys) → Memᴰ x (if b then y ∷ filter p ys else filter p ys)
      go true m = Memᴰ.tail m
      go false m = m
