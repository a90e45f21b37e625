-- ===== src/Vault/Dotenv/Quotes.antt =====
-- Which values the quoted forms of apps/control-plane/src/server/vault/dotenv.ts have.
use keevault.Base.{
  ℕ, true, false, some, [], ◌∷◌, ◌++◌, ◌||◌, ◌==◌, is_empty, if◌then◌else◌, ◌≡◌, refl, ap, ◌∙◌,
  arith, Bool-cases, inl, inr,
}
use keevault.Crypto.Text.{Text}
use keevault.Vault.Dotenv.{
  is_space, trim_start, trim_end, trim, escaped, expand_double_quoted, ends_with, without_last,
  read_quoted, read_trimmed, read_value,
}

-- The text of a value between double quotes: a quote or a backslash behind a backslash.
unfoldable pub quote : Text → Text
quote [] = []
quote (c ∷ t) = let rest = quote t in if c == 34 || c == 92 then 92 ∷ c ∷ rest else c ∷ rest

module _ (opener : ℕ) where
  ends_with-close : (t : Text) → ends_with opener (t ++ opener ∷ []) ≡ true
  unfolding ends_with
  ends_with-close [] = ground arith
  ends_with-close (c ∷ []) = ground arith
  ends_with-close (c ∷ d ∷ t) = ends_with-close (d ∷ t)

  without_last-close : (t : Text) → without_last (t ++ opener ∷ []) ≡ t
  unfolding without_last
  without_last-close [] = refl
  without_last-close (c ∷ []) = refl
  without_last-close (c ∷ d ∷ t) = ap (λ u. c ∷ u) (without_last-close (d ∷ t))

  is_empty-close : (t : Text) → is_empty (t ++ opener ∷ []) ≡ false
  is_empty-close [] = refl
  is_empty-close (c ∷ t) = refl

  trim_end-close :
      (t : Text) → is_space opener ≡ false → trim_end (t ++ opener ∷ []) ≡ t ++ opener ∷ []
  unfolding trim_end
  trim_end-close [] h = rw h refl
  trim_end-close (c ∷ t) h = rw (trim_end-close t h, is_empty-close t) refl

  -- What stands between two quotes is not trimmed.
  trim-quoted :
      (t : Text)
      → is_space opener ≡ false
      → trim (opener ∷ t ++ opener ∷ []) ≡ opener ∷ t ++ opener ∷ []
  unfolding trim trim_start
  trim-quoted t h = rw (trim, trim_start, h) (trim_end-close (opener ∷ t) h)

expand_plain :
    (c : ℕ) (t : Text)
    → (c == 92) ≡ false
    → expand_double_quoted (c ∷ t) ≡ c ∷ expand_double_quoted t
unfolding expand_double_quoted
expand_plain c [] h = refl
expand_plain c (d ∷ t) h = rw (expand_double_quoted, h) refl

expand_escaped :
    (c : ℕ) (t : Text)
    → (c == 34 || c == 92) ≡ true
    → expand_double_quoted (92 ∷ c ∷ t) ≡ c ∷ expand_double_quoted t
unfolding expand_double_quoted escaped
expand_escaped c t h = ground arith

expand-quote : (t : Text) → expand_double_quoted (quote t) ≡ t
unfolding quote expand_double_quoted
expand-quote [] = refl
expand-quote (c ∷ t) = elim (Bool-cases (c == 34 || c == 92)) [
  | inl e ↦ rw e (expand_escaped c (quote t) e ∙ ap (λ u. c ∷ u) (expand-quote t))
  | inr e ↦
      let plain : (c == 92) ≡ false = ground arith in
      rw e (expand_plain c (quote t) plain ∙ ap (λ u. c ∷ u) (expand-quote t))
]

-- A text between single quotes is read as it stands, and one between double quotes, with a backslash
-- before each quote and backslash, is read as the text.
pub read_value-quoted :
    (t : Text)
    → (read_value (39 ∷ t ++ 39 ∷ []) ≡ some t) × (read_value (34 ∷ quote t ++ 34 ∷ []) ≡ some t)
unfolding read_value read_trimmed read_quoted is_space
read_value-quoted t = (
  rw (trim-quoted 39 t refl, ends_with-close 39 t, without_last-close 39 t) refl,
  rw (trim-quoted 34 (quote t) refl, ends_with-close 34 (quote t), without_last-close 34 (quote t))
      (ap (λ u. some u) (expand-quote t)),
)
