-- ===== src/Crypto/Text/Lines.antt =====
-- `parts.join(separator)` and `text.split(separator)` for a separator of one character.
use keevault.Base.{
  ℕ, false, List, [], ◌∷◌, ◌++◌, ◌==◌, if◌then◌else◌, All, ◌≡◌, refl, sym, ap, ◌∙◌, arith,
  Bool-cases, inl, inr, ==_iff,
}
use keevault.Crypto.Text.{Text}

unfoldable pub join_parts : ℕ → List Text → Text
join_parts separator [] = []
join_parts separator (part ∷ []) = part
join_parts separator (part ∷ next ∷ parts) = part ++ separator ∷ join_parts separator (next ∷ parts)

-- A character in front of the first part.
abbrev pub push_front : ℕ → List Text → List Text
push_front c [] = (c ∷ []) ∷ []
push_front c (part ∷ parts) = (c ∷ part) ∷ parts

unfoldable pub split : ℕ → Text → List Text
split separator [] = [] ∷ []
split separator (c ∷ t) =
    let rest = split separator t in if c == separator then [] ∷ rest else push_front c rest

-- A text without the separator.
abbrev pub Lacks : ℕ → Text → Type 0
Lacks separator t = All (λ c. (c == separator) ≡ false) t

split_single :
    (separator : ℕ) (part : Text) → Lacks separator part → split separator part ≡ part ∷ []
unfolding split
split_single separator [] h = refl
split_single separator (c ∷ part) (hc, h) = rw (hc, split_single separator part h) refl

pub split-append :
    (separator : ℕ) (part t : Text)
    → Lacks separator part
    → split separator (part ++ separator ∷ t) ≡ part ∷ split separator t
unfolding split
split-append separator [] t h = ground arith
split-append separator (c ∷ part) t (hc, h) = rw (hc, split-append separator part t h) refl

-- Splitting undoes joining, for parts without the separator.
pub split-join_parts :
    (separator : ℕ) (part : Text) (parts : List Text)
    → Lacks separator part
    → All (Lacks separator) parts
    → split separator (join_parts separator (part ∷ parts)) ≡ part ∷ parts
unfolding join_parts
split-join_parts separator part [] h hs = split_single separator part h
split-join_parts separator part (next ∷ parts) h (hn, hs) =
    split-append separator part (join_parts separator (next ∷ parts)) h
    ∙ ap (λ ps. part ∷ ps) (split-join_parts separator next parts hn hs)

join_parts-push_front :
    (separator c : ℕ) (parts : List Text)
    → join_parts separator (push_front c parts) ≡ c ∷ join_parts separator parts
unfolding join_parts
join_parts-push_front separator c [] = refl
join_parts-push_front separator c (part ∷ []) = refl
join_parts-push_front separator c (part ∷ next ∷ parts) = refl

push_front_parts :
    (c : ℕ) (ps : List Text)
    → (part : Text) × (parts : List Text) × (push_front c ps ≡ part ∷ parts)
push_front_parts c [] = (c ∷ [], [], refl)
push_front_parts c (p ∷ ps) = (c ∷ p, ps, refl)

split_parts :
    (separator : ℕ) (t : Text)
    → (part : Text) × (parts : List Text) × (split separator t ≡ part ∷ parts)
unfolding split
split_parts separator [] = ([], [], refl)
split_parts separator (c ∷ t) = elim (Bool-cases (c == separator)) [
  | inl e ↦ ([], split separator t, rw e refl)
  | inr e ↦ rw e (push_front_parts c (split separator t))
]

-- Joining undoes splitting.
pub join_parts-split : (separator : ℕ) (t : Text) → join_parts separator (split separator t) ≡ t
unfolding split join_parts
join_parts-split separator [] = refl
join_parts-split separator (c ∷ t) =
    let (part, parts, e) = split_parts separator t in
    let ih = join_parts-split separator t in
    elim (Bool-cases (c == separator)) [
      | inl same ↦
          rw (same, e)
            (ap (λ u. separator ∷ u) (sym (ap (join_parts separator) e) ∙ ih)
              ∙ ap (λ d. d ∷ t) (sym ((==_iff c separator).0 same)))
      | inr other ↦
          rw other (join_parts-push_front separator c (split separator t) ∙ ap (λ u. c ∷ u) ih)
    ]

pub Lacks-append :
    (separator : ℕ) (s t : Text) → Lacks separator s → Lacks separator t → Lacks separator (s ++ t)
Lacks-append separator [] t hs ht = ht
Lacks-append separator (c ∷ s) t (hc, hs) ht = (hc, Lacks-append separator s t hs ht)
