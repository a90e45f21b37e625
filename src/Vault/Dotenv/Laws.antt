-- ===== src/Vault/Dotenv/Laws.antt =====
-- What the entries are that apps/control-plane/src/server/vault/dotenv.ts reads from a text.
use mathlib.Core.Path.{subst}
use keevault.Base.{
  ℕ, zero, suc, ◌+◌, ◌||◌, is_empty, Bool, true, false, Option, none, some, List, [], ◌∷◌, All,
  if◌then◌else◌, ◌≡◌, refl, sym, ap, ◌∙◌, Bool-cases, inl, inr,
}
use keevault.Crypto.Text.{
  Text, codes, same_text, same_text-eq, same_text_sym, index_of, starts_with, take, drop,
}
use keevault.Vault.Dotenv.{
  DotenvEntry, DotenvParseResult, ProblemReason, LineResult, skipped, problem, assigned,
  secret_name_pattern, read_value, read_assignment, at_separator, without_export, read_trimmed_line,
  read_line, set_entry, after_line, parse_lines, lines_of, parse_dotenv, trim,
}

-- The value of a name, by the entries.
unfoldable pub lookup : Text → List DotenvEntry → Option Text
lookup name [] = none
lookup name (entry ∷ entries) =
    if same_text entry.name name then some entry.value else lookup name entries

-- The value that one line gives a name, and the one that the last line does that gives any.
unfoldable pub assigned_value : Text → LineResult → Option Text
assigned_value name skipped = none
assigned_value name (problem reason shown) = none
assigned_value name (assigned other value) = if same_text other name then some value else none

abbrev pub or_else : Option Text → Option Text → Option Text
or_else none before = before
or_else (some value) before = some value

unfoldable pub last_assigned : Text → List Text → Option Text
unfolding assigned_value
last_assigned name [] = none
last_assigned name (line ∷ lines) =
    or_else (last_assigned name lines) (assigned_value name (read_line line))

or_else_assoc : (a b c : Option Text) → or_else a (or_else b c) ≡ or_else (or_else a b) c
or_else_assoc none b c = refl
or_else_assoc (some a) b c = refl

module _ (name value : Text) where
  -- Setting a name changes its value alone.
  lookup-set_entry :
      (asked : Text) (entries : List DotenvEntry)
      → lookup asked (set_entry name value entries)
        ≡ (if same_text name asked then some value else lookup asked entries)
  unfolding lookup set_entry
  lookup-set_entry asked [] = refl
  lookup-set_entry asked (entry ∷ entries) = elim (Bool-cases (same_text entry.name name)) [
    | inl e ↦
        let same = same_text-eq entry.name name e in
        elim (Bool-cases (same_text name asked)) [
          | inl f ↦ rw (e, f) refl
          | inr f ↦
              let g : same_text entry.name asked ≡ false = ap (λ n. same_text n asked) same ∙ f in
              rw (e, f, g) refl
        ]
    | inr e ↦ elim (Bool-cases (same_text entry.name asked)) [
      | inl g ↦
          let same = same_text-eq entry.name asked g in
          let f : same_text name asked ≡ false =
            sym (ap (λ n. same_text name n) same) ∙ same_text_sym name entry.name ∙ e in
          rw (e, f, g) refl
      | inr g ↦ rw (e, g) (lookup-set_entry asked entries)
    ]
  ]

  -- What holds of the name and of the names that are there holds of all names after.
  All-set_entry {ℓ} :
      (P : Text → Type ℓ) (entries : List DotenvEntry)
      → P name
      → All (λ entry. P entry.name) entries
      → All (λ entry. P entry.name) (set_entry name value entries)
  unfolding set_entry
  All-set_entry P [] h rest = (h, tt)
  All-set_entry P (entry ∷ entries) h (he, rest) = elim (Bool-cases (same_text entry.name name)) [
    | inl e ↦ rw e (h, rest)
    | inr e ↦ rw e (he, All-set_entry P entries h rest)
  ]

-- No two entries have one name.
abbrev pub Distinct : List DotenvEntry → Type 0
Distinct [] = Unit
Distinct (entry ∷ entries) =
    All (λ (other : DotenvEntry). same_text other.name entry.name ≡ false) entries
    × Distinct entries

Distinct-set_entry :
    (name value : Text) (entries : List DotenvEntry)
    → Distinct entries
    → Distinct (set_entry name value entries)
unfolding set_entry
Distinct-set_entry name value [] h = (tt, tt)
Distinct-set_entry name value (entry ∷ entries) (apart, h) =
    elim (Bool-cases (same_text entry.name name)) [
      | inl e ↦
          let same = same_text-eq entry.name name e in
          rw e (
            subst (λ n. All (λ (other : DotenvEntry). same_text other.name n ≡ false) entries) same
                apart,
            h,
          )
      | inr e ↦ rw e (
        All-set_entry name value (λ n. same_text n entry.name ≡ false) entries
            (same_text_sym name entry.name ∙ e) apart,
        Distinct-set_entry name value entries h,
      )
    ]

-- A line assigns valid names only.
abbrev pub IsValid : LineResult → Type 0
IsValid skipped = Unit
IsValid (problem reason name) = Unit
IsValid (assigned name value) = secret_name_pattern name ≡ true

read_assignment-IsValid : (name raw : Text) → IsValid (read_assignment name raw)
unfolding read_assignment
read_assignment-IsValid name raw = elim (Bool-cases (secret_name_pattern name)) [
  | inr e ↦ rw e tt
  | inl e ↦ rw e (go (read_value raw) e)
]
  where
    go :
        (o : Option Text)
        → secret_name_pattern name ≡ true
        → IsValid (elim o [
          | none ↦ problem ProblemReason.unterminated_quote (some name)
          | some value ↦ assigned name value
        ])
    go none e = tt
    go (some value) e = e

at_separator-IsValid : (o : Option ℕ) (t : Text) → IsValid (at_separator o t)
unfolding at_separator
at_separator-IsValid none t = tt
at_separator-IsValid (some zero) t = tt
at_separator-IsValid (some (suc n)) t =
    read_assignment-IsValid (trim (take (suc n) t)) (drop (suc (suc n)) t)

unless-IsValid : (b : Bool) (r : LineResult) → IsValid r → IsValid (if b then skipped else r)
unless-IsValid true r h = tt
unless-IsValid false r h = h

read_line-IsValid : (line : Text) → IsValid (read_line line)
unfolding read_line read_trimmed_line
read_line-IsValid line =
    let trimmed = trim line in
    let assignment = without_export trimmed in
    unless-IsValid (is_empty trimmed || starts_with (codes "#") trimmed)
      (at_separator (index_of assignment b'=') assignment)
      (at_separator-IsValid (index_of assignment b'=') assignment)

-- The result so far has valid and distinct names.
pub record WellFormed (result : DotenvParseResult) : Type 0 where
  pub valid : All (λ (entry : DotenvEntry). secret_name_pattern entry.name ≡ true) result.entries
  pub distinct : Distinct result.entries

after_line-WellFormed :
    (n : ℕ) (r : LineResult) (so_far : DotenvParseResult)
    → IsValid r
    → WellFormed so_far
    → WellFormed (after_line n r so_far)
after_line-WellFormed n skipped so_far h w = w
after_line-WellFormed n (problem reason name) so_far h w = record {
  valid = w.valid;
  distinct = w.distinct;
}
after_line-WellFormed n (assigned name value) so_far h w = record {
  valid = All-set_entry name value (λ t. secret_name_pattern t ≡ true) so_far.entries h w.valid;
  distinct = Distinct-set_entry name value so_far.entries w.distinct;
}

parse_lines-WellFormed :
    (index : ℕ) (lines : List Text) (so_far : DotenvParseResult)
    → WellFormed so_far
    → WellFormed (parse_lines index lines so_far)
unfolding parse_lines
parse_lines-WellFormed index [] so_far w = w
parse_lines-WellFormed index (line ∷ lines) so_far w =
    parse_lines-WellFormed (suc index) lines _
      (after_line-WellFormed (index + 1) (read_line line) so_far (read_line-IsValid line) w)

-- Every name that is read is one of an environment variable, and no name is there twice.
pub parse_dotenv-WellFormed : (text : Text) → WellFormed (parse_dotenv text)
unfolding parse_dotenv
parse_dotenv-WellFormed text =
    parse_lines-WellFormed 0 (lines_of text) _ (record { valid = tt; distinct = tt })

lookup-after_line :
    (asked : Text) (n : ℕ) (r : LineResult) (so_far : DotenvParseResult)
    → lookup asked (after_line n r so_far).entries
      ≡ or_else (assigned_value asked r) (lookup asked so_far.entries)
unfolding assigned_value
lookup-after_line asked n skipped so_far = refl
lookup-after_line asked n (problem reason name) so_far = refl
lookup-after_line asked n (assigned name value) so_far =
    lookup-set_entry name value asked so_far.entries
    ∙ or_else-if (same_text name asked) value (lookup asked so_far.entries)
  where
    or_else-if :
        (b : Bool) (v : Text) (o : Option Text)
        → (if b then some v else o) ≡ or_else (if b then some v else none) o
    or_else-if true v o = refl
    or_else-if false v o = refl

lookup-parse_lines :
    (asked : Text) (index : ℕ) (lines : List Text) (so_far : DotenvParseResult)
    → lookup asked (parse_lines index lines so_far).entries
      ≡ or_else (last_assigned asked lines) (lookup asked so_far.entries)
unfolding parse_lines last_assigned
lookup-parse_lines asked index [] so_far = refl
lookup-parse_lines asked index (line ∷ lines) so_far =
    lookup-parse_lines asked (suc index) lines (after_line (index + 1) (read_line line) so_far)
    ∙ ap (or_else (last_assigned asked lines))
        (lookup-after_line asked (index + 1) (read_line line) so_far)
    ∙ or_else_assoc (last_assigned asked lines) (assigned_value asked (read_line line))
        (lookup asked so_far.entries)

or_else_id_right : (o : Option Text) → or_else o none ≡ o
or_else_id_right none = refl
or_else_id_right (some v) = refl

-- A name has the value that the last line gives it that assigns it, and none if no line does.
pub lookup-parse_dotenv :
    (asked text : Text)
    → lookup asked (parse_dotenv text).entries ≡ last_assigned asked (lines_of text)
unfolding parse_dotenv lookup
lookup-parse_dotenv asked text =
    lookup-parse_lines asked 0 (lines_of text) (record { entries = []; problems = [] })
    ∙ or_else_id_right (last_assigned asked (lines_of text))
