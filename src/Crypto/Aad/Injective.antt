-- ===== src/Crypto/Aad/Injective.antt =====
-- What a canonical string of packages/crypto/src/aad.ts determines.
use mathlib.Core.Option.{some-injective}
use keevault.Base.{
  ℕ, false, Option, none, some, List, [], ◌∷◌, ◌==◌, leb, All, ◌≡◌, refl, sym, ap, ◌∙◌, arith,
  if-eq-some, any, map,
}
use keevault.Crypto.Text.{Text, codes}
use keevault.Crypto.Text.Decimal.{decimal, decimal-injective, All-decimal, IsDigit}
use keevault.Crypto.Text.Lines.{join_parts, split, Lacks, split-join_parts, Lacks-append}
use keevault.Crypto.Aad.{
  newline, max_safe_integer, ◌>>=◌, canonical_integer, field, ProjectKeyAadInput, project_key_aad,
  EnvironmentKeyAadInput, environment_key_aad, SecretValueAadInput, secret_value_aad,
  BootEnvelopeInfoInput, boot_envelope_info,
}

-- The four kinds of canonical strings.
pub data AadInput : Type 0 where
  project_key : ProjectKeyAadInput → AadInput
  environment_key : EnvironmentKeyAadInput → AadInput
  secret_value : SecretValueAadInput → AadInput
  boot_envelope : BootEnvelopeInfoInput → AadInput

unfoldable pub canonical : AadInput → Option Text
canonical (project_key i) = project_key_aad i
canonical (environment_key i) = environment_key_aad i
canonical (secret_value i) = secret_value_aad i
canonical (boot_envelope i) = boot_envelope_info i

abbrev pub SingleLine : Text → Type 0
SingleLine t = Lacks newline t

-- No text among the fields has a line break, as the identifiers, names and fingerprints have none.
abbrev pub IsSingleLine : AadInput → Type 0
IsSingleLine (project_key i) = SingleLine i.project_id
IsSingleLine (environment_key i) = SingleLine i.project_id × SingleLine i.environment_id
IsSingleLine (secret_value i) =
    SingleLine i.project_id
    × SingleLine i.environment_id
    × SingleLine i.secret_id
    × SingleLine i.secret_name
IsSingleLine (boot_envelope i) =
    SingleLine i.boot_id
    × SingleLine i.environment_id
    × SingleLine i.client_public_key_fingerprint
    × SingleLine i.server_public_key_fingerprint

abbrev head_line : AadInput → Text
head_line (project_key i) = codes "vault:project-key:v1"
head_line (environment_key i) = codes "vault:environment-key:v1"
head_line (secret_value i) = codes "vault:secret:v1"
head_line (boot_envelope i) = codes "vault:boot-envelope:v1"

-- The lines after the first, as names and values.
abbrev fields : AadInput → List (Text × Text)
fields (project_key i) =
    (codes "project=", i.project_id)
    ∷ (codes "version=", decimal i.project_key_version)
    ∷ (codes "master=", decimal i.master_key_version)
    ∷ []
fields (environment_key i) =
    (codes "project=", i.project_id)
    ∷ (codes "environment=", i.environment_id)
    ∷ (codes "version=", decimal i.environment_key_version)
    ∷ (codes "project_key_version=", decimal i.project_key_version)
    ∷ []
fields (secret_value i) =
    (codes "project=", i.project_id)
    ∷ (codes "environment=", i.environment_id)
    ∷ (codes "secret=", i.secret_id)
    ∷ (codes "name=", i.secret_name)
    ∷ (codes "version=", decimal i.secret_version)
    ∷ (codes "env_key_version=", decimal i.environment_key_version)
    ∷ []
fields (boot_envelope i) =
    (codes "boot=", i.boot_id)
    ∷ (codes "environment=", i.environment_id)
    ∷ (codes "env_key_version=", decimal i.environment_key_version)
    ∷ (codes "client=", i.client_public_key_fingerprint)
    ∷ (codes "server=", i.server_public_key_fingerprint)
    ∷ []

abbrev line : Text × Text → Text
line f = field f.0 f.1

abbrev lines : AadInput → List Text
lines input = head_line input ∷ map line (fields input)

canonical_integer-eq-some : (n : ℕ) {t : Text} → canonical_integer n ≡ some t → t ≡ decimal n
unfolding canonical_integer
canonical_integer-eq-some n h = sym (if-eq-some (leb n max_safe_integer) (decimal n) _ h).1

>>=-eq-some {ℓ κ} :
    {A : Type ℓ} {B : Type κ} (o : Option A) (f : A → Option B) {b : B}
    → (o >>= f) ≡ some b
    → (a : A) × (o ≡ some a) × (f a ≡ some b)
>>=-eq-some none f h = cc
>>=-eq-some (some a) f h = (a, refl, h)

one_version :
    (n : ℕ) (f : Text → Text) {b : Text}
    → (canonical_integer n >>= λ t. some (f t)) ≡ some b
    → b ≡ f (decimal n)
one_version n f h =
    let (t, e, g) = >>=-eq-some (canonical_integer n) (λ t. some (f t)) h in
    sym (some-injective _ _ g) ∙ ap f (canonical_integer-eq-some n e)

two_versions :
    (m n : ℕ) (f : Text → Text → Text) {b : Text}
    → (canonical_integer m >>= λ s. canonical_integer n >>= λ t. some (f s t)) ≡ some b
    → b ≡ f (decimal m) (decimal n)
two_versions m n f h =
    let (s, e, g) =
      >>=-eq-some (canonical_integer m) (λ s. canonical_integer n >>= λ t. some (f s t)) h in
    one_version n (f s) g ∙ ap (λ u. f u (decimal n)) (canonical_integer-eq-some m e)

canonical-eq-some :
    (input : AadInput) {t : Text} → canonical input ≡ some t → t ≡ join_parts newline (lines input)
unfolding canonical project_key_aad environment_key_aad secret_value_aad boot_envelope_info
canonical-eq-some (project_key i) h = two_versions i.project_key_version i.master_key_version _ h
canonical-eq-some (environment_key i) h =
    two_versions i.environment_key_version i.project_key_version _ h
canonical-eq-some (secret_value i) h = two_versions i.secret_version i.environment_key_version _ h
canonical-eq-some (boot_envelope i) h = one_version i.environment_key_version _ h

pub Lacks_of_none : (t : Text) → any (λ c. c == newline) t ≡ false → SingleLine t
Lacks_of_none [] h = tt
Lacks_of_none (c ∷ t) h = (ground arith, Lacks_of_none t (ground arith))

digits-SingleLine : (t : Text) → All IsDigit t → SingleLine t
digits-SingleLine [] h = tt
digits-SingleLine (c ∷ t) (hc, h) = (ground arith, digits-SingleLine t h)

decimal-SingleLine : (n : ℕ) → SingleLine (decimal n)
decimal-SingleLine n = digits-SingleLine (decimal n) (All-decimal n)

-- The names have no line break, which is read off, and the values have none.
lines-SingleLine :
    (fs : List (Text × Text))
    → All (λ f. any (λ c. c == newline) f.0 ≡ false) fs
    → All (λ f. SingleLine f.1) fs
    → All SingleLine (map line fs)
lines-SingleLine [] hn hv = tt
lines-SingleLine (f ∷ fs) (hn, hns) (hv, hvs) =
    (Lacks-append newline f.0 f.1 (Lacks_of_none f.0 hn) hv, lines-SingleLine fs hns hvs)

fields-SingleLine :
    (input : AadInput) → IsSingleLine input → All SingleLine (map line (fields input))
fields-SingleLine (project_key i) p =
    lines-SingleLine (fields (project_key i)) (refl, (refl, (refl, tt)))
      (p, (decimal-SingleLine i.project_key_version, (decimal-SingleLine i.master_key_version, tt)))
fields-SingleLine (environment_key i) (p, e) =
    lines-SingleLine (fields (environment_key i)) (refl, (refl, (refl, (refl, tt))))
      (
        p,
        (
          e,
          (
            decimal-SingleLine i.environment_key_version,
            (decimal-SingleLine i.project_key_version, tt),
          ),
        ),
      )
fields-SingleLine (secret_value i) (p, e, s, n) =
    lines-SingleLine (fields (secret_value i)) (refl, (refl, (refl, (refl, (refl, (refl, tt))))))
      (
        p,
        (
          e,
          (
            s,
            (
              n,
              (
                decimal-SingleLine i.secret_version,
                (decimal-SingleLine i.environment_key_version, tt),
              ),
            ),
          ),
        ),
      )
fields-SingleLine (boot_envelope i) (b, e, c, s) =
    lines-SingleLine (fields (boot_envelope i)) (refl, (refl, (refl, (refl, (refl, tt)))))
      (b, (e, (decimal-SingleLine i.environment_key_version, (c, (s, tt)))))

head_line-SingleLine : (input : AadInput) → SingleLine (head_line input)
head_line-SingleLine (project_key i) = Lacks_of_none (head_line (project_key i)) refl
head_line-SingleLine (environment_key i) = Lacks_of_none (head_line (environment_key i)) refl
head_line-SingleLine (secret_value i) = Lacks_of_none (head_line (secret_value i)) refl
head_line-SingleLine (boot_envelope i) = Lacks_of_none (head_line (boot_envelope i)) refl

canonical-lines :
    (input : AadInput) {t : Text}
    → IsSingleLine input
    → canonical input ≡ some t
    → split newline t ≡ lines input
canonical-lines input single h =
    ap (split newline) (canonical-eq-some input h)
    ∙ split-join_parts newline (head_line input) (map line (fields input))
        (head_line-SingleLine input) (fields-SingleLine input single)

-- The lines determine the kind and each field.
lines-injective : (a b : AadInput) → lines a ≡ lines b → a ≡ b
lines-injective (project_key i) (project_key j) h =
    let version : decimal i.project_key_version ≡ decimal j.project_key_version = cc in
    let master : decimal i.master_key_version ≡ decimal j.master_key_version = cc in
    cc (decimal-injective version, decimal-injective master)
lines-injective (project_key i) (environment_key j) h = cc
lines-injective (project_key i) (secret_value j) h = cc
lines-injective (project_key i) (boot_envelope j) h = cc
lines-injective (environment_key i) (project_key j) h = cc
lines-injective (environment_key i) (environment_key j) h =
    let version : decimal i.environment_key_version ≡ decimal j.environment_key_version = cc in
    let project_version : decimal i.project_key_version ≡ decimal j.project_key_version = cc in
    cc (decimal-injective version, decimal-injective project_version)
lines-injective (environment_key i) (secret_value j) h = cc
lines-injective (environment_key i) (boot_envelope j) h = cc
lines-injective (secret_value i) (project_key j) h = cc
lines-injective (secret_value i) (environment_key j) h = cc
lines-injective (secret_value i) (secret_value j) h =
    let version : decimal i.secret_version ≡ decimal j.secret_version = cc in
    let key_version : decimal i.environment_key_version ≡ decimal j.environment_key_version = cc in
    cc (decimal-injective version, decimal-injective key_version)
lines-injective (secret_value i) (boot_envelope j) h = cc
lines-injective (boot_envelope i) (project_key j) h = cc
lines-injective (boot_envelope i) (environment_key j) h = cc
lines-injective (boot_envelope i) (secret_value j) h = cc
lines-injective (boot_envelope i) (boot_envelope j) h =
    let key_version : decimal i.environment_key_version ≡ decimal j.environment_key_version = cc in
    cc (decimal-injective key_version)

-- Two inputs whose fields are single lines and whose canonical strings are the same text are of one
-- kind and have the same fields.
pub canonical-injective :
    (a b : AadInput) {t : Text}
    → IsSingleLine a
    → IsSingleLine b
    → canonical a ≡ some t
    → canonical b ≡ some t
    → a ≡ b
canonical-injective a b sa sb ha hb =
    lines-injective a b (sym (canonical-lines a sa ha) ∙ canonical-lines b sb hb)
