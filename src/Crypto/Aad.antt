-- ===== src/Crypto/Aad.antt =====
-- packages/crypto/src/aad.ts: the canonical strings that each wrapped key, secret and envelope is
-- bound to. A version is a whole number; one that JavaScript cannot hold exactly is refused.
pub mod Injective
use keevault.Base.{ℕ, ◌-◌, ◌^◌, Option, none, some, List, [], ◌∷◌, ◌++◌, leb, if◌then◌else◌}
use keevault.Crypto.Text.{Text, codes}
use keevault.Crypto.Text.Decimal.{decimal}
use keevault.Crypto.Text.Lines.{join_parts}

abbrev pub newline : ℕ
newline = 10

-- `Number.MAX_SAFE_INTEGER`.
abbrev pub max_safe_integer : ℕ
max_safe_integer = 2 ^ 53 - 1

infixl 5 ◌>>=◌
abbrev pub ◌>>=◌ {ℓ κ} : {A : Type ℓ} {B : Type κ} → Option A → (A → Option B) → Option B
none >>= f = none
some a >>= f = f a

-- `none` is the error that it throws.
unfoldable pub canonical_integer : ℕ → Option Text
canonical_integer value = if leb value max_safe_integer then some (decimal value) else none

abbrev pub field : Text → Text → Text
field name value = name ++ value

pub record ProjectKeyAadInput : Type 0 where
  pub project_id : Text
  pub project_key_version : ℕ
  pub master_key_version : ℕ

unfoldable pub project_key_aad : ProjectKeyAadInput → Option Text
project_key_aad input = do
  version ← canonical_integer input.project_key_version
  master ← canonical_integer input.master_key_version
  some (
      join_parts newline (
        codes "vault:project-key:v1"
        ∷ field (codes "project=") input.project_id
        ∷ field (codes "version=") version
        ∷ field (codes "master=") master
        ∷ []))

pub record EnvironmentKeyAadInput : Type 0 where
  pub project_id : Text
  pub environment_id : Text
  pub environment_key_version : ℕ
  pub project_key_version : ℕ

unfoldable pub environment_key_aad : EnvironmentKeyAadInput → Option Text
environment_key_aad input = do
  version ← canonical_integer input.environment_key_version
  project_version ← canonical_integer input.project_key_version
  some (
      join_parts newline (
        codes "vault:environment-key:v1"
        ∷ field (codes "project=") input.project_id
        ∷ field (codes "environment=") input.environment_id
        ∷ field (codes "version=") version
        ∷ field (codes "project_key_version=") project_version
        ∷ []))

pub record SecretValueAadInput : Type 0 where
  pub project_id : Text
  pub environment_id : Text
  pub secret_id : Text
  pub secret_name : Text
  pub secret_version : ℕ
  pub environment_key_version : ℕ

unfoldable pub secret_value_aad : SecretValueAadInput → Option Text
secret_value_aad input = do
  version ← canonical_integer input.secret_version
  key_version ← canonical_integer input.environment_key_version
  some (
      join_parts newline (
        codes "vault:secret:v1"
        ∷ field (codes "project=") input.project_id
        ∷ field (codes "environment=") input.environment_id
        ∷ field (codes "secret=") input.secret_id
        ∷ field (codes "name=") input.secret_name
        ∷ field (codes "version=") version
        ∷ field (codes "env_key_version=") key_version
        ∷ []))

pub record BootEnvelopeInfoInput : Type 0 where
  pub boot_id : Text
  pub environment_id : Text
  pub environment_key_version : ℕ
  pub client_public_key_fingerprint : Text
  pub server_public_key_fingerprint : Text

unfoldable pub boot_envelope_info : BootEnvelopeInfoInput → Option Text
boot_envelope_info input = do
  key_version ← canonical_integer input.environment_key_version
  some (
      join_parts newline (
        codes "vault:boot-envelope:v1"
        ∷ field (codes "boot=") input.boot_id
        ∷ field (codes "environment=") input.environment_id
        ∷ field (codes "env_key_version=") key_version
        ∷ field (codes "client=") input.client_public_key_fingerprint
        ∷ field (codes "server=") input.server_public_key_fingerprint
        ∷ []))
