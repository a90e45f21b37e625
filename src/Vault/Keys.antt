-- ===== src/Vault/Keys.antt =====
-- apps/control-plane/src/server/vault/keys.ts: the unwrap path down to an environment's key, over the
-- master keys by their versions. What a function throws is a VaultError. D1 may change at each await,
-- so each access of D1 has its own database.
use keevault.Base.{ℕ, ◌+◌, String, Option, none, some, List, [], ◌∷◌, ◌==◌, if◌then◌else◌}
use keevault.Store.{EnvironmentRow, cloud, cold, ProjectKeyRow, EnvironmentKeyRow, VaultDatabase}
use keevault.Store.Queries.{get_environment}
use keevault.Store.Keys.{get_current_environment_key, get_current_project_key, find_project_key}
use keevault.Crypto.Text.{Bytes, codes}
use keevault.Crypto.Encoding.{b64u_decode}
use keevault.Crypto.WebCrypto.{WebCrypto}
use keevault.Crypto.Hierarchy.{unwrap_project_key, unwrap_environment_key}

pub data VaultKeyErrorCode : Type 0 where
  master_key_missing master_key_invalid active_version_invalid project_missing : VaultKeyErrorCode
  project_key_missing environment_missing environment_key_missing unwrap_failed : VaultKeyErrorCode

-- A VaultKeyError, a VaultInputError of its field, or any other Error.
pub data VaultError : Type 0 where
  key_error : VaultKeyErrorCode → VaultError
  input_error : String → VaultError
  failed : VaultError

pub data Outcome {ℓ} (A : Type ℓ) : Type ℓ where
  ok : A → Outcome A
  throw : VaultError → Outcome A

infixl 5 ◌>>=◌
abbrev pub ◌>>=◌ {ℓ κ} : {A : Type ℓ} {B : Type κ} → Outcome A → (A → Outcome B) → Outcome B
throw e >>= f = throw e
ok a >>= f = f a

abbrev pub or_throw {ℓ} : {A : Type ℓ} → VaultError → Option A → Outcome A
or_throw e none = throw e
or_throw e (some a) = ok a

pub record MasterKeyring : Type 0 where
  pub active_version : ℕ
  pub keys : List (ℕ × Bytes)

unfoldable pub key : List (ℕ × Bytes) → ℕ → Option Bytes
key [] version = none
key ((number, bytes) ∷ keys) version = if number == version then some bytes else key keys version

pub record UnwrappedKey : Type 0 where
  pub project_id : String
  pub key : Bytes
  pub version : ℕ

-- The `try` of `unwrapProjectKey` and of `unwrapProjectKeyVersion`.
unfoldable pub open_project_key : WebCrypto → MasterKeyring → String → ProjectKeyRow → Outcome Bytes
unfolding key
open_project_key c keyring project_id row = do
  master_key ← or_throw (key_error master_key_missing) (key keyring.keys row.master_key_version)
  nonce ← or_throw (key_error unwrap_failed) (b64u_decode (codes row.nonce))
  ciphertext ← or_throw (key_error unwrap_failed) (b64u_decode (codes row.wrapped_key))
  or_throw (key_error unwrap_failed) (
      unwrap_project_key c (record {
        identity = record {
          project_id = codes project_id;
          project_key_version = row.version;
          master_key_version = row.master_key_version;
        };
        master_key = master_key;
        nonce = nonce;
        ciphertext = ciphertext;
      }))

unfoldable pub unwrap_current_project_key :
    WebCrypto → VaultDatabase → MasterKeyring → String → Outcome UnwrappedKey
unfolding open_project_key get_current_project_key
unwrap_current_project_key c db keyring project_id = do
  row ← or_throw (key_error project_key_missing) (get_current_project_key db project_id)
  key ← open_project_key c keyring project_id row
  ok (record { project_id = project_id; key = key; version = row.version })

-- The databases that a method meets at its accesses of D1, by their number.
abbrev pub Reads : Type 0
Reads = ℕ → VaultDatabase

-- The listed row of a version.
unfoldable pub unwrap_listed :
    WebCrypto → VaultDatabase → MasterKeyring → String → ℕ → Outcome Bytes
unfolding open_project_key find_project_key
unwrap_listed c db keyring project_id version = do
  row ← or_throw (key_error project_key_missing) (find_project_key db project_id version)
  open_project_key c keyring project_id row

-- Of the current version the current row is read again, which may be another by then.
unfoldable pub unwrap_other :
    WebCrypto → VaultDatabase → MasterKeyring → String → ℕ → Option ProjectKeyRow → Outcome Bytes
unfolding unwrap_listed unwrap_current_project_key
unwrap_other c db keyring project_id version none = unwrap_listed c db keyring project_id version
unwrap_other c db keyring project_id version (some current) =
    if current.version == version
    then (do unwrapped ← unwrap_current_project_key c db keyring project_id; ok unwrapped.key)
    else unwrap_listed c db keyring project_id version

unfoldable pub unwrap_project_key_version :
    WebCrypto → Reads → MasterKeyring → String → ℕ → Outcome Bytes
unfolding unwrap_other get_current_project_key
unwrap_project_key_version c reads keyring project_id version =
    unwrap_other c (reads 1) keyring project_id version
      (get_current_project_key (reads 0) project_id)

-- Of a COLD environment the server has no key.
unfoldable pub require_cloud : EnvironmentRow → Outcome EnvironmentRow
require_cloud environment = elim environment.key_mode [
  | cloud ↦ ok environment
  | cold ↦ throw (key_error environment_key_missing)
]

unfoldable pub open_environment_key :
    WebCrypto → String → String → Bytes → EnvironmentKeyRow → Outcome Bytes
open_environment_key c project_id environment_id project_key row = do
  nonce ← or_throw (key_error unwrap_failed) (b64u_decode (codes row.nonce))
  ciphertext ← or_throw (key_error unwrap_failed) (b64u_decode (codes row.wrapped_key))
  or_throw (key_error unwrap_failed) (
      unwrap_environment_key c (record {
        identity = record {
          project_id = codes project_id;
          environment_id = codes environment_id;
          environment_key_version = row.version;
          project_key_version = row.project_key_version;
        };
        project_key = project_key;
        nonce = nonce;
        ciphertext = ciphertext;
      }))

unfoldable pub unwrap_environment_dek :
    WebCrypto → Reads → MasterKeyring → String → Outcome UnwrappedKey
unfolding get_environment require_cloud get_current_environment_key unwrap_project_key_version
    open_environment_key
unwrap_environment_dek c reads keyring environment_id = do
  found ← or_throw (key_error environment_missing) (get_environment (reads 0) environment_id)
  environment ← require_cloud found
  row ←
      or_throw (key_error environment_key_missing)
        (get_current_environment_key (reads 1) environment_id)
  project_key ←
      unwrap_project_key_version c (λ n. reads (2 + n)) keyring environment.project_id
        row.project_key_version
  dek ← open_environment_key c environment.project_id environment_id project_key row
  ok (record { project_id = environment.project_id; key = dek; version = row.version })
