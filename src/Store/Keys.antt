-- ===== src/Store/Keys.antt =====
-- The statements of packages/vault-store/src/repositories on keys and sealed values: project-keys.ts,
-- environment-keys.ts, and the UPDATE of secrets.ts in a rotation. A statement of a batch is a
-- function of the database. `none` is a rejected INSERT: its key is taken.
use keevault.Base.{
  ℕ, String, Bool, Option, none, some, List, [], ◌∷◌, ◌++◌, ◌&&◌, map, any, find, str_eq, ◌==◌,
  if◌then◌else◌,
}
use keevault.Store.{
  EnvironmentRow, ProjectRow, ProjectKeyRow, EnvironmentKeyRow, active, retired, SecretDeliveryRow,
  VaultDatabase,
}
use keevault.Store.Queries.{get_environment}

-- The row of the version that the environment's row names.
abbrev key_of : String → Option EnvironmentRow → VaultDatabase → Option EnvironmentKeyRow
key_of environment_id none db = none
key_of environment_id (some environment) db =
    find
      (λ (row : EnvironmentKeyRow).
        str_eq row.environment_id environment_id
        && row.version == environment.current_env_key_version)
      db.environment_keys

unfoldable pub get_current_environment_key : VaultDatabase → String → Option EnvironmentKeyRow
unfolding get_environment
get_current_environment_key db environment_id =
    key_of environment_id (get_environment db environment_id) db

unfoldable pub find_project_key : VaultDatabase → String → ℕ → Option ProjectKeyRow
find_project_key db project_id version =
    find (λ (row : ProjectKeyRow). str_eq row.project_id project_id && row.version == version)
      db.project_keys

abbrev project_key_of : String → Option ProjectRow → VaultDatabase → Option ProjectKeyRow
project_key_of project_id none db = none
project_key_of project_id (some project) db =
    find
      (λ (row : ProjectKeyRow).
        str_eq row.project_id project_id && row.version == project.current_project_key_version)
      db.project_keys

unfoldable pub get_current_project_key : VaultDatabase → String → Option ProjectKeyRow
get_current_project_key db project_id =
    project_key_of project_id (find (λ (row : ProjectRow). str_eq row.id project_id) db.projects) db

pub record InsertEnvironmentKeyInput : Type 0 where
  pub environment_id : String
  pub version : ℕ
  pub project_key_version : ℕ
  pub wrapped_key : String
  pub nonce : String
  pub now : ℕ

unfoldable pub insert_environment_key :
    InsertEnvironmentKeyInput → VaultDatabase → Option VaultDatabase
insert_environment_key input db =
    if any
      (λ (row : EnvironmentKeyRow).
        str_eq row.environment_id input.environment_id && row.version == input.version)
      db.environment_keys
    then none
    else some (record db {
      environment_keys =
          db.environment_keys
          ++ record {
            environment_id = input.environment_id;
            version = input.version;
            project_key_version = input.project_key_version;
            wrapped_key = input.wrapped_key;
            nonce = input.nonce;
            status = active;
            created_at = input.now;
            retired_at = none;
          }
            ∷ [];
    })

pub record ReencryptSecretInput : Type 0 where
  pub id : String
  pub ciphertext : String
  pub nonce : String
  pub env_key_version : ℕ

unfoldable pub reencrypt_row : ReencryptSecretInput → SecretDeliveryRow → SecretDeliveryRow
reencrypt_row input row =
    if str_eq row.id input.id
    then record row {
      ciphertext = input.ciphertext;
      nonce = input.nonce;
      env_key_version = input.env_key_version;
    }
    else row

unfoldable pub build_reencrypt_secret_statement :
    ReencryptSecretInput → VaultDatabase → VaultDatabase
unfolding reencrypt_row
build_reencrypt_secret_statement input db = record db {
  secrets = map (reencrypt_row input) db.secrets;
}

pub record SwitchCurrentEnvironmentKeyInput : Type 0 where
  pub environment_id : String
  pub previous_version : ℕ
  pub next_version : ℕ
  pub now : ℕ

abbrev is_key : String → ℕ → EnvironmentKeyRow → Bool
is_key environment_id version row =
    str_eq row.environment_id environment_id && row.version == version

unfoldable pub build_switch_current_environment_key_statements :
    SwitchCurrentEnvironmentKeyInput → List (VaultDatabase → VaultDatabase)
build_switch_current_environment_key_statements input =
    (λ db. record db {
      environment_keys =
          map
            (λ (row : EnvironmentKeyRow).
              if is_key input.environment_id input.previous_version row
              then record row { status = retired; retired_at = some input.now }
              else row)
            db.environment_keys;
    })
    ∷ (λ db. record db {
      environment_keys =
          map
            (λ (row : EnvironmentKeyRow).
              if is_key input.environment_id input.next_version row
              then record row { status = active; retired_at = none }
              else row)
            db.environment_keys;
    })
    ∷ (λ db. record db {
      environments =
          map
            (λ (row : EnvironmentRow).
              if str_eq row.id input.environment_id
              then record row { current_env_key_version = input.next_version }
              else row)
            db.environments;
    })
    ∷ []

-- `db.batch(statements)`.
unfoldable pub batch : List (VaultDatabase → VaultDatabase) → VaultDatabase → VaultDatabase
batch [] db = db
batch (statement ∷ statements) db = batch statements (statement db)
