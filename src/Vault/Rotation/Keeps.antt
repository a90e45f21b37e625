-- ===== src/Vault/Rotation/Keeps.antt =====
-- What a rotation of apps/control-plane/src/server/vault/rotation.ts leaves of an environment.
use mathlib.Core.Option.{some-injective}
use mathlib.Core.Path.{subst}
use mathlib.Core.List.{Memᴰ}
use keevault.Base.{
  ℕ, suc, ◌+◌, ◌<◌, String, true, arith, Option, none, some, List, [], ◌∷◌, ◌++◌, map, All,
  All-filter, All-sort_by, Memᴰ-filter, Memᴰ-sort_by, str_eq, str_le, any, filter, else-eq-some,
  ◌≡◌, refl, sym, ap, ◌∙◌,
}
use keevault.Store.{
  EnvironmentRow, KeyMode, cloud, cold, SecretDeliveryRow, AuditEventRow, VaultDatabase,
}
use keevault.Store.Queries.{get_environment, list_secrets_for_delivery}
use keevault.Store.Writes.{append_audit_event}
use keevault.Store.Keys.{
  get_current_environment_key, InsertEnvironmentKeyInput, insert_environment_key,
  ReencryptSecretInput, reencrypt_row, build_reencrypt_secret_statement,
  build_switch_current_environment_key_statements, batch,
}
use keevault.Crypto.Text.{Text, Bytes, IsByte, codes, from_codes}
use keevault.Crypto.Encoding.{b64u_encode}
use keevault.Crypto.WebCrypto.{WebCrypto, AesLaws, Utf8Laws}
use keevault.Crypto.Hierarchy.{wrap_environment_key}
use keevault.Vault.Keys.{
  Outcome, ok, throw, or_throw, failed, input_error, key_error, environment_key_missing,
  UnwrappedKey, require_cloud, unwrap_environment_dek, unwrap_current_project_key,
}
use keevault.Vault.Rotation.{
  RotationContext, database_at, RotateEnvironmentKeyResult, PreparedRotation, read_secret,
  rewrite_secret, rewrite_secrets, prepare_rotation, rotation_event, report_rotation,
  commit_inserted, commit_rotation, rotate_environment_key,
}
use keevault.Vault.Rotation.Rewrites.{
  then-returns, or_throw-returns, ok-same, rewrite_secret-keeps, rewrite_of, rewrites_from,
  rewrite-id, rewritten, rewritten-own, reencrypt_row-id,
}

-- The row that is inserted, and the database after the batch.
abbrev key_input : RotationContext → String → PreparedRotation → InsertEnvironmentKeyInput
key_input context environment_id p = record {
  environment_id = environment_id;
  version = suc p.previous.version;
  project_key_version = p.project_key.version;
  wrapped_key = from_codes (b64u_encode p.sealed_key.ciphertext);
  nonce = from_codes (b64u_encode p.sealed_key.nonce);
  now = context.now;
}

abbrev switches : RotationContext → String → PreparedRotation → List (VaultDatabase → VaultDatabase)
switches context environment_id p = build_switch_current_environment_key_statements (record {
  environment_id = environment_id;
  previous_version = p.previous.version;
  next_version = suc p.previous.version;
  now = context.now;
})

abbrev switched : RotationContext → String → PreparedRotation → VaultDatabase → VaultDatabase
switched context environment_id p db =
    batch (map build_reencrypt_secret_statement p.rewrites ++ switches context environment_id p) db

report-returns :
    (context : RotationContext) (environment_id : String) (p : PreparedRotation)
    (db : VaultDatabase) (o : Option VaultDatabase) {result : RotateEnvironmentKeyResult}
    {after : VaultDatabase}
    → report_rotation context environment_id p db o ≡ (ok result, after)
    → o ≡ some after
unfolding report_rotation
report-returns context environment_id p db none h = cc
report-returns context environment_id p db (some reported) h = cc

-- The database at the audit event, with what others have done since the insertion.
abbrev audited : RotationContext → String → PreparedRotation → VaultDatabase → VaultDatabase
audited context environment_id p inserted =
    context.others 10 (switched context environment_id p (context.others 9 inserted))

inserted-returns :
    (context : RotationContext) (environment_id : String) (p : PreparedRotation)
    (db : VaultDatabase) (o : Option VaultDatabase) {result : RotateEnvironmentKeyResult}
    {after : VaultDatabase}
    → commit_inserted context environment_id p db o ≡ (ok result, after)
    → (inserted : VaultDatabase) × (o ≡ some inserted)
      × (append_audit_event
            (rotation_event context environment_id p)
            (audited context environment_id p inserted)
          ≡ some after)
unfolding commit_inserted
inserted-returns context environment_id p db none h = cc
inserted-returns context environment_id p db (some inserted) h =
    (inserted, refl, report-returns context environment_id p _ _ h)

commit-returns :
    (context : RotationContext) (environment_id : String) (o : Outcome PreparedRotation)
    (db : VaultDatabase) {result : RotateEnvironmentKeyResult} {after : VaultDatabase}
    → commit_rotation context environment_id o db ≡ (ok result, after)
    → (p : PreparedRotation) × (o ≡ ok p)
      × (inserted : VaultDatabase) × (insert_environment_key
            (key_input context environment_id p)
            (database_at context db 8)
          ≡ some inserted)
      × (append_audit_event
            (rotation_event context environment_id p)
            (audited context environment_id p inserted)
          ≡ some after)
unfolding commit_rotation
commit-returns context environment_id (throw e) db h = cc
commit-returns context environment_id (ok p) db h =
    let (inserted, e, f) = inserted-returns context environment_id p _ _ h in
    (p, refl, inserted, e, f)

require_cloud-same :
    (environment result : EnvironmentRow)
    → require_cloud environment ≡ ok result
    → environment ≡ result
unfolding require_cloud
require_cloud-same environment result h = go environment.key_mode h
  where
    go :
        (mode : KeyMode)
        → (elim mode [ cloud ↦ ok environment | cold ↦ throw (key_error environment_key_missing) ])
          ≡ ok result
        → environment ≡ result
    go cloud h = ok-same h
    go cold h = cc

-- What was prepared is of the environment's row and its current key.
prepare-returns :
    (c : WebCrypto) (context : RotationContext) (environment_id : String) (db : VaultDatabase)
    (environment : EnvironmentRow) (dek : UnwrappedKey) (p : PreparedRotation)
    → prepare_rotation c context environment_id db ≡ ok p
    → get_environment (database_at context db 0) environment_id ≡ some environment
    → unwrap_environment_dek c (λ n. database_at context db (2 + n)) context.keyring environment_id
      ≡ ok dek
    → (p.previous ≡ dek)
      × (rewrite_secrets c context environment.project_id environment_id dek.key
            (suc dek.version)
            (list_secrets_for_delivery (database_at context db 7) environment_id)
          ≡ ok p.rewrites)
unfolding prepare_rotation
prepare-returns c context environment_id db environment dek p h he hd =
    let (found, e1, h1) =
      then-returns
        (or_throw (input_error "environmentId")
          (get_environment (database_at context db 0) environment_id))
        _ h in
    let (cloudy, e2, h2) = then-returns (require_cloud found) _ h1 in
    let (current, e3, h3) =
      then-returns
        (or_throw (key_error environment_key_missing)
          (get_current_environment_key (database_at context db 1) environment_id))
        _ h2 in
    let (previous, e4, h4) =
      then-returns
        (unwrap_environment_dek c (λ n. database_at context db (2 + n)) context.keyring
          environment_id)
        _ h3 in
    let (project_key, e5, h5) =
      then-returns
        (unwrap_current_project_key c (database_at context db 6) context.keyring cloudy.project_id)
        _ h4 in
    let (sealed_key, e6, h6) =
      then-returns
        (or_throw failed (
          wrap_environment_key c context.key_nonce (record {
            identity = record {
              project_id = codes cloudy.project_id;
              environment_id = codes environment_id;
              environment_key_version = suc previous.version;
              project_key_version = project_key.version;
            };
            project_key = project_key.key;
            environment_key = context.next_dek;
          })))
        _ h5 in
    let (rewrites, e7, h7) =
      then-returns
        (rewrite_secrets c context cloudy.project_id environment_id previous.key
          (suc previous.version)
          (list_secrets_for_delivery (database_at context db 7) environment_id))
        _ h6 in
    let same_environment : cloudy ≡ environment =
      sym (require_cloud-same found cloudy e2)
      ∙ some-injective _ _ (sym (or_throw-returns _ _ e1) ∙ he) in
    let same_dek : previous ≡ dek = ok-same (sym e4 ∙ hd) in
    let rewritten_all : rewrite_secrets c context environment.project_id environment_id dek.key
          (suc dek.version) (list_secrets_for_delivery (database_at context db 7) environment_id)
        ≡ ok rewrites =
      rw (sym same_environment, sym same_dek) e7 in
    let made = ok-same h7 in
    (
      sym (ap (λ (q : PreparedRotation). q.previous) made) ∙ same_dek,
      rewritten_all ∙ ap (λ (q : PreparedRotation). ok q.rewrites) made,
    )

Memᴰ-map {ℓ κ} :
    {A : Type ℓ} {B : Type κ} (f : A → B) (x : A) (xs : List A) → Memᴰ x xs → Memᴰ (f x) (map f xs)
Memᴰ-map f x [] m = elim m [ ]
Memᴰ-map f x (y ∷ ys) (Memᴰ.head e) = Memᴰ.head (ap f e)
Memᴰ-map f x (y ∷ ys) (Memᴰ.tail m) = Memᴰ.tail (Memᴰ-map f x ys m)

-- The batch rewrites each row.
batch-rewritten :
    (context : RotationContext) (environment_id : String) (p : PreparedRotation)
    (ws : List ReencryptSecretInput) (db : VaultDatabase) (r : SecretDeliveryRow)
    → Memᴰ r db.secrets
    → Memᴰ
        (rewritten ws r)
        (batch
          (map build_reencrypt_secret_statement ws ++ switches context environment_id p)
          db).secrets
unfolding batch build_switch_current_environment_key_statements build_reencrypt_secret_statement
    rewritten
batch-rewritten context environment_id p [] db r m = m
batch-rewritten context environment_id p (w ∷ ws) db r m =
    batch-rewritten context environment_id p ws _ (reencrypt_row w r)
      (Memᴰ-map (reencrypt_row w) r db.secrets m)

insert-secrets :
    (input : InsertEnvironmentKeyInput) (db : VaultDatabase) {inserted : VaultDatabase}
    → insert_environment_key input db ≡ some inserted
    → inserted.secrets ≡ db.secrets
unfolding insert_environment_key
insert-secrets input db h =
    let (free, e) = else-eq-some (any _ db.environment_keys) _ h in
    sym (ap (λ (d : VaultDatabase). d.secrets) (some-injective _ _ e))

audit-secrets :
    (event : AuditEventRow) (db : VaultDatabase) {after : VaultDatabase}
    → append_audit_event event db ≡ some after
    → after.secrets ≡ db.secrets
unfolding append_audit_event
audit-secrets event db h =
    let (free, e) = else-eq-some (any _ db.audit) _ h in
    sym (ap (λ (d : VaultDatabase). d.secrets) (some-injective _ _ e))

-- A row that is the only one with its id.
abbrev pub IsOnly : SecretDeliveryRow → List SecretDeliveryRow → Type 0
IsOnly r rows = All (λ (s : SecretDeliveryRow). s.id ≡ r.id → s ≡ r) rows

All-weaken {ℓ κ ι} :
    {A : Type ℓ} (P : A → Type κ) (Q : A → Type ι)
    → ((x : A) → P x → Q x)
    → (xs : List A) → All P xs
    → All Q xs
All-weaken P Q f [] h = tt
All-weaken P Q f (x ∷ xs) (h, rest) = (f x h, All-weaken P Q f xs rest)

list-IsOnly :
    (db : VaultDatabase) (environment_id : String) (r : SecretDeliveryRow)
    → IsOnly r db.secrets
    → IsOnly r (list_secrets_for_delivery db environment_id)
unfolding list_secrets_for_delivery
list-IsOnly db eid r only =
    All-sort_by (λ (s : SecretDeliveryRow). s.id ≡ r.id → s ≡ r) (λ a b. str_le a.name b.name)
      (filter (λ row. str_eq row.environment_id eid) db.secrets)
      (All-weaken _ (λ (s : SecretDeliveryRow). s.id ≡ r.id → s ≡ r) (λ s both. both.0)
        (filter (λ row. str_eq row.environment_id eid) db.secrets)
        (All-filter (λ (s : SecretDeliveryRow). s.id ≡ r.id → s ≡ r)
          (λ row. str_eq row.environment_id eid) db.secrets only))

-- No one else changes the secrets after their listing, access 7.
abbrev pub LeavesSecrets : RotationContext → Type 0
LeavesSecrets context =
    (n : ℕ) (x : VaultDatabase) → 7 < n → (context.others n x).secrets ≡ x.secrets

eighth :
    (context : RotationContext) (db : VaultDatabase)
    → LeavesSecrets context
    → (database_at context db 8).secrets ≡ (database_at context db 7).secrets
unfolding database_at
eighth context db quiet = quiet 8 (database_at context db 7) (ground arith)

module _ (c : WebCrypto) (aes : AesLaws c) (utf8 : Utf8Laws c) (context : RotationContext)
    (nonces : (s : SecretDeliveryRow) → All IsByte (context.secret_nonce s)) where
  -- The rewrites of one row are one.
  only_rewrite :
      (project_id environment_id : String) (dek : Bytes) (next_version : ℕ) (r : SecretDeliveryRow)
      (rows : List SecretDeliveryRow) (ws : List ReencryptSecretInput) (w : ReencryptSecretInput)
      → IsOnly r rows
      → rewrite_secrets c context project_id environment_id dek next_version rows ≡ ok ws
      → rewrite_secret c context project_id environment_id dek next_version r ≡ ok w
      → All (λ (v : ReencryptSecretInput). v.id ≡ r.id → v ≡ w) ws
  only_rewrite project environment dek next r rows ws w only h e =
      rewrites_from c context project environment dek next
        (λ (v : ReencryptSecretInput). v.id ≡ r.id → v ≡ w) rows ws
        (All-weaken (λ (s : SecretDeliveryRow). s.id ≡ r.id → s ≡ r) _
          (λ s one v f at.
            let same : s ≡ r =
              one (sym (rewrite-id c context project environment dek next s v f) ∙ at) in
            ok-same (sym f ∙ ap (rewrite_secret c context project environment dek next) same ∙ e))
          rows only)
        h

  -- When a rotation of an environment's key returns, with nonces of bytes, and no one else changes
  -- the secrets between its listing of them and its audit event, each listed secret of the
  -- environment that could be read under the old key, is the only row with its id and has a value of
  -- code units below the surrogates is in the database under its id, and has the same value under the
  -- new key.
  pub rotate-keeps :
      (environment_id : String) (db after : VaultDatabase) (result : RotateEnvironmentKeyResult)
      (environment : EnvironmentRow) (dek : UnwrappedKey) (r : SecretDeliveryRow) (value : Text)
      → LeavesSecrets context
      → rotate_environment_key c context environment_id db ≡ (ok result, after)
      → get_environment (database_at context db 0) environment_id ≡ some environment
      → unwrap_environment_dek c
          (λ n. database_at context db (2 + n))
          context.keyring
          environment_id
        ≡ ok dek
      → Memᴰ r (database_at context db 7).secrets
      → str_eq r.environment_id environment_id ≡ true
      → IsOnly r (database_at context db 7).secrets
      → read_secret c environment.project_id environment_id dek.key r ≡ ok value
      → All (λ unit. unit < 0xd800) value
      → (kept : SecretDeliveryRow) × Memᴰ kept after.secrets
        × (kept.id ≡ r.id)
        × (read_secret c environment.project_id environment_id context.next_dek kept ≡ ok value)
  unfolding rotate_environment_key list_secrets_for_delivery
  rotate-keeps eid db after result environment dek r value quiet h he hd m here only hr low =
      let (p, hp, inserted, hi, ha) = commit-returns context eid _ db h in
      let (_, hw) = prepare-returns c context eid db environment dek p hp he hd in
      let listing = database_at context db 7 in
      let rows = list_secrets_for_delivery listing eid in
      let listed : Memᴰ r rows =
        Memᴰ-sort_by (λ a b. str_le a.name b.name) r
          (filter (λ row. str_eq row.environment_id eid) listing.secrets)
          (Memᴰ-filter (λ row. str_eq row.environment_id eid) r listing.secrets here m) in
      let (w, mw, ew) =
        rewrite_of c context environment.project_id eid dek.key (suc dek.version) r rows p.rewrites
          hw listed in
      let own =
        only_rewrite environment.project_id eid dek.key (suc dek.version) r rows p.rewrites w
          (list-IsOnly listing eid r only) hw ew in
      let (at, reads) =
        rewrite_secret-keeps c aes utf8 context nonces environment.project_id eid dek.key
          (suc dek.version) r w value ew hr low in
      let stays : Memᴰ r (context.others 9 inserted).secrets =
        subst (λ l. Memᴰ r l)
          (sym (
            quiet 9 inserted (ground arith)
            ∙ insert-secrets (key_input context eid p) _ hi
            ∙ eighth context db quiet))
          m in
      let after_batch = batch-rewritten context eid p p.rewrites _ r stays in
      let after_audit =
        subst (λ l. Memᴰ (rewritten p.rewrites r) l)
          (sym (
            audit-secrets (rotation_event context eid p) (audited context eid p inserted) ha
            ∙ quiet 10 _ (ground arith)))
          after_batch in
      (
        reencrypt_row w r,
        subst (λ row. Memᴰ row after.secrets) (rewritten-own r w at p.rewrites own mw) after_audit,
        reencrypt_row-id r w at,
        reads,
      )
