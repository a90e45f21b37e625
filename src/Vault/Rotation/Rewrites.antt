-- ===== src/Vault/Rotation/Rewrites.antt =====
-- The rewrites of apps/control-plane/src/server/vault/rotation.ts keep the values of the secrets.
use mathlib.Core.Path.{subst}
use mathlib.Core.List.{Memᴰ}
use keevault.Base.{
  ℕ, ◌<◌, String, false, Bool-cases, inl, inr, Option, none, some, List, [], ◌∷◌, All, str_eq,
  str_eq_iff, str_eq_refl, ◌≡◌, refl, sym, ap, ◌∙◌,
}
use keevault.Store.{SecretDeliveryRow}
use keevault.Store.Keys.{ReencryptSecretInput, reencrypt_row}
use keevault.Crypto.Text.{Text, Bytes, IsByte, codes, from_codes, codes-from_codes}
use keevault.Crypto.Encoding.{b64u_encode, b64u_decode}
use keevault.Crypto.Encoding.Base64.{b64u_decode-b64u_encode}
use keevault.Crypto.Encoding.Shape.{b64u_encode-ascii}
use keevault.Crypto.WebCrypto.{WebCrypto, AesLaws, Utf8Laws}
use keevault.Crypto.Hierarchy.{encrypt_secret}
use keevault.Crypto.Hierarchy.Opens.{decrypt_of_encrypt_secret}
use keevault.Vault.Keys.{Outcome, ok, throw, ◌>>=◌, or_throw, VaultError, failed}
use keevault.Vault.Rotation.{
  RotationContext, secret_identity, read_secret, rewrite_secret, rewrite_secrets,
}

-- A chain that returns has returned at its first step.
pub then-returns {ℓ κ} :
    {A : Type ℓ} {B : Type κ} {y : B} (first : Outcome A) (next : A → Outcome B)
    → (first >>= next) ≡ ok y
    → (x : A) × (first ≡ ok x) × (next x ≡ ok y)
then-returns (throw e) next h = cc
then-returns (ok x) next h = (x, refl, h)

pub or_throw-returns {ℓ} :
    {A : Type ℓ} (e : VaultError) (o : Option A) {a : A} → or_throw e o ≡ ok a → o ≡ some a
or_throw-returns e none h = cc
or_throw-returns e (some a) h = cc

pub ok-same {ℓ} : {A : Type ℓ} {a b : A} → ◌≡◌ {A = Outcome A} (ok a) (ok b) → a ≡ b
ok-same h = cc

read-encoded :
    (bytes : Bytes)
    → All IsByte bytes
    → b64u_decode (codes (from_codes (b64u_encode bytes))) ≡ some bytes
read-encoded bytes h =
    ap b64u_decode (codes-from_codes (b64u_encode bytes) (b64u_encode-ascii bytes h))
    ∙ b64u_decode-b64u_encode bytes h

module _ (c : WebCrypto) (context : RotationContext) (project_id environment_id : String)
    (dek : Bytes) (next_version : ℕ) where
  abbrev pub RewritesTo : SecretDeliveryRow → ReencryptSecretInput → Type 0
  RewritesTo s w = rewrite_secret c context project_id environment_id dek next_version s ≡ ok w

  -- Each secret is rewritten, and each rewrite is one of a secret.
  pub rewrite_of :
      (s : SecretDeliveryRow) (secrets : List SecretDeliveryRow) (ws : List ReencryptSecretInput)
      → rewrite_secrets c context project_id environment_id dek next_version secrets ≡ ok ws
      → Memᴰ s secrets
      → (w : ReencryptSecretInput) × Memᴰ w ws × RewritesTo s w
  unfolding rewrite_secrets
  rewrite_of s [] ws h m = elim m [ ]
  rewrite_of s (r ∷ secrets) ws h m =
      let (w, e, h1) =
        then-returns (rewrite_secret c context project_id environment_id dek next_version r) _ h in
      let (rest, f, h2) =
        then-returns (rewrite_secrets c context project_id environment_id dek next_version secrets)
          _ h1 in
      let same : w ∷ rest ≡ ws = ok-same h2 in
      subst (λ l. (w : ReencryptSecretInput) × Memᴰ w l × RewritesTo s w) same
        (elim m [
          | Memᴰ.head g ↦ (
            w,
            Memᴰ.head refl,
            ap (rewrite_secret c context project_id environment_id dek next_version) g ∙ e,
          )
          | Memᴰ.tail n ↦ let (v, k, q) = rewrite_of s secrets rest f n in (v, Memᴰ.tail k, q)
        ])

  pub rewrites_from :
      (P : ReencryptSecretInput → Type 0) (secrets : List SecretDeliveryRow)
      (ws : List ReencryptSecretInput)
      → All (λ s. (w : ReencryptSecretInput) → RewritesTo s w → P w) secrets
      → rewrite_secrets c context project_id environment_id dek next_version secrets ≡ ok ws
      → All P ws
  unfolding rewrite_secrets
  rewrites_from P [] ws k h = subst (λ l. All P l) (ok-same h) tt
  rewrites_from P (r ∷ secrets) ws (kr, k) h =
      let (w, e, h1) =
        then-returns (rewrite_secret c context project_id environment_id dek next_version r) _ h in
      let (rest, f, h2) =
        then-returns (rewrite_secrets c context project_id environment_id dek next_version secrets)
          _ h1 in
      subst (λ l. All P l) (ok-same h2) (kr w e, rewrites_from P secrets rest k f)

  pub rewrite-id : (s : SecretDeliveryRow) (w : ReencryptSecretInput) → RewritesTo s w → w.id ≡ s.id
  unfolding rewrite_secret
  rewrite-id s w h =
      let (read, e, h1) = then-returns (read_secret c project_id environment_id dek s) _ h in
      let (sealed, f, h2) =
        then-returns
          (or_throw failed (
            encrypt_secret c (context.secret_nonce s) (record {
              identity = secret_identity project_id environment_id s next_version;
              environment_key = context.next_dek;
              value = read;
            })))
          _ h1 in
      sym (ap (λ (u : ReencryptSecretInput). u.id) (ok-same h2))

module _ (c : WebCrypto) (aes : AesLaws c) (utf8 : Utf8Laws c) (context : RotationContext)
    (nonces : (s : SecretDeliveryRow) → All IsByte (context.secret_nonce s))
    (project_id environment_id : String) (dek : Bytes) (next_version : ℕ) where
  -- The rewritten row has the value that the row had.
  pub rewrite_secret-keeps :
      (s : SecretDeliveryRow) (w : ReencryptSecretInput) (value : Text)
      → RewritesTo c context project_id environment_id dek next_version s w
      → read_secret c project_id environment_id dek s ≡ ok value
      → All (λ unit. unit < 0xd800) value
      → (w.id ≡ s.id)
        × (read_secret c project_id environment_id context.next_dek (reencrypt_row w s) ≡ ok value)
  unfolding rewrite_secret read_secret reencrypt_row
  rewrite_secret-keeps s w value h hr low =
      let (read, e, h1) = then-returns (read_secret c project_id environment_id dek s) _ h in
      let same : value ≡ read = ok-same (sym hr ∙ e) in
      let (sealed, f, h2) =
        then-returns
          (or_throw failed (
            encrypt_secret c (context.secret_nonce s) (record {
              identity = secret_identity project_id environment_id s next_version;
              environment_key = context.next_dek;
              value = read;
            })))
          _ h1 in
      let (at, bytes, opens) =
        decrypt_of_encrypt_secret c aes utf8
          (secret_identity project_id environment_id s next_version) context.next_dek
          (context.secret_nonce s) read sealed (or_throw-returns failed _ f) in
      let low_read = subst (λ t. All (λ unit. unit < 0xd800) t) same low in
      let nonce_read : b64u_decode (codes (from_codes (b64u_encode sealed.nonce)))
          ≡ some (context.secret_nonce s) =
        ap (λ n. b64u_decode (codes (from_codes (b64u_encode n)))) at
        ∙ read-encoded (context.secret_nonce s) (nonces s) in
      subst
        (λ (u : ReencryptSecretInput).
          (u.id ≡ s.id)
          × (read_secret c project_id environment_id context.next_dek (reencrypt_row u s)
              ≡ ok value))
        (ok-same h2)
        (
          refl,
          rw
              (
                str_eq_refl s.id,
                nonce_read,
                read-encoded sealed.ciphertext bytes,
                opens,
                utf8.reads read low_read,
                same,
              )
              refl,
        )

-- What a batch of rewrites makes of one row.
unfoldable pub rewritten : List ReencryptSecretInput → SecretDeliveryRow → SecretDeliveryRow
unfolding reencrypt_row
rewritten [] row = row
rewritten (w ∷ ws) row = rewritten ws (reencrypt_row w row)

module _ (r : SecretDeliveryRow) (w : ReencryptSecretInput) (same_id : w.id ≡ r.id) where
  reencrypt_row-twice : reencrypt_row w (reencrypt_row w r) ≡ reencrypt_row w r
  unfolding reencrypt_row
  reencrypt_row-twice = elim (Bool-cases (str_eq r.id w.id)) [
    | inl e ↦ rw (e, e) refl
    | inr e ↦ rw (e, e) refl
  ]

  pub reencrypt_row-id : (reencrypt_row w r).id ≡ r.id
  unfolding reencrypt_row
  reencrypt_row-id = elim (Bool-cases (str_eq r.id w.id)) [ inl e ↦ rw e refl | inr e ↦ rw e refl ]

  reencrypt_row-other :
      (v : ReencryptSecretInput) (row : SecretDeliveryRow)
      → str_eq row.id v.id ≡ false
      → reencrypt_row v row ≡ row
  unfolding reencrypt_row
  reencrypt_row-other v row e = rw e refl

  -- The rewrites of other rows leave this one alone, and its own is the same each time.
  rewritten-again :
      (ws : List ReencryptSecretInput)
      → All (λ v. v.id ≡ r.id → v ≡ w) ws
      → rewritten ws (reencrypt_row w r) ≡ reencrypt_row w r
  unfolding rewritten
  rewritten-again [] h = refl
  rewritten-again (v ∷ ws) (hv, h) = elim (Bool-cases (str_eq (reencrypt_row w r).id v.id)) [
    | inr e ↦ ap (rewritten ws) (reencrypt_row-other v (reencrypt_row w r) e) ∙ rewritten-again ws h
    | inl e ↦
        let at : v.id ≡ r.id = sym ((str_eq_iff _ _).0 e) ∙ reencrypt_row-id in
        ap (λ u. rewritten ws (reencrypt_row u (reencrypt_row w r))) (hv at)
        ∙ ap (rewritten ws) reencrypt_row-twice
        ∙ rewritten-again ws h
  ]

  pub rewritten-own :
      (ws : List ReencryptSecretInput)
      → All (λ v. v.id ≡ r.id → v ≡ w) ws
      → Memᴰ w ws
      → rewritten ws r ≡ reencrypt_row w r
  unfolding rewritten
  rewritten-own [] h m = elim m [ ]
  rewritten-own (v ∷ ws) (hv, h) (Memᴰ.head e) =
      ap (λ u. rewritten ws (reencrypt_row u r)) (sym e) ∙ rewritten-again ws h
  rewritten-own (v ∷ ws) (hv, h) (Memᴰ.tail m) = elim (Bool-cases (str_eq r.id v.id)) [
    | inr e ↦ ap (rewritten ws) (reencrypt_row-other v r e) ∙ rewritten-own ws h m
    | inl e ↦
        ap (λ u. rewritten ws (reencrypt_row u r)) (hv (sym ((str_eq_iff _ _).0 e)))
        ∙ rewritten-again ws h
  ]

-- The rewrites of other rows leave a row alone.
pub rewritten-other :
    (ws : List ReencryptSecretInput) (row : SecretDeliveryRow)
    → All (λ (w : ReencryptSecretInput). str_eq row.id w.id ≡ false) ws
    → rewritten ws row ≡ row
unfolding rewritten reencrypt_row
rewritten-other [] row h = refl
rewritten-other (w ∷ ws) row (e, h) = rw e (rewritten-other ws row h)
