-- ===== src/Crypto/Token/Laws.antt =====
-- The tokens that packages/crypto/src/token.ts mints, parses and verifies.
use mathlib.Core.Path.{subst}
use keevault.Base.{
  ℕ, true, some, [], ◌∷◌, ◌++◌, ◌==◌, length, all, All, ◌≡◌, refl, ◌↔◌, sym, ap, ◌∙◌, arith,
  six_parts, if-eq-some, ==_iff,
}
use keevault.Crypto.Text.{
  Text, Bytes, IsByte, starts_with, drop, take, take-append, drop-append, take-append-drop,
  starts_with-append, starts_with-split,
}
use keevault.Crypto.Encoding.{b64u_encode}
use keevault.Crypto.Encoding.Compare.{constant_time_equal_iff}
use keevault.Crypto.Encoding.Shape.{is_b64u, all-b64u_encode, length-b64u_encode}
use keevault.Crypto.Ulid.{is_crockford, generate_ulid, is_ulid}
use keevault.Crypto.Ulid.Laws.{is_ulid-generate_ulid}
use keevault.Crypto.Token.{
  Platform, bootstrap_token_prefix, ParsedBootstrapToken, generate_bootstrap_token,
  hash_token_secret, matches_pattern, parse_bootstrap_token, verify_token_secret, token_id_of,
  after_id_of, secret_of,
}

-- The form of a secret: 43 characters of base64url.
abbrev pub IsSecret : Text → Type 0
IsSecret secret = (length secret ≡ 43) × (all is_b64u secret ≡ true)

abbrev pub IsTokenId : Text → Type 0
IsTokenId id = is_ulid id ≡ true

-- The text of a token.
abbrev pub token_text : Text → Text → Text
token_text id secret = bootstrap_token_prefix ++ (id ++ b'.' ∷ secret)

take_of_length : (n : ℕ) (xs ys : Text) → length xs ≡ n → take n (xs ++ ys) ≡ xs
take_of_length n xs ys h = subst (λ k. take k (xs ++ ys) ≡ xs) h (take-append xs ys)

drop_of_length : (n : ℕ) (xs ys : Text) → length xs ≡ n → drop n (xs ++ ys) ≡ ys
drop_of_length n xs ys h = subst (λ k. drop k (xs ++ ys) ≡ ys) h (drop-append xs ys)

parse-token_text :
    (id secret : Text)
    → IsTokenId id
    → IsSecret secret
    → parse_bootstrap_token (token_text id secret)
      ≡ some (record { token_id = id; secret = secret })
unfolding parse_bootstrap_token matches_pattern is_ulid
parse-token_text id secret hid hs =
    let size : length id ≡ 26 = ground arith in
    let chars : all is_crockford id ≡ true = ground arith in
    let first = take_of_length 26 id (b'.' ∷ secret) size in
    let last = drop_of_length 26 id (b'.' ∷ secret) size in
    rw
      (
        starts_with-append bootstrap_token_prefix (id ++ b'.' ∷ secret),
        first,
        last,
        starts_with-append (b'.' ∷ []) secret,
        size,
        chars,
        hs.0,
        hs.1,
      )
      refl

token_parts :
    (token : Text)
    → matches_pattern token ≡ true
    → (starts_with bootstrap_token_prefix token ≡ true)
      × (starts_with (b'.' ∷ []) (after_id_of token) ≡ true)
      × IsTokenId (token_id_of token)
      × IsSecret (secret_of token)
unfolding matches_pattern is_ulid
token_parts token h =
    let (starts, size, chars, dot, secret_size, secret_chars) =
      six_parts (starts_with bootstrap_token_prefix token) (length (token_id_of token) == 26)
        (all is_crockford (token_id_of token)) (starts_with (b'.' ∷ []) (after_id_of token))
        (length (secret_of token) == 43) (all is_b64u (secret_of token)) h in
    (starts, dot, rw (size, chars) refl, ((==_iff _ _).0 secret_size, secret_chars))

token_text-parts :
    (token : Text)
    → matches_pattern token ≡ true
    → token ≡ token_text (token_id_of token) (secret_of token)
token_text-parts token h =
    let (starts, dot, _, _) = token_parts token h in
    starts_with-split bootstrap_token_prefix token starts
    ∙ ap (λ t. bootstrap_token_prefix ++ t)
        (sym (take-append-drop 26 (drop 9 token))
          ∙ ap (λ t. token_id_of token ++ t)
              (starts_with-split (b'.' ∷ []) (after_id_of token) dot))

-- A secret verifies exactly when its hash and the stored one have the same bytes of UTF-8.
pub verify_token_secret_iff :
    (platform : Platform) (secret stored_hash : Text)
    → (verify_token_secret platform secret stored_hash ≡ true) ↔ (
        platform.utf8_encode (hash_token_secret platform secret) ≡ platform.utf8_encode stored_hash)
unfolding verify_token_secret
verify_token_secret_iff platform secret stored_hash = constant_time_equal_iff _ _

-- A secret verifies against its own hash.
verify_self :
    (platform : Platform) (secret : Text)
    → verify_token_secret platform secret (hash_token_secret platform secret) ≡ true
unfolding verify_token_secret
verify_self platform secret = (constant_time_equal_iff _ _).1 refl

-- A text is parsed as an id and a secret exactly when it is the text of a token with that id and that
-- secret, and they have the form of a ULID and of 43 characters of base64url.
pub parse_bootstrap_token_iff :
    (token : Text) (p : ParsedBootstrapToken)
    → (parse_bootstrap_token token ≡ some p)
      ↔ ((token ≡ token_text p.token_id p.secret) × IsTokenId p.token_id × IsSecret p.secret)
unfolding parse_bootstrap_token
parse_bootstrap_token_iff token p = (
  λ h.
      let (matched, same) = if-eq-some (matches_pattern token) _ p h in
      let (_, _, id, secret) = token_parts token matched in
      subst
        (λ q. (token ≡ token_text q.token_id q.secret) × IsTokenId q.token_id × IsSecret q.secret)
        same (token_text-parts token matched, id, secret),
  λ (e, hid, hs). rw e (parse-token_text p.token_id p.secret hid hs),
)

-- A minted token is parsed as its id and a secret that verifies against its hash.
pub parse-generate_bootstrap_token :
    (platform : Platform) (now : ℕ) (id_bytes secret_bytes : Bytes)
    → length secret_bytes ≡ 32
    → All IsByte secret_bytes
    → let made = generate_bootstrap_token platform now id_bytes secret_bytes in
      (p : ParsedBootstrapToken) × (parse_bootstrap_token made.token ≡ some p)
      × (p.token_id ≡ made.token_id)
      × (verify_token_secret platform p.secret made.secret_hash ≡ true)
unfolding generate_bootstrap_token
parse-generate_bootstrap_token platform now id_bytes secret_bytes size bytes =
    let id = generate_ulid now id_bytes in
    let secret = b64u_encode secret_bytes in
    let count : length secret ≡ 43 = ground (arith, length-b64u_encode secret_bytes) in
    (
      record { token_id = id; secret = secret },
      parse-token_text id secret (is_ulid-generate_ulid now id_bytes)
          (count, all-b64u_encode secret_bytes bytes),
      refl,
      verify_self platform secret,
    )
