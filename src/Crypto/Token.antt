-- ===== src/Crypto/Token.antt =====
-- packages/crypto/src/token.ts, with SHA-256 and the text encoder of the platform as parameters.
pub mod Laws
use keevault.Base.{
  ℕ, Bool, false, Option, none, some, List, [], ◌∷◌, ◌++◌, ◌&&◌, ◌==◌, if◌then◌else◌, length, all,
}
use keevault.Crypto.Text.{Text, Bytes, codes, starts_with, drop, take}
use keevault.Crypto.Encoding.{b64u_encode, hex_encode, constant_time_equal}
use keevault.Crypto.Encoding.Shape.{is_b64u}
use keevault.Crypto.Ulid.{is_crockford, generate_ulid}

-- `TextEncoder.encode` and `crypto.subtle.digest("SHA-256", …)`.
pub record Platform : Type 0 where
  pub utf8_encode : Text → Bytes
  pub sha256 : Bytes → Bytes

abbrev pub bootstrap_token_prefix : Text
bootstrap_token_prefix = codes "vlt_boot_"

abbrev pub bootstrap_token_secret_bytes : ℕ
bootstrap_token_secret_bytes = 32

pub record ParsedBootstrapToken : Type 0 where
  pub token_id : Text
  pub secret : Text

pub record GeneratedBootstrapToken : Type 0 where
  pub token : Text
  pub token_id : Text
  pub secret_hash : Text

-- `sha256HexOfText`.
unfoldable pub hash_token_secret : Platform → Text → Text
hash_token_secret platform secret = hex_encode (platform.sha256 (platform.utf8_encode secret))

-- `now` is `Date.now()`; the other arguments are the random bytes of the id and of the secret.
unfoldable pub generate_bootstrap_token : Platform → ℕ → Bytes → Bytes → GeneratedBootstrapToken
unfolding hash_token_secret
generate_bootstrap_token platform now id_bytes secret_bytes =
    let token_id = generate_ulid now id_bytes in
    let secret = b64u_encode secret_bytes in
    record {
      token = bootstrap_token_prefix ++ token_id ++ b'.' ∷ secret;
      token_id = token_id;
      secret_hash = hash_token_secret platform secret;
    }

-- The groups of `BOOTSTRAP_TOKEN_PATTERN`, and its test.
abbrev pub token_id_of : Text → Text
token_id_of token = take 26 (drop 9 token)

abbrev pub after_id_of : Text → Text
after_id_of token = drop 26 (drop 9 token)

abbrev pub secret_of : Text → Text
secret_of token = drop 1 (after_id_of token)

unfoldable pub matches_pattern : Text → Bool
matches_pattern token =
    starts_with bootstrap_token_prefix token
    && length (token_id_of token) == 26
    && all is_crockford (token_id_of token)
    && starts_with (b'.' ∷ []) (after_id_of token)
    && length (secret_of token) == 43
    && all is_b64u (secret_of token)

unfoldable pub parse_bootstrap_token : Text → Option ParsedBootstrapToken
unfolding matches_pattern
parse_bootstrap_token token =
    if matches_pattern token
    then some (record { token_id = token_id_of token; secret = secret_of token })
    else none

unfoldable pub constant_time_equal_text : Platform → Text → Text → Bool
constant_time_equal_text platform left right =
    constant_time_equal (platform.utf8_encode left) (platform.utf8_encode right)

unfoldable pub verify_token_secret : Platform → Text → Text → Bool
unfolding constant_time_equal_text hash_token_secret
verify_token_secret platform secret stored_hash =
    constant_time_equal_text platform (hash_token_secret platform secret) stored_hash
