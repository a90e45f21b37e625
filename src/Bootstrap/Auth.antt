-- ===== src/Bootstrap/Auth.antt =====
-- apps/control-plane/src/server/vault/bootstrap-auth.ts. `Request`, `URL` and `Headers` are the
-- platform's: a request is its method, its path, whether its query has `token`, and its headers under
-- lower-case names, each once. D1 may change at each await, so each query has its own database.
pub mod Accepts
pub mod Refuses
use Prim.Native.String.{String}
use mathlib.Core.Option
use keevault.Base.{
  ℕ, Bool, true, false, not, ◌&&◌, ◌||◌, Option, none, some, List, [], ◌∷◌, map, find, any, str_eq,
  ltb, leb, is_empty, if◌then◌else◌,
}
use keevault.Protocol.Messages.{
  CloseCode, unauthorized, forbidden, rate_limited, normal, protocol_error, unknown_boot, conflict,
  terminal,
}
use keevault.Store.{BootstrapTokenRow, EnvironmentRow, VaultDatabase}
use keevault.Store.Queries.{get_environment, get_bootstrap_token_by_token_id}
use keevault.Store.Writes.{touch_bootstrap_token_last_seen}
use keevault.Crypto.Text.{Text, codes, from_codes, starts_with, drop}
use keevault.Crypto.Token.{
  Platform, ParsedBootstrapToken, parse_bootstrap_token, verify_token_secret,
}
use keevault.Crypto.Cidr.{ip_allowed}

abbrev pub Headers : Type 0
Headers = List (String × String)

pub record Request : Type 0 where
  pub method : String
  pub path : String
  pub has_token_parameter : Bool
  pub headers : Headers

-- `request.headers.get(name)`.
unfoldable pub get_header : String → Headers → Option String
get_header name [] = none
get_header name ((key, value) ∷ headers) =
    if str_eq key name then some value else get_header name headers

-- `BOOTSTRAP_REJECTION_REASONS`.
pub data RejectionReason : Type 0 where
  missing_token query_token malformed_token unknown_token bad_secret : RejectionReason
  revoked expired cidr unknown_environment : RejectionReason

pub record BootstrapIdentity : Type 0 where
  pub token_id : String
  pub environment_id : String
  pub project_id : String
  pub source_ip : String
  pub max_pending_boots : ℕ

pub record BootstrapRejection : Type 0 where
  pub reason : RejectionReason
  pub close_code : CloseCode
  pub http_status : ℕ
  pub message : String

-- `BootstrapAuthResult`, also of the steps of the check.
pub data AuthResult {ℓ} (A : Type ℓ) : Type ℓ where
  ok : A → AuthResult A
  rejected : BootstrapRejection → AuthResult A

infixl 5 ◌>>=◌ ◌>>◌
abbrev pub ◌>>=◌ {ℓ κ} :
    {A : Type ℓ} {B : Type κ} → AuthResult A → (A → AuthResult B) → AuthResult B
ok a >>= f = f a
rejected r >>= f = rejected r

abbrev pub ◌>>◌ {ℓ} : {B : Type ℓ} → AuthResult (Unit {0}) → AuthResult B → AuthResult B
m >> k = m >>= λ _. k

unfoldable pub http_status_for : CloseCode → ℕ
http_status_for unauthorized = 401
http_status_for forbidden = 403
http_status_for rate_limited = 429
http_status_for normal = 400
http_status_for protocol_error = 400
http_status_for unknown_boot = 400
http_status_for conflict = 400
http_status_for terminal = 400

unfoldable pub reject : RejectionReason → CloseCode → String → BootstrapRejection
unfolding http_status_for
reject reason close_code message = record {
  reason = reason;
  close_code = close_code;
  http_status = http_status_for close_code;
  message = message;
}

-- An early return when the test fails, or when there is no value.
abbrev pub check : Bool → BootstrapRejection → AuthResult (Unit {0})
check true r = ok tt
check false r = rejected r

abbrev pub require {ℓ} : {A : Type ℓ} → Option A → BootstrapRejection → AuthResult A
require none r = rejected r
require (some a) r = ok a

-- `request.headers.get("Authorization")`, if it starts with "Bearer ", and what follows.
abbrev pub after_bearer : Option String → Option Text
after_bearer none = none
after_bearer (some header) =
    if starts_with (codes "Bearer ") (codes header) then some (drop 7 (codes header)) else none

unfoldable pub bearer : Headers → Option Text
unfolding get_header starts_with
bearer headers = after_bearer (get_header "authorization" headers)

unfoldable pub is_unexpired : ℕ → Option ℕ → Bool
is_unexpired now none = true
is_unexpired now (some expires_at) = not (leb expires_at now)

unfoldable pub address_allowed : String → Option (List String) → Bool
address_allowed source_ip none = false
address_allowed source_ip (some cidrs) = ip_allowed (codes source_ip) (map codes cidrs)

abbrev pub is_unset : Option ℕ → Bool
is_unset none = true
is_unset (some at) = false

-- `request.headers.get("CF-Connecting-IP") ?? ""`.
unfoldable pub source_ip_of : Headers → String
source_ip_of headers = Option.get_or (get_header "cf-connecting-ip" headers) ""

-- The database at each of the three statements, and `new Date()`.
pub record Moments : Type 0 where
  pub at_token : VaultDatabase
  pub at_environment : VaultDatabase
  pub at_touch : VaultDatabase
  pub now : ℕ

-- The presented token, before the first query.
unfoldable pub presented_token : Request → AuthResult ParsedBootstrapToken
presented_token request = do
  check (not request.has_token_parameter) (
      reject query_token unauthorized
        "Send the bootstrap token in the Authorization header, never in the query string.")
  header ←
      require (bearer request.headers)
        (reject missing_token unauthorized "Missing bootstrap token.")
  require (parse_bootstrap_token header)
      (reject malformed_token unauthorized "Malformed bootstrap token.")

unfoldable pub stored_token :
    Platform → VaultDatabase → ParsedBootstrapToken → AuthResult BootstrapTokenRow
stored_token platform db presented = do
  token ←
      require (get_bootstrap_token_by_token_id db (from_codes presented.token_id))
        (reject unknown_token unauthorized "Unknown bootstrap token.")
  check (verify_token_secret platform presented.secret (codes token.token_hash))
      (reject bad_secret unauthorized "Unknown bootstrap token.")
  ok token

unfoldable pub identify : Platform → Moments → Request → AuthResult BootstrapIdentity
identify platform moments request = do
  presented ← presented_token request
  token ← stored_token platform moments.at_token presented
  check (is_unset token.revoked_at) (reject revoked forbidden "This bootstrap token was revoked.")
  check (is_unexpired moments.now token.expires_at)
      (reject expired forbidden "This bootstrap token has expired.")
  check (address_allowed (source_ip_of request.headers) token.allowed_cidrs)
      (reject cidr forbidden "This source address is outside the token's allowed range.")
  environment ←
      require (get_environment moments.at_environment token.environment_id)
        (reject unknown_environment forbidden "The environment for this token no longer exists.")
  ok (record {
    token_id = token.id;
    environment_id = environment.id;
    project_id = environment.project_id;
    source_ip = source_ip_of request.headers;
    max_pending_boots = token.max_pending_boots;
  })

-- The result, and the database after it: only an accepted request marks its token as seen.
abbrev pub touch_when_ok :
    Moments → AuthResult BootstrapIdentity → AuthResult BootstrapIdentity × VaultDatabase
touch_when_ok moments (rejected r) = (rejected r, moments.at_touch)
touch_when_ok moments (ok identity) =
    (ok identity, touch_bootstrap_token_last_seen moments.at_touch identity.token_id moments.now)

unfoldable pub authenticate_bootstrap_request :
    Platform → Moments → Request → AuthResult BootstrapIdentity × VaultDatabase
unfolding identify
authenticate_bootstrap_request platform moments request =
    touch_when_ok moments (identify platform moments request)
