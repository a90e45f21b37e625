-- ===== src/Bootstrap/Auth/Refuses.antt =====
-- The refusals of vault/bootstrap-auth.ts: their reasons, codes and messages.
use mathlib.Core.Path.{subst}
use keevault.Base.{ℕ, String, Bool, true, false, not, Option, none, some, ◌≡◌, refl, ap}
use keevault.Protocol.Messages.{CloseCode, unauthorized, forbidden}
use keevault.Store.{VaultDatabase}
use keevault.Store.Queries.{get_environment, get_bootstrap_token_by_token_id}
use keevault.Crypto.Text.{codes, from_codes}
use keevault.Crypto.Token.{
  Platform, ParsedBootstrapToken, parse_bootstrap_token, verify_token_secret,
}
use keevault.Bootstrap.Auth.{
  Request, RejectionReason, missing_token, query_token, malformed_token, unknown_token, bad_secret,
  revoked, expired, cidr, unknown_environment, BootstrapIdentity, BootstrapRejection, AuthResult,
  ok, rejected, ◌>>=◌, reject, check, require, Moments, presented_token, stored_token, identify,
  touch_when_ok, authenticate_bootstrap_request, bearer, is_unset, is_unexpired, address_allowed,
  source_ip_of,
}

-- The code that the caller uses: before the token is known it is not said to be forbidden anything.
abbrev pub code_of : RejectionReason → CloseCode
code_of missing_token = unauthorized
code_of query_token = unauthorized
code_of malformed_token = unauthorized
code_of unknown_token = unauthorized
code_of bad_secret = unauthorized
code_of revoked = forbidden
code_of expired = forbidden
code_of cidr = forbidden
code_of unknown_environment = forbidden

abbrev pub status_of : RejectionReason → ℕ
status_of missing_token = 401
status_of query_token = 401
status_of malformed_token = 401
status_of unknown_token = 401
status_of bad_secret = 401
status_of revoked = 403
status_of expired = 403
status_of cidr = 403
status_of unknown_environment = 403

-- What the client is told; an unknown token and a wrong secret are told apart by nothing.
abbrev pub message_of : RejectionReason → String
message_of missing_token = "Missing bootstrap token."
message_of query_token =
    "Send the bootstrap token in the Authorization header, never in the query string."
message_of malformed_token = "Malformed bootstrap token."
message_of unknown_token = "Unknown bootstrap token."
message_of bad_secret = "Unknown bootstrap token."
message_of revoked = "This bootstrap token was revoked."
message_of expired = "This bootstrap token has expired."
message_of cidr = "This source address is outside the token's allowed range."
message_of unknown_environment = "The environment for this token no longer exists."

abbrev pub IsRefusal : BootstrapRejection → Type 0
IsRefusal r =
    (r.close_code ≡ code_of r.reason)
    × (r.http_status ≡ status_of r.reason)
    × (r.message ≡ message_of r.reason)

-- Each refusal of a step is one of these.
abbrev Refuses {ℓ} : {A : Type ℓ} → AuthResult A → Type ℓ
Refuses m = (r : BootstrapRejection) → m ≡ rejected r → IsRefusal r

rejected-injective {ℓ} :
    {A : Type ℓ} {r s : BootstrapRejection}
    → ◌≡◌ {A = AuthResult A} (rejected r) (rejected s)
    → r ≡ s
rejected-injective h = cc

ok-ne-rejected {ℓ} :
    {A : Type ℓ} {a : A} {r : BootstrapRejection} → ◌≡◌ {A = AuthResult A} (ok a) (rejected r) → ⊥
ok-ne-rejected h = cc

Refuses-bind {ℓ κ} :
    {A : Type ℓ} {B : Type κ} (m : AuthResult A) (f : A → AuthResult B)
    → ((r : BootstrapRejection) → m ≡ rejected r → IsRefusal r)
    → ((a : A) (r : BootstrapRejection) → f a ≡ rejected r → IsRefusal r)
    → (r : BootstrapRejection) → (m >>= f) ≡ rejected r
    → IsRefusal r
Refuses-bind (ok a) f hm hf r h = hf a r h
Refuses-bind (rejected s) f hm hf r h = hm r (ap rejected (rejected-injective h))

Refuses-check :
    (b : Bool) (s r : BootstrapRejection) → IsRefusal s → check b s ≡ rejected r → IsRefusal r
Refuses-check true s r known h = cc
Refuses-check false s r known h = subst IsRefusal (rejected-injective h) known

Refuses-require {ℓ} :
    {A : Type ℓ} (o : Option A) (s r : BootstrapRejection)
    → IsRefusal s
    → require o s ≡ rejected r
    → IsRefusal r
Refuses-require none s r known h = subst IsRefusal (rejected-injective h) known
Refuses-require (some a) s r known h = cc

presented_token-Refuses :
    (request : Request) (r : BootstrapRejection)
    → presented_token request ≡ rejected r
    → IsRefusal r
unfolding presented_token reject
presented_token-Refuses request =
    Refuses-bind (check (not request.has_token_parameter) _) _
      (λ r. Refuses-check (not request.has_token_parameter) _ r (refl, refl, refl))
      λ _.
        Refuses-bind (require (bearer request.headers) _) _
          (λ r. Refuses-require (bearer request.headers) _ r (refl, refl, refl))
          λ header r. Refuses-require (parse_bootstrap_token header) _ r (refl, refl, refl)

stored_token-Refuses :
    (platform : Platform) (db : VaultDatabase) (p : ParsedBootstrapToken) (r : BootstrapRejection)
    → stored_token platform db p ≡ rejected r
    → IsRefusal r
unfolding stored_token reject
stored_token-Refuses platform db p =
    Refuses-bind (require (get_bootstrap_token_by_token_id db (from_codes p.token_id)) _) _
      (λ r.
        Refuses-require (get_bootstrap_token_by_token_id db (from_codes p.token_id)) _ r
          (refl, refl, refl))
      λ token.
        Refuses-bind (check (verify_token_secret platform p.secret (codes token.token_hash)) _) _
          (λ r.
            Refuses-check (verify_token_secret platform p.secret (codes token.token_hash)) _ r
              (refl, refl, refl))
          λ _ r h. absurd (ok-ne-rejected h)

identify-Refuses :
    (platform : Platform) (moments : Moments) (request : Request) (r : BootstrapRejection)
    → identify platform moments request ≡ rejected r
    → IsRefusal r
unfolding identify reject
identify-Refuses platform moments request =
    Refuses-bind (presented_token request) _ (presented_token-Refuses request) λ p.
      Refuses-bind (stored_token platform moments.at_token p) _
        (stored_token-Refuses platform moments.at_token p)
        λ token.
          Refuses-bind (check (is_unset token.revoked_at) _) _
            (λ r. Refuses-check (is_unset token.revoked_at) _ r (refl, refl, refl))
            λ _.
              Refuses-bind (check (is_unexpired moments.now token.expires_at) _) _
                (λ r.
                  Refuses-check (is_unexpired moments.now token.expires_at) _ r (refl, refl, refl))
                λ _.
                  Refuses-bind
                    (check (address_allowed (source_ip_of request.headers) token.allowed_cidrs) _) _
                    (λ r.
                      Refuses-check
                        (address_allowed (source_ip_of request.headers) token.allowed_cidrs) _ r
                        (refl, refl, refl))
                    λ _.
                      Refuses-bind
                        (require (get_environment moments.at_environment token.environment_id) _) _
                        (λ r.
                          Refuses-require
                            (get_environment moments.at_environment token.environment_id) _ r
                            (refl, refl, refl))
                        λ environment r h. absurd (ok-ne-rejected h)

-- Whatever the reason, a refused request leaves the database as it is, and its code, HTTP status and
-- message are those of its reason: 401 until the token is known and 403 after, and the same message
-- for an unknown token as for a wrong secret.
pub authenticate-IsRefusal :
    (platform : Platform) (moments : Moments) (request : Request) (r : BootstrapRejection)
    → (authenticate_bootstrap_request platform moments request).0 ≡ rejected r
    → ((authenticate_bootstrap_request platform moments request).1 ≡ moments.at_touch) × IsRefusal r
unfolding authenticate_bootstrap_request
authenticate-IsRefusal platform moments request r =
    go (identify platform moments request) (identify-Refuses platform moments request r)
  where
    go :
        (result : AuthResult BootstrapIdentity)
        → (result ≡ rejected r → IsRefusal r)
        → (touch_when_ok moments result).0 ≡ rejected r
        → ((touch_when_ok moments result).1 ≡ moments.at_touch) × IsRefusal r
    go (ok identity) refusal h = absurd (ok-ne-rejected h)
    go (rejected s) refusal h = (refl, refusal h)
