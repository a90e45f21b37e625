-- ===== src/Bootstrap/Auth/Accepts.antt =====
-- The bootstrap requests that vault/bootstrap-auth.ts accepts, and what it answers to the others.
use mathlib.Core.Path.{subst}
use mathlib.Core.List.{Memᴰ}
use mathlib.Core.Option.{some-injective}
use keevault.Base.{
  ℕ, ◌<◌, String, Bool, true, false, not, Option, none, some, List, [], map, ◌≡◌, ◌↔◌, ◌⊎◌, refl,
  sym, ap, ◌∙◌, arith,
}
use keevault.Store.{BootstrapTokenRow, EnvironmentRow, VaultDatabase}
use keevault.Store.Queries.{get_environment, get_bootstrap_token_by_token_id}
use keevault.Crypto.Text.{Text, codes, from_codes}
use keevault.Crypto.Token.{
  Platform, ParsedBootstrapToken, parse_bootstrap_token, verify_token_secret, hash_token_secret,
}
use keevault.Crypto.Token.Laws.{
  IsTokenId, IsSecret, token_text, verify_token_secret_iff, parse_bootstrap_token_iff,
}
use keevault.Crypto.Cidr.Match.{InCidr, ip_allowed_iff}
use keevault.Bootstrap.Auth.{
  Request, bearer, BootstrapIdentity, BootstrapRejection, AuthResult, ok, rejected, ◌>>=◌, check,
  require, is_unexpired, address_allowed, is_unset, source_ip_of, Moments, presented_token,
  stored_token, identify, touch_when_ok, authenticate_bootstrap_request,
}

-- The source address is in one of the token's blocks, or the token has none.
abbrev pub Allowed : String → Option (List String) → Type 0
Allowed source_ip blocks =
    (cidrs : List String) × (blocks ≡ some cidrs)
    × ((map codes cidrs ≡ [])
        ⊎ ((cidr : Text) × Memᴰ cidr (map codes cidrs) × InCidr (codes source_ip) cidr))

-- What an accepted request has shown: the secret of a stored token, in the header, that is neither
-- revoked nor expired, from an address that the token allows, for an environment that exists.
pub record Accepted (platform : Platform) (moments : Moments) (request : Request)
    (identity : BootstrapIdentity) : Type 0 where
  pub id : Text
  pub secret : Text
  pub token : BootstrapTokenRow
  pub environment : EnvironmentRow
  pub no_parameter : request.has_token_parameter ≡ false
  pub in_header : bearer request.headers ≡ some (token_text id secret)
  pub id_form : IsTokenId id
  pub secret_form : IsSecret secret
  pub stored : get_bootstrap_token_by_token_id moments.at_token (from_codes id) ≡ some token
  pub secret_hash :
      platform.utf8_encode (hash_token_secret platform secret)
      ≡ platform.utf8_encode (codes token.token_hash)
  pub not_revoked : token.revoked_at ≡ none
  pub before_expiry : (at : ℕ) → token.expires_at ≡ some at → moments.now < at
  pub allowed : Allowed (source_ip_of request.headers) token.allowed_cidrs
  pub exists : get_environment moments.at_environment token.environment_id ≡ some environment
  pub named : identity ≡ record {
    token_id = token.id;
    environment_id = environment.id;
    project_id = environment.project_id;
    source_ip = source_ip_of request.headers;
    max_pending_boots = token.max_pending_boots;
  }

then-eq-ok {ℓ κ} :
    {A : Type ℓ} {B : Type κ} {y : B} (first : AuthResult A) (next : A → AuthResult B)
    → (first >>= next) ≡ ok y
    → (x : A) × (first ≡ ok x) × (next x ≡ ok y)
then-eq-ok (rejected reason) next h = cc
then-eq-ok (ok x) next h = (x, refl, h)

check-eq-ok {ℓ} :
    {B : Type ℓ} (b : Bool) (r : BootstrapRejection) (k : AuthResult B) {y : B}
    → (check b r >>= λ _. k) ≡ ok y
    → (b ≡ true) × (k ≡ ok y)
check-eq-ok true r k h = (refl, h)
check-eq-ok false r k h = cc

not-true : (b : Bool) → not b ≡ true → b ≡ false
not-true true h = cc
not-true false h = refl

ok-injective {ℓ} : {A : Type ℓ} {a b : A} → ◌≡◌ {A = AuthResult A} (ok a) (ok b) → a ≡ b
ok-injective h = cc

require-eq-ok {ℓ} :
    {A : Type ℓ} (o : Option A) (r : BootstrapRejection) {a : A} → require o r ≡ ok a → o ≡ some a
require-eq-ok none r h = cc
require-eq-ok (some a) r h = cc

is_live_iff :
    (now : ℕ) (expires : Option ℕ)
    → (is_unexpired now expires ≡ true) ↔ ((at : ℕ) → expires ≡ some at → now < at)
unfolding is_unexpired
is_live_iff now none = (λ h at e. cc, λ h. refl)
is_live_iff now (some t) = (
  λ h at e. let same = some-injective _ _ e in ground arith,
  λ h. let later = h t refl in ground arith,
)

is_unset_iff : (o : Option ℕ) → (is_unset o ≡ true) ↔ (o ≡ none)
is_unset_iff none = (λ h. refl, λ h. refl)
is_unset_iff (some at) = (λ h. cc, λ h. cc)

address_allowed_iff :
    (source_ip : String) (blocks : Option (List String))
    → (address_allowed source_ip blocks ≡ true) ↔ Allowed source_ip blocks
unfolding address_allowed
address_allowed_iff source_ip none = (λ h. cc, λ (cidrs, e, _). cc e)
address_allowed_iff source_ip (some cidrs) =
    let (to, from) = ip_allowed_iff (codes source_ip) (map codes cidrs) in
    (
      λ h. (cidrs, refl, to h),
      λ (cidrs', e, inside). from (
          subst
            (λ cs.
              (map codes cs ≡ [])
              ⊎ ((cidr : Text) × Memᴰ cidr (map codes cs) × InCidr (codes source_ip) cidr))
            (sym (some-injective _ _ e)) inside),
    )

-- The steps before the first query.
presented_token-eq-ok :
    (request : Request) (p : ParsedBootstrapToken)
    → presented_token request ≡ ok p
    → (request.has_token_parameter ≡ false)
      × (bearer request.headers ≡ some (token_text p.token_id p.secret))
      × IsTokenId p.token_id
      × IsSecret p.secret
unfolding presented_token
presented_token-eq-ok request p h =
    let (no_parameter, h1) = check-eq-ok (not request.has_token_parameter) _ _ h in
    let (header, e, h2) = then-eq-ok (require (bearer request.headers) _) _ h1 in
    let (text, id, secret) =
      (parse_bootstrap_token_iff header p).0 (require-eq-ok (parse_bootstrap_token header) _ h2) in
    (
      not-true request.has_token_parameter no_parameter,
      require-eq-ok (bearer request.headers) _ e ∙ ap some text,
      id,
      secret,
    )

stored_token-eq-ok :
    (platform : Platform) (db : VaultDatabase) (p : ParsedBootstrapToken)
    (token : BootstrapTokenRow)
    → stored_token platform db p ≡ ok token
    → (get_bootstrap_token_by_token_id db (from_codes p.token_id) ≡ some token)
      × (platform.utf8_encode (hash_token_secret platform p.secret)
          ≡ platform.utf8_encode (codes token.token_hash))
unfolding stored_token
stored_token-eq-ok platform db p token h =
    let (found, e, h1) =
      then-eq-ok (require (get_bootstrap_token_by_token_id db (from_codes p.token_id)) _) _ h in
    let (verified, same) =
      check-eq-ok (verify_token_secret platform p.secret (codes found.token_hash)) _ _ h1 in
    let one = ok-injective same in
    (
      require-eq-ok (get_bootstrap_token_by_token_id db (from_codes p.token_id)) _ e ∙ ap some one,
      (verify_token_secret_iff platform p.secret (codes found.token_hash)).0 verified
          ∙ ap (λ (t : BootstrapTokenRow). platform.utf8_encode (codes t.token_hash)) one,
    )

presented_token-ok :
    (request : Request) (id secret : Text)
    → request.has_token_parameter ≡ false
    → bearer request.headers ≡ some (token_text id secret)
    → IsTokenId id
    → IsSecret secret
    → presented_token request ≡ ok (record { token_id = id; secret = secret })
unfolding presented_token
presented_token-ok request id secret no_parameter in_header id_form secret_form =
    let parsed =
      (parse_bootstrap_token_iff (token_text id secret)
          (record { token_id = id; secret = secret })).1
        (refl, id_form, secret_form) in
    rw (no_parameter, in_header, parsed) refl

stored_token-ok :
    (platform : Platform) (db : VaultDatabase) (p : ParsedBootstrapToken)
    (token : BootstrapTokenRow)
    → get_bootstrap_token_by_token_id db (from_codes p.token_id) ≡ some token
    → platform.utf8_encode (hash_token_secret platform p.secret)
      ≡ platform.utf8_encode (codes token.token_hash)
    → stored_token platform db p ≡ ok token
unfolding stored_token
stored_token-ok platform db p token found hash =
    let verified = (verify_token_secret_iff platform p.secret (codes token.token_hash)).1 hash in
    rw (found, verified) refl

Accepted-of_ok :
    (platform : Platform) (moments : Moments) (request : Request) (identity : BootstrapIdentity)
    → identify platform moments request ≡ ok identity
    → Accepted platform moments request identity
unfolding identify
Accepted-of_ok platform moments request identity h =
    let (p, e, h1) = then-eq-ok (presented_token request) _ h in
    let (token, f, h2) = then-eq-ok (stored_token platform moments.at_token p) _ h1 in
    let (unset, h3) = check-eq-ok (is_unset token.revoked_at) _ _ h2 in
    let (live, h4) = check-eq-ok (is_unexpired moments.now token.expires_at) _ _ h3 in
    let (inside, h5) =
      check-eq-ok (address_allowed (source_ip_of request.headers) token.allowed_cidrs) _ _ h4 in
    let (environment, g, made) =
      then-eq-ok (require (get_environment moments.at_environment token.environment_id) _) _ h5 in
    let (no_parameter, in_header, id_form, secret_form) = presented_token-eq-ok request p e in
    let (found, hash) = stored_token-eq-ok platform moments.at_token p token f in
    record {
      id = p.token_id;
      secret = p.secret;
      token = token;
      environment = environment;
      no_parameter = no_parameter;
      in_header = in_header;
      id_form = id_form;
      secret_form = secret_form;
      stored = found;
      secret_hash = hash;
      not_revoked = (is_unset_iff token.revoked_at).0 unset;
      before_expiry = (is_live_iff moments.now token.expires_at).0 live;
      allowed = (address_allowed_iff (source_ip_of request.headers) token.allowed_cidrs).0 inside;
      exists = require-eq-ok (get_environment moments.at_environment token.environment_id) _ g;
      named = sym (ok-injective made);
    }

pub ok_of_Accepted :
    (platform : Platform) (moments : Moments) (request : Request) (identity : BootstrapIdentity)
    → Accepted platform moments request identity
    → identify platform moments request ≡ ok identity
unfolding identify
ok_of_Accepted platform moments request identity a =
    let presented =
      presented_token-ok request a.id a.secret a.no_parameter a.in_header a.id_form a.secret_form in
    let stored =
      stored_token-ok platform moments.at_token (record { token_id = a.id; secret = a.secret })
        a.token a.stored a.secret_hash in
    let unset = (is_unset_iff a.token.revoked_at).1 a.not_revoked in
    let live = (is_live_iff moments.now a.token.expires_at).1 a.before_expiry in
    let inside =
      (address_allowed_iff (source_ip_of request.headers) a.token.allowed_cidrs).1 a.allowed in
    rw (presented, stored, unset, live, inside, a.exists) (ap ok (sym a.named))

touch-ok_iff :
    (moments : Moments) (r : AuthResult BootstrapIdentity) (identity : BootstrapIdentity)
    → ((touch_when_ok moments r).0 ≡ ok identity) ↔ (r ≡ ok identity)
touch-ok_iff moments (ok i) identity = (λ h. h, λ h. h)
touch-ok_iff moments (rejected r) identity = (λ h. h, λ h. h)

-- A request is accepted as `identity` exactly when its query has no token, its header carries an id
-- and a secret in their form, the id is that of a stored token whose hash the secret has and which is
-- neither revoked nor expired, its address is in one of the token's blocks or the token has none, the
-- token's environment exists, and `identity` names these.
pub authenticate-ok_iff :
    (platform : Platform) (moments : Moments) (request : Request) (identity : BootstrapIdentity)
    → ((authenticate_bootstrap_request platform moments request).0 ≡ ok identity)
      ↔ Accepted platform moments request identity
unfolding authenticate_bootstrap_request
authenticate-ok_iff platform moments request identity =
    let (to, from) = touch-ok_iff moments (identify platform moments request) identity in
    (
      λ h. Accepted-of_ok platform moments request identity (to h),
      λ a. from (ok_of_Accepted platform moments request identity a),
    )
