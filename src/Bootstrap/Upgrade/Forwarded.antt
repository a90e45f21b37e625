-- ===== src/Bootstrap/Upgrade/Forwarded.antt =====
-- The headers that bootstrap/upgrade.ts hands to the Durable Object.
use keevault.Base.{
  String, ℕ, Bool, true, false, not, Option, none, some, [], ◌∷◌, str_eq, str_eq_iff, if◌then◌else◌,
  ◌≡◌, refl, sym, ap, ◌∙◌, arith,
}
use keevault.Crypto.Text.{from_codes}
use keevault.Crypto.Text.Decimal.{decimal}
use keevault.Crypto.Token.{Platform}
use keevault.Bootstrap.Auth.{
  Headers, Request, get_header, BootstrapIdentity, AuthResult, ok, rejected, Moments,
  authenticate_bootstrap_request,
}
use keevault.Bootstrap.Auth.Accepts.{Accepted, authenticate-ok_iff}
use keevault.Bootstrap.Upgrade.{
  internal_token_header, internal_environment_header, internal_project_header,
  internal_source_ip_header, internal_max_pending_header, is_web_socket_upgrade, delete_header,
  set_header, delete_headers, internal_request_headers, Routed, respond, forward, route_identity,
  route_bootstrap_upgrade,
}

get-delete_header :
    (name key : String) (headers : Headers)
    → get_header name (delete_header key headers)
      ≡ (if str_eq key name then none else get_header name headers)
unfolding get_header delete_header
get-delete_header name key [] = ground arith
get-delete_header name key ((k, v) ∷ headers) = ground (
  arith,
  str_eq_iff k key,
  str_eq_iff k name,
  str_eq_iff key name,
  get-delete_header name key headers,
)

get-set_header :
    (name key value : String) (headers : Headers)
    → get_header name (set_header key value headers)
      ≡ (if str_eq key name then some value else get_header name headers)
unfolding get_header set_header
get-set_header name key value headers = ground (arith, get-delete_header name key headers)

-- What the Durable Object reads under a name.
abbrev pub forwarded_header : BootstrapIdentity → Headers → String → Option String
forwarded_header identity headers name =
    if str_eq internal_max_pending_header name
    then some (from_codes (decimal identity.max_pending_boots))
    else if str_eq internal_source_ip_header name
    then some identity.source_ip
    else if str_eq internal_project_header name
    then some identity.project_id
    else if str_eq internal_environment_header name
    then some identity.environment_id
    else if str_eq internal_token_header name
    then some identity.token_id
    else if str_eq "authorization" name
    then none
    else get_header name headers

-- A name that was tested before is not tested again.
tested_once :
    (a b c d e f : Bool) (va vb vc vd ve rest : Option String)
    → (if a
        then va
        else if b
        then vb
        else if c
        then vc
        else if d
        then vd
        else if e
        then ve
        else if f
        then none
        else if a
        then none
        else if b
        then none
        else if c
        then none
        else if d
        then none
        else if e
        then none
        else rest)
      ≡ (if a
          then va
          else if b
          then vb
          else if c
          then vc
          else if d
          then vd
          else if e
          then ve
          else if f
          then none
          else rest)
tested_once true b c d e f va vb vc vd ve rest = refl
tested_once false true c d e f va vb vc vd ve rest = refl
tested_once false false true d e f va vb vc vd ve rest = refl
tested_once false false false true e f va vb vc vd ve rest = refl
tested_once false false false false true f va vb vc vd ve rest = refl
tested_once false false false false false true va vb vc vd ve rest = refl
tested_once false false false false false false va vb vc vd ve rest = refl

get-internal_request_headers :
    (identity : BootstrapIdentity) (headers : Headers) (name : String)
    → get_header name (internal_request_headers identity headers)
      ≡ forwarded_header identity headers name
unfolding internal_request_headers delete_headers
get-internal_request_headers identity headers name =
    simp (get-set_header, get-delete_header)
      (tested_once (str_eq internal_max_pending_header name) (str_eq internal_source_ip_header name)
        (str_eq internal_project_header name) (str_eq internal_environment_header name)
        (str_eq internal_token_header name) (str_eq "authorization" name)
        (some (from_codes (decimal identity.max_pending_boots))) (some identity.source_ip)
        (some identity.project_id) (some identity.environment_id) (some identity.token_id)
        (get_header name headers))

-- A request that is forwarded.
abbrev pub Forwards : Platform → Moments → Request → String → Request → Type 0
Forwards platform moments request environment_id forwarded =
    (identity : BootstrapIdentity) × Accepted platform moments request identity
    × (environment_id ≡ identity.environment_id)
    × ((name : String)
        → get_header name forwarded.headers ≡ forwarded_header identity request.headers name)

forward-environment : {a b : String} {r s : Request} → forward a r ≡ forward b s → a ≡ b
forward-environment h = cc

forward-request : {a b : String} {r s : Request} → forward a r ≡ forward b s → r ≡ s
forward-request h = cc

route_identity-Forwards :
    (platform : Platform) (moments : Moments) (request : Request)
    (result : AuthResult BootstrapIdentity) (environment_id : String) (forwarded : Request)
    → ((identity : BootstrapIdentity)
        → result ≡ ok identity
        → Accepted platform moments request identity)
    → route_identity request result ≡ forward environment_id forwarded
    → Forwards platform moments request environment_id forwarded
route_identity-Forwards platform moments request (rejected r) environment_id forwarded accepts h =
    cc
route_identity-Forwards platform moments request (ok identity) environment_id forwarded accepts h =
    (
      identity,
      accepts identity refl,
      sym (forward-environment h),
      λ name.
          ap (λ (r : Request). get_header name r.headers) (sym (forward-request h))
          ∙ get-internal_request_headers identity request.headers name,
    )

past_response :
    (b : Bool) (status : ℕ) (text : String) (rest : Routed) {e : String} {f : Request}
    → (if b then respond status text else rest) ≡ forward e f
    → rest ≡ forward e f
past_response true status text rest h = cc
past_response false status text rest h = h

-- A request is forwarded only if it was accepted, to the environment of its token, and there each
-- internal header reads as what the check has shown, whatever the client sent under that name, the
-- token is not among the headers, and any other header reads as the client sent it.
pub route-Forwards :
    (platform : Platform) (moments : Moments) (request : Request) (environment_id : String)
    (forwarded : Request)
    → route_bootstrap_upgrade platform moments request ≡ forward environment_id forwarded
    → Forwards platform moments request environment_id forwarded
unfolding route_bootstrap_upgrade
route-Forwards platform moments request environment_id forwarded h =
    let h1 = past_response (not (str_eq request.method "GET")) _ _ _ h in
    let h2 = past_response (not (is_web_socket_upgrade request)) _ _ _ h1 in
    route_identity-Forwards platform moments request
      (authenticate_bootstrap_request platform moments request).0 environment_id forwarded
      (λ identity. (authenticate-ok_iff platform moments request identity).0) h2
