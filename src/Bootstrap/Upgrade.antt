-- ===== src/Bootstrap/Upgrade.antt =====
-- apps/control-plane/src/server/bootstrap/upgrade.ts and headers.ts. A response is its status and its
-- text, or what the router answers; the log lines are left out.
pub mod Forwarded
use mathlib.Core.Option
use keevault.Base.{
  String, ℕ, Bool, true, false, not, Option, none, some, List, [], ◌∷◌, filter, str_eq,
  if◌then◌else◌, map,
}
use keevault.Store.{VaultDatabase}
use keevault.Crypto.Text.{Text, codes, from_codes}
use keevault.Crypto.Text.Decimal.{decimal}
use keevault.Crypto.Token.{Platform}
use keevault.Crypto.Cidr.{lower_ascii}
use keevault.Bootstrap.Auth.{
  Headers, Request, get_header, BootstrapIdentity, BootstrapRejection, AuthResult, ok, rejected,
  Moments, authenticate_bootstrap_request,
}

abbrev pub internal_token_header : String
internal_token_header = "x-env-vault-token-id"

abbrev pub internal_environment_header : String
internal_environment_header = "x-env-vault-environment-id"

abbrev pub internal_project_header : String
internal_project_header = "x-env-vault-project-id"

abbrev pub internal_source_ip_header : String
internal_source_ip_header = "x-env-vault-source-ip"

abbrev pub internal_max_pending_header : String
internal_max_pending_header = "x-env-vault-max-pending"

abbrev pub internal_headers : List String
internal_headers =
    internal_token_header ∷ internal_environment_header ∷ internal_project_header
    ∷ internal_source_ip_header ∷ internal_max_pending_header ∷ []

abbrev pub bootstrap_path : String
bootstrap_path = "/bootstrap/v1"

unfoldable pub is_bootstrap_request : Request → Bool
is_bootstrap_request request = str_eq request.path bootstrap_path

-- `(request.headers.get("Upgrade") ?? "").toLowerCase() === "websocket"`.
unfoldable pub is_web_socket_upgrade : Request → Bool
unfolding get_header
is_web_socket_upgrade request =
    str_eq
      (from_codes
        (map lower_ascii (codes (Option.get_or (get_header "upgrade" request.headers) ""))))
      "websocket"

-- `headers.delete(name)` and `headers.set(name, value)`.
unfoldable pub delete_header : String → Headers → Headers
delete_header name [] = []
delete_header name ((key, value) ∷ headers) =
    let rest = delete_header name headers in if str_eq key name then rest else (key, value) ∷ rest

unfoldable pub set_header : String → String → Headers → Headers
unfolding delete_header
set_header name value headers = (name, value) ∷ delete_header name headers

unfoldable pub delete_headers : List String → Headers → Headers
delete_headers [] headers = headers
delete_headers (name ∷ names) headers = delete_headers names (delete_header name headers)

-- The headers of the request that goes to the Durable Object.
unfoldable pub internal_request_headers : BootstrapIdentity → Headers → Headers
unfolding delete_headers set_header
internal_request_headers identity headers =
    let stripped = delete_header "authorization" (delete_headers internal_headers headers) in
    set_header internal_max_pending_header (from_codes (decimal identity.max_pending_boots)) (
      set_header internal_source_ip_header identity.source_ip (
        set_header internal_project_header identity.project_id (
          set_header internal_environment_header identity.environment_id
            (set_header internal_token_header identity.token_id stripped))))

-- A response of the Worker's own, or the request that the router takes to an environment.
pub data Routed : Type 0 where
  respond : (status : ℕ) (text : String) → Routed
  forward : (environment_id : String) (request : Request) → Routed

abbrev pub route_identity : Request → AuthResult BootstrapIdentity → Routed
route_identity request (rejected r) = respond r.http_status r.message
route_identity request (ok identity) =
    forward identity.environment_id (record request {
      method = "GET";
      headers = internal_request_headers identity request.headers;
    })

unfoldable pub route_bootstrap_upgrade : Platform → Moments → Request → Routed
unfolding is_web_socket_upgrade
route_bootstrap_upgrade platform moments request =
    if not (str_eq request.method "GET")
    then respond 405 "Use GET with an Upgrade: websocket header."
    else if not (is_web_socket_upgrade request)
    then respond 426 "This endpoint speaks the bootstrap WebSocket protocol v1."
    else route_identity request (authenticate_bootstrap_request platform moments request).0
