-- ===== src/Bootstrap/Tests.antt =====
-- The bootstrap endpoint of apps/control-plane/src/server at a concrete database and request.
use native.Mathlib.Decide.{dec_lt}
use keevault.Base.{String, false, none, some, [], ◌∷◌, str_eq, ◌≡◌, ◌↔◌, refl, inl, arith}
use keevault.Protocol.Messages.{unauthorized}
use keevault.Provenance.{advisory}
use keevault.Store.{cloud, EnvironmentRow, BootstrapTokenRow, VaultDatabase}
use keevault.Store.Queries.{get_environment, get_bootstrap_token_by_token_id}
use keevault.Crypto.Text.{Text, codes, from_codes}
use keevault.Crypto.Encoding.{hex_encode}
use keevault.Crypto.Ulid.{is_ulid, is_crockford}
use keevault.Crypto.Encoding.Shape.{is_b64u}
use keevault.Crypto.Token.{Platform, hash_token_secret, parse_bootstrap_token}
use keevault.Bootstrap.Auth.{
  Request, get_header, bearer, BootstrapIdentity, ok, rejected, Moments, unknown_token, reject,
  presented_token, stored_token, authenticate_bootstrap_request, source_ip_of, identify,
}
use keevault.Bootstrap.Auth.Accepts.{Accepted, ok_of_Accepted, authenticate-ok_iff}
use keevault.Bootstrap.Auth.Refuses.{IsRefusal, authenticate-IsRefusal}
use keevault.Bootstrap.Upgrade.{forward, route_bootstrap_upgrade, internal_request_headers}
use keevault.Bootstrap.Upgrade.Forwarded.{Forwards, route-Forwards}

-- A platform whose digest is the text itself.
abbrev platform : Platform
platform = record { utf8_encode = λ t. t; sha256 = λ bytes. bytes }

abbrev id : Text
id = codes "01HF7YAT00041061050R3GG28A"

abbrev secret : Text
secret = codes "AQIDBAUGBwgJ_wECAwQFBgcICf8BAgMEBQYHCAn_A_o"

abbrev stored_hash : String
stored_hash =
    "41514944424155474277674a5f77454341775146426763494366384241674d454251594843416e5f415f6f"

abbrev environment : EnvironmentRow
environment = record {
  id = "env_1";
  project_id = "proj_1";
  key_mode = cloud;
  current_env_key_version = 1;
  provenance_mode = advisory;
  pending_ttl_seconds = 900;
  approved_ttl_seconds = 600;
}

abbrev token : BootstrapTokenRow
token = record {
  id = "tok_01HF7YAT00041061050R3GG28A";
  environment_id = "env_1";
  token_hash = stored_hash;
  allowed_cidrs = some [];
  max_pending_boots = 3;
  expires_at = some 2000;
  revoked_at = none;
  last_seen_at = none;
}

abbrev db : VaultDatabase
db = record {
  projects = [];
  project_keys = [];
  environment_keys = [];
  environments = environment ∷ [];
  tokens = token ∷ [];
  secrets = [];
  signers = [];
  policies = [];
  requests = [];
  approvals = [];
  audit = [];
}

abbrev moments : Moments
moments = record { at_token = db; at_environment = db; at_touch = db; now = 1000 }

-- A client that tries to name its own environment.
abbrev request : Request
request = record {
  method = "GET";
  path = "/bootstrap/v1";
  has_token_parameter = false;
  headers =
      ("upgrade", "WebSocket")
      ∷ (
        "authorization",
        "Bearer vlt_boot_01HF7YAT00041061050R3GG28A.AQIDBAUGBwgJ_wECAwQFBgcICf8BAgMEBQYHCAn_A_o",
      )
      ∷ ("cf-connecting-ip", "203.0.113.44")
      ∷ ("x-env-vault-environment-id", "env_other")
      ∷ [];
}

abbrev identity : BootstrapIdentity
identity = record {
  token_id = "tok_01HF7YAT00041061050R3GG28A";
  environment_id = "env_1";
  project_id = "proj_1";
  source_ip = "203.0.113.44";
  max_pending_boots = 3;
}

token_stored : get_bootstrap_token_by_token_id db (from_codes id) ≡ some token
unfolding get_bootstrap_token_by_token_id from_codes dec_lt str_eq
token_stored = refl

request-Accepted : Accepted platform moments request identity
unfolding hash_token_secret hex_encode bearer get_environment source_ip_of get_header is_ulid
    is_crockford is_b64u str_eq
request-Accepted = record {
  id = id;
  secret = secret;
  token = token;
  environment = environment;
  no_parameter = refl;
  in_header = refl;
  id_form = refl;
  secret_form = (refl, refl);
  stored = token_stored;
  secret_hash = refl;
  not_revoked = refl;
  before_expiry = λ at e. ground arith;
  allowed = ([], refl, inl refl);
  exists = refl;
  named = refl;
}

authenticate-ok_iff_example :
    ((authenticate_bootstrap_request platform moments request).0 ≡ ok identity)
    ↔ Accepted platform moments request identity
authenticate-ok_iff_example = authenticate-ok_iff platform moments request identity

identified : identify platform moments request ≡ ok identity
identified = ok_of_Accepted platform moments request identity request-Accepted

-- The same request where the token is not stored.
abbrev empty_moments : Moments
empty_moments = record moments { at_token = record db { tokens = [] } }

unknown :
    (authenticate_bootstrap_request platform empty_moments request).0
    ≡ rejected (reject unknown_token unauthorized "Unknown bootstrap token.")
unfolding authenticate_bootstrap_request identify presented_token stored_token
    get_bootstrap_token_by_token_id bearer get_header parse_bootstrap_token is_crockford is_b64u
    str_eq
unknown = refl

authenticate-IsRefusal_example :
    ((authenticate_bootstrap_request platform empty_moments request).1 ≡ db)
    × IsRefusal (reject unknown_token unauthorized "Unknown bootstrap token.")
authenticate-IsRefusal_example =
    authenticate-IsRefusal platform empty_moments request
      (reject unknown_token unauthorized "Unknown bootstrap token.") unknown

forwarded :
    route_bootstrap_upgrade platform moments request
    ≡ forward "env_1"
        (record request { headers = internal_request_headers identity request.headers })
unfolding route_bootstrap_upgrade authenticate_bootstrap_request get_header from_codes dec_lt str_eq
forwarded = rw identified refl

route-Forwards_example :
    Forwards platform moments request "env_1"
      (record request { headers = internal_request_headers identity request.headers })
route-Forwards_example =
    route-Forwards platform moments request "env_1"
      (record request { headers = internal_request_headers identity request.headers }) forwarded

-- The environment that the client named is replaced, and the token is gone.
replaced :
    (get_header "x-env-vault-environment-id" (internal_request_headers identity request.headers)
      ≡ some "env_1")
    × (get_header "authorization" (internal_request_headers identity request.headers) ≡ none)
unfolding get_header internal_request_headers str_eq
replaced = (refl, refl)
