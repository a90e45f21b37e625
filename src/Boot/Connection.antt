-- ===== src/Boot/Connection.antt =====
-- What the frame handlers of boot-session-core.ts share: the limits, the token of a boot and the reads
-- from D1 that wait. The handlers are in the modules below.
pub mod Hello
pub mod Resume
pub mod Challenge
pub mod Received
pub mod Frame
pub mod Safe
pub mod Quiet
pub mod Limits
pub mod TokenIds
pub mod Acknowledge
use Prim.Native.String.{◌++◌ as text_append}
use text.Mathlib.Text.{starts_with}
use keevault.Base.{
  ℕ, ◌+◌, ◌*◌, String, Bool, true, false, Option, none, some, List, [], ◌∷◌, ◌&&◌, ◌||◌, not,
  is_empty, length, str_eq, ltb, leb, if◌then◌else◌,
}
use keevault.Protocol.State.{
  BootStatus, pending, approved, delivered, consumed, declined, expired, canceled, consume,
  is_terminal,
}
use keevault.Protocol.Messages.{
  BootHello, ClientMessage, hello, resume, challenge_response, received, CloseCode, close_code,
  ResumedStatus, GitClaim, OciClaim, boot_pending, boot_challenge, boot_resumed, boot_consumed,
}
use keevault.Provenance.{VerifierInput, VerificationResult, TrustedSigner, ProvenanceMode}
use keevault.Provenance.Context.{ProvenanceContext, usable_signers, policy_entries}
use keevault.Store.{EnvironmentRow, BootstrapTokenRow, number}
use keevault.Store.Queries.{get_environment, get_bootstrap_token_by_token_id}
use keevault.Store.Writes.{insert_boot_request}
use keevault.Boot.{
  BootRow, ChallengeRow, BootIdentity, ProvenanceVerifier, World, Deps, M, pure, asks, pause, write,
  draw, ◌>>=◌, ◌>>◌,
}
use keevault.Boot.Table.{
  is_pending, read_boot, update_boot, insert_boot, count_pending, count_recent_from_source, apply,
  recompute_alarm, delete_challenges, insert_challenge, read_challenge,
}
use keevault.Boot.Report.{send, close, send_error, attached_boot_id, attach, audit, mirror}
use keevault.Boot.Lifecycle.{deliver_to, expire_if_due, expire_due, send_terminal_once, cancel_one}

-- `MAX_FRAME_BYTES`, `MAX_BOOTS_PER_SOURCE`, `MAX_PENDING_BOOTS_PER_TOKEN` and
-- `DEFAULT_CHALLENGE_TTL_SECONDS`.
abbrev pub max_frame_bytes : ℕ
max_frame_bytes = 1048576

abbrev pub max_boots_per_source : ℕ
max_boots_per_source = 10

abbrev pub max_pending_boots_per_token : ℕ
max_pending_boots_per_token = 3

abbrev pub default_challenge_ttl_seconds : ℕ
default_challenge_ttl_seconds = 30

abbrev pub is_some {ℓ} : {A : Type ℓ} → Option A → Bool
is_some none = false
is_some (some a) = true

abbrev pub optional : String → Option String
optional s = if str_eq s "" then none else some s

-- `identity.maxPendingBoots > 0 ? identity.maxPendingBoots : MAX_PENDING_BOOTS_PER_TOKEN`.
abbrev pub pending_limit : BootIdentity → ℕ
pending_limit identity =
    if ltb 0 identity.max_pending_boots
    then identity.max_pending_boots
    else max_pending_boots_per_token

abbrev claim_of {ℓ} : {A : Type ℓ} → (A → String) → Option A → Option String
claim_of field none = none
claim_of field (some claim) = some (field claim)

-- A `tok_`-prefixed row id without its prefix: `tokenId.replace(/^tok_/, "")`.
abbrev drop_prefix : String → String → String
drop_prefix String.[] s = s
drop_prefix (String.◌∷◌ c p) String.[] = String.[]
drop_prefix (String.◌∷◌ c p) (String.◌∷◌ x s) = drop_prefix p s

unfoldable pub bare_token_id : String → String
bare_token_id token_id =
    if starts_with token_id "tok_" then drop_prefix "tok_" token_id else token_id

-- A token that is unrevoked and unexpired at a time.
abbrev pub not_expired : Option ℕ → ℕ → Bool
not_expired none now = true
not_expired (some at) now = ltb now at

abbrev pub token_valid : ℕ → Option BootstrapTokenRow → Bool
token_valid now none = false
token_valid now (some token) = not (is_some token.revoked_at) && not_expired token.expires_at now

abbrev or_now : Option ℕ → ℕ → ℕ
or_now none now = now
or_now (some at) now = at

abbrev resumed_status : BootStatus → ResumedStatus
resumed_status pending = ResumedStatus.pending
resumed_status approved = ResumedStatus.approved
resumed_status _ = ResumedStatus.delivered

module _ (d : Deps) where
  unfoldable pub get_token : String → M (Option BootstrapTokenRow)
  unfolding bare_token_id
  get_token token_id = do
    pause d
    asks (λ w. get_bootstrap_token_by_token_id w.db (bare_token_id token_id))

  unfoldable pub read_environment : String → M (Option EnvironmentRow)
  read_environment environment_id = do pause d; asks (λ w. get_environment w.db environment_id)

  -- `loadProvenanceContext`: one statement for the signers and one for the policies.
  unfoldable pub load_provenance_context : String → ProvenanceMode → M ProvenanceContext
  load_provenance_context environment_id mode = do
    pause d
    signers ← asks (λ w. usable_signers w.db environment_id)
    pause d
    policies ← asks (λ w. policy_entries w.db environment_id)
    pure (record { mode = mode; signers = signers; policies = policies })

  -- `runVerifiers`.
  unfoldable pub run_verifiers :
      List ProvenanceVerifier → VerifierInput → M (List VerificationResult)
  run_verifiers [] input = pure []
  run_verifiers (v ∷ verifiers) input = do
    pause d
    results ← run_verifiers verifiers input
    pure (v.verify input ∷ results)
