-- ===== src/Boot.antt =====
-- The boot session of one environment: the state of BootSessionCore in
-- apps/control-plane/src/server/durable-objects/boot-session-core.ts, its dependencies, and the
-- monad in which its methods run. A stored JSON text is kept as the value that it stands for, and
-- a time as epoch milliseconds.
pub mod Table
pub mod Safe
pub mod Report
pub mod Lifecycle
pub mod Connection
pub mod Result
pub mod Approval
pub mod Admin
pub mod Quiet
pub mod Session
mod Tests
use mathlib.Core.Path.{◌≡◌}
use keevault.Base.{ℕ, suc, String, Bool, Option, none, some, List, ◌∷◌}
use keevault.Protocol.State.{BootStatus}
use keevault.Protocol.Messages.{WorkloadClaims, Evidence, SecretRecord, KeyEnvelope, ServerMessage}
use keevault.Provenance.{VerifierInput, VerificationResult}
use keevault.Store.{VaultDatabase, EnvironmentRow, KeyMode}

-- The row of the table `boots`.
pub record BootRow : Type 0 where
  pub id : String
  pub environment_id : String
  pub project_id : String
  pub status : BootStatus
  pub token_id : String
  pub source_ip : Option String
  pub signing_pk : String
  pub encryption_pk : String
  pub signing_fp : String
  pub encryption_fp : String
  pub claims : WorkloadClaims
  pub evidence : List Evidence
  pub provenance : List VerificationResult
  pub created_at : ℕ
  pub pending_expires_at : Option ℕ
  pub approved_at : Option ℕ
  pub payload_expires_at : Option ℕ
  pub delivered_frame : Option ServerMessage
  pub payload_digest : Option String
  pub consumed_at : Option ℕ
  pub terminal_reason : Option String

-- The row of the table `challenges`; the column `used` is always 0.
pub record ChallengeRow : Type 0 where
  pub boot_id : String
  pub challenge : String
  pub expires_at : ℕ

-- `PreparedBootApproval`.
pub record PreparedBootApproval : Type 0 where
  pub context_id : String
  pub boot_id : String
  pub environment_id : String
  pub project_id : String
  pub key_mode : KeyMode
  pub environment_key_version : ℕ
  pub recipient_public_key : String
  pub evidence_digest : String
  pub secrets_digest : String
  pub expires_at : ℕ
  pub payload_expires_at : ℕ

-- The row of the table `approval_contexts`.
pub record ApprovalContextRow : Type 0 where
  pub context_id : String
  pub boot_id : String
  pub request : PreparedBootApproval
  pub context_digest : String
  pub approver_user_id : String
  pub approver_credential_id : String
  pub expires_at : ℕ

-- A socket of the Durable Object with its serialized attachment.
pub record Attachment : Type 0 where
  pub boot_id : String
  pub generation : ℕ

pub record Socket : Type 0 where
  pub id : ℕ
  pub attachment : Option Attachment

-- What the session does to a socket: `send`, or `close` with a code and a reason.
pub data Output : Type 0 where
  sent : (socket : ℕ) → ServerMessage → Output
  closed : (socket code : ℕ) (reason : String) → Output

-- The Durable Object's tables and sockets, D1, the clock and the alarm. `draws` counts the random
-- identifiers drawn, `ticks` the awaits passed; `outputs` has the newest first.
pub record World : Type 0 where
  pub boots : List BootRow
  pub challenges : List ChallengeRow
  pub contexts : List ApprovalContextRow
  pub db : VaultDatabase
  pub sockets : List Socket
  pub outputs : List Output
  pub alarm : Option ℕ
  pub clock : ℕ
  pub draws : ℕ
  pub ticks : ℕ

pub record BootIdentity : Type 0 where
  pub token_id : String
  pub source_ip : String
  pub max_pending_boots : ℕ

pub record ProvenanceVerifier : Type 0 where
  pub id : String
  pub verify : VerifierInput → VerificationResult

-- `BootSessionDeps`, and the functions of Web Crypto that the session calls. A digest of a value is
-- that of its JSON text. `others` is what the rest of the system does while a method waits: other
-- methods of this object, the clock, D1. `none` is an await that rejects, and a proof that cannot be
-- verified since its key or its signature is not base64url or the key has another length.
pub record Deps : Type 0 where
  pub environment_id : String
  pub new_boot_id : ℕ → String
  pub new_audit_id : ℕ → String
  pub random_challenge : ℕ → String
  pub verifiers : List ProvenanceVerifier
  pub key_fingerprint : String → String
  pub verify_resume : (public_key boot_id challenge signature : String) → Option Bool
  pub digest_frame : ServerMessage → String
  pub digest_request : PreparedBootApproval → String
  pub digest_secrets : List SecretRecord → String
  pub digest_summary : List VerificationResult → String
  pub is_key_envelope : KeyEnvelope → Bool
  pub others : World → Option World

-- A method: a run ends with a value, or with `none` if its promise rejects.
abbrev pub M : Type 0 → Type 0
M A = World → Option A × World

abbrev pub pure : {A : Type 0} → A → M A
pure a w = (some a, w)

abbrev pub throw : {A : Type 0} → M A
throw w = (none, w)

-- A call whose outcome is known, `none` if it throws.
abbrev pub settle : {A : Type 0} → Option A → M A
settle none w = (none, w)
settle (some a) w = (some a, w)

abbrev pub continue : {A B : Type 0} → Option A × World → (A → M B) → Option B × World
continue (none, w) f = (none, w)
continue (some a, w) f = f a w

infixl 5 ◌>>=◌ ◌>>◌
abbrev pub ◌>>=◌ : {A B : Type 0} → M A → (A → M B) → M B
◌>>=◌ m f w = continue (m w) f

abbrev pub ◌>>◌ : {B : Type 0} → M (Unit {0}) → M B → M B
m >> k = m >>= λ _. k

abbrev pub asks : {A : Type 0} → (World → A) → M A
asks f w = (some (f w), w)

abbrev pub modify : (World → World) → M (Unit {0})
modify f w = (some tt, f w)

abbrev pub resume_as : Option World → World → Option (Unit {0}) × World
resume_as none w = (none, w)
resume_as (some w') w = (some tt, record w' { ticks = suc w'.ticks })

-- An await.
pub pause : Deps → M (Unit {0})
pause d w = resume_as (d.others w) w

-- A D1 statement that may be rejected.
abbrev pub write_as : Option VaultDatabase → World → Option (Unit {0}) × World
write_as none w = (none, w)
write_as (some db) w = (some tt, record w { db = db })

pub write : (VaultDatabase → Option VaultDatabase) → M (Unit {0})
write f w = write_as (f w.db) w

-- `newBootId`, `newAuditId` and `randomChallenge` draw a fresh identifier each.
pub draw : (ℕ → String) → M String
draw name w = (some (name w.draws), record w { draws = suc w.draws })
