-- ===== src/Lib.antt =====
-- Keevault: the boot sessions of the control plane, by which a workload gets the secrets of an
-- environment after an administrator has approved its boot.
--
-- The parts and how they interact. The Worker checks the bootstrap token of an upgrade request against
-- D1, by the crypto package's tokens and address blocks, and forwards the request with the identity in
-- internal headers. A client opens a socket to the Durable Object of its environment
-- and sends frames: hello, resume, challenge response, received. The dashboard calls the object to
-- prepare and complete an approval, to decline or to cancel. The object keeps its boots, challenges
-- and approval contexts in SQLite, mirrors each boot to D1, where it also reads tokens, environments,
-- signers, policies and secrets, and sets one alarm for the next deadline. Every change of a status
-- goes through one state machine.
--
-- Protocol/State.antt (packages/protocol/src/state.ts): BOOT_STATUSES, BOOT_EVENTS, isTerminal and
-- transition; Protocol/State/Reach.antt has the paths of events.
-- Protocol/Messages.antt (packages/protocol/src/messages.ts and constants.ts): the frames after
-- validation, and the close codes.
-- Provenance.antt, Provenance/Policy.antt and Provenance/Context.antt
-- (apps/control-plane/src/server/provenance): the types, evaluatePolicy, and what
-- loadProvenanceContext reads.
-- Store.antt, Store/Queries.antt and Store/Writes.antt (packages/vault-store/src/repositories): the
-- rows of D1 and the statements that the boot session runs.
-- Crypto.antt (packages/crypto/src): Crypto/Encoding.antt is encoding.ts, Crypto/Ulid.antt ulid.ts,
-- Crypto/Token.antt token.ts, Crypto/Aad.antt aad.ts, and Crypto/Cidr.antt with Crypto/Cidr/Format.antt
-- is cidr.ts; Crypto/Text.antt has texts as lists of code units, with their decimal numbers and lines.
-- Crypto/WebCrypto.antt names what is called of Web Crypto, and its laws; Crypto/Aesgcm.antt,
-- Crypto/Hierarchy.antt, Crypto/Keys.antt, Crypto/Envelope.antt and Crypto/Resume.antt are aesgcm.ts,
-- hierarchy.ts, keys.ts with fingerprint.ts, envelope.ts and resume.ts.
-- Vault.antt (apps/control-plane/src/server/vault): Vault/Dotenv.antt is dotenv.ts, Vault/Keys.antt the
-- unwrap path of keys.ts, and Vault/Rotation.antt rotateEnvironmentKey of rotation.ts; the statements
-- that they run are in Store/Keys.antt. A rotation numbers its accesses of D1, and before each others
-- may have written there.
-- Bootstrap.antt (apps/control-plane/src/server): Bootstrap/Auth.antt is vault/bootstrap-auth.ts, and
-- Bootstrap/Upgrade.antt bootstrap/upgrade.ts and headers.ts.
-- Boot.antt (apps/control-plane/src/server/durable-objects/boot-session-core.ts): the state of
-- BootSessionCore as the record World, its dependencies as the record Deps, and the monad of its
-- methods. Its children have the methods: Boot/Table.antt the SQL statements, #apply and the alarm;
-- Boot/Report.antt #audit, #mirror, #sendTerminal and the sockets of environment-session.ts;
-- Boot/Lifecycle.antt #deliver, #expire, #expireIfDue, #expireDue, onAlarm and #cancelOne;
-- Boot/Connection.antt the limits, and below it Hello.antt, Resume.antt, Challenge.antt and
-- Received.antt a handler each, and Frame.antt handleFrame; below Boot/Approval.antt State.antt
-- #approvalState, Prepare.antt prepareApproval and Complete.antt completeApproval; Boot/Admin.antt
-- decline, cancelBoot, cancel, cancelForToken and the views. Boot/Result.antt has the results of the
-- actions. Boot/Quiet.antt and Boot/Session.antt say what the rest of the system may do: to leave the
-- table alone, or to keep to the same rule in any interleaving. Base.antt has what all files share.
--
-- How the code is translated. A method is a function from a World to a result and a World; a result
-- `none` is a promise that rejects. Each await is a call of `pause`, at which `others`, a field of
-- Deps, changes the World as the rest of the system does: other methods of the object, D1, the clock.
-- The statements between two awaits run without interruption, as in a Durable Object. The early
-- returns with a failure are `return_if`. A stored JSON text is kept as the value that it stands for,
-- a time as epoch milliseconds, and a digest as a function of the value. Web Crypto, the verifiers
-- and the generators of identifiers are fields of Deps; in the crypto package a random value is an
-- argument of the function that draws it.
--
-- The invariant (Boot/Safe.antt). A table is sound if each row's columns fit its status; a row
-- advances if its status moves along the state machine, the columns of the INSERT stay, and the grant
-- of an approval stays once the boot is not PENDING. A method is safe if from every World it keeps a
-- sound table sound and advances its rows, where the others are taken to do the same (`Guarded`).
-- There is no fuel: every loop is over a list that is read before it.
--
-- Not modelled: the JSON parser and zod schemas (a frame arrives as the outcome of its parser), the
-- WebSocket upgrade and the tags of hibernated sockets, the rest of the repositories and of the vault
-- services, the dashboard, and the Go client. The alarm handler is given a World in which no alarm is
-- set, as the platform does while it runs.
pub mod Base
pub mod Crypto
pub mod Protocol
pub mod Provenance
pub mod Store
pub mod Boot
pub mod Bootstrap
pub mod Vault
