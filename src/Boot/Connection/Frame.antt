-- ===== src/Boot/Connection/Frame.antt =====
-- `handleFrame` of boot-session-core.ts. A frame arrives as its size in bytes and the outcome of
-- `parseClientFrame`, whose JSON parser and zod schemas are not modelled.
use keevault.Base.{ℕ, Option, none, some, ltb, if◌then◌else◌}
use keevault.Protocol.Messages.{
  ClientMessage, hello, resume, challenge_response, received, CloseCode,
}
use keevault.Boot.{BootIdentity, Deps, M}
use keevault.Boot.Report.{send_error}
use keevault.Boot.Connection.{max_frame_bytes}
use keevault.Boot.Connection.Hello.{handle_hello}
use keevault.Boot.Connection.Resume.{handle_resume}
use keevault.Boot.Connection.Challenge.{handle_challenge_response}
use keevault.Boot.Connection.Received.{handle_received}

module _ (d : Deps) where
  dispatch : ℕ → BootIdentity → Option ClientMessage → M (Unit {0})
  dispatch socket identity none =
      send_error socket CloseCode.protocol_error "Frame did not match protocol v1."
  dispatch socket identity (some (hello h)) = handle_hello d socket identity h
  dispatch socket identity (some (resume boot_id)) = handle_resume d socket identity boot_id
  dispatch socket identity (some (challenge_response boot_id signature)) =
      handle_challenge_response d socket identity boot_id signature
  dispatch socket identity (some (received boot_id payload_digest)) =
      handle_received d socket boot_id payload_digest

  handle_frame : ℕ → BootIdentity → ℕ → Option ClientMessage → M (Unit {0})
  unfolding dispatch
  handle_frame socket identity size parsed =
      if ltb max_frame_bytes size
      then send_error socket CloseCode.protocol_error "Frame exceeds the 1 MiB limit."
      else dispatch socket identity parsed
