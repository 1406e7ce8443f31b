-- ===== src/Bridge/Messages.antt =====
-- src/infrastructure/codex-bridge/protocol.ts and client.ts: the messages of the bridge, and the
-- errors and results that its client gives. A payload that the schema leaves unknown is a value.
use pi_codex_adaptor.Prelude.{ℕ, String, Bool, true, false, Option, some, List}
use pi_codex_adaptor.Value.{Value}
use pi_codex_adaptor.Bridge.Frames.{ErrorCode}
use pi_codex_adaptor.Bridge.Identity.{Handshake}

pub data TerminalStatus : Type 0 where
  completed incomplete failed aborted timed_out : TerminalStatus

pub data ErrorCategory : Type 0 where
  configuration_error authentication_error protocol_error capability_error : ErrorCategory
  native_tool_error : ErrorCategory

-- `BridgeError`, which `BridgeRemoteError` copies.
pub record RemoteError : Type 0 where
  pub category : ErrorCategory
  pub code : String
  pub message : String
  pub retryable : Bool

pub data ApprovalDecision : Type 0 where
  allow_once allow_session decline cancel : ApprovalDecision

pub data Operation : Type 0 where
  command patch filesystem network : Operation

pub record ApprovalRequest : Type 0 where
  pub approval_id : String
  pub operation : Operation
  pub summary : String
  pub details : Value
  pub available_decisions : List ApprovalDecision

pub data Backpressure : Type 0 where
  paused resumed : Backpressure

-- The messages of a server, each with its request id if it has one.
pub data ServerMessage : Type 0 where
  handshake : String → Handshake → ServerMessage
  event : String → ℕ → Value → ServerMessage
  result : String → TerminalStatus → Value → ServerMessage
  error : Option String → RemoteError → ServerMessage
  approval_request : String → ApprovalRequest → ServerMessage
  backpressure : Option String → Backpressure → ℕ → ℕ → ServerMessage

pub data RequestMethod : Type 0 where
  responses_create responses_compact responses_estimate_context models_resolve : RequestMethod
  tools_resolve tools_execute diagnostics_read : RequestMethod

pub data ApprovalPolicy : Type 0 where
  on_request never : ApprovalPolicy

-- The messages of a client, each with its own request id first, but for an acknowledgement.
pub data ClientMessage : Type 0 where
  initialize : String → ℕ → String → String → ClientMessage
  request : String → RequestMethod → Value → ClientMessage
  cancels : String → String → ClientMessage
  approval_decision : String → String → ApprovalDecision → ClientMessage
  session_write : String → String → ApprovalPolicy → String → ClientMessage
  session_resize : String → String → ℕ → ℕ → ClientMessage
  session_terminate : String → String → ClientMessage
  acknowledge : String → ℕ → ClientMessage
  shutdown : String → ClientMessage

-- What a promise of the client is rejected with.
pub data Failure : Type 0 where
  connection_closed control_timeout event_handler_failed handshake_timeout : Failure
  protocol_failure write_failed : Failure
  request_aborted control_aborted : Failure
  remote : RemoteError → Failure
  protocol : ErrorCode → Failure

pub data Outcome : Type 0 where
  resolved : TerminalStatus → Value → Outcome
  rejected : Failure → Outcome

-- `message.requestId`
unfoldable pub message_id : ServerMessage → Option String
message_id (handshake id h) = some id
message_id (event id sequence e) = some id
message_id (result id status r) = some id
message_id (error id e) = id
message_id (approval_request id a) = some id
message_id (backpressure id b n m) = id

-- `message.type === "result" || message.type === "error"`
unfoldable pub is_final : ServerMessage → Bool
is_final (result id status r) = true
is_final (error id e) = true
is_final _ = false
