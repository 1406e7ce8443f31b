-- ===== src/Bridge/Calls.antt =====
-- src/infrastructure/codex-bridge/client.ts: the calls of a client, its timers and signals, and the
-- steps that the event loop takes. A call is given the id that randomUUID makes for it.
use pi_codex_adaptor.Prelude.{
  ℕ, String, Bool, true, false, not, ◌||◌, Option, none, some, List, is_none, if◌then◌else◌,
}
use pi_codex_adaptor.Prelude.Dict
use pi_codex_adaptor.Value.{Number, Value}
use pi_codex_adaptor.Bridge.Frames.{Encoded}
use pi_codex_adaptor.Bridge.Identity.{bridge_protocol_version}
use pi_codex_adaptor.Bridge.Messages.{
  completed, ServerMessage, ApprovalDecision, RequestMethod, ApprovalPolicy, ClientMessage,
  initialize, request, cancels, approval_decision, session_write, session_resize, session_terminate,
  shutdown, Failure, connection_closed, control_timeout, handshake_timeout, protocol_failure,
  write_failed, request_aborted, control_aborted, Outcome, resolved, rejected,
}
use pi_codex_adaptor.Bridge.Client.{
  Kind, request_kind, control_kind, Pending, accepted, declined, Options, Client, reject_pending,
  reject_handshake, fail, close, ignore_late_messages, may_request, may_control,
  resolve_control_timeout_ms, write, send,
}
use pi_codex_adaptor.Bridge.Route.{receive, output_ended, transport_ended, Handled, run_next}

-- The calls that are control requests; `shuts_down` belongs to `#performShutdown`.
pub data Control : Type 0 where
  cancel : String → Control
  decide_approval : String → ApprovalDecision → Control
  write_session : String → String → ApprovalPolicy → Control
  resize_session : String → ℕ → ℕ → Control
  terminate_session : String → Control
  shuts_down : Control

unfoldable pub control_message : String → Control → ClientMessage
control_message id (cancel target) = cancels id target
control_message id (decide_approval approval decision) = approval_decision id approval decision
control_message id (write_session session data_text policy) =
    session_write id session policy data_text
control_message id (resize_session session columns rows) = session_resize id session columns rows
control_message id (terminate_session session) = session_terminate id session
control_message id shuts_down = shutdown id

-- What the caller of a control request gets: `#completedControlRequest`, and the same in `cancel`.
unfoldable pub completed_outcome : Outcome → Outcome
completed_outcome (resolved completed r) = resolved completed r
completed_outcome (resolved _ r) = rejected protocol_failure
completed_outcome (rejected f) = rejected f

-- A signal, if there is one, and whether it is aborted.
abbrev pub is_aborted : Option Bool → Bool
is_aborted none = false
is_aborted (some aborted) = aborted

abbrev pub open_pending : String → Pending → Client → Client
open_pending id p c = record c { pending = Dict.insert id p c.pending }

-- The timer of a control request fires.
unfoldable pub time_out : String → Client → Client
unfolding ignore_late_messages reject_pending
time_out id c = elim (Dict.lookup id c.pending) [
  | none ↦ c
  | some p ↦
      if is_none p.timer then c else ignore_late_messages id (reject_pending id control_timeout c)
]

-- The start of `connect`: `#initialize` up to the handshake that it awaits.
abbrev pub give_up : Failure → Client → Client
give_up f c = fail f (record c { handshake = none })

-- The write of the `initialize` message fails.
unfoldable pub fail_initialize : Client → Client
unfolding fail
fail_initialize c = elim c.handshake [ none ↦ c | some p ↦ give_up write_failed c ]

-- `connect` goes on once the handshake is settled.
unfoldable pub resume_connect : Client → Client
unfolding fail
resume_connect c = elim c.handshake [
  | none ↦ c
  | some p ↦ elim p.outcome [
    | none ↦ c
    | some (accepted h) ↦ record c { ready = true; handshake = none }
    | some (declined f) ↦ give_up f c
  ]
]

abbrev pub end_shutdown : Client → Client
end_shutdown c = close (record c { input_ended = true })

-- `#performShutdown` goes on once its request is settled.
unfoldable pub resume_shutdown : Client → Client
unfolding close
resume_shutdown c = elim c.shutdown_id [
  | none ↦ c
  | some id ↦ if is_none (Dict.lookup id c.settled) then c else end_shutdown c
]

module _ (encode : ClientMessage → Encoded) where
  -- `request`, and what it throws at once.
  unfoldable pub make_request :
      String → RequestMethod → Value → Option Bool → Client → Client × Option Failure
  unfolding send
  make_request id method params signal c =
      if not (may_request c)
      then (c, some connection_closed)
      else if is_aborted signal
      then (c, some request_aborted)
      else (
        send encode id (request id method params) (
            open_pending id
              (record { kind = request_kind; listens = not (is_none signal); timer = none }) c),
        none,
      )

module _ (encode : ClientMessage → Encoded) (o : Options) where
  -- `#controlRequest`, and what it throws at once.
  unfoldable pub control_request :
      String → Control → Option Bool → Option Number → Bool → Client → Client × Option Failure
  unfolding send control_message resolve_control_timeout_ms
  control_request id control signal timeout allow_closing c =
      if not (may_control allow_closing c)
      then (c, some connection_closed)
      else if is_aborted signal
      then (c, some control_aborted)
      else (
        send encode id (control_message id control) (
            open_pending id
              (record {
                kind = control_kind;
                listens = not (is_none signal);
                timer = resolve_control_timeout_ms timeout o.control_request_timeout_ms;
              })
              c),
        none,
      )

  -- The abort listener of a request, with the id of the cancellation that it sends, or of a control
  -- request.
  unfoldable pub abort_listener : Kind → String → String → Client → Client
  unfolding ignore_late_messages reject_pending control_request
  abort_listener request_kind id cancel_id c =
      let d = ignore_late_messages id (reject_pending id request_aborted c) in
      (control_request cancel_id (cancel id) none none false d).0
  abort_listener control_kind id cancel_id c =
      ignore_late_messages id (reject_pending id control_aborted c)

  -- The signal of a request aborts: the listener is there as long as the request is pending.
  unfoldable pub abort : String → String → Client → Client
  unfolding abort_listener
  abort id cancel_id c = elim (Dict.lookup id c.pending) [
    | none ↦ c
    | some p ↦ if p.listens then abort_listener p.kind id cancel_id c else c
  ]

  unfoldable pub connect : String → Client → Client
  unfolding write fail
  connect id c =
      let w =
        write encode (initialize id bridge_protocol_version "pi-codex-adaptor" o.client_version)
          (record c { handshake = some (record { request_id = id; outcome = none }) }) in
      elim w.1 [ none ↦ w.0 | some f ↦ give_up f w.0 ]

  -- `shutdown`, and `#performShutdown` up to the result that it awaits.
  unfoldable pub shut_down : String → Option Bool → Option Number → Client → Client
  unfolding control_request close
  shut_down id signal timeout c =
      let r =
        control_request id shuts_down signal timeout true
          (record c { closing = true; shutdown_id = some id }) in
      if c.closed || not (is_none c.shutdown_id)
      then c
      else elim r.1 [ none ↦ r.0 | some f ↦ end_shutdown r.0 ]

pub data Step : Type 0 where
  connects : String → Step
  initialize_write_fails handshake_times_out resumes_connect : Step
  requests : String → RequestMethod → Value → Option Bool → Step
  controls : String → Control → Option Bool → Option Number → Step
  aborts : String → String → Step
  times_out write_fails : String → Step
  receives : List ℕ → Step
  runs : String → Handled → Step
  ends_output closes_transport : Step
  shuts : String → Option Bool → Option Number → Step
  resumes_shutdown closes : Step

module _ (encode : ClientMessage → Encoded) (parse : List ℕ → Option ServerMessage)
    (o : Options) where
  unfoldable pub step : Step → Client → Client
  unfolding connect make_request control_request abort time_out reject_pending reject_handshake
      receive run_next output_ended transport_ended shut_down resume_shutdown close resume_connect
      fail_initialize
  step (connects id) c = connect encode o id c
  step initialize_write_fails c = fail_initialize c
  step handshake_times_out c = reject_handshake handshake_timeout c
  step resumes_connect c = resume_connect c
  step (requests id method params signal) c = (make_request encode id method params signal c).0
  step (controls id control signal timeout) c =
      (control_request encode o id control signal timeout false c).0
  step (aborts id cancel_id) c = abort encode o id cancel_id c
  step (times_out id) c = time_out id c
  step (write_fails id) c = reject_pending id write_failed c
  step (receives chunk) c = receive o parse chunk c
  step (runs id h) c = run_next encode id h c
  step ends_output c = output_ended c
  step closes_transport c = transport_ended c
  step (shuts id signal timeout) c = shut_down encode o id signal timeout c
  step resumes_shutdown c = resume_shutdown c
  step closes c = close c
