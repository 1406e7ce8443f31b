-- ===== src/Bridge/Client.antt =====
-- src/infrastructure/codex-bridge/client.ts: the fields of `BridgeClient` and the operations on its
-- tables. The promises that it has settled, and the messages it has written, are fields too, newest
-- first.
use pi_codex_adaptor.Prelude.{
  ℕ, String, Bool, true, false, not, ◌&&◌, ◌||◌, Option, none, some, List, [], ◌∷◌, ◌++◌, map, leb,
  str_eq, keep, length, mem_text, if◌then◌else◌,
}
use pi_codex_adaptor.Prelude.Dict
use pi_codex_adaptor.Prelude.Dict.{Dict}
use pi_codex_adaptor.Value.{Number, Value, pos, is_safe_integer, is_positive}
use pi_codex_adaptor.Bridge.Frames.{Decoder, new_decoder, Encoded, framed, unframed}
use pi_codex_adaptor.Bridge.Identity.{Handshake, VerificationOptions}
use pi_codex_adaptor.Bridge.Messages.{
  TerminalStatus, ApprovalRequest, Backpressure, ClientMessage, Failure, connection_closed,
  protocol, Outcome, resolved, rejected,
}

pub data Kind : Type 0 where
  request_kind control_kind : Kind

-- `PendingRequest`: which of the two abort listeners it has, if any, and its timer.
pub record Pending : Type 0 where
  pub kind : Kind
  pub listens : Bool
  pub timer : Option Number

pub data HandshakeOutcome : Type 0 where
  accepted : Handshake → HandshakeOutcome
  declined : Failure → HandshakeOutcome

-- `PendingHandshake`, and how its promise has been settled.
pub record PendingHandshake : Type 0 where
  pub request_id : String
  pub outcome : Option HandshakeOutcome

-- What waits in the chain of a request: a handler, or the result.
pub data Work : Type 0 where
  runs_event : ℕ → Value → Work
  asks_approval : ApprovalRequest → Work
  notifies : Backpressure → ℕ → Work
  settles : TerminalStatus → Value → Work

-- `BridgeClientOptions`
pub record Options : Type 0 where
  pub build_target : String
  pub client_version : String
  pub verification : VerificationOptions
  pub control_request_timeout_ms : Option Number

pub record Client : Type 0 where
  pub decoder : Decoder
  pub pending : Dict Pending
  pub ignored_request_ids : List String
  pub handshake : Option PendingHandshake
  pub ready : Bool
  pub closing : Bool
  pub closed : Bool
  pub shutdown_id : Option String
  pub chains : Dict (List Work)
  pub settled : Dict Outcome
  pub written : List ClientMessage
  pub input_ended : Bool
  pub transport_closed : Bool

unfoldable pub new_client : Client
unfolding new_decoder
new_client = record {
  decoder = new_decoder;
  pending = [];
  ignored_request_ids = [];
  handshake = none;
  ready = false;
  closing = false;
  closed = false;
  shutdown_id = none;
  chains = [];
  settled = [];
  written = [];
  input_ended = false;
  transport_closed = false;
}

-- A pending request leaves the table, and its promise is settled.
abbrev pub settle : String → Outcome → Client → Client
settle id o c = record c { pending = Dict.erase id c.pending; settled = (id, o) ∷ c.settled }

unfoldable pub resolve_pending : String → TerminalStatus → Value → Client → Client
resolve_pending id status v c = elim (Dict.lookup id c.pending) [
  | none ↦ c
  | some p ↦ settle id (resolved status v) c
]

unfoldable pub reject_pending : String → Failure → Client → Client
reject_pending id f c = elim (Dict.lookup id c.pending) [
  | none ↦ c
  | some p ↦ settle id (rejected f) c
]

-- A promise that is settled stays as it is.
abbrev pub settle_handshake : HandshakeOutcome → PendingHandshake → PendingHandshake
settle_handshake o p = elim p.outcome [ none ↦ record p { outcome = some o } | some r ↦ p ]

unfoldable pub reject_handshake : Failure → Client → Client
reject_handshake f c = elim c.handshake [
  | none ↦ c
  | some p ↦ record c { handshake = some (settle_handshake (declined f) p) }
]

unfoldable pub reject_each : List String → Failure → Client → Client
unfolding reject_pending
reject_each [] f c = c
reject_each (id ∷ ids) f c = reject_each ids f (reject_pending id f c)

abbrev pub ids_of {ℓ} : {V : Type ℓ} → Dict V → List String
ids_of = map λ e. e.0

unfoldable pub reject_all : Failure → Client → Client
unfolding reject_each reject_handshake
reject_all f c = let d = reject_handshake f c in reject_each (ids_of d.pending) f d

unfoldable pub fail : Failure → Client → Client
unfolding reject_all
fail f c =
    if c.closed then c else record (reject_all f (record c { closed = true; ready = false })) {
      transport_closed = true;
    }

unfoldable pub close : Client → Client
unfolding reject_all
close c =
    if c.closed
    then c
    else reject_all connection_closed
        (record c { closing = true; closed = true; ready = false; transport_closed = true })

abbrev pub maximum_ignored_request_ids : ℕ
maximum_ignored_request_ids = 65536

unfoldable pub ignore_late_messages : String → Client → Client
unfolding fail
ignore_late_messages id c =
    if mem_text id c.ignored_request_ids
    then c
    else if leb maximum_ignored_request_ids (length c.ignored_request_ids)
    then fail connection_closed c
    else record c { ignored_request_ids = c.ignored_request_ids ++ id ∷ [] }

-- `#ignoredRequestIds.delete(id)`
abbrev pub forget : String → Client → Client
forget id c = record c { ignored_request_ids = keep (λ s. not (str_eq s id)) c.ignored_request_ids }

-- `isReady`
abbrev pub is_ready : Client → Bool
is_ready c = c.ready && not c.closed

-- Whether `#requireReady` and `#requireReadyOrClosing` let a call pass.
abbrev pub may_request : Client → Bool
may_request c = is_ready c && not c.closing

abbrev pub may_control : Bool → Client → Bool
may_control true c = not ((not c.ready && not c.closing) || c.closed)
may_control false c = may_request c

-- The first timeout of the two that is a safe integer above 0, or 30 seconds.
abbrev pub is_timeout : Option Number → Bool
is_timeout none = false
is_timeout (some n) = is_safe_integer n && is_positive n

unfoldable pub resolve_control_timeout_ms : Option Number → Option Number → Option Number
resolve_control_timeout_ms requested configured =
    if is_timeout requested
    then requested
    else if is_timeout configured
    then configured
    else some (pos 30000)

module _ (encode : ClientMessage → Encoded) where
  -- `#write`, and what it throws at once.
  unfoldable pub write : ClientMessage → Client → Client × Option Failure
  write message c = if c.closed then (c, some connection_closed) else elim (encode message) [
    | unframed code ↦ (c, some (protocol code))
    | framed bytes ↦ (record c { written = message ∷ c.written }, none)
  ]

  -- A write whose error rejects the request.
  unfoldable pub send : String → ClientMessage → Client → Client
  unfolding write reject_pending
  send id message c = elim (write message c).1 [
    | none ↦ (write message c).0
    | some f ↦ reject_pending id f (write message c).0
  ]
