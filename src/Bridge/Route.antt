-- ===== src/Bridge/Route.antt =====
-- src/infrastructure/codex-bridge/client.ts: what the client does with the messages of the server,
-- the chains of handlers, and the end of the transport.
use pi_codex_adaptor.Prelude.{
  ℕ, String, Bool, true, false, not, ◌&&◌, Option, none, some, List, [], ◌∷◌, ◌++◌, str_eq,
  mem_text, if◌then◌else◌,
}
use pi_codex_adaptor.Prelude.Dict
use pi_codex_adaptor.Bridge.Frames.{Encoded, messages, thrown, push, finish}
use pi_codex_adaptor.Bridge.Identity.{verified, verify_handshake}
use pi_codex_adaptor.Bridge.Messages.{
  ServerMessage, handshake, event, result, error, approval_request, backpressure, message_id,
  is_final, ClientMessage, acknowledge, connection_closed, event_handler_failed, protocol_failure,
  remote,
}
use pi_codex_adaptor.Bridge.Client.{
  PendingHandshake, accepted, declined, Work, runs_event, asks_approval, notifies, settles, Options,
  Client, settle_handshake, resolve_pending, reject_pending, fail, forget, write,
}

abbrev pub is_id : String → Option String → Bool
is_id id none = false
is_id id (some s) = str_eq s id

-- How a message settles the promise of the handshake.
unfoldable pub answer_handshake : Options → ServerMessage → PendingHandshake → PendingHandshake
answer_handshake o (error id e) p =
    settle_handshake (declined (if is_id p.request_id id then remote e else protocol_failure)) p
answer_handshake o (handshake id h) p =
    settle_handshake
      (if str_eq id p.request_id
        then elim (verify_handshake h o.build_target o.verification) [
          | verified ↦ accepted h
          | _ ↦ declined protocol_failure
        ]
        else declined protocol_failure)
      p
answer_handshake o _ p = settle_handshake (declined protocol_failure) p

unfoldable pub route_handshake : Options → ServerMessage → Client → Client
unfolding answer_handshake fail
route_handshake o message c = elim c.handshake [
  | none ↦ fail protocol_failure c
  | some p ↦ record c { handshake = some (answer_handshake o message p) }
]

abbrev pub chain_of : String → Client → List Work
chain_of id c = elim (Dict.lookup id c.chains) [ none ↦ [] | some ws ↦ ws ]

-- `#enqueueHandler`, and the continuation that settles a request after the handlers before it.
unfoldable pub enqueue : String → Work → Client → Client
enqueue id w c = record c { chains = Dict.insert id (chain_of id c ++ w ∷ []) c.chains }

-- The request that the message names must be pending.
unfoldable pub enqueue_pending : Option String → Work → Client → Client
unfolding enqueue fail
enqueue_pending none w c = fail protocol_failure c
enqueue_pending (some id) w c = elim (Dict.lookup id c.pending) [
  | none ↦ fail protocol_failure c
  | some p ↦ enqueue id w c
]

-- The end of `#route`, for a message that is not ignored.
unfoldable pub route_message : ServerMessage → Client → Client
unfolding enqueue_pending reject_pending fail
route_message (handshake id h) c = fail protocol_failure c
route_message (error none e) c = fail (remote e) c
route_message (error (some id) e) c = reject_pending id (remote e) c
route_message (event id sequence e) c = enqueue_pending (some id) (runs_event sequence e) c
route_message (approval_request id a) c = enqueue_pending (some id) (asks_approval a) c
route_message (backpressure id b n m) c = enqueue_pending id (notifies b n) c
route_message (result id status r) c = enqueue_pending (some id) (settles status r) c

abbrev pub is_handshake : ServerMessage → Bool
is_handshake (handshake id h) = true
is_handshake _ = false

abbrev pub is_ignored : Option String → Client → Bool
is_ignored none c = false
is_ignored (some id) c = mem_text id c.ignored_request_ids

abbrev pub forget_id : Option String → Client → Client
forget_id none c = c
forget_id (some id) c = forget id c

unfoldable pub route : Options → ServerMessage → Client → Client
unfolding route_handshake route_message message_id is_final
route o message c =
    if not c.ready
    then route_handshake o message c
    else if not (is_handshake message) && is_ignored (message_id message) c
    then (if is_final message then forget_id (message_id message) c else c)
    else route_message message c

unfoldable pub route_each : Options → List ServerMessage → Client → Client
unfolding route
route_each o [] c = c
route_each o (m ∷ ms) c = route_each o ms (route o m c)

-- `#receive`
unfoldable pub receive : Options → (List ℕ → Option ServerMessage) → List ℕ → Client → Client
unfolding push route_each fail
receive o parse chunk c =
    let next = push parse chunk c.decoder in
    if c.closed then c else elim next.1 [
      | messages ms ↦ route_each o ms (record c { decoder = next.0 })
      | thrown code ↦ fail protocol_failure (record c { decoder = next.0 })
    ]

-- `#outputEnded`
unfoldable pub output_ended : Client → Client
unfolding finish fail
output_ended c =
    let ended = finish c.decoder in
    fail (if ended.1 then protocol_failure else connection_closed) (record c { decoder = ended.0 })

-- `#transportClosed`
unfoldable pub transport_ended : Client → Client
unfolding fail
transport_ended c = fail connection_closed c

-- How a handler ends: well, with an error, or with an acknowledgement whose write fails later.
pub data Handled : Type 0 where
  handled threw unacknowledged : Handled

-- The end of another handler.
abbrev pub end_handler : Handled → Client → Client
end_handler handled c = c
end_handler _ c = fail event_handler_failed c

module _ (encode : ClientMessage → Encoded) where
  -- The end of the handler of an event: it writes an acknowledgement, or the client fails.
  unfoldable pub acknowledge_event : String → ℕ → Handled → Client → Client
  unfolding write fail
  acknowledge_event id sequence threw c = fail event_handler_failed c
  acknowledge_event id sequence unacknowledged c =
      fail event_handler_failed (write encode (acknowledge id sequence) c).0
  acknowledge_event id sequence handled c =
      let w = write encode (acknowledge id sequence) c in
      elim w.1 [ none ↦ w.0 | some f ↦ fail event_handler_failed w.0 ]

  unfoldable pub perform : String → Work → Handled → Client → Client
  unfolding acknowledge_event resolve_pending fail
  perform id (runs_event sequence e) h c = acknowledge_event id sequence h c
  perform id (asks_approval a) h c = end_handler h c
  perform id (notifies b n) h c = end_handler h c
  perform id (settles status r) h c = resolve_pending id status r c

  -- The first entry of the chain of a request ends.
  abbrev pub perform_first : String → List Work → Handled → Client → Client
  perform_first id [] h c = c
  perform_first id (w ∷ ws) h c = perform id w h (record c { chains = Dict.insert id ws c.chains })

  unfoldable pub run_next : String → Handled → Client → Client
  unfolding perform
  run_next id h c = perform_first id (chain_of id c) h c
