-- ===== src/Bridge/Routed.antt =====
-- src/infrastructure/codex-bridge/client.ts: messages, handlers and the end of the transport keep the
-- invariant of the tables.
use pi_codex_adaptor.Prelude.{
  ℕ, String, not, ◌&&◌, ◌≡◌, refl, Option, none, some, List, [], ◌∷◌, inl, inr, arith, Option-cases,
}
use pi_codex_adaptor.Prelude.Dict
use pi_codex_adaptor.Prelude.Dict.{Dict}
use pi_codex_adaptor.Bridge.Frames.{Encoded, Decoder, Pushed, messages, thrown, push, finish}
use pi_codex_adaptor.Bridge.Messages.{
  ServerMessage, handshake, event, result, error, approval_request, backpressure, message_id,
  is_final, ClientMessage, acknowledge, event_handler_failed, protocol_failure, remote,
}
use pi_codex_adaptor.Bridge.Client.{
  Work, runs_event, asks_approval, notifies, settles, Options, Client, fail, write,
}
use pi_codex_adaptor.Bridge.Route.{
  route_handshake, chain_of, enqueue, enqueue_pending, route_message, is_handshake, is_ignored,
  forget_id, route, route_each, receive, output_ended, Handled, handled, threw, unacknowledged,
  acknowledge_event, end_handler, perform, perform_first, run_next,
}
use pi_codex_adaptor.Bridge.Table.{
  IsTidy, After, After-trans, After-same, reject_pending-After, resolve_pending-After, frame-After,
  if-After, option-After,
}
use pi_codex_adaptor.Bridge.Closing.{fail-After}
use pi_codex_adaptor.Bridge.Tracking.{forget-After}

pub IsTidy-of : {c d : Client} → After c d → IsTidy d
IsTidy-of a = a.forward.tidy

-- Routing.
route_handshake-After :
    (o : Options) (m : ServerMessage) (c : Client) → IsTidy c → After c (route_handshake o m c)
unfolding route_handshake
route_handshake-After o m c w =
    option-After c.handshake c _ _ (λ e. fail-After protocol_failure c w)
      (λ p e. frame-After c _ refl refl refl refl w)

enqueue_pending-After :
    (id : Option String) (work : Work) (c : Client) → IsTidy c → After c (enqueue_pending id work c)
unfolding enqueue_pending enqueue
enqueue_pending-After none work c w = fail-After protocol_failure c w
enqueue_pending-After (some id) work c w = elim (Option-cases (Dict.lookup id c.pending)) [
  | inl e ↦ rw (enqueue_pending, e) (fail-After protocol_failure c w)
  | inr (p, e) ↦ rw (enqueue_pending, e) (frame-After c (enqueue id work c) refl refl refl refl w)
]

route_message-After : (m : ServerMessage) (c : Client) → IsTidy c → After c (route_message m c)
unfolding route_message
route_message-After (handshake id h) c w = fail-After protocol_failure c w
route_message-After (error none e) c w = fail-After (remote e) c w
route_message-After (error (some id) e) c w = reject_pending-After id (remote e) c w
route_message-After (event id sequence e) c w =
    enqueue_pending-After (some id) (runs_event sequence e) c w
route_message-After (approval_request id a) c w =
    enqueue_pending-After (some id) (asks_approval a) c w
route_message-After (backpressure id b n m) c w = enqueue_pending-After id (notifies b n) c w
route_message-After (result id status r) c w =
    enqueue_pending-After (some id) (settles status r) c w

forget_id-After : (id : Option String) (c : Client) → IsTidy c → After c (forget_id id c)
forget_id-After none c w = After-same c w
forget_id-After (some id) c w = forget-After id c w

pub route-After : (o : Options) (m : ServerMessage) (c : Client) → IsTidy c → After c (route o m c)
unfolding route
route-After o m c w =
    if-After (not c.ready) c (route_handshake o m c) _ (λ e. route_handshake-After o m c w)
      (λ e.
        if-After (not (is_handshake m) && is_ignored (message_id m) c) c _ (route_message m c)
          (λ i.
            if-After (is_final m) c (forget_id (message_id m) c) c
              (λ g. forget_id-After (message_id m) c w) (λ g. After-same c w))
          (λ i. route_message-After m c w))

route_each-After :
    (o : Options) (ms : List ServerMessage) (c : Client) → IsTidy c → After c (route_each o ms c)
unfolding route_each
route_each-After o [] c w = After-same c w
route_each-After o (m ∷ ms) c w =
    let first = route-After o m c w in
    After-trans first (route_each-After o ms (route o m c) (IsTidy-of first))

-- A change of other fields before an operation.
pub framed-After :
    (c d e : Client)
    → d.pending ≡ c.pending
    → d.settled ≡ c.settled
    → d.ignored_request_ids ≡ c.ignored_request_ids
    → d.closed ≡ c.closed
    → IsTidy c
    → (IsTidy d → After d e)
    → After c e
framed-After c d e p s i k w f =
    let a = frame-After c d p s i k w in After-trans a (f (IsTidy-of a))

pub receive-After :
    (o : Options) (parse : List ℕ → Option ServerMessage) (chunk : List ℕ) (c : Client)
    → IsTidy c
    → After c (receive o parse chunk c)
unfolding receive
receive-After o parse chunk c w =
    if-After c.closed c c _ (λ e. After-same c w) (λ e. pushed (push parse chunk c.decoder))
  where
    pushed :
        (next : Decoder × Pushed ServerMessage)
        → After c (elim next.1 [
          | messages ms ↦ route_each o ms (record c { decoder = next.0 })
          | thrown code ↦ fail protocol_failure (record c { decoder = next.0 })
        ])
    pushed (d, messages ms) =
        framed-After c (record c { decoder = d }) _ refl refl refl refl w
          (route_each-After o ms (record c { decoder = d }))
    pushed (d, thrown code) =
        framed-After c (record c { decoder = d }) _ refl refl refl refl w
          (fail-After protocol_failure (record c { decoder = d }))

pub output_ended-After : (c : Client) → IsTidy c → After c (output_ended c)
unfolding output_ended
output_ended-After c w =
    framed-After c _ _ refl refl refl refl w
      (fail-After _ (record c { decoder = (finish c.decoder).0 }))

module _ (encode : ClientMessage → Encoded) where
  pub write-After : (m : ClientMessage) (c : Client) → IsTidy c → After c (write encode m c).0
  unfolding write
  write-After m c w =
      frame-After c (write encode m c).0 (ground arith) (ground arith) (ground arith) (ground arith)
        w

  acknowledge_event-After :
      (id : String) (n : ℕ) (h : Handled) (c : Client)
      → IsTidy c
      → After c (acknowledge_event encode id n h c)
  unfolding acknowledge_event
  acknowledge_event-After id n threw c w = fail-After event_handler_failed c w
  acknowledge_event-After id n unacknowledged c w =
      let a = write-After (acknowledge id n) c w in
      After-trans a
        (fail-After event_handler_failed (write encode (acknowledge id n) c).0 (IsTidy-of a))
  acknowledge_event-After id n handled c w =
      let a = write-After (acknowledge id n) c w in
      let d = (write encode (acknowledge id n) c).0 in
      elim (Option-cases (write encode (acknowledge id n) c).1) [
        | inl e ↦ rw (acknowledge_event, e) a
        | inr (f, e) ↦
            rw (acknowledge_event, e)
              (After-trans a (fail-After event_handler_failed d (IsTidy-of a)))
      ]

  end_handler-After : (h : Handled) (c : Client) → IsTidy c → After c (end_handler h c)
  end_handler-After handled c w = After-same c w
  end_handler-After threw c w = fail-After event_handler_failed c w
  end_handler-After unacknowledged c w = fail-After event_handler_failed c w

  perform-After :
      (id : String) (work : Work) (h : Handled) (c : Client)
      → IsTidy c
      → After c (perform encode id work h c)
  unfolding perform
  perform-After id (runs_event n e) h c w = acknowledge_event-After id n h c w
  perform-After id (asks_approval a) h c w = end_handler-After h c w
  perform-After id (notifies b n) h c w = end_handler-After h c w
  perform-After id (settles status r) h c w = resolve_pending-After id status r c w

  perform_first-After :
      (id : String) (ws : List Work) (h : Handled) (c : Client)
      → IsTidy c
      → After c (perform_first encode id ws h c)
  perform_first-After id [] h c w = After-same c w
  perform_first-After id (work ∷ ws) h c w =
      framed-After c (record c { chains = Dict.insert id ws c.chains }) _ refl refl refl refl w
        (perform-After id work h (record c { chains = Dict.insert id ws c.chains }))

  pub run_next-After :
      (id : String) (h : Handled) (c : Client) → IsTidy c → After c (run_next encode id h c)
  unfolding run_next
  run_next-After id h c w = perform_first-After id (chain_of id c) h c w
