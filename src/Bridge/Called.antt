-- ===== src/Bridge/Called.antt =====
-- src/infrastructure/codex-bridge/client.ts: calls, timers and signals keep the invariant of the tables.
use pi_codex_adaptor.Prelude.{
  String, Bool, true, false, not, ◌||◌, ◌≡◌, refl, ap, ◌∙◌, Option, none, some, eq_iff, arith,
  is_none, str_eq, Bool-cases,
}
use pi_codex_adaptor.Prelude.Dict
use pi_codex_adaptor.Value.{Number, Value}
use pi_codex_adaptor.Bridge.Frames.{Encoded}
use pi_codex_adaptor.Bridge.Identity.{bridge_protocol_version}
use pi_codex_adaptor.Bridge.Messages.{
  RequestMethod, ClientMessage, initialize, request, Failure, connection_closed, write_failed,
  request_aborted, control_aborted, control_timeout, rejected,
}
use pi_codex_adaptor.Bridge.Client.{
  Kind, request_kind, control_kind, Pending, HandshakeOutcome, accepted, declined, Options, Client,
  settle, reject_pending, ignore_late_messages, may_request, may_control, write, send,
}
use pi_codex_adaptor.Bridge.Calls.{
  Control, cancel, shuts_down, control_message, is_aborted, open_pending, make_request,
  control_request, abort_listener, abort, time_out, give_up, connect, fail_initialize,
  resume_connect, end_shutdown, shut_down, resume_shutdown,
}
use pi_codex_adaptor.Bridge.Table.{
  unknown, life, life-settle, IsTidy, After, After-trans, After-same, reject_pending-After,
  frame-After, if-After, option-After, pair-After,
}
use pi_codex_adaptor.Bridge.Closing.{close-After, fail-After, fail-closed}
use pi_codex_adaptor.Bridge.Tracking.{ignore_late_messages-After, open-After, unknown_iff}
use pi_codex_adaptor.Bridge.Routed.{IsTidy-of, framed-After, write-After}

give_up-After : (f : Failure) (c : Client) → IsTidy c → After c (give_up f c)
give_up-After f c w =
    framed-After c (record c { handshake = none }) _ refl refl refl refl w
      (fail-After f (record c { handshake = none }))

pub fail_initialize-After : (c : Client) → IsTidy c → After c (fail_initialize c)
unfolding fail_initialize
fail_initialize-After c w =
    option-After c.handshake c c _ (λ e. After-same c w) (λ p e. give_up-After write_failed c w)

pub resume_connect-After : (c : Client) → IsTidy c → After c (resume_connect c)
unfolding resume_connect
resume_connect-After c w =
    option-After c.handshake c c _ (λ e. After-same c w) (λ p e. answered p.outcome)
  where
    answered :
        (r : Option HandshakeOutcome)
        → After c (elim r [
          | none ↦ c
          | some (accepted h) ↦ record c { ready = true; handshake = none }
          | some (declined f) ↦ give_up f c
        ])
    answered none = After-same c w
    answered (some (accepted h)) = frame-After c _ refl refl refl refl w
    answered (some (declined f)) = give_up-After f c w

end_shutdown-After : (c : Client) → IsTidy c → After c (end_shutdown c)
end_shutdown-After c w =
    framed-After c (record c { input_ended = true }) _ refl refl refl refl w
      (close-After (record c { input_ended = true }))

pub resume_shutdown-After : (c : Client) → IsTidy c → After c (resume_shutdown c)
unfolding resume_shutdown
resume_shutdown-After c w =
    option-After c.shutdown_id c c _ (λ e. After-same c w)
      (λ id e.
        if-After (is_none (Dict.lookup id c.settled)) c c _ (λ g. After-same c w)
          (λ g. end_shutdown-After c w))

-- A pending request is rejected, and its late messages are ignored.
drop-After :
    (id : String) (f : Failure) (p : Pending) (c : Client)
    → IsTidy c
    → Dict.lookup id c.pending ≡ some p
    → After c (ignore_late_messages id (reject_pending id f c))
unfolding reject_pending Dict.lookup
drop-After id f p c w e =
    let a = reject_pending-After id f c w in
    After-trans a (
      ignore_late_messages-After id (reject_pending id f c) (IsTidy-of a)
        (ground (arith, e, eq_iff id id)))

pub time_out-After : (id : String) (c : Client) → IsTidy c → After c (time_out id c)
unfolding time_out
time_out-After id c w =
    option-After (Dict.lookup id c.pending) c c _ (λ e. After-same c w)
      (λ p e.
        if-After (is_none p.timer) c c _ (λ g. After-same c w)
          (λ g. drop-After id control_timeout p c w e))

ignore-life :
    (id j : String) (c : Client)
    → (ignore_late_messages id c).closed ≡ false
    → life j (ignore_late_messages id c) ≡ life j c
unfolding ignore_late_messages
ignore-life id j c h = ground (arith, fail-closed connection_closed c)

-- As long as the client is not closed, the lives of other requests stay as they are.
drop-life :
    (id j : String) (f : Failure) (p : Pending) (c : Client)
    → Dict.lookup id c.pending ≡ some p
    → life j c ≡ unknown
    → (ignore_late_messages id (reject_pending id f c)).closed ≡ false
    → life j (ignore_late_messages id (reject_pending id f c)) ≡ unknown
unfolding reject_pending
drop-life id j f p c e h o =
    let gone : reject_pending id f c ≡ settle id (rejected f) c = ground (arith, e) in
    ignore-life id j (reject_pending id f c) o
    ∙ ap (life j) gone
    ∙ life-settle id (rejected f) c j
    ∙ ground (
      arith,
      h,
      e,
      unknown_iff j c,
      λ (g : str_eq id j ≡ true). ap (λ k. Dict.lookup k c.pending) ((eq_iff id j).0 g),
    )

module _ (encode : ClientMessage → Encoded) where
  send-After :
      (id : String) (m : ClientMessage) (c : Client) → IsTidy c → After c (send encode id m c)
  unfolding send
  send-After id m c w =
      let a = write-After encode m c w in
      option-After (write encode m c).1 c (write encode m c).0 _ (λ e. a)
        (λ f e. After-trans a (reject_pending-After id f (write encode m c).0 (IsTidy-of a)))

  -- A new request is opened, and its message sent.
  opened-After :
      (id : String) (p : Pending) (m : ClientMessage) (c : Client)
      → IsTidy c
      → life id c ≡ unknown
      → c.closed ≡ false
      → After c (send encode id m (open_pending id p c))
  opened-After id p m c w h e =
      let a = open-After id p c w h e in
      After-trans a (send-After id m (open_pending id p c) (IsTidy-of a))

  pub make_request-After :
      (id : String) (method : RequestMethod) (params : Value) (signal : Option Bool) (c : Client)
      → IsTidy c
      → life id c ≡ unknown
      → After c (make_request encode id method params signal c).0
  unfolding make_request
  make_request-After id method params signal c w h =
      pair-After (not (may_request c)) c _ _ (λ e. After-same c w)
        (λ e.
          pair-After (is_aborted signal) c _ _ (λ g. After-same c w)
            (λ g. opened-After id _ (request id method params) c w h (ground arith)))

module _ (encode : ClientMessage → Encoded) (o : Options) where
  pub control_request-After :
      (id : String) (control : Control) (signal : Option Bool) (timeout : Option Number) (b : Bool)
      (c : Client)
      → IsTidy c
      → (c.closed ≡ false → life id c ≡ unknown)
      → After c (control_request encode o id control signal timeout b c).0
  unfolding control_request
  control_request-After id control signal timeout b c w h =
      pair-After (not (may_control b c)) c _ _ (λ e. After-same c w)
        (λ e.
          pair-After (is_aborted signal) c _ _ (λ g. After-same c w)
            (λ g.
              let live : c.closed ≡ false = ground (arith, Bool-cases b) in
              opened-After encode id _ (control_message id control) c w (h live) live))

  abort_listener-After :
      (kind : Kind) (id cancel_id : String) (p : Pending) (c : Client)
      → IsTidy c
      → Dict.lookup id c.pending ≡ some p
      → life cancel_id c ≡ unknown
      → After c (abort_listener encode o kind id cancel_id c)
  unfolding abort_listener
  abort_listener-After request_kind id cancel_id p c w e h =
      let a = drop-After id request_aborted p c w e in
      After-trans a (
        control_request-After cancel_id (cancel id) none none false
          (ignore_late_messages id (reject_pending id request_aborted c)) (IsTidy-of a)
          (drop-life id cancel_id request_aborted p c e h))
  abort_listener-After control_kind id cancel_id p c w e h = drop-After id control_aborted p c w e

  pub abort-After :
      (id cancel_id : String) (c : Client)
      → IsTidy c
      → life cancel_id c ≡ unknown
      → After c (abort encode o id cancel_id c)
  unfolding abort
  abort-After id cancel_id c w h =
      option-After (Dict.lookup id c.pending) c c _ (λ e. After-same c w)
        (λ p e.
          if-After p.listens c _ c (λ g. abort_listener-After p.kind id cancel_id p c w e h)
            (λ g. After-same c w))

  pub connect-After : (id : String) (c : Client) → IsTidy c → After c (connect encode o id c)
  unfolding connect
  connect-After id c w =
      let d = record c { handshake = some (record { request_id = id; outcome = none }) } in
      let m = initialize id bridge_protocol_version "pi-codex-adaptor" o.client_version in
      framed-After c d _ refl refl refl refl w (λ v.
        let a = write-After encode m d v in
        option-After (write encode m d).1 d (write encode m d).0 _ (λ e. a)
          (λ f e. After-trans a (give_up-After f (write encode m d).0 (IsTidy-of a))))

  pub shut_down-After :
      (id : String) (signal : Option Bool) (timeout : Option Number) (c : Client)
      → IsTidy c
      → life id c ≡ unknown
      → After c (shut_down encode o id signal timeout c)
  unfolding shut_down
  shut_down-After id signal timeout c w h =
      let d = record c { closing = true; shutdown_id = some id } in
      if-After (c.closed || not (is_none c.shutdown_id)) c c _ (λ e. After-same c w)
        (λ e. framed-After c d _ refl refl refl refl w (λ v.
          let a = control_request-After id shuts_down signal timeout true d v (λ g. h) in
          let r = control_request encode o id shuts_down signal timeout true d in
          option-After r.1 d r.0 _ (λ g. a)
            (λ f g. After-trans a (end_shutdown-After r.0 (IsTidy-of a)))))
