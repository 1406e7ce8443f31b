-- ===== src/Bridge/Ended.antt =====
-- src/infrastructure/codex-bridge/client.ts: nothing comes of a client that has been closed.
use pi_codex_adaptor.Prelude.{ℕ, String, true, ◌≡◌, refl, ◌∙◌, Option, none, List, [], ◌∷◌, arith}
use pi_codex_adaptor.Prelude.Dict
use pi_codex_adaptor.Bridge.Frames.{Encoded}
use pi_codex_adaptor.Bridge.Messages.{ServerMessage, ClientMessage, Failure}
use pi_codex_adaptor.Bridge.Client.{
  Work, runs_event, asks_approval, notifies, settles, Options, Client, new_client, reject_pending,
  resolve_pending, reject_handshake, fail, close, write,
}
use pi_codex_adaptor.Bridge.Route.{
  receive, output_ended, transport_ended, Handled, handled, threw, unacknowledged, chain_of,
  acknowledge_event, end_handler, perform, perform_first, run_next,
}
use pi_codex_adaptor.Bridge.Calls.{
  make_request, control_request, abort, time_out, give_up, connect, fail_initialize, resume_connect,
  end_shutdown, shut_down, resume_shutdown, Step, connects, initialize_write_fails,
  handshake_times_out, resumes_connect, requests, controls, aborts, times_out, write_fails,
  receives, runs, ends_output, closes_transport, shuts, resumes_shutdown, closes, step,
}
use pi_codex_adaptor.Bridge.Reached.{Run, here, next, Run-After}
use pi_codex_adaptor.Bridge.Promises.{reached-IsTidy, reached-IsSealed}

-- No promise is settled and no message written.
abbrev pub Still : Client → Client → Type 0
Still c d = (d.settled ≡ c.settled) × (d.written ≡ c.written)

abbrev IsEnded : Client → Type 0
IsEnded c = (c.closed ≡ true) × ((id : String) → Dict.lookup id c.pending ≡ none)

fail-same : (f : Failure) (c : Client) → c.closed ≡ true → fail f c ≡ c
unfolding fail
fail-same f c e = ground (arith, e)

close-same : (c : Client) → c.closed ≡ true → close c ≡ c
unfolding close
close-same c e = ground (arith, e)

give_up-Still : (f : Failure) (c : Client) → c.closed ≡ true → Still c (give_up f c)
give_up-Still f c e = ground (arith, fail-same f (record c { handshake = none }) e)

end_shutdown-Still : (c : Client) → c.closed ≡ true → Still c (end_shutdown c)
end_shutdown-Still c e = ground (arith, close-same (record c { input_ended = true }) e)

resume_connect-Still : (c : Client) → c.closed ≡ true → Still c (resume_connect c)
unfolding resume_connect
resume_connect-Still c e = ground (arith, λ (f : Failure). give_up-Still f c e)

end_handler-Still : (h : Handled) (c : Client) → c.closed ≡ true → Still c (end_handler h c)
unfolding fail
end_handler-Still handled c e = (refl, refl)
end_handler-Still threw c e = ground (arith, e)
end_handler-Still unacknowledged c e = ground (arith, e)

module _ (encode : ClientMessage → Encoded) where
  acknowledge_event-Still :
      (id : String) (n : ℕ) (h : Handled) (c : Client)
      → c.closed ≡ true
      → Still c (acknowledge_event encode id n h c)
  unfolding acknowledge_event write fail
  acknowledge_event-Still id n handled c e = ground (arith, e)
  acknowledge_event-Still id n threw c e = ground (arith, e)
  acknowledge_event-Still id n unacknowledged c e = ground (arith, e)

  perform-Still :
      (id : String) (work : Work) (h : Handled) (c : Client)
      → IsEnded c
      → Still c (perform encode id work h c)
  unfolding perform resolve_pending
  perform-Still id (runs_event n v) h c w = acknowledge_event-Still id n h c w.0
  perform-Still id (asks_approval a) h c w = end_handler-Still h c w.0
  perform-Still id (notifies b n) h c w = end_handler-Still h c w.0
  perform-Still id (settles status r) h c w = ground (arith, w.1 id)

  perform_first-Still :
      (id : String) (ws : List Work) (h : Handled) (c : Client)
      → IsEnded c
      → Still c (perform_first encode id ws h c)
  perform_first-Still id [] h c w = (refl, refl)
  perform_first-Still id (work ∷ ws) h c w =
      perform-Still id work h (record c { chains = Dict.insert id ws c.chains }) w

module _ (encode : ClientMessage → Encoded) (parse : List ℕ → Option ServerMessage)
    (o : Options) where
  step-Still : (s : Step) (c : Client) → IsEnded c → Still c (step encode parse o s c)
  unfolding step
  step-Still (connects id) c w = unfold connect write fail in ground (arith, w.0)
  step-Still initialize_write_fails c w = unfold fail_initialize fail in ground (arith, w.0)
  step-Still handshake_times_out c w = unfold reject_handshake in ground arith
  step-Still resumes_connect c w = resume_connect-Still c w.0
  step-Still (requests id method params signal) c w = unfold make_request in ground (arith, w.0)
  step-Still (controls id control signal timeout) c w =
      unfold control_request in ground (arith, w.0)
  step-Still (aborts id cancel_id) c w = unfold abort in ground (arith, w.1 id)
  step-Still (times_out id) c w = unfold time_out in ground (arith, w.1 id)
  step-Still (write_fails id) c w = unfold reject_pending in ground (arith, w.1 id)
  step-Still (receives chunk) c w = unfold receive in ground (arith, w.0)
  step-Still (runs id h) c w =
      unfold run_next in perform_first-Still encode id (chain_of id c) h c w
  step-Still ends_output c w = unfold output_ended fail in ground (arith, w.0)
  step-Still closes_transport c w = unfold transport_ended fail in ground (arith, w.0)
  step-Still (shuts id signal timeout) c w = unfold shut_down in ground (arith, w.0)
  step-Still resumes_shutdown c w =
      unfold resume_shutdown in ground (arith, end_shutdown-Still c w.0)
  step-Still closes c w = unfold close in ground (arith, w.0)

  Run-IsEnded :
      {b c : Client}
      → Run encode parse o new_client b
      → b.closed ≡ true
      → Run encode parse o b c
      → IsEnded c
  Run-IsEnded {b} {c} r e s =
      let a = Run-After encode parse o (reached-IsTidy encode parse o r) s in
      let closed = a.stays_closed e in (closed, a.sealed (reached-IsSealed encode parse o r) closed)

  -- Once a reached client is closed, it stays closed: whatever happens afterwards, it settles no
  -- further promise, writes no further message, and has no pending request.
  pub Run-Still :
      {b c : Client}
      → Run encode parse o new_client b
      → b.closed ≡ true
      → Run encode parse o b c
      → Still b c × IsEnded c
  Run-Still {b} r e here = ((refl, refl), Run-IsEnded r e here)
  Run-Still {b} r e (next s q h) =
      let (still, ended) = Run-Still r e q in
      let now = step-Still s _ ended in
      ((now.0 ∙ still.0, now.1 ∙ still.1), Run-IsEnded r e (next s q h))
