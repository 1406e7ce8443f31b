-- ===== src/Bridge/Reached.antt =====
-- src/infrastructure/codex-bridge/client.ts: the states that a client reaches, and the life of its
-- requests in them.
use pi_codex_adaptor.Prelude.{ℕ, false, ◌≡◌, Option, List}
use pi_codex_adaptor.Bridge.Frames.{Encoded}
use pi_codex_adaptor.Bridge.Messages.{
  ServerMessage, ClientMessage, connection_closed, handshake_timeout, write_failed,
}
use pi_codex_adaptor.Bridge.Client.{Options, Client}
use pi_codex_adaptor.Bridge.Route.{transport_ended}
use pi_codex_adaptor.Bridge.Calls.{
  Step, connects, initialize_write_fails, handshake_times_out, resumes_connect, requests, controls,
  aborts, times_out, write_fails, receives, runs, ends_output, closes_transport, shuts,
  resumes_shutdown, closes, step,
}
use pi_codex_adaptor.Bridge.Table.{
  unknown, life, IsTidy, After, After-trans, After-same, reject_pending-After,
}
use pi_codex_adaptor.Bridge.Closing.{close-After, fail-After, reject_handshake-After}
use pi_codex_adaptor.Bridge.Routed.{IsTidy-of, receive-After, output_ended-After, run_next-After}
use pi_codex_adaptor.Bridge.Called.{
  make_request-After, control_request-After, abort-After, time_out-After, connect-After,
  fail_initialize-After, resume_connect-After, shut_down-After, resume_shutdown-After,
}

-- randomUUID gives an id that no promise has had.
abbrev pub IsFresh : Step → Client → Type 0
IsFresh (requests id method params signal) c = life id c ≡ unknown
IsFresh (controls id control signal timeout) c = life id c ≡ unknown
IsFresh (aborts id cancel_id) c = life cancel_id c ≡ unknown
IsFresh (shuts id signal timeout) c = life id c ≡ unknown
IsFresh _ c = Unit

module _ (encode : ClientMessage → Encoded) (parse : List ℕ → Option ServerMessage)
    (o : Options) where
  step-After : (s : Step) (c : Client) → IsTidy c → IsFresh s c → After c (step encode parse o s c)
  unfolding step
  step-After (connects id) c w h = connect-After encode o id c w
  step-After initialize_write_fails c w h = fail_initialize-After c w
  step-After handshake_times_out c w h = reject_handshake-After handshake_timeout c w
  step-After resumes_connect c w h = resume_connect-After c w
  step-After (requests id method params signal) c w h =
      make_request-After encode id method params signal c w h
  step-After (controls id control signal timeout) c w h =
      control_request-After encode o id control signal timeout false c w (λ g. h)
  step-After (aborts id cancel_id) c w h = abort-After encode o id cancel_id c w h
  step-After (times_out id) c w h = time_out-After id c w
  step-After (write_fails id) c w h = reject_pending-After id write_failed c w
  step-After (receives chunk) c w h = receive-After o parse chunk c w
  step-After (runs id r) c w h = run_next-After encode id r c w
  step-After ends_output c w h = output_ended-After c w
  step-After closes_transport c w h = unfold transport_ended in fail-After connection_closed c w
  step-After (shuts id signal timeout) c w h = shut_down-After encode o id signal timeout c w h
  step-After resumes_shutdown c w h = resume_shutdown-After c w
  step-After closes c w h = close-After c w

  -- The states that follow on a state by steps with fresh ids.
  pub data Run (b : Client) : Client → Type 0 where
    here : Run b b
    next : {c : Client} (s : Step) → Run b c → IsFresh s c → Run b (step encode parse o s c)

  pub Run-After : {b c : Client} → IsTidy b → Run b c → After b c
  Run-After {b} w here = After-same b w
  Run-After w (next s r h) = let a = Run-After w r in After-trans a (step-After s _ (IsTidy-of a) h)
