-- ===== src/Bridge/Examples.antt =====
-- Tests of the bridge, and the theorems on it at concrete inputs.
use pi_codex_adaptor.Prelude.{
  ℕ, String, true, false, ◌≡◌, refl, Option, none, some, List, [], ◌∷◌, ◌++◌, map, ◌↔◌, arith, ◌==◌,
  mem_text, str_eq, not, ◌&&◌, if◌then◌else◌,
}
use pi_codex_adaptor.Prelude.Dict
use pi_codex_adaptor.Value.{null}
use pi_codex_adaptor.Bridge.Frames.{
  max_frame_bytes, multiple_frames, empty_frame, Encoded, framed, encode_client_message,
  new_decoder, joined, thrown, push, finish,
}
use pi_codex_adaptor.Bridge.Stream.{read, feed, read_all, read_all-feed}
use pi_codex_adaptor.Bridge.Lines.{Line, read_all-stream}
use pi_codex_adaptor.Bridge.Identity.{
  Handshake, VerificationOptions, verified, field_mismatch, verify_handshake, IsProduct, IsSource,
  verify_handshake_iff, official_source_commit, vendor_tree_sha256,
}
use pi_codex_adaptor.Bridge.Messages.{
  completed, ServerMessage, message_id, is_final, handshake, event, result, responses_create,
  ClientMessage, resolved, Outcome,
}
use pi_codex_adaptor.Bridge.Client.{request_kind, Pending, runs_event, Options, Client, new_client}
use pi_codex_adaptor.Bridge.Route.{handled, route, route_each}
use pi_codex_adaptor.Bridge.Calls.{
  Step, connects, resumes_connect, requests, aborts, receives, runs, closes, step,
}
use pi_codex_adaptor.Bridge.Table.{waiting, life, Progress, IsTidy}
use pi_codex_adaptor.Bridge.Reached.{Run, here, next}
use pi_codex_adaptor.Bridge.Promises.{
  reached-IsTidy, Run-Progress, closed-settles, late_messages-ignored,
}
use pi_codex_adaptor.Bridge.Ended.{Still, Run-Still}
use pi_codex_adaptor.Bridge.Drained.{drain, Resolves, acknowledged, result-Resolves}

-- A parser that knows a few payloads of one byte.
abbrev number_of : List ℕ → Option ℕ
number_of [] = none
number_of (a ∷ []) = some a
number_of (a ∷ b ∷ []) = some b
number_of _ = none

abbrev two_chunks : List (List ℕ)
two_chunks = (65 ∷ 10 ∷ 66 ∷ []) ∷ (66 ∷ 13 ∷ 10 ∷ []) ∷ []

two_frames : read_all number_of two_chunks new_decoder ≡ read (65 ∷ 66 ∷ []) []
unfolding read_all push new_decoder max_frame_bytes
two_frames = refl

read_all-feed_example :
    read_all number_of two_chunks new_decoder
    ≡ feed number_of (joined new_decoder.chunks) (joined two_chunks)
read_all-feed_example = read_all-feed number_of two_chunks new_decoder (unfold new_decoder in refl)

abbrev two_lines : List (Line ℕ)
two_lines =
    record { payload = 65 ∷ []; carriage_return = false; message = 65 }
    ∷ record { payload = 66 ∷ 66 ∷ []; carriage_return = true; message = 66 }
    ∷ []

read_all-stream_example :
    read_all number_of two_chunks new_decoder ≡ read (map (λ (l : Line ℕ). l.message) two_lines) []
unfolding max_frame_bytes
read_all-stream_example =
    read_all-stream number_of two_lines two_chunks
      (
        record {
          nonempty = omega arith;
          fits = omega arith;
          no_feed = refl;
          no_return = refl;
          parses = refl;
        },
        (
          record {
            nonempty = omega arith;
            fits = omega arith;
            no_feed = refl;
            no_return = refl;
            parses = refl;
          },
          tt,
        ),
      )
      refl

blank_frame : (push number_of (10 ∷ []) new_decoder).1 ≡ thrown empty_frame
unfolding push new_decoder max_frame_bytes
blank_frame = refl

stray_return : (push number_of (65 ∷ 13 ∷ 65 ∷ 10 ∷ []) new_decoder).1 ≡ thrown multiple_frames
unfolding push new_decoder max_frame_bytes
stray_return = refl

partial_frame : (finish (push number_of (65 ∷ []) new_decoder).0).1 ≡ true
unfolding finish push new_decoder max_frame_bytes
partial_frame = refl

encoded : encode_client_message (λ (n : ℕ). true) (λ n. some (n ∷ [])) 65 ≡ framed (65 ∷ 10 ∷ [])
unfolding encode_client_message max_frame_bytes
encoded = refl

abbrev linux : String
linux = "x86_64-unknown-linux-musl"

abbrev bridge_handshake : Handshake
unfolding max_frame_bytes
bridge_handshake = record {
  bridge_protocol_version = 8;
  official_codex_version = "0.146.0";
  official_codex_tag = "rust-v0.146.0";
  official_source_commit = official_source_commit;
  build_target = linux;
  build_source_commit = "development";
  vendor_tree_sha256 = vendor_tree_sha256;
  max_frame_bytes = max_frame_bytes;
  max_pending_events = 256;
  capabilities = [];
}

abbrev development : VerificationOptions
development = record { allow_development_build = true; expected_build_source_commit = none }

right_handshake : verify_handshake bridge_handshake linux development ≡ verified
unfolding verify_handshake max_frame_bytes
right_handshake = refl

other_target :
    verify_handshake bridge_handshake "aarch64-apple-darwin" development
    ≡ field_mismatch "buildTarget"
unfolding verify_handshake max_frame_bytes
other_target = refl

verify_handshake_iff_example :
    (verify_handshake bridge_handshake linux development ≡ verified)
    ↔ (IsProduct bridge_handshake linux × IsSource bridge_handshake.build_source_commit development)
verify_handshake_iff_example = verify_handshake_iff bridge_handshake linux development

abbrev options : Options
options = record {
  build_target = linux;
  client_version = "1.0.0";
  verification = development;
  control_request_timeout_ms = none;
}

abbrev encode : ClientMessage → Encoded
encode m = framed (65 ∷ 10 ∷ [])

-- A server that sends a handshake, an event and a result.
abbrev parse : List ℕ → Option ServerMessage
parse (c ∷ []) =
    if c == 1
    then some (handshake "i" bridge_handshake)
    else if c == 2
    then some (event "r" 0 null)
    else if c == 3
    then some (result "r" completed null)
    else none
parse _ = none

abbrev after : List Step → Client → Client
unfolding step
after [] c = c
after (s ∷ ss) c = after ss (step encode parse options s c)

abbrev connected : Client
unfolding step new_client
connected = after (connects "i" ∷ receives (1 ∷ 10 ∷ []) ∷ resumes_connect ∷ []) new_client

abbrev asking : Client
unfolding step
asking = step encode parse options (requests "r" responses_create null (some false)) connected

connected_ready : connected.ready ≡ true
unfolding step new_client max_frame_bytes verify_handshake Dict.lookup Dict.insert Dict.erase
connected_ready = refl

answered_request :
    (after
      (receives (2 ∷ 10 ∷ 3 ∷ 10 ∷ []) ∷ runs "r" handled ∷ runs "r" handled ∷ [])
      asking).settled
    ≡ ("r", resolved completed null) ∷ []
unfolding step new_client max_frame_bytes verify_handshake Dict.lookup Dict.insert Dict.erase
answered_request = refl

-- A result that comes before its handler has run.
early_result : life "r" (after (receives (3 ∷ 10 ∷ 3 ∷ 10 ∷ []) ∷ []) asking) ≡ waiting
unfolding step new_client max_frame_bytes verify_handshake Dict.lookup Dict.insert Dict.erase
early_result = refl

-- A message that follows the handshake in one chunk is not routed.
lost_message :
    (after (connects "i" ∷ receives (1 ∷ 10 ∷ 2 ∷ 10 ∷ []) ∷ resumes_connect ∷ []) new_client).ready
    ≡ true
unfolding step new_client max_frame_bytes verify_handshake Dict.lookup Dict.insert Dict.erase
lost_message = refl

unknown_request : (after (receives (2 ∷ 10 ∷ []) ∷ []) connected).closed ≡ true
unfolding step new_client max_frame_bytes verify_handshake Dict.lookup Dict.insert Dict.erase
unknown_request = refl

abbrev run_connected : Run encode parse options new_client connected
unfolding step connected
run_connected =
    next resumes_connect (next (receives (1 ∷ 10 ∷ [])) (next (connects "i") here tt) tt) tt

abbrev run_asking : Run encode parse options new_client asking
unfolding step new_client max_frame_bytes verify_handshake Dict.lookup Dict.insert Dict.erase
run_asking = next (requests "r" responses_create null (some false)) run_connected refl

abbrev run_closing : Run encode parse options asking (step encode parse options closes asking)
run_closing = next closes here tt

abbrev run_closed : Run encode parse options new_client (step encode parse options closes asking)
run_closed = next closes run_asking tt

reached-IsTidy_example : IsTidy asking
reached-IsTidy_example = reached-IsTidy encode parse options run_asking

Run-Progress_example :
    Progress (life "r" asking) (life "r" (step encode parse options closes asking))
Run-Progress_example = Run-Progress encode parse options "r" run_asking run_closing

abbrev pending : Pending
pending = record { kind = request_kind; listens = true; timer = none }

closed-settles_example :
    (r : Outcome) × (Dict.lookup "r" (step encode parse options closes asking).settled ≡ some r)
unfolding step new_client max_frame_bytes verify_handshake Dict.lookup Dict.insert Dict.erase
closed-settles_example =
    closed-settles encode parse options "r" pending run_asking refl run_closing refl

abbrev stopped : Client
unfolding step
stopped = step encode parse options (aborts "r" "x") asking

late_messages-ignored_example :
    let d =
      route_each options ((event "r" 0 null ∷ []) ++ result "r" completed null ∷ []) stopped in
    (record d { ignored_request_ids = stopped.ignored_request_ids } ≡ stopped)
    × (mem_text "r" d.ignored_request_ids
        ≡ (mem_text "r" stopped.ignored_request_ids && not (str_eq "r" "r")))
unfolding step new_client max_frame_bytes verify_handshake Dict.lookup Dict.insert Dict.erase
late_messages-ignored_example =
    late_messages-ignored options "r" (event "r" 0 null ∷ []) (result "r" completed null) stopped
      refl refl (((unfold message_id in refl, refl), unfold is_final in refl), tt)
      (unfold message_id in refl, refl) (unfold is_final in refl) "r"

Run-Still_example :
    Still (step encode parse options closes asking) (
      step encode parse options
        (requests "s" responses_create null none)
        (step encode parse options closes asking))
    × ((step encode parse options
            (requests "s" responses_create null none)
            (step encode parse options closes asking)).closed
          ≡ true
        × ((id : String)
            → Dict.lookup id
                (step encode parse options
                  (requests "s" responses_create null none)
                  (step encode parse options closes asking)).pending
              ≡ none))
unfolding step new_client max_frame_bytes verify_handshake Dict.lookup Dict.insert Dict.erase
Run-Still_example =
    Run-Still encode parse options run_closed refl
      (next (requests "s" responses_create null none) here refl)

abbrev with_event : Client
unfolding step
with_event = step encode parse options (receives (2 ∷ 10 ∷ [])) asking

abbrev run_event : Run encode parse options new_client with_event
unfolding step with_event
run_event = next (receives (2 ∷ 10 ∷ [])) run_asking tt

result-Resolves_example :
    Resolves encode "r" completed null
      (acknowledged encode "r" (runs_event 0 null ∷ []) with_event.written)
      (drain encode "r" 2 (route options (result "r" completed null) with_event))
unfolding step new_client max_frame_bytes verify_handshake Dict.lookup Dict.insert Dict.erase
result-Resolves_example =
    result-Resolves encode "r" options (runs_event 0 null ∷ []) completed null pending with_event
      (λ n. (65 ∷ 10 ∷ [], refl)) (reached-IsTidy encode parse options run_event) refl refl refl
      refl (tt, tt)
