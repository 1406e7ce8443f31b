-- ===== src/Routing/Examples.antt =====
-- The theorems on the session router and the request guard of src/integration/pi at concrete calls.
use pi_codex_adaptor.Prelude.{
  ◌≤◌, All, String, Bool, true, false, not, str_eq, ◌≡◌, ◌≢◌, refl, Option, none, some, List, [],
  ◌∷◌, arith, ==_iff, trim, trim_start, is_space, if◌then◌else◌,
}
use pi_codex_adaptor.Prelude.Dict.{lookup, insert, erase, erase_where}
use pi_codex_adaptor.Routing.Tokens.{Token}
use pi_codex_adaptor.Routing.Router.{
  codex_responses, open_ai_responses, Dispatchers, Binding, Router, new_router, forward, found,
  snapshot, dispatch, resolve_binding, create_lease, bind, bind_binding, move_binding, release,
  release_binding, is_blank, leave, remove_token, store_bucket, gather,
}
use pi_codex_adaptor.Routing.Bindings.{IsSound}
use pi_codex_adaptor.Routing.Dispatch.{IsBound, Answers, resolve_binding-Answers}
use pi_codex_adaptor.Routing.Reached.{
  Move, creates, binds, releases, move, reach, reach-IsSound, dispatch-forwards, dispatch-bind,
}
use pi_codex_adaptor.Routing.Guard.{
  Guard, new_guard, returned, thrown, record_rejected, has_session, assert_approved, is_live,
  approve, approved_of, open_record, record_failure,
}
use pi_codex_adaptor.Routing.Approval.{
  Call, opens, approves, hooks, IsDigested, invalidates, calls, call, assert_approved-digest,
}
use pi_codex_adaptor.Routing.Liveness.{invalidate_session-ends, failure_of}

-- The dispatchers of an extension instance, named after it.
abbrev instance : String → Dispatchers String
instance name f = name

-- Two instances, the second bound to s.
abbrev moves : List (Move String)
moves = creates (instance "a") ∷ creates (instance "b") ∷ binds 1 "s" ∷ []

abbrev state : Router String
state = reach new_router moves

abbrev second : Binding String
second = record { dispatchers = instance "b"; session_id = some "s"; released = false }

state_second : state.bindings 1 ≡ some second
unfolding reach move new_router create_lease bind bind_binding move_binding is_blank leave trim
    trim_start is_space
state_second = refl

reach-IsSound_example : IsSound state
reach-IsSound_example = reach-IsSound moves

state-IsSound : IsSound state
state-IsSound = reach-IsSound moves

resolve_binding-Answers_example : Answers state "s" (resolve_binding "s" state).1
resolve_binding-Answers_example = resolve_binding-Answers state "s" state-IsSound

forwarded : (dispatch codex_responses (snapshot (some "s")) state).1 ≡ forward "b"
unfolding reach move new_router create_lease bind bind_binding move_binding is_blank leave trim
    trim_start is_space dispatch resolve_binding gather lookup insert erase erase_where
forwarded = refl

dispatch-forwards_example :
    (t : Token) × (b : Binding String) × (IsBound state "s" t b
      × (b.dispatchers codex_responses ≡ "b")
      × ((u : Token) (c : Binding String) → IsBound state "s" u c → u ≡ t))
dispatch-forwards_example = dispatch-forwards moves codex_responses "s" "b" forwarded

abbrev first : Binding String
first = record { dispatchers = instance "a"; session_id = none; released = false }

state_first : state.bindings 0 ≡ some first
unfolding reach move new_router create_lease bind bind_binding move_binding is_blank leave trim
    trim_start is_space
state_first = refl

t_filled : is_blank "t" ≡ false
unfolding is_blank trim trim_start is_space
t_filled = refl

t_free : (u : Token) (c : Binding String) → IsBound state "t" u c → u ≡ 0
unfolding reach move new_router create_lease bind bind_binding move_binding is_blank leave trim
    trim_start is_space
t_free u c h = ground (arith, h, ==_iff u 0, ==_iff u 1)

dispatch-bind_example :
    (dispatch open_ai_responses (snapshot (some "t")) (reach state (binds 0 "t" ∷ []))).1
    ≡ forward "a"
dispatch-bind_example =
    dispatch-bind moves 0 first "t" open_ai_responses state_first refl t_filled t_free

-- Both instances are bound to s; one is released.
abbrev both : List (Move String)
both = creates (instance "a") ∷ creates (instance "b") ∷ binds 0 "s" ∷ binds 1 "s" ∷ []

abbrev first_bound : Binding String
first_bound = record first { session_id = some "s" }

both_first : (reach new_router both).bindings 0 ≡ some first_bound
unfolding reach move new_router create_lease bind bind_binding move_binding is_blank leave trim
    trim_start is_space
both_first = refl

remaining :
    (resolve_binding "s" (reach (reach new_router both) (releases 0 ∷ []))).1 ≡ found 1 second
unfolding reach move new_router create_lease bind bind_binding move_binding is_blank leave trim
    trim_start is_space release release_binding remove_token store_bucket resolve_binding gather
    lookup insert erase erase_where
remaining = refl

abbrev first_token : Token
first_token = 0

abbrev second_token : Token
second_token = 1

-- Payloads are texts; the empty one is no record, and a blank has no digest.
abbrev is_payload : String → Bool
is_payload v = not (str_eq v "")

abbrev digest_of : String → Option String
digest_of v = if str_eq v " " then none else some v

abbrev any_freezes : String → Bool
any_freezes v = true

abbrev approving : List (Call String String)
approving =
    opens "s" "request" true false
    ∷ approves (some 1) 1 "first"
    ∷ hooks (some 1) 1 "payload" "failed"
    ∷ []

abbrev approved : Guard String String
approved = calls is_payload any_freezes digest_of new_guard approving

payload_returned :
    assert_approved is_payload any_freezes digest_of 1 "payload" approved ≡ returned "payload"
unfolding calls call new_guard open_record approve is_live approved_of assert_approved
payload_returned = refl

approving-IsDigested : All (IsDigested is_payload any_freezes digest_of) approving
approving-IsDigested = (tt, ((λ e. cc), (tt, tt)))

assert_approved-digest_example :
    (digest_of "payload" ≡ digest_of "payload") × (digest_of "payload" ≢ none)
assert_approved-digest_example =
    assert_approved-digest is_payload any_freezes digest_of approving 1 "payload" "payload"
      approving-IsDigested payload_returned

given : 1 ≤ approved.next_generation
unfolding calls call new_guard open_record approve is_live
given = omega arith

of_session : has_session "s" (approved.objects 1) ≡ true
unfolding calls call new_guard open_record approve is_live
of_session = refl

invalidate_session-ends_example :
    assert_approved is_payload any_freezes digest_of 1 "payload" (
      calls is_payload any_freezes digest_of approved
        (invalidates "s" ∷ hooks (some 1) 1 "payload" "failed" ∷ []))
    ≡ thrown record_rejected
invalidate_session-ends_example =
    invalidate_session-ends is_payload any_freezes digest_of "s" 1 approved
      (hooks (some 1) 1 "payload" "failed" ∷ []) "payload" given of_session

-- A second payload, which has no digest, fails the record.
abbrev failed : Guard String String
failed = call is_payload any_freezes digest_of approved (hooks (some 1) 1 " " "failed")

failed_with : failure_of 1 failed ≡ some "failed"
unfolding calls call new_guard open_record approve is_live record_failure
failed_with = refl

failed_given : 1 ≤ failed.next_generation
unfolding calls call new_guard open_record approve is_live record_failure
failed_given = omega arith
