-- ===== src/Bridge/Promises.antt =====
-- src/infrastructure/codex-bridge/client.ts: what the callers of a client can rely on.
use pi_codex_adaptor.Prelude.{
  ℕ, String, true, false, ◌≡◌, ◌≢◌, refl, ap, ◌∙◌, Option, none, some, List, [], ◌∷◌, ◌++◌, arith,
  inl, inr, mem_text, mem_text-keep, str_eq, subst, sym, not, ◌&&◌, All, Option-cases,
}
use pi_codex_adaptor.Prelude.Dict
use pi_codex_adaptor.Prelude.Dict.{lookup-insert}
use pi_codex_adaptor.Bridge.Frames.{Encoded}
use pi_codex_adaptor.Bridge.Messages.{ServerMessage, message_id, is_final, ClientMessage, Outcome}
use pi_codex_adaptor.Bridge.Client.{Pending, Options, Client, new_client, forget}
use pi_codex_adaptor.Bridge.Route.{route, route_each, is_handshake}
use pi_codex_adaptor.Bridge.Table.{unknown, life, Progress, IsTidy, IsSealed}
use pi_codex_adaptor.Bridge.Tracking.{unknown_iff}
use pi_codex_adaptor.Bridge.Reached.{Run, Run-After}

new_client-IsTidy : IsTidy new_client
unfolding new_client Dict.lookup
new_client-IsTidy = record {
  once = tt;
  apart = λ id p h. refl;
  ignored = λ id h. ground arith;
  bounded = omega arith;
}

new_client-IsSealed : IsSealed new_client
unfolding new_client Dict.lookup
new_client-IsSealed h id = refl

module _ (encode : ClientMessage → Encoded) (parse : List ℕ → Option ServerMessage)
    (o : Options) where
  -- In every state that a client reaches, no promise has been settled twice, no request with a
  -- settled promise is pending, the ids whose late messages are ignored have settled promises, and
  -- are at most 65,536.
  pub reached-IsTidy : {c : Client} → Run encode parse o new_client c → IsTidy c
  reached-IsTidy r = (Run-After encode parse o new_client-IsTidy r).forward.tidy

  pub reached-IsSealed : {c : Client} → Run encode parse o new_client c → IsSealed c
  reached-IsSealed r = (Run-After encode parse o new_client-IsTidy r).sealed new_client-IsSealed

  -- From any reached state on, each request follows the life of a promise: one that waits is not
  -- forgotten, and one that has been answered keeps its answer.
  pub Run-Progress :
      {b c : Client} (id : String)
      → Run encode parse o new_client b
      → Run encode parse o b c
      → Progress (life id b) (life id c)
  Run-Progress id r s = (Run-After encode parse o (reached-IsTidy r) s).forward.progress id

  ended :
      (id : String) (c : Client)
      → life id c ≢ unknown
      → Dict.lookup id c.pending ≡ none
      → (r : Outcome) × (Dict.lookup id c.settled ≡ some r)
  ended id c h e = elim (Option-cases (Dict.lookup id c.settled)) [
    | inl n ↦ absurd (h ((unknown_iff id c).1 (e, n)))
    | inr s ↦ s
  ]

  -- A request that is pending in a reached state has been settled in every later state in which the
  -- client is closed, by a failure, by close or by the end of a shutdown.
  pub closed-settles :
      {b c : Client} (id : String) (p : Pending)
      → Run encode parse o new_client b
      → Dict.lookup id b.pending ≡ some p
      → Run encode parse o b c
      → c.closed ≡ true
      → (r : Outcome) × (Dict.lookup id c.settled ≡ some r)
  closed-settles {b} {c} id p r h s e =
      let a = Run-After encode parse o (reached-IsTidy r) s in
      ended id c (rw h at (a.forward.progress id)) (a.sealed (reached-IsSealed r) e id)

-- Messages to the request of this id.
abbrev pub Concerns : String → ServerMessage → Type 0
Concerns id m = (message_id m ≡ some id) × (is_handshake m ≡ false)

module _ (o : Options) (id : String) where
  late_messages-forget :
      (ms : List ServerMessage) (m : ServerMessage) (c : Client)
      → c.ready ≡ true
      → mem_text id c.ignored_request_ids ≡ true
      → All (λ n. Concerns id n × (is_final n ≡ false)) ms
      → Concerns id m
      → is_final m ≡ true
      → route_each o (ms ++ m ∷ []) c ≡ forget id c
  unfolding route_each route
  late_messages-forget [] m c r i w n f = rw (route_each, route, r, n.0, n.1, i, f) refl
  late_messages-forget (k ∷ ms) m c r i w n f =
      let same : route o k c ≡ c = rw (route, r, w.0.0.0, w.0.0.1, i, w.0.1) refl in
      ap (route_each o (ms ++ m ∷ [])) same ∙ late_messages-forget ms m c r i w.1 n f

  -- While the client is ready and ignores late messages of a request, its events and other messages
  -- and the result or error that follows change nothing but the ids that are ignored, and of these
  -- exactly the id of the request is gone.
  pub late_messages-ignored :
      (ms : List ServerMessage) (m : ServerMessage) (c : Client)
      → c.ready ≡ true
      → mem_text id c.ignored_request_ids ≡ true
      → All (λ n. Concerns id n × (is_final n ≡ false)) ms
      → Concerns id m
      → is_final m ≡ true
      → (k : String)
      → let d = route_each o (ms ++ m ∷ []) c in
        (record d { ignored_request_ids = c.ignored_request_ids } ≡ c)
        × (mem_text k d.ignored_request_ids
            ≡ (mem_text k c.ignored_request_ids && not (str_eq k id)))
  late_messages-ignored ms m c r i w n f k =
      subst
        (λ (d : Client).
          (record d { ignored_request_ids = c.ignored_request_ids } ≡ c)
          × (mem_text k d.ignored_request_ids
              ≡ (mem_text k c.ignored_request_ids && not (str_eq k id))))
        (sym (late_messages-forget ms m c r i w n f))
        (refl, mem_text-keep (λ s. not (str_eq s id)) k c.ignored_request_ids)
