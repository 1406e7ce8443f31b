-- ===== src/Bridge/Drained.antt =====
-- src/infrastructure/codex-bridge/client.ts: the result of a request comes through, behind the
-- handlers that were enqueued before it.
use pi_codex_adaptor.Prelude.{
  ℕ, zero, suc, String, true, false, ◌≡◌, refl, sym, ap, subst, ◌∙◌, none, some, List, [], ◌∷◌,
  ◌++◌, arith, eq_iff, length, All,
}
use pi_codex_adaptor.Prelude.Dict
use pi_codex_adaptor.Prelude.Dict.{lookup-insert}
use pi_codex_adaptor.Value.{Value}
use pi_codex_adaptor.Bridge.Frames.{Encoded, framed}
use pi_codex_adaptor.Bridge.Messages.{
  TerminalStatus, result, ClientMessage, acknowledge, event_handler_failed, resolved, message_id,
  is_final,
}
use pi_codex_adaptor.Bridge.Client.{
  Pending, Work, runs_event, asks_approval, notifies, settles, Options, Client, resolve_pending,
  fail, write,
}
use pi_codex_adaptor.Bridge.Route.{
  chain_of, enqueue, enqueue_pending, route_message, route, handled, acknowledge_event, perform,
  perform_first, run_next,
}
use pi_codex_adaptor.Bridge.Table.{IsTidy}

module _ (encode : ClientMessage → Encoded) (id : String) where
  -- The handlers of a request that wait end well, one after the other.
  unfoldable pub drain : ℕ → Client → Client
  unfolding run_next
  drain zero c = c
  drain (suc n) c = drain n (run_next encode id handled c)

  -- The acknowledgements of the events of a chain, newest first, on top of what has been written.
  abbrev pub acknowledged : List Work → List ClientMessage → List ClientMessage
  acknowledged [] ms = ms
  acknowledged (runs_event n e ∷ ws) ms = acknowledged ws (acknowledge id n ∷ ms)
  acknowledged (w ∷ ws) ms = acknowledged ws ms

  abbrev pub IsHandler : Work → Type 0
  IsHandler (settles status r) = ⊥
  IsHandler _ = Unit

  abbrev pub Acknowledges : Type 0
  Acknowledges = (n : ℕ) → (bytes : List ℕ) × (encode (acknowledge id n) ≡ framed bytes)

  abbrev after_handler : Work → List Work → Client → Client
  after_handler w ws c = record c {
    written = acknowledged (w ∷ []) c.written;
    chains = Dict.insert id ws c.chains;
  }

  write_live :
      (m : ClientMessage) (bytes : List ℕ) (c : Client)
      → encode m ≡ framed bytes
      → c.closed ≡ false
      → write encode m c ≡ (record c { written = m ∷ c.written }, none)
  unfolding write
  write_live m bytes c e live = ground (arith, e, live)

  acknowledge_live :
      (n : ℕ) (c d : Client)
      → write encode (acknowledge id n) c ≡ (d, none)
      → acknowledge_event encode id n handled c ≡ d
  unfolding acknowledge_event
  acknowledge_live n c d e =
      ap (λ w. elim w.1 [ none ↦ w.0 | some f ↦ fail event_handler_failed w.0 ]) e

  perform_handler :
      (w : Work) (c : Client)
      → Acknowledges
      → IsHandler w
      → c.closed ≡ false
      → perform encode id w handled c ≡ record c { written = acknowledged (w ∷ []) c.written }
  unfolding perform
  perform_handler (runs_event n e) c a h live =
      acknowledge_live n c _ (write_live (acknowledge id n) (a n).0 c (a n).1 live)
  perform_handler (asks_approval q) c a h live = refl
  perform_handler (notifies b n) c a h live = refl
  perform_handler (settles status r) c a h live = elim h [ ]

  run_handler :
      (w : Work) (ws : List Work) (c : Client)
      → Acknowledges
      → IsHandler w
      → chain_of id c ≡ w ∷ ws
      → c.closed ≡ false
      → run_next encode id handled c ≡ after_handler w ws c
  unfolding run_next
  run_handler w ws c a h k live =
      ap (λ l. perform_first encode id l handled c) k
      ∙ perform_handler w (record c { chains = Dict.insert id ws c.chains }) a h live

  acknowledged-cons :
      (w : Work) (ws : List Work) (ms : List ClientMessage)
      → acknowledged (w ∷ ws) ms ≡ acknowledged ws (acknowledged (w ∷ []) ms)
  acknowledged-cons (runs_event n e) ws ms = refl
  acknowledged-cons (asks_approval q) ws ms = refl
  acknowledged-cons (notifies b n) ws ms = refl
  acknowledged-cons (settles status r) ws ms = refl

  chain-insert :
      (ws : List Work) (c d : Client) → d.chains ≡ Dict.insert id ws c.chains → chain_of id d ≡ ws
  chain-insert ws c d e = ground (arith, e, lookup-insert id id ws c.chains, eq_iff id id)

  -- The request has been resolved, and these messages have been written.
  abbrev pub Resolves : TerminalStatus → Value → List ClientMessage → Client → Type 0
  Resolves status r ms d = (Dict.lookup id d.settled ≡ some (resolved status r)) × (d.written ≡ ms)

  settle_last :
      (status : TerminalStatus) (r : Value) (p : Pending) (c : Client)
      → Dict.lookup id c.pending ≡ some p
      → chain_of id c ≡ settles status r ∷ []
      → Resolves status r c.written (run_next encode id handled c)
  unfolding run_next perform resolve_pending Dict.lookup
  settle_last status r p c e k =
      subst (λ l. Resolves status r c.written (perform_first encode id l handled c)) (sym k)
        (ground (arith, e, eq_iff id id))

  drain_lem :
      (ws : List Work) (status : TerminalStatus) (r : Value) (p : Pending) (c : Client)
      → Acknowledges
      → All IsHandler ws
      → c.closed ≡ false
      → Dict.lookup id c.pending ≡ some p
      → chain_of id c ≡ ws ++ settles status r ∷ []
      → Resolves status r (acknowledged ws c.written) (drain (suc (length ws)) c)
  unfolding drain
  drain_lem [] status r p c a h live e k = settle_last status r p c e k
  drain_lem (w ∷ ws) status r p c a h live e k =
      let rest = ws ++ settles status r ∷ [] in
      let d = after_handler w rest c in
      subst (λ x. Resolves status r (acknowledged (w ∷ ws) c.written) (drain (suc (length ws)) x))
        (sym (run_handler w rest c a h.0 k live))
        (subst (λ ms. Resolves status r ms (drain (suc (length ws)) d))
          (sym (acknowledged-cons w ws c.written))
          (drain_lem ws status r p d a h.1 live e (chain-insert rest c d refl)))

  result-enqueued :
      (o : Options) (status : TerminalStatus) (r : Value) (p : Pending) (c : Client)
      → IsTidy c
      → c.ready ≡ true
      → Dict.lookup id c.pending ≡ some p
      → route o (result id status r) c ≡ enqueue id (settles status r) c
  unfolding route route_message enqueue_pending message_id is_final
  result-enqueued o status r p c w ready e = ground (arith, ready, e, w.apart id p e, w.ignored id)

  -- In a state with the invariant of the tables in which the client is ready and not closed, the
  -- result of a pending request whose handlers end well resolves it, with the status and value of
  -- the message, once the handlers before it have run, and the events before it have been
  -- acknowledged in order, when every acknowledgement can be encoded.
  pub result-Resolves :
      (o : Options) (ws : List Work) (status : TerminalStatus) (r : Value) (p : Pending)
      (c : Client)
      → Acknowledges
      → IsTidy c
      → c.ready ≡ true
      → c.closed ≡ false
      → Dict.lookup id c.pending ≡ some p
      → chain_of id c ≡ ws
      → All IsHandler ws
      → Resolves status r
          (acknowledged ws c.written)
          (drain (suc (length ws)) (route o (result id status r) c))
  unfolding enqueue
  result-Resolves o ws status r p c a w ready live e k h =
      subst (λ x. Resolves status r (acknowledged ws c.written) (drain (suc (length ws)) x))
        (sym (result-enqueued o status r p c w ready e))
        (drain_lem ws status r p (enqueue id (settles status r) c) a h live e (
          chain-insert (chain_of id c ++ settles status r ∷ []) c (enqueue id (settles status r) c)
            refl
          ∙ ap (λ l. l ++ settles status r ∷ []) k))
