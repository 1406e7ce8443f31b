-- ===== src/Routing/Dispatch.antt =====
-- src/integration/pi/provider-session-router.ts: to whom a request of a session is routed.
use pi_codex_adaptor.Prelude.{
  String, true, false, ◌&&◌, ◌≡◌, ◌≢◌, refl, sym, Option, some, List, [], ◌∷◌, map, ==_iff, arith,
  inl, inr, Bool-cases, Option-cases, All,
}
use pi_codex_adaptor.Prelude.Dict
use pi_codex_adaptor.Prelude.Dict.{Dict, lookup-insert, lookup-erase}
use pi_codex_adaptor.Routing.Tokens.{Token, mem, Distinct}
use pi_codex_adaptor.Routing.Router.{
  Binding, Router, Resolution, unavailable, ambiguous, found, choose, is_session, serves, gather,
  resolve_binding,
}
use pi_codex_adaptor.Routing.Bindings.{tokens_of, IsSound}

module _ {ℓ} {S : Type ℓ} (s : String) (heap : Token → Option (Binding S)) where
  abbrev pub tokens : List (Token × Binding S) → List Token
  tokens = map λ x. x.0

  -- Every entry of the list is in the heap, and serves the session.
  gathered :
      (ts : List Token)
      → All (λ x. (heap x.0 ≡ some x.1) × (serves s x.1 ≡ true)) (gather s heap ts)
  unfolding gather
  gathered [] = tt
  gathered (t ∷ ts) = elim (Option-cases (heap t)) [
    | inl e ↦ rw (gather, e) (gathered ts)
    | inr (b, e) ↦ elim (Bool-cases (serves s b)) [
      | inl here ↦ rw (gather, e, here) ((e, here), gathered ts)
      | inr away ↦ rw (gather, e, away) (gathered ts)
    ]
  ]

  -- Every token of the bucket that serves the session is gathered.
  pub mem-gather :
      (t : Token) (ts : List Token)
      → (b : Binding S) → heap t ≡ some b
      → mem t (tokens (gather s heap ts)) ≡ (mem t ts && serves s b)
  unfolding gather
  mem-gather t [] b e = refl
  mem-gather t (u ∷ ts) b e = ground (arith, mem-gather t ts b e, ==_iff u t)

  pub mem-gather_less :
      (t : Token) (ts : List Token) → mem t ts ≡ false → mem t (tokens (gather s heap ts)) ≡ false
  unfolding gather
  mem-gather_less t [] e = refl
  mem-gather_less t (u ∷ ts) e = ground (arith, mem-gather_less t ts, ==_iff u t)

  pub gather-Distinct : (ts : List Token) → Distinct ts → Distinct (tokens (gather s heap ts))
  unfolding gather
  gather-Distinct [] d = tt
  gather-Distinct (u ∷ ts) d = ground (arith, gather-Distinct ts d.1, mem-gather_less u ts d.0)

module _ {ℓ} {S : Type ℓ} (r : Router S) (s : String) where
  -- The binding is in the heap, and bound to the session.
  abbrev pub IsBound : Token → Binding S → Type ℓ
  IsBound t b = (r.bindings t ≡ some b) × (is_session s b.session_id ≡ true)

  -- What each answer promises: that no lease is bound to the session, that this one is and no other
  -- is, or that two are.
  abbrev pub Answers : Resolution S → Type ℓ
  Answers unavailable =
      (t : Token) (b : Binding S) → r.bindings t ≡ some b → is_session s b.session_id ≡ false
  Answers ambiguous =
      (t : Token) × (b : Binding S) × (u : Token) × (c : Binding S) × (IsBound t b
        × IsBound u c
        × (t ≢ u))
  Answers (found t b) = IsBound t b × ((u : Token) (c : Binding S) → IsBound u c → u ≡ t)

  pub serves-bound :
      IsSound r
      → (t : Token) (b : Binding S) → r.bindings t ≡ some b
      → serves s b ≡ is_session s b.session_id
  serves-bound w t b e = ground (arith, w.freed t b)

  gathered-IsBound :
      IsSound r
      → (live : List (Token × Binding S))
      → All (λ x. (r.bindings x.0 ≡ some x.1) × (serves s x.1 ≡ true)) live
      → All (λ x. IsBound x.0 x.1) live
  gathered-IsBound w [] h = tt
  gathered-IsBound w (x ∷ live) h =
      ((h.0.0, ground (arith, serves-bound w x.0 x.1 h.0.0)), gathered-IsBound w live h.1)

  -- A list of the bindings that serve the session determines the answer.
  choose-Answers :
      (live : List (Token × Binding S))
      → All (λ x. IsBound x.0 x.1) live
      → ((t : Token) (b : Binding S)
          → r.bindings t ≡ some b
          → mem t (map (λ x. x.0) live) ≡ is_session s b.session_id)
      → Distinct (map (λ x. x.0) live)
      → Answers (choose live)
  choose-Answers [] h m d = λ t b e. sym (m t b e)
  choose-Answers (x ∷ []) h m d = (h.0, λ u c k. ground (arith, m u c k.0, ==_iff x.0 u))
  choose-Answers (x ∷ y ∷ live) h m d =
      (x.0, x.1, y.0, y.1, (h.0, h.1.0, ground (arith, d.0, ==_iff y.0 x.0)))

  gather-Answers : IsSound r → Answers (choose (gather s r.bindings (tokens_of s r.buckets)))
  gather-Answers w =
      let bucket = tokens_of s r.buckets in
      choose-Answers (gather s r.bindings bucket)
        (gathered-IsBound w (gather s r.bindings bucket) (gathered s r.bindings bucket))
        (λ t b e.
          ground
            (arith, mem-gather s r.bindings t bucket b e, serves-bound w t b e, w.listed s t b))
        (gather-Distinct s r.bindings bucket (w.single s))

  -- In a sound state resolveBinding finds the lease bound to the session where exactly one is,
  -- answers unavailable where none is, and ambiguous where two are.
  pub resolve_binding-Answers : IsSound r → Answers (resolve_binding s r).1
  unfolding resolve_binding
  resolve_binding-Answers w = elim (Option-cases (Dict.lookup s r.buckets)) [
    | inl e ↦ rw (resolve_binding, e) (λ t b h. ground (arith, w.listed s t b))
    | inr (bucket, e) ↦ rw (resolve_binding, e) (rw e at gather-Answers w)
  ]
