-- ===== src/Routing/Reached.antt =====
-- src/integration/pi/provider-session-router.ts: the states that calls of leases, requests, the
-- collector and the finalizer reach, and how requests are routed in them.
use pi_codex_adaptor.Prelude.{
  String, false, ◌≡◌, ◌≢◌, sym, ap, subst, ◌∙◌, none, some, List, [], ◌∷◌, ==_iff, eq_iff, eq_refl,
  arith, inl, inr, Bool-cases, Option-cases,
}
use pi_codex_adaptor.Prelude.Dict
use pi_codex_adaptor.Prelude.Dict.{Dict, lookup-insert, lookup-erase}
use pi_codex_adaptor.Routing.Tokens.{Token}
use pi_codex_adaptor.Routing.Router.{
  Binding, Router, bound, refused, Bound, Dispatchers, Resolution, unavailable, ambiguous, found,
  gather, new_router, create_lease, bind_binding, bind, move_binding, release_binding, release,
  collect, finalize, resolve_binding, is_blank, Field, Snapshot, snapshot_throws, snapshot, forward,
  route_of, dispatch,
}
use pi_codex_adaptor.Routing.Bindings.{
  tokens_of-store, IsSound, new_router-IsSound, create_lease-IsSound, move_binding-IsSound,
  release_binding-IsSound, collect-IsSound, finalize-IsSound,
}
use pi_codex_adaptor.Routing.Dispatch.{
  IsBound, Answers, resolve_binding-Answers, tokens, mem-gather, mem-gather_less, gather-Distinct,
  serves-bound,
}

pub data Move {ℓ} (S : Type ℓ) : Type ℓ where
  creates : Dispatchers S → Move S
  binds : Token → String → Move S
  releases collects finalizes : Token → Move S
  dispatches : Field → Snapshot → Move S

module _ {ℓ} {S : Type ℓ} where
  -- A call that throws leaves the router alone.
  abbrev pub kept : Router S → Bound S → Router S
  kept r (refused reason) = r
  kept r (bound q) = q

  unfoldable pub move : Router S → Move S → Router S
  move r (creates d) = (create_lease d r).1
  move r (binds t s) = kept r (bind t s r)
  move r (releases t) = release t r
  move r (collects t) = collect t r
  move r (finalizes t) = finalize t r
  move r (dispatches field session) = (dispatch field session r).0

  unfoldable pub reach : Router S → List (Move S) → Router S
  reach r [] = r
  reach r (m ∷ ms) = reach (move r m) ms

  bind_live :
      (t : Token) (b : Binding S) (s : String) (r : Router S)
      → r.bindings t ≡ some b
      → is_blank s ≡ false
      → b.released ≡ false
      → bind t s r ≡ bound (move_binding t b s r)
  unfolding bind bind_binding
  bind_live t b s r e blank live = ground (arith, e, blank, live)

  bind-IsSound : (t : Token) (s : String) (r : Router S) → IsSound r → IsSound (kept r (bind t s r))
  unfolding bind bind_binding
  bind-IsSound t s r w = elim (Option-cases (r.bindings t)) [
    | inl e ↦ rw (bind, e) w
    | inr (b, e) ↦ elim (Bool-cases (is_blank s)) [
      | inl blank ↦ rw (bind, e, blank) w
      | inr blank ↦ elim (Bool-cases b.released) [
        | inl gone ↦ rw (bind, e, blank, gone) w
        | inr live ↦ rw (bind_live t b s r e blank live) (move_binding-IsSound t b s r w e live)
      ]
    ]
  ]

  release-IsSound : (t : Token) (r : Router S) → IsSound r → IsSound (release t r)
  unfolding release
  release-IsSound t r w = elim (Option-cases (r.bindings t)) [
    | inl e ↦ rw (release, e) w
    | inr (b, e) ↦ rw (release, e) (release_binding-IsSound t b r w e)
  ]

  resolve_binding-IsSound :
      (s : String) (r : Router S) → IsSound r → IsSound (resolve_binding s r).0
  unfolding resolve_binding
  resolve_binding-IsSound s r w = elim (Option-cases (Dict.lookup s r.buckets)) [
    | inl e ↦ rw (resolve_binding, e) w
    | inr (bucket, e) ↦
        rw (resolve_binding, e)
          (let now = tokens s r.bindings (gather s r.bindings bucket) in
            record {
              fresh = λ u h. w.fresh u h;
              known = λ v u h. ground (
                arith,
                e,
                w.known v u,
                mem-gather_less s r.bindings u bucket,
                eq_iff s v,
                tokens_of-store s v now r.buckets,
              );
              listed = λ v u c h. ground (
                arith,
                e,
                w.listed v u c,
                serves-bound r s w u c,
                mem-gather s r.bindings u bucket c,
                eq_iff s v,
                tokens_of-store s v now r.buckets,
              );
              freed = λ u c h g. w.freed u c h g;
              single = λ v. ground (
                arith,
                e,
                w.single v,
                gather-Distinct s r.bindings bucket,
                eq_iff s v,
                tokens_of-store s v now r.buckets,
              );
            })
  ]

  dispatch-IsSound :
      (field : Field) (o : Snapshot) (r : Router S) → IsSound r → IsSound (dispatch field o r).0
  unfolding dispatch
  dispatch-IsSound field snapshot_throws r w = w
  dispatch-IsSound field (snapshot none) r w = w
  dispatch-IsSound field (snapshot (some s)) r w = elim (Bool-cases (is_blank s)) [
    | inl blank ↦ rw blank w
    | inr blank ↦ rw blank (resolve_binding-IsSound s r w)
  ]

  move-IsSound : (r : Router S) (m : Move S) → IsSound r → IsSound (move r m)
  unfolding move
  move-IsSound r (creates d) w = create_lease-IsSound d r w
  move-IsSound r (binds t s) w = bind-IsSound t s r w
  move-IsSound r (releases t) w = release-IsSound t r w
  move-IsSound r (collects t) w = collect-IsSound t r w
  move-IsSound r (finalizes t) w = finalize-IsSound t r w
  move-IsSound r (dispatches field session) w = dispatch-IsSound field session r w

  reach-keeps : (ms : List (Move S)) (r : Router S) → IsSound r → IsSound (reach r ms)
  unfolding reach
  reach-keeps [] r w = w
  reach-keeps (m ∷ ms) r w = reach-keeps ms (move r m) (move-IsSound r m w)

  -- In every state that is reached, the buckets name each live lease under the session it is bound
  -- to and nowhere else, and no bucket names a lease twice.
  pub reach-IsSound : (ms : List (Move S)) → IsSound (reach new_router ms)
  reach-IsSound ms = reach-keeps ms new_router new_router-IsSound

  -- Who the answer of a resolution forwards to.
  forwards :
      (r : Router S) (s : String) (field : Field) (f : S) (a : Resolution S)
      → Answers r s a
      → route_of field a ≡ forward f
      → (t : Token) × (b : Binding S) × (IsBound r s t b
          × (b.dispatchers field ≡ f)
          × ((u : Token) (c : Binding S) → IsBound r s u c → u ≡ t))
  forwards r s field f unavailable h e = absurd (cc)
  forwards r s field f ambiguous h e = absurd (cc)
  forwards r s field f (found t b) h e = (t, b, (h.0, cc, h.1))

  -- In every state that calls of leases, requests, the collector and the finalizer reach, a request
  -- that is forwarded goes to the dispatcher of a lease that is alive and bound to the session of
  -- the request, and no other lease is bound to it.
  pub dispatch-forwards :
      (ms : List (Move S)) (field : Field) (s : String) (f : S)
      → (dispatch field (snapshot (some s)) (reach new_router ms)).1 ≡ forward f
      → (t : Token) × (b : Binding S) × (IsBound (reach new_router ms) s t b
          × (b.dispatchers field ≡ f)
          × ((u : Token) (c : Binding S) → IsBound (reach new_router ms) s u c → u ≡ t))
  unfolding dispatch
  dispatch-forwards ms field s f e = elim (Bool-cases (is_blank s)) [
    | inl blank ↦ absurd (ground arith)
    | inr blank ↦
        forwards (reach new_router ms) s field f (resolve_binding s (reach new_router ms)).1
          (resolve_binding-Answers (reach new_router ms) s (reach-IsSound ms)) (rw blank at e)
  ]

  Answers-bound :
      (r : Router S) (s : String) (field : Field) (t : Token) (b : Binding S) (a : Resolution S)
      → Answers r s a
      → IsBound r s t b
      → ((u : Token) (c : Binding S) → IsBound r s u c → u ≡ t)
      → route_of field a ≡ forward (b.dispatchers field)
  Answers-bound r s field t b unavailable h k only = absurd (ground (arith, h t b))
  Answers-bound r s field t b ambiguous h k only =
      let (u, c, v, d, (bu, bv, apart)) = h in absurd (apart (only u c bu ∙ sym (only v d bv)))
  Answers-bound r s field t b (found u c) h k only = ground (arith, only u c h.0)

  move_binding-IsBound :
      (t : Token) (b : Binding S) (s : String) (r : Router S)
      → IsBound (move_binding t b s r) s t (record b { session_id = some s })
  unfolding move_binding
  move_binding-IsBound t b s r = (ground (arith, ==_iff t t), eq_refl s)

  move_binding-only :
      (t : Token) (b : Binding S) (s : String) (r : Router S)
      → ((u : Token) (c : Binding S) → IsBound r s u c → u ≡ t)
      → (u : Token) (c : Binding S) → IsBound (move_binding t b s r) s u c
      → u ≡ t
  unfolding move_binding
  move_binding-only t b s r only u c h = ground (arith, only u c, ==_iff u t)

  released-unbound :
      (t : Token) (b c : Binding S) (r : Router S)
      → IsSound r
      → r.bindings t ≡ some b
      → (release t r).bindings t ≡ some c
      → c.session_id ≡ none
  unfolding release release_binding
  released-unbound t b c r w e h = ground (arith, e, w.freed t b, ==_iff t t)

  -- In a state that is reached, a lease that is alive and not released binds itself to a session
  -- that is not blank and that no other lease is bound to, and the next request of the session goes
  -- to its dispatcher.
  pub dispatch-bind :
      (ms : List (Move S)) (t : Token) (b : Binding S) (s : String) (field : Field)
      → (reach new_router ms).bindings t ≡ some b
      → b.released ≡ false
      → is_blank s ≡ false
      → ((u : Token) (c : Binding S) → IsBound (reach new_router ms) s u c → u ≡ t)
      → (dispatch field (snapshot (some s)) (reach (reach new_router ms) (binds t s ∷ []))).1
        ≡ forward (b.dispatchers field)
  unfolding dispatch reach move
  dispatch-bind ms t b s field e live blank only =
      let r = reach new_router ms in
      let q = move_binding t b s r in
      rw (bind_live t b s r e blank live, blank)
        (Answers-bound q s field t (record b { session_id = some s }) (resolve_binding s q).1
          (resolve_binding-Answers q s (move_binding-IsSound t b s r (reach-IsSound ms) e live))
          (move_binding-IsBound t b s r) (move_binding-only t b s r only))

  -- In a state that is reached, after a lease that is alive has been released, whatever lease a
  -- resolution finds is another.
  pub release-unroutes :
      (ms : List (Move S)) (t u : Token) (b c : Binding S) (s : String)
      → (reach new_router ms).bindings t ≡ some b
      → (resolve_binding s (reach (reach new_router ms) (releases t ∷ []))).1 ≡ found u c
      → u ≢ t
  unfolding reach move
  release-unroutes ms t u b c s e h same =
      let r = reach new_router ms in
      let answers : Answers (release t r) s (resolve_binding s (release t r)).1 =
        resolve_binding-Answers (release t r) s (release-IsSound t r (reach-IsSound ms)) in
      let bound_u : IsBound (release t r) s u c = (subst (Answers (release t r) s) h answers).0 in
      ground (
        arith,
        released-unbound t b c r (reach-IsSound ms) e,
        bound_u,
        same,
        ap (release t r).bindings same,
      )
