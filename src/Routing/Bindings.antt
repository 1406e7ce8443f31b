-- ===== src/Routing/Bindings.antt =====
-- src/integration/pi/provider-session-router.ts: the buckets name the leases that are bound, in
-- every state that leases, the collector and the finalizer can bring about.
use pi_codex_adaptor.Prelude.{
  ◌≤◌, ◌<◌, String, true, false, ◌≡◌, refl, Option, none, some, List, [], ◌∷◌, ==_iff, str_eq,
  eq_iff, arith, inl, inr, Bool-cases, Option-cases, if◌then◌else◌,
}
use pi_codex_adaptor.Prelude.Dict
use pi_codex_adaptor.Prelude.Dict.{Dict, lookup, lookup-insert, lookup-erase}
use pi_codex_adaptor.Routing.Tokens.{
  Token, mem, Distinct, add, others, mem-others, others-Distinct, mem-add, add-Distinct,
}
use pi_codex_adaptor.Routing.Router.{
  Binding, Router, Dispatchers, is_session, or_empty, store_bucket, remove_token, leave, new_router,
  create_lease, move_binding, release_binding, collect, finalize,
}

-- `buckets.get(sessionId)`, empty where there is none.
abbrev pub tokens_of : String → Dict (List Token) → List Token
tokens_of session buckets = or_empty (Dict.lookup session buckets)

pub tokens_of-store :
    (s u : String) (ts : List Token) (d : Dict (List Token))
    → tokens_of u (store_bucket s ts d) ≡ (if str_eq s u then ts else tokens_of u d)
unfolding store_bucket
tokens_of-store s u [] d = ground (arith, lookup-erase u s d, eq_iff s u, eq_iff u s)
tokens_of-store s u (t ∷ ts) d = ground (arith, lookup-insert u s (t ∷ ts) d)

tokens_of-remove :
    (s u : String) (t : Token) (d : Dict (List Token))
    → tokens_of u (remove_token s t d)
      ≡ (if str_eq s u then others t (tokens_of u d) else tokens_of u d)
unfolding remove_token
tokens_of-remove s u t d = elim (Option-cases (Dict.lookup s d)) [
  | inl e ↦ ground (arith, eq_iff s u)
  | inr (ts, e) ↦ ground (arith, eq_iff s u, tokens_of-store s u (others t ts) d)
]

tokens_of-leave :
    (o : Option String) (u : String) (t : Token) (d : Dict (List Token))
    → tokens_of u (leave t o d)
      ≡ (if is_session u o then others t (tokens_of u d) else tokens_of u d)
unfolding leave
tokens_of-leave none u t d = refl
tokens_of-leave (some s) u t d = tokens_of-remove s u t d

module _ {ℓ} {S : Type ℓ} where
  -- The buckets name each object of the heap under the session it is bound to and nowhere else, no
  -- bucket names an object twice, no binding that is released has a session, and new identities are
  -- new.
  pub record IsSound (r : Router S) : Type ℓ where
    pub fresh : (t : Token) → r.next ≤ t → r.bindings t ≡ none
    pub known : (s : String) (t : Token) → mem t (tokens_of s r.buckets) ≡ true → t < r.next
    pub listed :
        (s : String) (t : Token) (b : Binding S)
        → r.bindings t ≡ some b
        → mem t (tokens_of s r.buckets) ≡ is_session s b.session_id
    pub freed :
        (t : Token) (b : Binding S)
        → r.bindings t ≡ some b
        → b.released ≡ true
        → b.session_id ≡ none
    pub single : (s : String) → Distinct (tokens_of s r.buckets)

  pub new_router-IsSound : IsSound new_router
  unfolding new_router lookup
  new_router-IsSound = record {
    fresh = λ t h. refl;
    known = λ s t h. absurd (cc);
    listed = λ s t b h. absurd (cc);
    freed = λ t b h g. absurd (cc);
    single = λ s. tt;
  }

  pub create_lease-IsSound :
      (d : Dispatchers S) (r : Router S) → IsSound r → IsSound (create_lease d r).1
  unfolding create_lease
  create_lease-IsSound d r w = record {
    fresh = λ t h. ground (arith, w.fresh t, ==_iff t r.next);
    known = λ s t h. ground (arith, w.known s t);
    listed = λ s t b h. ground (arith, w.listed s t b, w.known s t, ==_iff t r.next);
    freed = λ t b h g. ground (arith, w.freed t b, ==_iff t r.next);
    single = λ s. w.single s;
  }

  pub move_binding-IsSound :
      (t : Token) (b : Binding S) (s : String) (r : Router S)
      → IsSound r
      → r.bindings t ≡ some b
      → b.released ≡ false
      → IsSound (move_binding t b s r)
  unfolding move_binding
  move_binding-IsSound t b s r w e live =
      let left = leave t b.session_id r.buckets in
      let now = add t (tokens_of s left) in
      record {
        fresh = λ u h. ground (arith, w.fresh u, ==_iff u t);
        known = λ v u h. ground (
          arith,
          w.known v u,
          w.fresh t,
          ==_iff t u,
          lookup-insert v s now left,
          eq_iff s v,
          mem-add t u (tokens_of s left),
          tokens_of-leave b.session_id v t r.buckets,
          mem-others t u (tokens_of v r.buckets),
        );
        listed = λ v u c h. ground (
          arith,
          w.listed v u c,
          w.listed v t b,
          ==_iff u t,
          ==_iff t u,
          lookup-insert v s now left,
          eq_iff s v,
          mem-add t u (tokens_of s left),
          tokens_of-leave b.session_id v t r.buckets,
          mem-others t u (tokens_of v r.buckets),
        );
        freed = λ u c h g. ground (arith, w.freed u c, ==_iff u t);
        single = λ v. ground (
          arith,
          w.single v,
          lookup-insert v s now left,
          eq_iff s v,
          add-Distinct t (tokens_of s left),
          tokens_of-leave b.session_id v t r.buckets,
          others-Distinct t (tokens_of v r.buckets),
        );
      }

  pub release_binding-IsSound :
      (t : Token) (b : Binding S) (r : Router S)
      → IsSound r
      → r.bindings t ≡ some b
      → IsSound (release_binding t b r)
  unfolding release_binding
  release_binding-IsSound t b r w e = elim (Bool-cases b.released) [
    | inl gone ↦ rw gone w
    | inr gone ↦ rw gone (record {
      fresh = λ u h. ground (arith, w.fresh u, ==_iff u t);
      known = λ s u h. ground (
        arith,
        w.known s u,
        tokens_of-leave b.session_id s t r.buckets,
        mem-others t u (tokens_of s r.buckets),
      );
      listed = λ s u c h. ground (
        arith,
        w.listed s u c,
        w.listed s t b,
        tokens_of-leave b.session_id s t r.buckets,
        mem-others t u (tokens_of s r.buckets),
        ==_iff u t,
      );
      freed = λ u c h g. ground (arith, w.freed u c, ==_iff u t);
      single = λ s. ground (
        arith,
        w.single s,
        tokens_of-leave b.session_id s t r.buckets,
        others-Distinct t (tokens_of s r.buckets),
      );
    })
  ]

  pub collect-IsSound : (t : Token) (r : Router S) → IsSound r → IsSound (collect t r)
  unfolding collect
  collect-IsSound t r w = record {
    fresh = λ u h. ground (arith, w.fresh u);
    known = λ s u h. w.known s u h;
    listed = λ s u c h. ground (arith, w.listed s u c);
    freed = λ u c h g. ground (arith, w.freed u c);
    single = λ s. w.single s;
  }

  pub finalize-IsSound : (t : Token) (r : Router S) → IsSound r → IsSound (finalize t r)
  unfolding finalize
  finalize-IsSound t r w = elim (Option-cases (r.bindings t)) [
    | inr (b, e) ↦ rw (finalize, e) w
    | inl e ↦
        rw (finalize, e)
          (record {
            fresh = λ u h. w.fresh u h;
            known = λ s u h. ground (
              arith,
              w.known s u,
              tokens_of-leave (r.registered t) s t r.buckets,
              mem-others t u (tokens_of s r.buckets),
            );
            listed = λ s u c h. ground (
              arith,
              w.listed s u c,
              tokens_of-leave (r.registered t) s t r.buckets,
              mem-others t u (tokens_of s r.buckets),
              ==_iff u t,
            );
            freed = λ u c h g. w.freed u c h g;
            single = λ s. ground (
              arith,
              w.single s,
              tokens_of-leave (r.registered t) s t r.buckets,
              others-Distinct t (tokens_of s r.buckets),
            );
          })
  ]
