-- ===== src/Routing/Liveness.antt =====
-- src/integration/pi/codex-provider-request-guard.ts: a record that is no longer alive stays so.
use pi_codex_adaptor.Prelude.{
  suc, ◌≤◌, String, Bool, true, false, ◌≡◌, refl, sym, ap, subst, ◌∙◌, Option, none, some, List, [],
  ◌∷◌, ◌==◌, ==_iff, arith, inl, inr, Bool-cases, if◌then◌else◌,
}
use pi_codex_adaptor.Routing.Tokens.{Token, mem, mem-others, mem-add}
use pi_codex_adaptor.Routing.Guard.{
  RequestRecord, Guard, thrown, is_live, close, consume, close_where, has_session,
  invalidate_session, invalidate_all, dispose, record_failure, abort, record_rejected, caused,
  approve, approved_of, assert_approved, open_record,
}
use pi_codex_adaptor.Routing.Approval.{
  Call, opens, approves, hooks, fails, consumes, aborts, invalidates, invalidates_all, disposes,
  call, calls,
}

-- The failure that is recorded for a record.
abbrev pub failure_of {ℓ} : {V C : Type ℓ} → Token → Guard V C → Option C
failure_of t g = elim (g.objects t) [ none ↦ none | some x ↦ x.failure ]

module _ {ℓ} {V C : Type ℓ} (is_record : V → Bool) (freezes : V → Bool)
    (digest : V → Option String) where
  -- The record has been opened, and is not alive.
  abbrev pub IsSpent : Token → Guard V C → Type 0
  IsSpent t g = (is_live t g ≡ false) × (t ≤ g.next_generation)

  close-IsSpent : (t u : Token) (g : Guard V C) → IsSpent t g → IsSpent t (close u g)
  unfolding close is_live
  close-IsSpent t u g s = ground (arith, s, ==_iff t u, mem-others u t g.records)

  close_where-IsSpent :
      (p : Option (RequestRecord V C) → Bool) (t : Token) (us : List Token) (g : Guard V C)
      → IsSpent t g
      → IsSpent t (close_where p us g)
  unfolding close_where
  close_where-IsSpent p t [] g s = s
  close_where-IsSpent p t (u ∷ us) g s = elim (Bool-cases (p (g.objects u))) [
    | inl e ↦ rw (close_where, e) (close_where-IsSpent p t us (close u g) (close-IsSpent t u g s))
    | inr e ↦ rw (close_where, e) (close_where-IsSpent p t us g s)
  ]

  call-IsSpent :
      (t : Token) (g : Guard V C) (c : Call V C)
      → IsSpent t g
      → IsSpent t (call is_record freezes digest g c)
  unfolding call
  call-IsSpent t g (opens session v copies aborted) s =
      unfold open_record is_live in ground (arith, s, mem-add (suc g.next_generation) t g.records)
  call-IsSpent t g (approves current u v) s =
      unfold approve is_live in ground (arith, s, ==_iff t u)
  call-IsSpent t g (hooks current u v cause) s =
      unfold approve record_failure is_live in ground (arith, s, ==_iff t u)
  call-IsSpent t g (fails current u cause) s =
      unfold record_failure is_live in ground (arith, s, ==_iff t u)
  call-IsSpent t g (consumes u) s = unfold consume in ground (arith, s, close-IsSpent t u g s)
  call-IsSpent t g (aborts u) s = unfold abort is_live in ground (arith, s, ==_iff t u)
  call-IsSpent t g (invalidates session) s =
      unfold invalidate_session in close_where-IsSpent (has_session session) t g.records g s
  call-IsSpent t g invalidates_all s =
      unfold invalidate_all in close_where-IsSpent (λ o. true) t g.records g s
  call-IsSpent t g disposes s =
      unfold dispose invalidate_all in
      close_where-IsSpent (λ o. true) t g.records (record g { disposed = true })
        (unfold is_live in ground (arith, s))

  calls-IsSpent :
      (t : Token) (cs : List (Call V C)) (g : Guard V C)
      → IsSpent t g
      → IsSpent t (calls is_record freezes digest g cs)
  unfolding calls
  calls-IsSpent t [] g s = s
  calls-IsSpent t (c ∷ cs) g s =
      calls-IsSpent t cs (call is_record freezes digest g c) (call-IsSpent t g c s)

  close-session :
      (s : String) (t u : Token) (g : Guard V C)
      → has_session s ((close u g).objects t) ≡ has_session s (g.objects t)
  unfolding close
  close-session s t u g = ground (arith, ==_iff t u, λ (e : t ≡ u). ap g.objects e)

  close-ends : (t : Token) (g : Guard V C) → is_live t (close t g) ≡ false
  unfolding close is_live
  close-ends t g = ground (arith, ==_iff t t, mem-others t t g.records)

  next-close : (u : Token) (g : Guard V C) → (close u g).next_generation ≡ g.next_generation
  unfolding close
  next-close u g = ground arith

  close_where-session :
      (s : String) (t : Token) (us : List Token) (g : Guard V C)
      → t ≤ g.next_generation
      → has_session s (g.objects t) ≡ true
      → mem t us ≡ true
      → IsSpent t (close_where (has_session s) us g)
  unfolding close_where
  close_where-session s t [] g n h m = absurd (cc)
  close_where-session s t (u ∷ us) g n h m = elim (Bool-cases (has_session s (g.objects u))) [
    | inl e ↦
        rw (close_where, e)
          (elim (Bool-cases (u == t)) [
            | inl same ↦
                let ended : is_live t (close u g) ≡ false =
                  subst (λ w. is_live t (close w g) ≡ false) (sym ((==_iff u t).0 same))
                    (close-ends t g) in
                close_where-IsSpent (has_session s) t us (close u g)
                  (ended, ground (arith, next-close u g))
            | inr other ↦
                close_where-session s t us (close u g) (ground (arith, next-close u g))
                  (close-session s t u g ∙ h) (ground arith)
          ])
    | inr e ↦
        rw (close_where, e)
          (close_where-session s t us g n h
            (ground (arith, ==_iff u t, λ (k : u ≡ t). ap g.objects k)))
  ]

  not_listed : (t : Token) (g : Guard V C) → mem t g.records ≡ false → is_live t g ≡ false
  unfolding is_live
  not_listed t g e = ground arith

  invalidate_session-IsSpent :
      (s : String) (t : Token) (g : Guard V C)
      → t ≤ g.next_generation
      → has_session s (g.objects t) ≡ true
      → IsSpent t (invalidate_session s g)
  unfolding invalidate_session
  invalidate_session-IsSpent s t g n h = elim (Bool-cases (mem t g.records)) [
    | inl e ↦ close_where-session s t g.records g n h e
    | inr e ↦ close_where-IsSpent (has_session s) t g.records g (not_listed t g e, n)
  ]

  rejected :
      (t : Token) (v : V) (g : Guard V C)
      → is_live t g ≡ false
      → assert_approved is_record freezes digest t v g ≡ thrown record_rejected
  unfolding assert_approved
  rejected t v g e = rw (assert_approved, e) refl

  -- Once a session is invalidated, assertApproved rejects every payload for a record of it whose
  -- generation has been given out, whatever is called afterwards.
  pub invalidate_session-ends :
      (s : String) (t : Token) (g : Guard V C) (cs : List (Call V C)) (v : V)
      → t ≤ g.next_generation
      → has_session s (g.objects t) ≡ true
      → assert_approved is_record freezes digest t v
          (calls is_record freezes digest g (invalidates s ∷ cs))
        ≡ thrown record_rejected
  unfolding calls call
  invalidate_session-ends s t g cs v n h =
      rejected t v (calls is_record freezes digest (invalidate_session s g) cs)
        (calls-IsSpent t cs (invalidate_session s g) (invalidate_session-IsSpent s t g n h)).0

  abbrev IsFailed : Token → C → Guard V C → Type ℓ
  IsFailed t cause g = (failure_of t g ≡ some cause) × (t ≤ g.next_generation)

  close-IsFailed :
      (t u : Token) (cause : C) (g : Guard V C) → IsFailed t cause g → IsFailed t cause (close u g)
  unfolding close
  close-IsFailed t u cause g f = ground (arith, f, ==_iff t u, λ (e : t ≡ u). ap g.objects e)

  close_where-IsFailed :
      (p : Option (RequestRecord V C) → Bool) (t : Token) (cause : C) (us : List Token)
      (g : Guard V C)
      → IsFailed t cause g
      → IsFailed t cause (close_where p us g)
  unfolding close_where
  close_where-IsFailed p t cause [] g f = f
  close_where-IsFailed p t cause (u ∷ us) g f = elim (Bool-cases (p (g.objects u))) [
    | inl e ↦
        rw (close_where, e)
          (close_where-IsFailed p t cause us (close u g) (close-IsFailed t u cause g f))
    | inr e ↦ rw (close_where, e) (close_where-IsFailed p t cause us g f)
  ]

  call-IsFailed :
      (t : Token) (cause : C) (g : Guard V C) (c : Call V C)
      → IsFailed t cause g
      → IsFailed t cause (call is_record freezes digest g c)
  unfolding call
  call-IsFailed t cause g (opens session v copies aborted) f =
      unfold open_record in ground (arith, f, ==_iff t (suc g.next_generation))
  call-IsFailed t cause g (approves current u v) f =
      unfold approve is_live in ground (arith, f, ==_iff t u, λ (e : t ≡ u). ap g.objects e)
  call-IsFailed t cause g (hooks current u v rejection) f =
      unfold approve record_failure is_live in
      ground (arith, f, ==_iff t u, λ (e : t ≡ u). ap g.objects e)
  call-IsFailed t cause g (fails current u other) f =
      unfold record_failure in ground (arith, f, ==_iff t u, λ (e : t ≡ u). ap g.objects e)
  call-IsFailed t cause g (consumes u) f =
      unfold consume in ground (arith, f, close-IsFailed t u cause g f)
  call-IsFailed t cause g (aborts u) f =
      unfold abort in ground (arith, f, ==_iff t u, λ (e : t ≡ u). ap g.objects e)
  call-IsFailed t cause g (invalidates session) f =
      unfold invalidate_session in close_where-IsFailed (has_session session) t cause g.records g f
  call-IsFailed t cause g invalidates_all f =
      unfold invalidate_all in close_where-IsFailed (λ o. true) t cause g.records g f
  call-IsFailed t cause g disposes f =
      unfold dispose invalidate_all in
      close_where-IsFailed (λ o. true) t cause g.records (record g { disposed = true }) f

  calls-IsFailed :
      (t : Token) (cause : C) (cs : List (Call V C)) (g : Guard V C)
      → IsFailed t cause g
      → IsFailed t cause (calls is_record freezes digest g cs)
  unfolding calls
  calls-IsFailed t cause [] g f = f
  calls-IsFailed t cause (c ∷ cs) g f =
      calls-IsFailed t cause cs (call is_record freezes digest g c) (call-IsFailed t cause g c f)

  -- Once a failure is recorded for a record whose generation has been given out, assertApproved
  -- throws whatever is called afterwards: that cause while the record is alive, a rejection later.
  pub assert_approved-failed :
      (t : Token) (cause : C) (g : Guard V C) (cs : List (Call V C)) (v : V)
      → failure_of t g ≡ some cause
      → t ≤ g.next_generation
      → let h = calls is_record freezes digest g cs in
        assert_approved is_record freezes digest t v h
        ≡ (if is_live t h then thrown (caused cause) else thrown record_rejected)
  unfolding assert_approved approved_of
  assert_approved-failed t cause g cs v f n = ground (arith, calls-IsFailed t cause cs g (f, n))
