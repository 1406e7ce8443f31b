-- ===== src/Routing/Approval.antt =====
-- src/integration/pi/codex-provider-request-guard.ts: what the guard lets out, over the calls of the
-- provider and of the payload hook of src/integration/pi/codex-compaction-replay.ts.
use pi_codex_adaptor.Prelude.{
  String, Bool, true, ◌&&◌, ◌≡◌, ◌≢◌, sym, ap, subst, ◌∙◌, Option, none, some, List, [], ◌∷◌, ◌==◌,
  ==_iff, eq_iff, arith, inl, inr, ◌⊎◌, Bool-cases, Option-cases, All,
}
use pi_codex_adaptor.Routing.Tokens.{Token}
use pi_codex_adaptor.Routing.Guard.{
  RequestRecord, Guard, Answer, returned, thrown, is_current, new_guard, is_live, change, close,
  consume, is_closed, close_where, has_session, invalidate_session, invalidate_all, dispose,
  record_failure, fail_with, abort, approve, same_digest, approved_of, assert_approved, open_record,
}

pub data Call {ℓ} (V : Type ℓ) (C : Type ℓ) : Type ℓ where
  opens : String → V → Bool → Bool → Call V C
  -- `approve` alone, whose error goes to its caller.
  approves : Option Token → Token → V → Call V C
  -- The payload hook, with the record of its scope, and the error that it raises where `approve`
  -- throws.
  hooks : Option Token → Token → V → C → Call V C
  fails : Option Token → Token → C → Call V C
  consumes aborts : Token → Call V C
  invalidates : String → Call V C
  invalidates_all disposes : Call V C

same_digest_lem : (d e : Option String) → same_digest d e ≡ true → (d ≡ e) × (d ≢ none)
same_digest_lem (some d) (some e) h = (ap some ((eq_iff d e).0 h), λ k. cc)
same_digest_lem (some d) none h = cc
same_digest_lem none e h = cc

module _ {ℓ} {V C : Type ℓ} (is_record : V → Bool) (freezes : V → Bool)
    (digest : V → Option String) where
  -- The hook records a failure of `approve`.
  abbrev pub recover : Option Token → Token → C → Guard V C × Answer V C → Guard V C
  recover current t cause (g, returned v) = g
  recover current t cause (g, thrown e) = (record_failure current t cause g).0

  unfoldable pub call : Guard V C → Call V C → Guard V C
  call g (opens session v copies aborted) =
      (open_record is_record freezes digest session v copies aborted g).0
  call g (approves current t v) = (approve is_record freezes digest current t v g).0
  call g (hooks current t v cause) =
      recover current t cause (approve is_record freezes digest current t v g)
  call g (fails current t cause) = (record_failure current t cause g).0
  call g (consumes t) = consume t g
  call g (aborts t) = abort t g
  call g (invalidates session) = invalidate_session session g
  call g invalidates_all = invalidate_all g
  call g disposes = dispose g

  unfoldable pub calls : Guard V C → List (Call V C) → Guard V C
  calls g [] = g
  calls g (c ∷ cs) = calls (call g c) cs

  -- The payload of an `approve` outside the hook has a digest.
  abbrev pub IsDigested : Call V C → Type 0
  IsDigested (approves current t v) = digest v ≢ none
  IsDigested _ = Unit

  -- A record that has no failure has approved what its digest says.
  abbrev IsApproval : RequestRecord V C → Type ℓ
  IsApproval x =
      x.failure ≡ none → (w : V) → x.approved_request ≡ some w → x.approved_digest ≡ digest w

  abbrev Agrees : Guard V C → Type ℓ
  Agrees g = (t : Token) (x : RequestRecord V C) → g.objects t ≡ some x → IsApproval x

  -- An object that is there after a change was there before, as it is or as it has been changed.
  changed :
      (t u : Token) (f : RequestRecord V C → RequestRecord V C) (g : Guard V C)
      (x : RequestRecord V C)
      → (change t f g).objects u ≡ some x
      → (g.objects u ≡ some x) ⊎ ((y : RequestRecord V C) × ((g.objects u ≡ some y) × (x ≡ f y)))
  changed t u f g x h = elim (Option-cases (g.objects t)) [
    | inl e ↦ inl (rw (change, e) at h)
    | inr (y, e) ↦ elim (Bool-cases (u == t)) [
      | inl same ↦
          let now : some (f y) ≡ some x = rw (change, e, same) at h in
          inr (y, (ap g.objects ((==_iff u t).0 same) ∙ e, cc))
      | inr other ↦ inl (rw (change, e, other) at h)
    ]
  ]

  change-Agrees :
      (t : Token) (f : RequestRecord V C → RequestRecord V C) (g : Guard V C)
      → ((x : RequestRecord V C) → IsApproval x → IsApproval (f x))
      → Agrees g
      → Agrees (change t f g)
  change-Agrees t f g keeps a u x h = elim (changed t u f g x h) [
    | inl e ↦ a u x e
    | inr (y, (e, made)) ↦ subst IsApproval (sym made) (keeps y (a u y e))
  ]

  close-Agrees : (t : Token) (g : Guard V C) → Agrees g → Agrees (close t g)
  unfolding close
  close-Agrees t g a = change-Agrees t (λ x. record x { closed = true }) g (λ x k. k) a

  close_where-Agrees :
      (p : Option (RequestRecord V C) → Bool) (ts : List Token) (g : Guard V C)
      → Agrees g
      → Agrees (close_where p ts g)
  unfolding close_where
  close_where-Agrees p [] g a = a
  close_where-Agrees p (t ∷ ts) g a = elim (Bool-cases (p (g.objects t))) [
    | inl e ↦ rw (close_where, e) (close_where-Agrees p ts (close t g) (close-Agrees t g a))
    | inr e ↦ rw (close_where, e) (close_where-Agrees p ts g a)
  ]

  record_failure-Agrees :
      (current : Option Token) (t : Token) (cause : C) (g : Guard V C)
      → Agrees g
      → Agrees (record_failure current t cause g).0
  unfolding record_failure
  record_failure-Agrees current t cause g a =
      elim (Bool-cases (is_live t g && is_current current t)) [
        | inl e ↦
            rw (record_failure, e)
              (change-Agrees t (fail_with cause) g (λ x k f w h. ground (arith, k)) a)
        | inr e ↦ rw (record_failure, e) a
      ]

  live-object :
      (t : Token) (g : Guard V C)
      → is_live t g ≡ true
      → (y : RequestRecord V C) × (g.objects t ≡ some y)
  unfolding is_live
  live-object t g e = elim (Option-cases (g.objects t)) [
    | inl n ↦ absurd (ground (arith, n))
    | inr h ↦ h
  ]

  -- A hook whose `approve` throws leaves a failure behind, and one whose `approve` returns leaves
  -- the digest of what it has approved.
  hook-Agrees :
      (current : Option Token) (t : Token) (v : V) (cause : C) (g : Guard V C)
      → Agrees g
      → Agrees (recover current t cause (approve is_record freezes digest current t v g))
  unfolding approve record_failure is_live
  hook-Agrees current t v cause g a u x h f w k = elim (Bool-cases (is_live t g)) [
    | inr e ↦ ground (arith, e, λ (o : g.objects u ≡ some x). a u x o f w k)
    | inl e ↦
        let (y, o) = live-object t g e in
        ground (arith, e, o, ==_iff u t, λ (o : g.objects u ≡ some x). a u x o f w k)
  ]

  approve-Agrees :
      (current : Option Token) (t : Token) (v : V) (g : Guard V C)
      → digest v ≢ none
      → Agrees g
      → Agrees (approve is_record freezes digest current t v g).0
  unfolding approve is_live
  approve-Agrees current t v g has a u x h f w k = elim (Bool-cases (is_live t g)) [
    | inr e ↦ ground (arith, e, λ (o : g.objects u ≡ some x). a u x o f w k)
    | inl e ↦
        let (y, o) = live-object t g e in
        ground (arith, e, o, has, ==_iff u t, λ (o : g.objects u ≡ some x). a u x o f w k)
  ]

  open_record-Agrees :
      (session : String) (v : V) (copies aborted : Bool) (g : Guard V C)
      → Agrees g
      → Agrees (open_record is_record freezes digest session v copies aborted g).0
  unfolding open_record
  open_record-Agrees session v copies aborted g a u x h f w k =
      ground (arith, λ (o : g.objects u ≡ some x). a u x o f w k)

  consume-Agrees : (t : Token) (g : Guard V C) → Agrees g → Agrees (consume t g)
  unfolding consume
  consume-Agrees t g a = elim (Bool-cases (is_closed (g.objects t))) [
    | inl e ↦ rw (consume, e) a
    | inr e ↦ rw (consume, e) (close-Agrees t g a)
  ]

  call-Agrees : (g : Guard V C) (c : Call V C) → IsDigested c → Agrees g → Agrees (call g c)
  unfolding call abort invalidate_session invalidate_all dispose
  call-Agrees g (opens session v copies aborted) d a =
      open_record-Agrees session v copies aborted g a
  call-Agrees g (approves current t v) d a = approve-Agrees current t v g d a
  call-Agrees g (hooks current t v cause) d a = hook-Agrees current t v cause g a
  call-Agrees g (fails current t cause) d a = record_failure-Agrees current t cause g a
  call-Agrees g (consumes t) d a = consume-Agrees t g a
  call-Agrees g (aborts t) d a = change-Agrees t (λ x. record x { aborted = true }) g (λ x k. k) a
  call-Agrees g (invalidates session) d a = close_where-Agrees (has_session session) g.records g a
  call-Agrees g invalidates_all d a = close_where-Agrees (λ o. true) g.records g a
  call-Agrees g disposes d a =
      close_where-Agrees (λ o. true) g.records (record g { disposed = true }) a

  calls-Agrees :
      (cs : List (Call V C)) (g : Guard V C) → All IsDigested cs → Agrees g → Agrees (calls g cs)
  unfolding calls
  calls-Agrees [] g d a = a
  calls-Agrees (c ∷ cs) g d a = calls-Agrees cs (call g c) d.1 (call-Agrees g c d.0 a)

  -- What the record holds for which a payload is returned.
  approved-record :
      (t : Token) (v w : V) (g : Guard V C)
      → assert_approved is_record freezes digest t v g ≡ returned w
      → (x : RequestRecord V C) × (g.objects t ≡ some x)
        × ((x.failure ≡ none)
            × (x.approved_request ≡ some w)
            × (same_digest (digest v) x.approved_digest ≡ true))
  unfolding assert_approved approved_of is_live
  approved-record t v w g h = elim (Option-cases (g.objects t)) [
    | inl n ↦ absurd (ground (arith, n))
    | inr (x, o) ↦ (x, o, ground (arith, o))
  ]

  -- After any calls of the request guard and its payload hook in which the payload of every approve
  -- outside the hook has a digest, the payload that assertApproved returns has the digest of the
  -- payload it was given, and that payload has one.
  pub assert_approved-digest :
      (cs : List (Call V C)) (t : Token) (v w : V)
      → All IsDigested cs
      → assert_approved is_record freezes digest t v (calls new_guard cs) ≡ returned w
      → (digest w ≡ digest v) × (digest v ≢ none)
  unfolding assert_approved
  assert_approved-digest cs t v w d h =
      let g = calls new_guard cs in
      let (x, o, (f, k, same)) = approved-record t v w g h in
      let kept : x.approved_digest ≡ digest w =
        calls-Agrees cs new_guard d (λ u y e. absurd (unfold new_guard in cc)) t x o f w k in
      let equal = same_digest_lem (digest v) x.approved_digest same in
      (sym kept ∙ sym equal.0, equal.1)
