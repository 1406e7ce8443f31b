-- ===== src/Routing/Guard.antt =====
-- src/integration/pi/codex-provider-request-guard.ts: `CodexProviderRequestGuard`. A record is named
-- by its generation, and the record that the async scope holds is an argument of the calls.
use pi_codex_adaptor.Prelude.{
  ℕ, suc, String, Bool, true, false, not, ◌&&◌, Option, none, some, List, [], ◌∷◌, ◌==◌, str_eq,
  length, is_none, if◌then◌else◌,
}
use pi_codex_adaptor.Routing.Tokens.{Token, mem, add, others}
use pi_codex_adaptor.Routing.Router.{update}

-- The fields of `CodexProviderRequestRecord` that the guard reads: V is the type of the requests and
-- C of the causes of a failure. A signal that is aborted stays so.
pub record RequestRecord {ℓ} (V : Type ℓ) (C : Type ℓ) : Type ℓ where
  pub session_id : String
  pub request_digest : String
  pub approved_request : Option V
  pub approved_digest : Option String
  pub failure : Option C
  pub closed : Bool
  pub aborted : Bool

pub record Guard {ℓ} (V : Type ℓ) (C : Type ℓ) : Type ℓ where
  pub objects : Token → Option (RequestRecord V C)
  pub records : List Token
  pub next_generation : ℕ
  pub disposed : Bool

-- `RECORD_UNAVAILABLE`, `RECORD_REJECTED`, or the cause that has been recorded.
pub data Thrown {ℓ} (C : Type ℓ) : Type ℓ where
  record_unavailable record_rejected : Thrown C
  caused : C → Thrown C

pub data Answer {ℓ κ} (A : Type ℓ) (C : Type κ) : Type (ℓ ⊔ κ) where
  returned : A → Answer A C
  thrown : Thrown C → Answer A C

abbrev pub is_current : Option Token → Token → Bool
is_current none t = false
is_current (some u) t = u == t

module _ {ℓ} {V C : Type ℓ} where
  unfoldable pub new_guard : Guard V C
  new_guard = record { objects = λ t. none; records = []; next_generation = 0; disposed = false }

  abbrev pub is_open : Option (RequestRecord V C) → Bool
  is_open none = false
  is_open (some x) = not x.closed && not x.aborted

  -- `assertLive` lets the record pass.
  unfoldable pub is_live : Token → Guard V C → Bool
  is_live t g = not g.disposed && is_open (g.objects t) && mem t g.records

  abbrev pub change : Token → (RequestRecord V C → RequestRecord V C) → Guard V C → Guard V C
  change t f g = elim (g.objects t) [
    | none ↦ g
    | some x ↦ record g { objects = update t (some (f x)) g.objects }
  ]

  unfoldable pub close : Token → Guard V C → Guard V C
  close t g =
      let h = change t (λ x. record x { closed = true }) g in
      record h { records = others t h.records }

  abbrev pub is_closed : Option (RequestRecord V C) → Bool
  is_closed none = true
  is_closed (some x) = x.closed

  unfoldable pub consume : Token → Guard V C → Guard V C
  unfolding close
  consume t g = if is_closed (g.objects t) then g else close t g

  abbrev pub has_session : String → Option (RequestRecord V C) → Bool
  has_session session none = false
  has_session session (some x) = str_eq x.session_id session

  -- The records of a list that the test passes are closed, one by one.
  unfoldable pub close_where :
      (Option (RequestRecord V C) → Bool) → List Token → Guard V C → Guard V C
  unfolding close
  close_where p [] g = g
  close_where p (t ∷ ts) g = close_where p ts (if p (g.objects t) then close t g else g)

  unfoldable pub invalidate_session : String → Guard V C → Guard V C
  unfolding close_where
  invalidate_session session g = close_where (has_session session) g.records g

  unfoldable pub invalidate_all : Guard V C → Guard V C
  unfolding close_where
  invalidate_all g = close_where (λ o. true) g.records g

  unfoldable pub dispose : Guard V C → Guard V C
  unfolding invalidate_all
  dispose g = invalidate_all (record g { disposed = true })

  unfoldable pub assert_route : Token → String → Guard V C → Answer {0, ℓ} Unit C
  unfolding is_live
  assert_route t session g =
      if is_live t g && has_session session (g.objects t)
      then returned tt
      else thrown record_rejected

  unfoldable pub active_record_count : Guard V C → ℕ
  active_record_count g = length g.records

  -- The first failure is kept.
  abbrev pub fail_with : C → RequestRecord V C → RequestRecord V C
  fail_with cause x = if is_none x.failure then record x { failure = some cause } else x

  unfoldable pub record_failure :
      Option Token → Token → C → Guard V C → Guard V C × Answer {0, ℓ} Unit C
  unfolding is_live
  record_failure current t cause g =
      if is_live t g && is_current current t
      then (change t (fail_with cause) g, returned tt)
      else (g, thrown record_rejected)

  -- A signal of the record is aborted.
  unfoldable pub abort : Token → Guard V C → Guard V C
  abort t = change t λ x. record x { aborted = true }

abbrev pub same_digest : Option String → Option String → Bool
same_digest (some d) (some e) = str_eq d e
same_digest _ _ = false

-- The helpers on JSON: whether a value is a plain record, whether `deepFreeze` accepts it, and its
-- digest, none where `digestJson` throws.
module _ {ℓ} {V C : Type ℓ} (is_record : V → Bool) (freezes : V → Bool)
    (digest : V → Option String) where
  abbrev pub put_digest : Token → V → Option String → Guard V C → Guard V C × Answer V C
  put_digest t v none g = (g, thrown record_rejected)
  put_digest t v (some d) g = (change t (λ x. record x { approved_digest = some d }) g, returned v)

  unfoldable pub approve : Option Token → Token → V → Guard V C → Guard V C × Answer V C
  unfolding is_live
  approve current t v g =
      if is_live t g && is_current current t && freezes v
      then put_digest t v (digest v) (change t (λ x. record x { approved_request = some v }) g)
      else (g, thrown record_rejected)

  -- What a record that is alive answers for the payload that is to go out.
  unfoldable pub approved_of : V → Option (RequestRecord V C) → Answer V C
  approved_of v none = thrown record_rejected
  approved_of v (some x) = elim x.failure [
    | some cause ↦ thrown (caused cause)
    | none ↦ elim x.approved_request [
      | none ↦ thrown record_rejected
      | some w ↦
          if is_record v && same_digest (digest v) x.approved_digest
          then returned w
          else thrown record_rejected
    ]
  ]

  unfoldable pub assert_approved : Token → V → Guard V C → Answer V C
  unfolding is_live approved_of
  assert_approved t v g =
      if is_live t g then approved_of v (g.objects t) else thrown record_rejected

  abbrev pub opened : String → Bool → Option String → Guard V C → Guard V C × Answer Token C
  opened session aborted none g = (g, thrown record_rejected)
  opened session aborted (some d) g = (
    record g {
      objects =
          update g.next_generation
            (some (record {
              session_id = session;
              request_digest = d;
              approved_request = none;
              approved_digest = none;
              failure = none;
              closed = false;
              aborted = aborted;
            }))
            g.objects;
      records = add g.next_generation g.records;
    },
    returned g.next_generation,
  )

  -- `open`: the generation is taken before the copies are made, which throw where copies is false;
  -- the error of a copy is given as unavailable here.
  unfoldable pub open_record : String → V → Bool → Bool → Guard V C → Guard V C × Answer Token C
  open_record session request copies aborted g =
      if g.disposed
      then (g, thrown record_unavailable)
      else (let h = record g { next_generation = suc g.next_generation } in
          if copies
          then opened session aborted (digest request) h
          else (h, thrown record_unavailable))
