-- ===== src/Routing/Router.antt =====
-- src/integration/pi/provider-session-router.ts: `createProviderSessionRouter`, with the heap of
-- bindings, which the collector may take away, written out.
use pi_codex_adaptor.Prelude.{
  suc, String, Bool, true, false, not, ◌&&◌, Option, none, some, List, [], ◌∷◌, map, ◌==◌, str_eq,
  codes, trim, if◌then◌else◌,
}
use pi_codex_adaptor.Prelude.Dict
use pi_codex_adaptor.Prelude.Dict.{Dict}
use pi_codex_adaptor.Routing.Tokens.{Token, add, others}

pub data Field : Type 0 where
  codex_responses open_ai_responses : Field

-- `ProviderSessionDispatchers`, by field, for dispatchers of a type S.
abbrev pub Dispatchers {ℓ} : Type ℓ → Type ℓ
Dispatchers S = Field → S

-- `SessionDispatchBinding`
pub record Binding {ℓ} (S : Type ℓ) : Type ℓ where
  pub dispatchers : Dispatchers S
  pub session_id : Option String
  pub released : Bool

-- The objects that `deref` still finds, the next new identity, `buckets`, and the session under
-- which the finalizer knows an object.
pub record Router {ℓ} (S : Type ℓ) : Type ℓ where
  pub bindings : Token → Option (Binding S)
  pub next : Token
  pub buckets : Dict (List Token)
  pub registered : Token → Option String

pub data Resolution {ℓ} (S : Type ℓ) : Type ℓ where
  unavailable ambiguous : Resolution S
  found : Token → Binding S → Resolution S

pub data Route {ℓ} (S : Type ℓ) : Type ℓ where
  forward : S → Route S
  route_error : String → Route S
  -- The error of the snapshot goes to the caller.
  route_throws : Route S

-- `snapshotSimpleStreamOptions`, which throws where the options cannot be copied and frozen: else the
-- `sessionId` of the copy, none where it is no text.
pub data Snapshot : Type 0 where
  snapshot_throws : Snapshot
  snapshot : Option String → Snapshot

pub data Bound {ℓ} (S : Type ℓ) : Type ℓ where
  bound : Router S → Bound S
  refused : String → Bound S

abbrev pub route_unavailable : String
route_unavailable = "Codex provider route is unavailable for the current Pi session"

abbrev pub route_ambiguous : String
route_ambiguous = "Codex provider route is ambiguous for the current Pi session"

abbrev pub is_empty {ℓ} : {A : Type ℓ} → List A → Bool
is_empty [] = true
is_empty (x ∷ xs) = false

-- `sessionId.trim().length === 0`
unfoldable pub is_blank : String → Bool
is_blank session = is_empty (trim (codes session))

abbrev pub or_empty {ℓ} : {A : Type ℓ} → Option (List A) → List A
or_empty none = []
or_empty (some xs) = xs

-- A bucket that has become empty is deleted.
unfoldable pub store_bucket : String → List Token → Dict (List Token) → Dict (List Token)
store_bucket session [] buckets = Dict.erase session buckets
store_bucket session (t ∷ ts) buckets = Dict.insert session (t ∷ ts) buckets

unfoldable pub remove_token : String → Token → Dict (List Token) → Dict (List Token)
unfolding store_bucket
remove_token session t buckets = elim (Dict.lookup session buckets) [
  | none ↦ buckets
  | some bucket ↦ store_bucket session (others t bucket) buckets
]

abbrev pub is_session : String → Option String → Bool
is_session session none = false
is_session session (some other) = str_eq other session

abbrev pub update {ℓ} : {A : Type ℓ} → Token → A → (Token → A) → Token → A
update t x f u = if u == t then x else f u

-- `removeToken` for the session that the binding has, if it has one.
unfoldable pub leave : Token → Option String → Dict (List Token) → Dict (List Token)
unfolding remove_token
leave t none buckets = buckets
leave t (some session) buckets = remove_token session t buckets

module _ {ℓ} {S : Type ℓ} where
  unfoldable pub new_router : Router S
  new_router = record { bindings = λ t. none; next = 0; buckets = []; registered = λ t. none }

  unfoldable pub create_lease : Dispatchers S → Router S → Token × Router S
  create_lease dispatchers r = (
    r.next,
    record r {
      bindings =
          update r.next
            (some (record { dispatchers = dispatchers; session_id = none; released = false }))
            r.bindings;
      next = suc r.next;
    },
  )

  -- The binding moves from the session that it has to another.
  unfoldable pub move_binding : Token → Binding S → String → Router S → Router S
  unfolding leave
  move_binding t b session r =
      let left = leave t b.session_id r.buckets in
      record r {
        bindings = update t (some (record b { session_id = some session })) r.bindings;
        buckets = Dict.insert session (add t (or_empty (Dict.lookup session left))) left;
        registered = update t (some session) r.registered;
      }

  -- The lease of a binding that is in the heap binds it to a session.
  unfoldable pub bind_binding : Token → Binding S → String → Router S → Bound S
  unfolding is_blank move_binding
  bind_binding t b session r =
      if is_blank session
      then refused "Codex provider session binding requires a non-empty session id"
      else if b.released
      then refused "Released Codex provider session binding cannot be rebound"
      else bound (move_binding t b session r)

  unfoldable pub release_binding : Token → Binding S → Router S → Router S
  unfolding leave
  release_binding t b r = if b.released then r else record r {
    bindings = update t (some (record b { released = true; session_id = none })) r.bindings;
    buckets = leave t b.session_id r.buckets;
    registered = update t none r.registered;
  }

  -- A lease keeps its binding from the collector: with none there is no lease, and no call.
  unfoldable pub bind : Token → String → Router S → Bound S
  unfolding bind_binding
  bind t session r = elim (r.bindings t) [ none ↦ bound r | some b ↦ bind_binding t b session r ]

  unfoldable pub release : Token → Router S → Router S
  unfolding release_binding
  release t r = elim (r.bindings t) [ none ↦ r | some b ↦ release_binding t b r ]

  -- The collector takes a binding, and `deref` gives undefined from then on.
  unfoldable pub collect : Token → Router S → Router S
  collect t r = record r { bindings = update t none r.bindings }

  -- The callback of the finalization registry, for an object that is gone.
  unfoldable pub finalize : Token → Router S → Router S
  unfolding leave
  finalize t r = elim (r.bindings t) [
    | some b ↦ r
    | none ↦ record r {
      buckets = leave t (r.registered t) r.buckets;
      registered = update t none r.registered;
    }
  ]

  -- A binding that `resolveBinding` does not delete from the bucket of the session.
  abbrev pub serves : String → Binding S → Bool
  serves session b = not b.released && is_session session b.session_id

  -- The bindings of a bucket that serve the session, in order.
  unfoldable pub gather :
      String → (Token → Option (Binding S)) → List Token → List (Token × Binding S)
  gather session heap [] = []
  gather session heap (t ∷ ts) =
      let rest = gather session heap ts in
      elim (heap t) [ none ↦ rest | some b ↦ if serves session b then (t, b) ∷ rest else rest ]

  abbrev pub choose : List (Token × Binding S) → Resolution S
  choose [] = unavailable
  choose (x ∷ []) = found x.0 x.1
  choose (x ∷ y ∷ live) = ambiguous

  -- `resolveBinding`: what the bucket names, less the entries that serve no longer, which go.
  unfoldable pub resolve_binding : String → Router S → Router S × Resolution S
  unfolding gather store_bucket
  resolve_binding session r = elim (Dict.lookup session r.buckets) [
    | none ↦ (r, unavailable)
    | some bucket ↦ (
      record r {
        buckets =
            store_bucket session (map (λ x. x.0) (gather session r.bindings bucket)) r.buckets;
      },
      choose (gather session r.bindings bucket),
    )
  ]

  abbrev pub route_of : Field → Resolution S → Route S
  route_of field unavailable = route_error route_unavailable
  route_of field ambiguous = route_error route_ambiguous
  route_of field (found t b) = forward (b.dispatchers field)

  -- The dispatcher of a field, given the snapshot of the options.
  unfoldable pub dispatch : Field → Snapshot → Router S → Router S × Route S
  unfolding is_blank resolve_binding
  dispatch field snapshot_throws r = (r, route_throws)
  dispatch field (snapshot none) r = (r, route_error route_unavailable)
  dispatch field (snapshot (some session)) r =
      if is_blank session
      then (r, route_error route_unavailable)
      else (let resolved = resolve_binding session r in (resolved.0, route_of field resolved.1))
