-- ===== src/Bridge/Closing.antt =====
-- src/infrastructure/codex-bridge/client.ts: rejecting everything, closing and failing.
use pi_codex_adaptor.Prelude.{
  String, true, false, ◌≡◌, refl, subst, ◌∙◌, none, List, [], ◌∷◌, inl, inr, eq_iff, arith, str_eq,
  mem_text, Bool-cases,
}
use pi_codex_adaptor.Prelude.Dict
use pi_codex_adaptor.Prelude.Dict.{Dict, lookup-insert, lookup-erase}
use pi_codex_adaptor.Bridge.Messages.{Failure, connection_closed}
use pi_codex_adaptor.Bridge.Client.{
  Pending, Client, reject_pending, reject_handshake, reject_each, ids_of, reject_all, fail, close,
}
use pi_codex_adaptor.Bridge.Table.{
  IsTidy, Forward, After, Forward-trans, After-trans, Forward-same, After-same,
  reject_pending-Forward, frame-Forward, frame-After, if-After,
}

-- The requests that are rejected one by one are gone, and no other comes.
none_stays :
    (id j : String) (f : Failure) (c : Client)
    → Dict.lookup j c.pending ≡ none
    → Dict.lookup j (reject_pending id f c).pending ≡ none
unfolding reject_pending
none_stays id j f c h = ground (arith, lookup-erase j id c.pending)

none_after :
    (id : String) (f : Failure) (c : Client) → Dict.lookup id (reject_pending id f c).pending ≡ none
unfolding reject_pending
none_after id f c = ground (arith, lookup-erase id id c.pending, eq_iff id id)

reject_each-none_stays :
    (ids : List String) (j : String) (f : Failure) (c : Client)
    → Dict.lookup j c.pending ≡ none
    → Dict.lookup j (reject_each ids f c).pending ≡ none
unfolding reject_each
reject_each-none_stays [] j f c h = h
reject_each-none_stays (id ∷ ids) j f c h =
    reject_each-none_stays ids j f (reject_pending id f c) (none_stays id j f c h)

reject_each-none :
    (ids : List String) (j : String) (f : Failure) (c : Client)
    → mem_text j ids ≡ true
    → Dict.lookup j (reject_each ids f c).pending ≡ none
unfolding reject_each
reject_each-none [] j f c m = absurd (cc)
reject_each-none (id ∷ ids) j f c m = elim (Bool-cases (str_eq id j)) [
  | inl same ↦ reject_each-none_stays ids j f (reject_pending id f c) (
      subst (λ k. Dict.lookup k (reject_pending id f c).pending ≡ none) ((eq_iff id j).0 same)
        (none_after id f c))
  | inr other ↦ reject_each-none ids j f (reject_pending id f c) (rw other at m)
]

not_listed :
    (j : String) (d : Dict Pending) → mem_text j (ids_of d) ≡ false → Dict.lookup j d ≡ none
unfolding Dict.lookup
not_listed j [] m = refl
not_listed j ((i, p) ∷ d) m = ground (arith, not_listed j d)

reject_each-Forward :
    (ids : List String) (f : Failure) (c : Client) → IsTidy c → Forward c (reject_each ids f c)
unfolding reject_each
reject_each-Forward [] f c w = Forward-same c w
reject_each-Forward (id ∷ ids) f c w =
    let first = reject_pending-Forward id f c w in
    Forward-trans first (reject_each-Forward ids f (reject_pending id f c) first.tidy)

reject_each-closed :
    (ids : List String) (f : Failure) (c : Client) → (reject_each ids f c).closed ≡ c.closed
unfolding reject_each reject_pending
reject_each-closed [] f c = refl
reject_each-closed (id ∷ ids) f c = reject_each-closed ids f (reject_pending id f c) ∙ ground arith

-- Every request is rejected, whatever the client is.
reject_all-none :
    (f : Failure) (c : Client) (j : String) → Dict.lookup j (reject_all f c).pending ≡ none
unfolding reject_all
reject_all-none f c j =
    let d = reject_handshake f c in
    elim (Bool-cases (mem_text j (ids_of d.pending))) [
      | inl m ↦ reject_each-none (ids_of d.pending) j f d m
      | inr m ↦ reject_each-none_stays (ids_of d.pending) j f d (not_listed j d.pending m)
    ]

pub reject_handshake-After : (f : Failure) (c : Client) → IsTidy c → After c (reject_handshake f c)
unfolding reject_handshake
reject_handshake-After f c w =
    frame-After c (reject_handshake f c) (ground arith) (ground arith) (ground arith) (ground arith)
      w

reject_all-Forward : (f : Failure) (c : Client) → IsTidy c → Forward c (reject_all f c)
unfolding reject_all
reject_all-Forward f c w =
    let first = (reject_handshake-After f c w).forward in
    Forward-trans first (
      reject_each-Forward (ids_of (reject_handshake f c).pending) f (reject_handshake f c)
        first.tidy)

reject_all-closed : (f : Failure) (c : Client) → (reject_all f c).closed ≡ c.closed
unfolding reject_all reject_handshake
reject_all-closed f c =
    reject_each-closed (ids_of (reject_handshake f c).pending) f (reject_handshake f c)
    ∙ ground arith

-- The client is marked as closed, and rejects all.
seal-After :
    (f : Failure) (c d : Client)
    → d.pending ≡ c.pending
    → d.settled ≡ c.settled
    → d.ignored_request_ids ≡ c.ignored_request_ids
    → d.closed ≡ true
    → IsTidy c
    → After c (reject_all f d)
seal-After f c d p s i e w =
    let first = frame-Forward c d p s i w in
    record {
      forward = Forward-trans first (reject_all-Forward f d first.tidy);
      stays_closed = λ h. reject_all-closed f d ∙ e;
      sealed = λ h g. reject_all-none f d;
    }

pub close-After : (c : Client) → IsTidy c → After c (close c)
unfolding close
close-After c w =
    if-After c.closed c c _ (λ h. After-same c w)
      (λ h. seal-After connection_closed c _ refl refl refl refl w)

pub fail-After : (f : Failure) (c : Client) → IsTidy c → After c (fail f c)
unfolding fail
fail-After f c w =
    let d = record c { closed = true; ready = false } in
    let all = seal-After f c d refl refl refl refl w in
    if-After c.closed c c _ (λ h. After-same c w)
      (λ h. After-trans all (frame-After (reject_all f d) _ refl refl refl refl all.forward.tidy))

pub fail-closed : (f : Failure) (c : Client) → (fail f c).closed ≡ true
unfolding fail
fail-closed f c = elim (Bool-cases c.closed) [
  | inl e ↦ ground (arith, e)
  | inr e ↦ ground (arith, e, reject_all-closed f (record c { closed = true; ready = false }))
]
