-- ===== src/Bridge/Table.antt =====
-- src/infrastructure/codex-bridge/client.ts: the life of a request, the invariant of the tables, and
-- what the operations on them keep.
use pi_codex_adaptor.Prelude.{
  ◌≤◌, String, Bool, true, false, ◌≡◌, ◌≢◌, refl, sym, subst, ◌∙◌, Option, none, some, [], ◌∷◌, inl,
  inr, eq_iff, arith, str_eq, length, mem_text, Unique, Unique-cons, Bool-cases, Option-cases,
  if◌then◌else◌,
}
use pi_codex_adaptor.Prelude.Dict
use pi_codex_adaptor.Prelude.Dict.{Dict, lookup-insert, lookup-erase}
use pi_codex_adaptor.Value.{Value}
use pi_codex_adaptor.Bridge.Messages.{TerminalStatus, Failure, Outcome, resolved, rejected}
use pi_codex_adaptor.Bridge.Client.{
  Pending, Client, settle, resolve_pending, reject_pending, ids_of, maximum_ignored_request_ids,
}

-- The life of a request: its promise is unknown, waits, or has been settled.
pub data Life : Type 0 where
  unknown waiting : Life
  answered : Outcome → Life

abbrev pub is_some {ℓ} : {A : Type ℓ} → Option A → Bool
is_some none = false
is_some (some a) = true

abbrev pub life_of : Option Pending → Option Outcome → Life
life_of (some p) r = waiting
life_of none none = unknown
life_of none (some o) = answered o

abbrev pub life : String → Client → Life
life id c = life_of (Dict.lookup id c.pending) (Dict.lookup id c.settled)

-- A request that waits is not forgotten, and an answer is final.
abbrev pub Progress : Life → Life → Type 0
Progress unknown l = Unit
Progress waiting l = l ≢ unknown
Progress (answered o) l = l ≡ answered o

pub Progress-same : (l : Life) → Progress l l
Progress-same unknown = tt
Progress-same waiting = λ e. absurd (cc)
Progress-same (answered o) = refl

Progress-trans : (k l m : Life) → Progress k l → Progress l m → Progress k m
Progress-trans unknown l m p q = tt
Progress-trans waiting unknown m p q = absurd (p refl)
Progress-trans waiting waiting m p q = q
Progress-trans waiting (answered o) m p q = λ e. absurd (cc)
Progress-trans (answered o) l m p q = ground (arith, p, q)

-- No promise is settled twice, none that is settled is pending, and the ids whose late messages are
-- ignored are settled, at most 65,536 of them.
pub record IsTidy (c : Client) : Type 0 where
  pub once : Unique (ids_of c.settled)
  pub apart :
      (id : String) (p : Pending)
      → Dict.lookup id c.pending ≡ some p
      → Dict.lookup id c.settled ≡ none
  pub ignored :
      (id : String)
      → mem_text id c.ignored_request_ids ≡ true
      → is_some (Dict.lookup id c.settled) ≡ true
  pub bounded : length c.ignored_request_ids ≤ maximum_ignored_request_ids

-- A closed client has no pending request.
abbrev pub IsSealed : Client → Type 0
IsSealed c = c.closed ≡ true → (id : String) → Dict.lookup id c.pending ≡ none

pub record Forward (c d : Client) : Type 0 where
  pub tidy : IsTidy d
  pub progress : (id : String) → Progress (life id c) (life id d)

-- The second client is a later state of the first.
pub record After (c d : Client) : Type 0 where
  pub forward : Forward c d
  pub stays_closed : c.closed ≡ true → d.closed ≡ true
  pub sealed : IsSealed c → IsSealed d

pub Forward-trans : {b c d : Client} → Forward b c → Forward c d → Forward b d
Forward-trans {b} {c} {d} f g = record {
  tidy = g.tidy;
  progress =
      λ id. Progress-trans (life id b) (life id c) (life id d) (f.progress id) (g.progress id);
}

pub After-trans : {b c d : Client} → After b c → After c d → After b d
After-trans f g = record {
  forward = Forward-trans f.forward g.forward;
  stays_closed = λ h. g.stays_closed (f.stays_closed h);
  sealed = λ h. g.sealed (f.sealed h);
}

pub Forward-same : (c : Client) → IsTidy c → Forward c c
Forward-same c w = record { tidy = w; progress = λ id. Progress-same (life id c) }

pub After-same : (c : Client) → IsTidy c → After c c
After-same c w = record { forward = Forward-same c w; stays_closed = λ h. h; sealed = λ h. h }

mem_text-lookup :
    (id : String) (d : Dict Outcome) → Dict.lookup id d ≡ none → mem_text id (ids_of d) ≡ false
unfolding Dict.lookup
mem_text-lookup id [] h = refl
mem_text-lookup id ((j, o) ∷ d) h = ground (arith, mem_text-lookup id d)

settle-IsTidy :
    (id : String) (o : Outcome) (p : Pending) (c : Client)
    → IsTidy c
    → Dict.lookup id c.pending ≡ some p
    → IsTidy (settle id o c)
settle-IsTidy id o p c w h = record {
  once =
      (Unique-cons id (ids_of c.settled)).1 (mem_text-lookup id c.settled (w.apart id p h), w.once);
  apart = λ j q.
      unfold Dict.lookup in ground (arith, lookup-erase j id c.pending, w.apart j q, eq_iff id j);
  ignored = λ j m. unfold Dict.lookup in ground (arith, w.ignored j m);
  bounded = w.bounded;
}

pub life-settle :
    (id : String) (o : Outcome) (c : Client) (j : String)
    → life j (settle id o c) ≡ (if str_eq id j then answered o else life j c)
unfolding Dict.lookup
life-settle id o c j = ground (arith, lookup-erase j id c.pending, eq_iff id j, eq_iff j id)

pub Progress-eq : (k l : Life) → l ≡ k → Progress k l
Progress-eq k l e = subst (Progress k) (sym e) (Progress-same k)

settle-Forward :
    (id : String) (o : Outcome) (p : Pending) (c : Client)
    → IsTidy c
    → Dict.lookup id c.pending ≡ some p
    → Forward c (settle id o c)
settle-Forward id o p c w h = record {
  tidy = settle-IsTidy id o p c w h;
  progress = λ j. elim (Bool-cases (str_eq id j)) [
    | inl same ↦
        rw (← (eq_iff id j).0 same, h)
          (rw (life-settle id o c id, (eq_iff id id).1 refl) (λ e. absurd (cc)))
    | inr other ↦
        Progress-eq (life j c) (life j (settle id o c)) (life-settle id o c j ∙ rw other refl)
  ];
}

pub reject_pending-Forward :
    (id : String) (f : Failure) (c : Client) → IsTidy c → Forward c (reject_pending id f c)
unfolding reject_pending
reject_pending-Forward id f c w = elim (Option-cases (Dict.lookup id c.pending)) [
  | inl e ↦ rw (reject_pending, e) (Forward-same c w)
  | inr (p, e) ↦ rw (reject_pending, e) (settle-Forward id (rejected f) p c w e)
]

settle-After :
    (id : String) (o : Outcome) (p : Pending) (c : Client)
    → IsTidy c
    → Dict.lookup id c.pending ≡ some p
    → After c (settle id o c)
settle-After id o p c w h = record {
  forward = settle-Forward id o p c w h;
  stays_closed = λ e. e;
  sealed = λ s e j. ground (arith, lookup-erase j id c.pending, s e j);
}

pub reject_pending-After :
    (id : String) (f : Failure) (c : Client) → IsTidy c → After c (reject_pending id f c)
unfolding reject_pending
reject_pending-After id f c w = elim (Option-cases (Dict.lookup id c.pending)) [
  | inl e ↦ rw (reject_pending, e) (After-same c w)
  | inr (p, e) ↦ rw (reject_pending, e) (settle-After id (rejected f) p c w e)
]

pub resolve_pending-After :
    (id : String) (status : TerminalStatus) (r : Value) (c : Client)
    → IsTidy c
    → After c (resolve_pending id status r c)
unfolding resolve_pending
resolve_pending-After id status r c w = elim (Option-cases (Dict.lookup id c.pending)) [
  | inl e ↦ rw (resolve_pending, e) (After-same c w)
  | inr (p, e) ↦ rw (resolve_pending, e) (settle-After id (resolved status r) p c w e)
]

-- A change of other fields.
pub frame-Forward :
    (c d : Client)
    → d.pending ≡ c.pending
    → d.settled ≡ c.settled
    → d.ignored_request_ids ≡ c.ignored_request_ids
    → IsTidy c
    → Forward c d
frame-Forward c d p s i w = record {
  tidy = record {
    once = rw s w.once;
    apart = λ j q. rw (p, s) (w.apart j q);
    ignored = λ j. rw (i, s) (w.ignored j);
    bounded = rw i w.bounded;
  };
  progress = λ j. rw (p, s) (Progress-same (life j c));
}

pub frame-After :
    (c d : Client)
    → d.pending ≡ c.pending
    → d.settled ≡ c.settled
    → d.ignored_request_ids ≡ c.ignored_request_ids
    → d.closed ≡ c.closed
    → IsTidy c
    → After c d
frame-After c d p s i e w = record {
  forward = frame-Forward c d p s i w;
  stays_closed = rw e (λ h. h);
  sealed = rw (p, e) (λ h. h);
}

pub if-After :
    (b : Bool) (c d e : Client)
    → (b ≡ true → After c d)
    → (b ≡ false → After c e)
    → After c (if b then d else e)
if-After true c d e p q = p refl
if-After false c d e p q = q refl

pub option-After {ℓ} :
    {A : Type ℓ} (o : Option A) (c d : Client) (g : A → Client)
    → (o ≡ none → After c d)
    → ((a : A) → o ≡ some a → After c (g a))
    → After c (elim o [ none ↦ d | some a ↦ g a ])
option-After none c d g p q = p refl
option-After (some a) c d g p q = q a refl

pub pair-After {ℓ} :
    {A : Type ℓ} (b : Bool) (c : Client) (p q : Client × A)
    → (b ≡ true → After c p.0)
    → (b ≡ false → After c q.0)
    → After c (if b then p else q).0
pair-After true c p q f g = f refl
pair-After false c p q f g = g refl
