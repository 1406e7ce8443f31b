-- ===== src/Bridge/Tracking.antt =====
-- src/infrastructure/codex-bridge/client.ts: the ids whose late messages are ignored, and new requests.
use pi_codex_adaptor.Prelude.{
  ◌≤◌, String, Bool, true, false, not, ◌≡◌, refl, ap, ◌∙◌, none, List, [], ◌∷◌, ◌++◌, ◌↔◌, inl, inr,
  eq_iff, arith, leb, str_eq, keep, length, mem_text, mem_text-append, mem_text-keep, Bool-cases,
  if◌then◌else◌,
}
use pi_codex_adaptor.Prelude.Dict
use pi_codex_adaptor.Prelude.Dict.{Dict, lookup-insert, lookup-erase}
use pi_codex_adaptor.Bridge.Stream.{length-append}
use pi_codex_adaptor.Bridge.Messages.{connection_closed}
use pi_codex_adaptor.Bridge.Client.{
  Pending, Client, maximum_ignored_request_ids, ignore_late_messages, forget,
}
use pi_codex_adaptor.Bridge.Table.{
  unknown, waiting, is_some, life, Progress-same, Progress-eq, IsTidy, After, After-same, if-After,
}
use pi_codex_adaptor.Bridge.Closing.{fail-After}

-- An id joins those whose late messages are ignored once its request is settled.
ignore-After :
    (id : String) (c : Client)
    → IsTidy c
    → is_some (Dict.lookup id c.settled) ≡ true
    → leb maximum_ignored_request_ids (length c.ignored_request_ids) ≡ false
    → After c (record c { ignored_request_ids = c.ignored_request_ids ++ id ∷ [] })
ignore-After id c w h n = record {
  forward = record {
    tidy = record {
      once = w.once;
      apart = w.apart;
      ignored = λ j m. ground (
        arith,
        mem_text-append j c.ignored_request_ids (id ∷ []),
        w.ignored j,
        h,
        λ (e : str_eq id j ≡ true). ap (λ k. Dict.lookup k c.settled) ((eq_iff id j).0 e),
      );
      bounded = ground (arith, length-append c.ignored_request_ids (id ∷ []));
    };
    progress = λ j. Progress-same (life j c);
  };
  stays_closed = λ e. e;
  sealed = λ s. s;
}

pub ignore_late_messages-After :
    (id : String) (c : Client)
    → IsTidy c
    → is_some (Dict.lookup id c.settled) ≡ true
    → After c (ignore_late_messages id c)
unfolding ignore_late_messages
ignore_late_messages-After id c w h =
    if-After (mem_text id c.ignored_request_ids) c c _ (λ e. After-same c w)
      (λ e.
        if-After (leb maximum_ignored_request_ids (length c.ignored_request_ids)) c _ _
          (λ n. fail-After connection_closed c w) (λ n. ignore-After id c w h n))

length-keep : (p : String → Bool) (xs : List String) → length (keep p xs) ≤ length xs
length-keep p [] = omega arith
length-keep p (x ∷ xs) = ground (arith, length-keep p xs)

pub forget-After : (id : String) (c : Client) → IsTidy c → After c (forget id c)
forget-After id c w = record {
  forward = record {
    tidy = record {
      once = w.once;
      apart = w.apart;
      ignored = λ j m.
          w.ignored j
            (ground (arith, mem_text-keep (λ s. not (str_eq s id)) j c.ignored_request_ids));
      bounded =
          ground (arith, w.bounded, length-keep (λ s. not (str_eq s id)) c.ignored_request_ids);
    };
    progress = λ j. Progress-same (life j c);
  };
  stays_closed = λ e. e;
  sealed = λ s. s;
}

pub unknown_iff :
    (id : String) (c : Client)
    → (life id c ≡ unknown)
      ↔ ((Dict.lookup id c.pending ≡ none) × (Dict.lookup id c.settled ≡ none))
unknown_iff id c = ground arith

life-open :
    (id : String) (p : Pending) (c : Client) (j : String)
    → life j (record c { pending = Dict.insert id p c.pending })
      ≡ (if str_eq id j then waiting else life j c)
life-open id p c j = ground (arith, lookup-insert j id p c.pending)

-- A request that is new becomes pending.
pub open-After :
    (id : String) (p : Pending) (c : Client)
    → IsTidy c
    → life id c ≡ unknown
    → c.closed ≡ false
    → After c (record c { pending = Dict.insert id p c.pending })
open-After id p c w h e = record {
  forward = record {
    tidy = record {
      once = w.once;
      apart = λ j q. ground (
        arith,
        lookup-insert j id p c.pending,
        w.apart j q,
        (unknown_iff id c).0 h,
        λ (e : str_eq id j ≡ true). ap (λ k. Dict.lookup k c.settled) ((eq_iff id j).0 e),
      );
      ignored = w.ignored;
      bounded = w.bounded;
    };
    progress = λ j. elim (Bool-cases (str_eq id j)) [
      | inl same ↦ rw (← (eq_iff id j).0 same, h) tt
      | inr other ↦ Progress-eq (life j c) _ (life-open id p c j ∙ rw other refl)
    ];
  };
  stays_closed = λ g. g;
  sealed = λ s g. absurd (cc);
}
