-- ===== src/Compaction/Store.antt =====
-- `CodexCompactionStore` of src/application/compaction.ts: warnings given once, and the context
-- usage that the provider has reported.
use Prim.Native.String.{◌++◌ as ◌<>◌}
use text.Mathlib.Text.{starts_with}
use pi_codex_adaptor.Prelude.{
  ℕ, ◌+◌, String, Bool, true, false, not, ◌&&◌, ◌||◌, Option, none, some, List, [], ◌∷◌, keep, ltb,
  ◌==◌, str_eq, mem_text, map, ◌++◌, if◌then◌else◌,
}
use pi_codex_adaptor.Prelude.Dict
use pi_codex_adaptor.Prelude.Dict.{Dict}
use pi_codex_adaptor.Value.{Number, pos, is_safe_integer}

pub data AuthenticationKind : Type 0 where
  jwt_account credential : AuthenticationKind

-- `CodexCompactionIdentity`, with its `authenticationBinding`.
pub record Identity : Type 0 where
  pub session_fingerprint : String
  pub provider_id : String
  pub api : String
  pub base_url : String
  pub model_id : String
  pub authentication_kind : AuthenticationKind
  pub authentication_fingerprint : String

abbrev pub kind_text : AuthenticationKind → String
kind_text jwt_account = "jwt_account"
kind_text credential = "credential"

-- `sameCompactionIdentity`; none is undefined.
unfoldable pub same_identity : Identity → Identity → Bool
same_identity left right =
    str_eq left.session_fingerprint right.session_fingerprint
    && str_eq left.provider_id right.provider_id
    && str_eq left.api right.api
    && str_eq left.base_url right.base_url
    && str_eq left.model_id right.model_id
    && str_eq (kind_text left.authentication_kind) (kind_text right.authentication_kind)
    && str_eq left.authentication_fingerprint right.authentication_fingerprint

unfoldable pub same_compaction_identity : Option Identity → Option Identity → Bool
unfolding same_identity
same_compaction_identity (some left) (some right) = same_identity left right
same_compaction_identity _ _ = false

-- `identityKey`: the fields, joined by U+0001.
unfoldable pub identity_key : Identity → String
identity_key i =
    i.session_fingerprint
    <> ("\u{1}"
        <> (i.provider_id
            <> ("\u{1}"
                <> (i.api
                    <> ("\u{1}"
                        <> (i.base_url
                            <> ("\u{1}"
                                <> (i.model_id
                                    <> ("\u{1}"
                                        <> (kind_text i.authentication_kind
                                            <> ("\u{1}" <> i.authentication_fingerprint)))))))))))

-- What the keys of a session begin with: the session and U+0000.
unfoldable pub session_prefix : String → String
session_prefix session = session <> "\0"

unfoldable pub accounting_key : String → Identity → String
unfolding session_prefix identity_key
accounting_key session i = session_prefix session <> identity_key i

-- `CodexContextUsageBaseline`
pub record Baseline : Type 0 where
  pub total_tokens : Number
  pub input_item_count : Number
  pub input_digest : String
  pub instructions_digest : String

pub record Entry : Type 0 where
  pub baseline : Baseline
  pub generation : ℕ
  pub request_generation : ℕ

-- The private fields. The generations count from 0 where a session has none.
pub record Store : Type 0 where
  pub warning_keys : List String
  pub generations : Dict ℕ
  pub active_identities : Dict String
  pub accounting : Dict Entry

unfoldable pub new_store : Store
new_store = record { warning_keys = []; generations = []; active_identities = []; accounting = [] }

-- A warning key is added once, and the caller warns if it was new.
unfoldable pub add_warning : String → Store → Store × Bool
add_warning key s =
    if mem_text key s.warning_keys
    then (s, false)
    else (record s { warning_keys = key ∷ s.warning_keys }, true)

unfoldable pub warn_once : String → Identity → Store → Store × Bool
unfolding add_warning accounting_key
warn_once session i = add_warning (accounting_key session i)

unfoldable pub warn_session_once : String → Store → Store × Bool
unfolding add_warning session_prefix
warn_session_once session = add_warning (session_prefix session <> "<inactive>")

abbrev pub or_zero : Option ℕ → ℕ
or_zero none = 0
or_zero (some n) = n

-- `this.#accountingGenerations.get(sessionId) ?? 0`
unfoldable pub generation_of : String → Store → ℕ
generation_of session s = or_zero (Dict.lookup session s.generations)

unfoldable pub drop_session : String → Dict Entry → Dict Entry
drop_session session = Dict.erase_where λ key. starts_with key (session_prefix session)

unfoldable pub invalidate_context_accounting : String → Store → Store
unfolding generation_of drop_session
invalidate_context_accounting session s = record s {
  generations = Dict.insert session (generation_of session s + 1) s.generations;
  accounting = drop_session session s.accounting;
}

-- The active identity of the session is there, and another one.
abbrev pub is_switch : Option String → String → Bool
is_switch none key = false
is_switch (some active) key = not (str_eq active key)

-- The store that `contextAccounting` leaves.
unfoldable pub select_identity : String → Identity → Store → Store
unfolding invalidate_context_accounting
select_identity session i s =
    let t : Store =
      if is_switch (Dict.lookup session s.active_identities) (identity_key i)
      then invalidate_context_accounting session s
      else s in
    record t { active_identities = Dict.insert session (identity_key i) t.active_identities }

abbrev pub current_baseline : Option Entry → ℕ → Option Baseline
current_baseline none generation = none
current_baseline (some e) generation = if e.generation == generation then some e.baseline else none

-- `CodexContextAccountingSnapshot`
pub record Snapshot : Type 0 where
  pub generation : ℕ
  pub baseline : Option Baseline

unfoldable pub context_accounting : String → Identity → Store → Store × Snapshot
unfolding select_identity
context_accounting session i s =
    let t : Store = select_identity session i s in
    let generation : ℕ = generation_of session t in
    (
      t,
      record {
        generation = generation;
        baseline =
            current_baseline (Dict.lookup (accounting_key session i) t.accounting) generation;
      },
    )

-- `Number.isSafeInteger(n) && n >= 0`
abbrev pub is_count : Number → Bool
is_count (pos n) = is_safe_integer (pos n)
is_count _ = false

-- A later request of the same generation has been recorded.
abbrev pub is_superseded : Option Entry → ℕ → ℕ → Bool
is_superseded none generation request = false
is_superseded (some e) generation request =
    e.generation == generation && ltb request e.request_generation

unfoldable pub record_context_usage : String → Identity → Entry → Store → Store × Bool
unfolding generation_of
record_context_usage session i e s =
    let key = accounting_key session i in
    if not (generation_of session s == e.generation)
      || not (is_count e.baseline.total_tokens)
      || not (is_count e.baseline.input_item_count)
      || is_superseded (Dict.lookup key s.accounting) e.generation e.request_generation
    then (s, false)
    else (record s { accounting = Dict.insert key e s.accounting }, true)

unfoldable pub dispose : String → Store → Store
unfolding generation_of drop_session
dispose session s = record {
  warning_keys = keep (λ key. not (starts_with key (session_prefix session))) s.warning_keys;
  generations = Dict.insert session (generation_of session s + 1) s.generations;
  active_identities = Dict.erase session s.active_identities;
  accounting = drop_session session s.accounting;
}

-- Each session of the list gets the next generation.
unfoldable pub advance : List String → Dict ℕ → Dict ℕ
advance [] d = d
advance (session ∷ sessions) d =
    advance sessions (Dict.insert session (or_zero (Dict.lookup session d) + 1) d)

unfoldable pub distinct : List String → List String
distinct [] = []
distinct (s ∷ ss) = elim (mem_text s ss) [ true ↦ distinct ss | false ↦ s ∷ distinct ss ]

unfoldable pub dispose_all : Store → Store
unfolding advance distinct
dispose_all s = record {
  warning_keys = [];
  generations =
      advance (distinct (map (λ e. e.0) s.generations ++ map (λ e. e.0) s.active_identities))
        s.generations;
  active_identities = [];
  accounting = [];
}
