-- ===== src/Compaction/Saved.antt =====
-- `createRemoteCompactionCheckpoint` and `parseRemoteCompactionCheckpoint` of
-- src/application/compaction.ts; none where the code throws or returns undefined.
use pi_codex_adaptor.Prelude.{
  ℕ, String, Bool, true, false, not, ◌&&◌, ◌||◌, Option, none, some, List, [], ◌∷◌, ◌++◌, any, all,
  length, leb, ltb, ◌==◌, str_eq, mem_text, codes, utf16_length, trim, if◌then◌else◌,
}
use pi_codex_adaptor.Value.{
  Value, undefined, number, text, array, object, pos, Items, Fields, keys, get, is_safe_integer,
  max_safe_integer,
}
use pi_codex_adaptor.Compaction.Store.{Identity, AuthenticationKind, jwt_account, credential}
use pi_codex_adaptor.Compaction.Checkpoint.{validate_compaction_output}

-- `NormalizedUsage`
pub record Usage : Type 0 where
  pub input_tokens : ℕ
  pub output_tokens : ℕ
  pub cached_input_tokens : ℕ
  pub reasoning_tokens : Option ℕ

pub data Implementation : Type 0 where
  remote_v2 compact_endpoint : Implementation

-- `CodexRemoteCompactionCheckpointV1`, less its constant kind and version.
pub record Checkpoint : Type 0 where
  pub identity : Identity
  pub checkpoint_id : String
  pub covered_entry_id : String
  pub implementation : Implementation
  pub output : List Fields
  pub tokens_before : ℕ
  pub usage : Option Usage

abbrev pub max_identity_field_length : ℕ
max_identity_field_length = 4096

abbrev pub max_checkpoint_id_length : ℕ
max_checkpoint_id_length = 256

-- A control character is one UTF-16 unit.
abbrev pub is_control : ℕ → Bool
is_control c = ltb c 0x20 || c == 0x7f

unfoldable pub has_control_character : List ℕ → Bool
has_control_character = any is_control

-- What `requireText` wants of a text.
unfoldable pub is_required_text : ℕ → String → Bool
unfolding has_control_character
is_required_text maximum s =
    not (utf16_length (codes s) == 0)
    && leb (utf16_length (codes s)) maximum
    && not (length (trim (codes s)) == 0)
    && not (has_control_character (codes s))

unfoldable pub require_text : ℕ → Value → Option String
unfolding is_required_text
require_text maximum (text s) = if is_required_text maximum s then some s else none
require_text maximum _ = none

unfoldable pub normalize_non_negative_integer : Value → Option ℕ
normalize_non_negative_integer (number (pos n)) = if is_safe_integer (pos n) then some n else none
normalize_non_negative_integer _ = none

-- The keys of an object are distinct, so that their sorted list is that of the expected keys when
-- there are as many and each expected one is there.
unfoldable pub has_exact_keys : Fields → List String → Bool
has_exact_keys fs expected =
    length (keys fs) == length expected && all (λ k. mem_text k (keys fs)) expected

abbrev pub kind_of : Value → Option AuthenticationKind
kind_of (text s) =
    if str_eq s "jwt_account"
    then some jwt_account
    else if str_eq s "credential"
    then some credential
    else none
kind_of _ = none

abbrev pub make_binding :
    Option AuthenticationKind → Option String → Option (AuthenticationKind × String)
make_binding (some kind) (some fingerprint) = some (kind, fingerprint)
make_binding _ _ = none

unfoldable pub validate_authentication_binding : Value → Option (AuthenticationKind × String)
unfolding has_exact_keys require_text
validate_authentication_binding (object fs) =
    if has_exact_keys fs ("kind" ∷ "fingerprint" ∷ [])
    then make_binding (kind_of (get "kind" fs))
        (require_text max_identity_field_length (get "fingerprint" fs))
    else none
validate_authentication_binding _ = none

abbrev pub make_identity :
    Option String
    → Option String
    → Option String
    → Option String
    → Option String
    → Option (AuthenticationKind × String)
    → Option Identity
make_identity (some s) (some p) (some a) (some b) (some m) (some k) = some (record {
  session_fingerprint = s;
  provider_id = p;
  api = a;
  base_url = b;
  model_id = m;
  authentication_kind = k.0;
  authentication_fingerprint = k.1;
})
make_identity _ _ _ _ _ _ = none

-- `parseIdentity`, and `validateIdentity` on the object that it makes.
unfoldable pub parse_identity : Fields → Option Identity
unfolding require_text validate_authentication_binding
parse_identity fs =
    make_identity (require_text max_identity_field_length (get "sessionFingerprint" fs))
      (require_text max_identity_field_length (get "providerId" fs))
      (require_text max_identity_field_length (get "api" fs))
      (require_text max_identity_field_length (get "baseUrl" fs))
      (require_text max_identity_field_length (get "modelId" fs))
      (validate_authentication_binding (get "authenticationBinding" fs))

-- `validateIdentity` lets an identity pass.
unfoldable pub is_valid_identity : Identity → Bool
unfolding is_required_text
is_valid_identity i =
    is_required_text max_identity_field_length i.session_fingerprint
    && is_required_text max_identity_field_length i.provider_id
    && is_required_text max_identity_field_length i.api
    && is_required_text max_identity_field_length i.base_url
    && is_required_text max_identity_field_length i.model_id
    && is_required_text max_identity_field_length i.authentication_fingerprint

abbrev pub usage_keys : List String
usage_keys = "inputTokens" ∷ "outputTokens" ∷ "cachedInputTokens" ∷ []

-- `value.reasoningTokens === undefined ? {} : …`
abbrev pub optional_count : Value → Option (Option ℕ)
optional_count undefined = some none
optional_count (number (pos n)) = if is_safe_integer (pos n) then some (some n) else none
optional_count _ = none

abbrev pub make_usage : Option ℕ → Option ℕ → Option ℕ → Option (Option ℕ) → Option Usage
make_usage (some i) (some o) (some c) (some r) =
    some (record {
      input_tokens = i;
      output_tokens = o;
      cached_input_tokens = c;
      reasoning_tokens = r;
    })
make_usage _ _ _ _ = none

unfoldable pub parse_usage : Value → Option Usage
unfolding has_exact_keys normalize_non_negative_integer
parse_usage (object fs) =
    if has_exact_keys fs usage_keys || has_exact_keys fs (usage_keys ++ "reasoningTokens" ∷ [])
    then make_usage (normalize_non_negative_integer (get "inputTokens" fs))
        (normalize_non_negative_integer (get "outputTokens" fs))
        (normalize_non_negative_integer (get "cachedInputTokens" fs))
        (optional_count (get "reasoningTokens" fs))
    else none
parse_usage _ = none

abbrev pub is_safe_count : ℕ → Bool
is_safe_count n = leb n max_safe_integer

abbrev pub is_safe_option : Option ℕ → Bool
is_safe_option none = true
is_safe_option (some n) = is_safe_count n

-- `validateUsage` lets a usage pass.
abbrev pub is_valid_usage : Option Usage → Bool
is_valid_usage none = true
is_valid_usage (some u) =
    is_safe_count u.input_tokens
    && is_safe_count u.output_tokens
    && is_safe_count u.cached_input_tokens
    && is_safe_option u.reasoning_tokens

abbrev pub make_checkpoint :
    Identity
    → String
    → String
    → Implementation
    → Option (List Fields)
    → ℕ
    → Option Usage
    → Option Checkpoint
make_checkpoint i id covered implementation none tokens usage = none
make_checkpoint i id covered implementation (some output) tokens usage = some (record {
  identity = i;
  checkpoint_id = id;
  covered_entry_id = covered;
  implementation = implementation;
  output = output;
  tokens_before = tokens;
  usage = usage;
})

unfoldable pub create_remote_compaction_checkpoint :
    Identity → String → String → Implementation → Items → ℕ → Option Usage → Option Checkpoint
unfolding is_valid_identity is_required_text
create_remote_compaction_checkpoint i id covered implementation output tokens usage =
    if is_valid_identity i
      && is_required_text max_checkpoint_id_length id
      && is_required_text max_identity_field_length covered
      && is_safe_count tokens
      && is_valid_usage usage
    then make_checkpoint i id covered implementation (validate_compaction_output output) tokens
        usage
    else none

abbrev pub implementation_of : Value → Option Implementation
implementation_of (text s) =
    if str_eq s "remote_v2"
    then some remote_v2
    else if str_eq s "compact_endpoint"
    then some compact_endpoint
    else none
implementation_of _ = none

abbrev pub array_of : Value → Option Items
array_of (array vs) = some vs
array_of _ = none

-- `value.usage === undefined ? undefined : parseUsage(value.usage)`
abbrev pub optional_usage : Value → Option (Option Usage)
optional_usage undefined = some none
optional_usage v = elim (parse_usage v) [ none ↦ none | some u ↦ some (some u) ]

abbrev pub create_from :
    Option Identity
    → Option String
    → Option String
    → Option Implementation
    → Option Items
    → Option ℕ
    → Option (Option Usage)
    → Option Checkpoint
create_from (some i) (some id) (some covered) (some implementation) (some output) (some tokens)
      (some usage) =
    create_remote_compaction_checkpoint i id covered implementation output tokens usage
create_from _ _ _ _ _ _ _ = none

abbrev pub required_keys : List String
required_keys =
    "kind" ∷ "version" ∷ "sessionFingerprint" ∷ "providerId" ∷ "api" ∷ "baseUrl" ∷ "modelId"
    ∷ "authenticationBinding" ∷ "checkpointId" ∷ "coveredEntryId" ∷ "implementation" ∷ "output"
    ∷ "tokensBefore" ∷ []

abbrev pub is_text_of : String → Value → Bool
is_text_of t (text s) = str_eq s t
is_text_of t _ = false

-- `value.version === 1`
abbrev pub is_one : Value → Bool
is_one (number (pos n)) = n == 1
is_one _ = false

unfoldable pub parse_remote_compaction_checkpoint : Value → Option Checkpoint
unfolding has_exact_keys parse_identity require_text normalize_non_negative_integer parse_usage
parse_remote_compaction_checkpoint (object fs) =
    if is_text_of "pi-codex-adaptor.remote-compaction" (get "kind" fs)
      && is_one (get "version" fs)
      && (has_exact_keys fs required_keys || has_exact_keys fs (required_keys ++ "usage" ∷ []))
    then create_from (parse_identity fs)
        (require_text max_checkpoint_id_length (get "checkpointId" fs))
        (require_text max_identity_field_length (get "coveredEntryId" fs))
        (implementation_of (get "implementation" fs)) (array_of (get "output" fs))
        (normalize_non_negative_integer (get "tokensBefore" fs)) (optional_usage (get "usage" fs))
    else none
parse_remote_compaction_checkpoint _ = none
