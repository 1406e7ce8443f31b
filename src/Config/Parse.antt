-- ===== src/Config/Parse.antt =====
-- `parseConfig` and the section parsers of src/domain/config.ts.
use Prim.Native.String.{◌++◌ as ◌<>◌}
use pi_codex_adaptor.Prelude.{
  ℕ, String, Bool, true, false, not, ◌||◌, ◌&&◌, Option, none, some, List, [], ◌∷◌, length, ltb,
  ◌==◌, any, mem_text, str_eq, codes, utf16_length, trim, codes_eq, if◌then◌else◌,
}
use pi_codex_adaptor.Value.{
  Value, text, number, array, pos, is_safe_integer, is_positive, items, texts, get, Fields,
}
use pi_codex_adaptor.Config.Schema.{
  AutoOrOff, ServiceTier, default, priority, flex, Verbosity, low, medium, high, TransportMode, sse,
  WebSearchMode, cached, indexed, live, ApprovalPolicy, on_request, never, FilesystemAccessPolicy,
  workspace, unrestricted, TokenLimit, model, tokens, CompactionConfig, Activation, Tools, Security,
  Codex, Ui, CodexConfig,
}
use pi_codex_adaptor.Config.Issues.{
  ConfigurationIssue, invalid_type, invalid_value, Parsed, ◌>>=◌, ◌>>◌, pure, fail, as_object,
  exact_keys, enum_value, boolean_value,
}

abbrev pub is_line_break : ℕ → Bool
is_line_break c = c == 13 || c == 10

-- The test of `providers.some(…)` on the code points of a text.
unfoldable pub is_bad_provider : List ℕ → Bool
is_bad_provider cs =
    length (trim cs) == 0
    || ltb 256 (utf16_length cs)
    || any is_line_break cs
    || not (codes_eq cs (trim cs))

unfoldable pub rejects_provider : Value → Bool
rejects_provider (text s) = is_bad_provider (codes s)
rejects_provider _ = true

-- `new Set(names).size !== names.length`
unfoldable pub has_duplicates : List String → Bool
has_duplicates [] = false
has_duplicates (s ∷ ss) = mem_text s ss || has_duplicates ss

unfoldable pub parse_providers : List Value → Parsed (Option Activation)
parse_providers vs =
    if length vs == 0 || any rejects_provider vs
    then fail "activation.providers" invalid_value "must contain non-empty provider ids"
    else if has_duplicates (texts vs)
    then fail "activation.providers" invalid_value "must contain unique provider ids"
    else pure (some (record { providers = texts vs }))

-- `activation.providers`
unfoldable pub parse_provider_array : Value → Parsed (Option Activation)
parse_provider_array (array vs) = parse_providers (items vs)
parse_provider_array _ = fail "activation.providers" invalid_type "must be an array"

unfoldable pub parse_activation : Value → Parsed (Option Activation)
parse_activation v = do
  found ← as_object v "activation"
  elim found [
    | none ↦ pure none
    | some activation ↦ do
      exact_keys activation ("providers" ∷ []) "activation"
      parse_provider_array (get "providers" activation)
  ]

abbrev pub auto_or_off : List (String × AutoOrOff)
auto_or_off = ("auto", AutoOrOff.auto) ∷ ("off", AutoOrOff.off) ∷ []

abbrev pub make_tools : Option Bool → Option AutoOrOff → Option AutoOrOff → Option Tools
make_tools (some b) (some v) (some i) =
    some (record {
      background_sessions = b;
      optional = record { view_image = v; image_generation = i };
    })
make_tools _ _ _ = none

unfoldable pub parse_tools : Value → Parsed (Option Tools)
parse_tools v = do
  found ← as_object v "tools"
  elim found [
    | none ↦ pure none
    | some tools ↦ do
      exact_keys tools ("backgroundSessions" ∷ "optional" ∷ []) "tools"
      sessions ← boolean_value (get "backgroundSessions" tools) "tools.backgroundSessions"
      inner ← as_object (get "optional" tools) "tools.optional"
      elim inner [
        | none ↦ pure none
        | some optional ↦ do
          exact_keys optional ("viewImage" ∷ "imageGeneration" ∷ []) "tools.optional"
          view ← enum_value (get "viewImage" optional) auto_or_off "tools.optional.viewImage"
          image ←
              enum_value (get "imageGeneration" optional) auto_or_off
                "tools.optional.imageGeneration"
          pure (make_tools sessions view image)
      ]
  ]

abbrev pub approval_policies : List (String × ApprovalPolicy)
approval_policies = ("on-request", on_request) ∷ ("never", never) ∷ []

abbrev pub filesystem_access_policies : List (String × FilesystemAccessPolicy)
filesystem_access_policies = ("workspace", workspace) ∷ ("unrestricted", unrestricted) ∷ []

abbrev pub make_security : Option ApprovalPolicy → Option FilesystemAccessPolicy → Option Security
make_security (some a) (some f) =
    some (record { approval_policy = a; filesystem_access_policy = f })
make_security _ _ = none

unfoldable pub parse_security : Value → Parsed (Option Security)
parse_security v = do
  found ← as_object v "security"
  elim found [
    | none ↦ pure none
    | some security ↦ do
      exact_keys security ("approvalPolicy" ∷ "filesystemAccessPolicy" ∷ []) "security"
      approval ←
          enum_value (get "approvalPolicy" security) approval_policies "security.approvalPolicy"
      access ←
          enum_value (get "filesystemAccessPolicy" security) filesystem_access_policies
            "security.filesystemAccessPolicy"
      pure (make_security approval access)
  ]

abbrev pub service_tiers : List (String × ServiceTier)
service_tiers = ("default", default) ∷ ("priority", priority) ∷ ("flex", flex) ∷ []

abbrev pub verbosities : List (String × Verbosity)
verbosities = ("low", low) ∷ ("medium", medium) ∷ ("high", high) ∷ []

abbrev pub transport_modes : List (String × TransportMode)
transport_modes = ("auto", TransportMode.auto) ∷ ("sse", sse) ∷ []

abbrev pub web_search_modes : List (String × WebSearchMode)
web_search_modes =
    ("disabled", WebSearchMode.disabled)
    ∷ ("cached", cached)
    ∷ ("indexed", indexed)
    ∷ ("live", live)
    ∷ []

unfoldable pub nested_mode : {A : Type 0} → Value → List (String × A) → String → Parsed (Option A)
nested_mode v allowed path = do
  found ← as_object v path
  elim found [
    | none ↦ pure none
    | some container ↦ do
      exact_keys container ("mode" ∷ []) path
      enum_value (get "mode" container) allowed (path <> ".mode")
  ]

-- The value of `autoCompactTokenLimit`: `"model"`, or a positive safe integer.
unfoldable pub token_limit : Value → Option TokenLimit
token_limit (text s) = if str_eq "model" s then some model else none
token_limit (number (pos n)) =
    if is_safe_integer (pos n) && is_positive (pos n) then some (tokens n) else none
token_limit _ = none

pub data Mode : Type 0 where
  off auto : Mode

abbrev pub modes : List (String × Mode)
modes = ("off", Mode.off) ∷ ("auto", Mode.auto) ∷ []

unfoldable pub parse_auto : Fields → Parsed (Option CompactionConfig)
parse_auto compaction = do
  exact_keys compaction ("mode" ∷ "autoCompactTokenLimit" ∷ []) "codex.compaction"
  elim (token_limit (get "autoCompactTokenLimit" compaction)) [
    | some limit ↦ pure (some (CompactionConfig.auto limit))
    | none ↦
        fail "codex.compaction.autoCompactTokenLimit" invalid_value
          "must be model or a positive integer"
  ]

unfoldable pub parse_compaction : Value → Parsed (Option CompactionConfig)
unfolding parse_auto
parse_compaction v = do
  found ← as_object v "codex.compaction"
  elim found [
    | none ↦ pure none
    | some compaction ↦ do
      mode ← enum_value (get "mode" compaction) modes "codex.compaction.mode"
      elim mode [
        | none ↦ pure none
        | some m ↦ elim m [
          | off ↦ do
            exact_keys compaction ("mode" ∷ []) "codex.compaction"
            pure (some CompactionConfig.off)
          | auto ↦ parse_auto compaction
        ]
      ]
  ]

abbrev pub make_codex :
    Option ServiceTier
    → Option Verbosity
    → Option TransportMode
    → Option WebSearchMode
    → Option CompactionConfig
    → Option Codex
make_codex (some s) (some v) (some t) (some w) (some c) =
    some (record { service_tier = s; verbosity = v; transport = t; web_search = w; compaction = c })
make_codex _ _ _ _ _ = none

abbrev pub codex_keys : List String
codex_keys = "serviceTier" ∷ "verbosity" ∷ "transport" ∷ "webSearch" ∷ "compaction" ∷ []

unfoldable pub parse_codex : Value → Parsed (Option Codex)
parse_codex v = do
  found ← as_object v "codex"
  elim found [
    | none ↦ pure none
    | some codex ↦ do
      exact_keys codex codex_keys "codex"
      tier ← enum_value (get "serviceTier" codex) service_tiers "codex.serviceTier"
      verbosity ← enum_value (get "verbosity" codex) verbosities "codex.verbosity"
      transport ← nested_mode (get "transport" codex) transport_modes "codex.transport"
      search ← nested_mode (get "webSearch" codex) web_search_modes "codex.webSearch"
      compaction ← parse_compaction (get "compaction" codex)
      pure (make_codex tier verbosity transport search compaction)
  ]

unfoldable pub parse_ui : Value → Parsed (Option Ui)
parse_ui v = do
  found ← as_object v "ui"
  elim found [
    | none ↦ pure none
    | some ui ↦ do
      exact_keys ui ("status" ∷ []) "ui"
      status ← boolean_value (get "status" ui) "ui.status"
      pure (elim status [ none ↦ none | some b ↦ some (record { status = b }) ])
  ]

-- `literal(root.schemaVersion, 3, …)`
unfoldable pub schema_version : Value → Parsed (Option (Unit {0}))
schema_version (number (pos n)) =
    if n == 3 then pure (some tt) else fail "schemaVersion" invalid_value "has an unsupported value"
schema_version _ = fail "schemaVersion" invalid_value "has an unsupported value"

abbrev pub make_config :
    Option (Unit {0})
    → Option Activation
    → Option Tools
    → Option Security
    → Option Codex
    → Option Ui
    → Option CodexConfig
make_config (some _) (some a) (some t) (some s) (some c) (some u) =
    some (record { activation = a; tools = t; security = s; codex = c; ui = u })
make_config _ _ _ _ _ _ = none

abbrev pub root_keys : List String
root_keys = "schemaVersion" ∷ "activation" ∷ "tools" ∷ "security" ∷ "codex" ∷ "ui" ∷ []

unfoldable pub parse_root : Fields → Parsed (Option CodexConfig)
parse_root root = do
  exact_keys root root_keys "$"
  version ← schema_version (get "schemaVersion" root)
  activation ← parse_activation (get "activation" root)
  tools ← parse_tools (get "tools" root)
  security ← parse_security (get "security" root)
  codex ← parse_codex (get "codex" root)
  ui ← parse_ui (get "ui" root)
  pure (make_config version activation tools security codex ui)

-- `new ConfigurationError(issues)` is `err issues`.
pub data Result (A : Type 0) : Type 0 where
  ok : A → Result A
  err : List ConfigurationIssue → Result A

-- The last test of `parseConfig`: any issue fails, and so does an undefined part.
unfoldable pub conclude : {A : Type 0} → Parsed (Option A) → Result A
conclude (some a, []) = ok a
conclude (_, issues) = err issues

unfoldable pub parse_config : Value → Result CodexConfig
unfolding parse_root conclude
parse_config v =
    conclude
      (do found ← as_object v "$"; elim found [ none ↦ pure none | some root ↦ parse_root root ])
