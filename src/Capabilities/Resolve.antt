-- ===== src/Capabilities/Resolve.antt =====
-- src/application/resolve-effective-capabilities.ts, with completeProviderContract and
-- buildToolsResolveParams of src/domain/capability.ts: the effective capabilities of a model. The
-- answers of the native runtime are a record of functions, which may throw.
use pi_codex_adaptor.Prelude.{
  ℕ, String, Bool, true, false, not, ◌&&◌, ◌||◌, Option, none, some, List, [], ◌∷◌, all, keep, leb,
  str_eq, mem_text, is_none, if◌then◌else◌,
}
use Prim.Native.String.{◌++◌ as ◌<>◌}
use pi_codex_adaptor.Value.{
  Number, pos, Value, Fields, array, items, texts, get, as_record, reaches,
}
use pi_codex_adaptor.Config.Schema.{
  AutoOrOff, WebSearchMode, ShellSurface, unified_exec, shell_command, TokenLimit, model, tokens,
  CompactionConfig, CodexConfig,
}
use pi_codex_adaptor.Config.Context.{CapabilityContext}
use pi_codex_adaptor.ToolProfile.Names.{managed_tool_names}
use pi_codex_adaptor.Capabilities.Metadata.{
  Answer, returned, thrown, ◌>>=◌, plain_error, Source, provider_contract, Availability, available,
  SessionSurface, ModelCapability, ToolCapability, is_filled, parse_model_resolution,
  parse_tool_resolution,
}

-- `CompleteCodexProviderContract`: its one field that varies.
pub data Websocket : Type 0 where
  official_only none_offered : Websocket

unfoldable pub complete_provider_contract : String → Websocket
complete_provider_contract provider_id =
    if str_eq provider_id "openai-codex" then official_only else none_offered

-- The parameters of `tools.resolve` that depend on the input.
pub record ToolsParams : Type 0 where
  pub model : Fields
  pub allowed_local_tool_names : List String
  pub web_search_mode : WebSearchMode
  pub contract : Websocket
  pub standalone_executor_available : Bool
  pub sessions_enabled : Bool
  pub session_executor_available : Bool
  pub view_image : Bool
  pub image_generation : Bool

-- `CodexRuntime`, as far as it is called here.
pub record Runtime : Type 0 where
  pub read_diagnostics : Answer Value
  pub resolve_model : String → Answer Value
  pub resolve_tools : ToolsParams → Answer Value

pub record Input : Type 0 where
  pub model_id : String
  pub provider_id : String
  pub model_input_modalities : List String
  pub config : CodexConfig
  pub context_window : Option Number
  pub host_tool_names : Option (List String)

pub data Implementation : Type 0 where
  remote_v2 compact_endpoint : Implementation

-- `EffectiveCapabilitySnapshot`
pub record Snapshot : Type 0 where
  pub model_id : String
  pub model : Fields
  pub bridge_capabilities : List String
  pub contract : Websocket
  pub provider_supports_websockets : Bool
  pub tools : ToolCapability
  pub shell_bounded : Availability
  pub shell_sessions : Availability
  pub session_surface : SessionSurface
  pub apply_patch : Availability
  pub view_image : Availability
  pub image_generation : Availability
  pub web_search : Availability
  pub manual : Availability
  pub automatic : Availability
  pub model_threshold : Option ℕ
  pub threshold : Option ℕ
  pub implementation : Option Implementation
  pub transport : Availability

-- `[...new Set(capabilities)]`: the first of each.
unfoldable pub distinct : List String → List String → List String
distinct seen [] = []
distinct seen (s ∷ ss) = elim (mem_text s seen) [
  | true ↦ distinct seen ss
  | false ↦ s ∷ distinct (s ∷ seen) ss
]

abbrev pub identity_error {ℓ} : {A : Type ℓ} → Answer A
identity_error = thrown plain_error "Verified bridge capability identity is unavailable"

unfoldable pub capability_list : Value → Answer (List String)
unfolding distinct
capability_list (array vs) =
    if all is_filled (items vs) then returned (distinct [] (texts (items vs))) else identity_error
capability_list _ = identity_error

abbrev pub listed_in : Option Fields → Answer (List String)
listed_in none = thrown plain_error "Verified bridge diagnostics are unavailable"
listed_in (some fs) = capability_list (get "capabilities" fs)

unfoldable pub parse_bridge_capabilities : Value → Answer (List String)
unfolding capability_list get
parse_bridge_capabilities v = listed_in (as_record v)

abbrev pub is_auto : AutoOrOff → Bool
is_auto AutoOrOff.auto = true
is_auto AutoOrOff.off = false

abbrev pub is_off : CompactionConfig → Bool
is_off CompactionConfig.off = true
is_off (CompactionConfig.auto limit) = false

abbrev pub is_image_tool : String → Bool
is_image_tool name = str_eq name "view_image" || str_eq name "image_gen.imagegen"

abbrev pub names_or_managed : Option (List String) → List String
names_or_managed none = managed_tool_names
names_or_managed (some names) = names

unfoldable pub allowed_names : Input → List String
allowed_names i =
    if mem_text "image" i.model_input_modalities
    then names_or_managed i.host_tool_names
    else keep (λ name. not (is_image_tool name)) (names_or_managed i.host_tool_names)

unfoldable pub build_tools_resolve_params : Input → List String → ModelCapability → ToolsParams
unfolding allowed_names complete_provider_contract
build_tools_resolve_params i bridge m = record {
  model = m.model;
  allowed_local_tool_names = allowed_names i;
  web_search_mode = i.config.codex.web_search;
  contract = complete_provider_contract i.provider_id;
  standalone_executor_available = mem_text "standalone_web_search" bridge;
  sessions_enabled = i.config.tools.background_sessions && mem_text "unified_exec" bridge;
  session_executor_available = mem_text "unified_exec" bridge;
  view_image = is_auto i.config.tools.optional.view_image && mem_text "view_image" bridge;
  image_generation =
      is_auto i.config.tools.optional.image_generation && mem_text "image_generation" bridge;
}

abbrev pub is_available : Availability → Bool
is_available (available s) = true
is_available _ = false

unfoldable pub require_bridge : Availability → List String → String → Availability
require_bridge a bridge capability =
    if is_available a && not (mem_text capability bridge)
    then Availability.unavailable (capability <> "_executor_unavailable")
    else a

unfoldable pub require_either_bridge : Availability → List String → String → String → Availability
require_either_bridge a bridge first second =
    if is_available a && (not (mem_text first bridge) && not (mem_text second bridge))
    then Availability.unavailable "web_search_executor_unavailable"
    else a

abbrev pub limit_of : TokenLimit → Option ℕ → Option ℕ
limit_of model m = m
limit_of (tokens n) m = some n

abbrev pub is_past : ℕ → Option Number → Bool
is_past n none = false
is_past n (some window) = reaches n window

-- A limit that is 0 or does not lie below the context window is none.
abbrev pub usable : Option ℕ → Option Number → Option ℕ
usable none window = none
usable (some n) window = if leb n 0 || is_past n window then none else some n

unfoldable pub resolve_threshold : CompactionConfig → Option ℕ → Option Number → Option ℕ
resolve_threshold CompactionConfig.off m window = none
resolve_threshold (CompactionConfig.auto limit) m window = usable (limit_of limit m) window

unfoldable pub implementation_of : List String → Option Implementation
implementation_of bridge =
    if mem_text "remote_compaction_v2" bridge
    then some remote_v2
    else if mem_text "compact_endpoint" bridge
    then some compact_endpoint
    else none

unfoldable pub manual_compaction : CompactionConfig → Option Implementation → Availability
manual_compaction c o =
    if is_off c
    then Availability.disabled "disabled_by_configuration"
    else if is_none o
    then Availability.unavailable "compaction_executor_unavailable"
    else available provider_contract

unfoldable pub automatic_compaction : Availability → Option ℕ → Availability
automatic_compaction manual threshold =
    if not (is_available manual)
    then manual
    else if is_none threshold
    then Availability.unavailable "auto_compact_threshold_unavailable"
    else available Source.official

abbrev pub shell_executor : ShellSurface → Option String
shell_executor unified_exec = some "unified_exec"
shell_executor shell_command = some "shell_command"
shell_executor ShellSurface.disabled = none

unfoldable pub bounded_shell : ShellSurface → List String → Availability
bounded_shell surface bridge = elim (shell_executor surface) [
  | none ↦ Availability.unavailable "model_shell_disabled"
  | some executor ↦
      if mem_text executor bridge
      then available Source.official
      else Availability.unavailable "shell_executor_unavailable"
]

abbrev pub is_official : Websocket → Bool
is_official official_only = true
is_official none_offered = false

-- The snapshot of what the runtime has answered.
unfoldable pub snapshot_of : Input → List String → ModelCapability → ToolCapability → Snapshot
unfolding complete_provider_contract require_bridge require_either_bridge resolve_threshold
    implementation_of manual_compaction automatic_compaction bounded_shell
snapshot_of i bridge m t =
    let missing = i.config.tools.background_sessions && not (mem_text "unified_exec" bridge) in
    let implementation = implementation_of bridge in
    let manual = manual_compaction i.config.codex.compaction implementation in
    let threshold =
      resolve_threshold i.config.codex.compaction m.auto_compact_token_limit i.context_window in
    record {
      model_id = i.model_id;
      model = m.model;
      bridge_capabilities = bridge;
      contract = complete_provider_contract i.provider_id;
      provider_supports_websockets =
          is_official (complete_provider_contract i.provider_id)
          && (mem_text "responses_websocket" bridge && str_eq i.provider_id "openai-codex");
      tools = t;
      shell_bounded = bounded_shell t.shell_surface bridge;
      shell_sessions =
          if missing
          then Availability.unavailable "session_executor_unavailable"
          else t.capabilities.sessions;
      session_surface = if missing then SessionSurface.unavailable else t.session_surface;
      apply_patch = require_bridge t.capabilities.apply_patch bridge "apply_patch";
      view_image = require_bridge t.capabilities.view_image bridge "view_image";
      image_generation = require_bridge t.capabilities.image_generation bridge "image_generation";
      web_search =
          require_either_bridge t.capabilities.web_search bridge "standalone_web_search"
            "hosted_web_search";
      manual = manual;
      automatic = automatic_compaction manual threshold;
      model_threshold = m.auto_compact_token_limit;
      threshold = threshold;
      implementation = implementation;
      transport =
          if mem_text "responses_sse" bridge
          then available provider_contract
          else Availability.unavailable "responses_sse_executor_unavailable";
    }

-- `#resolve`
unfoldable pub resolve : Runtime → Input → Answer Snapshot
unfolding parse_bridge_capabilities parse_model_resolution parse_tool_resolution
    build_tools_resolve_params snapshot_of
resolve r i = do
  diagnostics ← r.read_diagnostics
  bridge ← parse_bridge_capabilities diagnostics
  metadata ← r.resolve_model i.model_id
  m ← parse_model_resolution metadata i.model_id
  answer ← r.resolve_tools (build_tools_resolve_params i bridge m)
  t ← parse_tool_resolution answer
  returned (snapshot_of i bridge m t)

abbrev pub is_reachable : SessionSurface → Bool
is_reachable SessionSurface.unavailable = false
is_reachable _ = true

abbrev pub uses : Implementation → Option Implementation → Bool
uses remote_v2 (some remote_v2) = true
uses compact_endpoint (some compact_endpoint) = true
uses _ _ = false

abbrev pub number_of : Option ℕ → Option Number
number_of none = none
number_of (some n) = some (pos n)

unfoldable pub capability_context_from_snapshot : Snapshot → Option Number → CapabilityContext
capability_context_from_snapshot s window = record {
  context_window = window;
  model_auto_compact_token_limit = some (number_of s.model_threshold);
  bridge_capabilities = some s.bridge_capabilities;
  shell_surface = some s.tools.shell_surface;
  provider_supports_websockets = some s.provider_supports_websockets;
  remote_compaction_v2 = some (uses remote_v2 s.implementation);
  compact_endpoint = some (uses compact_endpoint s.implementation);
  background_sessions_available =
      some (mem_text "unified_exec" s.bridge_capabilities && is_reachable s.session_surface);
  view_image_available = some (is_available s.view_image);
  image_generation_available = some (is_available s.image_generation);
  web_search_available = some (is_available s.web_search);
  manual_compaction_available = some (is_available s.manual);
  transport_available = some (is_available s.transport);
}
