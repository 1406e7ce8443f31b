-- ===== src/Config/Evaluate.antt =====
-- `evaluateConfigSettings` of src/domain/config.ts: what the settings view shows of a setting.
use pi_codex_adaptor.Prelude.{
  ℕ, String, Bool, true, false, not, ◌&&◌, ◌||◌, Option, none, some, List, [], ◌∷◌, ◌++◌,
  if◌then◌else◌,
}
use pi_codex_adaptor.Value.{Number, reaches}
use pi_codex_adaptor.Config.Schema.{
  AutoOrOff, TransportMode, sse, WebSearchMode, ShellSurface, unified_exec, model, tokens,
  CompactionConfig, CodexConfig,
}
use pi_codex_adaptor.Config.Context.{
  CapabilityContext, is_false, is_true, is_undefined, is_null, lacks, lacks_both,
}

pub data SettingAvailability : Type 0 where
  enabled : SettingAvailability
  disabled unsupported : String → SettingAvailability

pub record SettingEvaluation : Type 0 where
  pub path : String
  pub availability : SettingAvailability

abbrev setting : String → SettingAvailability → SettingEvaluation
setting path availability = record { path = path; availability = availability }

abbrev is_unified : Option ShellSurface → Bool
is_unified (some unified_exec) = true
is_unified _ = false

unfoldable pub evaluate_background_sessions : CodexConfig → CapabilityContext → SettingEvaluation
evaluate_background_sessions config context = setting "tools.backgroundSessions" (
    if is_false context.background_sessions_available
    then unsupported "Unavailable: no complete managed-session route exists"
    else if is_true context.background_sessions_available
        || is_undefined context.shell_surface
        || is_unified context.shell_surface
    then if config.tools.background_sessions
      then enabled
      else disabled "Disabled: managed sessions terminate or remain unavailable"
    else unsupported "Unavailable: the current model has no managed-session route")

abbrev is_off : AutoOrOff → Bool
is_off AutoOrOff.off = true
is_off _ = false

unfoldable pub evaluate_optional_tool :
    String → AutoOrOff → Option (List String) → String → String → Option Bool → SettingEvaluation
evaluate_optional_tool path value capabilities capability unsupported_reason available =
    setting path (
      if is_off value
      then disabled "Disabled by configuration"
      else if is_false available
      then unsupported "Unavailable: no complete route exists"
      else if lacks capabilities capability
      then unsupported unsupported_reason
      else enabled)

abbrev pub is_sse : TransportMode → Bool
is_sse sse = true
is_sse _ = false

unfoldable pub evaluate_transport :
    CodexConfig → CapabilityContext → Option (List String) → SettingEvaluation
evaluate_transport config context capabilities = setting "codex.transport.mode" (
    if is_false context.transport_available
    then unsupported "Unavailable: no complete transport exists"
    else if is_sse config.codex.transport
    then if lacks capabilities "responses_sse"
      then unsupported "Unavailable: bridge does not advertise responses_sse"
      else enabled
    else if is_false context.provider_supports_websockets
    then if lacks capabilities "responses_sse"
      then unsupported "Unavailable: neither WebSocket nor SSE transport is available"
      else disabled "WebSocket unavailable for this provider; SSE will be used"
    else if lacks_both capabilities "responses_websocket" "responses_sse"
    then unsupported "Unavailable: bridge does not advertise Responses transport"
    else enabled)

abbrev pub is_search_disabled : WebSearchMode → Bool
is_search_disabled WebSearchMode.disabled = true
is_search_disabled _ = false

unfoldable pub evaluate_web_search :
    CodexConfig → Option (List String) → Option Bool → SettingEvaluation
evaluate_web_search config capabilities available = setting "codex.webSearch.mode" (
    if is_search_disabled config.codex.web_search
    then disabled "Disabled by configuration"
    else if is_false available
    then unsupported "Unavailable: no complete route exists"
    else if lacks_both capabilities "standalone_web_search" "hosted_web_search"
    then unsupported "Unavailable: bridge does not advertise a web search surface"
    else enabled)

abbrev pub is_auto : CompactionConfig → Bool
is_auto (CompactionConfig.auto limit) = true
is_auto CompactionConfig.off = false

unfoldable pub evaluate_compaction :
    CodexConfig → CapabilityContext → Option (List String) → SettingEvaluation
evaluate_compaction config context capabilities = setting "codex.compaction.mode" (
    if not (is_auto config.codex.compaction)
    then disabled "Disabled by configuration"
    else if is_false context.manual_compaction_available
    then unsupported "Unavailable: no complete route exists"
    else if lacks_both capabilities "remote_compaction_v2" "compact_endpoint"
    then unsupported "Unavailable: bridge does not advertise an official compaction path"
    else if is_false context.remote_compaction_v2 && is_false context.compact_endpoint
    then unsupported "Unavailable: provider has no official compaction path"
    else enabled)

-- `typeof context.contextWindow === "number" && limit >= context.contextWindow`
abbrev pub reaches_window : ℕ → Option Number → Bool
reaches_window n none = false
reaches_window n (some window) = reaches n window

unfoldable pub limit_availability : CompactionConfig → CapabilityContext → SettingAvailability
limit_availability CompactionConfig.off context = disabled "Compaction is off"
limit_availability (CompactionConfig.auto model) context =
    if is_null context.model_auto_compact_token_limit
    then unsupported "Unavailable: model metadata has no auto-compact limit"
    else enabled
limit_availability (CompactionConfig.auto (tokens n)) context =
    if reaches_window n context.context_window
    then unsupported "Unavailable: threshold must be below the model context window"
    else enabled

unfoldable pub evaluate_auto_compact_token_limit :
    CodexConfig → CapabilityContext → SettingEvaluation
unfolding limit_availability
evaluate_auto_compact_token_limit config context =
    setting "codex.compaction.autoCompactTokenLimit"
      (limit_availability config.codex.compaction context)

unfoldable pub evaluate_config_settings : CodexConfig → CapabilityContext → List SettingEvaluation
evaluate_config_settings config context =
    let capabilities = context.bridge_capabilities in
    (evaluate_background_sessions config context
      ∷ evaluate_optional_tool "tools.optional.viewImage" config.tools.optional.view_image
          capabilities "view_image" "Unavailable: bridge does not advertise view_image"
          context.view_image_available
      ∷ evaluate_optional_tool "tools.optional.imageGeneration"
          config.tools.optional.image_generation capabilities "image_generation"
          "Unavailable: bridge does not advertise image_generation"
          context.image_generation_available
      ∷ evaluate_transport config context capabilities
      ∷ evaluate_web_search config capabilities context.web_search_available
      ∷ evaluate_compaction config context capabilities
      ∷ [])
    ++ (if is_auto config.codex.compaction
        then evaluate_auto_compact_token_limit config context ∷ []
        else [])
