-- ===== src/Config/Save.antt =====
-- `validateConfigForSave` and `collectCapabilityIssues` of src/domain/config.ts: the gate that a
-- draft passes before it is stored.
use pi_codex_adaptor.Prelude.{
  ℕ, String, Bool, false, not, ◌&&◌, ◌||◌, Option, none, some, List, [], ◌∷◌, ◌++◌, if◌then◌else◌,
}
use pi_codex_adaptor.Value.{Value, Number, reaches, is_safe_integer, is_positive}
use pi_codex_adaptor.Config.Schema.{model, tokens, CompactionConfig, CodexConfig}
use pi_codex_adaptor.Config.Issues.{
  ConfigurationIssue, IssueCode, invalid_value, unsupported_capability, capability_unavailable,
}
use pi_codex_adaptor.Config.Parse.{Result, ok, err, parse_config}
use pi_codex_adaptor.Config.Context.{
  CapabilityContext, is_false, is_undefined, is_null, lacks, lacks_both,
}
use pi_codex_adaptor.Config.Evaluate.{is_sse, is_search_disabled, is_auto}

-- `if (test) issue(issues, path, code, message)`
unfoldable pub issue_if : Bool → String → IssueCode → String → List ConfigurationIssue
issue_if test path code message =
    if test then record { path = path; code = code; message = message } ∷ [] else []

-- The routes that the runtime has found to be missing.
unfoldable pub route_issues : CodexConfig → CapabilityContext → List ConfigurationIssue
route_issues config context =
    issue_if (config.tools.background_sessions && is_false context.background_sessions_available)
      "tools.backgroundSessions" capability_unavailable
      "Unavailable: the model and bridge do not provide a complete managed-session route"
    ++ (issue_if
          (not (is_search_disabled config.codex.web_search)
            && is_false context.web_search_available)
          "codex.webSearch.mode" capability_unavailable
          "Unavailable: no complete web search route exists"
        ++ (issue_if
              (is_auto config.codex.compaction && is_false context.manual_compaction_available)
              "codex.compaction.mode" capability_unavailable
              "Unavailable: no complete compaction route exists"
            ++ issue_if (is_false context.transport_available) "codex.transport.mode"
                capability_unavailable "Unavailable: no complete Responses transport route exists"))

-- `!Number.isSafeInteger(window) || window <= 0 || limit >= window`; a safe integer that is not
-- positive is at most 0.
abbrev pub misfits_window : ℕ → Option Number → Bool
misfits_window n none = false
misfits_window n (some window) =
    not (is_safe_integer window) || not (is_positive window) || reaches n window

unfoldable pub limit_issues : CompactionConfig → CapabilityContext → List ConfigurationIssue
limit_issues CompactionConfig.off context = []
limit_issues (CompactionConfig.auto (tokens n)) context =
    issue_if (misfits_window n context.context_window) "codex.compaction.autoCompactTokenLimit"
      invalid_value "must be a positive integer below the model context window"
limit_issues (CompactionConfig.auto model) context =
    issue_if (is_null context.model_auto_compact_token_limit)
      "codex.compaction.autoCompactTokenLimit" capability_unavailable
      "Unavailable: model metadata has no auto-compact limit"

unfoldable pub compaction_issues : CodexConfig → CapabilityContext → List ConfigurationIssue
compaction_issues config context =
    let capabilities = context.bridge_capabilities in
    issue_if
      (is_auto config.codex.compaction
        && is_undefined context.manual_compaction_available
        && lacks_both capabilities "remote_compaction_v2" "compact_endpoint")
      "codex.compaction.mode" unsupported_capability
      "Unavailable: bridge does not advertise an official compaction path"
    ++ issue_if
        (is_auto config.codex.compaction
          && is_undefined context.manual_compaction_available
          && is_false context.remote_compaction_v2
          && is_false context.compact_endpoint
          && not (lacks_both capabilities "remote_compaction_v2" "compact_endpoint"))
        "codex.compaction.mode" unsupported_capability
        "Unavailable: provider has no official compaction path"

unfoldable pub transport_issues : CodexConfig → CapabilityContext → List ConfigurationIssue
transport_issues config context =
    let capabilities = context.bridge_capabilities in
    let undecided = is_undefined context.transport_available in
    issue_if
      (not (is_sse config.codex.transport)
        && undecided
        && is_false context.provider_supports_websockets
        && lacks capabilities "responses_sse")
      "codex.transport.mode" unsupported_capability
      "Unavailable: neither WebSocket nor SSE transport is available"
    ++ (issue_if
          (not (is_sse config.codex.transport)
            && undecided
            && not (is_false context.provider_supports_websockets)
            && lacks_both capabilities "responses_websocket" "responses_sse")
          "codex.transport.mode" unsupported_capability
          "Unavailable: neither WebSocket nor SSE transport is available"
        ++ issue_if
            (is_sse config.codex.transport && undecided && lacks capabilities "responses_sse")
            "codex.transport.mode" unsupported_capability
            "Unavailable: bridge does not advertise responses_sse")

unfoldable pub web_search_issues : CodexConfig → CapabilityContext → List ConfigurationIssue
web_search_issues config context =
    issue_if
      (not (is_search_disabled config.codex.web_search)
        && is_undefined context.web_search_available
        && lacks_both context.bridge_capabilities "standalone_web_search" "hosted_web_search")
      "codex.webSearch.mode" unsupported_capability
      "Unavailable: bridge does not advertise a web search surface"

unfoldable pub collect_capability_issues : CodexConfig → CapabilityContext → List ConfigurationIssue
collect_capability_issues config context =
    route_issues config context
    ++ (limit_issues config.codex.compaction context
        ++ (compaction_issues config context
            ++ (transport_issues config context ++ web_search_issues config context)))

abbrev pub gate : CodexConfig → List ConfigurationIssue → Result CodexConfig
gate config [] = ok config
gate config (i ∷ issues) = err (i ∷ issues)

unfoldable pub validate_config_for_save : Value → CapabilityContext → Result CodexConfig
validate_config_for_save v context = elim (parse_config v) [
  | err issues ↦ err issues
  | ok config ↦ gate config (collect_capability_issues config context)
]
