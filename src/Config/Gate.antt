-- ===== src/Config/Gate.antt =====
-- The save gate of src/domain/config.ts against its settings view.
use pi_codex_adaptor.Prelude.{
  ℕ, ◌<◌, ◌≤◌, String, Bool, true, false, ◌&&◌, ◌≡◌, refl, Option, none, some, List, [], All,
  All-append, arith, str_eq, any,
}
use pi_codex_adaptor.Value.{Value, Number, pos, max_safe_integer}
use pi_codex_adaptor.Config.Schema.{CodexConfig, CompactionConfig, model, tokens}
use pi_codex_adaptor.Config.Issues.{ConfigurationIssue, IssueCode}
use pi_codex_adaptor.Config.Parse.{parse_config}
use pi_codex_adaptor.Config.Context.{CapabilityContext, empty_context, lacks, lacks_both}
use pi_codex_adaptor.Config.Evaluate.{
  SettingAvailability, unsupported, SettingEvaluation, evaluate_background_sessions,
  evaluate_optional_tool, evaluate_transport, evaluate_web_search, evaluate_compaction,
  evaluate_auto_compact_token_limit, evaluate_config_settings, is_auto, reaches_window,
}
use pi_codex_adaptor.Config.Save.{
  route_issues, limit_issues, compaction_issues, transport_issues, web_search_issues,
  collect_capability_issues, validate_config_for_save, issue_if, misfits_window,
}

abbrev is_unsupported : SettingAvailability → Bool
is_unsupported (unsupported reason) = true
is_unsupported _ = false

-- The view shows the setting at the path as unsupported.
abbrev pub shows_unsupported : String → List SettingEvaluation → Bool
shows_unsupported path evaluations =
    any (λ e. str_eq e.path path && is_unsupported e.availability) evaluations

-- A context window, if known, is a positive safe integer.
abbrev pub IsWindow : Option Number → Type 0
IsWindow none = Unit
IsWindow (some (pos n)) = (0 < n) × (n ≤ max_safe_integer)
IsWindow (some _) = ⊥

misfits-reaches :
    (n : ℕ) (window : Option Number)
    → IsWindow window
    → misfits_window n window ≡ true
    → reaches_window n window ≡ true
misfits-reaches n none w h = cc
misfits-reaches n (some (pos m)) w h = ground arith
misfits-reaches n (some _) w h = absurd w

All-issue_if :
    (P : ConfigurationIssue → Type 0) (test : Bool) (path : String) (code : IssueCode)
    (message : String)
    → (test ≡ true → P (record { path = path; code = code; message = message }))
    → All P (issue_if test path code message)
unfolding issue_if
All-issue_if P true path code message h = (h refl, tt)
All-issue_if P false path code message h = tt

module _ (config : CodexConfig) (context : CapabilityContext) where
  abbrev Shown : ConfigurationIssue → Type 0
  Shown i = shows_unsupported i.path (evaluate_config_settings config context) ≡ true

  abbrev capabilities : Option (List String)
  capabilities = context.bridge_capabilities

  -- Where a setting stands in the view.
  shown_background :
      is_unsupported (evaluate_background_sessions config context).availability ≡ true
      → shows_unsupported "tools.backgroundSessions" (evaluate_config_settings config context)
        ≡ true
  unfolding evaluate_config_settings evaluate_background_sessions
  shown_background h = rw h

  shown_transport :
      is_unsupported (evaluate_transport config context capabilities).availability ≡ true
      → shows_unsupported "codex.transport.mode" (evaluate_config_settings config context) ≡ true
  unfolding evaluate_config_settings evaluate_background_sessions evaluate_optional_tool
      evaluate_transport
  shown_transport h = rw h

  shown_web_search :
      is_unsupported
          (evaluate_web_search config capabilities context.web_search_available).availability
        ≡ true
      → shows_unsupported "codex.webSearch.mode" (evaluate_config_settings config context) ≡ true
  unfolding evaluate_config_settings evaluate_background_sessions evaluate_optional_tool
      evaluate_transport evaluate_web_search
  shown_web_search h = rw h

  shown_compaction :
      is_unsupported (evaluate_compaction config context capabilities).availability ≡ true
      → shows_unsupported "codex.compaction.mode" (evaluate_config_settings config context) ≡ true
  unfolding evaluate_config_settings evaluate_background_sessions evaluate_optional_tool
      evaluate_transport evaluate_web_search evaluate_compaction
  shown_compaction h = rw h

  shown_limit :
      is_auto config.codex.compaction ≡ true
      → is_unsupported (evaluate_auto_compact_token_limit config context).availability ≡ true
      → shows_unsupported "codex.compaction.autoCompactTokenLimit"
          (evaluate_config_settings config context)
        ≡ true
  unfolding evaluate_config_settings evaluate_background_sessions evaluate_optional_tool
      evaluate_transport evaluate_web_search evaluate_compaction evaluate_auto_compact_token_limit
  shown_limit a h = rw (a, h)

  route_issues-Shown : All Shown (route_issues config context)
  unfolding route_issues issue_if evaluate_background_sessions evaluate_web_search
      evaluate_compaction evaluate_transport
  route_issues-Shown =
      ground (arith, shown_background, shown_web_search, shown_compaction, shown_transport)

  compaction_issues-Shown : All Shown (compaction_issues config context)
  unfolding compaction_issues issue_if evaluate_compaction
  compaction_issues-Shown = ground (arith, shown_compaction)

  transport_issues-Shown : All Shown (transport_issues config context)
  unfolding transport_issues issue_if evaluate_transport
  transport_issues-Shown = ground (arith, shown_transport)

  web_search_issues-Shown : All Shown (web_search_issues config context)
  unfolding web_search_issues issue_if evaluate_web_search
  web_search_issues-Shown = ground (arith, shown_web_search)

  limit_issues-Shown :
      IsWindow context.context_window
      → (c : CompactionConfig) → config.codex.compaction ≡ c
      → All Shown (limit_issues c context)
  unfolding limit_issues issue_if evaluate_auto_compact_token_limit
  limit_issues-Shown w CompactionConfig.off e = tt
  limit_issues-Shown w (CompactionConfig.auto model) e = ground (arith, shown_limit)
  limit_issues-Shown w (CompactionConfig.auto (tokens n)) e =
      ground (arith, shown_limit, misfits-reaches n context.context_window w)

  -- Each issue that refuses a draft at saving stands at a setting that the settings view shows as
  -- unsupported, when the context window, if known, is a positive safe integer.
  pub collect_capability_issues-Shown :
      IsWindow context.context_window
      → All
          (λ i. shows_unsupported i.path (evaluate_config_settings config context) ≡ true)
          (collect_capability_issues config context)
  unfolding collect_capability_issues
  collect_capability_issues-Shown w = All-append Shown _ _ route_issues-Shown (
      All-append Shown _ _ (limit_issues-Shown w _ refl) (
        All-append Shown _ _ compaction_issues-Shown
          (All-append Shown _ _ transport_issues-Shown web_search_issues-Shown)))

collect_capability_issues-empty_context :
    (config : CodexConfig) → collect_capability_issues config empty_context ≡ []
unfolding collect_capability_issues route_issues limit_issues compaction_issues transport_issues
    web_search_issues issue_if lacks lacks_both
collect_capability_issues-empty_context config = ground arith

-- With nothing known of the runtime a draft is saved exactly when it parses.
pub validate_config_for_save-empty_context :
    (v : Value) → validate_config_for_save v empty_context ≡ parse_config v
unfolding validate_config_for_save
validate_config_for_save-empty_context v = grind (arith, collect_capability_issues-empty_context)
