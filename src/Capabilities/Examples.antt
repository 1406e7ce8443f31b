-- ===== src/Capabilities/Examples.antt =====
-- The theorems on the effective capabilities, with a runtime that answers fully.
use pi_codex_adaptor.Prelude.{◌≡◌, refl, String, none, some, List, [], ◌∷◌, ◌∙◌, ap}
use pi_codex_adaptor.Value.{
  Value, text, number, pos, array, object, Fields, end, field, Items, nil, cons, items, texts,
}
use pi_codex_adaptor.Config.Schema.{CodexConfig, create_default_config, unified_exec, priority}
use pi_codex_adaptor.Config.Encode.{encode_config}
use pi_codex_adaptor.Config.Parse.{Result, ok, err, parse_config, has_duplicates}
use pi_codex_adaptor.ToolProfile.Names.{is_managed, managed_tool_names}
use pi_codex_adaptor.Config.RoundTrip.{parse_config-encode_config}
use pi_codex_adaptor.Config.Save.{
  gate, route_issues, issue_if, limit_issues, compaction_issues, transport_issues,
  web_search_issues, collect_capability_issues, validate_config_for_save,
}
use pi_codex_adaptor.Config.Context.{CapabilityContext}
use pi_codex_adaptor.Storage.Creating.{create_default_config-IsValid}
use pi_codex_adaptor.Capabilities.Metadata.{
  returned, Availability, available, Source, ModelCapability, ToolCapability, SessionSurface,
  WebSurface, ImageSurface, parse_model_resolution, parse_tool_resolution,
}
use pi_codex_adaptor.Capabilities.Resolve.{
  Runtime, Input, Snapshot, parse_bridge_capabilities, snapshot_of, resolve,
  capability_context_from_snapshot,
}
use pi_codex_adaptor.Capabilities.Backed.{IsBacked, resolve-IsBacked}
use pi_codex_adaptor.Capabilities.Keyed.{capability_cache_key, resolve-capability_cache_key}
use pi_codex_adaptor.Capabilities.Saved.{IsRunnable, validate_config_for_save-IsRunnable}

abbrev bridge_names : List String
bridge_names = "unified_exec" ∷ "responses_sse" ∷ "hosted_web_search" ∷ "compact_endpoint" ∷ []

abbrev official : Value
official = object (field "status" (text "available") (field "source" (text "official") end))

abbrev model_fields : Fields
model_fields = field "slug" (text "gpt") end

abbrev empty_array : Value
empty_array = array nil

abbrev evidence_value : Value
evidence_value = object (
    field "sessions" official (
      field "applyPatch" official (
        field "viewImage" official
          (field "imageGeneration" official (field "webSearch" official end)))))

abbrev tools_value : Value
tools_value = object (
    field "capabilities" evidence_value (
      field "modelTools" empty_array (
        field "dispatchTools" empty_array (
          field "localToolNames" (array (cons (text "exec_command") nil)) (
            field "hostedToolNames" empty_array (
              field "shellSurface" (text "unified-exec") (
                field "sessionSurface" (text "official") (
                  field "webSurface" (text "hosted")
                    (field "imageGenerationSurface" (text "disabled") end)))))))))

abbrev names_value : Items
names_value = cons (text "unified_exec") (
    cons (text "responses_sse")
      (cons (text "hosted_web_search") (cons (text "compact_endpoint") nil)))

abbrev full_runtime : Runtime
full_runtime = record {
  read_diagnostics = returned (object (field "capabilities" (array names_value) end));
  resolve_model = λ id. returned (
      object (
        field "model" (object model_fields) (
          field "shellSurface" (text "unified-exec")
            (field "autoCompactTokenLimit" (number (pos 200000)) end))));
  resolve_tools = λ params. returned tools_value;
}

abbrev sample_input : Input
sample_input = record {
  model_id = "gpt";
  provider_id = "openai-codex";
  model_input_modalities = "text" ∷ [];
  config = create_default_config;
  context_window = some (pos 272000);
  host_tool_names = none;
}

abbrev sample_model : ModelCapability
sample_model = record {
  model = model_fields;
  shell_surface = unified_exec;
  auto_compact_token_limit = some 200000;
}

abbrev by_source : Availability
by_source = available Source.official

abbrev sample_tools : ToolCapability
sample_tools = record {
  model_tools = [];
  dispatch_tools = [];
  local_tool_names = "exec_command" ∷ [];
  hosted_tool_names = [];
  shell_surface = unified_exec;
  session_surface = SessionSurface.official;
  web_surface = WebSurface.hosted;
  image_generation_surface = ImageSurface.disabled;
  capabilities = record {
    sessions = by_source;
    apply_patch = by_source;
    view_image = by_source;
    image_generation = by_source;
    web_search = by_source;
  };
}

abbrev sample_snapshot : Snapshot
sample_snapshot = snapshot_of sample_input bridge_names sample_model sample_tools

resolved : resolve full_runtime sample_input ≡ returned sample_snapshot
unfolding resolve parse_bridge_capabilities parse_model_resolution parse_tool_resolution items
    has_duplicates texts is_managed
resolved = refl

resolve-IsBacked_example : IsBacked sample_input sample_snapshot
resolve-IsBacked_example = resolve-IsBacked full_runtime sample_input sample_snapshot resolved

quiet :
    collect_capability_issues create_default_config
      (capability_context_from_snapshot sample_snapshot (some (pos 272000)))
    ≡ []
unfolding collect_capability_issues capability_context_from_snapshot snapshot_of
    create_default_config route_issues issue_if limit_issues compaction_issues transport_issues
    web_search_issues
quiet = refl

saves :
    (v : Value) (context : CapabilityContext) (c : CodexConfig)
    → parse_config v ≡ ok c
    → collect_capability_issues c context ≡ []
    → validate_config_for_save v context ≡ ok c
unfolding validate_config_for_save
saves v context c e q =
    ap
      (λ (r : Result CodexConfig). elim r [
        | err issues ↦ err issues
        | ok config ↦ gate config (collect_capability_issues config context)
      ])
      e
    ∙ ap (gate c) q

accepted :
    validate_config_for_save
      (encode_config create_default_config)
      (capability_context_from_snapshot sample_snapshot (some (pos 272000)))
    ≡ ok create_default_config
accepted =
    saves _ _ _ (parse_config-encode_config create_default_config create_default_config-IsValid)
      quiet

validate_config_for_save-IsRunnable_example : IsRunnable create_default_config sample_snapshot
validate_config_for_save-IsRunnable_example =
    validate_config_for_save-IsRunnable full_runtime sample_input sample_snapshot
      (some (pos 272000)) (encode_config create_default_config) create_default_config resolved
      accepted

-- The same but for the service tier, and with the host's tools written out.
abbrev other_input : Input
other_input = record sample_input {
  config = record create_default_config {
    codex = record create_default_config.codex { service_tier = priority };
  };
  host_tool_names = some managed_tool_names;
}

same_key : capability_cache_key sample_input ≡ capability_cache_key other_input
unfolding capability_cache_key create_default_config
same_key = refl

resolve-capability_cache_key_example :
    resolve full_runtime sample_input ≡ resolve full_runtime other_input
resolve-capability_cache_key_example =
    resolve-capability_cache_key full_runtime sample_input other_input refl refl same_key
