-- ===== src/Config/Context.antt =====
-- `ConfigCapabilityContext` of src/domain/config.ts and the tests that the save gate and the
-- settings view share.
use pi_codex_adaptor.Prelude.{
  String, Bool, true, false, not, ◌&&◌, Option, none, some, List, mem_text,
}
use pi_codex_adaptor.Value.{Number}
use pi_codex_adaptor.Config.Schema.{ShellSurface}

pub record CapabilityContext : Type 0 where
  pub context_window : Option Number
  -- `some none` is null: the metadata has no limit.
  pub model_auto_compact_token_limit : Option (Option Number)
  pub bridge_capabilities : Option (List String)
  pub shell_surface : Option ShellSurface
  pub provider_supports_websockets : Option Bool
  pub remote_compaction_v2 : Option Bool
  pub compact_endpoint : Option Bool
  pub background_sessions_available : Option Bool
  pub view_image_available : Option Bool
  pub image_generation_available : Option Bool
  pub web_search_available : Option Bool
  pub manual_compaction_available : Option Bool
  pub transport_available : Option Bool

-- `{}`, the default: nothing is known, and nothing is constrained.
abbrev pub empty_context : CapabilityContext
empty_context = record {
  context_window = none;
  model_auto_compact_token_limit = none;
  bridge_capabilities = none;
  shell_surface = none;
  provider_supports_websockets = none;
  remote_compaction_v2 = none;
  compact_endpoint = none;
  background_sessions_available = none;
  view_image_available = none;
  image_generation_available = none;
  web_search_available = none;
  manual_compaction_available = none;
  transport_available = none;
}

-- `value === false`
abbrev pub is_false : Option Bool → Bool
is_false (some false) = true
is_false _ = false

-- `value === true`
abbrev pub is_true : Option Bool → Bool
is_true (some true) = true
is_true _ = false

-- `value === undefined`
abbrev pub is_undefined {ℓ} : {A : Type ℓ} → Option A → Bool
is_undefined none = true
is_undefined (some a) = false

-- `context.modelAutoCompactTokenLimit === null`
abbrev pub is_null : Option (Option Number) → Bool
is_null (some none) = true
is_null _ = false

-- `capabilities !== undefined && !capabilities.has(name)`
unfoldable pub lacks : Option (List String) → String → Bool
lacks none name = false
lacks (some names) name = not (mem_text name names)

-- Neither of two capabilities is advertised.
unfoldable pub lacks_both : Option (List String) → String → String → Bool
unfolding lacks
lacks_both names a b = lacks names a && lacks names b
