-- ===== src/Provider/Activation.antt =====
-- src/domain/provider-activation.ts and src/application/provider-activation.ts.
use pi_codex_adaptor.Prelude.{
  String, Bool, true, false, not, Option, none, some, List, [], ◌∷◌, mem_text, if◌then◌else◌,
}
use pi_codex_adaptor.Config.Schema.{CodexConfig, create_default_config}

-- `CODEX_PI_APIS`
abbrev pub codex_pi_apis : List String
codex_pi_apis = "openai-responses" ∷ "openai-codex-responses" ∷ []

pub record Model : Type 0 where
  pub provider : String
  pub api : String

pub data Reason : Type 0 where
  no_model provider_not_selected unsupported_pi_api : Reason

-- `ProviderActivationDecision`
pub data Decision : Type 0 where
  active : Decision
  inactive : Reason → Decision

unfoldable pub is_codex_pi_api : String → Bool
is_codex_pi_api api = mem_text api codex_pi_apis

-- The configuration is read for `activation.providers` alone.
unfoldable pub is_provider_selected : String → List String → Bool
is_provider_selected provider providers = mem_text provider providers

unfoldable pub resolve_provider_activation : Option Model → List String → Decision
unfolding is_codex_pi_api is_provider_selected
resolve_provider_activation none providers = inactive no_model
resolve_provider_activation (some m) providers =
    if not (is_provider_selected m.provider providers)
    then inactive provider_not_selected
    else if not (is_codex_pi_api m.api)
    then inactive unsupported_pi_api
    else active

-- `ProviderActivationPolicy`: the providers, and whether it listens to the configuration.
pub record Policy : Type 0 where
  pub providers : List String
  pub subscribed : Bool

unfoldable pub new_policy : Bool → Policy
new_policy has_on_change = record {
  providers = create_default_config.activation.providers;
  subscribed = has_on_change;
}

abbrev pub replace : CodexConfig → Policy → Policy
replace config p = record p { providers = config.activation.providers }

-- The configuration calls its listeners.
unfoldable pub on_change : CodexConfig → Policy → Policy
on_change config p = if p.subscribed then replace config p else p

-- What `load` gives; none where it throws.
unfoldable pub refresh : Option CodexConfig → Policy → Policy
refresh none p = p
refresh (some config) p = replace config p

unfoldable pub dispose : Policy → Policy
dispose p = record p { subscribed = false }

unfoldable pub decision : Option Model → Policy → Decision
unfolding resolve_provider_activation
decision m p = resolve_provider_activation m p.providers

abbrev pub is_active_decision : Decision → Bool
is_active_decision active = true
is_active_decision (inactive reason) = false

unfoldable pub is_active : Option Model → Policy → Bool
unfolding decision
is_active m p = is_active_decision (decision m p)
