-- ===== src/Config/RoundTrip.antt =====
-- A valid configuration survives being written and read: `parseConfig` of src/domain/config.ts
-- gives back the configuration from its JSON value.
use pi_codex_adaptor.Prelude.{◌≡◌, refl, false, some, List, [], ◌∷◌, String, All, any, arith, codes}
use pi_codex_adaptor.Value.{text, array_of_texts, items, texts, get, has_own, keys}
use pi_codex_adaptor.Config.Schema.{
  AutoOrOff, ServiceTier, default, priority, flex, Verbosity, low, medium, high, TransportMode, sse,
  WebSearchMode, cached, indexed, live, ApprovalPolicy, on_request, never, FilesystemAccessPolicy,
  workspace, unrestricted, model, tokens, CompactionConfig, Activation, Tools, Security, Codex, Ui,
  CodexConfig,
}
use pi_codex_adaptor.Config.Issues.{◌>>=◌, pure, as_object, exact_keys, enum_value, boolean_value}
use pi_codex_adaptor.Config.Parse.{
  rejects_provider, parse_providers, parse_provider_array, parse_activation, parse_tools,
  parse_security, nested_mode, token_limit, parse_compaction, parse_codex, parse_ui, schema_version,
  parse_config, ok, auto_or_off, approval_policies, filesystem_access_policies, service_tiers,
  verbosities, transport_modes, web_search_modes,
}
use pi_codex_adaptor.Config.Encode.{
  encode_activation, encode_tools, auto_or_off_text, service_tier_text, verbosity_text,
  transport_text, web_search_text, approval_text, access_text, single, encode_security,
  encode_compaction, encode_codex, encode_ui, encode_config,
}
use pi_codex_adaptor.Config.Valid.{
  IsProviderId, is_bad_provider_iff, has_duplicates_iff, IsActivation, IsLimit, IsValid,
}

texts-array_of_texts : (ss : List String) → texts (items (array_of_texts ss)) ≡ ss
unfolding texts items array_of_texts
texts-array_of_texts [] = refl
texts-array_of_texts (s ∷ ss) = ground (arith, texts-array_of_texts ss)

items-array_of_texts : (ss : List String) → items (array_of_texts ss) ≡ [] → ss ≡ []
unfolding items array_of_texts
items-array_of_texts [] e = refl
items-array_of_texts (s ∷ ss) e = absurd (cc)

any-rejects_provider-array_of_texts :
    (ss : List String)
    → All IsProviderId ss
    → any rejects_provider (items (array_of_texts ss)) ≡ false
unfolding items array_of_texts rejects_provider
any-rejects_provider-array_of_texts [] h = refl
any-rejects_provider-array_of_texts (s ∷ ss) h =
    ground
      (arith, (is_bad_provider_iff (codes s)).1 h.0, any-rejects_provider-array_of_texts ss h.1)

parse_providers-array_of_texts :
    (a : Activation)
    → IsActivation a
    → parse_providers (items (array_of_texts a.providers)) ≡ pure (some a)
unfolding parse_providers
parse_providers-array_of_texts a h =
    rw
      (
        any-rejects_provider-array_of_texts a.providers h.provider_ids,
        texts-array_of_texts a.providers,
        (has_duplicates_iff a.providers).1 h.unique,
      )
      (ground (arith, items-array_of_texts a.providers))

parse_activation-encode :
    (a : Activation) → IsActivation a → parse_activation (encode_activation a) ≡ pure (some a)
unfolding parse_activation as_object exact_keys get has_own keys parse_provider_array ◌>>=◌
parse_activation-encode a h = rw (parse_providers-array_of_texts a h)

-- Each literal of an enumeration is read back.
auto_or_off-encode :
    (a : AutoOrOff) (path : String)
    → enum_value (text (auto_or_off_text a)) auto_or_off path ≡ pure (some a)
unfolding enum_value
auto_or_off-encode AutoOrOff.auto path = refl
auto_or_off-encode AutoOrOff.off path = refl

approval_policy-encode :
    (a : ApprovalPolicy) (path : String)
    → enum_value (text (approval_text a)) approval_policies path ≡ pure (some a)
unfolding enum_value
approval_policy-encode on_request path = refl
approval_policy-encode never path = refl

access_policy-encode :
    (a : FilesystemAccessPolicy) (path : String)
    → enum_value (text (access_text a)) filesystem_access_policies path ≡ pure (some a)
unfolding enum_value
access_policy-encode workspace path = refl
access_policy-encode unrestricted path = refl

service_tier-encode :
    (a : ServiceTier) (path : String)
    → enum_value (text (service_tier_text a)) service_tiers path ≡ pure (some a)
unfolding enum_value
service_tier-encode default path = refl
service_tier-encode priority path = refl
service_tier-encode flex path = refl

verbosity-encode :
    (a : Verbosity) (path : String)
    → enum_value (text (verbosity_text a)) verbosities path ≡ pure (some a)
unfolding enum_value
verbosity-encode low path = refl
verbosity-encode medium path = refl
verbosity-encode high path = refl

nested_transport-encode :
    (a : TransportMode) (path : String)
    → nested_mode (single "mode" (text (transport_text a))) transport_modes path ≡ pure (some a)
unfolding nested_mode as_object exact_keys get has_own keys ◌>>=◌ enum_value
nested_transport-encode TransportMode.auto path = refl
nested_transport-encode sse path = refl

nested_web_search-encode :
    (a : WebSearchMode) (path : String)
    → nested_mode (single "mode" (text (web_search_text a))) web_search_modes path ≡ pure (some a)
unfolding nested_mode as_object exact_keys get has_own keys ◌>>=◌ enum_value
nested_web_search-encode WebSearchMode.disabled path = refl
nested_web_search-encode cached path = refl
nested_web_search-encode indexed path = refl
nested_web_search-encode live path = refl

parse_tools-encode : (t : Tools) → parse_tools (encode_tools t) ≡ pure (some t)
unfolding parse_tools as_object exact_keys get has_own keys ◌>>=◌ boolean_value
parse_tools-encode t = simp auto_or_off-encode

parse_security-encode : (s : Security) → parse_security (encode_security s) ≡ pure (some s)
unfolding parse_security as_object exact_keys get has_own keys ◌>>=◌
parse_security-encode s = simp (approval_policy-encode, access_policy-encode)

parse_compaction-encode :
    (c : CompactionConfig) → IsLimit c → parse_compaction (encode_compaction c) ≡ pure (some c)
unfolding parse_compaction as_object exact_keys get has_own keys ◌>>=◌ enum_value token_limit
parse_compaction-encode CompactionConfig.off h = refl
parse_compaction-encode (CompactionConfig.auto model) h = refl
parse_compaction-encode (CompactionConfig.auto (tokens n)) h = ground arith

parse_codex-encode :
    (c : Codex) → IsLimit c.compaction → parse_codex (encode_codex c) ≡ pure (some c)
unfolding parse_codex as_object exact_keys get has_own keys ◌>>=◌
parse_codex-encode c h = simp (
  service_tier-encode,
  verbosity-encode,
  nested_transport-encode,
  nested_web_search-encode,
  parse_compaction-encode c.compaction h,
)

parse_ui-encode : (u : Ui) → parse_ui (encode_ui u) ≡ pure (some u)
unfolding parse_ui as_object exact_keys get has_own keys ◌>>=◌ boolean_value
parse_ui-encode u = refl

-- Every valid configuration is accepted again from its JSON value, unchanged.
pub parse_config-encode_config :
    (c : CodexConfig) → IsValid c → parse_config (encode_config c) ≡ ok c
unfolding parse_config schema_version as_object exact_keys get has_own keys ◌>>=◌
parse_config-encode_config c h = simp (
  parse_activation-encode c.activation h.activation,
  parse_tools-encode,
  parse_security-encode,
  parse_codex-encode c.codex h.limit,
  parse_ui-encode,
)
