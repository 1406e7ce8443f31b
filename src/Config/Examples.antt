-- ===== src/Config/Examples.antt =====
-- The theorems on src/domain/config.ts at concrete configurations.
use pi_codex_adaptor.Prelude.{
  true, false, ◌≡◌, refl, some, List, [], ◌∷◌, All, codes, arith, trim, trim_start, is_space,
  utf16_length, codes_eq,
}
use pi_codex_adaptor.Value.{Value, null, pos, object, Fields, end}
use pi_codex_adaptor.Config.Schema.{CodexConfig, create_default_config, CompactionConfig, tokens}
use pi_codex_adaptor.Config.Encode.{encode_config}
use pi_codex_adaptor.Config.Issues.{ConfigurationIssue, IssueCode, as_object, ◌>>=◌}
use pi_codex_adaptor.Config.Parse.{parse_config, ok, err, conclude, is_bad_provider}
use pi_codex_adaptor.Config.Valid.{IsValid, parse_config-IsValid, is_bad_provider_iff}
use pi_codex_adaptor.Config.RoundTrip.{parse_config-encode_config}
use pi_codex_adaptor.Config.Context.{CapabilityContext, empty_context}
use pi_codex_adaptor.Config.Evaluate.{evaluate_config_settings}
use pi_codex_adaptor.Config.Save.{collect_capability_issues}
use pi_codex_adaptor.Config.Gate.{shows_unsupported, collect_capability_issues-Shown}

-- The default configuration with a limit of 200000 tokens.
abbrev limited : CodexConfig
limited = record create_default_config {
  codex = record create_default_config.codex { compaction = CompactionConfig.auto (tokens 200000) };
}

-- A window that the limit does not fit.
abbrev small_window : CapabilityContext
small_window = record empty_context { context_window = some (pos 128000) }

codex_is_good : is_bad_provider (codes "openai-codex") ≡ false
unfolding is_bad_provider trim trim_start is_space utf16_length codes_eq
codex_is_good = refl

limited-IsValid : IsValid limited
unfolding create_default_config
limited-IsValid = record {
  activation = record {
    some_provider = λ h. cc;
    provider_ids = ((is_bad_provider_iff (codes "openai-codex")).0 codex_is_good, tt);
    unique = (tt, tt);
  };
  limit = (omega arith, omega arith);
}

parses : parse_config (encode_config limited) ≡ ok limited
parses = parse_config-encode_config limited limited-IsValid

parse_config-encode_config_example : parse_config (encode_config limited) ≡ ok limited
parse_config-encode_config_example = parse_config-encode_config limited limited-IsValid

parse_config-IsValid_example : IsValid limited
parse_config-IsValid_example = parse_config-IsValid (encode_config limited) limited parses

abbrev null_issues : List ConfigurationIssue
null_issues =
    record { path = "$"; code = IssueCode.invalid_type; message = "must be an object" } ∷ []

null_rejected : parse_config null ≡ err null_issues
unfolding parse_config as_object ◌>>=◌ conclude
null_rejected = refl

-- The fields of the JSON object of the configuration.
abbrev limited_fields : Value → Fields
limited_fields (object fs) = fs
limited_fields _ = end

collect_capability_issues-Shown_example :
    All
      (λ i. shows_unsupported i.path (evaluate_config_settings limited small_window) ≡ true)
      (collect_capability_issues limited small_window)
collect_capability_issues-Shown_example =
    collect_capability_issues-Shown limited small_window (omega arith, omega arith)
