-- ===== src/Config/Encode.antt =====
-- The JSON value of a configuration: what `JSON.stringify` writes and `JSON.parse` reads back.
use pi_codex_adaptor.Prelude.{String}
use pi_codex_adaptor.Value.{
  Value, text, number, object, array, bool, pos, end, field, array_of_texts,
}
use pi_codex_adaptor.Config.Schema.{
  AutoOrOff, ServiceTier, default, priority, flex, Verbosity, low, medium, high, TransportMode, sse,
  WebSearchMode, cached, indexed, live, ApprovalPolicy, on_request, never, FilesystemAccessPolicy,
  workspace, unrestricted, TokenLimit, model, tokens, CompactionConfig, Activation, Tools, Security,
  Codex, Ui, CodexConfig,
}

abbrev pub auto_or_off_text : AutoOrOff → String
auto_or_off_text AutoOrOff.auto = "auto"
auto_or_off_text AutoOrOff.off = "off"

abbrev pub service_tier_text : ServiceTier → String
service_tier_text default = "default"
service_tier_text priority = "priority"
service_tier_text flex = "flex"

abbrev pub verbosity_text : Verbosity → String
verbosity_text low = "low"
verbosity_text medium = "medium"
verbosity_text high = "high"

abbrev pub transport_text : TransportMode → String
transport_text TransportMode.auto = "auto"
transport_text sse = "sse"

abbrev pub web_search_text : WebSearchMode → String
web_search_text WebSearchMode.disabled = "disabled"
web_search_text cached = "cached"
web_search_text indexed = "indexed"
web_search_text live = "live"

abbrev pub approval_text : ApprovalPolicy → String
approval_text on_request = "on-request"
approval_text never = "never"

abbrev pub access_text : FilesystemAccessPolicy → String
access_text workspace = "workspace"
access_text unrestricted = "unrestricted"

abbrev pub limit_value : TokenLimit → Value
limit_value model = text "model"
limit_value (tokens n) = number (pos n)

-- An object with one property.
abbrev pub single : String → Value → Value
single k v = object (field k v end)

abbrev pub encode_compaction : CompactionConfig → Value
encode_compaction CompactionConfig.off = single "mode" (text "off")
encode_compaction (CompactionConfig.auto limit) =
    object (field "mode" (text "auto") (field "autoCompactTokenLimit" (limit_value limit) end))

abbrev pub encode_activation : Activation → Value
encode_activation a = single "providers" (array (array_of_texts a.providers))

abbrev pub encode_tools : Tools → Value
encode_tools t = object (
    field "backgroundSessions" (bool t.background_sessions) (
      field "optional"
        (object (
          field "viewImage" (text (auto_or_off_text t.optional.view_image))
            (field "imageGeneration" (text (auto_or_off_text t.optional.image_generation)) end)))
        end))

abbrev pub encode_security : Security → Value
encode_security s = object (
    field "approvalPolicy" (text (approval_text s.approval_policy))
      (field "filesystemAccessPolicy" (text (access_text s.filesystem_access_policy)) end))

abbrev pub encode_codex : Codex → Value
encode_codex c = object (
    field "serviceTier" (text (service_tier_text c.service_tier)) (
      field "verbosity" (text (verbosity_text c.verbosity)) (
        field "transport" (single "mode" (text (transport_text c.transport))) (
          field "webSearch" (single "mode" (text (web_search_text c.web_search)))
            (field "compaction" (encode_compaction c.compaction) end)))))

abbrev pub encode_ui : Ui → Value
encode_ui u = single "status" (bool u.status)

abbrev pub encode_config : CodexConfig → Value
encode_config c = object (
    field "schemaVersion" (number (pos 3)) (
      field "activation" (encode_activation c.activation) (
        field "tools" (encode_tools c.tools) (
          field "security" (encode_security c.security)
            (field "codex" (encode_codex c.codex) (field "ui" (encode_ui c.ui) end))))))
