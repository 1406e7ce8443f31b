-- ===== src/Settings/Rows.antt =====
-- src/ui/terminal/settings-model.ts and src/application/security-policy.ts: the state of the model
-- and the rows that it shows. The row ids, categories and states, which are literal types, are data
-- types; `String(n)` of a number is a parameter.
use pi_codex_adaptor.Prelude.{
  ℕ, zero, suc, String, Bool, true, false, ◌&&◌, Option, none, some, List, [], ◌∷◌, ◌++◌, is_none,
  ◌==◌, codes, str_eq, if◌then◌else◌,
}
use Prim.Native.String.{◌++◌ as str_append}
use pi_codex_adaptor.Config.Schema.{
  on_request, never, workspace, unrestricted, TokenLimit, model, tokens, CompactionConfig,
  CodexConfig,
}
use pi_codex_adaptor.Config.Encode.{
  auto_or_off_text, service_tier_text, verbosity_text, transport_text, web_search_text,
  approval_text, access_text,
}
use pi_codex_adaptor.Provider.Activation.{
  Model, active, inactive, no_model, provider_not_selected, unsupported_pi_api,
  resolve_provider_activation,
}

-- `SETTINGS_CATEGORIES`
pub data Category : Type 0 where
  general tools codex diagnostics : Category

pub data Layout : Type 0 where
  wide medium_width narrow : Layout

pub data State : Type 0 where
  pristine dirty validating saving saved validation_error write_error : State

pub data Region : Type 0 where
  nav list : Region

pub data NarrowScreen : Type 0 where
  categories settings : NarrowScreen

pub data Dialog : Type 0 where
  closed help : Dialog
  dirty_close reset_confirm approval_never_confirm filesystem_unrestricted_confirm : ℕ → Dialog

pub data Effect : Type 0 where
  nothing save save_and_close close compact export edit_providers edit_auto_compact : Effect
  reset_defaults : Effect
  security_policy_enabled : String → Effect

pub data RowKind : Type 0 where
  readonly toggle enum action number : RowKind

pub data RowId : Type 0 where
  baseline provider model_id providers route status reset : RowId
  background_sessions approval_policy filesystem_access_policy view_image : RowId
  image_generation : RowId
  service_tier verbosity transport web_search compaction auto_compact_token_limit : RowId
  compact_now : RowId
  bridge capabilities schema draft_state export_row : RowId

pub record Row : Type 0 where
  pub id : RowId
  pub label : String
  pub value : String
  pub description : String
  pub kind : RowKind
  pub enabled : Bool
  pub disabled_reason : Option String

-- `SettingsModelOptions`; the token limit of the model is none where it is null or undefined.
pub record Options : Type 0 where
  pub baseline : String
  pub provider : String
  pub model : String
  pub bridge : String
  pub activation_model : Option Model
  pub activation_status : Option String
  pub capabilities : Option (List String)
  pub disabled_reasons : RowId → Option String
  pub model_auto_compact_token_limit : Option ℕ

-- `SettingsModel`
pub record Settings : Type 0 where
  pub saved_config : CodexConfig
  pub draft : CodexConfig
  pub status : Option String
  pub category_index : ℕ
  pub focus : ℕ
  pub region : Region
  pub narrow_screen : NarrowScreen
  pub scroll : ℕ
  pub state : State
  pub message : Option String
  pub dialog : Dialog
  pub disposed : Bool
  pub width : ℕ

unfoldable pub join : String → List String → String
join separator [] = ""
join separator (s ∷ []) = s
join separator (s ∷ t ∷ ss) = str_append s (str_append separator (join separator (t ∷ ss)))

abbrev pub provider_of : Option Model → String
provider_of none = "unknown"
provider_of (some m) = m.provider

abbrev pub api_of : Option Model → String
api_of none = "unknown"
api_of (some m) = m.api

abbrev pub around : String → String → String → String
around before text after = str_append before (str_append text after)

unfoldable pub format_activation_status : Option Model → CodexConfig → String
unfolding resolve_provider_activation
format_activation_status m config =
    elim (resolve_provider_activation m config.activation.providers) [
      | active ↦ around "active (" (around (provider_of m) " / " (api_of m)) ")"
      | inactive no_model ↦ "inactive (no model)"
      | inactive provider_not_selected ↦
          around "inactive (provider not selected: " (provider_of m) ")"
      | inactive unsupported_pi_api ↦ around "inactive (unsupported API: " (api_of m) ")"
    ]

unfoldable pub security_policy_warning : CodexConfig → Option String
security_policy_warning config = elim config.security.approval_policy [
  | never ↦ elim config.security.filesystem_access_policy [
    | unrestricted ↦
        some
          "Codex dangerous full access is enabled: operations do not prompt, structured tools may use external paths, and native commands run with the user's permissions."
    | workspace ↦
        some
          "Codex approval policy is never: operations do not prompt, explicit structured-tool paths remain workspace constrained, and native commands run with the user's permissions."
  ]
  | on_request ↦ elim config.security.filesystem_access_policy [
    | unrestricted ↦
        some
          "Codex filesystem access is unrestricted: structured tools may use external paths after operation approval; this is not an OS sandbox."
    | workspace ↦ none
  ]
]

abbrev pub categories_list : List Category
categories_list = general ∷ tools ∷ codex ∷ diagnostics ∷ []

abbrev pub at_index {ℓ} : {A : Type ℓ} → ℕ → List A → Option A
at_index n [] = none
at_index zero (x ∷ xs) = some x
at_index (suc n) (x ∷ xs) = at_index n xs

unfoldable pub category : Settings → Category
category s = elim (at_index s.category_index categories_list) [ some c ↦ c | none ↦ general ]

-- `row`, with the reason that disables it.
unfoldable pub row : RowId → String → String → String → RowKind → Option String → Row
row id label value description kind reason = record {
  id = id;
  label = label;
  value = value;
  description = description;
  kind = kind;
  enabled = is_none reason;
  disabled_reason = reason;
}

abbrev pub on_off : Bool → String
on_off b = if b then "on" else "off"

abbrev pub text_or : String → Option String → String
text_or other none = other
text_or other (some t) = if str_eq t "" then other else t

-- `startsWith("active")`
unfoldable pub starts_with : List ℕ → List ℕ → Bool
starts_with [] cs = true
starts_with (a ∷ as') [] = false
starts_with (a ∷ as') (b ∷ bs) = a == b && starts_with as' bs

unfoldable pub state_text : State → String
state_text pristine = "pristine"
state_text dirty = "dirty"
state_text validating = "validating"
state_text saving = "saving"
state_text saved = "saved"
state_text validation_error = "validation-error"
state_text write_error = "write-error"

abbrev pub is_dirty : State → Bool
is_dirty dirty = true
is_dirty _ = false

unfoldable pub general_rows : Options → Settings → List Row
unfolding row join
general_rows o s =
    row baseline "Baseline" o.baseline "Pinned OpenAI Codex runtime baseline." readonly none
    ∷ row provider "Provider" o.provider "Active Pi provider id for this session." readonly none
    ∷ row model_id "Model" o.model "Active model id resolved by Pi." readonly none
    ∷ row providers "Active providers" (join ", " s.draft.activation.providers)
        "Exact Pi provider ids that opt into the Codex adaptor. Separate ids with commas." action
        none
    ∷ row route "Current route" (elim s.status [ none ↦ "unavailable" | some t ↦ t ])
        "Whether the current provider and API use the Codex adaptor." readonly none
    ∷ row status "Status bar" (on_off s.draft.ui.status)
        "Show a compact Codex status line in the Pi UI." toggle none
    ∷ row reset "Reset to defaults" "action"
        "Replace the draft with the product default configuration." action none
    ∷ []

unfoldable pub tool_rows : Options → Settings → List Row
unfolding row
tool_rows o s =
    row background_sessions "Background sessions" (on_off s.draft.tools.background_sessions)
      "Keep managed sessions alive and expose supplemental exec/write tools when needed." toggle
      (o.disabled_reasons background_sessions)
    ∷ row approval_policy "Approval policy" (approval_text s.draft.security.approval_policy)
        "On-request is the safe default. Never suppresses operation approval prompts." enum none
    ∷ row filesystem_access_policy "Filesystem access"
        (access_text s.draft.security.filesystem_access_policy)
        "Workspace is the safe default. Unrestricted permits explicit structured-tool paths outside workspace roots."
        enum none
    ∷ row view_image "view_image" (auto_or_off_text s.draft.tools.optional.view_image)
        "Enable the official view_image tool when the model accepts image inputs." enum
        (o.disabled_reasons view_image)
    ∷ row image_generation "image_gen.imagegen"
        (auto_or_off_text s.draft.tools.optional.image_generation)
        "Enable image generation when the provider and bridge advertise the capability." enum
        (o.disabled_reasons image_generation)
    ∷ []

abbrev pub is_off : CompactionConfig → Bool
is_off CompactionConfig.off = true
is_off (CompactionConfig.auto limit) = false

-- `#routeIsActive`
unfoldable pub route_is_active : Settings → Bool
unfolding starts_with
route_is_active s = elim s.status [ none ↦ true | some t ↦ starts_with (codes "active") (codes t) ]

unfoldable pub compaction_blocked : Settings → Option String
unfolding route_is_active
compaction_blocked s =
    if is_dirty s.state
    then some "Save or discard the draft before compaction."
    else if is_off s.draft.codex.compaction
    then some "Compaction is disabled."
    else if route_is_active s
    then none
    else some "Codex route is inactive for the current provider and API."

abbrev pub first_reason : Option String → Option String → Option String
first_reason none r = r
first_reason (some t) r = some t

unfoldable pub compact_row : Options → Settings → Row
unfolding row compaction_blocked
compact_row o s =
    row compact_now "Compact now"
      (if is_dirty s.state
        then "save first"
        else if is_off s.draft.codex.compaction
        then "disabled"
        else if route_is_active s
        then "action"
        else "inactive")
      "Run official compaction for the current session after settings are clean." action
      (first_reason (o.disabled_reasons compact_now) (compaction_blocked s))

module _ (string_of : ℕ → String) where
  abbrev pub limit_text : TokenLimit → Option ℕ → String
  limit_text model none = "model"
  limit_text model (some n) = str_append (string_of n) " (model)"
  limit_text (tokens n) m = string_of n

  unfoldable pub limit_rows : Options → CompactionConfig → List Row
  unfolding row
  limit_rows o CompactionConfig.off = []
  limit_rows o (CompactionConfig.auto limit) =
      row auto_compact_token_limit "Auto compact limit"
        (limit_text limit o.model_auto_compact_token_limit)
        "model uses the official model threshold. A positive integer overrides it." number
        (o.disabled_reasons auto_compact_token_limit)
      ∷ []

  unfoldable pub codex_rows : Options → Settings → List Row
  unfolding row limit_rows compact_row
  codex_rows o s =
      (row service_tier "Service tier" (service_tier_text s.draft.codex.service_tier)
          "OpenAI service tier preference for Responses requests." enum none
        ∷ row verbosity "Verbosity" (verbosity_text s.draft.codex.verbosity)
            "Text verbosity preference for Responses requests." enum none
        ∷ row transport "Transport" (transport_text s.draft.codex.transport)
            "Preferred transport mode. auto selects the official default path." enum
            (o.disabled_reasons transport)
        ∷ row web_search "Web search mode" (web_search_text s.draft.codex.web_search)
            "Standalone or hosted web search mode requested from the resolver." enum
            (o.disabled_reasons web_search)
        ∷ row compaction "Compaction" (if is_off s.draft.codex.compaction then "off" else "auto")
            "off disables adaptor compaction. auto uses the official compaction path." enum
            (o.disabled_reasons compaction)
        ∷ limit_rows o s.draft.codex.compaction)
      ++ compact_row o s ∷ []

  unfoldable pub diagnostics_rows : Options → Settings → List Row
  unfolding row join state_text
  diagnostics_rows o s =
      row bridge "Bridge" o.bridge "Native bridge protocol identity." readonly none
      ∷ row capabilities "Capabilities"
          (text_or "unavailable"
            (elim o.capabilities [ none ↦ none | some cs ↦ some (join ", " cs) ]))
          "Capabilities advertised by the native bridge handshake." readonly none
      ∷ row schema "Config schema" (str_append "v" (string_of 3))
          "Supported configuration schema version." readonly none
      ∷ row draft_state "Draft state" (state_text s.state) "Current settings transaction state."
          readonly none
      ∷ row export_row "Export diagnostics" "action"
          "Export redacted adaptor and bridge metadata after confirmation." action none
      ∷ []

  unfoldable pub rows : Options → Settings → List Row
  unfolding category general_rows tool_rows codex_rows diagnostics_rows
  rows o s = elim (category s) [
    | general ↦ general_rows o s
    | tools ↦ tool_rows o s
    | codex ↦ codex_rows o s
    | diagnostics ↦ diagnostics_rows o s
  ]
