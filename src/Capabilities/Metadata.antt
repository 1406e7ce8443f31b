-- ===== src/Capabilities/Metadata.antt =====
-- src/domain/capability.ts: the parsers of the metadata of the native bridge. What they throw is a
-- `CapabilityError`, as its code and reason.
use pi_codex_adaptor.Prelude.{
  ℕ, String, Bool, false, not, ◌&&◌, Option, none, some, List, [], ◌∷◌, all, leb, ltb, str_eq,
  if◌then◌else◌,
}
use Prim.Native.String.{◌++◌ as ◌<>◌}
use pi_codex_adaptor.Value.{
  Value, Fields, null, text, number, pos, array, items, texts, get, as_record, max_safe_integer,
}
use pi_codex_adaptor.Config.Schema.{ShellSurface, unified_exec, shell_command}
use pi_codex_adaptor.Config.Parse.{has_duplicates}
use pi_codex_adaptor.ToolProfile.Names.{is_managed}

-- The last is an `Error` without a code.
pub data ErrorCode : Type 0 where
  model_metadata_unavailable effective_capability_invalid plain_error : ErrorCode

pub data Answer {ℓ} (A : Type ℓ) : Type ℓ where
  returned : A → Answer A
  thrown : ErrorCode → String → Answer A

module _ {ℓ κ} {A : Type ℓ} {B : Type κ} where
  infixr 2 ◌>>=◌
  abbrev pub ◌>>=◌ : Answer A → (A → Answer B) → Answer B
  returned a >>= f = f a
  thrown code reason >>= f = thrown code reason

module _ {ℓ} {A : Type ℓ} where
  abbrev pub metadata_error : String → Answer A
  metadata_error reason = thrown model_metadata_unavailable reason

  abbrev pub invalid_capability : String → Answer A
  invalid_capability reason = thrown effective_capability_invalid reason

pub data Source : Type 0 where
  official supplemental provider_contract : Source

pub data Availability : Type 0 where
  available : Source → Availability
  disabled unavailable : String → Availability

pub data SessionSurface : Type 0 where
  official supplemental disabled unavailable : SessionSurface

pub data WebSurface : Type 0 where
  standalone hosted disabled unsupported : WebSurface

pub data ImageSurface : Type 0 where
  standalone disabled : ImageSurface

-- `ResolvedModelCapability`; no limit is null.
pub record ModelCapability : Type 0 where
  pub model : Fields
  pub shell_surface : ShellSurface
  pub auto_compact_token_limit : Option ℕ

-- `NativeToolCapabilityEvidence`
pub record Evidence : Type 0 where
  pub sessions : Availability
  pub apply_patch : Availability
  pub view_image : Availability
  pub image_generation : Availability
  pub web_search : Availability

-- `ResolvedToolCapability`
pub record ToolCapability : Type 0 where
  pub model_tools : List Value
  pub dispatch_tools : List Value
  pub local_tool_names : List String
  pub hosted_tool_names : List String
  pub shell_surface : ShellSurface
  pub session_surface : SessionSurface
  pub web_surface : WebSurface
  pub image_generation_surface : ImageSurface
  pub capabilities : Evidence

unfoldable pub required_record : Value → String → Answer Fields
required_record v name = elim (as_record v) [
  | some fs ↦ returned fs
  | none ↦ invalid_capability (name <> " is invalid")
]

unfoldable pub array_of : Value → String → Answer (List Value)
array_of (array vs) name = returned (items vs)
array_of _ name = invalid_capability ("native " <> (name <> " is invalid"))

abbrev pub is_filled : Value → Bool
is_filled (text s) = not (str_eq s "")
is_filled _ = false

unfoldable pub string_array : Value → String → Answer (List String)
unfolding array_of
string_array v name = array_of v name >>= λ vs.
    if all is_filled vs
    then returned (texts vs)
    else invalid_capability ("native " <> (name <> " is invalid"))

unfoldable pub managed_names : Value → Answer (List String)
unfolding string_array
managed_names v = string_array v "localToolNames" >>= λ names.
    if has_duplicates names
    then invalid_capability "native local tool names contain duplicates"
    else if all is_managed names
    then returned names
    else invalid_capability "native local tool name is not registered by the adaptor"

module _ {ℓ} {A : Type ℓ} where
  -- The value of a text in a table.
  unfoldable pub find : String → List (String × A) → Option A
  find s [] = none
  find s ((t, a) ∷ values) = if str_eq t s then some a else find s values

  unfoldable pub enum_value : Value → List (String × A) → Answer A
  unfolding find
  enum_value (text s) values = elim (find s values) [
    | some a ↦ returned a
    | none ↦ invalid_capability "native capability enum value is invalid"
  ]
  enum_value _ values = invalid_capability "native capability enum value is invalid"

abbrev pub shell_surfaces : List (String × ShellSurface)
shell_surfaces =
    ("unified-exec", unified_exec)
    ∷ ("shell-command", shell_command)
    ∷ ("disabled", ShellSurface.disabled)
    ∷ []

abbrev pub sources : List (String × Source)
sources =
    ("official", Source.official)
    ∷ ("supplemental", Source.supplemental)
    ∷ ("provider-contract", provider_contract)
    ∷ []

abbrev pub session_surfaces : List (String × SessionSurface)
session_surfaces =
    ("official", SessionSurface.official)
    ∷ ("supplemental", SessionSurface.supplemental)
    ∷ ("disabled", SessionSurface.disabled)
    ∷ ("unavailable", SessionSurface.unavailable)
    ∷ []

abbrev pub web_surfaces : List (String × WebSurface)
web_surfaces =
    ("standalone", WebSurface.standalone)
    ∷ ("hosted", hosted)
    ∷ ("disabled", WebSurface.disabled)
    ∷ ("unsupported", unsupported)
    ∷ []

abbrev pub image_surfaces : List (String × ImageSurface)
image_surfaces = ("standalone", ImageSurface.standalone) ∷ ("disabled", ImageSurface.disabled) ∷ []

abbrev pub is_the_text : String → Value → Bool
is_the_text s (text t) = str_eq t s
is_the_text s _ = false

-- A reason must be a text that is not empty.
abbrev pub with_reason : (String → Availability) → Value → Answer Availability
with_reason make (text s) =
    if str_eq s ""
    then invalid_capability "capability availability reason is invalid"
    else returned (make s)
with_reason make _ = invalid_capability "capability availability reason is invalid"

unfoldable pub availability_of : Fields → Answer Availability
unfolding get enum_value
availability_of fs =
    if is_the_text "available" (get "status" fs)
    then (enum_value (get "source" fs) sources >>= λ s. returned (available s))
    else if is_the_text "disabled" (get "status" fs)
    then with_reason Availability.disabled (get "reason" fs)
    else if is_the_text "unavailable" (get "status" fs)
    then with_reason Availability.unavailable (get "reason" fs)
    else invalid_capability "capability availability status is invalid"

unfoldable pub parse_availability : Value → Answer Availability
unfolding required_record availability_of
parse_availability v = required_record v "capability availability" >>= availability_of

unfoldable pub parse_shell_surface : Value → Answer ShellSurface
unfolding find
parse_shell_surface (text s) = elim (find s shell_surfaces) [
  | some a ↦ returned a
  | none ↦ metadata_error "OpenAI Codex model metadata did not include a valid shell surface"
]
parse_shell_surface _ =
    metadata_error "OpenAI Codex model metadata did not include a valid shell surface"

abbrev pub bad_limit {ℓ} : {A : Type ℓ} → Answer A
bad_limit = metadata_error "OpenAI Codex model metadata did not include a valid auto-compact limit"

unfoldable pub parse_auto_compact_token_limit : Value → Answer (Option ℕ)
parse_auto_compact_token_limit null = returned none
parse_auto_compact_token_limit (number (pos n)) =
    if ltb 0 n && leb n max_safe_integer then returned (some n) else bad_limit
parse_auto_compact_token_limit _ = bad_limit

unfoldable pub parse_evidence : Fields → Answer Evidence
unfolding parse_availability get
parse_evidence fs = do
  sessions ← parse_availability (get "sessions" fs)
  patch ← parse_availability (get "applyPatch" fs)
  image ← parse_availability (get "viewImage" fs)
  generation ← parse_availability (get "imageGeneration" fs)
  search ← parse_availability (get "webSearch" fs)
  returned (record {
    sessions = sessions;
    apply_patch = patch;
    view_image = image;
    image_generation = generation;
    web_search = search;
  })

unfoldable pub parse_tool_resolution : Value → Answer ToolCapability
unfolding required_record array_of managed_names string_array enum_value parse_evidence get
parse_tool_resolution v = do
  root ← required_record v "native tools.resolve result"
  capabilities ← required_record (get "capabilities" root) "native capability evidence"
  model_tools ← array_of (get "modelTools" root) "modelTools"
  dispatch_tools ← array_of (get "dispatchTools" root) "dispatchTools"
  local ← managed_names (get "localToolNames" root)
  hosted_names ← string_array (get "hostedToolNames" root) "hostedToolNames"
  shell ← enum_value (get "shellSurface" root) shell_surfaces
  session ← enum_value (get "sessionSurface" root) session_surfaces
  web ← enum_value (get "webSurface" root) web_surfaces
  image ← enum_value (get "imageGenerationSurface" root) image_surfaces
  evidence ← parse_evidence capabilities
  returned (record {
    model_tools = model_tools;
    dispatch_tools = dispatch_tools;
    local_tool_names = local;
    hosted_tool_names = hosted_names;
    shell_surface = shell;
    session_surface = session;
    web_surface = web;
    image_generation_surface = image;
    capabilities = evidence;
  })

-- The model of the answer must be the one that was asked for.
abbrev pub named : String → Option Fields → Answer Fields
named id none = metadata_error "OpenAI Codex model metadata did not match the selected model"
named id (some fs) =
    if is_the_text id (get "slug" fs)
    then returned fs
    else metadata_error "OpenAI Codex model metadata did not match the selected model"

abbrev pub metadata_root : Option Fields → Answer Fields
metadata_root none = metadata_error "OpenAI Codex model metadata is unavailable"
metadata_root (some fs) = returned fs

unfoldable pub parse_model_resolution : Value → String → Answer ModelCapability
unfolding parse_shell_surface parse_auto_compact_token_limit get
parse_model_resolution v id = do
  root ← metadata_root (as_record v)
  model ← named id (as_record (get "model" root))
  surface ← parse_shell_surface (get "shellSurface" root)
  limit ← parse_auto_compact_token_limit (get "autoCompactTokenLimit" root)
  returned (record { model = model; shell_surface = surface; auto_compact_token_limit = limit })
