-- ===== src/ToolProfile/Ownership.antt =====
-- `validateManagedToolOwnership` of src/integration/pi/codex-tool-profile.ts. The file system's
-- `normalizedEntryPath` is a parameter.
use pi_codex_adaptor.Prelude.{
  String, Bool, true, false, Option, none, some, List, [], ◌∷◌, keep, map, mem_text, str_eq,
  if◌then◌else◌, ◌&&◌,
}
use pi_codex_adaptor.ToolProfile.Names.{managed_tool_names, is_managed, ordered_unique}

-- What the code reads of Pi's `ToolInfo`: `sourceInfo?.path` is none if it is no text.
pub record ToolInfo : Type 0 where
  pub name : String
  pub source_path : Option String

unfoldable pub tool_names : List ToolInfo → List String
tool_names = map λ t. t.name

-- `byName.get(name)`: in a map built from pairs the last one of a name stays.
unfoldable pub by_name : String → List ToolInfo → Option ToolInfo
by_name name [] = none
by_name name (t ∷ tools) = elim (by_name name tools) [
  | some u ↦ some u
  | none ↦ if str_eq t.name name then some t else none
]

-- `{ ok: true }`, or `{ ok: false, conflictingTool }`
pub data Ownership : Type 0 where
  owned : Ownership
  conflict : Option String → Ownership

module _ (normalized_entry_path : String → String) where
  -- The tool is registered by the expected entry, where one is expected.
  unfoldable pub comes_from : Option String → ToolInfo → Bool
  comes_from none tool = true
  comes_from (some entry) tool = elim tool.source_path [
    | none ↦ false
    | some path ↦ str_eq (normalized_entry_path path) (normalized_entry_path entry)
  ]

  unfoldable pub owns : List ToolInfo → Option String → String → Bool
  unfolding comes_from
  owns tools entry name = elim (by_name name tools) [
    | none ↦ false
    | some tool ↦ is_managed name && comes_from entry tool
  ]

  unfoldable pub check_names : List ToolInfo → Option String → List String → Ownership
  unfolding owns
  check_names tools entry [] = owned
  check_names tools entry (name ∷ names) = elim (owns tools entry name) [
    | true ↦ check_names tools entry names
    | false ↦ conflict (some name)
  ]

  unfoldable pub validate_managed_tool_ownership :
      Option (List ToolInfo) → List String → Option String → Ownership
  unfolding check_names
  validate_managed_tool_ownership none active_managed entry = conflict none
  validate_managed_tool_ownership (some tools) active_managed entry =
      check_names tools entry (ordered_unique active_managed)

unfoldable pub registered_managed_tool_names : Option (List ToolInfo) → List String
registered_managed_tool_names none = []
registered_managed_tool_names (some tools) =
    keep (λ name. mem_text name (tool_names tools)) managed_tool_names
