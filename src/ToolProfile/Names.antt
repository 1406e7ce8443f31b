-- ===== src/ToolProfile/Names.antt =====
-- The lists of tool names of src/integration/pi/codex-tool-profile.ts, with the managed names of
-- src/domain/capability.ts. A `Set` of names is a list, read by membership alone.
use pi_codex_adaptor.Prelude.{
  String, Bool, true, false, not, ◌&&◌, ◌||◌, Option, none, some, List, [], ◌∷◌, ◌++◌, keep,
  mem_text, if◌then◌else◌,
}

-- `PI_CORE_AGENT_TOOL_NAMES`
abbrev pub pi_core_agent_tool_names : List String
pi_core_agent_tool_names = "read" ∷ "bash" ∷ "edit" ∷ "write" ∷ "grep" ∷ "find" ∷ "ls" ∷ []

-- `MANAGED_TOOL_NAMES`
abbrev pub managed_tool_names : List String
managed_tool_names =
    "update_plan" ∷ "exec_command" ∷ "write_stdin" ∷ "shell_command" ∷ "apply_patch" ∷ "view_image"
    ∷ "image_gen.imagegen" ∷ "web.run" ∷ []

unfoldable pub is_pi_core : String → Bool
is_pi_core name = mem_text name pi_core_agent_tool_names

unfoldable pub is_managed : String → Bool
is_managed name = mem_text name managed_tool_names

-- The loop of `orderedUnique`, with the names that it has seen.
unfoldable pub unique_from : List String → List String → List String
unique_from seen [] = []
unique_from seen (name ∷ names) = elim (mem_text name seen) [
  | true ↦ unique_from seen names
  | false ↦ name ∷ unique_from (name ∷ seen) names
]

unfoldable pub ordered_unique : List String → List String
unfolding unique_from
ordered_unique names = unique_from [] names

-- The name of an additive tool that the host has: neither Pi's own nor managed.
unfoldable pub is_additive : List String → String → Bool
is_additive available name =
    mem_text name available && not (is_pi_core name) && not (is_managed name)

-- One round of the second loop of `reconcileCodexActiveToolNames`, and the loop.
unfoldable pub push_name : List String → List String → String → List String
push_name available result name =
    if not (mem_text name available) || not (is_managed name) || mem_text name result
    then result
    else result ++ name ∷ []

unfoldable pub push_managed : List String → List String → List String → List String
unfolding push_name
push_managed available result [] = result
push_managed available result (name ∷ names) =
    push_managed available (push_name available result name) names

unfoldable pub reconcile_codex_active_tool_names :
    List String → List String → List String → List String
unfolding push_managed
reconcile_codex_active_tool_names current available active_managed =
    push_managed available (ordered_unique (keep (is_additive available) current))
      (ordered_unique active_managed)

-- `append` of `restorePiActiveToolNames`
unfoldable pub append_name : List String → List String → String → List String
append_name available restored name =
    if not (mem_text name available) || mem_text name restored
    then restored
    else restored ++ name ∷ []

unfoldable pub append_names : List String → List String → List String → List String
append_names available restored [] = restored
append_names available restored (name ∷ names) =
    append_names available (append_name available restored name) names

-- One round of the loop over the baseline order.
unfoldable pub restore_name :
    List String → List String → List String → List String → String → List String
restore_name available captured additives restored name =
    if is_managed name
    then restored
    else if is_pi_core name
    then if mem_text name captured then append_name available restored name else restored
    else if mem_text name additives
    then append_name available restored name
    else restored

unfoldable pub restore_names :
    List String → List String → List String → List String → List String → List String
restore_names available captured additives restored [] = restored
restore_names available captured additives restored (name ∷ names) =
    restore_names available captured additives
      (restore_name available captured additives restored name) names

unfoldable pub restore_pi_active_tool_names :
    List String → List String → Option (List String) → List String → List String
unfolding restore_names append_names
restore_pi_active_tool_names current available none captured_pi_core =
    keep (λ name. mem_text name available && not (is_managed name)) (ordered_unique current)
restore_pi_active_tool_names current available (some baseline_order) captured_pi_core =
    let additives = keep (is_additive available) (ordered_unique current) in
    append_names available
      (restore_names available (keep is_pi_core captured_pi_core) additives []
        (ordered_unique baseline_order))
      additives
