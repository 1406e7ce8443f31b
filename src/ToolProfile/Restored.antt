-- ===== src/ToolProfile/Restored.antt =====
-- Which names `restorePiActiveToolNames` of src/integration/pi/codex-tool-profile.ts gives back.
use pi_codex_adaptor.Prelude.{
  String, Bool, not, ◌&&◌, ◌||◌, ◌≡◌, test_eq, if◌then◌else◌, some, List, [], ◌∷◌, keep, mem_text,
  arith, Unique, Unique-snoc, mem_text-append, mem_text-keep, str_eq,
}
use pi_codex_adaptor.ToolProfile.Names.{
  is_pi_core, is_managed, ordered_unique, is_additive, append_name, append_names, restore_name,
  restore_names, restore_pi_active_tool_names,
}
use pi_codex_adaptor.ToolProfile.Sets.{mem_text_eq, mem_text-ordered_unique}

mem_text-append_name :
    (s : String) (available restored : List String) (x : String)
    → mem_text s (append_name available restored x)
      ≡ (mem_text s restored || (str_eq x s && mem_text s available))
unfolding append_name
mem_text-append_name s available restored x = ground (
  arith,
  mem_text-append s restored (x ∷ []),
  mem_text_eq s x available,
  mem_text_eq s x restored,
)

append_name-Unique :
    (available restored : List String) (x : String)
    → Unique restored
    → Unique (append_name available restored x)
unfolding append_name
append_name-Unique available restored x h = ground (arith, Unique-snoc restored x h)

mem_text-append_names :
    (s : String) (available restored names : List String)
    → mem_text s (append_names available restored names)
      ≡ (mem_text s restored || (mem_text s names && mem_text s available))
unfolding append_names
mem_text-append_names s available restored [] = ground arith
mem_text-append_names s available restored (x ∷ names) = ground (
  arith,
  mem_text-append_names s available (append_name available restored x) names,
  mem_text-append_name s available restored x,
)

append_names-Unique :
    (available restored names : List String)
    → Unique restored
    → Unique (append_names available restored names)
unfolding append_names
append_names-Unique available restored [] h = h
append_names-Unique available restored (x ∷ names) h =
    append_names-Unique available (append_name available restored x) names
      (append_name-Unique available restored x h)

-- The baseline names that the loop lets through.
abbrev pub returns : List String → List String → String → Bool
returns captured additives s =
    not (is_managed s) && (if is_pi_core s then mem_text s captured else mem_text s additives)

mem_text-restore_name :
    (s : String) (available captured additives restored : List String) (x : String)
    → mem_text s (restore_name available captured additives restored x) ≡ (
        mem_text s restored
        || (str_eq x s && (returns captured additives s && mem_text s available)))
unfolding restore_name
mem_text-restore_name s available captured additives restored x =
    ground
      (arith, mem_text-append_name s available restored x, test_eq (returns captured additives) s x)

restore_name-Unique :
    (available captured additives restored : List String) (x : String)
    → Unique restored
    → Unique (restore_name available captured additives restored x)
unfolding restore_name
restore_name-Unique available captured additives restored x h =
    ground (arith, append_name-Unique available restored x h)

mem_text-restore_names :
    (s : String) (available captured additives restored names : List String)
    → mem_text s (restore_names available captured additives restored names) ≡ (
        mem_text s restored
        || (mem_text s names && (returns captured additives s && mem_text s available)))
unfolding restore_names
mem_text-restore_names s available captured additives restored [] = ground arith
mem_text-restore_names s available captured additives restored (x ∷ names) = ground (
  arith,
  mem_text-restore_names s available captured additives
      (restore_name available captured additives restored x) names,
  mem_text-restore_name s available captured additives restored x,
)

restore_names-Unique :
    (available captured additives restored names : List String)
    → Unique restored
    → Unique (restore_names available captured additives restored names)
unfolding restore_names
restore_names-Unique available captured additives restored [] h = h
restore_names-Unique available captured additives restored (x ∷ names) h =
    restore_names-Unique available captured additives
      (restore_name available captured additives restored x) names
      (restore_name-Unique available captured additives restored x h)

-- After a Codex profile the restored list holds exactly the available additive tools that are
-- active and the available core tools of Pi that were captured.
pub mem_text-restore :
    (s : String) (current available baseline captured : List String)
    → mem_text s (restore_pi_active_tool_names current available (some baseline) captured) ≡ (
        (mem_text s current && is_additive available s)
        || (mem_text s baseline
            && (mem_text s captured
                && (is_pi_core s && (not (is_managed s) && mem_text s available)))))
unfolding restore_pi_active_tool_names is_additive
mem_text-restore s current available baseline captured = ground (
  arith,
  mem_text-append_names s available
      (restore_names available (keep is_pi_core captured)
        (keep (is_additive available) (ordered_unique current)) [] (ordered_unique baseline))
      (keep (is_additive available) (ordered_unique current)),
  mem_text-restore_names s available (keep is_pi_core captured)
      (keep (is_additive available) (ordered_unique current)) [] (ordered_unique baseline),
  mem_text-ordered_unique s current,
  mem_text-ordered_unique s baseline,
  mem_text-keep is_pi_core s captured,
  mem_text-keep (is_additive available) s (ordered_unique current),
)

-- The restored list names no tool twice.
pub restore-Unique :
    (current available baseline captured : List String)
    → Unique (restore_pi_active_tool_names current available (some baseline) captured)
unfolding restore_pi_active_tool_names
restore-Unique current available baseline captured =
    search (append_names-Unique, restore_names-Unique)
