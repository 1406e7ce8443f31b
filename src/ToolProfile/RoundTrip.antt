-- ===== src/ToolProfile/RoundTrip.antt =====
-- Suppressing Pi's tools and restoring them gives back the list of src/integration/pi/
-- codex-tool-profile.ts that was captured.
use mathlib.Core.List.{append_assoc, append-nil}
use pi_codex_adaptor.Prelude.{
  String, true, false, ◌&&◌, ◌≡◌, refl, ap, ◌∙◌, some, List, [], ◌∷◌, ◌++◌, keep, All, mem_text,
  arith, Unique, mem_text-keep, All-of_mem, mem_of_All, fresh-cons, fresh-snoc,
}
use pi_codex_adaptor.ToolProfile.Names.{
  is_pi_core, is_managed, unique_from, ordered_unique, is_additive, append_name, append_names,
  restore_name, restore_names, restore_pi_active_tool_names, reconcile_codex_active_tool_names,
}
use pi_codex_adaptor.ToolProfile.Sets.{mem_text-ordered_unique, mem_text-reconcile}
use pi_codex_adaptor.ToolProfile.Restored.{returns}

-- A list without repetitions is its own list of distinct names.
unique_from-Unique_self :
    (seen names : List String)
    → Unique names
    → All (λ n. mem_text n seen ≡ false) names
    → unique_from seen names ≡ names
unfolding unique_from
unique_from-Unique_self seen [] u h = refl
unique_from-Unique_self seen (n ∷ names) u h =
    ground (arith, unique_from-Unique_self (n ∷ seen) names u.1 (fresh-cons n seen names u.0 h.1))

pub ordered_unique-Unique_self : (names : List String) → Unique names → ordered_unique names ≡ names
unfolding ordered_unique
ordered_unique-Unique_self names u =
    unique_from-Unique_self [] names u (All-of_mem _ names (λ s m. refl))

-- Names that the loop lets through, all new, are appended in order.
restore_name-append :
    (available captured additives restored : List String) (n : String)
    → mem_text n restored ≡ false
    → returns captured additives n ≡ true
    → mem_text n available ≡ true
    → restore_name available captured additives restored n ≡ restored ++ n ∷ []
unfolding restore_name append_name
restore_name-append available captured additives restored n f r a = ground arith

restore_names-append :
    (available captured additives restored names : List String)
    → Unique names
    → All (λ n. mem_text n restored ≡ false) names
    → All (λ n. returns captured additives n ≡ true) names
    → All (λ n. mem_text n available ≡ true) names
    → restore_names available captured additives restored names ≡ restored ++ names
unfolding restore_names
restore_names-append available captured additives restored [] u f r a = simp append-nil
restore_names-append available captured additives restored (n ∷ names) u f r a =
    ap (λ l. restore_names available captured additives l names)
      (restore_name-append available captured additives restored n f.0 r.0 a.0)
    ∙ restore_names-append available captured additives (restored ++ n ∷ []) names u.1
        (fresh-snoc n restored names u.0 f.1) r.1 a.1
    ∙ append_assoc restored (n ∷ []) names

append_names_known :
    (available restored names : List String)
    → All (λ n. mem_text n restored ≡ true) names
    → append_names available restored names ≡ restored
unfolding append_names append_name
append_names_known available restored [] h = refl
append_names_known available restored (n ∷ names) h =
    ground (arith, append_names_known available restored names h.1)

restore-loops :
    (available captured additives current : List String)
    → Unique current
    → All (λ n. mem_text n available ≡ true) current
    → All (λ n. returns captured additives n ≡ true) current
    → ((s : String) → mem_text s additives ≡ true → mem_text s current ≡ true)
    → append_names available
        (restore_names available captured additives [] (ordered_unique current))
        additives
      ≡ current
restore-loops available captured additives current u a r h =
    rw
      (
        ordered_unique-Unique_self current u,
        restore_names-append available captured additives [] current u
            (All-of_mem _ current (λ s m. refl)) r a,
      )
      (append_names_known available current additives (All-of_mem _ additives h))

-- Suppressing the core tools of Pi and restoring them gives back the captured list, in its order,
-- when it names no tool twice, only tools that the host has, and no managed one.
pub restore-reconcile :
    (current available : List String)
    → Unique current
    → All (λ n. mem_text n available ≡ true) current
    → All (λ n. is_managed n ≡ false) current
    → restore_pi_active_tool_names
        (reconcile_codex_active_tool_names current available [])
        available
        (some current)
        (keep (λ n. is_pi_core n && mem_text n available) current)
      ≡ current
unfolding restore_pi_active_tool_names is_additive
restore-reconcile current available u a m =
    restore-loops available captured additives current u a
      (All-of_mem _ current λ s h. ground (
        arith,
        mem_of_All _ current s a h,
        mem_of_All _ current s m h,
        mem_text-keep is_pi_core s (keep (λ n. is_pi_core n && mem_text n available) current),
        mem_text-keep (λ n. is_pi_core n && mem_text n available) s current,
        mem_text-keep (is_additive available) s (ordered_unique suspended),
        mem_text-ordered_unique s suspended,
        mem_text-reconcile s current available [],
      ))
      (λ s h. ground (
        arith,
        mem_text-keep (is_additive available) s (ordered_unique suspended),
        mem_text-ordered_unique s suspended,
        mem_text-reconcile s current available [],
      ))
  where
    suspended : List String
    suspended = reconcile_codex_active_tool_names current available []

    captured : List String
    captured = keep is_pi_core (keep (λ n. is_pi_core n && mem_text n available) current)

    additives : List String
    additives = keep (is_additive available) (ordered_unique suspended)
