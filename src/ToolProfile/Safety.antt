-- ===== src/ToolProfile/Safety.antt =====
-- What the coordinator of src/integration/pi/codex-tool-profile.ts does to Pi's active tools, when
-- Pi's registry can be read.
use pi_codex_adaptor.Prelude.{
  String, true, ◌&&◌, ◌||◌, ◌≡◌, refl, sym, ap, ◌∙◌, Option, some, List, [], ◌∷◌, All, mem_text,
  arith, eq_iff, Unique, All-of_mem, mem_of_All, Bool-cases, Option-cases, inl, inr,
}
use pi_codex_adaptor.ToolProfile.Names.{
  is_managed, ordered_unique, is_additive, reconcile_codex_active_tool_names,
}
use pi_codex_adaptor.ToolProfile.Ownership.{
  ToolInfo, tool_names, owned, by_name, owns, check_names, validate_managed_tool_ownership,
}
use pi_codex_adaptor.ToolProfile.Sets.{
  mem_text-ordered_unique, ordered_unique-Unique, mem_text-reconcile,
}
use pi_codex_adaptor.ToolProfile.State.{PiHost, CodexProfileState, same_names}
use pi_codex_adaptor.ToolProfile.Coordinator.{apply_active_names, available_names}

-- What is assumed of Pi: a list of distinct names of its registry becomes the active list, and the
-- registry stays.
pub record IsLawful (P : PiHost) : Type 0 where
  pub active-set :
      (names : List String) (h : P.Host) (tools : List ToolInfo)
      → P.all_tools h ≡ some tools
      → Unique names
      → All (λ n. mem_text n (tool_names tools) ≡ true) names
      → P.active_tools (P.set_active_tools names h) ≡ names
  pub all_tools-set :
      (names : List String) (h : P.Host) → P.all_tools (P.set_active_tools names h) ≡ P.all_tools h

pub same_names-eq : (as' bs : List String) → same_names as' bs ≡ true → as' ≡ bs
unfolding same_names
same_names-eq [] [] h = refl
same_names-eq [] (b ∷ bs) h = cc
same_names-eq (a ∷ as') [] h = cc
same_names-eq (a ∷ as') (b ∷ bs) h = ground (arith, eq_iff a b, same_names-eq as' bs)

-- An owned tool is managed and stands in the registry.
by_name-mem :
    (name : String) (tools : List ToolInfo) (t : ToolInfo)
    → by_name name tools ≡ some t
    → mem_text name (tool_names tools) ≡ true
unfolding by_name tool_names
by_name-mem name [] t h = cc
by_name-mem name (u ∷ tools) t h = elim (Option-cases (by_name name tools)) [
  | inl e ↦ ground arith
  | inr (w, e) ↦ ground (arith, by_name-mem name tools w e)
]

module _ (norm : String → String) where
  owns-known :
      (tools : List ToolInfo) (entry : Option String) (name : String)
      → owns norm tools entry name ≡ true
      → (is_managed name ≡ true) × (mem_text name (tool_names tools) ≡ true)
  unfolding owns
  owns-known tools entry name h = elim (Option-cases (by_name name tools)) [
    | inl e ↦ absurd (ground arith)
    | inr (t, e) ↦ (ground arith, by_name-mem name tools t e)
  ]

  check_names-owned :
      (tools : List ToolInfo) (entry : Option String) (names : List String)
      → check_names norm tools entry names ≡ owned
      → All (λ n. (is_managed n ≡ true) × (mem_text n (tool_names tools) ≡ true)) names
  unfolding check_names
  check_names-owned tools entry [] h = tt
  check_names-owned tools entry (n ∷ names) h = elim (Bool-cases (owns norm tools entry n)) [
    | inl e ↦ (owns-known tools entry n e, check_names-owned tools entry names (ground arith))
    | inr e ↦ absurd (ground arith)
  ]

  pub validate-owned :
      (tools : List ToolInfo) (active_managed : List String) (entry : Option String) (s : String)
      → validate_managed_tool_ownership norm (some tools) active_managed entry ≡ owned
      → mem_text s active_managed ≡ true
      → (is_managed s ≡ true) × (mem_text s (tool_names tools) ≡ true)
  unfolding validate_managed_tool_ownership
  validate-owned tools active_managed entry s h m =
      mem_of_All _ (ordered_unique active_managed) s (check_names-owned tools entry _ h)
        (mem_text-ordered_unique s active_managed ∙ m)

module _ (P : PiHost) (law : IsLawful P) where
  open P use {Host, active_tools, all_tools, set_active_tools}

  abbrev pub Names : List ToolInfo → List String → Type 0
  Names tools = All λ n. mem_text n (tool_names tools) ≡ true

  -- The active tools after `#applyActiveNames`, as a set.
  pub apply_active_names-active :
      (next : List String) (h : Host) (tools : List ToolInfo)
      → all_tools h ≡ some tools
      → Names tools next
      → (s : String) → mem_text s (active_tools (apply_active_names P next h)) ≡ mem_text s next
  unfolding apply_active_names
  apply_active_names-active next h tools e known s =
      elim (Bool-cases (same_names (ordered_unique (active_tools h)) (ordered_unique next))) [
        | inl same ↦ rw same (
            sym (mem_text-ordered_unique s (active_tools h))
            ∙ ap (mem_text s) (same_names-eq _ _ same)
            ∙ mem_text-ordered_unique s next)
        | inr other ↦ rw other (
            ap (mem_text s) (
              law.active-set (ordered_unique next) h tools e (ordered_unique-Unique next) (
                All-of_mem _ _
                  λ n m. mem_of_All _ next n known (sym (mem_text-ordered_unique n next) ∙ m)))
            ∙ mem_text-ordered_unique s next)
      ]

  pub all_tools-apply_active_names :
      (next : List String) (h : Host) → all_tools (apply_active_names P next h) ≡ all_tools h
  unfolding apply_active_names
  all_tools-apply_active_names next h = ground (arith, law.all_tools-set (ordered_unique next) h)

  pub reconcile-Names :
      (current managed : List String) (tools : List ToolInfo)
      → Names tools (reconcile_codex_active_tool_names current (tool_names tools) managed)
  unfolding is_additive
  reconcile-Names current managed tools =
      All-of_mem _ _ λ n m. ground (arith, mem_text-reconcile n current (tool_names tools) managed)

  -- Making a Codex profile active.
  pub reconciled-active :
      (c : CodexProfileState) (managed : List String) (h : Host) (tools : List ToolInfo)
      → all_tools h ≡ some tools
      → (s : String)
      → mem_text s (
          active_tools (
            apply_active_names P
              (reconcile_codex_active_tool_names (active_tools h) (available_names P c h) managed)
              h))
        ≡ ((mem_text s (active_tools h) && is_additive (tool_names tools) s)
            || (mem_text s managed && (mem_text s (tool_names tools) && is_managed s)))
  unfolding available_names
  reconciled-active c managed h tools e s =
      rw (e, available_names)
        (apply_active_names-active _ h tools e (reconcile-Names (active_tools h) managed tools) s
          ∙ mem_text-reconcile s (active_tools h) (tool_names tools) managed)
