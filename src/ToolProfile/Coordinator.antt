-- ===== src/ToolProfile/Coordinator.antt =====
-- `CodexToolProfile` of src/integration/pi/codex-tool-profile.ts. Pi is an interface; a method
-- returns the new state of the profile and of the host, and the notices that it has sent.
use pi_codex_adaptor.Prelude.{
  ◌+◌, String, Bool, true, false, not, ◌&&◌, Option, none, some, List, [], ◌∷◌, ◌++◌, keep,
  mem_text, str_eq, if◌then◌else◌,
}
use pi_codex_adaptor.ToolProfile.Names.{
  is_pi_core, ordered_unique, reconcile_codex_active_tool_names, restore_pi_active_tool_names,
}
use pi_codex_adaptor.ToolProfile.State.{
  PiHost, Phase, SkillLoader, CodexProfileState, ProfileState, pi, codex, Readiness, inactive,
  healthy, Profile, same_names, ordered_managed, is_notified, expected_path, pending_state,
}
use pi_codex_adaptor.ToolProfile.Ownership.{
  tool_names, Ownership, owned, conflict, validate_managed_tool_ownership,
}

module _ (P : PiHost) where
  open P use {Host, active_tools, all_tools, set_active_tools}

  abbrev pub ProfileOf : Type 0
  ProfileOf = Profile Host

  unfoldable pub new_profile : Host → ProfileOf
  new_profile host = record {
    state = pi;
    readiness = inactive;
    generation = 0;
    notified = none;
    host = host;
    notices = [];
  }

  -- `#applyActiveNames`
  unfoldable pub apply_active_names : List String → Host → Host
  unfolding same_names
  apply_active_names next host =
      let ordered = ordered_unique next in
      if same_names (ordered_unique (active_tools host)) ordered
      then host
      else set_active_tools ordered host

  -- `#fallbackAvailableNames`
  unfoldable pub fallback_available_names : CodexProfileState → Host → List String
  fallback_available_names c host =
      active_tools host ++ (c.baseline_order ++ (c.suppressed_pi_core ++ c.active_managed))

  -- The names that are available: those of Pi's registry, if it can be read.
  unfoldable pub available_names : CodexProfileState → Host → List String
  unfolding fallback_available_names
  available_names c host = elim (all_tools host) [
    | none ↦ fallback_available_names c host
    | some tools ↦ tool_names tools
  ]

  -- `#ensureCodexState`
  unfoldable pub captured_state : Host → CodexProfileState
  captured_state host =
      let current = ordered_unique (active_tools host) in
      let available : List String = elim (all_tools host) [
        | none ↦ current
        | some tools ↦ tool_names tools
      ] in
      record {
        phase = Phase.pending;
        baseline_order = current;
        suppressed_pi_core = keep (λ name. is_pi_core name && mem_text name available) current;
        active_managed = [];
        skill_loader = none;
      }

  unfoldable pub codex_state : ProfileState → Host → CodexProfileState
  unfolding captured_state
  codex_state (codex c) host = c
  codex_state pi host = captured_state host

  unfoldable pub ensure_codex_state : ProfileOf → ProfileOf
  unfolding codex_state
  ensure_codex_state p = record p { state = codex (codex_state p.state p.host) }

  -- `#suppressManagedTools`; it returns false, and does nothing, outside the Codex state.
  unfoldable pub suppress_managed_tools : Phase → ProfileOf → ProfileOf × Bool
  unfolding apply_active_names available_names
  suppress_managed_tools phase p = elim p.state [
    | pi ↦ (p, false)
    | codex c ↦ (
      record p {
        host =
            apply_active_names
              (reconcile_codex_active_tool_names (active_tools p.host) (available_names c p.host)
                [])
              p.host;
        state = codex (pending_state c phase);
      },
      true,
    )
  ]

  unfoldable pub enter_pending : Option String → ProfileOf → ProfileOf
  unfolding ensure_codex_state suppress_managed_tools
  enter_pending key p =
      let q : ProfileOf = ensure_codex_state p in
      let r : ProfileOf = record q { generation = q.generation + 1; notified = none } in
      let (s, suppressed) = suppress_managed_tools Phase.pending r in
      if suppressed then record s { readiness = Readiness.pending key } else s

  -- The notification of `installUnavailable`, sent once for a generation. `notifies` says whether
  -- the caller has given `notify`.
  unfoldable pub notify_conflict : Option String → Bool → ProfileOf → ProfileOf
  notify_conflict none notifies p = p
  notify_conflict (some tool) notifies p =
      if notifies && not (is_notified p.notified p.generation)
      then record p { notified = some p.generation; notices = tool ∷ p.notices }
      else p

  unfoldable pub install_unavailable : Option String → Option String → Bool → ProfileOf → ProfileOf
  unfolding ensure_codex_state suppress_managed_tools notify_conflict
  install_unavailable key tool notifies p =
      let (s, suppressed) = suppress_managed_tools Phase.unavailable (ensure_codex_state p) in
      if suppressed
      then notify_conflict tool notifies (record s { readiness = Readiness.unavailable key })
      else s

  -- The profile with the names of a Codex state made active.
  unfoldable pub activate : CodexProfileState → List String → ProfileOf → ProfileOf
  unfolding apply_active_names available_names
  activate c active_managed p = record p {
    host =
        apply_active_names
          (reconcile_codex_active_tool_names (active_tools p.host) (available_names c p.host)
            active_managed)
          p.host;
  }

  unfoldable pub is_healthy : String → ProfileOf → Bool
  is_healthy key p = elim p.readiness [ healthy k ↦ str_eq k key | _ ↦ false ]

  -- The names that `restorePi` makes active.
  unfoldable pub restored_names : ProfileState → Host → List String
  restored_names pi host =
      restore_pi_active_tool_names (active_tools host)
        (elim (all_tools host) [ none ↦ active_tools host | some tools ↦ tool_names tools ]) none []
  restored_names (codex c) host =
      restore_pi_active_tool_names (active_tools host) (available_names c host)
        (some c.baseline_order) c.suppressed_pi_core

  unfoldable pub restore_pi : ProfileOf → ProfileOf
  unfolding apply_active_names restored_names
  restore_pi p = record p {
    host = apply_active_names (restored_names p.state p.host) p.host;
    state = pi;
    readiness = inactive;
  }

module _ (P : PiHost) (normalized_entry_path : String → String) (entry : Option String) where
  open P use {Host, all_tools}

  abbrev ownership_of : List String → Host → Ownership
  ownership_of active_managed host =
      validate_managed_tool_ownership normalized_entry_path (all_tools host) active_managed
        (expected_path normalized_entry_path entry)

  unfoldable pub install_healthy :
      String → List String → Option SkillLoader → Bool → ProfileOf P → ProfileOf P × Bool
  unfolding codex_state install_unavailable activate ordered_managed
  install_healthy key active_managed skill_loader notifies p =
      let c = codex_state P p.state p.host in
      let q : ProfileOf P = record p { state = codex c } in
      elim (ownership_of active_managed q.host) [
        | conflict tool ↦ (install_unavailable P (some key) tool notifies q, false)
        | owned ↦ (
          record (activate P c active_managed q) {
            state = codex (record c {
              phase = Phase.healthy;
              active_managed = ordered_managed active_managed;
              skill_loader = skill_loader;
            });
            readiness = Readiness.healthy key;
          },
          true,
        )
      ]

  abbrev key_of : Readiness → Option String
  key_of (healthy key) = some key
  key_of _ = none

  abbrev is_healthy_phase : Phase → Bool
  is_healthy_phase Phase.healthy = true
  is_healthy_phase _ = false

  unfoldable pub revalidate_state : CodexProfileState → Bool → ProfileOf P → ProfileOf P × Bool
  unfolding install_unavailable activate
  revalidate_state c notifies p =
      if is_healthy_phase c.phase
      then elim (ownership_of c.active_managed p.host) [
        | conflict tool ↦ (install_unavailable P (key_of p.readiness) tool notifies p, false)
        | owned ↦ (activate P c c.active_managed p, true)
      ]
      else (p, false)

  unfoldable pub revalidate_healthy_ownership : Bool → ProfileOf P → ProfileOf P × Bool
  unfolding revalidate_state
  revalidate_healthy_ownership notifies p = elim p.state [
    | pi ↦ (p, false)
    | codex c ↦ revalidate_state c notifies p
  ]
