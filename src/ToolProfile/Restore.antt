-- ===== src/ToolProfile/Restore.antt =====
-- Entering the Codex profile of src/integration/pi/codex-tool-profile.ts and restoring Pi.
use pi_codex_adaptor.Prelude.{
  String, false, ◌≡◌, refl, sym, ◌∙◌, Option, some, List, [], All, Unique, Bool-cases, inl, inr,
}
use pi_codex_adaptor.ToolProfile.Names.{
  is_managed, ordered_unique, reconcile_codex_active_tool_names,
}
use pi_codex_adaptor.ToolProfile.Ownership.{ToolInfo, tool_names}
use pi_codex_adaptor.ToolProfile.State.{
  PiHost, same_names, pi, codex, CodexProfileState, Readiness, Phase, pending_state,
}
use pi_codex_adaptor.ToolProfile.Coordinator.{
  apply_active_names, codex_state, enter_pending, captured_state, available_names, restored_names,
  restore_pi, ProfileOf,
}
use pi_codex_adaptor.ToolProfile.Safety.{
  IsLawful, same_names-eq, Names, all_tools-apply_active_names, reconcile-Names,
}
use pi_codex_adaptor.ToolProfile.Sets.{reconcile-Unique}
use pi_codex_adaptor.ToolProfile.RoundTrip.{ordered_unique-Unique_self, restore-reconcile}

module _ (P : PiHost) (law : IsLawful P) where
  open P use {Host, active_tools, all_tools}

  -- Applying a list of distinct names over such a list makes it the active list, in order.
  apply_active_names-exact :
      (next : List String) (h : Host) (tools : List ToolInfo)
      → all_tools h ≡ some tools
      → Unique (active_tools h)
      → Unique next
      → Names P law tools next
      → active_tools (apply_active_names P next h) ≡ next
  unfolding apply_active_names
  apply_active_names-exact next h tools e u v k =
      elim (Bool-cases (same_names (ordered_unique (active_tools h)) (ordered_unique next))) [
        | inl same ↦ rw same (
            sym (ordered_unique-Unique_self (active_tools h) u)
            ∙ same_names-eq _ _ same
            ∙ ordered_unique-Unique_self next v)
        | inr other ↦
            rw (other, ordered_unique-Unique_self next v) (law.active-set next h tools e v k)
      ]

  available_names-registry :
      (c : CodexProfileState) (h : Host) (tools : List ToolInfo)
      → all_tools h ≡ some tools
      → available_names P c h ≡ tool_names tools
  unfolding available_names
  available_names-registry c h tools e = rw (e, available_names)

  module _ (h : Host) (tools : List ToolInfo) (e : all_tools h ≡ some tools)
      (u : Unique (active_tools h)) (k : Names P law tools (active_tools h))
      (m : All (λ n. is_managed n ≡ false) (active_tools h)) where
    -- The host under the pending profile.
    abbrev suspended : List String
    suspended = reconcile_codex_active_tool_names (active_tools h) (tool_names tools) []

    pending_host : Host
    pending_host = apply_active_names P suspended h

    active-pending_host : active_tools pending_host ≡ suspended
    unfolding pending_host
    active-pending_host =
        apply_active_names-exact suspended h tools e u
          (reconcile-Unique (active_tools h) (tool_names tools) [])
          (reconcile-Names P law (active_tools h) [] tools)

    all_tools-pending_host : all_tools pending_host ≡ some tools
    unfolding pending_host
    all_tools-pending_host = all_tools-apply_active_names P law suspended h ∙ e

    restored_names-pending_host :
        restored_names P (codex (pending_state (captured_state P h) Phase.pending)) pending_host
        ≡ active_tools h
    unfolding restored_names captured_state
    restored_names-pending_host =
        rw
          (
            available_names-registry _ pending_host tools all_tools-pending_host,
            active-pending_host,
            e,
            ordered_unique-Unique_self (active_tools h) u,
          )
          (restore-reconcile (active_tools h) (tool_names tools) u k m)

    active-restored :
        active_tools (
          apply_active_names P
            (restored_names P
              (codex (pending_state (captured_state P h) Phase.pending))
              pending_host)
            pending_host)
        ≡ active_tools h
    active-restored = rw restored_names-pending_host (
        apply_active_names-exact (active_tools h) pending_host tools all_tools-pending_host
          (rw active-pending_host (reconcile-Unique (active_tools h) (tool_names tools) [])) u k)

  -- With a lawful Pi whose registry can be read, entering the pending profile from the Pi state and
  -- restoring gives Pi its active tools back, in order, and the inactive Pi state, when these tools
  -- are distinct, registered and not managed.
  pub restore_pi-enter_pending :
      (key : Option String) (p : ProfileOf P) (tools : List ToolInfo)
      → p.state ≡ pi
      → all_tools p.host ≡ some tools
      → Unique (active_tools p.host)
      → Names P law tools (active_tools p.host)
      → All (λ n. is_managed n ≡ false) (active_tools p.host)
      → let q = restore_pi P (enter_pending P key p) in
        (active_tools q.host ≡ active_tools p.host)
        × (q.state ≡ pi)
        × (q.readiness ≡ Readiness.inactive)
  unfolding restore_pi enter_pending pending_host
  restore_pi-enter_pending key p tools es e u k m =
      rw (es, codex_state, available_names-registry (captured_state P p.host) p.host tools e)
        (active-restored p.host tools e u k m, refl, refl)
