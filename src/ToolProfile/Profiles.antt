-- ===== src/ToolProfile/Profiles.antt =====
-- The profiles that the coordinator of src/integration/pi/codex-tool-profile.ts installs: which
-- tools each leaves active, when Pi's registry can be read.
use pi_codex_adaptor.Prelude.{
  String, Bool, ◌&&◌, ◌||◌, ◌≡◌, refl, ap, ◌∙◌, Option, none, some, List, [], mem_text, arith,
  if◌then◌else◌,
}
use pi_codex_adaptor.ToolProfile.Names.{is_additive}
use pi_codex_adaptor.ToolProfile.Ownership.{
  ToolInfo, tool_names, Ownership, owned, conflict, validate_managed_tool_ownership,
}
use pi_codex_adaptor.ToolProfile.State.{
  PiHost, codex, CodexProfileState, Readiness, SkillLoader, expected_path, Phase,
}
use pi_codex_adaptor.ToolProfile.Coordinator.{
  codex_state, ensure_codex_state, suppress_managed_tools, enter_pending, install_unavailable,
  install_healthy, notify_conflict, ProfileOf, revalidate_healthy_ownership, revalidate_state,
}
use pi_codex_adaptor.ToolProfile.Safety.{IsLawful, validate-owned, reconciled-active}

module _ (P : PiHost) (law : IsLawful P) where
  open P use {Host, active_tools, all_tools, set_active_tools}

  host-notify_conflict :
      (tool : Option String) (notifies : Bool) (p : ProfileOf P)
      → (notify_conflict P tool notifies p).host ≡ p.host
  unfolding notify_conflict
  host-notify_conflict none notifies p = refl
  host-notify_conflict (some tool) notifies p = ground arith

  -- With a lawful Pi whose registry can be read, the unavailable profile leaves active exactly the
  -- additive tools that were active and that the host has.
  pub install_unavailable-active :
      (key tool : Option String) (notifies : Bool) (p : ProfileOf P) (tools : List ToolInfo)
      → all_tools p.host ≡ some tools
      → (s : String)
      → mem_text s (active_tools (install_unavailable P key tool notifies p).host)
        ≡ (mem_text s (active_tools p.host) && is_additive (tool_names tools) s)
  unfolding install_unavailable ensure_codex_state suppress_managed_tools
  install_unavailable-active key tool notifies p tools e s =
      ap (λ h. mem_text s (active_tools h)) (host-notify_conflict tool notifies _)
      ∙ reconciled-active P law (codex_state P p.state p.host) [] p.host tools e s
      ∙ ground arith

  -- With a lawful Pi whose registry can be read, the pending profile leaves active exactly the
  -- additive tools that were active and that the host has.
  pub enter_pending-active :
      (key : Option String) (p : ProfileOf P) (tools : List ToolInfo)
      → all_tools p.host ≡ some tools
      → (s : String)
      → mem_text s (active_tools (enter_pending P key p).host)
        ≡ (mem_text s (active_tools p.host) && is_additive (tool_names tools) s)
  unfolding enter_pending ensure_codex_state suppress_managed_tools
  enter_pending-active key p tools e s =
      reconciled-active P law (codex_state P p.state p.host) [] p.host tools e s ∙ ground arith

  readiness-notify_conflict :
      (tool : Option String) (notifies : Bool) (p : ProfileOf P)
      → (notify_conflict P tool notifies p).readiness ≡ p.readiness
  unfolding notify_conflict
  readiness-notify_conflict none notifies p = refl
  readiness-notify_conflict (some tool) notifies p = ground arith

  readiness-install_unavailable :
      (key tool : Option String) (notifies : Bool) (p : ProfileOf P)
      → (install_unavailable P key tool notifies p).readiness ≡ Readiness.unavailable key
  unfolding install_unavailable ensure_codex_state suppress_managed_tools
  readiness-install_unavailable key tool notifies p = readiness-notify_conflict tool notifies _

  -- The result of an installation: true with the healthy readiness and the managed tools asked for
  -- beside the additive ones, false with the unavailable readiness and the additive tools alone.
  abbrev pub IsInstalled :
      String → List String → ProfileOf P → List ToolInfo → ProfileOf P × Bool → Type 0
  IsInstalled key managed p tools r =
      (r.0.readiness ≡ (if r.1 then Readiness.healthy key else Readiness.unavailable (some key)))
      × ((s : String)
          → mem_text s (active_tools r.0.host) ≡ (
              (mem_text s (active_tools p.host) && is_additive (tool_names tools) s)
              || (r.1 && mem_text s managed)))

  -- With a lawful Pi whose registry can be read, installHealthy either activates all managed tools
  -- asked for beside the additive tools that were active and reports true, or fails closed with the
  -- additive tools alone and reports false.
  pub install_healthy-IsInstalled :
      (norm : String → String) (entry : Option String) (key : String) (managed : List String)
      (loader : Option SkillLoader) (notifies : Bool) (p : ProfileOf P) (tools : List ToolInfo)
      → all_tools p.host ≡ some tools
      → IsInstalled key managed p tools (install_healthy P norm entry key managed loader notifies p)
  unfolding install_healthy
  install_healthy-IsInstalled norm entry key managed loader notifies p tools e = by_ownership _ refl
    where
      q : ProfileOf P
      q = record p { state = codex (codex_state P p.state p.host) }

      by_ownership :
          (o : Ownership)
          → validate_managed_tool_ownership norm
              (all_tools p.host)
              managed
              (expected_path norm entry)
            ≡ o
          → IsInstalled key managed p tools
              (install_healthy P norm entry key managed loader notifies p)
      by_ownership (conflict tool) o =
          rw (o, install_healthy)
            (
              readiness-install_unavailable (some key) tool notifies q,
              λ s. install_unavailable-active (some key) tool notifies q tools e s ∙ ground arith,
            )
      by_ownership owned o =
          rw (o, install_healthy)
            (
              refl,
              λ s.
                  reconciled-active P law (codex_state P p.state p.host) managed p.host tools e s
                  ∙ ground (
                    arith,
                    validate-owned norm tools managed (expected_path norm entry) s (rw e at o),
                  ),
            )

  abbrev IsRevalidated :
      CodexProfileState → ProfileOf P → List ToolInfo → ProfileOf P × Bool → Type 0
  IsRevalidated c p tools r =
      (s : String)
      → mem_text s (active_tools r.0.host) ≡ (
          (mem_text s (active_tools p.host) && is_additive (tool_names tools) s)
          || (r.1 && mem_text s c.active_managed))

  revalidate_state-IsRevalidated :
      (norm : String → String) (entry : Option String) (notifies : Bool) (p : ProfileOf P)
      (c : CodexProfileState) (tools : List ToolInfo) (o : Ownership)
      → c.phase ≡ Phase.healthy
      → all_tools p.host ≡ some tools
      → validate_managed_tool_ownership norm
          (all_tools p.host)
          c.active_managed
          (expected_path norm entry)
        ≡ o
      → IsRevalidated c p tools (revalidate_state P norm entry c notifies p)
  unfolding revalidate_state
  revalidate_state-IsRevalidated norm entry notifies p c tools (conflict tool) eh e o =
      rw (eh, o, revalidate_state)
        λ s. install_unavailable-active _ tool notifies p tools e s ∙ ground arith
  revalidate_state-IsRevalidated norm entry notifies p c tools owned eh e o =
      rw (eh, o, revalidate_state)
        λ s.
          reconciled-active P law c c.active_managed p.host tools e s
          ∙ ground (
            arith,
            validate-owned norm tools c.active_managed (expected_path norm entry) s (rw e at o),
          )

  -- With a lawful Pi whose registry can be read, revalidateHealthyOwnership of a healthy profile
  -- keeps its managed tools active as long as the check passes, and fails closed once it does not.
  pub revalidate-IsRevalidated :
      (norm : String → String) (entry : Option String) (notifies : Bool) (p : ProfileOf P)
      (c : CodexProfileState) (tools : List ToolInfo)
      → p.state ≡ codex c
      → c.phase ≡ Phase.healthy
      → all_tools p.host ≡ some tools
      → IsRevalidated c p tools (revalidate_healthy_ownership P norm entry notifies p)
  unfolding revalidate_healthy_ownership
  revalidate-IsRevalidated norm entry notifies p c tools es eh e =
      rw (es, revalidate_healthy_ownership)
        (revalidate_state-IsRevalidated norm entry notifies p c tools _ eh e refl)
