-- ===== src/ToolProfile/Examples.antt =====
-- The theorems on src/integration/pi/codex-tool-profile.ts with a Pi that keeps what it is given.
use pi_codex_adaptor.Prelude.{
  String, Bool, true, false, ◌&&◌, ◌≡◌, refl, none, some, List, [], ◌∷◌, All, keep, mem_text,
  Unique, arith, eq_iff,
}
use pi_codex_adaptor.ToolProfile.Names.{
  is_pi_core, is_managed, reconcile_codex_active_tool_names, restore_pi_active_tool_names,
}
use pi_codex_adaptor.ToolProfile.Ownership.{ToolInfo, tool_names}
use pi_codex_adaptor.ToolProfile.State.{
  PiHost, Phase, CodexProfileState, pi, codex, Readiness, Profile,
}
use pi_codex_adaptor.ToolProfile.Coordinator.{
  enter_pending, install_healthy, revalidate_healthy_ownership, restore_pi,
}
use pi_codex_adaptor.ToolProfile.RoundTrip.{restore-reconcile}
use pi_codex_adaptor.ToolProfile.Safety.{IsLawful}
use pi_codex_adaptor.ToolProfile.Profiles.{IsInstalled, install_healthy-IsInstalled}
use pi_codex_adaptor.ToolProfile.Restore.{restore_pi-enter_pending}

record Registry : Type 0 where
  active : List String
  tools : List ToolInfo

abbrev host : PiHost
host = record {
  Host = Registry;
  active_tools = λ h. h.active;
  all_tools = λ h. some h.tools;
  set_active_tools = λ names h. record h { active = names };
}

host-IsLawful : IsLawful host
host-IsLawful = record { active-set = λ names h tools e u k. refl; all_tools-set = λ names h. refl }

abbrev tool : String → ToolInfo
tool name = record { name = name; source_path = some "/extension.ts" }

abbrev tools : List ToolInfo
tools = tool "read" ∷ tool "bash" ∷ tool "notes" ∷ tool "exec_command" ∷ []

abbrev available : List String
available = "read" ∷ "bash" ∷ "notes" ∷ "exec_command" ∷ []

abbrev before : List String
before = "notes" ∷ "read" ∷ []

abbrev registry : Registry
registry = record { active = before; tools = tools }

abbrev fresh : Profile Registry
fresh = record {
  state = pi;
  readiness = Readiness.inactive;
  generation = 0;
  notified = none;
  host = registry;
  notices = [];
}

-- A healthy profile of exec_command.
abbrev managing : CodexProfileState
managing = record {
  phase = Phase.healthy;
  baseline_order = before;
  suppressed_pi_core = "read" ∷ [];
  active_managed = "exec_command" ∷ [];
  skill_loader = none;
}

abbrev working : Profile Registry
working = record fresh { state = codex managing; readiness = Readiness.healthy "key" }

abbrev same_path : String → String
same_path path = path

before-Unique : Unique before
before-Unique = ground (arith, eq_iff "read" "notes")

before-available : All (λ n. mem_text n available ≡ true) before
before-available = (refl, (refl, tt))

before_unmanaged : All (λ n. is_managed n ≡ false) before
unfolding is_managed
before_unmanaged = (refl, (refl, tt))

restore-reconcile_example :
    restore_pi_active_tool_names
      (reconcile_codex_active_tool_names before available [])
      available
      (some before)
      (keep (λ n. is_pi_core n && mem_text n available) before)
    ≡ before
restore-reconcile_example =
    restore-reconcile before available before-Unique before-available before_unmanaged

install_healthy-IsInstalled_example :
    IsInstalled host host-IsLawful "key" ("exec_command" ∷ []) fresh tools (
      install_healthy host same_path
        (some "/extension.ts")
        "key"
        ("exec_command" ∷ [])
        none
        true
        fresh)
install_healthy-IsInstalled_example =
    install_healthy-IsInstalled host host-IsLawful same_path (some "/extension.ts") "key"
      ("exec_command" ∷ []) none true fresh tools refl

abbrev revalidated : Profile Registry × Bool
revalidated = revalidate_healthy_ownership host same_path (some "/extension.ts") true working

restore_pi-enter_pending_example :
    ((restore_pi host (enter_pending host (some "key") fresh)).host.active ≡ before)
    × ((restore_pi host (enter_pending host (some "key") fresh)).state ≡ pi)
    × ((restore_pi host (enter_pending host (some "key") fresh)).readiness ≡ Readiness.inactive)
restore_pi-enter_pending_example =
    restore_pi-enter_pending host host-IsLawful (some "key") fresh tools refl refl before-Unique
      (unfold tool_names in before-available) before_unmanaged
