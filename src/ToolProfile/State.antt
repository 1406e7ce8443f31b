-- ===== src/ToolProfile/State.antt =====
-- The state of `CodexToolProfile` of src/integration/pi/codex-tool-profile.ts. Pi is an interface.
use pi_codex_adaptor.Prelude.{
  ℕ, String, Bool, true, false, ◌&&◌, Option, none, some, List, [], ◌∷◌, keep, str_eq, ◌==◌,
}
use pi_codex_adaptor.ToolProfile.Names.{is_managed, ordered_unique}
use pi_codex_adaptor.ToolProfile.Ownership.{ToolInfo}

-- Pi's extension API: `getActiveTools`, `getAllTools` (none where it throws), `setActiveTools`.
pub record PiHost : Type 1 where
  pub Host : Type 0
  pub active_tools : Host → List String
  pub all_tools : Host → Option (List ToolInfo)
  pub set_active_tools : List String → Host → Host

pub data Phase : Type 0 where
  pending healthy unavailable : Phase

pub data SkillLoader : Type 0 where
  exec_command shell_command : SkillLoader

pub record CodexProfileState : Type 0 where
  pub phase : Phase
  pub baseline_order : List String
  pub suppressed_pi_core : List String
  pub active_managed : List String
  pub skill_loader : Option SkillLoader

pub data ProfileState : Type 0 where
  pi : ProfileState
  codex : CodexProfileState → ProfileState

pub data Readiness : Type 0 where
  inactive : Readiness
  pending unavailable : Option String → Readiness
  healthy : String → Readiness

-- The fields of the object, with Pi. `notified` is `#conflictNotificationGeneration`, none for -1;
-- `notices` are the tools of the notifications sent, the latest first.
pub record Profile (H : Type 0) : Type 0 where
  pub state : ProfileState
  pub readiness : Readiness
  pub generation : ℕ
  pub notified : Option ℕ
  pub host : H
  pub notices : List String

unfoldable pub same_names : List String → List String → Bool
same_names [] [] = true
same_names (a ∷ as') (b ∷ bs) = str_eq a b && same_names as' bs
same_names _ _ = false

unfoldable pub ordered_managed : List String → List String
ordered_managed names = keep is_managed (ordered_unique names)

-- `this.#conflictNotificationGeneration === this.#profileGeneration`
abbrev pub is_notified : Option ℕ → ℕ → Bool
is_notified none generation = false
is_notified (some n) generation = n == generation

-- `expectedEntryPath` as the constructor keeps it.
abbrev pub expected_path : (String → String) → Option String → Option String
expected_path normalize none = none
expected_path normalize (some path) = some (normalize path)

abbrev pub pending_state : CodexProfileState → Phase → CodexProfileState
pending_state c phase = record c { phase = phase; active_managed = []; skill_loader = none }
