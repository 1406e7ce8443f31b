-- ===== src/Config/Schema.antt =====
-- The types of src/domain/config.ts, and `createDefaultConfig`. The literal types become data
-- types. `schemaVersion` has one value, 3, and needs no field; a record with a `mode` alone
-- (`transport`, `webSearch`) is that mode.
use pi_codex_adaptor.Prelude.{ℕ, String, Bool, true, List, [], ◌∷◌}

pub data AutoOrOff : Type 0 where
  auto off : AutoOrOff

pub data ServiceTier : Type 0 where
  default priority flex : ServiceTier

pub data Verbosity : Type 0 where
  low medium high : Verbosity

pub data TransportMode : Type 0 where
  auto sse : TransportMode

pub data WebSearchMode : Type 0 where
  disabled cached indexed live : WebSearchMode

pub data ShellSurface : Type 0 where
  unified_exec shell_command disabled : ShellSurface

pub data ApprovalPolicy : Type 0 where
  on_request never : ApprovalPolicy

pub data FilesystemAccessPolicy : Type 0 where
  workspace unrestricted : FilesystemAccessPolicy

-- `"model" | number`; the parser lets positive safe integers through alone.
pub data TokenLimit : Type 0 where
  model : TokenLimit
  tokens : ℕ → TokenLimit

pub data CompactionConfig : Type 0 where
  off : CompactionConfig
  auto : TokenLimit → CompactionConfig

pub record Activation : Type 0 where
  pub providers : List String

pub record OptionalTools : Type 0 where
  pub view_image : AutoOrOff
  pub image_generation : AutoOrOff

pub record Tools : Type 0 where
  pub background_sessions : Bool
  pub optional : OptionalTools

pub record Security : Type 0 where
  pub approval_policy : ApprovalPolicy
  pub filesystem_access_policy : FilesystemAccessPolicy

pub record Codex : Type 0 where
  pub service_tier : ServiceTier
  pub verbosity : Verbosity
  pub transport : TransportMode
  pub web_search : WebSearchMode
  pub compaction : CompactionConfig

pub record Ui : Type 0 where
  pub status : Bool

pub record CodexConfig : Type 0 where
  pub activation : Activation
  pub tools : Tools
  pub security : Security
  pub codex : Codex
  pub ui : Ui

unfoldable pub create_default_config : CodexConfig
create_default_config = record {
  activation = record { providers = "openai-codex" ∷ [] };
  tools = record {
    background_sessions = true;
    optional = record { view_image = AutoOrOff.auto; image_generation = AutoOrOff.auto };
  };
  security = record { approval_policy = on_request; filesystem_access_policy = workspace };
  codex = record {
    service_tier = default;
    verbosity = low;
    transport = TransportMode.auto;
    web_search = cached;
    compaction = CompactionConfig.auto model;
  };
  ui = record { status = true };
}
