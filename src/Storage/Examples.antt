-- ===== src/Storage/Examples.antt =====
-- The theorems on the configuration file at concrete files and faults.
use pi_codex_adaptor.Prelude.{◌≡◌, refl, some, none, [], ◌∷◌}
use pi_codex_adaptor.Config.Schema.{CodexConfig, create_default_config, CompactionConfig}
use pi_codex_adaptor.Config.Context.{empty_context}
use pi_codex_adaptor.Config.Encode.{encode_config}
use pi_codex_adaptor.Config.Parse.{ok, parse_config}
use pi_codex_adaptor.Config.Valid.{IsValid}
use pi_codex_adaptor.Storage.Disk.{not_json, Files, works, fails, dies, World, finished, ◌>>=◌}
use pi_codex_adaptor.Storage.Repository.{serialize, save, restore_backup, load_or_create}
use pi_codex_adaptor.Storage.Triples.{After}
use pi_codex_adaptor.Storage.Saving.{Before, Unsaved, SavedAs, valid_in, save-After}
use pi_codex_adaptor.Storage.Loading.{restore_backup-After}
use pi_codex_adaptor.Storage.Creating.{create_default_config-IsValid, Kept, load_or_create-Kept}
use pi_codex_adaptor.Storage.Undone.{calm, restore_backup-save}
use pi_codex_adaptor.Storage.Listeners.{Service}
use pi_codex_adaptor.Storage.Service.{IsApplied, apply_draft, apply_draft-IsApplied}

-- The default configuration without compaction.
abbrev uncompacted : CodexConfig
uncompacted = record create_default_config {
  codex = record create_default_config.codex { compaction = CompactionConfig.off };
}

uncompacted-IsValid : IsValid uncompacted
unfolding create_default_config
uncompacted-IsValid = record { activation = create_default_config-IsValid.activation; limit = tt }

abbrev default_files : Files
default_files = record {
  config = some (serialize create_default_config);
  backup = none;
  temporary = none;
}

-- The process dies when the temporary file is written.
abbrev dying : World
dying = record { files = default_files; faults = works ∷ works ∷ works ∷ dies ∷ [] }

-- A broken file with a backup, and a disk that fails once.
abbrev broken : World
broken = record {
  files = record {
    config = some not_json;
    backup = some (serialize uncompacted);
    temporary = none;
  };
  faults = works ∷ fails ∷ [];
}

save-After_example :
    After
      (λ a d.
        (v : CodexConfig) × ((parse_config (encode_config uncompacted) ≡ ok v)
          × SavedAs (some (serialize create_default_config)) none v d))
      (Unsaved (some (serialize create_default_config)) none)
      (save uncompacted dying)
save-After_example = save-After uncompacted dying

restore_backup-After_example :
    After
      (λ c d.
        (valid_in (some (serialize uncompacted)) ≡ some c)
        × ((d.config ≡ some (serialize c)) × (d.backup ≡ some (serialize uncompacted))))
      (Before (some not_json) (some (serialize uncompacted)))
      (restore_backup broken)
restore_backup-After_example = restore_backup-After broken

load_or_create-Kept_example :
    After
      (λ c d.
        (valid_in d.config ≡ some c)
        × (Kept (some not_json) d.config × (d.backup ≡ some (serialize uncompacted))))
      (λ d. Kept (some not_json) d.config × (d.backup ≡ some (serialize uncompacted)))
      (load_or_create broken)
load_or_create-Kept_example = load_or_create-Kept broken

restore_backup-save_example :
    (save uncompacted >>= λ a. restore_backup) (calm default_files)
    ≡ finished create_default_config (
        calm (record {
          config = some (serialize create_default_config);
          backup = some (serialize create_default_config);
          temporary = none;
        }))
restore_backup-save_example =
    restore_backup-save create_default_config uncompacted default_files
      create_default_config-IsValid uncompacted-IsValid refl

abbrev two_listeners : Service
two_listeners = record { listeners = 0 ∷ 1 ∷ []; told = [] }

apply_draft-IsApplied_example :
    IsApplied
      (encode_config uncompacted)
      empty_context
      two_listeners
      dying
      (apply_draft (encode_config uncompacted) empty_context two_listeners dying)
apply_draft-IsApplied_example =
    apply_draft-IsApplied (encode_config uncompacted) empty_context two_listeners dying
