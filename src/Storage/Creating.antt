-- ===== src/Storage/Creating.antt =====
-- `loadOrCreate` of src/infrastructure/configuration/file-config-repository.ts where there may be no file.
use pi_codex_adaptor.Prelude.{
  Bool, true, ◌≡◌, refl, Option, some, none, ap, ◌∙◌, codes, trim, trim_start, is_space,
  utf16_length, codes_eq, false,
}
use pi_codex_adaptor.Config.Schema.{CodexConfig, create_default_config}
use pi_codex_adaptor.Config.Parse.{is_bad_provider}
use pi_codex_adaptor.Config.Valid.{IsValid, is_bad_provider_iff}
use pi_codex_adaptor.Config.RoundTrip.{parse_config-encode_config}
use pi_codex_adaptor.Storage.Disk.{
  Content, Files, config_file, Fault, works, fails, dies, created, Error, io_error, World, ◌>>=◌,
  catch, throw, return, next_fault, later_faults,
}
use pi_codex_adaptor.Storage.Repository.{
  touch, serialize, open_new_to, open_new, write_new, not_created, create_if_missing,
  load_or_create, read_config,
}
use pi_codex_adaptor.Storage.Triples.{
  After, Triple, return-Triple, throw-Triple, catch-Triple, bind-Triple, weaken-Triple, ran-After,
  after-Triple,
}
use pi_codex_adaptor.Storage.Atomic.{touch-Triple, closing-Triple}
use pi_codex_adaptor.Storage.Saving.{valid_in, result_config, Before}
use pi_codex_adaptor.Storage.Loading.{read_config-Triple, load_or_create-Triple}

codex_is_plain : is_bad_provider (codes "openai-codex") ≡ false
unfolding is_bad_provider trim trim_start is_space utf16_length codes_eq
codex_is_plain = refl

pub create_default_config-IsValid : IsValid create_default_config
unfolding create_default_config
create_default_config-IsValid = record {
  activation = record {
    some_provider = λ h. cc;
    provider_ids = ((is_bad_provider_iff (codes "openai-codex")).0 codex_is_plain, tt);
    unique = (tt, tt);
  };
  limit = tt;
}

module _ (b0 : Option Content) where
  abbrev BackupKept : Files → Type 0
  BackupKept d = d.backup ≡ b0

  abbrev Holds : CodexConfig → Files → Type 0
  Holds c d = (valid_in d.config ≡ some c) × (d.backup ≡ b0)

  abbrev Created : Bool → Files → Type 0
  Created a d = (d.config ≡ some (serialize create_default_config)) × (d.backup ≡ b0)

  config_read-Triple : Triple BackupKept (read_config config_file) Holds BackupKept
  config_read-Triple = record {
    holds = λ w x.
        (weaken-Triple (λ d y. y.1)
            (after-Triple (λ c d ((y, z), e). (ap valid_in y ∙ e, z))
              (read_config-Triple (Before w.files.config b0) config_file w.files.config
                (λ d y. y.0)))).holds
          w (refl, x);
  }

  open-After :
      (f : Fault) (o : Option Content) (w : World)
      → BackupKept w.files
      → After (λ a. BackupKept) BackupKept (open_new_to f o w)
  open-After fails o w y = y
  open-After dies o w y = y
  open-After works (some k) w y = y
  open-After (created c) (some k) w y = y
  open-After works none w y = y
  open-After (created c) none w y = y

  open_new-Triple : Triple BackupKept open_new (λ a. BackupKept) BackupKept
  unfolding open_new
  open_new-Triple = record {
    holds = λ w y.
        open-After (next_fault w.faults) w.files.config
          (record { files = w.files; faults = later_faults w.faults }) y;
  }

  write_new-Triple :
      Triple BackupKept (write_new (serialize create_default_config)) Created BackupKept
  unfolding write_new
  write_new-Triple = record {
    holds = λ w y.
        ran-After Created BackupKept (next_fault w.faults) io_error true w.files
          (record w.files { config = some (serialize create_default_config) })
          (later_faults w.faults) y (refl, y);
  }

  still-Triple : Triple (Created true) touch Created BackupKept
  still-Triple = weaken-Triple (λ d x. x.1) (touch-Triple (Created true))

  default-Holds : (d : Files) → Created true d → Holds create_default_config d
  default-Holds d (x, y) = (
    ap valid_in x
        ∙ ap result_config
            (parse_config-encode_config create_default_config create_default_config-IsValid),
    y,
  )

  created-Triple :
      Triple BackupKept
        (open_new >>= λ opened.
          catch
            (write_new (serialize create_default_config) >>= λ b. touch)
            (λ e. touch >>= λ b. throw e)
          >>= λ written. touch >>= λ closed. return create_default_config)
        Holds
        BackupKept
  created-Triple =
      bind-Triple (λ a. BackupKept) open_new _ open_new-Triple
        (λ opened.
          bind-Triple Created _ _
            (catch-Triple BackupKept _ _ (λ d x. x)
              (bind-Triple Created _ _ write_new-Triple (λ b. still-Triple))
              (λ e. closing-Triple BackupKept Created e))
            (λ written.
              bind-Triple Created touch _ still-Triple
                (λ closed. return-Triple create_default_config default-Holds)))

  not_created-Triple : (e : Error) → Triple BackupKept (not_created e) Holds BackupKept
  not_created-Triple Error.missing = throw-Triple _ (λ d x. x)
  not_created-Triple Error.existing = config_read-Triple
  not_created-Triple Error.io_error = throw-Triple _ (λ d x. x)
  not_created-Triple (Error.schema issues) = throw-Triple _ (λ d x. x)
  not_created-Triple Error.backup_unavailable = throw-Triple _ (λ d x. x)
  not_created-Triple Error.invalid_json = throw-Triple _ (λ d x. x)
  not_created-Triple Error.storage_failure = throw-Triple _ (λ d x. x)

  create_if_missing-Triple : (e : Error) → Triple BackupKept (create_if_missing e) Holds BackupKept
  create_if_missing-Triple Error.missing =
      bind-Triple (λ a. BackupKept) touch _ (touch-Triple BackupKept)
        (λ made. catch-Triple BackupKept _ _ (λ d x. x) created-Triple not_created-Triple)
  create_if_missing-Triple Error.existing = throw-Triple _ (λ d x. x)
  create_if_missing-Triple Error.io_error = throw-Triple _ (λ d x. x)
  create_if_missing-Triple (Error.schema issues) = throw-Triple _ (λ d x. x)
  create_if_missing-Triple Error.backup_unavailable = throw-Triple _ (λ d x. x)
  create_if_missing-Triple Error.invalid_json = throw-Triple _ (λ d x. x)
  create_if_missing-Triple Error.storage_failure = throw-Triple _ (λ d x. x)

  load_or_create-Holds : Triple BackupKept load_or_create Holds BackupKept
  unfolding load_or_create
  load_or_create-Holds =
      catch-Triple BackupKept _ _ (λ d x. x) config_read-Triple create_if_missing-Triple

-- A file that is there is as it was.
abbrev pub Kept : Option Content → Option Content → Type 0
Kept none o = Unit
Kept (some x) o = o ≡ some x

loaded-Kept :
    (w : World) (o : Option Content)
    → w.files.config ≡ o
    → After
        (λ c d. (valid_in d.config ≡ some c) × (Kept o d.config × (d.backup ≡ w.files.backup)))
        (λ d. Kept o d.config × (d.backup ≡ w.files.backup))
        (load_or_create w)
loaded-Kept w none e =
    (weaken-Triple (λ d y. (tt, y))
        (after-Triple (λ c d (y, z). (y, (tt, z))) (load_or_create-Holds w.files.backup))).holds
      w refl
loaded-Kept w (some x) e =
    (weaken-Triple (λ d (y, z). (y ∙ e, z))
        (after-Triple (λ c d ((y, z), v). (ap valid_in y ∙ v, (y ∙ e, z)))
          (load_or_create-Triple w.files.config w.files.backup x e))).holds
      w (refl, refl)

-- Whatever fails and wherever the process dies, a file that is there is not changed by loading, nor
-- is the backup; where loading finishes, the file then holds the configuration that is returned,
-- also where there was none.
pub load_or_create-Kept :
    (w : World)
    → After
        (λ c d.
          (valid_in d.config ≡ some c)
          × (Kept w.files.config d.config × (d.backup ≡ w.files.backup)))
        (λ d. Kept w.files.config d.config × (d.backup ≡ w.files.backup))
        (load_or_create w)
load_or_create-Kept w = loaded-Kept w w.files.config refl
