-- ===== src/Storage/Loading.antt =====
-- `loadOrCreate` and `restoreBackup` of src/infrastructure/configuration/file-config-repository.ts.
use pi_codex_adaptor.Prelude.{true, false, ◌≡◌, refl, subst, Option, some, none, ◌∙◌}
use pi_codex_adaptor.Config.Schema.{CodexConfig}
use pi_codex_adaptor.Config.Parse.{Result, ok, err, parse_config}
use pi_codex_adaptor.Storage.Disk.{
  Content, json, not_json, Files, FilePath, config_file, backup_file, content, Fault, works, fails,
  dies, created, Error, World, ◌>>=◌, return, throw, catch, next_fault, later_faults,
}
use pi_codex_adaptor.Storage.Repository.{
  touch, serialize, lift_result, parse_content, read_to, read_file, no_backup, open_new_to,
  open_new, not_created, create_if_missing, load_or_create, reading_failed, read_config,
  restore_backup,
}
use pi_codex_adaptor.Storage.Triples.{
  After, Triple, return-Triple, throw-Triple, catch-Triple, bind-Triple, assume-Triple,
}
use pi_codex_adaptor.Storage.Atomic.{touch-Triple, atomic_write-Triple}
use pi_codex_adaptor.Storage.Saving.{valid_in, result_config, Before}

lifted-After :
    (p : Files → Type 0) (r : Result CodexConfig) (w : World)
    → p w.files
    → After (λ c d. p d × (result_config r ≡ some c)) p (lift_result r w)
unfolding return throw
lifted-After p (ok c) w x = (x, refl)
lifted-After p (err issues) w x = x

read-After :
    (p : Files → Type 0) (f : Fault) (o : Option Content) (w : World)
    → p w.files
    → After
        (λ c d. p d × (valid_in o ≡ some c))
        p
        ((catch (λ u. read_to f o w) reading_failed >>= parse_content) w)
unfolding catch ◌>>=◌ return throw
read-After p fails o w x = x
read-After p dies o w x = x
read-After p works none w x = x
read-After p (created c) none w x = x
read-After p works (some not_json) w x = x
read-After p (created c) (some not_json) w x = x
read-After p works (some (json v)) w x = lifted-After p (parse_config v) w x
read-After p (created c) (some (json v)) w x = lifted-After p (parse_config v) w x

-- What is read is what the file holds, and reading leaves the files as they are.
pub read_config-Triple :
    (p : Files → Type 0) (path : FilePath) (o : Option Content)
    → ((d : Files) → p d → content path d ≡ o)
    → Triple p (read_config path) (λ c d. p d × (valid_in o ≡ some c)) p
unfolding read_config read_file catch ◌>>=◌ return throw
read_config-Triple p path o at = record {
  holds = λ w x.
      subst (λ a. After (λ c d. p d × (valid_in a ≡ some c)) p (read_config path w)) (at w.files x)
        (read-After p (next_fault w.faults) (content path w.files)
          (record { files = w.files; faults = later_faults w.faults }) x);
}

no_backup-Triple :
    (p : Files → Type 0) (q : CodexConfig → Files → Type 0) (e : Error) → Triple p (no_backup e) q p
no_backup-Triple p q Error.missing = throw-Triple _ (λ d x. x)
no_backup-Triple p q Error.existing = throw-Triple _ (λ d x. x)
no_backup-Triple p q Error.io_error = throw-Triple _ (λ d x. x)
no_backup-Triple p q (Error.schema issues) = throw-Triple _ (λ d x. x)
no_backup-Triple p q Error.backup_unavailable = throw-Triple _ (λ d x. x)
no_backup-Triple p q Error.invalid_json = throw-Triple _ (λ d x. x)
no_backup-Triple p q Error.storage_failure = throw-Triple _ (λ d x. x)

pub restore_backup-Triple :
    (c0 b0 : Option Content)
    → Triple
        (Before c0 b0)
        restore_backup
        (λ c d. (valid_in b0 ≡ some c) × ((d.config ≡ some (serialize c)) × (d.backup ≡ b0)))
        (Before c0 b0)
unfolding restore_backup
restore_backup-Triple c0 b0 =
    bind-Triple (λ c d. Before c0 b0 d × (valid_in b0 ≡ some c)) _ _
      (catch-Triple (Before c0 b0) _ _ (λ d x. x)
        (read_config-Triple (Before c0 b0) backup_file b0 (λ d x. x.1))
        (no_backup-Triple (Before c0 b0) _))
      (λ c. assume-Triple (valid_in b0 ≡ some c) (λ e.
        bind-Triple (λ a d. (d.config ≡ some (serialize c)) × (d.backup ≡ b0)) _ _
          (atomic_write-Triple (Before c0 b0)
            (λ d. (d.config ≡ some (serialize c)) × (d.backup ≡ b0)) (λ d t x. x) config_file
            (serialize c) (λ d (x, y). (refl, y)))
          (λ a. return-Triple c (λ d x. (e, x)))))

module _ (c0 b0 : Option Content) (x : Content) (at : c0 ≡ some x) where
  -- Another file is never opened as a new one.
  open-After :
      (f : Fault) (o : Option Content) (w : World)
      → o ≡ some x
      → Before c0 b0 w.files
      → After (λ a d. false ≡ true) (Before c0 b0) (open_new_to f o w)
  open-After fails o w e y = y
  open-After dies o w e y = y
  open-After works (some k) w e y = y
  open-After (created c) (some k) w e y = y
  open-After works none w e y = absurd (cc)
  open-After (created c) none w e y = absurd (cc)

  open_new-Triple : Triple (Before c0 b0) open_new (λ a d. false ≡ true) (Before c0 b0)
  unfolding open_new
  open_new-Triple = record {
    holds = λ w y.
        open-After (next_fault w.faults) w.files.config
          (record { files = w.files; faults = later_faults w.faults }) (y.0 ∙ at) y;
  }

  not_created-Triple :
      (e : Error)
      → Triple
          (Before c0 b0)
          (not_created e)
          (λ c d. Before c0 b0 d × (valid_in c0 ≡ some c))
          (Before c0 b0)
  not_created-Triple Error.missing = throw-Triple _ (λ d x. x)
  not_created-Triple Error.existing = read_config-Triple (Before c0 b0) config_file c0 (λ d x. x.0)
  not_created-Triple Error.io_error = throw-Triple _ (λ d x. x)
  not_created-Triple (Error.schema issues) = throw-Triple _ (λ d x. x)
  not_created-Triple Error.backup_unavailable = throw-Triple _ (λ d x. x)
  not_created-Triple Error.invalid_json = throw-Triple _ (λ d x. x)
  not_created-Triple Error.storage_failure = throw-Triple _ (λ d x. x)

  create_if_missing-Triple :
      (e : Error)
      → Triple
          (Before c0 b0)
          (create_if_missing e)
          (λ c d. Before c0 b0 d × (valid_in c0 ≡ some c))
          (Before c0 b0)
  create_if_missing-Triple Error.missing =
      bind-Triple (λ a. Before c0 b0) touch _ (touch-Triple (Before c0 b0))
        (λ made.
          catch-Triple (Before c0 b0) _ _ (λ d y. y)
            (bind-Triple (λ a d. false ≡ true) open_new _ open_new-Triple
              (λ opened. record { holds = λ w y. absurd (cc) }))
            not_created-Triple)
  create_if_missing-Triple Error.existing = throw-Triple _ (λ d x. x)
  create_if_missing-Triple Error.io_error = throw-Triple _ (λ d x. x)
  create_if_missing-Triple (Error.schema issues) = throw-Triple _ (λ d x. x)
  create_if_missing-Triple Error.backup_unavailable = throw-Triple _ (λ d x. x)
  create_if_missing-Triple Error.invalid_json = throw-Triple _ (λ d x. x)
  create_if_missing-Triple Error.storage_failure = throw-Triple _ (λ d x. x)

  pub load_or_create-Triple :
      Triple
        (Before c0 b0)
        load_or_create
        (λ c d. Before c0 b0 d × (valid_in c0 ≡ some c))
        (Before c0 b0)
  unfolding load_or_create
  load_or_create-Triple =
      catch-Triple (Before c0 b0) _ _ (λ d y. y)
        (read_config-Triple (Before c0 b0) config_file c0 (λ d y. y.0)) create_if_missing-Triple

-- Whatever fails and wherever the process dies, restoring either finishes, with the valid
-- configuration of the backup in the file, or leaves the file as it was; the backup stays.
pub restore_backup-After :
    (w : World)
    → After
        (λ c d.
          (valid_in w.files.backup ≡ some c)
          × ((d.config ≡ some (serialize c)) × (d.backup ≡ w.files.backup)))
        (Before w.files.config w.files.backup)
        (restore_backup w)
restore_backup-After w = (restore_backup-Triple w.files.config w.files.backup).holds w (refl, refl)
