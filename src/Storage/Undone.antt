-- ===== src/Storage/Undone.antt =====
-- `save` and `restoreBackup` of src/infrastructure/configuration/file-config-repository.ts where nothing
-- fails: they finish, and the second undoes the first.
use pi_codex_adaptor.Prelude.{true, ◌≡◌, refl, Option, some, none, [], ap, ◌∙◌}
use pi_codex_adaptor.Config.Schema.{CodexConfig}
use pi_codex_adaptor.Config.Parse.{Result, ok, err, parse_config}
use pi_codex_adaptor.Config.Valid.{IsValid}
use pi_codex_adaptor.Config.RoundTrip.{parse_config-encode_config}
use pi_codex_adaptor.Storage.Disk.{
  Content, json, not_json, Files, FilePath, config_file, backup_file, content, put, works, World,
  finished, then_run, or_else, ◌>>=◌, return, throw, catch,
}
use pi_codex_adaptor.Storage.Repository.{
  touch, open_temporary, write_temporary, rename, atomic_write, serialize, lift_result,
  parse_content, read_file, no_backup, read_to, create_if_missing, load_or_create, no_current,
  reading_failed, read_config, read_valid_current, back_up, restore_backup, save,
}
use pi_codex_adaptor.Storage.Saving.{valid_in, result_config, backup_after}

-- Nothing fails from here on.
abbrev pub calm : Files → World
calm d = record { files = d; faults = [] }

abbrev pub written : FilePath → Content → Files → Files
written path c d = record (put path (some c) d) { temporary = none }

atomic_write-calm :
    (path : FilePath) (c : Content) (d : Files)
    → atomic_write path c (calm d) ≡ finished true (calm (written path c d))
unfolding atomic_write open_temporary write_temporary touch rename catch ◌>>=◌ throw return
atomic_write-calm config_file c d = refl
atomic_write-calm backup_file c d = refl

lifted-calm :
    (r : Result CodexConfig) (d : Files)
    → catch (lift_result r >>= λ c. return (some c)) no_current (calm d)
      ≡ finished (result_config r) (calm d)
unfolding catch ◌>>=◌ throw return
lifted-calm (ok c) d = refl
lifted-calm (err issues) d = refl

read_valid_current-calm :
    (c b t : Option Content)
    → read_valid_current (calm (record { config = c; backup = b; temporary = t }))
      ≡ finished (valid_in c) (calm (record { config = c; backup = b; temporary = t }))
unfolding read_valid_current read_config read_file catch ◌>>=◌ throw return
read_valid_current-calm none b t = refl
read_valid_current-calm (some not_json) b t = refl
read_valid_current-calm (some (json v)) b t =
    lifted-calm (parse_config v) (record { config = some (json v); backup = b; temporary = t })

-- The files after a save.
abbrev pub saved : CodexConfig → Files → Files
saved c d = record {
  config = some (serialize c);
  backup = backup_after (valid_in d.config) d.backup;
  temporary = none;
}

stored-calm :
    (o : Option CodexConfig) (c : CodexConfig) (d : Files)
    → (back_up o >>= λ kept. atomic_write config_file (serialize c)) (calm d)
      ≡ finished true (
          calm (record {
            config = some (serialize c);
            backup = backup_after o d.backup;
            temporary = none;
          }))
unfolding ◌>>=◌ return
stored-calm none c d = atomic_write-calm config_file (serialize c) d
stored-calm (some old) c d =
    ap (λ r. then_run r (λ kept. atomic_write config_file (serialize c)))
      (atomic_write-calm backup_file (serialize old) d)
    ∙ atomic_write-calm config_file (serialize c) (written backup_file (serialize old) d)

-- Where nothing fails, saving a valid configuration finishes: it is in its file, and what was valid
-- there is the backup.
pub save-calm :
    (c : CodexConfig) (d : Files) → IsValid c → save c (calm d) ≡ finished true (calm (saved c d))
unfolding save touch ◌>>=◌ return
save-calm c d h =
    ap
      (λ r.
        (lift_result r >>= λ v. touch >>= λ made. read_valid_current >>= λ current.
        back_up current >>= λ kept. atomic_write config_file (serialize v))
          (calm d))
      (parse_config-encode_config c h)
    ∙ ap
        (λ r.
          then_run r
            (λ current. back_up current >>= λ kept. atomic_write config_file (serialize c)))
        (read_valid_current-calm d.config d.backup d.temporary)
    ∙ stored-calm (valid_in d.config) c d

read_config-calm :
    (path : FilePath) (c : CodexConfig) (d : Files)
    → IsValid c
    → content path d ≡ some (serialize c)
    → read_config path (calm d) ≡ finished c (calm d)
unfolding read_config read_file catch ◌>>=◌ throw return
read_config-calm path c d h e =
    ap (λ o. (catch (λ u. read_to works o (calm d)) reading_failed >>= parse_content) (calm d)) e
    ∙ ap (λ r. lift_result r (calm d)) (parse_config-encode_config c h)

valid_in-serialize :
    (c : CodexConfig) (o : Option Content)
    → IsValid c
    → o ≡ some (serialize c)
    → valid_in o ≡ some c
valid_in-serialize c o h e = ap valid_in e ∙ ap result_config (parse_config-encode_config c h)

restore_backup-calm :
    (c : CodexConfig) (d : Files)
    → IsValid c
    → d.backup ≡ some (serialize c)
    → restore_backup (calm d) ≡ finished c (calm (written config_file (serialize c) d))
unfolding restore_backup catch ◌>>=◌ return
restore_backup-calm c d h e =
    ap
      (λ r.
        then_run (or_else r no_backup)
          (λ x. atomic_write config_file (serialize x) >>= λ a. return x))
      (read_config-calm backup_file c d h e)
    ∙ ap (λ r. then_run r (λ a. return c)) (atomic_write-calm config_file (serialize c) d)

-- Where nothing fails, restoring after a save over a file that holds a valid configuration gives
-- that configuration back, in the file as well.
pub restore_backup-save :
    (old c : CodexConfig) (d : Files)
    → IsValid old
    → IsValid c
    → d.config ≡ some (serialize old)
    → (save c >>= λ a. restore_backup) (calm d)
      ≡ finished old (
          calm (record {
            config = some (serialize old);
            backup = some (serialize old);
            temporary = none;
          }))
unfolding ◌>>=◌
restore_backup-save old c d g h e =
    let kept = ap (λ o. backup_after o d.backup) (valid_in-serialize old d.config g e) in
    ap (λ r. then_run r (λ a. restore_backup)) (save-calm c d h)
    ∙ restore_backup-calm old (saved c d) g kept
    ∙ ap
        (λ b.
          finished old
            (calm (record { config = some (serialize old); backup = b; temporary = none })))
        kept

-- Where nothing fails, what is loaded after a save is the configuration that was saved.
pub load_or_create-save :
    (c : CodexConfig) (d : Files)
    → IsValid c
    → (save c >>= λ a. load_or_create) (calm d) ≡ finished c (calm (saved c d))
unfolding ◌>>=◌ load_or_create catch
load_or_create-save c d h =
    ap (λ r. then_run r (λ a. load_or_create)) (save-calm c d h)
    ∙ ap (λ r. or_else r create_if_missing) (read_config-calm config_file c (saved c d) h refl)
