-- ===== src/Storage/Repository.antt =====
-- `FileConfigurationRepository` of src/infrastructure/configuration/file-config-repository.ts.
use pi_codex_adaptor.Prelude.{Bool, true, Option, none, some}
use pi_codex_adaptor.Config.Schema.{CodexConfig, create_default_config}
use pi_codex_adaptor.Config.Encode.{encode_config}
use pi_codex_adaptor.Config.Parse.{Result, ok, err, parse_config}
use pi_codex_adaptor.Storage.Disk.{
  Content, json, not_json, FilePath, config_file, backup_file, content, put, Fault, works, fails,
  dies, created, Error, missing, existing, io_error, schema, backup_unavailable, invalid_json,
  storage_failure, World, Ran, finished, threw, died, Io, ◌>>=◌, return, throw, catch, next_fault,
  later_faults, ran,
}

-- `readFile`
abbrev pub read_to : Fault → Option Content → World → Ran Content
read_to fails o w = threw io_error w
read_to dies o w = died w
read_to _ none w = threw missing w
read_to _ (some c) w = finished c w

unfoldable pub read_file : FilePath → Io Content
read_file path w =
    read_to (next_fault w.faults) (content path w.files)
      (record { files = w.files; faults = later_faults w.faults })

-- `mkdir` of the folder, `handle.sync` and `handle.close`, which leave the files as they are.
unfoldable pub touch : Io Bool
touch w = ran (next_fault w.faults) io_error true w.files w.files (later_faults w.faults)

-- `open(temporary, "wx")`, whose name is new.
unfoldable pub open_temporary : Io Bool
open_temporary w =
    ran (next_fault w.faults) io_error true w.files (record w.files { temporary = some not_json })
      (later_faults w.faults)

-- `handle.writeFile`: a part of the text may have been written where it fails.
unfoldable pub write_temporary : Content → Io Bool
write_temporary c w =
    ran (next_fault w.faults) io_error true w.files (record w.files { temporary = some c })
      (later_faults w.faults)

-- `rename(temporary, path)`, in one step.
unfoldable pub rename : FilePath → Io Bool
rename path w =
    ran (next_fault w.faults) io_error true w.files
      (record (put path w.files.temporary w.files) { temporary = none }) (later_faults w.faults)

-- `rm(temporary)`, and with its failure caught.
unfoldable pub remove : Io Bool
remove w =
    ran (next_fault w.faults) io_error true w.files (record w.files { temporary = none })
      (later_faults w.faults)

unfoldable pub remove_temporary : Io Bool
unfolding remove
remove_temporary = catch remove (λ e. return true)

-- `#atomicWrite`; an error of `close` in `finally` takes the place of an earlier one, and both are
-- caught alike.
unfoldable pub atomic_write : FilePath → Content → Io Bool
unfolding open_temporary write_temporary touch rename remove_temporary
atomic_write path c =
    catch
      (open_temporary >>= λ a.
        catch (write_temporary c >>= λ b. touch) (λ e. touch >>= λ b. throw e) >>= λ b.
        touch >>= λ closed. rename path)
      (λ e. remove_temporary >>= λ a. throw storage_failure)

-- `serialize`
abbrev pub serialize : CodexConfig → Content
serialize c = json (encode_config c)

abbrev pub lift_result : Result CodexConfig → Io CodexConfig
lift_result (ok c) = return c
lift_result (err issues) = throw (schema issues)

abbrev pub parse_content : Content → Io CodexConfig
parse_content (json v) = lift_result (parse_config v)
parse_content not_json = throw invalid_json

-- An error of `readFile` that is not ENOENT is thrown as a failure of the storage.
abbrev pub reading_failed : {A : Type 0} → Error → Io A
reading_failed missing = throw missing
reading_failed _ = throw storage_failure

-- `#readConfig`
unfoldable pub read_config : FilePath → Io CodexConfig
unfolding read_file
read_config path = catch (read_file path) reading_failed >>= parse_content

abbrev pub no_current : Error → Io (Option CodexConfig)
no_current missing = return none
no_current (schema issues) = return none
no_current invalid_json = return none
no_current e = throw e

-- `#readValidCurrent`
unfoldable pub read_valid_current : Io (Option CodexConfig)
unfolding read_config
read_valid_current = catch (read_config config_file >>= λ c. return (some c)) no_current

abbrev pub back_up : Option CodexConfig → Io Bool
back_up none = return true
back_up (some c) = atomic_write backup_file (serialize c)

unfoldable pub save : CodexConfig → Io Bool
unfolding touch read_valid_current atomic_write
save config = lift_result (parse_config (encode_config config)) >>= λ validated. touch >>= λ made.
    read_valid_current >>= λ current.
    back_up current >>= λ kept. atomic_write config_file (serialize validated)

-- `open(configFile, "wx")`, which another process may be quicker to do.
abbrev pub open_new_to : Fault → Option Content → World → Ran Bool
open_new_to fails o w = threw io_error w
open_new_to dies o w = died w
open_new_to (created c) none w =
    threw existing (record w { files = record w.files { config = some c } })
open_new_to works none w =
    finished true (record w { files = record w.files { config = some not_json } })
open_new_to _ (some c) w = threw existing w

unfoldable pub open_new : Io Bool
open_new w =
    open_new_to (next_fault w.faults) w.files.config
      (record { files = w.files; faults = later_faults w.faults })

unfoldable pub write_new : Content → Io Bool
write_new c w =
    ran (next_fault w.faults) io_error true w.files (record w.files { config = some c })
      (later_faults w.faults)

abbrev pub not_created : Error → Io CodexConfig
not_created existing = read_config config_file
not_created _ = throw storage_failure

abbrev pub create_if_missing : Error → Io CodexConfig
create_if_missing missing = touch >>= λ made.
    catch
      (open_new >>= λ opened.
        catch (write_new (serialize create_default_config) >>= λ b. touch)
          (λ e. touch >>= λ b. throw e)
        >>= λ written. touch >>= λ closed. return create_default_config)
      not_created
create_if_missing e = throw e

unfoldable pub load_or_create : Io CodexConfig
unfolding read_config touch open_new write_new
load_or_create = catch (read_config config_file) create_if_missing

abbrev pub no_backup : Error → Io CodexConfig
no_backup missing = throw backup_unavailable
no_backup (schema issues) = throw backup_unavailable
no_backup invalid_json = throw backup_unavailable
no_backup e = throw e

unfoldable pub restore_backup : Io CodexConfig
unfolding read_config atomic_write
restore_backup = catch (read_config backup_file) no_backup >>= λ c.
    atomic_write config_file (serialize c) >>= λ written. return c
