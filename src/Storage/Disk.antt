-- ===== src/Storage/Disk.antt =====
-- The file system as src/infrastructure/configuration/file-config-repository.ts sees it. A file holds
-- the text of a JSON value or another text. Each operation on files meets the next fault of a list: it
-- works, it fails, or the process dies there.
use pi_codex_adaptor.Prelude.{Option, List, [], ◌∷◌}
use pi_codex_adaptor.Value.{Value}
use pi_codex_adaptor.Config.Issues.{ConfigurationIssue}

pub data Content : Type 0 where
  json : Value → Content
  not_json : Content

-- `#configFile` and `#backupFile`; `temporary` is the file that is being written.
pub record Files : Type 0 where
  pub config : Option Content
  pub backup : Option Content
  pub temporary : Option Content

pub data FilePath : Type 0 where
  config_file backup_file : FilePath

abbrev pub content : FilePath → Files → Option Content
content config_file d = d.config
content backup_file d = d.backup

abbrev pub put : FilePath → Option Content → Files → Files
put config_file c d = record d { config = c }
put backup_file c d = record d { backup = c }

-- The last: another process has created the file first.
pub data Fault : Type 0 where
  works fails dies : Fault
  created : Content → Fault

-- What the code throws: ENOENT, EEXIST, another error of the file system, a `ConfigurationError`,
-- or a `ConfigurationStorageError` by its code.
pub data Error : Type 0 where
  missing existing io_error : Error
  schema : List ConfigurationIssue → Error
  backup_unavailable invalid_json storage_failure : Error

pub record World : Type 0 where
  pub files : Files
  pub faults : List Fault

pub data Ran {ℓ} (A : Type ℓ) : Type ℓ where
  finished : A → World → Ran A
  threw : Error → World → Ran A
  died : World → Ran A

abbrev pub Io {ℓ} : Type ℓ → Type ℓ
Io A = World → Ran A

module _ {ℓ κ} {A : Type ℓ} {B : Type κ} where
  abbrev pub then_run : Ran A → (A → Io B) → Ran B
  then_run (finished a w) f = f a w
  then_run (threw e w) f = threw e w
  then_run (died w) f = died w

  infixr 2 ◌>>=◌
  unfoldable pub ◌>>=◌ : Io A → (A → Io B) → Io B
  (m >>= f) w = then_run (m w) f

module _ {ℓ} {A : Type ℓ} where
  unfoldable pub return : A → Io A
  return a w = finished a w

  unfoldable pub throw : Error → Io A
  throw e w = threw e w

  abbrev pub or_else : Ran A → (Error → Io A) → Ran A
  or_else (finished a w) h = finished a w
  or_else (threw e w) h = h e w
  or_else (died w) h = died w

  -- `try … catch`
  unfoldable pub catch : Io A → (Error → Io A) → Io A
  catch m h w = or_else (m w) h

abbrev pub next_fault : List Fault → Fault
next_fault [] = works
next_fault (f ∷ fs) = f

abbrev pub later_faults : List Fault → List Fault
later_faults [] = []
later_faults (f ∷ fs) = fs

-- An operation on files that works, with what it leaves where it fails.
abbrev pub ran {ℓ} : {A : Type ℓ} → Fault → Error → A → Files → Files → List Fault → Ran A
ran fails e a before after fs = threw e (record { files = before; faults = fs })
ran dies e a before after fs = died (record { files = before; faults = fs })
ran _ e a before after fs = finished a (record { files = after; faults = fs })
