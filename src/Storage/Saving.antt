-- ===== src/Storage/Saving.antt =====
-- `save` of src/infrastructure/configuration/file-config-repository.ts: the configuration is replaced
-- whole or not at all, and the one before it is kept as the backup.
use pi_codex_adaptor.Prelude.{true, ◌≡◌, refl, subst, ◌⊎◌, inl, inr, Option, some, none, ap, ◌∙◌}
use pi_codex_adaptor.Config.Schema.{CodexConfig}
use pi_codex_adaptor.Config.Encode.{encode_config}
use pi_codex_adaptor.Config.Parse.{Result, ok, err, parse_config}
use pi_codex_adaptor.Storage.Disk.{
  Content, json, not_json, Files, config_file, backup_file, Fault, works, fails, dies, created,
  World, ◌>>=◌, return, throw, catch, next_fault, later_faults,
}
use pi_codex_adaptor.Storage.Repository.{
  touch, atomic_write, serialize, lift_result, parse_content, read_to, read_file, reading_failed,
  read_config, no_current, read_valid_current, back_up, save,
}
use pi_codex_adaptor.Storage.Triples.{
  After, Triple, return-Triple, throw-Triple, bind-Triple, weaken-Triple, after-Triple,
  assume-Triple,
}
use pi_codex_adaptor.Storage.Atomic.{touch-Triple, atomic_write-Triple}

abbrev pub result_config : Result CodexConfig → Option CodexConfig
result_config (ok c) = some c
result_config (err issues) = none

-- The configuration that a file holds.
abbrev pub valid_in : Option Content → Option CodexConfig
valid_in (some (json v)) = result_config (parse_config v)
valid_in _ = none

-- The backup after saving over a file that holds this configuration.
abbrev pub backup_after : Option CodexConfig → Option Content → Option Content
backup_after none b = b
backup_after (some c) b = some (serialize c)

pub lift_result-Triple :
    (p : Files → Type 0) (r : Result CodexConfig)
    → Triple p (lift_result r) (λ c d. p d × (r ≡ ok c)) p
lift_result-Triple p (ok c) = return-Triple c (λ d x. (x, refl))
lift_result-Triple p (err issues) = throw-Triple _ (λ d x. x)

parsed-After :
    (p : Files → Type 0) (r : Result CodexConfig) (w : World)
    → p w.files
    → After
        (λ a d. p d × (a ≡ result_config r))
        p
        (catch (lift_result r >>= λ c. return (some c)) no_current w)
unfolding catch ◌>>=◌ return throw
parsed-After p (ok c) w x = (x, refl)
parsed-After p (err issues) w x = (x, refl)

current-After :
    (p : Files → Type 0) (f : Fault) (o : Option Content) (w : World)
    → p w.files
    → After
        (λ a d. p d × (a ≡ valid_in o))
        p
        (catch
          ((catch (λ u. read_to f o w) reading_failed >>= parse_content) >>= λ c. return (some c))
          no_current
          w)
unfolding catch ◌>>=◌ return throw
current-After p fails o w x = x
current-After p dies o w x = x
current-After p works none w x = (x, refl)
current-After p (created c) none w x = (x, refl)
current-After p works (some not_json) w x = (x, refl)
current-After p (created c) (some not_json) w x = (x, refl)
current-After p works (some (json v)) w x = parsed-After p (parse_config v) w x
current-After p (created c) (some (json v)) w x = parsed-After p (parse_config v) w x

module _ (c0 b0 : Option Content) where
  -- The files before.
  abbrev pub Before : Files → Type 0
  Before d = (d.config ≡ c0) × (d.backup ≡ b0)

  abbrev pub BackedUp : Files → Type 0
  BackedUp d = (d.config ≡ c0) × (d.backup ≡ backup_after (valid_in c0) b0)

  -- The configuration is as before, and the backup as before or made.
  abbrev pub Unsaved : Files → Type 0
  Unsaved d = (d.config ≡ c0) × ((d.backup ≡ b0) ⊎ (d.backup ≡ backup_after (valid_in c0) b0))

  abbrev pub SavedAs : CodexConfig → Files → Type 0
  SavedAs c d = (d.config ≡ some (serialize c)) × (d.backup ≡ backup_after (valid_in c0) b0)

  read_valid_current-Triple :
      Triple Before read_valid_current (λ o d. Before d × (o ≡ valid_in c0)) Before
  unfolding read_valid_current read_config read_file catch ◌>>=◌ return throw
  read_valid_current-Triple = record {
    holds = λ w x.
        subst (λ o. After (λ a d. Before d × (a ≡ valid_in o)) Before (read_valid_current w)) x.0
          (current-After Before (next_fault w.faults) w.files.config
            (record { files = w.files; faults = later_faults w.faults }) x);
  }

  back_up-Triple :
      (o : Option CodexConfig)
      → Triple
          (λ d. Before d × (o ≡ valid_in c0))
          (back_up o)
          (λ a. BackedUp)
          (λ d. Before d × (o ≡ valid_in c0))
  back_up-Triple none = return-Triple true (λ d ((x, y), e). (x, y ∙ ap (λ o. backup_after o b0) e))
  back_up-Triple (some c) =
      atomic_write-Triple (λ d. Before d × (some c ≡ valid_in c0)) BackedUp (λ d t x. x) backup_file
        (serialize c) (λ d ((x, y), e). (x, ap (λ o. backup_after o b0) e))

  write-Triple :
      (c : CodexConfig)
      → Triple BackedUp (atomic_write config_file (serialize c)) (λ a. SavedAs c) BackedUp
  write-Triple c =
      atomic_write-Triple BackedUp (SavedAs c) (λ d t x. x) config_file (serialize c)
        (λ d (x, y). (refl, y))

  store-Triple :
      (c : CodexConfig)
      → Triple Before
          (touch >>= λ made. read_valid_current >>= λ current.
            back_up current >>= λ kept. atomic_write config_file (serialize c))
          (λ a. SavedAs c)
          Unsaved
  store-Triple c =
      bind-Triple (λ a. Before) touch _
        (weaken-Triple (λ d (x, y). (x, inl y)) (touch-Triple Before))
        (λ made.
          bind-Triple (λ o d. Before d × (o ≡ valid_in c0)) read_valid_current _
            (weaken-Triple (λ d (x, y). (x, inl y)) read_valid_current-Triple)
            (λ current.
              bind-Triple (λ a. BackedUp) (back_up current) _
                (weaken-Triple (λ d ((x, y), e). (x, inl y)) (back_up-Triple current))
                (λ kept. weaken-Triple (λ d (x, y). (x, inr y)) (write-Triple c))))

pub save-Triple :
    (c0 b0 : Option Content) (c : CodexConfig)
    → Triple
        (Before c0 b0)
        (save c)
        (λ a d. (v : CodexConfig) × ((parse_config (encode_config c) ≡ ok v) × SavedAs c0 b0 v d))
        (Unsaved c0 b0)
unfolding save
save-Triple c0 b0 c =
    bind-Triple (λ v d. Before c0 b0 d × (parse_config (encode_config c) ≡ ok v)) _ _
      (weaken-Triple (λ d (x, y). (x, inl y))
        (lift_result-Triple (Before c0 b0) (parse_config (encode_config c))))
      (λ v.
        assume-Triple (parse_config (encode_config c) ≡ ok v)
          (λ e. after-Triple (λ a d s. (v, (e, s))) (store-Triple c0 b0 v)))

-- Whatever fails and wherever the process dies, saving either finishes, with the configuration as
-- it is parsed in its file and what was valid there, if anything, as the backup, or leaves the file
-- as it was, and the backup as it was or as it is to become.
pub save-After :
    (c : CodexConfig) (w : World)
    → After
        (λ a d.
          (v : CodexConfig) × ((parse_config (encode_config c) ≡ ok v)
            × SavedAs w.files.config w.files.backup v d))
        (Unsaved w.files.config w.files.backup)
        (save c w)
save-After c w = (save-Triple w.files.config w.files.backup c).holds w (refl, refl)
