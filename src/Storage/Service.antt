-- ===== src/Storage/Service.antt =====
-- `ConfigurationService` of src/application/configuration.ts, with probe and backupAvailable of
-- src/infrastructure/configuration/file-config-repository.ts.
use pi_codex_adaptor.Prelude.{
  ℕ, Bool, true, false, ◌≡◌, refl, sym, Option, some, List, [], ◌∷◌, ◌++◌, ap, ◌∙◌, map, ◌⊎◌, inl,
  inr, arith,
}
use pi_codex_adaptor.Value.{Value}
use pi_codex_adaptor.Config.Schema.{CodexConfig, create_default_config}
use pi_codex_adaptor.Config.Encode.{encode_config}
use pi_codex_adaptor.Config.Issues.{ConfigurationIssue}
use pi_codex_adaptor.Config.Parse.{Result, ok, err, parse_config}
use pi_codex_adaptor.Config.Valid.{IsValid, parse_config-IsValid}
use pi_codex_adaptor.Config.RoundTrip.{parse_config-encode_config}
use pi_codex_adaptor.Config.Context.{CapabilityContext}
use pi_codex_adaptor.Config.Save.{gate, collect_capability_issues, validate_config_for_save}
use pi_codex_adaptor.Storage.Disk.{
  Content, config_file, backup_file, Error, World, Ran, finished, threw, died, Io, ◌>>=◌, return,
  catch,
}
use pi_codex_adaptor.Storage.Repository.{
  serialize, lift_result, read_config, restore_backup as restore_file, save,
}
use pi_codex_adaptor.Storage.Triples.{
  After, Triple, return-Triple, bind-Triple, weaken-Triple, after-Triple, assume-Triple,
}
use pi_codex_adaptor.Storage.Listeners.{Service, notify, Tells, notify-Tells}
use pi_codex_adaptor.Storage.Saving.{lift_result-Triple, Before, save-Triple}

-- `ConfigurationProbeResult`; each message is fixed by its kind.
pub data Probe : Type 0 where
  ready : CodexConfig → Probe
  missing invalid_json storage_failure : Probe
  invalid_schema : List ConfigurationIssue → Probe

abbrev pub probe_of : Error → Io Probe
probe_of Error.missing = return missing
probe_of (Error.schema issues) = return (invalid_schema issues)
probe_of Error.invalid_json = return invalid_json
probe_of _ = return storage_failure

unfoldable pub probe : Io Probe
unfolding read_config
probe = catch (read_config config_file >>= λ c. return (ready c)) probe_of

unfoldable pub backup_available : Io Bool
unfolding read_config
backup_available = catch (read_config backup_file >>= λ c. return true) (λ e. return false)

pub data RecoveryAction : Type 0 where
  reset_to_defaults restore_backup : RecoveryAction

abbrev pub restorable : Bool → List RecoveryAction
restorable true = RecoveryAction.reset_to_defaults ∷ RecoveryAction.restore_backup ∷ []
restorable false = RecoveryAction.reset_to_defaults ∷ []

-- `inspect`, after the probe.
abbrev pub recovery_for : Probe → Io (Probe × List RecoveryAction)
recovery_for (ready c) = return (ready c, [])
recovery_for missing = return (missing, RecoveryAction.reset_to_defaults ∷ [])
recovery_for storage_failure = return (storage_failure, [])
recovery_for invalid_json = backup_available >>= λ b. return (invalid_json, restorable b)
recovery_for (invalid_schema issues) =
    backup_available >>= λ b. return (invalid_schema issues, restorable b)

unfoldable pub inspect : Io (Probe × List RecoveryAction)
unfolding probe backup_available
inspect = probe >>= recovery_for

-- The listeners have been told, or the process has died on the way.
abbrev pub tells :
    CodexConfig → Service → Ran Bool × List (ℕ × CodexConfig) → Ran CodexConfig × Service
tells c s (finished a w, told) = (finished c w, record s { told = told })
tells c s (threw e w, told) = (threw e w, record s { told = told })
tells c s (died w, told) = (died w, record s { told = told })

-- After an operation the listeners are told; nobody is where it throws.
abbrev pub notified : Ran CodexConfig → Service → Ran CodexConfig × Service
notified (finished c w) s = tells c s (notify c s.listeners s.told w)
notified (threw e w) s = (threw e w, s)
notified (died w) s = (died w, s)

unfoldable pub store_draft : Value → CapabilityContext → Io CodexConfig
unfolding save
store_draft draft context =
    lift_result (validate_config_for_save draft context) >>= λ c. save c >>= λ a. return c

unfoldable pub apply_draft : Value → CapabilityContext → Service → World → Ran CodexConfig × Service
unfolding store_draft notify
apply_draft draft context s w = notified (store_draft draft context w) s

unfoldable pub reset : Service → World → Ran CodexConfig × Service
unfolding save notify
reset s w = notified ((save create_default_config >>= λ a. return create_default_config) w) s

unfoldable pub restore : Service → World → Ran CodexConfig × Service
unfolding restore_file notify
restore s w = notified (restore_file w) s

gate-ok : (c d : CodexConfig) (is : List ConfigurationIssue) → gate c is ≡ ok d → c ≡ d
gate-ok c d [] e = ap (λ r. elim r [ ok x ↦ x | err is ↦ c ]) e
gate-ok c d (i ∷ is) e = absurd (ground (arith, e))

gated-parsed :
    (r : Result CodexConfig) (context : CapabilityContext) (c : CodexConfig)
    → elim r [
      | err issues ↦ err issues
      | ok config ↦ gate config (collect_capability_issues config context)
    ]
      ≡ ok c
    → r ≡ ok c
gated-parsed (ok b) context c e = ap ok (gate-ok b c (collect_capability_issues b context) e)
gated-parsed (err is) context c e = absurd (ground (arith, e))

validated-IsValid :
    (v : Value) (context : CapabilityContext) (c : CodexConfig)
    → validate_config_for_save v context ≡ ok c
    → IsValid c
unfolding validate_config_for_save
validated-IsValid v context c e =
    parse_config-IsValid v c (gated-parsed (parse_config v) context c e)

same-parsed : (c v : CodexConfig) → IsValid c → parse_config (encode_config c) ≡ ok v → v ≡ c
same-parsed c v h e =
    ap (λ r. elim r [ ok x ↦ x | err is ↦ v ]) (sym e ∙ parse_config-encode_config c h)

store_draft-Triple :
    (c0 b0 : Option Content) (draft : Value) (context : CapabilityContext)
    → Triple
        (Before c0 b0)
        (store_draft draft context)
        (λ c d. (validate_config_for_save draft context ≡ ok c) × (d.config ≡ some (serialize c)))
        (λ d. d.config ≡ c0)
unfolding store_draft
store_draft-Triple c0 b0 draft context =
    bind-Triple (λ c d. Before c0 b0 d × (validate_config_for_save draft context ≡ ok c)) _ _
      (weaken-Triple (λ d x. x.0)
        (lift_result-Triple (Before c0 b0) (validate_config_for_save draft context)))
      (λ c. assume-Triple (validate_config_for_save draft context ≡ ok c) (λ e.
        bind-Triple (λ a d. d.config ≡ some (serialize c)) (save c) _
          (after-Triple
            (λ a d (v, (p, (x, y))).
              x
              ∙ ap (λ k. some (serialize k))
                  (same-parsed c v (validated-IsValid draft context c e) p))
            (weaken-Triple (λ d x. x.0) (save-Triple c0 b0 c)))
          (λ a. return-Triple c (λ d x. (e, x)))))

-- After applying a draft, either it has passed the save gate, stands in the file, and the listeners
-- have been told of it, all of them in their order, or those before the death of the process; or the
-- file is as it was and nobody has been told anything.
abbrev pub IsApplied :
    Value → CapabilityContext → Service → World → Ran CodexConfig × Service → Type 0
IsApplied draft context s w (finished c v, t) =
    (validate_config_for_save draft context ≡ ok c)
    × ((v.files.config ≡ some (serialize c))
        × (t ≡ record s { told = s.told ++ map (λ l. (l, c)) s.listeners }))
IsApplied draft context s w (threw e v, t) = (v.files.config ≡ w.files.config) × (t ≡ s)
IsApplied draft context s w (died v, t) =
    ((v.files.config ≡ w.files.config) × (t ≡ s))
    ⊎ ((c : CodexConfig) × (first : List ℕ) × (rest : List ℕ) × ((validate_config_for_save draft
              context
            ≡ ok c)
          × ((v.files.config ≡ some (serialize c))
              × ((s.listeners ≡ first ++ rest)
                  × (t ≡ record s { told = s.told ++ map (λ l. (l, c)) first })))))

tells-IsApplied :
    (draft : Value) (context : CapabilityContext) (s : Service) (w v : World) (c : CodexConfig)
    (r : Ran Bool × List (ℕ × CodexConfig))
    → validate_config_for_save draft context ≡ ok c
    → v.files.config ≡ some (serialize c)
    → Tells c s.listeners s.told v r
    → IsApplied draft context s w (tells c s r)
tells-IsApplied draft context s w v c (finished a u, told) x y (f, e) =
    (x, (ap (λ d. d.config) f ∙ y, ap (λ k. record s { told = k }) e))
tells-IsApplied draft context s w v c (threw e u, told) x y h = absurd (cc)
tells-IsApplied draft context s w v c (died u, told) x y (f, (first, rest, (split, e))) =
    inr
      (c, first, rest, (x, (ap (λ d. d.config) f ∙ y, (split, ap (λ k. record s { told = k }) e))))

notified-IsApplied :
    (draft : Value) (context : CapabilityContext) (s : Service) (w : World) (r : Ran CodexConfig)
    → After
        (λ c d. (validate_config_for_save draft context ≡ ok c) × (d.config ≡ some (serialize c)))
        (λ d. d.config ≡ w.files.config)
        r
    → IsApplied draft context s w (notified r s)
notified-IsApplied draft context s w (finished c v) (x, y) =
    tells-IsApplied draft context s w v c (notify c s.listeners s.told v) x y
      (notify-Tells c s.listeners s.told v)
notified-IsApplied draft context s w (threw e v) x = (x, refl)
notified-IsApplied draft context s w (died v) x = inl (x, refl)

-- Whatever fails and wherever the process dies, applying a draft either finishes, with a
-- configuration that has passed the save gate in the file and every listener told of it once, in
-- their order; or it throws, with the file as it was and nobody told; or the process dies, with the
-- file as it was and nobody told, or with such a configuration in the file and the first listeners
-- told of it.
pub apply_draft-IsApplied :
    (draft : Value) (context : CapabilityContext) (s : Service) (w : World)
    → IsApplied draft context s w (apply_draft draft context s w)
unfolding apply_draft
apply_draft-IsApplied draft context s w =
    notified-IsApplied draft context s w _
      ((store_draft-Triple w.files.config w.files.backup draft context).holds w (refl, refl))
