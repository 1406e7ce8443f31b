-- ===== src/Settings/Examples.antt =====
-- Tests of the settings model, and the theorems on it at concrete inputs.
use pi_codex_adaptor.Prelude.{
  ℕ, String, false, ◌≡◌, refl, subst, sym, arith, none, some, List, [], ◌∷◌, map, codes, trim,
  utf16_length, codes_eq,
}
use pi_codex_adaptor.Config.Schema.{on_request, never, tokens, create_default_config}
use pi_codex_adaptor.Config.Parse.{is_bad_provider}
use pi_codex_adaptor.Config.Valid.{IsValid, is_bad_provider_iff}
use pi_codex_adaptor.Config.RoundTrip.{parse_config-encode_config}
use pi_codex_adaptor.Settings.Rows.{
  codex, tools, saving, saved, dirty_close, approval_never_confirm, close, Row, Options, Settings,
  format_activation_status, rows,
}
use pi_codex_adaptor.Settings.Model.{new_settings, validated, begin_save, mark_saved}
use pi_codex_adaptor.Settings.Keys.{
  Key, key_of, handle_key, Act, presses, resizes, sets_category, marks_error, sets_limit,
  applies_defaults, acts,
}
use pi_codex_adaptor.Settings.Moves.{InBounds}
use pi_codex_adaptor.Settings.Guarded.{Permits, handle_key-Permits}
use pi_codex_adaptor.Settings.Closing.{handle_key-closes}
use pi_codex_adaptor.Settings.Clean.{IsClean, acts-IsClean, acts-InBounds}
use pi_codex_adaptor.Settings.Saving.{begin_save-IsValid}

abbrev digits : ℕ → String
digits n = "272000"

abbrev options : Options
options = record {
  baseline = "rust-v0.146.0";
  provider = "openai-codex";
  model = "gpt-5-codex";
  bridge = "v8";
  activation_model = some (record { provider = "openai-codex"; api = "openai-codex-responses" });
  activation_status = none;
  capabilities = none;
  disabled_reasons = λ id. none;
  model_auto_compact_token_limit = some 272000;
}

abbrev fresh : Settings
unfolding new_settings
fresh = new_settings create_default_config options

abbrev after : List Act → Settings
unfolding acts
after as' = acts digits options as' fresh

-- The approval policy is asked for, and enabled by the second option.
abbrev asked : List Act
asked =
    sets_category tools ∷ presses Key.down ∷ resizes 80 ∷ presses Key.enter ∷ presses Key.down ∷ []

asks : (after asked).dialog ≡ approval_never_confirm 1
unfolding after new_settings create_default_config
asks = refl

not_yet : (after asked).draft.security.approval_policy ≡ on_request
unfolding after new_settings create_default_config
not_yet = refl

confirmed :
    (handle_key digits options Key.enter (after asked)).0.draft.security.approval_policy ≡ never
unfolding handle_key after new_settings create_default_config
confirmed = refl

active_route :
    format_activation_status options.activation_model create_default_config
    ≡ "active (openai-codex / openai-codex-responses)"
unfolding format_activation_status create_default_config
active_route = refl

limit_row :
    map (λ (r : Row). r.value) (rows digits options (after (sets_category codex ∷ [])))
    ≡ "default" ∷ "low" ∷ "auto" ∷ "cached" ∷ "auto" ∷ "272000 (model)" ∷ "action" ∷ []
unfolding rows after new_settings create_default_config
limit_row = refl

-- After a failed save the draft is no longer dirty, and esc closes at once.
abbrev failed_save : List Act
failed_save =
    sets_limit (tokens 1000)
    ∷ marks_error "Codex settings could not be saved" false
    ∷ resizes 80
    ∷ []

closes_silently : (handle_key digits options Key.esc (after failed_save)).1 ≡ close
unfolding handle_key after new_settings create_default_config
closes_silently = refl

typed : key_of "ctrl-s" ≡ Key.ctrl_s
unfolding key_of
typed = refl

handle_key-Permits_example :
    Permits (after asked) (handle_key digits options Key.enter (after asked))
handle_key-Permits_example = handle_key-Permits digits options Key.enter (after asked)

-- A dirty overlay, at the choice to discard.
abbrev leaving : List Act
leaving = sets_limit (tokens 1000) ∷ resizes 80 ∷ presses Key.esc ∷ presses Key.down ∷ []

handle_key-closes_example :
    ((after leaving).dialog ≡ dirty_close 1)
    × ((handle_key digits options Key.enter (after leaving)).0.draft ≡ (after leaving).saved_config)
unfolding handle_key after new_settings create_default_config
handle_key-closes_example = handle_key-closes digits options Key.enter (after leaving) refl refl

acts-IsClean_example :
    IsClean (acts digits options asked (new_settings create_default_config options))
acts-IsClean_example = acts-IsClean digits options asked create_default_config

acts-InBounds_example :
    InBounds (acts digits options asked (new_settings create_default_config options))
acts-InBounds_example = acts-InBounds digits options asked create_default_config

-- While it is saved, the draft is changed.
abbrev meanwhile : List Act
meanwhile = sets_limit (tokens 5) ∷ applies_defaults ∷ []

fresh-IsValid : IsValid fresh.draft
unfolding new_settings create_default_config
fresh-IsValid = record {
  activation = record {
    some_provider = λ h. cc;
    provider_ids = (
      (is_bad_provider_iff (codes "openai-codex")).0
          (unfold is_bad_provider trim utf16_length codes_eq in refl),
      tt,
    );
    unique = (tt, tt);
  };
  limit = tt;
}

fresh_started : (begin_save fresh).0 ≡ record fresh { state = saving; message = none }
unfolding begin_save new_settings
fresh_started = ground (arith, parse_config-encode_config fresh.draft fresh-IsValid)

meanwhile_alive : (acts digits options meanwhile (begin_save fresh).0).disposed ≡ false
unfolding acts new_settings create_default_config
meanwhile_alive =
    subst (λ t. (acts digits options meanwhile t).disposed ≡ false) (sym fresh_started) refl

begin_save-IsValid_example :
    ((begin_save fresh).1 ≡ validated fresh.draft)
    × (((begin_save fresh).0.state ≡ saving)
        × (((begin_save fresh).0.draft ≡ fresh.draft)
            × (((mark_saved options fresh.draft
                    (acts digits options meanwhile (begin_save fresh).0)).draft
                  ≡ fresh.draft)
                × (((mark_saved options fresh.draft
                        (acts digits options meanwhile (begin_save fresh).0)).saved_config
                      ≡ fresh.draft)
                    × ((mark_saved options fresh.draft
                          (acts digits options meanwhile (begin_save fresh).0)).state
                        ≡ saved)))))
unfolding new_settings create_default_config
begin_save-IsValid_example =
    begin_save-IsValid digits options fresh meanwhile refl fresh-IsValid meanwhile_alive
