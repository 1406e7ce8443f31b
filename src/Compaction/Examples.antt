-- ===== src/Compaction/Examples.antt =====
-- The theorems on src/application/compaction.ts at concrete calls and stores.
use pi_codex_adaptor.Prelude.{◌≤◌, true, false, ◌≡◌, ◌↔◌, refl, none, some, [], ◌∷◌}
use pi_codex_adaptor.Prelude.Dict.{lookup, insert}
use pi_codex_adaptor.Prelude.{utf16_length, trim, trim_start, is_space}
use pi_codex_adaptor.Value.{pos, text, Fields, field, end, get, keys}
use pi_codex_adaptor.Compaction.Checkpoint.{
  is_supported_structured_response_item, compaction_items, supported_items, count_items, items_of,
  validate_compaction_output, is_strict, are_strict, has_strict,
}
use pi_codex_adaptor.Compaction.Output.{IsOutput, validate_compaction_output_iff}
use pi_codex_adaptor.Compaction.Saved.{
  Checkpoint, remote_v2, is_required_text, has_control_character, is_valid_identity,
  parse_remote_compaction_checkpoint,
}
use pi_codex_adaptor.Compaction.Checked.{IsCheckpoint}
use pi_codex_adaptor.Compaction.Keys.{identity_key-injective}
use pi_codex_adaptor.Compaction.Persisted.{
  encode_checkpoint, encode-parses, parse_remote_compaction_checkpoint-encode_checkpoint,
}
use pi_codex_adaptor.Config.Schema.{CompactionConfig, tokens}
use pi_codex_adaptor.Compaction.Phases.{requests, executes, ends, begins}
use pi_codex_adaptor.Compaction.Exclusion.{grants, grants-le-one}
use pi_codex_adaptor.Compaction.Threshold.{
  resolve_compaction_threshold, resolve_compaction_threshold-tokens,
}
use pi_codex_adaptor.Compaction.Store.{
  jwt_account, Identity, Entry, Store, new_store, generation_of, invalidate_context_accounting,
  context_accounting, record_context_usage, identity_key, select_identity, is_switch, drop_session,
  accounting_key, session_prefix,
}

grants-le-one_example :
    grants "s" [] (requests "s" ∷ executes "s" ∷ ends "t" ∷ begins "s" ∷ executes "s" ∷ []) ≤ 1
grants-le-one_example =
    grants-le-one "s" [] (requests "s" ∷ executes "s" ∷ ends "t" ∷ begins "s" ∷ executes "s" ∷ [])
      (refl, (refl, (refl, (refl, (refl, tt)))))

abbrev limit : CompactionConfig
limit = CompactionConfig.auto (tokens 200000)

limit_resolved : resolve_compaction_threshold limit none (pos 272000) ≡ some 200000
limit_resolved = resolve_compaction_threshold-tokens 200000 272000 none

abbrev identity : Identity
identity = record {
  session_fingerprint = "sha256:1";
  provider_id = "openai-codex";
  api = "openai-codex-responses";
  base_url = "https://api.openai.com";
  model_id = "m";
  authentication_kind = jwt_account;
  authentication_fingerprint = "sha256:2";
}

-- The usage that a request reports.
abbrev usage : Entry
usage = record {
  baseline = record {
    total_tokens = pos 1000;
    input_item_count = pos 3;
    input_digest = "sha256:3";
    instructions_digest = "sha256:4";
  };
  generation = 0;
  request_generation = 2;
}

-- The store once the identity is active, and once the usage is recorded as well.
abbrev active_store : Store
active_store = (context_accounting "s" identity new_store).0

abbrev used_store : Store
used_store = (record_context_usage "s" identity usage active_store).0

used_generation : generation_of "s" used_store ≡ 0
unfolding generation_of context_accounting select_identity record_context_usage new_store
    identity_key session_prefix accounting_key lookup insert invalidate_context_accounting
    drop_session
used_generation = refl

used_switch :
    is_switch
      (lookup "s" used_store.active_identities)
      (identity_key (record identity { model_id = "n" }))
    ≡ true
unfolding generation_of context_accounting select_identity record_context_usage new_store
    identity_key session_prefix accounting_key lookup insert invalidate_context_accounting
    drop_session
used_switch = refl

active_same : is_switch (lookup "s" active_store.active_identities) (identity_key identity) ≡ false
unfolding generation_of context_accounting select_identity record_context_usage new_store
    identity_key session_prefix accounting_key lookup insert invalidate_context_accounting
    drop_session
active_same = refl

used_recorded : record_context_usage "s" identity usage active_store ≡ (used_store, true)
unfolding generation_of context_accounting select_identity record_context_usage new_store
    identity_key session_prefix accounting_key lookup insert invalidate_context_accounting
    drop_session
used_recorded = refl

-- An output of one compaction item.
abbrev item : Fields
item = field "type" (text "compaction") (field "encrypted_content" (text "x") end)

item_supported : is_supported_structured_response_item item ≡ true
unfolding is_supported_structured_response_item get keys is_strict are_strict has_strict
item_supported = refl

output_accepted : validate_compaction_output (items_of (item ∷ [])) ≡ some (item ∷ [])
unfolding validate_compaction_output supported_items compaction_items count_items items_of
    is_supported_structured_response_item get keys is_strict are_strict has_strict
output_accepted = refl

validate_compaction_output_iff_example :
    (validate_compaction_output (items_of (item ∷ [])) ≡ some (item ∷ []))
    ↔ ((items_of (item ∷ []) ≡ items_of (item ∷ [])) × IsOutput (item ∷ []))
validate_compaction_output_iff_example =
    validate_compaction_output_iff (items_of (item ∷ [])) (item ∷ [])

abbrev checkpoint : Checkpoint
checkpoint = record {
  identity = identity;
  checkpoint_id = "c";
  covered_entry_id = "e";
  implementation = remote_v2;
  output = item ∷ [];
  tokens_before = 5;
  usage = none;
}

identity_valid : is_valid_identity identity ≡ true
unfolding is_valid_identity is_required_text has_control_character utf16_length trim trim_start
    is_space
identity_valid = refl

checkpoint_id_valid : is_required_text 256 "c" ≡ true
unfolding is_required_text has_control_character utf16_length trim trim_start is_space
checkpoint_id_valid = refl

entry_id_valid : is_required_text 4096 "e" ≡ true
unfolding is_required_text has_control_character utf16_length trim trim_start is_space
entry_id_valid = refl

checkpoint-IsCheckpoint : IsCheckpoint checkpoint
checkpoint-IsCheckpoint =
    (identity_valid, checkpoint_id_valid, entry_id_valid, refl, refl, output_accepted)

parse_remote_compaction_checkpoint-encode_checkpoint_example :
    parse_remote_compaction_checkpoint (encode_checkpoint checkpoint) ≡ some checkpoint
parse_remote_compaction_checkpoint-encode_checkpoint_example =
    parse_remote_compaction_checkpoint-encode_checkpoint (encode_checkpoint checkpoint) checkpoint
      (encode-parses checkpoint checkpoint-IsCheckpoint)

identity_key-injective_example : identity ≡ identity
identity_key-injective_example =
    identity_key-injective identity identity identity_valid identity_valid refl
