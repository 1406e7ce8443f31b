-- ===== src/Compaction/Accounting.antt =====
-- The context accounting of src/application/compaction.ts: which usage a session can read back.
use Prim.Native.String.{◌++◌ as ◌<>◌}
use text.Mathlib.Text.{starts_with}
use text.Mathlib.TextPositions.{starts_with-append}
use pi_codex_adaptor.Prelude.{
  ◌+◌, ◌<◌, String, true, false, not, ◌≡◌, ◌↔◌, none, some, arith, str_eq, eq_iff, eq_refl,
  mem_text-keep,
}
use pi_codex_adaptor.Prelude.Dict
use pi_codex_adaptor.Prelude.Dict.{Dict, lookup-insert, lookup-erase, lookup-erase_where}
use pi_codex_adaptor.Compaction.Store.{
  AuthenticationKind, jwt_account, credential, kind_text, Identity, same_compaction_identity,
  identity_key, session_prefix, accounting_key, Entry, Store, generation_of, drop_session,
  invalidate_context_accounting, is_switch, context_accounting, record_context_usage, dispose,
  warn_once,
}

same_kind : (a b : AuthenticationKind) → (str_eq (kind_text a) (kind_text b) ≡ true) ↔ (a ≡ b)
same_kind jwt_account jwt_account = ground arith
same_kind jwt_account credential = (λ h. cc, λ h. cc)
same_kind credential jwt_account = (λ h. cc, λ h. cc)
same_kind credential credential = ground arith

-- sameCompactionIdentity holds of two identities exactly when they are equal in every field.
pub same_compaction_identity_iff :
    (a b : Identity) → (same_compaction_identity (some a) (some b) ≡ true) ↔ (a ≡ b)
unfolding same_compaction_identity
same_compaction_identity_iff a b = ground (
  arith,
  eq_iff a.session_fingerprint b.session_fingerprint,
  eq_iff a.provider_id b.provider_id,
  eq_iff a.api b.api,
  eq_iff a.base_url b.base_url,
  eq_iff a.model_id b.model_id,
  same_kind a.authentication_kind b.authentication_kind,
  eq_iff a.authentication_fingerprint b.authentication_fingerprint,
)

-- Dropping a session drops the entry of each of its identities.
lookup-drop_session :
    (session : String) (i : Identity) (d : Dict Entry)
    → Dict.lookup (accounting_key session i) (drop_session session d) ≡ none
unfolding drop_session accounting_key
lookup-drop_session session i d = ground (
  arith,
  lookup-erase_where (λ key. starts_with key (session_prefix session))
      (session_prefix session <> identity_key i) d,
  starts_with-append (session_prefix session) (identity_key i),
)

generation_of-invalidate :
    (session : String) (s : Store)
    → generation_of session (invalidate_context_accounting session s) ≡ generation_of session s + 1
unfolding invalidate_context_accounting
generation_of-invalidate session s = ground (
  arith,
  lookup-insert session session (generation_of session s + 1) s.generations,
  eq_refl session,
)

module _ (session : String) (i : Identity) where
  -- A store with no entry of the identity has no baseline for it, whatever identity is active.
  no_entry :
      (s : Store)
      → Dict.lookup (accounting_key session i) s.accounting ≡ none
      → (context_accounting session i s).1.baseline ≡ none
  unfolding context_accounting
  no_entry s h = ground (arith, lookup-drop_session session i s.accounting)

  -- After the accounting of a session is invalidated no identity of it has a baseline, and a report
  -- of the generation before is refused and changes nothing.
  pub invalidate-forgets :
      (s : Store) (e : Entry)
      → e.generation ≡ generation_of session s
      → let t = invalidate_context_accounting session s in
        ((context_accounting session i t).1.baseline ≡ none)
        × (record_context_usage session i e t ≡ (t, false))
  unfolding record_context_usage
  invalidate-forgets s e h = (
    no_entry (invalidate_context_accounting session s)
        (unfold invalidate_context_accounting in lookup-drop_session session i s.accounting),
    ground (arith, generation_of-invalidate session s),
  )

  -- A session that turns to another identity reads no baseline for it.
  pub switch-forgets :
      (s : Store)
      → is_switch (Dict.lookup session s.active_identities) (identity_key i) ≡ true
      → (context_accounting session i s).1.baseline ≡ none
  unfolding context_accounting
  switch-forgets s h = ground (arith, lookup-drop_session session i s.accounting)

  -- A disposed session has no baseline left, and its warnings are given again.
  pub dispose-forgets :
      (s : Store)
      → ((context_accounting session i (dispose session s)).1.baseline ≡ none)
        × ((warn_once session i (dispose session s)).1 ≡ true)
  unfolding dispose warn_once
  dispose-forgets s = (
    no_entry (dispose session s) (lookup-drop_session session i s.accounting),
    ground (
      arith,
      mem_text-keep (λ key. not (starts_with key (session_prefix session)))
          (session_prefix session <> identity_key i) s.warning_keys,
      starts_with-append (session_prefix session) (identity_key i),
    ),
  )

  -- Usage that is recorded for an identity of a session, when no other identity of it is active, is
  -- read back in the same generation.
  pub context_accounting-record :
      (s t : Store) (e : Entry)
      → record_context_usage session i e s ≡ (t, true)
      → is_switch (Dict.lookup session s.active_identities) (identity_key i) ≡ false
      → (context_accounting session i t).1
        ≡ record { generation = generation_of session s; baseline = some e.baseline }
  unfolding context_accounting record_context_usage
  context_accounting-record s t e h k = ground (
    arith,
    lookup-insert (accounting_key session i) (accounting_key session i) e s.accounting,
    eq_refl (accounting_key session i),
  )

  -- Once the report of a request is recorded, that of an earlier request of the same generation is
  -- refused.
  pub record-supersedes :
      (s t : Store) (e f : Entry)
      → record_context_usage session i e s ≡ (t, true)
      → f.generation ≡ e.generation
      → f.request_generation < e.request_generation
      → record_context_usage session i f t ≡ (t, false)
  unfolding record_context_usage
  record-supersedes s t e f h g r = ground (
    arith,
    lookup-insert (accounting_key session i) (accounting_key session i) e s.accounting,
    eq_refl (accounting_key session i),
  )
