-- ===== src/Compaction/Checked.antt =====
-- src/application/compaction.ts: what holds of a checkpoint that has been read.
use pi_codex_adaptor.Prelude.{
  ℕ, String, Bool, true, false, ◌&&◌, ◌≡◌, refl, subst, Option, none, some, List, arith,
  if◌then◌else◌,
}
use pi_codex_adaptor.Value.{Value, object, Items, Fields, get}
use pi_codex_adaptor.Compaction.Store.{Identity}
use pi_codex_adaptor.Compaction.Checkpoint.{validate_compaction_output, items_of}
use pi_codex_adaptor.Compaction.Output.{validate_compaction_output_iff}
use pi_codex_adaptor.Compaction.Saved.{
  Usage, Implementation, Checkpoint, max_identity_field_length, max_checkpoint_id_length,
  is_required_text, require_text, normalize_non_negative_integer, parse_identity, is_valid_identity,
  is_safe_count, is_valid_usage, make_checkpoint, create_remote_compaction_checkpoint,
  implementation_of, array_of, optional_usage, create_from, parse_remote_compaction_checkpoint,
}

-- Every text and number of the checkpoint passes the checks of the code, and the output is one that
-- is accepted.
abbrev pub IsCheckpoint : Checkpoint → Type 0
IsCheckpoint c =
    (is_valid_identity c.identity ≡ true)
    × (is_required_text max_checkpoint_id_length c.checkpoint_id ≡ true)
    × (is_required_text max_identity_field_length c.covered_entry_id ≡ true)
    × (is_safe_count c.tokens_before ≡ true)
    × (is_valid_usage c.usage ≡ true)
    × (validate_compaction_output (items_of c.output) ≡ some c.output)

output_again :
    (vs : Items) (output : List Fields)
    → validate_compaction_output vs ≡ some output
    → validate_compaction_output (items_of output) ≡ some output
output_again vs output h =
    (validate_compaction_output_iff (items_of output) output).1
      (refl, ((validate_compaction_output_iff vs output).0 h).1)

then-eq-some {ℓ} :
    {A : Type ℓ} (b : Bool) (o : Option A) (x : A)
    → (if b then o else none) ≡ some x
    → (b ≡ true) × (o ≡ some x)
then-eq-some true o x h = (refl, h)
then-eq-some false o x h = absurd (cc)

some_eq {ℓ} : {A : Type ℓ} (a b : A) → some a ≡ some b → a ≡ b
some_eq a b h = cc

and_split :
    (a b c d e : Bool)
    → (a && b && c && d && e) ≡ true
    → (a ≡ true) × (b ≡ true) × (c ≡ true) × (d ≡ true) × (e ≡ true)
and_split a b c d e h = ground arith

made-IsCheckpoint :
    (i : Identity) (id covered : String) (implementation : Implementation) (vs : Items) (tokens : ℕ)
    (usage : Option Usage) (output : Option (List Fields)) (c : Checkpoint)
    → validate_compaction_output vs ≡ output
    → make_checkpoint i id covered implementation output tokens usage ≡ some c
    → is_valid_identity i ≡ true
    → is_required_text max_checkpoint_id_length id ≡ true
    → is_required_text max_identity_field_length covered ≡ true
    → is_safe_count tokens ≡ true
    → is_valid_usage usage ≡ true
    → IsCheckpoint c
made-IsCheckpoint i id covered m vs tokens usage none c o h v w x y z = absurd (cc)
made-IsCheckpoint i id covered m vs tokens usage (some output) c o h v w x y z =
    subst IsCheckpoint (some_eq _ _ h) (v, w, x, y, z, output_again vs output o)

create-IsCheckpoint :
    (i : Identity) (id covered : String) (implementation : Implementation) (vs : Items) (tokens : ℕ)
    (usage : Option Usage) (c : Checkpoint)
    → create_remote_compaction_checkpoint i id covered implementation vs tokens usage ≡ some c
    → IsCheckpoint c
unfolding create_remote_compaction_checkpoint
create-IsCheckpoint i id covered implementation vs tokens usage c h =
    let (tests, made) = then-eq-some _ _ c h in
    let (v, w, x, y, z) = and_split _ _ _ _ _ tests in
    made-IsCheckpoint i id covered implementation vs tokens usage (validate_compaction_output vs) c
      refl made v w x y z

create_from-IsCheckpoint :
    (i : Option Identity) (id covered : Option String) (implementation : Option Implementation)
    (vs : Option Items) (tokens : Option ℕ) (usage : Option (Option Usage)) (c : Checkpoint)
    → create_from i id covered implementation vs tokens usage ≡ some c
    → IsCheckpoint c
create_from-IsCheckpoint (some i) (some id) (some d) (some m) (some vs) (some t) (some u) c h =
    create-IsCheckpoint i id d m vs t u c h
create_from-IsCheckpoint _ _ _ _ _ _ _ c h = absurd (cc)

pub parse-IsCheckpoint :
    (v : Value) (c : Checkpoint) → parse_remote_compaction_checkpoint v ≡ some c → IsCheckpoint c
unfolding parse_remote_compaction_checkpoint
parse-IsCheckpoint (object fs) c h =
    create_from-IsCheckpoint (parse_identity fs)
      (require_text max_checkpoint_id_length (get "checkpointId" fs))
      (require_text max_identity_field_length (get "coveredEntryId" fs))
      (implementation_of (get "implementation" fs)) (array_of (get "output" fs))
      (normalize_non_negative_integer (get "tokensBefore" fs)) (optional_usage (get "usage" fs)) c
      (then-eq-some _ _ c h).1
parse-IsCheckpoint _ c h = absurd (cc)
