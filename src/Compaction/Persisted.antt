-- ===== src/Compaction/Persisted.antt =====
-- src/application/compaction.ts: a checkpoint that is written and read back.
use pi_codex_adaptor.Prelude.{
  ℕ, String, Bool, true, ◌&&◌, ◌||◌, ◌≡◌, refl, ap, ◌∙◌, Option, none, some, [], ◌∷◌, ◌++◌, arith,
  if◌then◌else◌,
}
use pi_codex_adaptor.Value.{
  Value, number, text, array, object, pos, Items, Fields, field, end, get, keys,
}
use pi_codex_adaptor.Compaction.Store.{
  Identity, AuthenticationKind, jwt_account, credential, kind_text,
}
use pi_codex_adaptor.Compaction.Checkpoint.{items_of}
use pi_codex_adaptor.Compaction.Saved.{
  Usage, Implementation, remote_v2, compact_endpoint, Checkpoint, max_identity_field_length,
  max_checkpoint_id_length, is_required_text, require_text, normalize_non_negative_integer,
  has_exact_keys, kind_of, validate_authentication_binding, make_identity, parse_identity,
  is_valid_identity, parse_usage, is_safe_count, is_valid_usage, make_checkpoint,
  create_remote_compaction_checkpoint, implementation_of, optional_usage, create_from,
  required_keys, parse_remote_compaction_checkpoint,
}
use pi_codex_adaptor.Compaction.Checked.{IsCheckpoint, parse-IsCheckpoint}

-- The JSON of a checkpoint, in the order in which the code writes it.
abbrev encode_implementation : Implementation → String
encode_implementation remote_v2 = "remote_v2"
encode_implementation compact_endpoint = "compact_endpoint"

abbrev encode_reasoning : Option ℕ → Fields
encode_reasoning none = end
encode_reasoning (some n) = field "reasoningTokens" (number (pos n)) end

abbrev encode_usage : Usage → Value
encode_usage u = object (
    field "inputTokens" (number (pos u.input_tokens)) (
      field "outputTokens" (number (pos u.output_tokens)) (
        field "cachedInputTokens" (number (pos u.cached_input_tokens))
          (encode_reasoning u.reasoning_tokens))))

abbrev usage_field : Option Usage → Fields
usage_field none = end
usage_field (some u) = field "usage" (encode_usage u) end

abbrev encode_binding : Identity → Value
encode_binding i = object (
    field "kind" (text (kind_text i.authentication_kind))
      (field "fingerprint" (text i.authentication_fingerprint) end))

abbrev checkpoint_fields : Checkpoint → Fields
checkpoint_fields c = field "kind" (text "pi-codex-adaptor.remote-compaction") (
    field "version" (number (pos 1)) (
      field "sessionFingerprint" (text c.identity.session_fingerprint) (
        field "providerId" (text c.identity.provider_id) (
          field "api" (text c.identity.api) (
            field "baseUrl" (text c.identity.base_url) (
              field "modelId" (text c.identity.model_id) (
                field "authenticationBinding" (encode_binding c.identity) (
                  field "checkpointId" (text c.checkpoint_id) (
                    field "coveredEntryId" (text c.covered_entry_id) (
                      field "implementation" (text (encode_implementation c.implementation)) (
                        field "output" (array (items_of c.output)) (
                          field "tokensBefore" (number (pos c.tokens_before))
                            (usage_field c.usage)))))))))))))

abbrev pub encode_checkpoint : Checkpoint → Value
encode_checkpoint c = object (checkpoint_fields c)

kind_of-kind_text : (k : AuthenticationKind) → kind_of (text (kind_text k)) ≡ some k
kind_of-kind_text jwt_account = refl
kind_of-kind_text credential = refl

require_text-text :
    (maximum : ℕ) (s : String)
    → is_required_text maximum s ≡ true
    → require_text maximum (text s) ≡ some s
unfolding require_text
require_text-text maximum s h = rw h refl

binding-encode :
    (i : Identity)
    → is_required_text max_identity_field_length i.authentication_fingerprint ≡ true
    → validate_authentication_binding (encode_binding i)
      ≡ some (i.authentication_kind, i.authentication_fingerprint)
unfolding validate_authentication_binding has_exact_keys keys get
binding-encode i h =
    rw
      (
        kind_of-kind_text i.authentication_kind,
        require_text-text max_identity_field_length i.authentication_fingerprint h,
      )
      refl

usage-encode : (u : Usage) → is_valid_usage (some u) ≡ true → parse_usage (encode_usage u) ≡ some u
unfolding parse_usage has_exact_keys keys get normalize_non_negative_integer
usage-encode u h = ground (arith, h)

optional_usage-some :
    (fs : Fields) (u : Usage)
    → parse_usage (object fs) ≡ some u
    → optional_usage (object fs) ≡ some (some u)
optional_usage-some fs u h = rw (optional_usage, h) refl

optional_usage-encode :
    (u : Option Usage)
    → is_valid_usage u ≡ true
    → optional_usage (get "usage" (usage_field u)) ≡ some u
unfolding get
optional_usage-encode none h = refl
optional_usage-encode (some u) h = optional_usage-some _ u (usage-encode u h)

make_identity-some :
    (a b c d e : Option String) (k : Option (AuthenticationKind × String)) (i : Identity)
    → a ≡ some i.session_fingerprint
    → b ≡ some i.provider_id
    → c ≡ some i.api
    → d ≡ some i.base_url
    → e ≡ some i.model_id
    → k ≡ some (i.authentication_kind, i.authentication_fingerprint)
    → make_identity a b c d e k ≡ some i
make_identity-some a b c d e k i ha hb hc hd he hk = rw (ha, hb, hc, hd, he, hk) refl

and_split6 :
    (a b c d e f : Bool)
    → (a && b && c && d && e && f) ≡ true
    → (a ≡ true) × (b ≡ true) × (c ≡ true) × (d ≡ true) × (e ≡ true) × (f ≡ true)
and_split6 a b c d e f h = ground arith

pub valid_parts :
    (i : Identity)
    → is_valid_identity i ≡ true
    → (is_required_text max_identity_field_length i.session_fingerprint ≡ true)
      × (is_required_text max_identity_field_length i.provider_id ≡ true)
      × (is_required_text max_identity_field_length i.api ≡ true)
      × (is_required_text max_identity_field_length i.base_url ≡ true)
      × (is_required_text max_identity_field_length i.model_id ≡ true)
      × (is_required_text max_identity_field_length i.authentication_fingerprint ≡ true)
unfolding is_valid_identity
valid_parts i h = and_split6 _ _ _ _ _ _ h

identity-encode :
    (c : Checkpoint)
    → is_valid_identity c.identity ≡ true
    → parse_identity (checkpoint_fields c) ≡ some c.identity
unfolding parse_identity get
identity-encode c h =
    let i = c.identity in
    let (s, p, a, b, m, f) = valid_parts i h in
    make_identity-some _ _ _ _ _ _ i
      (require_text-text max_identity_field_length i.session_fingerprint s)
      (require_text-text max_identity_field_length i.provider_id p)
      (require_text-text max_identity_field_length i.api a)
      (require_text-text max_identity_field_length i.base_url b)
      (require_text-text max_identity_field_length i.model_id m) (binding-encode i f)

implementation-encode :
    (m : Implementation) → implementation_of (text (encode_implementation m)) ≡ some m
implementation-encode remote_v2 = refl
implementation-encode compact_endpoint = refl

count-encode :
    (n : ℕ) → is_safe_count n ≡ true → normalize_non_negative_integer (number (pos n)) ≡ some n
unfolding normalize_non_negative_integer
count-encode n h = rw h refl

then_true {ℓ} : {A : Type ℓ} (b : Bool) (o p : A) → b ≡ true → (if b then o else p) ≡ o
then_true b o p h = rw h refl

and_join :
    (a b c d e : Bool)
    → a ≡ true
    → b ≡ true
    → c ≡ true
    → d ≡ true
    → e ≡ true
    → (a && b && c && d && e) ≡ true
and_join a b c d e ha hb hc hd he = ground arith

create-again :
    (c : Checkpoint)
    → IsCheckpoint c
    → create_remote_compaction_checkpoint c.identity c.checkpoint_id c.covered_entry_id
        c.implementation
        (items_of c.output)
        c.tokens_before
        c.usage
      ≡ some c
unfolding create_remote_compaction_checkpoint
create-again c (v, w, x, y, z, o) =
    then_true _ _ none (and_join _ _ _ _ _ v w x y z)
    ∙ ap
        (λ output.
          make_checkpoint c.identity c.checkpoint_id c.covered_entry_id c.implementation output
            c.tokens_before c.usage)
        o

create_from-some :
    (i : Option Identity) (id covered : Option String) (m : Option Implementation)
    (vs : Option Items) (tokens : Option ℕ) (usage : Option (Option Usage)) (c : Checkpoint)
    → i ≡ some c.identity
    → id ≡ some c.checkpoint_id
    → covered ≡ some c.covered_entry_id
    → m ≡ some c.implementation
    → vs ≡ some (items_of c.output)
    → tokens ≡ some c.tokens_before
    → usage ≡ some c.usage
    → IsCheckpoint c
    → create_from i id covered m vs tokens usage ≡ some c
create_from-some i id covered m vs tokens usage c hi hid hc hm hv ht hu h =
    rw (hi, hid, hc, hm, hv, ht, hu) (create-again c h)

-- The keys are those that are wanted, with a usage or without.
keys-encode :
    (u : Option Usage) (c : Checkpoint)
    → let fs = checkpoint_fields (record c { usage = u }) in
      (has_exact_keys fs required_keys || has_exact_keys fs (required_keys ++ "usage" ∷ [])) ≡ true
unfolding has_exact_keys keys
keys-encode none c = refl
keys-encode (some u) c = refl

pub encode-parses :
    (c : Checkpoint)
    → IsCheckpoint c
    → parse_remote_compaction_checkpoint (encode_checkpoint c) ≡ some c
unfolding parse_remote_compaction_checkpoint get
encode-parses c h =
    then_true _ _ none (keys-encode c.usage c)
    ∙ create_from-some _ _ _ _ _ _ _ c (identity-encode c h.0)
        (require_text-text max_checkpoint_id_length c.checkpoint_id h.1)
        (require_text-text max_identity_field_length c.covered_entry_id h.2)
        (implementation-encode c.implementation) refl (count-encode c.tokens_before h.3)
        (optional_usage-encode c.usage h.4) h

-- A checkpoint of a remote compaction that has been read from any value is read back from its own
-- JSON, unchanged.
pub parse_remote_compaction_checkpoint-encode_checkpoint :
    (v : Value) (c : Checkpoint)
    → parse_remote_compaction_checkpoint v ≡ some c
    → parse_remote_compaction_checkpoint (encode_checkpoint c) ≡ some c
parse_remote_compaction_checkpoint-encode_checkpoint v c h =
    encode-parses c (parse-IsCheckpoint v c h)
