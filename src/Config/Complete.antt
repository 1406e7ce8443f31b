-- ===== src/Config/Complete.antt =====
-- The parser of src/domain/config.ts never fails silently: a part that is undefined has pushed an
-- issue.
use pi_codex_adaptor.Prelude.{
  String, ◌≡◌, ◌≢◌, Option, none, some, List, [], ◌∷◌, arith, Option-cases, inl, inr,
  append-eq-nil_left, append-eq-nil_right,
}
use pi_codex_adaptor.Value.{Value, text, bool, object, get, Fields, array, items}
use pi_codex_adaptor.Config.Schema.{CompactionConfig}
use pi_codex_adaptor.Config.Issues.{
  ConfigurationIssue, Parsed, ◌>>=◌, ◌>>◌, pure, fail, IssueCode, as_object, exact_keys, enum_value,
  boolean_value,
}
use pi_codex_adaptor.Config.Parse.{
  parse_tools, token_limit, parse_activation, parse_providers, parse_provider_array, nested_mode,
  parse_security, parse_auto, parse_compaction, parse_codex, parse_ui, schema_version, parse_root,
  Mode, off, auto, parse_config, err, conclude,
}

-- With no issue there is a value.
record Explains {A : Type 0} (m : Parsed (Option A)) : Type 0 where
  value : m.1 ≡ [] → m.0 ≢ none

module _ {A : Type 0} where
  pure-Explains : (a : A) → Explains (pure (some a))
  pure-Explains a = record { value = λ _ e. cc }

  fail-Explains :
      (path : String) (code : IssueCode) (message : String)
      → Explains (fail {A = A} path code message)
  fail-Explains path code message = record { value = λ h e. cc }

  then-Explains :
      {B : Type 0} (m : Parsed B) (f : B → Parsed (Option A))
      → ((b : B) → Explains (f b))
      → Explains (m >>= f)
  unfolding ◌>>=◌
  then-Explains m f h = record { value = λ c. (h m.0).value (append-eq-nil_right m.1 _ c) }

  some-Explains :
      {B : Type 0} (m : Parsed (Option B)) (f : Option B → Parsed (Option A))
      → Explains m
      → ((b : B) → Explains (f (some b)))
      → Explains (m >>= f)
  unfolding ◌>>=◌
  some-Explains m f hm h = elim (Option-cases m.0) [
    | inl e ↦ record { value = λ c. absurd (hm.value (append-eq-nil_left m.1 _ c) e) }
    | inr (b, e) ↦ record {
      value = λ c. rw e ((h b).value (rw e at (append-eq-nil_right m.1 _ c)));
    }
  ]

enum_value-Explains :
    {A : Type 0} (v : Value) (allowed : List (String × A)) (path : String)
    → Explains (enum_value v allowed path)
unfolding enum_value
enum_value-Explains (text s) allowed path = ground arith
enum_value-Explains _ allowed path = ground arith

boolean_value-Explains : (v : Value) (path : String) → Explains (boolean_value v path)
unfolding boolean_value
boolean_value-Explains (bool b) path = ground arith
boolean_value-Explains _ path = ground arith

as_object-Explains : (v : Value) (path : String) → Explains (as_object v path)
unfolding as_object
as_object-Explains (object fs) path = ground arith
as_object-Explains _ path = ground arith

ruleset explains = (
  pure-Explains, fail-Explains, some-Explains, enum_value-Explains, boolean_value-Explains,
  as_object-Explains,
)

parse_security-Explains : (v : Value) → Explains (parse_security v)
unfolding parse_security
parse_security-Explains v =
    some-Explains _ _ (as_object-Explains v _) λ fs. then-Explains _ _ λ _. search explains depth 9

parse_providers-Explains : (vs : List Value) → Explains (parse_providers vs)
unfolding parse_providers
parse_providers-Explains vs = ground arith

parse_provider_array-Explains : (v : Value) → Explains (parse_provider_array v)
unfolding parse_provider_array
parse_provider_array-Explains (array vs) = parse_providers-Explains (items vs)
parse_provider_array-Explains _ = fail-Explains _ _ _

parse_activation-Explains : (v : Value) → Explains (parse_activation v)
unfolding parse_activation
parse_activation-Explains v =
    some-Explains _ _ (as_object-Explains v _)
      λ fs. then-Explains _ _ λ _. parse_provider_array-Explains _

parse_tools-Explains : (v : Value) → Explains (parse_tools v)
unfolding parse_tools
parse_tools-Explains v = some-Explains _ _ (as_object-Explains v _) λ fs. then-Explains _ _ λ _.
    some-Explains _ _ (boolean_value-Explains _ _) λ b.
      some-Explains _ _ (as_object-Explains _ _)
        λ os. then-Explains _ _ λ _. search explains depth 9

nested_mode-Explains :
    {A : Type 0} (v : Value) (allowed : List (String × A)) (path : String)
    → Explains (nested_mode v allowed path)
unfolding nested_mode
nested_mode-Explains v allowed path =
    some-Explains _ _ (as_object-Explains v _)
      λ fs. then-Explains _ _ λ _. enum_value-Explains _ _ _

parse_auto-Explains : (fs : Fields) → Explains (parse_auto fs)
unfolding parse_auto
parse_auto-Explains fs = then-Explains _ _ λ _.
    elim (Option-cases (token_limit (get "autoCompactTokenLimit" fs))) [
      | inl e ↦ rw e (fail-Explains _ _ _)
      | inr (l, e) ↦ rw e (pure-Explains _)
    ]

parse_compaction-Explains : (v : Value) → Explains (parse_compaction v)
unfolding parse_compaction
parse_compaction-Explains v =
    some-Explains _ _ (as_object-Explains v _)
      λ fs. some-Explains _ _ (enum_value-Explains _ _ _) λ m. by_mode fs m
  where
    by_mode :
        (fs : Fields) (m : Mode)
        → Explains (elim m [
          | off ↦ exact_keys fs ("mode" ∷ []) "codex.compaction" >> pure (some CompactionConfig.off)
          | auto ↦ parse_auto fs
        ])
    by_mode fs off = then-Explains _ _ λ _. pure-Explains _
    by_mode fs auto = parse_auto-Explains fs

parse_codex-Explains : (v : Value) → Explains (parse_codex v)
unfolding parse_codex
parse_codex-Explains v = some-Explains _ _ (as_object-Explains v _) λ fs.
    then-Explains _ _
      λ _. search (explains, nested_mode-Explains, parse_compaction-Explains) depth 14

parse_ui-Explains : (v : Value) → Explains (parse_ui v)
unfolding parse_ui
parse_ui-Explains v =
    some-Explains _ _ (as_object-Explains v _) λ fs. then-Explains _ _ λ _. search explains depth 5

schema_version-Explains : (v : Value) → Explains (schema_version v)
unfolding schema_version
schema_version-Explains v = ground arith

parse_root-Explains : (fs : Fields) → Explains (parse_root fs)
unfolding parse_root
parse_root-Explains fs = then-Explains _ _ λ _.
    search
      (
        explains, schema_version-Explains, parse_activation-Explains, parse_tools-Explains,
        parse_security-Explains, parse_codex-Explains, parse_ui-Explains,
      )
      depth 16

conclude-Explains :
    {A : Type 0} (m : Parsed (Option A)) (issues : List ConfigurationIssue)
    → Explains m
    → conclude m ≡ err issues
    → issues ≢ []
unfolding conclude
conclude-Explains m issues h e = ground (arith, h.value)

-- A configuration that parseConfig rejects is rejected with at least one issue.
pub parse_config-reports :
    (v : Value) (issues : List ConfigurationIssue) → parse_config v ≡ err issues → issues ≢ []
unfolding parse_config
parse_config-reports v issues e =
    conclude-Explains _ issues (some-Explains _ _ (as_object-Explains v _) parse_root-Explains) e
