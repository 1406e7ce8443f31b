-- ===== src/Config/Issues.antt =====
-- `ConfigurationIssue` of src/domain/config.ts, and the leaf checks of the parser. The array
-- `issues` that the source passes along is what a step has pushed, in order.
use Prim.Native.String.{◌++◌ as ◌<>◌}
use pi_codex_adaptor.Prelude.{
  String, Bool, not, Option, none, some, List, [], ◌∷◌, ◌++◌, any, mem_text, str_eq, if◌then◌else◌,
}
use pi_codex_adaptor.Value.{Value, text, bool, Fields, keys, has_own, as_record}

pub data IssueCode : Type 0 where
  invalid_type invalid_value missing_field unknown_field : IssueCode
  unsupported_capability capability_unavailable : IssueCode

pub record ConfigurationIssue : Type 0 where
  pub path : String
  pub code : IssueCode
  pub message : String

-- A step that pushes issues and returns a value.
abbrev pub Parsed : Type 0 → Type 0
Parsed A = A × List ConfigurationIssue

infixl 5 ◌>>=◌ ◌>>◌
unfoldable pub ◌>>=◌ : {A B : Type 0} → Parsed A → (A → Parsed B) → Parsed B
m >>= f = ((f m.0).0, m.1 ++ (f m.0).1)

abbrev pub ◌>>◌ : {B : Type 0} → Parsed (Unit {0}) → Parsed B → Parsed B
m >> k = m >>= λ _. k

abbrev pub pure : {A : Type 0} → A → Parsed A
pure a = (a, [])

abbrev pub issue : String → IssueCode → String → Parsed (Unit {0})
issue path code message = (tt, record { path = path; code = code; message = message } ∷ [])

-- The end of a parser that has failed: push an issue, return undefined.
abbrev pub fail : {A : Type 0} → String → IssueCode → String → Parsed (Option A)
fail path code message = (none, (issue path code message).1)

unfoldable pub as_object : Value → String → Parsed (Option Fields)
as_object v path = elim (as_record v) [
  | some fs ↦ pure (some fs)
  | none ↦ fail path invalid_type "must be an object"
]

unfoldable pub require_keys : Fields → List String → String → Parsed (Unit {0})
require_keys fs [] path = pure tt
require_keys fs (key ∷ expected) path = do
  if has_own key fs
      then pure tt
      else issue (if str_eq path "$" then key else path <> "." <> key) missing_field "is required"
  require_keys fs expected path

unfoldable pub exact_keys : Fields → List String → String → Parsed (Unit {0})
unfolding require_keys
exact_keys fs expected path = do
  if any (λ key. not (mem_text key expected)) (keys fs)
      then issue path unknown_field "contains unsupported fields"
      else pure tt
  require_keys fs expected path

-- The entry of a table of literals that a text is.
unfoldable pub literal_of {ℓ} : {A : Type ℓ} → String → List (String × A) → Option A
literal_of s [] = none
literal_of s ((t, a) ∷ table) = if str_eq t s then some a else literal_of s table

-- `allowed` is the table of the type's literals.
unfoldable pub enum_value : {A : Type 0} → Value → List (String × A) → String → Parsed (Option A)
unfolding literal_of
enum_value (text s) allowed path = elim (literal_of s allowed) [
  | some a ↦ pure (some a)
  | none ↦ fail path invalid_value "has an unsupported value"
]
enum_value _ allowed path = fail path invalid_value "has an unsupported value"

unfoldable pub boolean_value : Value → String → Parsed (Option Bool)
boolean_value (bool b) path = pure (some b)
boolean_value _ path = fail path invalid_type "must be a boolean"
