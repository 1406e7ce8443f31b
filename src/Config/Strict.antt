-- ===== src/Config/Strict.antt =====
-- `exactKeys` of src/domain/config.ts: what an object that passes it looks like.
use pi_codex_adaptor.Prelude.{
  String, true, false, not, ◌≡◌, ◌↔◌, List, [], ◌∷◌, All, any, arith, mem_text, append-eq-nil_left,
}
use pi_codex_adaptor.Value.{object, Fields, keys, has_own}
use pi_codex_adaptor.Config.Schema.{CodexConfig}
use pi_codex_adaptor.Config.Issues.{◌>>=◌, require_keys, exact_keys, as_object}
use pi_codex_adaptor.Config.Parse.{parse_config, parse_root, ok, root_keys}
use pi_codex_adaptor.Config.Valid.{conclude-eq-ok}

-- The object has the expected fields, each its own, and no other.
pub record HasExactly (fs : Fields) (expected : List String) : Type 0 where
  pub known : All (λ key. mem_text key expected ≡ true) (keys fs)
  pub present : All (λ key. has_own key fs ≡ true) expected

require_keys_iff :
    (fs : Fields) (expected : List String) (path : String)
    → ((require_keys fs expected path).1 ≡ []) ↔ All (λ key. has_own key fs ≡ true) expected
unfolding require_keys ◌>>=◌
require_keys_iff fs [] path = ground arith
require_keys_iff fs (key ∷ expected) path = ground (arith, require_keys_iff fs expected path)

any-unknown_iff :
    (expected ks : List String)
    → (any (λ key. not (mem_text key expected)) ks ≡ false)
      ↔ All (λ key. mem_text key expected ≡ true) ks
any-unknown_iff expected [] = ground arith
any-unknown_iff expected (k ∷ ks) = ground (arith, any-unknown_iff expected ks)

-- exactKeys pushes no issue exactly when the object has the expected fields and no other.
pub exact_keys_iff :
    (fs : Fields) (expected : List String) (path : String)
    → ((exact_keys fs expected path).1 ≡ []) ↔ HasExactly fs expected
unfolding exact_keys ◌>>=◌
exact_keys_iff fs expected path = (
  λ h. record {
    known = ground (arith, any-unknown_iff expected (keys fs));
    present = ground (arith, require_keys_iff fs expected path);
  },
  λ p. ground (
    arith,
    require_keys_iff fs expected path,
    any-unknown_iff expected (keys fs),
    p.known,
    p.present,
  ),
)

parse_root-clean : (fs : Fields) → (parse_root fs).1 ≡ [] → (exact_keys fs root_keys "$").1 ≡ []
unfolding parse_root ◌>>=◌
parse_root-clean fs h = append-eq-nil_left _ _ h

-- parseConfig accepts, of the objects, only those with the six fields of the schema and no other.
pub parse_config-HasExactly :
    (fs : Fields) (c : CodexConfig) → parse_config (object fs) ≡ ok c → HasExactly fs root_keys
unfolding parse_config as_object ◌>>=◌
parse_config-HasExactly fs c e =
    (exact_keys_iff fs root_keys "$").0 (parse_root-clean fs (conclude-eq-ok _ c e).1)
