-- ===== src/Bridge/Identity.antt =====
-- src/infrastructure/codex-bridge/protocol.ts and identity.ts: the handshake and its verification.
use pi_codex_adaptor.Prelude.{
  ℕ, String, Bool, true, false, not, ◌&&◌, ◌||◌, ◌≡◌, ◌≢◌, ◌↔◌, ◌⊎◌, Option, none, some, List, [],
  ◌∷◌, ◌==◌, leb, str_eq, eq_iff, ==_iff, length, all, All, Option-cases, codes, refl, arith,
  if◌then◌else◌,
}
use pi_codex_adaptor.Bridge.Frames.{max_frame_bytes}

abbrev pub bridge_protocol_version : ℕ
bridge_protocol_version = 8

abbrev pub official_codex_version : String
official_codex_version = "0.146.0"

abbrev pub official_codex_tag : String
official_codex_tag = "rust-v0.146.0"

abbrev pub official_source_commit : String
official_source_commit = "e363b08c9175ac1cbe5893615dd2cb9ddf95043b"

abbrev pub vendor_tree_sha256 : String
vendor_tree_sha256 = "4480020e4ec987e750247807b040a0402f391baa7c268242c0019eaac6da6574"

abbrev pub max_pending_events : ℕ
max_pending_events = 256

-- `BridgeHandshake`
pub record Handshake : Type 0 where
  pub bridge_protocol_version : ℕ
  pub official_codex_version : String
  pub official_codex_tag : String
  pub official_source_commit : String
  pub build_target : String
  pub build_source_commit : String
  pub vendor_tree_sha256 : String
  pub max_frame_bytes : ℕ
  pub max_pending_events : ℕ
  pub capabilities : List String

-- `HandshakeVerificationOptions`
pub record VerificationOptions : Type 0 where
  pub allow_development_build : Bool
  pub expected_build_source_commit : Option String

-- A digit or a letter from a to f.
abbrev pub is_hex : ℕ → Bool
is_hex c = (leb 48 c && leb c 57) || (leb 97 c && leb c 102)

-- `/^[0-9a-f]{40}$/`
unfoldable pub is_commit : String → Bool
is_commit s = length (codes s) == 40 && all is_hex (codes s)

-- The error `handshake_mismatch`, with the field that its message names.
pub data Verified : Type 0 where
  verified : Verified
  field_mismatch : String → Verified
  source_invalid source_differs : Verified

-- The loop over the fields, each with whether it is as expected: the first that is not.
unfoldable pub first_mismatch : List (String × Bool) → Option String
first_mismatch [] = none
first_mismatch ((name, same) ∷ fields) = if same then first_mismatch fields else some name

unfoldable pub compared_fields : Handshake → String → List (String × Bool)
compared_fields h target =
    ("bridgeProtocolVersion", h.bridge_protocol_version == bridge_protocol_version)
    ∷ ("officialCodexVersion", str_eq h.official_codex_version official_codex_version)
    ∷ ("officialCodexTag", str_eq h.official_codex_tag official_codex_tag)
    ∷ ("officialSourceCommit", str_eq h.official_source_commit official_source_commit)
    ∷ ("buildTarget", str_eq h.build_target target)
    ∷ ("vendorTreeSha256", str_eq h.vendor_tree_sha256 vendor_tree_sha256)
    ∷ ("maxFrameBytes", h.max_frame_bytes == max_frame_bytes)
    ∷ ("maxPendingEvents", h.max_pending_events == max_pending_events)
    ∷ []

unfoldable pub is_source_invalid : String → VerificationOptions → Bool
unfolding is_commit
is_source_invalid commit options =
    if str_eq commit "development"
    then not options.allow_development_build
    else not (is_commit commit)

unfoldable pub differs : String → Option String → Bool
differs commit none = false
differs commit (some expected) = not (str_eq commit expected)

unfoldable pub verify_source : String → VerificationOptions → Verified
unfolding is_source_invalid differs
verify_source commit options =
    if is_source_invalid commit options
    then source_invalid
    else if differs commit options.expected_build_source_commit
    then source_differs
    else verified

unfoldable pub verify_handshake : Handshake → String → VerificationOptions → Verified
unfolding first_mismatch compared_fields verify_source
verify_handshake h target options = elim (first_mismatch (compared_fields h target)) [
  | some name ↦ field_mismatch name
  | none ↦ verify_source h.build_source_commit options
]

-- The identity that the product expects of a bridge.
pub record IsProduct (h : Handshake) (target : String) : Type 0 where
  pub protocol : h.bridge_protocol_version ≡ bridge_protocol_version
  pub version : h.official_codex_version ≡ official_codex_version
  pub tag : h.official_codex_tag ≡ official_codex_tag
  pub commit : h.official_source_commit ≡ official_source_commit
  pub target_same : h.build_target ≡ target
  pub tree : h.vendor_tree_sha256 ≡ vendor_tree_sha256
  pub frame : h.max_frame_bytes ≡ max_frame_bytes
  pub events : h.max_pending_events ≡ max_pending_events

-- A development build where it is allowed, or a commit; and the one expected, if one is.
abbrev pub IsSource : String → VerificationOptions → Type 0
IsSource s options =
    (((s ≡ "development") × (options.allow_development_build ≡ true))
      ⊎ ((s ≢ "development") × (is_commit s ≡ true)))
    × ((expected : String) → options.expected_build_source_commit ≡ some expected → s ≡ expected)

differs_iff :
    (s : String) (o : Option String)
    → (differs s o ≡ false) ↔ ((expected : String) → o ≡ some expected → s ≡ expected)
unfolding differs
differs_iff s none = (λ h e f. absurd (cc), λ h. refl)
differs_iff s (some expected) = (
  λ h e f. ground (arith, eq_iff s expected, h),
  λ h. ground (arith, eq_iff s expected, h expected refl),
)

first_mismatch_iff :
    (fields : List (String × Bool)) → (first_mismatch fields ≡ none) ↔ All (λ f. f.1 ≡ true) fields
unfolding first_mismatch
first_mismatch_iff [] = ground arith
first_mismatch_iff ((name, same) ∷ fields) = ground (arith, first_mismatch_iff fields)

compared_fields_iff :
    (h : Handshake) (target : String)
    → All (λ f. f.1 ≡ true) (compared_fields h target) ↔ IsProduct h target
unfolding compared_fields
compared_fields_iff h target = (
  λ a. record {
    protocol = (==_iff _ _).0 a.0;
    version = (eq_iff _ _).0 a.1.0;
    tag = (eq_iff _ _).0 a.1.1.0;
    commit = (eq_iff _ _).0 a.1.1.1.0;
    target_same = (eq_iff _ _).0 a.1.1.1.1.0;
    tree = (eq_iff _ _).0 a.1.1.1.1.1.0;
    frame = (==_iff _ _).0 a.1.1.1.1.1.1.0;
    events = (==_iff _ _).0 a.1.1.1.1.1.1.1.0;
  },
  λ w. (
    (==_iff _ _).1 w.protocol,
    (
      (eq_iff _ _).1 w.version,
      (
        (eq_iff _ _).1 w.tag,
        (
          (eq_iff _ _).1 w.commit,
          (
            (eq_iff _ _).1 w.target_same,
            ((eq_iff _ _).1 w.tree, ((==_iff _ _).1 w.frame, ((==_iff _ _).1 w.events, tt))),
          ),
        ),
      ),
    ),
  ),
)

verify_source_iff :
    (s : String) (o : VerificationOptions) → (verify_source s o ≡ verified) ↔ IsSource s o
unfolding verify_source is_source_invalid differs
verify_source_iff s o =
    ground (arith, eq_iff s "development", differs_iff s o.expected_build_source_commit)

-- verifyHandshake lets a handshake pass exactly when each of its eight compared fields is that of
-- the product, and its build source is one that the options allow.
pub verify_handshake_iff :
    (h : Handshake) (target : String) (o : VerificationOptions)
    → (verify_handshake h target o ≡ verified)
      ↔ (IsProduct h target × IsSource h.build_source_commit o)
unfolding verify_handshake
verify_handshake_iff h target o = ground (
  arith,
  Option-cases (first_mismatch (compared_fields h target)),
  first_mismatch_iff (compared_fields h target),
  compared_fields_iff h target,
  verify_source_iff h.build_source_commit o,
)
