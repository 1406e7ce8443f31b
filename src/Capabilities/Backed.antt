-- ===== src/Capabilities/Backed.antt =====
-- src/application/resolve-effective-capabilities.ts: what is reported as available has an executor in
-- the bridge, and so has what the save gate of src/domain/config.ts lets through.
use pi_codex_adaptor.Prelude.{
  ℕ, ◌<◌, String, true, false, ◌||◌, ◌≡◌, refl, ap, subst, Option, none, some, List, mem_text,
  arith, inl, inr, ◌⊎◌,
}
use pi_codex_adaptor.Value.{Number}
use pi_codex_adaptor.Config.Schema.{CompactionConfig, ShellSurface, unified_exec, shell_command}
use pi_codex_adaptor.Capabilities.Metadata.{
  Answer, returned, thrown, ◌>>=◌, Availability, ModelCapability, ToolCapability,
}
use pi_codex_adaptor.Capabilities.Resolve.{
  Runtime, Input, Snapshot, is_available, is_past, usable, limit_of, require_bridge,
  require_either_bridge, resolve_threshold, implementation_of, manual_compaction,
  automatic_compaction, bounded_shell, snapshot_of, resolve, parse_bridge_capabilities,
  build_tools_resolve_params,
}
use pi_codex_adaptor.Capabilities.Metadata.{parse_model_resolution, parse_tool_resolution}

bind-returned {ℓ κ} :
    {A : Type ℓ} {B : Type κ} (a : Answer A) (f : A → Answer B) (b : B)
    → (a >>= f) ≡ returned b
    → (x : A) × ((a ≡ returned x) × (f x ≡ returned b))
bind-returned (returned x) f b e = (x, (refl, e))
bind-returned (thrown code reason) f b e = absurd (ground (arith, e))

same-returned {ℓ} : {A : Type ℓ} (a b : A) → returned a ≡ returned b → a ≡ b
same-returned a b e = ap (λ x. elim x [ returned y ↦ y | thrown code reason ↦ a ]) e

-- An executor of this name in the bridge.
abbrev pub Has : Snapshot → String → Type 0
Has s name = mem_text name s.bridge_capabilities ≡ true

abbrev pub HasEither : Snapshot → String → String → Type 0
HasEither s a b = (mem_text a s.bridge_capabilities || mem_text b s.bridge_capabilities) ≡ true

-- Every capability that is available has its executor, and automatic compaction has a threshold that
-- is positive and below the context window.
pub record IsBacked (i : Input) (s : Snapshot) : Type 0 where
  pub patch : is_available s.apply_patch ≡ true → Has s "apply_patch"
  pub image : is_available s.view_image ≡ true → Has s "view_image"
  pub generation : is_available s.image_generation ≡ true → Has s "image_generation"
  pub search :
      is_available s.web_search ≡ true → HasEither s "standalone_web_search" "hosted_web_search"
  pub bounded :
      is_available s.shell_bounded ≡ true
      → ((s.tools.shell_surface ≡ unified_exec) × Has s "unified_exec")
        ⊎ ((s.tools.shell_surface ≡ shell_command) × Has s "shell_command")
  pub sessions :
      i.config.tools.background_sessions ≡ true
      → is_available s.shell_sessions ≡ true
      → Has s "unified_exec"
  pub manual : is_available s.manual ≡ true → HasEither s "remote_compaction_v2" "compact_endpoint"
  pub automatic_executor :
      is_available s.automatic ≡ true → HasEither s "remote_compaction_v2" "compact_endpoint"
  pub automatic :
      is_available s.automatic ≡ true
      → (n : ℕ) × ((s.threshold ≡ some n) × ((0 < n) × (is_past n i.context_window ≡ false)))
  pub transport : is_available s.transport ≡ true → Has s "responses_sse"
  pub websockets : s.provider_supports_websockets ≡ true → Has s "responses_websocket"

require_bridge-has :
    (a : Availability) (bridge : List String) (name : String)
    → is_available (require_bridge a bridge name) ≡ true
    → mem_text name bridge ≡ true
unfolding require_bridge
require_bridge-has a bridge name e = ground (arith, e)

require_either_bridge-has :
    (a : Availability) (bridge : List String) (first second : String)
    → is_available (require_either_bridge a bridge first second) ≡ true
    → (mem_text first bridge || mem_text second bridge) ≡ true
unfolding require_either_bridge
require_either_bridge-has a bridge first second e = ground (arith, e)

bounded-has :
    (surface : ShellSurface) (bridge : List String)
    → is_available (bounded_shell surface bridge) ≡ true
    → ((surface ≡ unified_exec) × (mem_text "unified_exec" bridge ≡ true))
      ⊎ ((surface ≡ shell_command) × (mem_text "shell_command" bridge ≡ true))
unfolding bounded_shell
bounded-has unified_exec bridge e = inl (refl, ground (arith, e))
bounded-has shell_command bridge e = inr (refl, ground (arith, e))
bounded-has ShellSurface.disabled bridge e = absurd (ground (arith, e))

manual-has :
    (c : CompactionConfig) (bridge : List String)
    → is_available (manual_compaction c (implementation_of bridge)) ≡ true
    → (mem_text "remote_compaction_v2" bridge || mem_text "compact_endpoint" bridge) ≡ true
unfolding manual_compaction implementation_of
manual-has c bridge e = ground (arith, e)

usable-below :
    (o : Option ℕ) (window : Option Number) (n : ℕ)
    → usable o window ≡ some n
    → (0 < n) × (is_past n window ≡ false)
usable-below none window n e = absurd (ground (arith, e))
usable-below (some k) window n e = (ground (arith, e), ground (arith, e))

threshold-below :
    (c : CompactionConfig) (m : Option ℕ) (window : Option Number) (n : ℕ)
    → resolve_threshold c m window ≡ some n
    → (0 < n) × (is_past n window ≡ false)
unfolding resolve_threshold
threshold-below CompactionConfig.off m window n e = absurd (ground (arith, e))
threshold-below (CompactionConfig.auto limit) m window n e =
    usable-below (limit_of limit m) window n e

automatic-manual :
    (manual : Availability) (o : Option ℕ)
    → is_available (automatic_compaction manual o) ≡ true
    → is_available manual ≡ true
unfolding automatic_compaction
automatic-manual manual o e = ground (arith, e)

automatic-has :
    (manual : Availability) (o : Option ℕ)
    → is_available (automatic_compaction manual o) ≡ true
    → (n : ℕ) × (o ≡ some n)
unfolding automatic_compaction
automatic-has manual none e = absurd (ground (arith, e))
automatic-has manual (some n) e = (n, refl)

snapshot_of-IsBacked :
    (i : Input) (bridge : List String) (m : ModelCapability) (t : ToolCapability)
    → IsBacked i (snapshot_of i bridge m t)
unfolding snapshot_of
snapshot_of-IsBacked i bridge m t =
    let threshold =
      resolve_threshold i.config.codex.compaction m.auto_compact_token_limit i.context_window in
    let manual = manual_compaction i.config.codex.compaction (implementation_of bridge) in
    record {
      patch = require_bridge-has t.capabilities.apply_patch bridge "apply_patch";
      image = require_bridge-has t.capabilities.view_image bridge "view_image";
      generation = require_bridge-has t.capabilities.image_generation bridge "image_generation";
      search =
          require_either_bridge-has t.capabilities.web_search bridge "standalone_web_search"
            "hosted_web_search";
      bounded = bounded-has t.shell_surface bridge;
      sessions = λ on e. ground (arith, on, e);
      manual = manual-has i.config.codex.compaction bridge;
      automatic_executor =
          λ e. manual-has i.config.codex.compaction bridge (automatic-manual manual threshold e);
      automatic = λ e.
          let (n, at) = automatic-has manual threshold e in
          (
            n,
            (
              at,
              threshold-below i.config.codex.compaction m.auto_compact_token_limit i.context_window
                  n at,
            ),
          );
      transport = λ e. ground (arith, e);
      websockets = λ e. ground (arith, e);
    }

-- In a snapshot that is resolved, every capability that is reported as available has its executor
-- in the bridge (the bounded shell that of the surface of the shell, background sessions where they
-- are asked for, WebSockets where they are reported as supported), and automatic compaction also
-- has a threshold that is positive and below the context window.
pub resolve-IsBacked :
    (r : Runtime) (i : Input) (s : Snapshot) → resolve r i ≡ returned s → IsBacked i s
unfolding resolve
resolve-IsBacked r i s e =
    let (d, (_, e1)) = bind-returned r.read_diagnostics _ s e in
    let (bridge, (_, e2)) = bind-returned (parse_bridge_capabilities d) _ s e1 in
    let (answer, (_, e3)) = bind-returned (r.resolve_model i.model_id) _ s e2 in
    let (m, (_, e4)) = bind-returned (parse_model_resolution answer i.model_id) _ s e3 in
    let (found, (_, e5)) =
      bind-returned (r.resolve_tools (build_tools_resolve_params i bridge m)) _ s e4 in
    let (t, (_, e6)) = bind-returned (parse_tool_resolution found) _ s e5 in
    subst (IsBacked i) (same-returned (snapshot_of i bridge m t) s e6)
      (snapshot_of-IsBacked i bridge m t)
