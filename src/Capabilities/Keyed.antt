-- ===== src/Capabilities/Keyed.antt =====
-- `capabilityCacheKey` of src/application/resolve-effective-capabilities.ts: the key holds all that a
-- resolution depends on. `JSON.stringify` tells two keys apart, but prints NaN and the infinities as null.
use pi_codex_adaptor.Prelude.{
  ℕ, String, Bool, true, false, not, ◌||◌, ◌≡◌, refl, sym, ap, ◌∙◌, Option, none, some, List, [],
  ◌∷◌, mem_text, keep, if◌then◌else◌, leb,
}
use pi_codex_adaptor.Value.{Number, pos, negsuc, fraction, infinity, nan}
use pi_codex_adaptor.Config.Schema.{
  AutoOrOff, WebSearchMode, TokenLimit, CompactionConfig, create_default_config,
}
use pi_codex_adaptor.Capabilities.Metadata.{
  Answer, returned, thrown, ◌>>=◌, ModelCapability, ToolCapability, parse_model_resolution,
  parse_tool_resolution,
}
use pi_codex_adaptor.Capabilities.Resolve.{
  Runtime, Input, is_past, usable, limit_of, names_or_managed, allowed_names, is_image_tool,
  resolve_threshold, automatic_compaction, snapshot_of, resolve, build_tools_resolve_params,
  parse_bridge_capabilities,
}

-- The array that is printed.
pub record CacheKey : Type 0 where
  pub model_id : String
  pub provider_id : String
  pub images : Bool
  pub context_window : Option Number
  pub host_tool_names : List String
  pub web_search_mode : WebSearchMode
  pub view_image : AutoOrOff
  pub image_generation : AutoOrOff
  pub background_sessions : Bool
  pub compaction_is_auto : Bool
  pub auto_compact_token_limit : Option TokenLimit

-- A number as JSON prints it.
abbrev pub printed : Option Number → Option Number
printed (some nan) = none
printed (some (infinity negative)) = none
printed w = w

abbrev pub mode_is_auto : CompactionConfig → Bool
mode_is_auto (CompactionConfig.auto limit) = true
mode_is_auto CompactionConfig.off = false

abbrev pub limit_or_null : CompactionConfig → Option TokenLimit
limit_or_null (CompactionConfig.auto limit) = some limit
limit_or_null CompactionConfig.off = none

unfoldable pub capability_cache_key : Input → CacheKey
capability_cache_key i = record {
  model_id = i.model_id;
  provider_id = i.provider_id;
  images = mem_text "image" i.model_input_modalities;
  context_window = printed i.context_window;
  host_tool_names = names_or_managed i.host_tool_names;
  web_search_mode = i.config.codex.web_search;
  view_image = i.config.tools.optional.view_image;
  image_generation = i.config.tools.optional.image_generation;
  background_sessions = i.config.tools.background_sessions;
  compaction_is_auto = mode_is_auto i.config.codex.compaction;
  auto_compact_token_limit = limit_or_null i.config.codex.compaction;
}

abbrev compaction_from : Option TokenLimit → CompactionConfig
compaction_from none = CompactionConfig.off
compaction_from (some limit) = CompactionConfig.auto limit

compaction_from-limit_or_null : (c : CompactionConfig) → compaction_from (limit_or_null c) ≡ c
compaction_from-limit_or_null CompactionConfig.off = refl
compaction_from-limit_or_null (CompactionConfig.auto limit) = refl

abbrev modalities_from : Bool → List String
modalities_from true = "image" ∷ []
modalities_from false = []

mem_text-modalities_from : (b : Bool) → mem_text "image" (modalities_from b) ≡ b
mem_text-modalities_from true = refl
mem_text-modalities_from false = refl

-- An input with this key.
abbrev input_from : CacheKey → Input
input_from k = record {
  model_id = k.model_id;
  provider_id = k.provider_id;
  model_input_modalities = modalities_from k.images;
  config = record create_default_config {
    tools = record {
      background_sessions = k.background_sessions;
      optional = record { view_image = k.view_image; image_generation = k.image_generation };
    };
    codex = record create_default_config.codex {
      web_search = k.web_search_mode;
      compaction = compaction_from k.auto_compact_token_limit;
    };
  };
  context_window = k.context_window;
  host_tool_names = some k.host_tool_names;
}

-- The context window is not minus infinity.
abbrev pub is_minus_infinity : Option Number → Bool
is_minus_infinity (some (infinity negative)) = negative
is_minus_infinity _ = false

is_past-printed :
    (n : ℕ) (w : Option Number) → is_minus_infinity w ≡ false → is_past n (printed w) ≡ is_past n w
is_past-printed n none h = refl
is_past-printed n (some (pos k)) h = refl
is_past-printed n (some (negsuc k)) h = refl
is_past-printed n (some (fraction negative k)) h = refl
is_past-printed n (some (infinity negative)) h = sym h
is_past-printed n (some nan) h = refl

usable-printed :
    (o : Option ℕ) (w : Option Number)
    → is_minus_infinity w ≡ false
    → usable o (printed w) ≡ usable o w
usable-printed none w h = refl
usable-printed (some n) w h =
    ap (λ b. if leb n 0 || b then none else some n) (is_past-printed n w h)

resolve_threshold-printed :
    (c : CompactionConfig) (m : Option ℕ) (w : Option Number)
    → is_minus_infinity w ≡ false
    → resolve_threshold c m (printed w) ≡ resolve_threshold c m w
unfolding resolve_threshold
resolve_threshold-printed CompactionConfig.off m w h = refl
resolve_threshold-printed (CompactionConfig.auto limit) m w h =
    usable-printed (limit_of limit m) w h

bind-cong {ℓ κ} :
    {A : Type ℓ} {B : Type κ} (a : Answer A) (f g : A → Answer B)
    → ((x : A) → f x ≡ g x)
    → (a >>= f) ≡ (a >>= g)
bind-cong (returned x) f g h = h x
bind-cong (thrown code reason) f g h = refl

allowed_names-input_from :
    (i : Input) → allowed_names (input_from (capability_cache_key i)) ≡ allowed_names i
unfolding allowed_names capability_cache_key
allowed_names-input_from i =
    ap
      (λ b.
        if b
        then names_or_managed i.host_tool_names
        else keep (λ name. not (is_image_tool name)) (names_or_managed i.host_tool_names))
      (mem_text-modalities_from (mem_text "image" i.model_input_modalities))

params-input_from :
    (i : Input) (bridge : List String) (m : ModelCapability)
    → build_tools_resolve_params (input_from (capability_cache_key i)) bridge m
      ≡ build_tools_resolve_params i bridge m
unfolding build_tools_resolve_params capability_cache_key
params-input_from i bridge m =
    ap
      (λ names. record (build_tools_resolve_params i bridge m) { allowed_local_tool_names = names })
      (allowed_names-input_from i)

snapshot_of-input_from :
    (i : Input) (bridge : List String) (m : ModelCapability) (t : ToolCapability)
    → is_minus_infinity i.context_window ≡ false
    → snapshot_of (input_from (capability_cache_key i)) bridge m t ≡ snapshot_of i bridge m t
unfolding snapshot_of capability_cache_key
snapshot_of-input_from i bridge m t h =
    let whole = λ (c : CompactionConfig) (w : Option Number).
      snapshot_of
        (record i {
          context_window = w;
          config = record i.config { codex = record i.config.codex { compaction = c } };
        })
        bridge m t in
    let c = compaction_from (limit_or_null i.config.codex.compaction) in
    let s = snapshot_of (input_from (capability_cache_key i)) bridge m t in
    ap (λ n. record s { threshold = n; automatic = automatic_compaction s.manual n })
      (resolve_threshold-printed c m.auto_compact_token_limit i.context_window h)
    ∙ ap (λ x. whole x i.context_window) (compaction_from-limit_or_null i.config.codex.compaction)

resolve-input_from :
    (r : Runtime) (i : Input)
    → is_minus_infinity i.context_window ≡ false
    → resolve r (input_from (capability_cache_key i)) ≡ resolve r i
unfolding resolve capability_cache_key
resolve-input_from r i h = bind-cong r.read_diagnostics _ _ (λ d.
    bind-cong (parse_bridge_capabilities d) _ _ (λ bridge.
      bind-cong (r.resolve_model i.model_id) _ _ (λ answer.
        bind-cong (parse_model_resolution answer i.model_id) _ _ (λ m.
          ap
            (λ params. r.resolve_tools params >>= λ found. parse_tool_resolution found >>= λ t.
              returned (snapshot_of (input_from (capability_cache_key i)) bridge m t))
            (params-input_from i bridge m)
          ∙ bind-cong (r.resolve_tools (build_tools_resolve_params i bridge m)) _ _ (λ found.
            bind-cong (parse_tool_resolution found) _ _
              (λ t. ap returned (snapshot_of-input_from i bridge m t h)))))))

-- Two inputs with the same key have the same resolution by the same runtime, unless a context
-- window is minus infinity.
pub resolve-capability_cache_key :
    (r : Runtime) (i j : Input)
    → is_minus_infinity i.context_window ≡ false
    → is_minus_infinity j.context_window ≡ false
    → capability_cache_key i ≡ capability_cache_key j
    → resolve r i ≡ resolve r j
resolve-capability_cache_key r i j h k e =
    sym (resolve-input_from r i h) ∙ ap (λ x. resolve r (input_from x)) e ∙ resolve-input_from r j k
