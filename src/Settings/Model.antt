-- ===== src/Settings/Model.antt =====
-- src/ui/terminal/settings-model.ts: `SettingsModel`, without the drawing of its lines.
use pi_codex_adaptor.Prelude.{
  ℕ, ◌+◌, ◌-◌, String, Bool, true, false, not, ◌||◌, Option, none, some, List, leb, if◌then◌else◌,
}
use Prim.Native.Nat.{◌%◌}
use Prim.Native.String.{◌++◌ as str_append}
use pi_codex_adaptor.Config.Schema.{
  AutoOrOff, ServiceTier, default, priority, flex, Verbosity, low, medium, high, TransportMode, sse,
  WebSearchMode, cached, indexed, live, on_request, never, workspace, unrestricted, TokenLimit,
  model, CompactionConfig, CodexConfig, create_default_config,
}
use pi_codex_adaptor.Config.Encode.{encode_config}
use pi_codex_adaptor.Config.Parse.{ok, err, parse_config}
use pi_codex_adaptor.Config.Issues.{ConfigurationIssue}
use pi_codex_adaptor.Settings.Rows.{
  Category, general, tools, codex, diagnostics, Layout, wide, medium_width, narrow, State, pristine,
  dirty, validating, saving, saved, validation_error, write_error, nav, list, categories, settings,
  Dialog, closed, approval_never_confirm, filesystem_unrestricted_confirm, RowKind, toggle, enum,
  RowId, status, background_sessions, approval_policy, filesystem_access_policy, view_image,
  image_generation, service_tier, verbosity, transport, web_search, compaction, Options, Settings,
  format_activation_status,
}

unfoldable pub new_settings : CodexConfig → Options → Settings
unfolding format_activation_status
new_settings config o = record {
  saved_config = config;
  draft = config;
  status = elim o.activation_status [
    | some t ↦ some t
    | none ↦ elim o.activation_model [
      | none ↦ none
      | some m ↦ some (format_activation_status (some m) config)
    ]
  ];
  category_index = 0;
  focus = 0;
  region = list;
  narrow_screen = categories;
  scroll = 0;
  state = pristine;
  message = none;
  dialog = closed;
  disposed = false;
  width = 80;
}

unfoldable pub layout_for : ℕ → Layout
layout_for width = if leb 100 width then wide else if leb 60 width then medium_width else narrow

abbrev pub is_wide : Layout → Bool
is_wide wide = true
is_wide _ = false

abbrev pub is_narrow : Layout → Bool
is_narrow narrow = true
is_narrow _ = false

abbrev pub on_categories : Settings → Bool
on_categories s = elim s.narrow_screen [ categories ↦ true | settings ↦ false ]

abbrev pub on_nav : Settings → Bool
on_nav s = elim s.region [ nav ↦ true | list ↦ false ]

abbrev pub is_open : Dialog → Bool
is_open closed = false
is_open _ = true

-- A method that does nothing once the overlay is disposed, or while a dialog is open.
abbrev pub unless_disposed : (Settings → Settings) → Settings → Settings
unless_disposed f s = if s.disposed then s else f s

abbrev pub unless_blocked : (Settings → Settings) → Settings → Settings
unless_blocked f s = if s.disposed || is_open s.dialog then s else f s

unfoldable pub set_width : ℕ → Settings → Settings
set_width width s = record s { width = width }

unfoldable pub dispose : Settings → Settings
dispose s = record s { disposed = true; dialog = closed }

pub data Delta : Type 0 where
  back forward : Delta

-- `(index + delta + 4) % 4`
abbrev pub turned : Delta → ℕ → ℕ
turned back n = (n + 3) % 4
turned forward n = (n + 5) % 4

-- `Math.max(0, Math.min(count - 1, n + delta))`
abbrev pub min : ℕ → ℕ → ℕ
min a b = if leb a b then a else b

abbrev pub moved : Delta → ℕ → ℕ → ℕ
moved back count n = min (count - 1) (n - 1)
moved forward count n = min (count - 1) (n + 1)

unfoldable pub move_category : Delta → Settings → Settings
move_category d =
    unless_blocked
      λ s. record s { category_index = turned d s.category_index; focus = 0; scroll = 0 }

abbrev pub index_of : Category → ℕ
index_of general = 0
index_of tools = 1
index_of codex = 2
index_of diagnostics = 3

unfoldable pub set_category : Category → Settings → Settings
set_category c =
    unless_disposed λ s. record s { category_index = index_of c; focus = 0; scroll = 0 }

-- `#markDirty`
abbrev pub mark_dirty : Settings → Settings
mark_dirty s = record s { state = dirty; message = none }

abbrev pub set_draft : CodexConfig → Settings → Settings
set_draft c s = mark_dirty (record s { draft = c })

abbrev pub flip_auto_off : AutoOrOff → AutoOrOff
flip_auto_off AutoOrOff.auto = AutoOrOff.off
flip_auto_off AutoOrOff.off = AutoOrOff.auto

-- `cycle` over the values of each setting.
abbrev pub next_tier : ServiceTier → ServiceTier
next_tier default = priority
next_tier priority = flex
next_tier flex = default

abbrev pub next_verbosity : Verbosity → Verbosity
next_verbosity low = medium
next_verbosity medium = high
next_verbosity high = low

abbrev pub next_transport : TransportMode → TransportMode
next_transport TransportMode.auto = sse
next_transport sse = TransportMode.auto

abbrev pub next_web_search : WebSearchMode → WebSearchMode
next_web_search WebSearchMode.disabled = cached
next_web_search cached = indexed
next_web_search indexed = live
next_web_search live = WebSearchMode.disabled

abbrev pub flip_compaction : CompactionConfig → CompactionConfig
flip_compaction CompactionConfig.off = CompactionConfig.auto model
flip_compaction (CompactionConfig.auto limit) = CompactionConfig.off

-- The change of a toggle, none for another row.
unfoldable pub toggled : RowId → CodexConfig → Option CodexConfig
toggled background_sessions c = some (record c {
  tools = record (c.tools) { background_sessions = not c.tools.background_sessions };
})
toggled status c = some (record c { ui = record (c.ui) { status = not c.ui.status } })
toggled _ c = none

abbrev pub or_same : Option CodexConfig → Settings → Settings
or_same none s = s
or_same (some c) s = set_draft c s

abbrev pub is_toggle : RowKind → Bool
is_toggle toggle = true
is_toggle _ = false

abbrev pub is_enum : RowKind → Bool
is_enum enum = true
is_enum _ = false

-- The next value of an enumeration that needs no confirmation, none for another row.
unfoldable pub cycled : RowId → CodexConfig → Option CodexConfig
cycled view_image c = some (record c {
  tools = record (c.tools) {
    optional = record (c.tools.optional) { view_image = flip_auto_off c.tools.optional.view_image };
  };
})
cycled image_generation c = some (record c {
  tools = record (c.tools) {
    optional = record (c.tools.optional) {
      image_generation = flip_auto_off c.tools.optional.image_generation;
    };
  };
})
cycled service_tier c =
    some (record c { codex = record (c.codex) { service_tier = next_tier c.codex.service_tier } })
cycled verbosity c =
    some (record c { codex = record (c.codex) { verbosity = next_verbosity c.codex.verbosity } })
cycled transport c =
    some (record c { codex = record (c.codex) { transport = next_transport c.codex.transport } })
cycled web_search c =
    some (record c { codex = record (c.codex) { web_search = next_web_search c.codex.web_search } })
cycled compaction c =
    some (record c { codex = record (c.codex) { compaction = flip_compaction c.codex.compaction } })
cycled _ c = none

-- The two policies: their dangerous value needs a confirmation.
unfoldable pub cycle_approval : Settings → Settings
cycle_approval s = elim s.draft.security.approval_policy [
  | on_request ↦ record s { dialog = approval_never_confirm 0 }
  | never ↦
      set_draft
        (record (s.draft) { security = record (s.draft.security) { approval_policy = on_request } })
        s
]

unfoldable pub cycle_access : Settings → Settings
cycle_access s = elim s.draft.security.filesystem_access_policy [
  | workspace ↦ record s { dialog = filesystem_unrestricted_confirm 0 }
  | unrestricted ↦
      set_draft
        (record (s.draft) {
          security = record (s.draft.security) { filesystem_access_policy = workspace };
        })
        s
]

unfoldable pub cycle_row : RowId → Settings → Settings
unfolding cycle_approval cycle_access cycled
cycle_row approval_policy s = cycle_approval s
cycle_row filesystem_access_policy s = cycle_access s
cycle_row id s = or_same (cycled id s.draft) s

-- `#refreshActivationStatus`
unfoldable pub refreshed : Options → CodexConfig → Settings → Option String
unfolding format_activation_status
refreshed o config s = elim o.activation_model [
  | none ↦ s.status
  | some m ↦ some (format_activation_status (some m) config)
]

unfoldable pub mark_saved : Options → CodexConfig → Settings → Settings
unfolding refreshed
mark_saved o config = unless_disposed λ s. record s {
  saved_config = config;
  draft = config;
  status = refreshed o config s;
  state = saved;
  message = some "[ok] Saved";
}

-- The two states of `markError`.
abbrev pub error_state : Bool → State
error_state invalid = if invalid then validation_error else write_error

unfoldable pub mark_error : String → Bool → Settings → Settings
mark_error message invalid =
    unless_disposed
      λ s. record s { state = error_state invalid; message = some (str_append "[error] " message) }

unfoldable pub set_auto_compact_token_limit : TokenLimit → Settings → Settings
set_auto_compact_token_limit limit = unless_disposed λ s. elim s.draft.codex.compaction [
  | CompactionConfig.off ↦ s
  | CompactionConfig.auto old ↦
      set_draft
        (record (s.draft) {
          codex = record (s.draft.codex) { compaction = CompactionConfig.auto limit };
        })
        s
]

unfoldable pub set_activation_providers : List String → Settings → Settings
set_activation_providers ids = unless_disposed λ s.
    set_draft (record (s.draft) { activation = record (s.draft.activation) { providers = ids } }) s

unfoldable pub discard : Settings → Settings
discard =
    unless_disposed
      λ s. record s { draft = s.saved_config; state = pristine; message = none; dialog = closed }

unfoldable pub apply_defaults_to_draft : Settings → Settings
apply_defaults_to_draft = unless_disposed λ s. record s {
  draft = create_default_config;
  state = dirty;
  message = some "[info] Draft reset to defaults. Save to apply.";
  dialog = closed;
  focus = 0;
  scroll = 0;
}

unfoldable pub replace_with_saved : Options → CodexConfig → Settings → Settings
unfolding refreshed
replace_with_saved o config = unless_disposed λ s. record s {
  saved_config = config;
  draft = config;
  status = refreshed o config s;
  state = saved;
  message = some "[ok] Defaults restored";
  dialog = closed;
  focus = 0;
  scroll = 0;
}

unfoldable pub open_dialog : Dialog → Settings → Settings
open_dialog d = unless_disposed λ s. record s { dialog = d }

-- What `beginSave` throws: the overlay is disposed, or the issues of the draft.
pub data Begun : Type 0 where
  validated : CodexConfig → Begun
  overlay_disposed : Begun
  invalid : List ConfigurationIssue → Begun

abbrev pub begun : Settings → Settings × Begun
begun s = elim (parse_config (encode_config s.draft)) [
  | ok config ↦ (record s { state = saving; message = none }, validated config)
  | err issues ↦ (record s { state = validating; message = none }, invalid issues)
]

unfoldable pub begin_save : Settings → Settings × Begun
begin_save s = if s.disposed then (s, overlay_disposed) else begun s
