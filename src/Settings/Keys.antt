-- ===== src/Settings/Keys.antt =====
-- src/ui/terminal/settings-model.ts: the keys of the settings overlay, and the calls of its model.
use pi_codex_adaptor.Prelude.{
  ℕ, zero, suc, ◌+◌, ◌-◌, String, Bool, true, false, not, ◌&&◌, ◌||◌, Option, none, some, List, [],
  ◌∷◌, length, ltb, str_eq, if◌then◌else◌,
}
use pi_codex_adaptor.Config.Schema.{TokenLimit, CodexConfig, never, unrestricted}
use pi_codex_adaptor.Settings.Rows.{
  Category, codex, diagnostics, settings, categories, list, nav, Dialog, closed, help, dirty_close,
  reset_confirm, approval_never_confirm, filesystem_unrestricted_confirm, Effect, nothing, save,
  save_and_close, close, compact, export, edit_providers, edit_auto_compact, reset_defaults,
  security_policy_enabled, RowId, providers, reset, auto_compact_token_limit, compact_now,
  export_row, Row, Options, Settings, security_policy_warning, at_index, category, is_dirty, rows,
}
use pi_codex_adaptor.Settings.Model.{
  layout_for, is_wide, is_narrow, on_categories, on_nav, is_open, set_width, dispose, Delta, back,
  forward, moved, min, move_category, set_category, set_draft, or_same, toggled, cycle_row,
  is_toggle, is_enum, mark_saved, mark_error, set_auto_compact_token_limit,
  set_activation_providers, discard, apply_defaults_to_draft, replace_with_saved, open_dialog,
  begin_save,
}

-- The keys that `handleKey` tells apart.
pub data Key : Type 0 where
  esc up down left right tab shift_tab space enter ctrl_s question letter_r letter_c letter_e : Key
  other : Key

-- The text of a key, as `parseKey` gives it.
unfoldable pub key_of : String → Key
key_of s =
    if str_eq s "esc"
    then esc
    else if str_eq s "up" || str_eq s "k"
    then up
    else if str_eq s "down" || str_eq s "j"
    then down
    else if str_eq s "left" || str_eq s "["
    then left
    else if str_eq s "right" || str_eq s "]"
    then right
    else if str_eq s "tab"
    then tab
    else if str_eq s "shift-tab"
    then shift_tab
    else if str_eq s "space"
    then space
    else if str_eq s "enter"
    then enter
    else if str_eq s "ctrl-s"
    then ctrl_s
    else if str_eq s "?"
    then question
    else if str_eq s "r"
    then letter_r
    else if str_eq s "c"
    then letter_c
    else if str_eq s "e"
    then letter_e
    else other

abbrev pub show : Dialog → Settings → Settings
show d s = record s { dialog = d }

unfoldable pub help_key : Key → Settings → Settings × Effect
help_key esc s = (show closed s, nothing)
help_key enter s = (show closed s, nothing)
help_key question s = (show closed s, nothing)
help_key space s = (show closed s, nothing)
help_key _ s = (s, nothing)

-- The options of the dialogs: the last index of each.
unfoldable pub close_option : ℕ → Settings → Settings × Effect
unfolding discard
close_option zero s = (show closed s, nothing)
close_option (suc zero) s = (discard s, close)
close_option (suc (suc zero)) s = (show closed s, save_and_close)
close_option _ s = (show closed s, nothing)

unfoldable pub reset_option : ℕ → Settings → Settings × Effect
reset_option (suc zero) s = (show closed s, reset_defaults)
reset_option _ s = (show closed s, nothing)

abbrev pub warning_text : CodexConfig → String
warning_text c = elim (security_policy_warning c) [
  | some t ↦ t
  | none ↦ "Codex security policy changed."
]

abbrev pub with_never : CodexConfig → CodexConfig
with_never c = record c { security = record (c.security) { approval_policy = never } }

abbrev pub with_unrestricted : CodexConfig → CodexConfig
with_unrestricted c = record c {
  security = record (c.security) { filesystem_access_policy = unrestricted };
}

-- A policy is enabled, with the warning of the draft that results.
abbrev pub enabled : CodexConfig → Settings → Settings × Effect
enabled c s = (show closed (set_draft c s), security_policy_enabled (warning_text c))

unfoldable pub approval_option : ℕ → Settings → Settings × Effect
unfolding security_policy_warning
approval_option (suc zero) s = enabled (with_never s.draft) s
approval_option _ s = (show closed s, nothing)

unfoldable pub access_option : ℕ → Settings → Settings × Effect
unfolding security_policy_warning
access_option (suc zero) s = enabled (with_unrestricted s.draft) s
access_option _ s = (show closed s, nothing)

-- A dialog with options: the way to show it with a focus, its last option, and what each does.
unfoldable pub option_key :
    (ℕ → Dialog) → ℕ → (ℕ → Settings → Settings × Effect) → ℕ → Key → Settings → Settings × Effect
option_key d last choose n esc s = (show closed s, nothing)
option_key d last choose n up s = (show (d (n - 1)) s, nothing)
option_key d last choose n down s = (show (d (min last (n + 1))) s, nothing)
option_key d last choose n enter s = choose n s
option_key d last choose n space s = choose n s
option_key d last choose n _ s = (s, nothing)

unfoldable pub handle_dialog_key : Dialog → Key → Settings → Settings × Effect
unfolding help_key option_key close_option reset_option approval_option access_option
handle_dialog_key closed key s = (s, nothing)
handle_dialog_key help key s = help_key key s
handle_dialog_key (dirty_close n) key s = option_key dirty_close 2 close_option n key s
handle_dialog_key (reset_confirm n) key s = option_key reset_confirm 1 reset_option n key s
handle_dialog_key (approval_never_confirm n) key s =
    option_key approval_never_confirm 1 approval_option n key s
handle_dialog_key (filesystem_unrestricted_confirm n) key s =
    option_key filesystem_unrestricted_confirm 1 access_option n key s

abbrev pub is_category : Category → Category → Bool
is_category codex codex = true
is_category diagnostics diagnostics = true
is_category _ _ = false

module _ (string_of : ℕ → String) (o : Options) where
  abbrev pub focused_row : Settings → Option Row
  focused_row s = at_index s.focus (rows string_of o s)

  -- `moveFocus` in a list of rows, with `#ensureFocusVisible`.
  unfoldable pub focus_at : ℕ → Settings → Settings
  focus_at n s = record s { focus = n; scroll = if ltb n s.scroll then n else s.scroll }

  unfoldable pub move_in_rows : Delta → ℕ → Settings → Settings
  unfolding focus_at
  move_in_rows d zero s = record s { focus = 0 }
  move_in_rows d (suc n) s = focus_at (moved d (suc n) s.focus) s

  unfoldable pub move_focus : Delta → Settings → Settings
  unfolding move_in_rows move_category layout_for
  move_focus d s =
      if s.disposed || is_open s.dialog
      then s
      else if is_narrow (layout_for s.width) && on_categories s
      then record s { category_index = moved d 4 s.category_index }
      else if is_wide (layout_for s.width) && on_nav s
      then move_category d s
      else move_in_rows d (length (rows string_of o s)) s

  abbrev pub toggle_row : Option Row → Settings → Settings
  toggle_row none s = s
  toggle_row (some r) s =
      if r.enabled && is_toggle r.kind then or_same (toggled r.id s.draft) s else s

  unfoldable pub toggle_focused : Settings → Settings
  unfolding toggled rows
  toggle_focused s = if s.disposed || is_open s.dialog then s else toggle_row (focused_row s) s

  -- The action of an enabled row.
  unfoldable pub activate_action : RowId → Settings → Settings × Effect
  unfolding open_dialog
  activate_action auto_compact_token_limit s = (s, edit_auto_compact)
  activate_action providers s = (s, edit_providers)
  activate_action export_row s = (s, export)
  activate_action compact_now s = (s, compact)
  activate_action reset s = (open_dialog (reset_confirm 0) s, nothing)
  activate_action _ s = (s, nothing)

  -- `toggleFocused` and `cycleFocused` of the focused row, which is known to be enabled.
  unfoldable pub activate_row : Option Row → Settings → Settings × Effect
  unfolding toggled cycle_row activate_action
  activate_row none s = (s, nothing)
  activate_row (some r) s =
      if not r.enabled
      then (s, nothing)
      else if is_toggle r.kind
      then (or_same (toggled r.id s.draft) s, nothing)
      else if is_enum r.kind
      then (cycle_row r.id s, nothing)
      else activate_action r.id s

  unfoldable pub activate_focused : Settings → Settings × Effect
  unfolding activate_row layout_for rows
  activate_focused s =
      if is_narrow (layout_for s.width) && on_categories s
      then (record s { narrow_screen = settings; focus = 0; scroll = 0; region = list }, nothing)
      else if is_wide (layout_for s.width) && on_nav s
      then (record s { region = list; focus = 0 }, nothing)
      else activate_row (focused_row s) s

  -- On the narrow screen of settings the keys of the categories are dead, and esc goes back.
  abbrev pub in_narrow_settings : Settings → Bool
  in_narrow_settings s = is_narrow (layout_for s.width) && not (on_categories s)

  unfoldable pub escape : Settings → Settings × Effect
  unfolding layout_for open_dialog
  escape s =
      if in_narrow_settings s
      then (record s { narrow_screen = categories }, nothing)
      else if is_dirty s.state
      then (open_dialog (dirty_close 0) s, nothing)
      else (s, close)

  unfoldable pub turn : Delta → Settings → Settings
  unfolding move_category layout_for
  turn d s = if in_narrow_settings s then s else move_category d s

  unfoldable pub switch_region : Settings → Settings
  unfolding layout_for
  switch_region s =
      if is_wide (layout_for s.width)
      then record s { region = if on_nav s then list else nav }
      else s

  unfoldable pub handle_list_key : Key → Settings → Settings × Effect
  unfolding escape move_focus turn switch_region toggle_focused activate_focused open_dialog
      category
  handle_list_key esc s = escape s
  handle_list_key up s = (move_focus back s, nothing)
  handle_list_key down s = (move_focus forward s, nothing)
  handle_list_key left s = (turn back s, nothing)
  handle_list_key right s = (turn forward s, nothing)
  handle_list_key tab s = (switch_region s, nothing)
  handle_list_key shift_tab s = (switch_region s, nothing)
  handle_list_key space s = (toggle_focused s, nothing)
  handle_list_key enter s = activate_focused s
  handle_list_key ctrl_s s = (s, save)
  handle_list_key question s = (open_dialog help s, nothing)
  handle_list_key letter_r s = (open_dialog (reset_confirm 0) s, nothing)
  handle_list_key letter_c s = (s, if is_category codex (category s) then compact else nothing)
  handle_list_key letter_e s = (s, if is_category diagnostics (category s) then export else nothing)
  handle_list_key other s = (s, nothing)

  unfoldable pub handle_key : Key → Settings → Settings × Effect
  unfolding handle_list_key handle_dialog_key
  handle_key key s =
      if s.disposed
      then (s, nothing)
      else if is_open s.dialog
      then handle_dialog_key s.dialog key s
      else handle_list_key key s

-- `openDirtyCloseDialog`, `openResetDialog`, `openHelp` and `closeDialog`.
pub data Opening : Type 0 where
  opens_dirty_close opens_reset opens_help closes_dialog : Opening

abbrev pub opened : Opening → Dialog
opened opens_dirty_close = dirty_close 0
opened opens_reset = reset_confirm 0
opened opens_help = help
opened closes_dialog = closed

-- The calls that the overlay makes of its model.
pub data Act : Type 0 where
  presses : Key → Act
  resizes : ℕ → Act
  sets_category : Category → Act
  begins_save disposes discards applies_defaults : Act
  marks_saved replaces : CodexConfig → Act
  marks_error : String → Bool → Act
  sets_limit : TokenLimit → Act
  sets_providers : List String → Act
  opens : Opening → Act

module _ (string_of : ℕ → String) (o : Options) where
  unfoldable pub act : Act → Settings → Settings
  unfolding handle_key set_width set_category begin_save dispose discard apply_defaults_to_draft
      mark_saved replace_with_saved mark_error set_auto_compact_token_limit set_activation_providers
      open_dialog
  act (presses key) s = (handle_key string_of o key s).0
  act (resizes w) s = set_width w s
  act (sets_category c) s = set_category c s
  act begins_save s = (begin_save s).0
  act disposes s = dispose s
  act discards s = discard s
  act applies_defaults s = apply_defaults_to_draft s
  act (marks_saved config) s = mark_saved o config s
  act (replaces config) s = replace_with_saved o config s
  act (marks_error message invalid) s = mark_error message invalid s
  act (sets_limit limit) s = set_auto_compact_token_limit limit s
  act (sets_providers ids) s = set_activation_providers ids s
  act (opens d) s = open_dialog (opened d) s

  unfoldable pub acts : List Act → Settings → Settings
  unfolding act
  acts [] s = s
  acts (a ∷ as') s = acts as' (act a s)
