-- ===== src/Settings/Moves.antt =====
-- src/ui/terminal/settings-model.ts: what the keys of the list, outside the dialogs, may change.
use pi_codex_adaptor.Prelude.{
  ℕ, zero, suc, ◌≤◌, ◌<◌, String, Bool, true, false, ◌||◌, ◌≡◌, ◌⊎◌, inl, inr, refl, length, Option,
  none, some, arith, if◌then◌else◌,
}
use pi_codex_adaptor.Config.Schema.{never, unrestricted, Security, CodexConfig}
use pi_codex_adaptor.Settings.Rows.{
  dirty, Dialog, help, dirty_close, reset_confirm, approval_never_confirm,
  filesystem_unrestricted_confirm, Effect, nothing, close, categories, settings, nav, list, RowId,
  Row, Options, Settings, rows,
}
use pi_codex_adaptor.Settings.Model.{
  on_nav, is_open, Delta, move_category, or_same, toggled, cycled, set_draft, turned, moved,
  cycle_approval, cycle_access, cycle_row, open_dialog,
}
use pi_codex_adaptor.Settings.Keys.{
  Key, focus_at, move_in_rows, move_focus, focused_row, toggle_row, toggle_focused, activate_action,
  activate_row, activate_focused, escape, turn, switch_region, handle_list_key,
}

-- The second security is at most as permissive as the first.
abbrev pub Lowers : Security → Security → Type 0
Lowers p q =
    (q.approval_policy ≡ never → p.approval_policy ≡ never)
    × (q.filesystem_access_policy ≡ unrestricted → p.filesystem_access_policy ≡ unrestricted)

-- The focus of a dialog is one of its options.
abbrev pub Fits : Dialog → Type 0
Fits (dirty_close n) = n ≤ 2
Fits (reset_confirm n) = n ≤ 1
Fits (approval_never_confirm n) = n ≤ 1
Fits (filesystem_unrestricted_confirm n) = n ≤ 1
Fits _ = Unit

abbrev pub InBounds : Settings → Type 0
InBounds s = (s.category_index < 4) × ((s.scroll ≡ 0) × Fits s.dialog)

-- The draft is changed and marked as dirty, or left with its state.
abbrev pub Marks : Settings → Settings → Type 0
Marks s t = (t.state ≡ dirty) ⊎ ((t.draft ≡ s.draft) × (t.state ≡ s.state))

-- The saved configuration stays, no policy is relaxed, a change marks the draft, and the indices stay
-- in their bounds.
abbrev pub Moves : Settings → Settings → Type 0
Moves s t =
    (t.saved_config ≡ s.saved_config)
    × (Lowers s.draft.security t.draft.security × (Marks s t × (InBounds s → InBounds t)))

stays : (s : Settings) → Moves s s
stays s = (refl, ((λ e. e, λ e. e), (inr (refl, refl), λ b. b)))

toggled-security :
    (id : RowId) (c d : CodexConfig) → toggled id c ≡ some d → d.security ≡ c.security
unfolding toggled
toggled-security id c d e = ground arith

cycled-security : (id : RowId) (c d : CodexConfig) → cycled id c ≡ some d → d.security ≡ c.security
unfolding cycled
cycled-security id c d e = ground arith

set_draft-Moves :
    (c : CodexConfig) (s : Settings) → c.security ≡ s.draft.security → Moves s (set_draft c s)
set_draft-Moves c s e = (refl, (rw e (λ h. h, λ h. h), (inl refl, λ b. b)))

or_same-Moves :
    (o : Option CodexConfig) (s : Settings)
    → ((d : CodexConfig) → o ≡ some d → d.security ≡ s.draft.security)
    → Moves s (or_same o s)
or_same-Moves none s h = stays s
or_same-Moves (some d) s h = set_draft-Moves d s (h d refl)

cycle_approval-Moves : (s : Settings) → Moves s (cycle_approval s)
unfolding cycle_approval
cycle_approval-Moves s = ground arith

cycle_access-Moves : (s : Settings) → Moves s (cycle_access s)
unfolding cycle_access
cycle_access-Moves s = ground arith

cycled-Moves : (id : RowId) (s : Settings) → Moves s (or_same (cycled id s.draft) s)
cycled-Moves id s = or_same-Moves (cycled id s.draft) s (cycled-security id s.draft)

toggled-Moves : (id : RowId) (s : Settings) → Moves s (or_same (toggled id s.draft) s)
toggled-Moves id s = or_same-Moves (toggled id s.draft) s (toggled-security id s.draft)

cycle_row-Moves : (id : RowId) (s : Settings) → Moves s (cycle_row id s)
unfolding cycle_row
cycle_row-Moves id s =
    ground (arith, cycle_approval-Moves s, cycle_access-Moves s, cycled-Moves id s)

-- A change of the category, the focus, the region or the dialog alone.
shown-Moves :
    (s t : Settings)
    → t.saved_config ≡ s.saved_config
    → t.draft ≡ s.draft
    → t.state ≡ s.state
    → (InBounds s → InBounds t)
    → Moves s t
shown-Moves s t c d e b = (c, (rw d (λ h. h, λ h. h), (inr (d, e), b)))

if-Moves : (b : Bool) (s t u : Settings) → Moves s t → Moves s u → Moves s (if b then t else u)
if-Moves true s t u p q = p
if-Moves false s t u p q = q

pair-Moves :
    (b : Bool) (s : Settings) (p q : Settings × Effect)
    → Moves s p.0
    → Moves s q.0
    → Moves s (if b then p else q).0
pair-Moves true s p q f g = f
pair-Moves false s p q f g = g

turned-lt : (d : Delta) (n : ℕ) → turned d n < 4
turned-lt Delta.back n = omega arith
turned-lt Delta.forward n = omega arith

moved-lt : (d : Delta) (n : ℕ) → moved d 4 n < 4
moved-lt Delta.back n = ground arith
moved-lt Delta.forward n = ground arith

abbrev at_category : ℕ → Settings → Settings
at_category n s = record s { category_index = n; focus = 0; scroll = 0 }

move_category-Moves : (d : Delta) (s : Settings) → Moves s (move_category d s)
unfolding move_category
move_category-Moves d s =
    if-Moves (s.disposed || is_open s.dialog) s s (at_category (turned d s.category_index) s)
      (stays s)
      (shown-Moves s (at_category (turned d s.category_index) s) refl refl refl
        (λ b. (turned-lt d s.category_index, (refl, b.1.1))))

turn-Moves :
    (string_of : ℕ → String) (o : Options) (d : Delta) (s : Settings)
    → Moves s (turn string_of o d s)
unfolding turn
turn-Moves string_of o d s = if-Moves _ s s (move_category d s) (stays s) (move_category-Moves d s)

open_dialog-Moves : (d : Dialog) (s : Settings) → Fits d → Moves s (open_dialog d s)
unfolding open_dialog
open_dialog-Moves d s f =
    if-Moves s.disposed s s (record s { dialog = d }) (stays s)
      (shown-Moves s (record s { dialog = d }) refl refl refl (λ b. (b.0, (b.1.0, f))))

module _ (string_of : ℕ → String) (o : Options) where
  switch_region-Moves : (s : Settings) → Moves s (switch_region string_of o s)
  unfolding switch_region
  switch_region-Moves s =
      let t = record s { region = if on_nav s then list else nav } in
      if-Moves _ s t s (shown-Moves s t refl refl refl (λ b. b)) (stays s)

  move_in_rows-Moves : (d : Delta) (n : ℕ) (s : Settings) → Moves s (move_in_rows string_of o d n s)
  unfolding move_in_rows focus_at
  move_in_rows-Moves d zero s = shown-Moves s (record s { focus = 0 }) refl refl refl (λ b. b)
  move_in_rows-Moves d (suc n) s =
      shown-Moves s (focus_at string_of o (moved d (suc n) s.focus) s) refl refl refl
        (λ b. (b.0, (ground (arith, b.1.0), b.1.1)))

  move_focus-Moves : (d : Delta) (s : Settings) → Moves s (move_focus string_of o d s)
  unfolding move_focus
  move_focus-Moves d s =
      let t = record s { category_index = moved d 4 s.category_index } in
      if-Moves _ s s _ (stays s) (
        if-Moves _ s t _ (shown-Moves s t refl refl refl (λ b. (moved-lt d s.category_index, b.1)))
          (if-Moves _ s (move_category d s)
            (move_in_rows string_of o d (length (rows string_of o s)) s) (move_category-Moves d s)
            (move_in_rows-Moves d (length (rows string_of o s)) s)))

  toggle_row-Moves : (r : Option Row) (s : Settings) → Moves s (toggle_row string_of o r s)
  toggle_row-Moves none s = stays s
  toggle_row-Moves (some r) s = if-Moves _ s _ s (toggled-Moves r.id s) (stays s)

  toggle_focused-Moves : (s : Settings) → Moves s (toggle_focused string_of o s)
  unfolding toggle_focused
  toggle_focused-Moves s =
      if-Moves _ s s _ (stays s) (toggle_row-Moves (focused_row string_of o s) s)

  activate_action-Moves : (id : RowId) (s : Settings) → Moves s (activate_action string_of o id s).0
  unfolding activate_action
  activate_action-Moves id s =
      ground (arith, stays s, open_dialog-Moves (reset_confirm 0) s (omega arith))

  activate_row-Moves : (r : Option Row) (s : Settings) → Moves s (activate_row string_of o r s).0
  unfolding activate_row
  activate_row-Moves none s = stays s
  activate_row-Moves (some r) s = pair-Moves _ s _ _ (stays s) (
      pair-Moves _ s _ _ (toggled-Moves r.id s)
        (pair-Moves _ s _ _ (cycle_row-Moves r.id s) (activate_action-Moves r.id s)))

  activate_focused-Moves : (s : Settings) → Moves s (activate_focused string_of o s).0
  unfolding activate_focused
  activate_focused-Moves s =
      let t = record s { narrow_screen = settings; focus = 0; scroll = 0; region = list } in
      let u = record s { region = list; focus = 0 } in
      pair-Moves _ s (t, nothing) _ (shown-Moves s t refl refl refl (λ b. (b.0, (refl, b.1.1))))
        (pair-Moves _ s (u, nothing) _ (shown-Moves s u refl refl refl (λ b. b))
          (activate_row-Moves (focused_row string_of o s) s))

  escape-Moves : (s : Settings) → Moves s (escape string_of o s).0
  unfolding escape
  escape-Moves s =
      let t = record s { narrow_screen = categories } in
      pair-Moves _ s (t, nothing) _ (shown-Moves s t refl refl refl (λ b. b))
        (pair-Moves _ s _ (s, close) (open_dialog-Moves (dirty_close 0) s (omega arith)) (stays s))

  pub handle_list_key-Moves :
      (key : Key) (s : Settings) → Moves s (handle_list_key string_of o key s).0
  unfolding handle_list_key
  handle_list_key-Moves Key.esc s = escape-Moves s
  handle_list_key-Moves Key.up s = move_focus-Moves Delta.back s
  handle_list_key-Moves Key.down s = move_focus-Moves Delta.forward s
  handle_list_key-Moves Key.left s = turn-Moves string_of o Delta.back s
  handle_list_key-Moves Key.right s = turn-Moves string_of o Delta.forward s
  handle_list_key-Moves Key.tab s = switch_region-Moves s
  handle_list_key-Moves Key.shift_tab s = switch_region-Moves s
  handle_list_key-Moves Key.space s = toggle_focused-Moves s
  handle_list_key-Moves Key.enter s = activate_focused-Moves s
  handle_list_key-Moves Key.question s = open_dialog-Moves help s tt
  handle_list_key-Moves Key.letter_r s = open_dialog-Moves (reset_confirm 0) s (omega arith)
  handle_list_key-Moves Key.ctrl_s s = stays s
  handle_list_key-Moves Key.letter_c s = stays s
  handle_list_key-Moves Key.letter_e s = stays s
  handle_list_key-Moves Key.other s = stays s
