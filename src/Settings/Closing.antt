-- ===== src/Settings/Closing.antt =====
-- src/ui/terminal/settings-model.ts: a key closes a dirty overlay only in the dialog that offers to
-- discard.
use pi_codex_adaptor.Prelude.{
  ℕ, zero, suc, String, Bool, true, false, ◌≢◌, none, some, ◌≡◌, refl, sym, subst, Option, arith,
  if◌then◌else◌,
}
use pi_codex_adaptor.Settings.Rows.{
  dirty, Dialog, closed, help, dirty_close, reset_confirm, approval_never_confirm,
  filesystem_unrestricted_confirm, Effect, nothing, close, RowId, Row, Options, Settings, is_dirty,
}
use pi_codex_adaptor.Settings.Model.{is_open, discard}
use pi_codex_adaptor.Settings.Keys.{
  Key, help_key, close_option, reset_option, approval_option, access_option, option_key,
  handle_dialog_key, activate_action, activate_row, focused_row, activate_focused, escape,
  handle_list_key, handle_key,
}

option_key-chooses :
    (d : ℕ → Dialog) (last n : ℕ) (choose : ℕ → Settings → Settings × Effect) (key : Key)
    (s : Settings)
    → (option_key d last choose n key s).1 ≡ close
    → option_key d last choose n key s ≡ choose n s
unfolding option_key
option_key-chooses d last n choose key s e = ground arith

-- The choice that closes is to discard.
abbrev Discards : Dialog → Settings → Settings × Effect → Type 0
Discards d s r = r.1 ≡ close → (d ≡ dirty_close 1) × (r.0.draft ≡ s.saved_config)

close_option-Discards :
    (n : ℕ) (s : Settings) → s.disposed ≡ false → Discards (dirty_close n) s (close_option n s)
unfolding close_option discard
close_option-Discards zero s live e = absurd (ground arith)
close_option-Discards (suc zero) s live e = (refl, ground (arith, live))
close_option-Discards (suc (suc zero)) s live e = absurd (ground arith)
close_option-Discards (suc (suc (suc n))) s live e = absurd (ground arith)

reset_option-stays : (n : ℕ) (s : Settings) → (reset_option n s).1 ≢ close
unfolding reset_option
reset_option-stays zero s = ground arith
reset_option-stays (suc zero) s = ground arith
reset_option-stays (suc (suc n)) s = ground arith

approval_option-stays : (n : ℕ) (s : Settings) → (approval_option n s).1 ≢ close
unfolding approval_option
approval_option-stays zero s = ground arith
approval_option-stays (suc zero) s = ground arith
approval_option-stays (suc (suc n)) s = ground arith

access_option-stays : (n : ℕ) (s : Settings) → (access_option n s).1 ≢ close
unfolding access_option
access_option-stays zero s = ground arith
access_option-stays (suc zero) s = ground arith
access_option-stays (suc (suc n)) s = ground arith

if-Discards :
    (b : Bool) (d : Dialog) (s : Settings) (p q : Settings × Effect)
    → (b ≡ true → Discards d s p)
    → (b ≡ false → Discards d s q)
    → Discards d s (if b then p else q)
if-Discards true d s p q f g = f refl
if-Discards false d s p q f g = g refl

chosen-Discards :
    (d : ℕ → Dialog) (last n : ℕ) (choose : ℕ → Settings → Settings × Effect) (key : Key)
    (s : Settings)
    → Discards (d n) s (choose n s)
    → Discards (d n) s (option_key d last choose n key s)
chosen-Discards d last n choose key s h e =
    let same = option_key-chooses d last n choose key s e in
    subst (λ r. (d n ≡ dirty_close 1) × (r.0.draft ≡ s.saved_config)) (sym same)
      (h (subst (λ r. r.1 ≡ close) same e))

dialog_key-closes :
    (d : Dialog) (key : Key) (s : Settings)
    → s.disposed ≡ false
    → Discards d s (handle_dialog_key d key s)
unfolding handle_dialog_key
dialog_key-closes closed key s live e = absurd (ground arith)
dialog_key-closes help key s live e = unfold help_key in absurd (ground arith)
dialog_key-closes (dirty_close n) key s live e =
    chosen-Discards dirty_close 2 n close_option key s (close_option-Discards n s live) e
dialog_key-closes (reset_confirm n) key s live e =
    chosen-Discards reset_confirm 1 n reset_option key s (λ c. absurd (reset_option-stays n s c)) e
dialog_key-closes (approval_never_confirm n) key s live e =
    chosen-Discards approval_never_confirm 1 n approval_option key s
      (λ c. absurd (approval_option-stays n s c)) e
dialog_key-closes (filesystem_unrestricted_confirm n) key s live e =
    chosen-Discards filesystem_unrestricted_confirm 1 n access_option key s
      (λ c. absurd (access_option-stays n s c)) e

module _ (string_of : ℕ → String) (o : Options) where
  action-stays_open : (key : RowId) (s : Settings) → (activate_action string_of o key s).1 ≢ close
  unfolding activate_action
  action-stays_open key s = ground arith

  row-stays_open : (r : Option Row) (s : Settings) → (activate_row string_of o r s).1 ≢ close
  unfolding activate_row
  row-stays_open none s = λ e. absurd (ground arith)
  row-stays_open (some r) s = ground (arith, action-stays_open r.id s)

  list_key-closes :
      (key : Key) (s : Settings)
      → (handle_list_key string_of o key s).1 ≡ close
      → is_dirty s.state ≡ false
  unfolding handle_list_key escape activate_focused
  list_key-closes key s e = ground (arith, row-stays_open (focused_row string_of o s) s)

  -- No key closes an overlay whose draft is dirty but the choice to discard, in the dialog that
  -- asks for it; the draft is then the saved configuration again.
  pub handle_key-closes :
      (key : Key) (s : Settings)
      → (handle_key string_of o key s).1 ≡ close
      → s.state ≡ dirty
      → (s.dialog ≡ dirty_close 1) × ((handle_key string_of o key s).0.draft ≡ s.saved_config)
  unfolding handle_key
  handle_key-closes key s e d =
      if-Discards s.disposed s.dialog s (s, nothing) _ (λ gone c. absurd (ground arith))
        (λ live.
          if-Discards (is_open s.dialog) s.dialog s (handle_dialog_key s.dialog key s)
            (handle_list_key string_of o key s) (λ shown. dialog_key-closes s.dialog key s live)
            (λ shut c. absurd (ground (arith, list_key-closes key s c))))
        e
