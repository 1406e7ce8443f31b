-- ===== src/Settings/Guarded.antt =====
-- src/ui/terminal/settings-model.ts: a key enables a dangerous policy only in the dialog that asks for
-- it.
use pi_codex_adaptor.Prelude.{
  ℕ, zero, suc, String, Bool, true, false, ◌≡◌, ◌⊎◌, inl, inr, refl, arith, Bool-cases,
  if◌then◌else◌,
}
use pi_codex_adaptor.Config.Schema.{never, unrestricted}
use pi_codex_adaptor.Settings.Rows.{
  Dialog, closed, help, dirty_close, reset_confirm, approval_never_confirm,
  filesystem_unrestricted_confirm, Effect, nothing, security_policy_enabled, Options, Settings,
}
use pi_codex_adaptor.Settings.Model.{is_open, discard}
use pi_codex_adaptor.Settings.Keys.{
  Key, help_key, close_option, reset_option, warning_text, approval_option, access_option,
  option_key, handle_dialog_key, handle_list_key, handle_key,
}
use pi_codex_adaptor.Settings.Moves.{Lowers, handle_list_key-Moves}

-- The choice to enable is confirmed in its dialog, and answered by the warning of the new draft.
abbrev pub Confirmed : (ℕ → Dialog) → Settings → Settings × Effect → Type 0
Confirmed d s r = (s.dialog ≡ d 1) × (r.1 ≡ security_policy_enabled (warning_text r.0.draft))

-- A dangerous policy was there before, comes back with the saved configuration, or is confirmed.
abbrev pub Permits : Settings → Settings × Effect → Type 0
Permits s r =
    (r.0.draft.security.approval_policy ≡ never
      → (s.draft.security.approval_policy ≡ never)
        ⊎ ((r.0.draft ≡ s.saved_config) ⊎ Confirmed approval_never_confirm s r))
    × (r.0.draft.security.filesystem_access_policy ≡ unrestricted
        → (s.draft.security.filesystem_access_policy ≡ unrestricted)
          ⊎ ((r.0.draft ≡ s.saved_config) ⊎ Confirmed filesystem_unrestricted_confirm s r))

same-Permits : (s : Settings) (r : Settings × Effect) → r.0.draft ≡ s.draft → Permits s r
same-Permits s r e = (λ h. inl (rw e at h), λ h. inl (rw e at h))

Lowers-Permits :
    (s : Settings) (r : Settings × Effect)
    → Lowers s.draft.security r.0.draft.security
    → Permits s r
Lowers-Permits s r l = (λ h. inl (l.0 h), λ h. inl (l.1 h))

option_key-Permits :
    (d : ℕ → Dialog) (last n : ℕ) (choose : ℕ → Settings → Settings × Effect) (key : Key)
    (s : Settings)
    → Permits s (choose n s)
    → Permits s (option_key d last choose n key s)
unfolding option_key
option_key-Permits d last n choose Key.esc s h = (λ h. inl h, λ h. inl h)
option_key-Permits d last n choose Key.up s h = (λ h. inl h, λ h. inl h)
option_key-Permits d last n choose Key.down s h = (λ h. inl h, λ h. inl h)
option_key-Permits d last n choose Key.enter s h = h
option_key-Permits d last n choose Key.space s h = h
option_key-Permits d last n choose key s h = ground arith

close_option-Permits : (n : ℕ) (s : Settings) → Permits s (close_option n s)
unfolding close_option discard
close_option-Permits zero s = (λ h. inl h, λ h. inl h)
close_option-Permits (suc zero) s = elim (Bool-cases s.disposed) [
  | inl e ↦ ground (arith, e)
  | inr e ↦ ground (arith, e)
]
close_option-Permits (suc (suc zero)) s = (λ h. inl h, λ h. inl h)
close_option-Permits (suc (suc (suc n))) s = (λ h. inl h, λ h. inl h)

reset_option-Permits : (n : ℕ) (s : Settings) → Permits s (reset_option n s)
unfolding reset_option
reset_option-Permits zero s = (λ h. inl h, λ h. inl h)
reset_option-Permits (suc zero) s = (λ h. inl h, λ h. inl h)
reset_option-Permits (suc (suc n)) s = (λ h. inl h, λ h. inl h)

approval_option-Permits :
    (n : ℕ) (s : Settings) → s.dialog ≡ approval_never_confirm n → Permits s (approval_option n s)
unfolding approval_option
approval_option-Permits zero s e = (λ h. inl h, λ h. inl h)
approval_option-Permits (suc zero) s e = (λ h. inr (inr (e, refl)), λ h. inl h)
approval_option-Permits (suc (suc n)) s e = (λ h. inl h, λ h. inl h)

access_option-Permits :
    (n : ℕ) (s : Settings)
    → s.dialog ≡ filesystem_unrestricted_confirm n
    → Permits s (access_option n s)
unfolding access_option
access_option-Permits zero s e = (λ h. inl h, λ h. inl h)
access_option-Permits (suc zero) s e = (λ h. inl h, λ h. inr (inr (e, refl)))
access_option-Permits (suc (suc n)) s e = (λ h. inl h, λ h. inl h)

handle_dialog_key-Permits :
    (d : Dialog) (key : Key) (s : Settings) → s.dialog ≡ d → Permits s (handle_dialog_key d key s)
unfolding handle_dialog_key
handle_dialog_key-Permits closed key s e = (λ h. inl h, λ h. inl h)
handle_dialog_key-Permits help key s e =
    same-Permits s (help_key key s) (unfold help_key in ground arith)
handle_dialog_key-Permits (dirty_close n) key s e =
    option_key-Permits dirty_close 2 n close_option key s (close_option-Permits n s)
handle_dialog_key-Permits (reset_confirm n) key s e =
    option_key-Permits reset_confirm 1 n reset_option key s (reset_option-Permits n s)
handle_dialog_key-Permits (approval_never_confirm n) key s e =
    option_key-Permits approval_never_confirm 1 n approval_option key s
      (approval_option-Permits n s e)
handle_dialog_key-Permits (filesystem_unrestricted_confirm n) key s e =
    option_key-Permits filesystem_unrestricted_confirm 1 n access_option key s
      (access_option-Permits n s e)

if-Permits :
    (b : Bool) (s : Settings) (p q : Settings × Effect)
    → Permits s p
    → Permits s q
    → Permits s (if b then p else q)
if-Permits true s p q f g = f
if-Permits false s p q f g = g

module _ (string_of : ℕ → String) (o : Options) where
  -- After a key, a draft whose approval policy is never had it before, is the saved configuration,
  -- or comes of the choice in the dialog for it, which answers with the warning of the new draft;
  -- the same holds of unrestricted filesystem access.
  pub handle_key-Permits : (key : Key) (s : Settings) → Permits s (handle_key string_of o key s)
  unfolding handle_key
  handle_key-Permits key s =
      if-Permits s.disposed s (s, nothing) _ ((λ h. inl h, λ h. inl h))
        (if-Permits (is_open s.dialog) s _ _ (handle_dialog_key-Permits s.dialog key s refl) (
          Lowers-Permits s (handle_list_key string_of o key s)
            (handle_list_key-Moves string_of o key s).1.0))
