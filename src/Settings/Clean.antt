-- ===== src/Settings/Clean.antt =====
-- src/ui/terminal/settings-model.ts: invariants of the model over the calls that the overlay makes.
use pi_codex_adaptor.Prelude.{
  ℕ, zero, suc, ◌+◌, ◌-◌, ◌≤◌, ◌<◌, String, Bool, true, false, ◌≡◌, refl, subst, List, [], ◌∷◌,
  arith, if◌then◌else◌,
}
use pi_codex_adaptor.Config.Schema.{CodexConfig}
use pi_codex_adaptor.Settings.Rows.{
  Category, State, pristine, saved, Dialog, closed, help, dirty_close, reset_confirm,
  approval_never_confirm, filesystem_unrestricted_confirm, Effect, nothing, Options, Settings,
}
use pi_codex_adaptor.Settings.Model.{
  is_open, new_settings, set_width, dispose, set_category, index_of, mark_saved, mark_error,
  set_auto_compact_token_limit, set_activation_providers, discard, apply_defaults_to_draft,
  replace_with_saved, open_dialog, begin_save, min,
}
use pi_codex_adaptor.Settings.Keys.{
  Key, help_key, close_option, reset_option, approval_option, access_option, option_key,
  handle_dialog_key, handle_list_key, handle_key, enabled, with_never, with_unrestricted, Opening,
  opened, Act, presses, resizes, sets_category, begins_save, disposes, discards, applies_defaults,
  marks_saved, replaces, marks_error, sets_limit, sets_providers, opens, act, acts,
}
use pi_codex_adaptor.Settings.Moves.{Fits, InBounds, Moves, handle_list_key-Moves}

abbrev pub is_clean : State → Bool
is_clean pristine = true
is_clean saved = true
is_clean _ = false

-- What is shown as pristine or saved is what has been saved.
abbrev pub IsClean : Settings → Type 0
IsClean s = is_clean s.state ≡ true → s.draft ≡ s.saved_config

abbrev Keeps : Settings → Settings → Type 0
Keeps s t = (IsClean s → IsClean t) × (InBounds s → InBounds t)

Moves-Keeps : (s t : Settings) → Moves s t → Keeps s t
Moves-Keeps s t m = ground (arith, m)

-- A dialog comes or goes, and nothing else.
shown-Keeps : (d : Dialog) (s : Settings) → Fits d → Keeps s (record s { dialog = d })
shown-Keeps d s f = (λ c. c, λ b. (b.0, (b.1.0, f)))

Keeps-same : (s : Settings) → Keeps s s
Keeps-same s = (λ c. c, λ b. b)

if-Keeps : (b : Bool) (s t u : Settings) → Keeps s t → Keeps s u → Keeps s (if b then t else u)
if-Keeps true s t u p q = p
if-Keeps false s t u p q = q

pair-Keeps :
    (b : Bool) (s : Settings) (p q : Settings × Effect)
    → Keeps s p.0
    → Keeps s q.0
    → Keeps s (if b then p else q).0
pair-Keeps true s p q f g = f
pair-Keeps false s p q f g = g

discard-Keeps : (s : Settings) → Keeps s (discard s)
unfolding discard
discard-Keeps s = if-Keeps s.disposed s s _ (Keeps-same s) (λ c e. refl, λ b. (b.0, (b.1.0, tt)))

option_key-Keeps :
    (d : ℕ → Dialog) (last n : ℕ) (choose : ℕ → Settings → Settings × Effect) (key : Key)
    (s : Settings)
    → (InBounds s → n ≤ last)
    → ((m : ℕ) → m ≤ last → Fits (d m))
    → Keeps s (choose n s).0
    → Keeps s (option_key d last choose n key s).0
unfolding option_key
option_key-Keeps d last n choose Key.esc s h f k = shown-Keeps closed s tt
option_key-Keeps d last n choose Key.up s h f k =
    (λ c. c, λ b. (b.0, (b.1.0, f (n - 1) (ground (arith, h b)))))
option_key-Keeps d last n choose Key.down s h f k =
    (λ c. c, λ b. (b.0, (b.1.0, f (min last (n + 1)) (ground (arith, h b)))))
option_key-Keeps d last n choose Key.enter s h f k = k
option_key-Keeps d last n choose Key.space s h f k = k
option_key-Keeps d last n choose key s h f k = ground (arith, Keeps-same s)

close_option-Keeps : (n : ℕ) (s : Settings) → Keeps s (close_option n s).0
unfolding close_option
close_option-Keeps zero s = shown-Keeps closed s tt
close_option-Keeps (suc zero) s = discard-Keeps s
close_option-Keeps (suc (suc zero)) s = shown-Keeps closed s tt
close_option-Keeps (suc (suc (suc n))) s = shown-Keeps closed s tt

reset_option-Keeps : (n : ℕ) (s : Settings) → Keeps s (reset_option n s).0
unfolding reset_option
reset_option-Keeps zero s = shown-Keeps closed s tt
reset_option-Keeps (suc zero) s = shown-Keeps closed s tt
reset_option-Keeps (suc (suc n)) s = shown-Keeps closed s tt

enabled-Keeps : (c : CodexConfig) (s : Settings) → Keeps s (enabled c s).0
enabled-Keeps c s = (λ k e. absurd (ground (arith, e)), λ b. (b.0, (b.1.0, tt)))

approval_option-Keeps : (n : ℕ) (s : Settings) → Keeps s (approval_option n s).0
unfolding approval_option
approval_option-Keeps zero s = shown-Keeps closed s tt
approval_option-Keeps (suc zero) s = enabled-Keeps (with_never s.draft) s
approval_option-Keeps (suc (suc n)) s = shown-Keeps closed s tt

access_option-Keeps : (n : ℕ) (s : Settings) → Keeps s (access_option n s).0
unfolding access_option
access_option-Keeps zero s = shown-Keeps closed s tt
access_option-Keeps (suc zero) s = enabled-Keeps (with_unrestricted s.draft) s
access_option-Keeps (suc (suc n)) s = shown-Keeps closed s tt

Fits-of : (d e : Dialog) → e ≡ d → Fits e → Fits d
Fits-of d e h = subst Fits h

handle_dialog_key-Keeps :
    (d : Dialog) (key : Key) (s : Settings) → s.dialog ≡ d → Keeps s (handle_dialog_key d key s).0
unfolding handle_dialog_key
handle_dialog_key-Keeps closed key s e = Keeps-same s
handle_dialog_key-Keeps help key s e =
    unfold help_key in ground (arith, shown-Keeps closed s tt, Keeps-same s)
handle_dialog_key-Keeps (dirty_close n) key s e =
    option_key-Keeps dirty_close 2 n close_option key s
      (λ b. Fits-of (dirty_close n) s.dialog e b.1.1) (λ m h. h) (close_option-Keeps n s)
handle_dialog_key-Keeps (reset_confirm n) key s e =
    option_key-Keeps reset_confirm 1 n reset_option key s
      (λ b. Fits-of (reset_confirm n) s.dialog e b.1.1) (λ m h. h) (reset_option-Keeps n s)
handle_dialog_key-Keeps (approval_never_confirm n) key s e =
    option_key-Keeps approval_never_confirm 1 n approval_option key s
      (λ b. Fits-of (approval_never_confirm n) s.dialog e b.1.1) (λ m h. h)
      (approval_option-Keeps n s)
handle_dialog_key-Keeps (filesystem_unrestricted_confirm n) key s e =
    option_key-Keeps filesystem_unrestricted_confirm 1 n access_option key s
      (λ b. Fits-of (filesystem_unrestricted_confirm n) s.dialog e b.1.1) (λ m h. h)
      (access_option-Keeps n s)

opened-Fits : (d : Opening) → Fits (opened d)
opened-Fits d = ground arith

category_lt : (c : Category) → index_of c < 4
category_lt c = ground arith

module _ (string_of : ℕ → String) (o : Options) where
  handle_key-Keeps : (key : Key) (s : Settings) → Keeps s (handle_key string_of o key s).0
  unfolding handle_key
  handle_key-Keeps key s =
      pair-Keeps s.disposed s (s, nothing) _ (Keeps-same s)
        (pair-Keeps (is_open s.dialog) s (handle_dialog_key s.dialog key s)
          (handle_list_key string_of o key s) (handle_dialog_key-Keeps s.dialog key s refl)
          (Moves-Keeps s (handle_list_key string_of o key s).0
            (handle_list_key-Moves string_of o key s)))

  act-Keeps : (a : Act) (s : Settings) → Keeps s (act string_of o a s)
  unfolding act
  act-Keeps (presses key) s = handle_key-Keeps key s
  act-Keeps (resizes w) s = unfold set_width in Keeps-same s
  act-Keeps (sets_category c) s = unfold set_category in ground (arith, category_lt c)
  act-Keeps begins_save s = unfold begin_save in ground arith
  act-Keeps disposes s = unfold dispose in shown-Keeps closed s tt
  act-Keeps discards s = discard-Keeps s
  act-Keeps applies_defaults s = unfold apply_defaults_to_draft in ground arith
  act-Keeps (marks_saved config) s = unfold mark_saved in ground arith
  act-Keeps (replaces config) s = unfold replace_with_saved in ground arith
  act-Keeps (marks_error message invalid) s = unfold mark_error in ground arith
  act-Keeps (sets_limit limit) s = unfold set_auto_compact_token_limit in ground arith
  act-Keeps (sets_providers ids) s = unfold set_activation_providers in ground arith
  act-Keeps (opens d) s = unfold open_dialog in ground (arith, opened-Fits d)

  acts-Keeps : (as' : List Act) (s : Settings) → Keeps s (acts string_of o as' s)
  unfolding acts
  acts-Keeps [] s = Keeps-same s
  acts-Keeps (a ∷ as') s =
      let first = act-Keeps a s in
      let rest = acts-Keeps as' (act string_of o a s) in
      (λ c. rest.0 (first.0 c), λ b. rest.1 (first.1 b))

  -- Whatever is called on a new model, a draft that is shown as pristine or saved is the
  -- configuration that has been saved.
  pub acts-IsClean :
      (as' : List Act) (config : CodexConfig)
      → IsClean (acts string_of o as' (new_settings config o))
  unfolding new_settings
  acts-IsClean as' config = (acts-Keeps as' (new_settings config o)).0 (λ e. refl)

  -- Whatever is called on a new model, its category is one of the four, an open dialog has its
  -- focus on one of its options, and the list is never scrolled.
  pub acts-InBounds :
      (as' : List Act) (config : CodexConfig)
      → InBounds (acts string_of o as' (new_settings config o))
  unfolding new_settings
  acts-InBounds as' config = (acts-Keeps as' (new_settings config o)).1 (omega arith, (refl, tt))
