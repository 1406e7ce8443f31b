-- ===== src/Settings/Saving.antt =====
-- src/ui/terminal/settings-model.ts: `beginSave`, the parser of the configuration, and `markSaved`.
use pi_codex_adaptor.Prelude.{ℕ, String, false, ◌≡◌, List, arith}
use pi_codex_adaptor.Config.Valid.{IsValid}
use pi_codex_adaptor.Config.RoundTrip.{parse_config-encode_config}
use pi_codex_adaptor.Settings.Rows.{saving, saved, Options, Settings}
use pi_codex_adaptor.Settings.Model.{validated, begin_save, mark_saved}
use pi_codex_adaptor.Settings.Keys.{Act, acts}

-- A model that is not disposed, whose draft is valid, begins to save exactly this draft, and keeps
-- it; whatever is called until it is marked as saved, if it has not been disposed by then, its
-- draft and its saved configuration are that draft, and its state is saved.
pub begin_save-IsValid :
    (string_of : ℕ → String) (o : Options) (s : Settings) (calls : List Act)
    → s.disposed ≡ false
    → IsValid s.draft
    → (acts string_of o calls (begin_save s).0).disposed ≡ false
    → let r = begin_save s in
      let t = mark_saved o s.draft (acts string_of o calls r.0) in
      (r.1 ≡ validated s.draft)
      × ((r.0.state ≡ saving)
          × ((r.0.draft ≡ s.draft)
              × ((t.draft ≡ s.draft) × ((t.saved_config ≡ s.draft) × (t.state ≡ saved)))))
unfolding begin_save mark_saved
begin_save-IsValid string_of o s calls live w after =
    let parsed = parse_config-encode_config s.draft w in
    (
      ground (arith, live, parsed),
      (
        ground (arith, live, parsed),
        (
          ground (arith, live, parsed),
          (ground (arith, after), (ground (arith, after), ground (arith, after))),
        ),
      ),
    )
