-- ===== src/Capabilities/Saved.antt =====
-- `capabilityContextFromSnapshot` of src/application/resolve-effective-capabilities.ts before the save
-- gate of src/domain/config.ts: what the gate lets through has its executors in the bridge.
use pi_codex_adaptor.Prelude.{
  String, Bool, true, false, not, ◌&&◌, ◌≡◌, refl, ap, subst, Option, some, List, [], ◌∷◌, arith,
  append-eq-nil_left, append-eq-nil_right,
}
use pi_codex_adaptor.Value.{Number, Value}
use pi_codex_adaptor.Config.Schema.{CodexConfig}
use pi_codex_adaptor.Config.Issues.{ConfigurationIssue, IssueCode}
use pi_codex_adaptor.Config.Parse.{Result, ok, err, parse_config}
use pi_codex_adaptor.Config.Evaluate.{is_search_disabled, is_auto}
use pi_codex_adaptor.Config.Save.{
  issue_if, route_issues, collect_capability_issues, gate, validate_config_for_save,
}
use pi_codex_adaptor.Config.Context.{CapabilityContext, is_false}
use pi_codex_adaptor.Capabilities.Metadata.{returned}
use pi_codex_adaptor.Capabilities.Resolve.{
  Runtime, Input, Snapshot, resolve, capability_context_from_snapshot,
}
use pi_codex_adaptor.Capabilities.Backed.{Has, HasEither, resolve-IsBacked}

-- The bridge has what the configuration asks for.
pub record IsRunnable (c : CodexConfig) (s : Snapshot) : Type 0 where
  pub sessions : c.tools.background_sessions ≡ true → Has s "unified_exec"
  pub search :
      is_search_disabled c.codex.web_search ≡ false
      → HasEither s "standalone_web_search" "hosted_web_search"
  pub compaction :
      is_auto c.codex.compaction ≡ true → HasEither s "remote_compaction_v2" "compact_endpoint"
  pub transport : Has s "responses_sse"

issue_if-eq-nil :
    (test : Bool) (path : String) (code : IssueCode) (message : String)
    → issue_if test path code message ≡ []
    → test ≡ false
unfolding issue_if
issue_if-eq-nil false path code message e = refl
issue_if-eq-nil true path code message e = absurd (cc)

gate-ok :
    (c d : CodexConfig) (is : List ConfigurationIssue) → gate c is ≡ ok d → (c ≡ d) × (is ≡ [])
gate-ok c d [] e = (ap (λ r. elim r [ ok x ↦ x | err is ↦ c ]) e, refl)
gate-ok c d (i ∷ is) e = absurd (ground (arith, e))

saved-gated :
    (r : Result CodexConfig) (context : CapabilityContext) (d : CodexConfig)
    → elim r [
      | err issues ↦ err issues
      | ok config ↦ gate config (collect_capability_issues config context)
    ]
      ≡ ok d
    → collect_capability_issues d context ≡ []
saved-gated (err is) context d e = absurd (ground (arith, e))
saved-gated (ok c) context d e =
    let (same, quiet) = gate-ok c d (collect_capability_issues c context) e in
    subst (λ x. collect_capability_issues x context ≡ []) same quiet

saved-quiet :
    (v : Value) (context : CapabilityContext) (d : CodexConfig)
    → validate_config_for_save v context ≡ ok d
    → route_issues d context ≡ []
unfolding validate_config_for_save collect_capability_issues
saved-quiet v context d e =
    append-eq-nil_left (route_issues d context) _ (saved-gated (parse_config v) context d e)

-- A missing route is an issue.
record Routes (c : CodexConfig) (x : CapabilityContext) : Type 0 where
  sessions : (c.tools.background_sessions && is_false x.background_sessions_available) ≡ false
  search : (not (is_search_disabled c.codex.web_search) && is_false x.web_search_available) ≡ false
  compaction : (is_auto c.codex.compaction && is_false x.manual_compaction_available) ≡ false
  transport : is_false x.transport_available ≡ false

route_issues-eq-nil : (c : CodexConfig) (x : CapabilityContext) → route_issues c x ≡ [] → Routes c x
unfolding route_issues
route_issues-eq-nil c x e =
    let e1 =
      append-eq-nil_right
        (issue_if (c.tools.background_sessions && is_false x.background_sessions_available) _ _ _) _
        e in
    let e2 =
      append-eq-nil_right
        (issue_if (not (is_search_disabled c.codex.web_search) && is_false x.web_search_available) _
          _ _)
        _ e1 in
    let e3 =
      append-eq-nil_right
        (issue_if (is_auto c.codex.compaction && is_false x.manual_compaction_available) _ _ _) _
        e2 in
    record {
      sessions = issue_if-eq-nil _ _ _ _ (append-eq-nil_left _ _ e);
      search = issue_if-eq-nil _ _ _ _ (append-eq-nil_left _ _ e1);
      compaction = issue_if-eq-nil _ _ _ _ (append-eq-nil_left _ _ e2);
      transport = issue_if-eq-nil _ _ _ _ e3;
    }

available-from : (a : Bool) → is_false (some a) ≡ false → a ≡ true
available-from a e = ground (arith, e)

-- What the save gate lets through, in the context of a snapshot that is resolved, has its executors
-- in the bridge: for background sessions, for web search unless it is disabled, for automatic
-- compaction, and for the transport.
pub validate_config_for_save-IsRunnable :
    (r : Runtime) (i : Input) (s : Snapshot) (window : Option Number) (v : Value) (c : CodexConfig)
    → resolve r i ≡ returned s
    → validate_config_for_save v (capability_context_from_snapshot s window) ≡ ok c
    → IsRunnable c s
unfolding capability_context_from_snapshot
validate_config_for_save-IsRunnable r i s window v c at e =
    let backed = resolve-IsBacked r i s at in
    let routes = route_issues-eq-nil c _ (saved-quiet v _ c e) in
    record {
      sessions = λ on. ground (arith, on, routes.sessions);
      search = λ on. backed.search (ground (arith, on, routes.search));
      compaction = λ on. backed.manual (ground (arith, on, routes.compaction));
      transport = backed.transport (available-from _ routes.transport);
    }
