-- ===== src/Provider/Routes.antt =====
-- src/integration/pi/provider-dispatcher.ts: the routes of the selected providers. Pi's registry is
-- a parameter.
use pi_codex_adaptor.Prelude.{
  String, Bool, Option, none, some, List, [], ◌∷◌, ◌≡◌, mem_text, str_eq, if◌then◌else◌,
}
use pi_codex_adaptor.Routing.Router.{Field, codex_responses, open_ai_responses, Dispatchers}
use pi_codex_adaptor.ToolProfile.Names.{ordered_unique}
use pi_codex_adaptor.Provider.Activation.{Model, Policy, is_active}

-- The `ProviderConfig` that is registered: the API, and which of the two handlers.
pub record Registration : Type 0 where
  pub api : String
  pub stream_simple : Field

-- `registerProvider` and `unregisterProvider` of Pi on its registry, and what the registry holds.
pub record Registry {ℓ} (H : Type ℓ) : Type ℓ where
  pub register_provider : String → Registration → H → H
  pub unregister_provider : String → H → H
  pub registered : String → H → Option Registration

-- A provider that is registered is there with the last registration until it is unregistered.
pub record IsRegistry {ℓ} {H : Type ℓ} (P : Registry H) : Type ℓ where
  pub registered-register :
      (q p : String) (r : Registration) (h : H)
      → P.registered q (P.register_provider p r h)
        ≡ (if str_eq p q then some r else P.registered q h)
  pub registered-unregister :
      (q p : String) (h : H)
      → P.registered q (P.unregister_provider p h) ≡ (if str_eq p q then none else P.registered q h)

-- `[...new Set(["openai-codex", ...providerIds])]`
unfoldable pub selected_codex_provider_ids : List String → List String
unfolding ordered_unique
selected_codex_provider_ids provider_ids = ordered_unique ("openai-codex" ∷ provider_ids)

unfoldable pub registration_of : String → Registration
registration_of provider_id =
    if str_eq provider_id "openai-codex"
    then record { api = "openai-codex-responses"; stream_simple = codex_responses }
    else record { api = "openai-responses"; stream_simple = open_ai_responses }

module _ {ℓ} {H : Type ℓ} (P : Registry H) where
  unfoldable pub register_each : List String → H → H
  unfolding registration_of
  register_each [] h = h
  register_each (id ∷ ids) h = register_each ids (P.register_provider id (registration_of id) h)

  unfoldable pub register_codex_provider_routes : List String → H → H
  unfolding register_each selected_codex_provider_ids
  register_codex_provider_routes provider_ids =
      register_each (selected_codex_provider_ids provider_ids)

  -- The providers of the list that are not selected are unregistered.
  unfoldable pub unregister_stale : List String → List String → H → H
  unregister_stale selected [] h = h
  unregister_stale selected (id ∷ ids) h =
      unregister_stale selected ids (if mem_text id selected then h else P.unregister_provider id h)

  -- The registry, and the providers that are selected now; has_unregister tells whether Pi gives an
  -- `unregisterProvider`.
  unfoldable pub reconcile_codex_provider_routes :
      Bool → List String → List String → H → H × List String
  unfolding selected_codex_provider_ids unregister_stale register_codex_provider_routes
  reconcile_codex_provider_routes has_unregister previous provider_ids h =
      let selected = selected_codex_provider_ids provider_ids in
      (
        register_codex_provider_routes provider_ids
            (if has_unregister then unregister_stale selected previous h else h),
        selected,
      )

-- The two dispatchers of `createCodexProviderDispatchers`: the adaptor's stream for a model that is
-- active, and Pi's own stream of the API for another.
unfoldable pub create_codex_provider_dispatchers {ℓ} :
    {S : Type ℓ} → S → Dispatchers S → Policy → Option Model → Dispatchers S
unfolding is_active
create_codex_provider_dispatchers codex native policy m f =
    if is_active m policy then codex else native f
