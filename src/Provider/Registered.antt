-- ===== src/Provider/Registered.antt =====
-- src/integration/pi/provider-dispatcher.ts: what Pi's registry holds after the routes have been
-- reconciled, and which models reach the adaptor.
use pi_codex_adaptor.Prelude.{
  String, Bool, true, not, ◌&&◌, ◌||◌, ◌≡◌, ◌↔◌, refl, ap, none, some, List, [], ◌∷◌, mem_text,
  str_eq, eq_iff, arith, inl, inr, Bool-cases, test_eq, if◌then◌else◌,
}
use pi_codex_adaptor.Routing.Router.{Field, codex_responses, open_ai_responses, Dispatchers}
use pi_codex_adaptor.ToolProfile.Sets.{mem_text-ordered_unique}
use pi_codex_adaptor.Provider.Activation.{
  Model, Policy, is_active, decision, resolve_provider_activation, is_provider_selected,
  is_codex_pi_api,
}
use pi_codex_adaptor.Provider.Routes.{
  Registry, IsRegistry, selected_codex_provider_ids, registration_of, register_each,
  register_codex_provider_routes, unregister_stale, reconcile_codex_provider_routes,
  create_codex_provider_dispatchers,
}

mem_text-selected :
    (q : String) (ids : List String)
    → mem_text q (selected_codex_provider_ids ids) ≡ (str_eq "openai-codex" q || mem_text q ids)
unfolding selected_codex_provider_ids
mem_text-selected q ids = mem_text-ordered_unique q ("openai-codex" ∷ ids)

module _ {ℓ} {H : Type ℓ} (P : Registry H) (law : IsRegistry P) where
  registered-each :
      (q : String) (ids : List String) (h : H)
      → P.registered q (register_each P ids h)
        ≡ (if mem_text q ids then some (registration_of q) else P.registered q h)
  unfolding register_each
  registered-each q [] h = refl
  registered-each q (id ∷ ids) h = ground (
    arith,
    registered-each q ids (P.register_provider id (registration_of id) h),
    law.registered-register q id (registration_of id) h,
    λ (e : str_eq id q ≡ true). ap registration_of ((eq_iff id q).0 e),
  )

  registered-stale :
      (q : String) (selected ids : List String) (h : H)
      → P.registered q (unregister_stale P selected ids h)
        ≡ (if mem_text q ids && not (mem_text q selected) then none else P.registered q h)
  unfolding unregister_stale
  registered-stale q selected [] h = refl
  registered-stale q selected (id ∷ ids) h = elim (Bool-cases (mem_text id selected)) [
    | inl e ↦
        rw (unregister_stale, e)
          (ground
            (arith, registered-stale q selected ids h, test_eq (λ i. mem_text i selected) q id))
    | inr e ↦
        rw (unregister_stale, e)
          (ground (
            arith,
            registered-stale q selected ids (P.unregister_provider id h),
            law.registered-unregister q id h,
            test_eq (λ i. mem_text i selected) q id,
          ))
  ]

  reconciled :
      (q : String) (has_unregister : Bool) (previous provider_ids : List String) (h : H)
      → P.registered q (reconcile_codex_provider_routes P has_unregister previous provider_ids h).0
        ≡ (if str_eq "openai-codex" q || mem_text q provider_ids
            then some (registration_of q)
            else if has_unregister && mem_text q previous
            then none
            else P.registered q h)
  unfolding reconcile_codex_provider_routes register_codex_provider_routes
  reconciled q has_unregister previous provider_ids h =
      let selected = selected_codex_provider_ids provider_ids in
      ground (
        arith,
        registered-each q selected
            (if has_unregister then unregister_stale P selected previous h else h),
        registered-stale q selected previous h,
        mem_text-selected q provider_ids,
      )

  -- With a lawful registry, after reconciling Pi holds for openai-codex the API
  -- openai-codex-responses with the handler codexResponses, for each other selected provider the
  -- API openai-responses with the handler openAiResponses; those registered before and not selected
  -- are gone where Pi can unregister, and everything else is as it was.
  pub registered-reconcile :
      (q : String) (has_unregister : Bool) (previous provider_ids : List String) (h : H)
      → P.registered q (reconcile_codex_provider_routes P has_unregister previous provider_ids h).0
        ≡ (if str_eq "openai-codex" q
            then some (record { api = "openai-codex-responses"; stream_simple = codex_responses })
            else if mem_text q provider_ids
            then some (record { api = "openai-responses"; stream_simple = open_ai_responses })
            else if has_unregister && mem_text q previous
            then none
            else P.registered q h)
  unfolding registration_of
  registered-reconcile q has_unregister previous provider_ids h = ground (
    arith,
    reconciled q has_unregister previous provider_ids h,
    eq_iff "openai-codex" q,
    eq_iff q "openai-codex",
  )

-- A model is active exactly when its provider is among those of the policy and its API is one of the
-- two.
pub is_active_iff :
    (m : Model) (policy : Policy)
    → (is_active (some m) policy ≡ true) ↔ (
        (mem_text m.provider policy.providers ≡ true)
        × ((str_eq "openai-responses" m.api || str_eq "openai-codex-responses" m.api) ≡ true))
unfolding is_active decision resolve_provider_activation is_provider_selected is_codex_pi_api
is_active_iff m policy = ground arith

-- With a lawful registry, once the routes are reconciled with the providers of the policy, the
-- provider of an active model has its route, and the dispatcher gives the stream of the adaptor.
pub active-routed {ℓ κ} :
    {H : Type ℓ} {S : Type κ} (P : Registry H) (law : IsRegistry P) (codex : S)
    (native : Dispatchers S) (m : Model) (policy : Policy) (has_unregister : Bool)
    (previous : List String) (h : H) (f : Field)
    → is_active (some m) policy ≡ true
    → (P.registered m.provider
          (reconcile_codex_provider_routes P has_unregister previous policy.providers h).0
        ≡ some (registration_of m.provider))
      × (create_codex_provider_dispatchers codex native policy (some m) f ≡ codex)
unfolding create_codex_provider_dispatchers
active-routed P law codex native m policy has_unregister previous h f e = (
  ground (
    arith,
    is_active_iff m policy,
    reconciled P law m.provider has_unregister previous policy.providers h,
  ),
  rw e refl,
)
