-- ===== src/Provider/Examples.antt =====
-- The theorems on the routes of src/integration/pi/provider-dispatcher.ts with a registry that is a
-- map.
use pi_codex_adaptor.Prelude.{true, ◌≡◌, some, [], ◌∷◌, eq_iff, arith}
use pi_codex_adaptor.Prelude.Dict.{Dict, lookup, insert, erase, lookup-insert, lookup-erase}
use pi_codex_adaptor.Routing.Router.{open_ai_responses}
use pi_codex_adaptor.Provider.Routes.{
  Registration, Registry, IsRegistry, reconcile_codex_provider_routes,
}
use pi_codex_adaptor.Provider.Registered.{registered-reconcile}

abbrev map_registry : Registry (Dict Registration)
map_registry = record {
  register_provider = λ p r h. insert p r h;
  unregister_provider = λ p h. erase p h;
  registered = λ p h. lookup p h;
}

map_registry-IsRegistry : IsRegistry map_registry
map_registry-IsRegistry = record {
  registered-register = λ q p r h. lookup-insert q p r h;
  registered-unregister = λ q p h. ground (arith, lookup-erase q p h, eq_iff p q, eq_iff q p);
}

abbrev stale : Dict Registration
stale = ("proxy", record { api = "openai-responses"; stream_simple = open_ai_responses }) ∷ []

registered-reconcile_example :
    lookup "mirror"
      (reconcile_codex_provider_routes map_registry true ("proxy" ∷ []) ("mirror" ∷ []) stale).0
    ≡ some (record { api = "openai-responses"; stream_simple = open_ai_responses })
registered-reconcile_example =
    registered-reconcile map_registry map_registry-IsRegistry "mirror" true ("proxy" ∷ [])
      ("mirror" ∷ []) stale
