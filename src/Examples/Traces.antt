-- ===== src/Examples/Traces.antt =====
-- Witnesses of the theorems on events, chains and compiled traces.
use pcs_core.Prelude.{String, List, [], ◌∷◌, ◌≡◌, ◌↔◌, refl, ok, none, true}
use pcs_core.Json.{Value, str, arr, obj, Items, nil, cons, Fields, end, field, to_list, as_dict}
use pcs_core.Json.Dict.{get}
use pcs_core.Runtime.{genesis_hash}
use pcs_core.Runtime.Principal.{principal_capabilities_explicit}
use pcs_core.Runtime.Tenant.{decision_of}
use pcs_core.Runtime.Event.{compile_runtime_observation_to_event}
use pcs_core.Runtime.Event.Decision.{IsAuthorised, compile_observation-allow}
use pcs_core.Runtime.Compile.{compile_runtime_observations_to_pfcore_trace}
use pcs_core.Runtime.Compile.Valid.{compile_observations-valid}
use pcs_core.Runtime.Chain.{chain_errors, validate_pfcore_trace_hash_chain}
use pcs_core.Runtime.Chain.Meaning.{IsChained, chain_errors_iff}
use pcs_core.Examples.{demo, ok_or, no_fields, observation}

abbrev event_of : String → Fields
event_of decision =
    ok_or no_fields (compile_runtime_observation_to_event ⦃py = demo⦄ (observation "e-1" decision))

compiled_allow :
    compile_runtime_observation_to_event ⦃py = demo⦄ (observation "e-1" "allow")
    ≡ ok (event_of "allow")
unfolding compile_runtime_observation_to_event pcs_core.Runtime.Principal.validate_principal get
    pcs_core.Json.Text.is_blank pcs_core.Runtime.Action.validate_action
    pcs_core.Runtime.Action.validate_capability pcs_core.Catalog.lookup_capability
    pcs_core.Json.Text.str_of pcs_core.Runtime.Action.validate_effects
    pcs_core.Runtime.Action.validate_resource_scope pcs_core.Runtime.Glob.resource_matches_pattern
    pcs_core.Json.Dict.put pcs_core.Runtime.Event.observation_sequence
    pcs_core.Catalog.role_capabilities pcs_core.Runtime.Tenant.same_tenant
    pcs_core.Runtime.normalize_hash
compiled_allow = refl

allows : get "decision" (event_of "allow") ≡ str "allow"
unfolding compile_runtime_observation_to_event pcs_core.Runtime.Principal.validate_principal get
    pcs_core.Json.Text.is_blank pcs_core.Runtime.Action.validate_action
    pcs_core.Runtime.Action.validate_capability pcs_core.Catalog.lookup_capability
    pcs_core.Json.Text.str_of pcs_core.Runtime.Action.validate_effects
    pcs_core.Runtime.Action.validate_resource_scope pcs_core.Runtime.Glob.resource_matches_pattern
    pcs_core.Json.Dict.put pcs_core.Runtime.Event.observation_sequence
    pcs_core.Catalog.role_capabilities pcs_core.Runtime.Tenant.same_tenant
    pcs_core.Runtime.normalize_hash
allows = refl

allow_example :
    (principal action : Fields) × (get "principal" (event_of "allow") ≡ obj principal)
    × (get "action" (event_of "allow") ≡ obj action)
    × (decision_of ⦃py = demo⦄ (observation "e-1" "allow") ≡ "allow")
    × IsAuthorised ⦃py = demo⦄ principal action
    × (principal_capabilities_explicit ⦃py = demo⦄ principal ≡ ok true)
allow_example =
    compile_observation-allow ⦃py = demo⦄ (observation "e-1" "allow") (event_of "allow")
      compiled_allow allows

abbrev observations : List Fields
observations = observation "e-1" "allow" ∷ observation "e-2" "deny" ∷ []

abbrev trace : Fields
trace = ok_or no_fields (compile_runtime_observations_to_pfcore_trace ⦃py = demo⦄ none observations)

compiled : compile_runtime_observations_to_pfcore_trace ⦃py = demo⦄ none observations ≡ ok trace
unfolding compile_runtime_observations_to_pfcore_trace pcs_core.Runtime.Compile.require_trace_id
    pcs_core.Runtime.Compile.compile_chain
    pcs_core.Runtime.Compile.validate_denied_observations_preserved
    pcs_core.Runtime.Action.assert_claim_class_allowed compile_runtime_observation_to_event
    pcs_core.Runtime.Principal.validate_principal get pcs_core.Json.Text.is_blank
    pcs_core.Runtime.Action.validate_action pcs_core.Runtime.Action.validate_capability
    pcs_core.Catalog.lookup_capability pcs_core.Json.Text.str_of
    pcs_core.Runtime.Action.validate_effects pcs_core.Runtime.Action.validate_resource_scope
    pcs_core.Runtime.Glob.resource_matches_pattern pcs_core.Json.Dict.put
    pcs_core.Runtime.Event.observation_sequence pcs_core.Catalog.role_capabilities
    pcs_core.Runtime.Tenant.same_tenant pcs_core.Runtime.normalize_hash
compiled = refl

valid_example : validate_pfcore_trace_hash_chain ⦃py = demo⦄ trace ≡ []
valid_example = compile_observations-valid ⦃py = demo⦄ none observations trace compiled

abbrev events : List Value
events = obj (event_of "allow") ∷ []

chain_example :
    (chain_errors ⦃py = demo⦄ genesis_hash 0 events ≡ [])
    ↔ IsChained ⦃py = demo⦄ genesis_hash events
chain_example = chain_errors_iff ⦃py = demo⦄ genesis_hash 0 events
