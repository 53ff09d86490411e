-- ===== src/Examples/Runtimes.antt =====
-- Witnesses of the theorems on principals, patterns, actions, tenants and claims.
use pcs_core.Prelude.{arith, true, elem, any, All, [], ◌∷◌, ◌||◌, ◌≡◌, ◌↔◌, refl, ok, some}
use pcs_core.Json.{
  Value, str, arr, obj, Items, nil, cons, Fields, end, field, texts, to_list, as_dict, as_list,
}
use pcs_core.Json.Dict.{get}
use pcs_core.Runtime.Glob.{
  glob_match, glob_match_chars_fuel, glob_match-fuel, resource_matches_pattern, chars, Matches,
  resource_matches_pattern_iff,
}
use pcs_core.Runtime.Principal.{
  expand_ids, validate_principal, validate_handoff_authority, expand_principal_capabilities,
}
use pcs_core.Runtime.Principal.Expansion.{role_grants, elem-expand_ids}
use pcs_core.Runtime.Principal.Normal.{IsWithin, validate_handoff_authority_iff}
use pcs_core.Runtime.Action.{
  validate_resource_scope, validate_action, trace_claim_classes, assert_claim_class_allowed,
}
use pcs_core.Runtime.Action.Scope.{ScopeOf, validate_resource_scope_iff, validate_action-scope}
use pcs_core.Runtime.Action.Claim.{IsTraceClass, claim_class_allowed_iff}
use pcs_core.Runtime.Tenant.{
  validate_cross_tenant_safety, validate_tenant_isolation, validate_observational_non_interference,
}
use pcs_core.Runtime.Tenant.Safety.{
  TraceIsCrossTenantSafe, validate_cross_tenant_safety_iff, tenant_isolation-cross_tenant_safety,
}
use pcs_core.Runtime.Tenant.Projection.{non_interference_vacuous}
use pcs_core.Examples.{demo, ok_or, no_fields, read_action, reader, observation}

star_example :
    (resource_matches_pattern "/data/a/b" "/data/*b" ≡ true)
    ↔ Matches (chars "/data/*b") (chars "/data/a/b")
star_example = resource_matches_pattern_iff "/data/a/b" "/data/*b"

fuel_example :
    glob_match_chars_fuel 40 (chars "/data/*b") (chars "/data/a/b")
    ≡ glob_match "/data/*b" "/data/a/b"
fuel_example = glob_match-fuel 40 "/data/*b" "/data/a/b" (omega arith)

elem-expand_ids_example :
    elem "cap:network" (expand_ids ("agent" ∷ []) ("cap:network" ∷ []))
    ≡ (any (role_grants "cap:network") ("agent" ∷ []) || elem "cap:network" ("cap:network" ∷ []))
elem-expand_ids_example = elem-expand_ids "cap:network" ("agent" ∷ []) ("cap:network" ∷ [])

abbrev normal_reader : Fields
normal_reader = ok_or no_fields (validate_principal ⦃py = demo⦄ "principal" (obj reader))

abbrev delegated : Items
delegated = cons (obj (field "capability_id" (str "cap:file-read") end)) nil

abbrev handoff : Fields
handoff = field "from_principal" (obj reader) (field "delegated_capabilities" (arr delegated) end)

handoff_from : get "from_principal" handoff ≡ obj reader
unfolding get
handoff_from = refl

delegated_caps : get "delegated_capabilities" handoff ≡ arr delegated
unfolding get
delegated_caps = refl

held : expand_principal_capabilities ⦃py = demo⦄ reader ≡ ok ("cap:file-read" ∷ [])
unfolding expand_principal_capabilities pcs_core.Json.Dict.lookup pcs_core.Catalog.role_capabilities
    pcs_core.Json.Text.str_of
held = refl

handoff_example :
    (validate_handoff_authority ⦃py = demo⦄ handoff ≡ ok tt)
    ↔ All (IsWithin ⦃py = demo⦄ ("cap:file-read" ∷ [])) (to_list delegated)
handoff_example =
    validate_handoff_authority_iff ⦃py = demo⦄ handoff reader delegated ("cap:file-read" ∷ [])
      handoff_from delegated_caps held

scope_iff_example :
    (validate_resource_scope ⦃py = demo⦄ "action" read_action ≡ ok tt)
    ↔ ScopeOf ⦃py = demo⦄ read_action (as_dict (get "capability" read_action))
scope_iff_example = validate_resource_scope_iff ⦃py = demo⦄ "action" read_action

abbrev normal_action : Fields
normal_action = ok_or no_fields (validate_action ⦃py = demo⦄ "action" read_action)

action-normal : validate_action ⦃py = demo⦄ "action" read_action ≡ ok normal_action
unfolding validate_action get pcs_core.Runtime.Action.validate_capability
    pcs_core.Catalog.lookup_capability pcs_core.Json.Text.str_of
    pcs_core.Runtime.Action.validate_effects validate_resource_scope resource_matches_pattern
action-normal = refl

action_scope_example : ScopeOf ⦃py = demo⦄ normal_action (as_dict (get "capability" normal_action))
action_scope_example =
    validate_action-scope ⦃py = demo⦄ "action" read_action normal_action action-normal

claim_example :
    (assert_claim_class_allowed "LeanKernelChecked" true ≡ ok tt) ↔ IsTraceClass "LeanKernelChecked"
claim_example = claim_class_allowed_iff "LeanKernelChecked" true

-- A trace with one allowed event.
abbrev one_event : Items
one_event = cons (obj (observation "e-1" "allow")) nil

abbrev small_trace : Fields
small_trace = field "events" (arr one_event) end

cross_tenant_example :
    (validate_cross_tenant_safety ⦃py = demo⦄ small_trace ≡ [])
    ↔ TraceIsCrossTenantSafe ⦃py = demo⦄ (as_list (get "events" small_trace))
cross_tenant_example = validate_cross_tenant_safety_iff ⦃py = demo⦄ small_trace

isolated : validate_tenant_isolation ⦃py = demo⦄ small_trace ≡ []
unfolding validate_tenant_isolation get pcs_core.Json.Text.str_of
    pcs_core.Runtime.Tenant.same_tenant
isolated = refl

isolation_example : validate_cross_tenant_safety ⦃py = demo⦄ small_trace ≡ []
isolation_example = tenant_isolation-cross_tenant_safety ⦃py = demo⦄ small_trace isolated

small_events : as_list (get "events" small_trace) ≡ some (to_list one_event)
unfolding get
small_events = refl

vacuous_example : validate_observational_non_interference ⦃py = demo⦄ small_trace "lab" "bank" ≡ []
vacuous_example =
    non_interference_vacuous ⦃py = demo⦄ small_trace "lab" "bank" (to_list one_event) small_events
