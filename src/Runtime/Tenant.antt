-- ===== src/Runtime/Tenant.antt =====
-- Tenants in pf_core_runtime.py: the checks of a trace that return a list of violations. A violation
-- carries the index of its event, and what its message prints besides.
pub mod Ownership
pub mod Safety
pub mod Projection
use pcs_core.Prelude.{
  ℕ, suc, String, List, [], ◌∷◌, ◌++◌, Option, none, some, Bool, true, false, not, ◌&&◌, ◌||◌, ◌==◌,
  if◌then◌else◌, elem, any, all, map, when,
}
use pcs_core.Json.{Value, str, arr, obj, Fields, as_dict, as_list}
use pcs_core.Json.Dict.{get}
use pcs_core.Json.Text.{text_or}
use pcs_core.Host.{Host}

pub data Violation : Type 0 where
  events_not_a_list : Violation
  missing_party : ℕ → Violation
  empty_tenant : ℕ → Violation
  cross_tenant : ℕ → Violation
  cross_tenant_allow : ℕ → Violation
  not_low : ℕ → Violation
  high_is_low_visible : ℕ → Violation
  missing_action : ℕ → Violation
  deny_writes : ℕ → Violation
  deny_effect : ℕ → String → Violation

-- `for index, event in enumerate(events)`: the violations of each event, in order.
abbrev pub for_events {ℓ} : {A : Type ℓ} → (ℕ → Value → List A) → ℕ → List Value → List A
for_events f i [] = []
for_events f i (v ∷ vs) = f i v ++ for_events f (suc i) vs

abbrev pub over_trace : (ℕ → Value → List Violation) → Option (List Value) → List Violation
over_trace f none = events_not_a_list ∷ []
over_trace f (some events) = for_events f 0 events

module _ ⦃py : Host⦄ where
  -- A resource is no dictionary, or it names the tenant.
  abbrev pub is_in_tenant : String → Value → Bool
  is_in_tenant tenant (obj resource) = text_or "" (get "tenant" resource) == tenant
  is_in_tenant tenant _ = true

  abbrev pub all_in_tenant : String → Option (List Value) → Bool
  all_in_tenant tenant none = true
  all_in_tenant tenant (some resources) = all (is_in_tenant tenant) resources

  abbrev pub tenant_of : Fields → String
  tenant_of d = text_or "" (get "tenant" d)

  -- _same_tenant, and _tenant_matches of pf_core_contract.py
  unfoldable pub same_tenant : Fields → Fields → Bool
  same_tenant principal action =
      all_in_tenant (tenant_of principal) (as_list (get "reads" action))
      && all_in_tenant (tenant_of principal) (as_list (get "writes" action))

  unfoldable pub event_cross_tenant_safe : Fields → Fields → String → Bool
  event_cross_tenant_safe principal action decision =
      if decision == "deny" then true else same_tenant principal action

  abbrev pub decision_of : Fields → String
  decision_of event = text_or "" (get "decision" event)

  abbrev pub cross_tenant_of : ℕ → String → Option Fields → Option Fields → List Violation
  cross_tenant_of i decision (some p) (some a) =
      when (not (event_cross_tenant_safe p a decision)) (cross_tenant_allow i)
  cross_tenant_of i decision _ _ = missing_party i ∷ []

  unfoldable pub cross_tenant_violations : ℕ → Value → List Violation
  cross_tenant_violations i (obj event) =
      cross_tenant_of i (decision_of event) (as_dict (get "principal" event))
        (as_dict (get "action" event))
  cross_tenant_violations i _ = []

  unfoldable pub validate_cross_tenant_safety : Fields → List Violation
  unfolding cross_tenant_violations
  validate_cross_tenant_safety trace =
      over_trace cross_tenant_violations (as_list (get "events" trace))

  abbrev pub isolation_of : ℕ → Option Fields → Option Fields → List Violation
  isolation_of i (some p) (some a) =
      if tenant_of p == ""
      then empty_tenant i ∷ []
      else when (not (same_tenant p a)) (cross_tenant i)
  isolation_of i _ _ = missing_party i ∷ []

  unfoldable pub isolation_violations : ℕ → Value → List Violation
  isolation_violations i (obj event) =
      isolation_of i (as_dict (get "principal" event)) (as_dict (get "action" event))
  isolation_violations i _ = []

  unfoldable pub validate_tenant_isolation : Fields → List Violation
  unfolding isolation_violations
  validate_tenant_isolation trace = over_trace isolation_violations (as_list (get "events" trace))

  abbrev pub low_of : String → Option Fields → Bool
  low_of tenant none = false
  low_of tenant (some principal) = tenant_of principal == tenant

  -- _low_event_for_tenant
  unfoldable pub low_event_for_tenant : String → Fields → Bool
  low_event_for_tenant tenant event =
      if decision_of event == "allow"
      then low_of tenant (as_dict (get "principal" event))
      else false

  unfoldable pub project : String → List Value → List Fields
  project tenant [] = []
  project tenant (obj event ∷ rest) =
      if low_event_for_tenant tenant event then event ∷ project tenant rest else project tenant rest
  project tenant (_ ∷ rest) = project tenant rest

  abbrev project_events : String → Option (List Value) → List Fields
  project_events tenant none = []
  project_events tenant (some events) = project tenant events

  unfoldable pub trace_projection_for_tenant : Fields → String → List Fields
  unfolding project
  trace_projection_for_tenant trace tenant = project_events tenant (as_list (get "events" trace))

  abbrev pub projection_violations : String → ℕ → List Fields → List Violation
  projection_violations tenant i [] = []
  projection_violations tenant i (e ∷ es) =
      when (not (low_event_for_tenant tenant e)) (not_low i)
      ++ projection_violations tenant (suc i) es

  abbrev pub high_of : String → String → ℕ → Fields → Option Fields → List Violation
  high_of low high i event none = []
  high_of low high i event (some principal) =
      when (tenant_of principal == high && low_event_for_tenant low event) (high_is_low_visible i)

  unfoldable pub high_violations : String → String → ℕ → Value → List Violation
  high_violations low high i (obj event) =
      high_of low high i event (as_dict (get "principal" event))
  high_violations low high i _ = []

  abbrev pub non_interference_of : Fields → String → String → Option (List Value) → List Violation
  non_interference_of trace low high none = events_not_a_list ∷ []
  non_interference_of trace low high (some events) =
      projection_violations low 0 (trace_projection_for_tenant trace low)
      ++ for_events (high_violations low high) 0 events

  unfoldable pub validate_observational_non_interference : Fields → String → String → List Violation
  validate_observational_non_interference trace low high =
      if low == high then [] else non_interference_of trace low high (as_list (get "events" trace))

  abbrev pub add_tenant : List String → Option Fields → List String
  add_tenant seen none = seen
  add_tenant seen (some principal) =
      let tenant = tenant_of principal in
      if not (tenant == "") && not (elem tenant seen) then seen ++ tenant ∷ [] else seen

  -- `tenant and tenant not in tenants`, for the tenants of the principals
  unfoldable pub tenants_of : List String → List Value → List String
  tenants_of seen [] = seen
  tenants_of seen (obj event ∷ rest) =
      tenants_of (add_tenant seen (as_dict (get "principal" event))) rest
  tenants_of seen (_ ∷ rest) = tenants_of seen rest

  abbrev tenants_or_none : Option (List Value) → List String
  tenants_or_none none = []
  tenants_or_none (some events) = tenants_of [] events

  unfoldable pub against_all : Fields → String → List String → List Violation
  against_all trace low [] = []
  against_all trace low (high ∷ rest) =
      (if low == high then [] else validate_observational_non_interference trace low high)
      ++ against_all trace low rest

  unfoldable pub each_against_all : Fields → List String → List String → List Violation
  unfolding against_all
  each_against_all trace all_tenants [] = []
  each_against_all trace all_tenants (low ∷ rest) =
      against_all trace low all_tenants ++ each_against_all trace all_tenants rest

  unfoldable pub validate_observational_non_interference_all_pairs : Fields → List Violation
  unfolding tenants_of each_against_all
  validate_observational_non_interference_all_pairs trace =
      let tenants = tenants_or_none (as_list (get "events" trace)) in
      each_against_all trace tenants tenants
