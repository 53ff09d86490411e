-- ===== src/Runtime/Tenant/Safety.antt =====
-- What the tenant checks mean, and how they relate.
use pcs_core.Prelude.{
  ℕ, String, List, [], ◌∷◌, ◌≡◌, ◌≢◌, refl, sym, ◌∙◌, ◌↔◌, inl, inr, Option, none, some, All, Bool,
  true, false, not, ◌==◌, when, arith, eq_iff, Bool-cases, if◌then◌else◌,
}
use pcs_core.Json.{Value, obj, Fields, as_dict, as_list}
use pcs_core.Json.Dict.{get}
use pcs_core.Host.{Host}
use pcs_core.Runtime.Chain.Meaning.{when-eq-nil}
use pcs_core.Runtime.Tenant.{
  cross_tenant_allow, cross_tenant, empty_tenant, over_trace, tenant_of, same_tenant, decision_of,
  event_cross_tenant_safe, cross_tenant_of, cross_tenant_violations, validate_cross_tenant_safety,
  isolation_of, isolation_violations, validate_tenant_isolation,
}
use pcs_core.Runtime.Tenant.Ownership.{
  for_events_sound, for_events_complete, All-map, IsWithinTenant, same_tenant_iff,
}

module _ ⦃py : Host⦄ where
  -- The principal's tenant is stated and owns all that the action reads and writes.
  abbrev pub IsIsolated : Option Fields → Option Fields → Type 0
  IsIsolated (some p) (some a) = (tenant_of p ≢ "") × IsWithinTenant p a
  IsIsolated _ _ = ⊥

  -- The event is denied, or its action stays within the tenant of its principal.
  abbrev pub IsCrossTenantSafe : String → Option Fields → Option Fields → Type 0
  IsCrossTenantSafe decision (some p) (some a) = decision ≢ "deny" → IsWithinTenant p a
  IsCrossTenantSafe decision _ _ = ⊥

  abbrev pub EventIsIsolated : Value → Type 0
  EventIsIsolated (obj event) =
      IsIsolated (as_dict (get "principal" event)) (as_dict (get "action" event))
  EventIsIsolated _ = Unit

  abbrev pub EventIsCrossTenantSafe : Value → Type 0
  EventIsCrossTenantSafe (obj event) =
      IsCrossTenantSafe (decision_of event) (as_dict (get "principal" event))
        (as_dict (get "action" event))
  EventIsCrossTenantSafe _ = Unit

  within_of : (d b : Bool) → (if d then true else b) ≡ true → d ≡ false → b ≡ true
  within_of true b h q = cc
  within_of false b h q = h

  eq-false : (s t : String) → s ≢ t → (s == t) ≡ false
  eq-false s t h = ground (arith, eq_iff s t)

  safe_parts :
      (decision : String) (p a : Fields)
      → event_cross_tenant_safe p a decision ≡ true
      → IsCrossTenantSafe decision (some p) (some a)
  unfolding event_cross_tenant_safe
  safe_parts decision p a h ne =
      (same_tenant_iff p a).0
        (within_of (decision == "deny") (same_tenant p a) h (eq-false decision "deny" ne))

  parts_safe :
      (decision : String) (p a : Fields)
      → IsCrossTenantSafe decision (some p) (some a)
      → event_cross_tenant_safe p a decision ≡ true
  unfolding event_cross_tenant_safe
  parts_safe decision p a h = elim (Bool-cases (decision == "deny")) [
    | inl e ↦ rw (e) refl
    | inr e ↦ rw (e) ((same_tenant_iff p a).1 (h (λ q. ground (arith, eq_iff decision "deny"))))
  ]

  safe_sound :
      (i : ℕ) (decision : String) (p a : Option Fields)
      → cross_tenant_of i decision p a ≡ []
      → IsCrossTenantSafe decision p a
  safe_sound i decision (some p) (some a) h = safe_parts decision p a (
      ground
        (arith, when-eq-nil (not (event_cross_tenant_safe p a decision)) (cross_tenant_allow i) h))
  safe_sound i decision (some p) none h = cc
  safe_sound i decision none a h = cc

  safe_complete :
      (i : ℕ) (decision : String) (p a : Option Fields)
      → IsCrossTenantSafe decision p a
      → cross_tenant_of i decision p a ≡ []
  safe_complete i decision (some p) (some a) h = rw (parts_safe decision p a h) refl
  safe_complete i decision none a h = elim h [ ]
  safe_complete i decision (some p) none h = elim h [ ]

  isolation_empty :
      (i : ℕ) (p a : Fields)
      → (tenant_of p == "") ≡ true
      → isolation_of i (some p) (some a) ≡ empty_tenant i ∷ []
  isolation_empty i p a e = rw (e) refl

  isolation_stated :
      (i : ℕ) (p a : Fields)
      → (tenant_of p == "") ≡ false
      → isolation_of i (some p) (some a) ≡ when (not (same_tenant p a)) (cross_tenant i)
  isolation_stated i p a e = rw (e) refl

  isolated_parts :
      (decision : String) (p a : Option Fields) → IsIsolated p a → IsCrossTenantSafe decision p a
  isolated_parts decision (some p) (some a) h = λ ne. h.1
  isolated_parts decision none a h = elim h [ ]
  isolated_parts decision (some p) none h = elim h [ ]

  IsIsolated-isolation_of : (i : ℕ) (p a : Option Fields) → isolation_of i p a ≡ [] → IsIsolated p a
  IsIsolated-isolation_of i (some p) (some a) h = elim (Bool-cases (tenant_of p == "")) [
    | inl e ↦ cc (isolation_empty i p a e)
    | inr e ↦ (
      λ q. ground (arith, eq_iff (tenant_of p) ""),
      (same_tenant_iff p a).0 (
          ground (
            arith,
            when-eq-nil (not (same_tenant p a)) (cross_tenant i)
                (sym (isolation_stated i p a e) ∙ h),
          )),
    )
  ]
  IsIsolated-isolation_of i (some p) none h = cc
  IsIsolated-isolation_of i none a h = cc

  -- An event that is isolated is safe, whatever its decision.
  isolated-safe : (v : Value) → EventIsIsolated v → EventIsCrossTenantSafe v
  isolated-safe (obj event) h =
      isolated_parts (decision_of event) (as_dict (get "principal" event))
        (as_dict (get "action" event)) h
  isolated-safe _ h = tt

  cross_sound : (i : ℕ) (v : Value) → cross_tenant_violations i v ≡ [] → EventIsCrossTenantSafe v
  unfolding cross_tenant_violations
  cross_sound i (obj event) h =
      safe_sound i (decision_of event) (as_dict (get "principal" event))
        (as_dict (get "action" event)) h
  cross_sound i _ h = tt

  cross_complete : (i : ℕ) (v : Value) → EventIsCrossTenantSafe v → cross_tenant_violations i v ≡ []
  unfolding cross_tenant_violations
  cross_complete i (obj event) h =
      safe_complete i (decision_of event) (as_dict (get "principal" event))
        (as_dict (get "action" event)) h
  cross_complete i _ h = refl

  isolation_sound : (i : ℕ) (v : Value) → isolation_violations i v ≡ [] → EventIsIsolated v
  unfolding isolation_violations
  isolation_sound i (obj event) h =
      IsIsolated-isolation_of i (as_dict (get "principal" event)) (as_dict (get "action" event)) h
  isolation_sound i _ h = tt

  abbrev pub TraceIsCrossTenantSafe : Option (List Value) → Type 0
  TraceIsCrossTenantSafe none = ⊥
  TraceIsCrossTenantSafe (some events) = All EventIsCrossTenantSafe events

  safety_sound :
      (o : Option (List Value))
      → over_trace cross_tenant_violations o ≡ []
      → TraceIsCrossTenantSafe o
  safety_sound none h = cc
  safety_sound (some events) h =
      for_events_sound EventIsCrossTenantSafe cross_tenant_violations cross_sound 0 events h

  safety_complete :
      (o : Option (List Value))
      → TraceIsCrossTenantSafe o
      → over_trace cross_tenant_violations o ≡ []
  safety_complete none h = elim h [ ]
  safety_complete (some events) h =
      for_events_complete EventIsCrossTenantSafe cross_tenant_violations cross_complete 0 events h

  -- validate_cross_tenant_safety reports nothing exactly when the events of the trace are a list in
  -- which every dictionary has a principal and an action that are dictionaries and, unless it is
  -- denied, reads and writes only resources of its principal's tenant.
  pub validate_cross_tenant_safety_iff :
      (trace : Fields)
      → (validate_cross_tenant_safety trace ≡ [])
        ↔ TraceIsCrossTenantSafe (as_list (get "events" trace))
  unfolding validate_cross_tenant_safety
  validate_cross_tenant_safety_iff trace =
      (safety_sound (as_list (get "events" trace)), safety_complete (as_list (get "events" trace)))

  isolation_safety :
      (o : Option (List Value))
      → over_trace isolation_violations o ≡ []
      → over_trace cross_tenant_violations o ≡ []
  isolation_safety none h = cc
  isolation_safety (some events) h =
      for_events_complete EventIsCrossTenantSafe cross_tenant_violations cross_complete 0 events (
        All-map events isolated-safe
          (for_events_sound EventIsIsolated isolation_violations isolation_sound 0 events h))

  -- A trace in which validate_tenant_isolation finds no violation has none for
  -- validate_cross_tenant_safety.
  pub tenant_isolation-cross_tenant_safety :
      (trace : Fields)
      → validate_tenant_isolation trace ≡ []
      → validate_cross_tenant_safety trace ≡ []
  unfolding validate_tenant_isolation validate_cross_tenant_safety
  tenant_isolation-cross_tenant_safety trace h = isolation_safety (as_list (get "events" trace)) h
