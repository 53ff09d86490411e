-- ===== src/Runtime/Tenant/Projection.antt =====
-- What a tenant sees of a trace.
use pcs_core.Prelude.{
  ℕ, suc, String, List, [], ◌∷◌, ◌≡◌, ◌≢◌, refl, Option, none, some, Bool, true, false, ◌&&◌, ◌==◌,
  when, arith, eq_iff, Bool-cases, if◌then◌else◌, inl, inr, All,
}
use pcs_core.Json.{Value, obj, Fields, as_dict, as_list}
use pcs_core.Json.Dict.{get}
use pcs_core.Host.{Host}
use pcs_core.Runtime.Tenant.{
  for_events, tenant_of, decision_of, low_of, low_event_for_tenant, project,
  trace_projection_for_tenant, projection_violations, high_of, high_violations, high_is_low_visible,
  non_interference_of, validate_observational_non_interference,
}

and-false {ℓ} : {A : Type ℓ} (b : Bool) (x : A) → when (b && false) x ≡ []
and-false true x = refl
and-false false x = refl

module _ ⦃py : Host⦄ where
  -- Every event of a projection is one that the tenant sees.
  project-All :
      (tenant : String) (events : List Value)
      → All (λ e. low_event_for_tenant tenant e ≡ true) (project tenant events)
  unfolding project
  project-All tenant [] = tt
  project-All tenant (obj e ∷ rest) = elim (Bool-cases (low_event_for_tenant tenant e)) [
    | inl h ↦ rw (h) (h, project-All tenant rest)
    | inr h ↦ rw (h) (project-All tenant rest)
  ]
  project-All tenant (_ ∷ rest) = project-All tenant rest

  seen-violations :
      (tenant : String) (i : ℕ) (es : List Fields)
      → All (λ e. low_event_for_tenant tenant e ≡ true) es
      → projection_violations tenant i es ≡ []
  seen-violations tenant i [] h = refl
  seen-violations tenant i (e ∷ es) h = rw (h.0) (seen-violations tenant (suc i) es h.1)

  if-true : (d b : Bool) → (if d then b else false) ≡ true → b ≡ true
  if-true true b h = h
  if-true false b h = cc

  low_parts :
      (low : String) (event : Fields)
      → low_event_for_tenant low event ≡ true
      → low_of low (as_dict (get "principal" event)) ≡ true
  unfolding low_event_for_tenant
  low_parts low event h =
      if-true (decision_of event == "allow") (low_of low (as_dict (get "principal" event))) h

  other-tenant : (t low high : String) → low ≢ high → (t == low) ≡ true → (t == high) ≡ false
  other-tenant t low high ne h = ground (arith, eq_iff t low, eq_iff t high)

  high-invisible :
      (low high : String) (i : ℕ) (event : Fields) (o : Option Fields)
      → low ≢ high
      → (low_event_for_tenant low event ≡ true → low_of low o ≡ true)
      → high_of low high i event o ≡ []
  high-invisible low high i event none ne h = refl
  high-invisible low high i event (some p) ne h =
      elim (Bool-cases (low_event_for_tenant low event)) [
        | inl e ↦ rw (other-tenant (tenant_of p) low high ne (h e)) refl
        | inr e ↦ rw (e) (and-false (tenant_of p == high) (high_is_low_visible i))
      ]

  high-events :
      (low high : String) (i : ℕ) (events : List Value)
      → low ≢ high
      → for_events (high_violations low high) i events ≡ []
  unfolding high_violations
  high-events low high i [] ne = refl
  high-events low high i (obj e ∷ rest) ne =
      rw (high-invisible low high i e (as_dict (get "principal" e)) ne (low_parts low e))
        (high-events low high (suc i) rest ne)
  high-events low high i (_ ∷ rest) ne = high-events low high (suc i) rest ne

  interference_of :
      (trace : Fields) (low high : String) (events : List Value)
      → as_list (get "events" trace) ≡ some events
      → low ≢ high
      → non_interference_of trace low high (some events) ≡ []
  unfolding trace_projection_for_tenant
  interference_of trace low high events h ne =
      rw (h, seen-violations low 0 (project low events) (project-All low events))
        (high-events low high 0 events ne)

  -- validate_observational_non_interference reports nothing for any trace whose events are a list,
  -- whatever the two tenants and the events are.
  pub non_interference_vacuous :
      (trace : Fields) (low high : String) (events : List Value)
      → as_list (get "events" trace) ≡ some events
      → validate_observational_non_interference trace low high ≡ []
  unfolding validate_observational_non_interference
  non_interference_vacuous trace low high events h = elim (Bool-cases (low == high)) [
    | inl e ↦ rw (e) refl
    | inr e ↦
        rw (e, h) (interference_of trace low high events h (λ q. ground (arith, eq_iff low high)))
  ]
