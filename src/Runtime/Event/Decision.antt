-- ===== src/Runtime/Event/Decision.antt =====
-- What an event compiled from an observation allows.
use pcs_core.Prelude.{
  String, List, ◌≡◌, refl, sym, ap, ◌∙◌, Bool, true, false, not, ◌==◌, elem, arith, eq_iff,
  if◌then◌else◌, Result, ok, err, ◌>>=◌, ◌>>◌, bind_ok, Bool-cases, inl, inr,
}
use pcs_core.Json.{Value, str, obj, Fields}
use pcs_core.Json.Dict.{lookup, get}
use pcs_core.Host.{Host}
use pcs_core.Hash.{signature_field}
use pcs_core.Runtime.{RuntimeError, normalize_hash}
use pcs_core.Runtime.Principal.{
  iterate_key, expand_principal_capabilities, principal_capabilities_explicit, validate_principal,
}
use pcs_core.Runtime.Principal.Normal.{validate_principal-explicit}
use pcs_core.Runtime.Action.{validate_action}
use pcs_core.Runtime.Tenant.{same_tenant, decision_of}
use pcs_core.Runtime.Event.{
  EventParts, event_record, seal_event, finalize_event, decide, capability_id_of, require_text,
  require_schema_valid, action_or_empty, observation_sequence, compile_runtime_observation_to_event,
}
use pcs_core.Runtime.Event.Sealing.{get-seal}

both_tests :
    (a b : Bool) (asked : String)
    → ◌≡◌ {A = Result RuntimeError String}
        (ok (if not a then "deny" else if not b then "deny" else asked))
        (ok "allow")
    → (a ≡ true) × (b ≡ true)
both_tests true true asked h = (refl, refl)
both_tests true false asked h = absurd (ground (arith, eq_iff "deny" "allow"))
both_tests false b asked h = absurd (ground (arith, eq_iff "deny" "allow"))

str_inj : {a b : String} → str a ≡ str b → a ≡ b
str_inj h = cc

ok_inj : {a b : String} → ◌≡◌ {A = Result RuntimeError String} (ok a) (ok b) → a ≡ b
ok_inj h = cc

not_asked : (asked : String) → (asked == "allow") ≡ false → asked ≡ "allow" → ⊥
not_asked asked e p = ground (arith, eq_iff asked "allow")

module _ ⦃py : Host⦄ where
  -- A finalised event: its parts, and its decision one of the two.
  pub record Final (e : EventParts) (event : Fields) : Type 0 where
    pub previous : String
    pub shape : event ≡ seal_event (event_record e previous)
    pub normal : normalize_hash e.previous_event_hash ≡ ok previous

  Final-sealed :
      (e : EventParts) (event : Fields) (m : Result RuntimeError String)
      → m ≡ normalize_hash e.previous_event_hash
      → (m >>= λ previous. ok (seal_event (event_record e previous))) ≡ ok event
      → Final e event
  Final-sealed e event (ok previous) same h = record {
    previous = previous;
    shape = cc;
    normal = sym same;
  }
  Final-sealed e event (err x) same h = cc

  second_of :
      (m : Result RuntimeError (Unit {0})) (k : Result RuntimeError Fields) (event : Fields)
      → (m >> k) ≡ ok event
      → k ≡ ok event
  second_of (ok u) k event h = h
  second_of (err e) k event h = cc

  finalize_event-Final :
      (e : EventParts) (event : Fields) → finalize_event e ≡ ok event → Final e event
  unfolding finalize_event
  finalize_event-Final e event h =
      Final-sealed e event (normalize_hash e.previous_event_hash) refl (second_of _ _ event h)

  -- The parts that matter for safety, as the compiled event shows them.
  pub record Compiled (obs event : Fields) : Type 0 where
    pub principal : Fields
    pub action : Fields
    pub decision : String
    pub raw : Fields
    pub event_id : String
    pub validated : validate_principal "principal" (get "principal" obs) ≡ ok principal
    pub checked : validate_action "action" raw ≡ ok action
    pub decided : decide (decision_of obs) principal action ≡ ok decision
    pub has_principal : get "principal" event ≡ obj principal
    pub has_action : get "action" event ≡ obj action
    pub has_decision : get "decision" event ≡ str decision
    pub identified : require_text "event_id" obs ≡ ok event_id
    pub has_id : get "event_id" event ≡ str event_id

  fields_of_event :
      (k : String) (e : EventParts) (event : Fields) (v : Value)
      → (signature_field == k) ≡ false
      → ("event_hash" == k) ≡ false
      → ((previous : String) → get k (event_record e previous) ≡ v)
      → Final e event
      → get k event ≡ v
  fields_of_event k e event v s h at f =
      ap (get k) f.shape ∙ get-seal k (event_record e f.previous) s h ∙ at f.previous

  pub compile_observation-Compiled :
      (obs event : Fields)
      → compile_runtime_observation_to_event obs ≡ ok event
      → Compiled obs event
  unfolding compile_runtime_observation_to_event event_record get
  compile_observation-Compiled obs event h =
      let (u, valid, h₀) = bind_ok (require_schema_valid obs "PFCoreRuntimeObservation.v0") _ h in
      let (principal, validated, h₁) =
        bind_ok (validate_principal "principal" (get "principal" obs)) _ h₀ in
      let (raw, found, h₂) = bind_ok (action_or_empty (lookup "action" obs)) _ h₁ in
      let (action, checked, h₃) = bind_ok (validate_action "action" raw) _ h₂ in
      let (decision, decided, h₄) = bind_ok (decide (decision_of obs) principal action) _ h₃ in
      let (trace_id, _, h₅) = bind_ok (require_text "trace_id" obs) _ h₄ in
      let (event_id, identified, h₆) = bind_ok (require_text "event_id" obs) _ h₅ in
      let (n, _, h₇) = bind_ok (observation_sequence obs) _ h₆ in
      let (observed_at, _, h₈) = bind_ok (require_text "observed_at" obs) _ h₇ in
      let (evidence, _, h₉) = bind_ok (iterate_key "evidence_refs" obs) _ h₈ in
      let (repo, _, h₁₀) = bind_ok (require_text "source_repo" obs) _ h₉ in
      let (commit, _, h₁₁) = bind_ok (require_text "source_commit" obs) _ h₁₀ in
      let final = finalize_event-Final _ event h₁₁ in
      record {
        principal = principal;
        action = action;
        decision = decision;
        raw = raw;
        event_id = event_id;
        validated = validated;
        checked = checked;
        decided = decided;
        has_principal =
            fields_of_event "principal" _ event (obj principal) refl refl (λ p. refl) final;
        has_action = fields_of_event "action" _ event (obj action) refl refl (λ p. refl) final;
        has_decision =
            fields_of_event "decision" _ event (str decision) refl refl (λ p. refl) final;
        identified = identified;
        has_id = fields_of_event "event_id" _ event (str event_id) refl refl (λ p. refl) final;
      }

  -- Why a decision is to allow.
  pub record IsAuthorised (principal action : Fields) : Type 0 where
    pub held : List String
    pub expands : expand_principal_capabilities principal ≡ ok held
    pub holds : elem (capability_id_of action) held ≡ true
    pub in_tenant : same_tenant principal action ≡ true

  allow_of :
      (asked : String) (principal action : Fields) (m : Result RuntimeError (List String))
      → m ≡ expand_principal_capabilities principal
      → (m >>= λ held. ok (
          if not (elem (capability_id_of action) held)
          then "deny"
          else if not (same_tenant principal action)
          then "deny"
          else asked))
        ≡ ok "allow"
      → IsAuthorised principal action
  allow_of asked principal action (ok held) same h = record {
    held = held;
    expands = sym same;
    holds =
        (both_tests (elem (capability_id_of action) held) (same_tenant principal action) asked h).0;
    in_tenant =
        (both_tests (elem (capability_id_of action) held) (same_tenant principal action) asked h).1;
  }
  allow_of asked principal action (err e) same h = cc

  pub decide-allow :
      (asked : String) (principal action : Fields)
      → decide asked principal action ≡ ok "allow"
      → (asked ≡ "allow") × IsAuthorised principal action
  unfolding decide
  decide-allow asked principal action h = elim (Bool-cases (asked == "allow")) [
    | inl e ↦ (
      (eq_iff asked "allow").0 e,
      allow_of asked principal action (expand_principal_capabilities principal) refl (rw e at h),
    )
    | inr e ↦ absurd (not_asked asked e (allowed (rw e at h)))
  ]
    where
      allowed : ◌≡◌ {A = Result RuntimeError String} (ok asked) (ok "allow") → asked ≡ "allow"
      allowed p = cc

  -- An event compiled from an observation allows only what the observation asked to allow, to a
  -- principal that holds the capability of the action by its roles or directly, whose listed
  -- capabilities are exactly its expanded ones, and whose tenant owns every resource of the action.
  pub compile_observation-allow :
      (obs event : Fields)
      → compile_runtime_observation_to_event obs ≡ ok event
      → get "decision" event ≡ str "allow"
      → (principal action : Fields) × (get "principal" event ≡ obj principal)
        × (get "action" event ≡ obj action)
        × (decision_of obs ≡ "allow")
        × IsAuthorised principal action
        × (principal_capabilities_explicit principal ≡ ok true)
  compile_observation-allow obs event h allowed =
      let c = compile_observation-Compiled obs event h in
      let same : c.decision ≡ "allow" = str_inj (sym c.has_decision ∙ allowed) in
      let (asked, authorised) =
        decide-allow (decision_of obs) c.principal c.action (c.decided ∙ ap ok same) in
      (
        c.principal,
        c.action,
        c.has_principal,
        c.has_action,
        asked,
        authorised,
        validate_principal-explicit "principal" (get "principal" obs) c.principal c.validated,
      )

  decide-not_allow :
      (asked : String) (principal action : Fields)
      → (asked == "allow") ≡ false
      → decide asked principal action ≡ ok asked
  unfolding decide
  decide-not_allow asked principal action e = rw e

  -- A denied observation becomes a denied event.
  pub compile_observation-deny :
      (obs event : Fields)
      → compile_runtime_observation_to_event obs ≡ ok event
      → decision_of obs ≡ "deny"
      → get "decision" event ≡ str "deny"
  compile_observation-deny obs event h denied =
      let c = compile_observation-Compiled obs event h in
      let kept : ok c.decision ≡ ok (decision_of obs) =
        sym c.decided ∙ decide-not_allow (decision_of obs) c.principal c.action (rw denied refl) in
      c.has_decision ∙ ap str (ok_inj kept ∙ denied)
