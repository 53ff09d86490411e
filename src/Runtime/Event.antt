-- ===== src/Runtime/Event.antt =====
-- Events in pf_core_runtime.py: their hashes, and the compilation of one runtime observation.
pub mod Sealing
pub mod Decision
use Prim.Native.String.{◌++◌}
use pcs_core.Prelude.{
  ℕ, String, List, [], ◌∷◌, Option, none, some, Bool, true, false, not, ◌&&◌, ◌||◌, ◌==◌,
  if◌then◌else◌, elem, map, Result, ok, err, ◌>>=◌, ◌>>◌, raise_if,
}
use pcs_core.Prelude.Int.{ℤ, pos, negsuc}
use pcs_core.Json.{Value, str, arr, obj, Fields, end, field, texts, as_dict, as_int, truthy}
use pcs_core.Json.Dict.{lookup, get, put, without}
use pcs_core.Json.Text.{str_of, text_or, strip}
use pcs_core.Host.{Host}
use pcs_core.Hash.{signature_field, canonical_hash_legacy}
use pcs_core.Runtime.{
  RuntimeError, genesis_hash, normalize_hash, invalid_decision, invalid_observation, invalid_schema,
  key_error, type_error,
}
use pcs_core.Runtime.Principal.{iterate_key, expand_principal_capabilities, validate_principal}
use pcs_core.Runtime.Action.{validate_action}
use pcs_core.Runtime.Tenant.{same_tenant, decision_of}

-- d[k]
unfoldable pub require_key : String → Fields → Result RuntimeError Value
require_key k d = elim (lookup k d) [ none ↦ err (key_error k) | some v ↦ ok v ]

abbrev not_negative : Option ℤ → Result RuntimeError ℕ
not_negative (some (pos n)) = ok n
not_negative _ = err (invalid_observation "sequence")

-- _observation_sequence; the event keeps the value itself.
unfoldable pub observation_sequence : Fields → Result RuntimeError ℕ
observation_sequence obs = not_negative (as_int (get "sequence" obs))

module _ ⦃py : Host⦄ where
  unfoldable pub compute_event_hash : Fields → String
  compute_event_hash event =
      canonical_hash_legacy (without ("event_hash" ∷ signature_field ∷ []) event)

  unfoldable pub compute_trace_hash : Fields → String
  compute_trace_hash trace =
      canonical_hash_legacy (without ("trace_hash" ∷ signature_field ∷ []) trace)

  abbrev no_errors : String → List String → Result RuntimeError (Unit {0})
  no_errors kind [] = ok tt
  no_errors kind (e ∷ es) = err (invalid_schema kind)

  -- _require_schema_valid
  unfoldable pub require_schema_valid : Fields → String → Result RuntimeError (Unit {0})
  require_schema_valid d kind = no_errors kind (py.schema_errors (obj d) kind)

  unfoldable pub require_text : String → Fields → Result RuntimeError String
  unfolding require_key
  require_text k d = do v ← require_key k d; ok (str_of v)

  -- The keyword arguments of _finalize_event.
  pub record EventParts : Type 0 where
    pub trace_id : String
    pub event_id : String
    pub sequence : Value
    pub timestamp : String
    pub principal : Fields
    pub action : Fields
    pub decision : String
    pub decision_reason : String
    pub contract_refs : List String
    pub evidence_refs : List String
    pub previous_event_hash : String
    pub source_repo : String
    pub source_commit : String

  -- The event before its own hash is put in.
  unfoldable pub event_record : EventParts → String → Fields
  event_record e previous = field "schema_version" (str "v0") (
      field "artifact_type" (str "PFCoreEvent.v0") (
        field "event_id" (str e.event_id) (
          field "trace_id" (str e.trace_id) (
            field "sequence" e.sequence (
              field "timestamp" (str e.timestamp) (
                field "principal" (obj e.principal) (
                  field "action" (obj e.action) (
                    field "decision" (str e.decision) (
                      field "decision_reason" (str e.decision_reason) (
                        field "contract_refs" (arr (texts e.contract_refs)) (
                          field "evidence_refs" (arr (texts e.evidence_refs)) (
                            field "previous_event_hash" (str previous) (
                              field "event_hash" (str genesis_hash) (
                                field "source_repo" (str e.source_repo) (
                                  field "source_commit" (str e.source_commit)
                                    (field signature_field (str genesis_hash) end))))))))))))))))

  -- `event["event_hash"] = compute_event_hash(event)`, and the digest field with it.
  unfoldable pub seal_event : Fields → Fields
  seal_event event =
      let h = str (compute_event_hash event) in put signature_field h (put "event_hash" h event)

  -- _finalize_event
  unfoldable pub finalize_event : EventParts → Result RuntimeError Fields
  unfolding seal_event event_record
  finalize_event e =
      raise_if (not (e.decision == "allow" || e.decision == "deny"))
        (invalid_decision e.decision "decision")
      >> (do
        previous ← normalize_hash e.previous_event_hash
        ok (seal_event (event_record e previous)))

  abbrev action_or_empty : Option Value → Result RuntimeError Fields
  action_or_empty none = ok end
  action_or_empty (some (obj a)) = ok a
  action_or_empty (some _) = err type_error

  abbrev capability_id_in : Option Fields → String
  capability_id_in none = ""
  capability_id_in (some c) = text_or "" (get "capability_id" c)

  -- action["capability"]["capability_id"] of a normalised action
  abbrev pub capability_id_of : Fields → String
  capability_id_of action = capability_id_in (as_dict (get "capability" action))

  -- An allow stands only for a principal that holds the capability, within its tenant.
  unfoldable pub decide : String → Fields → Fields → Result RuntimeError String
  decide decision principal action =
      let checked = do
        held ← expand_principal_capabilities principal
        ok (
            if not (elem (capability_id_of action) held)
            then "deny"
            else if not (same_tenant principal action)
            then "deny"
            else decision)
      in if decision == "allow" then checked else ok decision

  -- `[str(ref) for ref in refs if ref]`
  unfoldable pub true_texts : List Value → List String
  true_texts [] = []
  true_texts (v ∷ vs) = if truthy v then str_of v ∷ true_texts vs else true_texts vs

  abbrev pub policy_refs : String → List String
  policy_refs ref = if ref == "" then [] else ref ∷ []

  unfoldable pub compile_runtime_observation_to_event : Fields → Result RuntimeError Fields
  unfolding decide true_texts require_text require_schema_valid finalize_event
  compile_runtime_observation_to_event obs = do
    require_schema_valid obs "PFCoreRuntimeObservation.v0"
    principal ← validate_principal "principal" (get "principal" obs)
    raw ← action_or_empty (lookup "action" obs)
    action ← validate_action "action" raw
    decision ← decide (decision_of obs) principal action
    trace_id ← require_text "trace_id" obs
    event_id ← require_text "event_id" obs
    n ← observation_sequence obs
    observed_at ← require_text "observed_at" obs
    evidence ← iterate_key "evidence_refs" obs
    repo ← require_text "source_repo" obs
    commit ← require_text "source_commit" obs
    finalize_event (record {
      trace_id = trace_id;
      event_id = event_id;
      sequence = get "sequence" obs;
      timestamp = observed_at;
      principal = principal;
      action = action;
      decision = decision;
      decision_reason = text_or "" (get "decision_reason" obs);
      contract_refs = policy_refs (strip (text_or "" (get "policy_ref" obs)));
      evidence_refs = true_texts evidence;
      previous_event_hash = text_or genesis_hash (get "previous_event_hash" obs);
      source_repo = repo;
      source_commit = commit;
    })
