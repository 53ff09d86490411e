-- ===== src/Runtime/Compile.antt =====
-- Traces from observations in pf_core_runtime.py: sorting, chaining, and the check that no denied
-- observation is lost.
pub mod Valid
use Prim.Native.String.{◌++◌}
use pcs_core.Prelude.{
  ℕ, suc, String, List, [], ◌∷◌, Option, none, some, Bool, true, false, not, ◌&&◌, ◌==◌, ltb,
  if◌then◌else◌, Result, ok, err, ◌>>=◌, ◌>>◌, raise_if,
}
use pcs_core.Json.{Value, str, arr, obj, Items, nil, cons, Fields, end, field, truthy}
use pcs_core.Json.Dict.{get, put}
use pcs_core.Json.Text.{str_of, text_or, indexed}
use pcs_core.Host.{Host}
use pcs_core.Hash.{signature_field}
use pcs_core.Runtime.{RuntimeError, genesis_hash, dropped_denied_event, invalid_trace}
use pcs_core.Runtime.Action.{assert_claim_class_allowed}
use pcs_core.Runtime.Tenant.{decision_of}
use pcs_core.Runtime.Event.{
  observation_sequence, require_schema_valid, require_text, compute_event_hash, compute_trace_hash,
  seal_event, compile_runtime_observation_to_event,
}

-- The keys of the sort, computed for all observations before any is moved.
unfoldable pub with_sequences : List Fields → Result RuntimeError (List (ℕ × Fields))
with_sequences [] = ok []
with_sequences (o ∷ os) = do
  n ← observation_sequence o
  rest ← with_sequences os
  ok ((n, o) ∷ rest)

-- Stable: an observation goes in front of those with the same sequence that stood behind it.
unfoldable pub insert_by_sequence : ℕ × Fields → List (ℕ × Fields) → List (ℕ × Fields)
insert_by_sequence x [] = x ∷ []
insert_by_sequence (n, o) ((m, p) ∷ rest) =
    if ltb m n then (m, p) ∷ insert_by_sequence (n, o) rest else (n, o) ∷ (m, p) ∷ rest

unfoldable pub sort_by_sequence : List (ℕ × Fields) → List (ℕ × Fields)
unfolding insert_by_sequence
sort_by_sequence [] = []
sort_by_sequence (x ∷ xs) = insert_by_sequence x (sort_by_sequence xs)

abbrev pub observations_of : List (ℕ × Fields) → List Fields
observations_of [] = []
observations_of ((n, o) ∷ rest) = o ∷ observations_of rest

-- _sort_observations
unfoldable pub sort_observations : List Fields → Result RuntimeError (List Fields)
unfolding with_sequences sort_by_sequence
sort_observations os = do keyed ← with_sequences os; ok (observations_of (sort_by_sequence keyed))

abbrev pub event_items : List Fields → Items
event_items [] = nil
event_items (e ∷ es) = cons (obj e) (event_items es)

module _ ⦃py : Host⦄ where
  unfoldable pub require_all_valid : List Fields → Result RuntimeError (Unit {0})
  require_all_valid [] = ok tt
  require_all_valid (o ∷ os) =
      require_schema_valid o "PFCoreRuntimeObservation.v0" >> require_all_valid os

  unfoldable pub require_trace_id : String → List Fields → Result RuntimeError (Unit {0})
  require_trace_id id [] = ok tt
  require_trace_id id (o ∷ os) = do
    other ← require_text "trace_id" o
    raise_if (not (other == id)) (invalid_trace "all observations must share trace_id" "trace_id")
    require_trace_id id os

  -- The event takes its place in the chain.
  unfoldable pub link : String → Fields → Fields
  unfolding seal_event
  link previous event = seal_event (put "previous_event_hash" (str previous) event)

  -- event["event_hash"]
  abbrev pub hash_of : Fields → String
  hash_of event = text_or "" (get "event_hash" event)

  unfoldable pub compile_chain : String → List Fields → Result RuntimeError (List Fields)
  unfolding link
  compile_chain previous [] = ok []
  compile_chain previous (o ∷ os) = do
    event ← compile_runtime_observation_to_event o
    rest ← compile_chain (hash_of (link previous event)) os
    ok (link previous event ∷ rest)

  abbrev id_of : Fields → String
  id_of d = text_or "" (get "event_id" d)

  -- The last event with an id, as in the dictionary that the source builds.
  unfoldable pub find_event : String → List Fields → Option Fields
  find_event id [] = none
  find_event id (e ∷ es) = elim (find_event id es) [
    | some later ↦ some later
    | none ↦ if id_of e == id then some e else none
  ]

  abbrev check_kept : String → Option Fields → Result RuntimeError (Unit {0})
  check_kept id none = err (dropped_denied_event id "events")
  check_kept id (some event) =
      raise_if (not (decision_of event == "deny"))
        (dropped_denied_event id ("events[" ++ (id ++ "].decision")))

  unfoldable pub validate_denied_observations_preserved :
      ℕ → List Fields → List Fields → Result RuntimeError (Unit {0})
  unfolding find_event
  validate_denied_observations_preserved i [] events = ok tt
  validate_denied_observations_preserved i (o ∷ os) events =
      (if decision_of o == "deny"
        then raise_if (id_of o == "")
            (dropped_denied_event "<missing-event-id>" (indexed "observations" i))
          >> check_kept (id_of o) (find_event (id_of o) events)
        else ok tt)
      >> validate_denied_observations_preserved (suc i) os events

  pub record TraceParts : Type 0 where
    pub trace_id : String
    pub workflow_id : String
    pub events : List Fields
    pub source_repo : String
    pub source_commit : String

  unfoldable pub trace_record : TraceParts → Fields
  trace_record t = field "schema_version" (str "v0") (
      field "artifact_type" (str "PFCoreTrace.v0") (
        field "trace_id" (str t.trace_id) (
          field "workflow_id" (str t.workflow_id) (
            field "events" (arr (event_items t.events)) (
              field "trace_hash" (str genesis_hash) (
                field "policy_hash" (str genesis_hash) (
                  field "contract_hash" (str genesis_hash) (
                    field "claim_class" (str "RuntimeChecked") (
                      field "source_repo" (str t.source_repo) (
                        field "source_commit" (str t.source_commit)
                          (field signature_field (str genesis_hash) end)))))))))))

  unfoldable pub seal_trace : Fields → Fields
  seal_trace trace =
      let h = str (compute_trace_hash trace) in put signature_field h (put "trace_hash" h trace)

  abbrev workflow_or : Option String → Fields → String
  workflow_or none first = text_or "observation.batch" (get "runtime_ref" first)
  workflow_or (some id) first =
      if id == "" then text_or "observation.batch" (get "runtime_ref" first) else id

  unfoldable pub compile_ordered : Option String → List Fields → Result RuntimeError Fields
  compile_ordered workflow [] = err (invalid_trace "observations must be non-empty" "observations")
  compile_ordered workflow (first ∷ rest) = do
    trace_id ← require_text "trace_id" first
    require_trace_id trace_id rest
    events ← compile_chain genesis_hash (first ∷ rest)
    validate_denied_observations_preserved 0 (first ∷ rest) events
    assert_claim_class_allowed "RuntimeChecked" false
    repo ← require_text "source_repo" first
    commit ← require_text "source_commit" first
    ok (
        seal_trace (
          trace_record (record {
            trace_id = trace_id;
            workflow_id = workflow_or workflow first;
            events = events;
            source_repo = repo;
            source_commit = commit;
          })))

  abbrev is_empty : List Fields → Bool
  is_empty [] = true
  is_empty (o ∷ os) = false

  unfoldable pub compile_runtime_observations_to_pfcore_trace :
      Option String → List Fields → Result RuntimeError Fields
  unfolding sort_observations require_all_valid compile_ordered
  compile_runtime_observations_to_pfcore_trace workflow observations =
      raise_if (is_empty observations)
        (invalid_trace "observations must be non-empty" "observations")
      >> require_all_valid observations
      >> (do ordered ← sort_observations observations; compile_ordered workflow ordered)
