-- ===== src/Runtime/ToolUse/Compiler.antt =====
-- compile_tool_use_trace_to_pfcore_trace of pf_core_runtime.py.
use mathlib.Core.List.{◌++◌ as append}
use pcs_core.Prelude.{
  String, List, [], ◌∷◌, Option, none, some, Bool, true, false, not, ◌==◌, if◌then◌else◌, elem,
  length, Result, ok, err, ◌>>=◌, ◌>>◌, raise_if,
}
use pcs_core.Json.{Value, null, str, arr, obj, Fields, end, field, as_list, to_list}
use pcs_core.Json.Dict.{get}
use pcs_core.Json.Text.{str_of, text_or}
use pcs_core.Host.{Host}
use pcs_core.Hash.{signature_field}
use pcs_core.Runtime.{RuntimeError, genesis_hash, invalid_trace, type_error, dropped_denied_event}
use pcs_core.Runtime.Action.{assert_claim_class_allowed}
use pcs_core.Runtime.Tenant.{decision_of}
use pcs_core.Runtime.Event.{require_text, require_schema_valid}
use pcs_core.Runtime.Compile.{hash_of, seal_trace, event_items}
use pcs_core.Runtime.ToolUse.{
  default_certificate_mode, ToolContext, tool_call_events, authorization_decision,
}
use pcs_core.Runtime.ToolUse.Handoffs.{handoff_events}

module _ ⦃py : Host⦄ where
  unfoldable pub last_hash : String → List Fields → String
  last_hash previous [] = previous
  last_hash previous (e ∷ es) = last_hash (hash_of e) es

  -- A status that is not in the table counts as denied.
  abbrev pub is_denied : Option String → Bool
  is_denied none = true
  is_denied (some decision) = decision == "deny"

  -- denied_source
  unfoldable pub denied_calls : List Value → List String
  denied_calls [] = []
  denied_calls (obj call ∷ rest) =
      let later = denied_calls rest in
      if is_denied (authorization_decision (str_of (get "authorization_status" call)))
      then str_of (get "event_id" call) ∷ later
      else later
  denied_calls (_ ∷ rest) = denied_calls rest

  -- denied_compiled
  unfoldable pub denied_events : List Fields → List String
  denied_events [] = []
  denied_events (e ∷ es) =
      let later = denied_events es in
      if decision_of e == "deny" then str_of (get "event_id" e) ∷ later else later

  unfoldable pub check_denied : List String → List String → Result RuntimeError (Unit {0})
  check_denied [] compiled = ok tt
  check_denied (id ∷ ids) compiled =
      raise_if (not (elem id compiled)) (dropped_denied_event id "events")
      >> check_denied ids compiled

  abbrev pub handoff_list : Value → Result RuntimeError (List Value)
  handoff_list null = ok []
  handoff_list (arr handoffs) = ok (to_list handoffs)
  handoff_list _ = err (invalid_trace "handoffs must be an array" "handoffs")

  abbrev pub call_list : Option (List Value) → Result RuntimeError (List Value)
  call_list (some (v ∷ vs)) = ok (v ∷ vs)
  call_list _ = err (invalid_trace "tool_calls must be non-empty" "tool_calls")

  -- tool_calls[0].get("tenant") of a first entry that is a dictionary
  abbrev pub first_tenant : List Value → Result RuntimeError String
  first_tenant (obj first ∷ rest) = ok (text_or "default" (get "tenant" first))
  first_tenant _ = err type_error

  pub record ToolTraceParts : Type 0 where
    pub trace_id : String
    pub workflow_id : String
    pub events : List Fields
    pub policy_hash : String
    pub source_repo : String
    pub source_commit : String

  unfoldable pub tool_trace_record : ToolTraceParts → Fields
  tool_trace_record t = field "schema_version" (str "v0") (
      field "artifact_type" (str "PFCoreTrace.v0") (
        field "trace_id" (str t.trace_id) (
          field "workflow_id" (str t.workflow_id) (
            field "events" (arr (event_items t.events)) (
              field "trace_hash" (str genesis_hash) (
                field "policy_hash" (str t.policy_hash) (
                  field "contract_hash" (str genesis_hash) (
                    field "claim_class" (str "RuntimeChecked") (
                      field "required_certificate_mode" (str default_certificate_mode) (
                        field "source_repo" (str t.source_repo) (
                          field "source_commit" (str t.source_commit)
                            (field signature_field (str genesis_hash) end))))))))))))

  -- The events of the calls and then those of the handoffs.
  unfoldable pub tool_use_events :
      ToolContext → List Value → List Value → Result RuntimeError (List Fields)
  unfolding tool_call_events handoff_events last_hash
  tool_use_events c calls handoffs = do
    from_calls ← tool_call_events c genesis_hash 0 calls
    from_handoffs ←
        handoff_events c (last_hash genesis_hash from_calls) (length from_calls) 0 handoffs
    ok (append from_calls from_handoffs)

  unfoldable pub compile_tool_use_trace_to_pfcore_trace : Fields → Result RuntimeError Fields
  unfolding tool_use_events denied_calls denied_events check_denied tool_trace_record
  compile_tool_use_trace_to_pfcore_trace d = do
    require_schema_valid d "ToolUseTrace.v0"
    assert_claim_class_allowed "RuntimeChecked" false
    calls ← call_list (as_list (get "tool_calls" d))
    handoffs ← handoff_list (get "handoffs" d)
    tenant ← first_tenant calls
    agent ← require_text "agent_id" d
    policy ← require_text "policy_id" d
    events ←
        tool_use_events
          (record { trace = d; tenant = tenant; agent_id = agent; policy_id = policy }) calls
          handoffs
    check_denied (denied_calls calls) (denied_events events)
    trace_id ← require_text "trace_id" d
    workflow_id ← require_text "workflow_id" d
    policy_hash ← require_text "policy_hash" d
    repo ← require_text "source_repo" d
    commit ← require_text "source_commit" d
    ok (
        seal_trace (
          tool_trace_record (record {
            trace_id = trace_id;
            workflow_id = workflow_id;
            events = events;
            policy_hash = policy_hash;
            source_repo = repo;
            source_commit = commit;
          })))
