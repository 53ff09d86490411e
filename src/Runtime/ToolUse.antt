-- ===== src/Runtime/ToolUse.antt =====
-- Traces from tool use in pf_core_runtime.py: compile_tool_use_trace_to_pfcore_trace, with the
-- compilation of one tool call and of one handoff, and the check that no denied call is lost.
pub mod Sealed
pub mod Valid
pub mod Kept
pub mod Handoffs
pub mod Compiler
use Prim.Native.String.{◌++◌}
use mathlib.Core.List.{◌++◌ as append}
use pcs_core.Prelude.{
  ℕ, suc, ◌+◌, String, List, [], ◌∷◌, Option, none, some, Bool, true, false, not, ◌&&◌, ◌==◌,
  starts_with, if◌then◌else◌, elem, length, Result, ok, err, ◌>>=◌, ◌>>◌, raise_if,
}
use pcs_core.Prelude.Int.{pos}
use pcs_core.Json.{
  Value, null, int, str, arr, obj, nil, cons, Fields, end, field, texts, as_dict, as_list, to_list,
}
use pcs_core.Json.Dict.{lookup, get}
use pcs_core.Json.Text.{str_of, text_or, decimal}
use pcs_core.Host.{Host}
use pcs_core.Hash.{signature_field}
use pcs_core.Catalog.{Capability, tool_capability}
use pcs_core.Runtime.{
  RuntimeError, genesis_hash, unknown_capability, invalid_decision, invalid_trace, type_error,
  handoff_authority_expansion, dropped_denied_event,
}
use pcs_core.Runtime.Principal.{
  iterate_key, expand_ids, validate_principal, validate_handoff_authority,
}
use pcs_core.Runtime.Action.{
  validate_capability, validate_action, assert_claim_class_allowed, capability_dict,
}
use pcs_core.Runtime.Tenant.{decision_of}
use pcs_core.Runtime.Event.{require_text, require_schema_valid, decide, true_texts, finalize_event}
use pcs_core.Runtime.Compile.{hash_of, seal_trace, event_items}

abbrev pub default_certificate_mode : String
default_certificate_mode = "TraceSafeRCertificate"

-- AUTHORIZATION_TO_DECISION
unfoldable pub authorization_decision : String → Option String
authorization_decision s =
    if s == "authorized"
    then some "allow"
    else if elem s ("rejected" ∷ "unknown" ∷ "policy_missing" ∷ [])
    then some "deny"
    else none

-- The parts of a tool-use trace that every event of it is built with.
pub record ToolContext : Type 0 where
  pub trace : Fields
  pub tenant : String
  pub agent_id : String
  pub policy_id : String

-- pattern.replace("*", "default")
unfoldable pub replace_star : String → String
replace_star String.[] = ""
replace_star (String.◌∷◌ c s) =
    let first = String.◌∷◌ c String.[] in
    (if first == "*" then "default" else first) ++ replace_star s

-- capabilities of a principal with the role "agent" alone
abbrev pub agent_capabilities : List String
agent_capabilities = expand_ids ("agent" ∷ []) []

abbrev pub agent_principal : ToolContext → Fields
agent_principal c = field "principal_id" (str c.agent_id) (
    field "principal_kind" (str "agent") (
      field "tenant" (str c.tenant) (
        field "roles" (arr (texts ("agent" ∷ [])))
          (field "capabilities" (arr (texts agent_capabilities)) end))))

abbrev pub one_effect : String → Value
one_effect kind = arr (cons (obj (field "effect_kind" (str kind) end)) nil)

abbrev pub one_resource : String → String → String → Value
one_resource id uri tenant = arr (
    cons
      (obj (field "resource_id" (str id) (field "uri" (str uri) (field "tenant" (str tenant) end))))
      nil)

pub record ToolAction : Type 0 where
  pub principal : Fields
  pub action : Fields
  pub decision : String

module _ ⦃py : Host⦄ where
  -- The dictionary of an action with one effect, one resource that it reads and nothing written.
  abbrev pub reading_action : String → String → Capability → Value → String → String → Fields
  reading_action id tool cap reads input output = field "action_id" (str id) (
      field "tool_name" (str tool) (
        field "capability" (obj (capability_dict cap)) (
          field "effects" (one_effect cap.effect_kind) (
            field "reads" reads (
              field "writes" (arr nil)
                (field "input_hash" (str input) (field "output_hash" (str output) end)))))))

  -- _resolve_tool_mapping
  unfoldable pub resolve_tool_mapping : String → String → Result RuntimeError Capability
  resolve_tool_mapping name category = elim (tool_capability name category) [
    | none ↦ err (unknown_capability (name ++ ("/" ++ category)) "tool_calls.tool_name")
    | some cap ↦ ok cap
  ]

  abbrev pub known_authorization : String → Option String → Result RuntimeError String
  known_authorization auth none = err (invalid_decision auth "tool_calls.authorization_status")
  known_authorization auth (some decision) = ok decision

  -- The end of _tool_call_to_action: the decision on the action, and its normal form.
  unfoldable pub decide_action : ToolContext → String → Fields → Result RuntimeError ToolAction
  decide_action c auth raw = do
    asked ← known_authorization auth (authorization_decision auth)
    decision ← decide asked (agent_principal c) raw
    action ← validate_action "action" raw
    ok (record { principal = agent_principal c; action = action; decision = decision })

  -- _tool_call_to_action
  unfoldable pub tool_call_to_action : ToolContext → Fields → Result RuntimeError ToolAction
  unfolding resolve_tool_mapping replace_star decide_action
  tool_call_to_action c call = do
    name ← require_text "tool_name" call
    category ← require_text "tool_category" call
    cap ← resolve_tool_mapping name category
    _ ← validate_capability "tool_calls.capability" (capability_dict cap)
    let uri = text_or (replace_star cap.resource_pattern) (get "resource_uri" call)
    event_id ← require_text "event_id" call
    input ← require_text "input_hash" call
    output ← require_text "output_hash" call
    let raw =
        reading_action ("act-" ++ event_id) name cap
          (one_resource ("res-" ++ event_id) uri c.tenant) input output
    decide_action c (text_or "" (get "authorization_status" call)) raw

  -- One pass of the loop over the tool calls.
  unfoldable pub tool_call_event : ToolContext → String → ℕ → Fields → Result RuntimeError Fields
  unfolding tool_call_to_action
  tool_call_event c previous index call = do
    acted ← tool_call_to_action c call
    trace_id ← require_text "trace_id" c.trace
    event_id ← require_text "event_id" call
    timestamp ← require_text "timestamp" call
    refs ← iterate_key "policy_refs" call
    repo ← require_text "source_repo" c.trace
    commit ← require_text "source_commit" c.trace
    finalize_event (record {
      trace_id = trace_id;
      event_id = event_id;
      sequence = int (pos index);
      timestamp = timestamp;
      principal = acted.principal;
      action = acted.action;
      decision = acted.decision;
      decision_reason = text_or "" (get "authorization_status" call);
      contract_refs = c.policy_id ∷ [];
      evidence_refs = true_texts refs;
      previous_event_hash = previous;
      source_repo = repo;
      source_commit = commit;
    })

  unfoldable pub tool_call_events :
      ToolContext → String → ℕ → List Value → Result RuntimeError (List Fields)
  unfolding tool_call_event
  tool_call_events c previous index [] = ok []
  tool_call_events c previous index (obj call ∷ rest) = do
    event ← tool_call_event c previous index call
    events ← tool_call_events c (hash_of event) (suc index) rest
    ok (event ∷ events)
  tool_call_events c previous index (_ ∷ rest) = tool_call_events c previous (suc index) rest

  -- is_tool_use_trace, without the path of the file beside the trace
  unfoldable pub is_tool_use_trace : Fields → Bool
  is_tool_use_trace trace = elim (get "required_certificate_mode" trace) [
    | str mode ↦
        if mode == default_certificate_mode
        then true
        else starts_with (text_or "" (get "workflow_id" trace)) "agent_tool_use"
    | _ ↦ starts_with (text_or "" (get "workflow_id" trace)) "agent_tool_use"
  ]
