-- ===== src/Examples/ToolUses.antt =====
-- Witnesses of the theorems on tool use, replay and contracts, and what the order check says of a
-- trace with two handoffs.
use pcs_core.Prelude.{String, [], ◌∷◌, ◌≡◌, refl, some, ok, true}
use pcs_core.Prelude.Int.{pos}
use pcs_core.Json.{Value, bool, str, arr, obj, Items, nil, cons, Fields, end, field, texts}
use pcs_core.Json.Dict.{get}
use pcs_core.Hash.{zeros}
use pcs_core.Runtime.{genesis_hash}
use pcs_core.Runtime.Chain.{validate_pfcore_trace_hash_chain}
use pcs_core.Runtime.Sequence.{sequence_gap, validate_event_sequence_order}
use pcs_core.Runtime.ToolUse.Compiler.{compile_tool_use_trace_to_pfcore_trace}
use pcs_core.Runtime.ToolUse.Valid.{compile_tool_use-valid}
use pcs_core.Replay.{recompute_pfcore_trace_hashes}
use pcs_core.Replay.Chain.{IsRecomputed, recompute_trace_hashes-IsRecomputed}
use pcs_core.Contract.{
  layer_of, contract_fields_in_use, validate_semantics_layer, field_semantics_layer, default_layer,
}
use pcs_core.Contract.Layers.{validated_layer-default}
use pcs_core.Examples.{demo, ok_or, no_fields, observation}

abbrev tool_call : Fields
tool_call = field "event_id" (str "e-1") (
    field "tool_name" (str "filesystem.read") (
      field "tool_category" (str "filesystem") (
        field "authorization_status" (str "authorized") (
          field "input_hash" (str genesis_hash) (
            field "output_hash" (str genesis_hash)
              (field "timestamp" (str "2024-01-01") (field "tenant" (str "lab") end)))))))

abbrev agent : Fields
agent = field "principal_id" (str "p-2") (field "roles" (arr (texts ("agent" ∷ []))) end)

abbrev handoff : String → Value
handoff id = obj (
    field "handoff_id" (str id) (
      field "from_principal" (obj agent) (
        field "delegated_capabilities"
          (arr (cons (obj (field "capability_id" (str "cap:handoff") end)) nil)) end)))

abbrev pub tool_use : Fields
tool_use = field "agent_id" (str "a-1") (
    field "policy_id" (str "pol-1") (
      field "trace_id" (str "t-1") (
        field "workflow_id" (str "w-1") (
          field "policy_hash" (str genesis_hash) (
            field "source_repo" (str "repo") (
              field "source_commit" (str "c0") (
                field "tool_calls" (arr (cons (obj tool_call) nil)) (
                  field "handoffs" (arr (cons (handoff "h-1") (cons (handoff "h-2") nil)))
                    end))))))))

abbrev tool_trace : Fields
tool_trace = ok_or no_fields (compile_tool_use_trace_to_pfcore_trace ⦃py = demo⦄ tool_use)

tool_compiled : compile_tool_use_trace_to_pfcore_trace ⦃py = demo⦄ tool_use ≡ ok tool_trace
unfolding compile_tool_use_trace_to_pfcore_trace pcs_core.Runtime.Event.require_schema_valid
    pcs_core.Runtime.Action.assert_claim_class_allowed get
    pcs_core.Runtime.ToolUse.authorization_decision pcs_core.Runtime.Event.require_text
    pcs_core.Catalog.tool_capability pcs_core.Runtime.Event.decide
    pcs_core.Runtime.Event.finalize_event pcs_core.Runtime.Event.true_texts
    pcs_core.Runtime.Principal.validate_principal
    pcs_core.Runtime.Principal.validate_handoff_authority pcs_core.Runtime.Principal.iterate_key
    pcs_core.Runtime.Principal.expand_principal_capabilities pcs_core.Runtime.Principal.expand_ids
    pcs_core.Json.Text.is_blank pcs_core.Json.Text.decimal pcs_core.Runtime.Action.validate_action
    pcs_core.Runtime.Action.validate_capability pcs_core.Catalog.lookup_capability
    pcs_core.Json.Text.str_of pcs_core.Runtime.Action.validate_effects
    pcs_core.Runtime.Action.validate_resource_scope pcs_core.Runtime.Glob.resource_matches_pattern
    pcs_core.Json.Dict.put pcs_core.Catalog.role_capabilities pcs_core.Runtime.Tenant.same_tenant
    pcs_core.Runtime.normalize_hash pcs_core.Runtime.Compile.seal_trace
    pcs_core.Runtime.Event.compute_event_hash pcs_core.Hash.canonical_hash_legacy
tool_compiled = refl

tool_use_example : validate_pfcore_trace_hash_chain ⦃py = demo⦄ tool_trace ≡ []
tool_use_example = compile_tool_use-valid ⦃py = demo⦄ tool_use tool_trace tool_compiled

-- One tool call and two handoffs: the second handoff has the sequence 3 after 1.
handoff_gap : validate_event_sequence_order true tool_trace ≡ sequence_gap 2 (pos 1) (pos 3) ∷ []
unfolding validate_event_sequence_order compile_tool_use_trace_to_pfcore_trace
    pcs_core.Runtime.Event.require_schema_valid pcs_core.Runtime.Action.assert_claim_class_allowed
    get pcs_core.Runtime.ToolUse.authorization_decision pcs_core.Runtime.Event.require_text
    pcs_core.Catalog.tool_capability pcs_core.Runtime.Event.decide
    pcs_core.Runtime.Event.finalize_event pcs_core.Runtime.Event.true_texts
    pcs_core.Runtime.Principal.validate_principal
    pcs_core.Runtime.Principal.validate_handoff_authority pcs_core.Runtime.Principal.iterate_key
    pcs_core.Runtime.Principal.expand_principal_capabilities pcs_core.Runtime.Principal.expand_ids
    pcs_core.Json.Text.is_blank pcs_core.Json.Text.decimal pcs_core.Runtime.Action.validate_action
    pcs_core.Runtime.Action.validate_capability pcs_core.Catalog.lookup_capability
    pcs_core.Json.Text.str_of pcs_core.Runtime.Action.validate_effects
    pcs_core.Runtime.Action.validate_resource_scope pcs_core.Runtime.Glob.resource_matches_pattern
    pcs_core.Json.Dict.put pcs_core.Catalog.role_capabilities pcs_core.Runtime.Tenant.same_tenant
    pcs_core.Runtime.normalize_hash pcs_core.Runtime.Compile.seal_trace
    pcs_core.Runtime.Event.compute_event_hash pcs_core.Hash.canonical_hash_legacy
handoff_gap = refl

abbrev pub stale_items : Items
stale_items = cons (obj (observation "e-1" "allow")) (cons (obj (observation "e-2" "deny")) nil)

abbrev pub stale_trace : Fields
stale_trace = field "events" (arr stale_items) end

stale_events : get "events" stale_trace ≡ arr stale_items
unfolding get
stale_events = refl

recompute_example : IsRecomputed ⦃py = demo⦄ (recompute_pfcore_trace_hashes ⦃py = demo⦄ stale_trace)
recompute_example =
    recompute_trace_hashes-IsRecomputed ⦃py = demo⦄ stale_trace stale_items stale_events tt

abbrev contract : Fields
contract =
    field "pre" (obj (field "require_role" (str "agent") end))
      (field "semantics_layer" (obj (field "require_role" (str "runtime") end)) end)

no_issues : validate_semantics_layer contract ≡ []
unfolding validate_semantics_layer get pcs_core.Contract.field_active pcs_core.Json.Text.is_blank
    pcs_core.Contract.set_layer
no_issues = refl

role_used : layer_of "require_role" (contract_fields_in_use contract) ≡ some "pre"
unfolding layer_of contract_fields_in_use pcs_core.Contract.field_active get
    pcs_core.Json.Text.is_blank
role_used = refl

layer_example : field_semantics_layer contract "require_role" ≡ default_layer "require_role"
layer_example = validated_layer-default contract "require_role" "pre" no_issues role_used
