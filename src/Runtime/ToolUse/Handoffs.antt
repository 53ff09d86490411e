-- ===== src/Runtime/ToolUse/Handoffs.antt =====
-- _handoff_to_event of pf_core_runtime.py and the loop over the handoffs of a tool-use trace.
use Prim.Native.String.{◌++◌}
use pcs_core.Prelude.{
  ℕ, suc, ◌+◌, String, List, [], ◌∷◌, Option, none, some, Result, ok, err, ◌>>=◌, ◌>>◌,
}
use pcs_core.Prelude.Int.{pos}
use pcs_core.Json.{Value, int, obj, Fields, end, as_dict, as_list}
use pcs_core.Json.Dict.{lookup, get}
use pcs_core.Json.Text.{str_of, text_or, decimal}
use pcs_core.Host.{Host}
use pcs_core.Catalog.{Capability}
use pcs_core.Runtime.{RuntimeError, genesis_hash, handoff_authority_expansion}
use pcs_core.Runtime.Principal.{iterate_key, validate_principal, validate_handoff_authority}
use pcs_core.Runtime.Action.{validate_action}
use pcs_core.Runtime.Event.{require_text, require_schema_valid, true_texts, finalize_event}
use pcs_core.Runtime.Compile.{hash_of}
use pcs_core.Runtime.ToolUse.{ToolContext, reading_action, one_resource}

module _ ⦃py : Host⦄ where
  abbrev first_or_end : List Value → Fields
  first_or_end (obj first ∷ rest) = first
  first_or_end _ = end

  -- The first of the delegated capabilities, which are a list that is not empty.
  abbrev pub first_delegated : Option (List Value) → Result RuntimeError Fields
  first_delegated (some (v ∷ vs)) = ok (first_or_end (v ∷ vs))
  first_delegated _ = err (handoff_authority_expansion "<missing>" "delegated_capabilities")

  abbrev pub target_id : Option Fields → String
  target_id none = "agent-unknown"
  target_id (some to) = text_or "agent-unknown" (get "principal_id" to)

  -- `handoff.get("handoff_id", sequence)` as a text
  abbrev pub handoff_id_or : ℕ → Option Value → String
  handoff_id_or sequence none = decimal sequence
  handoff_id_or sequence (some v) = str_of v

  abbrev pub delegated_capability : Fields → Capability
  delegated_capability first = record {
    capability_id = text_or "cap:handoff" (get "capability_id" first);
    effect_kind = text_or "handoff.delegate" (get "effect_kind" first);
    resource_pattern = text_or "agent:*" (get "resource_pattern" first);
  }

  -- _handoff_to_event
  unfoldable pub handoff_to_event :
      ToolContext
      → String
      → String
      → String
      → ℕ
      → String
      → String
      → Fields
      → Result RuntimeError Fields
  handoff_to_event c trace_id repo commit sequence timestamp previous handoff = do
    require_schema_valid handoff "PFCoreHandoff.v0"
    validate_handoff_authority handoff
    principal ← validate_principal "from_principal" (get "from_principal" handoff)
    first ← first_delegated (as_list (get "delegated_capabilities" handoff))
    action ← validate_action "handoffs.action" (
        reading_action ("act-" ++ handoff_id_or sequence (lookup "handoff_id" handoff))
          "handoff.delegate" (delegated_capability first)
          (one_resource ("res-handoff-" ++ decimal sequence)
            ("agent:" ++ target_id (as_dict (get "to_principal" handoff)))
            (str_of (get "tenant" principal)))
          genesis_hash genesis_hash)
    refs ← iterate_key "evidence_refs" handoff
    finalize_event (record {
      trace_id = trace_id;
      event_id = text_or ("handoff-" ++ decimal sequence) (get "handoff_id" handoff);
      sequence = int (pos sequence);
      timestamp = timestamp;
      principal = principal;
      action = action;
      decision = "allow";
      decision_reason = text_or "handoff" (get "reason" handoff);
      contract_refs = c.policy_id ∷ [];
      evidence_refs = true_texts refs;
      previous_event_hash = previous;
      source_repo = repo;
      source_commit = commit;
    })

  -- The loop over the handoffs; `count` is the length of the list of events so far, which grows with
  -- every handoff, and `offset` the index of the handoff.
  unfoldable pub handoff_events :
      ToolContext → String → ℕ → ℕ → List Value → Result RuntimeError (List Fields)
  unfolding handoff_to_event
  handoff_events c previous count offset [] = ok []
  handoff_events c previous count offset (obj handoff ∷ rest) = do
    trace_id ← require_text "trace_id" c.trace
    repo ← require_text "source_repo" c.trace
    commit ← require_text "source_commit" c.trace
    event ←
        handoff_to_event c trace_id repo commit (count + offset)
          (text_or (text_or "" (get "completed_at" c.trace)) (get "timestamp" handoff)) previous
          handoff
    events ← handoff_events c (hash_of event) (suc count) (suc offset) rest
    ok (event ∷ events)
  handoff_events c previous count offset (_ ∷ rest) =
      handoff_events c previous count (suc offset) rest
