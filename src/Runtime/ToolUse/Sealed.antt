-- ===== src/Runtime/ToolUse/Sealed.antt =====
-- Every event compiled from a tool call or a handoff takes its place in the chain.
use pcs_core.Prelude.{ℕ, String, ◌≡◌, refl, sym, ap, subst, ◌∙◌, Result, ok, bind_ok}
use pcs_core.Json.{Value, obj, Fields, as_dict, as_list}
use pcs_core.Json.Dict.{get, lookup}
use pcs_core.Json.Text.{text_or, str_of, decimal}
use Prim.Native.String.{◌++◌ as str_append}
use pcs_core.Runtime.Principal.{iterate_key, validate_principal}
use pcs_core.Host.{Host}
use pcs_core.Runtime.{RuntimeError, genesis_hash, normalize_hash}
use pcs_core.Runtime.Action.{validate_action, validate_capability, capability_dict}
use pcs_core.Runtime.Action.Scope.{ScopeOf, validate_action-scope}
use pcs_core.Runtime.Event.{
  compute_event_hash, EventParts, event_record, seal_event, finalize_event, require_text, decide,
}
use pcs_core.Runtime.Event.Sealing.{
  get-seal, hash_field-seal, text-seal_hash, compute_event_hash-seal,
}
use pcs_core.Runtime.Chain.{hash_field, previous_field}
use pcs_core.Runtime.Compile.{hash_of}
use pcs_core.Runtime.Compile.Valid.{IsNormal, event_hash-IsNormal, rest_ok, fields_inj}
use pcs_core.Runtime.ToolUse.{
  ToolContext, ToolAction, resolve_tool_mapping, replace_star, reading_action, one_resource,
  known_authorization, authorization_decision, agent_principal, tool_call_to_action, decide_action,
  tool_call_event,
}
use pcs_core.Runtime.ToolUse.Handoffs.{
  first_delegated, target_id, handoff_id_or, delegated_capability, handoff_to_event,
}

text_inj : {a b : String} → ◌≡◌ {A = Result RuntimeError String} (ok a) (ok b) → a ≡ b
text_inj h = cc

action_inj : {a b : ToolAction} → ◌≡◌ {A = Result RuntimeError ToolAction} (ok a) (ok b) → a ≡ b
action_inj h = cc

module _ ⦃py : Host⦄ where
  -- An event in its place in the chain, whose action lies within its capability.
  pub record Sealed (previous : String) (event : Fields) : Type 0 where
    pub states : previous_field event ≡ ok previous
    pub hashes : hash_field event ≡ ok (compute_event_hash event)
    pub named : hash_of event ≡ compute_event_hash event
    pub action : Fields
    pub has_action : get "action" event ≡ obj action
    pub fits : ScopeOf action (as_dict (get "capability" action))

  record-Sealed :
      (e : EventParts) (previous : String)
      → IsNormal previous
      → ScopeOf e.action (as_dict (get "capability" e.action))
      → Sealed previous (seal_event (event_record e previous))
  unfolding event_record get
  record-Sealed e previous n fits =
      let body = event_record e previous in
      record {
        states =
            ap previous_of (get-seal "previous_event_hash" body refl refl)
            ∙ ap normalize_hash n.reads
            ∙ n.normal;
        hashes = hash_field-seal body;
        named = text-seal_hash body ∙ sym (compute_event_hash-seal body);
        action = e.action;
        has_action = get-seal "action" body refl refl;
        fits = fits;
      }
    where
      previous_of : Value → Result RuntimeError String
      previous_of v = normalize_hash (text_or "" v)

  finalize-Sealed :
      (e : EventParts) (event : Fields)
      → finalize_event e ≡ ok event
      → IsNormal e.previous_event_hash
      → ScopeOf e.action (as_dict (get "capability" e.action))
      → Sealed e.previous_event_hash event
  unfolding finalize_event
  finalize-Sealed e event h n fits =
      let (p, normal, made) =
        bind_ok (normalize_hash e.previous_event_hash) _ (rest_ok _ _ event h) in
      let same : e.previous_event_hash ≡ p = text_inj (sym n.normal ∙ normal) in
      subst (Sealed e.previous_event_hash)
        (ap (λ x. seal_event (event_record e x)) same ∙ fields_inj made)
        (record-Sealed e e.previous_event_hash n fits)

  decide_action-scope :
      (c : ToolContext) (auth : String) (raw : Fields) (acted : ToolAction)
      → decide_action c auth raw ≡ ok acted
      → ScopeOf acted.action (as_dict (get "capability" acted.action))
  unfolding decide_action
  decide_action-scope c auth raw acted h =
      let (asked, _, h₁) = bind_ok (known_authorization auth (authorization_decision auth)) _ h in
      let (_, _, h₂) = bind_ok (decide asked (agent_principal c) raw) _ h₁ in
      let (action, valid, made) = bind_ok (validate_action "action" raw) _ h₂ in
      subst (λ a. ScopeOf a (as_dict (get "capability" a))) (ap (λ t. t.action) (action_inj made))
        (validate_action-scope "action" raw action valid)

  tool_call_to_action-scope :
      (c : ToolContext) (call : Fields) (acted : ToolAction)
      → tool_call_to_action c call ≡ ok acted
      → ScopeOf acted.action (as_dict (get "capability" acted.action))
  unfolding tool_call_to_action
  tool_call_to_action-scope c call acted h =
      let (name, _, h₁) = bind_ok (require_text "tool_name" call) _ h in
      let (category, _, h₂) = bind_ok (require_text "tool_category" call) _ h₁ in
      let (mapped, _, h₃) = bind_ok (resolve_tool_mapping name category) _ h₂ in
      let (_, _, h₄) =
        bind_ok (validate_capability "tool_calls.capability" (capability_dict mapped)) _ h₃ in
      let (event_id, _, h₅) = bind_ok (require_text "event_id" call) _ h₄ in
      let (input, _, h₆) = bind_ok (require_text "input_hash" call) _ h₅ in
      let (output, _, h₇) = bind_ok (require_text "output_hash" call) _ h₆ in
      let uri = text_or (replace_star mapped.resource_pattern) (get "resource_uri" call) in
      let raw =
        reading_action (str_append "act-" event_id) name mapped
          (one_resource (str_append "res-" event_id) uri c.tenant) input output in
      decide_action-scope c (text_or "" (get "authorization_status" call)) raw acted h₇

  pub tool_call_event-Sealed :
      (c : ToolContext) (previous : String) (index : ℕ) (call event : Fields)
      → IsNormal previous
      → tool_call_event c previous index call ≡ ok event
      → Sealed previous event
  unfolding tool_call_event
  tool_call_event-Sealed c previous index call event n h =
      let (acted, did, h₁) = bind_ok (tool_call_to_action c call) _ h in
      let (_, _, h₂) = bind_ok (require_text "trace_id" c.trace) _ h₁ in
      let (_, _, h₃) = bind_ok (require_text "event_id" call) _ h₂ in
      let (_, _, h₄) = bind_ok (require_text "timestamp" call) _ h₃ in
      let (_, _, h₅) = bind_ok (iterate_key "policy_refs" call) _ h₄ in
      let (_, _, h₆) = bind_ok (require_text "source_repo" c.trace) _ h₅ in
      let (_, _, h₇) = bind_ok (require_text "source_commit" c.trace) _ h₆ in
      finalize-Sealed _ event h₇ n (tool_call_to_action-scope c call acted did)

  pub handoff_to_event-Sealed :
      (c : ToolContext) (trace_id repo commit : String) (sequence : ℕ) (timestamp previous : String)
      (handoff event : Fields)
      → IsNormal previous
      → handoff_to_event c trace_id repo commit sequence timestamp previous handoff ≡ ok event
      → Sealed previous event
  unfolding handoff_to_event
  handoff_to_event-Sealed c trace_id repo commit sequence timestamp previous handoff event n h =
      let h₀ = rest_ok _ _ event (rest_ok _ _ event h) in
      let (principal, _, h₁) =
        bind_ok (validate_principal "from_principal" (get "from_principal" handoff)) _ h₀ in
      let (first, _, h₂) =
        bind_ok (first_delegated (as_list (get "delegated_capabilities" handoff))) _ h₁ in
      let raw =
        reading_action (str_append "act-" (handoff_id_or sequence (lookup "handoff_id" handoff)))
          "handoff.delegate" (delegated_capability first)
          (one_resource (str_append "res-handoff-" (decimal sequence))
            (str_append "agent:" (target_id (as_dict (get "to_principal" handoff))))
            (str_of (get "tenant" principal)))
          genesis_hash genesis_hash in
      let (action, valid, h₃) = bind_ok (validate_action "handoffs.action" raw) _ h₂ in
      let (_, _, h₄) = bind_ok (iterate_key "evidence_refs" handoff) _ h₃ in
      finalize-Sealed _ event h₄ n (validate_action-scope "handoffs.action" raw action valid)

  pub Sealed-IsNormal :
      (previous : String) (event : Fields) → Sealed previous event → IsNormal (hash_of event)
  Sealed-IsNormal previous event s = subst IsNormal (sym s.named) (event_hash-IsNormal event)
