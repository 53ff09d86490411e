-- ===== src/Runtime/ToolUse/Valid.antt =====
-- A trace compiled from tool use passes the hash-chain validation.
use mathlib.Core.List.{◌++◌ as append}
use pcs_core.Prelude.{
  ℕ, suc, ◌+◌, String, List, [], ◌∷◌, ◌≡◌, refl, sym, ap, subst, ◌∙◌, length, ok, bind_ok,
}
use pcs_core.Json.{Value, obj, Fields, to_list, as_list}
use pcs_core.Json.Dict.{get}
use pcs_core.Json.Text.{text_or}
use pcs_core.Host.{Host}
use pcs_core.Runtime.{genesis_hash}
use pcs_core.Runtime.Action.Scope.{validate_resource_scope_iff}
use pcs_core.Runtime.Event.{compute_trace_hash, require_text}
use pcs_core.Runtime.Event.Sealing.{normalize-trace_hash}
use pcs_core.Runtime.Chain.{scope_errors, scope_path, validate_pfcore_trace_hash_chain}
use pcs_core.Runtime.Chain.Meaning.{IsChained, last, next}
use pcs_core.Runtime.Compile.{event_items, hash_of, seal_trace}
use pcs_core.Runtime.Compile.Valid.{
  IsNormal, genesis-IsNormal, get-seal_trace, trace_hash_of_seal, compute_trace_hash-seal, silent,
  rest_ok, list_inj, fields_inj,
}
use pcs_core.Runtime.ToolUse.{ToolContext, tool_call_event, tool_call_events}
use pcs_core.Runtime.ToolUse.Handoffs.{handoff_to_event, handoff_events}
use pcs_core.Runtime.ToolUse.Compiler.{
  handoff_list, call_list, first_tenant, last_hash, tool_use_events, ToolTraceParts,
  tool_trace_record, compile_tool_use_trace_to_pfcore_trace,
}
use pcs_core.Runtime.ToolUse.Sealed.{
  Sealed, tool_call_event-Sealed, handoff_to_event-Sealed, Sealed-IsNormal,
}

module _ ⦃py : Host⦄ where
  data SealedChain : String → List Fields → Type 0 where
    no_more : (previous : String) → SealedChain previous []
    one_more :
        {previous : String} {event : Fields} {rest : List Fields}
        → Sealed previous event
        → SealedChain (hash_of event) rest
        → SealedChain previous (event ∷ rest)

  calls-SealedChain :
      (c : ToolContext) (previous : String) (index : ℕ) (calls : List Value) (events : List Fields)
      → IsNormal previous
      → tool_call_events c previous index calls ≡ ok events
      → SealedChain previous events
  unfolding tool_call_events
  calls-SealedChain c previous index [] events n h =
      subst (SealedChain previous) (list_inj h) (no_more previous)
  calls-SealedChain c previous index (obj call ∷ rest) events n h =
      let (event, made, h₁) = bind_ok (tool_call_event c previous index call) _ h in
      let s = tool_call_event-Sealed c previous index call event n made in
      let (later, compiled, h₂) =
        bind_ok (tool_call_events c (hash_of event) (suc index) rest) _ h₁ in
      subst (SealedChain previous) (list_inj h₂) (
        one_more s (
          calls-SealedChain c (hash_of event) (suc index) rest later
            (Sealed-IsNormal previous event s) compiled))
  calls-SealedChain c previous index (_ ∷ rest) events n h =
      calls-SealedChain c previous (suc index) rest events n h

  handoffs-SealedChain :
      (c : ToolContext) (previous : String) (count offset : ℕ) (handoffs : List Value)
      (events : List Fields)
      → IsNormal previous
      → handoff_events c previous count offset handoffs ≡ ok events
      → SealedChain previous events
  unfolding handoff_events
  handoffs-SealedChain c previous count offset [] events n h =
      subst (SealedChain previous) (list_inj h) (no_more previous)
  handoffs-SealedChain c previous count offset (obj handoff ∷ rest) events n h =
      let (trace_id, _, h₁) = bind_ok (require_text "trace_id" c.trace) _ h in
      let (repo, _, h₂) = bind_ok (require_text "source_repo" c.trace) _ h₁ in
      let (commit, _, h₃) = bind_ok (require_text "source_commit" c.trace) _ h₂ in
      let timestamp = text_or (text_or "" (get "completed_at" c.trace)) (get "timestamp" handoff) in
      let (event, made, h₄) =
        bind_ok
          (handoff_to_event c trace_id repo commit (count + offset) timestamp previous handoff) _
          h₃ in
      let s =
        handoff_to_event-Sealed c trace_id repo commit (count + offset) timestamp previous handoff
          event n made in
      let (later, compiled, h₅) =
        bind_ok (handoff_events c (hash_of event) (suc count) (suc offset) rest) _ h₄ in
      subst (SealedChain previous) (list_inj h₅) (
        one_more s (
          handoffs-SealedChain c (hash_of event) (suc count) (suc offset) rest later
            (Sealed-IsNormal previous event s) compiled))
  handoffs-SealedChain c previous count offset (_ ∷ rest) events n h =
      handoffs-SealedChain c previous count (suc offset) rest events n h

  last_hash-IsNormal :
      (previous : String) (es : List Fields)
      → IsNormal previous
      → SealedChain previous es
      → IsNormal (last_hash previous es)
  unfolding last_hash
  last_hash-IsNormal previous es n (no_more _) = n
  last_hash-IsNormal previous es n (one_more {event} s r) =
      last_hash-IsNormal _ _ (Sealed-IsNormal previous event s) r

  append-SealedChain :
      (previous : String) (xs ys : List Fields)
      → SealedChain previous xs
      → SealedChain (last_hash previous xs) ys
      → SealedChain previous (append xs ys)
  unfolding last_hash
  append-SealedChain previous xs ys (no_more _) r = r
  append-SealedChain previous xs ys (one_more s later) r =
      one_more s (append-SealedChain _ _ ys later r)

  SealedChain-IsChained :
      (previous : String) (es : List Fields)
      → SealedChain previous es
      → IsChained previous (to_list (event_items es))
  SealedChain-IsChained previous es (no_more _) = last previous
  SealedChain-IsChained previous es (one_more {event} {rest} s r) = next s.states s.hashes (
      subst (λ x. IsChained x (to_list (event_items rest))) s.named
        (SealedChain-IsChained _ rest r))

  SealedChain-in_scope :
      (i : ℕ) (previous : String) (es : List Fields)
      → SealedChain previous es
      → scope_errors i (to_list (event_items es)) ≡ []
  unfolding scope_errors
  SealedChain-in_scope i previous es (no_more _) = refl
  SealedChain-in_scope i previous es (one_more {event} {rest} s r) =
      rw (s.has_action, (validate_resource_scope_iff (scope_path i) s.action).1 s.fits)
        (SealedChain-in_scope (suc i) _ rest r)

  tool_use_events-SealedChain :
      (c : ToolContext) (calls handoffs : List Value) (events : List Fields)
      → tool_use_events c calls handoffs ≡ ok events
      → SealedChain genesis_hash events
  unfolding tool_use_events
  tool_use_events-SealedChain c calls handoffs events h =
      let (xs, called, h₁) = bind_ok (tool_call_events c genesis_hash 0 calls) _ h in
      let (ys, handed, h₂) =
        bind_ok (handoff_events c (last_hash genesis_hash xs) (length xs) 0 handoffs) _ h₁ in
      let first = calls-SealedChain c genesis_hash 0 calls xs genesis-IsNormal called in
      let second =
        handoffs-SealedChain c (last_hash genesis_hash xs) (length xs) 0 handoffs ys
          (last_hash-IsNormal genesis_hash xs genesis-IsNormal first) handed in
      subst (SealedChain genesis_hash) (list_inj h₂)
        (append-SealedChain genesis_hash xs ys first second)

  sealed_tool_trace_silent :
      (t : ToolTraceParts)
      → SealedChain genesis_hash t.events
      → validate_pfcore_trace_hash_chain (seal_trace (tool_trace_record t)) ≡ []
  unfolding tool_trace_record get
  sealed_tool_trace_silent t chain =
      let rec = tool_trace_record t in
      silent (seal_trace rec) (event_items t.events) (compute_trace_hash rec) "RuntimeChecked"
        (get-seal_trace "events" rec refl refl) (trace_hash_of_seal rec)
        (get-seal_trace "claim_class" rec refl refl)
        (normalize-trace_hash rec ∙ ap ok (sym (compute_trace_hash-seal rec))) refl
        (SealedChain-IsChained genesis_hash t.events chain)
        (SealedChain-in_scope 0 genesis_hash t.events chain)

  -- A trace that is compiled from tool calls and handoffs passes the hash-chain validation without an
  -- error: chain, trace hash, claim class and resource scope.
  pub compile_tool_use-valid :
      (d trace : Fields)
      → compile_tool_use_trace_to_pfcore_trace d ≡ ok trace
      → validate_pfcore_trace_hash_chain trace ≡ []
  unfolding compile_tool_use_trace_to_pfcore_trace
  compile_tool_use-valid d trace h =
      let h₀ = rest_ok _ _ trace (rest_ok _ _ trace h) in
      let (calls, _, h₁) = bind_ok (call_list (as_list (get "tool_calls" d))) _ h₀ in
      let (handoffs, _, h₂) = bind_ok (handoff_list (get "handoffs" d)) _ h₁ in
      let (tenant, _, h₃) = bind_ok (first_tenant calls) _ h₂ in
      let (agent, _, h₄) = bind_ok (require_text "agent_id" d) _ h₃ in
      let (policy, _, h₅) = bind_ok (require_text "policy_id" d) _ h₄ in
      let c : ToolContext = record {
        trace = d;
        tenant = tenant;
        agent_id = agent;
        policy_id = policy;
      } in
      let (events, made, h₆) = bind_ok (tool_use_events c calls handoffs) _ h₅ in
      let h₇ = rest_ok _ _ trace h₆ in
      let (_, _, h₈) = bind_ok (require_text "trace_id" d) _ h₇ in
      let (_, _, h₉) = bind_ok (require_text "workflow_id" d) _ h₈ in
      let (_, _, k) = bind_ok (require_text "policy_hash" d) _ h₉ in
      let (_, _, k₁) = bind_ok (require_text "source_repo" d) _ k in
      let (_, _, k₂) = bind_ok (require_text "source_commit" d) _ k₁ in
      subst (λ t. validate_pfcore_trace_hash_chain t ≡ []) (fields_inj k₂)
        (sealed_tool_trace_silent _ (tool_use_events-SealedChain c calls handoffs events made))
