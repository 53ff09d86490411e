-- ===== src/Runtime/Compile/Valid.antt =====
-- A trace compiled from observations passes the hash-chain validation.
use pcs_core.Prelude.{
  ℕ, suc, String, List, [], ◌∷◌, ◌≡◌, refl, sym, ap, subst, ◌∙◌, Option, false, ◌==◌, eq_refl,
  Result, ok, err, ◌>>◌, bind_ok,
}
use pcs_core.Json.{str, arr, obj, Items, Fields, to_list}
use pcs_core.Json.Dict.{get, put, get-put_self, get-put, without-put}
use pcs_core.Json.Text.{text_or, str_of}
use pcs_core.Host.{Host}
use pcs_core.Hash.{signature_field, canonical_hash_legacy}
use pcs_core.Runtime.{RuntimeError, genesis_hash, normalize_hash}
use pcs_core.Runtime.Action.{validate_resource_scope, assert_claim_class_allowed}
use pcs_core.Runtime.Action.Scope.{validate_action-scope, validate_resource_scope_iff}
use pcs_core.Runtime.Event.{
  compute_event_hash, compute_trace_hash, compile_runtime_observation_to_event, require_text,
}
use pcs_core.Runtime.Event.Sealing.{
  get-seal, hash_field-seal, text-seal_hash, compute_event_hash-seal, normalize-event_hash,
  text_or-event_hash, normalize-trace_hash,
}
use pcs_core.Runtime.Event.Decision.{compile_observation-Compiled}
use pcs_core.Runtime.Chain.{
  scope_errors, scope_path, hash_field, previous_field, validate_pfcore_trace_hash_chain,
}
use pcs_core.Runtime.Chain.Meaning.{IsChained, last, next, chain_errors_iff}
use pcs_core.Runtime.Compile.{
  TraceParts, event_items, link, hash_of, compile_chain, trace_record, seal_trace, compile_ordered,
  require_trace_id, validate_denied_observations_preserved,
  compile_runtime_observations_to_pfcore_trace, sort_observations,
}

pub rest_ok :
    (m : Result RuntimeError (Unit {0})) (k : Result RuntimeError Fields) (t : Fields)
    → (m >> k) ≡ ok t
    → k ≡ ok t
rest_ok (ok u) k t h = h
rest_ok (err e) k t h = cc

pub list_inj :
    {a b : List Fields} → ◌≡◌ {A = Result RuntimeError (List Fields)} (ok a) (ok b) → a ≡ b
list_inj h = cc

module _ ⦃py : Host⦄ where
  -- A hash in normal form, which is not empty.
  pub record IsNormal (h : String) : Type 0 where
    pub reads : text_or "" (str h) ≡ h
    pub normal : normalize_hash h ≡ ok h

  pub genesis-IsNormal : IsNormal genesis_hash
  unfolding str_of normalize_hash
  genesis-IsNormal = record { reads = refl; normal = refl }

  pub link-previous :
      (previous : String) (event : Fields)
      → IsNormal previous
      → previous_field (link previous event) ≡ ok previous
  unfolding link
  link-previous previous event n =
      ap (λ v. normalize_hash (text_or "" v))
        (get-seal "previous_event_hash" (put "previous_event_hash" (str previous) event) refl refl
          ∙ get-put_self "previous_event_hash" (str previous) event)
      ∙ ap normalize_hash n.reads
      ∙ n.normal

  pub link-hash :
      (previous : String) (event : Fields)
      → hash_field (link previous event) ≡ ok (compute_event_hash (link previous event))
  unfolding link
  link-hash previous event = hash_field-seal (put "previous_event_hash" (str previous) event)

  pub hash_of-link :
      (previous : String) (event : Fields)
      → hash_of (link previous event) ≡ compute_event_hash (link previous event)
  unfolding link
  hash_of-link previous event =
      text-seal_hash (put "previous_event_hash" (str previous) event)
      ∙ sym (compute_event_hash-seal (put "previous_event_hash" (str previous) event))

  pub event_hash-IsNormal : (event : Fields) → IsNormal (compute_event_hash event)
  event_hash-IsNormal event = record {
    reads = text_or-event_hash event;
    normal = normalize-event_hash event;
  }

  compile_chain-IsChained :
      (previous : String) (os es : List Fields)
      → IsNormal previous
      → compile_chain previous os ≡ ok es
      → IsChained previous (to_list (event_items es))
  unfolding compile_chain
  compile_chain-IsChained previous [] es n h =
      subst (λ l. IsChained previous (to_list (event_items l))) (list_inj h) (last previous)
  compile_chain-IsChained previous (o ∷ os) es n h =
      let (event, _, h₁) = bind_ok (compile_runtime_observation_to_event o) _ h in
      let linked = link previous event in
      let (rest, compiled, h₂) = bind_ok (compile_chain (hash_of linked) os) _ h₁ in
      let e = hash_of-link previous event in
      let normal : IsNormal (hash_of linked) =
        subst IsNormal (sym e) (event_hash-IsNormal linked) in
      subst (λ l. IsChained previous (to_list (event_items l))) (list_inj h₂)
        (next (link-previous previous event n) (link-hash previous event) (
          subst (λ x. IsChained x (to_list (event_items rest))) e
            (compile_chain-IsChained (hash_of linked) os rest normal compiled)))

  link-action :
      (previous : String) (event : Fields) → get "action" (link previous event) ≡ get "action" event
  unfolding link
  link-action previous event =
      get-seal "action" (put "previous_event_hash" (str previous) event) refl refl
      ∙ get-put "previous_event_hash" "action" (str previous) event

  compile_chain-in_scope :
      (i : ℕ) (previous : String) (os es : List Fields)
      → compile_chain previous os ≡ ok es
      → scope_errors i (to_list (event_items es)) ≡ []
  unfolding compile_chain scope_errors
  compile_chain-in_scope i previous [] es h =
      subst (λ l. scope_errors i (to_list (event_items l)) ≡ []) (list_inj h) refl
  compile_chain-in_scope i previous (o ∷ os) es h =
      let (event, made, h₁) = bind_ok (compile_runtime_observation_to_event o) _ h in
      let linked = link previous event in
      let (rest, compiled, h₂) = bind_ok (compile_chain (hash_of linked) os) _ h₁ in
      let c = compile_observation-Compiled o event made in
      let at : get "action" linked ≡ obj c.action = link-action previous event ∙ c.has_action in
      let fits : validate_resource_scope (scope_path i) c.action ≡ ok tt =
        (validate_resource_scope_iff (scope_path i) c.action).1
          (validate_action-scope "action" c.raw c.action c.checked) in
      subst (λ l. scope_errors i (to_list (event_items l)) ≡ []) (list_inj h₂)
        (rw (at, fits) (compile_chain-in_scope (suc i) (hash_of linked) os rest compiled))

  -- What makes the whole validation silent.
  pub silent :
      (trace : Fields) (items : Items) (h claim : String)
      → get "events" trace ≡ arr items
      → get "trace_hash" trace ≡ str h
      → get "claim_class" trace ≡ str claim
      → normalize_hash h ≡ ok (compute_trace_hash trace)
      → claim ≡ "RuntimeChecked"
      → IsChained genesis_hash (to_list items)
      → scope_errors 0 (to_list items) ≡ []
      → validate_pfcore_trace_hash_chain trace ≡ []
  unfolding validate_pfcore_trace_hash_chain assert_claim_class_allowed
  silent trace items h claim events hash class normal checked chained scoped =
      rw
        (
          events,
          (chain_errors_iff genesis_hash 0 (to_list items)).1 chained,
          hash,
          class,
          normal,
          eq_refl (compute_trace_hash trace),
          checked,
          scoped,
        )
        refl

  pub trace_hash_of_seal :
      (trace : Fields) → get "trace_hash" (seal_trace trace) ≡ str (compute_trace_hash trace)
  unfolding seal_trace
  trace_hash_of_seal trace =
      get-put signature_field "trace_hash" _ _ ∙ get-put_self "trace_hash" _ trace

  pub compute_trace_hash-seal :
      (trace : Fields) → compute_trace_hash (seal_trace trace) ≡ compute_trace_hash trace
  unfolding compute_trace_hash seal_trace
  compute_trace_hash-seal trace = ap canonical_hash_legacy (
      without-put ("trace_hash" ∷ signature_field ∷ []) signature_field _ _ refl
      ∙ without-put ("trace_hash" ∷ signature_field ∷ []) "trace_hash" _ trace refl)

  pub get-seal_trace :
      (k : String) (trace : Fields)
      → (signature_field == k) ≡ false
      → ("trace_hash" == k) ≡ false
      → get k (seal_trace trace) ≡ get k trace
  unfolding seal_trace
  get-seal_trace k trace s e =
      get-put signature_field k _ _ ∙ rw s (get-put "trace_hash" k _ trace ∙ rw e refl)

  sealed_trace_silent :
      (t : TraceParts)
      → IsChained genesis_hash (to_list (event_items t.events))
      → scope_errors 0 (to_list (event_items t.events)) ≡ []
      → validate_pfcore_trace_hash_chain (seal_trace (trace_record t)) ≡ []
  unfolding trace_record get
  sealed_trace_silent t chained scoped =
      let rec = trace_record t in
      silent (seal_trace rec) (event_items t.events) (compute_trace_hash rec) "RuntimeChecked"
        (get-seal_trace "events" rec refl refl) (trace_hash_of_seal rec)
        (get-seal_trace "claim_class" rec refl refl)
        (normalize-trace_hash rec ∙ ap ok (sym (compute_trace_hash-seal rec))) refl chained scoped

  pub fields_inj : {a b : Fields} → ◌≡◌ {A = Result RuntimeError Fields} (ok a) (ok b) → a ≡ b
  fields_inj h = cc

  compile_ordered-valid :
      (workflow : Option String) (os : List Fields) (trace : Fields)
      → compile_ordered workflow os ≡ ok trace
      → validate_pfcore_trace_hash_chain trace ≡ []
  unfolding compile_ordered
  compile_ordered-valid workflow [] trace h = cc
  compile_ordered-valid workflow (first ∷ rest) trace h =
      let (trace_id, _, h₁) = bind_ok (require_text "trace_id" first) _ h in
      let (u, _, h₂) = bind_ok (require_trace_id trace_id rest) _ h₁ in
      let (events, compiled, h₃) = bind_ok (compile_chain genesis_hash (first ∷ rest)) _ h₂ in
      let (u', _, h₄) =
        bind_ok (validate_denied_observations_preserved 0 (first ∷ rest) events) _ h₃ in
      let (u'', _, h₅) = bind_ok (assert_claim_class_allowed "RuntimeChecked" false) _ h₄ in
      let (repo, _, h₆) = bind_ok (require_text "source_repo" first) _ h₅ in
      let (commit, _, h₇) = bind_ok (require_text "source_commit" first) _ h₆ in
      subst (λ t. validate_pfcore_trace_hash_chain t ≡ []) (fields_inj h₇)
        (sealed_trace_silent _
          (compile_chain-IsChained genesis_hash (first ∷ rest) events genesis-IsNormal compiled)
          (compile_chain-in_scope 0 genesis_hash (first ∷ rest) events compiled))

  -- A trace that is compiled from runtime observations passes the hash-chain validation without an
  -- error: chain, trace hash, claim class and resource scope.
  pub compile_observations-valid :
      (workflow : Option String) (observations : List Fields) (trace : Fields)
      → compile_runtime_observations_to_pfcore_trace workflow observations ≡ ok trace
      → validate_pfcore_trace_hash_chain trace ≡ []
  unfolding compile_runtime_observations_to_pfcore_trace
  compile_observations-valid workflow observations trace h =
      let (ordered, _, h₂) = bind_ok (sort_observations observations) _ (rest_ok _ _ trace h) in
      compile_ordered-valid workflow ordered trace h₂
