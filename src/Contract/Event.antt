-- ===== src/Contract/Event.antt =====
-- python/pcs_core/pf_core_contract.py: the evaluation of contracts on the events of a trace, and the
-- default contract. An issue carries its code with what its message prints, and its path.
use Prim.Native.String.{◌++◌ as str_append}
use pcs_core.Prelude.{
  ℕ, suc, String, List, [], ◌∷◌, ◌++◌, Option, none, some, Bool, true, false, not, ◌&&◌, ◌==◌,
  if◌then◌else◌, elem, map, when, any, Result, ok, ◌>>=◌,
}
use pcs_core.Json.{Value, bool, str, arr, obj, Fields, end, field, as_dict, as_list, truthy}
use pcs_core.Json.Dict.{get, put}
use pcs_core.Json.Text.{text_or, str_of, indexed}
use pcs_core.Host.{Host}
use pcs_core.Hash.{signature_field, placeholder_digest, canonical_hash_legacy}
use pcs_core.Runtime.{RuntimeError}
use pcs_core.Runtime.Principal.{expand_principal_capabilities}
use pcs_core.Runtime.Tenant.{same_tenant, decision_of}
use pcs_core.Runtime.Event.{capability_id_of}
use pcs_core.Contract.{field_semantics_layer}

pub data IssueKind : Type 0 where
  trace_without_events : IssueKind
  event_without_parties : IssueKind
  unknown_contract : String → IssueKind
  tenant_mismatch : Value → IssueKind
  capability_required : Value → String → IssueKind
  effect_required : Value → String → IssueKind
  role_required : Value → String → IssueKind
  policy_ref_required : Value → String → IssueKind
  evidence_ref_required : Value → String → IssueKind
  decision_mismatch : Value → String → String → IssueKind
  unsafe_capability : Value → IssueKind
  unsafe_tenant : Value → IssueKind

pub record ContractIssue : Type 0 where
  pub kind : IssueKind
  pub path : String

abbrev pub issue : IssueKind → String → ContractIssue
issue k p = record { kind = k; path = p }

-- contract.get("contract_id"), which the messages print
abbrev pub id_of : Fields → Value
id_of contract = get "contract_id" contract

-- The field is discharged somewhere: its layer is not out_of_scope.
unfoldable pub in_scope : Fields → String → Bool
in_scope contract name = not (field_semantics_layer contract name == "out_of_scope")

abbrev pub stated_text : Bool → Value → Option String
stated_text scoped (str s) = if not (s == "") && scoped then some s else none
stated_text scoped _ = none

-- What a block of the contract requires for a field: a text that is not empty, in scope.
unfoldable pub required_text : Fields → Fields → String → Option String
required_text contract block name = stated_text (in_scope contract name) (get name block)

abbrev pub is_true : Value → Bool
is_true (bool b) = b
is_true _ = false

module _ ⦃py : Host⦄ where
  -- `required in [str(x) for x in xs]`, for a value that is a list
  abbrev pub lists : String → Option (List Value) → Bool
  lists required none = false
  lists required (some vs) = elem required (map str_of vs)

  unfoldable pub principal_has_capability : Fields → String → Result RuntimeError Bool
  principal_has_capability principal id = do
    held ← expand_principal_capabilities principal
    ok (elem id held)

  abbrev pub is_effect : String → Value → Bool
  is_effect kind (obj effect) = text_or "" (get "effect_kind" effect) == kind
  is_effect kind _ = false

  abbrev pub effect_among : String → Option (List Value) → Bool
  effect_among kind none = false
  effect_among kind (some effects) = any (is_effect kind) effects

  unfoldable pub action_has_effect : Fields → String → Bool
  action_has_effect action kind = effect_among kind (as_list (get "effects" action))

  abbrev pub tenant_issues : Fields → Fields → Fields → Fields → String → List ContractIssue
  tenant_issues contract pre principal action path =
      when
        (truthy (get "require_tenant_match" pre)
          && in_scope contract "require_tenant_match"
          && not (same_tenant principal action))
        (issue (tenant_mismatch (id_of contract)) path)

  -- One requirement: nothing is required, or the test holds, or there is an issue.
  abbrev pub unmet : Option String → (String → Bool) → (String → ContractIssue) → List ContractIssue
  unmet none holds report = []
  unmet (some required) holds report = when (not (holds required)) (report required)

  abbrev pub capability_issues :
      Fields → Fields → String → Option String → Result RuntimeError (List ContractIssue)
  capability_issues contract principal path none = ok []
  capability_issues contract principal path (some id) = do
    held ← principal_has_capability principal id
    ok (
        when (not held)
          (issue (capability_required (id_of contract) id) (str_append path ".principal")))

  unfoldable pub pre_issues :
      Fields → Fields → Fields → Fields → String → Fields → Result RuntimeError (List ContractIssue)
  unfolding required_text principal_has_capability action_has_effect
  pre_issues contract event principal action path pre = do
    capability ←
        capability_issues contract principal path (required_text contract pre "require_capability")
    ok (
        tenant_issues contract pre principal action path
        ++ (capability
            ++ (unmet (required_text contract pre "require_effect") (action_has_effect action) (λ k.
                  issue (effect_required (id_of contract) k) (str_append path ".action.effects"))
                ++ (unmet (required_text contract pre "require_role")
                      (λ r. lists r (as_list (get "roles" principal)))
                      (λ r.
                        issue (role_required (id_of contract) r)
                          (str_append path ".principal.roles"))
                    ++ (unmet (required_text contract pre "require_policy_ref")
                          (λ r. lists r (as_list (get "contract_refs" event)))
                          (λ r.
                            issue (policy_ref_required (id_of contract) r)
                              (str_append path ".contract_refs"))
                        ++ unmet (required_text contract pre "require_evidence_ref")
                            (λ r. lists r (as_list (get "evidence_refs" event)))
                            (λ r.
                              issue (evidence_ref_required (id_of contract) r)
                                (str_append path ".evidence_refs")))))))

  -- The safety of an allowed event: the capability of its action is held, and the tenants agree.
  abbrev pub safety_issues :
      Fields → Fields → Fields → String → Result RuntimeError (List ContractIssue)
  safety_issues contract principal action path =
      let checked = do
        held ← principal_has_capability principal (capability_id_of action)
        ok (
            if not held
            then issue (unsafe_capability (id_of contract)) path ∷ []
            else when (not (same_tenant principal action))
                (issue (unsafe_tenant (id_of contract)) path))
      in if capability_id_of action == ""
        then ok (issue (unsafe_capability (id_of contract)) path ∷ [])
        else checked

  unfoldable pub post_issues :
      Fields → Fields → Fields → Fields → String → Fields → Result RuntimeError (List ContractIssue)
  unfolding required_text principal_has_capability
  post_issues contract event principal action path post = do
    safety ←
        if is_true (get "require_event_safe" post)
          && in_scope contract "require_event_safe"
          && text_or "allow" (get "decision" event) == "allow"
        then safety_issues contract principal action path
        else ok []
    ok (
        unmet (required_text contract post "require_decision") (λ d. decision_of event == d)
          (λ d.
            issue (decision_mismatch (id_of contract) d (decision_of event))
              (str_append path ".decision"))
        ++ safety)

  abbrev pub block_issues :
      (Fields → Result RuntimeError (List ContractIssue))
      → Option Fields
      → Result RuntimeError (List ContractIssue)
  block_issues check none = ok []
  block_issues check (some block) = check block

  abbrev pub issues_between :
      Fields
      → Fields
      → String
      → Option Fields
      → Option Fields
      → Result RuntimeError (List ContractIssue)
  issues_between contract event path (some principal) (some action) = do
    pre ←
        block_issues (pre_issues contract event principal action path)
          (as_dict (get "pre" contract))
    post ←
        block_issues (post_issues contract event principal action path)
          (as_dict (get "post" contract))
    ok (pre ++ post)
  issues_between contract event path _ _ = ok (issue event_without_parties path ∷ [])

  unfoldable pub validate_event_against_contract :
      Fields → Fields → String → Result RuntimeError (List ContractIssue)
  unfolding pre_issues post_issues
  validate_event_against_contract event contract path =
      issues_between contract event path (as_dict (get "principal" event))
        (as_dict (get "action" event))

  -- contracts.get(contract_id)
  unfoldable pub find_contract : String → List (String × Fields) → Option Fields
  find_contract id [] = none
  find_contract id ((k, contract) ∷ rest) = if k == id then some contract else find_contract id rest

  abbrev pub ref_issues :
      Fields → String → ℕ → String → Option Fields → Result RuntimeError (List ContractIssue)
  ref_issues event base i id none =
      ok (issue (unknown_contract id) (indexed (str_append base ".contract_refs") i) ∷ [])
  ref_issues event base i id (some contract) = validate_event_against_contract event contract base

  unfoldable pub refs_issues :
      List (String × Fields)
      → Fields
      → String
      → ℕ
      → List Value
      → Result RuntimeError (List ContractIssue)
  unfolding find_contract
  refs_issues contracts event base i [] = ok []
  refs_issues contracts event base i (ref ∷ refs) = do
    here ← ref_issues event base i (str_of ref) (find_contract (str_of ref) contracts)
    later ← refs_issues contracts event base (suc i) refs
    ok (here ++ later)

  abbrev pub refs_or_none : Option (List Value) → List Value
  refs_or_none none = []
  refs_or_none (some refs) = refs

  unfoldable pub events_issues :
      List (String × Fields) → ℕ → List Value → Result RuntimeError (List ContractIssue)
  unfolding refs_issues
  events_issues contracts i [] = ok []
  events_issues contracts i (obj event ∷ rest) = do
    here ←
        refs_issues contracts event (indexed "events" i) 0
          (refs_or_none (as_list (get "contract_refs" event)))
    later ← events_issues contracts (suc i) rest
    ok (here ++ later)
  events_issues contracts i (_ ∷ rest) = events_issues contracts (suc i) rest

  abbrev trace_issues :
      List (String × Fields) → Option (List Value) → Result RuntimeError (List ContractIssue)
  trace_issues contracts none = ok (issue trace_without_events "events" ∷ [])
  trace_issues contracts (some events) = events_issues contracts 0 events

  unfoldable pub validate_trace_contracts :
      Fields → List (String × Fields) → Result RuntimeError (List ContractIssue)
  unfolding events_issues
  validate_trace_contracts trace contracts = trace_issues contracts (as_list (get "events" trace))

  abbrev pub trace_safe_id : String
  trace_safe_id = "trace-safe"

  abbrev trace_safe_body : Fields
  trace_safe_body = field "schema_version" (str "v0") (
      field "artifact_type" (str "PFCoreContract.v0") (
        field "contract_id" (str trace_safe_id) (
          field "name" (str "Trace-safe default") (
            field "pre" (obj end) (
              field "post" (obj end) (
                field "invariant" (obj (field "require_trace_safe" (bool true) end)) (
                  field "semantics_layer" (obj (field "require_trace_safe" (str "lean") end))
                    (field signature_field (str placeholder_digest) end))))))))

  unfoldable pub default_trace_safe_contract : Fields
  default_trace_safe_contract =
      put signature_field (str (canonical_hash_legacy trace_safe_body)) trace_safe_body

  unfoldable pub default_trace_safe_contract_hash : String
  unfolding default_trace_safe_contract
  default_trace_safe_contract_hash = str_of (get signature_field default_trace_safe_contract)

  abbrev pub has_refs : Value → Bool
  has_refs (obj event) = elim (get "contract_refs" event) [
    | arr refs ↦ truthy (arr refs)
    | _ ↦ false
  ]
  has_refs _ = false

  abbrev any_refs : Option (List Value) → Bool
  any_refs none = false
  any_refs (some events) = any has_refs events

  unfoldable pub trace_has_contract_binding : Fields → Bool
  unfolding default_trace_safe_contract_hash
  trace_has_contract_binding trace =
      let contract_hash = text_or "" (get "contract_hash" trace) in
      if text_or "" (get "default_contract_ref" trace) == trace_safe_id
      then true
      else if not (contract_hash == "") && contract_hash == default_trace_safe_contract_hash
      then true
      else any_refs (as_list (get "events" trace))
