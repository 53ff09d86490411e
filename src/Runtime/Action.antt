-- ===== src/Runtime/Action.antt =====
-- Actions in pf_core_runtime.py: the checks of capability, effects and resource scope, and the normal
-- form of an action.
pub mod Scope
pub mod Claim
use Prim.Native.String.{◌++◌}
use pcs_core.Prelude.{
  ℕ, suc, String, List, [], ◌∷◌, Option, none, some, Bool, true, false, not, ◌&&◌, ◌||◌, ◌==◌,
  if◌then◌else◌, elem, any, Result, ok, err, ◌>>=◌, ◌>>◌, raise_if,
}
use pcs_core.Json.{
  Value, str, arr, obj, Items, nil, cons, Fields, end, field, to_list, of_list, as_dict, as_list,
}
use pcs_core.Json.Dict.{get}
use pcs_core.Json.Text.{text_or, indexed}
use pcs_core.Host.{Host}
use pcs_core.Catalog.{Capability, effect_kinds, lookup_capability}
use pcs_core.Runtime.{
  RuntimeError, genesis_hash, unknown_capability, unknown_effect, ambiguous_mapping, invalid_action,
  capability_effect_mismatch, resource_scope_violation, claim_class_overclaim,
}
use pcs_core.Runtime.Glob.{resource_matches_pattern}

-- `x or "<missing>"`
abbrev or_missing : String → String
or_missing s = if s == "" then "<missing>" else s

module _ ⦃py : Host⦄ where
  abbrev check_catalogued :
      String → String → Option Capability → String → Result RuntimeError Capability
  check_catalogued path id none kind = err (unknown_capability (or_missing id) path)
  check_catalogued path id (some catalog) kind =
      raise_if (not (elem kind effect_kinds))
        (unknown_effect (or_missing kind) (path ++ ".effect_kind"))
      >> raise_if (not (catalog.effect_kind == kind))
          (ambiguous_mapping id (path ++ ".effect_kind"))
      >> ok catalog

  -- _validate_capability
  unfoldable pub validate_capability : String → Fields → Result RuntimeError Capability
  validate_capability path capability =
      let id = text_or "" (get "capability_id" capability) in
      check_catalogued path id (lookup_capability id) (text_or "" (get "effect_kind" capability))

  -- The loop of _validate_effects; it returns the effect kinds.
  unfoldable pub validate_effect_list : String → ℕ → List Value → Result RuntimeError (List String)
  validate_effect_list path index [] = ok []
  validate_effect_list path index (obj effect ∷ rest) =
      let kind = text_or "" (get "effect_kind" effect) in
      do
        raise_if (not (elem kind effect_kinds))
            (unknown_effect (or_missing kind) (indexed path index ++ ".effect_kind"))
        kinds ← validate_effect_list path (suc index) rest
        ok (kind ∷ kinds)
  validate_effect_list path index (_ ∷ rest) = err (unknown_effect "<invalid>" (indexed path index))

  unfoldable pub validate_effects : String → List Value → Result RuntimeError (List String)
  unfolding validate_effect_list
  validate_effects path [] = err (unknown_effect "<missing>" path)
  validate_effects path (e ∷ es) = validate_effect_list path 0 (e ∷ es)

  abbrev pub capability_of : String → Option Fields → Result RuntimeError Capability
  capability_of path none = err (unknown_capability "<missing>" (path ++ ".capability"))
  capability_of path (some c) = validate_capability (path ++ ".capability") c

  abbrev pub effects_of : String → Option (List Value) → Result RuntimeError (List String)
  effects_of path none = err (unknown_effect "<missing>" (path ++ ".effects"))
  effects_of path (some es) = validate_effects (path ++ ".effects") es

  -- One list of resources of validate_resource_scope.
  unfoldable pub check_scope : String → String → ℕ → List Value → Result RuntimeError (Unit {0})
  check_scope pattern path index [] = ok tt
  check_scope pattern path index (obj resource ∷ rest) =
      let uri = text_or "" (get "uri" resource) in
      raise_if (not (uri == "") && not (resource_matches_pattern uri pattern))
        (resource_scope_violation uri pattern (indexed path index ++ ".uri"))
      >> check_scope pattern path (suc index) rest
  check_scope pattern path index (_ ∷ rest) = check_scope pattern path (suc index) rest

  abbrev scope_of_key : String → String → Option (List Value) → Result RuntimeError (Unit {0})
  scope_of_key pattern path none = ok tt
  scope_of_key pattern path (some resources) = check_scope pattern path 0 resources

  abbrev scope_of_capability : String → Fields → Option Fields → Result RuntimeError (Unit {0})
  scope_of_capability path action none = ok tt
  scope_of_capability path action (some capability) =
      let pattern = text_or "" (get "resource_pattern" capability) in
      let checked =
        scope_of_key pattern (path ++ ".reads") (as_list (get "reads" action))
        >> scope_of_key pattern (path ++ ".writes") (as_list (get "writes" action)) in
      if pattern == "" then ok tt else checked

  unfoldable pub validate_resource_scope : String → Fields → Result RuntimeError (Unit {0})
  unfolding check_scope
  validate_resource_scope path action =
      scope_of_capability path action (as_dict (get "capability" action))

  abbrev pub capability_dict : Capability → Fields
  capability_dict c = field "capability_id" (str c.capability_id) (
      field "effect_kind" (str c.effect_kind)
        (field "resource_pattern" (str c.resource_pattern) end))

  abbrev pub effect_items : List String → Items
  effect_items [] = nil
  effect_items (kind ∷ kinds) = cons (obj (field "effect_kind" (str kind) end)) (effect_items kinds)

  -- `[dict(item) for item in items if isinstance(item, dict)]`
  abbrev pub only_dicts : List Value → List Value
  only_dicts [] = []
  only_dicts (obj fs ∷ vs) = obj fs ∷ only_dicts vs
  only_dicts (_ ∷ vs) = only_dicts vs

  abbrev pub action_record :
      String
      → String
      → Capability
      → List String
      → List Value
      → List Value
      → String
      → String
      → Fields
  action_record id tool cap kinds reads writes input output = field "action_id" (str id) (
      field "tool_name" (str tool) (
        field "capability" (obj (capability_dict cap)) (
          field "effects" (arr (effect_items kinds)) (
            field "reads" (arr (of_list reads)) (
              field "writes" (arr (of_list writes))
                (field "input_hash" (str input) (field "output_hash" (str output) end)))))))

  abbrev both_lists : Option (List Value) → Option (List Value) → Option (List Value × List Value)
  both_lists (some r) (some w) = some (r, w)
  both_lists _ _ = none

  abbrev pub footprint : String → Fields → Result RuntimeError (List Value × List Value)
  footprint path action =
      elim (both_lists (as_list (get "reads" action)) (as_list (get "writes" action))) [
        | none ↦ err (invalid_action path)
        | some f ↦ ok f
      ]

  -- _validate_action
  unfoldable pub validate_action : String → Fields → Result RuntimeError Fields
  validate_action path action = do
    cap ← capability_of path (as_dict (get "capability" action))
    kinds ← effects_of path (as_list (get "effects" action))
    (reads, writes) ← footprint path action
    let normalized =
        action_record (text_or "" (get "action_id" action)) (text_or "" (get "tool_name" action))
          cap kinds (only_dicts reads) (only_dicts writes)
          (text_or genesis_hash (get "input_hash" action))
          (text_or genesis_hash (get "output_hash" action))
    validate_resource_scope path normalized
    ok normalized

  unfoldable pub validate_action_effects_known : String → Fields → Result RuntimeError (List String)
  validate_action_effects_known path action = effects_of path (as_list (get "effects" action))

  unfoldable pub validate_action_capabilities_known :
      String → Fields → Result RuntimeError Capability
  validate_action_capabilities_known path action =
      capability_of path (as_dict (get "capability" action))

  unfoldable pub validate_action_capability_effects :
      String → Fields → Result RuntimeError (Unit {0})
  unfolding validate_capability validate_effects
  validate_action_capability_effects path action = do
    cap ← capability_of path (as_dict (get "capability" action))
    kinds ← effects_of path (as_list (get "effects" action))
    raise_if (not (elem cap.effect_kind kinds))
        (capability_effect_mismatch cap.capability_id cap.effect_kind (path ++ ".effects"))

abbrev pub trace_claim_classes : List String
trace_claim_classes =
    "SchemaValidated" ∷ "RuntimeChecked" ∷ "ReplayValidated" ∷ "AssumptionDeclared" ∷ "OutOfScope"
    ∷ []

-- _assert_claim_class_allowed; the flag is bool(proof_ref).
unfoldable pub assert_claim_class_allowed : String → Bool → Result RuntimeError (Unit {0})
assert_claim_class_allowed claim proved =
    raise_if (not (elem claim trace_claim_classes)) (claim_class_overclaim claim)
    >> raise_if (elem claim ("LeanKernelChecked" ∷ []) && not proved) (claim_class_overclaim claim)
    >> raise_if (claim == "CertificateChecked") (claim_class_overclaim claim)
