-- ===== src/Contract.antt =====
-- python/pcs_core/pf_core_contract_semantics.py: the layer (lean, runtime or out_of_scope) that
-- discharges each field of a contract, and the check of the layers that a contract states.
pub mod Layers
pub mod Event
pub mod Meaning
pub mod Pre
pub mod Satisfaction
use pcs_core.Prelude.{
  String, List, [], ◌∷◌, ◌++◌, Option, none, some, Bool, true, false, not, ◌&&◌, ◌==◌,
  if◌then◌else◌, elem, map, when, any,
}
use pcs_core.Json.{Value, null, bool, str, obj, Fields, end, field, as_dict, as_str}
use pcs_core.Json.Dict.{get}
use pcs_core.Json.Text.{is_blank}

abbrev pub semantics_layers : List String
semantics_layers = "lean" ∷ "runtime" ∷ "out_of_scope" ∷ []

-- An association list with its lookup, for the dictionaries from texts to texts.
abbrev pub Layers : Type 0
Layers = List (String × String)

unfoldable pub layer_of : String → Layers → Option String
layer_of k [] = none
layer_of k ((j, v) ∷ rest) = if j == k then some v else layer_of k rest

unfoldable pub set_layer : String → String → Layers → Layers
set_layer k v [] = (k, v) ∷ []
set_layer k v ((j, w) ∷ rest) = if j == k then (j, v) ∷ rest else (j, w) ∷ set_layer k v rest

abbrev pub default_field_layers : Layers
default_field_layers =
    ("require_capability", "lean")
    ∷ ("require_effect", "lean")
    ∷ ("require_tenant_match", "lean")
    ∷ ("require_role", "runtime")
    ∷ ("require_policy_ref", "runtime")
    ∷ ("require_evidence_ref", "runtime")
    ∷ ("require_decision", "lean")
    ∷ ("require_event_safe", "lean")
    ∷ ("require_trace_safe", "lean")
    ∷ []

-- CONTRACT_SECTION_FIELDS, a row for each field with its section.
abbrev pub contract_section_fields : Layers
contract_section_fields =
    ("require_capability", "pre")
    ∷ ("require_effect", "pre")
    ∷ ("require_tenant_match", "pre")
    ∷ ("require_role", "pre")
    ∷ ("require_policy_ref", "pre")
    ∷ ("require_evidence_ref", "pre")
    ∷ ("require_decision", "post")
    ∷ ("require_event_safe", "post")
    ∷ ("require_trace_safe", "invariant")
    ∷ []

pub data LayerIssue : Type 0 where
  layer_not_an_object : LayerIssue
  entry_not_a_text : String → LayerIssue
  unknown_layer : String → String → LayerIssue
  unknown_field : String → LayerIssue
  layer_mismatch : String → String → String → LayerIssue
  orphan_field : String → LayerIssue
  out_of_scope_field : String → LayerIssue

-- The value of an active field: stated, and no false and no blank text.
abbrev pub is_active_value : Value → Bool
is_active_value null = false
is_active_value (bool b) = b
is_active_value (str s) = not (is_blank s)
is_active_value _ = true

-- _field_active
unfoldable pub field_active : Option Fields → String → Bool
field_active none name = false
field_active (some block) name = is_active_value (get name block)

abbrev pub active_rows : Fields → Layers → Layers
active_rows contract [] = []
active_rows contract ((name, section) ∷ rest) =
    when (field_active (as_dict (get section contract)) name) (name, section)
    ++ active_rows contract rest

unfoldable pub contract_fields_in_use : Fields → Layers
contract_fields_in_use contract = active_rows contract contract_section_fields

abbrev pub or_runtime : Option String → String
or_runtime none = "runtime"
or_runtime (some layer) = layer

unfoldable pub default_layer : String → String
unfolding layer_of
default_layer name = or_runtime (layer_of name default_field_layers)

abbrev pub with_default : String × String → String × String
with_default (name, section) = (name, default_layer name)

unfoldable pub default_semantics_layer_for_contract : Fields → Layers
default_semantics_layer_for_contract contract = map with_default (contract_fields_in_use contract)

-- The explicit entries that are texts replace the defaults or join them.
unfoldable pub merge_layers : Layers → Fields → Layers
merge_layers layers end = layers
merge_layers layers (field k (str v) rest) = merge_layers (set_layer k v layers) rest
merge_layers layers (field k _ rest) = merge_layers layers rest

abbrev pub merge_explicit : Layers → Option Fields → Layers
merge_explicit layers none = layers
merge_explicit layers (some explicit) = merge_layers layers explicit

unfoldable pub resolve_semantics_layer : Fields → Layers
unfolding default_semantics_layer_for_contract merge_layers
resolve_semantics_layer contract =
    merge_explicit (default_semantics_layer_for_contract contract)
      (as_dict (get "semantics_layer" contract))

abbrev pub is_some : Option String → Bool
is_some none = false
is_some (some s) = true

-- What one explicit entry adds, for a field with its canonical layer.
abbrev pub canonical_issues : Bool → String → String → Option String → List LayerIssue
canonical_issues active k v none = unknown_field k ∷ []
canonical_issues active k v (some canonical) =
    if active && not (v == canonical)
    then layer_mismatch k v canonical ∷ []
    else when (not active) (orphan_field k)

unfoldable pub entry_issues : Layers → Fields → List LayerIssue
unfolding layer_of
entry_issues active end = []
entry_issues active (field k (str v) rest) =
    when (not (elem v semantics_layers)) (unknown_layer k v)
    ++ canonical_issues (is_some (layer_of k active)) k v (layer_of k default_field_layers)
    ++ entry_issues active rest
entry_issues active (field k _ rest) = entry_not_a_text k ∷ entry_issues active rest

unfoldable pub scope_issues : Layers → Layers → List LayerIssue
unfolding layer_of
scope_issues resolved [] = []
scope_issues resolved ((name, section) ∷ rest) =
    when (or_runtime (layer_of name resolved) == "out_of_scope") (out_of_scope_field name)
    ++ scope_issues resolved rest

abbrev pub issues_of : Fields → Value → List LayerIssue
issues_of contract null =
    scope_issues (resolve_semantics_layer contract) (contract_fields_in_use contract)
issues_of contract (obj explicit) =
    entry_issues (contract_fields_in_use contract) explicit
    ++ scope_issues (resolve_semantics_layer contract) (contract_fields_in_use contract)
issues_of contract _ = layer_not_an_object ∷ []

unfoldable pub validate_semantics_layer : Fields → List LayerIssue
unfolding contract_fields_in_use resolve_semantics_layer entry_issues scope_issues
validate_semantics_layer contract = issues_of contract (get "semantics_layer" contract)

abbrev pub layer_or_default : String → Option String → String
layer_or_default name none = default_layer name
layer_or_default name (some layer) = layer

-- The section is for documentation only.
unfoldable pub field_semantics_layer : Fields → String → String
unfolding resolve_semantics_layer
field_semantics_layer contract name =
    layer_or_default name (layer_of name (resolve_semantics_layer contract))
