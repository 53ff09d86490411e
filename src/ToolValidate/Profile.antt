-- ===== src/ToolValidate/Profile.antt =====
-- validate_workflow_profile_semantics of python/pcs_core/tool_use_validate.py.
use pcs_core.Prelude.{ℕ, suc, String, List, [], ◌∷◌, ◌++◌, Option, some, not, elem, when}
use pcs_core.Json.{Value, str, Fields, as_list}
use pcs_core.Json.Dict.{get}
use pcs_core.Json.Equal.{among}
use pcs_core.Host.{Host}
use pcs_core.Runtime.Deny.{list_or_empty}
use pcs_core.ToolValidate.{
  Problem, unknown_handoff_kind, unknown_artifact_type, not_required, no_admission_profile,
  is_nonempty_text,
}

abbrev pub handoff_kinds : List String
handoff_kinds =
    "runtime_to_certificate" ∷ "certificate_to_bundle" ∷ "bundle_to_verifier"
    ∷ "signed_bundle_to_memory" ∷ "release_chain" ∷ []

module _ ⦃py : Host⦄ where
  unfoldable pub kind_problems : ℕ → List Value → List Problem
  kind_problems index [] = []
  kind_problems index (str kind ∷ rest) =
      when (not (elem kind handoff_kinds)) (unknown_handoff_kind index kind)
      ++ kind_problems (suc index) rest
  kind_problems index (_ ∷ rest) = kind_problems (suc index) rest

  abbrev type_problems : List String → String → List Value → List Problem
  type_problems known key [] = []
  type_problems known key (str kind ∷ rest) =
      when (not (elem kind known)) (unknown_artifact_type key kind) ++ type_problems known key rest
  type_problems known key (_ ∷ rest) = type_problems known key rest

  -- `for ... in values: if ... not in required`
  abbrev missing_from : List Value → String → List Value → List Problem
  missing_from required key [] = []
  missing_from required key (v ∷ rest) =
      when (not (among v required)) (not_required key v) ++ missing_from required key rest

  abbrev required_problems : Option (List Value) → String → Option (List Value) → List Problem
  required_problems (some required) key (some values) = missing_from required key values
  required_problems _ key _ = []

  abbrev listed : Fields → String → List Value
  listed d key = list_or_empty (as_list (get key d))

  -- The types are the keys of registry_entries().
  unfoldable pub validate_workflow_profile_semantics : List String → Fields → List Problem
  validate_workflow_profile_semantics known d =
      let required = as_list (get "required_registry_entries" d) in
      kind_problems 0 (listed d "handoff_sequence")
      ++ (type_problems known "runtime_artifacts" (listed d "runtime_artifacts")
          ++ (type_problems known "certificate_artifacts" (listed d "certificate_artifacts")
              ++ (type_problems known "required_registry_entries"
                    (listed d "required_registry_entries")
                  ++ (required_problems required "runtime_artifacts"
                        (as_list (get "runtime_artifacts" d))
                      ++ (required_problems required "certificate_artifacts"
                            (as_list (get "certificate_artifacts" d))
                          ++ when (not (is_nonempty_text (get "required_admission_profile" d)))
                              no_admission_profile)))))
