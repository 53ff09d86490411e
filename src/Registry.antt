-- ===== src/Registry.antt =====
-- python/pcs_core/registry_data.py: the rule on assumptions of a certificate when checks of the
-- registry were skipped. The entries of the registry are an argument.
pub mod References
pub mod Entries
pub mod Listed
pub mod Considered
pub mod Skipped
pub mod Assumptions
use Prim.Native.String.{len, slice}
use pcs_core.Prelude.{
  ℕ, ◌-◌, String, List, [], ◌∷◌, ◌++◌, Option, none, some, Bool, true, false, not, ◌&&◌, ◌||◌, ◌==◌,
  if◌then◌else◌, starts_with, elem, any, when, map,
}
use pcs_core.Json.{Value, obj, Fields, end, field, as_dict, as_list, truthy}
use pcs_core.Json.Dict.{get}
use pcs_core.Json.Text.{str_of, text_or, strip}
use pcs_core.Host.{Host}

abbrev pub proof_overclaim_classes : List String
proof_overclaim_classes = "LeanKernelChecked" ∷ "ProofChecked" ∷ []

abbrev pub assumption_ref_prefixes : List String
assumption_ref_prefixes = "docs/" ∷ "examples/" ∷ "as-" ∷ "AssumptionSet" ∷ []

abbrev pub deferrable_check_ids : List String
deferrable_check_ids = "lean_kernel_proof" ∷ "lean_library_build" ∷ []

-- The claim classes that go with skipped checks.
abbrev pub open_claim_classes : List String
open_claim_classes =
    "AssumptionDeclared" ∷ "RuntimeChecked" ∷ "CertificateChecked" ∷ "ReplayValidated"
    ∷ "SchemaValidated" ∷ "OutOfScope" ∷ []

pub data AssumptionIssue : Type 0 where
  overclaims : String → List String → AssumptionIssue
  refs_missing : AssumptionIssue
  refs_invalid : AssumptionIssue
  wrong_claim_class : String → AssumptionIssue

abbrev pub ends_with : String → String → Bool
ends_with text suffix = slice text (len text - len suffix) (len text) == suffix

unfoldable pub assumption_ref_valid : String → Bool
assumption_ref_valid ref =
    let text = strip ref in
    if text == ""
    then false
    else ends_with text ".md"
      || ends_with text ".json"
      || any (λ p. starts_with text p) assumption_ref_prefixes

-- _REGISTRY_ENTRIES.get(artifact_type)
unfoldable pub find_entry : String → List (String × Fields) → Option Fields
find_entry kind [] = none
find_entry kind ((k, entry) ∷ rest) = if k == kind then some entry else find_entry kind rest

module _ ⦃py : Host⦄ where
  abbrev pub dicts_where : (Fields → Bool) → List Value → List Fields
  dicts_where test [] = []
  dicts_where test (obj check ∷ rest) = when (test check) check ++ dicts_where test rest
  dicts_where test (_ ∷ rest) = dicts_where test rest

  abbrev pub checks_where : (Fields → Bool) → Option (List Value) → List Fields
  checks_where test none = []
  checks_where test (some checks) = dicts_where test checks

  abbrev pub is_skippable : Fields → Bool
  is_skippable check = truthy (get "allowed_to_skip" check)

  abbrev pub is_deferrable : Fields → Bool
  is_deferrable check =
      is_skippable check || elem (text_or "" (get "check_id" check)) deferrable_check_ids

  abbrev pub deferred_in : Option Fields → List Fields
  deferred_in none = []
  deferred_in (some entry) = checks_where is_deferrable (as_list (get "semantic_checks" entry))

  unfoldable pub deferred_registry_obligations : List (String × Fields) → String → List Fields
  unfolding find_entry
  deferred_registry_obligations entries kind = deferred_in (find_entry kind entries)

  abbrev pub was_built : Option Fields → Bool
  was_built none = false
  was_built (some build) = truthy (get "ok" build)

  abbrev pub is_skipped : Fields → String → Bool
  is_skipped certificate id =
      if id == "lean_kernel_proof"
      then not (truthy (get "lean_proof_checked" certificate))
      else if id == "lean_library_build"
      then not (was_built (as_dict (get "lean_build_status" certificate)))
      else false

  abbrev pub skipped_among : Fields → List Fields → List String
  skipped_among certificate [] = []
  skipped_among certificate (check ∷ rest) =
      let id = text_or "" (get "check_id" check) in
      when (is_skipped certificate id) id ++ skipped_among certificate rest

  abbrev pub artifact_type_of : Fields → String
  artifact_type_of certificate = text_or "PFCoreCertificate.v0" (get "artifact_type" certificate)

  abbrev pub or_registered : List (String × Fields) → String → List Fields → List Fields
  or_registered entries kind [] = deferred_registry_obligations entries kind
  or_registered entries kind (check ∷ checks) = check ∷ checks

  unfoldable pub infer_skipped_registry_checks :
      List (String × Fields) → Fields → List Fields → List String
  infer_skipped_registry_checks entries certificate deferred =
      skipped_among certificate (or_registered entries (artifact_type_of certificate) deferred)

  abbrev pub or_empty : Option Fields → Fields
  or_empty none = end
  or_empty (some entry) = entry

  -- `registry_context or _REGISTRY_ENTRIES.get(artifact_type, {})`
  abbrev pub context_or : List (String × Fields) → String → Option Fields → Fields
  context_or entries kind (some (field k v fs)) = field k v fs
  context_or entries kind _ = or_empty (find_entry kind entries)

  abbrev pub deferred_of : List (String × Fields) → String → Option (List Value) → List Fields
  deferred_of entries kind none = deferred_registry_obligations entries kind
  deferred_of entries kind (some checks) = dicts_where is_skippable checks

  abbrev pub skipped_in :
      List (String × Fields) → Fields → Fields → Option (List Value) → List String
  skipped_in entries certificate context (some explicit) = map str_of explicit
  skipped_in entries certificate context none =
      infer_skipped_registry_checks entries certificate (
        deferred_of entries (artifact_type_of certificate)
          (as_list (get "semantic_checks" context)))

  -- The checks that count as skipped.
  unfoldable pub skipped_checks : List (String × Fields) → Fields → Option Fields → List String
  skipped_checks entries certificate given =
      let context = context_or entries (artifact_type_of certificate) given in
      skipped_in entries certificate context (as_list (get "skipped_checks" context))

  -- The refs of the certificate and then its class; an overclaim is reported elsewhere.
  abbrev pub assumption_ref_issues : String → Option (List Value) → List AssumptionIssue
  assumption_ref_issues claim (some (ref ∷ refs)) =
      if not (any (λ r. assumption_ref_valid (str_of r)) (ref ∷ refs))
      then refs_invalid ∷ []
      else when (not (elem claim open_claim_classes) && not (elem claim proof_overclaim_classes))
          (wrong_claim_class claim)
  assumption_ref_issues claim _ = refs_missing ∷ []

  abbrev pub issues_of : Fields → List String → List AssumptionIssue
  issues_of certificate [] = []
  issues_of certificate (id ∷ ids) =
      let claim = text_or "" (get "claim_class" certificate) in
      when (elem claim proof_overclaim_classes) (overclaims claim (id ∷ ids))
      ++ assumption_ref_issues claim (as_list (get "assumption_refs" certificate))

  unfoldable pub enforce_assumption_declared :
      List (String × Fields) → Fields → Option Fields → List AssumptionIssue
  enforce_assumption_declared entries certificate given =
      issues_of certificate (skipped_checks entries certificate given)
