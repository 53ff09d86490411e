-- ===== src/Status.antt =====
-- python/pcs_core/status.py and python/pcs_core/status_policy.py: the statuses of an artifact and
-- the policy of their transitions.
pub mod Order
pub mod Progress
use Prim.Native.String.{◌++◌}
use pcs_core.Prelude.{
  String, List, [], ◌∷◌, Bool, true, false, not, ◌&&◌, ◌||◌, ◌==◌, if◌then◌else◌, elem, any, map,
  sort_texts, join,
}

pub data ArtifactStatus : Type 0 where
  draft extracted human_reviewed formalized proof_pending proof_checked certificate_pending
        certificate_checked runtime_observed runtime_checked rejected empirical_only deprecated
        stale :
      ArtifactStatus

abbrev pub value : ArtifactStatus → String
value draft = "Draft"
value extracted = "Extracted"
value human_reviewed = "HumanReviewed"
value formalized = "Formalized"
value proof_pending = "ProofPending"
value proof_checked = "ProofChecked"
value certificate_pending = "CertificatePending"
value certificate_checked = "CertificateChecked"
value runtime_observed = "RuntimeObserved"
value runtime_checked = "RuntimeChecked"
value rejected = "Rejected"
value empirical_only = "EmpiricalOnly"
value deprecated = "Deprecated"
value stale = "Stale"

abbrev pub artifact_statuses : List String
artifact_statuses = map value (
    draft ∷ extracted ∷ human_reviewed ∷ formalized ∷ proof_pending ∷ proof_checked
    ∷ certificate_pending ∷ certificate_checked ∷ runtime_observed ∷ runtime_checked ∷ rejected
    ∷ empirical_only ∷ deprecated ∷ stale ∷ [])

abbrev pub trace_certificate_statuses : List String
trace_certificate_statuses =
    map value (certificate_pending ∷ certificate_checked ∷ rejected ∷ stale ∷ [])

unfoldable pub is_valid_status : String → Bool
is_valid_status s = elem s artifact_statuses

-- ALLOWED_TRANSITIONS.get(status, frozenset())
abbrev allowed_table : List (String × List String)
allowed_table =
    (value draft, map value (runtime_observed ∷ []))
    ∷ (value runtime_observed, map value (certificate_pending ∷ certificate_checked ∷ []))
    ∷ (value certificate_pending, map value (certificate_checked ∷ rejected ∷ []))
    ∷ (value certificate_checked, map value (proof_checked ∷ []))
    ∷ (value proof_checked, map value (stale ∷ []))
    ∷ (value rejected, [])
    ∷ (value stale, [])
    ∷ (value deprecated, [])
    ∷ []

abbrev in_table : String → List (String × List String) → List String
in_table s [] = []
in_table s ((k, next) ∷ rows) = if k == s then next else in_table s rows

unfoldable pub allowed_transitions : String → List String
allowed_transitions s = in_table s allowed_table

abbrev forbidden_transitions : List (String × String)
forbidden_transitions =
    (value rejected, value proof_checked)
    ∷ (value stale, value proof_checked)
    ∷ (value deprecated, value proof_checked)
    ∷ (value draft, value proof_checked)
    ∷ (value runtime_observed, value proof_checked)
    ∷ []

unfoldable pub is_forbidden : String → String → Bool
is_forbidden old new = any (λ (a, b). a == old && b == new) forbidden_transitions

-- The messages, with the values that they print.
pub data Message : Type 0 where
  unchanged : String → Message
  forbidden : String → String → Message
  allowed : String → String → Message
  terminal : String → String → Message
  not_in_policy : String → String → List String → Message

pub record TransitionVerdict : Type 0 where
  pub is_allowed : Bool
  pub message : Message

abbrev is_empty : List String → Bool
is_empty [] = true
is_empty (x ∷ xs) = false

unfoldable pub check_status_transition : String → String → TransitionVerdict
unfolding allowed_transitions is_forbidden
check_status_transition old new =
    if old == new
    then record { is_allowed = true; message = unchanged old }
    else if is_forbidden old new
    then record { is_allowed = false; message = forbidden old new }
    else if elem new (allowed_transitions old)
    then record { is_allowed = true; message = allowed old new }
    else if is_empty (allowed_transitions old)
        && elem old (map value (rejected ∷ stale ∷ deprecated ∷ []))
    then record { is_allowed = false; message = terminal old new }
    else record {
      is_allowed = false;
      message = not_in_policy old new (sort_texts (allowed_transitions old));
    }

abbrev status_descriptions : List (String × String)
status_descriptions =
    (value draft, "Initial authoring; not yet tied to runtime evidence.")
    ∷ (value runtime_observed, "Runtime evidence captured in a receipt or trace.")
    ∷ (value certificate_pending, "Awaiting CertifyEdge trace certificate attachment.")
    ∷ (value certificate_checked, "Trace certificate attached and checked.")
    ∷ (value proof_checked, "Provability Fabric verification succeeded.")
    ∷ (value rejected, "Terminal failure; regenerate artifacts to continue.")
    ∷ (value stale, "Terminal staleness; refresh evidence before reuse.")
    ∷ (value deprecated, "Terminal deprecation; migrate schema before reuse.")
    ∷ []

abbrev explain_with : String → String → List (String × String) → String
explain_with s next [] = "Unknown PCS status: " ++ s
explain_with s next ((k, text) ∷ rows) =
    if k == s then text ++ "\n" ++ "Allowed next: " ++ next else explain_with s next rows

abbrev or_none : String → String
or_none s = if s == "" then "(none)" else s

unfoldable pub explain_status : String → String
unfolding allowed_transitions
explain_status s =
    explain_with s (or_none (join ", " (sort_texts (allowed_transitions s)))) status_descriptions
