-- ===== src/ToolValidate.antt =====
-- python/pcs_core/tool_use_validate.py: the semantic checks of tool-use traces, of their certificates
-- and of workflow profiles. Without those of release directories, which read files.
pub mod Signed
pub mod Readiness
pub mod Profile
use Prim.Native.String.{◌++◌ as str_append}
use pcs_core.Prelude.{
  ℕ, suc, String, List, [], ◌∷◌, ◌++◌, Option, none, some, Bool, true, false, not, ◌&&◌, ◌==◌,
  starts_with, if◌then◌else◌, elem, when, Result, ok, err, ◌>>=◌,
}
use pcs_core.Json.{
  Value, str, arr, obj, Items, Fields, end, field, as_str, as_dict, as_list, truthy,
}
use pcs_core.Json.Dict.{get, put}
use pcs_core.Json.Equal.{among}
use pcs_core.Host.{Host}
use pcs_core.Hash.{signature_field, placeholder_digest, canonical_hash_legacy}
use pcs_core.Runtime.Deny.{list_or_empty}

abbrev pub authorized : String
authorized = "authorized"

abbrev pub release_certificate_status : String
release_certificate_status = "CertificateChecked"

abbrev pub authorization_statuses : List String
authorization_statuses = "authorized" ∷ "rejected" ∷ "unknown" ∷ "policy_missing" ∷ []

abbrev pub certificate_statuses : List String
certificate_statuses = "CertificateChecked" ∷ "Rejected" ∷ "Stale" ∷ []

abbrev pub violation_keys : List String
violation_keys =
    "violation_id" ∷ "event_id" ∷ "violation_type" ∷ "tool_name" ∷ "policy_ref" ∷ "explanation" ∷ []

-- The messages, with what they print.
pub data Problem : Type 0 where
  not_a_digest : Problem
  wrong_signature : Problem
  trace_hash_missing : Problem
  wrong_trace_hash : Problem
  policy_hash_missing : Problem
  wrong_policy_hash : Problem
  no_tool_calls : Problem
  invalid_authorization : ℕ → Value → Problem
  forbidden_authorization : ℕ → Value → Problem
  violation_not_an_object : ℕ → Problem
  invalid_violation_key : ℕ → String → Problem
  invalid_status : Value → Problem
  violations_not_an_array : Problem
  checked_with_violations : Problem
  rejected_without_violations : Problem
  trace_hash_differs : Problem
  policy_hash_differs : Problem
  policy_id_differs : Problem
  not_authorized : ℕ → Problem
  not_released : Problem
  unknown_handoff_kind : ℕ → String → Problem
  unknown_artifact_type : String → String → Problem
  not_required : String → Value → Problem
  no_admission_profile : Problem

-- The TypeError of `value in {...}` for a list or a dictionary.
pub data Unhashable : Type 0 where
  unhashable : Unhashable

unfoldable pub in_set : List String → Value → Result Unhashable Bool
in_set names (obj fs) = err unhashable
in_set names (arr vs) = err unhashable
in_set names (str s) = ok (elem s names)
in_set names _ = ok false

-- `value == s`
abbrev pub is_text : String → Value → Bool
is_text s (str t) = t == s
is_text s _ = false

-- A text that starts like a digest.
abbrev pub digest_of : Value → Option String
digest_of (str s) = if starts_with s "sha256:" then some s else none
digest_of _ = none

abbrev pub is_nonempty_text : Value → Bool
is_nonempty_text (str s) = not (s == "")
is_nonempty_text _ = false

abbrev differ : Option String → Option String → Bool
differ (some a) (some b) = not (a == b)
differ _ _ = false

-- The stated digest against the expected one.
abbrev pub digest_problems : Problem → Problem → Option String → String → List Problem
digest_problems missing wrong none expected = missing ∷ []
digest_problems missing wrong (some digest) expected = when (not (digest == expected)) wrong

module _ ⦃py : Host⦄ where
  unfoldable pub policy_hash_from_policy_id : String → String
  policy_hash_from_policy_id id = canonical_hash_legacy (field "policy_id" (str id) end)

  -- _signature_or_digest_valid
  unfoldable pub signature_or_digest_valid : Fields → List Problem
  signature_or_digest_valid d =
      digest_problems not_a_digest wrong_signature (digest_of (get signature_field d))
        (canonical_hash_legacy (put signature_field (str placeholder_digest) d))

  unfoldable pub trace_hash_problems : Fields → List Problem
  trace_hash_problems d =
      digest_problems trace_hash_missing wrong_trace_hash (digest_of (get "trace_hash" d)) (
        canonical_hash_legacy (
          put signature_field (str placeholder_digest)
            (put "trace_hash" (str placeholder_digest) d)))

  abbrev policy_of : Option String → Option String → List Problem
  policy_of none id = policy_hash_missing ∷ []
  policy_of (some digest) none = []
  policy_of (some digest) (some id) =
      when (not (digest == policy_hash_from_policy_id id)) wrong_policy_hash

  unfoldable pub policy_hash_problems : Fields → List Problem
  policy_hash_problems d = policy_of (digest_of (get "policy_hash" d)) (as_str (get "policy_id" d))

  unfoldable pub call_problems : ℕ → Value → Result Unhashable (List Problem)
  call_problems index status = do
    known ← in_set authorization_statuses status
    forbidden ← in_set ("unknown" ∷ "policy_missing" ∷ []) status
    ok (
        when (not known) (invalid_authorization index status)
        ++ when forbidden (forbidden_authorization index status))

  unfoldable pub calls_problems : ℕ → List Value → Result Unhashable (List Problem)
  calls_problems index [] = ok []
  calls_problems index (obj call ∷ rest) = do
    first ← call_problems index (get "authorization_status" call)
    later ← calls_problems (suc index) rest
    ok (first ++ later)
  calls_problems index (_ ∷ rest) = calls_problems (suc index) rest

  abbrev tool_calls_problems : Option (List Value) → Result Unhashable (List Problem)
  tool_calls_problems (some (call ∷ calls)) = calls_problems 0 (call ∷ calls)
  tool_calls_problems _ = ok (no_tool_calls ∷ [])

  unfoldable pub validate_tool_use_trace_semantics : Fields → Result Unhashable (List Problem)
  validate_tool_use_trace_semantics d = do
    calls ← tool_calls_problems (as_list (get "tool_calls" d))
    ok (trace_hash_problems d ++ (policy_hash_problems d ++ calls))

  abbrev key_problems : ℕ → Fields → List String → List Problem
  key_problems index item [] = []
  key_problems index item (key ∷ rest) =
      when (not (is_nonempty_text (get key item))) (invalid_violation_key index key)
      ++ key_problems index item rest

  -- _validate_violation_object
  unfoldable pub validate_violation_object : Value → ℕ → List Problem
  validate_violation_object (obj item) index = key_problems index item violation_keys
  validate_violation_object _ index = violation_not_an_object index ∷ []

  unfoldable pub violation_problems : ℕ → List Value → List Problem
  violation_problems index [] = []
  violation_problems index (item ∷ rest) =
      validate_violation_object item index ++ violation_problems (suc index) rest

  abbrev violations_of : Option (List Value) → List Problem
  violations_of none = violations_not_an_array ∷ []
  violations_of (some items) = violation_problems 0 items

  abbrev balance : Value → List Value → List Problem
  balance status [] = when (is_text "Rejected" status) rejected_without_violations
  balance status (item ∷ rest) =
      when (is_text release_certificate_status status) checked_with_violations

  unfoldable pub validate_tool_use_certificate_semantics : Fields → Result Unhashable (List Problem)
  validate_tool_use_certificate_semantics d = do
    let status = get "status" d
    let violations = as_list (get "violations" d)
    known ← in_set certificate_statuses status
    ok (
        when (not known) (invalid_status status)
        ++ (violations_of violations
            ++ (balance status (list_or_empty violations) ++ signature_or_digest_valid d)))

  -- The policy hash and id of the trace against the policy hash of the certificate.
  abbrev pub policy_alignment : Option String → Option String → Option String → List Problem
  policy_alignment (some stated) id (some certified) =
      when (not (certified == stated)) policy_hash_differs
  policy_alignment none (some id) (some certified) =
      when (not (certified == policy_hash_from_policy_id id)) policy_id_differs
  policy_alignment _ _ _ = []

  unfoldable pub unauthorized : ℕ → List Value → List Problem
  unauthorized index [] = []
  unauthorized index (obj call ∷ rest) =
      when (not (is_text authorized (get "authorization_status" call))) (not_authorized index)
      ++ unauthorized (suc index) rest
  unauthorized index (_ ∷ rest) = unauthorized (suc index) rest

  unfoldable pub validate_tool_use_trace_certificate_alignment : Fields → Fields → List Problem
  unfolding unauthorized
  validate_tool_use_trace_certificate_alignment trace certificate =
      when (differ (as_str (get "trace_hash" trace)) (as_str (get "trace_hash" certificate)))
        trace_hash_differs
      ++ (policy_alignment (as_str (get "policy_hash" trace)) (as_str (get "policy_id" trace))
            (as_str (get "policy_hash" certificate))
          ++ (if is_text release_certificate_status (get "status" certificate)
              then unauthorized 0 (list_or_empty (as_list (get "tool_calls" trace)))
              else []))

  unfoldable pub validate_tool_use_release_readiness : Fields → Fields → List Problem
  unfolding validate_tool_use_trace_certificate_alignment
  validate_tool_use_release_readiness trace certificate =
      when (not (is_text release_certificate_status (get "status" certificate))) not_released
      ++ validate_tool_use_trace_certificate_alignment trace certificate
