-- ===== src/Replay/Certificate.antt =====
-- The certificate, the check result and the exit code of a replay in python/pcs_core/pf_core_replay.py.
use Prim.Native.String.{◌++◌ as str_append}
use pcs_core.Prelude.{
  ℕ, String, List, [], ◌∷◌, ◌++◌, map, length, Option, none, some, Bool, true, false, not, ◌&&◌,
  if◌then◌else◌,
}
use pcs_core.Prelude.Int.{pos}
use pcs_core.Json.{Value, bool, str, int, obj, arr, nil, cons, Fields, end, field, texts, as_list}
use pcs_core.Json.Dict.{lookup, get, put}
use pcs_core.Json.Text.{str_of, text_or}
use pcs_core.Host.{Host}
use pcs_core.Hash.{signature_field, canonical_hash_legacy}
use pcs_core.Runtime.{genesis_hash}
use pcs_core.Replay.{replay_preserves_claim_boundary}
use pcs_core.Replay.Compare.{ReplayDiff}
use pcs_core.Replay.Run.{ReplayError, ReplayResult, certificate_schema_invalid, replay_trace}

abbrev replay_disclaimer : String
replay_disclaimer =
    str_append "PF-Core replay-trace recomputes event and trace hashes deterministically and " (
      str_append "compares them to the stored PFCoreTrace.v0. When --source is provided, the " (
        str_append "compiler is re-run from ToolUseTrace.v0 or PFCoreRuntimeObservation.v0. " (
          str_append "ReplayValidated is emitted only when hashes and compiled content match. "
            "Replay certificates cannot upgrade claim_class above the source trace.")))

abbrev pub assumption_refs : Value
assumption_refs =
    arr (texts ("docs/pf-core/assumptions.md" ∷ "docs/pf-core/trusted-boundary.md" ∷ []))

-- The claim class of the certificate, of that of the trace and the outcome.
unfoldable pub replay_claim : String → Bool → String
replay_claim source matches =
    let claimed = if matches then source else "OutOfScope" in
    if matches && not (replay_preserves_claim_boundary source claimed)
    then "OutOfScope"
    else claimed

abbrev obligation : String → String → Bool → Value
obligation kind theorem passed =
    obj (field "kind" (str kind) (field "theorem" (str theorem) (field "passed" (bool passed) end)))

abbrev count_of : Option (List Value) → ℕ
count_of none = 0
count_of (some events) = length events

pub data ReplayIssue : Type 0 where
  replay_error : ReplayError → ReplayIssue
  replay_mismatch : ReplayDiff → ReplayIssue

abbrev error_issues : Option ReplayError → List ReplayIssue
error_issues none = []
error_issues (some e) = replay_error e ∷ []

-- The fields of the check result that depend on the replay.
pub record ReplayCheck : Type 0 where
  pub status : String
  pub claim_class : String
  pub issues : List ReplayIssue
  pub boundary_passed : Bool
  pub replay_match : Bool
  pub original_trace_hash : String
  pub recomputed_trace_hash : String
  pub certificate : Option Fields

module _ ⦃py : Host⦄ where
  abbrev id_or_unknown : Option Value → String
  id_or_unknown none = "unknown"
  id_or_unknown (some v) = str_of v

  abbrev pub source_claim : Fields → String
  source_claim trace = text_or "RuntimeChecked" (get "claim_class" trace)

  unfoldable pub certificate_body : Fields → ReplayResult → Fields
  certificate_body trace r =
      let claim = replay_claim (source_claim trace) r.matches in
      field "schema_version" (str "v0") (
        field "artifact_type" (str "PFCoreCertificate.v0") (
          field "certificate_id"
            (str (str_append "pfcore-replay-" (id_or_unknown (lookup "trace_id" trace))))
            (field "trace_hash" (str r.original_trace_hash) (
              field "contract_hash" (str (text_or genesis_hash (get "contract_hash" trace))) (
                field "policy_hash" (str (text_or genesis_hash (get "policy_hash" trace))) (
                  field "claim_class" (str claim) (
                    field "checker" (str "pcs-core") (
                      field "checker_version" (str "0.1.0") (
                        field "assumption_refs" assumption_refs (
                          field "obligations"
                            (arr (
                              cons (obligation "TraceReplay" "trace_hash_replay" r.matches) (
                                cons
                                  (obligation "ReplayClaimBoundary"
                                    "replay_preserves_claim_boundary"
                                    (replay_preserves_claim_boundary (source_claim trace) claim))
                                  nil)))
                            (field "replay_match" (bool r.matches) (
                              field "original_trace_hash" (str r.original_trace_hash) (
                                field "recomputed_trace_hash" (str r.recomputed_trace_hash) (
                                  field "disclaimer" (str replay_disclaimer) (
                                    field "event_count"
                                      (int (pos (count_of (as_list (get "events" trace)))))
                                      (field "source_repo"
                                        (str (
                                          text_or "https://github.com/example/pcs-core"
                                            (get "source_repo" trace)))
                                        (field "source_commit"
                                          (str (text_or "0000000" (get "source_commit" trace)))
                                          (field signature_field (str genesis_hash)
                                            end))))))))))))))))))

  unfoldable pub build_replay_certificate : Fields → ReplayResult → Fields
  build_replay_certificate trace r =
      let cert = certificate_body trace r in
      put signature_field (str (canonical_hash_legacy cert)) cert

  abbrev pub checked_claim : String → Bool → Option Fields → String
  checked_claim source matches (some certificate) =
      text_or "OutOfScope" (get "claim_class" certificate)
  checked_claim source true none = source
  checked_claim source false none = "OutOfScope"

  -- build_replay_check_result, of the trace, the outcome and its certificate
  unfoldable pub build_replay_check_result : Fields → ReplayResult → Option Fields → ReplayCheck
  build_replay_check_result trace r certificate =
      let claim = checked_claim (source_claim trace) r.matches certificate in
      record {
        status = if r.matches then "ReplayValidated" else "Rejected";
        claim_class = claim;
        issues = error_issues r.error ++ map replay_mismatch r.diffs;
        boundary_passed = replay_preserves_claim_boundary (source_claim trace) claim;
        replay_match = r.matches;
        original_trace_hash = r.original_trace_hash;
        recomputed_trace_hash = r.recomputed_trace_hash;
        certificate = certificate;
      }

  -- The outcome and the certificate after the schema check of the certificate.
  abbrev pub certified : Fields → ReplayResult → List String → ReplayResult × Option Fields
  certified trace r [] = (r, some (build_replay_certificate trace r))
  certified trace r (e ∷ es) = (
    record {
      matches = false;
      original_trace_hash = r.original_trace_hash;
      recomputed_trace_hash = r.recomputed_trace_hash;
      diffs = r.diffs;
      error = some (certificate_schema_invalid (e ∷ es));
      recomputed_trace = none;
    },
    none,
  )

  abbrev pub settle : Fields → ReplayResult → ReplayResult × Option Fields
  settle trace r =
      if r.matches
      then certified trace r
          (py.schema_errors (obj (build_replay_certificate trace r)) "PFCoreCertificate.v0")
      else (r, none)

  -- The exit code and the check result.
  abbrev pub report : Fields → ReplayResult × Option Fields → ℕ × ReplayCheck
  report trace (r, certificate) =
      (if r.matches then 0 else 1, build_replay_check_result trace r certificate)

  unfoldable pub run_replay_trace : Fields → Option (Option String × Fields) → ℕ × ReplayCheck
  run_replay_trace original source =
      report original (settle original (replay_trace original source))
