-- ===== src/Examples/Replays.antt =====
-- Witnesses of the theorems on replays and on tool-use validation.
use pcs_core.Prelude.{String, [], none, some, ◌≡◌, ◌↔◌, ◌⊎◌, refl, true, ℕ}
use pcs_core.Json.{Value, str, obj, arr, Items, nil, cons, Fields, end, field, as_list, to_list}
use pcs_core.Json.Dict.{get}
use pcs_core.Json.Text.{text_or}
use pcs_core.Hash.{signature_field, canonical_hash_legacy}
use pcs_core.Runtime.{genesis_hash}
use pcs_core.Runtime.Event.{compute_trace_hash}
use pcs_core.Runtime.Chain.Meaning.{IsChained}
use pcs_core.Runtime.Deny.{list_or_empty}
use pcs_core.Runtime.ToolUse.Compiler.{denied_calls}
use pcs_core.ToolValidate.{validate_tool_use_release_readiness, signature_or_digest_valid}
use pcs_core.ToolValidate.Readiness.{IsReady, release_readiness_iff, readiness-denied_calls}
use pcs_core.ToolValidate.Signed.{signature_or_digest_valid_iff}
use pcs_core.Replay.{recompute_pfcore_trace_hashes, claim_class_rank, relink}
use pcs_core.Replay.Run.{ReplayResult, replay_trace}
use pcs_core.Replay.Certificate.{source_claim, build_replay_certificate, run_replay_trace}
use pcs_core.Replay.Match.{replay-IsChained}
use pcs_core.Replay.Roundtrip.{replay-recomputed}
use pcs_core.Replay.Claims.{
  IsValidated, IsRejected, replay_certificate-rank, run_replay_trace-outcome,
}
use pcs_core.Examples.{demo}
use pcs_core.Examples.ToolUses.{stale_items, stale_trace}

abbrev replayed : Fields
replayed = recompute_pfcore_trace_hashes ⦃py = demo⦄ stale_trace

roundtrip_example : (replay_trace ⦃py = demo⦄ replayed none).matches ≡ true
roundtrip_example = replay-recomputed ⦃py = demo⦄ stale_trace refl

abbrev relinked : Items
relinked = relink ⦃py = demo⦄ genesis_hash stale_items

replayed_events : get "events" replayed ≡ arr relinked
unfolding recompute_pfcore_trace_hashes get pcs_core.Runtime.Compile.seal_trace
    pcs_core.Json.Dict.put
replayed_events = refl

chained_example :
    IsChained ⦃py = demo⦄ genesis_hash (to_list relinked)
    × (text_or ⦃py = demo⦄ "" (get "trace_hash" replayed) ≡ compute_trace_hash ⦃py = demo⦄ replayed)
chained_example =
    replay-IsChained ⦃py = demo⦄ replayed relinked replayed_events (unfold relink in tt)
      roundtrip_example

abbrev outcome_of : ReplayResult
outcome_of = replay_trace ⦃py = demo⦄ replayed none

rank_example :
    (c : String) × (q : ℕ) × (get "claim_class"
        (build_replay_certificate ⦃py = demo⦄ replayed outcome_of)
      ≡ str c)
    × (claim_class_rank c ≡ some q)
    × (((c ≡ "OutOfScope") × (q ≡ 0))
        ⊎ ((outcome_of.matches ≡ true) × (c ≡ source_claim ⦃py = demo⦄ replayed)))
rank_example = replay_certificate-rank ⦃py = demo⦄ replayed outcome_of

run_example :
    IsValidated ⦃py = demo⦄ outcome_of.matches (run_replay_trace ⦃py = demo⦄ replayed none)
    ⊎ IsRejected ⦃py = demo⦄ (run_replay_trace ⦃py = demo⦄ replayed none)
run_example = run_replay_trace-outcome ⦃py = demo⦄ replayed none

abbrev authorized_call : Value
authorized_call =
    obj (field "tool_name" (str "search") (field "authorization_status" (str "authorized") end))

abbrev call_trace : Fields
call_trace =
    field "tool_calls" (arr (cons authorized_call nil)) (field "policy_hash" (str "sha256:p") end)

abbrev certificate : Fields
certificate = field "status" (str "CertificateChecked") (field "policy_hash" (str "sha256:p") end)

ready_example :
    (validate_tool_use_release_readiness ⦃py = demo⦄ call_trace certificate ≡ [])
    ↔ IsReady ⦃py = demo⦄ call_trace certificate
ready_example = release_readiness_iff ⦃py = demo⦄ call_trace certificate

ready : validate_tool_use_release_readiness ⦃py = demo⦄ call_trace certificate ≡ []
unfolding validate_tool_use_release_readiness get
ready = refl

denied_example :
    denied_calls ⦃py = demo⦄ (list_or_empty ⦃py = demo⦄ (as_list (get "tool_calls" call_trace)))
    ≡ []
denied_example = readiness-denied_calls ⦃py = demo⦄ call_trace certificate ready

signed_example :
    (signature_or_digest_valid ⦃py = demo⦄ certificate ≡ [])
    ↔ (get signature_field certificate ≡ str (canonical_hash_legacy ⦃py = demo⦄ certificate))
signed_example = signature_or_digest_valid_iff ⦃py = demo⦄ certificate
