-- ===== src/Replay.antt =====
-- The claim boundary of python/pcs_core/pf_core_replay.py, and the hashes that a replay recomputes.
pub mod Chain
pub mod Compare
pub mod Run
pub mod Idempotent
pub mod Match
pub mod Roundtrip
pub mod Certificate
pub mod Claims
use pcs_core.Prelude.{ℕ, String, Option, none, some, Bool, false, ◌==◌, if◌then◌else◌, leb}
use pcs_core.Json.{Value, obj, arr, Items, nil, cons, Fields}
use pcs_core.Json.Dict.{get, put}
use pcs_core.Host.{Host}
use pcs_core.Runtime.{genesis_hash}
use pcs_core.Runtime.Compile.{link, seal_trace, hash_of}

unfoldable pub claim_class_rank : String → Option ℕ
claim_class_rank c =
    if c == "OutOfScope"
    then some 0
    else if c == "SchemaValidated"
    then some 1
    else if c == "RuntimeChecked"
    then some 2
    else if c == "ReplayValidated"
    then some 3
    else if c == "AssumptionDeclared"
    then some 4
    else if c == "CertificateChecked"
    then some 5
    else if c == "LeanKernelChecked"
    then some 6
    else none

abbrev rank_within : Option ℕ → Option ℕ → Bool
rank_within (some source) (some replay) = leb replay source
rank_within _ _ = false

unfoldable pub replay_preserves_claim_boundary : String → String → Bool
unfolding claim_class_rank
replay_preserves_claim_boundary source replay =
    rank_within (claim_class_rank source) (claim_class_rank replay)

module _ ⦃py : Host⦄ where
  -- The loop of recompute_pfcore_trace_hashes: every event takes its place in the chain anew.
  unfoldable pub relink : String → Items → Items
  relink previous nil = nil
  relink previous (cons (obj event) rest) =
      let linked = link previous event in cons (obj linked) (relink (hash_of linked) rest)
  relink previous (cons v rest) = cons v (relink previous rest)

  abbrev pub recompute : Fields → Value → Fields
  recompute trace (arr events) = seal_trace (put "events" (arr (relink genesis_hash events)) trace)
  recompute trace _ = trace

  unfoldable pub recompute_pfcore_trace_hashes : Fields → Fields
  unfolding relink
  recompute_pfcore_trace_hashes trace = recompute trace (get "events" trace)
