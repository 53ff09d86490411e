-- ===== src/Runtime/Chain.antt =====
-- validate_pfcore_trace_hash_chain of pf_core_runtime.py. An error carries the index of its event, and
-- the hashes that its message prints.
pub mod Meaning
use pcs_core.Prelude.{
  ℕ, suc, String, List, [], ◌∷◌, ◌++◌, Option, none, some, Bool, true, false, not, ◌==◌, when,
  if◌then◌else◌, Result, ok, err,
}
use pcs_core.Json.{Value, null, bool, int, float, str, arr, obj, Fields, as_dict, as_list, truthy}
use pcs_core.Json.Dict.{get}
use pcs_core.Json.Text.{text_or, indexed}
use pcs_core.Host.{Host}
use Prim.Native.String.{◌++◌ as str_append}
use pcs_core.Runtime.{RuntimeError, genesis_hash, normalize_hash}
use pcs_core.Runtime.Action.{assert_claim_class_allowed, validate_resource_scope}
use pcs_core.Runtime.Event.{compute_event_hash, compute_trace_hash}

pub data ChainError : Type 0 where
  trace_invalid : ChainError
  event_invalid : ℕ → ChainError
  invalid_previous : ℕ → ChainError
  previous_mismatch : ℕ → String → String → ChainError
  invalid_event_hash : ℕ → ChainError
  event_hash_mismatch : ℕ → String → String → ChainError
  missing_trace_hash : ChainError
  invalid_trace_hash : ChainError
  trace_hash_mismatch : String → String → ChainError
  raised : RuntimeError → ChainError

-- The error that an exception handler appends.
abbrev pub caught : Result RuntimeError (Unit {0}) → List ChainError
caught (ok u) = []
caught (err e) = raised e ∷ []

abbrev pub scope_path : ℕ → String
scope_path i = str_append (indexed "events" i) ".action"

module _ ⦃py : Host⦄ where
  abbrev pub previous_field : Fields → Result RuntimeError String
  previous_field event = normalize_hash (text_or "" (get "previous_event_hash" event))

  abbrev pub hash_field : Fields → Result RuntimeError String
  hash_field event = normalize_hash (text_or "" (get "event_hash" event))

  -- The loop over the events; the text is the hash of the event before.
  unfoldable pub chain_errors : String → ℕ → List Value → List ChainError
  chain_errors previous i [] = []
  chain_errors previous i (obj event ∷ rest) =
      let skipped = chain_errors previous (suc i) rest in
      elim (previous_field event) [
        | err e ↦ invalid_previous i ∷ skipped
        | ok stated ↦
            when (not (stated == previous)) (previous_mismatch i previous stated)
            ++ elim (hash_field event) [
              | err e ↦ invalid_event_hash i ∷ chain_errors previous (suc i) rest
              | ok actual ↦
                  when (not (actual == compute_event_hash event))
                    (event_hash_mismatch i (compute_event_hash event) actual)
                  ++ chain_errors actual (suc i) rest
            ]
      ]
  chain_errors previous i (_ ∷ rest) = event_invalid i ∷ chain_errors previous (suc i) rest

  abbrev compare_trace_hash : Fields → Result RuntimeError String → List ChainError
  compare_trace_hash trace (err e) = invalid_trace_hash ∷ []
  compare_trace_hash trace (ok actual) =
      when (not (actual == compute_trace_hash trace))
        (trace_hash_mismatch (compute_trace_hash trace) actual)

  abbrev pub trace_hash_errors : Fields → Value → List ChainError
  trace_hash_errors trace (str h) = compare_trace_hash trace (normalize_hash h)
  trace_hash_errors trace _ = missing_trace_hash ∷ []

  abbrev pub claim_errors : Fields → Value → List ChainError
  claim_errors trace (str claim) = caught (
      assert_claim_class_allowed claim
        (if truthy (get "proof_ref" trace) then true else truthy (get "proof_term_ref" trace)))
  claim_errors trace _ = []

  abbrev scope_errors_of : ℕ → Option Fields → List ChainError
  scope_errors_of i none = []
  scope_errors_of i (some action) = caught (validate_resource_scope (scope_path i) action)

  unfoldable pub scope_errors : ℕ → List Value → List ChainError
  scope_errors i [] = []
  scope_errors i (obj event ∷ rest) =
      scope_errors_of i (as_dict (get "action" event)) ++ scope_errors (suc i) rest
  scope_errors i (_ ∷ rest) = scope_errors (suc i) rest

  -- What follows the early return for a trace without trace_hash.
  abbrev tail_errors : Fields → List Value → Value → List ChainError
  tail_errors trace events null = []
  tail_errors trace events h =
      trace_hash_errors trace h
      ++ claim_errors trace (get "claim_class" trace)
      ++ scope_errors 0 events

  abbrev chain_result : Fields → Option (List Value) → List ChainError
  chain_result trace none = trace_invalid ∷ []
  chain_result trace (some events) =
      chain_errors genesis_hash 0 events ++ tail_errors trace events (get "trace_hash" trace)

  unfoldable pub validate_pfcore_trace_hash_chain : Fields → List ChainError
  unfolding chain_errors scope_errors
  validate_pfcore_trace_hash_chain trace = chain_result trace (as_list (get "events" trace))
