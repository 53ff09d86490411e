-- ===== src/Replay/Compare.antt =====
-- The comparison of a stored trace with a recomputed one in python/pcs_core/pf_core_replay.py.
use Prim.Native.String.{◌++◌ as str_append}
use pcs_core.Prelude.{
  ℕ, suc, String, List, [], ◌∷◌, ◌++◌, Option, some, not, ◌==◌, if◌then◌else◌, elem, when, eqb,
  length, sort_texts,
}
use pcs_core.Prelude.Int.{pos}
use pcs_core.Json.{Value, str, int, Fields, as_dict, as_list}
use pcs_core.Json.Dict.{get, keys}
use pcs_core.Json.Text.{text_or, indexed}
use pcs_core.Json.Equal.{values_equal}
use pcs_core.Host.{Host}

abbrev pub hash_compare_keys : List String
hash_compare_keys = "trace_hash" ∷ "event_hash" ∷ "signature_or_digest" ∷ []

abbrev pub chain_keys : List String
chain_keys = "event_hash" ∷ "previous_event_hash" ∷ "signature_or_digest" ∷ []

abbrev pub trace_keys : List String
trace_keys = "trace_id" ∷ "workflow_id" ∷ "policy_hash" ∷ "contract_hash" ∷ "claim_class" ∷ []

pub record ReplayDiff : Type 0 where
  pub path : String
  pub expected : Value
  pub actual : Value

-- The keys that the first list has not.
abbrev new_keys : List String → List String → List String
new_keys seen [] = []
new_keys seen (k ∷ ks) = when (not (elem k seen)) k ++ new_keys seen ks

abbrev not_compared : List String → List String
not_compared [] = []
not_compared (k ∷ ks) = when (not (elem k hash_compare_keys)) k ++ not_compared ks

-- `sorted(set(expected) | set(actual))` without the keys that are skipped
unfoldable pub compared_keys : Fields → Fields → List String
compared_keys expected actual =
    not_compared (sort_texts (keys expected ++ new_keys (keys expected) (keys actual)))

module _ ⦃py : Host⦄ where
  unfoldable pub diffs_at : (String → String) → List String → Fields → Fields → List ReplayDiff
  diffs_at path [] a b = []
  diffs_at path (k ∷ ks) a b =
      when (not (values_equal (get k a) (get k b)))
        (record { path = path k; expected = get k a; actual = get k b })
      ++ diffs_at path ks a b

  abbrev pub in_event : ℕ → String → String
  in_event i k = str_append (indexed "events" i) (str_append "." k)

  abbrev pub chain_diffs_at : ℕ → Option Fields → Option Fields → List ReplayDiff
  chain_diffs_at i (some a) (some b) = diffs_at (in_event i) chain_keys a b
  chain_diffs_at i _ _ = []

  unfoldable pub chain_diffs : ℕ → List Value → List Value → List ReplayDiff
  unfolding diffs_at
  chain_diffs i (a ∷ vs) (b ∷ ws) =
      chain_diffs_at i (as_dict a) (as_dict b) ++ chain_diffs (suc i) vs ws
  chain_diffs i _ _ = []

  abbrev length_diff : List Value → List Value → ReplayDiff
  length_diff a b = record {
    path = "events.length";
    expected = int (pos (length a));
    actual = int (pos (length b));
  }

  abbrev pub compare_events : Option (List Value) → Option (List Value) → List ReplayDiff
  compare_events (some a) (some b) =
      if eqb (length a) (length b) then chain_diffs 0 a b else length_diff a b ∷ []
  compare_events _ _ = []

  abbrev pub compare_trace_hashes : String → String → List ReplayDiff
  compare_trace_hashes a b =
      when (not (a == b)) (record { path = "trace_hash"; expected = str a; actual = str b })

  -- _compare_hash_chain
  unfoldable pub compare_hash_chain : Fields → Fields → List ReplayDiff
  unfolding chain_diffs
  compare_hash_chain original recomputed =
      compare_trace_hashes (text_or "" (get "trace_hash" original))
        (text_or "" (get "trace_hash" recomputed))
      ++ compare_events (as_list (get "events" original)) (as_list (get "events" recomputed))

  abbrev content_diffs_at : ℕ → Option Fields → Option Fields → List ReplayDiff
  content_diffs_at i (some a) (some b) = diffs_at (in_event i) (compared_keys a b) a b
  content_diffs_at i _ _ = []

  abbrev content_diffs : ℕ → List Value → List Value → List ReplayDiff
  content_diffs i (a ∷ vs) (b ∷ ws) =
      content_diffs_at i (as_dict a) (as_dict b) ++ content_diffs (suc i) vs ws
  content_diffs i _ _ = []

  abbrev compare_contents : Option (List Value) → Option (List Value) → List ReplayDiff
  compare_contents (some a) (some b) = content_diffs 0 a b
  compare_contents _ _ = []

  -- _compare_traces
  unfoldable pub compare_traces : Fields → Fields → List ReplayDiff
  compare_traces expected actual =
      compare_hash_chain expected actual
      ++ (diffs_at (λ k. k) trace_keys expected actual
          ++ compare_contents (as_list (get "events" expected)) (as_list (get "events" actual)))
