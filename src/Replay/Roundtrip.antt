-- ===== src/Replay/Roundtrip.antt =====
-- A trace whose hashes are recomputed replays with a match.
use pcs_core.Prelude.{
  ℕ, suc, String, [], ◌≡◌, refl, sym, subst, none, some, true, eqb_iff, length, eq_refl,
}
use pcs_core.Json.{Value, str, arr, obj, Items, nil, cons, Fields, to_list, as_list}
use pcs_core.Json.Dict.{lookup, get, put}
use pcs_core.Json.Equal.{values_equal}
use pcs_core.Json.Text.{text_or}
use pcs_core.Host.{Host}
use pcs_core.Hash.{signature_field}
use pcs_core.Runtime.{genesis_hash}
use pcs_core.Runtime.Compile.{link, hash_of, seal_trace}
use pcs_core.Replay.{relink, recompute, recompute_pfcore_trace_hashes}
use pcs_core.Replay.Compare.{
  chain_keys, diffs_at, in_event, chain_diffs, compare_events, compare_hash_chain,
}
use pcs_core.Replay.Run.{compared, replay_trace}
use pcs_core.Replay.Idempotent.{IsSealed, link-IsSealed, recompute_idem, lookup-seal_events}
use pcs_core.Replay.Match.{get_of}

module _ ⦃py : Host⦄ where
  text_equals_itself : (s : String) → values_equal (str s) (str s) ≡ true
  unfolding values_equal
  text_equals_itself s = eq_refl s

  differs_nowhere :
      (k s : String) (e : Fields)
      → lookup k e ≡ some (str s)
      → values_equal (get k e) (get k e) ≡ true
  differs_nowhere k s e h = rw (get_of k (str s) e h) (text_equals_itself s)

  sealed_matches :
      (path : String → String) (previous : String) (e : Fields)
      → IsSealed previous e
      → diffs_at path chain_keys e e ≡ []
  unfolding diffs_at
  sealed_matches path previous e s =
      rw
        (
          differs_nowhere "event_hash" _ e s.states_hash,
          differs_nowhere "previous_event_hash" _ e s.states_previous,
          differs_nowhere signature_field _ e s.states_signature,
        )
        refl

  relinked_matches :
      (i : ℕ) (previous : String) (items : Items)
      → chain_diffs i (to_list (relink previous items)) (to_list (relink previous items)) ≡ []
  unfolding chain_diffs relink
  relinked_matches i previous nil = refl
  relinked_matches i previous (cons (obj event) rest) =
      rw
        (
          sealed_matches (in_event i) previous (link previous event) (link-IsSealed previous event),
          relinked_matches (suc i) (hash_of (link previous event)) rest,
        )
        refl
  relinked_matches i previous (cons (_) rest) = relinked_matches (suc i) previous rest

  compared_same :
      (trace : Fields)
      → compare_hash_chain trace trace ≡ []
      → (compared trace trace (compare_hash_chain trace trace)).matches ≡ true
  compared_same trace h = rw (h, eq_refl (text_or "" (get "trace_hash" trace))) refl

  same_events :
      (t : Fields) (v : Value)
      → get "events" t ≡ v
      → compare_events (as_list v) (as_list v) ≡ []
      → compare_hash_chain t t ≡ []
  unfolding compare_hash_chain
  same_events t v e h = rw (e, eq_refl (text_or "" (get "trace_hash" t))) h

  recomputed_same :
      (trace : Fields) (v : Value)
      → get "events" trace ≡ v
      → compare_hash_chain (recompute trace v) (recompute trace v) ≡ []
  recomputed_same trace (arr items) e =
      let relinked = relink genesis_hash items in
      let count = length (to_list relinked) in
      let t = seal_trace (put "events" (arr relinked) trace) in
      same_events t (arr relinked)
        (get_of "events" (arr relinked) t (lookup-seal_events (arr relinked) trace))
        (rw ((eqb_iff count count).1 refl) (relinked_matches 0 genesis_hash items))
  recomputed_same trace (_) e = same_events trace _ e refl

  -- A trace whose hashes are recomputed, and that passes its schema, replays with a match.
  pub replay-recomputed :
      (trace : Fields)
      → py.schema_errors (obj (recompute_pfcore_trace_hashes trace)) "PFCoreTrace.v0" ≡ []
      → (replay_trace (recompute_pfcore_trace_hashes trace) none).matches ≡ true
  unfolding replay_trace
  replay-recomputed trace h =
      let t = recompute_pfcore_trace_hashes trace in
      rw h (
        subst (λ x. (compared t x (compare_hash_chain t x)).matches ≡ true)
          (sym (recompute_idem trace))
          (compared_same t (
            unfold recompute_pfcore_trace_hashes in
            recomputed_same trace (get "events" trace) refl)))
