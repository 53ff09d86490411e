-- ===== src/Replay/Match.antt =====
-- What a replay without a source that matches says of the stored trace.
use pcs_core.Prelude.{
  ℕ, suc, String, List, [], ◌∷◌, ◌++◌, ◌≡◌, refl, ap, subst, ◌∙◌, Option, none, some, Bool, true,
  false, not, if◌then◌else◌, eqb, length, when, eq_iff, &&-eq-true,
}
use pcs_core.Json.{Value, str, arr, obj, Items, nil, cons, Fields, to_list, as_list}
use pcs_core.Json.Dict.{lookup, get, put, or_null}
use pcs_core.Json.Equal.{values_equal, texts_equal}
use pcs_core.Json.Text.{text_or}
use pcs_core.Host.{Host}
use pcs_core.Hash.{signature_field}
use pcs_core.Runtime.{genesis_hash}
use pcs_core.Runtime.Event.{compute_event_hash, compute_trace_hash, seal_event}
use pcs_core.Runtime.Event.Sealing.{compute_event_hash-seal, text_or-digest}
use pcs_core.Runtime.Chain.Meaning.{IsChained, nil_of_append}
use pcs_core.Runtime.Compile.{link, hash_of, seal_trace}
use pcs_core.Runtime.Compile.Valid.{trace_hash_of_seal, genesis-IsNormal}
use pcs_core.Replay.{relink, recompute, recompute_pfcore_trace_hashes}
use pcs_core.Replay.Chain.{AllObjects, relink-IsChained}
use pcs_core.Replay.Compare.{
  ReplayDiff, chain_keys, diffs_at, in_event, chain_diffs, compare_events, compare_trace_hashes,
  compare_hash_chain,
}
use pcs_core.Replay.Run.{is_nil_diffs, compared, replay_valid, after_schema, replay_trace}
use pcs_core.Replay.Idempotent.{IsSealed, link-IsSealed, link_same, put_same, lookup-seal_events}

pub get_of : (k : String) (v : Value) (d : Fields) → lookup k d ≡ some v → get k d ≡ v
unfolding get
get_of k v d h = rw h refl

found_text : (o : Option Value) (s : String) → or_null o ≡ str s → o ≡ some (str s)
found_text none s h = cc
found_text (some v) s h = ap some h

found_list : (o : Option Value) (items : Items) → or_null o ≡ arr items → o ≡ some (arr items)
found_list none items h = cc
found_list (some v) items h = ap some h

events_at :
    (d : Fields) (items : Items) → get "events" d ≡ arr items → lookup "events" d ≡ some (arr items)
unfolding get
events_at d items h = found_list (lookup "events" d) items h

stated : (k : String) (s : String) (d : Fields) → get k d ≡ str s → lookup k d ≡ some (str s)
unfolding get
stated k s d h = found_text (lookup k d) s h

module _ ⦃py : Host⦄ where
  equal_keys :
      (b : Bool) (d : ReplayDiff) (rest : List ReplayDiff)
      → when (not b) d ++ rest ≡ []
      → (b ≡ true) × (rest ≡ [])
  equal_keys true d rest h = (refl, h)
  equal_keys false d rest h = cc

  nil_diffs : (ds : List ReplayDiff) → is_nil_diffs ds ≡ true → ds ≡ []
  nil_diffs [] h = refl
  nil_diffs (d ∷ ds) h = cc

  long :
      (b : Bool) (d : ReplayDiff) (ds : List ReplayDiff) → (if b then ds else d ∷ []) ≡ [] → ds ≡ []
  long true d ds h = h
  long false d ds h = cc

  same_text :
      (k s : String) (event linked : Fields)
      → values_equal (get k event) (get k linked) ≡ true
      → lookup k linked ≡ some (str s)
      → lookup k event ≡ some (str s)
  same_text k s event linked h found = stated k s event (
      texts_equal (get k event) s
        (subst (λ v. values_equal (get k event) v ≡ true) (get_of k (str s) linked found) h))

  linked_hash :
      (previous : String) (event : Fields)
      → lookup "previous_event_hash" event ≡ some (str previous)
      → compute_event_hash (link previous event) ≡ compute_event_hash event
  unfolding link
  linked_hash previous event h =
      ap (λ x. compute_event_hash (seal_event x))
        (put_same "previous_event_hash" (str previous) event h)
      ∙ compute_event_hash-seal event

  -- An event whose three hashes equal those of its recomputed form is sealed.
  matched-IsSealed :
      (path : String → String) (previous : String) (event : Fields)
      → diffs_at path chain_keys event (link previous event) ≡ []
      → IsSealed previous event
  unfolding diffs_at
  matched-IsSealed path previous event h =
      let linked = link previous event in
      let s = link-IsSealed previous event in
      let (own, h₁) =
        equal_keys (values_equal (get "event_hash" event) (get "event_hash" linked)) _ _ h in
      let (before, h₂) =
        equal_keys
          (values_equal (get "previous_event_hash" event) (get "previous_event_hash" linked)) _ _
          h₁ in
      let (signed, h₃) =
        equal_keys (values_equal (get signature_field event) (get signature_field linked)) _ _ h₂ in
      let previous_ok =
        same_text "previous_event_hash" previous event linked before s.states_previous in
      let same : compute_event_hash linked ≡ compute_event_hash event =
        linked_hash previous event previous_ok in
      record {
        states_previous = previous_ok;
        states_hash =
            same_text "event_hash" (compute_event_hash linked) event linked own s.states_hash
            ∙ ap (λ x. some (str x)) same;
        states_signature =
            same_text signature_field (compute_event_hash linked) event linked signed
              s.states_signature
            ∙ ap (λ x. some (str x)) same;
      }

  matched_items :
      (i : ℕ) (previous : String) (items : Items)
      → AllObjects items
      → chain_diffs i (to_list items) (to_list (relink previous items)) ≡ []
      → relink previous items ≡ items
  unfolding chain_diffs relink
  matched_items i previous nil all h = refl
  matched_items i previous (cons (obj event) rest) all h =
      let (first, later) =
        nil_of_append (diffs_at (in_event i) chain_keys event (link previous event)) _ h in
      rw
        (
          matched_items (suc i) (hash_of (link previous event)) rest all later,
          link_same previous event (matched-IsSealed (in_event i) previous event first),
        )
        refl
  matched_items i previous (cons (_) rest) all h = elim all [ ]

  sealed_hash :
      (original : Fields) (items : Items)
      → get "events" original ≡ arr items
      → relink genesis_hash items ≡ items
      → text_or "" (get "trace_hash" (recompute original (arr items))) ≡ compute_trace_hash original
  sealed_hash original items e same =
      ap (λ x. text_or "" (get "trace_hash" (seal_trace (put "events" (arr x) original)))) same
      ∙ ap (λ t. text_or "" (get "trace_hash" (seal_trace t)))
          (put_same "events" (arr items) original (events_at original items e))
      ∙ ap (text_or "") (trace_hash_of_seal original)
      ∙ unfold compute_trace_hash in text_or-digest _

  same_lengths : (a b : List Value) → compare_events (some a) (some b) ≡ [] → chain_diffs 0 a b ≡ []
  same_lengths a b h = long (eqb (length a) (length b)) _ (chain_diffs 0 a b) h

  matched_trace :
      (original : Fields) (items : Items)
      → get "events" original ≡ arr items
      → AllObjects items
      → (compared original
          (recompute original (arr items))
          (compare_hash_chain original (recompute original (arr items)))).matches
        ≡ true
      → (relink genesis_hash items ≡ items)
        × (text_or "" (get "trace_hash" original) ≡ compute_trace_hash original)
  unfolding compare_hash_chain
  matched_trace original items e all h =
      let sealed = recompute original (arr items) in
      let (none_differ, hashes) = &&-eq-true _ _ h in
      let (_, events) =
        nil_of_append
          (compare_trace_hashes (text_or "" (get "trace_hash" original))
            (text_or "" (get "trace_hash" sealed)))
          _ (nil_diffs _ none_differ) in
      let relinked = relink genesis_hash items in
      let found : get "events" sealed ≡ arr relinked =
        get_of "events" (arr relinked) sealed (lookup-seal_events (arr relinked) original) in
      let stored =
        subst (λ v. compare_events (as_list v) (as_list (get "events" sealed)) ≡ []) e events in
      let both = subst (λ v. compare_events (some (to_list items)) (as_list v) ≡ []) found stored in
      let same =
        matched_items 0 genesis_hash items all
          (same_lengths (to_list items) (to_list relinked) both) in
      (same, (eq_iff _ _).0 hashes ∙ sealed_hash original items e same)

  after_check :
      (original : Fields) (errors : List String)
      → (after_schema original none errors).matches ≡ true
      → (replay_valid original none).matches ≡ true
  after_check original [] h = h
  after_check original (e ∷ es) h = cc

  -- Where the replay of a trace of dictionaries without a source matches, its events are chained from
  -- the genesis hash on, each with its own hash as computed, and the trace states its computed hash.
  pub replay-IsChained :
      (original : Fields) (items : Items)
      → get "events" original ≡ arr items
      → AllObjects items
      → (replay_trace original none).matches ≡ true
      → IsChained genesis_hash (to_list items)
        × (text_or "" (get "trace_hash" original) ≡ compute_trace_hash original)
  unfolding replay_trace recompute_pfcore_trace_hashes
  replay-IsChained original items e all h =
      let checked = after_check original (py.schema_errors (obj original) "PFCoreTrace.v0") h in
      let (same, hash) = matched_trace original items e all (
        subst
          (λ v.
            (compared original (recompute original v)
              (compare_hash_chain original (recompute original v))).matches
            ≡ true)
          e checked) in
      (
        subst (λ x. IsChained genesis_hash (to_list x)) same
            (relink-IsChained genesis_hash items genesis-IsNormal all),
        hash,
      )
