-- ===== src/Replay/Idempotent.antt =====
-- Hashes that are recomputed twice do not change.
use pcs_core.Prelude.{
  String, ◌≡◌, refl, sym, ap, subst, ◌∙◌, some, true, false, ◌==◌, if◌then◌else◌, Bool-cases, inl,
  inr, eq_refl,
}
use pcs_core.Json.{Value, str, arr, obj, Items, nil, cons, Fields, end, field}
use pcs_core.Json.Dict.{lookup, get, put, lookup-put}
use pcs_core.Host.{Host}
use pcs_core.Hash.{signature_field}
use pcs_core.Runtime.{genesis_hash}
use pcs_core.Runtime.Event.{compute_event_hash, compute_trace_hash, seal_event}
use pcs_core.Runtime.Event.Sealing.{compute_event_hash-seal}
use pcs_core.Runtime.Compile.{link, hash_of, seal_trace}
use pcs_core.Runtime.Compile.Valid.{compute_trace_hash-seal}
use pcs_core.Replay.{relink, recompute, recompute_pfcore_trace_hashes}

pub some_inj : {a b : Value} → some a ≡ some b → a ≡ b
some_inj h = cc

-- Writing what is there changes nothing.
pub put_same : (k : String) (v : Value) (d : Fields) → lookup k d ≡ some v → put k v d ≡ d
unfolding lookup put
put_same k v end h = cc
put_same k v (field j w fs) h = elim (Bool-cases (j == k)) [
  | inl e ↦ here e (some_inj (subst (λ b. (if b then some w else lookup k fs) ≡ some v) e h))
  | inr e ↦
      there e (put_same k v fs (subst (λ b. (if b then some w else lookup k fs) ≡ some v) e h))
]
  where
    here :
        (j == k) ≡ true
        → w ≡ v
        → (if j == k then field j v fs else field j w (put k v fs)) ≡ field j w fs
    here e q = rw (e, q) refl

    there :
        (j == k) ≡ false
        → put k v fs ≡ fs
        → (if j == k then field j v fs else field j w (put k v fs)) ≡ field j w fs
    there e q = rw (e, q) refl

pub has_put : (k : String) (v : Value) (d : Fields) → lookup k (put k v d) ≡ some v
has_put k v d = lookup-put k k v d ∙ rw (eq_refl k) refl

pub kept_put :
    (k j : String) (v : Value) (d : Fields) → (k == j) ≡ false → lookup j (put k v d) ≡ lookup j d
kept_put k j v d e = lookup-put k j v d ∙ rw e refl

module _ ⦃py : Host⦄ where
  -- An event that states its place in the chain and its hash twice over.
  pub record IsSealed (previous : String) (event : Fields) : Type 0 where
    pub states_previous : lookup "previous_event_hash" event ≡ some (str previous)
    pub states_hash : lookup "event_hash" event ≡ some (str (compute_event_hash event))
    pub states_signature : lookup signature_field event ≡ some (str (compute_event_hash event))

  seal-IsSealed :
      (previous : String) (event : Fields)
      → lookup "previous_event_hash" event ≡ some (str previous)
      → IsSealed previous (seal_event event)
  unfolding seal_event
  seal-IsSealed previous event h =
      let own = str (compute_event_hash event) in
      let same : compute_event_hash (put signature_field own (put "event_hash" own event))
          ≡ compute_event_hash event =
        unfold seal_event in compute_event_hash-seal event in
      record {
        states_previous =
            kept_put signature_field "previous_event_hash" own (put "event_hash" own event) refl
            ∙ kept_put "event_hash" "previous_event_hash" own event refl
            ∙ h;
        states_hash =
            kept_put signature_field "event_hash" own (put "event_hash" own event) refl
            ∙ has_put "event_hash" own event
            ∙ ap (λ x. some (str x)) (sym same);
        states_signature =
            has_put signature_field own (put "event_hash" own event)
            ∙ ap (λ x. some (str x)) (sym same);
      }

  pub link-IsSealed : (previous : String) (event : Fields) → IsSealed previous (link previous event)
  unfolding link
  link-IsSealed previous event =
      seal-IsSealed previous (put "previous_event_hash" (str previous) event)
        (has_put "previous_event_hash" (str previous) event)

  pub link_same :
      (previous : String) (event : Fields) → IsSealed previous event → link previous event ≡ event
  unfolding link seal_event
  link_same previous event s =
      ap seal_event (put_same "previous_event_hash" (str previous) event s.states_previous)
      ∙ ap (put signature_field (str (compute_event_hash event)))
          (put_same "event_hash" (str (compute_event_hash event)) event s.states_hash)
      ∙ put_same signature_field (str (compute_event_hash event)) event s.states_signature

  pub relink_idem :
      (previous : String) (items : Items)
      → relink previous (relink previous items) ≡ relink previous items
  unfolding relink
  relink_idem previous nil = refl
  relink_idem previous (cons (obj event) rest) =
      let linked = link previous event in
      rw
        (
          link_same previous linked (link-IsSealed previous event),
          relink_idem (hash_of linked) rest,
        )
        refl
  relink_idem previous (cons v rest) = ap (cons v) (relink_idem previous rest)

  seal_trace_idem : (trace : Fields) → seal_trace (seal_trace trace) ≡ seal_trace trace
  unfolding seal_trace
  seal_trace_idem trace =
      let h = str (compute_trace_hash trace) in
      let sealed = put signature_field h (put "trace_hash" h trace) in
      let same : str (compute_trace_hash sealed) ≡ h =
        ap str (unfold seal_trace in compute_trace_hash-seal trace) in
      ap (λ x. put signature_field x (put "trace_hash" x sealed)) same
      ∙ ap (put signature_field h) (
          put_same "trace_hash" h sealed (
            kept_put signature_field "trace_hash" h (put "trace_hash" h trace) refl
            ∙ has_put "trace_hash" h trace))
      ∙ put_same signature_field h sealed (has_put signature_field h (put "trace_hash" h trace))

  pub lookup-seal_events :
      (v : Value) (trace : Fields) → lookup "events" (seal_trace (put "events" v trace)) ≡ some v
  unfolding seal_trace
  lookup-seal_events v trace =
      kept_put signature_field "events" _ _ refl
      ∙ kept_put "trace_hash" "events" _ _ refl
      ∙ has_put "events" v trace

  recompute_again :
      (trace : Fields) (v : Value)
      → get "events" trace ≡ v
      → recompute_pfcore_trace_hashes (recompute trace v) ≡ recompute trace v
  unfolding recompute_pfcore_trace_hashes get
  recompute_again trace (arr items) e =
      let relinked = arr (relink genesis_hash items) in
      let sealed = seal_trace (put "events" relinked trace) in
      let found = lookup-seal_events relinked trace in
      rw found (
        ap (λ x. seal_trace (put "events" (arr x) sealed)) (relink_idem genesis_hash items)
        ∙ ap seal_trace (put_same "events" relinked sealed found)
        ∙ seal_trace_idem (put "events" relinked trace))
  recompute_again trace (_) e = ap (recompute trace) e

  -- Recomputing the hashes of a recomputed trace changes nothing.
  pub recompute_idem :
      (trace : Fields)
      → recompute_pfcore_trace_hashes (recompute_pfcore_trace_hashes trace)
        ≡ recompute_pfcore_trace_hashes trace
  recompute_idem trace =
      unfold recompute_pfcore_trace_hashes in recompute_again trace (get "events" trace) refl
