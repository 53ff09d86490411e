-- ===== src/Replay/Chain.antt =====
-- Recomputed hashes form a chain.
use pcs_core.Prelude.{String, ◌≡◌, refl, sym, ap, subst, ◌∙◌}
use pcs_core.Json.{str, arr, obj, Items, nil, cons, Fields, to_list}
use pcs_core.Json.Dict.{get, put, get-put_self}
use pcs_core.Host.{Host}
use pcs_core.Runtime.{genesis_hash}
use pcs_core.Runtime.Event.{compute_trace_hash}
use pcs_core.Runtime.Chain.Meaning.{IsChained, last, next}
use pcs_core.Runtime.Compile.{link, hash_of}
use pcs_core.Runtime.Compile.Valid.{
  IsNormal, genesis-IsNormal, event_hash-IsNormal, link-previous, link-hash, hash_of-link,
  get-seal_trace, trace_hash_of_seal, compute_trace_hash-seal,
}
use pcs_core.Replay.{relink, recompute, recompute_pfcore_trace_hashes}

-- All entries are dictionaries.
abbrev pub AllObjects : Items → Type 0
AllObjects nil = Unit
AllObjects (cons (obj event) rest) = AllObjects rest
AllObjects (cons _ rest) = ⊥

module _ ⦃py : Host⦄ where
  pub relink-IsChained :
      (previous : String) (items : Items)
      → IsNormal previous
      → AllObjects items
      → IsChained previous (to_list (relink previous items))
  unfolding relink
  relink-IsChained previous nil n h = last previous
  relink-IsChained previous (cons (obj event) rest) n h =
      let linked = link previous event in
      let e = hash_of-link previous event in
      let normal : IsNormal (hash_of linked) =
        subst IsNormal (sym e) (event_hash-IsNormal linked) in
      next (link-previous previous event n) (link-hash previous event) (
        subst (λ x. IsChained x (to_list (relink (hash_of linked) rest))) e
          (relink-IsChained (hash_of linked) rest normal h))
  relink-IsChained previous (cons _ rest) n h = elim h [ ]

  -- What a recomputed trace is.
  pub record IsRecomputed (trace : Fields) : Type 0 where
    pub events : Items
    pub has_events : get "events" trace ≡ arr events
    pub chained : IsChained genesis_hash (to_list events)
    pub sealed : get "trace_hash" trace ≡ str (compute_trace_hash trace)

  recompute-IsRecomputed :
      (trace : Fields) (items : Items)
      → AllObjects items
      → IsRecomputed (recompute trace (arr items))
  recompute-IsRecomputed trace items h =
      let body = put "events" (arr (relink genesis_hash items)) trace in
      record {
        events = relink genesis_hash items;
        has_events = get-seal_trace "events" body refl refl ∙ get-put_self "events" _ trace;
        chained = relink-IsChained genesis_hash items genesis-IsNormal h;
        sealed = trace_hash_of_seal body ∙ ap str (sym (compute_trace_hash-seal body));
      }

  -- Recomputing the hashes of a trace whose events are dictionaries gives a trace whose events state
  -- the hash of the event before them and their own hash as computed, from the genesis hash on, and
  -- that states its own trace hash as computed.
  pub recompute_trace_hashes-IsRecomputed :
      (trace : Fields) (items : Items)
      → get "events" trace ≡ arr items
      → AllObjects items
      → IsRecomputed (recompute_pfcore_trace_hashes trace)
  unfolding recompute_pfcore_trace_hashes
  recompute_trace_hashes-IsRecomputed trace items e h =
      rw (e) (recompute-IsRecomputed trace items h)
