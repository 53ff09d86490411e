-- ===== src/Runtime/Event/Sealing.antt =====
-- A sealed event states its own hash, in normal form.
use Prim.Native.String.{count}
use text.Mathlib.TextLemmas.{length-append}
use text.Mathlib.TextPositions.{starts_with-append}
use pcs_core.Prelude.{
  ◌+◌, String, [], ◌∷◌, ◌≡◌, refl, ap, sym, ◌∙◌, true, false, ◌==◌, eq_iff, Bool-cases, inl, inr,
  arith, starts_with, ok,
}
use pcs_core.Json.{str, Fields}
use pcs_core.Json.Dict.{get, get-put, get-put_self, without-put}
use pcs_core.Json.Text.{text_or, str_of}
use pcs_core.Host.{Host}
use pcs_core.Hash.{signature_field, canonical_hash_legacy, prefixed_digest}
use pcs_core.Runtime.{normalize_hash}
use pcs_core.Runtime.Event.{compute_event_hash, compute_trace_hash, seal_event}

normalize_at :
    (v : String) → starts_with v "sha256:" ≡ true → count v ≡ 71 → normalize_hash v ≡ ok v
unfolding normalize_hash
normalize_at v h c = ground arith

not_blank : (v : String) → count v ≡ 71 → (v == "") ≡ false
not_blank v c = elim (Bool-cases (v == "")) [
  | inl e ↦ absurd (omega (arith, c, ap count ((eq_iff v "").0 e)))
  | inr e ↦ e
]

module _ ⦃py : Host⦄ where
  count-prefixed : (t : String) → count (prefixed_digest t) ≡ 71
  unfolding prefixed_digest
  count-prefixed t = length-append "sha256:" (py.sha256 t) ∙ ap (λ n. 7 + n) (py.count-sha256 t)

  starts_with-prefixed : (t : String) → starts_with (prefixed_digest t) "sha256:" ≡ true
  unfolding prefixed_digest
  starts_with-prefixed t = starts_with-append "sha256:" (py.sha256 t)

  -- A computed digest is in normal form.
  pub normalize-digest :
      (d : Fields) → normalize_hash (canonical_hash_legacy d) ≡ ok (canonical_hash_legacy d)
  normalize-digest d =
      normalize_at (canonical_hash_legacy d)
        (unfold canonical_hash_legacy in starts_with-prefixed _)
        (unfold canonical_hash_legacy in count-prefixed _)

  pub text_or-digest :
      (d : Fields) → text_or "" (str (canonical_hash_legacy d)) ≡ canonical_hash_legacy d
  unfolding str_of
  text_or-digest d =
      rw (not_blank (canonical_hash_legacy d) (unfold canonical_hash_legacy in count-prefixed _))

  -- The hash of an event does not cover the two fields that hold it.
  pub compute_event_hash-seal :
      (event : Fields) → compute_event_hash (seal_event event) ≡ compute_event_hash event
  unfolding compute_event_hash seal_event
  compute_event_hash-seal event = ap canonical_hash_legacy (
      without-put ("event_hash" ∷ signature_field ∷ []) signature_field _ _ refl
      ∙ without-put ("event_hash" ∷ signature_field ∷ []) "event_hash" _ event refl)

  get-seal_hash :
      (event : Fields) → get "event_hash" (seal_event event) ≡ str (compute_event_hash event)
  unfolding seal_event
  get-seal_hash event = get-put signature_field "event_hash" _ _ ∙ get-put_self "event_hash" _ event

  -- Every other field is as it was.
  pub get-seal :
      (k : String) (event : Fields)
      → (signature_field == k) ≡ false
      → ("event_hash" == k) ≡ false
      → get k (seal_event event) ≡ get k event
  unfolding seal_event
  get-seal k event s e =
      get-put signature_field k _ _ ∙ rw s (get-put "event_hash" k _ event ∙ rw e refl)

  pub text-seal_hash :
      (event : Fields) → text_or "" (get "event_hash" (seal_event event)) ≡ compute_event_hash event
  text-seal_hash event =
      ap (text_or "") (get-seal_hash event) ∙ unfold compute_event_hash in text_or-digest _

  pub normalize-event_hash :
      (event : Fields) → normalize_hash (compute_event_hash event) ≡ ok (compute_event_hash event)
  unfolding compute_event_hash
  normalize-event_hash event = normalize-digest _

  -- A sealed event states the hash that is computed for it.
  pub hash_field-seal :
      (event : Fields)
      → normalize_hash (text_or "" (get "event_hash" (seal_event event)))
        ≡ ok (compute_event_hash (seal_event event))
  hash_field-seal event =
      ap normalize_hash (text-seal_hash event)
      ∙ normalize-event_hash event
      ∙ ap ok (sym (compute_event_hash-seal event))

  pub text_or-event_hash :
      (event : Fields) → text_or "" (str (compute_event_hash event)) ≡ compute_event_hash event
  unfolding compute_event_hash
  text_or-event_hash event = text_or-digest _

  pub normalize-trace_hash :
      (trace : Fields) → normalize_hash (compute_trace_hash trace) ≡ ok (compute_trace_hash trace)
  unfolding compute_trace_hash
  normalize-trace_hash trace = normalize-digest _
