-- ===== src/ToolValidate/Signed.antt =====
-- What a valid signature_or_digest is.
use text.Mathlib.TextPositions.{starts_with-append}
use pcs_core.Prelude.{
  String, [], ◌≡◌, ◌↔◌, refl, sym, ap, ◌∙◌, Option, none, some, Bool, true, false, not, ◌==◌,
  starts_with, if◌then◌else◌, arith, eq_iff, eq_refl,
}
use pcs_core.Json.{Value, str, Fields}
use pcs_core.Json.Dict.{get, put, get-put_self, without-put}
use pcs_core.Host.{Host}
use pcs_core.Hash.{
  signature_field, placeholder_digest, hash_excluded_fields, canonical_hash_legacy, prefixed_digest,
}
use pcs_core.Runtime.Chain.Meaning.{when-eq-nil}
use pcs_core.ToolValidate.{
  Problem, digest_problems, not_a_digest, wrong_signature, digest_of, signature_or_digest_valid,
}

some_text : (b : Bool) (s d : String) → (if b then some s else none) ≡ some d → s ≡ d
some_text true s d h = cc
some_text false s d h = cc

digest_of_text : (v : Value) (d : String) → digest_of v ≡ some d → v ≡ str d
digest_of_text (str s) d h = ap str (some_text (starts_with s "sha256:") s d h)
digest_of_text (_) d h = cc

same : (a b : String) → not (a == b) ≡ false → a ≡ b
same a b e = ground (arith, eq_iff a b)

stated :
    (missing wrong : Problem) (o : Option String) (expected : String)
    → digest_problems missing wrong o expected ≡ []
    → o ≡ some expected
stated missing wrong none expected h = cc
stated missing wrong (some digest) expected h =
    ap some (same digest expected (when-eq-nil _ wrong h))

module _ ⦃py : Host⦄ where
  pub legacy-put :
      (v : Value) (d : Fields)
      → canonical_hash_legacy (put signature_field v d) ≡ canonical_hash_legacy d
  unfolding canonical_hash_legacy
  legacy-put v d = rw (without-put hash_excluded_fields signature_field v d refl) refl

  starts_with-legacy : (d : Fields) → starts_with (canonical_hash_legacy d) "sha256:" ≡ true
  unfolding canonical_hash_legacy prefixed_digest
  starts_with-legacy d = starts_with-append "sha256:" _

  digest_of-legacy :
      (d : Fields) → digest_of (str (canonical_hash_legacy d)) ≡ some (canonical_hash_legacy d)
  digest_of-legacy d = rw (starts_with-legacy d) refl

  -- The signature_or_digest of an artifact passes its check exactly when it is the digest of the
  -- artifact; the field itself does not count in the digest.
  pub signature_or_digest_valid_iff :
      (d : Fields)
      → (signature_or_digest_valid d ≡ []) ↔ (get signature_field d ≡ str (canonical_hash_legacy d))
  unfolding signature_or_digest_valid
  signature_or_digest_valid_iff d = (
    λ h.
        digest_of_text (get signature_field d) _ (stated _ _ _ _ h)
        ∙ ap str (legacy-put (str placeholder_digest) d),
    λ e.
        ap
          (λ o.
            digest_problems not_a_digest wrong_signature o
              (canonical_hash_legacy (put signature_field (str placeholder_digest) d)))
          (ap digest_of e ∙ digest_of-legacy d)
        ∙ rw (legacy-put (str placeholder_digest) d, eq_refl (canonical_hash_legacy d)) refl,
  )

  -- An artifact that is signed with its own digest passes the check of its signature.
  pub sign-valid :
      (d : Fields)
      → signature_or_digest_valid (put signature_field (str (canonical_hash_legacy d)) d) ≡ []
  sign-valid d =
      let h = str (canonical_hash_legacy d) in
      (signature_or_digest_valid_iff (put signature_field h d)).1
        (get-put_self signature_field h d ∙ ap str (sym (legacy-put h d)))
