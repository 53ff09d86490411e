-- ===== src/Hash/Digest.antt =====
-- What the digests of hash.py depend on, and that an attached digest is the digest of its artifact.
use pcs_core.Prelude.{
  String, List, ◌≡◌, refl, ap, ◌∙◌, ◌↔◌, Bool, true, false, none, arith, elem, Bool-cases, inl, inr,
  Result, ok, err, ◌>>=◌, ◌>>◌,
}
use pcs_core.Json.{Value, str, obj, Fields, end, field}
use pcs_core.Json.Text.{dumps}
use pcs_core.Json.Dict.{lookup, get, put, without, lookup-without, get-put_self, without-put}
use pcs_core.Host.{Host}
use pcs_core.Hash.{
  artifact_digest_field, hash_excluded_fields, sort_fields, canonicalize_for_hash,
  canonical_json_bytes, canonical_hash, canonical_hash_legacy, canonical_hash_release,
  prefixed_digest, digest_body, attach_artifact_digest, CanonicalizationError, assert_number_policy,
}
use pcs_core.Hash.Sorting.{HasUniqueKeys}
use pcs_core.Hash.Same.{same_obj, SameEntry, both_absent, sort_keys-Same}
use pcs_core.Hash.Policy.{HasSafeFields, policy_iff}

absent-without :
    (ks : List String) (k : String) (fs : Fields)
    → lookup k fs ≡ none
    → lookup k (without ks fs) ≡ none
absent-without ks k fs h = rw lookup-without (ground arith)

without-HasUniqueKeys :
    (ks : List String) (fs : Fields) → HasUniqueKeys fs → HasUniqueKeys (without ks fs)
unfolding without
without-HasUniqueKeys ks end h = tt
without-HasUniqueKeys ks (field k v fs) h = elim (Bool-cases (elem k ks)) [
  | inl e ↦ rw e (without-HasUniqueKeys ks fs h.1)
  | inr e ↦ rw e (absent-without ks k fs h.0, without-HasUniqueKeys ks fs h.1)
]

SameEntry-without :
    (ks : List String) (a b : Fields) (k : String)
    → (elem k ks ≡ false → SameEntry (lookup k a) (lookup k b))
    → SameEntry (lookup k (without ks a)) (lookup k (without ks b))
SameEntry-without ks a b k h = elim (Bool-cases (elem k ks)) [
  | inl e ↦ rw (lookup-without ks k a, lookup-without ks k b, e) both_absent
  | inr e ↦ rw (lookup-without ks k a, lookup-without ks k b, e) (h e)
]

fields_of : Value → Fields
fields_of (obj fs) = fs
fields_of _ = end

module _ ⦃py : Host⦄ where
  -- Two dictionaries without a repeated key whose entries are equal as JSON, the digest and signature
  -- fields excepted, have the same digest, in whatever order the entries stand, at any depth.
  pub canonical_hash-SameJson :
      (a b : Fields)
      → HasUniqueKeys a
      → HasUniqueKeys b
      → ((k : String) → elem k hash_excluded_fields ≡ false → SameEntry (lookup k a) (lookup k b))
      → canonical_hash_legacy a ≡ canonical_hash_legacy b
  unfolding canonical_hash_legacy
  canonical_hash-SameJson a b ha hb h =
      let ks = hash_excluded_fields in
      ap (λ v. prefixed_digest (dumps v))
        (unfold sort_fields in
          sort_keys-Same (
            same_obj (without-HasUniqueKeys ks a ha) (without-HasUniqueKeys ks b hb)
              (λ k. SameEntry-without ks a b k (h k))))

  -- Without the policy the digest is always produced.
  pub canonical_hash_total : (d : Fields) → canonical_hash false d ≡ ok (canonical_hash_legacy d)
  unfolding canonical_hash canonical_json_bytes canonicalize_for_hash canonical_hash_legacy
  canonical_hash_total d = refl

  guarded_digest :
      (m : Result CanonicalizationError (Unit {0})) (c : Fields) {h : String}
      → ((m >> ok c >>= λ x. ok (dumps (obj x))) >>= λ t. ok (prefixed_digest t)) ≡ ok h
      → (m ≡ ok tt) × (h ≡ prefixed_digest (dumps (obj c)))
  guarded_digest (ok u) c e = (refl, cc)
  guarded_digest (err x) c e = cc

  -- A text is the strict digest of an artifact exactly when the hashed part of the artifact has only
  -- safe numbers and the text is the digest that is computed without the policy. So every other
  -- artifact has no strict digest.
  pub canonical_hash_release_iff :
      (d : Fields) (h : String)
      → (canonical_hash_release d ≡ ok h)
        ↔ (HasSafeFields (without hash_excluded_fields d) × (h ≡ canonical_hash_legacy d))
  unfolding canonical_hash_release canonical_hash canonical_json_bytes canonicalize_for_hash
      canonical_hash_legacy
  canonical_hash_release_iff d h =
      let p = without hash_excluded_fields d in
      let m = assert_number_policy "$" (obj p) in
      (
        λ e.
            let (passed, digest) = guarded_digest m (sort_fields p) e in
            ((policy_iff "$" (obj p)).0 passed, digest),
        λ s. rw ((policy_iff "$" (obj p)).1 s.0, s.1) refl,
      )

  canonical_hash-put :
      (enforce : Bool) (k : String) (v : Value) (d : Fields)
      → elem k hash_excluded_fields ≡ true
      → canonical_hash enforce (put k v d) ≡ canonical_hash enforce d
  unfolding canonical_hash canonical_json_bytes canonicalize_for_hash
  canonical_hash-put enforce k v d h = rw (without-put hash_excluded_fields k v d h) refl

  pub digest_then_put :
      (m : Result CanonicalizationError String) (k : String) (d b : Fields)
      → (m >>= λ h. ok (put k (str h) d)) ≡ ok b
      → (h : String) × (m ≡ ok h) × (put k (str h) d ≡ b)
  digest_then_put (ok h) k d b e = (h, refl, cc)
  digest_then_put (err x) k d b e = cc

  -- An attached digest is the digest of the artifact that carries it, under the same policy.
  pub attach-canonical_hash :
      (enforce : Bool) (d b : Fields)
      → attach_artifact_digest enforce d ≡ ok b
      → (h : String) × (get artifact_digest_field b ≡ str h) × (canonical_hash enforce b ≡ ok h)
  unfolding attach_artifact_digest
  attach-canonical_hash enforce d b e =
      let (h, hashed, done) =
        digest_then_put (canonical_hash enforce (digest_body d)) artifact_digest_field
          (digest_body d) b e in
      (
        h,
        rw (← done) (get-put_self artifact_digest_field (str h) (digest_body d)),
        rw (← done) (
            canonical_hash-put enforce artifact_digest_field (str h) (digest_body d) refl ∙ hashed),
      )
